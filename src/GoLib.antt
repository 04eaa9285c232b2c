-- ===== src/GoLib.antt =====
-- What the program uses of Go's standard library: decimal numbers, `strings.Split`, `path.Clean`, and times with
-- the layout "2006-01-02 15:04".
pub mod Decimal
pub mod Split
pub mod Path
pub mod Calendar
pub mod Clock
