-- ===== src/Lib.antt =====
-- codewave-timer, a distributed timer: applications create cron jobs, a migrator turns each
-- enabled job into tasks at points in time, a scheduler hands slices of a minute to triggers, and
-- a trigger has the tasks of its slice executed, which posts their callbacks. The instances share
-- a MySQL database and a redis server, and coordinate by locks in redis.
--
-- The parts and their files. Paths are from the repository's root.
-- - Base: numbers, texts as lists of bytes, int64 with its wrap-around, and `Result`, where an
--   error of Go is `err`, a run-time panic is `panic`, and `spin` is a call that does not come
--   back: a loop that has used up the events or the fuel given to it, or the end of the process.
--   Exec: code that changes a world `W` outside and may fail; `attempt` is a call whose error is
--   looked at, `deferred` and `recovered` are Go's defer and recover.
-- - GoLib: what the source uses of Go's standard library, written out: decimal numbers (strconv),
--   strings.Split for one byte, path.Clean, the calendar and time.Time with Format and
--   ParseInLocation for the layouts in use. A time is a number of nanoseconds since the year 0;
--   the local zone is a fixed offset in minutes.
-- - Model, Config: the rows of the two tables, the statuses and the requests
--   (codewaveTimer/internal/biz, internal/constant, internal/types), and the settings of the use
--   cases (internal/config/config.go). Settings: all settings, and GetGlobalConfig, which reads
--   them once (internal/config/config.go).
-- - Keys: the keys of redis and the messages (codewaveTimer/internal/utils/timer.go and time.go,
--   and the key functions of trigger.go and task_cache_redis.go).
-- - Cron: firing times (codewaveTimer/internal/utils/cron.go). The expressions are those of a
--   library that is a parameter; its years end with 2099. The fuel of NextsBetween is the
--   distance from start to end in nanoseconds and one more; each round moves start by at least
--   one nanosecond.
-- - Redis: the redis server, a parameter, with the documented behaviour that is relied on, and
--   the methods of codewaveTimer/pkg/cache/redis-cli.go over it that the use cases call. A
--   request may fail with or without effect.
-- - RedisClient: the whole client of codewaveTimer/pkg/cache/redis-cli.go over the commands of
--   go-redis, which are parameters: Conn is its options and start and what each method does with
--   a connection, Strings to Bloom are the methods by data type, Replies what HMGet, HScan and
--   ZScan convert. The state counts the connections that are taken and not given back.
-- - MemoryCache: codewaveTimer/pkg/cache/memory_cache.go. Heap is TaskHeap with Push of
--   container/heap, whose loop has one round of fuel for each task; Cache is TaskCache, whose Set
--   is two steps between which other threads may run. Order is the heap's order, Contents what
--   callers see.
-- - Lock: codewaveTimer/pkg/lock/redis.go. Options are the options and repairLock; Client is
--   tryLock, delayExpire, Unlock, the watchdog and the two scripts, where a watchdog that is
--   started while an earlier one runs does not come back; Blocking is Lock and SingleFlightLock
--   with their polling loops, which read a list of ticks. Mutex lets any number of clients of one
--   lock run in any order; that a key lapses is a step of its own, which is taken only when
--   nobody holds the lock. Lease adds times to live: EXPIRE sets them, and a key stays until its
--   time is over. Waiting is the progress of a blocking Lock.
-- - Biz: the use cases of codewaveTimer/internal/biz, one file each, over the interfaces in
--   Ports. Biz.Trigger is handleBatch; Biz.Trigger.Run is Work, as a function of the list of
--   events (ticks, ends of goroutines, the end of the wait) in their order. A goroutine's batch
--   is one step, at its end. Biz.Trigger.Run.Kept and Run.Handed follow what the batches of a run
--   leave behind. A period is a number of seconds that is not wrapped around, as its Duration is
--   from 9223372037 seconds on. Biz.SafeChan is internal/utils/channel.go; a put after Close is
--   taken to choose the case of its select that does not panic. Biz.Scheduler.Once is what later
--   workers find after a slice has been acknowledged.
-- - Data: the repositories, the transaction and the task cache of codewaveTimer/internal/data
--   over gorm, a parameter, and redis. Scores are integers; the code makes them float64, which is
--   exact below 2^53 milliseconds. Data.Start is internal/data/init.go. Data.Migration puts the
--   migrator, the cache and the batches of a trigger together, Data.Migration.Called the migrator
--   and a whole Work, and Data.Migration.Pass is a pass of the migrator over all timers.
-- - Service: codewaveTimer/internal/service/service.go and internal/logic. HttpClient:
--   internal/utils/http_client.go and http_option.go.
-- - Handlers: the three handlers of codewaveTimer/internal/handler and
--   internal/middleware/trace_middleware.go, over http.ResponseWriter, whose header goes out
--   once. Routes: internal/handler/routes.go; a server is what it has been given, and its router
--   is a parameter, which cleans the path of a request by path.Clean. Messages:
--   pkg/constant/error.go, internal/response/response.go and internal/utils/error.go. Log:
--   pkg/log/log.go. Pool: internal/utils/pool.go.
-- - Wiring: NewServiceContext of codewaveTimer/internal/svc/servicecontext.go with its two jobs.
--   UseCases has the objects that it makes and their constructors, TimerTask
--   internal/utils/inner_task_timer.go, Trace pkg/trace/trace.go. A goroutine that has begun
--   stands in a list with what its function has captured; Wiring.run_job is its body. log.Fatalf
--   sets `exited` and does not come back. Main: codewaveTimer/codewavetimer.go until its server
--   has been started, with the methods that the handlers call.
-- - Tests: a concrete server, the theorems at concrete inputs, and runs of the definitions.
--
-- Parameters, with their documented behaviour as hypotheses where a theorem needs it: the redis
-- server, gorm, the cron library, JSON, HTTP, the pool of workers, the clock, UUIDs and the
-- tracing library.
--
-- Not modelled: the numbers of goroutines (internal/utils/runtime.go) and the constants of
-- pkg/constant/const.go and internal/constant/worker.go, which no code reads; the tests of the
-- lock; what is printed; and the passing of real time, except where a list of ticks, events or
-- nanoseconds stands for it. The goroutines of a process do not run beside one another in one
-- theorem: the lock, the trigger and the memory cache have their own interleavings.
pub mod Base
pub mod Biz
pub mod Config
pub mod Cron
pub mod Data
pub mod Exec
pub mod GoLib
pub mod Handlers
pub mod HttpClient
pub mod Keys
pub mod Lock
pub mod Log
pub mod Main
pub mod MemoryCache
pub mod Messages
pub mod Model
pub mod Pool
pub mod Redis
pub mod RedisClient
pub mod Routes
pub mod Service
pub mod Settings
pub mod Tests
pub mod TimerTask
pub mod Trace
pub mod UseCases
pub mod Wiring
