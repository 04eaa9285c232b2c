-- ===== src/MemoryCache.antt =====
-- pkg/cache/memory_cache.go: the tasks of the process, in a sync.Map and in a min-heap of
-- container/heap.
pub mod Heap
pub mod Cache
pub mod Order
pub mod Contents
