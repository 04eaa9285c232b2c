-- ===== src/MemoryCache/Cache.antt =====
-- pkg/cache/memory_cache.go: TaskCache, a sync.Map and the heap under its lock.
use codewave_timer.Base.{
  if◌then◌else◌, Bool, true, false, ◌&&◌, List, [], Option, none, some, Result, ok, ℤ, leb_ℤ, eqb_ℤ,
  select, ◌>>=◌,
}
use codewave_timer.MemoryCache.Heap.{Task, no_task, TaskHeap, heap_push}

pub record TaskCache : Type 0 where
  pub tasks : ℤ → Option Task
  pub task_heap : TaskHeap

abbrev pub new_task_cache : TaskCache
new_task_cache = record { tasks = λ k. none; task_heap = [] }

-- The two steps of `Set`; another thread may run between them.
unfoldable pub store : ℤ → Task → TaskCache → TaskCache
store key value c = record c { tasks = λ k. if eqb_ℤ key k then some value else c.tasks k }

unfoldable pub push_locked : Task → TaskCache → Result TaskCache
push_locked value c = do h ← heap_push c.task_heap value; ok (record c { task_heap = h })

-- Set
unfoldable pub set_task : ℤ → Task → TaskCache → Result TaskCache
set_task key value c = push_locked value (store key value c)

-- Get
abbrev pub loaded : Option Task → Task × Bool
loaded none = (no_task, false)
loaded (some t) = (t, true)

unfoldable pub get : ℤ → TaskCache → Task × Bool
get key c = loaded (c.tasks key)

abbrev pub in_range : ℤ → ℤ → Task → Bool
in_range start end t = leb_ℤ start t.run_timer && leb_ℤ t.run_timer end

-- RangeQuery
unfoldable pub range_query : ℤ → ℤ → TaskCache → List Task
range_query start end c = select (in_range start end) c.task_heap
