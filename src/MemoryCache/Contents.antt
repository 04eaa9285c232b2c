-- ===== src/MemoryCache/Contents.antt =====
-- What the callers of TaskCache in pkg/cache/memory_cache.go see, however the steps of their calls
-- interleave: a log of what was stored and pushed.
use codewave_timer.Base.{
  ◌+◌, if◌then◌else◌, Bool, ◌&&◌, List, [], ◌∷◌, Option, none, some, ◌≡◌, refl, ◌∙◌, ap, Result, ok,
  ℤ, eqb_ℤ, ◌>>=◌, select, arith, ℕ, ◌≤ℤ◌, ◌<◌, length,
}
use codewave_timer.Base.Arrays.{count}
use codewave_timer.MemoryCache.Heap.{Task, TaskHeap, push, pop}
use codewave_timer.MemoryCache.Cache.{
  TaskCache, new_task_cache, store, push_locked, set_task, loaded, get, in_range, range_query,
}
use codewave_timer.MemoryCache.Order.{IsHeap, run, heap_push_lem, IsHeap-first}

-- The steps of a `Set`: `tasks.Store`, then the push under the lock.
pub data Event : Type 0 where
  stored : ℤ → Task → Event
  pushed : Task → Event

abbrev pub apply : Event → TaskCache → Result TaskCache
apply (stored key t) c = ok (store key t c)
apply (pushed t) c = push_locked t c

-- The cache after the events of a log, which has the latest first.
pub after : List Event → Result TaskCache
after [] = ok new_task_cache
after (e ∷ log) = after log >>= apply e

-- The abstract view: the last value of a key, and how many pushed tasks pass a test.
abbrev pub last_stored : ℤ → List Event → Option Task
last_stored k [] = none
last_stored k (stored key t ∷ log) =
    let rest = last_stored k log in if eqb_ℤ key k then some t else rest
last_stored k (pushed t ∷ log) = last_stored k log

abbrev pub pushed_count : (Task → Bool) → List Event → ℕ
pushed_count p [] = 0
pushed_count p (stored key t ∷ log) = pushed_count p log
pushed_count p (pushed t ∷ log) = (if p t then 1 else 0) + pushed_count p log

pub record Refines (c : TaskCache) (log : List Event) : Type 0 where
  pub latest : (k : ℤ) → get k c ≡ loaded (last_stored k log)
  pub ranges :
      (start end : ℤ) (p : Task → Bool)
      → count p (range_query start end c) ≡ pushed_count (λ t. in_range start end t && p t) log
  pub first_least : (k : ℕ) → k < length c.task_heap → run c.task_heap 0 ≤ℤ run c.task_heap k

count-select :
    (keep p : Task → Bool) (ts : List Task)
    → count p (select keep ts) ≡ count (λ t. keep t && p t) ts
count-select keep p [] = refl
count-select keep p (t ∷ ts) = ground (arith, count-select keep p ts)

record IsAfter (c : TaskCache) (log : List Event) : Type 0 where
  tasks_eq : (k : ℤ) → c.tasks k ≡ last_stored k log
  ordered : IsHeap c.task_heap
  counted : (p : Task → Bool) → count p c.task_heap ≡ pushed_count p log

store-IsAfter :
    (key : ℤ) (t : Task) (c : TaskCache) (log : List Event)
    → IsAfter c log
    → IsAfter (store key t c) (stored key t ∷ log)
unfolding store
store-IsAfter key t c log i = record {
  tasks_eq = λ k. ap (λ (o : Option Task). if eqb_ℤ key k then some t else o) (i.tasks_eq k);
  ordered = i.ordered;
  counted = i.counted;
}

push-IsAfter :
    (t : Task) (c : TaskCache) (log : List Event)
    → IsAfter c log
    → (c' : TaskCache) × (push_locked t c ≡ ok c') × IsAfter c' (pushed t ∷ log)
unfolding push_locked
push-IsAfter t c log i =
    let (h, e, o, n) = heap_push_lem c.task_heap t i.ordered in
    (
      record c { task_heap = h },
      rw e,
      record { tasks_eq = i.tasks_eq; ordered = o; counted = λ p. omega (arith, n p, i.counted p) },
    )

after-IsAfter : (log : List Event) → (c : TaskCache) × (after log ≡ ok c) × IsAfter c log
unfolding after
after-IsAfter [] = (
  new_task_cache,
  refl,
  record { tasks_eq = λ k. refl; ordered = λ k hk lk. absurd (omega arith); counted = λ p. refl },
)
after-IsAfter (stored key t ∷ log) =
    let (c, e, i) = after-IsAfter log in (store key t c, rw e, store-IsAfter key t c log i)
after-IsAfter (pushed t ∷ log) =
    let (c, e, i) = after-IsAfter log in
    let (c', e', i') = push-IsAfter t c log i in (c', rw e e', i')

IsAfter-Refines : (c : TaskCache) (log : List Event) → IsAfter c log → Refines c log
unfolding get range_query
IsAfter-Refines c log i = record {
  latest = λ k. ap loaded (i.tasks_eq k);
  ranges = λ start end p.
      count-select (in_range start end) p c.task_heap
      ∙ i.counted (λ t. in_range start end t && p t);
  first_least = λ k l. IsHeap-first (k + 1) c.task_heap i.ordered k (omega arith) l;
}

-- Whatever steps of concurrent Sets have run, in whatever order, none has failed or looped, and the
-- cache reads as their log says: Get gives the last task stored under the key, or the zero task and
-- false; RangeQuery gives the pushed tasks whose run time lies in the range, each as often as it was
-- pushed; and no task of the heap runs before its first.
pub after-Refines : (log : List Event) → (c : TaskCache) × (after log ≡ ok c) × Refines c log
after-Refines log = let (c, e, i) = after-IsAfter log in (c, e, IsAfter-Refines c log i)

-- Sets that do not overlap, the latest first, and their steps.
unfoldable pub set_all : List (ℤ × Task) → Result TaskCache
set_all [] = ok new_task_cache
set_all ((key, t) ∷ sets) = set_all sets >>= set_task key t

abbrev pub steps : List (ℤ × Task) → List Event
steps [] = []
steps ((key, t) ∷ sets) = pushed t ∷ stored key t ∷ steps sets

set_all-after : (sets : List (ℤ × Task)) → set_all sets ≡ after (steps sets)
unfolding set_all set_task after
set_all-after [] = refl
set_all-after ((key, t) ∷ sets) =
    let (c, e, i) = after-IsAfter (steps sets) in rw (set_all-after sets, e)

-- After Sets that do not overlap, the cache reads as the log of their steps says.
pub set_all-Refines :
    (sets : List (ℤ × Task)) → (c : TaskCache) × (set_all sets ≡ ok c) × Refines c (steps sets)
set_all-Refines sets = rw (set_all-after sets) (after-Refines (steps sets))

-- What heap.Pop takes off is what Push put there.
pop-push : (h : TaskHeap) (x : Task) → pop (push h x) ≡ ok (x, h)
unfolding push pop
pop-push [] x = refl
pop-push (a ∷ []) x = refl
pop-push (a ∷ b ∷ h) x = ground (arith, pop-push (b ∷ h) x)
