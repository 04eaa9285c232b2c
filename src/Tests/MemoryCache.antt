-- ===== src/Tests/MemoryCache.antt =====
-- Tests of the memory cache, and its theorems at concrete tasks.
use codewave_timer.Base.{ℤ, pos, List, [], ◌∷◌, ◌≡◌, refl, ok, true, false, ◌>>=◌}
use codewave_timer.MemoryCache.Heap.{Task, no_task, less, swap, push, up, heap_push}
use codewave_timer.MemoryCache.Cache.{TaskCache, store, push_locked, set_task, get, range_query}
use codewave_timer.MemoryCache.Contents.{
  Event, stored, pushed, after, after-Refines, Refines, set_all, set_all-Refines, steps,
}

abbrev task : ℤ → ℤ → Task
task id at = record { timer_id = id; run_timer = at }

abbrev two_sets : List (ℤ × Task)
two_sets =
    (pos 1, task (pos 8) (pos 3))
    ∷ (pos 1, task (pos 7) (pos 5))
    ∷ (pos 2, task (pos 6) (pos 9))
    ∷ []

abbrev overlapping : List Event
overlapping =
    pushed (task (pos 8) (pos 3))
    ∷ pushed (task (pos 7) (pos 5))
    ∷ stored (pos 1) (task (pos 7) (pos 5))
    ∷ stored (pos 1) (task (pos 8) (pos 3))
    ∷ []

after-Refines_example : (c : TaskCache) × (after overlapping ≡ ok c) × Refines c overlapping
after-Refines_example = after-Refines overlapping

set_all-Refines_example : (c : TaskCache) × (set_all two_sets ≡ ok c) × Refines c (steps two_sets)
set_all-Refines_example = set_all-Refines two_sets

-- The heap has both tasks of key 1, the map the last.
two_sets_heap :
    (set_all two_sets >>= λ c. ok c.task_heap)
    ≡ ok (task (pos 8) (pos 3) ∷ task (pos 6) (pos 9) ∷ task (pos 7) (pos 5) ∷ [])
unfolding set_all set_task store push_locked heap_push push up less swap
two_sets_heap = refl

two_sets_range :
    (set_all two_sets >>= λ c. ok (range_query (pos 4) (pos 9) c))
    ≡ ok (task (pos 6) (pos 9) ∷ task (pos 7) (pos 5) ∷ [])
unfolding set_all set_task store push_locked heap_push push up less swap range_query
two_sets_range = refl

two_sets_get :
    (set_all two_sets >>= λ c. ok (get (pos 1) c ∷ get (pos 3) c ∷ []))
    ≡ ok ((task (pos 8) (pos 3), true) ∷ (no_task, false) ∷ [])
unfolding set_all set_task store push_locked heap_push push up less swap get
two_sets_get = refl
