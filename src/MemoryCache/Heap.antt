-- ===== src/MemoryCache/Heap.antt =====
-- pkg/cache/memory_cache.go: the tasks and TaskHeap, with Push of container/heap over it.
use codewave_timer.Base.{
  ℕ, zero, suc, ◌-◌, ◌/◌, ◌==◌, Bool, true, false, List, [], ◌∷◌, ◌++◌, Result, ok, panic, spin, ℤ,
  pos, ltb_ℤ, length, ◌>>=◌,
}
use codewave_timer.Base.Arrays.{index, set}

pub record Task : Type 0 where
  pub timer_id : ℤ
  pub run_timer : ℤ

-- Task{}
abbrev pub no_task : Task
no_task = record { timer_id = pos 0; run_timer = pos 0 }

abbrev pub TaskHeap : Type 0
TaskHeap = List Task

-- Less
unfoldable pub less : TaskHeap → ℕ → ℕ → Result Bool
less h i j = do a ← index h i; b ← index h j; ok (ltb_ℤ a.run_timer b.run_timer)

-- Swap
unfoldable pub swap : TaskHeap → ℕ → ℕ → Result TaskHeap
swap h i j = do a ← index h i; b ← index h j; ok (set (set h i b) j a)

-- Push
unfoldable pub push : TaskHeap → Task → TaskHeap
push h x = h ++ x ∷ []

-- Pop: `old[n-1]` and `old[0 : n-1]`.
unfoldable pub pop : TaskHeap → Result (Task × TaskHeap)
pop [] = panic
pop (x ∷ []) = ok (x, [])
pop (x ∷ y ∷ h) = do (z, rest) ← pop (y ∷ h); ok (z, x ∷ rest)

-- up of container/heap: the loop moves the element at `j` towards the root.
unfoldable pub up : ℕ → ℕ → TaskHeap → Result TaskHeap
up zero j h = spin
up (suc fuel) j h =
    let i = (j - 1) / 2 in
    elim (i == j) [
      | true ↦ ok h
      | false ↦
          less h j i >>= λ b. elim b [ true ↦ swap h i j >>= λ h'. up fuel i h' | false ↦ ok h ]
    ]

-- heap.Push: `Push`, then `up` from the last place.
unfoldable pub heap_push : TaskHeap → Task → Result TaskHeap
heap_push h x = up (suc (length h)) (length h) (push h x)
