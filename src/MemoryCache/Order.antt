-- ===== src/MemoryCache/Order.antt =====
-- The order of the heap of pkg/cache/memory_cache.go, and that Push of container/heap keeps it.
use codewave_timer.Base.{
  ℕ, zero, suc, ◌+◌, ◌-◌, ◌/◌, ◌<◌, ◌==◌, if◌then◌else◌, Bool, true, false, Bool-cases, inl, inr,
  [], ◌∷◌, ◌≡◌, ◌≢◌, refl, ◌∙◌, ap, ok, ℤ, ◌≤ℤ◌, ◌<ℤ◌, ltb_ℤ, length, length-append, arith, ==_iff,
}
use codewave_timer.Base.Arrays.{
  set, get_or, index_in_range, length-set, get_or-set, get_or-snoc, count, count-set, count-append,
}
use codewave_timer.MemoryCache.Heap.{Task, no_task, TaskHeap, less, swap, push, up, heap_push}

abbrev pub run : TaskHeap → ℕ → ℤ
run h k = (get_or h k no_task).run_timer

abbrev pub parent : ℕ → ℕ
parent k = (k - 1) / 2

-- No task runs before its parent.
abbrev pub IsHeap : TaskHeap → Type 0
IsHeap h = (k : ℕ) → 0 < k → k < length h → run h (parent k) ≤ℤ run h k

-- The order but for the task at `j`, which may run before its parent.
record RisesAt (h : TaskHeap) (j : ℕ) : Type 0 where
  others : (k : ℕ) → 0 < k → k < length h → k ≢ j → run h (parent k) ≤ℤ run h k
  below : (k : ℕ) → 0 < k → k < length h → parent k ≡ j → 0 < j → run h (parent j) ≤ℤ run h k

exchange : TaskHeap → ℕ → ℕ → TaskHeap
exchange h i j = set (set h i (get_or h j no_task)) j (get_or h i no_task)

module _ (h : TaskHeap) (i j : ℕ) (hi : i < length h) (hj : j < length h) where
  less_lem : less h i j ≡ ok (ltb_ℤ (run h i) (run h j))
  unfolding less
  less_lem = rw (index_in_range h i no_task hi, index_in_range h j no_task hj)

  swap-exchange : swap h i j ≡ ok (exchange h i j)
  unfolding swap exchange
  swap-exchange = rw (index_in_range h i no_task hi, index_in_range h j no_task hj)

  length-exchange : length (exchange h i j) ≡ length h
  unfolding exchange
  length-exchange =
      rw (length-set (set h i (get_or h j no_task)) j (get_or h i no_task))
        (length-set h i (get_or h j no_task))

  get_or-exchange :
      (k : ℕ)
      → get_or (exchange h i j) k no_task ≡ (
          if j == k
          then get_or h i no_task
          else if i == k
          then get_or h j no_task
          else get_or h k no_task)
  unfolding exchange
  get_or-exchange k =
      rw
        (get_or-set (set h i (get_or h j no_task)) j k (get_or h i no_task) no_task
          (omega (arith, length-set h i (get_or h j no_task))))
        (rw (get_or-set h i k (get_or h j no_task) no_task hi))

  count-exchange : (p : Task → Bool) → count p (exchange h i j) ≡ count p h
  unfolding exchange
  count-exchange p =
      let b = get_or h j no_task in
      ground (
        arith,
        count-set p (set h i b) j (get_or h i no_task) no_task (omega (arith, length-set h i b)),
        count-set p h i b no_task hi,
        get_or-set h i j b no_task hi,
      )

module _ (h : TaskHeap) (j : ℕ) (hj : 0 < j) (lj : j < length h) (r : RisesAt h j) where
  run-exchange :
      (k : ℕ)
      → run (exchange h (parent j) j) k
        ≡ (if j == k then run h (parent j) else if parent j == k then run h j else run h k)
  run-exchange k = ground (arith, get_or-exchange h (parent j) j (omega arith) lj k)

  module _ (smaller : run h j <ℤ run h (parent j)) where
    exchange-others :
        (k : ℕ)
        → 0 < k
        → k < length h
        → k ≢ parent j
        → run (exchange h (parent j) j) (parent k) ≤ℤ run (exchange h (parent j) j) k
    exchange-others k hk lk ne =
        ground (arith, run-exchange k, run-exchange (parent k), r.others k, r.below k)

    exchange-below :
        (k : ℕ)
        → 0 < k
        → k < length h
        → parent k ≡ parent j
        → 0 < parent j
        → run (exchange h (parent j) j) (parent (parent j)) ≤ℤ run (exchange h (parent j) j) k
    exchange-below k hk lk e hp =
        ground
          (arith, run-exchange k, run-exchange (parent (parent j)), r.others k, r.others (parent j))

    exchange-RisesAt : RisesAt (exchange h (parent j) j) (parent j)
    exchange-RisesAt =
        let e = length-exchange h (parent j) j (omega arith) lj in
        record {
          others = λ k hk lk. exchange-others k hk (omega (arith, e));
          below = λ k hk lk. exchange-below k hk (omega (arith, e));
        }

-- The heap that `up` leaves has the same tasks.
abbrev Risen : TaskHeap → TaskHeap → Type 0
Risen h h' = IsHeap h' × (length h' ≡ length h) × ((p : Task → Bool) → count p h' ≡ count p h)

RisesAt-done :
    (h : TaskHeap) (j : ℕ) → RisesAt h j → (0 < j → run h (parent j) ≤ℤ run h j) → IsHeap h
RisesAt-done h j r at k hk lk = ground (arith, r.others k, at)

-- The three ways of a round.
module _ (fuel j : ℕ) (h : TaskHeap) where
  up_root : parent j ≡ j → up (suc fuel) j h ≡ ok h
  unfolding up
  up_root e = ground arith

  module _ (li : parent j < length h) (lj : j < length h) (more : parent j ≢ j) where
    up_stop : ltb_ℤ (run h j) (run h (parent j)) ≡ false → up (suc fuel) j h ≡ ok h
    unfolding up
    up_stop e = ground (arith, less_lem h j (parent j) lj li)

    up_step :
        ltb_ℤ (run h j) (run h (parent j)) ≡ true
        → up (suc fuel) j h ≡ up fuel (parent j) (exchange h (parent j) j)
    unfolding up
    up_step e = ground (arith, less_lem h j (parent j) lj li, swap-exchange h (parent j) j li lj)

-- `up` ends within `j + 1` rounds, with the heap in order.
up_lem :
    (fuel j : ℕ) (h : TaskHeap)
    → j < fuel
    → j < length h
    → RisesAt h j
    → (h' : TaskHeap) × (up fuel j h ≡ ok h') × Risen h h'
up_lem zero j h lt lj r = absurd (omega arith)
up_lem (suc fuel) j h lt lj r = elim (Bool-cases (parent j == j)) [
  | inl root ↦ (
    h,
    up_root fuel j h ((==_iff (parent j) j).0 root),
    (RisesAt-done h j r (λ p. absurd (ground arith)), refl, λ p. refl),
  )
  | inr more ↦
      let li : parent j < length h = omega arith in
      let ne : parent j ≢ j = ground arith in
      elim (Bool-cases (ltb_ℤ (run h j) (run h (parent j)))) [
        | inr stop ↦ (
          h,
          up_stop fuel j h li lj ne stop,
          (RisesAt-done h j r (λ p. ground arith), refl, λ p. refl),
        )
        | inl go ↦
            let (h', e, (o, l, c)) =
              up_lem fuel (parent j) (exchange h (parent j) j) (omega arith)
                (omega (arith, length-exchange h (parent j) j li lj))
                (exchange-RisesAt h j (omega arith) lj r (ground arith)) in
            (
              h',
              up_step fuel j h li lj ne go ∙ e,
              (
                o,
                omega (arith, l, length-exchange h (parent j) j li lj),
                λ p. omega (arith, c p, count-exchange h (parent j) j li lj p),
              ),
            )
      ]
]

run-push : (h : TaskHeap) (x : Task) (k : ℕ) → k < length h → run (push h x) k ≡ run h k
unfolding push
run-push h x k l = ap (λ (t : Task). t.run_timer) (get_or-snoc h x no_task k l)

push-RisesAt : (h : TaskHeap) (x : Task) → IsHeap h → RisesAt (push h x) (length h)
push-RisesAt h x o =
    let e : length (push h x) ≡ length h + 1 = unfold push in length-append h (x ∷ []) in
    record {
      others = λ k hk lk ne.
          rw (run-push h x k (omega (arith, e)))
            (rw (run-push h x (parent k) (omega (arith, e))) (o k hk (omega (arith, e))));
      below = λ k hk lk ek hl. absurd (omega (arith, e));
    }

-- heap.Push never fails, keeps the order and adds the task.
pub heap_push_lem :
    (h : TaskHeap) (x : Task)
    → IsHeap h
    → (h' : TaskHeap) × (heap_push h x ≡ ok h')
      × IsHeap h'
      × ((p : Task → Bool) → count p h' ≡ count p h + (if p x then 1 else 0))
unfolding heap_push
heap_push_lem h x o =
    let (h', e, (o', l, c)) =
      up_lem (suc (length h)) (length h) (push h x) (omega arith)
        (unfold push in omega (arith, length-append h (x ∷ []))) (push-RisesAt h x o) in
    (h', e, o', λ p. unfold push in omega (arith, c p, count-append p h (x ∷ [])))

-- In an ordered heap the first task runs first.
pub IsHeap-first :
    (fuel : ℕ) (h : TaskHeap) → IsHeap h → (k : ℕ) → k < fuel → k < length h → run h 0 ≤ℤ run h k
IsHeap-first zero h o k lt l = absurd (omega arith)
IsHeap-first (suc fuel) h o k lt l = ground (arith, o k, IsHeap-first fuel h o (parent k))
