-- ===== src/Biz/SafeChan.antt =====
-- The channel of errors of a trigger: internal/utils/channel.go. Nobody waits on it: readers and
-- writers go on when it is empty or full.
use codewave_timer.Base.{
  refl, sym, ap, subst, inl, inr, Bool-cases, panic, ℕ, Bool, true, false, List, [], ◌∷◌, ◌++◌,
  length, ltb, if◌then◌else◌, Option, none, some, Result, ok, spin, suc, ◌≡◌, arith,
}

pub record SafeChan {ℓ} (A : Type ℓ) : Type ℓ where
  pub size : ℕ
  pub items : List A  -- oldest first
  pub closed : Bool

module _ {ℓ} {A : Type ℓ} where
  unfoldable pub new_safe_chan : ℕ → SafeChan A
  new_safe_chan size = record { size = size; items = []; closed = false }

  -- Put on an open channel, which drops the element when it is full. On a closed one this is the case
  -- of the context; `Puts` has the other.
  unfoldable pub put : A → SafeChan A → SafeChan A
  put a c =
      if c.closed
      then c
      else if ltb (length c.items) c.size
      then record c { items = c.items ++ a ∷ [] }
      else c

  -- `select { case e := <-c.GetChan(): …; default: … }` on an open channel
  unfoldable pub poll : SafeChan A → Option A × SafeChan A
  poll c = elim c.items [ [] ↦ (none, c) | a ∷ rest ↦ (some a, record c { items = rest }) ]

  unfoldable pub close : SafeChan A → SafeChan A
  close c = record c { closed = true }

  -- Get: waits on an open channel that is empty; a closed one gives nil.
  unfoldable pub get : SafeChan A → Result (Option A) × SafeChan A
  get c = elim c.items [
    | [] ↦ (if c.closed then ok none else spin, c)
    | a ∷ rest ↦ (ok (some a), record c { items = rest })
  ]

  -- What is put on an open channel with room and nothing in it is what Get gives.
  get-put : (a : A) (size : ℕ) → (get (put a (new_safe_chan (suc size)))).0 ≡ ok (some a)
  unfolding get put new_safe_chan
  get-put a size = ground arith

  -- What Put may do: any case of its select that is ready, or the default if none is. On a closed
  -- channel that is the end of the context, and the send, which panics.
  data Puts (a : A) (c : SafeChan A) : Result (SafeChan A) → Type ℓ where
    context_done : c.closed ≡ true → Puts a c (ok c)
    send_panics : c.closed ≡ true → Puts a c panic
    sends :
        c.closed ≡ false
        → ltb (length c.items) c.size ≡ true
        → Puts a c (ok (record c { items = c.items ++ a ∷ [] }))
    drops : c.closed ≡ false → ltb (length c.items) c.size ≡ false → Puts a c (ok c)

  -- `put` is what Put does on an open channel, and one of the things that it may do on a closed one.
  Puts-put :
      (a : A) (c : SafeChan A) (r : Result (SafeChan A))
      → c.closed ≡ false
      → Puts a c r
      → r ≡ ok (put a c)
  unfolding put
  Puts-put a c r is_open (context_done over) = absurd (cc (is_open, over))
  Puts-put a c r is_open (send_panics over) = absurd (cc (is_open, over))
  Puts-put a c r is_open (sends o room) = ap ok (sym (rw (is_open, room) refl))
  Puts-put a c r is_open (drops o full) = ap ok (sym (rw (is_open, full) refl))

  put-Puts : (a : A) (c : SafeChan A) → Puts a c (ok (put a c))
  unfolding put
  put-Puts a c = elim (Bool-cases c.closed) [
    | inl over ↦
        subst (λ (d : SafeChan A). Puts a c (ok d)) (sym (rw over refl)) (context_done over)
    | inr is_open ↦ elim (Bool-cases (ltb (length c.items) c.size)) [
      | inl room ↦
          subst (λ (d : SafeChan A). Puts a c (ok d)) (sym (rw (is_open, room) refl))
            (sends is_open room)
      | inr full ↦
          subst (λ (d : SafeChan A). Puts a c (ok d)) (sym (rw (is_open, full) refl))
            (drops is_open full)
    ]
  ]
