-- ===== src/Biz/Trigger/Fallback.antt =====
-- The rows of the database that a trigger keeps when the cache has failed: the loop of getTasksByTime
-- in internal/biz/trigger.go.
use codewave_timer.Base.{
  ℕ, ◌<◌, ◌≡◌, ◌↔◌, ◌⊎◌, ap, ◌∙◌, refl, arith, Bool, true, false, Has, inl, inr, List, [], ◌∷◌, ℤ,
  if◌then◌else◌, Result, ok, ◌>>=◌,
}
use codewave_timer.Keys.{in_bucket}
use codewave_timer.Keys.Buckets.{in_bucket-total}
use codewave_timer.Model.{TaskTimer}

keep_if : Bool → TaskTimer → List TaskTimer → List TaskTimer
keep_if mine task rest = if mine then task ∷ rest else rest

unfoldable pub valid_tasks : ℕ → ℤ → List TaskTimer → Result (List TaskTimer)
unfolding keep_if
valid_tasks max_bucket bucket [] = ok []
valid_tasks max_bucket bucket (task ∷ tasks) = in_bucket max_bucket bucket task >>= λ mine.
    valid_tasks max_bucket bucket tasks >>= λ rest. ok (keep_if mine task rest)

-- Splits a row's membership off the list.
Has-keep_if :
    (mine : Bool) (t task : TaskTimer) (rest : List TaskTimer) (P : Type 0)
    → (Has t rest ↔ P)
    → Has t (keep_if mine task rest) ↔ (((mine ≡ true) × (t ≡ task)) ⊎ P)
unfolding keep_if
Has-keep_if true t task rest P h = (
  λ o. elim o [ inl e ↦ inl (refl, e) | inr o ↦ inr (h.0 o) ],
  λ o. elim o [ inl e ↦ inl e.1 | inr p ↦ inr (h.1 p) ],
)
Has-keep_if false t task rest P h =
    (λ o. inr (h.0 o), λ o. elim o [ inl e ↦ absurd (ground arith) | inr p ↦ h.1 p ])

↔-trans : {A B C : Type 0} → A ↔ B → B ↔ C → A ↔ C
↔-trans f g = (λ a. g.0 (f.0 a), λ c. f.1 (g.1 c))

row_iff :
    (n : ℕ) (b : ℤ) (t task : TaskTimer) (mine : Bool) (P : Type 0)
    → in_bucket n b task ≡ ok mine
    → (((mine ≡ true) × (t ≡ task)) ⊎ (P × (in_bucket n b t ≡ ok true)))
      ↔ (((t ≡ task) ⊎ P) × (in_bucket n b t ≡ ok true))
row_iff n b t task mine P e = (
  λ o. elim o [
    | inl (m, same) ↦ (inl same, ap (in_bucket n b) same ∙ e ∙ ap ok m)
    | inr (p, i) ↦ (inr p, i)
  ],
  λ (o, i). elim o [
    | inl same ↦ inl (cc (e, i, ap (in_bucket n b) same), same)
    | inr p ↦ inr (p, i)
  ],
)

-- With a bucket number that is not 0, the rows are filtered without a panic, and a row is kept exactly
-- when it is one of the rows and belongs to the bucket.
pub valid_tasks_iff :
    (n : ℕ) (b : ℤ) (rows : List TaskTimer)
    → 0 < n
    → (kept : List TaskTimer) × (valid_tasks n b rows ≡ ok kept)
      × ((t : TaskTimer) → Has t kept ↔ (Has t rows × (in_bucket n b t ≡ ok true)))
unfolding valid_tasks
valid_tasks_iff n b [] h = ([], refl, λ t. (λ o. elim o [ ], λ o. o.0))
valid_tasks_iff n b (task ∷ rows) h =
    let (kept, e, iff) = valid_tasks_iff n b rows h in
    let (mine, e') = in_bucket-total n b task h in
    (
      keep_if mine task kept,
      rw (e', e),
      λ t.
          ↔-trans (Has-keep_if mine t task kept _ (iff t))
            (row_iff n b t task mine (Has t rows) e'),
    )
