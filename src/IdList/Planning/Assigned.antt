-- ===== src/IdList/Planning/Assigned.antt =====
-- The loop of `order_and_dedupe_tasks` over the sorted tasks: which of them it keeps.
use mathlib.Core.Logic.{inl, inr}
use statsig_forward_proxy.Prelude.{
  ℕ, ◌≡◌, refl, true, false, not, Option, none, some, List, [], ◌∷◌, arith, if◌then◌else◌, any, All,
  All-map, Ordered, Bool-cases,
}
use statsig_forward_proxy.IdList.Planning.Decide.{DerivedTask}
use statsig_forward_proxy.IdList.Planning.Order.{
  same_key, same_key_symm, same_key_trans, Sequences, advance, assign,
}

-- The first task of the list with the key of `k`.
abbrev pub find_task : DerivedTask → List DerivedTask → Option DerivedTask
find_task k [] = none
find_task k (t ∷ ts) = if same_key k t then some t else find_task k ts

abbrev pub queued : List (ℕ × DerivedTask) → List DerivedTask
queued [] = []
queued (e ∷ es) = e.1 ∷ queued es

any-same_key :
    (a b : DerivedTask) (seen : List DerivedTask)
    → same_key a b ≡ true
    → any (same_key a) seen ≡ any (same_key b) seen
any-same_key a b [] h = refl
any-same_key a b (c ∷ cs) h =
    ground
      (arith, any-same_key a b cs h, same_key_trans a b c, same_key_trans b a c, same_key_symm a b)

pub find-assign :
    (k : DerivedTask) (seen : List DerivedTask) (q : Sequences) (ts : List DerivedTask)
    → any (same_key k) seen ≡ false
    → find_task k (queued (assign seen q ts)) ≡ find_task k ts
unfolding assign
find-assign k seen q [] h = refl
find-assign k seen q (t ∷ ts) h = ground (
  arith,
  find-assign k seen q ts h,
  find-assign k (t ∷ seen) (advance t.action q) ts,
  any-same_key k t seen,
)

pub assign-All {κ} :
    (P : DerivedTask → Type κ) (seen : List DerivedTask) (q : Sequences) (ts : List DerivedTask)
    → All P ts
    → All (λ e. P e.1) (assign seen q ts)
unfolding assign
assign-All P seen q [] h = tt
assign-All P seen q (t ∷ ts) h = elim (Bool-cases (any (same_key t) seen)) [
  | inl e ↦ rw e (assign-All P seen q ts h.1)
  | inr e ↦ rw e (h.0, assign-All P (t ∷ seen) (advance t.action q) ts h.1)
]

-- No task of the queue has a key that was seen.
assign-unseen :
    (seen : List DerivedTask) (q : Sequences) (ts : List DerivedTask)
    → All (λ e. any (same_key e.1) seen ≡ false) (assign seen q ts)
unfolding assign
assign-unseen seen q [] = tt
assign-unseen seen q (t ∷ ts) = elim (Bool-cases (any (same_key t) seen)) [
  | inl e ↦ rw e (assign-unseen seen q ts)
  | inr e ↦ rw e (
    e,
    All-map _ _ (assign (t ∷ seen) (advance t.action q) ts) (λ u h. ground (arith, h))
        (assign-unseen (t ∷ seen) (advance t.action q) ts),
  )
]

pub assign-distinct :
    (seen : List DerivedTask) (q : Sequences) (ts : List DerivedTask)
    → Ordered (λ x y. not (same_key x.1 y.1)) (assign seen q ts)
unfolding assign
assign-distinct seen q [] = tt
assign-distinct seen q (t ∷ ts) = elim (Bool-cases (any (same_key t) seen)) [
  | inl e ↦ rw e (assign-distinct seen q ts)
  | inr e ↦ rw e (
    All-map _ _ (assign (t ∷ seen) (advance t.action q) ts)
        (λ u h. ground (arith, h, same_key_symm t u.1))
        (assign-unseen (t ∷ seen) (advance t.action q) ts),
    assign-distinct (t ∷ seen) (advance t.action q) ts,
  )
]
