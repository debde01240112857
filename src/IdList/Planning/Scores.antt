-- ===== src/IdList/Planning/Scores.antt =====
-- The scores that the loop of `order_and_dedupe_tasks` gives.
use mathlib.Core.Logic.{inl, inr}
use statsig_forward_proxy.Prelude.{
  subst, ℕ, suc, ◌+◌, ◌≡◌, ◌≤◌, ◌<◌, refl, sym, true, List, [], ◌∷◌, arith, ltb, lt→ltb, length,
  any, All, All-map, Ordered, Bool-cases,
}
use statsig_forward_proxy.IdList.Planning.Decide.{
  DerivedTask, SyncAction, full_load, delta, remove, action_class,
}
use statsig_forward_proxy.IdList.Planning.Order.{
  task_leb, task_leb-class, same_key, Sequences, seq_of, advance, class_score_base, task_score,
  assign,
}
use statsig_forward_proxy.IdList.Planning.Assigned.{assign-All}

-- A score of the loop: the class of the task and a number that `q` has not given out.
abbrev IsScore : Sequences → ℕ × DerivedTask → Type 0
IsScore q e = (k : ℕ) × (e.0 ≡ task_score (action_class e.1.action) k) × (seq_of e.1.action q ≤ k)

seq_of-advance : (a b : SyncAction) (q : Sequences) → seq_of a q ≤ seq_of a (advance b q)
seq_of-advance a b q = ground arith

seq_of-advance_same :
    (a b : SyncAction) (q : Sequences)
    → action_class a ≡ action_class b
    → seq_of a (advance b q) ≡ seq_of b q + 1
seq_of-advance_same a b q h = ground arith

assign-IsScore :
    (seen : List DerivedTask) (q : Sequences) (ts : List DerivedTask)
    → All (IsScore q) (assign seen q ts)
unfolding assign
assign-IsScore seen q [] = tt
assign-IsScore seen q (t ∷ ts) = elim (Bool-cases (any (same_key t) seen)) [
  | inl e ↦ rw e (assign-IsScore seen q ts)
  | inr e ↦ rw e (
    (seq_of t.action q, refl, omega arith),
    All-map _ _ (assign (t ∷ seen) (advance t.action q) ts)
        (λ u h. (h.0, h.1, ground (arith, h.2, seq_of-advance u.1.action t.action q)))
        (assign-IsScore (t ∷ seen) (advance t.action q) ts),
  )
]

-- The sequence numbers stay under the distance of two classes.
pub record HasRoom (q : Sequences) (n : ℕ) : Type 0 where
  pub full_loads : q.full_loads + n ≤ class_score_base
  pub deltas : q.deltas + n ≤ class_score_base
  pub removals : q.removals + n ≤ class_score_base

HasRoom-advance :
    (a : SyncAction) (q : Sequences) (n : ℕ) → HasRoom q (suc n) → HasRoom (advance a q) n
HasRoom-advance full_load q n h = record {
  full_loads = omega (arith, h.full_loads);
  deltas = omega (arith, h.deltas);
  removals = omega (arith, h.removals);
}
HasRoom-advance (delta lag) q n h = record {
  full_loads = omega (arith, h.full_loads);
  deltas = omega (arith, h.deltas);
  removals = omega (arith, h.removals);
}
HasRoom-advance remove q n h = record {
  full_loads = omega (arith, h.full_loads);
  deltas = omega (arith, h.deltas);
  removals = omega (arith, h.removals);
}

HasRoom-skip : (q : Sequences) (n : ℕ) → HasRoom q (suc n) → HasRoom q n
HasRoom-skip q n h = record {
  full_loads = omega (arith, h.full_loads);
  deltas = omega (arith, h.deltas);
  removals = omega (arith, h.removals);
}

HasRoom-seq :
    (a : SyncAction) (q : Sequences) (n : ℕ) → HasRoom q (suc n) → seq_of a q < class_score_base
HasRoom-seq full_load q n h = omega (arith, h.full_loads)
HasRoom-seq (delta lag) q n h = omega (arith, h.deltas)
HasRoom-seq remove q n h = omega (arith, h.removals)

score_lt :
    (c c' s k : ℕ)
    → s < class_score_base
    → c ≤ c'
    → (c' ≡ c → s < k)
    → task_score c s < task_score c' k
score_lt c c' s k small le same = ground arith

later_score :
    (t : DerivedTask) (q : Sequences) (n : ℕ) (e : ℕ × DerivedTask)
    → HasRoom q (suc n)
    → IsScore (advance t.action q) e
    → task_leb t e.1 ≡ true
    → ltb (task_score (action_class t.action) (seq_of t.action q)) e.0 ≡ true
later_score t q n e room (k, is, low) le =
    lt→ltb (task_score (action_class t.action) (seq_of t.action q)) e.0 (
      subst (λ m. task_score (action_class t.action) (seq_of t.action q) < m) (sym is)
        (score_lt (action_class t.action) (action_class e.1.action) (seq_of t.action q) k
          (HasRoom-seq t.action q n room) (task_leb-class t e.1 le)
          (λ same. omega (arith, low, seq_of-advance_same e.1.action t.action q same))))

pub All-both {ℓ κ} :
    {A : Type ℓ} (P Q : A → Type κ) (xs : List A) → All P xs → All Q xs → All (λ x. P x × Q x) xs
All-both P Q [] h k = tt
All-both P Q (x ∷ xs) h k = ((h.0, k.0), All-both P Q xs h.1 k.1)

pub assign-rising :
    (seen : List DerivedTask) (q : Sequences) (ts : List DerivedTask)
    → HasRoom q (length ts)
    → Ordered task_leb ts
    → Ordered (λ x y. ltb x.0 y.0) (assign seen q ts)
unfolding assign
assign-rising seen q [] room h = tt
assign-rising seen q (t ∷ ts) room h = elim (Bool-cases (any (same_key t) seen)) [
  | inl e ↦ rw e (assign-rising seen q ts (HasRoom-skip q (length ts) room) h.1)
  | inr e ↦
      let rest = assign (t ∷ seen) (advance t.action q) ts in
      rw e (
        All-map _ _ rest (λ u p. later_score t q (length ts) u room p.0 p.1)
            (All-both (IsScore (advance t.action q)) (λ u. task_leb t u.1 ≡ true) rest
              (assign-IsScore (t ∷ seen) (advance t.action q) ts)
              (assign-All (λ u. task_leb t u ≡ true) (t ∷ seen) (advance t.action q) ts h.0)),
        assign-rising (t ∷ seen) (advance t.action q) ts
            (HasRoom-advance t.action q (length ts) room) h.1,
      )
]
