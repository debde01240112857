-- ===== src/IdList/Planning/Order.antt =====
-- `order_and_dedupe_tasks`. A score is `class * 2^40 + seq`; it is an `f64` in the source, exact for
-- the integers below 2^53 and so for every queue of at most 2^40 tasks.
use mathlib.Core.Logic.{inl, inr}
use statsig_forward_proxy.Prelude.{
  ℕ, ◌+◌, ◌*◌, ◌≡◌, ◌≤◌, Bool, true, false, ◌&&◌, List, [], ◌∷◌, arith, text_beq, text_beq_refl,
  text_beq_sound, text_leb, text_leb_total, text_leb_trans, text_leb_antisymm, if◌then◌else◌, ltb,
  any, sort_by, Bool-cases,
}
use statsig_forward_proxy.IdList.Planning.Decide.{
  DerivedTask, SyncAction, full_load, delta, remove, action_class, action_lag,
}

-- The comparison of the names, which comes last.
unfoldable pub names_leb : DerivedTask → DerivedTask → Bool
names_leb a b = if text_beq a.skh b.skh then text_leb a.list b.list else text_leb a.skh b.skh

-- The smaller class first, then the larger lag, then `last`.
unfoldable pub ranks : ℕ → ℕ → ℕ → ℕ → Bool → Bool
ranks c c' l l' last =
    if ltb c c'
    then true
    else if ltb c' c
    then false
    else if ltb l' l
    then true
    else if ltb l l'
    then false
    else last

-- `a.cmp(&b) != Greater` for the comparison of the sort: by class, then the larger lag, then the
-- names.
unfoldable pub task_leb : DerivedTask → DerivedTask → Bool
unfolding ranks names_leb
task_leb a b =
    ranks (action_class a.action) (action_class b.action) (action_lag a.action)
      (action_lag b.action) (names_leb a b)

-- Tasks of the same list of the same company.
abbrev pub same_key : DerivedTask → DerivedTask → Bool
same_key a b = text_beq a.skh b.skh && text_beq a.list b.list

-- `seq_by_class`.
pub record Sequences : Type 0 where
  pub full_loads : ℕ
  pub deltas : ℕ
  pub removals : ℕ

abbrev pub seq_of : SyncAction → Sequences → ℕ
seq_of full_load q = q.full_loads
seq_of (delta lag) q = q.deltas
seq_of remove q = q.removals

abbrev pub advance : SyncAction → Sequences → Sequences
advance full_load q = record {
  full_loads = q.full_loads + 1;
  deltas = q.deltas;
  removals = q.removals;
}
advance (delta lag) q = record {
  full_loads = q.full_loads;
  deltas = q.deltas + 1;
  removals = q.removals;
}
advance remove q = record {
  full_loads = q.full_loads;
  deltas = q.deltas;
  removals = q.removals + 1;
}

abbrev pub class_score_base : ℕ
class_score_base = 0x100_0000_0000

abbrev pub task_score : ℕ → ℕ → ℕ
task_score class_of seq = class_of * class_score_base + seq

-- The loop over the sorted tasks; `seen` stands for the set of the keys met.
unfoldable pub assign : List DerivedTask → Sequences → List DerivedTask → List (ℕ × DerivedTask)
assign seen q [] = []
assign seen q (t ∷ ts) =
    let skipped = assign seen q ts in
    let rest = assign (t ∷ seen) (advance t.action q) ts in
    if any (same_key t) seen
    then skipped
    else (task_score (action_class t.action) (seq_of t.action q), t) ∷ rest

unfoldable pub order_and_dedupe_tasks : List DerivedTask → List (ℕ × DerivedTask)
unfolding assign sort_by task_leb
order_and_dedupe_tasks tasks =
    assign [] (record { full_loads = 0; deltas = 0; removals = 0 }) (sort_by task_leb tasks)

pub same_key_symm : (a b : DerivedTask) → same_key a b ≡ same_key b a
same_key_symm a b = ground (
  arith,
  text_beq_sound a.skh b.skh,
  text_beq_sound b.skh a.skh,
  text_beq_sound a.list b.list,
  text_beq_sound b.list a.list,
  text_beq_refl a.skh,
  text_beq_refl a.list,
)

pub same_key_trans :
    (a b c : DerivedTask) → same_key a b ≡ true → same_key b c ≡ true → same_key a c ≡ true
same_key_trans a b c h k = ground (
  arith,
  text_beq_sound a.skh b.skh,
  text_beq_sound b.skh c.skh,
  text_beq_sound a.list b.list,
  text_beq_sound b.list c.list,
  text_beq_refl a.skh,
  text_beq_refl a.list,
)

pub same_key_refl : (a : DerivedTask) → same_key a a ≡ true
same_key_refl a = ground (arith, text_beq_refl a.skh, text_beq_refl a.list)

names_leb_total : (a b : DerivedTask) → names_leb a b ≡ false → names_leb b a ≡ true
unfolding names_leb
names_leb_total a b h = ground (
  arith,
  text_leb_total a.skh b.skh,
  text_leb_total a.list b.list,
  text_beq_sound a.skh b.skh,
  text_beq_sound b.skh a.skh,
  text_beq_refl a.skh,
)

names_leb_trans :
    (a b c : DerivedTask) → names_leb a b ≡ true → names_leb b c ≡ true → names_leb a c ≡ true
unfolding names_leb
names_leb_trans a b c h k = ground (
  arith,
  text_beq_sound a.skh b.skh,
  text_beq_sound b.skh c.skh,
  text_beq_sound a.skh c.skh,
  text_beq_refl a.skh,
  text_leb_trans a.skh b.skh c.skh,
  text_leb_trans a.list b.list c.list,
  text_leb_antisymm a.skh b.skh,
)

ranks_total :
    (c c' l l' : ℕ) (n n' : Bool)
    → (n ≡ false → n' ≡ true)
    → ranks c c' l l' n ≡ false
    → ranks c' c l' l n' ≡ true
unfolding ranks
ranks_total c c' l l' n n' h k = ground arith

ranks_trans :
    (c c' c2 l l' l2 : ℕ) (n n' n2 : Bool)
    → (n ≡ true → n' ≡ true → n2 ≡ true)
    → ranks c c' l l' n ≡ true
    → ranks c' c2 l' l2 n' ≡ true
    → ranks c c2 l l2 n2 ≡ true
unfolding ranks
ranks_trans c c' c2 l l' l2 n n' n2 h k k' = ground arith

pub task_leb_total : (a b : DerivedTask) → task_leb a b ≡ false → task_leb b a ≡ true
unfolding task_leb
task_leb_total a b h =
    ranks_total (action_class a.action) (action_class b.action) (action_lag a.action)
      (action_lag b.action) (names_leb a b) (names_leb b a) (names_leb_total a b) h

pub task_leb_trans :
    (a b c : DerivedTask) → task_leb a b ≡ true → task_leb b c ≡ true → task_leb a c ≡ true
unfolding task_leb
task_leb_trans a b c h k =
    ranks_trans (action_class a.action) (action_class b.action) (action_class c.action)
      (action_lag a.action) (action_lag b.action) (action_lag c.action) (names_leb a b)
      (names_leb b c) (names_leb a c) (names_leb_trans a b c) h k

pub task_leb_refl : (a : DerivedTask) → task_leb a a ≡ true
task_leb_refl a = elim (Bool-cases (task_leb a a)) [ inl e ↦ e | inr e ↦ task_leb_total a a e ]

-- The order puts a smaller class first.
pub task_leb-class :
    (a b : DerivedTask) → task_leb a b ≡ true → action_class a.action ≤ action_class b.action
unfolding task_leb ranks
task_leb-class a b h = ground arith
