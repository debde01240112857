-- ===== src/IdList/Planning/Queue.antt =====
-- The queue that `order_and_dedupe_tasks` gives: its order, its scores and what it keeps.
use mathlib.Core.Logic.{inl, inr}
use statsig_forward_proxy.Prelude.{
  ◌⊎◌, ℕ, ◌≡◌, ◌≤◌, ◌∙◌, refl, Bool, true, false, not, leb, any, some, List, [], ◌∷◌, arith, ltb,
  length, All, All-map, sort_by, sort_by-Ordered, Ordered, All-sort_by, All-unsort_by,
  length-sort_by, Bool-cases,
}
use statsig_forward_proxy.IdList.Planning.Decide.{
  DerivedTask, SyncAction, full_load, delta, remove, action_class, action_lag,
}
use statsig_forward_proxy.IdList.Planning.Order.{
  ranks, names_leb, advance, assign, task_leb, task_leb_refl, task_leb_total, task_leb_trans,
  same_key, same_key_refl, Sequences, class_score_base, order_and_dedupe_tasks,
}
use statsig_forward_proxy.IdList.Planning.Assigned.{
  find_task, queued, find-assign, assign-All, assign-distinct,
}
use statsig_forward_proxy.IdList.Planning.Scores.{HasRoom, All-both, assign-rising}

-- In a list in order the first task with a key comes before every task with that key.
find-least :
    (ts : List DerivedTask)
    → Ordered task_leb ts
    → All (λ t. (u : DerivedTask) × (find_task t ts ≡ some u) × (task_leb u t ≡ true)) ts
find-least [] h = tt
find-least (x ∷ ts) h = (
  (x, rw (same_key_refl x) refl, task_leb_refl x),
  All-map _ _ ts
      (λ t p. elim (Bool-cases (same_key t x)) [
        | inl e ↦ (x, rw e refl, p.0)
        | inr e ↦ (p.1.0, rw e p.1.1, p.1.2)
      ])
      (All-both (λ t. task_leb x t ≡ true)
        (λ t. (u : DerivedTask) × (find_task t ts ≡ some u) × (task_leb u t ≡ true)) ts h.0
        (find-least ts h.1)),
)

abbrev pub Member : DerivedTask → List DerivedTask → Type 0
Member x [] = ⊥
Member x (t ∷ ts) = (x ≡ t) ⊎ Member x ts

members : (ts : List DerivedTask) → All (λ t. Member t ts) ts
members [] = tt
members (t ∷ ts) = (inl refl, All-map _ _ ts (λ u m. inr m) (members ts))

-- The order of the kinds of work: full loads, then appends with the largest lag first, then removals.
abbrev pub no_later : SyncAction → SyncAction → Bool
no_later full_load b = true
no_later (delta lag) full_load = false
no_later (delta lag) (delta lag') = leb lag' lag
no_later (delta lag) remove = true
no_later remove full_load = false
no_later remove (delta lag) = false
no_later remove remove = true

task_leb-no_later : (a b : DerivedTask) → task_leb a b ≡ true → no_later a.action b.action ≡ true
unfolding task_leb ranks
task_leb-no_later a b h = of_action a.action b.action (names_leb a b) h
  where
    of_action :
        (x y : SyncAction) (last : Bool)
        → ranks (action_class x) (action_class y) (action_lag x) (action_lag y) last ≡ true
        → no_later x y ≡ true
    of_action full_load y last k = refl
    of_action (delta l) full_load last k = cc
    of_action (delta l) (delta m) last k = ground arith
    of_action (delta l) remove last k = refl
    of_action remove full_load last k = cc
    of_action remove (delta m) last k = cc
    of_action remove remove last k = refl

assign-in_order :
    (seen : List DerivedTask) (q : Sequences) (ts : List DerivedTask)
    → Ordered task_leb ts
    → Ordered (λ x y. no_later x.1.action y.1.action) (assign seen q ts)
unfolding assign
assign-in_order seen q [] h = tt
assign-in_order seen q (t ∷ ts) h = elim (Bool-cases (any (same_key t) seen)) [
  | inl e ↦ rw e (assign-in_order seen q ts h.1)
  | inr e ↦ rw e (
    All-map _ _ (assign (t ∷ seen) (advance t.action q) ts) (λ u k. task_leb-no_later t u.1 k)
        (assign-All (λ u. task_leb t u ≡ true) (t ∷ seen) (advance t.action q) ts h.0),
    assign-in_order (t ∷ seen) (advance t.action q) ts h.1,
  )
]

-- What the queue is for the tasks of a tick.
pub record IsQueue (tasks : List DerivedTask) (out : List (ℕ × DerivedTask)) : Type 0 where
  pub rising : Ordered (λ x y. ltb x.0 y.0) out
  pub in_order : Ordered (λ x y. no_later x.1.action y.1.action) out
  pub distinct : Ordered (λ x y. not (same_key x.1 y.1)) out
  pub from_tasks : All (λ e. Member e.1 tasks) out
  pub keeps_first :
      All
        (λ t.
          (u : DerivedTask) × (find_task t (queued out) ≡ some u)
          × (no_later u.action t.action ≡ true))
        tasks

enough :
    (tasks : List DerivedTask)
    → length tasks ≤ class_score_base
    → HasRoom
        (record { full_loads = 0; deltas = 0; removals = 0 })
        (length (sort_by task_leb tasks))
enough tasks room = record {
  full_loads = omega (arith, room, length-sort_by task_leb tasks);
  deltas = omega (arith, room, length-sort_by task_leb tasks);
  removals = omega (arith, room, length-sort_by task_leb tasks);
}

-- For at most 2^40 tasks, the queue has strictly rising scores and stands in this order: full loads,
-- appends with the largest lag first, removals. It has no list of a company twice and only tasks
-- that were given, and for every given task it holds one of the same list that comes no later in
-- that order.
pub order_and_dedupe-IsQueue :
    (tasks : List DerivedTask)
    → length tasks ≤ class_score_base
    → IsQueue tasks (order_and_dedupe_tasks tasks)
unfolding order_and_dedupe_tasks
order_and_dedupe-IsQueue tasks room =
    let sorted = sort_by task_leb tasks in
    let start : Sequences = record { full_loads = 0; deltas = 0; removals = 0 } in
    let ordered = sort_by-Ordered task_leb task_leb_total task_leb_trans tasks in
    record {
      rising = assign-rising [] start sorted (enough tasks room) ordered;
      in_order = assign-in_order [] start sorted ordered;
      distinct = assign-distinct [] start sorted;
      from_tasks =
          assign-All (λ t. Member t tasks) [] start sorted
            (All-sort_by (λ t. Member t tasks) task_leb tasks (members tasks));
      keeps_first = All-unsort_by _ task_leb tasks (
          All-map _ _ sorted
            (λ t p. (p.0, find-assign t [] start sorted refl ∙ p.1, task_leb-no_later p.0 t p.2))
            (find-least sorted ordered));
    }
