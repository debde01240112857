-- ===== src/IdList/Lock.antt =====
-- `idlist_membership/work_lock.rs`: the renewable lock of a producer or a worker, one Redis key with
-- a time to live. `SET NX EX`, `GET`, `EXPIRE` and `DEL` are the commands as Redis documents them; a
-- script runs atomically. Times are whole seconds, a `ttl_s` is positive.
use mathlib.Core.Logic.{inl, inr}
use statsig_forward_proxy.Prelude.{
  ℕ, ◌+◌, ◌≡◌, ◌≢◌, ◌≤◌, ◌<◌, refl, sym, ap, Bool, true, false, Option, none, some, List, [], ◌∷◌,
  arith, All, Text, text_beq, text_beq_sound, ne-text_beq, if◌then◌else◌, ltb, ◌⊎◌, Bool-cases,
  Option-cases,
}

-- The value of the key and the time at which it expires.
abbrev pub Lock : Type 0
Lock = Option (Text × ℕ)

-- `GET`.
abbrev pub holder : ℕ → Lock → Option Text
holder now none = none
holder now (some (h, expires)) = if ltb now expires then some h else none

abbrev pub held_by : Text → Option Text → Bool
held_by id none = false
held_by id (some h) = text_beq h id

-- `SET key id NX EX ttl`: done if the key is not there.
unfoldable pub try_acquire : Text → ℕ → ℕ → Lock → Lock × Bool
try_acquire id ttl_s now lock = elim (holder now lock) [
  | none ↦ (some (id, now + ttl_s), true)
  | some h ↦ (lock, false)
]

unfoldable pub renew : Text → ℕ → ℕ → Lock → Lock × Bool
renew id ttl_s now lock =
    if held_by id (holder now lock) then (some (id, now + ttl_s), true) else (lock, false)

unfoldable pub release : Text → ℕ → Lock → Lock
release id now lock = if held_by id (holder now lock) then none else lock

pub data Op : Type 0 where
  acquires : Text → ℕ → Op
  renews : Text → ℕ → Op
  releases : Text → Op

unfoldable pub step : ℕ → Op → Lock → Lock × Bool
unfolding try_acquire renew release
step now (acquires id ttl_s) lock = try_acquire id ttl_s now lock
step now (renews id ttl_s) lock = renew id ttl_s now lock
step now (releases id) lock = (release id now lock, true)

-- The results of the calls of all instances, each at its time, in the order in which Redis runs them.
unfoldable pub run : List (ℕ × Op) → Lock → Lock
unfolding step
run [] lock = lock
run ((now, op) ∷ ops) lock = run ops (step now op lock).0

abbrev pub caller : Op → Text
caller (acquires id ttl_s) = id
caller (renews id ttl_s) = id
caller (releases id) = id

-- `id` has the lock, at least until `until`.
abbrev pub HeldUntil : Text → ℕ → Lock → Type 0
HeldUntil id until lock = (expires : ℕ) × (lock ≡ some (id, expires)) × (until ≤ expires)

-- A call of another instance before `until`, or a renewal by `id` that does not end earlier.
abbrev pub Leaves : Text → ℕ → ℕ × Op → Type 0
Leaves id until (now, acquires other ttl_s) = now < until
Leaves id until (now, renews other ttl_s) = (now < until) × ((other ≢ id) ⊎ (until ≤ now + ttl_s))
Leaves id until (now, releases other) = (now < until) × (other ≢ id)

holder-held :
    (id : Text) (until now : ℕ) (lock : Lock)
    → HeldUntil id until lock
    → now < until
    → holder now lock ≡ some id
holder-held id until now lock (expires, same, later) h = rw same (ground (arith, later, h))

step-HeldUntil :
    (id : Text) (until now : ℕ) (op : Op) (lock : Lock)
    → HeldUntil id until lock
    → Leaves id until (now, op)
    → HeldUntil id until ((step now op lock).0)
unfolding step try_acquire renew release
step-HeldUntil id until now (acquires other ttl_s) lock held h =
    rw (step, try_acquire, holder-held id until now lock held h) held
step-HeldUntil id until now (renews other ttl_s) lock held (before, inl ne) =
    rw
      (
        step,
        renew,
        holder-held id until now lock held before,
        ne-text_beq id other (λ e. ne (sym e)),
      )
      held
step-HeldUntil id until now (renews other ttl_s) lock held (before, inr longer) =
    rw (step, renew, holder-held id until now lock held before)
      (elim (Bool-cases (text_beq id other)) [
        | inl e ↦
            rw e (
              now + ttl_s,
              ap (λ t. some (t, now + ttl_s)) (sym (text_beq_sound id other e)),
              longer,
            )
        | inr e ↦ rw e held
      ])
step-HeldUntil id until now (releases other) lock held (before, ne) =
    rw
      (
        step,
        release,
        holder-held id until now lock held before,
        ne-text_beq id other (λ e. ne (sym e)),
      )
      held

run-HeldUntil :
    (id : Text) (until : ℕ) (ops : List (ℕ × Op)) (lock : Lock)
    → All (Leaves id until) ops
    → HeldUntil id until lock
    → HeldUntil id until (run ops lock)
unfolding run
run-HeldUntil id until [] lock h held = held
run-HeldUntil id until ((now, op) ∷ ops) lock h held =
    run-HeldUntil id until ops (step now op lock).0 h.1
      (step-HeldUntil id until now op lock held h.0)

acquired :
    (id : Text) (ttl_s now : ℕ) (lock : Lock)
    → (try_acquire id ttl_s now lock).1 ≡ true
    → HeldUntil id (now + ttl_s) (try_acquire id ttl_s now lock).0
unfolding try_acquire
acquired id ttl_s now lock h = elim (Option-cases (holder now lock)) [
  | inl e ↦ rw (try_acquire, e) (now + ttl_s, refl, omega arith)
  | inr (other, e) ↦ absurd (ground (arith, e))
]

-- Mutual exclusion: once an instance has acquired the lock, then whatever calls other instances
-- make before it expires, and whatever renewals it makes itself that do not end earlier, no other
-- instance acquires or renews the lock before that time, and the lock's holder is still the first.
pub try_acquire-exclusive :
    (id other : Text) (ttl_s other_ttl_s now later : ℕ) (lock : Lock) (ops : List (ℕ × Op))
    → (try_acquire id ttl_s now lock).1 ≡ true
    → All (Leaves id (now + ttl_s)) ops
    → later < now + ttl_s
    → other ≢ id
    → ((try_acquire other other_ttl_s later (run ops (try_acquire id ttl_s now lock).0)).1 ≡ false)
      × ((renew other other_ttl_s later (run ops (try_acquire id ttl_s now lock).0)).1 ≡ false)
      × (holder later (run ops (try_acquire id ttl_s now lock).0) ≡ some id)
unfolding renew try_acquire
try_acquire-exclusive id other ttl_s other_ttl_s now later lock ops got h before ne =
    let start = (try_acquire id ttl_s now lock).0 in
    let held = run-HeldUntil id (now + ttl_s) ops start h (acquired id ttl_s now lock got) in
    let there = holder-held id (now + ttl_s) later (run ops start) held before in
    (
      rw (try_acquire, there) refl,
      rw (renew, there, ne-text_beq id other (λ e. ne (sym e))) refl,
      there,
    )
