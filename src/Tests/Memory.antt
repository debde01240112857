-- ===== src/Tests/Memory.antt =====
-- A Redis in memory, on which the examples of the worker run: sets as lists, hashes as maps.
use mathlib.Core.List.{flatten}
use mathlib.Core.Logic.{inl, inr}
use statsig_forward_proxy.Prelude.{
  ℕ, suc, ◌≡◌, ◌≢◌, ◌≤◌, ◌<◌, ◌∙◌, refl, sym, ap, Bool, true, false, not, ◌&&◌, ◌||◌, Option, none,
  some, List, [], ◌∷◌, ◌++◌, arith, Text, codes, text_eq, text_beq, text_beq_refl, text_beq_sound,
  text_beq_ne, ne-text_beq, Map, get, insert, remove, get-insert, get-remove, unwrap_or, is_some,
  is_empty, retain, ◌==◌, Bool-cases, if◌then◌else◌,
}
use statsig_forward_proxy.IdList.Schema.State.{Fields, hset, get-hset}
use statsig_forward_proxy.IdList.Worker.Redis.{
  Command, listed-retain, set_add, set_remove, hash_set, hash_delete, hash_replace, unlink, expire,
  persist, listed, member_after, field_after, is_special, glob_escape, prefix_pattern, Redis,
  IsRedis,
}

pub record Memory : Type 0 where
  pub sets : Map Text (List Text)
  pub hashes : Map Text Fields

abbrev pub set_of : Text → Memory → List Text
set_of k s = unwrap_or (get k s.sets) []

abbrev pub hash_of : Text → Memory → Fields
hash_of k s = unwrap_or (get k s.hashes) []

abbrev delete_all : List Text → Fields → Fields
delete_all [] h = h
delete_all (f ∷ fs) h = delete_all fs (remove f h)

abbrev drop_member : Text → List Text → List Text
drop_member m = retain (λ y. not (text_beq m y))

abbrev pub perform : Memory → Command → Memory
perform s (set_add k m) = record s { sets = insert k (m ∷ set_of k s) s.sets }
perform s (set_remove k m) = record s { sets = insert k (drop_member m (set_of k s)) s.sets }
perform s (hash_set k pairs) = record s { hashes = insert k (hset pairs (hash_of k s)) s.hashes }
perform s (hash_delete k fs) = record s { hashes = insert k (delete_all fs (hash_of k s)) s.hashes }
perform s (hash_replace k h) = record s { hashes = insert k h s.hashes }
perform s (unlink k) = record { sets = remove k s.sets; hashes = remove k s.hashes }
perform s (expire k seconds) = s
perform s (persist k) = s

-- The number of different members.
abbrev pub card : List Text → ℕ
card [] = 0
card (x ∷ xs) = if listed x xs then card xs else suc (card xs)

abbrev starts_with : Text → Text → Bool
starts_with [] k = true
starts_with (c ∷ p) [] = false
starts_with (c ∷ p) (d ∷ k) = if c == d then starts_with p k else false

-- The prefix of a pattern that ends in `*`.
abbrev literal : Text → Text
literal [] = []
literal (c ∷ []) = if c == b'*' then [] else c ∷ []
literal (c ∷ d ∷ s) = let rest = literal (d ∷ s) in if c == b'\\' then d ∷ literal s else c ∷ rest

abbrev keys : Map Text (List Text) → List Text
keys [] = []
keys ((k, xs) ∷ m) = k ∷ keys m

abbrev pub memory : Redis
memory = record {
  State = Memory;
  perform = perform;
  sismember = λ s k x. listed x (set_of k s);
  scard = λ s k. card (set_of k s);
  exists = λ s k. not (is_empty (set_of k s)) || not (is_empty (hash_of k s));
  hgetall = λ s k. hash_of k s;
  ttl = λ s k. none;
  sscan = λ s k. set_of k s ∷ [];
  scan = λ s pattern. retain (starts_with (literal pattern)) (keys s.sets) ∷ [];
  claim_lost = λ s. false;
  renew = λ s. (true, s);
  answers = λ s. true;
  cut = λ s cs. none;
}

listed-drop_member :
    (m x : Text) (xs : List Text) → listed x (drop_member m xs) ≡ not (text_beq m x) && listed x xs
listed-drop_member m x [] = ground arith
listed-drop_member m x (y ∷ xs) = elim (Bool-cases (text_beq m y)) [
  | inl e ↦
      let same : text_beq y x ≡ text_beq m x =
        ap (λ t. text_beq t x) (sym (text_beq_sound m y e)) in
      rw (e, same) (listed-drop_member m x xs ∙ ground arith)
  | inr e ↦ elim (Bool-cases (text_beq y x)) [
    | inl h ↦ rw (e, h, ap (λ t. text_beq m t) (sym (text_beq_sound y x h)) ∙ e) refl
    | inr h ↦ rw (e, h) (listed-drop_member m x xs)
  ]
]

get-delete_all :
    (f : Text) (fs : List Text) (h : Fields)
    → get f (delete_all fs h) ≡ (if listed f fs then none else get f h)
get-delete_all f [] h = refl
get-delete_all f (g ∷ fs) h =
    get-delete_all f fs (remove g h) ∙ rw (get-remove f g h) (ground arith)

sismember-perform :
    (s : Memory) (c : Command) (j x : Text)
    → listed x (set_of j (perform s c)) ≡ member_after j x c (listed x (set_of j s))
sismember-perform s (set_add k m) j x = elim (Bool-cases (text_beq k j)) [
  | inl e ↦ rw (get-insert j k (m ∷ set_of k s) s.sets, e, text_beq_sound k j e) (ground arith)
  | inr e ↦ rw (get-insert j k (m ∷ set_of k s) s.sets, e) refl
]
sismember-perform s (set_remove k m) j x = elim (Bool-cases (text_beq k j)) [
  | inl e ↦
      rw (get-insert j k (drop_member m (set_of k s)) s.sets, e, text_beq_sound k j e)
        (listed-drop_member m x (set_of j s))
  | inr e ↦ rw (get-insert j k (drop_member m (set_of k s)) s.sets, e) refl
]
sismember-perform s (hash_set k pairs) j x = refl
sismember-perform s (hash_delete k fs) j x = refl
sismember-perform s (hash_replace k h) j x = refl
sismember-perform s (unlink k) j x = rw (get-remove j k s.sets) (by_test (text_beq k j))
  where
    by_test :
        (b : Bool)
        → listed x (unwrap_or (if b then none else get j s.sets) [])
          ≡ not b && listed x (set_of j s)
    by_test true = refl
    by_test false = refl
sismember-perform s (expire k seconds) j x = refl
sismember-perform s (persist k) j x = refl

hgetall-perform :
    (s : Memory) (c : Command) (j f : Text)
    → get f (hash_of j (perform s c)) ≡ field_after j f c (get f (hash_of j s))
unfolding get
hgetall-perform s (set_add k m) j f = refl
hgetall-perform s (set_remove k m) j f = refl
hgetall-perform s (hash_set k pairs) j f = elim (Bool-cases (text_beq k j)) [
  | inl e ↦
      rw (get-insert j k (hset pairs (hash_of k s)) s.hashes, e, text_beq_sound k j e)
        (get-hset f pairs (hash_of j s))
  | inr e ↦ rw (get-insert j k (hset pairs (hash_of k s)) s.hashes, e) refl
]
hgetall-perform s (hash_delete k fs) j f = elim (Bool-cases (text_beq k j)) [
  | inl e ↦
      rw (get-insert j k (delete_all fs (hash_of k s)) s.hashes, e, text_beq_sound k j e)
        (get-delete_all f fs (hash_of j s))
  | inr e ↦ rw (get-insert j k (delete_all fs (hash_of k s)) s.hashes, e) refl
]
hgetall-perform s (hash_replace k h) j f = rw (get-insert j k h s.hashes) (by_test (text_beq k j))
  where
    by_test :
        (b : Bool)
        → get f (unwrap_or (if b then some h else get j s.hashes) [])
          ≡ (if b then get f h else get f (hash_of j s))
    by_test true = refl
    by_test false = refl
hgetall-perform s (unlink k) j f = rw (get-remove j k s.hashes) (by_test (text_beq k j))
  where
    by_test :
        (b : Bool)
        → get f (unwrap_or (if b then none else get j s.hashes) [])
          ≡ (if b then none else get f (hash_of j s))
    by_test true = refl
    by_test false = refl
hgetall-perform s (expire k seconds) j f = refl
hgetall-perform s (persist k) j f = refl

true_ne_false : true ≢ false
true_ne_false p = cc

-- Sets with the same members have the same number of them.
drop_absent : (m : Text) (xs : List Text) → listed m xs ≡ false → drop_member m xs ≡ xs
drop_absent m [] h = refl
drop_absent m (y ∷ xs) h = elim (Bool-cases (text_beq y m)) [
  | inl e ↦ absurd (true_ne_false (rw e at h))
  | inr e ↦
      let other : text_beq m y ≡ false = ne-text_beq m y (λ p. text_beq_ne y m e (sym p)) in
      rw other (ap (λ l. y ∷ l) (drop_absent m xs (rw e at h)))
]

drop_member-card :
    (m : Text) (xs : List Text) → listed m xs ≡ true → suc (card (drop_member m xs)) ≡ card xs
drop_member-card m [] h = cc
drop_member-card m (y ∷ xs) h = elim (Bool-cases (text_beq m y)) [
  | inl e ↦ elim (Bool-cases (listed y xs)) [
    | inl k ↦ rw (e, k) (drop_member-card m xs (ap (λ t. listed t xs) (text_beq_sound m y e) ∙ k))
    | inr k ↦
        rw (e, k)
          (ap (λ l. suc (card l))
            (drop_absent m xs (ap (λ t. listed t xs) (text_beq_sound m y e) ∙ k)))
  ]
  | inr e ↦
      let other : text_beq y m ≡ false = ne-text_beq y m (λ p. text_beq_ne m y e (sym p)) in
      let rest : listed m xs ≡ true = rw other at h in
      let same : listed y (drop_member m xs) ≡ listed y xs =
        listed-drop_member m y xs ∙ rw e refl in
      rw (e, same) (by_test (listed y xs) (drop_member-card m xs rest))
]
  where
    by_test :
        (b : Bool)
        → suc (card (drop_member m xs)) ≡ card xs
        → suc (if b then card (drop_member m xs) else suc (card (drop_member m xs)))
          ≡ (if b then card xs else suc (card xs))
    by_test true k = k
    by_test false k = ap suc k

card-le :
    (xs ys : List Text) → ((x : Text) → listed x xs ≡ true → listed x ys ≡ true) → card xs ≤ card ys
card-le [] ys h = omega arith
card-le (x ∷ xs) ys h = elim (Bool-cases (listed x xs)) [
  | inl e ↦ rw e (card-le xs ys (λ y k. h y (rw k (ground arith))))
  | inr e ↦
      let smaller : card xs ≤ card (drop_member x ys) =
        card-le xs (drop_member x ys)
          (λ y k. listed-drop_member x y ys ∙ rw (other x y xs e k) (h y (rw k (ground arith)))) in
      rw e (
        let full : suc (card (drop_member x ys)) ≡ card ys =
          drop_member-card x ys (h x (rw (text_beq_refl x) refl)) in
        omega arith)
]
  where
    other :
        (x y : Text) (xs : List Text)
        → listed x xs ≡ false
        → listed y xs ≡ true
        → text_beq x y ≡ false
    other x y xs e k =
        ne-text_beq x y (λ p. true_ne_false (sym k ∙ (ap (λ t. listed t xs) (sym p) ∙ e)))

card-zero : (xs : List Text) (x : Text) → card xs ≡ 0 → listed x xs ≡ false
card-zero [] x h = refl
card-zero (y ∷ xs) x h = elim (Bool-cases (listed y xs)) [
  | inl e ↦ absurd (true_ne_false (sym e ∙ card-zero xs y (rw e at h)))
  | inr e ↦ absurd (positive (rw e at h))
]
  where
    positive : suc (card xs) ≢ 0
    positive p = omega arith

starts_with-append : (p r : Text) → starts_with p (p ++ r) ≡ true
starts_with-append [] r = refl
starts_with-append (c ∷ p) r = ground (arith, starts_with-append p r)

starts_with-rest : (p k : Text) → starts_with p k ≡ true → (r : Text) × (k ≡ p ++ r)
starts_with-rest [] k h = (k, refl)
starts_with-rest (c ∷ p) [] h = cc
starts_with-rest (c ∷ p) (d ∷ k) h =
    let (r, e) = starts_with-rest p k (ground arith) in (r, ground (arith, e))

literal-cons :
    (c : ℕ) (s : Text)
    → (c == b'\\') ≡ false
    → literal (c ∷ (s ++ codes "*")) ≡ c ∷ literal (s ++ codes "*")
literal-cons c [] h = rw h refl
literal-cons c (d ∷ s) h = rw h refl

literal-pattern : (p : Text) → literal (prefix_pattern p) ≡ p
unfolding glob_escape
literal-pattern [] = refl
literal-pattern (c ∷ p) = elim (Bool-cases (is_special c)) [
  | inl e ↦ rw (glob_escape, e) (ap (λ t. c ∷ t) (literal-pattern p))
  | inr e ↦
      rw (glob_escape, e)
        (literal-cons c (glob_escape p) (ground arith) ∙ ap (λ t. c ∷ t) (literal-pattern p))
]

listed-keys : (k : Text) (m : Map Text (List Text)) → is_some (get k m) ≡ listed k (keys m)
unfolding get
listed-keys k [] = refl
listed-keys k ((j, xs) ∷ m) = ground (arith, listed-keys k m)

append_nil : (xs : List Text) → xs ++ [] ≡ xs
append_nil [] = refl
append_nil (x ∷ xs) = ap (λ l. x ∷ l) (append_nil xs)

card-nonempty : (xs : List Text) → 0 < card xs → is_empty xs ≡ false
card-nonempty [] h = absurd (omega arith)
card-nonempty (x ∷ xs) h = refl

scanned :
    (s : Memory) (p k : Text)
    → listed k (flatten (memory.scan s (prefix_pattern p)))
      ≡ starts_with p k && listed k (keys s.sets)
unfolding flatten
scanned s p k =
    ap (listed k) (append_nil _)
    ∙ (listed-retain (starts_with (literal (prefix_pattern p))) k (keys s.sets)
        ∙ ap (λ q. starts_with q k && listed k (keys s.sets)) (literal-pattern p))

scanned_prefix :
    (s : Memory) (p k : Text)
    → listed k (flatten (memory.scan s (prefix_pattern p))) ≡ true
    → starts_with p k ≡ true
scanned_prefix s p k h = both (starts_with p k) (listed k (keys s.sets)) (sym (scanned s p k) ∙ h)
  where
    both : (a b : Bool) → a && b ≡ true → a ≡ true
    both true b e = refl
    both false b e = cc

held_key : (o : Option (List Text)) (x : Text) → listed x (unwrap_or o []) ≡ true → is_some o ≡ true
held_key none x h = cc
held_key (some xs) x h = refl

scanned_all :
    (s : Memory) (p rest x : Text)
    → listed x (set_of (p ++ rest) s) ≡ true
    → listed (p ++ rest) (flatten (memory.scan s (prefix_pattern p))) ≡ true
scanned_all s p rest x h =
    scanned s p (p ++ rest)
    ∙ rw
        (
          starts_with-append p rest,
          sym (listed-keys (p ++ rest) s.sets) ∙ held_key (get (p ++ rest) s.sets) x h,
        )
        refl

-- The memory is a Redis.
pub memory-IsRedis : IsRedis memory
unfolding flatten
memory-IsRedis = record {
  sismember-perform = sismember-perform;
  hgetall-perform = hgetall-perform;
  scard_congr = λ s t j k h.
      let up = card-le (set_of j s) (set_of k t) (λ x m. sym (h x) ∙ m) in
      let down = card-le (set_of k t) (set_of j s) (λ x m. h x ∙ m) in omega arith;
  scard_zero = λ s j x h. card-zero (set_of j s) x h;
  exists_scard = λ s j h. rw (card-nonempty (set_of j s) h) refl;
  sscan_members = λ s j x. ap (listed x) (append_nil (set_of j s));
  scan_prefix = λ s p k h. starts_with-rest p k (scanned_prefix s p k h);
  scan_members = λ s p rest x h. scanned_all s p rest x h;
  sismember-renew = λ s j x. refl;
  hgetall-renew = λ s j. refl;
}
