-- ===== src/IdList/Worker/Redis.antt =====
-- Redis as the worker uses it, an interface: the commands that write, what they answer, and as laws
-- what Redis documents of them. A key is a set or a hash, as its name in the schema says.
use mathlib.Core.List.{flatten}
use mathlib.Core.Logic.{inl, inr}
use statsig_forward_proxy.Prelude.{
  ℕ, ◌≡◌, ◌∙◌, refl, ap, ◌<◌, Bool, true, false, not, ◌&&◌, ◌||◌, Option, none, List, [], ◌∷◌, ◌++◌,
  Text, codes, text_beq, text_eq, get, any, retain, Bool-cases, text_beq_sound, arith, ◌==◌,
  if◌then◌else◌,
}
use statsig_forward_proxy.IdList.Schema.State.{Fields, last_of}

pub data Command : Type 0 where
  set_add : Text → Text → Command
  set_remove : Text → Text → Command
  hash_set : Text → List (Text × Text) → Command
  hash_delete : Text → List Text → Command
  -- What an atomic script leaves of a hash.
  hash_replace : Text → Fields → Command
  unlink : Text → Command
  expire : Text → ℕ → Command
  persist : Text → Command

-- Whether `x` is in the set `j` after the command.
abbrev pub member_after : Text → Text → Command → Bool → Bool
member_after j x (set_add k m) old = (text_beq k j && text_beq m x) || old
member_after j x (set_remove k m) old = not (text_beq k j && text_beq m x) && old
member_after j x (hash_set k pairs) old = old
member_after j x (hash_delete k fields) old = old
member_after j x (hash_replace k hash) old = old
member_after j x (unlink k) old = not (text_beq k j) && old
member_after j x (expire k seconds) old = old
member_after j x (persist k) old = old

abbrev pub listed : Text → List Text → Bool
listed x = any (λ y. text_beq y x)

-- The value of the field `f` of the hash `j` after the command.
abbrev pub field_after : Text → Text → Command → Option Text → Option Text
field_after j f (set_add k m) old = old
field_after j f (set_remove k m) old = old
field_after j f (hash_set k pairs) old = if text_beq k j then last_of f pairs old else old
field_after j f (hash_delete k fields) old = if text_beq k j && listed f fields then none else old
field_after j f (hash_replace k hash) old = if text_beq k j then get f hash else old
field_after j f (unlink k) old = if text_beq k j then none else old
field_after j f (expire k seconds) old = old
field_after j f (persist k) old = old

-- The pattern that matches the keys with the prefix.
abbrev pub is_special : ℕ → Bool
is_special c = (c == b'*') || ((c == b'?') || ((c == b'[') || ((c == b']') || (c == b'\\'))))

unfoldable pub glob_escape : Text → Text
glob_escape [] = []
glob_escape (c ∷ s) = if is_special c then b'\\' ∷ c ∷ glob_escape s else c ∷ glob_escape s

abbrev pub prefix_pattern : Text → Text
prefix_pattern prefix = glob_escape prefix ++ codes "*"

pub record Redis : Type 1 where
  pub State : Type 0
  pub perform : State → Command → State
  -- `SISMEMBER`, `SCARD`, `EXISTS`, `HGETALL`; `TTL` is `none` where Redis answers a negative number.
  pub sismember : State → Text → Text → Bool
  pub scard : State → Text → ℕ
  pub exists : State → Text → Bool
  pub hgetall : State → Text → Fields
  pub ttl : State → Text → Option ℕ
  -- The pages of `SSCAN` on a key, and of `SCAN` with a pattern, up to the cursor 0.
  pub sscan : State → Text → List (List Text)
  pub scan : State → Text → List (List Text)
  -- The claim of the worker: whether its loss has been noticed, and the script that renews it.
  pub claim_lost : State → Bool
  pub renew : State → Bool × State
  -- What may go wrong: whether the pool gives a connection and a read is answered, and where a
  -- pipeline breaks, after so many of its commands (`none` if it is answered).
  pub answers : State → Bool
  pub cut : State → List Command → Option ℕ

pub record IsRedis (R : Redis) : Type 0 where
  pub sismember-perform :
      (s : R.State) (c : Command) (j x : Text)
      → R.sismember (R.perform s c) j x ≡ member_after j x c (R.sismember s j x)
  pub hgetall-perform :
      (s : R.State) (c : Command) (j f : Text)
      → get f (R.hgetall (R.perform s c) j) ≡ field_after j f c (get f (R.hgetall s j))
  -- Equal sets have equal cardinalities, and only the empty set has the cardinality 0.
  pub scard_congr :
      (s t : R.State) (j k : Text)
      → ((x : Text) → R.sismember s j x ≡ R.sismember t k x)
      → R.scard s j ≡ R.scard t k
  pub scard_zero : (s : R.State) (j x : Text) → R.scard s j ≡ 0 → R.sismember s j x ≡ false
  -- A set that has members exists.
  pub exists_scard : (s : R.State) (j : Text) → 0 < R.scard s j → R.exists s j ≡ true
  -- An iteration returns every member of a set that is not changed meanwhile, and nothing else.
  pub sscan_members :
      (s : R.State) (j x : Text) → listed x (flatten (R.sscan s j)) ≡ R.sismember s j x
  -- The keys that `SCAN` lists for a prefix have it, and all the sets with that prefix are among them.
  pub scan_prefix :
      (s : R.State) (p k : Text)
      → listed k (flatten (R.scan s (prefix_pattern p))) ≡ true
      → (rest : Text) × (k ≡ p ++ rest)
  pub scan_members :
      (s : R.State) (p rest x : Text)
      → R.sismember s (p ++ rest) x ≡ true
      → listed (p ++ rest) (flatten (R.scan s (prefix_pattern p))) ≡ true
  pub sismember-renew :
      (s : R.State) (j x : Text) → R.sismember (R.renew s).1 j x ≡ R.sismember s j x
  pub hgetall-renew : (s : R.State) (j : Text) → R.hgetall (R.renew s).1 j ≡ R.hgetall s j

module _ (R : Redis) where
  -- A pipeline. The commands run in order; if the connection breaks, a prefix of them has run.
  unfoldable pub query : R.State → List Command → R.State
  query s [] = s
  query s (c ∷ cs) = query (R.perform s c) cs

  pub query-append :
      (s : R.State) (cs ds : List Command) → query s (cs ++ ds) ≡ query (query s cs) ds
  unfolding query
  query-append s [] ds = refl
  query-append s (c ∷ cs) ds = query-append (R.perform s c) cs ds

-- What a pipeline does to one set and to one field.
abbrev pub member_after_all : Text → Text → List Command → Bool → Bool
member_after_all j x [] old = old
member_after_all j x (c ∷ cs) old = member_after_all j x cs (member_after j x c old)

abbrev pub field_after_all : Text → Text → List Command → Option Text → Option Text
field_after_all j f [] old = old
field_after_all j f (c ∷ cs) old = field_after_all j f cs (field_after j f c old)

module _ (R : Redis) (L : IsRedis R) where
  pub sismember-query :
      (s : R.State) (cs : List Command) (j x : Text)
      → R.sismember (query R s cs) j x ≡ member_after_all j x cs (R.sismember s j x)
  unfolding query
  sismember-query s [] j x = refl
  sismember-query s (c ∷ cs) j x =
      sismember-query (R.perform s c) cs j x
      ∙ ap (member_after_all j x cs) (L.sismember-perform s c j x)

  pub hgetall-query :
      (s : R.State) (cs : List Command) (j f : Text)
      → get f (R.hgetall (query R s cs) j) ≡ field_after_all j f cs (get f (R.hgetall s j))
  unfolding query
  hgetall-query s [] j f = refl
  hgetall-query s (c ∷ cs) j f =
      hgetall-query (R.perform s c) cs j f ∙ ap (field_after_all j f cs) (L.hgetall-perform s c j f)

pub listed-retain :
    (keep : Text → Bool) (k : Text) (ks : List Text)
    → listed k (retain keep ks) ≡ keep k && listed k ks
listed-retain keep k [] = ground arith
listed-retain keep k (j ∷ ks) = elim (Bool-cases (text_beq j k)) [
  | inl e ↦
      let same : keep j ≡ keep k = ap keep (text_beq_sound j k e) in
      elim (Bool-cases (keep k)) [
        | inl h ↦ rw (e, same, h, e) refl
        | inr h ↦ rw (e, same, h) (listed-retain keep k ks ∙ rw h refl)
      ]
  | inr e ↦ elim (Bool-cases (keep j)) [
    | inl h ↦ rw (h, e) (listed-retain keep k ks)
    | inr h ↦ rw (h, e) (listed-retain keep k ks)
  ]
]
