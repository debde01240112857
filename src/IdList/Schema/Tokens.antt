-- ===== src/IdList/Schema/Tokens.antt =====
-- `DictClient` of `schema.rs`: the dictionary of a namespace, a Redis hash that gives each list name
-- an integer token and each token its name. The Lua script runs atomically in Redis.
use mathlib.Core.Option
use statsig_forward_proxy.Prelude.{
  ℕ, ◌+◌, ◌≡◌, ◌≤◌, ◌∙◌, refl, sym, ap, Option, none, some, [], ◌∷◌, ◌++◌, arith, subst, Text,
  codes, text_eq, get, insert, to_string, to_string-injective, parse_uint, parse_u64,
}
use statsig_forward_proxy.IdList.Schema.State.{Fields, hset}

abbrev pub counter_field : Text
counter_field = codes "__counter"

abbrev pub name_field : Text → Text
name_field list_name = codes "n:" ++ list_name

abbrev pub token_field : ℕ → Text
token_field token = codes "t:" ++ to_string token

-- The largest value to which `HINCRBY`, on signed 64-bit integers, can still add one.
abbrev pub counter_max : ℕ
counter_max = 0x7FFF_FFFF_FFFF_FFFE

-- What `HINCRBY` reads: 0 if the field is missing, an error if it is no integer in range.
abbrev pub counter : Fields → Option ℕ
counter dict = elim (get counter_field dict) [ none ↦ some 0 | some v ↦ parse_uint counter_max v ]

-- `ALLOC_TOKEN_SCRIPT`; `none` is a script error.
unfoldable pub alloc_token_script : Fields → Text → Option (Fields × Text)
alloc_token_script dict list_name = elim (get (name_field list_name) dict) [
  | some existing ↦ some (dict, existing)
  | none ↦ elim (counter dict) [
    | none ↦ none
    | some n ↦
        let token = n + 1 in
        some (
          hset ((name_field list_name, to_string token) ∷ (token_field token, list_name) ∷ [])
              (insert counter_field (to_string token) dict),
          to_string token,
        )
  ]
]

-- A token that is no `u64` is an error to the client, after the script has run.
unfoldable pub get_or_allocate_token : Fields → Text → Option (Fields × ℕ)
unfolding alloc_token_script
get_or_allocate_token dict list_name = elim (alloc_token_script dict list_name) [
  | none ↦ none
  | some (dict', token) ↦ Option.map (λ t. (dict', t)) (parse_u64 token)
]

-- `get_token`: the inner option is the missing field, the outer one the error.
unfoldable pub get_token : Fields → Text → Option (Option ℕ)
get_token dict list_name = elim (get (name_field list_name) dict) [
  | none ↦ some none
  | some token ↦ Option.map some (parse_u64 token)
]

-- The token that a name's field holds is at most `last` and leads back to the name.
abbrev pub Named : Fields → ℕ → Text → Option Text → Type 0
Named dict last name none = Unit
Named dict last name (some v) =
    (token : ℕ) × (v ≡ to_string token)
    × (token ≤ last)
    × (get (token_field token) dict ≡ some name)

-- The counter is the last token given out; the token of every name has that name.
pub record IsDict (dict : Fields) (last : ℕ) : Type 0 where
  pub count : counter dict ≡ some last
  pub named : (name : Text) → Named dict last name (get (name_field name) dict)

pub empty-IsDict : IsDict [] 0
unfolding get
empty-IsDict = record { count = refl; named = λ name. tt }

pub Named-token :
    (dict : Fields) (last : ℕ) (name v : Text)
    → IsDict dict last
    → get (name_field name) dict ≡ some v
    → Named dict last name (some v)
Named-token dict last name v d h = subst (Named dict last name) h (d.named name)

-- No two names share a token.
pub tokens-injective :
    (dict : Fields) (last : ℕ) (x y v : Text)
    → IsDict dict last
    → get (name_field x) dict ≡ some v
    → get (name_field y) dict ≡ some v
    → x ≡ y
tokens-injective dict last x y v d hx hy =
    let (t, e, _, back) = Named-token dict last x v d hx in
    let (u, e', _, back') = Named-token dict last y v d hy in
    let same : t ≡ u = to_string-injective t u (sym e ∙ e') in
    ground (arith, ap (λ k. get (token_field k) dict) same, back, back')
