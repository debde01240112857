-- ===== src/IdList/Schema/Allocation.antt =====
-- What `get_or_allocate_token` does to a well-formed dictionary.
use statsig_forward_proxy.Prelude.{
  ℕ, ◌+◌, ◌≡◌, ◌≤◌, Option, none, some, [], ◌∷◌, Text, text_beq, text_eq, if◌then◌else◌, get,
  insert, to_string,
}
use statsig_forward_proxy.IdList.Schema.State.{Fields, hset}
use statsig_forward_proxy.IdList.Schema.Tokens.{counter_field, name_field, token_field, IsDict}

-- The dictionary after a new token for `name`.
abbrev allocated : Fields → Text → ℕ → Fields
allocated dict name token =
    hset ((name_field name, to_string token) ∷ (token_field token, name) ∷ [])
      (insert counter_field (to_string token) dict)

-- The token that is given: the one that the name had, with the dictionary as it was, or else the next
-- value of the counter.
abbrev pub Given : Fields → ℕ → Fields → ℕ → ℕ → Option Text → Type 0
Given dict last dict' token last' (some v) = (v ≡ to_string token) × (dict' ≡ dict) × (last' ≡ last)
Given dict last dict' token last' none = (token ≡ last + 1) × (last' ≡ last + 1)

-- What the client gets: a dictionary, the token of the name, and every older token as it was.
pub record Allocates (dict : Fields) (last : ℕ) (name : Text) (dict' : Fields) (token last' : ℕ)
    : Type 0 where
  pub given : Given dict last dict' token last' (get (name_field name) dict)
  pub dictionary : IsDict dict' last'
  pub found : get (name_field name) dict' ≡ some (to_string token)
  pub named_back : get (token_field token) dict' ≡ some name
  pub bounded : token ≤ last'
  pub kept :
      (x : Text)
      → get (name_field x) dict'
        ≡ (if text_beq name x then some (to_string token) else get (name_field x) dict)
