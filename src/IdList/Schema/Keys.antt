-- ===== src/IdList/Schema/Keys.antt =====
-- `escape_component`, the keys of `IdListKeySchema`, the version tag and the queue members.
use mathlib.Core.Option
use statsig_forward_proxy.Prelude.{
  ℕ, Bool, false, ◌&&◌, Option, none, some, [], ◌∷◌, ◌++◌, Text, codes, ◌==◌, if◌then◌else◌,
  is_empty, trim, to_string,
}
use statsig_forward_proxy.IdList.Schema.State.{IdListMetadata}

unfoldable pub escape_component : Text → Text
escape_component [] = []
escape_component (c ∷ s) =
    if c == b'%'
    then codes "%25" ++ escape_component s
    else if c == b':'
    then codes "%3A" ++ escape_component s
    else c ∷ escape_component s

abbrev pub push : ℕ → Option Text → Option Text
push c none = none
push c (some t) = some (c ∷ t)

-- After a `%` the next two characters are taken, or what is left of them.
unfoldable pub unescape_component : Text → Option Text
unescape_component [] = some []
unescape_component (c ∷ []) = if c == b'%' then none else some (c ∷ [])
unescape_component (c ∷ a ∷ []) =
    let next = unescape_component (a ∷ []) in if c == b'%' then none else push c next
unescape_component (c ∷ a ∷ b ∷ s) =
    let next = unescape_component (a ∷ b ∷ s) in
    let rest = unescape_component s in
    if c == b'%'
    then if a == b'2' && b == b'5'
      then push b'%' rest
      else if a == b'3' && b == b'A'
      then push b':' rest
      else none
    else push c next

-- `apply_key_prefix` of `caching/redis_pool.rs`.
abbrev pub ends_with_colon : Text → Bool
ends_with_colon [] = false
ends_with_colon (c ∷ []) = c == b':'
ends_with_colon (c ∷ d ∷ s) = ends_with_colon (d ∷ s)

unfoldable pub apply_key_prefix : Text → Text → Text
unfolding trim
apply_key_prefix key_prefix key =
    let prefix = trim key_prefix in
    if is_empty prefix
    then key
    else if ends_with_colon prefix
    then prefix ++ key
    else prefix ++ (codes ":" ++ key)

-- The keys, under the prefix of the schema. `skh` is the namespace of the company.
module _ (key_prefix : Text) where
  unfoldable pub dict_key : Text → Text
  unfolding apply_key_prefix
  dict_key skh = apply_key_prefix key_prefix (codes "idlist::dict::" ++ skh)

  unfoldable pub member_key : Text → Text → Text
  unfolding apply_key_prefix escape_component
  member_key skh lookup_id =
      apply_key_prefix key_prefix (codes "i:" ++ (skh ++ escape_component lookup_id))

  unfoldable pub fwd_key : Text → Text → Text → Text
  unfolding apply_key_prefix escape_component
  fwd_key skh list ver = apply_key_prefix key_prefix (
      codes "idlist::fwd::{"
      ++ (skh ++ (codes "::" ++ (escape_component list ++ (codes "}::" ++ escape_component ver)))))

  unfoldable pub state_key : Text → Text → Text
  unfolding apply_key_prefix escape_component
  state_key skh list =
      apply_key_prefix key_prefix
        (codes "idlist::" ++ (skh ++ (codes "::" ++ (escape_component list ++ codes "::state"))))

  unfoldable pub claim_key : Text → Text → Text
  unfolding apply_key_prefix escape_component
  claim_key skh list =
      apply_key_prefix key_prefix
        (codes "idlist::claim::" ++ (skh ++ (codes "::" ++ escape_component list)))

  unfoldable pub queue_key : Text
  unfolding apply_key_prefix
  queue_key = apply_key_prefix key_prefix (codes "idlist::queue::pending")

  unfoldable pub task_meta_key : Text → Text → Text
  unfolding apply_key_prefix escape_component
  task_meta_key skh list =
      apply_key_prefix key_prefix
        (codes "idlist::task_meta::" ++ (skh ++ (codes "::" ++ escape_component list)))

  unfoldable pub all_lists_key : Text → Text
  unfolding apply_key_prefix
  all_lists_key skh = apply_key_prefix key_prefix (codes "idlist::" ++ (skh ++ codes "::__all"))

  unfoldable pub ready_key : Text → Text
  unfolding apply_key_prefix
  ready_key skh = apply_key_prefix key_prefix (codes "idlist::" ++ (skh ++ codes "::__ready"))

  unfoldable pub producer_lock_key : Text
  unfolding apply_key_prefix
  producer_lock_key = apply_key_prefix key_prefix (codes "idlist::producer_lock")

unfoldable pub version_tag : IdListMetadata → Text
version_tag meta =
    if is_empty meta.file_id
    then to_string meta.creation_time
    else meta.file_id ++ (codes "@" ++ to_string meta.creation_time)

unfoldable pub encode_task : Text → Text → Text
unfolding escape_component
encode_task skh list = skh ++ (codes "::" ++ escape_component list)

-- `split_once("::")`.
unfoldable pub split_once : Text → Option (Text × Text)
split_once [] = none
split_once (a ∷ []) = none
split_once (a ∷ b ∷ s) =
    let rest = split_once (b ∷ s) in
    if a == b':' && b == b':' then some ([], s) else Option.map (λ p. (a ∷ p.0, p.1)) rest

unfoldable pub decode_task : Text → Option (Text × Text)
unfolding split_once unescape_component
decode_task member = elim (split_once member) [
  | none ↦ none
  | some (skh, rest) ↦ Option.map (λ list. (skh, list)) (unescape_component rest)
]
