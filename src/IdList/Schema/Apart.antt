-- ===== src/IdList/Schema/Apart.antt =====
-- Which keys of a company differ, as the Boolean test sees it.
use mathlib.Core.Logic.{inl, inr}
use statsig_forward_proxy.Prelude.{
  ◌≡◌, ◌≢◌, ◌∙◌, refl, sym, ap, codes, false, Option, none, some, [], ◌∷◌, ◌++◌, arith, Text,
  text_beq, text_beq_refl, text_beq_sound, text_beq_ne, ne-text_beq, is_empty, trim, drop,
  Bool-cases,
}
use statsig_forward_proxy.IdList.Schema.Keys.{
  apply_key_prefix, ends_with_colon, member_key, fwd_key, all_lists_key, split_once,
  escape_component, unescape_component,
}
use statsig_forward_proxy.IdList.Schema.Codec.{
  unescape-escape_component, NoColon, split_once-NoColon,
}

text_beq-append : (p a b : Text) → text_beq (p ++ a) (p ++ b) ≡ text_beq a b
text_beq-append [] a b = refl
text_beq-append (c ∷ p) a b = ground (arith, text_beq-append p a b)

text_beq-apply_key_prefix :
    (key_prefix a b : Text)
    → text_beq (apply_key_prefix key_prefix a) (apply_key_prefix key_prefix b) ≡ text_beq a b
unfolding apply_key_prefix
text_beq-apply_key_prefix key_prefix a b = elim (Bool-cases (is_empty (trim key_prefix))) [
  | inl e ↦ rw (apply_key_prefix, e) refl
  | inr e ↦ elim (Bool-cases (ends_with_colon (trim key_prefix))) [
    | inl c ↦ rw (apply_key_prefix, e, c) (text_beq-append (trim key_prefix) a b)
    | inr c ↦ rw (apply_key_prefix, e, c) (text_beq-append (trim key_prefix) _ _)
  ]
]

escape_component-injective : (a b : Text) → escape_component a ≡ escape_component b → a ≡ b
escape_component-injective a b e =
    let e' : some a ≡ some b =
      sym (unescape-escape_component a) ∙ (ap unescape_component e ∙ unescape-escape_component b) in
    cc

text_beq-escape_component :
    (a b : Text) → text_beq (escape_component a) (escape_component b) ≡ text_beq a b
text_beq-escape_component a b = elim (Bool-cases (text_beq a b)) [
  | inl e ↦ rw (text_beq_sound a b e) (text_beq_refl (escape_component b) ∙ sym (text_beq_refl b))
  | inr e ↦
      ne-text_beq (escape_component a) (escape_component b)
        (λ h. text_beq_ne a b e (escape_component-injective a b h))
      ∙ sym e
]

module _ (key_prefix skh : Text) where
  pub text_beq-member_key :
      (a b : Text)
      → text_beq (member_key key_prefix skh a) (member_key key_prefix skh b) ≡ text_beq a b
  unfolding member_key
  text_beq-member_key a b =
      text_beq-apply_key_prefix key_prefix _ _
      ∙ (text_beq-append (codes "i:") (skh ++ escape_component a) (skh ++ escape_component b)
          ∙ (text_beq-append skh (escape_component a) (escape_component b)
              ∙ text_beq-escape_component a b))

  pub member_key-fwd_key :
      (x list ver : Text)
      → text_beq (member_key key_prefix skh x) (fwd_key key_prefix skh list ver) ≡ false
  unfolding member_key fwd_key
  member_key-fwd_key x list ver = text_beq-apply_key_prefix key_prefix _ _

  pub fwd_key-member_key :
      (x list ver : Text)
      → text_beq (fwd_key key_prefix skh list ver) (member_key key_prefix skh x) ≡ false
  unfolding member_key fwd_key
  fwd_key-member_key x list ver = text_beq-apply_key_prefix key_prefix _ _

text_assoc : (xs ys zs : Text) → (xs ++ ys) ++ zs ≡ xs ++ (ys ++ zs)
text_assoc [] ys zs = refl
text_assoc (x ∷ xs) ys zs = ap (λ l. x ∷ l) (text_assoc xs ys zs)

text_nil : (xs : Text) → xs ++ [] ≡ xs
text_nil [] = refl
text_nil (x ∷ xs) = ap (λ l. x ∷ l) (text_nil xs)

apply_key_prefix-append :
    (key_prefix a r : Text)
    → apply_key_prefix key_prefix a ++ r ≡ apply_key_prefix key_prefix (a ++ r)
unfolding apply_key_prefix
apply_key_prefix-append key_prefix a r = elim (Bool-cases (is_empty (trim key_prefix))) [
  | inl e ↦ rw (apply_key_prefix, e) refl
  | inr e ↦ elim (Bool-cases (ends_with_colon (trim key_prefix))) [
    | inl c ↦ rw (apply_key_prefix, e, c) (text_assoc (trim key_prefix) a r)
    | inr c ↦
        rw (apply_key_prefix, e, c)
          (text_assoc (trim key_prefix) (codes ":" ++ a) r
            ∙ ap (λ l. trim key_prefix ++ l) (text_assoc (codes ":") a r))
  ]
]

module _ (key_prefix skh : Text) where
  -- The keys of the members have the prefix that is scanned for, and no forward key has it.
  pub member_key-prefix :
      (x : Text) → member_key key_prefix skh x ≡ member_key key_prefix skh [] ++ escape_component x
  unfolding member_key escape_component
  member_key-prefix x = sym (
      apply_key_prefix-append key_prefix (codes "i:" ++ (skh ++ [])) (escape_component x)
      ∙ ap (λ t. apply_key_prefix key_prefix (codes "i:" ++ (t ++ escape_component x)))
          (text_nil skh))

  pub fwd_key-no_prefix :
      (list ver rest : Text)
      → fwd_key key_prefix skh list ver ≢ member_key key_prefix skh [] ++ rest
  unfolding member_key fwd_key escape_component
  fwd_key-no_prefix list ver rest e =
      let a =
        codes "idlist::fwd::{"
        ++ (skh
            ++ (codes "::" ++ (escape_component list ++ (codes "}::" ++ escape_component ver)))) in
      let b = (codes "i:" ++ (skh ++ [])) ++ rest in
      text_beq_ne (apply_key_prefix key_prefix a) (apply_key_prefix key_prefix b)
        (text_beq-apply_key_prefix key_prefix a b)
        (e ∙ apply_key_prefix-append key_prefix (codes "i:" ++ (skh ++ [])) rest)

  abbrev second : Option (Text × Text) → Text
  second none = []
  second (some p) = p.1

  fwd_NoColon : NoColon (codes "fwd")
  fwd_NoColon = (omega arith, (omega arith, (omega arith, tt)))

  -- A forward set is not the set of all lists.
  pub all_lists_key-fwd_key :
      (list ver : Text)
      → NoColon skh
      → text_beq (all_lists_key key_prefix skh) (fwd_key key_prefix skh list ver) ≡ false
  unfolding all_lists_key fwd_key
  all_lists_key-fwd_key list ver h =
      text_beq-apply_key_prefix key_prefix _ _ ∙ ne-text_beq _ _ (after_scheme h)
    where
      after_scheme :
          NoColon skh
          → codes "idlist::" ++ (skh ++ codes "::__all")
            ≢ codes "idlist::fwd::{"
              ++ (skh
                  ++ (codes "::"
                      ++ (escape_component list ++ (codes "}::" ++ escape_component ver))))
      after_scheme h e =
          let rest =
            codes "{"
            ++ (skh
                ++ (codes "::"
                    ++ (escape_component list ++ (codes "}::" ++ escape_component ver)))) in
          let s : some (skh, codes "__all") ≡ some (codes "fwd", rest) =
            sym (split_once-NoColon skh (codes "__all") h)
            ∙ (ap (λ t. split_once (drop 8 t)) e
                ∙ split_once-NoColon (codes "fwd") rest fwd_NoColon) in
          text_beq_ne (codes "__all") rest refl (ap second s)
