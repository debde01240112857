-- ===== src/Encoding/Laws.antt =====
-- What the preference order makes of a list of encodings: sorted without repetition, with the same
-- encodings in it.
use mathlib.Core.Logic.{inl, inr}
use statsig_forward_proxy.Prelude.{
  ◌≡◌, ◌<◌, ◌∙◌, ap, Bool, true, false, if◌then◌else◌, retain, List, [], ◌∷◌, arith, ◌==◌,
  Bool-cases, any, All, All-map, sort_by, Ordered, sort_by-Ordered, dedup, dedup_from, any-sort_by,
  any-dedup,
}
use statsig_forward_proxy.Encoding.{
  CompressionEncoder, encoding_priority, priority_leb, encoding_eq,
}

abbrev pub contains : CompressionEncoder → List CompressionEncoder → Bool
contains e xs = any (encoding_eq e) xs

-- The priorities rise strictly along the list.
abbrev pub Rising : List CompressionEncoder → Type 0
Rising [] = Unit
Rising (x ∷ xs) = All (λ y. encoding_priority x < encoding_priority y) xs × Rising xs

encoding_eq_iff_priority :
    (a b : CompressionEncoder) → encoding_eq a b ≡ (encoding_priority a == encoding_priority b)
unfolding encoding_priority encoding_eq
encoding_eq_iff_priority a b = ground arith

pub encoding_eq_congr :
    (e a b : CompressionEncoder) → encoding_eq a b ≡ true → encoding_eq e a ≡ encoding_eq e b
unfolding encoding_eq
encoding_eq_congr e a b h = ground arith

-- After the dedup, what stands behind `last` is of strictly greater priority number.
dedup_from-Rising :
    (last : CompressionEncoder) (xs : List CompressionEncoder)
    → All (λ y. priority_leb last y ≡ true) xs
    → Ordered priority_leb xs
    → All (λ y. encoding_priority last < encoding_priority y) (dedup_from encoding_eq last xs)
      × Rising (dedup_from encoding_eq last xs)
dedup_from-Rising last [] h o = (tt, tt)
dedup_from-Rising last (x ∷ xs) h o = elim (Bool-cases (encoding_eq last x)) [
  | inl e ↦ rw e (dedup_from-Rising last xs h.1 o.1)
  | inr e ↦
      let below : encoding_priority last < encoding_priority x =
        ground (arith, encoding_eq_iff_priority last x, h.0) in
      let rest = dedup_from-Rising x xs o.0 o.1 in
      rw e ((below, All-map _ _ (dedup_from encoding_eq x xs) (λ y p. omega arith) rest.0), rest)
]

pub dedup-Rising :
    (xs : List CompressionEncoder) → Ordered priority_leb xs → Rising (dedup encoding_eq xs)
unfolding dedup
dedup-Rising [] o = tt
dedup-Rising (x ∷ xs) o = dedup_from-Rising x xs o.0 o.1

pub sort_by-priority-Ordered :
    (xs : List CompressionEncoder) → Ordered priority_leb (sort_by priority_leb xs)
sort_by-priority-Ordered =
    sort_by-Ordered priority_leb (λ a b h. ground arith) (λ a b c h k. ground arith)

-- The common normal form: sorted by preference, each encoding once, none lost and none new.
pub dedup-sort_by-Rising :
    (xs : List CompressionEncoder) → Rising (dedup encoding_eq (sort_by priority_leb xs))
dedup-sort_by-Rising xs = dedup-Rising (sort_by priority_leb xs) (sort_by-priority-Ordered xs)

pub contains-dedup-sort_by :
    (e : CompressionEncoder) (xs : List CompressionEncoder)
    → contains e (dedup encoding_eq (sort_by priority_leb xs)) ≡ contains e xs
contains-dedup-sort_by e xs =
    any-dedup (encoding_eq e) encoding_eq (encoding_eq_congr e) (sort_by priority_leb xs)
    ∙ any-sort_by (encoding_eq e) priority_leb xs

pub encoding_eq_sound : (a b : CompressionEncoder) → encoding_eq a b ≡ true → a ≡ b
unfolding encoding_eq
encoding_eq_sound a b h = ground arith

pub encoding_eq_refl : (a : CompressionEncoder) → encoding_eq a a ≡ true
unfolding encoding_eq
encoding_eq_refl a = ground arith

module _ (keep : CompressionEncoder → Bool) where
  pub All-retain {κ} :
      (P : CompressionEncoder → Type κ) (xs : List CompressionEncoder)
      → All P xs
      → All P (retain keep xs)
  All-retain P [] h = tt
  All-retain P (x ∷ xs) h = elim (Bool-cases (keep x)) [
    | inl e ↦ rw e (h.0, All-retain P xs h.1)
    | inr e ↦ rw e (All-retain P xs h.1)
  ]

  pub retain-Rising : (xs : List CompressionEncoder) → Rising xs → Rising (retain keep xs)
  retain-Rising [] h = tt
  retain-Rising (x ∷ xs) h = elim (Bool-cases (keep x)) [
    | inl e ↦ rw e (All-retain _ xs h.0, retain-Rising xs h.1)
    | inr e ↦ rw e (retain-Rising xs h.1)
  ]

  pub contains-retain :
      (e : CompressionEncoder) (xs : List CompressionEncoder)
      → contains e (retain keep xs) ≡ (if keep e then contains e xs else false)
  contains-retain e [] = ground arith
  contains-retain e (x ∷ xs) = ground (
    arith,
    contains-retain e xs,
    encoding_eq_sound e x,
    λ (h : encoding_eq e x ≡ true). ap keep (encoding_eq_sound e x h),
  )
