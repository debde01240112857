-- ===== src/IdList/Worker/Diff/Visited.antt =====
-- One partition of the difference: what the scan of the new version and the removals do to the
-- reverse index.
use mathlib.Core.Logic.{inl, inr}
use statsig_forward_proxy.Prelude.{
  ℕ, ◌≡◌, ◌∙◌, refl, sym, ap, Bool, true, false, not, ◌&&◌, ◌||◌, List, [], ◌∷◌, ◌++◌, arith, Text,
  text_beq, text_beq_sound, length, leb, Bool-cases, if◌then◌else◌, to_string, text_eq, beq_symm,
}
use statsig_forward_proxy.IdList.Schema.Keys.{member_key, fwd_key}
use statsig_forward_proxy.IdList.Worker.Redis.{listed, listed-retain, Redis, IsRedis}
use statsig_forward_proxy.IdList.Worker.Config.{WorkerConfig}
use statsig_forward_proxy.IdList.Worker.Scan.Fanout.{listed-append, fanout_members-Fanned}
use statsig_forward_proxy.IdList.Worker.Diff.{Pending, visit_member, visit_page}
use statsig_forward_proxy.IdList.Worker.Diff.Scanned.{here}

-- The Boolean steps, where `b` says that a member is the one that is visited.
left_hit :
    (b i n o l : Bool)
    → l ≡ o && not (i && n)
    → (b ≡ true → i ≡ true)
    → not b && l ≡ o && not (i && (n || b))
left_hit true i n o l h k = rw (k refl) (ground arith)
left_hit false i n o l h k = h ∙ ground arith

left_miss :
    (b i n o l : Bool)
    → l ≡ o && not (i && n)
    → (b ≡ true → i ≡ true)
    → (b ≡ true → l ≡ false)
    → l ≡ o && not (i && (n || b))
left_miss true i n o l h k z = rw (k refl, z refl) (ground arith)
left_miss false i n o l h k z = h ∙ ground arith

held_hit :
    (b i n h0 held : Bool)
    → held ≡ h0 || (i && n)
    → (b ≡ true → h0 ≡ true)
    → held ≡ h0 || (i && (n || b))
held_hit true i n h0 held h k = h ∙ rw (k refl) refl
held_hit false i n h0 held h k = h ∙ ground arith

held_add :
    (b i n h0 hs a : Bool)
    → hs || a ≡ h0 || (i && n)
    → (b ≡ true → i ≡ true)
    → hs || (a || (if b then true else false)) ≡ h0 || (i && (n || b))
held_add true i n h0 hs a h k = rw (k refl) (ground arith)
held_add false i n h0 hs a h k = ground (arith, h)

flushed : (l hs : Bool) → (if l then true else hs) || false ≡ hs || l
flushed true hs = ground arith
flushed false hs = ground arith

both_true : (a b : Bool) → a && b ≡ true → a ≡ true
both_true true b h = refl
both_true false b h = cc

module _ (R : Redis) (L : IsRedis R) (key_prefix skh : Text) (config : WorkerConfig) (token : ℕ)
    (partition_for : Text → ℕ → ℕ) (partition partitions : ℕ) where
  abbrev pub holds : R.State → Text → Bool
  holds s x = R.sismember s (member_key key_prefix skh x) (to_string token)

  -- No forward set of the company has changed.
  abbrev pub SameForwards : R.State → R.State → Type 0
  SameForwards s t =
      (list ver y : Text)
      → R.sismember t (fwd_key key_prefix skh list ver) y
        ≡ R.sismember s (fwd_key key_prefix skh list ver) y

  abbrev pub inside : Text → Bool
  inside = here R L key_prefix skh config token partition_for partition partitions

  -- The scan when the members `seen` have been visited: of the old members of the partition those
  -- not seen are left, and all that are seen hold the token or are about to.
  pub record Visit (old seen : Text → Bool) (s0 : R.State)
      (p : Pending R key_prefix skh config token partition_for) (s : R.State) : Type 0 where
    pub left : (x : Text) → listed x p.existing ≡ old x && not (inside x && seen x)
    pub held : (x : Text) → holds s x || listed x p.additions ≡ holds s0 x || (inside x && seen x)
    pub forwards : SameForwards s0 s

  pub Visit-congr :
      (old seen seen' : Text → Bool) (s0 s : R.State)
      (p : Pending R key_prefix skh config token partition_for)
      → ((x : Text) → inside x && seen x ≡ inside x && seen' x)
      → Visit old seen s0 p s
      → Visit old seen' s0 p s
  Visit-congr old seen seen' s0 s p e v = record {
    left = λ x. v.left x ∙ ap (λ b. old x && not b) (e x);
    held = λ x. v.held x ∙ ap (λ b. holds s0 x || b) (e x);
    forwards = v.forwards;
  }

  abbrev also : (Text → Bool) → Text → Text → Bool
  also seen m x = seen x || text_beq m x

  visit_member-Visit :
      (old seen : Text → Bool) (s0 s : R.State)
      (p : Pending R key_prefix skh config token partition_for) (m : Text)
      → ((x : Text) → old x ≡ true → holds s0 x ≡ true)
      → inside m ≡ true
      → Visit old seen s0 p s
      → Visit old
          (also seen m)
          s0
          (visit_member R key_prefix skh config token partition_for m p s).0
          (visit_member R key_prefix skh config token partition_for m p s).1
  unfolding visit_member
  visit_member-Visit old seen s0 s p m known in_m v = elim (Bool-cases (listed m p.existing)) [
    | inl e ↦
        rw (visit_member, e)
          (record {
            left = λ x.
                listed-retain (λ y. not (text_beq y m)) x p.existing
                ∙ (ap (λ b. not b && listed x p.existing) (beq_symm x m)
                    ∙ left_hit (text_beq m x) (inside x) (seen x) (old x) (listed x p.existing)
                        (v.left x) (is_inside x));
            held = λ x. held_hit (text_beq m x) (inside x) (seen x) (holds s0 x) _ (v.held x) λ b.
                ap (holds s0) (sym (text_beq_sound m x b))
                ∙ known m (both_true (old m) _ (sym (v.left m) ∙ e));
            forwards = v.forwards;
          })
    | inr e ↦ elim (Bool-cases (leb config.scan_count (length (p.additions ++ (m ∷ []))))) [
      | inl f ↦
          rw (visit_member, e, f)
            (record {
              left = λ x. missed e x;
              held = λ x.
                  ap (λ b. b || false)
                    ((fanout_members-Fanned R L key_prefix skh [] [] config token true
                        (p.additions ++ (m ∷ [])) s).members
                      x)
                  ∙ (flushed (listed x (p.additions ++ (m ∷ []))) (holds s x) ∙ added x);
              forwards = λ list ver y.
                  (fanout_members-Fanned R L key_prefix skh list ver config token true
                      (p.additions ++ (m ∷ [])) s).forward
                    y
                  ∙ v.forwards list ver y;
            })
      | inr f ↦
          rw (visit_member, e, f)
            (record { left = λ x. missed e x; held = added; forwards = v.forwards })
    ]
  ]
    where
      is_inside : (x : Text) → text_beq m x ≡ true → inside x ≡ true
      is_inside x b = ap inside (sym (text_beq_sound m x b)) ∙ in_m

      missed :
          listed m p.existing ≡ false
          → (x : Text) → listed x p.existing ≡ old x && not (inside x && also seen m x)
      missed e x =
          left_miss (text_beq m x) (inside x) (seen x) (old x) (listed x p.existing) (v.left x)
            (is_inside x) (λ b. ap (λ y. listed y p.existing) (sym (text_beq_sound m x b)) ∙ e)

      added :
          (x : Text)
          → holds s x || listed x (p.additions ++ (m ∷ []))
            ≡ holds s0 x || (inside x && also seen m x)
      added x =
          ap (λ b. holds s x || b) (listed-append x p.additions (m ∷ []))
          ∙ held_add (text_beq m x) (inside x) (seen x) (holds s0 x) (holds s x)
              (listed x p.additions) (v.held x) (is_inside x)

  pub visit_page-Visit :
      (ms : List Text) (old seen : Text → Bool) (s0 s : R.State)
      (p : Pending R key_prefix skh config token partition_for)
      → ((x : Text) → old x ≡ true → holds s0 x ≡ true)
      → Visit old seen s0 p s
      → Visit old
          (λ x. seen x || listed x ms)
          s0
          (visit_page R key_prefix skh config token partition_for partition partitions ms p s).0
          (visit_page R key_prefix skh config token partition_for partition partitions ms p s).1
  unfolding visit_page
  visit_page-Visit [] old seen s0 s p known v =
      Visit-congr old seen (λ x. seen x || false) s0 s p (λ x. ground arith) v
  visit_page-Visit (m ∷ ms) old seen s0 s p known v = elim (Bool-cases (inside m)) [
    | inl e ↦
        let r = visit_member R key_prefix skh config token partition_for m p s in
        let w = visit_member-Visit old seen s0 s p m known e v in
        rw (visit_page, e)
          (Visit-congr old (λ x. also seen m x || listed x ms)
            (λ x. seen x || (if text_beq m x then true else listed x ms)) s0 _ _ (λ x. ground arith)
            (visit_page-Visit ms old (also seen m) s0 r.1 r.0 known w))
    | inr e ↦
        rw (visit_page, e)
          (Visit-congr old (λ x. seen x || listed x ms)
            (λ x. seen x || (if text_beq m x then true else listed x ms)) s0 _ _ (λ x. skip e x)
            (visit_page-Visit ms old seen s0 s p known v))
  ]
    where
      outside :
          (b i n l : Bool)
          → (b ≡ true → i ≡ false)
          → i && (n || l) ≡ i && (n || (if b then true else l))
      outside true i n l k = rw (k refl) refl
      outside false i n l k = refl

      skip :
          inside m ≡ false
          → (x : Text)
          → inside x && (seen x || listed x ms)
            ≡ inside x && (seen x || (if text_beq m x then true else listed x ms))
      skip e x =
          outside (text_beq m x) (inside x) (seen x) (listed x ms)
            (λ b. ap inside (sym (text_beq_sound m x b)) ∙ e)
