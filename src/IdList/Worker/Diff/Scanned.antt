-- ===== src/IdList/Worker/Diff/Scanned.antt =====
-- What the scans of a partition see, on sets that stay the same.
use mathlib.Core.List.{flatten}
use mathlib.Core.Logic.{inl, inr}
use statsig_forward_proxy.Prelude.{
  ℕ, ◌+◌, ◌≡◌, ◌∙◌, refl, sym, ap, Bool, true, false, ◌&&◌, ◌||◌, List, [], ◌∷◌, ◌++◌, ◌⊎◌, arith,
  Text, text_beq, text_beq_sound, retain, length, ◌==◌, Bool-cases, if◌then◌else◌,
}
use statsig_forward_proxy.IdList.Worker.Redis.{listed, listed-retain, Redis, IsRedis}
use statsig_forward_proxy.IdList.Worker.Config.{WorkerConfig}
use statsig_forward_proxy.IdList.Worker.Step.{
  Outcome, Outcome-weaken, then_with, then_with-Outcome, done,
}
use statsig_forward_proxy.IdList.Worker.Scan.{
  renew_at, verify_scan_key_before, verify_scan_complete,
}
use statsig_forward_proxy.IdList.Worker.Scan.Fanout.{
  listed-append, renew_at-Outcome, verify_before-Outcome, verify_complete-Outcome,
}
use statsig_forward_proxy.IdList.Worker.Diff.{extend, partition_pages, scan_partition}

listed-extend :
    (x : Text) (set ms : List Text) → listed x (extend set ms) ≡ listed x set || listed x ms
unfolding extend
listed-extend x set [] = ground arith
listed-extend x set (m ∷ ms) = elim (Bool-cases (listed m set)) [
  | inl e ↦
      let seen : listed x set ≡ listed x set || (if text_beq m x then true else false) =
        known (Bool-cases (text_beq m x)) e in
      rw (extend, e) (listed-extend x set ms ∙ ground (arith, seen))
  | inr e ↦ rw (extend, e) (listed-extend x (m ∷ set) ms ∙ ground arith)
]
  where
    known :
        (text_beq m x ≡ true) ⊎ (text_beq m x ≡ false)
        → listed m set ≡ true
        → listed x set ≡ listed x set || (if text_beq m x then true else false)
    known (inl h) e = rw (h, ap (λ y. listed y set) (sym (text_beq_sound m x h)) ∙ e) refl
    known (inr h) e = rw h (ground arith)

-- All sets are the same in both states.
abbrev pub Agree : (R : Redis) → R.State → R.State → Type 0
Agree R s t = (j x : Text) → R.sismember t j x ≡ R.sismember s j x

module _ (R : Redis) (L : IsRedis R) (key_prefix skh : Text) (config : WorkerConfig) (token : ℕ)
    (partition_for : Text → ℕ → ℕ) (partition partitions : ℕ) where
  -- Whether a member is in the partition.
  abbrev pub here : Text → Bool
  here x = partition_for x partitions == partition

  -- What has been found of the partition when the pages are read.
  pub record Found (start : List Text) (members : Text → Bool) (s : R.State) (found : List Text)
      (t : R.State) : Type 0 where
    pub agree : Agree R s t
    pub members_found : (x : Text) → listed x found ≡ listed x start || (here x && members x)

  partition_pages-Outcome :
      (pages : List (List Text)) (n scanned : ℕ) (members : List Text) (s : R.State)
      → Outcome
          (λ e t. Unit {0})
          (λ found t. Found members (λ x. listed x (flatten pages)) s found.0 t)
          (partition_pages R key_prefix skh config token partition_for partition partitions pages n
            members scanned s)
  unfolding partition_pages flatten
  partition_pages-Outcome [] n scanned members s = record {
    agree = λ j x. refl;
    members_found = λ x. ground arith;
  }
  partition_pages-Outcome (page ∷ rest) n scanned members s =
      let kept = extend members (retain here page) in
      then_with-Outcome (λ e t. Unit {0}) (λ u t. Agree R s t)
        (λ found t. Found members (λ x. listed x (page ++ flatten rest)) s found.0 t)
        (renew_at R (n + 1) s)
        (λ _.
          partition_pages R key_prefix skh config token partition_for partition partitions rest
            (n + 1) kept (scanned + length page))
        (Outcome-weaken (λ e t. Agree R s t) (λ e t. Unit {0}) (λ u t. Agree R s t)
          (λ u t. Agree R s t) (renew_at R (n + 1) s) (λ e t h. tt) (λ u t h. h)
          (renew_at-Outcome R L key_prefix skh [] [] config token (Agree R s) (n + 1) s (λ t h. h)))
        (λ u t h.
          Outcome-weaken (λ e v. Unit {0}) (λ e v. Unit {0})
            (λ found v. Found kept (λ x. listed x (flatten rest)) t found.0 v)
            (λ found v. Found members (λ x. listed x (page ++ flatten rest)) s found.0 v)
            (partition_pages R key_prefix skh config token partition_for partition partitions rest
              (n + 1) kept (scanned + length page) t)
            (λ e v k. tt)
            (λ found v k. record {
              agree = λ j x. k.agree j x ∙ h j x;
              members_found = λ x.
                  k.members_found x
                  ∙ rw
                      (
                        listed-extend x members (retain here page),
                        listed-retain here x page,
                        listed-append x page (flatten rest),
                      )
                      (ground arith);
            })
            (partition_pages-Outcome rest (n + 1) (scanned + length page) kept t))

  -- A scan finds the members of the set that are in the partition.
  pub scan_partition-Outcome :
      (key : Text) (card : ℕ) (s : R.State)
      → Outcome
          (λ e t. Unit {0})
          (λ found t. Found [] (R.sismember s key) s found t)
          (scan_partition R key_prefix skh config token partition_for key card partition partitions
            s)
  unfolding scan_partition
  scan_partition-Outcome key card s =
      let pages = R.sscan s key in
      let Whole : List Text → R.State → Type 0 =
        λ found t. Found [] (R.sismember s key) s found t in
      then_with-Outcome (λ e t. Unit {0}) (λ u t. t ≡ s) Whole (verify_scan_key_before R key card s)
        (λ u t.
          then_with
            (partition_pages R key_prefix skh config token partition_for partition partitions pages
              0 [] 0 t)
            (λ found v. then_with (verify_scan_complete R key card found.1 v) (λ _. done found.0)))
        (Outcome-weaken (λ e t. t ≡ s) (λ e t. Unit {0}) (λ u t. t ≡ s) (λ u t. t ≡ s)
          (verify_scan_key_before R key card s) (λ e t p. tt) (λ u t p. p)
          (verify_before-Outcome R L key_prefix skh [] [] config token (λ t. t ≡ s) key card s
            refl))
        (λ u t p. rw p (
          then_with-Outcome (λ e t. Unit {0})
            (λ found v. Found [] (λ x. listed x (flatten pages)) s found.0 v) Whole
            (partition_pages R key_prefix skh config token partition_for partition partitions pages
              0 [] 0 s)
            (λ found v. then_with (verify_scan_complete R key card found.1 v) (λ _. done found.0))
            (partition_pages-Outcome pages 0 0 [] s)
            (λ found v k.
              then_with-Outcome (λ e t. Unit {0}) (λ u w. Whole found.0 w) Whole
                (verify_scan_complete R key card found.1 v) (λ _. done found.0)
                (verify_complete-Outcome R L key_prefix skh [] [] config token (λ w. Unit {0})
                  (Whole found.0) key card found.1 v tt
                  (record {
                    agree = k.agree;
                    members_found =
                        λ x. k.members_found x ∙ ap (λ b. here x && b) (L.sscan_members s key x);
                  }))
                (λ u w q. q))))
