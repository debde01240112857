-- ===== src/IdList/Worker/Diff/Partition.antt =====
-- What one partition, and all of them, leave of the reverse index.
use mathlib.Core.List.{flatten}
use statsig_forward_proxy.Prelude.{
  ℕ, ◌+◌, ◌≡◌, ◌∙◌, refl, ap, Bool, true, false, not, ◌&&◌, ◌||◌, List, [], ◌∷◌, ◌++◌, arith, Text,
  length, if◌then◌else◌, to_string, min, u64_max,
}
use statsig_forward_proxy.IdList.Schema.State.{diff_partition_field}
use statsig_forward_proxy.IdList.Schema.Keys.{member_key, fwd_key}
use statsig_forward_proxy.IdList.Worker.Redis.{hash_set, listed, Redis, IsRedis}
use statsig_forward_proxy.IdList.Worker.Config.{WorkerConfig}
use statsig_forward_proxy.IdList.Worker.Step.{Outcome, Outcome-weaken, then_with-Outcome}
use statsig_forward_proxy.IdList.Worker.Scan.{
  chunks, renew_now, renew_at, fanout_members, verify_scan_key_before,
}
use statsig_forward_proxy.IdList.Worker.Scan.Fanout.{
  listed-append, append_nil, append_assoc, Fanned, Fanned-then, fanout_members-Fanned,
  flatten-chunks_from, renew_now-Outcome, renew_at-Outcome, verify_before-Outcome,
}
use statsig_forward_proxy.IdList.Worker.Diff.{
  Pending, visit_page, visit_pages, scan_new, remove_chunks, finish_partition,
}
use statsig_forward_proxy.IdList.Worker.Diff.Scanned.{Agree}
use statsig_forward_proxy.IdList.Worker.Diff.Visited.{
  holds, SameForwards, inside, Visit, Visit-congr, visit_page-Visit,
}

-- A member of the partition is held exactly if the new version has it.
settled :
    (w io n h : Bool)
    → (w ≡ true → h ≡ io)
    → (if (w && io) && not (w && n) then false else (h || (w && n))) ≡ (if w then n else h)
settled true true true h k = ground arith
settled true true false h k = ground arith
settled true false true h k = ground arith
settled true false false h k = rw (k refl) refl
settled false io n h k = ground arith

or_if : (a h : Bool) → (if a then true else h) ≡ h || a
or_if true h = ground arith
or_if false h = ground arith

module _ (R : Redis) (L : IsRedis R) (key_prefix skh : Text) (config : WorkerConfig) (token : ℕ)
    (partition_for : Text → ℕ → ℕ) (partition partitions : ℕ) where
  abbrev pub Sees :
      (Text → Bool)
      → (Text → Bool)
      → R.State
      → Pending R key_prefix skh config token partition_for
      → R.State
      → Type 0
  Sees = Visit R L key_prefix skh config token partition_for partition partitions

  abbrev pub held_in : R.State → Text → Bool
  held_in = holds R L key_prefix skh config token partition_for partition partitions

  abbrev pub within : Text → Bool
  within = inside R L key_prefix skh config token partition_for partition partitions

  Visit-Agree :
      (old seen : Text → Bool) (s0 s t : R.State)
      (p : Pending R key_prefix skh config token partition_for)
      → Agree R s t
      → Sees old seen s0 p s
      → Sees old seen s0 p t
  Visit-Agree old seen s0 s t p h v = record {
    left = v.left;
    held = λ x.
        ap (λ b. b || listed x p.additions) (h (member_key key_prefix skh x) (to_string token))
        ∙ v.held x;
    forwards = λ list ver y. h (fwd_key key_prefix skh list ver) y ∙ v.forwards list ver y;
  }

  visit_pages-Outcome :
      (pages : List (List Text)) (n scanned : ℕ) (old seen : Text → Bool) (s0 s : R.State)
      (p : Pending R key_prefix skh config token partition_for)
      → ((x : Text) → old x ≡ true → held_in s0 x ≡ true)
      → Sees old seen s0 p s
      → Outcome
          (λ e t. Unit {0})
          (λ found t. Sees old (λ x. seen x || listed x (flatten pages)) s0 found.0 t)
          (visit_pages R key_prefix skh config token partition_for partition partitions pages n
            scanned p s)
  unfolding visit_pages flatten
  visit_pages-Outcome [] n scanned old seen s0 s p known v =
      Visit-congr R L key_prefix skh config token partition_for partition partitions old seen
        (λ x. seen x || false) s0 s p (λ x. ground arith) v
  visit_pages-Outcome (page ∷ rest) n scanned old seen s0 s p known v =
      let r =
        visit_page R key_prefix skh config token partition_for partition partitions page p s in
      let more : Text → Bool = λ x. seen x || listed x page in
      let w =
        visit_page-Visit R L key_prefix skh config token partition_for partition partitions page old
          seen s0 s p known v in
      then_with-Outcome (λ e t. Unit {0}) (λ u t. Agree R r.1 t)
        (λ found t. Sees old (λ x. seen x || listed x (page ++ flatten rest)) s0 found.0 t)
        (renew_at R (n + 1) r.1)
        (λ _.
          visit_pages R key_prefix skh config token partition_for partition partitions rest (n + 1)
            (scanned + length page) r.0)
        (Outcome-weaken (λ e t. Agree R r.1 t) (λ e t. Unit {0}) (λ u t. Agree R r.1 t)
          (λ u t. Agree R r.1 t) (renew_at R (n + 1) r.1) (λ e t h. tt) (λ u t h. h)
          (renew_at-Outcome R L key_prefix skh [] [] config token (Agree R r.1) (n + 1) r.1
            (λ t h. h)))
        (λ u t h.
          Outcome-weaken (λ e k. Unit {0}) (λ e k. Unit {0})
            (λ found k. Sees old (λ x. more x || listed x (flatten rest)) s0 found.0 k)
            (λ found k. Sees old (λ x. seen x || listed x (page ++ flatten rest)) s0 found.0 k)
            (visit_pages R key_prefix skh config token partition_for partition partitions rest
              (n + 1) (scanned + length page) r.0 t)
            (λ e k z. z)
            (λ found k z.
              Visit-congr R L key_prefix skh config token partition_for partition partitions old
                (λ x. more x || listed x (flatten rest))
                (λ x. seen x || listed x (page ++ flatten rest)) s0 k found.0
                (λ x. rw (listed-append x page (flatten rest)) (ground arith)) z)
            (visit_pages-Outcome rest (n + 1) (scanned + length page) old more s0 t r.0 known
              (Visit-Agree old more s0 r.1 t r.0 h w)))

  pub scan_new-Outcome :
      (new_key : Text) (card : ℕ) (old : List Text) (s : R.State)
      → ((x : Text) → listed x old ≡ true → held_in s x ≡ true)
      → Outcome
          (λ e t. Unit {0})
          (λ found t. Sees (λ x. listed x old) (R.sismember s new_key) s found.0 t)
          (scan_new R key_prefix skh config token partition_for new_key card partition partitions
            old s)
  unfolding scan_new
  scan_new-Outcome new_key card old s known =
      let p0 : Pending R key_prefix skh config token partition_for = record {
        existing = old;
        additions = [];
      } in
      let pages = R.sscan s new_key in
      then_with-Outcome (λ e t. Unit {0}) (λ u t. t ≡ s)
        (λ found t. Sees (λ x. listed x old) (R.sismember s new_key) s found.0 t)
        (verify_scan_key_before R new_key card s)
        (λ u t.
          visit_pages R key_prefix skh config token partition_for partition partitions
            (R.sscan t new_key) 0 0 p0 t)
        (Outcome-weaken (λ e t. t ≡ s) (λ e t. Unit {0}) (λ u t. t ≡ s) (λ u t. t ≡ s)
          (verify_scan_key_before R new_key card s) (λ e t h. tt) (λ u t h. h)
          (verify_before-Outcome R L key_prefix skh [] [] config token (λ t. t ≡ s) new_key card s
            refl))
        (λ u t h. rw h (
          Outcome-weaken (λ e k. Unit {0}) (λ e k. Unit {0})
            (λ found k.
              Sees (λ x. listed x old) (λ x. false || listed x (flatten pages)) s found.0 k)
            (λ found k. Sees (λ x. listed x old) (R.sismember s new_key) s found.0 k)
            (visit_pages R key_prefix skh config token partition_for partition partitions pages 0 0
              p0 s)
            (λ e k z. z)
            (λ found k z.
              Visit-congr R L key_prefix skh config token partition_for partition partitions
                (λ x. listed x old) (λ x. false || listed x (flatten pages)) (R.sismember s new_key)
                s k found.0 (λ x. ap (λ b. within x && b) (L.sscan_members s new_key x)) z)
            (visit_pages-Outcome pages 0 0 (λ x. listed x old) (λ x. false) s s p0 known
              (record {
                left = λ x. ground arith;
                held = λ x. ground arith;
                forwards = λ list ver y. refl;
              }))))

  remove_chunks-Fanned :
      (list ver : Text) (cs : List (List Text)) (s0 s : R.State) (before : List Text)
      → Fanned R L key_prefix skh list ver config token false before s0 s
      → Fanned R L key_prefix skh list ver config token false
          (before ++ flatten cs)
          s0
          (remove_chunks R key_prefix skh config token partition_for cs s)
  unfolding flatten
  remove_chunks-Fanned list ver [] s0 s before f = rw (append_nil before) f
  remove_chunks-Fanned list ver (c ∷ cs) s0 s before f =
      let t = fanout_members R key_prefix skh config token false c s in
      let g =
        Fanned-then R L key_prefix skh list ver config token false before c s0 s t f
          (fanout_members-Fanned R L key_prefix skh list ver config token false c s) in
      rw (← append_assoc before c (flatten cs))
        (remove_chunks-Fanned list ver cs s0 t (before ++ c) g)

  -- After a partition: its members are indexed exactly if the new version has them, all others are
  -- indexed as before, and no forward set has changed.
  pub record Moved (new : Text → Bool) (s t : R.State) : Type 0 where
    pub members : (x : Text) → held_in t x ≡ (if within x then new x else held_in s x)
    pub forwards :
        SameForwards R L key_prefix skh config token partition_for partition partitions s t

  pub finish_partition-Outcome :
      (state_key : Text) (in_old new : Text → Bool) (old : List Text) (s0 s : R.State)
      (p : Pending R key_prefix skh config token partition_for)
      → ((x : Text) → listed x old ≡ within x && in_old x)
      → ((x : Text) → within x ≡ true → held_in s0 x ≡ in_old x)
      → Sees (λ x. listed x old) new s0 p s
      → Outcome
          (λ e t. Unit {0})
          (λ u t. Moved new s0 t)
          (finish_partition R key_prefix skh config token partition_for state_key partition p s)
  unfolding finish_partition
  finish_partition-Outcome state_key in_old new old s0 s p was before v =
      let a = fanout_members R key_prefix skh config token true p.additions s in
      let r =
        remove_chunks R key_prefix skh config token partition_for
          (chunks config.scan_count p.existing) a in
      let m =
        hash_set state_key ((diff_partition_field, to_string (min u64_max (partition + 1))) ∷ []) in
      Outcome-weaken (λ e t. Moved new s0 t) (λ e t. Unit {0}) (λ u t. Moved new s0 t)
        (λ u t. Moved new s0 t) (renew_now R (R.perform r m)) (λ e t h. tt) (λ u t h. h)
        (renew_now-Outcome R L key_prefix skh [] [] config token (Moved new s0) (R.perform r m)
          (λ t h. record {
            members = λ x.
                h (member_key key_prefix skh x) (to_string token)
                ∙ (L.sismember-perform r m _ _ ∙ moved x);
            forwards = λ list ver y.
                h (fwd_key key_prefix skh list ver) y
                ∙ (L.sismember-perform r m _ _ ∙ kept list ver y);
          }))
    where
      removed :
          (list ver : Text)
          → Fanned R L key_prefix skh list ver config token false
              (flatten (chunks config.scan_count p.existing))
              (fanout_members R key_prefix skh config token true p.additions s)
              (remove_chunks R key_prefix skh config token partition_for
                (chunks config.scan_count p.existing)
                (fanout_members R key_prefix skh config token true p.additions s))
      removed list ver =
          remove_chunks-Fanned list ver (chunks config.scan_count p.existing) _ _ []
            (record { members = λ x. refl; forward = λ y. refl })

      added :
          (list ver : Text)
          → Fanned R L key_prefix skh list ver config token true p.additions s
              (fanout_members R key_prefix skh config token true p.additions s)
      added list ver =
          fanout_members-Fanned R L key_prefix skh list ver config token true p.additions s

      kept :
          (list ver y : Text)
          → R.sismember
              (remove_chunks R key_prefix skh config token partition_for
                (chunks config.scan_count p.existing)
                (fanout_members R key_prefix skh config token true p.additions s))
              (fwd_key key_prefix skh list ver)
              y
            ≡ R.sismember s0 (fwd_key key_prefix skh list ver) y
      kept list ver y =
          (removed list ver).forward y ∙ ((added list ver).forward y ∙ v.forwards list ver y)

      moved :
          (x : Text)
          → held_in
              (remove_chunks R key_prefix skh config token partition_for
                (chunks config.scan_count p.existing)
                (fanout_members R key_prefix skh config token true p.additions s))
              x
            ≡ (if within x then new x else held_in s0 x)
      moved x =
          (removed [] []).members x
          ∙ (ap
                (λ l.
                  if listed x l
                  then false
                  else held_in (fanout_members R key_prefix skh config token true p.additions s) x)
                (flatten-chunks_from config.scan_count [] p.existing)
              ∙ (ap (λ b. if listed x p.existing then false else b)
                    ((added [] []).members x
                      ∙ (or_if (listed x p.additions) (held_in s x) ∙ v.held x))
                  ∙ (ap (λ b. if b then false else (held_in s0 x || (within x && new x)))
                        (v.left x ∙ ap (λ b. b && not (within x && new x)) (was x))
                      ∙ settled (within x) (in_old x) (new x) (held_in s0 x) (before x))))
