-- ===== src/IdList/Worker/Scan/Fanout.antt =====
-- What the pipelines of a scan leave of the reverse index of a list, and that they leave its forward
-- sets alone.
use mathlib.Core.List.{flatten}
use mathlib.Core.Logic.{inl, inr}
use statsig_forward_proxy.Prelude.{
  ℕ, ◌+◌, ◌%◌, ◌≡◌, ◌∙◌, refl, sym, ap, Bool, false, not, ◌&&◌, ◌||◌, List, [], ◌∷◌, ◌++◌, map,
  arith, Text, text_beq, text_beq_refl, to_string, length, leb, ltb, Bool-cases, if◌then◌else◌,
  ◌==◌,
}
use statsig_forward_proxy.IdList.Schema.Keys.{member_key, fwd_key}
use statsig_forward_proxy.IdList.Schema.Apart.{text_beq-member_key, member_key-fwd_key}
use statsig_forward_proxy.IdList.Worker.Redis.{
  Command, member_after_all, listed, Redis, IsRedis, query, query-append, sismember-query,
}
use statsig_forward_proxy.IdList.Worker.Config.{WorkerConfig}
use statsig_forward_proxy.IdList.Worker.Step.{Outcome, Outcome-weaken, then_with, then_with-Outcome}
use statsig_forward_proxy.IdList.Worker.Apply.Batches.{member_after-set_command}
use statsig_forward_proxy.IdList.Worker.Scan.{
  chunks_from, chunks, query_all, renew_now, renew_at, lock_renewal_scan_pages, fanout_command,
  fanout_members, fanout_pages, fanout_scan, verify_scan_key_before, verify_scan_complete,
}

pub append_nil : {A : Type 0} (xs : List A) → xs ++ [] ≡ xs
append_nil [] = refl
append_nil (x ∷ xs) = ap (λ l. x ∷ l) (append_nil xs)

pub append_assoc : {A : Type 0} (xs ys zs : List A) → (xs ++ ys) ++ zs ≡ xs ++ (ys ++ zs)
append_assoc [] ys zs = refl
append_assoc (x ∷ xs) ys zs = ap (λ l. x ∷ l) (append_assoc xs ys zs)

pub flatten-chunks_from :
    {A : Type 0} (size : ℕ) (started xs : List A)
    → flatten (chunks_from size started xs) ≡ started ++ xs
unfolding chunks_from flatten
flatten-chunks_from size [] [] = refl
flatten-chunks_from size (y ∷ ys) [] = refl
flatten-chunks_from size started (x ∷ xs) =
    elim (Bool-cases (leb size (length (started ++ (x ∷ []))))) [
      | inl e ↦
          rw (chunks_from, e)
            (ap (λ l. (started ++ (x ∷ [])) ++ l) (flatten-chunks_from size [] xs)
              ∙ append_assoc started (x ∷ []) xs)
      | inr e ↦
          rw (chunks_from, e)
            (flatten-chunks_from size (started ++ (x ∷ [])) xs ∙ append_assoc started (x ∷ []) xs)
    ]

map-append : {A B : Type 0} (f : A → B) (xs ys : List A) → map f (xs ++ ys) ≡ map f xs ++ map f ys
map-append f [] ys = refl
map-append f (x ∷ xs) ys = ap (λ l. f x ∷ l) (map-append f xs ys)

pub listed-append :
    (x : Text) (xs ys : List Text) → listed x (xs ++ ys) ≡ listed x xs || listed x ys
listed-append x [] ys = refl
listed-append x (y ∷ xs) ys = ground (arith, listed-append x xs ys)

module _ (R : Redis) where
  -- How the commands are cut into pipelines makes no difference.
  pub query_all-chunks :
      {A : Type 0} (f : A → Command) (size : ℕ) (xs : List A) (s : R.State)
      → query_all R s (map (map f) (chunks size xs)) ≡ query R s (map f xs)
  unfolding query_all query flatten
  query_all-chunks {A} f size xs s =
      in_turn (chunks size xs) s ∙ ap (λ l. query R s (map f l)) (flatten-chunks_from size [] xs)
    where
      in_turn :
          (cs : List (List A)) (t : R.State)
          → query_all R t (map (map f) cs) ≡ query R t (map f (flatten cs))
      in_turn [] t = refl
      in_turn (c ∷ cs) t =
          in_turn cs (query R t (map f c))
          ∙ (sym (query-append R t (map f c) (map f (flatten cs)))
              ∙ ap (query R t) (sym (map-append f c (flatten cs))))

-- The views of a list that a fan-out is about: the members whose sets hold the token, and a forward set.
module _ (R : Redis) (L : IsRedis R) (key_prefix skh list ver : Text) (config : WorkerConfig)
    (token : ℕ) where
  abbrev pub indexed : R.State → Text → Bool
  indexed s x = R.sismember s (member_key key_prefix skh x) (to_string token)

  abbrev pub in_forward : R.State → Text → Bool
  in_forward s x = R.sismember s (fwd_key key_prefix skh list ver) x

  member_after-fanout :
      (add : Bool) (ms : List Text) (x : Text) (old : Bool)
      → member_after_all
          (member_key key_prefix skh x)
          (to_string token)
          (map (fanout_command R key_prefix skh config token add) ms)
          old
        ≡ (if listed x ms then add else old)
  member_after-fanout add [] x old = refl
  member_after-fanout add (m ∷ ms) x old =
      ap
        (member_after_all (member_key key_prefix skh x) (to_string token)
          (map (fanout_command R key_prefix skh config token add) ms))
        (member_after-set_command add (text_beq m x) (member_key key_prefix skh m)
          (member_key key_prefix skh x) (to_string token) (to_string token) old
          (rw (text_beq-member_key key_prefix skh m x, text_beq_refl (to_string token))
            (ground arith)))
      ∙ (member_after-fanout add ms x _ ∙ ground arith)

  forward_after-fanout :
      (add : Bool) (ms : List Text) (y : Text) (old : Bool)
      → member_after_all
          (fwd_key key_prefix skh list ver)
          y
          (map (fanout_command R key_prefix skh config token add) ms)
          old
        ≡ old
  forward_after-fanout add [] y old = refl
  forward_after-fanout add (m ∷ ms) y old =
      ap
        (member_after_all (fwd_key key_prefix skh list ver) y
          (map (fanout_command R key_prefix skh config token add) ms))
        (member_after-set_command add false (member_key key_prefix skh m)
          (fwd_key key_prefix skh list ver) (to_string token) y old
          (rw (member_key-fwd_key key_prefix skh m list ver) refl))
      ∙ forward_after-fanout add ms y old

  -- The members that are indexed from then on, where no forward set has changed.
  pub record Fanned (add : Bool) (ms : List Text) (s t : R.State) : Type 0 where
    pub members : (x : Text) → indexed t x ≡ (if listed x ms then add else indexed s x)
    pub forward : (y : Text) → in_forward t y ≡ in_forward s y

  pub fanout_members-Fanned :
      (add : Bool) (ms : List Text) (s : R.State)
      → Fanned add ms s (fanout_members R key_prefix skh config token add ms s)
  unfolding fanout_members
  fanout_members-Fanned add ms s =
      rw
        (
          fanout_members,
          query_all-chunks R (fanout_command R key_prefix skh config token add)
              config.pipeline_batch_size ms s,
        )
        (record {
          members = λ x.
              sismember-query R L s _ (member_key key_prefix skh x) (to_string token)
              ∙ member_after-fanout add ms x (indexed s x);
          forward = λ y.
              sismember-query R L s _ (fwd_key key_prefix skh list ver) y
              ∙ forward_after-fanout add ms y (in_forward s y);
        })

  pub Fanned-then :
      (add : Bool) (ms ns : List Text) (s t u : R.State)
      → Fanned add ms s t
      → Fanned add ns t u
      → Fanned add (ms ++ ns) s u
  Fanned-then add ms ns s t u p q = record {
    members = λ x.
        q.members x
        ∙ (ap (λ o. if listed x ns then add else o) (p.members x)
            ∙ rw (listed-append x ms ns) (ground arith));
    forward = λ y. q.forward y ∙ p.forward y;
  }

  Fanned-same :
      (add : Bool) (ms : List Text) (s t : R.State)
      → Fanned add ms s t
      → (u : R.State) → ((j x : Text) → R.sismember u j x ≡ R.sismember t j x)
      → Fanned add ms s u
  Fanned-same add ms s t f u h = record {
    members = λ x. h (member_key key_prefix skh x) (to_string token) ∙ f.members x;
    forward = λ y. h (fwd_key key_prefix skh list ver) y ∙ f.forward y;
  }

  -- A renewal, whether or not the claim is still held.
  pub renew_now-Outcome :
      (P : R.State → Type 0) (s : R.State)
      → ((t : R.State) → ((j x : Text) → R.sismember t j x ≡ R.sismember s j x) → P t)
      → Outcome (λ e t. P t) (λ u t. P t) (renew_now R s)
  unfolding renew_now
  renew_now-Outcome P s h = elim (Bool-cases (R.claim_lost s)) [
    | inl e ↦ rw (renew_now, e) (h s (λ j x. refl))
    | inr e ↦ elim (Bool-cases (R.renew s).0) [
      | inl k ↦ rw (renew_now, e, k) (h (R.renew s).1 (L.sismember-renew s))
      | inr k ↦ rw (renew_now, e, k) (h (R.renew s).1 (L.sismember-renew s))
    ]
  ]

  pub renew_at-Outcome :
      (P : R.State → Type 0) (n : ℕ) (s : R.State)
      → ((t : R.State) → ((j x : Text) → R.sismember t j x ≡ R.sismember s j x) → P t)
      → Outcome (λ e t. P t) (λ u t. P t) (renew_at R n s)
  renew_at-Outcome P n s h = elim (Bool-cases (n % lock_renewal_scan_pages == 0)) [
    | inl e ↦ rw e (renew_now-Outcome P s h)
    | inr e ↦ rw e (h s (λ j x. refl))
  ]

  -- The forward sets are the same, whatever the members.
  abbrev pub SameForward : R.State → R.State → Type 0
  SameForward s t = (y : Text) → in_forward t y ≡ in_forward s y

  fanout_pages-Outcome :
      (add : Bool) (pages : List (List Text)) (n scanned : ℕ) (s0 s : R.State) (before : List Text)
      → Fanned add before s0 s
      → Outcome
          (λ e t. SameForward s0 t)
          (λ k t. Fanned add (before ++ flatten pages) s0 t)
          (fanout_pages R key_prefix skh config token add pages n scanned s)
  unfolding fanout_pages flatten
  fanout_pages-Outcome add [] n scanned s0 s before f = rw (append_nil before) f
  fanout_pages-Outcome add (ms ∷ rest) n scanned s0 s before f =
      let t = fanout_members R key_prefix skh config token add ms s in
      let g = Fanned-then add before ms s0 s t f (fanout_members-Fanned add ms s) in
      then_with-Outcome (λ e u. SameForward s0 u) (λ k u. Fanned add (before ++ ms) s0 u)
        (λ k u. Fanned add (before ++ (ms ++ flatten rest)) s0 u) (renew_at R (n + 1) t)
        (λ _. fanout_pages R key_prefix skh config token add rest (n + 1) (scanned + length ms))
        (Outcome-weaken (λ e u. Fanned add (before ++ ms) s0 u) (λ e u. SameForward s0 u)
          (λ k u. Fanned add (before ++ ms) s0 u) (λ k u. Fanned add (before ++ ms) s0 u)
          (renew_at R (n + 1) t) (λ e u p. p.forward) (λ k u p. p)
          (renew_at-Outcome (Fanned add (before ++ ms) s0) (n + 1) t (Fanned-same add _ s0 t g)))
        (λ k u p.
          rw (← append_assoc before ms (flatten rest))
            (fanout_pages-Outcome add rest (n + 1) (scanned + length ms) s0 u (before ++ ms) p))

  pub verify_before-Outcome :
      (P : R.State → Type 0) (key : Text) (n : ℕ) (s : R.State)
      → P s
      → Outcome (λ e t. P t) (λ u t. P t) (verify_scan_key_before R key n s)
  unfolding verify_scan_key_before
  verify_before-Outcome P key n s h = elim (Bool-cases (ltb 0 n && not (R.exists s key))) [
    | inl e ↦ rw (verify_scan_key_before, e) h
    | inr e ↦ rw (verify_scan_key_before, e) h
  ]

  pub verify_complete-Outcome :
      (P Q : R.State → Type 0) (key : Text) (n k : ℕ) (s : R.State)
      → P s
      → Q s
      → Outcome (λ e t. P t) (λ u t. Q t) (verify_scan_complete R key n k s)
  unfolding verify_scan_complete
  verify_complete-Outcome P Q key n k s h q =
      elim (Bool-cases (ltb k n || (ltb 0 n && not (R.exists s key)))) [
        | inl e ↦ rw (verify_scan_complete, e) h
        | inr e ↦ rw (verify_scan_complete, e) q
      ]

  -- A fan-out over a forward set, however it ends, leaves that set alone; without an error it gives
  -- the token to every member of it, or takes it from every member, and to or from no other.
  pub fanout_scan-Outcome :
      (add : Bool) (card : ℕ) (s : R.State)
      → Outcome
          (λ e t. SameForward s t)
          (λ u t.
            SameForward s t
            × ((x : Text) → indexed t x ≡ (if in_forward s x then add else indexed s x)))
          (fanout_scan R key_prefix skh config token (fwd_key key_prefix skh list ver) add card s)
  unfolding fanout_scan
  fanout_scan-Outcome add card s =
      let key = fwd_key key_prefix skh list ver in
      let pages = R.sscan s key in
      let Full : R.State → Type 0 = Fanned add (flatten pages) s in
      let Goal : R.State → Type 0 = λ t.
        SameForward s t
        × ((x : Text) → indexed t x ≡ (if in_forward s x then add else indexed s x)) in
      let whole : (t : R.State) → Full t → Goal t = λ t f. (
        f.forward,
        λ x. f.members x ∙ ap (λ b. if b then add else indexed s x) (L.sscan_members s key x),
      ) in
      then_with-Outcome (λ e t. SameForward s t) (λ u t. t ≡ s) (λ u t. Goal t)
        (verify_scan_key_before R key card s)
        (λ u t.
          then_with (fanout_pages R key_prefix skh config token add pages 0 0 t)
            (λ scanned. verify_scan_complete R key card scanned))
        (Outcome-weaken (λ e t. t ≡ s) (λ e t. SameForward s t) (λ u t. t ≡ s) (λ u t. t ≡ s)
          (verify_scan_key_before R key card s) (λ e t p. rw p (λ y. refl)) (λ u t p. p)
          (verify_before-Outcome (λ t. t ≡ s) key card s refl))
        (λ u t p. rw p (
          then_with-Outcome (λ e t. SameForward s t) (λ n t. Full t) (λ u t. Goal t)
            (fanout_pages R key_prefix skh config token add pages 0 0 s)
            (λ scanned. verify_scan_complete R key card scanned)
            (fanout_pages-Outcome add pages 0 0 s s []
              (record { members = λ x. refl; forward = λ y. refl }))
            (λ n v f.
              verify_complete-Outcome (SameForward s) Goal key card n v f.forward (whole v f))))
