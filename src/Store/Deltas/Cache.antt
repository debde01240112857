-- ===== src/Store/Deltas/Cache.antt =====
-- The deltas of one SDK key: `DeltaCacheEntry`, and how `persist_delta` files a new one.
use mathlib.Core.Logic.{inl, inr}
use statsig_forward_proxy.Prelude.{
  ℕ, zero, suc, ◌+◌, ◌≡◌, ◌≤◌, ◌<◌, ◌-◌, refl, true, List, [], ◌∷◌, arith, ltb, if◌then◌else◌,
  length, drop, length-drop, All, All-map, Bool-cases,
}
use statsig_forward_proxy.Store.Deltas.Codec.{Codec}

pub record DeltaCacheEntry (c : Codec) : Type 0 where
  pub since_time_requested : ℕ
  pub lcut : ℕ
  pub top_level : c.SpecsTopLevel
  pub envelopes : List c.SpecsEnvelope

module _ (c : Codec) where
  abbrev pub Entry : Type 0
  Entry = DeltaCacheEntry c

  -- `position(|entry| entry.lcut > lcut)` and `insert`.
  unfoldable pub insert_delta : Entry → List Entry → List Entry
  insert_delta entry [] = entry ∷ []
  insert_delta entry (x ∷ xs) =
      if ltb entry.lcut x.lcut then entry ∷ x ∷ xs else x ∷ insert_delta entry xs

  -- `while records.len() > max { records.pop_front() }`.
  unfoldable pub pop_excess : ℕ → List Entry → List Entry
  pop_excess limit [] = []
  pop_excess limit (x ∷ xs) = if ltb limit (length (x ∷ xs)) then pop_excess limit xs else x ∷ xs

  unfoldable pub file_delta : ℕ → Entry → List Entry → List Entry
  unfolding insert_delta pop_excess
  file_delta limit entry records = pop_excess limit (insert_delta entry records)

  -- Oldest lcut first.
  abbrev pub ByLcut : List Entry → Type 0
  ByLcut [] = Unit
  ByLcut (x ∷ xs) = All (λ y. x.lcut ≤ y.lcut) xs × ByLcut xs

  pub record IsCache (limit : ℕ) (records : List Entry) : Type 0 where
    pub by_lcut : ByLcut records
    pub bounded : length records ≤ limit

  length-insert_delta : (e : Entry) (xs : List Entry) → length (insert_delta e xs) ≡ length xs + 1
  unfolding insert_delta
  length-insert_delta e [] = refl
  length-insert_delta e (x ∷ xs) = ground (arith, length-insert_delta e xs)

  All-insert_delta :
      (P : Entry → Type 0) (e : Entry) (xs : List Entry)
      → P e
      → All P xs
      → All P (insert_delta e xs)
  unfolding insert_delta
  All-insert_delta P e [] p h = (p, tt)
  All-insert_delta P e (x ∷ xs) p h = elim (Bool-cases (ltb e.lcut x.lcut)) [
    | inl b ↦ rw b (p, h)
    | inr b ↦ rw b (h.0, All-insert_delta P e xs p h.1)
  ]

  insert_delta-ByLcut : (e : Entry) (xs : List Entry) → ByLcut xs → ByLcut (insert_delta e xs)
  unfolding insert_delta
  insert_delta-ByLcut e [] h = (tt, tt)
  insert_delta-ByLcut e (x ∷ xs) h = elim (Bool-cases (ltb e.lcut x.lcut)) [
    | inl b ↦ rw b ((ground arith, All-map _ _ xs (λ y p. le_lt_trans b p) h.0), h)
    | inr b ↦ rw b (
      All-insert_delta (λ y. x.lcut ≤ y.lcut) e xs (ground arith) h.0,
      insert_delta-ByLcut e xs h.1,
    )
  ]
    where
      le_lt_trans : ltb e.lcut x.lcut ≡ true → {n : ℕ} → x.lcut ≤ n → e.lcut ≤ n
      le_lt_trans b p = ground arith

  -- The loop drops from the front just what is too much.
  pub pop_excess-drop :
      (limit : ℕ) (xs : List Entry) → pop_excess limit xs ≡ drop (length xs - limit) xs
  unfolding pop_excess
  pop_excess-drop limit [] = rw zero_minus
    where
      zero_minus : 0 - limit ≡ 0
      zero_minus = omega arith
  pop_excess-drop limit (x ∷ xs) = elim (Bool-cases (ltb limit (length (x ∷ xs)))) [
    | inl more ↦
        let e : length (x ∷ xs) - limit ≡ suc (length xs - limit) = ground arith in
        rw (more, e) (pop_excess-drop limit xs)
    | inr fits ↦ let e : length (x ∷ xs) - limit ≡ 0 = ground arith in rw (fits, e)
  ]

  drop-ByLcut : (n : ℕ) (xs : List Entry) → ByLcut xs → ByLcut (drop n xs)
  drop-ByLcut zero xs h = h
  drop-ByLcut (suc n) [] h = h
  drop-ByLcut (suc n) (x ∷ xs) h = drop-ByLcut n xs h.1

  -- Filing a delta keeps the deltas of a key in the order of their lcut and within the limit, and
  -- never leaves none: it drops the oldest of the old ones and the new one together, as many as are
  -- too much.
  pub file_delta-IsCache :
      (limit : ℕ) (e : Entry) (xs : List Entry)
      → 0 < limit
      → IsCache limit xs
      → IsCache limit (file_delta limit e xs)
        × (file_delta limit e xs ≡ drop (length xs + 1 - limit) (insert_delta e xs))
        × (0 < length (file_delta limit e xs))
  unfolding file_delta
  file_delta-IsCache limit e xs pos h =
      let n = length (insert_delta e xs) - limit in
      let e1 = pop_excess-drop limit (insert_delta e xs) in
      let e2 = length-insert_delta e xs in
      let e3 = length-drop n (insert_delta e xs) in
      rw e1 (
        record {
          by_lcut = drop-ByLcut n (insert_delta e xs) (insert_delta-ByLcut e xs h.by_lcut);
          bounded = omega (arith, h.bounded, e2, e3);
        },
        rw e2,
        omega (arith, h.bounded, e2, e3),
      )
