-- ===== src/Script/Exception/Search.antt =====
-- Where `find` and `rfind` stop in a text that is put together, for needles of two bytes.
use native.Mathlib.Numerals.{towards_suc}
use luascript.Prelude.{ℕ, suc, ◌+◌, ◌≡◌, ◌≢◌, refl, none, some, [], ◌∷◌, ◌++◌, arith, length, drop}
use luascript.Prelude.Bytes.{Bytes, find, rfind}

module _ (x y : ℕ) where
  -- the first occurrence: `before` has none, and none straddles its end, which is not x
  pub find-append :
      (before rest : Bytes) (z : ℕ)
      → z ≢ x
      → find (x ∷ y ∷ []) (before ++ z ∷ []) ≡ none
      → find (x ∷ y ∷ []) (before ++ (z ∷ x ∷ y ∷ rest)) ≡ some (suc (length before))
  unfolding find
  find-append [] rest z ne h = ground arith
  find-append (b ∷ []) rest z ne h = ground arith
  find-append (b ∷ c ∷ before) rest z ne h = ground (arith, find-append (c ∷ before) rest z ne)

  -- one byte more, which is not y, makes no occurrence
  pub find_snoc :
      (s : Bytes) (z : ℕ)
      → z ≢ y
      → find (x ∷ y ∷ []) s ≡ none
      → find (x ∷ y ∷ []) (s ++ z ∷ []) ≡ none
  unfolding find
  find_snoc [] z ne h = ground arith
  find_snoc (b ∷ []) z ne h = ground arith
  find_snoc (b ∷ c ∷ s) z ne h = ground (arith, find_snoc (c ∷ s) z ne)

  -- the last occurrence, before a text that has none
  pub rfind-append :
      (before rest : Bytes)
      → x ≢ y
      → rfind (x ∷ y ∷ []) rest ≡ none
      → rfind (x ∷ y ∷ []) (before ++ (x ∷ y ∷ rest)) ≡ some (length before)
  unfolding rfind
  rfind-append [] rest ne h = ground arith
  rfind-append (b ∷ before) rest ne h = ground (arith, rfind-append before rest ne h)

pub drop_two :
    (before rest : Bytes) (x y : ℕ) → drop (length before + 2) (before ++ (x ∷ y ∷ rest)) ≡ rest
drop_two before rest x y = simp towards_suc (go before)
  where
    go : (b : Bytes) → drop (suc (suc (length b))) (b ++ (x ∷ y ∷ rest)) ≡ rest
    go [] = refl
    go (c ∷ b) = go b

pub drop_three :
    (before rest : Bytes) (x y z : ℕ)
    → drop (suc (length before) + 2) (before ++ (z ∷ x ∷ y ∷ rest)) ≡ rest
drop_three before rest x y z = simp towards_suc (go before)
  where
    go : (b : Bytes) → drop (suc (suc (suc (length b)))) (b ++ (z ∷ x ∷ y ∷ rest)) ≡ rest
    go [] = refl
    go (c ∷ b) = go b
