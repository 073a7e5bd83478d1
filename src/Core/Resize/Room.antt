-- ===== src/Core/Resize/Room.antt =====
-- How many nodes are taken, and that a table with room for a new key is not full.
use luascript.Prelude.{
  ℕ, zero, suc, ◌+◌, ◌≤◌, ◌<◌, ◌≡◌, ◌≢◌, refl, ap, ◌⊎◌, inl, inr, Bool, true, false, List, [], ◌∷◌,
  length, arith, if◌then◌else◌, Bool-cases, replicate,
}
use luascript.Core.Value.{Number}
use luascript.Core.Hash.{Hashing, Node, Table, is_nil, blank}
use luascript.Core.Hash.WellFormed.{key_at}
use luascript.Core.Hash.Insert.{IsFull}

abbrev taken_if : Bool → ℕ
taken_if b = if b then 0 else 1

module _ {Num : Type 0} where
  abbrev taken : Node Num → ℕ
  taken x = taken_if (is_nil x.i_key)

  pub uses : List (Node Num) → ℕ
  uses [] = 0
  uses (x ∷ xs) = taken x + uses xs

  pub uses-all :
      (xs : List (Node Num))
      → ((q : ℕ) → q < length xs → is_nil (key_at xs q) ≡ false)
      → uses xs ≡ length xs
  unfolding uses
  uses-all [] h = refl
  uses-all (x ∷ xs) h =
      let first = h zero (omega arith) in
      omega (
        arith,
        ap (λ (b : Bool). taken_if b) first,
        uses-all xs (λ q below. h (suc q) (omega arith)),
      )

  taken_le : (x y : Node Num) → (is_nil x.i_key ≡ true → is_nil y.i_key ≡ true) → taken y ≤ taken x
  taken_le x y h = elim (Bool-cases (is_nil x.i_key)) [
    | inl e ↦ let e' = h e in rw e' (omega arith)
    | inr e ↦ rw e (elim (Bool-cases (is_nil y.i_key)) [
      | inl e' ↦ rw e' (omega arith)
      | inr e' ↦ rw e' (omega arith)
    ])
  ]

  taken_bound : (x : Node Num) → taken x ≤ 1
  taken_bound x = elim (Bool-cases (is_nil x.i_key)) [
    | inl e ↦ rw e (omega arith)
    | inr e ↦ rw e (omega arith)
  ]

  pub uses_le :
      (xs ys : List (Node Num))
      → length ys ≡ length xs
      → ((q : ℕ) → is_nil (key_at xs q) ≡ true → is_nil (key_at ys q) ≡ true)
      → uses ys ≤ uses xs
  unfolding uses
  uses_le [] [] e h = omega arith
  uses_le (x ∷ xs) [] e h = absurd (omega arith)
  uses_le [] (y ∷ ys) e h = absurd (omega arith)
  uses_le (x ∷ xs) (y ∷ ys) e h =
      omega (arith, taken_le x y (h zero), uses_le xs ys (omega arith) (λ q. h (suc q)))

  pub uses_one_more :
      (xs ys : List (Node Num)) (f : ℕ)
      → length ys ≡ length xs
      → ((q : ℕ) → q ≢ f → is_nil (key_at xs q) ≡ true → is_nil (key_at ys q) ≡ true)
      → uses ys ≤ uses xs + 1
  unfolding uses
  uses_one_more [] [] f e h = omega arith
  uses_one_more (x ∷ xs) [] f e h = absurd (omega arith)
  uses_one_more [] (y ∷ ys) f e h = absurd (omega arith)
  uses_one_more (x ∷ xs) (y ∷ ys) zero e h = omega (
    arith,
    taken_bound y,
    uses_le xs ys (omega arith) (λ q. h (suc q) (λ e. absurd (omega arith))),
  )
  uses_one_more (x ∷ xs) (y ∷ ys) (suc f) e h = omega (
    arith,
    taken_le x y (h zero (λ e. absurd (omega arith))),
    uses_one_more xs ys f (omega arith) (λ q ne. h (suc q) (λ e. ne (omega arith))),
  )

pub uses-blank : (Num : Type 0) (n : ℕ) → uses (replicate n (blank {Num = Num})) ≡ 0
unfolding uses
uses-blank Num zero = refl
uses-blank Num (suc n) = omega (arith, uses-blank Num n)

module _ {N : Number} (hashing : Hashing N) where
  -- there is room for `m` more keys in the hash part
  unfoldable pub HasRoom : ℕ → Table N.Num → Type 0
  HasRoom m t = (m ≡ 0) ⊎ ((t.dummy ≡ false) × (uses t.node + m ≤ length t.node))

  pub HasRoom-not_full : (t : Table N.Num) (m : ℕ) → 0 < m → HasRoom m t → IsFull hashing t → ⊥
  unfolding HasRoom
  HasRoom-not_full t m h (inl e) full = omega arith
  HasRoom-not_full t m h (inr (real, room)) (inl dummy) = cc
  HasRoom-not_full t m h (inr (real, room)) (inr all) =
      omega (arith, h, room, uses-all t.node (λ q below. (all q below).0))
