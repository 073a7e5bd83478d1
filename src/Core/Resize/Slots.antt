-- ===== src/Core/Resize/Slots.antt =====
-- The slots of an array part that changes its size.
use luascript.Prelude.{
  ℕ, zero, suc, ◌-◌, ◌≤◌, ◌<◌, ◌≡◌, refl, inl, inr, List, [], ◌∷◌, ◌++◌, length, arith,
  if◌then◌else◌, Bool-cases, get_or, ltb, take, replicate, length-append, length-take,
  length-replicate, get_or-replicate,
}
use luascript.Core.Value.{Value, nil}

module _ {Num : Type 0} where
  -- the array part of a new size
  abbrev pub new_array : List (Value Num) → ℕ → List (Value Num)
  new_array array size =
      if ltb (length array) size
      then take size array ++ replicate (size - length array) nil
      else if ltb size (length array)
      then take size array
      else array

  grown_slot :
      (n r j : ℕ) (xs : List (Value Num))
      → j < n
      → get_or (take n xs ++ replicate r nil) j nil ≡ get_or xs j nil
  grown_slot zero r j xs h = absurd (omega arith)
  grown_slot (suc n) r j [] h = get_or-replicate r j nil
  grown_slot (suc n) r zero (x ∷ xs) h = refl
  grown_slot (suc n) r (suc j) (x ∷ xs) h = grown_slot n r j xs (omega arith)

  taken_slot :
      (n j : ℕ) (xs : List (Value Num)) → j < n → get_or (take n xs) j nil ≡ get_or xs j nil
  taken_slot zero j xs h = absurd (omega arith)
  taken_slot (suc n) j [] h = refl
  taken_slot (suc n) zero (x ∷ xs) h = refl
  taken_slot (suc n) (suc j) (x ∷ xs) h = taken_slot n j xs (omega arith)

  pub past_end : (xs : List (Value Num)) (j : ℕ) → length xs ≤ j → get_or xs j nil ≡ nil
  past_end [] j h = refl
  past_end (x ∷ xs) zero h = absurd (omega arith)
  past_end (x ∷ xs) (suc j) h = past_end xs j (omega arith)

  pub new_array_slot :
      (array : List (Value Num)) (size j : ℕ)
      → j < size
      → get_or (new_array array size) j nil ≡ get_or array j nil
  new_array_slot array size j h = elim (Bool-cases (ltb (length array) size)) [
    | inl grows ↦ rw grows (grown_slot size (size - length array) j array h)
    | inr stays ↦ elim (Bool-cases (ltb size (length array))) [
      | inl shrinks ↦ rw stays (rw shrinks (taken_slot size j array h))
      | inr same ↦ rw stays (rw same refl)
    ]
  ]

  pub length-new_array :
      (array : List (Value Num)) (size : ℕ) → length (new_array array size) ≡ size
  length-new_array array size = elim (Bool-cases (ltb (length array) size)) [
    | inl grows ↦
        let empty : Value Num = nil in
        rw grows (
          ground (
            arith,
            length-append (take size array) (replicate (size - length array) nil),
            length-take size array,
            length-replicate (size - length array) empty,
          ))
    | inr stays ↦ elim (Bool-cases (ltb size (length array))) [
      | inl shrinks ↦ rw stays (rw shrinks (ground (arith, length-take size array)))
      | inr same ↦ rw stays (rw same (ground arith))
    ]
  ]
