-- ===== src/Core/Hash/Equal.antt =====
-- Raw equality of values and what the main position has to do with it.
use Prim.Native.Nat.{bit_or}
use native.Mathlib.Nat.{mod-lt}
use luascript.Prelude.{
  ℕ, zero, suc, ◌+◌, ◌-◌, ◌*◌, ◌/◌, ◌%◌, ◌^◌, ◌≤◌, ◌<◌, ◌≡◌, refl, ap, ◌∙◌, sym, subst, Bool, true,
  false, ◌==◌, ◌&&◌, arith, if◌then◌else◌, Bool-cases, inl, inr,
}
use luascript.Prelude.Bits.{bit_or_halves, zero-bit_or}
use luascript.Prelude.Bytes.{Bytes, bytes_eq_refl, bytes_eq_sound}
use luascript.Prelude.Int.{pos}
use luascript.Core.Value.{
  Number, Value, nil, boolean, light, number, str, object, Kind, table, function, userdata, thread,
}
use luascript.Core.Strings.{hash_of}
use luascript.Core.Strings.Chains.{lmod-lt}
use luascript.Core.Hash.{
  raw_equal, same_kind, same_bool, Hashing, sum_words, hashnum, mainposition, is_number, is_string,
  is_nan,
}

-- numbers are equal by `==`, all else when it is the same
pub data Equal (N : Number) : Value N.Num → Value N.Num → Type 0 where
  equal_numbers : {n m : N.Num} → N.num_eq n m ≡ true → Equal N (number n) (number m)
  same : {a b : Value N.Num} → a ≡ b → raw_equal N a a ≡ true → Equal N a b

same_kind_refl : (k : Kind) → same_kind k k ≡ true
same_kind_refl table = refl
same_kind_refl function = refl
same_kind_refl userdata = refl
same_kind_refl thread = refl

same_kind_sound : (j k : Kind) → same_kind j k ≡ true → j ≡ k
same_kind_sound j k h = ground arith

same_object : (j k : Kind) (a b : ℕ) → (same_kind j k && a == b) ≡ true → (j ≡ k) × (a ≡ b)
same_object j k a b h = (same_kind_sound j k (ground arith), ground arith)

same_bool_refl : (b : Bool) → same_bool b b ≡ true
same_bool_refl true = refl
same_bool_refl false = refl

same_bool_sound : (b c : Bool) → same_bool b c ≡ true → b ≡ c
same_bool_sound true true h = refl
same_bool_sound false false h = refl
same_bool_sound b c h = cc

pub raw_equal-Equal : (N : Number) (a b : Value N.Num) → raw_equal N a b ≡ true → Equal N a b
raw_equal-Equal N nil nil h = same refl refl
raw_equal-Equal N (number n) (number m) h = equal_numbers h
raw_equal-Equal N (boolean b) (boolean c) h =
    same (ap boolean (same_bool_sound b c h)) (same_bool_refl b)
raw_equal-Equal N (light p) (light q) h = same (ground arith) (ground arith)
raw_equal-Equal N (str s) (str t) h = same (ap str (bytes_eq_sound s t h)) (bytes_eq_refl s)
raw_equal-Equal N (object j a) (object k b) h =
    let (kinds, addresses) = same_object j k a b h in
    same (ap (λ k. object k a) kinds ∙ ap (λ a. object k a) addresses)
      (rw (same_kind_refl j) (ground arith))
raw_equal-Equal N a b h = cc

module _ {N : Number} (hashing : Hashing N) where
  open hashing use {num_eq_sym, num_eq_trans, words_eq}

  pub raw_equal_sym : (a b : Value N.Num) → raw_equal N a b ≡ true → raw_equal N b a ≡ true
  raw_equal_sym a b h = go (raw_equal-Equal N a b h)
    where
      go : {a b : Value N.Num} → Equal N a b → raw_equal N b a ≡ true
      go (equal_numbers {n = n} {m = m} e) = num_eq_sym n m e
      go (same {a = a} e r) = subst (λ b. raw_equal N b a ≡ true) e r

  pub raw_equal_trans :
      (a b c : Value N.Num)
      → raw_equal N a b ≡ true
      → raw_equal N b c ≡ true
      → raw_equal N a c ≡ true
  raw_equal_trans a b c h k = go (raw_equal-Equal N a b h) (raw_equal-Equal N b c k) h k
    where
      go :
          {a b c : Value N.Num}
          → Equal N a b
          → Equal N b c
          → raw_equal N a b ≡ true
          → raw_equal N b c ≡ true
          → raw_equal N a c ≡ true
      go {a = a} d (same e r) h k = subst (λ c. raw_equal N a c ≡ true) e h
      go {c = c} (same e r) d h k = subst (λ a. raw_equal N a c ≡ true) (sym e) k
      go (equal_numbers {n = n} {m = m} e) (equal_numbers {m = l} e') h k = num_eq_trans n m l e e'

  hashnum_equal :
      (size : ℕ) (n m : N.Num)
      → N.num_eq n m ≡ true
      → hashnum hashing size n ≡ hashnum hashing size m
  unfolding hashnum
  hashnum_equal size n m e =
      let zero_num = N.of_int (pos 0) in
      elim (Bool-cases (N.num_eq n zero_num)) [
        | inl is_zero ↦
            let also : N.num_eq m zero_num ≡ true =
              num_eq_trans m n zero_num (num_eq_sym n m e) is_zero in
            rw (is_zero, also) refl
        | inr not_zero ↦ elim (Bool-cases (N.num_eq m zero_num)) [
          | inl is_zero ↦
              let also : N.num_eq n zero_num ≡ true = num_eq_trans n m zero_num e is_zero in
              absurd (cc)
          | inr also ↦ rw (not_zero, also, words_eq n m e not_zero) refl
        ]
      ]

  -- equal keys have one main position
  pub mainposition_equal :
      (size : ℕ) (a b : Value N.Num)
      → raw_equal N a b ≡ true
      → mainposition hashing size a ≡ mainposition hashing size b
  unfolding mainposition
  mainposition_equal size a b h = go (raw_equal-Equal N a b h)
    where
      go :
          {a b : Value N.Num}
          → Equal N a b
          → mainposition hashing size a ≡ mainposition hashing size b
      go (equal_numbers {n = n} {m = m} e) = hashnum_equal size n m e
      go (same e r) = ap (mainposition hashing size) e

  pub is_nan-raw_equal : (k : Value N.Num) → raw_equal N k k ≡ true → is_nan hashing k ≡ false
  is_nan-raw_equal (number n) h = rw h refl
  is_nan-raw_equal k h = refl

  pub is_number-raw_equal :
      (n : N.Num) (k : Value N.Num) → is_number hashing n k ≡ raw_equal N k (number n)
  is_number-raw_equal n nil = refl
  is_number-raw_equal n k = refl

  pub is_string-raw_equal :
      (s : Bytes) (k : Value N.Num) → is_string hashing s k ≡ raw_equal N k (str s)
  is_string-raw_equal s nil = refl
  is_string-raw_equal s k = refl

with_zero : (k x : ℕ) → x ≤ k → bit_or x 0 ≡ x
with_zero zero x h = let e : x ≡ 0 = omega arith in rw e (zero-bit_or 0)
with_zero (suc k) x h = omega (arith, bit_or_halves x 0, with_zero k (x / 2) (omega arith))

odd_mask : (x : ℕ) → bit_or x 1 ≡ x / 2 * 2 + 1
odd_mask x = omega (arith, bit_or_halves x 1, with_zero x (x / 2) (omega arith))

hashmod-lt : (size n : ℕ) → 0 < size → n % bit_or (size - 1) 1 < size
hashmod-lt size n h = rw (odd_mask (size - 1)) (
    let m = (size - 1) / 2 * 2 + 1 in
    let small : n % m < m = mod-lt n (omega arith) in omega (arith, small))

module _ {N : Number} (hashing : Hashing N) where
  pub mainposition-lt : (size : ℕ) (k : Value N.Num) → 0 < size → mainposition hashing size k < size
  unfolding mainposition hashnum
  mainposition-lt size nil h = h
  mainposition-lt size (boolean b) h = lmod-lt (if b then 1 else 0) size h
  mainposition-lt size (light p) h = hashmod-lt size (p % 2 ^ 32) h
  mainposition-lt size (str s) h = lmod-lt (hash_of s) size h
  mainposition-lt size (object k a) h = hashmod-lt size (a % 2 ^ 32) h
  mainposition-lt size (number n) h = elim (Bool-cases (N.num_eq n (N.of_int (pos 0)))) [
    | inl e ↦ rw e h
    | inr e ↦ rw e (hashmod-lt size (sum_words hashing (hashing.words n)) h)
  ]
