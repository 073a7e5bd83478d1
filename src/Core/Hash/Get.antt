-- ===== src/Core/Hash/Get.antt =====
-- The searches `luaH_getnum`, `luaH_getstr` and `luaH_get`: where the key of a table's entry is.
use luascript.Prelude.{
  ℕ, suc, ◌-◌, ◌<◌, ◌≡◌, refl, ap, ◌∙◌, sym, subst, inl, inr, Bool, true, ◌&&◌, Option, none, some,
  List, length, arith, get_or, if◌then◌else◌, Bool-cases, Option-cases,
}
use luascript.Prelude.Bytes.{Bytes}
use luascript.Prelude.Int.{ℤ, pos, negsuc}
use luascript.Core.Value.{Number, Value, nil, number, str, boolean, light, object}
use luascript.Core.Hash.{
  raw_equal, Hashing, Node, Table, Slot, in_array, value_at, walk, mainposition, hashnum, found,
  in_range, array_slot, hashpow2, is_number, is_string, luah_getnum, luah_getstr, get_generic,
  luah_get,
}
use luascript.Core.Strings.{hash_of}
use luascript.Core.Hash.Equal.{
  Equal, equal_numbers, same, raw_equal-Equal, raw_equal_sym, raw_equal_trans, mainposition_equal,
  is_number-raw_equal, is_string-raw_equal,
}
use luascript.Core.Hash.Links.{same_next}
use luascript.Core.Hash.WellFormed.{IsKey, lookup, held}

walk_same :
    {Num : Type 0} (k : ℕ) (hit hit' : Node Num → Bool) (nodes : List (Node Num)) (p : ℕ)
    → ((x : Node Num) → hit x ≡ hit' x)
    → walk k hit nodes p ≡ walk k hit' nodes p
walk_same k hit hit' nodes p h = ap (λ f. walk k f nodes p) (λ i x. h x i)

abbrev pub index : ℤ → ℕ
index (pos i) = i - 1
index (negsuc i) = 0

array_slot-index :
    {N : Number} (hashing : Hashing N) (k : ℤ) → array_slot hashing k ≡ in_array (index k)
array_slot-index hashing (pos i) = refl
array_slot-index hashing (negsuc i) = refl

module _ {N : Number} (hashing : Hashing N) where
  open hashing use {num_eq_sym, num_eq_trans, to_int_eq}

  -- `0 ≤ key - 1 < sizearray` for a number that is an `int`: the index in the array part
  abbrev pub array_index : Table N.Num → Value N.Num → Option ℕ
  array_index t (number n) =
      if N.num_eq (N.of_int (N.to_int n)) n && in_range hashing (N.to_int n) (length t.array)
      then some (index (N.to_int n))
      else none
  array_index t _ = none

  raw_equal_congr :
      (x a b : Value N.Num) → raw_equal N a b ≡ true → raw_equal N x a ≡ raw_equal N x b
  raw_equal_congr x a b equal = elim (Bool-cases (raw_equal N x a)) [
    | inl yes_hit ↦ yes_hit ∙ sym (raw_equal_trans hashing x a b yes_hit equal)
    | inr no_hit ↦ elim (Bool-cases (raw_equal N x b)) [
      | inr no_hit' ↦ no_hit ∙ sym no_hit'
      | inl yes_hit ↦
          let back = raw_equal_trans hashing x b a yes_hit (raw_equal_sym hashing a b equal) in
          absurd (cc)
    ]
  ]

  -- a search by tests that agree with raw equality, from the same main position
  lookup-walk :
      (nodes : List (Node N.Num)) (key : Value N.Num) (hit : Value N.Num → Bool) (m : ℕ)
      → ((x : Value N.Num) → hit x ≡ raw_equal N x key)
      → m ≡ mainposition hashing (length nodes) key
      → walk (length nodes) (λ x. hit x.i_key) nodes m ≡ lookup hashing nodes key
  lookup-walk nodes key hit m agree start =
      ap (walk (length nodes) (λ x. hit x.i_key) nodes) start
      ∙ walk_same (length nodes) (λ x. hit x.i_key) (λ x. raw_equal N x.i_key key) nodes
          (mainposition hashing (length nodes) key) (λ x. agree x.i_key)

  abbrev pub place : Option ℕ → Option ℕ → Option Slot
  place (some i) o = some (in_array i)
  place none o = found hashing o

  getstr_lookup :
      (t : Table N.Num) (s : Bytes)
      → luah_getstr hashing t s ≡ found hashing (lookup hashing t.node (str s))
  unfolding luah_getstr mainposition
  getstr_lookup t s = ap (found hashing) (
      lookup-walk t.node (str s) (is_string hashing s)
        (hashpow2 hashing (length t.node) (hash_of s)) (is_string-raw_equal hashing s) refl)

  -- `luaH_getnum` for a number equal to its `int`
  getnum_lookup :
      (t : Table N.Num) (k : ℤ) (n : N.Num)
      → N.num_eq (N.of_int k) n ≡ true
      → luah_getnum hashing t k ≡ (
          if in_range hashing k (length t.array)
          then some (in_array (index k))
          else found hashing (lookup hashing t.node (number n)))
  unfolding luah_getnum mainposition
  getnum_lookup t k n exact =
      let nk = N.of_int k in
      let later =
        lookup-walk t.node (number n) (is_number hashing nk) (hashnum hashing (length t.node) nk)
          (λ x. is_number-raw_equal hashing nk x ∙ raw_equal_congr x (number nk) (number n) exact)
          (mainposition_equal hashing (length t.node) (number nk) (number n) exact) in
      elim (Bool-cases (in_range hashing k (length t.array))) [
        | inl inside ↦ rw inside (ap some (array_slot-index hashing k))
        | inr outside ↦ rw outside (ap (found hashing) later)
      ]

  -- the special searches and the general one agree: a slot of the array part or the node with the key
  pub luah_get-place :
      (t : Table N.Num) (key : Value N.Num)
      → IsKey hashing key
      → luah_get hashing t key ≡ place (array_index t key) (lookup hashing t.node key)
  unfolding luah_get get_generic
  luah_get-place t nil h = let some_key = h.0 in absurd (cc)
  luah_get-place t (str s) h = getstr_lookup t s
  luah_get-place t (boolean b) h = refl
  luah_get-place t (light p) h = refl
  luah_get-place t (object k a) h = refl
  luah_get-place t (number n) h =
      let k = N.to_int n in
      elim (Bool-cases (N.num_eq (N.of_int k) n)) [
        | inr general ↦ rw general refl
        | inl exact ↦
            let special = getnum_lookup t k n exact in
            elim (Bool-cases (in_range hashing k (length t.array))) [
              | inl inside ↦ rw (exact, special, inside) refl
              | inr outside ↦ rw (exact, special, outside) refl
            ]
      ]

  -- equal keys have one slot of the array part, and no others share it
  pub array_index_equal :
      (t : Table N.Num) (a b : Value N.Num)
      → raw_equal N a b ≡ true
      → array_index t a ≡ array_index t b
  array_index_equal t a b h = go (raw_equal-Equal N a b h)
    where
      go : {a b : Value N.Num} → Equal N a b → array_index t a ≡ array_index t b
      go (equal_numbers {n = n} {m = m} e) =
          ap
            (λ exact.
              if exact && in_range hashing (N.to_int n) (length t.array)
              then some (index (N.to_int n))
              else none)
            (raw_equal_congr (number (N.of_int (N.to_int n))) (number n) (number m) e)
          ∙ ap
              (λ k.
                if N.num_eq (N.of_int k) m && in_range hashing k (length t.array)
                then some (index k)
                else none)
              (to_int_eq n m e)
      go (same e r) = ap (array_index t) e

  in_range_pos :
      (k : ℤ) (size : ℕ)
      → in_range hashing k size ≡ true
      → (k ≡ pos (suc (index k))) × (index k < size)
  in_range_pos (pos (suc i)) size h = (ap pos (omega arith), ground arith)
  in_range_pos k size h = cc

  -- the slot `i` is for the number `i + 1`
  pub array_index-number :
      (t : Table N.Num) (a : Value N.Num) (i : ℕ)
      → array_index t a ≡ some i
      → (raw_equal N (number (N.of_int (pos (suc i)))) a ≡ true) × (i < length t.array)
  array_index-number t (number n) i e = go (N.to_int n) e
    where
      go :
          (k : ℤ)
          → (if N.num_eq (N.of_int k) n && in_range hashing k (length t.array)
              then some (index k)
              else none)
            ≡ some i
          → (N.num_eq (N.of_int (pos (suc i))) n ≡ true) × (i < length t.array)
      go k e = elim (Bool-cases (N.num_eq (N.of_int k) n && in_range hashing k (length t.array))) [
        | inr outside ↦ let gone = rw outside at e in absurd (cc)
        | inl inside ↦
            let index_k : index k ≡ i = same_next (some (index k)) refl (rw inside at e) in
            let exact : N.num_eq (N.of_int k) n ≡ true = ground arith in
            let (from, below) = in_range_pos k (length t.array) (ground arith) in
            (
              subst (λ j. N.num_eq (N.of_int j) n ≡ true) (from ∙ ap (λ j. pos (suc j)) index_k)
                  exact,
              subst (λ j. j < length t.array) index_k below,
            )
      ]
  array_index-number t a i e = cc

  pub array_index_apart :
      (t : Table N.Num) (a b : Value N.Num) (i : ℕ)
      → array_index t a ≡ some i
      → array_index t b ≡ some i
      → raw_equal N a b ≡ true
  array_index_apart t a b i e e' =
      let k = number (N.of_int (pos (suc i))) in
      raw_equal_trans hashing a k b (raw_equal_sym hashing k a (array_index-number t a i e).0)
        (array_index-number t b i e').0

  pub array_index-lt :
      (t : Table N.Num) (a : Value N.Num) (i : ℕ) → array_index t a ≡ some i → i < length t.array
  array_index-lt t a i e = (array_index-number t a i e).1

  -- what a read of a key gives
  unfoldable pub read : Table N.Num → Value N.Num → Value N.Num
  unfolding luah_get value_at
  read t k = elim (luah_get hashing t k) [ none ↦ nil | some slot ↦ value_at t slot ]

  abbrev pub reading : List (Value N.Num) → Option ℕ → Value N.Num → Value N.Num
  reading array (some i) v = get_or array i nil
  reading array none v = v

  pub read-reading :
      (t : Table N.Num) (k : Value N.Num)
      → IsKey hashing k
      → read t k ≡ reading t.array (array_index t k) (held hashing t.node k)
  unfolding read value_at held
  read-reading t k h = elim (Option-cases (array_index t k)) [
    | inr (i, inside) ↦ rw (read, luah_get-place t k h, inside) refl
    | inl outside ↦ elim (Option-cases (lookup hashing t.node k)) [
      | inl nowhere ↦ rw (read, luah_get-place t k h, outside, nowhere, held) refl
      | inr (q, there) ↦ rw (read, luah_get-place t k h, outside, there, held) refl
    ]
  ]
