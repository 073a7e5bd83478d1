-- ===== src/Core/Hash/Written.antt =====
-- A write through a slot that a table has for a key, in the array part or in a node.
use luascript.Prelude.{
  ℕ, ◌<◌, ◌≡◌, ◌≢◌, refl, ap, ◌∙◌, sym, inl, inr, true, false, ◌&&◌, Option, none, some, length,
  arith, set, length-set, get_or-set_self, get_or-set_ne, if◌then◌else◌, Bool-cases, Option-cases,
}
use luascript.Core.Value.{Number, Value, nil, number}
use luascript.Core.Hash.{raw_equal, Hashing, Table, Slot, in_array, in_node, node_at, put, in_range}
use luascript.Core.Hash.Equal.{raw_equal_sym, raw_equal_trans}
use luascript.Core.Hash.WellFormed.{key_at, IsKey, Used, held}
use luascript.Core.Hash.Insert.{IsTable}
use luascript.Core.Hash.Put.{Used-put, WellFormed-put, held-put_same, held-put_other}
use luascript.Core.Hash.Get.{
  array_index, array_index_equal, array_index_apart, array_index-lt, read, reading, read-reading,
  index,
}

module _ {N : Number} (hashing : Hashing N) where
  -- the slot is where the table keeps the value of the key
  abbrev pub Owns : Table N.Num → Value N.Num → Slot → Type 0
  Owns t key (in_array i) = array_index hashing t key ≡ some i
  Owns t key (in_node p) =
      (array_index hashing t key ≡ none)
      × (p < length t.node)
      × Used hashing t.node p
      × (raw_equal N (key_at t.node p) key ≡ true)

  pub put-IsTable :
      (t : Table N.Num) (key : Value N.Num) (slot : Slot) (v : Value N.Num)
      → IsTable hashing t
      → Owns t key slot
      → IsTable hashing (put slot v t)
  unfolding put
  put-IsTable t key (in_array i) v valid owns = record {
    nodes = valid.nodes;
    lastfree_in = valid.lastfree_in;
    above = valid.above;
    shared = valid.shared;
  }
  put-IsTable t key (in_node p) v valid (outside, p_in, used, equal) =
      let size : length (set t.node p (record (node_at t.node p) { i_val = v })) ≡ length t.node =
        length-set t.node p _ in
      record {
        nodes = WellFormed-put hashing t.node p v valid.nodes p_in used;
        lastfree_in = omega (arith, valid.lastfree_in, size);
        above = λ real q h h'.
            Used-put hashing t.node p v valid.nodes p_in used q
              (valid.above real q h (omega (arith, h', size)));
        shared = valid.shared;
      }

  pub array_index_size :
      (t t' : Table N.Num) (k : Value N.Num)
      → length t'.array ≡ length t.array
      → array_index hashing t' k ≡ array_index hashing t k
  array_index_size t t' (number n) same_size =
      ap
        (λ size.
          if N.num_eq (N.of_int (N.to_int n)) n && in_range hashing (N.to_int n) size
          then some (index (N.to_int n))
          else none)
        same_size
  array_index_size t t' k same_size = refl

  module _ (t : Table N.Num) (key : Value N.Num) (v : Value N.Num) (valid : IsTable hashing t)
      (k : Value N.Num) (is_key : IsKey hashing k) where
    -- a read of `k` once it is known where `k` is kept
    read_at :
        (t : Table N.Num) (o : Option ℕ)
        → array_index hashing t k ≡ o
        → read hashing t k ≡ reading hashing t.array o (held hashing t.node k)
    read_at t o e =
        read-reading hashing t k is_key
        ∙ ap (λ o. reading hashing t.array o (held hashing t.node k)) e

    put_array_same :
        (i : ℕ)
        → Owns t key (in_array i)
        → raw_equal N key k ≡ true
        → read hashing (put (in_array i) v t) k ≡ v
    unfolding put
    put_array_same i owns equal =
        let t' = put (in_array i) v t in
        let kept : array_index hashing t k ≡ some i =
          sym (array_index_equal hashing t key k equal) ∙ owns in
        read_at t' (some i) (array_index_size t t' k (length-set t.array i v) ∙ kept)
        ∙ get_or-set_self t.array i v nil (array_index-lt hashing t k i kept)

    put_array_other :
        (i : ℕ)
        → Owns t key (in_array i)
        → raw_equal N key k ≡ false
        → read hashing (put (in_array i) v t) k ≡ read hashing t k
    unfolding put
    put_array_other i owns differ =
        let t' = put (in_array i) v t in
        let moved = array_index_size t t' k (length-set t.array i v) in
        elim (Option-cases (array_index hashing t k)) [
          | inl outside ↦ read_at t' none (moved ∙ outside) ∙ sym (read_at t none outside)
          | inr (j, inside) ↦
              let ne : i ≢ j = λ e.
                let equal = array_index_apart hashing t key k j (owns ∙ ap some e) inside in cc in
              read_at t' (some j) (moved ∙ inside)
              ∙ get_or-set_ne t.array i j v nil ne
              ∙ sym (read_at t (some j) inside)
        ]

    put_node_same :
        (p : ℕ)
        → Owns t key (in_node p)
        → raw_equal N key k ≡ true
        → read hashing (put (in_node p) v t) k ≡ v
    unfolding put
    put_node_same p (outside, p_in, used, own) equal =
        let t' = put (in_node p) v t in
        let kept : array_index hashing t k ≡ none =
          sym (array_index_equal hashing t key k equal) ∙ outside in
        read_at t' none (array_index_size t t' k refl ∙ kept)
        ∙ held-put_same hashing t.node p v valid.nodes p_in used k is_key
            (raw_equal_trans hashing (key_at t.node p) key k own equal)

    put_node_other :
        (p : ℕ)
        → Owns t key (in_node p)
        → raw_equal N key k ≡ false
        → read hashing (put (in_node p) v t) k ≡ read hashing t k
    unfolding put
    put_node_other p (outside, p_in, used, own) differ =
        let t' = put (in_node p) v t in
        let moved = array_index_size t t' k refl in
        elim (Option-cases (array_index hashing t k)) [
          | inr (j, inside) ↦ read_at t' (some j) (moved ∙ inside) ∙ sym (read_at t (some j) inside)
          | inl away ↦ elim (Bool-cases (raw_equal N (key_at t.node p) k)) [
            | inl equal ↦
                let also =
                  raw_equal_trans hashing key (key_at t.node p) k
                    (raw_equal_sym hashing (key_at t.node p) key own) equal in
                absurd (cc)
            | inr other ↦
                read_at t' none (moved ∙ away)
                ∙ held-put_other hashing t.node p v valid.nodes p_in used k is_key other
                ∙ sym (read_at t none away)
          ]
        ]

    pub put-read :
        (slot : Slot)
        → Owns t key slot
        → read hashing (put slot v t) k ≡ (if raw_equal N key k then v else read hashing t k)
    put-read (in_array i) owns = elim (Bool-cases (raw_equal N key k)) [
      | inl equal ↦ rw equal (put_array_same i owns equal)
      | inr differ ↦ rw differ (put_array_other i owns differ)
    ]
    put-read (in_node p) owns = elim (Bool-cases (raw_equal N key k)) [
      | inl equal ↦ rw equal (put_node_same p owns equal)
      | inr differ ↦ rw differ (put_node_other p owns differ)
    ]
