-- ===== src/Core/Hash/Set.antt =====
-- `luaH_set` and the write through what it returns: the table is a map from keys to values.
use luascript.Prelude.{
  ℕ, ◌≡◌, refl, ap, ◌∙◌, sym, subst, ◌⊎◌, inl, inr, true, false, none, some, length, if◌then◌else◌,
  Option-cases,
}
use luascript.Core.Value.{Number, Value, nil}
use luascript.Core.Hash.{
  raw_equal, Hashing, Table, Slot, in_array, in_node, Setting, placed, full, put, luah_get, newkey,
  luah_set,
}
use luascript.Core.Hash.Equal.{is_nan-raw_equal}
use luascript.Core.Hash.WellFormed.{key_at, IsKey, Used, lookup, lookup-cases, held}
use luascript.Core.Hash.Insert.{IsTable, IsFull, Inserts, newkey-Inserts}
use luascript.Core.Hash.Get.{place, array_index, luah_get-place, read, reading, read-reading}
use luascript.Core.Hash.Written.{Owns, put-IsTable, put-read, array_index_size}

abbrev slot_of : {Num : Type 0} → Setting Num → Slot → Slot
slot_of (placed s t) d = s
slot_of _ d = d

abbrev table_of : {Num : Type 0} → Setting Num → Table Num → Table Num
table_of (placed s t) d = t
table_of _ d = d

same_placed :
    {Num : Type 0} (s s' : Slot) (t t' : Table Num)
    → placed s t ≡ placed s' t'
    → (s ≡ s') × (t ≡ t')
same_placed s s' t t' e = (ap (λ x. slot_of x s) e, ap (λ x. table_of x t) e)

module _ {N : Number} (hashing : Hashing N) where
  -- `luaH_set` gives the slot of the key, in a table that reads as before, or there is no free node for a
  -- new key
  abbrev pub Found : Table N.Num → Value N.Num → Setting N.Num → Type 0
  Found t key s =
      (slot : Slot) × (t' : Table N.Num) × (s ≡ placed slot t')
      × IsTable hashing t'
      × Owns hashing t' key slot
      × ((k : Value N.Num) → IsKey hashing k → read hashing t' k ≡ read hashing t k)
      × ((t' ≡ t) ⊎ ((p : ℕ) × (array_index hashing t key ≡ none) × Inserts hashing t key p t'))

  set_known :
      (t : Table N.Num) (key : Value N.Num) (slot : Slot)
      → IsTable hashing t
      → luah_get hashing t key ≡ some slot
      → Owns hashing t key slot
      → Found t key (luah_set hashing t key)
  unfolding luah_set
  set_known t key slot valid e owns =
      (slot, t, rw (luah_set, e) refl, valid, owns, λ k h. refl, inl refl)

  Inserts-read :
      (t : Table N.Num) (key : Value N.Num) (p : ℕ) (t' : Table N.Num)
      → Inserts hashing t key p t'
      → (k : Value N.Num) → IsKey hashing k
      → read hashing t' k ≡ read hashing t k
  Inserts-read t key p t' inserts k h =
      read-reading hashing t' k h
      ∙ ap (λ o. reading hashing t'.array o (held hashing t'.node k))
          (array_index_size hashing t t' k (ap length inserts.same_array))
      ∙ ap (λ array. reading hashing array (array_index hashing t k) (held hashing t'.node k))
          inserts.same_array
      ∙ ap (reading hashing t.array (array_index hashing t k)) (inserts.same_held k h)
      ∙ sym (read-reading hashing t k h)

  set_new :
      (t : Table N.Num) (key : Value N.Num)
      → IsTable hashing t
      → IsKey hashing key
      → array_index hashing t key ≡ none
      → luah_get hashing t key ≡ none
      → ((q : ℕ) → Used hashing t.node q → raw_equal N (key_at t.node q) key ≡ false)
      → ((luah_set hashing t key ≡ full) × IsFull hashing t) ⊎ Found t key (luah_set hashing t key)
  unfolding luah_set
  set_new t key valid is_key outside nowhere absent =
      let not_nil = is_key.0 in
      let not_nan = is_nan-raw_equal hashing key is_key.1 in
      let to_newkey : luah_set hashing t key ≡ newkey hashing t key =
        rw (luah_set, nowhere, not_nil, not_nan) refl in
      elim (newkey-Inserts hashing t key valid is_key absent) [
        | inl (e, no_place) ↦ inl (to_newkey ∙ e, no_place)
        | inr (p, t', e, inserts) ↦ inr (
          in_node p,
          t',
          to_newkey ∙ e,
          inserts.valid,
          (
            array_index_size hashing t t' key (ap length inserts.same_array) ∙ outside,
            inserts.in_size,
            subst (IsKey hashing) (sym inserts.new_key) is_key,
            subst (λ x. raw_equal N x key ≡ true) (sym inserts.new_key) is_key.1,
          ),
          Inserts-read t key p t' inserts,
          inr (p, outside, inserts),
        )
      ]

  pub set-cases :
      (t : Table N.Num) (key : Value N.Num)
      → IsTable hashing t
      → IsKey hashing key
      → ((luah_set hashing t key ≡ full)
          × IsFull hashing t
          × (read hashing t key ≡ nil)
          × (array_index hashing t key ≡ none))
        ⊎ Found t key (luah_set hashing t key)
  unfolding read
  set-cases t key valid is_key =
      let get = luah_get-place hashing t key is_key in
      elim (Option-cases (array_index hashing t key)) [
        | inr (i, inside) ↦ inr (
            set_known t key (in_array i) valid
              (get ∙ ap (λ o. place hashing o (lookup hashing t.node key)) inside) inside)
        | inl outside ↦
            let get_node : luah_get hashing t key ≡ place hashing none (lookup hashing t.node key) =
              get ∙ ap (λ o. place hashing o (lookup hashing t.node key)) outside in
            elim (lookup-cases hashing t.node key valid.nodes is_key) [
              | inr (q, there, used, q_in, equal) ↦ inr (
                  set_known t key (in_node q) valid (get_node ∙ ap (place hashing none) there)
                    (outside, q_in, used, equal))
              | inl (nowhere, absent) ↦
                  let missing = get_node ∙ ap (place hashing none) nowhere in
                  elim (set_new t key valid is_key outside missing absent) [
                    | inl (e, no_place) ↦ inl (e, no_place, rw (read, missing) refl, outside)
                    | inr found ↦ inr found
                  ]
            ]
      ]

  -- For a valid table and a key, neither nil nor NaN: either the key reads as nil, no node is free, and
  -- `luaH_set` goes on to `rehash`; or it gives a slot, and once a value is written there, the table is
  -- valid, each key that is equal to the given one reads as that value, and any other key, of the array
  -- part or the hash part, reads as before.
  pub luah_set-read :
      (t : Table N.Num) (key v : Value N.Num)
      → IsTable hashing t
      → IsKey hashing key
      → (k : Value N.Num) → IsKey hashing k
      → ((luah_set hashing t key ≡ full) × IsFull hashing t × (read hashing t key ≡ nil))
        ⊎ ((slot : Slot) × (t' : Table N.Num) × (luah_set hashing t key ≡ placed slot t')
            × IsTable hashing (put slot v t')
            × (read hashing (put slot v t') k
                ≡ (if raw_equal N key k then v else read hashing t k)))
  luah_set-read t key v valid is_key k h = elim (set-cases t key valid is_key) [
    | inl (e, no_place, missing, outside) ↦ inl (e, no_place, missing)
    | inr (slot, t', e, valid', owns, same_read, how) ↦ inr (
      slot,
      t',
      e,
      put-IsTable hashing t' key slot v valid' owns,
      put-read hashing t' key v valid' k h slot owns
          ∙ ap (λ x. if raw_equal N key k then v else x) (same_read k h),
    )
  ]

  pub luah_set-IsTable :
      (t : Table N.Num) (key v : Value N.Num) (slot : Slot) (t' : Table N.Num)
      → IsTable hashing t
      → IsKey hashing key
      → luah_set hashing t key ≡ placed slot t'
      → IsTable hashing (put slot v t')
  luah_set-IsTable t key v slot t' valid is_key e =
      elim (luah_set-read t key v valid is_key key is_key) [
        | inl (e', _, _) ↦ absurd (cc)
        | inr (slot', t'', e', valid', _) ↦
            let (same_slot, same_table) = same_placed slot' slot t'' t' (sym e' ∙ e) in
            subst (λ s. IsTable hashing (put s v t')) same_slot
              (subst (λ t. IsTable hashing (put slot' v t)) same_table valid')
      ]
