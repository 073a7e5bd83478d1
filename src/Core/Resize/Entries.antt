-- ===== src/Core/Resize/Entries.antt =====
-- What a key reads as once the entries of a table are put in again.
use luascript.Prelude.{
  ℕ, zero, suc, ◌+◌, ◌^◌, ◌≤◌, ◌<◌, ◌≡◌, ◌≢◌, refl, ap, ◌∙◌, sym, subst, inl, inr, true, false,
  some, List, [], ◌∷◌, ◌++◌, length, arith, if◌then◌else◌, Bool-cases, get_or,
}
use luascript.Prelude.Int.{pos}
use luascript.Core.Value.{Number, Value, nil, number}
use luascript.Core.Hash.{raw_equal, Hashing, Node, Table, is_nil, node_at, in_range}
use luascript.Core.Hash.Equal.{raw_equal_sym, raw_equal_trans}
use luascript.Core.Hash.Links.{same_next}
use luascript.Core.Hash.WellFormed.{
  key_at, IsKey, Used, Used_place, WellFormed, held, held_entry, held_some, is_nil_sound,
}
use luascript.Core.Hash.Get.{array_index, array_index_equal, array_index_apart}
use luascript.Core.Resize.Refill.{Entry, assigned, node_entries, array_entries}
use native.Mathlib.Decide.{ℕ_discrete}

module _ {N : Number} (hashing : Hashing N) where
  pub assigned-append :
      (es es' : List (Entry N.Num)) (k d : Value N.Num)
      → assigned hashing (es ++ es') k d ≡ assigned hashing es' k (assigned hashing es k d)
  assigned-append [] es' k d = refl
  assigned-append (e ∷ es) es' k d = assigned-append es es' k (if raw_equal N e.0 k then e.1 else d)

  module _ (nodes : List (Node N.Num)) (wf : WellFormed hashing nodes) (k : Value N.Num)
      (is_key : IsKey hashing k) where
    nodes_apart :
        (i : ℕ) (d : Value N.Num)
        → ((j : ℕ)
            → j < i
            → is_nil (node_at nodes j).i_val ≡ false
            → raw_equal N (key_at nodes j) k ≡ false)
        → assigned hashing (node_entries hashing i nodes) k d ≡ d
    nodes_apart zero d h = refl
    nodes_apart (suc i) d h = elim (Bool-cases (is_nil (node_at nodes i).i_val)) [
      | inl empty ↦ rw empty (nodes_apart i d (λ j below. h j (omega arith)))
      | inr full ↦
          let differ = h i (omega arith) full in
          rw full (rw (assigned, differ) (nodes_apart i d (λ j below. h j (omega arith))))
    ]

    nodes_hit :
        (i q : ℕ) (d : Value N.Num)
        → q < i
        → is_nil (node_at nodes q).i_val ≡ false
        → raw_equal N (key_at nodes q) k ≡ true
        → assigned hashing (node_entries hashing i nodes) k d ≡ (node_at nodes q).i_val
    nodes_hit zero q d h full equal = absurd (omega arith)
    nodes_hit (suc i) q d h full equal = elim (ℕ_discrete q i) [
      | yes same ↦
          let full' = subst (λ p. is_nil (node_at nodes p).i_val ≡ false) same full in
          let equal' = subst (λ p. raw_equal N (key_at nodes p) k ≡ true) same equal in
          rw full' (
            rw (assigned, equal')
              (nodes_apart i (node_at nodes i).i_val (others i full' equal')
                ∙ ap (λ p. (node_at nodes p).i_val) (sym same)))
      | no ne ↦ elim (Bool-cases (is_nil (node_at nodes i).i_val)) [
        | inl empty ↦ rw empty (nodes_hit i q d (omega (arith, h, ne)) full equal)
        | inr full' ↦ rw full' (
            nodes_hit i q (if raw_equal N (key_at nodes i) k then (node_at nodes i).i_val else d)
              (omega (arith, h, ne)) full equal)
      ]
    ]
      where
        others :
            (i : ℕ)
            → is_nil (node_at nodes i).i_val ≡ false
            → raw_equal N (key_at nodes i) k ≡ true
            → (j : ℕ) → j < i
            → is_nil (node_at nodes j).i_val ≡ false
            → raw_equal N (key_at nodes j) k ≡ false
        others i full equal j below full' = elim (Bool-cases (raw_equal N (key_at nodes j) k)) [
          | inr differ ↦ differ
          | inl also ↦
              let one =
                wf.unique j i (Used_place hashing nodes j wf full').0
                  (Used_place hashing nodes i wf full).0
                  (raw_equal_trans hashing (key_at nodes j) k (key_at nodes i) also
                    (raw_equal_sym hashing (key_at nodes i) k equal)) in
              absurd (omega (arith, below, one))
        ]

    -- a key that reads as nil stays what it is; any other gets its value
    pub assigned-held :
        assigned hashing (node_entries hashing (length nodes) nodes) k nil ≡ held hashing nodes k
    assigned-held = elim (held_some hashing nodes k wf is_key) [
      | inr (q, used, equal, full, e) ↦
          nodes_hit (length nodes) q nil (Used_place hashing nodes q wf full).1 full equal ∙ sym e
      | inl empty ↦
          nodes_apart (length nodes) nil (λ j below full.
            elim (Bool-cases (raw_equal N (key_at nodes j) k)) [
              | inr differ ↦ differ
              | inl equal ↦
                  let e =
                    held_entry hashing nodes k j wf is_key (Used_place hashing nodes j wf full).0
                      equal in
                  let gone : is_nil (node_at nodes j).i_val ≡ true = ap is_nil (sym e ∙ empty) in
                  absurd (cc)
            ])
          ∙ sym empty
    ]

    pub assigned-nodes_apart :
        (d : Value N.Num)
        → ((q : ℕ) → Used hashing nodes q → raw_equal N (key_at nodes q) k ≡ false)
        → assigned hashing (node_entries hashing (length nodes) nodes) k d ≡ d
    assigned-nodes_apart d h =
        nodes_apart (length nodes) d (λ j below full. h j (Used_place hashing nodes j wf full).0)

  -- the number of a slot of the array part
  abbrev pub slot_key : ℕ → Value N.Num
  slot_key j = number (N.of_int (pos (j + 1)))

  pub array_index-slot_key :
      (t : Table N.Num) (j : ℕ)
      → j < length t.array
      → length t.array < 2 ^ 31
      → array_index hashing t (slot_key j) ≡ some j
  array_index-slot_key t j h small =
      let exact = hashing.of_int_eq (pos (j + 1)) in
      let back = N.to_int_of_int (pos (j + 1)) (omega arith) in
      let next : j + 1 ≡ suc j = omega arith in
      let inside : in_range hashing (pos (j + 1)) (length t.array) ≡ true =
        rw next (ground arith) in
      rw (back, exact, inside) (ap some (omega arith))

  module _ (t : Table N.Num) (small : length t.array < 2 ^ 31) (k : Value N.Num) where
    pub array_apart :
        (n i : ℕ) (d : Value N.Num)
        → i + n ≤ length t.array
        → ((j : ℕ) → i ≤ j → j < i + n → array_index hashing t k ≢ some j)
        → assigned hashing (array_entries hashing n t.array i) k d ≡ d
    array_apart zero i d fits h = refl
    array_apart (suc n) i d fits h =
        let rest =
          array_apart n (i + 1) d (omega arith) (λ j lo hi. h j (omega arith) (omega arith)) in
        elim (Bool-cases (is_nil (get_or t.array i nil))) [
          | inl empty ↦ rw empty rest
          | inr full ↦ elim (Bool-cases (raw_equal N (slot_key i) k)) [
            | inr differ ↦ rw full (rw (assigned, differ) rest)
            | inl equal ↦ absurd (
                h i (omega arith) (omega arith) (
                  sym (array_index_equal hashing t (slot_key i) k equal)
                  ∙ array_index-slot_key t i (omega arith) small))
          ]
        ]

    pub array_hit :
        (n i j : ℕ)
        → i + n ≤ length t.array
        → i ≤ j
        → j < i + n
        → array_index hashing t k ≡ some j
        → assigned hashing (array_entries hashing n t.array i) k nil ≡ get_or t.array j nil
    array_hit zero i j fits lo hi e = absurd (omega arith)
    array_hit (suc n) i j fits lo hi e = elim (ℕ_discrete i j) [
      | no ne ↦
          let rest = array_hit n (i + 1) j (omega arith) (omega (arith, lo, ne)) (omega arith) e in
          elim (Bool-cases (is_nil (get_or t.array i nil))) [
            | inl empty ↦ rw empty rest
            | inr full ↦ elim (Bool-cases (raw_equal N (slot_key i) k)) [
              | inr differ ↦ rw full (rw (assigned, differ) rest)
              | inl equal ↦
                  let also : array_index hashing t k ≡ some i =
                    sym (array_index_equal hashing t (slot_key i) k equal)
                    ∙ array_index-slot_key t i (omega arith) small in
                  absurd (ne (same_next (array_index hashing t k) also e))
            ]
          ]
      | yes same ↦
          let later = λ (d : Value N.Num). array_apart n (i + 1) d (omega arith) (λ j' lo' hi' e'.
            absurd (omega (arith, same, lo', same_next (array_index hashing t k) e e'))) in
          elim (Bool-cases (is_nil (get_or t.array i nil))) [
            | inl empty ↦ rw empty (
                later nil
                ∙ sym (is_nil_sound (get_or t.array i nil) empty)
                ∙ ap (λ x. get_or t.array x nil) same)
            | inr full ↦
                let equal =
                  array_index_apart hashing t (slot_key i) k i
                    (array_index-slot_key t i (omega arith) small) (e ∙ ap some (sym same)) in
                rw full (
                  rw (assigned, equal)
                    (later (get_or t.array i nil) ∙ ap (λ x. get_or t.array x nil) same))
          ]
    ]
