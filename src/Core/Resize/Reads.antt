-- ===== src/Core/Resize/Reads.antt =====
-- What a key reads as in the parts that `resize` makes, and after the entries are put in again.
use luascript.Prelude.{
  ℕ, zero, suc, ◌+◌, ◌-◌, ◌^◌, ◌≤◌, ◌<◌, ◌≡◌, ◌≢◌, refl, ap, ◌∙◌, sym, subst, inl, inr, Bool, true,
  false, none, some, List, [], ◌∷◌, length, arith, if◌then◌else◌, Bool-cases, Option-cases, get_or,
  Each, ltb, replicate, length-replicate,
}
use luascript.Prelude.Int.{pos}
use luascript.Core.Value.{Number, Value, nil, number}
use luascript.Core.Object.{ceillog2}
use luascript.Core.Object.Logarithm.{ceillog2_least}
use luascript.Core.Hash.{raw_equal, Hashing, Node, Table, is_nil, blank, node_at}
use native.Mathlib.Decide.{dec_le, dec_lt}
use luascript.Core.Hash.Links.{same_next}
use luascript.Core.Hash.WellFormed.{key_at, IsKey, Used_place, held}
use luascript.Core.Hash.Insert.{IsTable}
use luascript.Core.Hash.Get.{
  array_index, array_index_equal, array_index-number, read, reading, read-reading,
}
use luascript.Core.Resize.{maxbits, exponent, resized, setnodevector}
use luascript.Core.Resize.Fresh.{
  blank_single, blank-replicate, bare-IsTable, fresh-IsTable, setnodevector-cases,
}
use luascript.Core.Resize.Room.{HasRoom, uses-blank}
use luascript.Core.Resize.Step.{IsValid}
use luascript.Core.Resize.Refill.{Entry, assigned, node_entries, array_entries}
use luascript.Core.Resize.Entries.{
  assigned-held, assigned-nodes_apart, array_index-slot_key, slot_key, array_apart, array_hit,
}
use luascript.Core.Resize.Slots.{new_array, new_array_slot, past_end}

module _ {N : Number} (hashing : Hashing N) where
  -- a hash part without keys, with room for `size` of them
  pub record Bare (size : ℕ) (node : List (Node N.Num)) (lastfree : ℕ) (dummy : Bool) : Type 0 where
    pub table :
        (array : List (Value N.Num))
        → IsTable hashing
            (record { array = array; node = node; lastfree = lastfree; dummy = dummy })
    pub blanks : (p : ℕ) → node_at node p ≡ blank
    pub some_node : 0 < length node
    pub room :
        (m : ℕ) (array : List (Value N.Num))
        → m ≤ size
        → HasRoom hashing m
            (record { array = array; node = node; lastfree = lastfree; dummy = dummy })

  pub setnodevector-Bare :
      (size : ℕ)
      → exponent (ceillog2 size) ≤ maxbits
      → (node : List (Node N.Num)) × (lastfree : ℕ) × (dummy : Bool) × ((u : Table N.Num)
          → setnodevector u size
            ≡ resized (record { array = u.array; node = node; lastfree = lastfree; dummy = dummy }))
        × Bare size node lastfree dummy
  unfolding HasRoom
  setnodevector-Bare size fits = elim (setnodevector-cases hashing size) [
    | inl (e, run) ↦ (
      blank ∷ [],
      0,
      true,
      run,
      record {
        table = λ array.
            bare-IsTable hashing (record { array = array; node = []; lastfree = 0; dummy = true });
        blanks = blank_single hashing;
        some_node = omega arith;
        room = λ m array h. inl (omega arith);
      },
    )
    | inr (inl (h, over, run)) ↦ absurd (omega (arith, over, fits))
    | inr (inr (h, run)) ↦
        let n = 2 ^ exponent (ceillog2 size) in
        let (k, e, (enough, least)) = ceillog2_least size h in
        let large : size ≤ n = subst (λ z. size ≤ 2 ^ exponent z) (sym e) enough in
        let long : length (replicate n (blank {Num = N.Num})) ≡ n = length-replicate n blank in
        let none_used = uses-blank N.Num n in
        (
          replicate n blank,
          n,
          false,
          run,
          record {
            table = λ array.
                fresh-IsTable hashing
                  (record { array = array; node = []; lastfree = 0; dummy = true }) n
                  (omega (arith, h, large));
            blanks = blank-replicate hashing n;
            some_node = omega (arith, h, large, long);
            room = λ m array h'. inr (refl, omega (arith, h', large, long, none_used));
          },
        )
  ]

  pub node_keys :
      (t : Table N.Num) (i : ℕ)
      → IsTable hashing t
      → Each (λ (e : Entry N.Num). IsKey hashing e.0) (node_entries hashing i t.node)
  node_keys t zero valid = tt
  node_keys t (suc i) valid = elim (Bool-cases (is_nil (node_at t.node i).i_val)) [
    | inl empty ↦ rw empty (node_keys t i valid)
    | inr full ↦ rw full ((Used_place hashing t.node i valid.nodes full).0, node_keys t i valid)
  ]

  array_keys :
      (n : ℕ) (array : List (Value N.Num)) (i : ℕ)
      → Each (λ (e : Entry N.Num). IsKey hashing e.0) (array_entries hashing n array i)
  array_keys zero array i = tt
  array_keys (suc n) array i = elim (Bool-cases (is_nil (get_or array i nil))) [
    | inl empty ↦ rw empty (array_keys n array (i + 1))
    | inr full ↦ rw full ((refl, hashing.of_int_eq (pos (i + 1))), array_keys n array (i + 1))
  ]

  -- the entries that `resize` takes out of the array part, and out of the hash part
  abbrev pub vanishing : Table N.Num → ℕ → List (Entry N.Num)
  vanishing t size =
      if ltb size (length t.array)
      then array_entries hashing (length t.array - size) t.array size
      else []

  abbrev pub all_nodes : Table N.Num → List (Entry N.Num)
  all_nodes t = node_entries hashing (length t.node) t.node

  pub vanishing_keys :
      (t : Table N.Num) (size : ℕ)
      → Each (λ (e : Entry N.Num). IsKey hashing e.0) (vanishing t size)
  vanishing_keys t size = elim (Bool-cases (ltb size (length t.array))) [
    | inl shrinks ↦ rw shrinks (array_keys (length t.array - size) t.array size)
    | inr stays ↦ rw stays tt
  ]

  module _ (t : Table N.Num) (size : ℕ) (valid : IsValid hashing t)
      (small : length t.array < 2 ^ 31) (small_size : size < 2 ^ 31) (k : Value N.Num)
      (is_key : IsKey hashing k) where
    -- the new array part knows the slots of the old one, as far as it goes
    index_after :
        (t₀ : Table N.Num) (i : ℕ)
        → length t₀.array ≡ size
        → array_index hashing t₀ k ≡ some i
        → i < length t.array
        → array_index hashing t k ≡ some i
    index_after t₀ i long e h =
        let (equal, below) = array_index-number hashing t₀ k i e in
        sym (
          array_index_equal hashing t (slot_key hashing i) k
            (subst (λ j. raw_equal N (number (N.of_int (pos j))) k ≡ true) (next i) equal))
        ∙ array_index-slot_key hashing t i h small
      where
        next : (i : ℕ) → suc i ≡ i + 1
        next i = omega arith

    -- the key has no slot in the old array part
    read_outside :
        (t₀ : Table N.Num)
        → length t₀.array ≡ size
        → t₀.array ≡ new_array t.array size
        → array_index hashing t k ≡ none
        → reading hashing t₀.array (array_index hashing t₀ k) nil ≡ nil
    read_outside t₀ long same outside = elim (Option-cases (array_index hashing t₀ k)) [
      | inl away ↦ rw away refl
      | inr (i, inside) ↦
          let (equal, below) = array_index-number hashing t₀ k i inside in
          let slot : get_or t₀.array i nil ≡ get_or t.array i nil =
            ap (λ array. get_or array i nil) same
            ∙ new_array_slot t.array size i (omega (arith, below, long)) in
          rw inside (
            slot ∙ elim (dec_le (length t.array) i) [
              | yes past ↦ past_end t.array i past
              | no before ↦
                  let known = index_after t₀ i long inside (omega (arith, before)) in absurd (cc)
            ])
    ]

    vanishing_apart :
        (d : Value N.Num)
        → ((j : ℕ) → size ≤ j → array_index hashing t k ≢ some j)
        → assigned hashing (vanishing t size) k d ≡ d
    vanishing_apart d h = elim (Bool-cases (ltb size (length t.array))) [
      | inr stays ↦ rw stays refl
      | inl shrinks ↦ rw shrinks (
          array_apart hashing t small k (length t.array - size) size d (ground arith)
            (λ j lo hi. h j lo))
    ]

    -- the key has the slot `j`
    read_inside :
        (t₀ : Table N.Num) (j : ℕ)
        → length t₀.array ≡ size
        → t₀.array ≡ new_array t.array size
        → array_index hashing t k ≡ some j
        → assigned hashing
            (vanishing t size)
            k
            (reading hashing t₀.array (array_index hashing t₀ k) nil)
          ≡ get_or t.array j nil
    read_inside t₀ j long same inside =
        let (equal, below) = array_index-number hashing t k j inside in
        elim (dec_lt j size) [
          | yes kept ↦
              let here : array_index hashing t₀ k ≡ some j =
                sym (
                  array_index_equal hashing t₀ (slot_key hashing j) k
                    (subst (λ i. raw_equal N (number (N.of_int (pos i))) k ≡ true) (next j) equal))
                ∙ array_index-slot_key hashing t₀ j (omega (arith, kept, long))
                    (omega (arith, long, small_size)) in
              vanishing_apart (reading hashing t₀.array (array_index hashing t₀ k) nil) (λ i lo e.
                absurd (omega (arith, kept, lo, same_next (array_index hashing t k) e inside)))
              ∙ ap (λ o. reading hashing t₀.array o nil) here
              ∙ ap (λ array. get_or array j nil) same
              ∙ new_array_slot t.array size j kept
          | no gone ↦
              let shrinks : ltb size (length t.array) ≡ true = ground (arith, gone, below) in
              let away : reading hashing t₀.array (array_index hashing t₀ k) nil ≡ nil =
                elim (Option-cases (array_index hashing t₀ k)) [
                  | inl away ↦ rw away refl
                  | inr (i, there) ↦
                      let (equal', below') = array_index-number hashing t₀ k i there in
                      let also =
                        index_after t₀ i long there (omega (arith, below', long, gone, below)) in
                      absurd (
                        omega (
                          arith,
                          below',
                          long,
                          gone,
                          same_next (array_index hashing t k) also inside,
                        ))
                ] in
              ap (assigned hashing (vanishing t size) k) away
              ∙ rw shrinks (
                  array_hit hashing t small k (length t.array - size) size j
                    (ground (arith, gone, below)) (omega (arith, gone)) (omega (arith, below, gone))
                    inside)
        ]
      where
        next : (i : ℕ) → suc i ≡ i + 1
        next i = omega arith

    -- what the key reads as after all the assignments is what it read as before
    pub reads_back :
        (t₀ : Table N.Num)
        → length t₀.array ≡ size
        → t₀.array ≡ new_array t.array size
        → assigned hashing (all_nodes t) k (
            assigned hashing
              (vanishing t size)
              k
              (reading hashing t₀.array (array_index hashing t₀ k) nil))
          ≡ read hashing t k
    reads_back t₀ long same = elim (Option-cases (array_index hashing t k)) [
      | inl outside ↦
          ap (λ d. assigned hashing (all_nodes t) k (assigned hashing (vanishing t size) k d))
            (read_outside t₀ long same outside)
          ∙ ap (assigned hashing (all_nodes t) k) (vanishing_apart nil (λ j lo e. cc))
          ∙ assigned-held hashing t.node valid.table.nodes k is_key
          ∙ sym (
              read-reading hashing t k is_key
              ∙ ap (λ o. reading hashing t.array o (held hashing t.node k)) outside)
      | inr (j, inside) ↦
          ap (assigned hashing (all_nodes t) k) (read_inside t₀ j long same inside)
          ∙ assigned-nodes_apart hashing t.node valid.table.nodes k is_key (get_or t.array j nil)
              (λ q used. elim (Bool-cases (raw_equal N (key_at t.node q) k)) [
                | inr differ ↦ differ
                | inl equal ↦
                    let one = array_index_equal hashing t (key_at t.node q) k equal in
                    let gone = valid.away q used in absurd (cc)
              ])
          ∙ sym (
              read-reading hashing t k is_key
              ∙ ap (λ o. reading hashing t.array o (held hashing t.node k)) inside)
    ]
