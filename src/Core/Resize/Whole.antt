-- ===== src/Core/Resize/Whole.antt =====
-- `resize` keeps every value, if the new hash part has room for what goes there.
use luascript.Prelude.{
  ℕ, ◌+◌, ◌-◌, ◌^◌, ◌≤◌, ◌<◌, ◌≡◌, refl, ap, ◌∙◌, sym, subst, inl, inr, Bool, false, List, length,
  arith, if◌then◌else◌, Bool-cases, ltb,
}
use luascript.Core.Value.{Number, Value, nil}
use luascript.Core.Object.{ceillog2}
use luascript.Core.Hash.{Hashing, Node, Table, Slot, Setting, placed}
use luascript.Core.Hash.WellFormed.{IsKey}
use luascript.Core.Hash.Get.{array_index, read, reading, read-reading}
use luascript.Core.Resize.{
  maxbits, exponent, Resized, resized, stopped, setarrayvector, setnodevector, reinsert_array,
  reinsert_nodes, table_resize,
}
use luascript.Core.Resize.Fresh.{no_use, held-blank}
use luascript.Core.Resize.Room.{HasRoom}
use luascript.Core.Resize.Step.{IsValid}
use luascript.Core.Resize.Refill.{
  assigned, costs, costs_size, Refilled, refill, refill_room, reinsert_nodes-refill,
  reinsert_array-refill,
}
use luascript.Core.Resize.Slots.{new_array, length-new_array}
use luascript.Core.Resize.Reads.{
  setnodevector-Bare, node_keys, vanishing, vanishing_keys, all_nodes, reads_back,
}

abbrev table_in : {Num : Type 0} → Resized Num → Table Num → Table Num
table_in (resized t) d = t
table_in (stopped s) d = d

same_table : {Num : Type 0} {t t' : Table Num} → resized t ≡ resized t' → t ≡ t'
same_table {t = t} e = ap (λ r. table_in r t) e

module _ {N : Number} (hashing : Hashing N) where
  -- the nodes that `resize` takes for what it puts in again
  abbrev pub needed : Table N.Num → ℕ → ℕ
  needed t size =
      let bare = record t { array = new_array t.array size } in
      costs hashing bare (vanishing hashing t size) + costs hashing bare (all_nodes hashing t)

  module _ (again : Table N.Num → Value N.Num → Setting N.Num → Setting N.Num)
      (passes : (t : Table N.Num) (key : Value N.Num) (slot : Slot) (t' : Table N.Num)
        → again t key (placed slot t') ≡ placed slot t')
      (t : Table N.Num) (size nhsize : ℕ) (valid : IsValid hashing t)
      (small : length t.array < 2 ^ 31) where
    abbrev around : List (Node N.Num) → ℕ → Bool → Table N.Num
    around node lastfree dummy = record {
      array = new_array t.array size;
      node = node;
      lastfree = lastfree;
      dummy = dummy;
    }

    -- the steps of `resize`, one after the other
    resize_steps :
        (node : List (Node N.Num)) (lastfree : ℕ) (dummy : Bool) (t₂ t₃ : Table N.Num)
        → ((u : Table N.Num)
            → setnodevector u nhsize
              ≡ resized
                  (record { array = u.array; node = node; lastfree = lastfree; dummy = dummy }))
        → (if ltb size (length t.array)
            then reinsert_array hashing again
                (length t.array - size)
                t.array
                size
                (around node lastfree dummy)
            else resized (around node lastfree dummy))
          ≡ resized t₂
        → reinsert_nodes hashing again (length t.node) t.node t₂ ≡ resized t₃
        → table_resize hashing again t size nhsize ≡ resized t₃
    unfolding table_resize
    resize_steps node lastfree dummy t₂ t₃ make arrays nodes =
        elim (Bool-cases (ltb (length t.array) size)) [
          | inl grows ↦
              let stays : ltb size (length t.array) ≡ false = ground arith in
              rw (table_resize, grows, make (setarrayvector t size), stays)
                (ap (reinsert_nodes hashing again (length t.node) t.node)
                    (same_table (rw (stays, grows) at arrays))
                  ∙ nodes)
          | inr not_grows ↦ elim (Bool-cases (ltb size (length t.array))) [
            | inl shrinks ↦
                let done = rw (shrinks, not_grows) at arrays in
                rw (table_resize, not_grows, make t, shrinks, done) nodes
            | inr stays ↦
                rw (table_resize, not_grows, make t, stays)
                  (ap (reinsert_nodes hashing again (length t.node) t.node)
                      (same_table (rw (stays, not_grows) at arrays))
                    ∙ nodes)
          ]
        ]

    slice_run :
        (t₀ t₂ : Table N.Num)
        → refill hashing again passes (vanishing hashing t size) t₀ ≡ resized t₂
        → (if ltb size (length t.array)
            then reinsert_array hashing again (length t.array - size) t.array size t₀
            else resized t₀)
          ≡ resized t₂
    unfolding refill
    slice_run t₀ t₂ run = elim (Bool-cases (ltb size (length t.array))) [
      | inl shrinks ↦
          let fits : size + (length t.array - size) < 2 ^ 31 = ground arith in
          rw shrinks (
            reinsert_array-refill hashing again passes (length t.array - size) t.array size t₀ fits
            ∙ rw shrinks at run)
      | inr stays ↦ rw stays (rw stays at run)
    ]

    -- where the vanishing slice is put in again
    slice_done :
        (node : List (Node N.Num)) (lastfree : ℕ) (dummy : Bool) (m : ℕ)
        → IsValid hashing (around node lastfree dummy)
        → HasRoom hashing
            (costs hashing (around node lastfree dummy) (vanishing hashing t size) + m)
            (around node lastfree dummy)
        → (t₂ : Table N.Num) × ((if ltb size (length t.array)
              then reinsert_array hashing again
                  (length t.array - size)
                  t.array
                  size
                  (around node lastfree dummy)
              else resized (around node lastfree dummy))
            ≡ resized t₂)
          × Refilled hashing (around node lastfree dummy) t₂ (vanishing hashing t size) m
    slice_done node lastfree dummy m valid₀ room =
        let t₀ = around node lastfree dummy in
        let (t₂, run, refilled) =
          refill_room hashing again passes (vanishing hashing t size) m t₀ valid₀
            (vanishing_keys hashing t size) room in
        (t₂, slice_run t₀ t₂ run, refilled)

    module _ (small_size : size < 2 ^ 31) (m : ℕ) (room : needed t size + m ≤ nhsize)
        (fits : exponent (ceillog2 nhsize) ≤ maxbits) where
      -- For a valid table whose array part is and will be shorter than 2 ^ 31, a new hash part of at most
      -- 2 ^ MAXBITS nodes, and room in it for the entries that go there and `m` more: `resize` puts them all
      -- in again, never finding the table full, and gives a valid table of that array size, with room for
      -- the `m`, in which every key reads as before.
      pub table_resize-read :
          (k : Value N.Num)
          → IsKey hashing k
          → (t' : Table N.Num) × (table_resize hashing again t size nhsize ≡ resized t')
            × IsValid hashing t'
            × (length t'.array ≡ size)
            × HasRoom hashing m t'
            × (read hashing t' k ≡ read hashing t k)
      table_resize-read k is_key =
          let (node, lastfree, dummy, make, bare) = setnodevector-Bare hashing nhsize fits in
          let t₀ = around node lastfree dummy in
          let long = length-new_array t.array size in
          let valid₀ : IsValid hashing t₀ = record {
            table = bare.table (new_array t.array size);
            away = λ q used. absurd (no_use hashing node bare.blanks q used);
          } in
          let first = costs hashing t₀ (vanishing hashing t size) in
          let second = costs hashing t₀ (all_nodes hashing t) in
          let (t₂, arrays, filled) =
            slice_done node lastfree dummy (second + m) valid₀
              (bare.room (first + (second + m)) (new_array t.array size) (omega (arith, room))) in
          let later = costs_size hashing t₀ t₂ (all_nodes hashing t) filled.same_array in
          let (t₃, run, refilled) =
            refill_room hashing again passes (all_nodes hashing t) m t₂ filled.valid
              (node_keys hashing t (length t.node) valid.table)
              (subst (λ n. HasRoom hashing (n + m) t₂) (sym later) filled.room) in
          let start : read hashing t₀ k ≡ reading hashing t₀.array (array_index hashing t₀ k) nil =
            read-reading hashing t₀ k is_key
            ∙ ap (reading hashing t₀.array (array_index hashing t₀ k))
                (held-blank hashing node bare.blanks bare.some_node k is_key) in
          (
            t₃,
            resize_steps node lastfree dummy t₂ t₃ make arrays
                (reinsert_nodes-refill hashing again passes (length t.node) t.node t₂ ∙ run),
            refilled.valid,
            refilled.same_array ∙ filled.same_array ∙ long,
            refilled.room,
            refilled.reads k is_key
                ∙ ap (assigned hashing (all_nodes hashing t) k) (
                    filled.reads k is_key
                    ∙ ap (assigned hashing (vanishing hashing t size) k) start)
                ∙ reads_back hashing t size valid small small_size k is_key t₀ long refl,
          )
