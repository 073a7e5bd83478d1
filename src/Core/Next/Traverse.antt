-- ===== src/Core/Next/Traverse.antt =====
-- The traversal from the start meets every entry of the table once.
use mathlib.Core.Option
use luascript.Prelude.{
  ℕ, zero, suc, ◌+◌, ◌-◌, ◌^◌, ◌≤◌, ◌<◌, ◌≡◌, refl, ap, ◌∙◌, sym, inl, inr, true, false, Option,
  none, some, List, [], ◌∷◌, length, arith, if◌then◌else◌, Bool-cases, get_or, leb, ltb,
}
use luascript.Prelude.Int.{pos}
use luascript.Core.Value.{Number, Value, nil, number}
use luascript.Core.Hash.{Hashing, Table, is_nil, node_at, in_range}
use luascript.Core.Hash.WellFormed.{key_at, IsKey, Used_place, lookup, lookup-cases}
use luascript.Core.Hash.Get.{array_index}
use luascript.Core.Resize.Step.{IsValid}
use luascript.Core.Resize.Entries.{slot_key}
use luascript.Core.Next.{
  Next, next_entry, finished, invalid_key, node_index, before, findindex, next_node, next_slot,
  next_from, luah_next,
}

module _ {N : Number} (hashing : Hashing N) where
  -- the index of a slot of the array part is found
  findindex-slot_key :
      (t : Table N.Num) (j : ℕ)
      → j < length t.array
      → length t.array < 2 ^ 31
      → findindex hashing t (slot_key hashing j) ≡ some (pos j)
  unfolding findindex
  findindex-slot_key t j h small =
      let exact = hashing.of_int_eq (pos (j + 1)) in
      let back = N.to_int_of_int (pos (j + 1)) (omega arith) in
      let next : j + 1 ≡ suc j = omega arith in
      let inside : in_range hashing (pos (j + 1)) (length t.array) ≡ true =
        rw next (ground arith) in
      let there : before hashing (pos (j + 1)) ≡ pos j = rw next refl in
      rw (findindex, back, exact, inside) (ap some there)

  -- and so is that of a node in use
  findindex-node :
      (t : Table N.Num) (key : Value N.Num) (q : ℕ)
      → IsKey hashing key
      → array_index hashing t key ≡ none
      → lookup hashing t.node key ≡ some q
      → findindex hashing t key ≡ some (pos (q + length t.array))
  unfolding findindex
  findindex-node t nil q is_key outside there = let some_key = is_key.0 in absurd (cc)
  findindex-node t (number n) q is_key outside there =
      let k = N.to_int n in
      elim (Bool-cases (N.num_eq (N.of_int k) n)) [
        | inr general ↦ rw (findindex, general) (ap (node_index hashing (length t.array)) there)
        | inl exact ↦ elim (Bool-cases (in_range hashing k (length t.array))) [
          | inr away ↦ rw (findindex, exact, away) (ap (node_index hashing (length t.array)) there)
          | inl inside ↦ let slot = rw (exact, inside) at outside in absurd (cc)
        ]
      ]
  findindex-node t key q is_key outside there = ap (node_index hashing (length t.array)) there

  -- the entry with the index `p`: the slots of the array part, then the nodes
  abbrev pub entry_at : Table N.Num → ℕ → Value N.Num × Value N.Num
  entry_at t p = if ltb p (length t.array) then (slot_key hashing p, get_or t.array p nil) else (
    (node_at t.node (p - length t.array)).i_key,
    (node_at t.node (p - length t.array)).i_val,
  )

  -- the first entry with a value from the index `p` on, in a number of rounds
  abbrev first : ℕ → Table N.Num → ℕ → Next N.Num
  first zero t p = finished
  first (suc k) t p =
      let e = entry_at t p in
      let rest = first k t (p + 1) in if is_nil e.1 then rest else next_entry e.0 e.1

  node_first :
      (k : ℕ) (t : Table N.Num) (j : ℕ)
      → next_node hashing k t.node j ≡ first k t (j + length t.array)
  unfolding next_node
  node_first zero t j = refl
  node_first (suc k) t j =
      let past : ltb (j + length t.array) (length t.array) ≡ false = ground arith in
      let back : j + length t.array - length t.array ≡ j = omega arith in
      let up : j + length t.array + 1 ≡ j + 1 + length t.array = omega arith in
      rw (next_node, past, back, up)
        (ap
          (λ r.
            if is_nil (node_at t.node j).i_val
            then r
            else next_entry (node_at t.node j).i_key (node_at t.node j).i_val)
          (node_first k t (j + 1)))

  slot_first :
      (k m : ℕ) (t : Table N.Num) (i : ℕ)
      → i + k ≡ length t.array
      → next_slot hashing k t.array i (next_node hashing m t.node 0) ≡ first (k + m) t i
  unfolding next_slot
  slot_first zero m t i h =
      let none_left : 0 + m ≡ m = omega arith in
      let start : i ≡ 0 + length t.array = omega arith in
      rw none_left (node_first m t 0 ∙ ap (first m t) (sym start))
  slot_first (suc k) m t i h =
      let inside : ltb i (length t.array) ≡ true = ground arith in
      let more : suc k + m ≡ suc (k + m) = omega arith in
      rw (more, next_slot, inside)
        (ap
          (λ r.
            if is_nil (get_or t.array i nil)
            then r
            else next_entry (slot_key hashing i) (get_or t.array i nil))
          (slot_first k m t (i + 1) (omega arith)))

  abbrev pub positions_of : Table N.Num → ℕ
  positions_of t = length t.array + length t.node

  next_from-first :
      (t : Table N.Num) (i : ℕ)
      → i ≤ positions_of t
      → next_from hashing t i ≡ first (positions_of t - i) t i
  unfolding next_from
  next_from-first t i h = elim (Bool-cases (leb (length t.array) i)) [
    | inl past ↦
        let j = i - length t.array in
        let none_left : length t.array - i ≡ 0 = ground arith in
        let back : j + length t.array ≡ i = ground arith in
        let rounds : length t.node - j ≡ positions_of t - i = ground arith in
        rw (next_from, past, none_left)
          (node_first (length t.node - j) t j
            ∙ ap (first (length t.node - j) t) back
            ∙ ap (λ k. first k t i) rounds)
    | inr inside ↦
        let all : length t.node - 0 ≡ length t.node = omega arith in
        let rounds : length t.array - i + length t.node ≡ positions_of t - i = ground arith in
        rw (next_from, inside, all)
          (slot_first (length t.array - i) (length t.node) t i (ground arith)
            ∙ ap (λ k. first k t i) rounds)
  ]

  module _ (t : Table N.Num) (valid : IsValid hashing t) (small : length t.array < 2 ^ 31) where
    node_found :
        (q : ℕ)
        → is_nil (node_at t.node q).i_val ≡ false
        → findindex hashing t (key_at t.node q) ≡ some (pos (q + length t.array))
    node_found q full =
        let used = (Used_place hashing t.node q valid.table.nodes full).0 in
        let outside = valid.away q used in
        elim (lookup-cases hashing t.node (key_at t.node q) valid.table.nodes used) [
          | inl (nowhere, others) ↦ let other = others q used in let self = used.1 in absurd (cc)
          | inr (q', there, used', below, equal) ↦
              let one = valid.table.nodes.unique q' q used' used equal in
              findindex-node t (key_at t.node q) q used outside (there ∙ ap some one)
        ]

    entry_found :
        (p : ℕ)
        → is_nil (entry_at t p).1 ≡ false
        → findindex hashing t (entry_at t p).0 ≡ some (pos p)
    entry_found p full = elim (Bool-cases (ltb p (length t.array))) [
      | inl inside ↦ rw inside (findindex-slot_key t p (ground arith) small)
      | inr past ↦
          let back : p - length t.array + length t.array ≡ p = ground arith in
          rw past (node_found (p - length t.array) (rw past at full) ∙ ap (λ x. some (pos x)) back)
    ]

    entry_next :
        (p : ℕ)
        → p < positions_of t
        → is_nil (entry_at t p).1 ≡ false
        → luah_next hashing t (entry_at t p).0 ≡ first (positions_of t - (p + 1)) t (p + 1)
    unfolding luah_next
    entry_next p h full =
        rw (luah_next, entry_found p full) (next_from-first t (p + 1) (omega arith))

  -- the keys and values that `next` gives, one call after the other; `none` if a call is refused or the
  -- rounds run out
  unfoldable pub traverse :
      ℕ → Table N.Num → Value N.Num → Option (List (Value N.Num × Value N.Num))
  unfolding luah_next
  traverse zero t key = none
  traverse (suc k) t key = elim (luah_next hashing t key) [
    | next_entry key' v ↦ Option.map (λ es. (key', v) ∷ es) (traverse k t key')
    | finished ↦ some []
    | invalid_key ↦ none
  ]

  -- the entries with a value, from the index `p` on
  unfoldable pub contents : ℕ → Table N.Num → ℕ → List (Value N.Num × Value N.Num)
  contents zero t p = []
  contents (suc k) t p =
      let rest = contents k t (p + 1) in
      if is_nil (entry_at t p).1 then rest else entry_at t p ∷ rest

  module _ (t : Table N.Num) (valid : IsValid hashing t) (small : length t.array < 2 ^ 31) where
    traverse-first :
        (k r p : ℕ) (key : Value N.Num)
        → p + k ≡ positions_of t
        → k ≤ r
        → luah_next hashing t key ≡ first k t p
        → traverse (suc r) t key ≡ some (contents k t p)
    unfolding traverse contents
    traverse-first zero r p key h enough e = rw (traverse, e) refl
    traverse-first (suc k) zero p key h enough e = absurd (omega arith)
    traverse-first (suc k) (suc r) p key h enough e = elim (Bool-cases (is_nil (entry_at t p).1)) [
      | inl empty ↦
          rw (contents, empty)
            (traverse-first k (suc r) (p + 1) key (omega arith) (omega arith) (e ∙ rw empty refl))
      | inr full ↦
          let rounds : positions_of t - (p + 1) ≡ k = omega arith in
          let step =
            entry_next t valid small p (omega arith) full ∙ ap (λ k. first k t (p + 1)) rounds in
          let later =
            traverse-first k r (p + 1) (entry_at t p).0 (omega arith) (omega arith) step in
          let this : luah_next hashing t key ≡ next_entry (entry_at t p).0 (entry_at t p).1 =
            e ∙ rw full refl in
          rw (traverse, this, later, contents, full) refl
    ]

    -- For a valid table with an array part shorter than 2 ^ 31: calls of `luaH_next`, the first with nil and
    -- each other with the key that the one before gave, give every entry that has a value once, those of
    -- the array part and then those of the nodes, and end; none of them is refused.
    pub traverse-contents :
        traverse (suc (positions_of t)) t nil ≡ some (contents (positions_of t) t 0)
    unfolding luah_next
    traverse-contents =
        traverse-first (positions_of t) (positions_of t) 0 nil (omega arith) (omega arith)
          (next_from-first t 0 (omega arith) ∙ ap (λ k. first k t 0) all)
      where
        all : positions_of t - 0 ≡ positions_of t
        all = omega arith
