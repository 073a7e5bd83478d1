-- ===== src/Core/Resize/Refill.antt =====
-- The values that `resize` takes out and puts in again, as a list of assignments.
use luascript.Prelude.{
  ℕ, zero, suc, ◌+◌, ◌^◌, ◌<◌, ◌≡◌, refl, ap, ◌∙◌, sym, subst, inl, inr, List, [], ◌∷◌, length,
  arith, if◌then◌else◌, Bool-cases, Option-cases, get_or, Each,
}
use luascript.Prelude.Bytes.{Bytes}
use luascript.Prelude.Int.{ℤ, pos}
use luascript.Core.Value.{Number, Value, nil, number, str, IsInt}
use luascript.Core.Hash.{
  raw_equal, Hashing, Node, Table, Slot, Setting, placed, is_nil, node_at, put, luah_set, luah_get,
  luah_getnum, luah_getstr,
}
use luascript.Core.Hash.WellFormed.{IsKey}
use luascript.Core.Hash.Get.{read}
use luascript.Core.Hash.Written.{array_index_size}
use luascript.Core.Resize.{
  Resized, resized, stopped, store_value, luah_setnum, luah_setstr, reinsert_array, reinsert_nodes,
}
use luascript.Core.Resize.Room.{HasRoom}
use luascript.Core.Resize.Step.{IsValid, node_of, cost, luah_set_room}

abbrev pub Entry : Type 0 → Type 0
Entry Num = Value Num × Value Num

then_same :
    {Num : Type 0} (r : Resized Num) (f g : Table Num → Resized Num)
    → ((t : Table Num) → f t ≡ g t)
    → elim r [ stopped s ↦ stopped s | resized t ↦ f t ]
      ≡ elim r [ stopped s ↦ stopped s | resized t ↦ g t ]
then_same (stopped s) f g h = refl
then_same (resized t) f g h = h t

module _ {N : Number} (hashing : Hashing N) where
  -- a read of `k` after the assignments, where it gave `d` before
  abbrev pub assigned : List (Entry N.Num) → Value N.Num → Value N.Num → Value N.Num
  assigned [] k d = d
  assigned (e ∷ es) k d = assigned es k (if raw_equal N e.0 k then e.1 else d)

  -- the nodes that the assignments may take
  abbrev pub costs : Table N.Num → List (Entry N.Num) → ℕ
  costs t [] = 0
  costs t (e ∷ es) = cost hashing t e.0 + costs t es

  pub costs_size :
      (t t' : Table N.Num) (es : List (Entry N.Num))
      → length t'.array ≡ length t.array
      → costs t' es ≡ costs t es
  costs_size t t' [] h = refl
  costs_size t t' (e ∷ es) h =
      omega
        (arith, ap (node_of hashing) (array_index_size hashing t t' e.0 h), costs_size t t' es h)

  -- the nodes with a value, from the last one down
  abbrev pub node_entries : ℕ → List (Node N.Num) → List (Entry N.Num)
  node_entries zero nodes = []
  node_entries (suc i) nodes =
      let rest = node_entries i nodes in
      if is_nil (node_at nodes i).i_val
      then rest
      else ((node_at nodes i).i_key, (node_at nodes i).i_val) ∷ rest

  -- the values of the vanishing slice, from the index `i` on
  abbrev pub array_entries : ℕ → List (Value N.Num) → ℕ → List (Entry N.Num)
  array_entries zero array i = []
  array_entries (suc k) array i =
      let rest = array_entries k array (i + 1) in
      let v = get_or array i nil in
      if is_nil v then rest else (number (N.of_int (pos (i + 1))), v) ∷ rest

  pub record Refilled (t t' : Table N.Num) (es : List (Entry N.Num)) (m : ℕ) : Type 0 where
    pub valid : IsValid hashing t'
    pub room : HasRoom hashing m t'
    pub same_array : length t'.array ≡ length t.array
    pub reads :
        (k : Value N.Num) → IsKey hashing k → read hashing t' k ≡ assigned es k (read hashing t k)

  -- `luaH_setnum` is `luaH_set` of the number
  setnum-set :
      (t : Table N.Num) (z : ℤ)
      → IsInt z
      → luah_setnum hashing t z ≡ luah_set hashing t (number (N.of_int z))
  unfolding luah_setnum luah_set luah_get
  setnum-set t z int =
      let exact = hashing.of_int_eq z in
      let back = N.to_int_of_int z int in
      elim (Option-cases (luah_getnum hashing t z)) [
        | inl nowhere ↦ rw (luah_setnum, luah_set, back, exact, nowhere) (rw exact refl)
        | inr (slot, there) ↦ rw (luah_setnum, luah_set, back, exact, there) refl
      ]

  -- `luaH_setstr` is `luaH_set` of the string
  setstr-set : (t : Table N.Num) (s : Bytes) → luah_setstr hashing t s ≡ luah_set hashing t (str s)
  unfolding luah_setstr luah_set luah_get
  setstr-set t s = elim (Option-cases (luah_getstr hashing t s)) [
    | inl nowhere ↦ rw (luah_setstr, luah_set, nowhere) refl
    | inr (slot, there) ↦ rw (luah_setstr, luah_set, there) refl
  ]

  module _ (again : Table N.Num → Value N.Num → Setting N.Num → Setting N.Num)
      (passes : (t : Table N.Num) (key : Value N.Num) (slot : Slot) (t' : Table N.Num)
        → again t key (placed slot t') ≡ placed slot t') where
    unfoldable pub refill : List (Entry N.Num) → Table N.Num → Resized N.Num
    refill [] t = resized t
    refill (e ∷ es) t = elim (store_value (again t e.0 (luah_set hashing t e.0)) e.1) [
      | stopped s ↦ stopped s
      | resized t' ↦ refill es t'
    ]

    nothing : (m : ℕ) → 0 + m ≡ m
    nothing m = omega arith

    pub refill_room :
        (es : List (Entry N.Num)) (m : ℕ) (t : Table N.Num)
        → IsValid hashing t
        → Each (λ e. IsKey hashing e.0) es
        → HasRoom hashing (costs t es + m) t
        → (t' : Table N.Num) × (refill es t ≡ resized t') × Refilled t t' es m
    unfolding refill
    refill_room [] m t valid keys room = (
      t,
      refl,
      record {
        valid = valid;
        room = subst (λ n. HasRoom hashing n t) (nothing m) room;
        same_array = refl;
        reads = λ k h. refl;
      },
    )
    refill_room (e ∷ es) m t valid keys room =
        let split : costs t (e ∷ es) + m ≡ cost hashing t e.0 + (costs t es + m) = omega arith in
        let (slot, t', (set, valid', room', same, reads')) =
          luah_set_room hashing (costs t es + m) t e.0 e.1 valid keys.0
            (subst (λ n. HasRoom hashing n t) split room) in
        let t₁ = put slot e.1 t' in
        let (t'', run, rest) =
          refill_room es m t₁ valid' keys.1
            (subst (λ n. HasRoom hashing (n + m) t₁) (sym (costs_size t t₁ es same)) room') in
        (
          t'',
          rw (refill, set, passes t e.0 slot t') run,
          record {
            valid = rest.valid;
            room = rest.room;
            same_array = rest.same_array ∙ same;
            reads = λ k h. rest.reads k h ∙ ap (assigned es k) (reads' k h);
          },
        )

    pub reinsert_nodes-refill :
        (i : ℕ) (nodes : List (Node N.Num)) (t : Table N.Num)
        → reinsert_nodes hashing again i nodes t ≡ refill (node_entries i nodes) t
    unfolding reinsert_nodes refill
    reinsert_nodes-refill zero nodes t = refl
    reinsert_nodes-refill (suc i) nodes t = elim (Bool-cases (is_nil (node_at nodes i).i_val)) [
      | inl empty ↦ rw (reinsert_nodes, empty) (reinsert_nodes-refill i nodes t)
      | inr some_val ↦
          let x = node_at nodes i in
          rw (reinsert_nodes, some_val)
            (then_same (store_value (again t x.i_key (luah_set hashing t x.i_key)) x.i_val)
              (reinsert_nodes hashing again i nodes) (refill (node_entries i nodes))
              (reinsert_nodes-refill i nodes))
    ]

    pub reinsert_array-refill :
        (k : ℕ) (array : List (Value N.Num)) (i : ℕ) (t : Table N.Num)
        → i + k < 2 ^ 31
        → reinsert_array hashing again k array i t ≡ refill (array_entries k array i) t
    unfolding reinsert_array refill
    reinsert_array-refill zero array i t h = refl
    reinsert_array-refill (suc k) array i t h = elim (Bool-cases (is_nil (get_or array i nil))) [
      | inl empty ↦
          rw (reinsert_array, empty) (reinsert_array-refill k array (i + 1) t (omega arith))
      | inr some_val ↦
          let key = number (N.of_int (pos (i + 1))) in
          rw (reinsert_array, some_val, setnum-set t (pos (i + 1)) (omega arith))
            (then_same (store_value (again t key (luah_set hashing t key)) (get_or array i nil))
              (reinsert_array hashing again k array (i + 1))
              (refill (array_entries k array (i + 1)))
              (λ t'. reinsert_array-refill k array (i + 1) t' (omega arith)))
    ]
