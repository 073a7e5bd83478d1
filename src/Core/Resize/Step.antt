-- ===== src/Core/Resize/Step.antt =====
-- One assignment to a table with room for it: `luaH_set` finds a slot.
use luascript.Prelude.{
  ℕ, ◌+◌, ◌≤◌, ◌≡◌, refl, ap, ◌∙◌, sym, subst, inl, inr, Option, none, some, length, arith,
  if◌then◌else◌, length-set,
}
use luascript.Core.Value.{Number, Value}
use luascript.Core.Hash.{
  raw_equal, Hashing, Table, Slot, in_array, in_node, placed, is_nil, put, luah_set,
}
use luascript.Core.Hash.WellFormed.{key_at, IsKey, Used}
use luascript.Core.Hash.Insert.{IsTable, Inserts}
use luascript.Core.Hash.Put.{same_key, same_size, was_used}
use luascript.Core.Hash.Get.{array_index, read}
use luascript.Core.Hash.Set.{set-cases}
use luascript.Core.Hash.Written.{Owns, put-IsTable, put-read, array_index_size}
use luascript.Core.Resize.Room.{uses, uses_le, uses_one_more, HasRoom, HasRoom-not_full}

module _ {N : Number} (hashing : Hashing N) where
  -- no key of the hash part belongs to the array part
  pub record IsValid (t : Table N.Num) : Type 0 where
    pub table : IsTable hashing t
    pub away : (q : ℕ) → Used hashing t.node q → array_index hashing t (key_at t.node q) ≡ none

  -- the nodes that an assignment may take
  abbrev pub node_of : Option ℕ → ℕ
  node_of (some i) = 0
  node_of none = 1

  abbrev pub cost : Table N.Num → Value N.Num → ℕ
  cost t key = node_of (array_index hashing t key)

  -- what an assignment keeps
  record Follows (c : ℕ) (t t' : Table N.Num) : Type 0 where
    valid : IsValid t'
    same_nodes : length t'.node ≡ length t.node
    same_array : length t'.array ≡ length t.array
    same_dummy : t'.dummy ≡ t.dummy
    more : uses t'.node ≤ uses t.node + c

  HasRoom-Follows :
      (c m : ℕ) (t t' : Table N.Num)
      → Follows c t t'
      → HasRoom hashing (c + m) t
      → HasRoom hashing m t'
  unfolding HasRoom
  HasRoom-Follows c m t t' follows (inl e) = inl (omega arith)
  HasRoom-Follows c m t t' follows (inr (real, room)) =
      inr (follows.same_dummy ∙ real, omega (arith, room, follows.more, follows.same_nodes))

  Follows-refl : (c : ℕ) (t : Table N.Num) → IsValid t → Follows c t t
  Follows-refl c t valid = record {
    valid = valid;
    same_nodes = refl;
    same_array = refl;
    same_dummy = refl;
    more = omega arith;
  }

  Follows-Inserts :
      (t : Table N.Num) (key : Value N.Num) (p : ℕ) (t' : Table N.Num)
      → IsValid t
      → array_index hashing t key ≡ none
      → Inserts hashing t key p t'
      → Follows 1 t t'
  Follows-Inserts t key p t' valid outside inserts =
      let same : (k : Value N.Num) → array_index hashing t' k ≡ array_index hashing t k =
        λ k. array_index_size hashing t t' k (ap length inserts.same_array) in
      record {
        valid = record {
          table = inserts.valid;
          away = λ q used. elim (inserts.origin q used) [
            | inl new ↦ same (key_at t'.node q) ∙ ap (array_index hashing t) new ∙ outside
            | inr (q', used', old) ↦
                same (key_at t'.node q) ∙ ap (array_index hashing t) old ∙ valid.away q' used'
          ];
        };
        same_nodes = inserts.same_size;
        same_array = ap length inserts.same_array;
        same_dummy = inserts.same_dummy;
        more =
            let (f, others) = inserts.one_more in
            uses_one_more t.node t'.node f inserts.same_size others;
      }

  Follows-put :
      (c : ℕ) (t t' : Table N.Num) (key : Value N.Num) (slot : Slot) (v : Value N.Num)
      → Follows c t t'
      → Owns hashing t' key slot
      → Follows c t (put slot v t')
  unfolding put
  Follows-put c t t' key (in_array i) v follows owns = record {
    valid = record {
      table = put-IsTable hashing t' key (in_array i) v follows.valid.table owns;
      away = λ q used.
          array_index_size hashing t' (put (in_array i) v t') (key_at t'.node q)
            (length-set t'.array i v)
          ∙ follows.valid.away q used;
    };
    same_nodes = follows.same_nodes;
    same_array = length-set t'.array i v ∙ follows.same_array;
    same_dummy = follows.same_dummy;
    more = follows.more;
  }
  Follows-put c t t' key (in_node p) v follows (outside, p_in, used, own) =
      let wf = follows.valid.table.nodes in
      let keys = same_key hashing t'.node p v wf p_in used in
      let size = same_size hashing t'.node p v wf p_in used in
      record {
        valid = record {
          table =
              put-IsTable hashing t' key (in_node p) v follows.valid.table
                (outside, p_in, used, own);
          away = λ q used'.
              array_index_size hashing t' (put (in_node p) v t')
                (key_at (put (in_node p) v t').node q) refl
              ∙ ap (array_index hashing t') (keys q)
              ∙ follows.valid.away q (was_used hashing t'.node p v wf p_in used q used');
        };
        same_nodes = size ∙ follows.same_nodes;
        same_array = follows.same_array;
        same_dummy = follows.same_dummy;
        more =
            let same =
              uses_le t'.node (put (in_node p) v t').node size (λ q e. ap is_nil (keys q) ∙ e) in
            omega (arith, same, follows.more);
      }

  abbrev pub Assigned : ℕ → Table N.Num → Value N.Num → Value N.Num → Slot → Table N.Num → Type 0
  Assigned m t key v slot t' =
      (luah_set hashing t key ≡ placed slot t')
      × IsValid (put slot v t')
      × HasRoom hashing m (put slot v t')
      × (length (put slot v t').array ≡ length t.array)
      × ((k : Value N.Num)
          → IsKey hashing k
          → read hashing (put slot v t') k ≡ (if raw_equal N key k then v else read hashing t k))

  pub luah_set_room :
      (m : ℕ) (t : Table N.Num) (key v : Value N.Num)
      → IsValid t
      → IsKey hashing key
      → HasRoom hashing (cost t key + m) t
      → (slot : Slot) × (t' : Table N.Num) × Assigned m t key v slot t'
  luah_set_room m t key v valid is_key room = elim (set-cases hashing t key valid.table is_key) [
    | inl (e, no_place, missing, outside) ↦ absurd (
        HasRoom-not_full hashing t (1 + m) (omega arith)
          (subst (λ o. HasRoom hashing (node_of o + m) t) outside room) no_place)
    | inr (slot, t', e, valid', owns, same_read, how) ↦
        let follows : Follows (cost t key) t t' = elim how [
          | inr (p, outside, inserts) ↦
              subst (λ o. Follows (node_of o) t t') (sym outside)
                (Follows-Inserts t key p t' valid outside inserts)
          | inl same ↦ subst (Follows (cost t key) t) (sym same) (Follows-refl (cost t key) t valid)
        ] in
        let after = Follows-put (cost t key) t t' key slot v follows owns in
        (
          slot,
          t',
          (
            e,
            after.valid,
            HasRoom-Follows (cost t key) m t (put slot v t') after room,
            after.same_array,
            λ k h.
                put-read hashing t' key v valid' k h slot owns
                ∙ ap (λ x. if raw_equal N key k then v else x) (same_read k h),
          ),
        )
  ]
