-- ===== src/Tests/Hash.antt =====
-- Tables with integers for numbers: keys that collide, a node that moves, a full table that grows.
pub mod Getn
use luascript.Prelude.{
  ℕ, length, ◌+◌, ◌≤◌, zero, suc, ◌≡◌, subst, sym, refl, ap, ◌∙◌, ◌⊎◌, true, false, none, some, [],
  ◌∷◌, arith, if◌then◌else◌, map,
}
use luascript.Prelude.Bytes.{codes}
use luascript.Prelude.Int.{ℤ, pos, negsuc, pos_part, neg_part, ◌+ℤ◌}
use luascript.Core.Object.{log2, ceillog2}
use luascript.Core.Value.{Value, nil, number, str}
use luascript.Core.Hash.{
  Hashing, Table, placed, full, raised, undefined, Slot, in_node, raw_equal, put, newkey, luah_set,
}
use luascript.Core.Hash.WellFormed.{IsKey, key_at}
use luascript.Core.Hash.Insert.{IsTable, IsFull, Inserts, newkey-Inserts}
use luascript.Core.Hash.Get.{read, array_index}
use luascript.Core.Hash.Set.{luah_set-read, luah_set-IsTable}
use luascript.Core.Resize.{
  Resized, resized, stopped, set_in, finish, table_resize, exponent, maxbits,
}
use luascript.Core.Resize.Room.{HasRoom}
use luascript.Core.Resize.Step.{IsValid}
use luascript.Core.Resize.Whole.{needed, table_resize-read}
use luascript.Core.Next.Traverse.{traverse, traverse-contents, contents, positions_of}
use luascript.Core.Resize.Fresh.{fresh, fresh-IsTable}
use luascript.Tests.{integers, same_integer}

same_parts : (a b : ℤ) → same_integer a b ≡ true → a ≡ b
same_parts (pos i) (pos j) h = ap pos (ground arith)
same_parts (negsuc i) (negsuc j) h = ap negsuc (ground arith)
same_parts (pos i) (negsuc j) h = ground arith
same_parts (negsuc i) (pos j) h = ground arith

same_integer_refl : (a : ℤ) → same_integer a a ≡ true
same_integer_refl a = ground arith

same_integer_sym : (a b : ℤ) → same_integer a b ≡ true → same_integer b a ≡ true
same_integer_sym a b h = ground arith

same_integer_trans :
    (a b c : ℤ) → same_integer a b ≡ true → same_integer b c ≡ true → same_integer a c ≡ true
same_integer_trans a b c h k = ground arith

abbrev hashing : Hashing integers
hashing = record {
  words = λ z. pos_part z ∷ neg_part z ∷ [];
  num_eq_sym = same_integer_sym;
  num_eq_trans = same_integer_trans;
  words_eq = λ a b h k. ap (λ z. pos_part z ∷ neg_part z ∷ []) (same_parts a b h);
  to_int_eq = same_parts;
  of_int_eq = same_integer_refl;
}

abbrev no_table : Table ℤ
no_table = record { array = []; node = []; lastfree = 0; dummy = true }

abbrev table_in : Resized ℤ → Table ℤ
table_in (resized t) = t
table_in (stopped s) = no_table

abbrev int : ℕ → Value ℤ
int n = number (pos n)

-- four nodes and no array part; of its integer keys, 1, 4 and 7 have the main position 1
abbrev four : Table ℤ
four = fresh hashing no_table 4

unfoldable assign : Table ℤ → Value ℤ → Value ℤ → Table ℤ
unfolding luah_set put
assign t key v = elim (luah_set hashing t key) [
  | placed slot t' ↦ put slot v t'
  | full ↦ no_table
  | raised m ↦ no_table
  | undefined ↦ no_table
]

-- the keys 1, 4 and 7 in one chain: 7 is in node 2, and node 0 is free
abbrev one_key : Table ℤ
unfolding assign
one_key = assign four (int 1) (str (codes "a"))

abbrev two_keys : Table ℤ
unfolding assign
two_keys = assign one_key (int 4) (str (codes "b"))

abbrev chained_keys : Table ℤ
unfolding assign
chained_keys = assign two_keys (int 7) (str (codes "c"))

IsKey-check : (n : ℕ) → IsKey hashing (int n)
IsKey-check n = (refl, ground arith)

one_key-IsTable : IsTable hashing one_key
unfolding luah_set put assign
one_key-IsTable =
    luah_set-IsTable hashing four (int 1) (str (codes "a")) (in_node 1) _
      (fresh-IsTable hashing no_table 4 (omega arith)) (IsKey-check 1) refl

two_keys-IsTable : IsTable hashing two_keys
unfolding luah_set put assign
two_keys-IsTable =
    luah_set-IsTable hashing one_key (int 4) (str (codes "b")) (in_node 3) _ one_key-IsTable
      (IsKey-check 4) refl

chained_keys-IsTable : IsTable hashing chained_keys
unfolding luah_set put assign
chained_keys-IsTable =
    luah_set-IsTable hashing two_keys (int 7) (str (codes "c")) (in_node 2) _ two_keys-IsTable
      (IsKey-check 7) refl

-- the key 2 has node 2 for its main position: 7 moves away, and is still found
abbrev moved_keys : Table ℤ
unfolding assign
moved_keys = assign chained_keys (int 2) (str (codes "d"))

moved_nodes :
    (map (λ n. n.i_key) moved_keys.node ≡ int 7 ∷ int 1 ∷ int 2 ∷ int 4 ∷ [])
    × (map (λ n. n.next) moved_keys.node ≡ some 3 ∷ some 0 ∷ none ∷ none ∷ [])
unfolding luah_set put assign
moved_nodes = (refl, refl)

moved_reads :
    map (read hashing moved_keys) (int 1 ∷ int 4 ∷ int 7 ∷ int 2 ∷ int 5 ∷ [])
    ≡ str (codes "a") ∷ str (codes "b") ∷ str (codes "c") ∷ str (codes "d") ∷ nil ∷ []
unfolding luah_set put assign read
moved_reads = refl

no_place : luah_set hashing moved_keys (int 9) ≡ full
unfolding luah_set put assign
no_place = refl

no_nil_key : luah_set hashing moved_keys nil ≡ raised (codes "table index is nil")
unfolding luah_set put assign
no_nil_key = refl

-- after `rehash`: 1, 2 and 4 are in the array part, 7 and 9 in the hash part
abbrev grown_keys : Table ℤ
unfolding assign
grown_keys = elim (set_in hashing 1 moved_keys (int 9)) [
  | placed slot t ↦ put slot (str (codes "e")) t
  | full ↦ no_table
  | raised m ↦ no_table
  | undefined ↦ no_table
]

grown_parts :
    (grown_keys.array ≡ str (codes "a") ∷ str (codes "d") ∷ nil ∷ str (codes "b") ∷ [])
    × (map (λ n. n.i_key) grown_keys.node ≡ int 7 ∷ int 9 ∷ [])
unfolding luah_set put assign finish ◌+ℤ◌ log2
grown_parts = (refl, refl)

luah_set-read_example :
    ((luah_set hashing chained_keys (int 2) ≡ full)
      × IsFull hashing chained_keys
      × (read hashing chained_keys (int 2) ≡ nil))
    ⊎ ((slot : Slot) × (t' : Table ℤ) × (luah_set hashing chained_keys (int 2) ≡ placed slot t')
        × IsTable hashing (put slot (str (codes "d")) t')
        × (read hashing (put slot (str (codes "d")) t') (int 7) ≡ (
            if raw_equal integers (int 2) (int 7)
            then str (codes "d")
            else read hashing chained_keys (int 7))))
luah_set-read_example =
    luah_set-read hashing chained_keys (int 2) (str (codes "d")) chained_keys-IsTable
      (IsKey-check 2) (int 7) (IsKey-check 7)

no_two :
    (q : ℕ)
    → IsKey hashing (key_at chained_keys.node q)
    → raw_equal integers (key_at chained_keys.node q) (int 2) ≡ false
unfolding luah_set put assign
no_two zero h = refl
no_two (suc zero) h = refl
no_two (suc (suc zero)) h = refl
no_two (suc (suc (suc zero))) h = refl
no_two (suc (suc (suc (suc q)))) h = refl

newkey-Inserts_example :
    ((newkey hashing chained_keys (int 2) ≡ full) × IsFull hashing chained_keys)
    ⊎ ((p : ℕ) × (t' : Table ℤ) × (newkey hashing chained_keys (int 2) ≡ placed (in_node p) t')
        × Inserts hashing chained_keys (int 2) p t')
newkey-Inserts_example =
    newkey-Inserts hashing chained_keys (int 2) chained_keys-IsTable (IsKey-check 2) no_two

moved_keys-IsTable : IsTable hashing moved_keys
unfolding luah_set put assign
moved_keys-IsTable =
    luah_set-IsTable hashing chained_keys (int 2) (str (codes "d")) (in_node 2) _
      chained_keys-IsTable (IsKey-check 2) refl

no_slot : (k : Value ℤ) → array_index hashing moved_keys k ≡ none
unfolding luah_set put assign
no_slot (number (pos zero)) = ground arith
no_slot (number (pos (suc n))) = ground arith
no_slot (number (negsuc n)) = ground arith
no_slot k = refl

moved_keys-IsValid : IsValid hashing moved_keys
moved_keys-IsValid = record {
  table = moved_keys-IsTable;
  away = λ q used. no_slot (key_at moved_keys.node q);
}

-- 1, 2 and 4 go to the array part; one node is for 7, and one is left
one_needed : needed hashing moved_keys 4 + 1 ≤ 2
unfolding luah_set put assign
one_needed = omega arith

two_fit : exponent (ceillog2 2) ≤ maxbits
unfolding ceillog2 log2 ◌+ℤ◌
two_fit = omega arith

table_resize-read_example :
    (t' : Table ℤ) × (table_resize hashing (finish hashing 0) moved_keys 4 2 ≡ resized t')
    × IsValid hashing t'
    × (length t'.array ≡ 4)
    × HasRoom hashing 1 t'
    × (read hashing t' (int 7) ≡ read hashing moved_keys (int 7))
unfolding finish moved_keys
table_resize-read_example =
    table_resize-read hashing (finish hashing 0) (λ t key slot t'. refl) moved_keys 4 2
      moved_keys-IsValid (omega arith) (omega arith) 1 one_needed two_fit (int 7) (IsKey-check 7)

abbrev resized_keys : Table ℤ
unfolding table_resize
resized_keys = table_in (table_resize hashing (finish hashing 0) moved_keys 4 2)

resized_keys-IsValid : IsValid hashing resized_keys × (length resized_keys.array ≡ 4)
unfolding finish moved_keys table_resize
resized_keys-IsValid =
    let (t', run, valid, size, room, reads) =
      table_resize-read hashing (finish hashing 0) (λ t key slot t'. refl) moved_keys 4 2
        moved_keys-IsValid (omega arith) (omega arith) 1 one_needed two_fit (int 7)
        (IsKey-check 7) in
    let same = ap table_in (sym run) in
    (subst (IsValid hashing) same valid, ap (λ t. length t.array) (sym same) ∙ size)

visited :
    traverse hashing 7 resized_keys nil
    ≡ some (
        (int 1, str (codes "a"))
        ∷ (int 2, str (codes "d"))
        ∷ (int 4, str (codes "b"))
        ∷ (int 7, str (codes "c"))
        ∷ [])
unfolding traverse resized_keys luah_set put assign finish ◌+ℤ◌ log2
visited = refl

traverse-contents_example :
    traverse hashing (suc (positions_of hashing resized_keys)) resized_keys nil
    ≡ some (contents hashing (positions_of hashing resized_keys) resized_keys 0)
traverse-contents_example =
    traverse-contents hashing resized_keys resized_keys-IsValid.0
      (omega (arith, resized_keys-IsValid.1))
