-- ===== src/Core/Next.antt =====
-- The traversal of a table: luaH_next of luascript/lua/ltable.c, which goes from one key to the following
-- one. The element with index -1 is the start. Dead keys, which the collector leaves, are left out.
pub mod Traverse
use luascript.Prelude.{
  ℕ, zero, suc, ◌+◌, ◌-◌, Bool, true, false, Option, none, some, List, [], ◌∷◌, if◌then◌else◌,
  length, get_or, leb,
}
use luascript.Prelude.Int.{ℤ, pos, negsuc}
use luascript.Core.Value.{Number, Value, nil, number}
use luascript.Core.Hash.{
  raw_equal, Hashing, Node, Table, is_nil, node_at, walk, mainposition, sizenode, in_range,
}
use luascript.Core.Resize.{arrayindex}

-- what `luaH_next` gives: the following key and its value, the end, or the error "invalid key to 'next'"
pub data Next (Num : Type 0) : Type 0 where
  next_entry : Value Num → Value Num → Next Num
  finished : Next Num
  invalid_key : Next Num

module _ {N : Number} (hashing : Hashing N) where
  abbrev pub before : ℤ → ℤ
  before (pos (suc i)) = pos i
  before _ = negsuc 0

  abbrev pub node_index : ℕ → Option ℕ → Option ℤ
  node_index size none = none
  node_index size (some q) = some (pos (q + size))

  -- `none` is the error
  unfoldable pub findindex : Table N.Num → Value N.Num → Option ℤ
  unfolding walk mainposition
  findindex t nil = some (negsuc 0)
  findindex t key =
      let i = arrayindex hashing key in
      let n = mainposition hashing (sizenode t) key in
      if in_range hashing i (length t.array)
      then some (before i)
      else node_index (length t.array) (walk (sizenode t) (λ x. raw_equal N x.i_key key) t.node n)

  -- the loop over the hash part, on the rounds left
  unfoldable pub next_node : ℕ → List (Node N.Num) → ℕ → Next N.Num
  next_node zero nodes i = finished
  next_node (suc k) nodes i =
      let rest = next_node k nodes (i + 1) in
      if is_nil (node_at nodes i).i_val
      then rest
      else next_entry (node_at nodes i).i_key (node_at nodes i).i_val

  -- the loop over the array part, on the rounds left, and what follows it
  unfoldable pub next_slot : ℕ → List (Value N.Num) → ℕ → Next N.Num → Next N.Num
  next_slot zero array i after = after
  next_slot (suc k) array i after =
      let rest = next_slot k array (i + 1) after in
      if is_nil (get_or array i nil)
      then rest
      else next_entry (number (N.of_int (pos (i + 1)))) (get_or array i nil)

  -- both loops from the index `i`
  unfoldable pub next_from : Table N.Num → ℕ → Next N.Num
  unfolding next_slot next_node
  next_from t i =
      let size = length t.array in
      let j = if leb size i then i - size else 0 in
      next_slot (size - i) t.array i (next_node (sizenode t - j) t.node j)

  abbrev pub next_index : ℤ → ℕ
  next_index (pos i) = i + 1
  next_index (negsuc i) = 0

  unfoldable pub luah_next : Table N.Num → Value N.Num → Next N.Num
  unfolding findindex next_from
  luah_next t key = elim (findindex t key) [
    | none ↦ invalid_key
    | some i ↦ next_from t (next_index i)
  ]
