-- ===== src/Core/Resize.antt =====
-- The sizes of a table: luascript/lua/ltable.c makes the parts of a table, counts its keys and puts them
-- in parts of new sizes. An `int` that counts is a natural number; `nums` are its MAXBITS + 1 counters. What
-- the allocator does is left out: it gives the memory. `rehash` ends in `luaH_set`, which may call it
-- again: this is on a number of rounds, after which `full` is left.
pub mod Fresh
pub mod Room
pub mod Step
pub mod Refill
pub mod Entries
pub mod Slots
pub mod Reads
pub mod Whole
use mathlib.Core.Option
use luascript.Prelude.{
  ℕ, zero, suc, ◌+◌, ◌-◌, ◌*◌, ◌^◌, Bool, true, false, not, ◌&&◌, Option, none, some, List, [], ◌∷◌,
  ◌++◌, ◌==◌, ltb, leb, if◌then◌else◌, length, get_or, set, take, replicate,
}
use luascript.Prelude.Bytes.{Bytes, codes}
use luascript.Prelude.Int.{ℤ, pos, negsuc}
use luascript.Core.Value.{Number, Value, nil, number, str}
use luascript.Core.Object.{ceillog2}
use luascript.Core.Table.{computesizes}
use luascript.Core.Hash.{
  Hashing, Node, Table, Slot, Setting, placed, full, raised, undefined, is_nil, blank, node_at, put,
  sizenode, luah_getnum, luah_getstr, newkey, luah_set,
}

abbrev pub maxbits : ℕ
maxbits = 26

abbrev pub maxasize : ℕ
maxasize = 2 ^ maxbits

-- `ceillog2` of a size, which is at least 1
abbrev pub exponent : ℤ → ℕ
exponent (pos n) = n
exponent (negsuc n) = 0

-- a table of new sizes, or what stopped the work
pub data Resized (Num : Type 0) : Type 0 where
  resized : Table Num → Resized Num
  stopped : Setting Num → Resized Num

module _ {Num : Type 0} where
  -- `luaM_reallocvector`, then nil in what is new
  abbrev pub setarrayvector : Table Num → ℕ → Table Num
  setarrayvector t size = record t {
    array = take size t.array ++ replicate (size - length t.array) nil;
  }

  unfoldable pub setnodevector : Table Num → ℕ → Resized Num
  unfolding ceillog2
  setnodevector t size =
      let lsize = exponent (ceillog2 size) in
      if size == 0
      then resized (record t { node = blank ∷ []; lastfree = 0; dummy = true })
      else if ltb maxbits lsize
      then stopped (raised (codes "table overflow"))
      else resized
          (record t { node = replicate (2 ^ lsize) blank; lastfree = 2 ^ lsize; dummy = false })

  abbrev new_table : Table Num
  new_table = record { array = []; node = blank ∷ []; lastfree = 0; dummy = true }

  unfoldable pub luah_new : ℕ → ℕ → Resized Num
  unfolding setnodevector
  luah_new narray nhash = setnodevector (setarrayvector new_table narray) nhash

  -- the values that are not nil from the key `i` on, in a number of rounds
  unfoldable pub count_slice : ℕ → List (Value Num) → ℕ → ℕ
  count_slice zero array i = 0
  count_slice (suc k) array i =
      (if is_nil (get_or array (i - 1) nil) then 0 else 1) + count_slice k array (i + 1)

  -- the loop over the slices, on the rounds left, with lg, ttlg, i and ause
  unfoldable pub numusearray_loop :
      ℕ → List (Value Num) → (lg ttlg i ause : ℕ) → List ℕ → ℕ × List ℕ
  unfolding count_slice
  numusearray_loop zero array lg ttlg i ause nums = (ause, nums)
  numusearray_loop (suc k) array lg ttlg i ause nums =
      let over = ltb (length array) ttlg in
      let lim = if over then length array else ttlg in
      let lc = count_slice (lim + 1 - i) array i in
      let i' = if leb i lim then lim + 1 else i in
      let nums' = set nums lg (get_or nums lg 0 + lc) in
      let rest = numusearray_loop k array (lg + 1) (ttlg * 2) i' (ause + lc) nums' in
      if over && ltb lim i then (ause, nums) else rest

  unfoldable pub numusearray : Table Num → List ℕ → ℕ × List ℕ
  unfolding numusearray_loop
  numusearray t nums = numusearray_loop (maxbits + 1) t.array 0 1 1 0 nums

  -- `setobjt2t(L, …, v)` on what a search for a slot has given
  abbrev pub store_value : Setting Num → Value Num → Resized Num
  store_value (placed slot t) v = resized (put slot v t)
  store_value s v = stopped s

module _ {N : Number} (hashing : Hashing N) where
  abbrev pub arrayindex : Value N.Num → ℤ
  arrayindex (number n) = let k = N.to_int n in if N.num_eq (N.of_int k) n then k else negsuc 0
  arrayindex _ = negsuc 0

  -- `nums[ceillog2(k)]++` for 0 < k <= MAXASIZE; the result and `nums`
  abbrev pub count_key : ℤ → List ℕ → ℕ × List ℕ
  count_key (pos (suc k)) nums =
      let lg = exponent (ceillog2 (suc k)) in
      if leb (suc k) maxasize then (1, set nums lg (get_or nums lg 0 + 1)) else (0, nums)
  count_key _ nums = (0, nums)

  unfoldable pub countint : Value N.Num → List ℕ → ℕ × List ℕ
  unfolding ceillog2
  countint key nums = count_key (arrayindex key) nums

  -- `while (i--)` with totaluse and ause, and `nums`
  unfoldable pub numusehash_loop :
      ℕ → List (Node N.Num) → (totaluse ause : ℕ) → List ℕ → ℕ × ℕ × List ℕ
  unfolding countint
  numusehash_loop zero nodes totaluse ause nums = (totaluse, ause, nums)
  numusehash_loop (suc i) nodes totaluse ause nums =
      let (c, nums') = countint (node_at nodes i).i_key nums in
      let counted = numusehash_loop i nodes (totaluse + 1) (ause + c) nums' in
      let rest = numusehash_loop i nodes totaluse ause nums in
      if is_nil (node_at nodes i).i_val then rest else counted

  -- totaluse, `*pnasize` and `nums`
  unfoldable pub numusehash : Table N.Num → List ℕ → ℕ → ℕ × ℕ × List ℕ
  unfolding numusehash_loop
  numusehash t nums pnasize =
      let (totaluse, ause, nums') = numusehash_loop (sizenode t) t.node 0 0 nums in
      (totaluse, pnasize + ause, nums')

  unfoldable pub luah_setnum : Table N.Num → ℤ → Setting N.Num
  unfolding luah_getnum newkey
  luah_setnum t key = elim (luah_getnum hashing t key) [
    | some slot ↦ placed slot t
    | none ↦ newkey hashing t (number (N.of_int key))
  ]

  unfoldable pub luah_setstr : Table N.Num → Bytes → Setting N.Num
  unfolding luah_getstr newkey
  luah_setstr t key = elim (luah_getstr hashing t key) [
    | some slot ↦ placed slot t
    | none ↦ newkey hashing t (str key)
  ]

  -- The work of `newkey` where it has found the table full is `again`, for the table, the key and what
  -- the search has given.
  module _ (again : Table N.Num → Value N.Num → Setting N.Num → Setting N.Num) where
    -- `for (i=nasize; i<oldasize; i++)`, on the rounds left
    unfoldable pub reinsert_array : ℕ → List (Value N.Num) → ℕ → Table N.Num → Resized N.Num
    unfolding luah_setnum put
    reinsert_array zero array i t = resized t
    reinsert_array (suc k) array i t =
        let v = get_or array i nil in
        let key = pos (i + 1) in
        let written : Resized N.Num =
          elim (store_value (again t (number (N.of_int key)) (luah_setnum t key)) v) [
            | stopped s ↦ stopped s
            | resized t' ↦ reinsert_array k array (i + 1) t'
          ] in
        let rest = reinsert_array k array (i + 1) t in if is_nil v then rest else written

    -- `for (i = twoto(oldhsize) - 1; i >= 0; i--)`
    unfoldable pub reinsert_nodes : ℕ → List (Node N.Num) → Table N.Num → Resized N.Num
    unfolding luah_set put
    reinsert_nodes zero nodes t = resized t
    reinsert_nodes (suc i) nodes t =
        let old = node_at nodes i in
        let written : Resized N.Num =
          elim (store_value (again t old.i_key (luah_set hashing t old.i_key)) old.i_val) [
            | stopped s ↦ stopped s
            | resized t' ↦ reinsert_nodes i nodes t'
          ] in
        let rest = reinsert_nodes i nodes t in if is_nil old.i_val then rest else written

    unfoldable pub table_resize : Table N.Num → ℕ → ℕ → Resized N.Num
    unfolding setnodevector reinsert_array reinsert_nodes
    table_resize t nasize nhsize =
        let oldasize = length t.array in
        let grown = if ltb oldasize nasize then setarrayvector t nasize else t in
        elim (setnodevector grown nhsize) [
          | stopped s ↦ stopped s
          | resized t₁ ↦
              elim (if ltb nasize oldasize
                then reinsert_array (oldasize - nasize) t.array nasize
                    (record t₁ { array = take nasize t.array })
                else resized t₁) [
                  | stopped s ↦ stopped s
                  | resized t₂ ↦ reinsert_nodes (sizenode t) t.node t₂
                ]
        ]

    unfoldable pub luah_resizearray : Table N.Num → ℕ → Resized N.Num
    unfolding table_resize
    luah_resizearray t nasize =
        let nsize = if t.dummy then 0 else sizenode t in table_resize t nasize nsize

    -- `none` of `computesizes` is a read behind the end of `nums`; `na` is at most `totaluse`
    unfoldable pub table_rehash : Table N.Num → Value N.Num → Resized N.Num
    unfolding table_resize numusearray numusehash countint computesizes
    table_rehash t ek =
        let (nasize₀, nums₀) = numusearray t (replicate (maxbits + 1) 0) in
        let (used, nasize₁, nums₁) = numusehash t nums₀ nasize₀ in
        let (c, nums₂) = countint ek nums₁ in
        let totaluse = nasize₀ + used + 1 in
        elim (computesizes nums₂ (nasize₁ + c)) [
          | none ↦ stopped undefined
          | some (na, nasize) ↦ table_resize t nasize (totaluse - na)
        ]

  -- `rehash(L, t, key); return luaH_set(L, t, key);` where the table is full, on a number of rounds
  unfoldable pub finish : ℕ → Table N.Num → Value N.Num → Setting N.Num → Setting N.Num
  unfolding table_rehash luah_set
  finish zero t key s = s
  finish (suc k) t key full = elim (table_rehash (finish k) t key) [
    | stopped s ↦ s
    | resized t' ↦ finish k t' key (luah_set hashing t' key)
  ]
  finish (suc k) t key s = s

  -- `luaH_set` with what `newkey` does in a full table
  abbrev pub set_in : ℕ → Table N.Num → Value N.Num → Setting N.Num
  set_in k t key = finish k t key (luah_set hashing t key)
