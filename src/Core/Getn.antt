-- ===== src/Core/Getn.antt =====
-- The length of a table, `luaH_getn` and `unbound_search` of luascript/lua/ltable.c. An `unsigned int`
-- is a number, and what is computed with it is taken modulo 2 ^ 32.
pub mod Border
pub mod Free
pub mod Search
use luascript.Prelude.{
  ℕ, zero, suc, ◌+◌, ◌-◌, ◌*◌, ◌/◌, ◌%◌, ◌^◌, Bool, true, false, not, ◌&&◌, Option, none, some, ltb,
  if◌then◌else◌, length, get_or,
}
use luascript.Prelude.Int.{pos}
use luascript.Core.Value.{Number, Value, nil}
use luascript.Core.Strings.{max_int}
use luascript.Core.Hash.{Hashing, Table, Slot, is_nil, value_at, luah_getnum}

-- `while (j - i > 1)`, a binary search for a border between i and j: once in the array part and once in
-- the whole table, told by `used`. On the rounds left; `none` is fuel run out.
unfoldable pub border_loop : ℕ → (ℕ → Bool) → ℕ → ℕ → Option ℕ
border_loop zero used i j = none
border_loop (suc k) used i j =
    let m = (i + j) % 2 ^ 32 / 2 in
    let lower = border_loop k used i m in
    let upper = border_loop k used m j in
    if ltb 1 (j - i) then if used m then upper else lower else some i

-- `while (!ttisnil(luaH_getnum(t, i))) i++; return i - 1`, on the rounds left
unfoldable pub linear_search : ℕ → (ℕ → Bool) → ℕ → Option ℕ
linear_search zero used i = none
linear_search (suc k) used i =
    let later = linear_search k used (i + 1) in if used i then later else some (i - 1)

-- the loop of `unbound_search` that doubles j, and what follows it; on the rounds left
unfoldable pub doubling_loop : ℕ → (ℕ → Bool) → ℕ → ℕ → Option ℕ
unfolding border_loop
doubling_loop zero used i j = none
doubling_loop (suc k) used i j =
    let doubled = j * 2 % 2 ^ 32 in
    let further = doubling_loop k used j doubled in
    let overflow = linear_search (2 ^ 31 - 1) used 1 in
    if used j
    then if ltb max_int doubled then overflow else further
    else border_loop (suc (j - i)) used i j

unfoldable pub unbound_search : (ℕ → Bool) → ℕ → Option ℕ
unfolding doubling_loop
unbound_search used j = doubling_loop 32 used j ((j + 1) % 2 ^ 32)

module _ {N : Number} (hashing : Hashing N) where
  abbrev pub pointed : Table N.Num → Option Slot → Value N.Num
  pointed t none = nil
  pointed t (some s) = value_at t s

  -- `!ttisnil(luaH_getnum(t, i))`
  unfoldable pub getnum_used : Table N.Num → ℕ → Bool
  unfolding luah_getnum value_at
  getnum_used t i = not (is_nil (pointed t (luah_getnum hashing t (pos i))))

  -- `!ttisnil(&t->array[m - 1])`
  abbrev pub array_used : Table N.Num → ℕ → Bool
  array_used t m = not (is_nil (get_or t.array (m - 1) nil))

  unfoldable pub luah_getn : Table N.Num → Option ℕ
  unfolding border_loop unbound_search getnum_used
  luah_getn t =
      let j = length t.array in
      let in_hash = if t.dummy then some j else unbound_search (getnum_used t) j in
      if ltb 0 j && not (array_used t j) then border_loop (suc j) (array_used t) 0 j else in_hash
