-- ===== src/Core/Table.antt =====
-- The array part of a table: luascript/lua/ltable.c chooses its size in `computesizes` from the number
-- of integer keys in each slice (2 ^ (i - 1), 2 ^ i], counted by `numusearray`. An `int` is a natural number here: all counts and sizes are at most 2 ^ MAXBITS.
pub mod Sizes
use luascript.Prelude.{
  ℕ, zero, suc, ◌+◌, ◌-◌, ◌*◌, ◌/◌, ◌<◌, Bool, true, false, not, Option, none, some, List, [], ◌∷◌,
  ltb, ◌==◌, ◌&&◌, if◌then◌else◌, length, get_or,
}

-- The loop of `computesizes` over what is left of `nums`, with twotoi, a, na and n, then (na, n).
-- `none` is a read behind the end of `nums`.
unfoldable pub computesizes_loop : List ℕ → (narray twotoi a na n : ℕ) → Option (ℕ × ℕ)
computesizes_loop [] narray twotoi a na n = if ltb (twotoi / 2) narray then none else some (na, n)
computesizes_loop (c ∷ nums) narray twotoi a na n =
    let a' = a + c in
    let better = ltb 0 c && ltb (twotoi / 2) a' in
    let na' = if better then a' else na in
    let n' = if better then twotoi else n in
    let rest = computesizes_loop nums narray (twotoi * 2) a' na' n' in
    if ltb (twotoi / 2) narray then if a' == narray then some (na', n') else rest else some (na, n)

-- the result and the new `*narray`
unfoldable pub computesizes : List ℕ → ℕ → Option (ℕ × ℕ)
unfolding computesizes_loop
computesizes nums narray = computesizes_loop nums narray 1 0 0 0
