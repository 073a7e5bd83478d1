-- ===== src/Core/Search.antt =====
-- The search for a plain string in another: `lmemfind` of luascript/lua/lstrlib.c. A pointer with a length
-- is the list of the bytes behind it, and what is found is an offset; `none` is NULL.
pub mod First
use mathlib.Core.Option
use luascript.Prelude.{
  ℕ, zero, suc, ◌+◌, ◌-◌, Option, none, some, [], ◌∷◌, ◌==◌, ltb, if◌then◌else◌, length, take, drop,
}
use luascript.Prelude.Bytes.{Bytes, bytes_eq}

-- of the C library: the first `c` among `n` bytes
unfoldable pub memchr : ℕ → ℕ → Bytes → Option ℕ
memchr c zero s = none
memchr c (suc n) [] = none
memchr c (suc n) (x ∷ s) =
    let later = Option.map suc (memchr c n s) in if x == c then some 0 else later

-- the loop, with rounds left: `s1` at the offset `at`, `l1` places to look at, and `c` with `rest` for `s2`
unfoldable pub lmemfind_loop : ℕ → ℕ → Bytes → ℕ → Bytes → ℕ → Option ℕ
unfolding memchr
lmemfind_loop zero c rest at s1 l1 = none
lmemfind_loop (suc k) c rest at s1 l1 = elim (memchr c l1 s1) [
  | none ↦ none
  | some i ↦
      let init = drop (i + 1) s1 in
      let again = lmemfind_loop k c rest (at + (i + 1)) init (l1 - (i + 1)) in
      if bytes_eq (take (length rest) init) rest then some (at + i) else again
]

unfoldable pub lmemfind : Bytes → Bytes → Option ℕ
unfolding lmemfind_loop
lmemfind s1 [] = some 0
lmemfind s1 (c ∷ rest) =
    let l1 = length s1 - length rest in
    if ltb (length s1) (length rest + 1) then none else lmemfind_loop l1 c rest 0 s1 l1
