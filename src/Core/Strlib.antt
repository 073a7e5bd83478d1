-- ===== src/Core/Strlib.antt =====
-- Functions of the string library, luascript/lua/lstrlib.c, on arguments that are checked: an optional one
-- that is absent is `none`. Strings are shorter than 2 ^ 63, so that a `ptrdiff_t` is an integer. What a
-- function builds in a buffer of `size` bytes is the top of the stack behind `luaL_pushresult`.
pub mod Sub
pub mod Built
use luascript.Prelude.{
  ℕ, zero, suc, ◌+◌, ◌-◌, Option, none, some, List, [], ◌∷◌, ltb, leb, if◌then◌else◌, length,
  get_or, take, drop,
}
use luascript.Prelude.Bytes.{Bytes}
use luascript.Prelude.Int.{ℤ, pos, negsuc, pos_part, ◌+ℤ◌}
use luascript.Core.Buffer.{Buffer, lual_buffinit, lual_addchar, lual_addlstring, lual_pushresult}

-- the result is not negative
unfoldable pub posrelat : ℤ → ℕ → ℕ
posrelat (pos n) len = n
posrelat (negsuc n) len = pos_part (negsuc n +ℤ pos (len + 1))

abbrev pub opt_integer : Option ℤ → ℤ → ℤ
opt_integer none default_ = default_
opt_integer (some z) default_ = z

unfoldable pub str_sub : Bytes → ℤ → Option ℤ → Bytes
unfolding posrelat
str_sub s i j =
    let l = length s in
    let start = posrelat i l in
    let end_ = posrelat (opt_integer j (negsuc 0)) l in
    let start' = if ltb start 1 then 1 else start in
    let end' = if ltb l end_ then l else end_ in
    if leb start' end' then take (end' - start' + 1) (drop (start' - 1) s) else []

module _ (size : ℕ) where
  -- `while (l--) luaL_addchar(&b, s[l]);`
  unfoldable pub reverse_loop : Bytes → ℕ → Buffer → Buffer
  unfolding lual_addchar
  reverse_loop s zero b = b
  reverse_loop s (suc l) b = reverse_loop s l (lual_addchar size (get_or s l 0) b)

  unfoldable pub str_reverse : Bytes → List Bytes
  unfolding reverse_loop lual_pushresult
  str_reverse s = (lual_pushresult (reverse_loop s (length s) lual_buffinit)).stack

  -- the loop of `str_lower` and of `str_upper`, with the function of the C library that they call
  unfoldable pub convert_loop : (ℕ → ℕ) → Bytes → Buffer → Buffer
  unfolding lual_addchar
  convert_loop f [] b = b
  convert_loop f (c ∷ s) b = convert_loop f s (lual_addchar size (f c) b)

  unfoldable pub str_convert : (ℕ → ℕ) → Bytes → List Bytes
  unfolding convert_loop lual_pushresult
  str_convert f s = (lual_pushresult (convert_loop f s lual_buffinit)).stack

  -- `while (n-- > 0) luaL_addlstring(&b, s, l);`
  unfoldable pub rep_loop : Bytes → ℕ → Buffer → Buffer
  unfolding lual_addlstring
  rep_loop s zero b = b
  rep_loop s (suc n) b = rep_loop s n (lual_addlstring size s b)

  unfoldable pub str_rep : Bytes → ℤ → List Bytes
  unfolding rep_loop lual_pushresult
  str_rep s n = (lual_pushresult (rep_loop s (pos_part n) lual_buffinit)).stack
