-- ===== src/Tests/Strlib.antt =====
-- The string library on concrete strings.
use luascript.Prelude.{◌+◌, ◌≡◌, refl, none, some, [], ◌∷◌, arith}
use luascript.Prelude.Bytes.{codes}
use luascript.Prelude.Int.{pos, negsuc, ◌+ℤ◌}
use luascript.Core.Strlib.{posrelat, str_sub, str_reverse, str_rep, str_convert, convert_loop}
use luascript.Core.Strlib.Sub.{str_sub-middle}
use luascript.Core.Strlib.Built.{copies, reversed, str_reverse_and_rep}
use luascript.Core.Buffer.{
  lual_addchar, lual_pushresult, lual_prepbuffer, adjuststack, emptybuffer, levels, joined,
}

str_sub-middle_example :
    (str_sub (codes "function") (pos 4) (some (pos 5)) ≡ codes "ct")
    × (str_sub (codes "function") (negsuc 4) (some (negsuc 3)) ≡ codes "ct")
str_sub-middle_example = str_sub-middle (codes "fun") (codes "t") (codes "ion") b'c'

str_reverse_and_rep_example :
    (str_reverse 2 (codes "abc") ≡ reversed (codes "abc") ∷ [])
    × (str_rep 2 (codes "abc") (pos 3) ≡ copies 3 (codes "abc") ∷ [])
str_reverse_and_rep_example = str_reverse_and_rep 2 (codes "abc") 3 (omega arith)

-- positions outside the string are cut off, and an absent end is the last byte
cut_off : str_sub (codes "abc") (negsuc 9) (some (pos 2)) ≡ codes "ab"
unfolding str_sub posrelat ◌+ℤ◌
cut_off = refl

to_the_end : str_sub (codes "abc") (pos 2) none ≡ codes "bc"
unfolding str_sub posrelat ◌+ℤ◌
to_the_end = refl

next_letters : str_convert 2 (λ c. c + 1) (codes "HAL") ≡ codes "IBM" ∷ []
unfolding str_convert convert_loop lual_addchar lual_pushresult lual_prepbuffer adjuststack
    emptybuffer levels joined
next_letters = refl
