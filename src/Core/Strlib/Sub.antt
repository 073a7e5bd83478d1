-- ===== src/Core/Strlib/Sub.antt =====
-- Which bytes `string.sub` takes.
use luascript.Prelude.{
  ℕ, zero, suc, ◌+◌, ◌-◌, ◌≤◌, ◌<◌, ◌≡◌, refl, ap, ◌∙◌, true, false, some, [], ◌∷◌, ◌++◌, ltb, leb,
  arith, length, length-append, take, drop,
}
use luascript.Prelude.Bytes.{Bytes}
use luascript.Prelude.Int.{ℤ, pos, negsuc, ◌+ℤ◌}
use luascript.Core.Strlib.{posrelat, str_sub}

take-drop_middle :
    (n k : ℕ) (before m behind : Bytes)
    → n ≡ length before
    → k ≡ length m
    → take k (drop n (before ++ (m ++ behind))) ≡ m
take-drop_middle zero zero [] [] behind h e = refl
take-drop_middle zero (suc k) [] (c ∷ m) behind h e =
    ap (λ t. c ∷ t) (take-drop_middle zero k [] m behind refl (omega (arith, e)))
take-drop_middle (suc n) k (c ∷ before) m behind h e =
    take-drop_middle n k before m behind (omega (arith, h)) e
take-drop_middle zero zero [] (c ∷ m) behind h e = absurd (omega arith)
take-drop_middle zero (suc k) [] [] behind h e = absurd (omega arith)
take-drop_middle zero k (c ∷ before) m behind h e = absurd (omega arith)
take-drop_middle (suc n) k [] m behind h e = absurd (omega arith)

posrelat-negative : (n l : ℕ) → n < l → posrelat (negsuc n) l ≡ l - n
unfolding posrelat ◌+ℤ◌
posrelat-negative n l h = ground arith

-- inside the string nothing is cut off
slice :
    (s : Bytes) (i j : ℤ) (start end' : ℕ)
    → posrelat i (length s) ≡ start
    → posrelat j (length s) ≡ end'
    → 1 ≤ start
    → end' ≤ length s
    → start ≤ end'
    → str_sub s i (some j) ≡ take (end' - start + 1) (drop (start - 1) s)
unfolding str_sub
slice s i j start end' e e' low high order =
    let not_below : ltb start 1 ≡ false = ground arith in
    let not_above : ltb (length s) end' ≡ false = ground arith in
    let some_bytes : leb start end' ≡ true = ground arith in
    rw (str_sub, e, e', not_below, not_above, some_bytes) refl

-- The bytes from one position of a string to a later or the same one are what `string.sub` of the two
-- positions gives, counted from 1 at the start or from -1 at the end.
pub str_sub-middle :
    (before m behind : Bytes) (c : ℕ)
    → (str_sub
          (before ++ ((c ∷ m) ++ behind))
          (pos (length before + 1))
          (some (pos (length before + length m + 1)))
        ≡ c ∷ m)
      × (str_sub
            (before ++ ((c ∷ m) ++ behind))
            (negsuc (length m + length behind))
            (some (negsuc (length behind)))
          ≡ c ∷ m)
unfolding posrelat
str_sub-middle before m behind c =
    let s = before ++ ((c ∷ m) ++ behind) in
    let total : length s ≡ length before + (length m + 1 + length behind) =
      omega (arith, length-append before ((c ∷ m) ++ behind), length-append (c ∷ m) behind) in
    let start = length before + 1 in
    let end' = length before + length m + 1 in
    let taken =
      take-drop_middle (start - 1) (end' - start + 1) before (c ∷ m) behind (omega arith)
        (omega arith) in
    (
      slice s (pos start) (pos end') start end' refl refl (omega arith) (omega (arith, total))
            (omega arith)
          ∙ taken,
      slice s (negsuc (length m + length behind)) (negsuc (length behind)) start end'
            (posrelat-negative (length m + length behind) (length s) (omega (arith, total))
              ∙ omega (arith, total))
            (posrelat-negative (length behind) (length s) (omega (arith, total))
              ∙ omega (arith, total))
            (omega arith) (omega (arith, total)) (omega arith)
          ∙ taken,
    )
