-- ===== src/Core/Strlib/Built.antt =====
-- The strings that `string.reverse` and `string.rep` build, whatever the size of the buffer is.
use luascript.Prelude.{ℕ, zero, suc, ◌<◌, ◌≡◌, refl, ap, ◌∙◌, List, [], ◌∷◌, ◌++◌, length, get_or}
use luascript.Prelude.Bytes.{Bytes}
use luascript.Prelude.Int.{pos}
use luascript.Core.Buffer.{
  Buffer, Addition, add_char, add_lstring, lual_buffinit, lual_addchar, lual_addlstring,
  lual_pushresult, added,
}
use luascript.Core.Buffer.Content.{texts, lual_pushresult-added}
use luascript.Core.Strlib.{reverse_loop, str_reverse, rep_loop, str_rep}

-- the bytes below a position, backwards
abbrev backwards : Bytes → ℕ → List Addition
backwards s zero = []
backwards s (suc l) = add_char (get_or s l 0) ∷ backwards s l

reverse_loop-added :
    (size : ℕ) (s : Bytes) (l : ℕ) (b : Buffer)
    → reverse_loop size s l b ≡ added size (backwards s l) b
unfolding reverse_loop added
reverse_loop-added size s zero b = refl
reverse_loop-added size s (suc l) b =
    reverse_loop-added size s l (lual_addchar size (get_or s l 0) b)

abbrev repeated : Bytes → ℕ → List Addition
repeated s zero = []
repeated s (suc n) = add_lstring s ∷ repeated s n

rep_loop-added :
    (size : ℕ) (s : Bytes) (n : ℕ) (b : Buffer) → rep_loop size s n b ≡ added size (repeated s n) b
unfolding rep_loop added
rep_loop-added size s zero b = refl
rep_loop-added size s (suc n) b = rep_loop-added size s n (lual_addlstring size s b)

-- one copy behind another
unfoldable pub copies : ℕ → Bytes → Bytes
copies zero s = []
copies (suc n) s = s ++ copies n s

unfoldable pub reversed : Bytes → Bytes
reversed [] = []
reversed (c ∷ s) = reversed s ++ c ∷ []

texts-repeated : (s : Bytes) (n : ℕ) → texts (repeated s n) ≡ copies n s
unfolding texts copies
texts-repeated s zero = refl
texts-repeated s (suc n) = ap (λ t. s ++ t) (texts-repeated s n)

texts-backwards_cons :
    (c : ℕ) (s : Bytes) (l : ℕ)
    → texts (backwards (c ∷ s) (suc l)) ≡ texts (backwards s l) ++ c ∷ []
unfolding texts
texts-backwards_cons c s zero = refl
texts-backwards_cons c s (suc l) = ap (λ t. get_or s l 0 ∷ t) (texts-backwards_cons c s l)

texts-backwards : (s : Bytes) → texts (backwards s (length s)) ≡ reversed s
unfolding texts reversed
texts-backwards [] = refl
texts-backwards (c ∷ s) =
    texts-backwards_cons c s (length s) ∙ ap (λ t. t ++ c ∷ []) (texts-backwards s)

-- With an array of any size but 0, `string.reverse` leaves the bytes of its argument backwards on the
-- stack, and `string.rep` as many copies as it is asked for, one behind the other.
pub str_reverse_and_rep :
    (size : ℕ) (s : Bytes) (n : ℕ)
    → 0 < size
    → (str_reverse size s ≡ reversed s ∷ []) × (str_rep size s (pos n) ≡ copies n s ∷ [])
unfolding str_reverse str_rep
str_reverse_and_rep size s n some_place = (
  ap (λ b. (lual_pushresult b).stack) (reverse_loop-added size s (length s) lual_buffinit)
      ∙ (lual_pushresult-added size (backwards s (length s)) some_place).0
      ∙ ap (λ t. t ∷ []) (texts-backwards s),
  ap (λ b. (lual_pushresult b).stack) (rep_loop-added size s n lual_buffinit)
      ∙ (lual_pushresult-added size (repeated s n) some_place).0
      ∙ ap (λ t. t ∷ []) (texts-repeated s n),
)
