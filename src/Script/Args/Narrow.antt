-- ===== src/Script/Args/Narrow.antt =====
-- The conversion of a `ptrdiff_t` to an `int` in `lua::int_arg_t::unpack`, told apart from the code.
use luascript.Prelude.{
  ℕ, suc, ◌+◌, ◌%◌, ◌^◌, ◌<◌, ◌≡◌, refl, ap, Bool-cases, inl, inr, ltb, ltb→lt, arith,
}
use luascript.Prelude.Int.{ℤ, pos, negsuc, pos_part, neg_part}
use luascript.Core.Value.{IsInt}
use luascript.Script.Args.{signed, narrow}

-- z is in the range of an `int` and differs from m by a multiple of 2 ^ 32
abbrev pub Narrows : ℤ → ℤ → Type 0
Narrows m z = IsInt z × ((pos_part m + neg_part z) % 2 ^ 32 ≡ (pos_part z + neg_part m) % 2 ^ 32)

pub IsInt-Narrows : (z : ℤ) → IsInt z → Narrows z z
IsInt-Narrows z h = (h, refl)

signed_low : (r n : ℕ) → n < 2 ^ 31 → r ≡ n → signed r ≡ pos n
unfolding signed
signed_low r n h e = elim (Bool-cases (ltb r (2 ^ 31))) [
  | inl low ↦ rw low (ap pos e)
  | inr high ↦ absurd (ground arith)
]

signed_high : (r n : ℕ) → n < 2 ^ 31 → r + suc n ≡ 2 ^ 32 → signed r ≡ negsuc n
unfolding signed
signed_high r n h e = elim (Bool-cases (ltb r (2 ^ 31))) [
  | inl low ↦ absurd (omega (arith, e, h, ltb→lt r (2 ^ 31) low))
  | inr high ↦ rw high (ap negsuc (omega (arith, e)))
]

-- the conversion gives the one such integer
pub Narrows-narrow : (m z : ℤ) → Narrows m z → narrow m ≡ z
unfolding narrow
Narrows-narrow (pos n) (pos k) (h, e) = signed_low _ k h (omega (arith, e, h))
Narrows-narrow (pos n) (negsuc k) (h, e) = signed_high _ k h (omega (arith, e, h))
Narrows-narrow (negsuc n) (pos k) (h, e) = signed_low _ k h (omega (arith, e, h))
Narrows-narrow (negsuc n) (negsuc k) (h, e) = signed_high _ k h (omega (arith, e, h))
