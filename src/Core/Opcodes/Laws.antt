-- ===== src/Core/Opcodes/Laws.antt =====
-- What the instruction macros of lopcodes.h promise of one another.
use luascript.Prelude.{ℕ, ◌+◌, ◌-◌, ◌*◌, ◌/◌, ◌%◌, ◌^◌, ◌≤◌, ◌<◌, ◌≡◌, true, false, ap, ◌∙◌, arith}
use luascript.Prelude.Bits.{
  bit_and_split, bit_or_split, bit_and_zero, bit_and_low, bit_or_zero, zero-bit_and,
}
use luascript.Prelude.Int.{ℤ, pos, negsuc, ◌+ℤ◌, ◌-ℤ◌, ◌≤ℤ◌}
use luascript.Core.Opcodes.{
  word, get_opcode, getarg_a, getarg_b, getarg_c, getarg_bx, getarg_sbx, set_opcode, setarg_a,
  setarg_b, setarg_c, setarg_bx, setarg_sbx, create_abc, create_abx, maxarg_sbx, to_unsigned,
  maxindexrk, isk, indexk, rkask,
}
use luascript.Core.Opcodes.Fields.{
  get_opcode_lem, getarg_a_lem, getarg_b_lem, getarg_c_lem, getarg_bx_lem, set_opcode_lem,
  setarg_a_lem, setarg_b_lem, setarg_c_lem, setarg_bx_lem, create_abc_lem, create_abx_lem,
}

-- `i` holds the opcode `o` and the arguments `a`, `b` and `c`, and as an iABx word their join.
pub record Decodes (i o a b c : ℕ) : Type 0 where
  pub fits : i < word
  pub opcode : get_opcode i ≡ o
  pub arg_a : getarg_a i ≡ a
  pub arg_b : getarg_b i ≡ b
  pub arg_c : getarg_c i ≡ c
  pub arg_bx : getarg_bx i ≡ b * 512 + c

Decodes-of_digits :
    (i o a b c : ℕ)
    → o < 64
    → a < 256
    → b < 512
    → c < 512
    → i ≡ b * 8388608 + c * 16384 + a * 64 + o
    → Decodes i o a b c
Decodes-of_digits i o a b c ho ha hb hc e = omega (
  arith,
  get_opcode_lem i (omega arith),
  getarg_a_lem i (omega arith),
  getarg_b_lem i (omega arith),
  getarg_c_lem i (omega arith),
  getarg_bx_lem i (omega arith),
)

-- CREATE_ABC with arguments in range is decoded by the GETARG macros to those arguments.
pub create_abc-Decodes :
    (o a b c : ℕ) → o < 64 → a < 256 → b < 512 → c < 512 → Decodes (create_abc o a b c) o a b c
create_abc-Decodes o a b c ho ha hb hc =
    Decodes-of_digits (create_abc o a b c) o a b c ho ha hb hc (create_abc_lem o a b c ho ha hb hc)

-- CREATE_ABx with arguments in range is decoded to them, the argument Bx as B and C joined.
pub create_abx-Decodes :
    (o a bx : ℕ)
    → o < 64
    → a < 256
    → bx < 2 ^ 18
    → Decodes (create_abx o a bx) o a (bx / 512) (bx % 512)
create_abx-Decodes o a bx ho ha hb =
    Decodes-of_digits (create_abx o a bx) o a (bx / 512) (bx % 512) ho ha (omega arith)
      (omega arith) (omega (arith, create_abx_lem o a bx ho ha hb))

-- An instruction word is put together again from its decoded fields, in either format.
pub create-getarg :
    (i : ℕ)
    → i < word
    → (create_abc (get_opcode i) (getarg_a i) (getarg_b i) (getarg_c i) ≡ i)
      × (create_abx (get_opcode i) (getarg_a i) (getarg_bx i) ≡ i)
create-getarg i h = (
  omega (
    arith,
    get_opcode_lem i h,
    getarg_a_lem i h,
    getarg_b_lem i h,
    getarg_c_lem i h,
    create_abc_lem (get_opcode i) (getarg_a i) (getarg_b i) (getarg_c i),
  ),
  omega (
    arith,
    get_opcode_lem i h,
    getarg_a_lem i h,
    getarg_bx_lem i h,
    create_abx_lem (get_opcode i) (getarg_a i) (getarg_bx i),
  ),
)

-- A decoded word is the sum of its shifted fields.
digits_of_Decodes :
    (i o a b c : ℕ)
    → Decodes i o a b c
    → (i ≡ b * 8388608 + c * 16384 + a * 64 + o) × (o < 64) × (a < 256) × (b < 512) × (c < 512)
digits_of_Decodes i o a b c d = omega (
  arith,
  get_opcode_lem i d.fits,
  getarg_a_lem i d.fits,
  getarg_b_lem i d.fits,
  getarg_c_lem i d.fits,
)

-- Each SETARG macro stores its argument, reduced to the field's width, and leaves every other field
-- of the word as it was.
pub setarg-Decodes :
    (i o a b c u : ℕ)
    → Decodes i o a b c
    → Decodes (set_opcode i u) (u % 64) a b c
      × Decodes (setarg_a i u) o (u % 256) b c
      × Decodes (setarg_b i u) o a (u % 512) c
      × Decodes (setarg_c i u) o a b (u % 512)
      × Decodes (setarg_bx i u) o a (u / 512 % 512) (u % 512)
setarg-Decodes i o a b c u d =
    let (e, ho, ha, hb, hc) = digits_of_Decodes i o a b c d in
    (
      Decodes-of_digits (set_opcode i u) (u % 64) a b c (omega arith) ha hb hc
          (omega (arith, set_opcode_lem i u d.fits)),
      Decodes-of_digits (setarg_a i u) o (u % 256) b c ho (omega arith) hb hc
          (omega (arith, setarg_a_lem i u d.fits)),
      Decodes-of_digits (setarg_b i u) o a (u % 512) c ho ha (omega arith) hc
          (omega (arith, setarg_b_lem i u d.fits)),
      Decodes-of_digits (setarg_c i u) o a b (u % 512) ho ha hb (omega arith)
          (omega (arith, setarg_c_lem i u d.fits)),
      Decodes-of_digits (setarg_bx i u) o a (u / 512 % 512) (u % 512) ho ha (omega arith)
          (omega arith) (omega (arith, setarg_bx_lem i u d.fits)),
    )

-- An offset in range, with the excess MAXARG_sBx added, is an unsigned number of 18 bits.
excess_fits :
    (b : ℤ)
    → negsuc (maxarg_sbx - 1) ≤ℤ b
    → b ≤ℤ pos (maxarg_sbx + 1)
    → (to_unsigned (b +ℤ pos maxarg_sbx) < 2 ^ 18)
      × (pos (to_unsigned (b +ℤ pos maxarg_sbx)) -ℤ pos maxarg_sbx ≡ b)
unfolding ◌+ℤ◌ ◌-ℤ◌
excess_fits b lo hi = ground arith

-- A signed jump offset that MAXARG_sBx allows is read back as it was stored, and the opcode and the
-- argument A stay.
pub setarg_sbx-getarg_sbx :
    (i : ℕ) (b : ℤ)
    → i < word
    → negsuc (maxarg_sbx - 1) ≤ℤ b
    → b ≤ℤ pos (maxarg_sbx + 1)
    → (getarg_sbx (setarg_sbx i b) ≡ b)
      × (get_opcode (setarg_sbx i b) ≡ get_opcode i)
      × (getarg_a (setarg_sbx i b) ≡ getarg_a i)
unfolding setarg_sbx getarg_sbx
setarg_sbx-getarg_sbx i b h lo hi =
    let u : ℕ = to_unsigned (b +ℤ pos maxarg_sbx) in
    let small : (u < 2 ^ 18) × (pos u -ℤ pos maxarg_sbx ≡ b) = excess_fits b lo hi in
    let e = setarg_bx_lem i u h in
    let d : setarg_bx i u < word = omega arith in
    (
      ap (λ t. pos t -ℤ pos maxarg_sbx) (omega (arith, getarg_bx_lem (setarg_bx i u) d)) ∙ small.1,
      omega (arith, get_opcode_lem i h, get_opcode_lem (setarg_bx i u) d),
      omega (arith, getarg_a_lem i h, getarg_a_lem (setarg_bx i u) d),
    )

-- RK operands: a constant's index up to MAXINDEXRK is marked as a constant, is recovered from the
-- mark, and without the mark is taken for a register.
pub rkask-indexk :
    (x : ℕ)
    → x ≤ maxindexrk
    → (isk (rkask x) ≡ true) × (indexk (rkask x) ≡ x) × (isk x ≡ false) × (indexk x ≡ x)
unfolding isk rkask indexk
rkask-indexk x h = ground (
  arith,
  bit_or_split 8 0 x 1 0,
  bit_or_zero 8 x,
  bit_and_split 8 1 x 1 0,
  bit_and_split 8 0 x 1 0,
  bit_and_zero 8 x,
  bit_and_split 8 1 x (2 ^ 24 - 2) 255,
  bit_and_split 8 0 x (2 ^ 24 - 2) 255,
  zero-bit_and (2 ^ 24 - 2),
  bit_and_low 8 x,
)
