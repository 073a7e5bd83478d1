-- ===== src/Core/Opcodes/Fields.antt =====
-- The macros of lopcodes.h as arithmetic on the digits of a word: what a masked read, a masked
-- write and a sum of shifted fields come to.
use Prim.Native.Nat.{bit_and, bit_or}
use native.Mathlib.Nat.{one-le-pow}
use luascript.Prelude.{ℕ, ◌+◌, ◌-◌, ◌*◌, ◌/◌, ◌%◌, ◌^◌, ◌<◌, ◌≡◌, arith}
use luascript.Prelude.Bits.{
  bit_and_split, bit_or_split, bit_and_zero, bit_and_low, bit_or_zero, zero-bit_or,
}
use luascript.Core.Opcodes.{
  word, get_opcode, getarg_a, getarg_b, getarg_c, getarg_bx, set_opcode, setarg_a, setarg_b,
  setarg_c, setarg_bx, create_abc, create_abx,
}

-- a word of three digits, of `h`, `n` and `p` bits
module _ (h n p hi mid lo : ℕ) (fh : hi < 2 ^ h) (fn : mid < 2 ^ n) (fp : lo < 2 ^ p) where
  clear_middle :
      bit_and ((hi * 2 ^ n + mid) * 2 ^ p + lo) (((2 ^ h - 1) * 2 ^ n + 0) * 2 ^ p + (2 ^ p - 1))
      ≡ hi * 2 ^ n * 2 ^ p + lo
  clear_middle = ground (
    arith,
    one-le-pow p 2,
    one-le-pow n 2,
    bit_and_split p (hi * 2 ^ n + mid) lo ((2 ^ h - 1) * 2 ^ n + 0) (2 ^ p - 1),
    bit_and_split n hi mid (2 ^ h - 1) 0,
    bit_and_low h hi,
    bit_and_zero n mid,
    bit_and_low p lo,
  )

  keep_middle :
      bit_and ((hi * 2 ^ n + mid) * 2 ^ p + lo) ((0 * 2 ^ n + (2 ^ n - 1)) * 2 ^ p + 0)
      ≡ mid * 2 ^ p
  keep_middle = ground (
    arith,
    one-le-pow p 2,
    one-le-pow n 2,
    bit_and_split p (hi * 2 ^ n + mid) lo (0 * 2 ^ n + (2 ^ n - 1)) 0,
    bit_and_split n hi mid 0 (2 ^ n - 1),
    bit_and_zero h hi,
    bit_and_low n mid,
    bit_and_zero p lo,
  )

  put_middle : bit_or (hi * 2 ^ n * 2 ^ p + lo) (mid * 2 ^ p) ≡ (hi * 2 ^ n + mid) * 2 ^ p + lo
  put_middle = ground (
    arith,
    one-le-pow p 2,
    one-le-pow n 2,
    bit_or_split p (hi * 2 ^ n + 0) lo (0 * 2 ^ n + mid) 0,
    bit_or_split n hi 0 0 mid,
    bit_or_zero h hi,
    zero-bit_or mid,
    bit_or_zero p lo,
  )

-- A masked write replaces the middle digit.
write_middle :
    (h n p i v hi mid lo vh u : ℕ)
    → hi < 2 ^ h
    → mid < 2 ^ n
    → lo < 2 ^ p
    → vh < 2 ^ h
    → u < 2 ^ n
    → i ≡ (hi * 2 ^ n + mid) * 2 ^ p + lo
    → v ≡ (vh * 2 ^ n + u) * 2 ^ p + 0
    → bit_or
        (bit_and i (((2 ^ h - 1) * 2 ^ n + 0) * 2 ^ p + (2 ^ p - 1)))
        (bit_and v ((0 * 2 ^ n + (2 ^ n - 1)) * 2 ^ p + 0))
      ≡ (hi * 2 ^ n + u) * 2 ^ p + lo
write_middle h n p i v hi mid lo vh u fh fm fl fv fu ei ev =
    rw (ei, ev, clear_middle h n p hi mid lo fh fm fl)
      (rw (keep_middle h n p vh u 0 fv fu (one-le-pow p 2 (omega arith)))
        (put_middle h n p hi u lo fh fu fl))

-- a read under a mask of `n` ones
low_field : (n i : ℕ) → i / 2 ^ n < word → bit_and i (2 ^ n - 1) ≡ i % 2 ^ n
low_field n i h = ground (
  arith,
  one-le-pow n 2,
  bit_and_split n (i / 2 ^ n) (i % 2 ^ n) 0 (2 ^ n - 1),
  bit_and_zero 32 (i / 2 ^ n),
  bit_and_low n (i % 2 ^ n),
)

module _ (i : ℕ) (fits : i < word) where
  pub get_opcode_lem : get_opcode i ≡ i % 64
  unfolding get_opcode
  get_opcode_lem = ground (arith, low_field 6 (i / 1))

  pub getarg_a_lem : getarg_a i ≡ i / 64 % 256
  unfolding getarg_a
  getarg_a_lem = omega (arith, low_field 8 (i / 64))

  pub getarg_c_lem : getarg_c i ≡ i / 16384 % 512
  unfolding getarg_c
  getarg_c_lem = omega (arith, low_field 9 (i / 16384))

  pub getarg_b_lem : getarg_b i ≡ i / 8388608 % 512
  unfolding getarg_b
  getarg_b_lem = omega (arith, low_field 9 (i / 8388608))

  pub getarg_bx_lem : getarg_bx i ≡ i / 16384 % 262144
  unfolding getarg_bx
  getarg_bx_lem = omega (arith, low_field 18 (i / 16384))

module _ (i u : ℕ) (fits : i < word) where
  pub set_opcode_lem : set_opcode i u ≡ i / 64 * 64 + u % 64
  unfolding set_opcode
  set_opcode_lem = ground (
    arith,
    write_middle 26 6 0 i (u * 1 % word) (i / 64) (i % 64) 0 (u % word / 64) (u % 64) (omega arith)
        (omega arith) (omega arith) (omega arith) (omega arith) (omega arith) (omega arith),
  )

  pub setarg_a_lem : setarg_a i u ≡ i / 16384 * 16384 + u % 256 * 64 + i % 64
  unfolding setarg_a
  setarg_a_lem = omega (
    arith,
    write_middle 18 8 6 i (u * 64 % word) (i / 16384) (i / 64 % 256) (i % 64) (u % 67108864 / 256)
        (u % 256) (omega arith) (omega arith) (omega arith) (omega arith) (omega arith)
        (omega arith) (omega arith),
  )

  pub setarg_c_lem : setarg_c i u ≡ i / 8388608 * 8388608 + u % 512 * 16384 + i % 16384
  unfolding setarg_c
  setarg_c_lem = omega (
    arith,
    write_middle 9 9 14 i (u * 16384 % word) (i / 8388608) (i / 16384 % 512) (i % 16384)
        (u % 262144 / 512) (u % 512) (omega arith) (omega arith) (omega arith) (omega arith)
        (omega arith) (omega arith) (omega arith),
  )

  pub setarg_b_lem : setarg_b i u ≡ u % 512 * 8388608 + i % 8388608
  unfolding setarg_b
  setarg_b_lem = omega (
    arith,
    write_middle 0 9 23 i (u * 8388608 % word) 0 (i / 8388608) (i % 8388608) 0 (u % 512)
        (omega arith) (omega arith) (omega arith) (omega arith) (omega arith) (omega arith)
        (omega arith),
  )

  pub setarg_bx_lem : setarg_bx i u ≡ u % 262144 * 16384 + i % 16384
  unfolding setarg_bx
  setarg_bx_lem = omega (
    arith,
    write_middle 0 18 14 i (u * 16384 % word) 0 (i / 16384) (i % 16384) 0 (u % 262144) (omega arith)
        (omega arith) (omega arith) (omega arith) (omega arith) (omega arith) (omega arith),
  )

-- `|` puts a field above what is below it.
put_above : (k hi lo : ℕ) → lo < 2 ^ k → bit_or lo (hi * 2 ^ k) ≡ hi * 2 ^ k + lo
put_above k hi lo h =
    ground (arith, one-le-pow k 2, bit_or_split k 0 lo hi 0, zero-bit_or hi, bit_or_zero k lo)

pub create_abc_lem :
    (o a b c : ℕ)
    → o < 64
    → a < 256
    → b < 512
    → c < 512
    → create_abc o a b c ≡ b * 8388608 + c * 16384 + a * 64 + o
unfolding create_abc
create_abc_lem o a b c ho ha hb hc =
    ground (arith, put_above 6 a o, put_above 23 b (a * 64 + o), put_middle 9 9 14 b c (a * 64 + o))

pub create_abx_lem :
    (o a bx : ℕ) → o < 64 → a < 256 → bx < 262144 → create_abx o a bx ≡ bx * 16384 + a * 64 + o
unfolding create_abx
create_abx_lem o a bx ho ha hb = ground (arith, put_above 6 a o, put_above 14 bx (a * 64 + o))
