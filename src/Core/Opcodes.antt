-- ===== src/Core/Opcodes.antt =====
-- Instruction words: luascript/lua/lopcodes.h. An `Instruction` is an unsigned 32-bit number, here
-- a natural number below 2 ^ 32; an `int` argument is a natural number, but sBx, which is a ℤ.
pub mod Fields
pub mod Modes
pub mod Laws
use Prim.Native.Nat.{bit_and, bit_or}
use luascript.Prelude.{ℕ, ◌+◌, ◌-◌, ◌*◌, ◌/◌, ◌%◌, ◌^◌, Bool, not, ◌==◌}
use luascript.Prelude.Int.{ℤ, pos, negsuc, ◌+ℤ◌, ◌-ℤ◌}

-- arithmetic of the C type: ~x, x << k and x >> k on 32 bits
abbrev pub word : ℕ
word = 2 ^ 32

abbrev pub bit_not : ℕ → ℕ
bit_not x = word - 1 - x

abbrev pub shl : ℕ → ℕ → ℕ
shl x k = x * 2 ^ k % word

abbrev pub shr : ℕ → ℕ → ℕ
shr x k = x / 2 ^ k

-- SIZE_C, SIZE_B, SIZE_Bx, SIZE_A, SIZE_OP and the positions of the fields
abbrev pub size_c : ℕ
size_c = 9

abbrev pub size_b : ℕ
size_b = 9

abbrev pub size_bx : ℕ
size_bx = size_c + size_b

abbrev pub size_a : ℕ
size_a = 8

abbrev pub size_op : ℕ
size_op = 6

abbrev pub pos_op : ℕ
pos_op = 0

abbrev pub pos_a : ℕ
pos_a = pos_op + size_op

abbrev pub pos_c : ℕ
pos_c = pos_a + size_a

abbrev pub pos_b : ℕ
pos_b = pos_c + size_c

abbrev pub pos_bx : ℕ
pos_bx = pos_c

abbrev pub maxarg_bx : ℕ
maxarg_bx = 2 ^ size_bx - 1

abbrev pub maxarg_sbx : ℕ
maxarg_sbx = maxarg_bx / 2

abbrev pub mask1 : ℕ → ℕ → ℕ
mask1 n p = shl (bit_not (shl (bit_not 0) n)) p

abbrev pub mask0 : ℕ → ℕ → ℕ
mask0 n p = bit_not (mask1 n p)

-- the common shape of the GETARG and of the SETARG macros
abbrev pub get_field : ℕ → ℕ → ℕ → ℕ
get_field size at i = bit_and (shr i at) (mask1 size 0)

abbrev pub set_field : ℕ → ℕ → ℕ → ℕ → ℕ
set_field size at i u = bit_or (bit_and i (mask0 size at)) (bit_and (shl u at) (mask1 size at))

unfoldable pub get_opcode : ℕ → ℕ
get_opcode i = get_field size_op pos_op i

unfoldable pub set_opcode : ℕ → ℕ → ℕ
set_opcode i o = set_field size_op pos_op i o

unfoldable pub getarg_a : ℕ → ℕ
getarg_a i = get_field size_a pos_a i

unfoldable pub setarg_a : ℕ → ℕ → ℕ
setarg_a i u = set_field size_a pos_a i u

unfoldable pub getarg_b : ℕ → ℕ
getarg_b i = get_field size_b pos_b i

unfoldable pub setarg_b : ℕ → ℕ → ℕ
setarg_b i b = set_field size_b pos_b i b

unfoldable pub getarg_c : ℕ → ℕ
getarg_c i = get_field size_c pos_c i

unfoldable pub setarg_c : ℕ → ℕ → ℕ
setarg_c i b = set_field size_c pos_c i b

unfoldable pub getarg_bx : ℕ → ℕ
getarg_bx i = get_field size_bx pos_bx i

unfoldable pub setarg_bx : ℕ → ℕ → ℕ
setarg_bx i b = set_field size_bx pos_bx i b

-- `cast(unsigned int, b)`
abbrev pub to_unsigned : ℤ → ℕ
to_unsigned (pos n) = n % word
to_unsigned (negsuc n) = word - 1 - n % word

unfoldable pub getarg_sbx : ℕ → ℤ
getarg_sbx i = pos (getarg_bx i) -ℤ pos maxarg_sbx

unfoldable pub setarg_sbx : ℕ → ℤ → ℕ
setarg_sbx i b = setarg_bx i (to_unsigned (b +ℤ pos maxarg_sbx))

unfoldable pub create_abc : ℕ → ℕ → ℕ → ℕ → ℕ
create_abc o a b c =
    bit_or (bit_or (bit_or (shl o pos_op) (shl a pos_a)) (shl b pos_b)) (shl c pos_c)

unfoldable pub create_abx : ℕ → ℕ → ℕ → ℕ
create_abx o a bc = bit_or (bit_or (shl o pos_op) (shl a pos_a)) (shl bc pos_bx)

-- RK operands: bit BITRK tells a constant's index from a register
abbrev pub bitrk : ℕ
bitrk = 2 ^ (size_b - 1)

abbrev pub maxindexrk : ℕ
maxindexrk = bitrk - 1

unfoldable pub isk : ℕ → Bool
isk x = not (bit_and x bitrk == 0)

unfoldable pub indexk : ℕ → ℕ
indexk r = bit_and r (bit_not bitrk)

unfoldable pub rkask : ℕ → ℕ
rkask x = bit_or x bitrk
