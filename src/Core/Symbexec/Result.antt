-- ===== src/Core/Symbexec/Result.antt =====
-- What a check ends with, and the tests on operations and constants that luascript/lua/ldebug.c makes.
use luascript.Prelude.{
  ℕ, Bool, true, false, ◌&&◌, Option, none, some, List, [], ◌∷◌, ◌==◌, get_elem?,
}
use luascript.Prelude.Int.{ℤ, pos, negsuc}
use luascript.Core.Opcodes.{getarg_c}
use luascript.Core.Opcodes.Modes.{
  OpCode, op_move, op_getupval, op_jmp, op_call, op_tailcall, op_return, op_setlist, opcode_of,
}
use luascript.Core.Binary.{Constant, kstring, Protos, proto, no_protos, more_protos}

pub data Checked (A : Type 0) : Type 0 where
  passed : A → Checked A
  refused out_of_range stuck : Checked A

infixl 5 ◌>>=◌ ◌>>◌
abbrev pub ◌>>=◌ : {A B : Type 0} → Checked A → (A → Checked B) → Checked B
passed a >>= f = f a
refused >>= f = refused
out_of_range >>= f = out_of_range
stuck >>= f = stuck

abbrev pub ◌>>◌ : {B : Type 0} → Checked (Unit {0}) → Checked B → Checked B
m >> k = m >>= λ _. k

abbrev pub check : Bool → Checked (Unit {0})
check true = passed tt
check false = refused

abbrev pub in_range : {A : Type 0} → Option A → Checked A
in_range (some x) = passed x
in_range none = out_of_range

unfoldable pub read : {A : Type 0} → List A → ℕ → Checked A
read xs i = in_range (get_elem? xs i)

unfoldable pub read_at : {A : Type 0} → List A → ℤ → Checked A
unfolding read
read_at xs (pos i) = read xs i
read_at xs (negsuc i) = out_of_range

abbrev pub maxstack : ℕ
maxstack = 250

-- MAXARG_A
abbrev pub no_reg : ℕ
no_reg = 255

abbrev pub is_some_op : (OpCode → Bool) → Option OpCode → Bool
is_some_op test none = false
is_some_op test (some op) = test op

abbrev pub is_return : OpCode → Bool
is_return op_return = true
is_return _ = false

abbrev pub is_jmp : OpCode → Bool
is_jmp op_jmp = true
is_jmp _ = false

abbrev pub is_setlist : OpCode → Bool
is_setlist op_setlist = true
is_setlist _ = false

abbrev pub takes_open : OpCode → Bool
takes_open op_call = true
takes_open op_tailcall = true
takes_open op_return = true
takes_open op_setlist = true
takes_open _ = false

abbrev pub is_pseudo : OpCode → Bool
is_pseudo op_getupval = true
is_pseudo op_move = true
is_pseudo _ = false

abbrev pub nups_of : {Num : Type 0} → Protos Num → List ℕ
nups_of no_protos = []
nups_of (more_protos (proto f gs) fs) = f.nups ∷ nups_of fs

abbrev pub is_string : {Num : Type 0} → Constant Num → Bool
is_string (kstring s) = true
is_string _ = false

-- `GET_OPCODE(d) == OP_SETLIST && GETARG_C(d) == 0`
abbrev pub is_long_setlist : ℕ → Bool
is_long_setlist d = is_some_op is_setlist (opcode_of d) && getarg_c d == 0
