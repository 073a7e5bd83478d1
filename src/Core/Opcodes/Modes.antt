-- ===== src/Core/Opcodes/Modes.antt =====
-- The operations of the virtual machine, in the order of their numbers, and the properties of each:
-- `OpCode` of luascript/lua/lopcodes.h and `luaP_opmodes` of luascript/lua/lopcodes.c, whose bit fields
-- are the fields of a record here.
use luascript.Prelude.{ℕ, Bool, true, false, Option, List, [], ◌∷◌, get_elem?}
use luascript.Core.Opcodes.{get_opcode}

pub data OpCode : Type 0 where
  op_move op_loadk op_loadbool op_loadnil op_getupval : OpCode
  op_getglobal op_gettable : OpCode
  op_setglobal op_setupval op_settable : OpCode
  op_newtable op_self : OpCode
  op_add op_sub op_mul op_div op_mod op_pow op_unm op_not op_len : OpCode
  op_concat op_jmp : OpCode
  op_eq op_lt op_le : OpCode
  op_test op_testset : OpCode
  op_call op_tailcall op_return : OpCode
  op_forloop op_forprep op_tforloop op_setlist : OpCode
  op_close op_closure op_vararg : OpCode

abbrev pub opcodes : List OpCode
opcodes =
    op_move ∷ op_loadk ∷ op_loadbool ∷ op_loadnil ∷ op_getupval ∷ op_getglobal ∷ op_gettable
    ∷ op_setglobal ∷ op_setupval ∷ op_settable ∷ op_newtable ∷ op_self ∷ op_add ∷ op_sub ∷ op_mul
    ∷ op_div ∷ op_mod ∷ op_pow ∷ op_unm ∷ op_not ∷ op_len ∷ op_concat ∷ op_jmp ∷ op_eq ∷ op_lt
    ∷ op_le ∷ op_test ∷ op_testset ∷ op_call ∷ op_tailcall ∷ op_return ∷ op_forloop ∷ op_forprep
    ∷ op_tforloop ∷ op_setlist ∷ op_close ∷ op_closure ∷ op_vararg ∷ []

-- GET_OPCODE, `none` from NUM_OPCODES on
unfoldable pub opcode_of : ℕ → Option OpCode
opcode_of i = get_elem? opcodes (get_opcode i)

pub data OpMode : Type 0 where
  iabc iabx iasbx : OpMode

pub data OpArgMask : Type 0 where
  arg_n arg_u arg_r arg_k : OpArgMask

pub record Modes : Type 0 where
  pub test : Bool
  pub sets_a : Bool
  pub b_mode : OpArgMask
  pub c_mode : OpArgMask
  pub mode : OpMode

abbrev pub opmode : Bool → Bool → OpArgMask → OpArgMask → OpMode → Modes
opmode t a b c m = record { test = t; sets_a = a; b_mode = b; c_mode = c; mode = m }

unfoldable pub opmodes : OpCode → Modes
opmodes op_move = opmode false true arg_r arg_n iabc
opmodes op_loadk = opmode false true arg_k arg_n iabx
opmodes op_loadbool = opmode false true arg_u arg_u iabc
opmodes op_loadnil = opmode false true arg_r arg_n iabc
opmodes op_getupval = opmode false true arg_u arg_n iabc
opmodes op_getglobal = opmode false true arg_k arg_n iabx
opmodes op_gettable = opmode false true arg_r arg_k iabc
opmodes op_setglobal = opmode false false arg_k arg_n iabx
opmodes op_setupval = opmode false false arg_u arg_n iabc
opmodes op_settable = opmode false false arg_k arg_k iabc
opmodes op_newtable = opmode false true arg_u arg_u iabc
opmodes op_self = opmode false true arg_r arg_k iabc
opmodes op_add = opmode false true arg_k arg_k iabc
opmodes op_sub = opmode false true arg_k arg_k iabc
opmodes op_mul = opmode false true arg_k arg_k iabc
opmodes op_div = opmode false true arg_k arg_k iabc
opmodes op_mod = opmode false true arg_k arg_k iabc
opmodes op_pow = opmode false true arg_k arg_k iabc
opmodes op_unm = opmode false true arg_r arg_n iabc
opmodes op_not = opmode false true arg_r arg_n iabc
opmodes op_len = opmode false true arg_r arg_n iabc
opmodes op_concat = opmode false true arg_r arg_r iabc
opmodes op_jmp = opmode false false arg_r arg_n iasbx
opmodes op_eq = opmode true false arg_k arg_k iabc
opmodes op_lt = opmode true false arg_k arg_k iabc
opmodes op_le = opmode true false arg_k arg_k iabc
opmodes op_test = opmode true true arg_r arg_u iabc
opmodes op_testset = opmode true true arg_r arg_u iabc
opmodes op_call = opmode false true arg_u arg_u iabc
opmodes op_tailcall = opmode false true arg_u arg_u iabc
opmodes op_return = opmode false false arg_u arg_n iabc
opmodes op_forloop = opmode false true arg_r arg_n iasbx
opmodes op_forprep = opmode false true arg_r arg_n iasbx
opmodes op_tforloop = opmode true false arg_n arg_u iabc
opmodes op_setlist = opmode false false arg_u arg_u iabc
opmodes op_close = opmode false false arg_n arg_n iabc
opmodes op_closure = opmode false true arg_u arg_n iabx
opmodes op_vararg = opmode false true arg_u arg_n iabc
