-- ===== src/Tests.antt =====
-- Runs of the modelled code on concrete inputs, and each theorem with hypotheses at an input.
pub mod Hash
pub mod Script
pub mod Binary
pub mod Strings
pub mod Buffer
pub mod Search
pub mod Strlib
use mathlib.Core.Path.{◌≡◌}
use luascript.Prelude.{
  ℕ, zero, suc, ◌+◌, ◌-◌, ◌*◌, ◌/◌, ◌%◌, ◌^◌, ◌≤◌, ◌<◌, ◌≢◌, refl, ◌⊎◌, inl, inr, Bool, true, false,
  ◌&&◌, Option, none, some, List, [], ◌∷◌, ◌++◌, map, arith, ◌==◌, length, replicate, take,
}
use luascript.Prelude.Bytes.{Bytes, codes, c_str, find, rfind, sscanf_d}
use luascript.Prelude.Int.{ℤ, pos, negsuc, pos_part, neg_part, ◌+ℤ◌, ◌-ℤ◌, ◌≤ℤ◌}
use luascript.Core.Value.{Number, Value, nil, boolean, number, str, IsInt}
use luascript.Core.Opcodes.{
  get_opcode, getarg_a, getarg_b, getarg_c, getarg_bx, getarg_sbx, set_opcode, setarg_a, setarg_b,
  setarg_c, setarg_bx, setarg_sbx, create_abc, create_abx, isk, indexk, rkask,
}
use luascript.Core.Opcodes.Laws.{
  Decodes, create_abc-Decodes, create_abx-Decodes, create-getarg, setarg-Decodes,
  setarg_sbx-getarg_sbx, rkask-indexk,
}
use luascript.Core.Object.{int2fb, fb2int, log2, ceillog2}
use luascript.Core.Object.FloatByte.{fb2int-int2fb, int2fb-fb2int}
use luascript.Core.Object.Logarithm.{IsLog2, IsCeilLog2, log2-IsLog2, ceillog2_least}
use luascript.Core.Chunk.{chunkid, addinfo, excerpt, decimal}
use luascript.Core.Chunk.Laws.{length-chunkid}
use luascript.Core.Table.{computesizes}
use luascript.Core.Table.Sizes.{computesizes_best, keys_upto}
use luascript.Core.Api.{
  LuaState, index2adr, lua_settop, lua_insert, lua_remove, on_stack, registryindex,
}
use luascript.Core.Api.Insert.{lua_insert-middle}
use luascript.Core.Api.Stack.{lua_settop-take, lua_remove-middle, index2adr-negsuc}
use luascript.Core.Stream.{Zio, zio_init, luaz_read}
use luascript.Core.Stream.Reading.{Holds, delivers_null, delivers_block, luaz_read-take}
use luascript.Script.Api.{LuaApi}
use luascript.Script.Api.Lapi.{lapi}
use luascript.Script.Exception.{LuaException, new_exception}
use luascript.Script.Exception.Laws.{
  new_exception-addinfo, new_exception_cut, new_exception_no_line,
}
use luascript.Script.Args.{
  Arg, bool_arg, int_arg, string_arg, as_string, Store, done, throw, world, clone_args, unpack_arg,
  pack_arg,
}
use luascript.Script.Args.Blocks.{fresh, clone_args-fresh}
use luascript.Script.Args.Values.{
  Reads, ReadsAll, Rejects, reads_bool, reads_int, reads_string, reads_nil, reads_cons, rejects_int,
  rejection, to_value, unpack_arg-pack_arg,
}
use luascript.Script.Callback.{Function, lua_callback, arity_message}
use luascript.Script.Callback.Laws.{lua_callback-done}
use luascript.Script.Callback.Failure.{lua_callback-refuses}
use luascript.Script.Variable.{get_variable, set_variable}
use luascript.Script.Variable.Laws.{
  globals-set_variable, get_variable-Reads, get_variable-Rejects, get_variable-set_variable,
}

-- instruction words
built : Decodes (create_abc 12 3 256 7) 12 3 256 7
built = create_abc-Decodes 12 3 256 7 (omega arith) (omega arith) (omega arith) (omega arith)

created_fields :
    (create_abc
        (get_opcode 123456789)
        (getarg_a 123456789)
        (getarg_b 123456789)
        (getarg_c 123456789)
      ≡ 123456789)
    × (create_abx (get_opcode 123456789) (getarg_a 123456789) (getarg_bx 123456789) ≡ 123456789)
created_fields = create-getarg 123456789 (omega arith)

setarg-Decodes_example :
    Decodes (set_opcode (create_abc 12 3 256 7) 40) (40 % 64) 3 256 7
    × Decodes (setarg_a (create_abc 12 3 256 7) 40) 12 (40 % 256) 256 7
    × Decodes (setarg_b (create_abc 12 3 256 7) 40) 12 3 (40 % 512) 7
    × Decodes (setarg_c (create_abc 12 3 256 7) 40) 12 3 256 (40 % 512)
    × Decodes (setarg_bx (create_abc 12 3 256 7) 40) 12 3 (40 / 512 % 512) (40 % 512)
setarg-Decodes_example = setarg-Decodes (create_abc 12 3 256 7) 12 3 256 7 40 built

sbx_read_back :
    (getarg_sbx (setarg_sbx 77 (negsuc 9)) ≡ negsuc 9)
    × (get_opcode (setarg_sbx 77 (negsuc 9)) ≡ get_opcode 77)
    × (getarg_a (setarg_sbx 77 (negsuc 9)) ≡ getarg_a 77)
sbx_read_back = setarg_sbx-getarg_sbx 77 (negsuc 9) (omega arith) (omega arith) (omega arith)

constant_17 :
    (isk (rkask 17) ≡ true) × (indexk (rkask 17) ≡ 17) × (isk 17 ≡ false) × (indexk 17 ≡ 17)
constant_17 = rkask-indexk 17 (omega arith)

-- sizes and logarithms
fb2int-int2fb_example :
    (1000 ≤ fb2int (int2fb 1000)) × (8 * fb2int (int2fb 1000) ≤ 9 * 1000) × (int2fb 1000 < 2 ^ 9)
fb2int-int2fb_example = fb2int-int2fb 1000 (omega arith)

int2fb-fb2int_example : int2fb (fb2int 77) ≡ 77
int2fb-fb2int_example = int2fb-fb2int 77 (omega arith)

log2-IsLog2_example : (k : ℕ) × (log2 1000 ≡ pos k) × IsLog2 1000 k
log2-IsLog2_example = log2-IsLog2 1000 (omega arith)

ceillog2_run : (k : ℕ) × (ceillog2 1000 ≡ pos k) × IsCeilLog2 1000 k
ceillog2_run = ceillog2_least 1000 (omega arith)

sizes : (int2fb 1000 ≡ 64) × (fb2int 64 ≡ 1024) × (log2 1000 ≡ pos 9) × (ceillog2 1000 ≡ pos 10)
unfolding int2fb fb2int log2 ceillog2
sizes = (refl, refl, refl, refl)

-- tables
computesizes_best_example :
    (na n : ℕ) × (computesizes (1 ∷ 1 ∷ 2 ∷ 0 ∷ 1 ∷ []) 5 ≡ some (na, n))
    × (((n ≡ 0) × (na ≡ 0))
        ⊎ ((k : ℕ) × (n ≡ 2 ^ k) × (na ≡ keys_upto 0 (1 ∷ 1 ∷ 2 ∷ 0 ∷ 1 ∷ []) k) × (n < 2 * na)))
    × ((j : ℕ) → j < 5 → 2 ^ j < 2 * keys_upto 0 (1 ∷ 1 ∷ 2 ∷ 0 ∷ 1 ∷ []) j → 2 ^ j ≤ n)
computesizes_best_example = computesizes_best (1 ∷ 1 ∷ 2 ∷ 0 ∷ 1 ∷ []) 5 refl (omega arith)

computesizes_run : computesizes (1 ∷ 1 ∷ 2 ∷ 0 ∷ 1 ∷ []) 5 ≡ some (4, 4)
unfolding computesizes
computesizes_run = refl

-- a stream that delivers a list of blocks
abbrev pub next_block : List Bytes → Option Bytes × List Bytes
next_block [] = (none, [])
next_block (b ∷ bs) = (some b, bs)

abbrev two_blocks : List Bytes
two_blocks = codes "Lu" ∷ codes "a51" ∷ []

two_blocks-Holds : Holds next_block (zio_init two_blocks) (codes "Lua51")
unfolding zio_init
two_blocks-Holds = record {
  tail = codes "Lua51";
  in_block = refl;
  delivered =
      delivers_block two_blocks (codes "a51" ∷ []) b'L' (codes "u") (codes "a51") refl
        (delivers_block (codes "a51" ∷ []) [] b'a' (codes "51") [] refl (delivers_null [] [] refl));
  joined = refl;
}

luaz_read-take_example :
    (z' : Zio (List Bytes)) × (luaz_read next_block 3 (zio_init two_blocks)
      ≡ some (0, codes "Lua", z'))
    × (3 ≤ 5 → Holds next_block z' (codes "51"))
luaz_read-take_example =
    luaz_read-take next_block 3 (zio_init two_blocks) (codes "Lua51") two_blocks-Holds

-- numbers that are integers, in place of doubles; a text that starts with a digit spells a number
abbrev pub same_integer : ℤ → ℤ → Bool
same_integer a b = pos_part a == pos_part b && neg_part a == neg_part b

abbrev spelled : Bytes → Option ℤ
spelled s = sscanf_d s

abbrev pub integers : Number
integers = record {
  Num = ℤ;
  num_eq = same_integer;
  of_int = λ z. z;
  to_int = λ z. z;
  to_integer = λ z. z;
  to_text = λ z. as_string (int_arg z);
  of_text = spelled;
  to_int_of_int = λ z h. refl;
  to_integer_of_int = λ z h. refl;
}

abbrev run_nothing : Bytes → LuaState integers → ℕ × LuaState integers
run_nothing text s = (0, s)

abbrev pub machine : LuaApi integers
machine = lapi run_nothing

abbrev no_globals : Bytes → Value ℤ
no_globals name = nil

abbrev pub state_of : List (Value ℤ) → LuaState integers
state_of values = record {
  stack = values;
  globals = no_globals;
  registry = nil;
  environment = nil;
  global_table = nil;
  upvalues = [];
}

abbrev pub two_values : List (Value ℤ)
two_values = number (pos 7) ∷ str (codes "abc") ∷ []

abbrev pub three_values : List (Value ℤ)
three_values = number (pos 7) ∷ boolean true ∷ str (codes "abc") ∷ []

-- chunk names
length-chunkid_example : length (chunkid (codes "print(1)") 60) < 60
length-chunkid_example = length-chunkid (codes "print(1)") 60 (omega arith)

-- the stack of Lua
padded :
    lua_settop (pos 4) (state_of two_values)
    ≡ some (state_of (number (pos 7) ∷ str (codes "abc") ∷ nil ∷ nil ∷ []))
padded = lua_settop-take 4 (state_of two_values)

lua_remove-middle_example : lua_remove (pos 2) (state_of three_values) ≡ some (state_of two_values)
lua_remove-middle_example =
    lua_remove-middle (state_of three_values) (number (pos 7) ∷ []) (str (codes "abc") ∷ [])
      (boolean true) refl

lua_insert-middle_example :
    lua_insert (pos 2) (state_of (number (pos 7) ∷ str (codes "abc") ∷ boolean true ∷ []))
    ≡ some (state_of three_values)
lua_insert-middle_example =
    lua_insert-middle (state_of (number (pos 7) ∷ str (codes "abc") ∷ boolean true ∷ []))
      (number (pos 7) ∷ []) (str (codes "abc") ∷ []) (boolean true) refl

below_top_read :
    (index2adr (state_of three_values) (negsuc 0) ≡ some (on_stack 2))
    × (index2adr (state_of three_values) (negsuc 0) ≡ index2adr (state_of three_values) (pos 3))
below_top_read = index2adr-negsuc (state_of three_values) 0 (omega arith) (omega arith)
