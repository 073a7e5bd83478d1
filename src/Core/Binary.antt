-- ===== src/Core/Binary.antt =====
-- Precompiled chunks: the function prototypes of luascript/lua/lobject.h, and the bytes in which
-- luascript/lua/ldump.c writes them and luascript/lua/lundump.c reads them. The machine is little-endian,
-- with 4 bytes in an `int` and in an Instruction and 8 in a `size_t` and in a double. An `int` is its
-- bit pattern: a negative one is 2 ^ 31 or more.
pub mod Words
pub mod Dump
pub mod Undump
pub mod Format
pub mod Writes
pub mod Loads
pub mod Functions
pub mod RoundTrip
use luascript.Prelude.{
  ℕ, zero, suc, ◌+◌, ◌*◌, ◌/◌, ◌%◌, ◌≡◌, Bool, Option, List, [], ◌∷◌, ◌++◌, length, take, drop,
}
use luascript.Prelude.Bytes.{Bytes, codes}
use luascript.Core.Value.{Number}

-- the memory image of a `lua_Number`
pub record Image (N : Number) : Type 0 where
  pub to_bytes : N.Num → Bytes
  pub of_bytes : Bytes → N.Num
  pub length-to_bytes : (n : N.Num) → length (to_bytes n) ≡ 8
  pub of_bytes-to_bytes : (n : N.Num) → of_bytes (to_bytes n) ≡ n

-- a constant; a string is a pointer, `none` for NULL
pub data Constant (Num : Type 0) : Type 0 where
  knil : Constant Num
  kboolean : Bool → Constant Num
  knumber : Num → Constant Num
  kstring : Option Bytes → Constant Num

pub record LocVar : Type 0 where
  pub varname : Option Bytes
  pub startpc : ℕ
  pub endpc : ℕ

-- the fields of a `Proto` but the prototypes inside it
pub record ProtoInfo (Num : Type 0) : Type 0 where
  pub source : Bytes
  pub linedefined : ℕ
  pub lastlinedefined : ℕ
  pub nups : ℕ
  pub numparams : ℕ
  pub is_vararg : ℕ
  pub maxstacksize : ℕ
  pub code : List ℕ
  pub k : List (Constant Num)
  pub lineinfo : List ℕ
  pub locvars : List LocVar
  pub upvalues : List (Option Bytes)

mutual
  pub data Proto (Num : Type 0) : Type 0 where
    proto : ProtoInfo Num → Protos Num → Proto Num

  pub data Protos (Num : Type 0) : Type 0 where
    no_protos : Protos Num
    more_protos : Proto Num → Protos Num → Protos Num

-- the bytes of a number, the lowest first, and the number that bytes stand for
unfoldable pub word_bytes : ℕ → ℕ → Bytes
word_bytes zero n = []
word_bytes (suc w) n = n % 256 ∷ word_bytes w (n / 256)

unfoldable pub bytes_word : Bytes → ℕ
bytes_word [] = 0
bytes_word (c ∷ bs) = c + 256 * bytes_word bs

-- an array of 4-byte words
unfoldable pub words_bytes : List ℕ → Bytes
words_bytes [] = []
words_bytes (n ∷ ns) = word_bytes 4 n ++ words_bytes ns

unfoldable pub bytes_words : ℕ → Bytes → List ℕ
bytes_words zero bs = []
bytes_words (suc n) bs = bytes_word (take 4 bs) ∷ bytes_words n (drop 4 bs)

-- `luaU_header`
unfoldable pub header : Bytes
header = 27 ∷ codes "Lua" ++ (0x51 ∷ 0 ∷ 1 ∷ 4 ∷ 8 ∷ 4 ∷ 8 ∷ 0 ∷ [])
