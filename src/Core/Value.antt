-- ===== src/Core/Value.antt =====
-- Lua values: `TValue` of luascript/lua/lobject.h and `luaO_rawequalObj` of luascript/lua/lobject.c.
-- `lua_Number` is a C double: it and its conversions are a parameter.
use luascript.Prelude.{ℕ, ◌^◌, ◌<◌, ◌≡◌, Bool, true, false, Option, none, some}
use luascript.Prelude.Bytes.{Bytes}
use luascript.Prelude.Int.{ℤ, pos, negsuc}

-- the range of a C `int`
abbrev pub IsInt : ℤ → Type 0
IsInt (pos n) = n < 2 ^ 31
IsInt (negsuc n) = n < 2 ^ 31

-- `lua_Number` with `luai_numeq`, `cast_num`, the two conversions `lua_number2int` (to an `int`) and
-- `lua_number2integer` (to a `ptrdiff_t`), `lua_number2str` and `luaO_str2d`
pub record Number : Type 1 where
  pub Num : Type 0
  pub num_eq : Num → Num → Bool
  pub of_int : ℤ → Num
  pub to_int : Num → ℤ
  pub to_integer : Num → ℤ
  pub to_text : Num → Bytes
  pub of_text : Bytes → Option Num
  -- a double holds every `int` exactly
  pub to_int_of_int : (z : ℤ) → IsInt z → to_int (of_int z) ≡ z
  pub to_integer_of_int : (z : ℤ) → IsInt z → to_integer (of_int z) ≡ z

-- the kinds of objects that a value refers to by address
pub data Kind : Type 0 where
  table function userdata thread : Kind

-- A string is its bytes: equal strings are one object, since they are interned.
pub data Value (Num : Type 0) : Type 0 where
  nil : Value Num
  boolean : Bool → Value Num
  light : ℕ → Value Num
  number : Num → Value Num
  str : Bytes → Value Num
  object : Kind → ℕ → Value Num

-- the type tests of the API, by the value's tag
abbrev pub is_bool : {Num : Type 0} → Value Num → Bool
is_bool (boolean b) = true
is_bool _ = false

-- a string or a number, which `lua_tolstring` converts
abbrev pub is_text : {Num : Type 0} → Value Num → Bool
is_text (str t) = true
is_text (number n) = true
is_text _ = false

-- `luaV_tonumber`: a number, or the number that a string spells
abbrev pub to_number : (N : Number) → Value N.Num → Option N.Num
to_number N (number n) = some n
to_number N (str t) = N.of_text t
to_number N _ = none

abbrev pub is_some : {A : Type 0} → Option A → Bool
is_some none = false
is_some (some a) = true
