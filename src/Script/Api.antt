-- ===== src/Script/Api.antt =====
-- What the wrapper uses of the Lua C API (luascript/lua/lua.h, lauxlib.h): operations on a Lua state
-- and what the reference manual says of them, by the values on the state's stack, first pushed first,
-- and the global variables. An index is counted from 1 at the bottom of the stack.
pub mod Lapi
use luascript.Prelude.{
  ℕ, suc, ◌-◌, ◌≤◌, ◌≡◌, ◌≢◌, Bool, true, Option, none, some, List, [], ◌∷◌, ◌++◌, length,
  get_elem?, take,
}
use luascript.Prelude.Bytes.{Bytes, c_str}
use luascript.Prelude.Int.{ℤ}
use luascript.Core.Value.{
  Number, Value, boolean, number, str, object, function, is_bool, is_text, to_number, is_some,
}

pub record LuaApi (N : Number) : Type 1 where
  pub State : Type 0
  pub stack : State → List (Value N.Num)
  pub globals : State → Bytes → Value N.Num
  pub get_top : State → ℕ
  pub is_boolean : State → ℕ → Bool
  pub is_number : State → ℕ → Bool
  pub is_string : State → ℕ → Bool
  pub to_boolean : State → ℕ → Bool
  pub to_integer : State → ℕ → ℤ
  -- `lua_tostring` may convert the value in place
  pub to_string : State → ℕ → Option Bytes × State
  pub push_boolean : Bool → State → State
  pub push_integer : ℤ → State → State
  -- `lua_pushstring` is given a C string
  pub push_string : Bytes → State → State
  -- `lua_pushcfunction`, with the address of the new closure
  pub push_function : ℕ → State → State
  pub get_global : Bytes → State → State
  pub set_global : Bytes → State → State
  pub pop : ℕ → State → State
  -- `lua_tostring(L, -1)`
  pub top_string : State → Option Bytes × State
  -- `luaL_dostring`: the error code and the new state
  pub do_string : Bytes → State → ℕ × State
  pub get_top_length : (s : State) → get_top s ≡ length (stack s)
  pub is_boolean_at :
      (s : State) (i : ℕ) (v : Value N.Num)
      → get_elem? (stack s) i ≡ some v
      → is_boolean s (suc i) ≡ is_bool v
  pub to_boolean_at :
      (s : State) (i : ℕ) (b : Bool)
      → get_elem? (stack s) i ≡ some (boolean b)
      → to_boolean s (suc i) ≡ b
  pub is_number_at :
      (s : State) (i : ℕ) (v : Value N.Num)
      → get_elem? (stack s) i ≡ some v
      → is_number s (suc i) ≡ is_some (to_number N v)
  pub to_integer_at :
      (s : State) (i : ℕ) (v : Value N.Num) (n : N.Num)
      → get_elem? (stack s) i ≡ some v
      → to_number N v ≡ some n
      → to_integer s (suc i) ≡ N.to_integer n
  pub is_string_at :
      (s : State) (i : ℕ) (v : Value N.Num)
      → get_elem? (stack s) i ≡ some v
      → is_string s (suc i) ≡ is_text v
  pub to_string_at :
      (s : State) (i : ℕ) (t : Bytes)
      → get_elem? (stack s) i ≡ some (str t)
      → to_string s (suc i) ≡ (some t, s)
  pub stack-push_boolean :
      (b : Bool) (s : State) → stack (push_boolean b s) ≡ stack s ++ boolean b ∷ []
  pub stack-push_integer :
      (z : ℤ) (s : State) → stack (push_integer z s) ≡ stack s ++ number (N.of_int z) ∷ []
  pub stack-push_string :
      (t : Bytes) (s : State) → stack (push_string t s) ≡ stack s ++ str (c_str t) ∷ []
  pub stack-push_function :
      (a : ℕ) (s : State) → stack (push_function a s) ≡ stack s ++ object function a ∷ []
  pub globals-push_function : (a : ℕ) (s : State) → globals (push_function a s) ≡ globals s
  pub globals-push_boolean : (b : Bool) (s : State) → globals (push_boolean b s) ≡ globals s
  pub globals-push_integer : (z : ℤ) (s : State) → globals (push_integer z s) ≡ globals s
  pub globals-push_string : (t : Bytes) (s : State) → globals (push_string t s) ≡ globals s
  pub stack-get_global :
      (k : Bytes) (s : State) → stack (get_global k s) ≡ stack s ++ globals s (c_str k) ∷ []
  pub globals-get_global : (k : Bytes) (s : State) → globals (get_global k s) ≡ globals s
  pub set_global_top :
      (k : Bytes) (s : State) (below : List (Value N.Num)) (v : Value N.Num)
      → stack s ≡ below ++ v ∷ []
      → (stack (set_global k s) ≡ below)
        × (globals (set_global k s) (c_str k) ≡ v)
        × ((j : Bytes) → j ≢ c_str k → globals (set_global k s) j ≡ globals s j)
  pub stack-pop :
      (n : ℕ) (s : State)
      → n ≤ length (stack s)
      → stack (pop n s) ≡ take (length (stack s) - n) (stack s)
  pub globals-pop : (n : ℕ) (s : State) → globals (pop n s) ≡ globals s
