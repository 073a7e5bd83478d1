-- ===== src/Core/Api.antt =====
-- The C API on one Lua stack: luascript/lua/lapi.c, and the macros of luascript/lua/lua.h on it. The
-- stack is the list of the values from `L->base` up to `L->top`. An index that the API does not allow
-- (`api_check`) has no defined meaning and gives `none`. Locking, garbage collection and the growth of
-- the stack are left out. The global table is its string keys, without a metatable.
pub mod Stack
pub mod Insert
use luascript.Prelude.{
  ℕ, zero, suc, ◌+◌, ◌-◌, Bool, true, false, not, Option, none, some, List, [], ◌∷◌, ◌++◌, ltb, leb,
  ◌==◌, ◌||◌, if◌then◌else◌, length, get_or, set, take,
}
use luascript.Prelude.Bytes.{Bytes, c_str, bytes_eq}
use luascript.Prelude.Int.{ℤ, pos, negsuc}
use luascript.Core.Value.{
  Number, Value, nil, boolean, light, number, str, object, Kind, table, function, userdata, thread,
  to_number,
}

module _ (N : Number) where
  pub record LuaState : Type 0 where
    pub stack : List (Value N.Num)
    pub globals : Bytes → Value N.Num
    pub registry : Value N.Num
    pub environment : Value N.Num
    pub global_table : Value N.Num
    pub upvalues : List (Value N.Num)

-- where an index leads: to the stack, counted from 0, to one of the pseudo-indices, or to
-- `luaO_nilobject`
pub data Slot : Type 0 where
  on_stack : ℕ → Slot
  in_registry in_environment in_globals nil_object : Slot
  in_upvalue : ℕ → Slot

-- LUA_REGISTRYINDEX and LUA_GLOBALSINDEX, negated
abbrev pub registryindex : ℕ
registryindex = 10000

abbrev pub globalsindex : ℕ
globalsindex = 10002

-- `while (L->top < L->base + idx) setnilvalue(L->top++);`, with the rounds left
unfoldable pub push_nils : {Num : Type 0} → ℕ → List (Value Num) → List (Value Num)
push_nils zero st = st
push_nils (suc k) st = push_nils k (st ++ nil ∷ [])

-- `while (++p < L->top) setobjs2s(L, p-1, p);`, with the rounds left
unfoldable pub shift_down : {Num : Type 0} → ℕ → ℕ → List (Value Num) → List (Value Num)
shift_down zero p st = st
shift_down (suc k) p st = shift_down k (suc p) (set st p (get_or st (suc p) nil))

-- `for (q = L->top; q>p; q--) setobjs2s(L, q, q-1);`, with the rounds left
unfoldable pub shift_up : {Num : Type 0} → ℕ → ℕ → List (Value Num) → List (Value Num)
shift_up zero q st = st
shift_up (suc k) q st = shift_up k (q - 1) (set st q (get_or st (q - 1) nil))

-- the tag of a value's type; LUA_TNONE is -1
abbrev pub tag : {Num : Type 0} → Value Num → ℕ
tag nil = 0
tag (boolean b) = 1
tag (light p) = 2
tag (number n) = 3
tag (str t) = 4
tag (object table a) = 5
tag (object function a) = 6
tag (object userdata a) = 7
tag (object thread a) = 8

abbrev pub has_tag : Option ℤ → ℕ → Bool
has_tag (some (pos t)) k = t == k
has_tag _ k = false

abbrev pub is_converted : {Num : Type 0} → Option Num → Bool
is_converted (some n) = true
is_converted none = false

abbrev pub to_int_or_zero : {Num : Type 0} → (Num → ℤ) → Option Num → ℤ
to_int_or_zero f (some n) = f n
to_int_or_zero f none = pos 0

-- `l_isfalse`
abbrev pub is_false : {Num : Type 0} → Value Num → Bool
is_false nil = true
is_false (boolean b) = not b
is_false _ = false

abbrev pub assign : {Num : Type 0} → (Bytes → Value Num) → Bytes → Value Num → Bytes → Value Num
assign g k v j = if bytes_eq j k then v else g j

module _ {N : Number} where
  -- below LUA_REGISTRYINDEX, for the index -n
  abbrev pub pseudo_index : ℕ → LuaState N → Slot
  pseudo_index n s =
      if n == registryindex
      then in_registry
      else if n == registryindex + 1
      then in_environment
      else if n == globalsindex
      then in_globals
      else if leb (n - globalsindex) (length s.upvalues)
      then in_upvalue (n - globalsindex - 1)
      else nil_object

  unfoldable pub index2adr : LuaState N → ℤ → Option Slot
  index2adr s (pos zero) = none
  index2adr s (pos (suc i)) = some (if ltb i (length s.stack) then on_stack i else nil_object)
  index2adr s (negsuc n) =
      if ltb (suc n) registryindex
      then if leb (suc n) (length s.stack) then some (on_stack (length s.stack - suc n)) else none
      else some (pseudo_index (suc n) s)

  abbrev pub value_of : LuaState N → Slot → Value N.Num
  value_of s (on_stack i) = get_or s.stack i nil
  value_of s in_registry = s.registry
  value_of s in_environment = s.environment
  value_of s in_globals = s.global_table
  value_of s (in_upvalue i) = get_or s.upvalues i nil
  value_of s nil_object = nil

  -- basic stack manipulation
  unfoldable pub lua_gettop : LuaState N → ℕ
  lua_gettop s = length s.stack

  unfoldable pub lua_settop : ℤ → LuaState N → Option (LuaState N)
  unfolding push_nils
  lua_settop (pos n) s = some (record s { stack = take n (push_nils (n - length s.stack) s.stack) })
  lua_settop (negsuc n) s =
      if leb n (length s.stack)
      then some (record s { stack = take (length s.stack - n) s.stack })
      else none

  -- `lua_pop(L,n)`, lua_settop(L, -(n)-1)
  abbrev pub lua_pop : ℕ → LuaState N → Option (LuaState N)
  lua_pop n s = lua_settop (negsuc n) s

  abbrev remove_at : Option Slot → LuaState N → Option (LuaState N)
  remove_at (some (on_stack p)) s = some (record s {
    stack = take (length s.stack - 1) (shift_down (length s.stack - suc p) p s.stack);
  })
  remove_at _ s = none

  unfoldable pub lua_remove : ℤ → LuaState N → Option (LuaState N)
  unfolding shift_down index2adr
  lua_remove idx s = remove_at (index2adr s idx) s

  -- the slot at `L->top` takes part, whatever it holds
  abbrev insert_at : Option Slot → LuaState N → Option (LuaState N)
  insert_at (some (on_stack p)) s =
      let top = length s.stack in
      let st = shift_up (top - p) top (s.stack ++ nil ∷ []) in
      some (record s { stack = take top (set st p (get_or st top nil)) })
  insert_at _ s = none

  unfoldable pub lua_insert : ℤ → LuaState N → Option (LuaState N)
  unfolding shift_up index2adr
  lua_insert idx s = insert_at (index2adr s idx) s

  abbrev push : Value N.Num → LuaState N → LuaState N
  push v s = record s { stack = s.stack ++ v ∷ [] }

  abbrev push_slot : LuaState N → Option Slot → Option (LuaState N)
  push_slot s (some o) = some (push (value_of s o) s)
  push_slot s none = none

  unfoldable pub lua_pushvalue : ℤ → LuaState N → Option (LuaState N)
  unfolding index2adr
  lua_pushvalue idx s = push_slot s (index2adr s idx)

  abbrev slot_type : LuaState N → Option Slot → Option ℤ
  slot_type s none = none
  slot_type s (some nil_object) = some (negsuc 0)
  slot_type s (some o) = some (pos (tag (value_of s o)))

  unfoldable pub lua_type : ℤ → LuaState N → Option ℤ
  unfolding index2adr
  lua_type idx s = slot_type s (index2adr s idx)

  unfoldable pub lua_isboolean : ℤ → LuaState N → Bool
  unfolding lua_type
  lua_isboolean idx s = has_tag (lua_type idx s) 1

  unfoldable pub lua_isstring : ℤ → LuaState N → Bool
  unfolding lua_type
  lua_isstring idx s = has_tag (lua_type idx s) 4 || has_tag (lua_type idx s) 3

  abbrev pub slot_value : LuaState N → Option Slot → Value N.Num
  slot_value s (some o) = value_of s o
  slot_value s none = nil

  unfoldable pub lua_isnumber : ℤ → LuaState N → Bool
  unfolding index2adr
  lua_isnumber idx s = is_converted (to_number N (slot_value s (index2adr s idx)))

  unfoldable pub lua_tointeger : ℤ → LuaState N → ℤ
  unfolding index2adr
  lua_tointeger idx s = to_int_or_zero N.to_integer (to_number N (slot_value s (index2adr s idx)))

  unfoldable pub lua_toboolean : ℤ → LuaState N → Bool
  unfolding index2adr
  lua_toboolean idx s = not (is_false (slot_value s (index2adr s idx)))

  -- `luaV_tostring` converts a number where it lies
  abbrev pub store_text : LuaState N → Option Slot → Bytes → LuaState N
  store_text s (some (on_stack i)) t = record s { stack = set s.stack i (str t) }
  store_text s (some (in_upvalue i)) t = record s { upvalues = set s.upvalues i (str t) }
  store_text s _ t = s

  abbrev pub text_at : LuaState N → Option Slot → Value N.Num → Option Bytes × LuaState N
  text_at s o (str t) = (some t, s)
  text_at s o (number n) = (some (N.to_text n), store_text s o (N.to_text n))
  text_at s o _ = (none, s)

  unfoldable pub lua_tolstring : ℤ → LuaState N → Option Bytes × LuaState N
  unfolding index2adr
  lua_tolstring idx s = text_at s (index2adr s idx) (slot_value s (index2adr s idx))

  -- push functions
  unfoldable pub lua_pushnil : LuaState N → LuaState N
  lua_pushnil s = push nil s

  unfoldable pub lua_pushnumber : N.Num → LuaState N → LuaState N
  lua_pushnumber n s = push (number n) s

  unfoldable pub lua_pushinteger : ℤ → LuaState N → LuaState N
  lua_pushinteger z s = push (number (N.of_int z)) s

  -- `lua_pushcclosure` with no upvalues; the new closure has the address `a`
  abbrev pub lua_pushcfunction : ℕ → LuaState N → LuaState N
  lua_pushcfunction a s = push (object function a) s

  unfoldable pub lua_pushboolean : Bool → LuaState N → LuaState N
  lua_pushboolean b s = push (boolean b) s

  -- a string of `len` bytes, NUL included
  unfoldable pub lua_pushlstring : Bytes → LuaState N → LuaState N
  lua_pushlstring t s = push (str t) s

  unfoldable pub lua_pushstring : Option Bytes → LuaState N → LuaState N
  unfolding lua_pushnil lua_pushlstring
  lua_pushstring none s = lua_pushnil s
  lua_pushstring (some t) s = lua_pushlstring (c_str t) s

  -- `lua_getglobal` and `lua_setglobal`: lua_getfield and lua_setfield at LUA_GLOBALSINDEX
  unfoldable pub lua_getglobal : Bytes → LuaState N → LuaState N
  lua_getglobal k s = push (s.globals (c_str k)) s

  unfoldable pub lua_setglobal : Bytes → LuaState N → LuaState N
  lua_setglobal k s = record s {
    globals = assign s.globals (c_str k) (get_or s.stack (length s.stack - 1) nil);
    stack = take (length s.stack - 1) s.stack;
  }
