-- ===== src/Script/Variable.antt =====
-- `lua::get_variable`, `lua::set_variable` and `lua::exec` (luascript/luascript.h, luascript.cpp).
pub mod Laws
use luascript.Prelude.{ℕ, Option, none, some, ◌==◌, if◌then◌else◌}
use luascript.Prelude.Bytes.{Bytes, c_str}
use luascript.Core.Value.{Number}
use luascript.Script.Api.{LuaApi}
use luascript.Script.Args.{Arg, Outcome, done, threw, fault, unpack_arg, pack_arg}
use luascript.Script.Exception.{new_exception}

module _ {N : Number} (api : LuaApi N) where
  open api use {State, get_top, get_global, set_global, pop, do_string, top_string}

  -- the `lua_pop` is not reached where `unpack` throws
  abbrev popped : ℕ → Outcome Arg × State → Outcome Arg × State
  popped index (done y, l) = (done y, pop index l)
  popped index (threw e, l) = (threw e, l)
  popped index (fault, l) = (fault, l)

  -- `value` is the object that the default constructor of T makes
  unfoldable pub get_variable : Arg → Bytes → State → Outcome Arg × State
  unfolding unpack_arg
  get_variable value name l =
      let l' = get_global name l in
      let index = get_top l' in popped index (unpack_arg api value index l')

  unfoldable pub set_variable : Bytes → Arg → State → State
  unfolding pack_arg
  set_variable name var l = set_global name (pack_arg api var l)

  -- `throw lua::exception(lua_tostring(L_, -1))`
  abbrev raised : Option Bytes × State → Outcome (Unit {0}) × State
  raised (none, l) = (fault, l)
  raised (some msg, l) = (threw (new_exception (c_str msg)), l)

  abbrev executed : ℕ × State → Outcome (Unit {0}) × State
  executed (error, l) = if error == 0 then (done tt, l) else raised (top_string l)

  unfoldable pub exec : Bytes → State → Outcome (Unit {0}) × State
  exec script l = executed (do_string script l)
