-- ===== src/Script/Exception.antt =====
-- `lua::exception` (luascript/luascript.h, luascript/luascript.cpp): its constructor finds the line
-- and the text of an error in the message that Lua made.
pub mod Search
pub mod Number
pub mod Laws
use luascript.Prelude.{◌+◌, Option, none, some, drop}
use luascript.Prelude.Bytes.{Bytes, codes, c_str, find, rfind, sscanf_d}
use luascript.Prelude.Int.{ℤ, pos}

-- `line_` is `none` while it is uninitialised.
pub record LuaException : Type 0 where
  pub msg : Bytes
  pub line : Option ℤ
  pub error : Bytes

-- `error_ = msg.substr(i + 2)` if `msg.rfind(": ")` finds i, and else `error_` stays `msg`
unfoldable pub error_text : Bytes → Bytes
error_text msg = elim (rfind (codes ": ") msg) [ none ↦ msg | some i ↦ drop (i + 2) msg ]

unfoldable pub new_exception : Bytes → LuaException
unfolding error_text
new_exception msg = elim (find (codes "]:") msg) [
  | none ↦ record { msg = msg; line = some (pos 0); error = msg }
  | some i ↦ record {
    msg = msg;
    line = sscanf_d (c_str (drop (i + 2) msg));
    error = error_text msg;
  }
]
