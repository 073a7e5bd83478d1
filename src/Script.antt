-- ===== src/Script.antt =====
-- The C++ wrapper of Lua: luascript/luascript.h and luascript/luascript.cpp.
pub mod Api
pub mod Exception
pub mod Args
pub mod Callback
pub mod Variable
pub mod Register
