-- ===== src/Core.antt =====
-- The C core under luascript/lua, one module for each part of it that is modelled.
pub mod Opcodes
pub mod Value
pub mod Object
pub mod Chunk
pub mod Api
pub mod Table
pub mod Getn
pub mod Hash
pub mod Next
pub mod Resize
pub mod Stream
pub mod Binary
pub mod Symbexec
pub mod Strings
pub mod Buffer
pub mod Search
pub mod Strlib
