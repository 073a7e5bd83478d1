-- ===== src/Lib.antt =====
-- luascript, a C++ wrapper around Lua 5.1, and the Lua core that is compiled into it.
--
-- A program registers C++ functions with a Lua state, reads and writes global variables, and runs
-- scripts (luascript/luascript.h, luascript/luascript.cpp). The wrapper reaches Lua only through the C
-- API (luascript/lua/lapi.c), which works on a stack of values; the core below it keeps tables, byte
-- code and the names of chunks.
--
-- Script: the wrapper.
--   Script/Api.antt         what it uses of the C API: an interface of operations and laws, a parameter
--                           of every file below; Script/Api/Lapi.antt fills it with the model of lapi.c
--   Script/Exception.antt   class lua::exception
--   Script/Args.antt        arg_t with bool_arg_t, int_arg_t, string_arg_t, and args_t: `unpack_arg` is
--                           the virtual method unpack, `clone_args` is args_t::clone, and so on. The
--                           objects are cells of a store; a method maps a state of Lua and a store to
--                           an outcome (a result, an exception, or no defined meaning) and new ones
--   Script/Callback.antt    lua::lua_callback, in the order of its statements: `call` and `consume` are
--                           the scopes of its two auto_ptr objects
--   Script/Variable.antt    lua::get_variable, lua::set_variable, lua::exec
--   Script/Register.antt    lua::register_function, which runs its scripts through `exec`
-- Core: the parts of Lua.
--   Core/Opcodes.antt       instruction words, luascript/lua/lopcodes.h; Core/Opcodes/Modes.antt the
--                           operations and their modes, luascript/lua/lopcodes.c
--   Core/Object.antt        luaO_int2fb, luaO_fb2int, luaO_log2 of luascript/lua/lobject.c
--   Core/Chunk.antt         luaO_chunkid of luascript/lua/lobject.c, addinfo of luascript/lua/ldebug.c
--   Core/Value.antt         TValue of luascript/lua/lobject.h
--   Core/Api.antt           the stack of luascript/lua/lapi.c
--   Core/Table.antt         computesizes of luascript/lua/ltable.c
--   Core/Getn.antt          luaH_getn and unbound_search of luascript/lua/ltable.c
--   Core/Hash.antt          the hash part of a table, luascript/lua/ltable.c: the searches luah_get and its
--                           like, luah_set and newkey. A node is its index, and what a pointer to a value
--                           points to is a `Slot`. Core/Hash/WellFormed is the invariant of the nodes
--   Core/Resize.antt        rehash (`table_rehash`) and resize (`table_resize`) of luascript/lua/ltable.c,
--                           with the counts they rest on. `finish` is what newkey does in a full table
--   Core/Next.antt          luaH_next of luascript/lua/ltable.c
--   Core/Stream.antt        luaZ_fill, luaZ_lookahead, luaZ_read of luascript/lua/lzio.c
--   Core/Binary.antt        functions as data, and their precompiled form: luaU_dump of
--                           luascript/lua/ldump.c is Core/Binary/Dump.antt, luaU_undump of
--                           luascript/lua/lundump.c is Core/Binary/Undump.antt, and
--                           Core/Binary/Format.antt is the format they agree on. Undump reads through
--                           luaZ_read of Core/Stream.antt
--   Core/Symbexec.antt      luaG_checkcode and symbexec of luascript/lua/ldebug.c, by which
--                           luaU_undump refuses byte code: a parameter of Undump
--   Core/Strings.antt       the table that keeps each string once: luaS_newlstr, newlstr and luaS_resize of
--                           luascript/lua/lstring.c. The objects have addresses, and Core/Strings/Placed
--                           is the invariant of the table
--   Core/Buffer.antt        luaL_Buffer of luascript/lua/lauxlib.c, on its part of the stack: the functions
--                           are lual_buffinit, lual_addchar and so on
--   Core/Search.antt        lmemfind of luascript/lua/lstrlib.c, the plain search of string.find
--   Core/Strlib.antt        string.sub, reverse, lower, upper and rep of luascript/lua/lstrlib.c, the last
--                           four on Core/Buffer.antt
-- Prelude: shared names, integers, bits and byte strings; Tests: runs on concrete inputs.
--
-- Numbers: an instruction is a 32-bit word, a `size_t` or an index is a number, an `int` is an
-- integer whose range is a hypothesis where it matters. lua_Number, a C double, is a parameter
-- (`Number` of Core/Value.antt) that holds every `int` exactly and is converted to an `int` or to a
-- `ptrdiff_t`; the wrapper narrows the latter to an `int` (`narrow` of Script/Args.antt), which is
-- taken as two's complement; its words in memory and what IEEE arithmetic says of `==` are
-- another (`Hashing` of Core/Hash.antt).
-- Loops: int2fb, log2 and decimal recurse on the order of the numbers. The binary search for a
-- border has one round more than the interval is long, since each round shrinks it; the search that
-- doubles has 32 rounds, since a number above MAX_INT is reached before, and the linear search
-- behind it has as many as there are positive values of `int`. luaZ_read has the number of bytes to
-- read, since each round reads one at least. luaU_undump has the nesting that the C stack still
-- allows, LUAI_MAXCCALLS less the calls in progress. symbexec has one round for each position up to
-- `lastpc`, since each round moves ahead. The hash of a string has its length as rounds, since the
-- step is at least 1. adjuststack has the levels of the buffer less one, since each round takes one
-- more. lmemfind has the places where the second string fits in the first. The search of a chain,
-- and of the node before another, has the number of nodes as rounds, since a chain has no cycle.
-- What newkey does in a full table is on a number of rounds, one for each time that it calls
-- rehash. All others follow their list or count down.
--
-- Not modelled: the virtual machine, the lexer, the compiler and the garbage collector; the dead
-- keys of tables; the libraries but for the parts named above; growth of the stack and running out
-- of memory; metatables of the global table. An exception that C++ throws through frames of Lua's C
-- code is an outcome of the callback, and what Lua does then is not said. Scripts are run by an
-- operation of the interface. Precompiled chunks are those of a little-endian machine with an int
-- of 4 bytes and size_t and lua_Number of 8; a negative count in a chunk, and the name of the chunk
-- in a message, are left out. The counts of rehash are run on inputs, and nothing is said of the
-- room that they leave.
pub mod Core
pub mod Prelude
pub mod Script
pub mod Tests
