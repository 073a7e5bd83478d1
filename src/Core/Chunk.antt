-- ===== src/Core/Chunk.antt =====
-- The name under which a chunk is shown in messages: `luaO_chunkid` of luascript/lua/lobject.c, and
-- `addinfo` of luascript/lua/ldebug.c, which puts it and a line number before a message.
pub mod Laws
use mathlib.Core.Logic.{dite}
use mathlib.Core.WellFounded.{Acc}
use native.Mathlib.Decide.{dec_le}
use luascript.Prelude.{
  ℕ, zero, suc, ◌+◌, ◌-◌, ◌/◌, ◌%◌, ◌<◌, ◌||◌, List, [], ◌∷◌, ◌++◌, arith, ltb, ◌==◌, if◌then◌else◌,
  length, take, drop,
}
use luascript.Prelude.Bytes.{Bytes, codes}
use luascript.Prelude.Order.{lt_wf}

-- LUA_IDSIZE of luaconf.h
abbrev pub idsize : ℕ
idsize = 60

-- `strcspn(s, "\n\r")`
unfoldable pub strcspn_newline : Bytes → ℕ
strcspn_newline [] = 0
strcspn_newline (c ∷ s) = if c == 10 || c == 13 then 0 else suc (strcspn_newline s)

-- the text of a script between the quotes: its first line, or what fits of it and dots
unfoldable pub excerpt : Bytes → ℕ → Bytes
unfolding strcspn_newline
excerpt source room =
    let line = strcspn_newline source in
    let len = if ltb room line then room else line in
    if ltb len (length source) then take len source ++ codes "..." else source

abbrev pub script_name : Bytes → ℕ → Bytes
script_name source bufflen = codes "[string \"" ++ (excerpt source (bufflen - 17) ++ codes "\"]")

abbrev pub file_name : Bytes → ℕ → Bytes
file_name source bufflen =
    let room = bufflen - 8 in
    let l = length source in if ltb room l then codes "..." ++ drop (l - room) source else source

unfoldable pub chunkid : Bytes → ℕ → Bytes
unfolding excerpt
chunkid [] bufflen = script_name [] bufflen
chunkid (c ∷ source) bufflen =
    if c == b'='
    then take (bufflen - 1) source
    else if c == b'@'
    then file_name source bufflen
    else script_name (c ∷ source) bufflen

-- the decimal form that `%d` gives a line number
unfoldable pub decimal_acc : (n : ℕ) → Acc ◌<◌ n → Bytes
decimal_acc n (Acc.intro _ smaller) =
    dite (dec_le 10 n)
      (λ h. decimal_acc (n / 10) (smaller (n / 10) (omega arith)) ++ (48 + n % 10) ∷ [])
      (λ _. (48 + n) ∷ [])

unfoldable pub decimal : ℕ → Bytes
unfolding decimal_acc lt_wf dec_le
decimal n = decimal_acc n (lt_wf.apply n)

-- `luaO_pushfstring(L, "%s:%d: %s", buff, line, msg)` for a Lua function of the chunk `source`
unfoldable pub addinfo : Bytes → ℕ → Bytes → Bytes
addinfo source line msg = chunkid source idsize ++ (b':' ∷ (decimal line ++ (b':' ∷ b' ' ∷ msg)))
