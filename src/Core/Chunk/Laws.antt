-- ===== src/Core/Chunk/Laws.antt =====
-- The chunk name fits its buffer.
use luascript.Prelude.{
  ℕ, ◌+◌, ◌-◌, ◌≤◌, ◌<◌, [], ◌∷◌, arith, ltb, if◌then◌else◌, length, take, length-append,
  length-take, length-drop,
}
use luascript.Prelude.Bytes.{Bytes, codes}
use luascript.Core.Chunk.{chunkid, excerpt, strcspn_newline, script_name, file_name}

strcspn-le : (s : Bytes) → strcspn_newline s ≤ length s
unfolding strcspn_newline
strcspn-le [] = omega arith
strcspn-le (c ∷ s) = ground (arith, strcspn-le s)

excerpt_room : (source : Bytes) (room : ℕ) → length (excerpt source room) ≤ room + 3
unfolding excerpt
excerpt_room source room =
    let line = strcspn_newline source in
    let len = if ltb room line then room else line in
    ground (
      arith,
      length-append (take len source) (codes "..."),
      length-take len source,
      strcspn-le source,
    )

length-script_name :
    (source : Bytes) (bufflen : ℕ) → 17 ≤ bufflen → length (script_name source bufflen) < bufflen
length-script_name source bufflen h = omega (
  arith,
  excerpt_room source (bufflen - 17),
  length-append (excerpt source (bufflen - 17)) (codes "\"]"),
)

length-file_name :
    (source : Bytes) (bufflen : ℕ) → 17 ≤ bufflen → length (file_name source bufflen) < bufflen
length-file_name source bufflen h =
    ground (arith, length-drop (length source - (bufflen - 8)) source)

-- `luaO_chunkid` writes less than `bufflen` bytes before its NUL, whatever the chunk's name, in a
-- buffer of at least the 17 bytes that the decoration of a script takes.
pub length-chunkid :
    (source : Bytes) (bufflen : ℕ) → 17 ≤ bufflen → length (chunkid source bufflen) < bufflen
unfolding chunkid
length-chunkid [] bufflen h = length-script_name [] bufflen h
length-chunkid (c ∷ source) bufflen h = ground (
  arith,
  length-take (bufflen - 1) source,
  length-script_name (c ∷ source) bufflen h,
  length-file_name source bufflen h,
)
