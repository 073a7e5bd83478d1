-- ===== src/Core/Buffer.antt =====
-- The buffers in which the libraries build strings: `luaL_Buffer` of luascript/lua/lauxlib.c. Bytes go to
-- an array of LUAL_BUFFERSIZE, and a full array goes to the stack of Lua as a string; `stack` is what the
-- stack holds above the place where the buffer was initialised, its top first.
pub mod Levels
pub mod Content
use luascript.Prelude.{
  ℕ, zero, suc, ◌+◌, ◌-◌, Bool, true, false, ◌||◌, List, [], ◌∷◌, ◌++◌, ◌==◌, ltb, leb,
  if◌then◌else◌, length, get_or, drop,
}
use luascript.Prelude.Bytes.{Bytes}

pub record Buffer : Type 0 where
  pub buffer : Bytes
  pub lvl : ℕ
  pub stack : List Bytes

-- LUA_MINSTACK/2
abbrev pub limit : ℕ
limit = 10

unfoldable pub joined : ℕ → List Bytes → Bytes
joined zero stack = []
joined (suc n) [] = []
joined (suc n) (x ∷ stack) = joined n stack ++ x

-- `lua_concat` where all the values are strings
abbrev pub lua_concat : ℕ → List Bytes → List Bytes
lua_concat n stack = joined n stack ∷ drop n stack

-- `lua_insert(L, -2)`
abbrev pub swap_top : List Bytes → List Bytes
swap_top (x ∷ y ∷ stack) = y ∷ x ∷ stack
swap_top stack = stack

abbrev pub lual_buffinit : Buffer
lual_buffinit = record { buffer = []; lvl = 0; stack = [] }

-- with what the function returns
unfoldable pub emptybuffer : Buffer → Bool × Buffer
emptybuffer b =
    if length b.buffer == 0
    then (false, b)
    else (true, record { buffer = []; lvl = b.lvl + 1; stack = b.buffer ∷ b.stack })

-- the loop of `adjuststack`, with the rounds left: `lvl - toget`
unfoldable pub levels : ℕ → Buffer → ℕ → ℕ → ℕ
levels zero b toget toplen = toget
levels (suc k) b toget toplen =
    let l = length (get_or b.stack toget []) in
    let more = levels k b (toget + 1) (toplen + l) in
    if leb limit (b.lvl - toget + 1) || ltb l toplen then more else toget

unfoldable pub adjuststack : Buffer → Buffer
unfolding levels joined
adjuststack b =
    let toget = levels (b.lvl - 1) b 1 (length (get_or b.stack 0 [])) in
    if ltb 1 b.lvl
    then record b { lvl = b.lvl - toget + 1; stack = lua_concat toget b.stack }
    else b

unfoldable pub lual_prepbuffer : Buffer → Buffer
unfolding emptybuffer adjuststack
lual_prepbuffer b =
    let (some_bytes, b') = emptybuffer b in if some_bytes then adjuststack b' else b'

unfoldable pub lual_pushresult : Buffer → Buffer
unfolding emptybuffer joined
lual_pushresult b =
    let (some_bytes, b') = emptybuffer b in
    record b' { lvl = 1; stack = lua_concat b'.lvl b'.stack }

module _ (buffersize : ℕ) where
  unfoldable pub lual_addchar : ℕ → Buffer → Buffer
  unfolding lual_prepbuffer
  lual_addchar c b =
      let b' = if ltb (length b.buffer) buffersize then b else lual_prepbuffer b in
      record b' { buffer = b'.buffer ++ c ∷ [] }

  unfoldable pub lual_addlstring : Bytes → Buffer → Buffer
  unfolding lual_addchar
  lual_addlstring [] b = b
  lual_addlstring (c ∷ s) b = lual_addlstring s (lual_addchar c b)

  -- the value `s` on the top of the stack
  unfoldable pub lual_addvalue : Bytes → Buffer → Buffer
  unfolding emptybuffer adjuststack
  lual_addvalue s b =
      let (some_bytes, b') = emptybuffer (record b { stack = s ∷ b.stack }) in
      let stack' = if some_bytes then swap_top b'.stack else b'.stack in
      if leb (length s) (buffersize - length b.buffer)
      then record b { buffer = b.buffer ++ s }
      else adjuststack (record b' { lvl = b'.lvl + 1; stack = stack' })

-- what a library does with a buffer before it takes the result
pub data Addition : Type 0 where
  add_char : ℕ → Addition
  add_lstring : Bytes → Addition
  add_value : Bytes → Addition

unfoldable pub added : ℕ → List Addition → Buffer → Buffer
unfolding lual_addchar lual_addlstring lual_addvalue
added size [] b = b
added size (add_char c ∷ rest) b = added size rest (lual_addchar size c b)
added size (add_lstring s ∷ rest) b = added size rest (lual_addlstring size s b)
added size (add_value s ∷ rest) b = added size rest (lual_addvalue size s b)
