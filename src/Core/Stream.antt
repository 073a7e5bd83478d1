-- ===== src/Core/Stream.antt =====
-- The buffered input of luascript/lua/lzio.c: chunks are loaded through it. The function that delivers
-- its blocks is a parameter, and `none` is its NULL. The position `p` is the bytes from there on, with
-- those behind the block left out; a byte read behind the block has no defined meaning and is 0 here.
pub mod Reading
use luascript.Prelude.{
  ℕ, zero, suc, ◌+◌, ◌-◌, Option, none, some, List, [], ◌∷◌, ◌++◌, leb, ◌==◌, if◌then◌else◌, length,
  take, drop,
}
use luascript.Prelude.Bytes.{Bytes}

pub record Zio (S : Type 0) : Type 0 where
  pub n : ℕ
  pub p : Bytes
  pub data_ : S

abbrev pub first_byte : Bytes → ℕ
first_byte [] = 0
first_byte (c ∷ bs) = c

abbrev pub advance : {S : Type 0} → ℕ → Zio S → Zio S
advance m z = record z { n = z.n - m; p = drop m z.p }

unfoldable pub zio_init : {S : Type 0} → S → Zio S
zio_init d = record { n = 0; p = []; data_ = d }

module _ {S : Type 0} (reader : S → Option Bytes × S) where
  abbrev filled : Zio S → Option Bytes × S → Option ℕ × Zio S
  filled z (none, d) = (none, record z { data_ = d })
  filled z (some [], d) = (none, record z { data_ = d })
  filled z (some (c ∷ bs), d) = (some c, record { n = length bs; p = bs; data_ = d })

  -- a byte, or `none` for EOZ
  unfoldable pub fill : Zio S → Option ℕ × Zio S
  fill z = filled z (reader z.data_)

  -- `luaZ_fill` removed the first byte; put back it
  abbrev put_back : Option ℕ × Zio S → Option ℕ × Zio S
  put_back (none, z) = (none, z)
  put_back (some c, z) = (some c, record z { n = z.n + 1; p = c ∷ z.p })

  unfoldable pub lookahead : Zio S → Option ℕ × Zio S
  unfolding fill
  lookahead z = if z.n == 0 then put_back (fill z) else (some (first_byte z.p), z)

  abbrev pub copied : Bytes → Option (ℕ × Bytes × Zio S) → Option (ℕ × Bytes × Zio S)
  copied bs none = none
  copied bs (some (missing, more, z)) = some (missing, bs ++ more, z)

  -- one round of `luaZ_read` and what follows it, after the lookahead
  abbrev pub read_round :
      (n : ℕ)
      → (ℕ → Zio S → Option (ℕ × Bytes × Zio S))
      → Option ℕ × Zio S
      → Option (ℕ × Bytes × Zio S)
  read_round n later (none, z) = some (n, [], z)
  read_round n later (some c, z) =
      let m = if leb n z.n then n else z.n in copied (take m z.p) (later (n - m) (advance m z))

  -- The loop of `luaZ_read` on the rounds left, with the number of bytes to read: the number of missing
  -- bytes, and what is written to the buffer. `none` is fuel run out.
  unfoldable pub read_loop : ℕ → ℕ → Zio S → Option (ℕ × Bytes × Zio S)
  unfolding lookahead
  read_loop zero n z = if n == 0 then some (0, [], z) else none
  read_loop (suc k) n z =
      let r = read_round n (λ n' z'. read_loop k n' z') (lookahead z) in
      if n == 0 then some (0, [], z) else r

  unfoldable pub luaz_read : ℕ → Zio S → Option (ℕ × Bytes × Zio S)
  unfolding read_loop
  luaz_read n z = read_loop n n z
