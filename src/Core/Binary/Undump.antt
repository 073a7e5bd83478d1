-- ===== src/Core/Binary/Undump.antt =====
-- luascript/lua/lundump.c, on the stream of luascript/lua/lzio.c. A step ends with a result, with the
-- reason that `error` puts in its message, or with `stuck`, if a read ran out of fuel. The nesting is
-- counted down from LUAI_MAXCCALLS instead of up to it. `luaG_checkcode` is a parameter.
use luascript.Prelude.{
  ℕ, zero, suc, ◌-◌, ◌*◌, ◌^◌, Bool, true, false, not, Option, none, some, List, [], ◌∷◌, ◌==◌, leb,
  if◌then◌else◌, take,
}
use luascript.Prelude.Bytes.{Bytes, bytes_eq, codes}
use luascript.Core.Value.{Number}
use luascript.Core.Stream.{Zio, luaz_read}
use luascript.Core.Binary.{
  Image, Constant, knil, kboolean, knumber, kstring, LocVar, ProtoInfo, Proto, Protos, proto,
  no_protos, more_protos, bytes_word, bytes_words, header,
}

pub data Loaded (A : Type 0) : Type 0 where
  ok : A → Loaded A
  err : Bytes → Loaded A
  stuck : Loaded A

abbrev pub L : Type 0 → Type 0 → Type 0
L S A = Zio S → Loaded A × Zio S

abbrev pub after : {S A B : Type 0} → Loaded A × Zio S → (A → L S B) → Loaded B × Zio S
after (ok a, z) f = f a z
after (err why, z) f = (err why, z)
after (stuck, z) f = (stuck, z)

infixl 5 ◌>>=◌ ◌>>◌
abbrev pub ◌>>=◌ : {S A B : Type 0} → L S A → (A → L S B) → L S B
◌>>=◌ m f z = after (m z) f

abbrev pub ◌>>◌ : {S B : Type 0} → L S (Unit {0}) → L S B → L S B
m >> k = m >>= λ _. k

abbrev pub ret : {S A : Type 0} → A → L S A
ret a z = (ok a, z)

abbrev pub fail : {S A : Type 0} → Bytes → L S A
fail why z = (err why, z)

-- IF (c, why)
abbrev pub refuse : {S : Type 0} → Bool → Bytes → L S (Unit {0})
refuse true why = fail why
refuse false why = ret tt

abbrev pub block_of : {S : Type 0} → Zio S → Option (ℕ × Bytes × Zio S) → Loaded Bytes × Zio S
block_of z none = (stuck, z)
block_of z (some (missing, b, z')) =
    (if missing == 0 then ok b else err (codes "unexpected end"), z')

abbrev pub protos_of : {Num : Type 0} → List (Proto Num) → Protos Num
protos_of [] = no_protos
protos_of (f ∷ fs) = more_protos f (protos_of fs)

abbrev pub source_or : Option Bytes → Bytes → Bytes
source_or none p = p
source_or (some s) p = s

-- `for (i=0; i<n; i++)` over a new array
unfoldable pub load_each : {S A : Type 0} → ℕ → L S A → L S (List A)
load_each zero step = ret []
load_each (suc n) step = do x ← step; xs ← load_each n step; ret (x ∷ xs)

module _ {S : Type 0} (reader : S → Option Bytes × S) where
  unfoldable pub load_block : ℕ → L S Bytes
  load_block size z = block_of z (luaz_read reader size z)

  -- a `char` or `lu_byte`, as its bits
  unfoldable pub load_char : L S ℕ
  unfolding load_block
  load_char = do b ← load_block 1; ret (bytes_word b)

  unfoldable pub load_int : L S ℕ
  unfolding load_block
  load_int = do
    b ← load_block 4
    let x = bytes_word b
    refuse (leb (2 ^ 31) x) (codes "bad integer")
    ret x

  -- the bytes but the trailing NUL
  unfoldable pub load_text : ℕ → L S (Option Bytes)
  unfolding load_block
  load_text size = do b ← load_block size; ret (some (take (size - 1) b))

  unfoldable pub load_string : L S (Option Bytes)
  unfolding load_block load_text
  load_string = do
    b ← load_block 8
    let size = bytes_word b
    if size == 0 then ret none else load_text size

  -- `LoadVector` of 4-byte elements, behind their number
  unfoldable pub load_vector : L S (List ℕ)
  unfolding load_int load_block
  load_vector = do n ← load_int; b ← load_block (n * 4); ret (bytes_words n b)

  -- an array behind its size
  unfoldable pub load_array : {A : Type 0} → L S A → L S (List A)
  unfolding load_int load_each
  load_array step = do n ← load_int; load_each n step

  unfoldable pub load_locvar : L S LocVar
  unfolding load_string load_int
  load_locvar = do
    name ← load_string
    start ← load_int
    stop ← load_int
    ret (record { varname = name; startpc = start; endpc = stop })

  -- `LoadDebug`: the lines, the local variables and the names of the upvalues
  unfoldable pub load_debug : L S (List ℕ × List LocVar × List (Option Bytes))
  unfolding load_vector load_array load_locvar load_string
  load_debug = do
    lineinfo ← load_vector
    locvars ← load_array load_locvar
    upvalues ← load_array load_string
    ret (lineinfo, locvars, upvalues)

  module _ {N : Number} (image : Image N) where
    unfoldable pub load_number : L S N.Num
    unfolding load_block
    load_number = do b ← load_block 8; ret (image.of_bytes b)

    abbrev pub constant_of_tag : ℕ → L S (Constant N.Num)
    constant_of_tag t =
        if t == 0
        then ret knil
        else if t == 1
        then (load_char >>= λ c. ret (kboolean (not (c == 0))))
        else if t == 3
        then (load_number >>= λ n. ret (knumber n))
        else if t == 4
        then (load_string >>= λ s. ret (kstring s))
        else fail (codes "bad constant")

    unfoldable pub load_constant : L S (Constant N.Num)
    unfolding load_char load_number load_string
    load_constant = do t ← load_char; constant_of_tag t

    -- `LoadConstants` up to the prototypes inside
    unfoldable pub load_values : L S (List (Constant N.Num))
    unfolding load_array load_constant
    load_values = load_array load_constant

    -- `LoadFunction` up to the call of `LoadConstants`; the other arrays are still empty
    unfoldable pub load_head : Bytes → L S (ProtoInfo N.Num)
    unfolding load_string load_int load_char load_vector
    load_head p = do
      s ← load_string
      linedefined ← load_int
      lastlinedefined ← load_int
      nups ← load_char
      numparams ← load_char
      is_vararg ← load_char
      maxstacksize ← load_char
      code ← load_vector
      ret (record {
        source = source_or s p;
        linedefined = linedefined;
        lastlinedefined = lastlinedefined;
        nups = nups;
        numparams = numparams;
        is_vararg = is_vararg;
        maxstacksize = maxstacksize;
        code = code;
        k = [];
        lineinfo = [];
        locvars = [];
        upvalues = [];
      })

    module _ (checkcode : Proto N.Num → Bool) where
      abbrev pub checked : Proto N.Num → L S (Proto N.Num)
      checked f = do refuse (not (checkcode f)) (codes "bad code"); ret f

      unfoldable pub load_function : ℕ → Bytes → L S (Proto N.Num)
      unfolding load_head load_values load_array load_debug
      load_function zero p = fail (codes "code too deep")
      load_function (suc room) p = do
        head ← load_head p
        k ← load_values
        fs ← load_array (load_function room head.source)
        (lineinfo, locvars, upvalues) ← load_debug
        checked (
            proto
              (record head { k = k; lineinfo = lineinfo; locvars = locvars; upvalues = upvalues })
              (protos_of fs))

      unfoldable pub load_header : L S (Unit {0})
      unfolding load_block
      load_header = do s ← load_block 12; refuse (not (bytes_eq header s)) (codes "bad header")

      -- with LUAI_MAXCCALLS less the depth of C calls so far
      unfoldable pub undump : ℕ → L S (Proto N.Num)
      unfolding load_header load_function
      undump room = do load_header; load_function room (codes "=?")
