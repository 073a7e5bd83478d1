-- ===== src/Core/Binary/Dump.antt =====
-- luascript/lua/ldump.c. The writer is a parameter: it is given a block and returns a status and its
-- new state.
use luascript.Prelude.{
  ℕ, suc, ◌+◌, Bool, true, false, Option, none, some, List, [], ◌∷◌, ◌++◌, ◌==◌, if◌then◌else◌,
  ◌||◌, length,
}
use luascript.Prelude.Bytes.{Bytes, bytes_eq}
use luascript.Core.Value.{Number}
use luascript.Core.Binary.{
  Image, Constant, knil, kboolean, knumber, kstring, LocVar, ProtoInfo, Proto, Protos, proto,
  no_protos, more_protos, word_bytes, words_bytes, header,
}

pub record DumpState (W : Type 0) : Type 0 where
  pub sink : W
  pub status : ℕ

abbrev pub bit : Bool → ℕ
bit true = 1
bit false = 0

abbrev pub kept : {A : Type 0} → Bool → List A → List A
kept true xs = []
kept false xs = xs

-- `f->source==p`: strings are interned, so equal strings are one object
abbrev pub same_source : Bytes → Option Bytes → Bool
same_source s none = false
same_source s (some p) = bytes_eq s p

abbrev pub dumped_source : Bool → Bytes → Option Bytes → Option Bytes
dumped_source strip s p = if same_source s p || strip then none else some s

abbrev pub count : {Num : Type 0} → Protos Num → ℕ
count no_protos = 0
count (more_protos f fs) = suc (count fs)

module _ {N : Number} (image : Image N) {W : Type 0} (writer : W → Bytes → ℕ × W) where
  abbrev pub written : ℕ × W → DumpState W
  written (r, w) = record { sink = w; status = r }

  unfoldable pub dump_block : Bytes → DumpState W → DumpState W
  dump_block b d = if d.status == 0 then written (writer d.sink b) else d

  unfoldable pub dump_char : ℕ → DumpState W → DumpState W
  dump_char y = dump_block (word_bytes 1 y)

  unfoldable pub dump_int : ℕ → DumpState W → DumpState W
  dump_int x = dump_block (word_bytes 4 x)

  unfoldable pub dump_number : N.Num → DumpState W → DumpState W
  dump_number x = dump_block (image.to_bytes x)

  -- of 4-byte elements
  unfoldable pub dump_vector : List ℕ → DumpState W → DumpState W
  dump_vector ns d = dump_block (words_bytes ns) (dump_int (length ns) d)

  unfoldable pub dump_string : Option Bytes → DumpState W → DumpState W
  dump_string none d = dump_block (word_bytes 8 0) d
  dump_string (some s) d = dump_block (s ++ 0 ∷ []) (dump_block (word_bytes 8 (length s + 1)) d)

  unfoldable pub dump_constant : Constant N.Num → DumpState W → DumpState W
  dump_constant knil d = dump_char 0 d
  dump_constant (kboolean b) d = dump_char (bit b) (dump_char 1 d)
  dump_constant (knumber n) d = dump_number n (dump_char 3 d)
  dump_constant (kstring s) d = dump_string s (dump_char 4 d)

  -- `for (i=0; i<n; i++)` over an array
  unfoldable pub dump_each :
      {A : Type 0} → (A → DumpState W → DumpState W) → List A → DumpState W → DumpState W
  dump_each step [] d = d
  dump_each step (x ∷ xs) d = dump_each step xs (step x d)

  unfoldable pub dump_locvar : LocVar → DumpState W → DumpState W
  dump_locvar v d = dump_int v.endpc (dump_int v.startpc (dump_string v.varname d))

  unfoldable pub dump_debug : Bool → ProtoInfo N.Num → DumpState W → DumpState W
  dump_debug strip f d =
      let d₁ = dump_vector (kept strip f.lineinfo) d in
      let d₂ = dump_int (length (kept strip f.locvars)) d₁ in
      let d₃ = dump_each dump_locvar (kept strip f.locvars) d₂ in
      let d₄ = dump_int (length (kept strip f.upvalues)) d₃ in
      dump_each dump_string (kept strip f.upvalues) d₄

  -- `DumpFunction` up to the call of `DumpConstants`
  unfoldable pub dump_head : Bool → ProtoInfo N.Num → Option Bytes → DumpState W → DumpState W
  dump_head strip f p d =
      let d₁ = dump_string (dumped_source strip f.source p) d in
      let d₂ = dump_int f.linedefined d₁ in
      let d₃ = dump_int f.lastlinedefined d₂ in
      let d₄ = dump_char f.nups d₃ in
      let d₅ = dump_char f.numparams d₄ in
      let d₆ = dump_char f.is_vararg d₅ in
      let d₇ = dump_char f.maxstacksize d₆ in dump_vector f.code d₇

  -- `DumpConstants` up to the prototypes inside
  unfoldable pub dump_values : List (Constant N.Num) → DumpState W → DumpState W
  dump_values k d = dump_each dump_constant k (dump_int (length k) d)

  unfoldable mutual
    pub dump_function : Bool → Proto N.Num → Option Bytes → DumpState W → DumpState W
    dump_function strip (proto f fs) p d =
        let d₁ = dump_values f.k (dump_head strip f p d) in
        let d₂ = dump_functions strip fs (some f.source) (dump_int (count fs) d₁) in
        dump_debug strip f d₂

    pub dump_functions : Bool → Protos N.Num → Option Bytes → DumpState W → DumpState W
    dump_functions strip no_protos p d = d
    dump_functions strip (more_protos f fs) p d =
        dump_functions strip fs p (dump_function strip f p d)

  unfoldable pub dump : Proto N.Num → W → Bool → DumpState W
  dump f w strip =
      let d : DumpState W = record { sink = w; status = 0 } in
      dump_function strip f none (dump_block header d)
