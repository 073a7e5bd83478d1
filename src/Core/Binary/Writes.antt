-- ===== src/Core/Binary/Writes.antt =====
-- What `luaU_dump` writes through a writer that takes every block.
use luascript.Prelude.{
  ℕ, ◌+◌, ◌≡◌, refl, ap, ◌∙◌, Bool, true, false, Option, none, some, List, [], ◌∷◌, ◌++◌,
  append_assoc, append-nil, length,
}
use luascript.Prelude.Bytes.{Bytes}
use luascript.Core.Value.{Number}
use luascript.Core.Binary.{
  Image, Constant, knil, kboolean, knumber, kstring, LocVar, ProtoInfo, Proto, Protos, proto,
  no_protos, more_protos, word_bytes, words_bytes, header,
}
use luascript.Core.Binary.Dump.{
  DumpState, dump_block, dump_char, dump_int, dump_number, dump_vector, dump_string, dump_constant,
  dump_each, dump_locvar, dump_debug, dump_head, dump_values, dump_function, dump_functions, dump,
  bit, count, dumped_source,
}
use luascript.Core.Binary.Format.{
  string_bytes, vector_bytes, each_bytes, array_bytes, locvar_bytes, debug_bytes, head_bytes,
  constant_bytes, function_bytes, functions_bytes, chunk_bytes,
}

module _ {N : Number} (image : Image N) {W : Type 0} (writer : W → Bytes → ℕ × W) (out : W → Bytes)
    (accepts : (w : W) (b : Bytes) → ((writer w b).0 ≡ 0) × (out (writer w b).1 ≡ out w ++ b)) where
  -- the step leaves the status at 0 and puts these bytes behind those that were written
  abbrev Writes : (DumpState W → DumpState W) → Bytes → Type 0
  Writes step b =
      (d : DumpState W)
      → d.status ≡ 0
      → ((step d).status ≡ 0) × (out (step d).sink ≡ out d.sink ++ b)

  block-Writes : (b : Bytes) → Writes (dump_block image writer b) b
  unfolding dump_block
  block-Writes b d h =
      let (zero_status, appended) = accepts d.sink b in (rw h zero_status, rw h appended)

  none-Writes : Writes (λ d. d) []
  none-Writes d h = (h, rw append-nil)

  then-Writes :
      (s t : DumpState W → DumpState W) (b c : Bytes)
      → Writes s b
      → Writes t c
      → Writes (λ d. t (s d)) (b ++ c)
  then-Writes s t b c hs ht d h =
      let (ok_s, out_s) = hs d h in
      let (ok_t, out_t) = ht (s d) ok_s in
      (ok_t, out_t ∙ ap (λ u. u ++ c) out_s ∙ append_assoc (out d.sink) b c)

  char-Writes : (y : ℕ) → Writes (dump_char image writer y) (word_bytes 1 y)
  unfolding dump_char
  char-Writes y = block-Writes (word_bytes 1 y)

  int-Writes : (x : ℕ) → Writes (dump_int image writer x) (word_bytes 4 x)
  unfolding dump_int
  int-Writes x = block-Writes (word_bytes 4 x)

  vector-Writes : (ns : List ℕ) → Writes (dump_vector image writer ns) (vector_bytes ns)
  unfolding dump_vector vector_bytes
  vector-Writes ns =
      then-Writes (dump_int image writer (length ns)) (dump_block image writer (words_bytes ns)) _ _
        (int-Writes (length ns)) (block-Writes (words_bytes ns))

  string-Writes : (s : Option Bytes) → Writes (dump_string image writer s) (string_bytes s)
  unfolding dump_string string_bytes
  string-Writes none = block-Writes (word_bytes 8 0)
  string-Writes (some s) =
      then-Writes (dump_block image writer (word_bytes 8 (length s + 1)))
        (dump_block image writer (s ++ 0 ∷ [])) _ _ (block-Writes (word_bytes 8 (length s + 1)))
        (block-Writes (s ++ 0 ∷ []))

  constant-Writes :
      (k : Constant N.Num) → Writes (dump_constant image writer k) (constant_bytes image k)
  unfolding dump_constant constant_bytes dump_number
  constant-Writes knil = char-Writes 0
  constant-Writes (kboolean b) =
      then-Writes (dump_char image writer 1) (dump_char image writer (bit b)) _ _ (char-Writes 1)
        (char-Writes (bit b))
  constant-Writes (knumber n) =
      then-Writes (dump_char image writer 3) (dump_block image writer (image.to_bytes n)) _ _
        (char-Writes 3) (block-Writes (image.to_bytes n))
  constant-Writes (kstring s) =
      then-Writes (dump_char image writer 4) (dump_string image writer s) _ _ (char-Writes 4)
        (string-Writes s)

  each-Writes :
      {A : Type 0} (step : A → DumpState W → DumpState W) (bytes : A → Bytes)
      → ((x : A) → Writes (step x) (bytes x))
      → (xs : List A) → Writes (dump_each image writer step xs) (each_bytes bytes xs)
  unfolding dump_each each_bytes
  each-Writes step bytes one [] = none-Writes
  each-Writes step bytes one (x ∷ xs) =
      then-Writes (step x) (dump_each image writer step xs) _ _ (one x)
        (each-Writes step bytes one xs)

  array-Writes :
      {A : Type 0} (step : A → DumpState W → DumpState W) (bytes : A → Bytes)
      → ((x : A) → Writes (step x) (bytes x))
      → (xs : List A)
      → Writes
          (λ d. dump_each image writer step xs (dump_int image writer (length xs) d))
          (array_bytes bytes xs)
  unfolding array_bytes
  array-Writes step bytes one xs =
      then-Writes (dump_int image writer (length xs)) (dump_each image writer step xs) _ _
        (int-Writes (length xs)) (each-Writes step bytes one xs)

  locvar-Writes : (v : LocVar) → Writes (dump_locvar image writer v) (locvar_bytes v)
  unfolding dump_locvar locvar_bytes
  locvar-Writes v =
      then-Writes (dump_string image writer v.varname)
        (λ d. dump_int image writer v.endpc (dump_int image writer v.startpc d)) _ _
        (string-Writes v.varname)
        (then-Writes (dump_int image writer v.startpc) (dump_int image writer v.endpc) _ _
          (int-Writes v.startpc) (int-Writes v.endpc))

  values-Writes :
      (k : List (Constant N.Num))
      → Writes (dump_values image writer k) (array_bytes (constant_bytes image) k)
  unfolding dump_values
  values-Writes k =
      array-Writes (dump_constant image writer) (constant_bytes image) constant-Writes k

  debug-Writes :
      (strip : Bool) (f : ProtoInfo N.Num)
      → Writes (dump_debug image writer strip f) (debug_bytes strip f)
  unfolding dump_debug debug_bytes
  debug-Writes true f =
      let none_left =
        then-Writes _ _ _ _ (array-Writes (dump_locvar image writer) locvar_bytes locvar-Writes [])
          (array-Writes (dump_string image writer) string_bytes string-Writes []) in
      then-Writes (dump_vector image writer []) _ _ _ (vector-Writes []) none_left
  debug-Writes false f =
      let locvars = array-Writes (dump_locvar image writer) locvar_bytes locvar-Writes f.locvars in
      let upvalues =
        array-Writes (dump_string image writer) string_bytes string-Writes f.upvalues in
      then-Writes (dump_vector image writer f.lineinfo) _ _ _ (vector-Writes f.lineinfo)
        (then-Writes _ _ _ _ locvars upvalues)

  head-Writes :
      (strip : Bool) (f : ProtoInfo N.Num) (p : Option Bytes)
      → Writes (dump_head image writer strip f p) (head_bytes strip f p)
  unfolding dump_head head_bytes
  head-Writes strip f p = then-Writes _ _ _ _ (string-Writes (dumped_source strip f.source p)) (
      then-Writes _ _ _ _ (int-Writes f.linedefined) (
        then-Writes _ _ _ _ (int-Writes f.lastlinedefined) (
          then-Writes _ _ _ _ (char-Writes f.nups) (
            then-Writes _ _ _ _ (char-Writes f.numparams) (
              then-Writes _ _ _ _ (char-Writes f.is_vararg)
                (then-Writes _ _ _ _ (char-Writes f.maxstacksize) (vector-Writes f.code)))))))

  mutual
    unfolding dump_function function_bytes

    function-Writes :
        (strip : Bool) (f : Proto N.Num) (p : Option Bytes)
        → Writes (dump_function image writer strip f p) (function_bytes image strip f p)
    function-Writes strip (proto f fs) p = then-Writes _ _ _ _ (head-Writes strip f p) (
        then-Writes _ _ _ _ (values-Writes f.k) (
          then-Writes _ _ _ _
            (then-Writes _ _ _ _ (int-Writes (count fs))
              (functions-Writes strip fs (some f.source)))
            (debug-Writes strip f)))

    functions-Writes :
        (strip : Bool) (fs : Protos N.Num) (p : Option Bytes)
        → Writes (dump_functions image writer strip fs p) (functions_bytes image strip fs p)
    functions-Writes strip no_protos p = none-Writes
    functions-Writes strip (more_protos f fs) p =
        then-Writes _ _ _ _ (function-Writes strip f p) (functions-Writes strip fs p)

  -- Through a writer that takes every block, `luaU_dump` returns status 0 and appends exactly the bytes
  -- of the format.
  pub dump-chunk_bytes :
      (strip : Bool) (f : Proto N.Num) (w : W)
      → ((dump image writer f w strip).status ≡ 0)
        × (out (dump image writer f w strip).sink ≡ out w ++ chunk_bytes image strip f)
  unfolding dump chunk_bytes
  dump-chunk_bytes strip f w =
      then-Writes (dump_block image writer header) (dump_function image writer strip f none) _ _
        (block-Writes header) (function-Writes strip f none) (record { sink = w; status = 0 }) refl
