-- ===== src/Core/Binary/Functions.antt =====
-- What `LoadFunction` loads from the bytes of a function.
use luascript.Prelude.{
  Each, ℕ, zero, suc, ◌≡◌, refl, ap, ◌∙◌, sym, ◌⊎◌, inl, inr, Bool, true, false, ◌||◌, Bool-cases,
  Option, none, some, List, [], ◌∷◌, arith, length,
}
use luascript.Prelude.Bytes.{Bytes, bytes_eq, bytes_eq_refl, bytes_eq_sound, codes}
use luascript.Core.Value.{Number}
use luascript.Core.Binary.{Image, ProtoInfo, Proto, Protos, proto, no_protos, more_protos, header}
use luascript.Core.Binary.Words.{AreWords}
use luascript.Core.Binary.Dump.{count, same_source, dumped_source}
use luascript.Core.Binary.Undump.{
  load_each, load_array, load_int, load_block, load_locvar, load_string, load_debug, load_head,
  load_function, load_header, undump, protos_of, source_or,
}
use luascript.Core.Binary.Format.{
  debug_part, HasSize, FitsString, FitsLocvar, FitsInfo, Fits, AllFit, loaded, loaded_all,
  loaded_source, debug_bytes, head_bytes, function_bytes, functions_bytes, chunk_bytes,
  locvar_bytes, string_bytes,
}
use luascript.Core.Binary.Loads.{
  Loads, bind-Loads, last-Loads, ret-Loads, block-Loads, char-Loads, int-Loads, string-Loads,
  vector-Loads, array-Loads, locvar-Loads, values-Loads,
}

length-header : length header ≡ 12
unfolding header
length-header = refl

debug_part-HasSize :
    {A : Type 0} (strip : Bool) (xs : List A) → HasSize xs → HasSize (debug_part strip xs)
debug_part-HasSize true xs h = omega arith
debug_part-HasSize false xs h = h

debug_part-Each :
    {A : Type 0} (P : A → Type 0) (strip : Bool) (xs : List A)
    → Each P xs
    → Each P (debug_part strip xs)
debug_part-Each P true xs h = tt
debug_part-Each P false xs h = h

debug_part-AreWords : (strip : Bool) (ns : List ℕ) → AreWords ns → AreWords (debug_part strip ns)
debug_part-AreWords true ns h = tt
debug_part-AreWords false ns h = h

-- the source that the loader assumes, q, is the one that the dumper may leave out, p
abbrev Agree : Bool → Option Bytes → Bytes → Type 0
Agree strip p q = (strip ≡ true) ⊎ ((p ≡ none) ⊎ (p ≡ some q))

or_true : (b : Bool) → (b || true) ≡ true
or_true true = refl
or_true false = refl

or_false : (b : Bool) → (b || false) ≡ b
or_false true = refl
or_false false = refl

loaded_source_lem :
    (strip : Bool) (s : Bytes) (p : Option Bytes) (q : Bytes)
    → Agree strip p q
    → source_or (dumped_source strip s p) q ≡ loaded_source strip q s
loaded_source_lem true s p q a = rw (or_true (same_source s p))
loaded_source_lem false s none q a = refl
loaded_source_lem false s (some t) q (inl e) = cc
loaded_source_lem false s (some t) q (inr (inl e)) = cc
loaded_source_lem false s (some t) q (inr (inr e)) = elim (Bool-cases (bytes_eq s t)) [
  | inl same ↦ rw (or_false (bytes_eq s t), same) (sym (bytes_eq_sound s t same ∙ cc))
  | inr differ ↦ rw (or_false (bytes_eq s t), differ)
]

dumped-FitsString :
    (strip : Bool) (s : Bytes) (p : Option Bytes)
    → FitsString (some s)
    → FitsString (dumped_source strip s p)
dumped-FitsString strip s p h = elim (Bool-cases (same_source s p || strip)) [
  | inl left_out ↦ rw left_out tt
  | inr written ↦ rw written h
]

Agree-inside : (strip : Bool) (q s : Bytes) → Agree strip (some s) (loaded_source strip q s)
Agree-inside true q s = inl refl
Agree-inside false q s = inr (inr refl)

module _ {S : Type 0} (reader : S → Option Bytes × S) where
  debug-Loads :
      {Num : Type 0} (strip : Bool) (f : ProtoInfo Num)
      → FitsInfo f
      → Loads reader
          (load_debug reader)
          (debug_part strip f.lineinfo, debug_part strip f.locvars, debug_part strip f.upvalues)
          (debug_bytes strip f)
  unfolding load_debug debug_bytes
  debug-Loads strip f fits =
      let (lines, words) = fits.lineinfo in
      let (vars, each_var) = fits.locvars in
      let (ups, each_up) = fits.upvalues in
      bind-Loads reader _ _ (debug_part strip f.lineinfo) _ _ _
        (vector-Loads reader (debug_part strip f.lineinfo)
          (debug_part-HasSize strip f.lineinfo lines) (debug_part-AreWords strip f.lineinfo words))
        (bind-Loads reader _ _ (debug_part strip f.locvars) _ _ _
          (array-Loads reader (load_locvar reader) FitsLocvar locvar_bytes (locvar-Loads reader)
            (debug_part strip f.locvars) (debug_part-HasSize strip f.locvars vars)
            (debug_part-Each FitsLocvar strip f.locvars each_var))
          (last-Loads reader _ _ (debug_part strip f.upvalues) _ _
            (array-Loads reader (load_string reader) FitsString string_bytes (string-Loads reader)
              (debug_part strip f.upvalues) (debug_part-HasSize strip f.upvalues ups)
              (debug_part-Each FitsString strip f.upvalues each_up))
            (λ z. refl)))

  list_of : {Num : Type 0} → Protos Num → List (Proto Num)
  list_of no_protos = []
  list_of (more_protos f fs) = f ∷ list_of fs

  protos_of-list_of : {Num : Type 0} (fs : Protos Num) → protos_of (list_of fs) ≡ fs
  unfolding list_of
  protos_of-list_of no_protos = refl
  protos_of-list_of (more_protos f fs) = ap (more_protos f) (protos_of-list_of fs)

  module _ {N : Number} (image : Image N) (checkcode : Proto N.Num → Bool) where
    -- the prototype as it is after `load_head`
    abbrev head_of : Bool → Bytes → ProtoInfo N.Num → ProtoInfo N.Num
    head_of strip q f = record f {
      source = loaded_source strip q f.source;
      k = [];
      lineinfo = [];
      locvars = [];
      upvalues = [];
    }

    head-Loads :
        (strip : Bool) (f : ProtoInfo N.Num) (p : Option Bytes) (q : Bytes)
        → Agree strip p q
        → FitsInfo f
        → Loads reader (load_head reader image q) (head_of strip q f) (head_bytes strip f p)
    unfolding load_head head_bytes
    head-Loads strip f p q a fits =
        let (first, last) = fits.lines in
        let (ups, params, vararg, stack) = fits.chars in
        bind-Loads reader _ _ (dumped_source strip f.source p) _ _ _
          (string-Loads reader _ (dumped-FitsString strip f.source p fits.source))
          (bind-Loads reader _ _ f.linedefined _ _ _ (int-Loads reader _ first) (
            bind-Loads reader _ _ f.lastlinedefined _ _ _ (int-Loads reader _ last) (
              bind-Loads reader _ _ f.nups _ _ _ (char-Loads reader _ ups) (
                bind-Loads reader _ _ f.numparams _ _ _ (char-Loads reader _ params) (
                  bind-Loads reader _ _ f.is_vararg _ _ _ (char-Loads reader _ vararg) (
                    bind-Loads reader _ _ f.maxstacksize _ _ _ (char-Loads reader _ stack) (
                      last-Loads reader _ _ f.code _ _
                        (vector-Loads reader f.code fits.code.0 fits.code.1)
                        (λ z. rw (loaded_source_lem strip f.source p q a)))))))))

    mutual
      unfolding load_function load_array function_bytes loaded Fits list_of

      function-Loads :
          (f : Proto N.Num) (room : ℕ) (strip : Bool) (p : Option Bytes) (q : Bytes)
          → Agree strip p q
          → Fits checkcode strip q room f
          → Loads reader
              (load_function reader image checkcode room q)
              (loaded strip q f)
              (function_bytes image strip f p)
      function-Loads (proto f fs) zero strip p q a fits = absurd fits
      function-Loads (proto f fs) (suc room) strip p q a (info, size, check, inside) =
          let q' = loaded_source strip q f.source in
          let step = load_function reader image checkcode room q' in
          let fs' = list_of (loaded_all strip q' fs) in
          let same = protos_of-list_of (loaded_all strip q' fs) in
          let accepted : checkcode (loaded strip q (proto f fs)) ≡ true = check in
          bind-Loads reader _ _ (head_of strip q f) _ _ _ (head-Loads strip f p q a info) (
            bind-Loads reader _ _ f.k _ _ _ (values-Loads reader image f.k info.k.0 info.k.1) (
              bind-Loads reader (load_array reader step) _ fs' _ _ _
                (bind-Loads reader (load_int reader) (λ n. load_each n step) (count fs) fs' _ _
                  (int-Loads reader (count fs) size)
                  (functions-Loads fs room strip (some f.source) q' (Agree-inside strip q f.source)
                    inside))
                (last-Loads reader (load_debug reader) _ _ _ _ (debug-Loads strip f info)
                  (λ z. rw (same, accepted)))))

      functions-Loads :
          (fs : Protos N.Num) (room : ℕ) (strip : Bool) (p : Option Bytes) (q : Bytes)
          → Agree strip p q
          → AllFit checkcode strip q room fs
          → Loads reader
              (load_each (count fs) (load_function reader image checkcode room q))
              (list_of (loaded_all strip q fs))
              (functions_bytes image strip fs p)
      functions-Loads no_protos room strip p q a fits = ret-Loads reader []
      functions-Loads (more_protos f fs) room strip p q a (one, more) =
          bind-Loads reader _ _ (loaded strip q f) _ _ _ (function-Loads f room strip p q a one) (
            last-Loads reader (load_each (count fs) (load_function reader image checkcode room q)) _
              (list_of (loaded_all strip q fs)) _ _ (functions-Loads fs room strip p q a more)
              (λ z. refl))

    pub undump-Loads :
        (f : Proto N.Num) (strip : Bool) (room : ℕ)
        → Fits checkcode strip (codes "=?") room f
        → Loads reader
            (undump reader image checkcode room)
            (loaded strip (codes "=?") f)
            (chunk_bytes image strip f)
    unfolding undump load_header chunk_bytes
    undump-Loads f strip room fits =
        bind-Loads reader _ _ tt _ header _
          (last-Loads reader (load_block reader 12) _ header tt header
            (block-Loads reader 12 header length-header) (λ z. rw (bytes_eq_refl header)))
          (function-Loads f room strip none (codes "=?") (inr (inl refl)) fits)
