-- ===== src/Core/Binary/Format.antt =====
-- The format of a precompiled chunk, told apart from the code that writes and reads it: the bytes of
-- each part, the prototypes that have such bytes, and what is left of one that is stripped.
use luascript.Prelude.{
  ℕ, zero, suc, ◌+◌, ◌^◌, ◌<◌, ◌≡◌, Bool, true, false, Option, none, some, List, [], ◌∷◌, ◌++◌,
  if◌then◌else◌, length, Each,
}
use luascript.Prelude.Bytes.{Bytes}
use luascript.Core.Value.{Number}
use luascript.Core.Binary.{
  Image, Constant, knil, kboolean, knumber, kstring, LocVar, ProtoInfo, Proto, Protos, proto,
  no_protos, more_protos, word_bytes, words_bytes, header,
}
use luascript.Core.Binary.Words.{AreWords}
use luascript.Core.Binary.Dump.{bit, dumped_source, count}

-- an array's size is an `int`
abbrev pub HasSize : {A : Type 0} → List A → Type 0
HasSize xs = length xs < 2 ^ 31

-- with its NUL a string's size is a `size_t`
abbrev pub FitsString : Option Bytes → Type 0
FitsString none = Unit
FitsString (some s) = length s + 1 < 2 ^ 64

abbrev pub FitsConstant : {Num : Type 0} → Constant Num → Type 0
FitsConstant (kstring s) = FitsString s
FitsConstant _ = Unit

abbrev pub FitsLocvar : LocVar → Type 0
FitsLocvar v = FitsString v.varname × (v.startpc < 2 ^ 31) × (v.endpc < 2 ^ 31)

pub record FitsInfo {Num : Type 0} (f : ProtoInfo Num) : Type 0 where
  pub source : FitsString (some f.source)
  pub lines : (f.linedefined < 2 ^ 31) × (f.lastlinedefined < 2 ^ 31)
  pub chars : (f.nups < 256) × (f.numparams < 256) × (f.is_vararg < 256) × (f.maxstacksize < 256)
  pub code : HasSize f.code × AreWords f.code
  pub k : HasSize f.k × Each FitsConstant f.k
  pub lineinfo : HasSize f.lineinfo × AreWords f.lineinfo
  pub locvars : HasSize f.locvars × Each FitsLocvar f.locvars
  pub upvalues : HasSize f.upvalues × Each FitsString f.upvalues

-- what is loaded for a prototype inside one of source q
abbrev pub loaded_source : Bool → Bytes → Bytes → Bytes
loaded_source strip q s = if strip then q else s

-- what is left of an array of debug information: nothing when it is stripped
abbrev pub debug_part : {A : Type 0} → Bool → List A → List A
debug_part true xs = []
debug_part false xs = xs

abbrev pub loaded_info : {Num : Type 0} → Bool → Bytes → ProtoInfo Num → ProtoInfo Num
loaded_info strip q f = record f {
  source = loaded_source strip q f.source;
  lineinfo = debug_part strip f.lineinfo;
  locvars = debug_part strip f.locvars;
  upvalues = debug_part strip f.upvalues;
}

unfoldable mutual
  pub loaded : {Num : Type 0} → Bool → Bytes → Proto Num → Proto Num
  loaded strip q (proto f fs) =
      proto (loaded_info strip q f) (loaded_all strip (loaded_source strip q f.source) fs)

  pub loaded_all : {Num : Type 0} → Bool → Bytes → Protos Num → Protos Num
  loaded_all strip q no_protos = no_protos
  loaded_all strip q (more_protos f fs) = more_protos (loaded strip q f) (loaded_all strip q fs)

-- a prototype that can be dumped and loaded, at most `room` deep, and passes the check of its code
module _ {Num : Type 0} (checkcode : Proto Num → Bool) where
  unfoldable mutual
    pub Fits : Bool → Bytes → ℕ → Proto Num → Type 0
    Fits strip q zero (proto f fs) = ⊥
    Fits strip q (suc room) (proto f fs) =
        FitsInfo f
        × (count fs < 2 ^ 31)
        × (checkcode (loaded strip q (proto f fs)) ≡ true)
        × AllFit strip (loaded_source strip q f.source) room fs

    pub AllFit : Bool → Bytes → ℕ → Protos Num → Type 0
    AllFit strip q room no_protos = Unit
    AllFit strip q room (more_protos f fs) = Fits strip q room f × AllFit strip q room fs

unfoldable pub string_bytes : Option Bytes → Bytes
string_bytes none = word_bytes 8 0
string_bytes (some s) = word_bytes 8 (length s + 1) ++ (s ++ 0 ∷ [])

unfoldable pub vector_bytes : List ℕ → Bytes
vector_bytes ns = word_bytes 4 (length ns) ++ words_bytes ns

unfoldable pub each_bytes : {A : Type 0} → (A → Bytes) → List A → Bytes
each_bytes image [] = []
each_bytes image (x ∷ xs) = image x ++ each_bytes image xs

-- an array behind its size
unfoldable pub array_bytes : {A : Type 0} → (A → Bytes) → List A → Bytes
array_bytes image xs = word_bytes 4 (length xs) ++ each_bytes image xs

unfoldable pub locvar_bytes : LocVar → Bytes
locvar_bytes v = string_bytes v.varname ++ (word_bytes 4 v.startpc ++ word_bytes 4 v.endpc)

unfoldable pub debug_bytes : {Num : Type 0} → Bool → ProtoInfo Num → Bytes
debug_bytes strip f =
    vector_bytes (debug_part strip f.lineinfo)
    ++ (array_bytes locvar_bytes (debug_part strip f.locvars)
        ++ array_bytes string_bytes (debug_part strip f.upvalues))

unfoldable pub head_bytes : {Num : Type 0} → Bool → ProtoInfo Num → Option Bytes → Bytes
head_bytes strip f p =
    string_bytes (dumped_source strip f.source p)
    ++ (word_bytes 4 f.linedefined
        ++ (word_bytes 4 f.lastlinedefined
            ++ (word_bytes 1 f.nups
                ++ (word_bytes 1 f.numparams
                    ++ (word_bytes 1 f.is_vararg
                        ++ (word_bytes 1 f.maxstacksize ++ vector_bytes f.code))))))

module _ {N : Number} (image : Image N) where
  unfoldable pub constant_bytes : Constant N.Num → Bytes
  constant_bytes knil = word_bytes 1 0
  constant_bytes (kboolean b) = word_bytes 1 1 ++ word_bytes 1 (bit b)
  constant_bytes (knumber n) = word_bytes 1 3 ++ image.to_bytes n
  constant_bytes (kstring s) = word_bytes 1 4 ++ string_bytes s

  unfoldable mutual
    pub function_bytes : Bool → Proto N.Num → Option Bytes → Bytes
    function_bytes strip (proto f fs) p =
        head_bytes strip f p
        ++ (array_bytes constant_bytes f.k
            ++ ((word_bytes 4 (count fs) ++ functions_bytes strip fs (some f.source))
                ++ debug_bytes strip f))

    pub functions_bytes : Bool → Protos N.Num → Option Bytes → Bytes
    functions_bytes strip no_protos p = []
    functions_bytes strip (more_protos f fs) p =
        function_bytes strip f p ++ functions_bytes strip fs p

  unfoldable pub chunk_bytes : Bool → Proto N.Num → Bytes
  chunk_bytes strip f = header ++ function_bytes strip f none
