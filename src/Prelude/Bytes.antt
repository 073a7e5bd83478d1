-- ===== src/Prelude/Bytes.antt =====
-- Byte strings: what the C and C++ code uses of `std::string` and of the C string functions. A byte
-- is a number; a `char *` is the list of the bytes before its NUL.
use Prim.Native.Char.{code}
use Prim.Native.String.{String}
use mathlib.Core.Option
use luascript.Prelude.{
  ◌≡◌, refl, arith, ℕ, suc, ◌+◌, ◌-◌, ◌*◌, Bool, true, false, ◌&&◌, ◌||◌, Option, none, some, List,
  [], ◌∷◌, ◌==◌, leb, if◌then◌else◌,
}
use luascript.Prelude.Int.{ℤ, pos, sub_ℕ}

abbrev pub Bytes : Type 0
Bytes = List ℕ

-- the bytes of an ASCII literal
abbrev pub codes : String → Bytes
codes String.[] = []
codes (String.◌∷◌ c s) = code c ∷ codes s

-- `s.c_str()` read as a C string: it ends at the first NUL
unfoldable pub c_str : Bytes → Bytes
c_str [] = []
c_str (c ∷ s) = if c == 0 then [] else c ∷ c_str s

unfoldable pub starts_with : Bytes → Bytes → Bool
starts_with [] s = true
starts_with (x ∷ xs) [] = false
starts_with (x ∷ xs) (c ∷ s) = x == c && starts_with xs s

-- `s.find(needle)`: the first position, `none` for npos
unfoldable pub find : Bytes → Bytes → Option ℕ
unfolding starts_with
find needle [] = if starts_with needle [] then some 0 else none
find needle (c ∷ s) =
    let later = find needle s in if starts_with needle (c ∷ s) then some 0 else Option.map suc later

abbrev pub or_here : Option ℕ → Bool → Option ℕ
or_here (some i) here = some (suc i)
or_here none here = if here then some 0 else none

-- `s.rfind(needle)`: the last position
unfoldable pub rfind : Bytes → Bytes → Option ℕ
unfolding starts_with
rfind needle [] = if starts_with needle [] then some 0 else none
rfind needle (c ∷ s) = or_here (rfind needle s) (starts_with needle (c ∷ s))

-- `sscanf(s, "%d", &n)`: spaces, a sign, digits; `none` where nothing is stored
abbrev pub is_space : ℕ → Bool
is_space c = c == 32 || (leb 9 c && leb c 13)

abbrev pub is_digit : ℕ → Bool
is_digit c = leb 48 c && leb c 57

unfoldable pub scan_digits : ℕ → Bytes → ℕ
scan_digits acc [] = acc
scan_digits acc (c ∷ s) =
    let rest = scan_digits (acc * 10 + (c - 48)) s in if is_digit c then rest else acc

unfoldable pub scan_natural : Bytes → Option ℕ
unfolding scan_digits
scan_natural [] = none
scan_natural (c ∷ s) = if is_digit c then some (scan_digits (c - 48) s) else none

abbrev pub minus : ℕ → ℤ
minus n = sub_ℕ 0 n

unfoldable pub scan_signed : Bytes → Option ℤ
unfolding scan_natural
scan_signed [] = none
scan_signed (c ∷ s) =
    if c == b'-'
    then Option.map minus (scan_natural s)
    else if c == b'+'
    then Option.map pos (scan_natural s)
    else Option.map pos (scan_natural (c ∷ s))

unfoldable pub sscanf_d : Bytes → Option ℤ
unfolding scan_signed
sscanf_d [] = none
sscanf_d (c ∷ s) = let rest = sscanf_d s in if is_space c then rest else scan_signed (c ∷ s)

unfoldable pub bytes_eq : Bytes → Bytes → Bool
bytes_eq [] [] = true
bytes_eq [] (d ∷ t) = false
bytes_eq (c ∷ s) [] = false
bytes_eq (c ∷ s) (d ∷ t) = c == d && bytes_eq s t

pub bytes_eq_refl : (s : Bytes) → bytes_eq s s ≡ true
unfolding bytes_eq
bytes_eq_refl [] = refl
bytes_eq_refl (c ∷ s) = ground (arith, bytes_eq_refl s)

pub bytes_eq_sound : (s t : Bytes) → bytes_eq s t ≡ true → s ≡ t
unfolding bytes_eq
bytes_eq_sound [] [] h = refl
bytes_eq_sound [] (d ∷ t) h = cc
bytes_eq_sound (c ∷ s) [] h = cc
bytes_eq_sound (c ∷ s) (d ∷ t) h = ground (arith, bytes_eq_sound s t)
