-- ===== src/Script/Exception/Number.antt =====
-- `sscanf("%d")` reads back the line number that `addinfo` prints.
use mathlib.Core.Logic.{dif_pos, dif_neg}
use mathlib.Core.WellFounded.{Acc}
use native.Mathlib.Bridge.{le_prop}
use native.Mathlib.Decide.{dec_le}
use luascript.Prelude.{
  ℕ, ◌+◌, ◌-◌, ◌*◌, ◌/◌, ◌%◌, ◌≤◌, ◌<◌, ◌≡◌, ◌≢◌, refl, ap, ◌∙◌, some, [], ◌∷◌, ◌++◌, arith,
}
use luascript.Prelude.Bytes.{Bytes, c_str, scan_digits, sscanf_d}
use luascript.Prelude.Int.{pos}
use luascript.Prelude.Order.{lt_wf}
use luascript.Core.Chunk.{decimal, decimal_acc}

abbrev IsDigit : ℕ → Type 0
IsDigit c = (48 ≤ c) × (c ≤ 57)

abbrev AllDigits : Bytes → Type 0
AllDigits [] = Unit
AllDigits (c ∷ s) = IsDigit c × AllDigits s

-- the number that digits stand for, after those whose number is `acc`
value : ℕ → Bytes → ℕ
value acc [] = acc
value acc (c ∷ s) = value (acc * 10 + (c - 48)) s

AllDigits-append : (ds es : Bytes) → AllDigits ds → AllDigits es → AllDigits (ds ++ es)
AllDigits-append [] es h k = k
AllDigits-append (d ∷ ds) es h k = (h.0, AllDigits-append ds es h.1 k)

value-append :
    (acc : ℕ) (ds : Bytes) (d : ℕ) → value acc (ds ++ d ∷ []) ≡ value acc ds * 10 + (d - 48)
unfolding value
value-append acc [] d = refl
value-append acc (c ∷ ds) d = value-append (acc * 10 + (c - 48)) ds d

scan_digits-value :
    (acc : ℕ) (ds rest : Bytes)
    → AllDigits ds
    → scan_digits acc (ds ++ (b':' ∷ rest)) ≡ value acc ds
unfolding scan_digits value
scan_digits-value acc [] rest h = refl
scan_digits-value acc (d ∷ ds) rest h =
    ground (arith, scan_digits-value (acc * 10 + (d - 48)) ds rest h.1)

-- the digits of n are those of n / 10 and one more
decimal_step :
    (n : ℕ) (shown : Bytes)
    → AllDigits shown × (value 0 shown ≡ n / 10)
    → AllDigits (shown ++ (48 + n % 10) ∷ []) × (value 0 (shown ++ (48 + n % 10) ∷ []) ≡ n)
decimal_step n shown (all, val) = (
  AllDigits-append shown ((48 + n % 10) ∷ []) all (omega arith),
  omega (arith, value-append 0 shown (48 + n % 10)),
)

decimal_acc-AllDigits :
    (n : ℕ) (w : Acc ◌<◌ n) → AllDigits (decimal_acc n w) × (value 0 (decimal_acc n w) ≡ n)
unfolding decimal_acc value
decimal_acc-AllDigits n (Acc.intro _ smaller) = elim (dec_le 10 n) [
  | yes h ↦
      rw (dif_pos (dec_le 10 n) le_prop h)
        (decimal_step n _ (decimal_acc-AllDigits (n / 10) (smaller (n / 10) (omega arith))))
  | no h ↦ rw (dif_neg (dec_le 10 n) h) (omega arith, omega arith)
]

c_str-digits :
    (ds rest : Bytes) → AllDigits ds → c_str (ds ++ (b':' ∷ rest)) ≡ ds ++ (b':' ∷ c_str rest)
unfolding c_str
c_str-digits [] rest h = refl
c_str-digits (d ∷ ds) rest h = ground (arith, c_str-digits ds rest h.1)

-- a text of digits before a colon is read as their number
sscanf_d-value :
    (d : ℕ) (ds rest : Bytes)
    → AllDigits (d ∷ ds)
    → sscanf_d (c_str ((d ∷ ds) ++ (b':' ∷ rest))) ≡ some (pos (value 0 (d ∷ ds)))
unfolding sscanf_d value
sscanf_d-value d ds rest h =
    rw (c_str-digits (d ∷ ds) rest h)
      (ground (arith, scan_digits-value (d - 48) ds (c_str rest) h.1))

snoc-ne-nil : (xs : Bytes) (x : ℕ) → xs ++ x ∷ [] ≢ []
snoc-ne-nil [] x e = cc
snoc-ne-nil (y ∷ xs) x e = cc

decimal_acc-ne-nil : (n : ℕ) (w : Acc ◌<◌ n) → decimal_acc n w ≢ []
unfolding decimal_acc
decimal_acc-ne-nil n (Acc.intro _ smaller) = elim (dec_le 10 n) [
  | yes h ↦ rw (dif_pos (dec_le 10 n) le_prop h) (snoc-ne-nil _ (48 + n % 10))
  | no h ↦ rw (dif_neg (dec_le 10 n) h) (λ e. cc)
]

-- The decimal form of n, with a colon and any bytes behind it, is scanned as n.
pub sscanf_d-decimal :
    (n : ℕ) (rest : Bytes) → sscanf_d (c_str (decimal n ++ (b':' ∷ rest))) ≡ some (pos n)
unfolding decimal
sscanf_d-decimal n rest =
    go (decimal_acc n (lt_wf.apply n)) (decimal_acc-AllDigits n (lt_wf.apply n))
      (decimal_acc-ne-nil n (lt_wf.apply n))
  where
    go :
        (ds : Bytes)
        → AllDigits ds × (value 0 ds ≡ n)
        → ds ≢ []
        → sscanf_d (c_str (ds ++ (b':' ∷ rest))) ≡ some (pos n)
    go [] h k = absurd (k refl)
    go (d ∷ ds) h k = sscanf_d-value d ds rest h.0 ∙ ap (λ (t : ℕ). some (pos t)) h.1
