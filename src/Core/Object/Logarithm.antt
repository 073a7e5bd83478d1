-- ===== src/Core/Object/Logarithm.antt =====
-- `luaO_log2` and `ceillog2` are the two integer logarithms in base 2.
use mathlib.Core.Logic.{dif_pos, dif_neg}
use mathlib.Core.WellFounded.{Acc}
use native.Mathlib.Bridge.{le_prop}
use native.Mathlib.Decide.{dec_le}
use native.Mathlib.Nat.{pow-suc, pow-le-pow_right}
use native.Mathlib.Numerals.{add-one, towards_suc}
use luascript.Prelude.{
  ℕ, zero, suc, ◌+◌, ◌-◌, ◌*◌, ◌/◌, ◌^◌, ◌≤◌, ◌<◌, ◌≡◌, refl, ap, ◌∙◌, Bool, true, arith, ltb, leb,
  ◌&&◌, get_or,
}
use luascript.Prelude.Int.{ℤ, pos, negsuc, ◌+ℤ◌}
use luascript.Prelude.Order.{lt_wf, holds_from, by_evaluation}
use luascript.Core.Object.{log_2, log2_loop, log2, ceillog2}

-- k is the position of the highest bit of x
abbrev pub IsLog2 : ℕ → ℕ → Type 0
IsLog2 x k = (2 ^ k ≤ x) × (x < 2 ^ (k + 1))

-- the entry of the table at x + 1 is one more than the logarithm
abbrev entry : ℕ → ℕ
entry x = get_or log_2 (x + 1) 0

entry_at : ℕ → Bool
entry_at x =
    ltb 0 (entry x) && (leb (2 ^ (entry x - 1)) (x + 1) && ltb (x + 1) (2 ^ (entry x - 1 + 1)))

entry_table : holds_from 0 255 entry_at ≡ true
unfolding holds_from log_2 entry_at
entry_table = refl

entry-IsLog2 : (x : ℕ) → 0 < x → x < 256 → (k : ℕ) × (get_or log_2 x 0 ≡ k + 1) × IsLog2 x k
unfolding entry_at
entry-IsLog2 zero h f = absurd (omega arith)
entry-IsLog2 (suc x) h f =
    let c = by_evaluation entry_at 255 entry_table x (omega arith) in
    (get_or log_2 (suc x) 0 - 1, ground (arith, add-one x), ground (arith, add-one x))

eight_more : (k : ℕ) → 2 ^ (k + 8) ≡ 256 * 2 ^ k
eight_more k = simp (towards_suc, pow-suc) (omega arith)

plus_eight : (l : ℤ) (k : ℕ) → l +ℤ pos 8 +ℤ pos (k + 1) ≡ l +ℤ pos (k + 8 + 1)
unfolding ◌+ℤ◌
plus_eight l k = ground arith

scale-IsLog2 : (x k : ℕ) → IsLog2 (x / 256) k → IsLog2 x (k + 8)
scale-IsLog2 x k b =
    let next : 2 ^ (k + 8 + 1) ≡ 256 * 2 ^ (k + 1) = simp (towards_suc, pow-suc) (omega arith) in
    omega (arith, eight_more k)

log2_loop-IsLog2 :
    (x : ℕ) (w : Acc ◌<◌ x) (l : ℤ)
    → 0 < x
    → (k : ℕ) × (log2_loop x w l ≡ l +ℤ pos (k + 1)) × IsLog2 x k
unfolding log2_loop
log2_loop-IsLog2 x (Acc.intro _ smaller) l h = elim (dec_le 256 x) [
  | no f ↦
      let (k, e, b) = entry-IsLog2 x h (omega arith) in (k, rw (dif_neg (dec_le 256 x) f, e), b)
  | yes f ↦
      let (k, e, b) =
        log2_loop-IsLog2 (x / 256) (smaller (x / 256) (omega arith)) (l +ℤ pos 8) (omega arith) in
      (k + 8, rw (dif_pos (dec_le 256 x) le_prop f) (e ∙ plus_eight l k), scale-IsLog2 x k b)
]

-- For every x above 0, `luaO_log2` gives the k for which 2 ^ k ≤ x < 2 ^ (k + 1).
pub log2-IsLog2 : (x : ℕ) → 0 < x → (k : ℕ) × (log2 x ≡ pos k) × IsLog2 x k
unfolding log2
log2-IsLog2 x h =
    let (k, e, b) = log2_loop-IsLog2 x (lt_wf.apply x) (negsuc 0) h in (k, e ∙ minus_one k, b)
  where
    minus_one : (k : ℕ) → negsuc 0 +ℤ pos (k + 1) ≡ pos k
    minus_one k = ground arith

-- k is the least exponent with x ≤ 2 ^ k
abbrev pub IsCeilLog2 : ℕ → ℕ → Type 0
IsCeilLog2 x k = (x ≤ 2 ^ k) × ((j : ℕ) → x ≤ 2 ^ j → k ≤ j)

log2_zero : log2 0 +ℤ pos 1 ≡ pos 0
unfolding log2
log2_zero = refl

plus_one : (k : ℕ) → pos k +ℤ pos 1 ≡ pos (k + 1)
unfolding ◌+ℤ◌
plus_one k = ground arith

ceillog2-suc : (x k : ℕ) → log2 (suc x) ≡ pos k → ceillog2 (suc (suc x)) ≡ pos (k + 1)
unfolding ceillog2
ceillog2-suc x k e =
    ap (λ (t : ℕ). log2 t +ℤ pos 1) {x = suc (suc x) - 1} {y = suc x} (omega arith)
    ∙ (ap (λ (z : ℤ). z +ℤ pos 1) e ∙ plus_one k)

-- For every x above 0, `ceillog2` gives the least k with x ≤ 2 ^ k.
pub ceillog2_least : (x : ℕ) → 0 < x → (k : ℕ) × (ceillog2 x ≡ pos k) × IsCeilLog2 x k
unfolding ceillog2
ceillog2_least zero h = absurd (omega arith)
ceillog2_least (suc zero) h = (0, log2_zero, (omega arith, λ j f. omega arith))
ceillog2_least (suc (suc x)) h =
    let (k, e, b) = log2-IsLog2 (suc x) (omega arith) in
    (
      k + 1,
      ceillog2-suc x k e,
      (
        omega arith,
        λ j f. elim (dec_le j k) [
          | yes below ↦ absurd (omega (arith, pow-le-pow_right {n = 2} (omega arith) below))
          | no above ↦ omega arith
        ],
      ),
    )
