-- ===== src/Core/Object/FloatByte.antt =====
-- `luaO_int2fb` rounds a size up to the next "floating point byte", and `luaO_fb2int` reads it.
use Prim.Native.Nat.{bit_or}
use mathlib.Core.Logic.{dif_pos, dif_neg}
use mathlib.Core.WellFounded.{Acc}
use native.Mathlib.Bridge.{le_prop}
use native.Mathlib.Decide.{dec_le}
use native.Mathlib.Numerals.{add-one}
use native.Mathlib.Nat.{pow-suc, pow-le-pow_right}
use luascript.Prelude.{
  ℕ, ◌+◌, ◌-◌, ◌*◌, ◌/◌, ◌%◌, ◌^◌, ◌≤◌, ◌<◌, ◌≡◌, refl, ap, ◌⊎◌, inl, inr, Bool, true, Bool-cases,
  ltb→lt, arith, ltb, ◌==◌, ==_iff,
}
use luascript.Prelude.Order.{lt_wf, holds_from, by_evaluation}
use luascript.Core.Object.{half_up, int2fb_loop, int2fb_result, int2fb, fb2int}

-- x * 2 ^ e is the size n, rounded up to a multiple of 2 ^ e
record Rounds (n x e : ℕ) : Type 0 where
  above : n ≤ x * 2 ^ e
  close : x * 2 ^ e < n + 2 ^ e
  large : (e ≡ 0) ⊎ (8 ≤ x)
  eighth : 8 * (x * 2 ^ e) ≤ 9 * n

-- a half of x, rounded up, at twice the scale
half_scaled :
    (x y p : ℕ) → x ≤ y + y → y + y ≤ x + 1 → (x * p ≤ y * (2 * p)) × (y * (2 * p) ≤ x * p + p)
half_scaled x y p h k =
    let halves : (y + y ≡ x) ⊎ (y + y ≡ x + 1) = omega arith in
    elim halves [
      | inl e ↦ (omega (arith, times_p e), omega (arith, times_p e))
      | inr e ↦ (omega (arith, times_p e), omega (arith, times_p e))
    ]
  where
    times_p : {a b : ℕ} → a ≡ b → a * p ≡ b * p
    times_p e = ap (λ (t : ℕ). t * p) e

pow_double : (y e : ℕ) → y * 2 ^ (e + 1) ≡ y * (2 * 2 ^ e)
pow_double y e = rw (add-one, pow-suc) (omega arith)

times_le : (a b p : ℕ) → a ≤ b → a * p ≤ b * p
times_le a b p h = grind arith

half_up-Rounds : (n x e : ℕ) → x < 2 ^ 32 - 1 → 16 ≤ x → Rounds n x e → Rounds n (half_up x) (e + 1)
half_up-Rounds n x e f h r =
    let (lo, hi) = half_scaled x (half_up x) (2 ^ e) (omega arith) (omega arith) in
    let double : half_up x * 2 ^ (e + 1) ≡ half_up x * (2 * 2 ^ e) = pow_double (half_up x) e in
    record {
      above = omega (arith, r.above);
      close = omega (arith, r.close, pow_double 1 e);
      large = inr (omega arith);
      eighth = elim (dec_le 17 x) [
        | yes more ↦ omega (arith, r.close, times_le 17 x (2 ^ e) more)
        | no less ↦
            let sixteen : x ≡ 16 = omega arith in
            let eight : half_up x ≡ 8 = omega arith in
            omega (
              arith,
              r.eighth,
              ap (λ (t : ℕ). t * 2 ^ e) sixteen,
              ap (λ (t : ℕ). t * (2 * 2 ^ e)) eight,
            )
      ];
    }

int2fb_loop-Rounds :
    (n x e : ℕ) (w : Acc ◌<◌ x)
    → x < 2 ^ 32 - 1
    → Rounds n x e
    → Rounds n (int2fb_loop x w e).0 (int2fb_loop x w e).1 × ((int2fb_loop x w e).0 < 16)
unfolding int2fb_loop
int2fb_loop-Rounds n x e (Acc.intro _ smaller) f r = elim (dec_le 16 x) [
  | yes h ↦ rw (dif_pos (dec_le 16 x) le_prop h) (
      int2fb_loop-Rounds n (half_up x) (e + 1) (smaller (half_up x) (omega arith)) (omega arith)
        (half_up-Rounds n x e f h r))
  | no h ↦ rw (dif_neg (dec_le 16 x) h) (r, omega arith)
]

-- a size of four significant bits or less is a byte that reads back as that size
abbrev fb2int_at : ℕ → Bool
fb2int_at k = fb2int (bit_or ((k / 8 + 1) * 2 ^ 3) (k % 8)) == (k % 8 + 8) * 2 ^ (k / 8)

fb2int_table : holds_from 0 240 fb2int_at ≡ true
unfolding holds_from fb2int
fb2int_table = refl

fb2int_small : holds_from 0 8 (λ x. fb2int x == x) ≡ true
unfolding holds_from fb2int
fb2int_small = refl

abbrev byte_at : ℕ → Bool
byte_at k = ltb (bit_or ((k / 8 + 1) * 2 ^ 3) (k % 8)) (2 ^ 9)

byte_table : holds_from 0 240 byte_at ≡ true
unfolding holds_from
byte_table = refl

large_byte :
    (e d : ℕ)
    → e < 30
    → d < 8
    → (fb2int (bit_or ((e + 1) * 2 ^ 3) d) ≡ (d + 8) * 2 ^ e) × (bit_or ((e + 1) * 2 ^ 3) d < 2 ^ 9)
large_byte e d he hd =
    let k : ℕ = e * 8 + d in
    let q : k / 8 ≡ e = omega arith in
    let r : k % 8 ≡ d = omega arith in
    (
      rw (q, r) at ((==_iff _ _).0 (by_evaluation fb2int_at 240 fb2int_table k (omega arith))),
      rw (q, r) at (ltb→lt _ (2 ^ 9) (by_evaluation byte_at 240 byte_table k (omega arith))),
    )

fb2int-result :
    (m e : ℕ)
    → m < 16
    → e < 30
    → (e ≡ 0) ⊎ (8 ≤ m)
    → (fb2int (int2fb_result (m, e)) ≡ m * 2 ^ e) × (int2fb_result (m, e) < 2 ^ 9)
unfolding int2fb_result
fb2int-result m e hm he large = elim (Bool-cases (ltb m 8)) [
  | inl small ↦
      let zero_e : e ≡ 0 = ground arith in
      rw (small, zero_e)
        (
          omega (
            arith,
            (==_iff _ m).0 (by_evaluation (λ x. fb2int x == x) 8 fb2int_small m (ltb→lt m 8 small)),
          ),
          omega (arith, ltb→lt m 8 small),
        )
  | inr big ↦
      let back : m - 8 + 8 ≡ m = ground arith in
      rw big (rw back at (large_byte e (m - 8) he (omega arith)))
]

scale_large : (m e : ℕ) → (e ≡ 0) ⊎ (8 ≤ m) → (e ≡ 0) ⊎ (8 * 2 ^ e ≤ m * 2 ^ e)
scale_large m e (inl z) = inl z
scale_large m e (inr h) = inr (times_le 8 m (2 ^ e) h)

-- a rounded size of at most 2 ^ 30 has a small exponent, and is not far from the size
result_bounds :
    (x m e : ℕ)
    → x ≤ 2 ^ 30
    → Rounds x m e
    → m < 16
    → (x ≤ fb2int (int2fb_result (m, e)))
      × (8 * fb2int (int2fb_result (m, e)) ≤ 9 * x)
      × (int2fb_result (m, e) < 2 ^ 9)
result_bounds x m e h r hm =
    let scaled = scale_large m e r.large in
    let small : e < 30 = elim (dec_le 30 e) [
      | yes far ↦ absurd (omega (arith, r.close, pow-le-pow_right {n = 2} (omega arith) far))
      | no near ↦ omega arith
    ] in
    let (value, byte) = fb2int-result m e hm small r.large in
    (omega (arith, r.above), omega (arith, r.eighth), byte)

-- `luaO_int2fb` gives a byte that fits the 9-bit arguments B and C, and `luaO_fb2int` reads from it a
-- size that is not below x and exceeds it by an eighth at most; for sizes up to 2 ^ 30, with which no
-- `int` overflows.
pub fb2int-int2fb :
    (x : ℕ)
    → x ≤ 2 ^ 30
    → (x ≤ fb2int (int2fb x)) × (8 * fb2int (int2fb x) ≤ 9 * x) × (int2fb x < 2 ^ 9)
unfolding int2fb
fb2int-int2fb x h =
    let r = int2fb_loop-Rounds x x 0 (lt_wf.apply x) (omega arith) (record {
      above = omega arith;
      close = omega arith;
      large = inl refl;
      eighth = omega arith;
    }) in
    result_bounds x _ _ h r.0 r.1

round_trip_table : holds_from 0 232 (λ b. int2fb (fb2int b) == b) ≡ true
unfolding holds_from int2fb fb2int
round_trip_table = refl

-- Every byte whose size fits an `int` is the byte of that size: the sizes that `luaO_int2fb` does not
-- round keep their value.
pub int2fb-fb2int : (b : ℕ) → b < 232 → int2fb (fb2int b) ≡ b
int2fb-fb2int b h = (==_iff _ b).0 (by_evaluation _ 232 round_trip_table b h)
