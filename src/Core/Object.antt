-- ===== src/Core/Object.antt =====
-- The arithmetic helpers of luascript/lua/lobject.c: the "floating point byte" by which an opcode
-- holds a table size, and base-2 logarithms. An `unsigned int` is a number below 2 ^ 32.
pub mod FloatByte
pub mod Logarithm
use Prim.Native.Nat.{bit_and, bit_or}
use mathlib.Core.Logic.{dite}
use mathlib.Core.WellFounded.{Acc}
use native.Mathlib.Decide.{dec_le}
use luascript.Prelude.{
  ℕ, ◌+◌, ◌-◌, ◌*◌, ◌/◌, ◌%◌, ◌^◌, ◌<◌, List, [], ◌∷◌, ◌++◌, arith, ltb, ◌==◌, if◌then◌else◌,
  get_or, replicate,
}
use luascript.Prelude.Int.{ℤ, pos, negsuc, ◌+ℤ◌}
use luascript.Prelude.Order.{lt_wf}

-- one round of the loop of `luaO_int2fb`: x = (x+1) >> 1, in unsigned arithmetic
abbrev pub half_up : ℕ → ℕ
half_up x = (x + 1) % 2 ^ 32 / 2

-- `while (x >= 16) { x = (x+1) >> 1; e++; }`, with the final x and e
unfoldable pub int2fb_loop : (x : ℕ) → Acc ◌<◌ x → ℕ → ℕ × ℕ
int2fb_loop x (Acc.intro _ smaller) e =
    dite (dec_le 16 x) (λ h. int2fb_loop (half_up x) (smaller (half_up x) (omega arith)) (e + 1))
      (λ _. (x, e))

unfoldable pub int2fb_result : ℕ × ℕ → ℕ
int2fb_result (x, e) = if ltb x 8 then x else bit_or ((e + 1) * 2 ^ 3) (x - 8)

unfoldable pub int2fb : ℕ → ℕ
unfolding int2fb_loop int2fb_result lt_wf dec_le
int2fb x = int2fb_result (int2fb_loop x (lt_wf.apply x) 0)

unfoldable pub fb2int : ℕ → ℕ
fb2int x = let e = bit_and (x / 2 ^ 3) 31 in if e == 0 then x else (bit_and x 7 + 8) * 2 ^ (e - 1)

-- the table `log_2`
unfoldable pub log_2 : List ℕ
log_2 =
    0
    ∷ 1
    ∷ (replicate 2 2
        ++ (replicate 4 3
            ++ (replicate 8 4
                ++ (replicate 16 5 ++ (replicate 32 6 ++ (replicate 64 7 ++ replicate 128 8))))))

-- `while (x >= 256) { l += 8; x >>= 8; } return l + log_2[x];`
unfoldable pub log2_loop : (x : ℕ) → Acc ◌<◌ x → ℤ → ℤ
log2_loop x (Acc.intro _ smaller) l =
    dite (dec_le 256 x) (λ h. log2_loop (x / 256) (smaller (x / 256) (omega arith)) (l +ℤ pos 8))
      (λ _. l +ℤ pos (get_or log_2 x 0))

unfoldable pub log2 : ℕ → ℤ
unfolding log2_loop lt_wf log_2 dec_le ◌+ℤ◌
log2 x = log2_loop x (lt_wf.apply x) (negsuc 0)

-- the macro `ceillog2(x)`, `luaO_log2((x)-1) + 1`, where x is at least 1
unfoldable pub ceillog2 : ℕ → ℤ
ceillog2 x = log2 (x - 1) +ℤ pos 1
