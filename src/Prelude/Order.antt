-- ===== src/Prelude/Order.antt =====
-- The order of the native numbers is well founded; a property of all numbers below a bound is
-- checked by evaluation.
use mathlib.Core.WellFounded.{Acc, WellFounded}
use luascript.Prelude.{
  ℕ, zero, suc, ◌<◌, ◌≡◌, Bool, true, false, arith, if◌then◌else◌, ◌+◌, ap, sym, ◌∙◌,
}

Acc-below : (k n : ℕ) → n < k → Acc ◌<◌ n
Acc-below zero n h = elim h [ ]
Acc-below (suc k) n h = Acc.intro n (λ m hm. Acc-below k m (omega arith))

unfoldable pub lt_wf : WellFounded ◌<◌
unfolding Acc-below
lt_wf = record { apply = λ n. Acc-below (suc n) n (omega arith) }

-- the tests at k numbers from `start` up succeed
unfoldable pub holds_from : (start k : ℕ) (test : ℕ → Bool) → Bool
holds_from start zero test = true
holds_from start (suc k) test =
    let later = holds_from (suc start) k test in if test start then later else false

holds_from-at :
    (k start d : ℕ) (test : ℕ → Bool)
    → d < k
    → holds_from start k test ≡ true
    → test (start + d) ≡ true
unfolding holds_from
holds_from-at zero start d test below h = absurd (omega arith)
holds_from-at (suc k) start zero test below h =
    let e : start + 0 ≡ start = omega arith in rw e (ground arith)
holds_from-at (suc k) start (suc d) test below h =
    let e : start + suc d ≡ suc start + d = omega arith in
    rw e (holds_from-at k (suc start) d test (omega arith) (ground arith))

-- a test that succeeds below k, by evaluation, at one number
pub by_evaluation :
    (test : ℕ → Bool) (k : ℕ) → holds_from 0 k test ≡ true → (x : ℕ) → x < k → test x ≡ true
by_evaluation test k h x below =
    let e : 0 + x ≡ x = omega arith in ap test (sym e) ∙ holds_from-at k 0 x test below h
