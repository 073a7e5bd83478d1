-- ===== src/Core/Symbexec/Ensures.antt =====
-- A step of the checker that stays inside its arrays and ends: it is refused, or passes with a value of
-- which P holds.
use luascript.Prelude.{
  ℕ, zero, suc, ◌<◌, ◌≡◌, refl, Bool, true, false, List, [], ◌∷◌, arith, length,
}
use luascript.Core.Symbexec.{
  Checked, passed, refused, out_of_range, stuck, ◌>>=◌, ◌>>◌, check, read,
}

abbrev pub Ensures : {A : Type 0} → (A → Type 0) → Checked A → Type 0
Ensures P (passed x) = P x
Ensures P refused = Unit
Ensures P out_of_range = ⊥
Ensures P stuck = ⊥

abbrev pub Anything : {A : Type 0} → A → Type 0
Anything x = Unit

pub Ensures-bind :
    {A B : Type 0} (P : A → Type 0) (Q : B → Type 0) (m : Checked A) (f : A → Checked B)
    → Ensures P m
    → ((x : A) → P x → Ensures Q (f x))
    → Ensures Q (m >>= f)
Ensures-bind P Q (passed x) f h k = k x h
Ensures-bind P Q refused f h k = tt
Ensures-bind P Q out_of_range f h k = absurd h
Ensures-bind P Q stuck f h k = absurd h

-- behind a check its test holds
pub Ensures-check :
    {B : Type 0} (Q : B → Type 0) (b : Bool) (m : Checked B)
    → (b ≡ true → Ensures Q m)
    → Ensures Q (check b >> m)
Ensures-check Q true m h = h refl
Ensures-check Q false m h = tt

-- behind a step that gives no value
pub Ensures-then :
    {B : Type 0} (Q : B → Type 0) (m : Checked (Unit {0})) (k : Checked B)
    → Ensures Anything m
    → Ensures Q k
    → Ensures Q (m >> k)
Ensures-then Q (passed x) k h r = r
Ensures-then Q refused k h r = tt
Ensures-then Q out_of_range k h r = absurd h
Ensures-then Q stuck k h r = absurd h

pub Ensures-read :
    {A B : Type 0} (Q : B → Type 0) (xs : List A) (i : ℕ) (f : A → Checked B)
    → i < length xs
    → ((x : A) → Ensures Q (f x))
    → Ensures Q (read xs i >>= f)
unfolding read
Ensures-read Q [] i f h k = absurd (omega arith)
Ensures-read Q (x ∷ xs) zero f h k = k x
Ensures-read Q (x ∷ xs) (suc i) f h k = Ensures-read Q xs i f (omega arith) k

pub check-Ensures : (b : Bool) → Ensures Anything (check b)
check-Ensures true = tt
check-Ensures false = tt
