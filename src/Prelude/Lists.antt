-- ===== src/Prelude/Lists.antt =====
-- Lists measured and indexed by native numbers, under the library's names.
use Prim.Native.Nat.{ℕ, zero, suc, ◌+◌, ◌-◌, ◌<◌, min}
use mathlib.Core.Path.{◌≡◌, refl, ap, ◌∙◌, subst}
use mathlib.Core.Logic.{◌≢◌}
use mathlib.Core.List.{List, [], ◌∷◌, ◌++◌, map, Permᴰ}
use mathlib.Core.Option.{Option, none, some}
use native.Mathlib.Omega.{arith}

module _ {ℓ} {A : Type ℓ} where
  abbrev pub length : List A → ℕ
  length [] = 0
  length (x ∷ xs) = suc (length xs)

  abbrev pub get_elem? : List A → ℕ → Option A
  get_elem? [] i = none
  get_elem? (x ∷ xs) zero = some x
  get_elem? (x ∷ xs) (suc i) = get_elem? xs i

  -- A write out of bounds changes nothing.
  abbrev pub set : List A → ℕ → A → List A
  set [] i v = []
  set (x ∷ xs) zero v = v ∷ xs
  set (x ∷ xs) (suc i) v = x ∷ set xs i v

  pub length-append : (xs ys : List A) → length (xs ++ ys) ≡ length xs + length ys
  length-append [] ys = omega arith
  length-append (x ∷ xs) ys = omega (arith, length-append xs ys)

module _ {ℓ} {A : Type ℓ} where
  pub length-set : (xs : List A) (i : ℕ) (v : A) → length (set xs i v) ≡ length xs
  length-set [] i v = refl
  length-set (x ∷ xs) zero v = refl
  length-set (x ∷ xs) (suc i) v = ap suc (length-set xs i v)

  pub get_elem?-set_self :
      (xs : List A) (i : ℕ) (v : A) → i < length xs → get_elem? (set xs i v) i ≡ some v
  get_elem?-set_self [] i v h = elim h [ ]
  get_elem?-set_self (x ∷ xs) zero v h = refl
  get_elem?-set_self (x ∷ xs) (suc i) v h = get_elem?-set_self xs i v (omega arith)

  pub get_elem?-set_ne :
      (xs : List A) {i j : ℕ} (v : A) → i ≢ j → get_elem? (set xs i v) j ≡ get_elem? xs j
  get_elem?-set_ne [] v h = refl
  get_elem?-set_ne (x ∷ xs) {i = zero} {j = zero} v h = absurd (h refl)
  get_elem?-set_ne (x ∷ xs) {i = zero} {j = suc j} v h = refl
  get_elem?-set_ne (x ∷ xs) {i = suc i} {j = zero} v h = refl
  get_elem?-set_ne (x ∷ xs) {i = suc i} {j = suc j} v h = get_elem?-set_ne xs v (λ e. h (ap suc e))

module _ {ℓ} {A : Type ℓ} where
  abbrev pub get_or : List A → ℕ → A → A
  get_or [] i d = d
  get_or (x ∷ xs) zero d = x
  get_or (x ∷ xs) (suc i) d = get_or xs i d

  abbrev pub take : ℕ → List A → List A
  take zero xs = []
  take (suc n) [] = []
  take (suc n) (x ∷ xs) = x ∷ take n xs

  abbrev pub drop : ℕ → List A → List A
  drop zero xs = xs
  drop (suc n) [] = []
  drop (suc n) (x ∷ xs) = drop n xs

  abbrev pub replicate : ℕ → A → List A
  replicate zero a = []
  replicate (suc n) a = a ∷ replicate n a

  pub take-append-drop : (n : ℕ) (xs : List A) → take n xs ++ drop n xs ≡ xs
  take-append-drop zero xs = refl
  take-append-drop (suc n) [] = refl
  take-append-drop (suc n) (x ∷ xs) = rw (take-append-drop n xs)

  pub length-take : (n : ℕ) (xs : List A) → length (take n xs) ≡ min n (length xs)
  length-take zero xs = omega arith
  length-take (suc n) [] = omega arith
  length-take (suc n) (x ∷ xs) = omega (arith, length-take n xs)

  pub length-drop : (n : ℕ) (xs : List A) → length (drop n xs) ≡ length xs - n
  length-drop zero xs = omega arith
  length-drop (suc n) [] = omega arith
  length-drop (suc n) (x ∷ xs) = omega (arith, length-drop n xs)

  pub length-replicate : (n : ℕ) (a : A) → length (replicate n a) ≡ n
  length-replicate zero a = refl
  length-replicate (suc n) a = ap suc (length-replicate n a)

  pub length-map {κ} : {B : Type κ} (xs : List A) (f : A → B) → length (map f xs) ≡ length xs
  length-map [] f = refl
  length-map (x ∷ xs) f = ap suc (length-map xs f)

abbrev pub Each {ℓ κ} : {A : Type ℓ} → (A → Type κ) → List A → Type κ
Each P [] = Unit
Each P (x ∷ xs) = P x × Each P xs

module _ {ℓ κ} {A : Type ℓ} (P : A → Type κ) where
  pub Each-append : (xs ys : List A) → Each P xs → Each P ys → Each P (xs ++ ys)
  Each-append [] ys h k = k
  Each-append (x ∷ xs) ys h k = (h.0, Each-append xs ys h.1 k)

  pub Each-parts : (xs ys : List A) → Each P (xs ++ ys) → Each P xs × Each P ys
  Each-parts [] ys h = (tt, h)
  Each-parts (x ∷ xs) ys h = let (k, m) = Each-parts xs ys h.1 in ((h.0, k), m)

  pub Each-both {ν} :
      (Q : A → Type ν) (xs : List A) → Each P xs → Each Q xs → Each (λ x. P x × Q x) xs
  Each-both Q [] h k = tt
  Each-both Q (x ∷ xs) h k = ((h.0, k.0), Each-both Q xs h.1 k.1)

  pub Each-middle : (xs ys : List A) (x : A) → Each P (xs ++ x ∷ ys) → P x
  Each-middle [] ys x h = h.0
  Each-middle (y ∷ xs) ys x h = Each-middle xs ys x h.1

  pub Each-replace :
      (xs ys : List A) (x y : A) → (P x → P y) → Each P (xs ++ x ∷ ys) → Each P (xs ++ y ∷ ys)
  Each-replace [] ys x y f h = (f h.0, h.1)
  Each-replace (z ∷ xs) ys x y f h = (h.0, Each-replace xs ys x y f h.1)

  pub Each-map {ν} : (Q : A → Type ν) (xs : List A) → ((x : A) → P x → Q x) → Each P xs → Each Q xs
  Each-map Q [] f h = tt
  Each-map Q (x ∷ xs) f h = (f x h.0, Each-map Q xs f h.1)

  pub Each-Perm : {xs ys : List A} → Permᴰ xs ys → Each P xs → Each P ys
  Each-Perm Permᴰ.nil h = h
  Each-Perm (Permᴰ.cons e d) h = (subst P e h.0, Each-Perm d h.1)
  Each-Perm (Permᴰ.swap e e') h = (subst P e' h.1.0, (subst P e h.0, h.1.1))
  Each-Perm (Permᴰ.trans d d') h = Each-Perm d' (Each-Perm d h)

module _ {ℓ} {A : Type ℓ} where
  pub get_or-set_self :
      (xs : List A) (i : ℕ) (v d : A) → i < length xs → get_or (set xs i v) i d ≡ v
  get_or-set_self [] i v d h = absurd (omega arith)
  get_or-set_self (x ∷ xs) zero v d h = refl
  get_or-set_self (x ∷ xs) (suc i) v d h = get_or-set_self xs i v d (omega arith)

  pub get_or-set_ne :
      (xs : List A) (i j : ℕ) (v d : A) → i ≢ j → get_or (set xs i v) j d ≡ get_or xs j d
  get_or-set_ne [] i j v d h = refl
  get_or-set_ne (x ∷ xs) zero zero v d h = absurd (h refl)
  get_or-set_ne (x ∷ xs) zero (suc j) v d h = refl
  get_or-set_ne (x ∷ xs) (suc i) zero v d h = refl
  get_or-set_ne (x ∷ xs) (suc i) (suc j) v d h = get_or-set_ne xs i j v d (λ e. h (ap suc e))

  pub get_or-replicate : (n i : ℕ) (v : A) → get_or (replicate n v) i v ≡ v
  get_or-replicate zero i v = refl
  get_or-replicate (suc n) zero v = refl
  get_or-replicate (suc n) (suc i) v = get_or-replicate n i v

  pub length-Perm : {xs ys : List A} → Permᴰ xs ys → length xs ≡ length ys
  length-Perm Permᴰ.nil = refl
  length-Perm (Permᴰ.cons e d) = ap suc (length-Perm d)
  length-Perm (Permᴰ.swap e e') = refl
  length-Perm (Permᴰ.trans d d') = length-Perm d ∙ length-Perm d'

  pub length-middle : (xs ys : List A) (x y : A) → length (xs ++ x ∷ ys) ≡ length (xs ++ y ∷ ys)
  length-middle [] ys x y = refl
  length-middle (z ∷ xs) ys x y = ap suc (length-middle xs ys x y)

  pub regroup :
      (ws xs ys zs : List A) (x : A) → ws ++ ((xs ++ x ∷ ys) ++ zs) ≡ (ws ++ xs) ++ x ∷ (ys ++ zs)
  regroup [] [] ys zs x = refl
  regroup [] (u ∷ xs) ys zs x = ap (λ t. u ∷ t) (regroup [] xs ys zs x)
  regroup (u ∷ ws) xs ys zs x = ap (λ t. u ∷ t) (regroup ws xs ys zs x)
