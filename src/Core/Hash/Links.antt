-- ===== src/Core/Hash/Links.antt =====
-- Nodes linked by a partial function from indices to indices: what is reached, chains that end, and why a
-- chain below `n` has at most `n` nodes.
use native.Mathlib.Decide.{dec_lt}
use luascript.Prelude.{
  ℕ, zero, suc, ◌+◌, ◌≤◌, ◌<◌, ◌≡◌, refl, ap, ◌∙◌, sym, subst, inl, inr, Option, none, some, List,
  [], ◌∷◌, ◌==◌, ltb, if◌then◌else◌, arith, length, Each, Bool-cases,
}

module _ (f : ℕ → Option ℕ) where
  pub data Reach : ℕ → ℕ → Type 0 where
    here : {p q : ℕ} → p ≡ q → Reach p q
    step : {p q r : ℕ} → f p ≡ some r → Reach r q → Reach p q

  pub data Ends : ℕ → Type 0 where
    last : {p : ℕ} → f p ≡ none → Ends p
    more : {p r : ℕ} → f p ≡ some r → Ends r → Ends p

abbrev pub some_value : Option ℕ → ℕ → ℕ
some_value (some x) d = x
some_value none d = d

pub same_next : {a b : ℕ} (o : Option ℕ) → o ≡ some a → o ≡ some b → a ≡ b
same_next {a} {b} o e e' = ap (λ o. some_value o 0) (sym e ∙ e')

module _ {f : ℕ → Option ℕ} where
  pub Reach-trans : {p q r : ℕ} → Reach f p q → Reach f q r → Reach f p r
  Reach-trans {r = r} (here e) s = subst (λ x. Reach f x r) (sym e) s
  Reach-trans (step e t) s = step e (Reach-trans t s)

  -- what holds where a chain ends and is handed on against the links
  pub Ends-elim :
      (P : ℕ → Type 0)
      → ((p : ℕ) → f p ≡ none → P p)
      → ((p r : ℕ) → f p ≡ some r → P r → P p)
      → {p : ℕ} → Ends f p
      → P p
  Ends-elim P base up {p} (last e) = base p e
  Ends-elim P base up {p} (more {r = r} e ends) = up p r e (Ends-elim P base up ends)

  pub Ends-no_cycle : {p : ℕ} → Ends f p → (r : ℕ) → f p ≡ some r → Reach f r p → ⊥
  Ends-no_cycle {p} (last none_next) r e s = cc
  Ends-no_cycle {p} (more {r = r'} e' ends) r e (here same) =
      let back : r' ≡ p = same_next (f p) e' e ∙ same in
      Ends-no_cycle ends r' (subst (λ x. f x ≡ some r') (sym back) e') (here refl)
  Ends-no_cycle {p} (more {r = r'} e' ends) r e (step {r = r''} e'' s) =
      Ends-no_cycle ends r'' (subst (λ x. f x ≡ some r'') (same_next (f p) e e') e'')
        (Reach-trans s (step e' (here refl)))

  unfoldable pub positions : {p : ℕ} → Ends f p → List ℕ
  positions {p} (last e) = p ∷ []
  positions {p} (more e ends) = p ∷ positions ends

module _ {f f' : ℕ → Option ℕ} where
  -- links that another function follows by one or more steps, its positions renamed
  pub Reach-map :
      (σ : ℕ → ℕ)
      → ((p r : ℕ) → f p ≡ some r → Reach f' (σ p) (σ r))
      → {p q : ℕ} → Reach f p q
      → Reach f' (σ p) (σ q)
  Reach-map σ one (here e) = here (ap σ e)
  Reach-map σ one {p} (step {r = r} e reach) = Reach-trans (one p r e) (Reach-map σ one reach)

abbrev pub count : ℕ → List ℕ → ℕ
count q [] = 0
count q (x ∷ xs) = (if x == q then 1 else 0) + count q xs

abbrev total : ℕ → List ℕ → ℕ
total zero xs = 0
total (suc n) xs = total n xs + count n xs

total-cons : (n x : ℕ) (xs : List ℕ) → total n (x ∷ xs) ≡ total n xs + (if ltb x n then 1 else 0)
total-cons zero x xs = ground arith
total-cons (suc n) x xs = ground (arith, total-cons n x xs)

total-nil : (n : ℕ) → total n [] ≡ 0
total-nil zero = refl
total-nil (suc n) = omega (arith, total-nil n)

total-length : (n : ℕ) (xs : List ℕ) → Each (λ x. x < n) xs → total n xs ≡ length xs
total-length n [] h = total-nil n
total-length n (x ∷ xs) h = ground (arith, total-cons n x xs, total-length n xs h.1)

total-le : (n : ℕ) (xs : List ℕ) → ((q : ℕ) → count q xs ≤ 1) → total n xs ≤ n
total-le zero xs h = omega arith
total-le (suc n) xs h = omega (arith, total-le n xs h, h n)

-- different numbers below `n` are at most `n`
pub pigeonhole :
    (n : ℕ) (xs : List ℕ) → Each (λ x. x < n) xs → ((q : ℕ) → count q xs ≤ 1) → length xs ≤ n
pigeonhole n xs below once = omega (arith, total-length n xs below, total-le n xs once)

module _ {f : ℕ → Option ℕ} where
  count_reached : {p : ℕ} (ends : Ends f p) (q : ℕ) → 0 < count q (positions ends) → Reach f p q
  unfolding positions
  count_reached {p} (last e) q h = here (ground arith)
  count_reached {p} (more e ends) q h = elim (Bool-cases (p == q)) [
    | inl same ↦ here (ground arith)
    | inr other ↦ step e (count_reached ends q (ground (arith, h, other)))
  ]

  count_once : {p : ℕ} (ends : Ends f p) (q : ℕ) → count q (positions ends) ≤ 1
  unfolding positions
  count_once {p} (last e) q = ground arith
  count_once {p} (more {r = r} e ends) q = elim (Bool-cases (p == q)) [
    | inl same ↦ elim (dec_lt 0 (count q (positions ends))) [
      | yes again ↦
          let back : q ≡ p = ground arith in
          absurd
            (Ends-no_cycle (more e ends) r e (subst (Reach f r) back (count_reached ends q again)))
      | no once ↦ ground (arith, same, once)
    ]
    | inr other ↦ ground (arith, other, count_once ends q)
  ]

  positions_below :
      {p : ℕ} (n : ℕ) (ends : Ends f p)
      → p < n
      → ((q r : ℕ) → f q ≡ some r → r < n)
      → Each (λ x. x < n) (positions ends)
  unfolding positions
  positions_below n (last e) h closed = (h, tt)
  positions_below {p} n (more {r = r} e ends) h closed =
      (h, positions_below n ends (closed p r e) closed)

  -- a chain that stays below `n` has no more than `n` positions
  pub positions_bound :
      {p : ℕ} (n : ℕ) (ends : Ends f p)
      → p < n
      → ((q r : ℕ) → f q ≡ some r → r < n)
      → length (positions ends) ≤ n
  positions_bound n ends h closed =
      pigeonhole n (positions ends) (positions_below n ends h closed) (count_once ends)
