-- ===== src/Core/Getn/Free.antt =====
-- A table with fewer places than there are positive values of `int` has one without a value.
use mathlib.Core.Option
use native.Mathlib.Decide.{ℕ_discrete, dec_lt}
use luascript.Prelude.{
  ℕ, zero, suc, ◌+◌, ◌-◌, ◌^◌, ◌≤◌, ◌<◌, ◌≡◌, ◌≢◌, refl, ap, ◌∙◌, sym, ◌⊎◌, inl, inr, Bool, true,
  false, not, Bool-cases, Option, none, some, List, [], ◌∷◌, arith, length, ltb, get_or, ltb→lt,
  ◌==◌, if◌then◌else◌,
}
use luascript.Prelude.Int.{pos, pos_part}
use luascript.Core.Value.{Number, Value, number}
use luascript.Core.Hash.{
  Hashing, Node, Table, Slot, in_array, in_node, is_nil, is_number, blank, node_at, walk, found,
  luah_getnum, hashnum,
}
use luascript.Core.Getn.{getnum_used, pointed}

abbrev IsInjective : ℕ → (ℕ → ℕ) → Type 0
IsInjective n f = (i j : ℕ) → i < n → j < n → f i ≡ f j → i ≡ j

-- the value m of f is taken over by v
abbrev redirect : ℕ → ℕ → ℕ → ℕ
redirect m v k = if k == m then v else k

redirect-lt : (m v k : ℕ) → v < suc m → k < suc m → v ≢ k → redirect m v k < m
redirect-lt m v k hv hk ne = ground arith

redirect_injective : (m v k l : ℕ) → v ≢ k → v ≢ l → redirect m v k ≡ redirect m v l → k ≡ l
redirect_injective m v k l ne ne' e = ground arith

pigeonhole : (m n : ℕ) (f : ℕ → ℕ) → ((i : ℕ) → i < n → f i < m) → IsInjective n f → n ≤ m
pigeonhole m zero f below injective = omega arith
pigeonhole zero (suc n) f below injective = absurd (omega (arith, below 0 (omega arith)))
pigeonhole (suc m) (suc n) f below injective =
    let other : (i : ℕ) → i < n → f n ≢ f i =
      λ i h e. absurd (omega (arith, h, injective n i (omega arith) (omega (arith, h)) e)) in
    let fewer =
      pigeonhole m n (λ i. redirect m (f n) (f i))
        (λ i h.
          redirect-lt m (f n) (f i) (below n (omega arith)) (below i (omega (arith, h)))
            (other i h))
        (λ i j hi hj e.
          injective i j (omega (arith, hi)) (omega (arith, hj))
            (redirect_injective m (f n) (f i) (f j) (other i hi) (other j hj) e)) in
    omega (arith, fewer)

all_or_one :
    (used : ℕ → Bool) (n : ℕ)
    → ((i : ℕ) × (i < n) × (used (suc i) ≡ false)) ⊎ ((i : ℕ) → i < n → used (suc i) ≡ true)
all_or_one used zero = inr (λ i h. absurd (omega arith))
all_or_one used (suc n) = elim (Bool-cases (used (suc n))) [
  | inr free ↦ inl (n, omega arith, free)
  | inl in_use ↦ elim (all_or_one used n) [
    | inl (i, h, free) ↦ inl (i, omega arith, free)
    | inr all ↦
        inr
          (λ i h. elim (ℕ_discrete i n) [ yes e ↦ rw e in_use | no ne ↦ all i (omega (arith, h)) ])
  ]
]

beyond : {A : Type 0} (xs : List A) (i : ℕ) (d : A) → length xs ≤ i → get_or xs i d ≡ d
beyond [] i d h = refl
beyond (x ∷ xs) zero d h = absurd (omega arith)
beyond (x ∷ xs) (suc i) d h = beyond xs i d (omega arith)

walk-hit :
    {Num : Type 0} (k : ℕ) (hit : Node Num → Bool) (nodes : List (Node Num)) (p q : ℕ)
    → walk k hit nodes p ≡ some q
    → hit (node_at nodes q) ≡ true
unfolding walk
walk-hit zero hit nodes p q = λ e. absurd (cc)
walk-hit (suc k) hit nodes p q = elim (Bool-cases (hit (node_at nodes p))) [
  | inl yes_hit ↦ rw yes_hit (λ e. rw (← Option.some-injective p q e) yes_hit)
  | inr no_hit ↦ rw no_hit (on (node_at nodes p).next (λ r. walk-hit k hit nodes r q))
]
  where
    on :
        (o : Option ℕ)
        → ((r : ℕ) → walk k hit nodes r ≡ some q → hit (node_at nodes q) ≡ true)
        → (elim o [ none ↦ none | some r ↦ walk k hit nodes r ]) ≡ some q
        → hit (node_at nodes q) ≡ true
    on none later e = absurd (cc)
    on (some r) later e = later r e

module _ {N : Number} (hashing : Hashing N) where
  blank_key : (n : N.Num) → is_number hashing n (blank {Num = N.Num}).i_key ≡ true → ⊥
  blank_key n h = cc

  abbrev place : Table N.Num → Option Slot → ℕ
  place t none = 0
  place t (some (in_array a)) = a
  place t (some (in_node p)) = length t.array + p

  -- where the integer i + 1 is
  abbrev IsAt : Table N.Num → ℕ → Option Slot → Type 0
  IsAt t i none = ⊥
  IsAt t i (some (in_array a)) = (a ≡ i) × (i < length t.array)
  IsAt t i (some (in_node p)) =
      (is_number hashing (N.of_int (pos (suc i))) (node_at t.node p).i_key ≡ true)
      × (p < length t.node)

  from_walk :
      (t : Table N.Num) (i : ℕ) (o : Option ℕ)
      → ((q : ℕ)
          → o ≡ some q
          → is_number hashing (N.of_int (pos (suc i))) (node_at t.node q).i_key ≡ true)
      → not (is_nil (pointed hashing t (found hashing o))) ≡ true
      → IsAt t i (found hashing o)
  from_walk t i none hit h = absurd (cc)
  from_walk t i (some q) hit h = elim (dec_lt q (length t.node)) [
    | yes inside ↦ (hit q refl, inside)
    | no outside ↦
        let unused = beyond t.node q blank (omega (arith, outside)) in
        absurd (blank_key (N.of_int (pos (suc i))) (rw unused at (hit q refl)))
  ]

  IsAt-luah_getnum :
      (t : Table N.Num) (i : ℕ)
      → getnum_used hashing t (suc i) ≡ true
      → IsAt t i (luah_getnum hashing t (pos (suc i)))
  unfolding luah_getnum getnum_used
  IsAt-luah_getnum t i = elim (Bool-cases (ltb i (length t.array))) [
    | inl inside ↦ rw inside (λ h. (omega arith, ltb→lt i (length t.array) inside))
    | inr outside ↦
        let n = N.of_int (pos (suc i)) in
        rw outside (
          from_walk t i _ (λ q e.
            walk-hit (length t.node) (λ x. is_number hashing n x.i_key) t.node
              (hashnum hashing (length t.node) n) q e))
  ]

  same_integer :
      (i j : ℕ) (k : Value N.Num)
      → i < 2 ^ 31 - 1
      → j < 2 ^ 31 - 1
      → is_number hashing (N.of_int (pos (suc i))) k ≡ true
      → is_number hashing (N.of_int (pos (suc j))) k ≡ true
      → i ≡ j
  same_integer i j (number n) hi hj e e' =
      let at_i = hashing.to_int_eq n _ e ∙ N.to_int_of_int (pos (suc i)) (omega (arith, hi)) in
      let at_j = hashing.to_int_eq n _ e' ∙ N.to_int_of_int (pos (suc j)) (omega (arith, hj)) in
      omega (arith, ap pos_part (sym at_i ∙ at_j))
  same_integer i j _ hi hj e e' = absurd (cc)

  place-lt :
      (t : Table N.Num) (i : ℕ) (o : Option Slot)
      → IsAt t i o
      → place t o < length t.array + length t.node
  place-lt t i none h = absurd h
  place-lt t i (some (in_array a)) (e, h) = omega (arith, e, h)
  place-lt t i (some (in_node p)) (e, h) = omega (arith, h)

  place_injective :
      (t : Table N.Num) (i j : ℕ) (o o' : Option Slot)
      → i < 2 ^ 31 - 1
      → j < 2 ^ 31 - 1
      → IsAt t i o
      → IsAt t j o'
      → place t o ≡ place t o'
      → i ≡ j
  place_injective t i j none o' hi hj at_i at_j e = absurd at_i
  place_injective t i j (some s) none hi hj at_i at_j e = absurd at_j
  place_injective t i j (some (in_array a)) (some (in_array b)) hi hj (u, v) (w, x) e =
      omega (arith, u, w, e)
  place_injective t i j (some (in_array a)) (some (in_node q)) hi hj (u, v) at_j e =
      absurd (omega (arith, u, v, e))
  place_injective t i j (some (in_node p)) (some (in_array b)) hi hj at_i (w, x) e =
      absurd (omega (arith, w, x, e))
  place_injective t i j (some (in_node p)) (some (in_node q)) hi hj (u, v) (w, x) e =
      let same : p ≡ q = omega (arith, e) in
      same_integer i j (node_at t.node p).i_key hi hj u (rw same w)

  pub some_free :
      (t : Table N.Num)
      → length t.array + length t.node < 2 ^ 31 - 1
      → (i : ℕ) × (i < 2 ^ 31 - 1) × (getnum_used hashing t (suc i) ≡ false)
  some_free t small =
      let n : ℕ = suc (length t.array + length t.node) in
      elim (all_or_one (getnum_used hashing t) n) [
        | inl (i, h, free) ↦ (i, omega (arith, h, small), free)
        | inr all ↦
            let at_place : (i : ℕ) → i < n → IsAt t i (luah_getnum hashing t (pos (suc i))) =
              λ i h. IsAt-luah_getnum t i (all i h) in
            let fewer =
              pigeonhole (length t.array + length t.node) n
                (λ i. place t (luah_getnum hashing t (pos (suc i))))
                (λ i h. place-lt t i _ (at_place i h))
                (λ i j hi hj e.
                  place_injective t i j _ _ (omega (arith, hi, small)) (omega (arith, hj, small))
                    (at_place i hi) (at_place j hj) e) in
            absurd (omega (arith, fewer))
      ]
