-- ===== src/Core/Table/Sizes.antt =====
-- `computesizes` finds the best size of the array part: the largest power of two of which more than
-- half would be used.
use native.Mathlib.Nat.{pow-suc, one-le-pow}
use luascript.Prelude.{
  ℕ, zero, suc, ◌+◌, ◌-◌, ◌*◌, ◌/◌, ◌^◌, ◌≤◌, ◌<◌, ◌≡◌, refl, ◌∙◌, sym, ◌⊎◌, inl, inr, Bool-cases,
  some, List, [], ◌∷◌, arith, ltb, ltb→lt, ◌==◌, ◌&&◌, if◌then◌else◌, length,
}
use luascript.Core.Table.{computesizes, computesizes_loop}

-- the keys in the first k + 1 of the slices, after a keys before them
abbrev pub keys_upto : ℕ → List ℕ → ℕ → ℕ
keys_upto a [] k = a
keys_upto a (c ∷ nums) zero = a + c
keys_upto a (c ∷ nums) (suc k) = keys_upto (a + c) nums k

abbrev pub total : List ℕ → ℕ
total [] = 0
total (c ∷ nums) = c + total nums

-- a slice holds no more keys than it has room for; `p` is the upper end of the first
abbrev pub SlicesFit : ℕ → List ℕ → Type 0
SlicesFit p [] = Unit
SlicesFit p (c ∷ nums) = (c ≤ p - p / 2) × SlicesFit (p * 2) nums

-- With `nums` counted from the power p on: n is 0, with no keys, or a power with its number na of keys,
-- more than half of n; and no power beyond n is more than half full.
record IsBest (nums : List ℕ) (p a na₀ n₀ na n : ℕ) : Type 0 where
  size :
      ((n ≡ n₀) × (na ≡ na₀))
      ⊎ ((k : ℕ) × (n ≡ p * 2 ^ k) × (na ≡ keys_upto a nums k) × (n < 2 * na))
  grows : n₀ ≤ n
  largest : (j : ℕ) → j < length nums → p * 2 ^ j < 2 * keys_upto a nums j → p * 2 ^ j ≤ n

keys_upto-le : (a : ℕ) (nums : List ℕ) (k : ℕ) → keys_upto a nums k ≤ a + total nums
keys_upto-le a [] k = omega arith
keys_upto-le a (c ∷ nums) zero = omega arith
keys_upto-le a (c ∷ nums) (suc k) = omega (arith, keys_upto-le (a + c) nums k)

le_scaled : (p j : ℕ) → p ≤ p * 2 ^ j
le_scaled p j = grind (arith, one-le-pow j 2)

-- no power from p on is more than half full if all keys fit into a half of p
none_larger :
    (nums : List ℕ) (p a : ℕ) (j : ℕ)
    → 2 * (a + total nums) ≤ p
    → ¬ (p * 2 ^ j < 2 * keys_upto a nums j)
none_larger nums p a j h lt = omega (arith, keys_upto-le a nums j, le_scaled p j)

IsBest-stop : (nums : List ℕ) (p a na n : ℕ) → 2 * (a + total nums) ≤ p → IsBest nums p a na n na n
IsBest-stop nums p a na n h = record {
  size = inl (refl, refl);
  grows = omega arith;
  largest = λ j _ lt. absurd (none_larger nums p a j h lt);
}

double_scaled : (p j : ℕ) → p * 2 ^ suc j ≡ p * 2 * 2 ^ j
double_scaled p j = rw pow-suc (omega arith)

-- what the body of the loop does to n and na at the slice up to p, with a' keys up to p
abbrev Chooses : (p a' na n na' n' : ℕ) → Type 0
Chooses p a' na n na' n' =
    ((n' ≡ p) × (na' ≡ a') × (p < 2 * a')) ⊎ ((n' ≡ n) × (na' ≡ na) × (2 * a' ≤ p))

module _ (c : ℕ) (nums : List ℕ) (p a na n na₁ n₁ na₂ n₂ : ℕ) where
  next_size :
      Chooses p (a + c) na n na₁ n₁
      → IsBest nums (p * 2) (a + c) na₁ n₁ na₂ n₂
      → ((n₂ ≡ n) × (na₂ ≡ na))
        ⊎ ((k : ℕ) × (n₂ ≡ p * 2 ^ k) × (na₂ ≡ keys_upto a (c ∷ nums) k) × (n₂ < 2 * na₂))
  next_size ch b = go ch b.size
    where
      go :
          Chooses p (a + c) na n na₁ n₁
          → ((n₂ ≡ n₁) × (na₂ ≡ na₁))
            ⊎ ((k : ℕ) × (n₂ ≡ p * 2 * 2 ^ k) × (na₂ ≡ keys_upto (a + c) nums k) × (n₂ < 2 * na₂))
          → ((n₂ ≡ n) × (na₂ ≡ na))
            ⊎ ((k : ℕ) × (n₂ ≡ p * 2 ^ k) × (na₂ ≡ keys_upto a (c ∷ nums) k) × (n₂ < 2 * na₂))
      go ch (inr (k, e, f, g)) = inr (suc k, e ∙ sym (double_scaled p k), f, g)
      go (inl (e, f, g)) (inl (e', f')) = inr (0, omega arith, omega arith, omega arith)
      go (inr (e, f, g)) (inl (e', f')) = inl (e' ∙ e, f' ∙ f)

  IsBest-next :
      n ≤ p
      → Chooses p (a + c) na n na₁ n₁
      → IsBest nums (p * 2) (a + c) na₁ n₁ na₂ n₂
      → IsBest (c ∷ nums) p a na n na₂ n₂
  IsBest-next h ch b = record {
    size = next_size ch b;
    grows = omega (arith, b.grows);
    largest = go;
  }
    where
      go :
          (j : ℕ)
          → j < suc (length nums)
          → p * 2 ^ j < 2 * keys_upto a (c ∷ nums) j
          → p * 2 ^ j ≤ n₂
      go zero f lt = omega (arith, b.grows)
      go (suc j) f lt =
          omega
            (arith, double_scaled p j, b.largest j (omega arith) (omega (arith, double_scaled p j)))

chosen :
    (c p a na n : ℕ)
    → a ≤ p / 2
    → Chooses p
        (a + c)
        na
        n
        (if ltb 0 c && ltb (p / 2) (a + c) then a + c else na)
        (if ltb 0 c && ltb (p / 2) (a + c) then p else n)
chosen c p a na n h = elim (Bool-cases (ltb 0 c && ltb (p / 2) (a + c))) [
  | inl e ↦ rw e (inl (refl, refl, ground arith))
  | inr e ↦ rw e (inr (refl, refl, ground arith))
]

chosen_le : (p a' na n na' n' : ℕ) → n ≤ p → Chooses p a' na n na' n' → n' ≤ p * 2
chosen_le p a' na n na' n' h (inl (e, f, g)) = omega arith
chosen_le p a' na n na' n' h (inr (e, f, g)) = omega arith

computesizes_loop-IsBest :
    (nums : List ℕ) (narray p a na n : ℕ)
    → narray ≡ a + total nums
    → n ≤ p
    → a ≤ p / 2
    → SlicesFit p nums
    → (na' n' : ℕ) × (computesizes_loop nums narray p a na n ≡ some (na', n'))
      × IsBest nums p a na n na' n'
unfolding computesizes_loop
computesizes_loop-IsBest [] narray p a na n e h k f = elim (Bool-cases (ltb (p / 2) narray)) [
  | inl more ↦ absurd (omega (arith, ltb→lt _ _ more))
  | inr stop ↦ (na, n, rw stop, IsBest-stop [] p a na n (ground arith))
]
computesizes_loop-IsBest (c ∷ nums) narray p a na n e h k f =
    elim (Bool-cases (ltb (p / 2) narray)) [
      | inr stop ↦ (na, n, rw stop, IsBest-stop (c ∷ nums) p a na n (ground arith))
      | inl more ↦
          let better = ltb 0 c && ltb (p / 2) (a + c) in
          let na₁ = if better then a + c else na in
          let n₁ = if better then p else n in
          let ch = chosen c p a na n k in
          elim (Bool-cases (a + c == narray)) [
            | inl all ↦ (
              na₁,
              n₁,
              rw (more, all),
              IsBest-next c nums p a na n na₁ n₁ na₁ n₁ h ch
                  (IsBest-stop nums (p * 2) (a + c) na₁ n₁ (ground (arith, f.0))),
            )
            | inr rest ↦
                let (na₂, n₂, run, best) =
                  computesizes_loop-IsBest nums narray (p * 2) (a + c) na₁ n₁ (omega arith)
                    (chosen_le p (a + c) na n na₁ n₁ h ch) (omega (arith, f.0)) f.1 in
                (na₂, n₂, rw (more, rest) run, IsBest-next c nums p a na n na₁ n₁ na₂ n₂ h ch best)
          ]
    ]

-- For counts of integer keys that fit their slices, of narray keys in all, `computesizes` ends inside
-- `nums`. The new size is 0, and then no key goes to the array part, or a power of two 2 ^ k of which
-- more than half is used, by exactly the keys up to it; and every power of two of `nums` that is more
-- than half used is at most that size.
pub computesizes_best :
    (nums : List ℕ) (narray : ℕ)
    → narray ≡ total nums
    → SlicesFit 1 nums
    → (na n : ℕ) × (computesizes nums narray ≡ some (na, n))
      × (((n ≡ 0) × (na ≡ 0)) ⊎ ((k : ℕ) × (n ≡ 2 ^ k) × (na ≡ keys_upto 0 nums k) × (n < 2 * na)))
      × ((j : ℕ) → j < length nums → 2 ^ j < 2 * keys_upto 0 nums j → 2 ^ j ≤ n)
unfolding computesizes
computesizes_best nums narray e f =
    let (na, n, run, best) =
      computesizes_loop-IsBest nums narray 1 0 0 0 (omega arith) (omega arith) (omega arith) f in
    (na, n, run, from_one best.size, λ j g lt. omega (arith, best.largest j g (omega arith)))
  where
    from_one :
        {na n : ℕ}
        → ((n ≡ 0) × (na ≡ 0))
          ⊎ ((k : ℕ) × (n ≡ 1 * 2 ^ k) × (na ≡ keys_upto 0 nums k) × (n < 2 * na))
        → ((n ≡ 0) × (na ≡ 0)) ⊎ ((k : ℕ) × (n ≡ 2 ^ k) × (na ≡ keys_upto 0 nums k) × (n < 2 * na))
    from_one (inl z) = inl z
    from_one (inr (k, e, f, g)) = inr (k, omega arith, f, g)
