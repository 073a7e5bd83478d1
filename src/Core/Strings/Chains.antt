-- ===== src/Core/Strings/Chains.antt =====
-- Lists of chains: writes to one of them, the list of all that they hold, and the index of a hash.
use Prim.Native.Nat.{bit_and}
use mathlib.Core.List.Permᴰ
use mathlib.Core.List.{Permᴰ, flatten}
use native.Mathlib.Nat.{one-le-pow, mod-lt, div-add-mod'}
use luascript.Prelude.{
  ◌%◌, ◌^◌, ℕ, zero, suc, ◌-◌, ◌/◌, ◌≤◌, ◌<◌, ◌≡◌, refl, ap, sym, append_assoc, List, [], ◌∷◌, ◌++◌,
  arith, length, get_or, set, replicate, Each, Each-append, Each-parts,
}
use luascript.Prelude.Bits.{bit_and_halves, zero-bit_and, bit_and_split, bit_and_low}
use luascript.Core.Strings.{lmod}

bit_and_le : (k x y : ℕ) → x ≤ k → bit_and x y ≤ y
bit_and_le zero x y h =
    let x_zero : x ≡ 0 = omega arith in rw (x_zero, zero-bit_and y) (omega arith)
bit_and_le (suc k) x y h =
    omega (arith, bit_and_halves x y, bit_and_le k (x / 2) (y / 2) (omega arith))

-- whatever the size is
pub lmod-lt : (s size : ℕ) → 0 < size → lmod s size < size
lmod-lt s size h = omega (arith, bit_and_le s s (size - 1) (omega arith))

-- what `luaS_resize` and `lmod` assert: the mask of a power of two is a remainder
pub lmod-mod : (s k : ℕ) → lmod s (2 ^ k) ≡ s % 2 ^ k
lmod-mod s k =
    let positive : 0 < 2 ^ k = omega (arith, one-le-pow k 2) in
    let low : s % 2 ^ k < 2 ^ k = mod-lt s positive in
    let high = s / 2 ^ k in
    ground (
      arith,
      positive,
      bit_and_split k high (s % 2 ^ k) 0 (2 ^ k - 1) low (omega (arith, positive)),
      ap (λ (t : ℕ). bit_and t (2 ^ k - 1)) (div-add-mod' s (2 ^ k)),
      bit_and_le high high 0 (omega arith),
      bit_and_low k (s % 2 ^ k) low,
    )

module _ {ℓ} {A : Type ℓ} where
  pub flatten-replicate_nil : (n : ℕ) → flatten (replicate {A = List A} n []) ≡ []
  unfolding flatten
  flatten-replicate_nil zero = refl
  flatten-replicate_nil (suc n) = flatten-replicate_nil n

  -- one more in a chain is one more in the whole
  pub flatten-push :
      (bs : List (List A)) (i : ℕ) (x : A)
      → i < length bs
      → Permᴰ (flatten (set bs i (x ∷ get_or bs i []))) (x ∷ flatten bs)
  unfolding flatten
  flatten-push [] i x h = absurd (omega arith)
  flatten-push (c ∷ cs) zero x h = Permᴰ.refl (x ∷ c ++ flatten cs)
  flatten-push (c ∷ cs) (suc i) x h =
      Permᴰ.trans (Permᴰ.append_left c (flatten-push cs i x (omega arith)))
        (Permᴰ.middle x c (flatten cs))

  -- a chain is a part of the whole, and a write to it changes no other part
  pub flatten-split :
      (bs : List (List A)) (i : ℕ)
      → i < length bs
      → (pre : List A) × (post : List A) × (flatten bs ≡ pre ++ (get_or bs i [] ++ post))
        × ((c : List A) → flatten (set bs i c) ≡ pre ++ (c ++ post))
  unfolding flatten
  flatten-split [] i h = absurd (omega arith)
  flatten-split (c ∷ cs) zero h = ([], flatten cs, refl, λ d. refl)
  flatten-split (c ∷ cs) (suc i) h =
      let (pre, post, whole, written) = flatten-split cs i (omega arith) in
      (
        c ++ pre,
        post,
        rw whole (sym (append_assoc c pre _)),
        λ d. rw (written d) (sym (append_assoc c pre _)),
      )

  pub flatten-Each :
      (P : A → Type 0) (bs : List (List A))
      → ((i : ℕ) → Each P (get_or bs i []))
      → Each P (flatten bs)
  unfolding flatten
  flatten-Each P [] h = tt
  flatten-Each P (c ∷ cs) h =
      Each-append P c (flatten cs) (h 0) (flatten-Each P cs (λ i. h (suc i)))

  pub chain-Each :
      (P : A → Type 0) (bs : List (List A)) (i : ℕ) → Each P (flatten bs) → Each P (get_or bs i [])
  unfolding flatten
  chain-Each P [] i h = tt
  chain-Each P (c ∷ cs) zero h = (Each-parts P c (flatten cs) h).0
  chain-Each P (c ∷ cs) (suc i) h = chain-Each P cs i (Each-parts P c (flatten cs) h).1
