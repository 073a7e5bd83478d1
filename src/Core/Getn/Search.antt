-- ===== src/Core/Getn/Search.antt =====
-- The loops of `luaH_getn` and `unbound_search` on what is told in use, each ending with a border.
use native.Mathlib.Nat.{pow-suc}
use native.Mathlib.Decide.{dec_le}
use luascript.Prelude.{
  ℕ, zero, suc, ◌+◌, ◌-◌, ◌*◌, ◌/◌, ◌%◌, ◌^◌, ◌≤◌, ◌<◌, ◌≡◌, refl, ap, ◌∙◌, sym, ◌⊎◌, inl, inr,
  Bool, true, false, Bool-cases, ltb→lt, Option, some, arith, ltb, if◌then◌else◌,
}
use luascript.Core.Strings.{max_int}
use luascript.Core.Getn.{border_loop, linear_search, doubling_loop}

-- index i is in use, or it is 0
abbrev pub IsPresent : (ℕ → Bool) → ℕ → Type 0
IsPresent used i = (i ≡ 0) ⊎ (used i ≡ true)

-- i is present and i + 1 is not
abbrev pub IsBorder : (ℕ → Bool) → ℕ → Type 0
IsBorder used i = IsPresent used i × (used (i + 1) ≡ false)

-- a search ends with a border below a bound
abbrev pub EndsBelow : ℕ → (ℕ → Bool) → Option ℕ → Type 0
EndsBelow bound used r = (b : ℕ) × (r ≡ some b) × IsBorder used b × (b < bound)

pub lower_end :
    (m n : ℕ) (used : ℕ → Bool) (r : Option ℕ) → m ≤ n → EndsBelow m used r → EndsBelow n used r
lower_end m n used r h (b, e, border, lt) = (b, e, border, omega (arith, h, lt))

pub border_loop-EndsBelow :
    (k : ℕ) (used : ℕ → Bool) (i j : ℕ)
    → i < j
    → j < 2 ^ 31
    → j - i < k
    → IsPresent used i
    → used j ≡ false
    → EndsBelow j used (border_loop k used i j)
unfolding border_loop
border_loop-EndsBelow zero used i j lt top fuel p q = absurd (omega arith)
border_loop-EndsBelow (suc k) used i j lt top fuel p q = elim (Bool-cases (ltb 1 (j - i))) [
  | inr close ↦ let e : j ≡ i + 1 = ground arith in (i, rw close, (p, ap used (sym e) ∙ q), lt)
  | inl apart ↦
      let m : ℕ = (i + j) % 2 ^ 32 / 2 in
      let wide = ltb→lt 1 (j - i) apart in
      elim (Bool-cases (used m)) [
        | inl used_m ↦
            rw (apart, used_m)
              (border_loop-EndsBelow k used m j (omega arith) top (omega arith) (inr used_m) q)
        | inr free_m ↦
            rw (apart, free_m)
              (lower_end m j used _ (omega arith) (
                border_loop-EndsBelow k used i m (omega arith) (omega arith) (omega arith) p
                  free_m))
      ]
]

linear_search-EndsBelow :
    (k : ℕ) (used : ℕ → Bool) (i free : ℕ)
    → 0 < i
    → i ≤ free
    → free < i + k
    → IsPresent used (i - 1)
    → used free ≡ false
    → EndsBelow free used (linear_search k used i)
unfolding linear_search
linear_search-EndsBelow zero used i free pos_i lo hi p q = absurd (omega arith)
linear_search-EndsBelow (suc k) used i free pos_i lo hi p q = elim (Bool-cases (used i)) [
  | inr free_i ↦
      let e : i - 1 + 1 ≡ i = omega arith in
      (i - 1, rw free_i, (p, ap used e ∙ free_i), omega arith)
  | inl used_i ↦
      let e : i + 1 - 1 ≡ i = omega arith in
      let before : i < free = elim (dec_le free i) [
        | yes h ↦ let same : free ≡ i = omega arith in absurd (cc)
        | no h ↦ omega arith
      ] in
      rw used_i (
        linear_search-EndsBelow k used (i + 1) free (omega arith) (omega arith) (omega arith)
          (inr (ap used e ∙ used_i)) q)
]

pub doubling_loop-EndsBelow :
    (k : ℕ) (used : ℕ → Bool) (i j free : ℕ)
    → i < j
    → j ≤ max_int
    → max_int < j * 2 ^ k
    → IsPresent used i
    → 0 < free
    → free < 2 ^ 31
    → used free ≡ false
    → EndsBelow (2 ^ 31 - 1) used (doubling_loop k used i j)
unfolding doubling_loop
doubling_loop-EndsBelow zero used i j free lt small fuel p some_free top q = absurd (omega arith)
doubling_loop-EndsBelow (suc k) used i j free lt small fuel p some_free top q =
    elim (Bool-cases (used j)) [
      | inr free_j ↦ rw free_j (
          lower_end j (2 ^ 31 - 1) used _ (omega arith)
            (border_loop-EndsBelow (suc (j - i)) used i j lt (omega arith) (omega arith) p free_j))
      | inl used_j ↦
          let exact : j * 2 % 2 ^ 32 ≡ j * 2 = omega arith in
          elim (Bool-cases (ltb max_int (j * 2))) [
            | inl overflow ↦
                rw (used_j, exact, overflow)
                  (lower_end free (2 ^ 31 - 1) used _ (omega arith) (
                    linear_search-EndsBelow (2 ^ 31 - 1) used 1 free (omega arith) (omega arith)
                      (omega arith) (inl (omega arith)) q))
            | inr inside ↦
                rw (used_j, exact, inside)
                  (doubling_loop-EndsBelow k used j (j * 2) free (omega arith) (ground arith)
                    (omega (arith, fuel, ap (λ (t : ℕ). j * t) (pow-suc 2 k))) (inr used_j)
                    some_free top q)
          ]
    ]

pub chosen :
    (used : ℕ → Bool) (d : Bool) (r r' : Option ℕ)
    → (d ≡ true → EndsBelow (2 ^ 31 - 1) used r)
    → (d ≡ false → EndsBelow (2 ^ 31 - 1) used r')
    → EndsBelow (2 ^ 31 - 1) used (if d then r else r')
chosen used true r r' f g = f refl
chosen used false r r' f g = g refl
