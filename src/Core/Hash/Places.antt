-- ===== src/Core/Hash/Places.antt =====
-- The searches of `newkey` for a place: the free node of the highest index, and the node before another.
use luascript.Prelude.{
  ℕ, zero, suc, ◌≤◌, ◌<◌, ◌≡◌, ◌≢◌, refl, ap, ◌∙◌, sym, subst, ◌⊎◌, inl, inr, true, false, none,
  some, List, length, arith, ◌==◌, Bool-cases,
}
use luascript.Core.Hash.{Node, is_nil, getfreepos, previous}
use luascript.Core.Hash.Links.{Reach, here, step, same_next, Ends, last, more, positions}
use luascript.Core.Hash.WellFormed.{links, key_at}
use native.Mathlib.Decide.{ℕ_discrete}

module _ {Num : Type 0} where
  pub getfreepos-cases :
      (nodes : List (Node Num)) (f : ℕ)
      → ((getfreepos nodes f ≡ (none, 0)) × ((q : ℕ) → q < f → is_nil (key_at nodes q) ≡ false))
        ⊎ ((n : ℕ) × (getfreepos nodes f ≡ (some n, n))
            × (n < f)
            × (is_nil (key_at nodes n) ≡ true)
            × ((q : ℕ) → n < q → q < f → is_nil (key_at nodes q) ≡ false))
  unfolding getfreepos
  getfreepos-cases nodes zero = inl (refl, λ q h. absurd (omega arith))
  getfreepos-cases nodes (suc f) = elim (Bool-cases (is_nil (key_at nodes f))) [
    | inl empty ↦ inr (f, rw empty refl, omega arith, empty, λ q h h'. absurd (omega arith))
    | inr taken ↦ elim (getfreepos-cases nodes f) [
      | inl (nowhere, all) ↦ inl (
        rw (taken, nowhere) refl,
        λ q h. elim (ℕ_discrete q f) [
          | yes same ↦ subst (λ p. is_nil (key_at nodes p) ≡ false) (sym same) taken
          | no ne ↦ all q (omega (arith, h, ne))
        ],
      )
      | inr (n, place, below, empty, above) ↦ inr (
        n,
        rw (taken, place) refl,
        omega (arith, below),
        empty,
        λ q h h'. elim (ℕ_discrete q f) [
          | yes same ↦ subst (λ p. is_nil (key_at nodes p) ≡ false) (sym same) taken
          | no ne ↦ above q h (omega (arith, h', ne))
        ],
      )
    ]
  ]

  -- the node before `mp` in a chain that leads to it
  pub previous_found :
      (k : ℕ) (nodes : List (Node Num)) (mp : ℕ) {p : ℕ} (ends : Ends (links nodes) p)
      → length (positions ends) ≤ k
      → p ≢ mp
      → Reach (links nodes) p mp
      → (prev : ℕ) × (previous k nodes mp p ≡ some prev) × (links nodes prev ≡ some mp)
  unfolding previous positions
  previous_found k nodes mp ends h ne (here same) = absurd (ne same)
  previous_found k nodes mp (last e) h ne (step e' reach) = absurd (cc)
  previous_found zero nodes mp (more e ends) h ne (step e' reach) = absurd (omega arith)
  previous_found (suc k) nodes mp {p} (more {r = r} e ends) h ne (step {r = r'} e' reach) =
      elim (ℕ_discrete r mp) [
        | yes same ↦
            let hit : (r == mp) ≡ true = ground arith in
            (p, rw (previous, e, hit) refl, e ∙ ap some same)
        | no other ↦
            let miss : (r == mp) ≡ false = ground arith in
            let (prev, found, link) =
              previous_found k nodes mp ends (omega arith) other
                (subst (λ x. Reach (links nodes) x mp) (same_next (links nodes p) e' e) reach) in
            (prev, rw (previous, e, miss) found, link)
      ]
