-- ===== src/Core/Resize/Fresh.antt =====
-- A new hash part: all its nodes are blank.
use luascript.Prelude.{
  ℕ, zero, suc, ◌^◌, ◌<◌, ◌≡◌, refl, ap, ◌⊎◌, inl, inr, true, false, none, some, List, [], ◌∷◌,
  length, arith, replicate, length-replicate, get_or-replicate, ltb, ◌==◌, Bool-cases,
}
use luascript.Prelude.Bytes.{codes}
use luascript.Core.Value.{Number, Value, nil}
use luascript.Core.Object.{ceillog2}
use luascript.Core.Hash.{Hashing, Node, Table, raised, blank, node_at}
use luascript.Core.Hash.Links.{last}
use luascript.Core.Hash.WellFormed.{
  links, IsKey, Used, Free-not_used, WellFormed, held, held_absent,
}
use luascript.Core.Hash.Insert.{IsTable}
use luascript.Core.Resize.{maxbits, exponent, resized, stopped, setnodevector}

module _ {N : Number} (hashing : Hashing N) where
  module _ (nodes : List (Node N.Num)) (blanks : (p : ℕ) → node_at nodes p ≡ blank) where
    pub no_use : (p : ℕ) → Used hashing nodes p → ⊥
    no_use p used = Free-not_used hashing nodes p (blanks p) used

    no_link : (p q : ℕ) → links nodes p ≡ some q → ⊥
    no_link p q e = let gone : links nodes p ≡ none = ap (λ x. x.next) (blanks p) in cc

    pub WellFormed-blank : 0 < length nodes → WellFormed hashing nodes
    WellFormed-blank h = record {
      some_node = h;
      status = λ p. inl (blanks p);
      closed = λ p q e. absurd (no_link p q e);
      single = λ p q r e e'. absurd (no_link p r e);
      ends = λ p. last (ap (λ x. x.next) (blanks p));
      reached = λ p used. absurd (no_use p used);
      main = λ p used. absurd (no_use p used);
      unique = λ p q used used' e. absurd (no_use p used);
    }

    pub held-blank :
        0 < length nodes → (k : Value N.Num) → IsKey hashing k → held hashing nodes k ≡ nil
    held-blank h k is_key =
        held_absent hashing nodes k (WellFormed-blank h) is_key (λ q used. absurd (no_use q used))

  pub blank_single : (p : ℕ) → node_at {Num = N.Num} (blank ∷ []) p ≡ blank
  blank_single zero = refl
  blank_single (suc p) = refl

  pub blank-replicate : (n p : ℕ) → node_at {Num = N.Num} (replicate n blank) p ≡ blank
  blank-replicate n p = get_or-replicate n p blank

  -- the table that `setnodevector` gives: the shared node, or nodes of its own
  abbrev pub bare : Table N.Num → Table N.Num
  bare t = record t { node = blank ∷ []; lastfree = 0; dummy = true }

  abbrev pub fresh : Table N.Num → ℕ → Table N.Num
  fresh t n = record t { node = replicate n blank; lastfree = n; dummy = false }

  pub bare-IsTable : (t : Table N.Num) → IsTable hashing (bare t)
  bare-IsTable t = record {
    nodes = WellFormed-blank (blank ∷ []) blank_single (omega arith);
    lastfree_in = omega arith;
    above = λ real q h h'. absurd (cc);
    shared = λ e. refl;
  }

  pub fresh-IsTable : (t : Table N.Num) (n : ℕ) → 0 < n → IsTable hashing (fresh t n)
  fresh-IsTable t n h =
      let size : length (replicate n (blank {Num = N.Num})) ≡ n = length-replicate n blank in
      record {
        nodes = WellFormed-blank (replicate n blank) (blank-replicate n) (omega (arith, h, size));
        lastfree_in = omega (arith, size);
        above = λ real q h' h''. absurd (omega (arith, h', h'', size));
        shared = λ e. absurd (cc);
      }

  pub setnodevector-cases :
      (size : ℕ)
      → ((size ≡ 0) × ((t : Table N.Num) → setnodevector t size ≡ resized (bare t)))
        ⊎ ((0 < size)
            × (maxbits < exponent (ceillog2 size))
            × ((t : Table N.Num)
                → setnodevector t size ≡ stopped (raised (codes "table overflow"))))
        ⊎ ((0 < size)
            × ((t : Table N.Num)
                → setnodevector t size ≡ resized (fresh t (2 ^ exponent (ceillog2 size)))))
  unfolding setnodevector
  setnodevector-cases zero = inl (refl, λ t. refl)
  setnodevector-cases (suc size) =
      let some_size : (suc size == 0) ≡ false = ground arith in
      elim (Bool-cases (ltb maxbits (exponent (ceillog2 (suc size))))) [
        | inl over ↦
            inr (inl (omega arith, ground arith, λ t. rw (setnodevector, some_size, over) refl))
        | inr within ↦ inr (inr (omega arith, λ t. rw (setnodevector, some_size, within) refl))
      ]
