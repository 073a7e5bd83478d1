-- ===== src/Core/Getn/Border.antt =====
-- `luaH_getn` finds a border of the table.
use luascript.Prelude.{
  ℕ, zero, suc, ◌+◌, ◌-◌, ◌%◌, ◌^◌, ◌≤◌, ◌<◌, ◌≡◌, refl, ap, subst, ◌&&◌, ◌∙◌, inl, inr, Bool, true,
  false, not, Bool-cases, ltb→lt, Option, none, some, [], ◌∷◌, arith, ltb, length,
}
use luascript.Prelude.Int.{pos}
use luascript.Core.Value.{Number, Value, nil, number}
use luascript.Core.Strings.{max_int}
use luascript.Core.Hash.{
  Hashing, Node, Table, Slot, is_number, is_nil, blank, value_at, walk, luah_get, luah_getnum,
}
use luascript.Core.Hash.Get.{read}
use luascript.Core.Getn.Search.{
  IsPresent, IsBorder, EndsBelow, lower_end, border_loop-EndsBelow, doubling_loop-EndsBelow, chosen,
}
use luascript.Core.Getn.Free.{some_free}
use luascript.Core.Getn.{unbound_search, getnum_used, array_used, luah_getn, pointed}

not-true : (b : Bool) → not b ≡ false → b ≡ true
not-true true h = refl
not-true false h = absurd (cc)

not-false : (b : Bool) → not b ≡ true → b ≡ false
not-false true h = absurd (cc)
not-false false h = refl

both_true : (a b : Bool) → (a && b) ≡ true → (a ≡ true) × (b ≡ true)
both_true true b h = (refl, h)
both_true false b h = absurd (cc)

walk-blank :
    {Num : Type 0} (hit : Node Num → Bool) (n : ℕ)
    → hit blank ≡ false
    → walk 1 hit (blank ∷ []) n ≡ none
unfolding walk
walk-blank hit zero h = rw h refl
walk-blank hit (suc n) h = rw h refl

module _ {N : Number} (hashing : Hashing N) where
  -- t[i] is not nil, for the contents that `luaH_set` writes
  abbrev pub holds : Table N.Num → ℕ → Bool
  holds t i = not (is_nil (read hashing t (number (N.of_int (pos i)))))

  get_at :
      (t : Table N.Num) (i : ℕ)
      → i < 2 ^ 31
      → luah_get hashing t (number (N.of_int (pos i))) ≡ luah_getnum hashing t (pos i)
  unfolding luah_get
  get_at t i h = rw (N.to_int_of_int (pos i) h, hashing.of_int_eq (pos i)) refl

  slot_cases :
      (t : Table N.Num) (o : Option Slot)
      → (elim o [ none ↦ nil | some s ↦ value_at t s ]) ≡ pointed hashing t o
  slot_cases t none = refl
  slot_cases t (some s) = refl

  read-pointed :
      (t : Table N.Num) (k : Value N.Num)
      → read hashing t k ≡ pointed hashing t (luah_get hashing t k)
  unfolding read
  read-pointed t k = slot_cases t (luah_get hashing t k)

  holds-getnum_used : (t : Table N.Num) (i : ℕ) → i < 2 ^ 31 → holds t i ≡ getnum_used hashing t i
  unfolding getnum_used
  holds-getnum_used t i h =
      ap (λ v. not (is_nil v))
        (read-pointed t (number (N.of_int (pos i))) ∙ ap (pointed hashing t) (get_at t i h))

  getnum_used-array_used :
      (t : Table N.Num) (i : ℕ)
      → i < length t.array
      → getnum_used hashing t (suc i) ≡ array_used hashing t (suc i)
  unfolding getnum_used luah_getnum value_at
  getnum_used-array_used t i h =
      let inside : ltb i (length t.array) ≡ true = ground arith in rw inside refl

  getnum_used-dummy :
      (t : Table N.Num) → t.node ≡ blank ∷ [] → getnum_used hashing t (suc (length t.array)) ≡ false
  unfolding getnum_used luah_getnum
  getnum_used-dummy t e =
      let outside : ltb (length t.array) (length t.array) ≡ false = ground arith in
      rw
        (
          outside,
          e,
          walk-blank (λ x. is_number hashing (N.of_int (pos (suc (length t.array)))) x.i_key) _
              refl,
        )
        refl

  IsPresent-array_used :
      (t : Table N.Num) (b : ℕ)
      → b ≤ length t.array
      → IsPresent (array_used hashing t) b
      → IsPresent (getnum_used hashing t) b
  IsPresent-array_used t zero h p = inl refl
  IsPresent-array_used t (suc i) h (inl e) = absurd (omega arith)
  IsPresent-array_used t (suc i) h (inr used) =
      inr (getnum_used-array_used t i (omega (arith, h)) ∙ used)

  IsPresent-holds :
      (t : Table N.Num) (b : ℕ)
      → b < 2 ^ 31
      → IsPresent (getnum_used hashing t) b
      → IsPresent (holds t) b
  IsPresent-holds t b h (inl e) = inl e
  IsPresent-holds t b h (inr used) = inr (holds-getnum_used t b h ∙ used)

  border_in_array :
      (t : Table N.Num) (r : Option ℕ)
      → EndsBelow (length t.array) (array_used hashing t) r
      → EndsBelow (length t.array) (getnum_used hashing t) r
  border_in_array t r (b, e, (here, after), lt) =
      let next : suc b ≡ b + 1 = omega arith in
      (
        b,
        e,
        (
          IsPresent-array_used t b (omega (arith, lt)) here,
          subst (λ n. array_used hashing t n ≡ false → getnum_used hashing t n ≡ false) next
              (λ h. getnum_used-array_used t b lt ∙ h) after,
        ),
        lt,
      )

  -- where the array part has no border inside, its end is present
  IsPresent-end :
      (t : Table N.Num)
      → (ltb 0 (length t.array) && not (array_used hashing t (length t.array))) ≡ false
      → IsPresent (getnum_used hashing t) (length t.array)
  IsPresent-end t h =
      IsPresent-array_used t (length t.array) (omega arith)
        (elim (Bool-cases (ltb 0 (length t.array))) [
          | inr empty ↦ inl (ground arith)
          | inl some_slot ↦ inr (not-true _ (rw some_slot at h))
        ])

  searched :
      (t : Table N.Num) (free : ℕ)
      → length t.array < max_int
      → (t.dummy ≡ true → t.node ≡ blank ∷ [])
      → 0 < free
      → free < 2 ^ 31
      → getnum_used hashing t free ≡ false
      → EndsBelow (2 ^ 31 - 1) (getnum_used hashing t) (luah_getn hashing t)
  unfolding luah_getn unbound_search
  searched t free small is_dummy some_free top q =
      let j : ℕ = length t.array in
      let next : suc j ≡ j + 1 = omega arith in
      chosen (getnum_used hashing t) (ltb 0 j && not (array_used hashing t j)) _ _
        (λ inside.
          let (some_slot, last_free) = both_true (ltb 0 j) _ inside in
          lower_end j (2 ^ 31 - 1) _ _ (omega (arith, small)) (
            border_in_array t _ (
              border_loop-EndsBelow (suc j) (array_used hashing t) 0 j (ltb→lt 0 j some_slot)
                (omega (arith, small)) (omega arith) (inl refl) (not-false _ last_free))))
        (λ outside.
          chosen (getnum_used hashing t) t.dummy _ _
            (λ dummy. (
              j,
              refl,
              (
                IsPresent-end t outside,
                subst (λ n. getnum_used hashing t n ≡ false) next
                    (getnum_used-dummy t (is_dummy dummy)),
              ),
              omega (arith, small),
            ))
            (λ real.
              let exact : (j + 1) % 2 ^ 32 ≡ j + 1 = omega (arith, small) in
              rw exact (
                doubling_loop-EndsBelow 32 (getnum_used hashing t) j (j + 1) free (omega arith)
                  (omega (arith, small)) (omega arith) (IsPresent-end t outside) some_free top q)))

  -- In a table whose array part is shorter than MAX_INT, with fewer places in both parts than there are
  -- positive values of `int`, and whose hash part, if it is `dummynode`, is that blank node, `luaH_getn`
  -- ends with a border of the table: an index i that is 0 or holds a value, while i + 1 holds none. Here
  -- `holds` is the reading of the contents that `luaH_set` writes, through both parts. The rounds of all
  -- loops are enough, and i + 1 is an `int`.
  pub luah_getn-IsBorder :
      (t : Table N.Num)
      → length t.array < max_int
      → length t.array + length t.node < 2 ^ 31 - 1
      → (t.dummy ≡ true → t.node ≡ blank ∷ [])
      → (b : ℕ) × (luah_getn hashing t ≡ some b) × IsBorder (holds t) b × (b < 2 ^ 31 - 1)
  luah_getn-IsBorder t small few is_dummy =
      let (i, top, free) = some_free hashing t few in
      let (b, e, (here, after), lt) =
        searched t (suc i) small is_dummy (omega arith) (omega (arith, top)) free in
      (
        b,
        e,
        (
          IsPresent-holds t b (omega (arith, lt)) here,
          holds-getnum_used t (b + 1) (omega (arith, lt)) ∙ after,
        ),
        lt,
      )
