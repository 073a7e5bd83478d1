-- ===== src/Core/Search/First.antt =====
-- `lmemfind` finds the first occurrence.
use mathlib.Core.Option
use luascript.Prelude.{
  ℕ, zero, suc, ◌+◌, ◌-◌, ◌≤◌, ◌<◌, ◌≡◌, refl, ap, ◌∙◌, sym, ◌⊎◌, inl, inr, Bool, true, false,
  Option, none, some, [], ◌∷◌, ◌==◌, ltb, arith, if◌then◌else◌, Bool-cases, length, take, drop,
  length-drop,
}
use luascript.Prelude.Bytes.{Bytes, bytes_eq, starts_with, find}
use luascript.Core.Search.{memchr, lmemfind_loop, lmemfind}

abbrev shift : ℕ → Option ℕ → Option ℕ
shift k o = Option.map (λ i. k + i) o

shift-shift : (j k : ℕ) (o : Option ℕ) → shift j (shift k o) ≡ shift (j + k) o
shift-shift j k none = refl
shift-shift j k (some i) = ap some (omega arith)

-- a prefix is what `memcmp` compares
starts_with-take :
    (needle s : Bytes)
    → length needle ≤ length s
    → starts_with needle s ≡ bytes_eq (take (length needle) s) needle
unfolding starts_with bytes_eq
starts_with-take [] s h = refl
starts_with-take (x ∷ needle) [] h = absurd (omega arith)
starts_with-take (x ∷ needle) (y ∷ s) h =
    rw (starts_with-take needle s (omega arith)) (ground arith)

starts_with-short : (needle s : Bytes) → length s < length needle → starts_with needle s ≡ false
unfolding starts_with
starts_with-short [] s h = absurd (omega arith)
starts_with-short (x ∷ needle) [] h = refl
starts_with-short (x ∷ needle) (y ∷ s) h =
    rw (starts_with-short needle s (omega arith)) (ground arith)

too_short : (needle s : Bytes) → length s < length needle → find needle s ≡ none
unfolding find starts_with
too_short [] s h = absurd (omega arith)
too_short (x ∷ needle) [] h = refl
too_short (x ∷ needle) (y ∷ s) h =
    rw (too_short (x ∷ needle) s (omega arith), starts_with-short needle s (omega arith))
      (ground arith)

next_place : (i : ℕ) → suc (i + 1) ≡ suc i + 1
next_place i = omega arith

map-suc : (o : Option ℕ) → Option.map suc o ≡ shift 1 o
map-suc none = refl
map-suc (some i) = ap some (omega arith)

map-suc_choice :
    (p : Bool) (i : ℕ) (o : Option ℕ)
    → Option.map suc (if p then some i else shift (i + 1) o)
      ≡ (if p then some (suc i) else shift (suc (i + 1)) o)
map-suc_choice true i o = refl
map-suc_choice false i none = refl
map-suc_choice false i (some j) = ap some (omega arith)

-- one byte further, where the first byte is another one
find-skip :
    (c x : ℕ) (rest s : Bytes)
    → (x == c) ≡ false
    → find (c ∷ rest) (x ∷ s) ≡ Option.map suc (find (c ∷ rest) s)
unfolding find starts_with
find-skip c x rest s other = let flipped : (c == x) ≡ false = ground arith in rw flipped refl

find-here :
    (c x : ℕ) (rest s : Bytes)
    → (x == c) ≡ true
    → find (c ∷ rest) (x ∷ s) ≡ (if starts_with rest s then some 0 else shift 1 (find (c ∷ rest) s))
unfolding find starts_with
find-here c x rest s here =
    let flipped : (c == x) ≡ true = ground arith in rw (flipped, map-suc (find (c ∷ rest) s)) refl

-- the first place where the first byte is
memchr-cases :
    (c : ℕ) (rest : Bytes) (n : ℕ) (s : Bytes)
    → n + length rest ≡ length s
    → ((memchr c n s ≡ none) × (find (c ∷ rest) s ≡ none))
      ⊎ ((i : ℕ) × (memchr c n s ≡ some i)
          × (i < n)
          × (find (c ∷ rest) s ≡ (
              if starts_with rest (drop (i + 1) s)
              then some i
              else shift (i + 1) (find (c ∷ rest) (drop (i + 1) s)))))
unfolding memchr
memchr-cases c rest zero s e = inl (refl, too_short (c ∷ rest) s (omega (arith, e)))
memchr-cases c rest (suc n) [] e = absurd (omega arith)
memchr-cases c rest (suc n) (x ∷ s) e = elim (Bool-cases (x == c)) [
  | inl here ↦ inr (0, rw here refl, omega arith, find-here c x rest s here)
  | inr other ↦ elim (memchr-cases c rest n s (omega (arith, e))) [
    | inl (nowhere, not_found) ↦
        inl (rw (other, nowhere) refl, find-skip c x rest s other ∙ ap (Option.map suc) not_found)
    | inr (i, later, inside, found) ↦ inr (
      suc i,
      rw (other, later) refl,
      omega (arith, inside),
      find-skip c x rest s other
          ∙ ap (Option.map suc) found
          ∙ map-suc_choice (starts_with rest (drop (i + 1) s)) i (find (c ∷ rest) (drop (i + 1) s))
          ∙ ap
              (λ k.
                if starts_with rest (drop k (x ∷ s))
                then some (suc i)
                else shift k (find (c ∷ rest) (drop k (x ∷ s))))
              (next_place i),
    )
  ]
]

shift_zero : (o : Option ℕ) → shift 0 o ≡ o
shift_zero none = refl
shift_zero (some i) = ap some (omega arith)

loop-find :
    (k c : ℕ) (rest : Bytes) (at : ℕ) (s : Bytes) (l : ℕ)
    → l ≤ k
    → l + length rest ≡ length s
    → lmemfind_loop k c rest at s l ≡ shift at (find (c ∷ rest) s)
unfolding lmemfind_loop
loop-find zero c rest at s l h e =
    sym (ap (shift at) (too_short (c ∷ rest) s (omega (arith, e, h))))
loop-find (suc k) c rest at s l h e = elim (memchr-cases c rest l s e) [
  | inl (nowhere, not_found) ↦ rw (lmemfind_loop, nowhere) (sym (ap (shift at) not_found))
  | inr (i, first, inside, found) ↦
      let init = drop (i + 1) s in
      let left : length init ≡ length s - (i + 1) = length-drop (i + 1) s in
      let test = starts_with-take rest init (omega (arith, left, e)) in
      let choice = λ (p : Bool). if p then some i else shift (i + 1) (find (c ∷ rest) init) in
      let again =
        loop-find k c rest (at + (i + 1)) init (l - (i + 1)) (omega arith)
          (omega (arith, left, e)) in
      elim (Bool-cases (bytes_eq (take (length rest) init) rest)) [
        | inl same ↦
            rw (lmemfind_loop, first, same) (sym (ap (shift at) (found ∙ ap choice (test ∙ same))))
        | inr differ ↦
            rw (lmemfind_loop, first, differ)
              (again
                ∙ sym (shift-shift at (i + 1) (find (c ∷ rest) init))
                ∙ sym (ap (shift at) (found ∙ ap choice (test ∙ differ))))
      ]
]

-- `lmemfind` gives the first position of the second string in the first one, and NULL where there is none.
pub lmemfind-find : (s1 s2 : Bytes) → lmemfind s1 s2 ≡ find s2 s1
unfolding lmemfind find starts_with
lmemfind-find [] [] = refl
lmemfind-find (x ∷ s1) [] = refl
lmemfind-find s1 (c ∷ rest) = elim (Bool-cases (ltb (length s1) (length rest + 1))) [
  | inl short ↦ rw short (sym (too_short (c ∷ rest) s1 (ground arith)))
  | inr long ↦ rw long (
      loop-find (length s1 - length rest) c rest 0 s1 (length s1 - length rest) (omega arith)
        (ground arith)
      ∙ shift_zero (find (c ∷ rest) s1))
]
