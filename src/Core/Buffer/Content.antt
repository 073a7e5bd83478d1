-- ===== src/Core/Buffer/Content.antt =====
-- A buffer holds the bytes that were added, in the array that there is and few places of the stack.
use luascript.Prelude.{
  ℕ, ◌+◌, ◌-◌, ◌≤◌, ◌<◌, ◌≡◌, refl, ap, ◌∙◌, sym, subst, inl, inr, true, List, [], ◌∷◌, ◌++◌, ◌==◌,
  ltb, leb, arith, Bool-cases, append_assoc, append-nil, length, length-append, length-drop, get_or,
}
use luascript.Prelude.Bytes.{Bytes}
use luascript.Core.Buffer.{
  Buffer, limit, lual_buffinit, emptybuffer, levels, adjuststack, lual_prepbuffer, lual_pushresult,
  lual_addchar, lual_addlstring, lual_addvalue, Addition, add_char, add_lstring, add_value, added,
}
use luascript.Core.Buffer.Levels.{pieces, pieces-concat, joined_all, levels-bounds}

-- the stack has `lvl` strings; what they and the array hold is `s`
pub record Holds (most : ℕ) (b : Buffer) (s : Bytes) : Type 0 where
  pub content : pieces b.stack ++ b.buffer ≡ s
  pub counted : b.lvl ≡ length b.stack
  pub few : b.lvl < most

no_bytes : (s : Bytes) → (length s == 0) ≡ true → s ≡ []
no_bytes [] h = refl
no_bytes (c ∷ s) h = absurd (ground arith)

-- with an empty array the stack holds everything
bare :
    (most : ℕ) (b : Buffer) (s : Bytes)
    → Holds most b s
    → (length b.buffer == 0) ≡ true
    → pieces b.stack ≡ s
bare most b s h none =
    sym (append-nil (pieces b.stack))
    ∙ ap (λ u. pieces b.stack ++ u) (sym (no_bytes b.buffer none))
    ∙ h.content

-- behind a push of the array, which one more place of the stack takes
abbrev pushed : Buffer → Buffer
pushed b = record { buffer = []; lvl = b.lvl + 1; stack = b.buffer ∷ b.stack }

pushed-Holds : (most : ℕ) (b : Buffer) (s : Bytes) → Holds most b s → Holds (most + 1) (pushed b) s
unfolding pieces
pushed-Holds most b s h = record {
  content = append-nil (pieces b.stack ++ b.buffer) ∙ h.content;
  counted = omega (arith, h.counted);
  few = omega (arith, h.few);
}

adjuststack-Holds :
    (most : ℕ) (b : Buffer) (s : Bytes)
    → Holds most b s
    → Holds limit (adjuststack b) s × ((adjuststack b).buffer ≡ b.buffer)
unfolding adjuststack
adjuststack-Holds most b s h = elim (Bool-cases (ltb 1 b.lvl)) [
  | inl several ↦
      let toget = levels (b.lvl - 1) b 1 (length (get_or b.stack 0 [])) in
      let (least, most, left) =
        levels-bounds (b.lvl - 1) b 1 (length (get_or b.stack 0 [])) (omega arith) (ground arith) in
      rw several (
        record {
          content = ap (λ t. t ++ b.buffer) (pieces-concat toget b.stack) ∙ h.content;
          counted = omega (arith, h.counted, most, length-drop toget b.stack);
          few = left;
        },
        refl,
      )
  | inr one ↦ rw one (record { content = h.content; counted = h.counted; few = ground arith }, refl)
]

prepbuffer-Holds :
    (b : Buffer) (s : Bytes)
    → Holds limit b s
    → Holds limit (lual_prepbuffer b) s × ((lual_prepbuffer b).buffer ≡ [])
unfolding lual_prepbuffer emptybuffer
prepbuffer-Holds b s h = elim (Bool-cases (length b.buffer == 0)) [
  | inl none ↦ rw none (h, no_bytes b.buffer none)
  | inr some_bytes ↦
      rw some_bytes (adjuststack-Holds (limit + 1) (pushed b) s (pushed-Holds limit b s h))
]

char-Holds :
    (c : ℕ) (b : Buffer) (s : Bytes)
    → Holds limit b s
    → Holds limit (record b { buffer = b.buffer ++ c ∷ [] }) (s ++ c ∷ [])
char-Holds c b s h = record {
  content = sym (append_assoc (pieces b.stack) b.buffer (c ∷ [])) ∙ ap (λ u. u ++ c ∷ []) h.content;
  counted = h.counted;
  few = h.few;
}

addchar-Holds :
    (size c : ℕ) (b : Buffer) (s : Bytes)
    → 0 < size
    → Holds limit b s
    → length b.buffer ≤ size
    → Holds limit (lual_addchar size c b) (s ++ c ∷ [])
      × (length (lual_addchar size c b).buffer ≤ size)
unfolding lual_addchar
addchar-Holds size c b s some_place h fits = elim (Bool-cases (ltb (length b.buffer) size)) [
  | inl room ↦ rw room (char-Holds c b s h, rw length-append (ground arith))
  | inr full ↦
      let (held, empty) = prepbuffer-Holds b s h in
      rw full (char-Holds c (lual_prepbuffer b) s held, rw (length-append, empty) some_place)
]

addlstring-Holds :
    (size : ℕ) (t : Bytes) (b : Buffer) (s : Bytes)
    → 0 < size
    → Holds limit b s
    → length b.buffer ≤ size
    → Holds limit (lual_addlstring size t b) (s ++ t)
      × (length (lual_addlstring size t b).buffer ≤ size)
unfolding lual_addlstring
addlstring-Holds size [] b s some_place h fits =
    (subst (Holds limit b) (sym (append-nil s)) h, fits)
addlstring-Holds size (c ∷ t) b s some_place h fits =
    let (held, fits') = addchar-Holds size c b s some_place h fits in
    subst
      (λ u.
        Holds limit (lual_addlstring size t (lual_addchar size c b)) u
        × (length (lual_addlstring size t (lual_addchar size c b)).buffer ≤ size))
      (append_assoc s (c ∷ []) t)
      (addlstring-Holds size t (lual_addchar size c b) (s ++ c ∷ []) some_place held fits')

addvalue-Holds :
    (size : ℕ) (t : Bytes) (b : Buffer) (s : Bytes)
    → Holds limit b s
    → length b.buffer ≤ size
    → Holds limit (lual_addvalue size t b) (s ++ t)
      × (length (lual_addvalue size t b).buffer ≤ size)
unfolding lual_addvalue emptybuffer pieces
addvalue-Holds size t b s h fits = elim (Bool-cases (leb (length t) (size - length b.buffer))) [
  | inl small ↦ rw small (
    record {
      content = sym (append_assoc (pieces b.stack) b.buffer t) ∙ ap (λ u. u ++ t) h.content;
      counted = h.counted;
      few = h.few;
    },
    rw length-append (ground arith),
  )
  | inr large ↦ elim (Bool-cases (length b.buffer == 0)) [
    | inl none ↦
        let (held, same) =
          adjuststack-Holds (limit + 1) (record b { lvl = b.lvl + 1; stack = t ∷ b.stack }) (s ++ t)
            (record {
              content =
                  ap (λ u. (pieces b.stack ++ t) ++ u) (no_bytes b.buffer none)
                  ∙ append-nil (pieces b.stack ++ t)
                  ∙ ap (λ u. u ++ t) (bare limit b s h none);
              counted = omega (arith, h.counted);
              few = omega (arith, h.few);
            }) in
        rw (large, none) (held, rw same fits)
    | inr some_bytes ↦
        let (held, same) =
          adjuststack-Holds (limit + 2)
            (record { buffer = []; lvl = b.lvl + 1 + 1; stack = t ∷ b.buffer ∷ b.stack }) (s ++ t)
            (record {
              content = append-nil ((pieces b.stack ++ b.buffer) ++ t) ∙ ap (λ u. u ++ t) h.content;
              counted = omega (arith, h.counted);
              few = omega (arith, h.few);
            }) in
        rw (large, some_bytes) (held, rw same (omega arith))
  ]
]

abbrev pub text_of : Addition → Bytes
text_of (add_char c) = c ∷ []
text_of (add_lstring s) = s
text_of (add_value s) = s

-- what was added, in order
unfoldable pub texts : List Addition → Bytes
texts [] = []
texts (x ∷ xs) = text_of x ++ texts xs

abbrev Kept : ℕ → Buffer → Bytes → Type 0
Kept size b s = Holds limit b s × (length b.buffer ≤ size)

regrouped :
    (size : ℕ) (xs : List Addition) (t : Bytes) (b : Buffer) (s : Bytes)
    → Kept size b ((s ++ t) ++ texts xs)
    → Kept size b (s ++ (t ++ texts xs))
regrouped size xs t b s = subst (Kept size b) (append_assoc s t (texts xs))

added-Holds :
    (size : ℕ) (xs : List Addition) (b : Buffer) (s : Bytes)
    → 0 < size
    → Kept size b s
    → Kept size (added size xs b) (s ++ texts xs)
unfolding added texts
added-Holds size [] b s some_place k = subst (Kept size b) (sym (append-nil s)) k
added-Holds size (add_char c ∷ xs) b s some_place k =
    regrouped size xs (c ∷ []) _ s (
      added-Holds size xs _ (s ++ (c ∷ [])) some_place
        (addchar-Holds size c b s some_place k.0 k.1))
added-Holds size (add_lstring t ∷ xs) b s some_place k =
    regrouped size xs t _ s
      (added-Holds size xs _ (s ++ t) some_place (addlstring-Holds size t b s some_place k.0 k.1))
added-Holds size (add_value t ∷ xs) b s some_place k =
    regrouped size xs t _ s
      (added-Holds size xs _ (s ++ t) some_place (addvalue-Holds size t b s k.0 k.1))

fresh-Kept : (size : ℕ) → Kept size lual_buffinit []
unfolding pieces
fresh-Kept size = (record { content = refl; counted = refl; few = omega arith }, omega arith)

-- A new buffer to which bytes, strings and values of the stack are added, in any order and number, gives
-- as its result one string on the stack, which is all that was added, whatever the size of the array is
-- except 0.
pub lual_pushresult-added :
    (size : ℕ) (xs : List Addition)
    → 0 < size
    → ((lual_pushresult (added size xs lual_buffinit)).stack ≡ texts xs ∷ [])
      × ((lual_pushresult (added size xs lual_buffinit)).lvl ≡ 1)
unfolding lual_pushresult emptybuffer
lual_pushresult-added size xs some_place =
    let b = added size xs lual_buffinit in
    let (h, fits) = added-Holds size xs lual_buffinit [] some_place (fresh-Kept size) in
    elim (Bool-cases (length b.buffer == 0)) [
      | inl none ↦ rw none (
        joined_all b.lvl b.stack h.counted ∙ ap (λ t. t ∷ []) (bare limit b (texts xs) h none),
        refl,
      )
      | inr some_bytes ↦
          let held = pushed-Holds limit b (texts xs) h in
          rw some_bytes (
            joined_all (b.lvl + 1) (b.buffer ∷ b.stack) held.counted
                ∙ ap (λ t. t ∷ []) (sym (append-nil (pieces (b.buffer ∷ b.stack))) ∙ held.content),
            refl,
          )
    ]

-- Whatever is added to a new buffer, its array is never filled beyond its size, if that is not 0, and its
-- strings take fewer than LUA_MINSTACK/2 places of the stack.
pub added_bounds :
    (size : ℕ) (xs : List Addition)
    → 0 < size
    → (length (added size xs lual_buffinit).buffer ≤ size)
      × (length (added size xs lual_buffinit).stack < limit)
added_bounds size xs some_place =
    let (h, fits) = added-Holds size xs lual_buffinit [] some_place (fresh-Kept size) in
    (fits, omega (arith, h.few, h.counted))
