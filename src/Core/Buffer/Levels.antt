-- ===== src/Core/Buffer/Levels.antt =====
-- Which strings `adjuststack` joins, and that it keeps their bytes.
use luascript.Prelude.{
  ℕ, zero, suc, ◌+◌, ◌-◌, ◌≤◌, ◌<◌, ◌≡◌, refl, ap, ◌∙◌, sym, inl, inr, ◌||◌, List, [], ◌∷◌, ◌++◌,
  ltb, leb, arith, Bool-cases, append_assoc, append-nil, length, get_or, drop,
}
use luascript.Prelude.Bytes.{Bytes}
use luascript.Core.Buffer.{Buffer, limit, joined, lua_concat, levels}

-- all the bytes of a stack, its bottom first
unfoldable pub pieces : List Bytes → Bytes
pieces [] = []
pieces (x ∷ stack) = pieces stack ++ x

pub pieces-concat : (n : ℕ) (stack : List Bytes) → pieces (lua_concat n stack) ≡ pieces stack
unfolding pieces joined
pieces-concat zero stack = append-nil (pieces stack)
pieces-concat (suc n) [] = refl
pieces-concat (suc n) (x ∷ stack) =
    sym (append_assoc (pieces (drop n stack)) (joined n stack) x)
    ∙ ap (λ s. s ++ x) (pieces-concat n stack)

abbrev head_or : List Bytes → Bytes
head_or [] = []
head_or (x ∷ stack) = x

abbrev tail_of : List Bytes → List Bytes
tail_of [] = []
tail_of (x ∷ stack) = stack

-- the whole stack joined is one string
pub joined_all :
    (n : ℕ) (stack : List Bytes) → n ≡ length stack → lua_concat n stack ≡ pieces stack ∷ []
unfolding pieces joined
joined_all zero [] h = refl
joined_all zero (x ∷ stack) h = absurd (omega arith)
joined_all (suc n) [] h = absurd (omega arith)
joined_all (suc n) (x ∷ stack) h =
    ap (λ t. (head_or t ++ x) ∷ tail_of t) (joined_all n stack (omega arith))

-- as many levels as there are, or so many that few are left
pub levels-bounds :
    (k : ℕ) (b : Buffer) (toget toplen : ℕ)
    → 1 ≤ toget
    → toget + k ≡ b.lvl
    → (1 ≤ levels k b toget toplen)
      × (levels k b toget toplen ≤ b.lvl)
      × (b.lvl - levels k b toget toplen + 1 < limit)
unfolding levels
levels-bounds zero b toget toplen h e = (h, omega (arith, e), omega (arith, e))
levels-bounds (suc k) b toget toplen h e =
    let l = length (get_or b.stack toget []) in
    elim (Bool-cases (leb limit (b.lvl - toget + 1) || ltb l toplen)) [
      | inl more ↦
          rw more (levels-bounds k b (toget + 1) (toplen + l) (omega arith) (omega (arith, e)))
      | inr enough ↦ rw enough (h, omega (arith, e), ground arith)
    ]
