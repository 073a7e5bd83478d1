-- ===== src/Core/Api/Insert.antt =====
-- What `lua_insert` of lapi.c does to the values on the stack.
use luascript.Prelude.{
  ℕ, zero, suc, ◌+◌, ◌-◌, ◌<◌, ◌≡◌, refl, ap, sym, ◌∙◌, some, List, [], ◌∷◌, ◌++◌, arith,
  append_assoc, length, get_or, set, take, length-append, ltb, lt→ltb, true,
}
use luascript.Prelude.Int.{pos}
use luascript.Core.Value.{Number, Value, nil}
use luascript.Core.Api.{LuaState, index2adr, lua_insert, shift_up}

module _ {Num : Type 0} where
  get_or-middle :
      (before : List (Value Num)) (x : Value Num) (rest : List (Value Num)) (i : ℕ)
      → i ≡ length before
      → get_or (before ++ (x ∷ rest)) i nil ≡ x
  get_or-middle before x rest i e = rw e (go before)
    where
      go : (b : List (Value Num)) → get_or (b ++ (x ∷ rest)) (length b) nil ≡ x
      go [] = refl
      go (y ∷ b) = go b

  set-middle :
      (before : List (Value Num)) (x y : Value Num) (rest : List (Value Num)) (i : ℕ)
      → i ≡ length before
      → set (before ++ (x ∷ rest)) i y ≡ before ++ (y ∷ rest)
  set-middle before x y rest i e = rw e (go before)
    where
      go : (b : List (Value Num)) → set (b ++ (x ∷ rest)) (length b) y ≡ b ++ (y ∷ rest)
      go [] = refl
      go (z ∷ b) = ap (λ t. z ∷ t) (go b)

  take-length : (xs rest : List (Value Num)) (n : ℕ) → n ≡ length xs → take n (xs ++ rest) ≡ xs
  take-length xs rest n e = rw e (go xs)
    where
      go : (ys : List (Value Num)) → take (length ys) (ys ++ rest) ≡ ys
      go [] = refl
      go (y ∷ ys) = ap (λ t. y ∷ t) (go ys)

  first_of : List (Value Num) → Value Num → Value Num
  first_of [] y = y
  first_of (x ∷ r) y = x

  -- the last round, at the lowest slot
  shift_up-last :
      (k q : ℕ) (st : List (Value Num))
      → k < q
      → shift_up (suc k) q st
        ≡ set (shift_up k q st) (q - k) (get_or (shift_up k q st) (q - k - 1) nil)
  unfolding shift_up
  shift_up-last zero q st h = let e : q - 0 ≡ q = omega arith in rw e refl
  shift_up-last (suc k) q st h =
      let e : q - 1 - k ≡ q - suc k = omega arith in
      rw e at (shift_up-last k (q - 1) (set st q (get_or st (q - 1) nil)) (omega arith))

  shift_up-middle :
      (before r : List (Value Num)) (y : Value Num) (q : ℕ)
      → q ≡ length before + length r
      → shift_up (length r) q (before ++ (r ++ y ∷ [])) ≡ before ++ (first_of r y ∷ r)
  unfolding shift_up first_of
  shift_up-middle before [] y q e = refl
  shift_up-middle before (x ∷ r) y q e =
      let one = length-append before (x ∷ []) in
      let next = shift_up-middle (before ++ x ∷ []) r y q (omega (arith, one)) in
      let moved = rw append_assoc at next in
      let below = get_or-middle before x (first_of r y ∷ r) (q - length r - 1) (omega arith) in
      let stored =
        set-middle (before ++ x ∷ []) (first_of r y) x r (q - length r) (omega (arith, one)) in
      shift_up-last (length r) q (before ++ (x ∷ (r ++ y ∷ []))) (omega arith)
      ∙ ap (λ t. set t (q - length r) (get_or t (q - length r - 1) nil))
          (moved ∙ append_assoc before (x ∷ []) _)
      ∙ ap (set (before ++ (x ∷ first_of r y ∷ r)) (q - length r)) below
      ∙ ap (λ t. set t (q - length r) x) (sym (append_assoc before (x ∷ []) (first_of r y ∷ r)))
      ∙ stored
      ∙ append_assoc before (x ∷ []) (x ∷ r)

  -- the two assignments of `lua_insert` and the loop between them
  inserted :
      (before after : List (Value Num)) (x : Value Num) (top : ℕ) (st : List (Value Num))
      → top ≡ length before + suc (length after)
      → st ≡ before ++ (after ++ x ∷ [])
      → take top (
          set
            (shift_up (top - length before) top (st ++ nil ∷ []))
            (length before)
            (get_or (shift_up (top - length before) top (st ++ nil ∷ [])) top nil))
        ≡ before ++ (x ∷ after)
  inserted before after x top st e f =
      let r = after ++ x ∷ [] in
      let rounds : top - length before ≡ length r = omega (arith, length-append after (x ∷ [])) in
      let old = first_of r nil in
      let moved : shift_up (length r) top (st ++ nil ∷ []) ≡ before ++ (old ∷ r) =
        rw (f, append_assoc before r (nil ∷ []))
          (shift_up-middle before r nil top (omega (arith, length-append after (x ∷ [])))) in
      let last : get_or (before ++ (old ∷ r)) top nil ≡ x = rw append_assoc at (
        get_or-middle (before ++ (old ∷ after)) x [] top
          (omega (arith, length-append before (old ∷ after)))) in
      let kept : take top (before ++ (x ∷ r)) ≡ before ++ (x ∷ after) = rw append_assoc at (
        take-length (before ++ (x ∷ after)) (x ∷ []) top
          (omega (arith, length-append before (x ∷ after)))) in
      rw (rounds, moved, last, set-middle before old x r (length before) refl) kept

module _ {N : Number} where
  -- `lua_insert` at a positive index that holds a value moves the value at the top there, and keeps the
  -- order of the others.
  pub lua_insert-middle :
      (s : LuaState N) (before after : List (Value N.Num)) (x : Value N.Num)
      → s.stack ≡ before ++ (after ++ x ∷ [])
      → lua_insert (pos (suc (length before))) s ≡ some (record s { stack = before ++ (x ∷ after) })
  unfolding lua_insert index2adr
  lua_insert-middle s before after x e =
      let snoc = length-append after (x ∷ []) in
      let height : length s.stack ≡ length before + suc (length after) =
        omega (arith, ap length e, length-append before (after ++ x ∷ []), snoc) in
      let inside : ltb (length before) (length s.stack) ≡ true = lt→ltb _ _ (omega arith) in
      rw inside (
        ap (λ t. some (record s { stack = t }))
          (inserted before after x (length s.stack) s.stack height e))
