-- ===== src/Core/Api/Stack.antt =====
-- What the stack manipulation of lapi.c does to the values on the stack.
use luascript.Prelude.{
  ℕ, zero, suc, ◌-◌, ◌≤◌, ◌<◌, ◌≡◌, refl, ap, ◌∙◌, some, List, [], ◌∷◌, ◌++◌, arith, append_assoc,
  append-nil, length, get_or, set, take, replicate, length-append, ltb, lt→ltb, true,
}
use luascript.Prelude.Int.{pos, negsuc}
use luascript.Core.Value.{Number, Value, nil}
use luascript.Core.Api.{
  LuaState, on_stack, index2adr, lua_settop, lua_remove, push_nils, shift_down, registryindex,
}

length-snoc {ℓ} : {A : Type ℓ} (xs : List A) (x : A) → length (xs ++ x ∷ []) ≡ suc (length xs)
length-snoc [] x = refl
length-snoc (y ∷ xs) x = ap suc (length-snoc xs x)

module _ {Num : Type 0} where
  push_nils-replicate : (k : ℕ) (st : List (Value Num)) → push_nils k st ≡ st ++ replicate k nil
  unfolding push_nils
  push_nils-replicate zero st = rw append-nil
  push_nils-replicate (suc k) st =
      push_nils-replicate k (st ++ nil ∷ []) ∙ append_assoc st (nil ∷ []) _

  take-replicate : (k : ℕ) → take k (replicate k nil) ≡ ◌++◌ {A = Value Num} [] (replicate k nil)
  take-replicate zero = refl
  take-replicate (suc k) = ap (λ t. nil ∷ t) (take-replicate k)

  take-append :
      (n : ℕ) (xs : List (Value Num))
      → take n (xs ++ replicate (n - length xs) nil) ≡ take n xs ++ replicate (n - length xs) nil
  take-append zero xs = ground arith
  take-append (suc n) [] = let e : suc n - 0 ≡ suc n = omega arith in rw e (take-replicate (suc n))
  take-append (suc n) (x ∷ xs) =
      let e : suc n - suc (length xs) ≡ n - length xs = omega arith in
      rw e (ap (λ t. x ∷ t) (take-append n xs))

  next_middle :
      (before : List (Value Num)) (x y : Value Num) (r : List (Value Num))
      → get_or (before ++ (x ∷ y ∷ r)) (suc (length before)) nil ≡ y
  next_middle [] x y r = refl
  next_middle (b ∷ before) x y r = next_middle before x y r

  set-middle :
      (before : List (Value Num)) (x y : Value Num) (r : List (Value Num))
      → set (before ++ (x ∷ r)) (length before) y ≡ before ++ (y ∷ r)
  set-middle [] x y r = refl
  set-middle (b ∷ before) x y r = ap (λ t. b ∷ t) (set-middle before x y r)

  take_all :
      (before after : List (Value Num)) (x : Value Num)
      → take (length (before ++ after)) (before ++ (after ++ x ∷ [])) ≡ before ++ after
  take_all [] [] x = refl
  take_all [] (y ∷ after) x = ap (λ t. y ∷ t) (take_all [] after x)
  take_all (b ∷ before) after x = ap (λ t. b ∷ t) (take_all before after x)

  last_of : Value Num → List (Value Num) → Value Num
  last_of x [] = x
  last_of x (y ∷ r) = last_of y r

  -- the loop moves every value above p down by one; the last one stays behind, doubled
  shift_down-middle :
      (before : List (Value Num)) (x : Value Num) (r : List (Value Num))
      → shift_down (length r) (length before) (before ++ (x ∷ r))
        ≡ before ++ (r ++ last_of x r ∷ [])
  unfolding shift_down last_of
  shift_down-middle before x [] = refl
  shift_down-middle before x (y ∷ r) =
      let next = shift_down-middle (before ++ y ∷ []) y r in
      let st = before ++ (x ∷ y ∷ r) in
      let loop = shift_down (length r) (suc (length before)) in
      ap (λ v. loop (set st (length before) v)) (next_middle before x y r)
      ∙ ap loop (set-middle before x y (y ∷ r))
      ∙ (simp (length-snoc, append_assoc) at next)

module _ {N : Number} where
  -- `lua_settop` with an index n ≥ 0 leaves n values: those that were there, up to n, and nils.
  pub lua_settop-take :
      (n : ℕ) (s : LuaState N)
      → lua_settop (pos n) s
        ≡ some (record s { stack = take n s.stack ++ replicate (n - length s.stack) nil })
  unfolding lua_settop
  lua_settop-take n s =
      rw push_nils-replicate (ap (λ t. some (record s { stack = t })) (take-append n s.stack))

  -- `lua_remove` at a positive index that holds a value takes out the value there and keeps the
  -- order of the others.
  pub lua_remove-middle :
      (s : LuaState N) (before after : List (Value N.Num)) (x : Value N.Num)
      → s.stack ≡ before ++ (x ∷ after)
      → lua_remove (pos (suc (length before))) s ≡ some (record s { stack = before ++ after })
  unfolding lua_remove index2adr
  lua_remove-middle s before after x e =
      let height : length s.stack ≡ suc (length (before ++ after)) =
        omega (arith, ap length e, length-append before (x ∷ after), length-append before after) in
      let inside : ltb (length before) (length s.stack) ≡ true =
        lt→ltb _ _ (omega (arith, length-append before after)) in
      let rounds : length s.stack - suc (length before) ≡ length after =
        omega (arith, length-append before after) in
      let kept : length s.stack - 1 ≡ length (before ++ after) = omega arith in
      rw (inside, rounds, kept)
        (ap (λ t. some (record s { stack = t }))
          (ap (λ t. take (length (before ++ after)) (shift_down (length after) (length before) t)) e
            ∙ ap (take (length (before ++ after))) (shift_down-middle before x after)
            ∙ take_all before after (last_of x after)))

  -- A negative index -n up to the height of the stack, above LUA_REGISTRYINDEX, leads n places below the
  -- top, where the index counted from the bottom does.
  pub index2adr-negsuc :
      (s : LuaState N) (n : ℕ)
      → suc n < registryindex
      → suc n ≤ length s.stack
      → (index2adr s (negsuc n) ≡ some (on_stack (length s.stack - suc n)))
        × (index2adr s (negsuc n) ≡ index2adr s (pos (suc (length s.stack - suc n))))
  unfolding index2adr
  index2adr-negsuc s n h k = (ground arith, ground arith)
