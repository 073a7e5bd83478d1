-- ===== src/Script/Variable/Laws.antt =====
-- Global variables through `set_variable` and `get_variable`.
use luascript.Prelude.{
  ℕ, suc, ◌-◌, ◌≡◌, ◌≢◌, ap, ◌∙◌, sym, subst, some, List, [], ◌∷◌, ◌++◌, arith, length, take,
  get_elem?,
}
use luascript.Prelude.Bytes.{Bytes, c_str}
use luascript.Core.Value.{Number, Value}
use luascript.Script.Api.{LuaApi}
use luascript.Script.Args.{Arg, done, throw, pack_arg}
use luascript.Script.Args.Blocks.{get_elem?-middle, length-snoc}
use luascript.Script.Args.Values.{
  Fits, SameClass, Reads, Reads-to_value, Rejects, rejection, to_value, stack-pack_arg,
  globals-pack_arg, unpack_arg-Reads, unpack_arg-Rejects,
}
use luascript.Script.Variable.{get_variable, set_variable}

take_none {ℓ} : {A : Type ℓ} (n : ℕ) (xs : List A) → take (n - n) xs ≡ []
take_none n xs = let e : n - n ≡ 0 = omega arith in rw e

module _ {N : Number} (api : LuaApi N) where
  open api use {State, stack, globals, get_top, get_global, pop}

  -- `set_variable` gives the variable the packed value, and keeps the stack and all other variables.
  pub globals-set_variable :
      (name : Bytes) (x : Arg) (l : State)
      → (globals (set_variable api name x l) (c_str name) ≡ to_value N x)
        × (stack (set_variable api name x l) ≡ stack l)
        × ((other : Bytes)
            → other ≢ c_str name
            → globals (set_variable api name x l) other ≡ globals l other)
  unfolding set_variable
  globals-set_variable name x l =
      let (below, value, others) =
        api.set_global_top name (pack_arg api x l) (stack l) (to_value N x)
          (stack-pack_arg api x l) in
      (
        value,
        below,
        λ other ne.
            others other ne ∙ ap (λ (g : Bytes → Value N.Num). g other) (globals-pack_arg api x l),
      )

  -- the value of the variable lies on top of the stack, where `unpack` looks
  pushed :
      (name : Bytes) (l : State)
      → (get_top (get_global name l) ≡ suc (length (stack l)))
        × (get_elem? (stack (get_global name l)) (length (stack l)) ≡ some (globals l (c_str name)))
  pushed name l = (
    api.get_top_length (get_global name l)
        ∙ ap length (api.stack-get_global name l)
        ∙ length-snoc (stack l) (globals l (c_str name)),
    ap (λ t. get_elem? t (length (stack l))) (api.stack-get_global name l)
        ∙ get_elem?-middle (stack l) (globals l (c_str name)) [],
  )

  -- A variable whose value fits the type is read, a number as its integer taken modulo 2 ^ 32 into the
  -- range of an `int`. The state's variables stay, but all of its stack is popped, also what lay there
  -- before.
  pub get_variable-Reads :
      (d y : Arg) (name : Bytes) (l : State)
      → Reads N d (globals l (c_str name)) y
      → (l' : State) × (get_variable api d name l ≡ (done y, l'))
        × (stack l' ≡ [])
        × (globals l' ≡ globals l)
  unfolding get_variable
  get_variable-Reads d y name l r =
      let l₁ = get_global name l in
      let (index, value) = pushed name l in
      let read = unpack_arg-Reads api d y (globals l (c_str name)) (length (stack l)) l₁ r value in
      let height : length (stack l₁) ≡ suc (length (stack l)) =
        sym (api.get_top_length l₁) ∙ index in
      (
        pop (suc (length (stack l))) l₁,
        rw (index, read),
        api.stack-pop (suc (length (stack l))) l₁ (omega arith)
            ∙ rw height (take_none (suc (length (stack l))) (stack l₁)),
        api.globals-pop (suc (length (stack l))) l₁ ∙ api.globals-get_global name l,
      )

  -- A variable whose value the type refuses makes `get_variable` throw, and its value stays on the stack.
  pub get_variable-Rejects :
      (d : Arg) (name : Bytes) (l : State)
      → Rejects N d (globals l (c_str name))
      → (l' : State) × (get_variable api d name l ≡ (throw (rejection d), l'))
        × (stack l' ≡ stack l ++ globals l (c_str name) ∷ [])
        × (globals l' ≡ globals l)
  unfolding get_variable
  get_variable-Rejects d name l r =
      let l₁ = get_global name l in
      let (index, value) = pushed name l in
      let refused =
        unpack_arg-Rejects api d (globals l (c_str name)) (length (stack l)) l₁ r value in
      (l₁, rw (index, refused), api.stack-get_global name l, api.globals-get_global name l)

  -- What `set_variable` stores, `get_variable` of the same class reads back, for an `int` in range and a
  -- string without NUL.
  pub get_variable-set_variable :
      (d x : Arg) (name : Bytes) (l : State)
      → SameClass d x
      → Fits x
      → (l' : State) × (get_variable api d name (set_variable api name x l) ≡ (done x, l'))
        × (globals l' ≡ globals (set_variable api name x l))
  get_variable-set_variable d x name l same fits =
      let l₁ = set_variable api name x l in
      let stored = (globals-set_variable name x l).0 in
      let (l', read, empty, kept) =
        get_variable-Reads d x name l₁
          (subst (λ v. Reads N d v x) (sym stored) (Reads-to_value N d x same fits)) in
      (l', read, kept)
