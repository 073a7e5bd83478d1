-- ===== src/Script/Args/Values.antt =====
-- What `unpack` reads from the stack of Lua and what `pack` puts on it, for one object and for those
-- of an `args_t` in one block of the store.
use luascript.Prelude.{
  ℕ, suc, Bool, ◌≡◌, refl, ap, subst, ◌∙◌, sym, false, none, some, List, [], ◌∷◌, ◌++◌, map,
  append_assoc, append-nil, length, get_elem?,
}
use luascript.Prelude.Bytes.{Bytes, c_str, codes}
use luascript.Prelude.Int.{ℤ}
use luascript.Core.Value.{Number, Value, boolean, number, str, IsInt, is_bool, is_text, to_number}
use luascript.Script.Api.{LuaApi}
use luascript.Script.Args.{
  Arg, bool_arg, int_arg, string_arg, done, throw, Store, world, unpack_arg, pack_arg, unpack_args,
  pack_args, assign_string,
}
use luascript.Script.Args.Narrow.{Narrows, IsInt-Narrows, Narrows-narrow}
use luascript.Script.Args.Blocks.{fresh, get_elem?-middle, fetch-middle, write-middle, length-snoc}

-- an object's value has no NUL and is in range
abbrev pub Fits : Arg → Type 0
Fits (bool_arg b) = Unit
Fits (int_arg z) = IsInt z
Fits (string_arg s) = c_str s ≡ s

abbrev pub SameClass : Arg → Arg → Type 0
SameClass (bool_arg _) (bool_arg _) = Unit
SameClass (int_arg _) (int_arg _) = Unit
SameClass (string_arg _) (string_arg _) = Unit
SameClass _ _ = ⊥

-- the text of the exception by which a class refuses a value
abbrev pub rejection : Arg → Bytes
rejection (bool_arg _) = codes "bool_arg_t::unpack(), value is not boolean"
rejection (int_arg _) = codes "int_arg_t::unpack(), value is not integer"
rejection (string_arg _) = codes "string_arg_t::unpack(), value is not string"

module _ (N : Number) where
  -- an object of a class, a Lua value of the type of that class, and the value it is given
  pub data Reads : Arg → Value N.Num → Arg → Type 0 where
    reads_bool : (old b : Bool) → Reads (bool_arg old) (boolean b) (bool_arg b)
    -- a number, or a string that spells one; its integer is taken modulo 2 ^ 32 into the range of an
    -- `int`
    reads_int :
        (old : ℤ) (v : Value N.Num) (n : N.Num) (z : ℤ)
        → to_number N v ≡ some n
        → Narrows (N.to_integer n) z
        → Reads (int_arg old) v (int_arg z)
    reads_string : (old t : Bytes) → Reads (string_arg old) (str t) (string_arg (c_str t))

  pub data ReadsAll : List Arg → List (Value N.Num) → List Arg → Type 0 where
    reads_nil : ReadsAll [] [] []
    reads_cons :
        {x y : Arg} {v : Value N.Num} {xs ys : List Arg} {vs : List (Value N.Num)}
        → Reads x v y
        → ReadsAll xs vs ys
        → ReadsAll (x ∷ xs) (v ∷ vs) (y ∷ ys)

  pub ReadsAll-length :
      (xs ys : List Arg) (vs : List (Value N.Num))
      → ReadsAll xs vs ys
      → (length ys ≡ length xs) × (length vs ≡ length xs)
  ReadsAll-length _ _ _ reads_nil = (refl, refl)
  ReadsAll-length _ _ _ (reads_cons {xs} {ys} {vs} r rs) =
      let (p, q) = ReadsAll-length xs ys vs rs in (ap suc p, ap suc q)

  -- an object of a class, and a Lua value that its `unpack` refuses
  pub data Rejects : Arg → Value N.Num → Type 0 where
    rejects_bool : (old : Bool) (v : Value N.Num) → is_bool v ≡ false → Rejects (bool_arg old) v
    rejects_int : (old : ℤ) (v : Value N.Num) → to_number N v ≡ none → Rejects (int_arg old) v
    rejects_string :
        (old : Bytes) (v : Value N.Num) → is_text v ≡ false → Rejects (string_arg old) v

  -- the Lua value that `pack` pushes
  abbrev pub to_value : Arg → Value N.Num
  to_value (bool_arg b) = boolean b
  to_value (int_arg z) = number (N.of_int z)
  to_value (string_arg s) = str (c_str s)

  pub Reads-to_value : (old x : Arg) → SameClass old x → Fits x → Reads old (to_value x) x
  Reads-to_value (bool_arg o) (bool_arg b) same fits = reads_bool o b
  Reads-to_value (int_arg o) (int_arg z) same fits =
      reads_int o (number (N.of_int z)) (N.of_int z) z refl
        (rw (N.to_integer_of_int z fits) (IsInt-Narrows z fits))
  Reads-to_value (string_arg o) (string_arg s) same fits =
      subst (λ t. Reads (string_arg o) (str (c_str s)) (string_arg t)) (ap c_str fits ∙ fits)
        (reads_string o (c_str s))
  Reads-to_value (bool_arg o) (int_arg z) same fits = absurd same
  Reads-to_value (bool_arg o) (string_arg s) same fits = absurd same
  Reads-to_value (int_arg o) (bool_arg b) same fits = absurd same
  Reads-to_value (int_arg o) (string_arg s) same fits = absurd same
  Reads-to_value (string_arg o) (bool_arg b) same fits = absurd same
  Reads-to_value (string_arg o) (int_arg z) same fits = absurd same

module _ {N : Number} (api : LuaApi N) where
  open api use {State, stack, globals}

  pub unpack_arg-Reads :
      (x y : Arg) (v : Value N.Num) (i : ℕ) (l : State)
      → Reads N x v y
      → get_elem? (stack l) i ≡ some v
      → unpack_arg api x (suc i) l ≡ (done y, l)
  unfolding unpack_arg assign_string
  unpack_arg-Reads _ _ _ i l (reads_bool old b) h =
      rw (api.is_boolean_at l i (boolean b) h, api.to_boolean_at l i b h)
  unpack_arg-Reads _ _ _ i l (reads_int old v n z e narrows) h =
      rw (api.is_number_at l i v h, e, api.to_integer_at l i v n h e, Narrows-narrow _ z narrows)
  unpack_arg-Reads _ _ _ i l (reads_string old t) h =
      rw (api.is_string_at l i (str t) h, api.to_string_at l i t h)

  pub unpack_arg-Rejects :
      (x : Arg) (v : Value N.Num) (i : ℕ) (l : State)
      → Rejects N x v
      → get_elem? (stack l) i ≡ some v
      → unpack_arg api x (suc i) l ≡ (throw (rejection x), l)
  unfolding unpack_arg
  unpack_arg-Rejects _ _ i l (rejects_bool old v e) h = rw (api.is_boolean_at l i v h, e)
  unpack_arg-Rejects _ _ i l (rejects_int old v e) h = rw (api.is_number_at l i v h, e)
  unpack_arg-Rejects _ _ i l (rejects_string old v e) h = rw (api.is_string_at l i v h, e)

  pub stack-pack_arg :
      (x : Arg) (l : State) → stack (pack_arg api x l) ≡ stack l ++ to_value N x ∷ []
  unfolding pack_arg
  stack-pack_arg (bool_arg b) l = api.stack-push_boolean b l
  stack-pack_arg (int_arg z) l = api.stack-push_integer z l
  stack-pack_arg (string_arg s) l = api.stack-push_string s l

  pub globals-pack_arg : (x : Arg) (l : State) → globals (pack_arg api x l) ≡ globals l
  unfolding pack_arg
  globals-pack_arg (bool_arg b) l = api.globals-push_boolean b l
  globals-pack_arg (int_arg z) l = api.globals-push_integer z l
  globals-pack_arg (string_arg s) l = api.globals-push_string s l

  -- an `args_t` is packed in order
  abbrev pub pack_all : List Arg → State → State
  pack_all [] l = l
  pack_all (x ∷ xs) l = pack_all xs (pack_arg api x l)

  pub stack-pack_all :
      (xs : List Arg) (l : State) → stack (pack_all xs l) ≡ stack l ++ map (to_value N) xs
  stack-pack_all [] l = rw append-nil
  stack-pack_all (x ∷ xs) l =
      rw (stack-pack_all xs (pack_arg api x l), stack-pack_arg x l, append_assoc)

  pub globals-pack_all : (xs : List Arg) (l : State) → globals (pack_all xs l) ≡ globals l
  globals-pack_all [] l = refl
  globals-pack_all (x ∷ xs) l = globals-pack_all xs (pack_arg api x l) ∙ globals-pack_arg x l

  pub pack_args-fresh :
      (l : State) (before rest : Store) (xs : List Arg)
      → pack_args api
          (fresh (length before) (length xs))
          (world l (before ++ (map some xs ++ rest)))
        ≡ (done tt, world (pack_all xs l) (before ++ (map some xs ++ rest)))
  unfolding pack_args
  pack_args-fresh l before rest [] = refl
  pack_args-fresh l before rest (x ∷ xs) =
      let next = pack_args-fresh (pack_arg api x l) (before ++ some x ∷ []) rest xs in
      rw (fetch-middle l before (map some xs ++ rest) x) (simp (length-snoc, append_assoc) at next)

  -- Reading the values above `below` into a block of objects of their classes.
  pub unpack_args-fresh :
      (l : State) (before rest : Store) (below vs : List (Value N.Num)) (xs ys : List Arg)
      → ReadsAll N xs vs ys
      → stack l ≡ below ++ vs
      → unpack_args api
          (fresh (length before) (length xs))
          (suc (length below))
          (world l (before ++ (map some xs ++ rest)))
        ≡ (done tt, world l (before ++ (map some ys ++ rest)))
  unfolding unpack_args
  unpack_args-fresh l before rest below _ _ _ reads_nil h = refl
  unpack_args-fresh l before rest below _ _ _ (reads_cons {x} {y} {v} {xs} {ys} {vs} r rs) h =
      let next =
        unpack_args-fresh l (before ++ some y ∷ []) rest (below ++ v ∷ []) vs xs ys rs
          (h ∙ sym (append_assoc below (v ∷ []) vs)) in
      let at_i = ap (λ t. get_elem? t (length below)) h ∙ get_elem?-middle below v vs in
      rw
        (
          fetch-middle l before (map some xs ++ rest) x,
          unpack_arg-Reads x y v (length below) l r at_i,
          write-middle l before (map some xs ++ rest) x (some y),
        )
        (simp (length-snoc, append_assoc) at next)

  -- A value that the object of its place refuses ends the reading: the objects before it are
  -- overwritten, the others are not.
  pub unpack_args-Rejects :
      (l : State) (before rest : Store) (below vs vs' : List (Value N.Num)) (v : Value N.Num)
      (xs ys xs' : List Arg) (x : Arg)
      → ReadsAll N xs vs ys
      → Rejects N x v
      → stack l ≡ below ++ (vs ++ (v ∷ vs'))
      → unpack_args api
          (fresh (length before) (length (xs ++ (x ∷ xs'))))
          (suc (length below))
          (world l (before ++ (map some (xs ++ (x ∷ xs')) ++ rest)))
        ≡ (throw (rejection x), world l (before ++ (map some (ys ++ (x ∷ xs')) ++ rest)))
  unfolding unpack_args
  unpack_args-Rejects l before rest below _ vs' v _ _ xs' x reads_nil no_read h =
      let at_i = ap (λ t. get_elem? t (length below)) h ∙ get_elem?-middle below v vs' in
      rw (
        fetch-middle l before (map some xs' ++ rest) x,
        unpack_arg-Rejects x v (length below) l no_read at_i,
      )
  unpack_args-Rejects l before rest below _ vs' v _ _ xs' x
        (reads_cons {x = x₁} {y} {v = v₁} {xs} {ys} {vs} r rs) no_read h =
      let next =
        unpack_args-Rejects l (before ++ some y ∷ []) rest (below ++ v₁ ∷ []) vs vs' v xs ys xs' x
          rs no_read (h ∙ sym (append_assoc below (v₁ ∷ []) (vs ++ (v ∷ vs')))) in
      let at_i =
        ap (λ t. get_elem? t (length below)) h ∙ get_elem?-middle below v₁ (vs ++ (v ∷ vs')) in
      rw
        (
          fetch-middle l before (map some (xs ++ (x ∷ xs')) ++ rest) x₁,
          unpack_arg-Reads x₁ y v₁ (length below) l r at_i,
          write-middle l before (map some (xs ++ (x ∷ xs')) ++ rest) x₁ (some y),
        )
        (simp (length-snoc, append_assoc) at next)

  -- What `pack` pushes, `unpack` reads back at the top of the stack into an object of the same
  -- class, for an `int` in range and a string without NUL; reading leaves the state as it was, and
  -- packing keeps the variables.
  pub unpack_arg-pack_arg :
      (old x : Arg) (l : State)
      → SameClass old x
      → Fits x
      → (unpack_arg api old (suc (length (stack l))) (pack_arg api x l)
          ≡ (done x, pack_arg api x l))
        × (globals (pack_arg api x l) ≡ globals l)
  unpack_arg-pack_arg old x l same fits = (
    unpack_arg-Reads old x (to_value N x) (length (stack l)) (pack_arg api x l)
        (Reads-to_value N old x same fits)
        (ap (λ t. get_elem? t (length (stack l))) (stack-pack_arg x l)
          ∙ get_elem?-middle (stack l) (to_value N x) []),
    globals-pack_arg x l,
  )
