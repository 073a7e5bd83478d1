-- ===== src/Script/Api/Lapi.antt =====
-- The functions of lapi.c meet the interface by which the wrapper uses them. How a script runs is a
-- parameter.
use luascript.Prelude.{
  ℕ, zero, suc, ◌||◌, ◌-◌, ◌≡◌, ◌≢◌, refl, ap, ◌∙◌, Bool, true, false, not, Bool-cases, inl, inr,
  Option, none, some, List, [], ◌∷◌, ◌++◌, arith, ◌≤◌, ◌<◌, leb, length, get_or, get_elem?, take,
  length-append,
}
use mathlib.Core.Option
use luascript.Prelude.Bytes.{Bytes, c_str, bytes_eq, bytes_eq_refl, bytes_eq_sound}
use luascript.Prelude.Int.{ℤ, pos, negsuc}
use luascript.Core.Value.{
  Number, Value, nil, boolean, number, str, object, table, function, userdata, thread, is_bool,
  is_text, to_number, is_some,
}
use luascript.Core.Api.{
  LuaState, on_stack, index2adr, lua_gettop, lua_pop, lua_settop, lua_type, lua_isboolean,
  lua_isnumber, lua_isstring, lua_toboolean, lua_tointeger, lua_tolstring, lua_pushboolean,
  lua_pushinteger, lua_pushlstring, lua_pushstring, lua_pushcfunction, lua_getglobal, lua_setglobal,
  tag, has_tag, is_converted, slot_value, to_int_or_zero, is_false, text_at,
}
use luascript.Script.Api.{LuaApi}

get_elem?-get_or :
    {A : Type 0} (xs : List A) (i : ℕ) (x d : A)
    → get_elem? xs i ≡ some x
    → (get_or xs i d ≡ x) × (i < length xs)
get_elem?-get_or [] i x d h = cc
get_elem?-get_or (y ∷ xs) zero x d h = (cc, omega arith)
get_elem?-get_or (y ∷ xs) (suc i) x d h =
    let (e, k) = get_elem?-get_or xs i x d h in (e, omega arith)

tag_boolean : {Num : Type 0} (v : Value Num) → has_tag (some (pos (tag v))) 1 ≡ is_bool v
tag_boolean (object table a) = refl
tag_boolean (object function a) = refl
tag_boolean (object userdata a) = refl
tag_boolean (object thread a) = refl
tag_boolean nil = refl
tag_boolean _ = refl

tag_text :
    {Num : Type 0} (v : Value Num)
    → (has_tag (some (pos (tag v))) 4 || has_tag (some (pos (tag v))) 3) ≡ is_text v
tag_text (object table a) = refl
tag_text (object function a) = refl
tag_text (object userdata a) = refl
tag_text (object thread a) = refl
tag_text nil = refl
tag_text _ = refl

converted : {Num : Type 0} (o : Option Num) → is_converted o ≡ is_some o
converted none = refl
converted (some n) = refl

module _ {N : Number} (s : LuaState N) (i : ℕ) (v : Value N.Num)
    (at_i : get_elem? s.stack i ≡ some v) where
  slot_at : (index2adr s (pos (suc i)) ≡ some (on_stack i)) × (get_or s.stack i nil ≡ v)
  unfolding index2adr
  slot_at = let (e, h) = get_elem?-get_or s.stack i v nil at_i in (ground arith, e)

  value_at : slot_value s (index2adr s (pos (suc i))) ≡ v
  value_at = ap (slot_value s) slot_at.0 ∙ slot_at.1

  type_at : lua_type (pos (suc i)) s ≡ some (pos (tag v))
  unfolding lua_type
  type_at = rw (slot_at.0, slot_at.1)

  pub lua_isboolean-at : lua_isboolean (pos (suc i)) s ≡ is_bool v
  unfolding lua_isboolean
  lua_isboolean-at = rw type_at (tag_boolean v)

  pub lua_isstring-at : lua_isstring (pos (suc i)) s ≡ is_text v
  unfolding lua_isstring
  lua_isstring-at = rw type_at (tag_text v)

  pub lua_isnumber-at : lua_isnumber (pos (suc i)) s ≡ is_some (to_number N v)
  unfolding lua_isnumber
  lua_isnumber-at = ap (λ t. is_converted (to_number N t)) value_at ∙ converted (to_number N v)

top_index : {A : Type 0} (below : List A) (v : A) → length (below ++ v ∷ []) - 1 ≡ length below
top_index below v = omega (arith, length-append below (v ∷ []))

snoc_take :
    {A : Type 0} (n : ℕ) (below : List A) (v : A)
    → n ≡ length below
    → take n (below ++ v ∷ []) ≡ below
snoc_take {A} n below v e = rw e (go below)
  where
    go : (xs : List A) → take (length xs) (xs ++ v ∷ []) ≡ xs
    go [] = refl
    go (x ∷ xs) = ap (λ t. x ∷ t) (go xs)

snoc_last :
    {A : Type 0} (n : ℕ) (below : List A) (v d : A)
    → n ≡ length below
    → get_or (below ++ v ∷ []) n d ≡ v
snoc_last {A} n below v d e = rw e (go below)
  where
    go : (xs : List A) → get_or (xs ++ v ∷ []) (length xs) d ≡ v
    go [] = refl
    go (x ∷ xs) = go xs

not-not : (b : Bool) → not (not b) ≡ b
not-not true = refl
not-not false = refl

module _ {N : Number} where
  pub lua_toboolean-at :
      (s : LuaState N) (i : ℕ) (b : Bool)
      → get_elem? s.stack i ≡ some (boolean b)
      → lua_toboolean (pos (suc i)) s ≡ b
  unfolding lua_toboolean
  lua_toboolean-at s i b h = ap (λ t. not (is_false t)) (value_at s i (boolean b) h) ∙ not-not b

  pub lua_tointeger-at :
      (s : LuaState N) (i : ℕ) (v : Value N.Num) (n : N.Num)
      → get_elem? s.stack i ≡ some v
      → to_number N v ≡ some n
      → lua_tointeger (pos (suc i)) s ≡ N.to_integer n
  unfolding lua_tointeger
  lua_tointeger-at s i v n h e =
      ap (λ t. to_int_or_zero N.to_integer (to_number N t)) (value_at s i v h)
      ∙ ap (to_int_or_zero N.to_integer) e

  pub lua_tolstring-at :
      (s : LuaState N) (i : ℕ) (t : Bytes)
      → get_elem? s.stack i ≡ some (str t)
      → lua_tolstring (pos (suc i)) s ≡ (some t, s)
  unfolding lua_tolstring
  lua_tolstring-at s i t h = ap (text_at s (index2adr s (pos (suc i)))) (value_at s i (str t) h)

  -- `lua_setglobal` takes the value from the top
  pub lua_setglobal-top :
      (k : Bytes) (s : LuaState N) (below : List (Value N.Num)) (v : Value N.Num)
      → s.stack ≡ below ++ v ∷ []
      → ((lua_setglobal k s).stack ≡ below)
        × ((lua_setglobal k s).globals (c_str k) ≡ v)
        × ((j : Bytes) → j ≢ c_str k → (lua_setglobal k s).globals j ≡ s.globals j)
  unfolding lua_setglobal
  lua_setglobal-top k s below v e = (
    rw e (snoc_take _ below v (top_index below v)),
    rw (bytes_eq_refl (c_str k), e) (snoc_last _ below v nil (top_index below v)),
    λ j ne. elim (Bool-cases (bytes_eq j (c_str k))) [
      | inl same ↦ absurd (ne (bytes_eq_sound j (c_str k) same))
      | inr differ ↦ rw differ
    ],
  )

  -- `lua_pop` of at most all values; popping more has no defined meaning, and leaves the state here
  unfoldable pub popped : ℕ → LuaState N → LuaState N
  unfolding lua_settop
  popped n s = Option.get_or (lua_pop n s) s

  pub popped-take :
      (n : ℕ) (s : LuaState N)
      → n ≤ length s.stack
      → (popped n s).stack ≡ take (length s.stack - n) s.stack
  unfolding popped
  popped-take n s h = ground arith

  pub globals-popped : (n : ℕ) (s : LuaState N) → (popped n s).globals ≡ s.globals
  unfolding popped
  globals-popped n s = elim (Bool-cases (leb n (length s.stack))) [ inl e ↦ rw e | inr e ↦ rw e ]

  pub stack-lua_pushes :
      (s : LuaState N)
      → (lua_gettop s ≡ length s.stack)
        × ((b : Bool) → (lua_pushboolean b s).stack ≡ s.stack ++ boolean b ∷ [])
        × ((z : ℤ) → (lua_pushinteger z s).stack ≡ s.stack ++ number (N.of_int z) ∷ [])
        × ((t : Bytes) → (lua_pushstring (some t) s).stack ≡ s.stack ++ str (c_str t) ∷ [])
        × ((k : Bytes) → (lua_getglobal k s).stack ≡ s.stack ++ s.globals (c_str k) ∷ [])
  unfolding lua_gettop lua_pushboolean lua_pushinteger lua_pushstring lua_pushlstring lua_getglobal
  stack-lua_pushes s = (refl, λ b. refl, λ z. refl, λ t. refl, λ k. refl)

  pub globals-lua_pushes :
      (s : LuaState N)
      → ((b : Bool) → (lua_pushboolean b s).globals ≡ s.globals)
        × ((z : ℤ) → (lua_pushinteger z s).globals ≡ s.globals)
        × ((t : Bytes) → (lua_pushstring (some t) s).globals ≡ s.globals)
        × ((k : Bytes) → (lua_getglobal k s).globals ≡ s.globals)
  unfolding lua_pushboolean lua_pushinteger lua_pushstring lua_pushlstring lua_getglobal
  globals-lua_pushes s = (λ b. refl, λ z. refl, λ t. refl, λ k. refl)

  -- The interface of the wrapper, met by the functions of lapi.c.
  abbrev pub lapi : (Bytes → LuaState N → ℕ × LuaState N) → LuaApi N
  lapi run = record {
    State = LuaState N;
    stack = λ s. s.stack;
    globals = λ s. s.globals;
    get_top = lua_gettop;
    is_boolean = λ s i. lua_isboolean (pos i) s;
    is_number = λ s i. lua_isnumber (pos i) s;
    is_string = λ s i. lua_isstring (pos i) s;
    to_boolean = λ s i. lua_toboolean (pos i) s;
    to_integer = λ s i. lua_tointeger (pos i) s;
    to_string = λ s i. lua_tolstring (pos i) s;
    push_boolean = lua_pushboolean;
    push_integer = lua_pushinteger;
    push_string = λ t. lua_pushstring (some t);
    push_function = lua_pushcfunction;
    get_global = lua_getglobal;
    set_global = lua_setglobal;
    pop = popped;
    top_string = lua_tolstring (negsuc 0);
    do_string = run;
    get_top_length = λ s. (stack-lua_pushes s).0;
    is_boolean_at = lua_isboolean-at;
    to_boolean_at = lua_toboolean-at;
    is_number_at = lua_isnumber-at;
    to_integer_at = lua_tointeger-at;
    is_string_at = lua_isstring-at;
    to_string_at = lua_tolstring-at;
    stack-push_boolean = λ b s. (stack-lua_pushes s).1 b;
    stack-push_integer = λ z s. (stack-lua_pushes s).2 z;
    stack-push_string = λ t s. (stack-lua_pushes s).3 t;
    stack-push_function = λ a s. refl;
    globals-push_function = λ a s. refl;
    globals-push_boolean = λ b s. (globals-lua_pushes s).0 b;
    globals-push_integer = λ z s. (globals-lua_pushes s).1 z;
    globals-push_string = λ t s. (globals-lua_pushes s).2 t;
    stack-get_global = λ k s. (stack-lua_pushes s).4 k;
    globals-get_global = λ k s. (globals-lua_pushes s).3 k;
    set_global_top = lua_setglobal-top;
    stack-pop = popped-take;
    globals-pop = globals-popped;
  }
