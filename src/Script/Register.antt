-- ===== src/Script/Register.antt =====
-- `lua::register_function` (luascript/luascript.h). The namespace and the name are those that the class of
-- the function gives, and `a` is the address of the closure that Lua makes for its `lua_callback`.
use luascript.Prelude.{ℕ, ◌≡◌, ◌≢◌, refl, ap, ◌∙◌, [], ◌++◌, ◌==◌, if◌then◌else◌, length}
use luascript.Prelude.Bytes.{Bytes, codes, c_str}
use luascript.Core.Value.{Number, object, function}
use luascript.Script.Api.{LuaApi}
use luascript.Script.Args.{Outcome, done, threw, fault}
use luascript.Script.Variable.{exec}

abbrev pub namespace_script : Bytes → Bytes
namespace_script ns = codes "if " ++ (ns ++ (codes " == nil then " ++ (ns ++ codes " = {}; end")))

abbrev pub assign_script : Bytes → Bytes → Bytes
assign_script ns name = ns ++ (codes "." ++ (c_str name ++ codes " = dummy; dummy = nil"))

module _ {N : Number} (api : LuaApi N) where
  open api use {State, stack, globals, push_function, set_global, do_string}

  -- a statement that an exception of the one before it skips
  abbrev pub and_then :
      Outcome (Unit {0}) × State → (State → Outcome (Unit {0}) × State) → Outcome (Unit {0}) × State
  and_then (done u, l) k = k l
  and_then (threw e, l) k = (threw e, l)
  and_then (fault, l) k = (fault, l)

  unfoldable pub lua_register : Bytes → ℕ → State → State
  lua_register name a l = set_global name (push_function a l)

  unfoldable pub register_function : Bytes → Bytes → ℕ → State → Outcome (Unit {0}) × State
  unfolding lua_register exec
  register_function ns name a l =
      let in_namespace =
        and_then (exec api (namespace_script ns) l)
          λ l'. exec api (assign_script ns name) (lua_register (codes "dummy") a l') in
      if length ns == 0 then (done tt, lua_register name a l) else in_namespace

  -- a global variable of this name is the function; all else is as it was
  abbrev pub Registers : Bytes → ℕ → State → State → Type 0
  Registers name a l l' =
      (stack l' ≡ stack l)
      × (globals l' (c_str name) ≡ object function a)
      × ((j : Bytes) → j ≢ c_str name → globals l' j ≡ globals l j)

  lua_register-Registers :
      (name : Bytes) (a : ℕ) (l : State) → Registers name a l (lua_register name a l)
  unfolding lua_register
  lua_register-Registers name a l =
      let (below, here, others) =
        api.set_global_top name (push_function a l) (stack l) (object function a)
          (api.stack-push_function a l) in
      (below, here, λ j n. others j n ∙ ap (λ g. g j) (api.globals-push_function a l))

  -- A function without a namespace is registered as the global variable of its name, and no other global
  -- variable and nothing on the stack changes.
  pub register_function_global :
      (name : Bytes) (a : ℕ) (l : State)
      → (l' : State) × (register_function [] name a l ≡ (done tt, l')) × Registers name a l l'
  unfolding register_function
  register_function_global name a l = (lua_register name a l, refl, lua_register-Registers name a l)
