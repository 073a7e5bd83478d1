-- ===== src/Script/Callback.antt =====
-- `lua::lua_callback` (luascript/luascript.h): the C function that Lua calls for a registered C++
-- function. The class that describes the function is a parameter: its name, the objects of its
-- prototype `args_t`, and what its `calc` assigns to the output objects.
pub mod Laws
pub mod Failure
use luascript.Prelude.{
  ℕ, suc, ◌+◌, Bool, true, false, Option, none, some, List, [], ◌∷◌, ◌++◌, ◌==◌, if◌then◌else◌,
  length,
}
use luascript.Prelude.Bytes.{Bytes, codes}
use luascript.Core.Chunk.{decimal}
use luascript.Core.Value.{Number}
use luascript.Script.Api.{LuaApi}
use luascript.Script.Args.{
  Arg, Address, Outcome, done, threw, fault, throw, World, M, after, ◌>>=◌, ◌>>◌, ret, fetch, write,
  clone_args, delete_args, unpack_args, pack_args,
}

pub record Function : Type 0 where
  pub name : Bytes
  pub in_args : List Address
  pub out_args : List Address
  pub calc : List Arg → List Arg → List Arg

-- `lua_func_t<T>::in_args` and `out_args`: the static variable `args`, filled by the first call with what
-- the class makes
unfoldable pub prototype :
    {S : Type 0}
    → Option (List Address)
    → M S (List Address)
    → M S (Option (List Address) × List Address)
prototype none make = do ps ← make; ret (some ps, ps)
prototype (some ps) make = ret (some ps, ps)

-- an `auto_ptr` deletes its object at the end of its scope, however that is left
abbrev pub release : {S A : Type 0} → Outcome A × World S → M S (Unit {0}) → Outcome A × World S
release (done a, w) cleanup = after (cleanup w) (λ _. ret a)
release (threw e, w) cleanup = after (cleanup w) (λ _ w'. (threw e, w'))
release (fault, w) cleanup = (fault, w)

abbrev pub finally : {S A : Type 0} → M S A → M S (Unit {0}) → M S A
finally m cleanup w = release (m w) cleanup

unfoldable pub fetch_all : {S : Type 0} → List Address → M S (List Arg)
unfolding fetch
fetch_all [] = ret []
fetch_all (a ∷ ps) = do x ← fetch a; xs ← fetch_all ps; ret (x ∷ xs)

unfoldable pub write_all : {S : Type 0} → List Address → List Arg → M S (Unit {0})
unfolding write
write_all [] [] = ret tt
write_all [] (x ∷ xs) = λ w. (fault, w)
write_all (a ∷ ps) [] = λ w. (fault, w)
write_all (a ∷ ps) (x ∷ xs) = do write a (some x); write_all ps xs

-- `lua_func_t<T>::calc(*in_args, *out_args)`
unfoldable pub run_calc : {S : Type 0} → Function → List Address → List Address → M S (Unit {0})
unfolding fetch_all write_all
run_calc f ins outs = do xs ← fetch_all ins; ys ← fetch_all outs; write_all outs (f.calc xs ys)

abbrev pub arity_message : Function → ℕ → Bytes
arity_message f argc =
    codes "function '"
    ++ (f.name
        ++ (codes "' requires "
            ++ (decimal (length f.in_args)
                ++ (codes " arguments, but " ++ (decimal argc ++ codes " given")))))

module _ {N : Number} (api : LuaApi N) where
  -- with the output objects cloned
  unfoldable pub produce : Function → List Address → List Address → M api.State ℕ
  unfolding run_calc pack_args
  produce f ins outs = do run_calc f ins outs; pack_args api outs; ret (length outs)

  -- with the input objects cloned
  unfoldable pub consume : Function → List Address → M api.State ℕ
  unfolding produce unpack_args clone_args delete_args
  consume f ins = do
    unpack_args api ins 1
    outs ← clone_args f.out_args
    finally (produce f ins outs) (delete_args outs)

  unfoldable pub call : Function → M api.State ℕ
  unfolding consume
  call f = do ins ← clone_args f.in_args; finally (consume f ins) (delete_args ins)

  unfoldable pub lua_callback : Function → M api.State ℕ
  unfolding call
  lua_callback f w =
      let argc = api.get_top w.lua in
      if length f.in_args == argc then call f w else (throw (arity_message f argc), w)
