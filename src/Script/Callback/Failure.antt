-- ===== src/Script/Callback/Failure.antt =====
-- A call of a registered function with arguments that do not fit its prototype.
use luascript.Prelude.{
  ◌≡◌, sym, ◌∙◌, ◌==◌, ==_iff, true, none, List, [], ◌∷◌, ◌++◌, append-nil, arith, length,
  replicate, length-append,
}
use luascript.Core.Value.{Number, Value}
use luascript.Script.Api.{LuaApi}
use luascript.Script.Args.{Arg, Store, throw, world}
use luascript.Script.Args.Blocks.{Live, Live-length, clone_args-fresh, delete_args-fresh}
use luascript.Script.Args.Values.{
  ReadsAll, ReadsAll-length, Rejects, rejection, unpack_args-Rejects,
}
use luascript.Script.Callback.{Function, consume, call, lua_callback}

module _ {N : Number} (api : LuaApi N) (f : Function) where
  open api use {State, stack}

  -- In a call with the right number of arguments, the prototype's objects being alive, the first
  -- argument that its place in the prototype refuses makes the call throw that class's exception:
  -- the state of Lua stays, the prototypes are not written to, and every object that the call made
  -- is deleted.
  pub lua_callback-refuses :
      (l : State) (st : Store) (vs vs' : List (Value N.Num)) (v : Value N.Num)
      (xs ys xs' : List Arg) (x : Arg)
      → Live st f.in_args (xs ++ (x ∷ xs'))
      → length f.in_args ≡ length (stack l)
      → stack l ≡ vs ++ (v ∷ vs')
      → ReadsAll N xs vs ys
      → Rejects N x v
      → lua_callback api f (world l st)
        ≡ (throw (rejection x), world l (st ++ replicate (length f.in_args) none))
  unfolding lua_callback call consume
  lua_callback-refuses l st vs vs' v xs ys xs' x live count args reads no_read =
      let objects = xs ++ (x ∷ xs') in
      let left = ys ++ (x ∷ xs') in
      let arity : (length f.in_args == api.get_top l) ≡ true =
        (==_iff _ _).1 (count ∙ sym (api.get_top_length l)) in
      let cloned = clone_args-fresh l st f.in_args objects live in
      let many = Live-length st f.in_args objects live in
      let unpacked =
        rw (append-nil, append-nil) at
          (unpack_args-Rejects api l st [] [] vs vs' v xs ys xs' x reads no_read args) in
      let same : length left ≡ length objects = omega (
        arith,
        length-append xs (x ∷ xs'),
        length-append ys (x ∷ xs'),
        (ReadsAll-length N xs ys vs reads).0,
      ) in
      let deleted = rw (append-nil, append-nil) at (delete_args-fresh l st [] left) in
      rw (arity, cloned, ← many, unpacked, ← same, deleted)
