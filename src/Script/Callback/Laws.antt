-- ===== src/Script/Callback/Laws.antt =====
-- A call of a registered function with arguments of the right types.
use luascript.Prelude.{
  ◌≡◌, refl, ◌∙◌, sym, none, some, List, [], ◌∷◌, ◌++◌, map, append_assoc, append-nil, arith, ◌==◌,
  ==_iff, true, length, replicate,
}
use luascript.Core.Value.{Number, Value}
use luascript.Script.Api.{LuaApi}
use luascript.Script.Args.{Arg, Store, done, world, pack_args}
use luascript.Script.Args.Blocks.{
  fresh, length-fresh, Live, fetch-middle, write-middle, length-snoc, clone_args-fresh,
  delete_args-fresh, Live-append, Live-length,
}
use luascript.Script.Args.Values.{
  ReadsAll, ReadsAll-length, to_value, pack_all, pack_args-fresh, unpack_args-fresh, stack-pack_all,
  globals-pack_all,
}
use luascript.Script.Callback.{
  Function, fetch_all, write_all, run_calc, produce, consume, call, lua_callback,
}

fetch_all-fresh :
    {S : Type 0} (l : S) (before rest : Store) (xs : List Arg)
    → fetch_all (fresh (length before) (length xs)) (world l (before ++ (map some xs ++ rest)))
      ≡ (done xs, world l (before ++ (map some xs ++ rest)))
unfolding fetch_all
fetch_all-fresh l before rest [] = refl
fetch_all-fresh l before rest (x ∷ xs) =
    let next = fetch_all-fresh l (before ++ some x ∷ []) rest xs in
    let next' = simp (length-snoc, append_assoc) at next in
    rw (fetch-middle l before (map some xs ++ rest) x, next')

write_all-fresh :
    {S : Type 0} (l : S) (before rest : Store) (xs ys : List Arg)
    → length ys ≡ length xs
    → write_all (fresh (length before) (length xs)) ys (world l (before ++ (map some xs ++ rest)))
      ≡ (done tt, world l (before ++ (map some ys ++ rest)))
unfolding write_all
write_all-fresh l before rest [] [] e = refl
write_all-fresh l before rest [] (y ∷ ys) e = absurd (omega arith)
write_all-fresh l before rest (x ∷ xs) [] e = absurd (omega arith)
write_all-fresh l before rest (x ∷ xs) (y ∷ ys) e =
    let next = write_all-fresh l (before ++ some y ∷ []) rest xs ys (omega arith) in
    rw (write-middle l before (map some xs ++ rest) x (some y))
      (simp (length-snoc, append_assoc) at next)

module _ {N : Number} (api : LuaApi N) (f : Function) where
  open api use {State, stack, globals}

  -- the objects ys and qs of the two clones lie in the store one behind the other
  module _ (l : State) (st : Store) (ys qs zs : List Arg) where
    calc-done :
        f.calc ys qs ≡ zs
        → length zs ≡ length qs
        → run_calc f
            (fresh (length st) (length ys))
            (fresh (length (st ++ map some ys)) (length qs))
            (world l ((st ++ map some ys) ++ map some qs))
          ≡ (done tt, world l ((st ++ map some ys) ++ map some zs))
    unfolding run_calc
    calc-done hc hl =
        let read_in = rw (← append_assoc) at (fetch_all-fresh l st (map some qs) ys) in
        let read_out = rw append-nil at (fetch_all-fresh l (st ++ map some ys) [] qs) in
        let write_out =
          rw (append-nil, append-nil) at (write_all-fresh l (st ++ map some ys) [] qs zs hl) in
        rw (read_in, read_out, hc) write_out

    pack-done :
        length zs ≡ length qs
        → pack_args api
            (fresh (length (st ++ map some ys)) (length qs))
            (world l ((st ++ map some ys) ++ map some zs))
          ≡ (done tt, world (pack_all api zs l) ((st ++ map some ys) ++ map some zs))
    pack-done hl = rw (← hl) (rw append-nil at (pack_args-fresh api l (st ++ map some ys) [] zs))

    produce-done :
        f.calc ys qs ≡ zs
        → length zs ≡ length qs
        → produce api f
            (fresh (length st) (length ys))
            (fresh (length (st ++ map some ys)) (length qs))
            (world l ((st ++ map some ys) ++ map some qs))
          ≡ (done (length qs), world (pack_all api zs l) ((st ++ map some ys) ++ map some zs))
    unfolding produce
    produce-done hc hl = rw (calc-done hc hl, pack-done hl, length-fresh)

  -- the prototypes hold xs and qs, the stack the arguments vs, which are read as ys
  module _ (l : State) (st : Store) (xs ys qs zs : List Arg) (vs : List (Value N.Num))
      (live_in : Live st f.in_args xs) (live_out : Live st f.out_args qs)
      (reads : ReadsAll N xs vs ys) (args : stack l ≡ vs) (result : f.calc ys qs ≡ zs)
      (same : length zs ≡ length qs) where
    consume-done : consume api f (fresh (length st) (length xs)) (world l (st ++ map some xs)) ≡ (
      done (length qs),
      world (pack_all api zs l) (st ++ (map some ys ++ replicate (length zs) none)),
    )
    unfolding consume
    consume-done =
        let unpacked =
          rw (append-nil, append-nil) at (unpack_args-fresh api l st [] [] vs xs ys reads args) in
        let cloned =
          clone_args-fresh l (st ++ map some ys) f.out_args qs
            (Live-append st (map some ys) f.out_args qs live_out) in
        let produced = produce-done l st ys qs zs result same in
        let deleted =
          rw append-nil at (delete_args-fresh (pack_all api zs l) (st ++ map some ys) [] zs) in
        rw (
          unpacked,
          cloned,
          ← Live-length st f.out_args qs live_out,
          ← (ReadsAll-length N xs ys vs reads).0,
          produced,
          ← same,
          deleted,
          append_assoc,
          append-nil,
        )

    call-done : call api f (world l st) ≡ (
      done (length qs),
      world (pack_all api zs l) (st ++ (replicate (length ys) none ++ replicate (length zs) none)),
    )
    unfolding call
    call-done =
        let cloned = clone_args-fresh l st f.in_args xs live_in in
        let deleted = delete_args-fresh (pack_all api zs l) st (replicate (length zs) none) ys in
        rw (
          cloned,
          ← Live-length st f.in_args xs live_in,
          consume-done,
          ← (ReadsAll-length N xs ys vs reads).0,
          deleted,
        )

  -- Lua calls a registered function whose prototypes' objects are alive with arguments of the types
  -- of its prototype, and `calc` gives one value for each output object: then `calc` runs on the
  -- arguments' values (a number's integer taken modulo 2 ^ 32 into the range of an `int`), its results are pushed in order above the arguments and their number is
  -- returned, the global variables stay, the prototypes are not written to, and every object that
  -- the call made is deleted.
  pub lua_callback-done :
      (l : State) (st : Store) (xs ys qs : List Arg)
      → Live st f.in_args xs
      → Live st f.out_args qs
      → ReadsAll N xs (stack l) ys
      → length (f.calc ys qs) ≡ length qs
      → (l' : State) × (lua_callback api f (world l st) ≡ (
        done (length f.out_args),
        world l' (st ++ (replicate (length f.in_args) none ++ replicate (length f.out_args) none)),
      ))
        × (stack l' ≡ stack l ++ map (to_value N) (f.calc ys qs))
        × (globals l' ≡ globals l)
  unfolding lua_callback
  lua_callback-done l st xs ys qs hi ho reads same =
      let zs = f.calc ys qs in
      let run = call-done l st xs ys qs zs (stack l) hi ho reads refl refl same in
      let ins = Live-length st f.in_args xs hi in
      let outs = Live-length st f.out_args qs ho in
      let (ly, lv) = ReadsAll-length N xs ys (stack l) reads in
      let arity : (length f.in_args == api.get_top l) ≡ true =
        (==_iff _ _).1 (sym ins ∙ sym lv ∙ sym (api.get_top_length l)) in
      (
        pack_all api zs l,
        rw arity (run ∙ rw (outs, ly, ins, same, outs)),
        stack-pack_all api zs l,
        globals-pack_all api zs l,
      )
