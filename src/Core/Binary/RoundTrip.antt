-- ===== src/Core/Binary/RoundTrip.antt =====
-- What `luaU_dump` writes, `luaU_undump` loads.
use luascript.Prelude.{ℕ, ◌≡◌, refl, ap, ◌∙◌, subst, Bool, true, false, Option, [], ◌++◌, length}
use luascript.Prelude.Bytes.{Bytes, bytes_eq, codes}
use luascript.Core.Value.{Number}
use luascript.Core.Stream.{Zio}
use luascript.Core.Stream.Reading.{Holds}
use luascript.Core.Binary.{Image, Proto, Protos, proto, no_protos, more_protos, header}
use luascript.Core.Binary.Dump.{dump}
use luascript.Core.Binary.Undump.{ok, err, load_header, undump}
use luascript.Core.Binary.Format.{Fits, loaded, loaded_all, chunk_bytes}
use luascript.Core.Binary.Functions.{undump-Loads}
use luascript.Core.Binary.Writes.{dump-chunk_bytes}
use luascript.Core.Binary.Loads.{block-Loads}

mutual
  unfolding loaded

  loaded_whole : {Num : Type 0} (f : Proto Num) (q : Bytes) → loaded false q f ≡ f
  loaded_whole (proto f fs) q = ap (proto f) (loaded_all_whole fs f.source)

  loaded_all_whole : {Num : Type 0} (fs : Protos Num) (q : Bytes) → loaded_all false q fs ≡ fs
  loaded_all_whole no_protos q = refl
  loaded_all_whole (more_protos f fs) q =
      ap (λ g. more_protos g (loaded_all false q fs)) (loaded_whole f q)
      ∙ ap (more_protos f) (loaded_all_whole fs q)

module _ {N : Number} (image : Image N) (checkcode : Proto N.Num → Bool) {W : Type 0}
    (writer : W → Bytes → ℕ × W) (out : W → Bytes)
    (accepts : (w : W) (b : Bytes) → ((writer w b).0 ≡ 0) × (out (writer w b).1 ≡ out w ++ b))
    {S : Type 0} (reader : S → Option Bytes × S) where
  through :
      (f : Proto N.Num) (strip : Bool) (w : W) (room : ℕ) (z : Zio S) (rest : Bytes)
      → out w ≡ []
      → Fits checkcode strip (codes "=?") room f
      → Holds reader z (out (dump image writer f w strip).sink ++ rest)
      → (z' : Zio S) × (undump reader image checkcode room z
          ≡ (ok (loaded strip (codes "=?") f), z'))
        × Holds reader z' rest
  through f strip w room z rest empty fits holds =
      let (_, bytes) = dump-chunk_bytes image writer out accepts strip f w in
      let same = bytes ∙ ap (λ b. b ++ chunk_bytes image strip f) empty in
      undump-Loads reader image checkcode f strip room fits z rest
        (subst (λ b. Holds reader z (b ++ rest)) same holds)

  -- A function that fits the format, is nested at most `room` deep and passes the check of its code is
  -- dumped through a writer that takes every block, and loaded from a stream that holds what was
  -- written, cut into any blocks, and more: the same function is loaded, with its constants, inner
  -- functions and debug information, and the stream is left at what follows.
  pub undump-dump :
      (f : Proto N.Num) (w : W) (room : ℕ) (z : Zio S) (rest : Bytes)
      → out w ≡ []
      → Fits checkcode false (codes "=?") room f
      → Holds reader z (out (dump image writer f w false).sink ++ rest)
      → (z' : Zio S) × (undump reader image checkcode room z ≡ (ok f, z')) × Holds reader z' rest
  undump-dump f w room z rest empty fits holds =
      let (z', run, left) = through f false w room z rest empty fits holds in
      (z', run ∙ ap (λ g. (ok g, z')) (loaded_whole f (codes "=?")), left)

  -- Where it is dumped with `strip`, what is loaded has the source "=?" and no debug information, in
  -- the inner functions too, and is otherwise the same.
  pub undump-dump_stripped :
      (f : Proto N.Num) (w : W) (room : ℕ) (z : Zio S) (rest : Bytes)
      → out w ≡ []
      → Fits checkcode true (codes "=?") room f
      → Holds reader z (out (dump image writer f w true).sink ++ rest)
      → (z' : Zio S) × (undump reader image checkcode room z
          ≡ (ok (loaded true (codes "=?") f), z'))
        × Holds reader z' rest
  undump-dump_stripped f w room z rest empty fits holds =
      through f true w room z rest empty fits holds

module _ {N : Number} (image : Image N) (checkcode : Proto N.Num → Bool) {S : Type 0}
    (reader : S → Option Bytes × S) where
  -- A stream whose first twelve bytes are not the header of this format is refused, whatever follows.
  pub undump_bad_header :
      (z : Zio S) (first rest : Bytes) (room : ℕ)
      → length first ≡ 12
      → bytes_eq header first ≡ false
      → Holds reader z (first ++ rest)
      → (z' : Zio S) × (undump reader image checkcode room z ≡ (err (codes "bad header"), z'))
  unfolding undump load_header
  undump_bad_header z first rest room size differ holds =
      let (z', run, left) = block-Loads reader 12 first size z rest holds in (z', rw (run, differ))
