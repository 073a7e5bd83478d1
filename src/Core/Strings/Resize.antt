-- ===== src/Core/Strings/Resize.antt =====
-- `luaS_resize` moves every object to the chain of its hash in the new table.
use mathlib.Core.List.Permᴰ
use mathlib.Core.List.{Permᴰ, flatten}
use native.Mathlib.Nat.{one-le-pow}
use native.Mathlib.Decide.{ℕ_discrete}
use luascript.Prelude.{
  ℕ, ◌%◌, ◌^◌, ◌<◌, ◌≡◌, refl, ap, ◌∙◌, sym, subst, false, List, [], ◌∷◌, ◌++◌, arith, length,
  length-set, length-replicate, get_or, get_or-set_self, get_or-set_ne, get_or-replicate, set,
  replicate, Each, Each-Perm, append_assoc, length-Perm,
}
use luascript.Core.Strings.{
  Marked, TString, Global, lmod, opened, rehash_chain, rehash, luas_resize,
}
use luascript.Core.Strings.Chains.{lmod-lt, lmod-mod, flatten-push, flatten-replicate_nil}
use luascript.Core.Strings.Placed.{objects, IsHome, IsSound, Placed, Once-Perm, WellFormed}

-- a chain written in place of another
pub set-Placed :
    (hash : List (List TString)) (i : ℕ) (c : List TString)
    → i < length hash
    → Each (IsHome (length hash) i) c
    → Placed hash
    → Placed (set hash i c)
set-Placed hash i c h home placed j =
    let old =
      subst (λ n. Each (IsHome n j) (get_or hash j [])) (sym (length-set hash i c)) (placed j) in
    let new = subst (λ n. Each (IsHome n i) c) (sym (length-set hash i c)) home in
    elim (ℕ_discrete i j) [
      | yes e ↦
          subst (λ k. Each (IsHome (length (set hash i c)) k) (get_or (set hash i c) k [])) e
            (rw (get_or-set_self hash i c [] h) new)
      | no n ↦ rw (get_or-set_ne hash i j c [] n) old
    ]

-- an object put at the front of the chain of its hash
pub push-Placed :
    (hash : List (List TString)) (x : TString)
    → 0 < length hash
    → Placed hash
    → let i : ℕ = lmod x.hash (length hash) in Placed (set hash i (x ∷ get_or hash i []))
push-Placed hash x h placed =
    let i = lmod x.hash (length hash) in
    set-Placed hash i (x ∷ get_or hash i []) (lmod-lt x.hash (length hash) h) (refl, placed i)
      placed

record Moved (n : ℕ) (xs : List TString) (hash : List (List TString)) : Type 0 where
  width : length hash ≡ n
  placed : Placed hash
  kept : Permᴰ (flatten hash) xs

exchange : (a b xs : List TString) → Permᴰ (a ++ (b ++ xs)) ((b ++ a) ++ xs)
exchange a b xs =
    subst (λ ys. Permᴰ ys ((b ++ a) ++ xs)) (append_assoc a b xs)
      (Permᴰ.append_right xs (Permᴰ.append_comm a b))

chain-Moved :
    (ps : List TString) (hash : List (List TString)) (n : ℕ) (xs : List TString)
    → 0 < n
    → Moved n xs hash
    → Moved n (ps ++ xs) (rehash_chain ps hash)
unfolding rehash_chain
chain-Moved [] hash n xs h m = m
chain-Moved (p ∷ ps) hash n xs h m =
    let i = lmod p.hash (length hash) in
    let some_chain : 0 < length hash = omega (arith, m.width) in
    let moved = chain-Moved ps (set hash i (p ∷ get_or hash i [])) n (p ∷ xs) h (record {
      width = length-set hash i _ ∙ m.width;
      placed = push-Placed hash p some_chain m.placed;
      kept =
          Permᴰ.trans (flatten-push hash i p (lmod-lt p.hash (length hash) some_chain))
            (Permᴰ.cons refl m.kept);
    }) in
    record {
      width = moved.width;
      placed = moved.placed;
      kept = Permᴰ.trans moved.kept (Permᴰ.middle p ps xs);
    }

rehash-Moved :
    (cs hash : List (List TString)) (n : ℕ) (xs : List TString)
    → 0 < n
    → Moved n xs hash
    → Moved n (flatten cs ++ xs) (rehash cs hash)
unfolding rehash flatten
rehash-Moved [] hash n xs h m = m
rehash-Moved (c ∷ cs) hash n xs h m =
    let moved = rehash-Moved cs (rehash_chain c hash) n (c ++ xs) h (chain-Moved c hash n xs h m) in
    record {
      width = moved.width;
      placed = moved.placed;
      kept = Permᴰ.trans moved.kept (exchange (flatten cs) c xs);
    }

-- The work of `luaS_resize` asks of the new size only that it is not 0.
pub resize-Moved :
    (g : Global) (newsize : ℕ)
    → WellFormed g
    → g.sweepstring ≡ false
    → 0 < newsize
    → WellFormed (luas_resize g newsize)
      × Permᴰ (objects (luas_resize g newsize)) (objects g)
      × (length (luas_resize g newsize).strt.hash ≡ newsize)
unfolding luas_resize
resize-Moved g newsize wf still h =
    let empty = replicate {A = List TString} newsize [] in
    let start : Moved newsize [] empty = record {
      width = length-replicate newsize [];
      placed = λ i. rw (get_or-replicate newsize i (◌++◌ {A = TString} [] [])) tt;
      kept = rw (flatten-replicate_nil {A = TString} newsize) Permᴰ.nil;
    } in
    let moved = rehash-Moved g.strt.hash empty newsize [] h start in
    let kept = Permᴰ.trans moved.kept (Permᴰ.append-nil (objects g)) in
    let back = Permᴰ.symm kept in
    rw still (
      record {
        some_chain = omega (arith, moved.width);
        placed = moved.placed;
        sound = Each-Perm (IsSound g.next) back wf.sound;
        once = Once-Perm back wf.once;
        counted = wf.counted ∙ ap (λ k. k % 2 ^ 32) (length-Perm back);
      },
      kept,
      moved.width,
    )

-- In a well-formed string table and while the collector does not sweep the strings, `luaS_resize` to a
-- power of two, as all sizes of the table are, gives a well-formed table of this size with the same
-- objects, and what it asserts holds: `lmod` by the new size is the remainder by it, for each hash.
pub luas_resize-WellFormed :
    (g : Global) (k : ℕ)
    → WellFormed g
    → g.sweepstring ≡ false
    → WellFormed (luas_resize g (2 ^ k))
      × Permᴰ (objects (luas_resize g (2 ^ k))) (objects g)
      × (length (luas_resize g (2 ^ k)).strt.hash ≡ 2 ^ k)
      × ((h : ℕ) → lmod h (length (luas_resize g (2 ^ k)).strt.hash) ≡ h % 2 ^ k)
luas_resize-WellFormed g k wf still =
    let (well, same, width) = resize-Moved g (2 ^ k) wf still (omega (arith, one-le-pow k 2)) in
    (well, same, width, λ h. ap (lmod h) width ∙ lmod-mod h k)

-- the table of a new state is well-formed
pub opened-WellFormed : (currentwhite : Marked) (next : ℕ) → WellFormed (opened currentwhite next)
unfolding opened luas_resize flatten
opened-WellFormed currentwhite next = record {
  some_chain = omega arith;
  placed = λ i. rw (get_or-replicate 32 i (◌++◌ {A = TString} [] [])) tt;
  sound = tt;
  once = tt;
  counted = refl;
}
