-- ===== src/Script/Args/Blocks.antt =====
-- The operations on the objects of an `args_t` that lie in one block of the store, as those of a
-- fresh clone do.
use luascript.Prelude.{
  ℕ, zero, suc, ◌≡◌, refl, ap, Option, none, some, List, [], ◌∷◌, ◌++◌, map, append_assoc,
  append-nil, length, get_elem?, set, replicate,
}
use luascript.Script.Args.{Arg, Address, Store, done, world, clone_args, delete_args, fetch, write}

-- the addresses from b on, n of them
abbrev pub fresh : ℕ → ℕ → List Address
fresh b zero = []
fresh b (suc n) = b ∷ fresh (suc b) n

-- the objects at the addresses are alive, with these values
abbrev pub Live : Store → List Address → List Arg → Type 0
Live st [] [] = Unit
Live st [] (v ∷ vs) = ⊥
Live st (a ∷ ps) [] = ⊥
Live st (a ∷ ps) (v ∷ vs) = (get_elem? st a ≡ some (some v)) × Live st ps vs

pub length-fresh : (b n : ℕ) → length (fresh b n) ≡ n
length-fresh b zero = refl
length-fresh b (suc n) = ap suc (length-fresh (suc b) n)

module _ {ℓ} {A : Type ℓ} where
  pub get_elem?-middle :
      (before : List A) (x : A) (rest : List A)
      → get_elem? (before ++ (x ∷ rest)) (length before) ≡ some x
  get_elem?-middle [] x rest = refl
  get_elem?-middle (b ∷ before) x rest = get_elem?-middle before x rest

  pub set-middle :
      (before : List A) (x y : A) (rest : List A)
      → set (before ++ (x ∷ rest)) (length before) y ≡ before ++ (y ∷ rest)
  set-middle [] x y rest = refl
  set-middle (b ∷ before) x y rest = ap (λ t. b ∷ t) (set-middle before x y rest)

  get_elem?-append :
      (xs ys : List A) (i : ℕ) (x : A) → get_elem? xs i ≡ some x → get_elem? (xs ++ ys) i ≡ some x
  get_elem?-append [] ys i x h = cc
  get_elem?-append (a ∷ xs) ys zero x h = h
  get_elem?-append (a ∷ xs) ys (suc i) x h = get_elem?-append xs ys i x h

pub Live-append :
    (st more : Store) (ps : List Address) (vs : List Arg) → Live st ps vs → Live (st ++ more) ps vs
Live-append st more [] [] h = tt
Live-append st more [] (v ∷ vs) h = h
Live-append st more (a ∷ ps) [] h = h
Live-append st more (a ∷ ps) (v ∷ vs) h =
    (get_elem?-append st more a (some v) h.0, Live-append st more ps vs h.1)

pub length-snoc {ℓ} : {A : Type ℓ} (xs : List A) (x : A) → length (xs ++ x ∷ []) ≡ suc (length xs)
length-snoc [] x = refl
length-snoc (y ∷ xs) x = ap suc (length-snoc xs x)

fetch-live :
    {S : Type 0} (l : S) (st : Store) (a : Address) (v : Arg)
    → get_elem? st a ≡ some (some v)
    → fetch a (world l st) ≡ (done v, world l st)
unfolding fetch
fetch-live l st a v h = rw h

pub fetch-middle :
    {S : Type 0} (l : S) (before rest : Store) (v : Arg)
    → fetch (length before) (world l (before ++ (some v ∷ rest)))
      ≡ (done v, world l (before ++ (some v ∷ rest)))
fetch-middle l before rest v =
    fetch-live l (before ++ (some v ∷ rest)) (length before) v
      (get_elem?-middle before (some v) rest)

pub write-middle :
    {S : Type 0} (l : S) (before rest : Store) (v : Arg) (x : Option Arg)
    → write (length before) x (world l (before ++ (some v ∷ rest)))
      ≡ (done tt, world l (before ++ (x ∷ rest)))
unfolding write
write-middle l before rest v x =
    rw (fetch-middle l before rest v, set-middle before (some v) x rest)

-- A clone of objects that are alive is a new block of objects behind the store, with the values of
-- the objects cloned.
pub clone_args-fresh :
    {S : Type 0} (l : S) (st : Store) (ps : List Address) (vs : List Arg)
    → Live st ps vs
    → clone_args ps (world l st)
      ≡ (done (fresh (length st) (length ps)), world l (st ++ map some vs))
unfolding clone_args
clone_args-fresh l st [] [] h = rw append-nil
clone_args-fresh l st [] (v ∷ vs) h = absurd h
clone_args-fresh l st (a ∷ ps) [] h = absurd h
clone_args-fresh l st (a ∷ ps) (v ∷ vs) h = rw (
  fetch-live l st a v h.0,
  clone_args-fresh l (st ++ some v ∷ []) ps vs (Live-append st (some v ∷ []) ps vs h.1),
  length-snoc st (some v),
  append_assoc,
)

-- Deleting a block leaves its cells empty and the rest of the store as it was.
pub delete_args-fresh :
    {S : Type 0} (l : S) (before rest : Store) (vs : List Arg)
    → delete_args (fresh (length before) (length vs)) (world l (before ++ (map some vs ++ rest)))
      ≡ (done tt, world l (before ++ (replicate (length vs) none ++ rest)))
unfolding delete_args
delete_args-fresh l before rest [] = refl
delete_args-fresh l before rest (v ∷ vs) =
    let next = delete_args-fresh l (before ++ none ∷ []) rest vs in
    rw (write-middle l before (map some vs ++ rest) v none)
      (simp (length-snoc, append_assoc) at next)

pub Live-length :
    (st : Store) (ps : List Address) (vs : List Arg) → Live st ps vs → length vs ≡ length ps
Live-length st [] [] h = refl
Live-length st [] (v ∷ vs) h = absurd h
Live-length st (a ∷ ps) [] h = absurd h
Live-length st (a ∷ ps) (v ∷ vs) h = ap suc (Live-length st ps vs h.1)
