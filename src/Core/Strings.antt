-- ===== src/Core/Strings.antt =====
-- Strings and the table that keeps each of them once: luascript/lua/lstring.c, with the macros of
-- luascript/lua/lgc.h on white objects. A string object is a record that its address tells apart; a chain
-- of the table is a list, and `malloc` gives the address `next`, which no object has.
pub mod Chains
pub mod Placed
pub mod Resize
pub mod Intern
use Prim.Native.Nat.{bit_and, bit_xor}
use mathlib.Core.Option
use luascript.Prelude.{
  ℕ, zero, suc, ◌+◌, ◌-◌, ◌*◌, ◌/◌, ◌%◌, ◌^◌, Bool, false, not, ◌&&◌, ◌||◌, Option, none, some,
  List, [], ◌∷◌, ltb, leb, if◌then◌else◌, length, get_or, set, replicate,
}
use luascript.Prelude.Bytes.{Bytes, bytes_eq}

-- the byte `marked`: the bits WHITE0BIT and WHITE1BIT, and the others
pub record Marked : Type 0 where
  pub white0 : Bool
  pub white1 : Bool
  pub others : ℕ

-- `(v)->gch.marked & otherwhite(g) & WHITEBITS`
abbrev pub isdead : Marked → Marked → Bool
isdead currentwhite marked =
    (marked.white0 && not currentwhite.white0) || (marked.white1 && not currentwhite.white1)

-- `marked ^= WHITEBITS`
abbrev pub changewhite : Marked → Marked
changewhite marked = record marked { white0 = not marked.white0; white1 = not marked.white1 }

-- `luaC_white`
abbrev pub current_white : Marked → Marked
current_white currentwhite = record currentwhite { others = 0 }

pub record TString : Type 0 where
  pub addr : ℕ
  pub text : Bytes
  pub hash : ℕ
  pub marked : Marked

pub record StringTable : Type 0 where
  pub hash : List (List TString)
  pub nuse : ℕ

-- of `global_State`: `sweepstring` is `gcstate == GCSsweepstring`
pub record Global : Type 0 where
  pub strt : StringTable
  pub currentwhite : Marked
  pub sweepstring : Bool
  pub next : ℕ

abbrev pub lmod : ℕ → ℕ → ℕ
lmod s size = bit_and s (size - 1)

-- `h ^ ((h<<5)+(h>>2)+c)` on 32 bits
abbrev pub hash_step : ℕ → ℕ → ℕ
hash_step h c = bit_xor h ((h * 32 + h / 4 + c) % 2 ^ 32)

-- the loop of `luaS_newlstr` that computes the hash, with rounds left
unfoldable pub hash_loop : ℕ → Bytes → ℕ → ℕ → ℕ → ℕ
hash_loop zero str step l1 h = h
hash_loop (suc k) str step l1 h =
    let rest = hash_loop k str step (l1 - step) (hash_step h (get_or str (l1 - 1) 0)) in
    if leb step l1 then rest else h

unfoldable pub hash_of : Bytes → ℕ
unfolding hash_loop
hash_of str = let l = length str in hash_loop l str (l / 32 + 1) l (l % 2 ^ 32)

-- `while (p)` of `luaS_resize`: the nodes of a chain go to the new table. Its `lua_assert` and the one of
-- `lmod`, checks of debug builds that a size is a power of two, are left out.
unfoldable pub rehash_chain : List TString → List (List TString) → List (List TString)
rehash_chain [] newhash = newhash
rehash_chain (p ∷ ps) newhash =
    let h1 = lmod p.hash (length newhash) in
    rehash_chain ps (set newhash h1 (p ∷ get_or newhash h1 []))

unfoldable pub rehash : List (List TString) → List (List TString) → List (List TString)
unfolding rehash_chain
rehash [] newhash = newhash
rehash (c ∷ cs) newhash = rehash cs (rehash_chain c newhash)

unfoldable pub luas_resize : Global → ℕ → Global
unfolding rehash
luas_resize g newsize =
    if g.sweepstring
    then g
    else record g { strt = record g.strt { hash = rehash g.strt.hash (replicate newsize []) } }

-- the string table of a new state: empty, then of MINSTRTABSIZE chains
abbrev pub blank : Marked → ℕ → Global
blank currentwhite next = record {
  strt = record { hash = []; nuse = 0 };
  currentwhite = currentwhite;
  sweepstring = false;
  next = next;
}

abbrev pub minstrtabsize : ℕ
minstrtabsize = 32

unfoldable pub opened : Marked → ℕ → Global
unfolding luas_resize
opened currentwhite next = luas_resize (blank currentwhite next) minstrtabsize

-- `(MAX_SIZET - sizeof(TString))/sizeof(char)` where `size_t` has 64 bits
abbrev pub max_text : ℕ
max_text = 2 ^ 64 - 3 - 24

abbrev pub max_int : ℕ
max_int = 2147483645

-- `newlstr` behind its allocation
unfoldable pub chained : Global → TString → Global
chained g ts =
    let i = lmod ts.hash (length g.strt.hash) in
    record g {
      strt = record {
        hash = set g.strt.hash i (ts ∷ get_or g.strt.hash i []);
        nuse = (g.strt.nuse + 1) % 2 ^ 32;
      };
      next = g.next + 1;
    }

unfoldable pub grown : Global → Global
unfolding luas_resize
grown g =
    let size = length g.strt.hash in
    if ltb size g.strt.nuse && leb size (max_int / 2) then luas_resize g (size * 2) else g

abbrev pub fresh : Global → Bytes → ℕ → TString
fresh g str h = record {
  addr = g.next;
  text = str;
  hash = h;
  marked = current_white g.currentwhite;
}

-- `none` is the error of `luaM_toobig`
unfoldable pub newlstr : Global → Bytes → ℕ → Option (TString × Global)
unfolding chained grown
newlstr g str h =
    let ts = fresh g str h in
    if ltb max_text ((length str + 1) % 2 ^ 64) then none else some (ts, grown (chained g ts))

-- a dead object comes back to life
abbrev pub revived : Marked → TString → TString
revived currentwhite ts =
    if isdead currentwhite ts.marked then record ts { marked = changewhite ts.marked } else ts

-- the loop over a chain: the object found, and the chain behind the change of its colour
unfoldable pub search_chain : Marked → Bytes → List TString → Option (TString × List TString)
search_chain currentwhite str [] = none
search_chain currentwhite str (o ∷ os) =
    let later = Option.map (λ r. (r.0, o ∷ r.1)) (search_chain currentwhite str os) in
    let ts = revived currentwhite o in if bytes_eq o.text str then some (ts, ts ∷ os) else later

unfoldable pub luas_newlstr : Global → Bytes → Option (TString × Global)
unfolding hash_of search_chain newlstr
luas_newlstr g str =
    let h = hash_of str in
    let i = lmod h (length g.strt.hash) in
    elim (search_chain g.currentwhite str (get_or g.strt.hash i [])) [
      | some (ts, chain) ↦
          some (ts, record g { strt = record g.strt { hash = set g.strt.hash i chain } })
      | none ↦ newlstr g str h
    ]
