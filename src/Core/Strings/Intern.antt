-- ===== src/Core/Strings/Intern.antt =====
-- `luaS_newlstr` against what it promises: one object for each text.
pub mod Same
use mathlib.Core.List.Permᴰ
use mathlib.Core.List.{Permᴰ, flatten}
use luascript.Prelude.{
  ℕ, zero, suc, ◌+◌, ◌-◌, ◌*◌, ◌%◌, ◌^◌, ◌≤◌, ◌<◌, ◌≡◌, ◌≢◌, refl, ap, ◌∙◌, sym, subst, ◌⊎◌, inl,
  inr, Bool, true, false, not, Option, none, some, List, [], ◌∷◌, ◌++◌, arith, Bool-cases, ltb, leb,
  ◌&&◌, ◌/◌, if◌then◌else◌, length, length-append, length-set, get_or, set, Each, Each-map,
  Each-both, Each-middle, Each-replace, Each-Perm, length-Perm, length-middle, regroup,
}
use luascript.Prelude.Bytes.{Bytes}
use luascript.Core.Strings.{
  Marked, TString, StringTable, Global, isdead, lmod, hash_of, luas_resize, chained, grown, fresh,
  max_text, max_int, newlstr, revived, search_chain, luas_newlstr,
}
use luascript.Core.Strings.Chains.{lmod-lt, flatten-push, flatten-split, chain-Each}
use luascript.Core.Strings.Placed.{
  objects, Differ, Apart, Once, IsSound, IsHome, Placed, Once-Perm, WellFormed, search_chain-cases,
  absent_everywhere,
}
use luascript.Core.Strings.Resize.{set-Placed, push-Placed, resize-Moved}

-- the object with this text is returned; it may change its colour
abbrev pub Found : Global → Bytes → TString → Global → Type 0
Found g str ts g' =
    (x : TString) × (pre : List TString) × (post : List TString) × (x.text ≡ str)
    × (ts ≡ revived g.currentwhite x)
    × (objects g ≡ pre ++ x ∷ post)
    × (objects g' ≡ pre ++ ts ∷ post)

-- no object has this text: one at a new address joins the others
abbrev pub Made : Global → Bytes → TString → Global → Type 0
Made g str ts g' =
    Each (Differ str) (objects g)
    × (ts.text ≡ str)
    × Each (λ x. x.addr ≢ ts.addr) (objects g)
    × Permᴰ (objects g') (ts ∷ objects g)

abbrev pub Interns : Global → Bytes → TString → Global → Type 0
Interns g str ts g' = Found g str ts g' ⊎ Made g str ts g'

-- one of the two white bits is the current one
abbrev pub HasWhite : Global → Type 0
HasWhite g = g.currentwhite.white1 ≡ not g.currentwhite.white0

pub revived_same :
    (w : Marked) (x : TString)
    → ((revived w x).text ≡ x.text) × ((revived w x).addr ≡ x.addr) × ((revived w x).hash ≡ x.hash)
revived_same w x = elim (Bool-cases (isdead w x.marked)) [
  | inl dead ↦ rw dead (refl, refl, refl)
  | inr alive ↦ rw alive (refl, refl, refl)
]

revived_alive :
    (w : Marked) (x : TString) → w.white1 ≡ not w.white0 → isdead w (revived w x).marked ≡ false
revived_alive w x h = ground arith

Once-replace :
    (xs ys : List TString) (x y : TString)
    → y.text ≡ x.text
    → y.addr ≡ x.addr
    → Once (xs ++ x ∷ ys)
    → Once (xs ++ y ∷ ys)
Once-replace [] ys x y text addr h =
    (Each-map (Apart x) (Apart y) ys (λ z a. (λ e. a.0 (e ∙ text), λ e. a.1 (e ∙ addr))) h.0, h.1)
Once-replace (z ∷ xs) ys x y text addr h = (
  Each-replace (Apart z) xs ys x y (λ a. (λ e. a.0 (sym text ∙ e), λ e. a.1 (sym addr ∙ e))) h.0,
  Once-replace xs ys x y text addr h.1,
)

-- also while the collector sweeps the strings, when nothing is done
abbrev Keeps : Global → Global → Type 0
Keeps g g' = WellFormed g' × Permᴰ (objects g') (objects g) × (g'.currentwhite ≡ g.currentwhite)

same_white : (g : Global) (newsize : ℕ) → (luas_resize g newsize).currentwhite ≡ g.currentwhite
unfolding luas_resize
same_white g newsize = elim (Bool-cases g.sweepstring) [
  | inl sweeping ↦ rw sweeping refl
  | inr still ↦ rw still refl
]

sweeping-unchanged : (g : Global) (newsize : ℕ) → g.sweepstring ≡ true → luas_resize g newsize ≡ g
unfolding luas_resize
sweeping-unchanged g newsize sweeping = rw sweeping refl

resize-Keeps :
    (g : Global) (newsize : ℕ) → WellFormed g → 0 < newsize → Keeps g (luas_resize g newsize)
resize-Keeps g newsize wf h = elim (Bool-cases g.sweepstring) [
  | inl sweeping ↦
      subst (Keeps g) (sym (sweeping-unchanged g newsize sweeping))
        (wf, Permᴰ.refl (objects g), refl)
  | inr still ↦
      let (well, kept, width) = resize-Moved g newsize wf still h in
      (well, kept, same_white g newsize)
]

grown-Keeps : (g : Global) → WellFormed g → Keeps g (grown g)
unfolding grown
grown-Keeps g wf =
    let size = length g.strt.hash in
    elim (Bool-cases (ltb size g.strt.nuse && leb size (max_int / 2))) [
      | inl crowded ↦ rw crowded (resize-Keeps g (size * 2) wf (omega (arith, wf.some_chain)))
      | inr roomy ↦ rw roomy (wf, Permᴰ.refl (objects g), refl)
    ]

chained-WellFormed :
    (g : Global) (ts : TString)
    → WellFormed g
    → ts.addr ≡ g.next
    → ts.hash ≡ hash_of ts.text
    → Each (Differ ts.text) (objects g)
    → WellFormed (chained g ts) × Permᴰ (objects (chained g ts)) (ts ∷ objects g)
unfolding chained
chained-WellFormed g ts wf addr hash absent =
    let i = lmod ts.hash (length g.strt.hash) in
    let kept = flatten-push g.strt.hash i ts (lmod-lt ts.hash (length g.strt.hash) wf.some_chain) in
    let back = Permᴰ.symm kept in
    (
      record {
        some_chain =
            omega (arith, wf.some_chain, length-set g.strt.hash i (ts ∷ get_or g.strt.hash i []));
        placed = push-Placed g.strt.hash ts wf.some_chain wf.placed;
        sound = Each-Perm (IsSound (g.next + 1)) back (
          (hash, omega arith),
          Each-map (IsSound g.next) (IsSound (g.next + 1)) (objects g)
              (λ x s. (s.0, omega (arith, s.1))) wf.sound,
        );
        once = Once-Perm back (
          Each-map (λ x. Differ ts.text x × IsSound g.next x) (Apart ts) (objects g)
              (λ x d. (d.0, λ e. omega (arith, d.1.1)))
              (Each-both (Differ ts.text) (IsSound g.next) (objects g) absent wf.sound),
          wf.once,
        );
        counted = omega (arith, wf.counted, length-Perm kept);
      },
      kept,
    )

-- the call returns an object that is not dead, and the table is well formed again
abbrev pub Interned : Global → Bytes → Type 0
Interned g str =
    (ts : TString) × (g' : Global) × (luas_newlstr g str ≡ some (ts, g'))
    × Interns g str ts g'
    × WellFormed g'
    × (g'.currentwhite ≡ g.currentwhite)
    × (isdead g.currentwhite ts.marked ≡ false)

newlstr_made :
    (g : Global) (str : Bytes)
    → WellFormed g
    → HasWhite g
    → length str < max_text
    → Each (Differ str) (objects g)
    → luas_newlstr g str ≡ newlstr g str (hash_of str)
    → Interned g str
unfolding newlstr chained
newlstr_made g str wf white fits absent e =
    let ts = fresh g str (hash_of str) in
    let (well, kept) = chained-WellFormed g ts wf refl refl absent in
    let (well', kept', white') = grown-Keeps (chained g ts) well in
    let small : ltb max_text ((length str + 1) % 2 ^ 64) ≡ false = ground arith in
    (
      ts,
      grown (chained g ts),
      e ∙ rw small refl,
      inr (
        absent,
        refl,
        Each-map (IsSound g.next) (λ x. x.addr ≢ g.next) (objects g) (λ x s e. omega (arith, s.1))
            wf.sound,
        Permᴰ.trans kept' kept,
      ),
      well',
      white',
      ground arith,
    )

newlstr_found :
    (g : Global) (str : Bytes) (x : TString) (pre post : List TString)
    → WellFormed g
    → HasWhite g
    → x.text ≡ str
    → get_or g.strt.hash (lmod (hash_of str) (length g.strt.hash)) [] ≡ pre ++ x ∷ post
    → (let i : ℕ = lmod (hash_of str) (length g.strt.hash) in
        let ts : TString = revived g.currentwhite x in
        luas_newlstr g str
        ≡ some
            (ts, record g { strt = record g.strt { hash = set g.strt.hash i (pre ++ ts ∷ post) } }))
    → Interned g str
newlstr_found g str x pre post wf white text chain e =
    let w = g.currentwhite in
    let ts = revived w x in
    let i = lmod (hash_of str) (length g.strt.hash) in
    let in_range = lmod-lt (hash_of str) (length g.strt.hash) wf.some_chain in
    let (same_text, same_addr, same_hash) = revived_same w x in
    let (before, behind, whole, written) = flatten-split g.strt.hash i in_range in
    let old : objects g ≡ (before ++ pre) ++ x ∷ (post ++ behind) =
      whole ∙ ap (λ c. before ++ (c ++ behind)) chain ∙ regroup before pre post behind x in
    let new : flatten (set g.strt.hash i (pre ++ ts ∷ post))
        ≡ (before ++ pre) ++ ts ∷ (post ++ behind) =
      written (pre ++ ts ∷ post) ∙ regroup before pre post behind ts in
    (
      ts,
      record g { strt = record g.strt { hash = set g.strt.hash i (pre ++ ts ∷ post) } },
      e,
      inl (x, before ++ pre, post ++ behind, text, refl, old, new),
      record {
        some_chain = rw (length-set g.strt.hash i (pre ++ ts ∷ post)) wf.some_chain;
        placed =
            set-Placed g.strt.hash i (pre ++ ts ∷ post) in_range
              (Each-replace (IsHome (length g.strt.hash) i) pre post x ts
                (λ h. ap (λ k. lmod k (length g.strt.hash)) same_hash ∙ h)
                (subst (Each (IsHome (length g.strt.hash) i)) chain (wf.placed i)))
              wf.placed;
        sound = subst (Each (IsSound g.next)) (sym new) (
            Each-replace (IsSound g.next) (before ++ pre) (post ++ behind) x ts
              (λ s. (same_hash ∙ s.0 ∙ ap hash_of (sym same_text), omega (arith, s.1, same_addr)))
              (subst (Each (IsSound g.next)) old wf.sound));
        once = subst Once (sym new) (
            Once-replace (before ++ pre) (post ++ behind) x ts same_text same_addr
              (subst Once old wf.once));
        counted =
            wf.counted
            ∙ ap (λ k. k % 2 ^ 32)
                (ap length old
                  ∙ length-middle (before ++ pre) (post ++ behind) x ts
                  ∙ sym (ap length new));
      },
      refl,
      revived_alive w x white,
    )

-- In a well-formed string table, `luaS_newlstr` of a text that is not too long returns the object with
-- this text where there is one, and adds one at a new address to the others where there is none, whether
-- or not the table then grows. What it returns is not dead, and the table is well formed again.
pub luas_newlstr-Interns :
    (g : Global) (str : Bytes) → WellFormed g → HasWhite g → length str < max_text → Interned g str
unfolding luas_newlstr
luas_newlstr-Interns g str wf white fits =
    let i = lmod (hash_of str) (length g.strt.hash) in
    elim (search_chain-cases g.currentwhite str (get_or g.strt.hash i [])) [
      | inl (nowhere, here) ↦
          newlstr_made g str wf white fits
            (absent_everywhere g.strt.hash g.next str wf.placed wf.sound here)
            (rw (luas_newlstr, nowhere) refl)
      | inr (x, pre, post, text, chain, found) ↦
          newlstr_found g str x pre post wf white text chain (rw (luas_newlstr, found) refl)
    ]
