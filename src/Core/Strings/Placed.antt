-- ===== src/Core/Strings/Placed.antt =====
-- Where the objects of the string table stand, and what a search in one chain says of the whole.
use native.Mathlib.Decide.{ℕ_discrete}
use mathlib.Core.List.{Permᴰ, flatten}
use luascript.Prelude.{
  ℕ, ◌%◌, ◌^◌, ◌<◌, ◌≡◌, ◌≢◌, refl, ap, ◌∙◌, sym, subst, ◌⊎◌, inl, inr, true, none, some, List, [],
  ◌∷◌, ◌++◌, Bool-cases, length, get_or, Each, Each-Perm,
}
use luascript.Prelude.Bytes.{Bytes, bytes_eq, bytes_eq_refl, bytes_eq_sound}
use luascript.Core.Strings.{Marked, TString, Global, lmod, hash_of, revived, search_chain}
use luascript.Core.Strings.Chains.{flatten-Each, chain-Each}

-- all the objects of the table, chain after chain
abbrev pub objects : Global → List TString
objects g = flatten g.strt.hash

abbrev pub Differ : Bytes → TString → Type 0
Differ str x = x.text ≢ str

abbrev pub Apart : TString → TString → Type 0
Apart x y = (y.text ≢ x.text) × (y.addr ≢ x.addr)

-- no two objects have the same text or the same address
abbrev pub Once : List TString → Type 0
Once [] = Unit
Once (x ∷ xs) = Each (Apart x) xs × Once xs

-- an object holds its own hash, and its address is in use
abbrev pub IsSound : ℕ → TString → Type 0
IsSound next x = (x.hash ≡ hash_of x.text) × (x.addr < next)

abbrev pub IsHome : ℕ → ℕ → TString → Type 0
IsHome size i x = lmod x.hash size ≡ i

-- each object stands in the chain of its hash
abbrev pub Placed : List (List TString) → Type 0
Placed hash = (i : ℕ) → Each (IsHome (length hash) i) (get_or hash i [])

pub record WellFormed (g : Global) : Type 0 where
  pub some_chain : 0 < length g.strt.hash
  pub placed : Placed g.strt.hash
  pub sound : Each (IsSound g.next) (objects g)
  pub once : Once (objects g)
  pub counted : g.strt.nuse ≡ length (objects g) % 2 ^ 32

pub Once-Perm : {xs ys : List TString} → Permᴰ xs ys → Once xs → Once ys
Once-Perm Permᴰ.nil h = h
Once-Perm (Permᴰ.cons {a} {b} {l₁} {l₂} e d) h =
    (Each-Perm (Apart b) d (subst (λ x. Each (Apart x) l₁) e h.0), Once-Perm d h.1)
Once-Perm (Permᴰ.swap {a} {b} {a'} {b'} {l} e e') h = (
  (
    (
      λ text. h.0.0.0 (ap (λ x. x.text) e' ∙ sym text ∙ sym (ap (λ x. x.text) e)),
      λ addr. h.0.0.1 (ap (λ x. x.addr) e' ∙ sym addr ∙ sym (ap (λ x. x.addr) e)),
    ),
    subst (λ x. Each (Apart x) l) e' h.1.0,
  ),
  (subst (λ x. Each (Apart x) l) e h.0.1, h.1.1),
)
Once-Perm (Permᴰ.trans d d') h = Once-Perm d' (Once-Perm d h)

-- what a search finds is in the chain, and its colour is all that changes
pub search_chain-cases :
    (currentwhite : Marked) (str : Bytes) (chain : List TString)
    → ((search_chain currentwhite str chain ≡ none) × Each (Differ str) chain)
      ⊎ ((x : TString) × (pre : List TString) × (post : List TString) × (x.text ≡ str)
          × (chain ≡ pre ++ x ∷ post)
          × (search_chain currentwhite str chain
              ≡ some (revived currentwhite x, pre ++ revived currentwhite x ∷ post)))
unfolding search_chain
search_chain-cases w str [] = inl (refl, tt)
search_chain-cases w str (o ∷ os) = elim (Bool-cases (bytes_eq o.text str)) [
  | inl same ↦ inr (o, [], os, bytes_eq_sound o.text str same, refl, rw same refl)
  | inr other ↦
      let differ : o.text ≢ str = λ e.
        let same : bytes_eq o.text str ≡ true = ap (λ t. bytes_eq t str) e ∙ bytes_eq_refl str in
        cc in
      elim (search_chain-cases w str os) [
        | inl (nowhere, all) ↦ inl (rw (other, nowhere) refl, (differ, all))
        | inr (x, pre, post, text, split, found) ↦
            inr (x, o ∷ pre, post, text, ap (λ t. o ∷ t) split, rw (other, found) refl)
      ]
]

elsewhere :
    (size i next : ℕ) (str : Bytes)
    → lmod (hash_of str) size ≢ i
    → (chain : List TString) → Each (IsHome size i) chain
    → Each (IsSound next) chain
    → Each (Differ str) chain
elsewhere size i next str other [] home sound = tt
elsewhere size i next str other (x ∷ xs) home sound = (
  λ text. other (ap (λ h. lmod h size) (sym (sound.0.0 ∙ ap hash_of text)) ∙ home.0),
  elsewhere size i next str other xs home.1 sound.1,
)

-- a text that is not in its chain is nowhere in the table
pub absent_everywhere :
    (hash : List (List TString)) (next : ℕ) (str : Bytes)
    → Placed hash
    → Each (IsSound next) (flatten hash)
    → Each (Differ str) (get_or hash (lmod (hash_of str) (length hash)) [])
    → Each (Differ str) (flatten hash)
absent_everywhere hash next str placed sound here = flatten-Each (Differ str) hash λ i.
    elim (ℕ_discrete (lmod (hash_of str) (length hash)) i) [
      | yes e ↦ subst (λ j. Each (Differ str) (get_or hash j [])) e here
      | no n ↦ elsewhere (length hash) i next str n _ (placed i) (chain-Each _ hash i sound)
    ]
