-- ===== src/Core/Strings/Intern/Same.antt =====
-- Equal strings are the same object: what `==` of Lua and the keys of tables rely on.
use luascript.Prelude.{
  ◌<◌, ◌≡◌, ◌↔◌, refl, ap, ◌∙◌, sym, subst, inl, inr, some, length, List, [], ◌∷◌, not, Each,
  Each-map, Each-both, Each-middle, Each-Perm,
}
use luascript.Prelude.Bytes.{Bytes}
use luascript.Core.Strings.{TString, Global, max_text, luas_newlstr}
use luascript.Core.Strings.Placed.{objects, Apart, Once, WellFormed}
use luascript.Core.Strings.Intern.{Interns, HasWhite, revived_same, luas_newlstr-Interns}

-- what holds of every object of a list holds of this one
abbrev Has : List TString → TString → Type 1
Has xs x = (P : TString → Type 0) → Each P xs → P x

Agree : TString → TString → Type 0
Agree x y = (x.text ≡ y.text → x.addr ≡ y.addr) × (x.addr ≡ y.addr → x.text ≡ y.text)

Apart-Agree : (x y : TString) → Apart x y → Agree x y × Agree y x
unfolding Agree
Apart-Agree x y a = (
  (λ e. absurd (a.0 (sym e)), λ e. absurd (a.1 (sym e))),
  (λ e. absurd (a.0 e), λ e. absurd (a.1 e)),
)

Once-Agree : (xs : List TString) → Once xs → Each (λ x. Each (Agree x) xs) xs
unfolding Agree
Once-Agree [] h = tt
Once-Agree (x ∷ xs) h =
    let apart = Each-map (Apart x) (λ y. Agree x y × Agree y x) xs (λ y a. Apart-Agree x y a) h.0 in
    (
      (
        (λ e. refl, λ e. refl),
        Each-map (λ y. Agree x y × Agree y x) (Agree x) xs (λ y a. a.0) apart,
      ),
      Each-map (λ y. (Agree x y × Agree y x) × Each (Agree y) xs) (λ y. Each (Agree y) (x ∷ xs)) xs
          (λ y a. (a.0.1, a.1))
          (Each-both (λ y. Agree x y × Agree y x) (λ y. Each (Agree y) xs) xs apart
            (Once-Agree xs h.1)),
    )

Has-Agree : (xs : List TString) (x y : TString) → Once xs → Has xs x → Has xs y → Agree x y
Has-Agree xs x y once has_x has_y =
    has_y (Agree x) (has_x (λ z. Each (Agree z) xs) (Once-Agree xs once))

Interns-Has :
    (g g' : Global) (str : Bytes) (ts : TString)
    → Interns g str ts g'
    → Has (objects g') ts × (ts.text ≡ str)
Interns-Has g g' str ts (inl (x, pre, post, text, same, old, new)) =
    let (same_text, same_addr, same_hash) = revived_same g.currentwhite x in
    (
      λ P all. Each-middle P pre post ts (subst (Each P) new all),
      ap (λ o. o.text) same ∙ same_text ∙ text,
    )
Interns-Has g g' str ts (inr (absent, text, unused, kept)) =
    (λ P all. (Each-Perm P kept all).0, text)

-- the object of the second call is that of the first if and only if the text is
again :
    (g g' : Global) (str : Bytes) (a b : TString)
    → Once (objects g)
    → Has (objects g) a
    → Interns g str b g'
    → (a.addr ≡ b.addr) ↔ (a.text ≡ str)
unfolding Agree
again g g' str a b once has_a (inl (x, pre, post, text, same, old, new)) =
    let (same_text, same_addr, same_hash) = revived_same g.currentwhite x in
    let has_x : Has (objects g) x = λ P all. Each-middle P pre post x (subst (Each P) old all) in
    let addr : b.addr ≡ x.addr = ap (λ o. o.addr) same ∙ same_addr in
    let agree = Has-Agree (objects g) a x once has_a has_x in
    (λ e. agree.1 (e ∙ addr) ∙ text, λ e. agree.0 (e ∙ sym text) ∙ sym addr)
again g g' str a b once has_a (inr (absent, text, unused, kept)) =
    (λ e. absurd (has_a _ unused e), λ e. absurd (has_a _ absent e))

-- Two calls of `luaS_newlstr` one after the other, in a well-formed table and for texts that are not too
-- long, both return an object, and it is the same one if and only if the texts are equal.
pub luas_newlstr_same :
    (g : Global) (str str' : Bytes)
    → WellFormed g
    → HasWhite g
    → length str < max_text
    → length str' < max_text
    → (a : TString) × (g₁ : Global) × (b : TString) × (g₂ : Global) × (luas_newlstr g str
        ≡ some (a, g₁))
      × (luas_newlstr g₁ str' ≡ some (b, g₂))
      × ((a.addr ≡ b.addr) ↔ (str ≡ str'))
luas_newlstr_same g str str' wf white fits fits' =
    let (a, g₁, call₁, interns₁, wf₁, white₁, alive₁) = luas_newlstr-Interns g str wf white fits in
    let (b, g₂, call₂, interns₂, wf₂, white₂, alive₂) =
      luas_newlstr-Interns g₁ str' wf₁
        (ap (λ w. w.white1) white₁ ∙ white ∙ ap (λ w. not w.white0) (sym white₁)) fits' in
    let (has, text) = Interns-Has g g₁ str a interns₁ in
    let (to, from) = again g₁ g₂ str' a b wf₁.once has interns₂ in
    (a, g₁, b, g₂, call₁, call₂, (λ e. sym text ∙ to e, λ e. from (text ∙ e)))
