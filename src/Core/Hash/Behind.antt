-- ===== src/Core/Hash/Behind.antt =====
-- A new key whose main position has a node that belongs there: the new node goes to a free place, next in
-- the chain.
use luascript.Prelude.{
  ℕ, ◌<◌, ◌≡◌, ◌≢◌, refl, ap, ◌∙◌, sym, subst, ◌⊎◌, inl, inr, none, some, List, length, arith, set,
  length-set, get_or-set_self, get_or-set_ne,
}
use luascript.Core.Value.{Number, Value}
use luascript.Core.Hash.{Hashing, Node, blank, node_at, mainposition, chain_behind}
use luascript.Core.Hash.Equal.{mainposition-lt}
use luascript.Core.Hash.Links.{Reach, here, step, same_next, Reach-map, Ends, last, more, Ends-elim}
use luascript.Core.Hash.WellFormed.{
  links, key_at, IsKey, main_of, Used, Free, Free-not_used, WellFormed,
}
use luascript.Core.Hash.Change.{
  Absent, Change, Used-new, Used-renamed, IsMain, WellFormed-Change, main_of_old,
}
use native.Mathlib.Decide.{ℕ_discrete}

module _ {N : Number} (hashing : Hashing N) (key : Value N.Num) (nodes : List (Node N.Num))
    (wf : WellFormed hashing nodes) (is_key : IsKey hashing key) (absent : Absent hashing nodes key)
    (n : ℕ) (n_in : n < length nodes) (free : Free hashing nodes n)
    (taken : Used hashing nodes (mainposition hashing (length nodes) key))
    (own : main_of hashing nodes (mainposition hashing (length nodes) key)
      ≡ mainposition hashing (length nodes) key) where
  abbrev mp : ℕ
  mp = mainposition hashing (length nodes) key

  abbrev after : List (Node N.Num)
  after = chain_behind key mp n nodes

  mp_in : mp < length nodes
  mp_in = mainposition-lt hashing (length nodes) key wf.some_node

  not_n : (q : ℕ) → Used hashing nodes q → q ≢ n
  not_n q used e = Free-not_used hashing nodes n free (subst (Used hashing nodes) e used)

  apart_mp : mp ≢ n
  apart_mp = not_n mp taken

  abbrev nodes₁ : List (Node N.Num)
  nodes₁ = set nodes n (record (node_at nodes n) { next = (node_at nodes mp).next })

  abbrev nodes₂ : List (Node N.Num)
  nodes₂ = set nodes₁ mp (record (node_at nodes₁ mp) { next = some n })

  length₂ : length nodes₂ ≡ length nodes
  length₂ = length-set nodes₁ mp _ ∙ length-set nodes n _

  n₂ : node_at nodes₂ n ≡ record (node_at nodes n) { next = (node_at nodes mp).next }
  n₂ = get_or-set_ne nodes₁ mp n _ blank apart_mp ∙ get_or-set_self nodes n _ blank n_in

  mp₁ : node_at nodes₁ mp ≡ node_at nodes mp
  mp₁ = get_or-set_ne nodes n mp _ blank (λ e. apart_mp (sym e))

  at_n :
      node_at after n
      ≡ record { i_val = (node_at nodes n).i_val; i_key = key; next = (node_at nodes mp).next }
  at_n =
      get_or-set_self nodes₂ n _ blank (omega (arith, n_in, length₂))
      ∙ ap (λ (x : Node N.Num). record x { i_key = key }) n₂

  at_mp : node_at after mp ≡ record (node_at nodes mp) { next = some n }
  at_mp =
      get_or-set_ne nodes₂ n mp _ blank (λ e. apart_mp (sym e))
      ∙ get_or-set_self nodes₁ mp _ blank (
          omega (
            arith,
            mp_in,
            length-set nodes n (record (node_at nodes n) { next = (node_at nodes mp).next }),
          ))
      ∙ ap (λ (x : Node N.Num). record x { next = some n }) mp₁

  elsewhere : (q : ℕ) → q ≢ mp → q ≢ n → node_at after q ≡ node_at nodes q
  elsewhere q other other' =
      get_or-set_ne nodes₂ n q _ blank (λ e. other' (sym e))
      ∙ get_or-set_ne nodes₁ mp q _ blank (λ e. other (sym e))
      ∙ get_or-set_ne nodes n q _ blank (λ e. other' (sym e))

  link_mp : links after mp ≡ some n
  link_mp = ap (λ x. x.next) at_mp

  link_n : links after n ≡ links nodes mp
  link_n = ap (λ x. x.next) at_n

  link_else : (q : ℕ) → q ≢ mp → q ≢ n → links after q ≡ links nodes q
  link_else q other other' = ap (λ x. x.next) (elsewhere q other other')

  link_free : links nodes n ≡ none
  link_free = ap (λ x. x.next) free

  pub Change-behind : Change hashing key nodes after n (λ q. q)
  Change-behind = record {
    same_size = length-set nodes₂ n _ ∙ length₂;
    in_size = n_in;
    new_key = ap (λ x. x.i_key) at_n;
    new_val = ap (λ x. x.i_val) at_n ∙ ap (λ x. x.i_val) free;
    old_key = λ q other. elim (ℕ_discrete q mp) [
      | yes e ↦ ap (key_at after) e ∙ ap (λ x. x.i_key) at_mp ∙ ap (key_at nodes) (sym e)
      | no ne ↦ ap (λ x. x.i_key) (elsewhere q ne other)
    ];
    old_val = λ q other. elim (ℕ_discrete q mp) [
      | yes e ↦
          ap (λ p. (node_at after p).i_val) e
          ∙ ap (λ x. x.i_val) at_mp
          ∙ ap (λ p. (node_at nodes p).i_val) (sym e)
      | no ne ↦ ap (λ x. x.i_val) (elsewhere q ne other)
    ];
    apart = λ p q ne ne' e. e;
    onto = λ q used full. (q, not_n q used, refl);
  }

  pub Used-behind : (q : ℕ) → Used hashing nodes q → Used hashing after q
  Used-behind q used = Used-renamed hashing Change-behind is_key q (not_n q used) used

  mains : (q : ℕ) → IsMain hashing nodes q → IsMain hashing after q
  mains q (used, main) =
      (Used-behind q used, main_of_old hashing Change-behind is_key q (not_n q used) ∙ main)

  old_step : (p r : ℕ) → links nodes p ≡ some r → Reach (links after) p r
  old_step p r e = elim (ℕ_discrete p mp) [
    | yes same ↦
        step (ap (links after) same ∙ link_mp)
          (step (link_n ∙ ap (links nodes) (sym same) ∙ e) (here refl))
    | no ne ↦ elim (ℕ_discrete p n) [
      | yes same ↦ let gone = ap (links nodes) same ∙ link_free in absurd (cc)
      | no ne' ↦ step (link_else p ne ne' ∙ e) (here refl)
    ]
  ]

  -- where a link of the changed nodes comes from
  Source : ℕ → ℕ → Type 0
  Source p o = ((p ≡ n) × (o ≡ mp)) ⊎ ((p ≢ mp) × (o ≡ p))

  origin :
      (p r : ℕ)
      → links after p ≡ some r
      → ((p ≡ mp) × (r ≡ n)) ⊎ ((o : ℕ) × (links nodes o ≡ some r) × Source p o)
  unfolding Source
  origin p r e = elim (ℕ_discrete p mp) [
    | yes same ↦ inl (same, same_next (links after mp) (ap (links after) (sym same) ∙ e) link_mp)
    | no ne ↦ elim (ℕ_discrete p n) [
      | yes same ↦ inr (mp, sym link_n ∙ ap (links after) (sym same) ∙ e, inl (same, refl))
      | no ne' ↦ inr (p, sym (link_else p ne ne') ∙ e, inr (ne, refl))
    ]
  ]

  one-Source : (p q o : ℕ) → Source p o → Source q o → p ≡ q
  unfolding Source
  one-Source p q o (inl (e, f)) (inl (e', f')) = e ∙ sym e'
  one-Source p q o (inl (e, f)) (inr (ne, f')) = absurd (ne (sym f' ∙ f))
  one-Source p q o (inr (ne, f)) (inl (e', f')) = absurd (ne (sym f ∙ f'))
  one-Source p q o (inr (ne, f)) (inr (ne', f')) = sym f ∙ f'

  not_to_n : (o : ℕ) → links nodes o ≡ some n → ⊥
  not_to_n o e = not_n n (wf.closed o n e).0 refl

  single_after : (p q r : ℕ) → links after p ≡ some r → links after q ≡ some r → p ≡ q
  single_after p q r e e' = elim (origin p r e) [
    | inl (same, to) ↦ elim (origin q r e') [
      | inl (same', to') ↦ same ∙ sym same'
      | inr (o, link, from) ↦ absurd (not_to_n o (link ∙ ap some to))
    ]
    | inr (o, link, from) ↦ elim (origin q r e') [
      | inl (same', to') ↦ absurd (not_to_n o (link ∙ ap some to'))
      | inr (o', link', from') ↦
          one-Source p q o from (subst (Source q) (wf.single o' o r link' link) from')
    ]
  ]

  closed_after : (p q : ℕ) → links after p ≡ some q → Used hashing after q
  closed_after p q e = elim (origin p q e) [
    | inl (same, to) ↦ subst (Used hashing after) (sym to) (Used-new hashing Change-behind is_key)
    | inr (o, link, from) ↦ Used-behind q (wf.closed o q link).0
  ]

  Ends-else : (p : ℕ) → p ≢ n → Ends (links after) p
  Ends-else p =
      Ends-elim (λ q. q ≢ n → Ends (links after) q)
        (λ q e ne. elim (ℕ_discrete q mp) [
          | yes same ↦
              more (ap (links after) same ∙ link_mp)
                (last (link_n ∙ ap (links nodes) (sym same) ∙ e))
          | no other ↦ last (link_else q other ne ∙ e)
        ])
        (λ q r e up ne.
          let ends = up (not_n r (wf.closed q r e).0) in
          elim (ℕ_discrete q mp) [
            | yes same ↦
                more (ap (links after) same ∙ link_mp)
                  (more (link_n ∙ ap (links nodes) (sym same) ∙ e) ends)
            | no other ↦ more (link_else q other ne ∙ e) ends
          ])
        (wf.ends p)

  Ends-step : (r : ℕ) → Ends (links after) mp → links after mp ≡ some r → Ends (links after) r
  Ends-step r (last e) e' = absurd (cc)
  Ends-step r (more e ends) e' = subst (Ends (links after)) (same_next (links after mp) e e') ends

  Ends-after : (p : ℕ) → Ends (links after) p
  Ends-after p = elim (ℕ_discrete p n) [
    | yes same ↦ subst (Ends (links after)) (sym same) (Ends-step n (Ends-else mp apart_mp) link_mp)
    | no ne ↦ Ends-else p ne
  ]

  status_after :
      (q : ℕ) → q ≢ n → Free hashing after q ⊎ (Used hashing after q × (q < length nodes))
  status_after q ne = elim (wf.status q) [
    | inr (used, below) ↦ inr (Used-behind q used, below)
    | inl unused ↦ elim (ℕ_discrete q mp) [
      | yes same ↦ inr (
        subst (Used hashing after) (sym same) (Used-behind mp taken),
        subst (λ p. p < length nodes) (sym same) mp_in,
      )
      | no other ↦ inl (elsewhere q other ne ∙ unused)
    ]
  ]

  pub WellFormed-behind : WellFormed hashing after
  WellFormed-behind =
      WellFormed-Change hashing Change-behind is_key wf absent mains (mains mp (taken, own))
        status_after closed_after single_after Ends-after (step link_mp (here refl))
        (λ q ne used. Reach-map (λ p. p) old_step (wf.reached q used))
