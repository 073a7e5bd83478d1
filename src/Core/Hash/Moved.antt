-- ===== src/Core/Hash/Moved.antt =====
-- A new key whose main position has a node that does not belong there: the node moves to a free place, and
-- the one that leads to it is redirected.
use luascript.Prelude.{
  ℕ, ◌<◌, ◌≡◌, ◌≢◌, refl, ap, ◌∙◌, sym, subst, ◌⊎◌, inl, inr, true, none, some, List, length, arith,
  set, length-set, get_or-set_self, get_or-set_ne, ◌==◌, if◌then◌else◌,
}
use luascript.Core.Value.{Number, Value, nil}
use luascript.Core.Hash.{Hashing, Node, is_nil, blank, node_at, mainposition, move_away}
use luascript.Core.Hash.Equal.{mainposition-lt}
use luascript.Core.Hash.Links.{
  Reach, here, step, same_next, Reach-map, Ends-no_cycle, Ends, last, more, Ends-elim,
}
use luascript.Core.Hash.WellFormed.{
  links, key_at, IsKey, main_of, Used, Free, Free-not_used, WellFormed,
}
use luascript.Core.Hash.Change.{
  Absent, Change, Used-new, Used-renamed, IsMain, WellFormed-Change, main_of_new, main_of_old,
}
use native.Mathlib.Decide.{ℕ_discrete}

module _ {N : Number} (hashing : Hashing N) (key : Value N.Num) (nodes : List (Node N.Num))
    (wf : WellFormed hashing nodes) (is_key : IsKey hashing key) (absent : Absent hashing nodes key)
    (n : ℕ) (n_in : n < length nodes) (free : Free hashing nodes n)
    (taken : Used hashing nodes (mainposition hashing (length nodes) key))
    (alien : main_of hashing nodes (mainposition hashing (length nodes) key)
      ≢ mainposition hashing (length nodes) key)
    (prev : ℕ) (leads : links nodes prev ≡ some (mainposition hashing (length nodes) key)) where
  abbrev mp : ℕ
  mp = mainposition hashing (length nodes) key

  abbrev after : List (Node N.Num)
  after = move_away key mp n prev nodes

  mp_in : mp < length nodes
  mp_in = mainposition-lt hashing (length nodes) key wf.some_node

  not_n : (q : ℕ) → Used hashing nodes q → q ≢ n
  not_n q used e = Free-not_used hashing nodes n free (subst (Used hashing nodes) e used)

  apart_mp : mp ≢ n
  apart_mp = not_n mp taken

  link_free : links nodes n ≡ none
  link_free = ap (λ x. x.next) free

  prev_mp : prev ≢ mp
  prev_mp e = Ends-no_cycle (wf.ends prev) mp leads (here (sym e))

  prev_n : prev ≢ n
  prev_n e = let gone = ap (links nodes) e ∙ link_free in cc

  prev_used : Used hashing nodes prev × (prev < length nodes)
  prev_used = elim (wf.status prev) [
    | inl unused ↦ let gone : links nodes prev ≡ none = ap (λ x. x.next) unused in absurd (cc)
    | inr used ↦ used
  ]

  abbrev nodes₁ : List (Node N.Num)
  nodes₁ = set nodes prev (record (node_at nodes prev) { next = some n })

  abbrev nodes₂ : List (Node N.Num)
  nodes₂ = set nodes₁ n (node_at nodes₁ mp)

  length₁ : length nodes₁ ≡ length nodes
  length₁ = length-set nodes prev _

  length₂ : length nodes₂ ≡ length nodes
  length₂ = length-set nodes₁ n _ ∙ length₁

  at_mp : node_at after mp ≡ record { i_val = nil; i_key = key; next = none }
  at_mp = get_or-set_self nodes₂ mp _ blank (omega (arith, mp_in, length₂))

  at_n : node_at after n ≡ node_at nodes mp
  at_n =
      get_or-set_ne nodes₂ mp n _ blank apart_mp
      ∙ get_or-set_self nodes₁ n _ blank (omega (arith, n_in, length₁))
      ∙ get_or-set_ne nodes prev mp _ blank prev_mp

  at_prev : node_at after prev ≡ record (node_at nodes prev) { next = some n }
  at_prev =
      get_or-set_ne nodes₂ mp prev _ blank (λ e. prev_mp (sym e))
      ∙ get_or-set_ne nodes₁ n prev _ blank (λ e. prev_n (sym e))
      ∙ get_or-set_self nodes prev _ blank prev_used.1

  elsewhere : (q : ℕ) → q ≢ mp → q ≢ n → q ≢ prev → node_at after q ≡ node_at nodes q
  elsewhere q not_mp not_n not_prev =
      get_or-set_ne nodes₂ mp q _ blank (λ e. not_mp (sym e))
      ∙ get_or-set_ne nodes₁ n q _ blank (λ e. not_n (sym e))
      ∙ get_or-set_ne nodes prev q _ blank (λ e. not_prev (sym e))

  link_mp : links after mp ≡ none
  link_mp = ap (λ x. x.next) at_mp

  link_n : links after n ≡ links nodes mp
  link_n = ap (λ x. x.next) at_n

  link_prev : links after prev ≡ some n
  link_prev = ap (λ x. x.next) at_prev

  link_else : (q : ℕ) → q ≢ mp → q ≢ n → q ≢ prev → links after q ≡ links nodes q
  link_else q not_mp not_n not_prev = ap (λ x. x.next) (elsewhere q not_mp not_n not_prev)

  -- the old node that is at `q` now, and where the old node `q` is
  abbrev back : ℕ → ℕ
  back q = if q == n then mp else q

  abbrev there : ℕ → ℕ
  there q = if q == mp then n else q

  back_n : back n ≡ mp
  back_n = ground arith

  back_else : (q : ℕ) → q ≢ n → back q ≡ q
  back_else q ne = ground arith

  there-mp : there mp ≡ n
  there-mp = ground arith

  there_else : (q : ℕ) → q ≢ mp → there q ≡ q
  there_else q ne = ground arith

  same_but :
      {A : Type 0} (field : Node N.Num → A)
      → field (record (node_at nodes prev) { next = some n }) ≡ field (node_at nodes prev)
      → (q : ℕ) → q ≢ mp
      → field (node_at after q) ≡ field (node_at nodes (back q))
  same_but field keep q ne = elim (ℕ_discrete q n) [
    | yes same ↦
        ap (λ p. field (node_at after p)) same
        ∙ ap field at_n
        ∙ ap (λ p. field (node_at nodes p)) (sym (ap back same ∙ back_n))
    | no ne' ↦ elim (ℕ_discrete q prev) [
      | yes same ↦
          ap (λ p. field (node_at after p)) same
          ∙ ap field at_prev
          ∙ keep
          ∙ ap (λ p. field (node_at nodes p)) (sym same ∙ sym (back_else q ne'))
      | no other ↦
          ap field (elsewhere q ne ne' other)
          ∙ ap (λ p. field (node_at nodes p)) (sym (back_else q ne'))
    ]
  ]

  pub Change-moved : Change hashing key nodes after mp back
  Change-moved = record {
    same_size = length-set nodes₂ mp _ ∙ length₂;
    in_size = mp_in;
    new_key = ap (λ x. x.i_key) at_mp;
    new_val = ap (λ x. x.i_val) at_mp;
    old_key = same_but (λ x. x.i_key) refl;
    old_val = same_but (λ x. x.i_val) refl;
    apart = λ p q ne ne' e. ground arith;
    onto = λ q used full. elim (ℕ_discrete q mp) [
      | yes same ↦ (n, λ e. apart_mp (sym e), back_n ∙ sym same)
      | no ne ↦ (q, ne, back_else q (not_n q used))
    ];
  }

  pub Used-moved : (q : ℕ) → Used hashing nodes q → Used hashing after q
  Used-moved q used = elim (ℕ_discrete q mp) [
    | yes same ↦ subst (Used hashing after) (sym same) (Used-new hashing Change-moved is_key)
    | no ne ↦
        Used-renamed hashing Change-moved is_key q ne
          (subst (Used hashing nodes) (sym (back_else q (not_n q used))) used)
  ]

  pub Used_n : Used hashing after n
  Used_n =
      Used-renamed hashing Change-moved is_key n (λ e. apart_mp (sym e))
        (subst (Used hashing nodes) (sym back_n) taken)

  main_not_mp : (q : ℕ) → IsMain hashing nodes q → q ≢ mp
  main_not_mp q (used, main) e = alien (ap (main_of hashing nodes) (sym e) ∙ main ∙ e)

  mains : (q : ℕ) → IsMain hashing nodes q → IsMain hashing after q
  mains q (used, main) =
      let ne = main_not_mp q (used, main) in
      (
        Used-moved q used,
        main_of_old hashing Change-moved is_key q ne
            ∙ ap (main_of hashing nodes) (back_else q (not_n q used))
            ∙ main,
      )

  IsMain-here : IsMain hashing after mp
  IsMain-here = (Used-new hashing Change-moved is_key, main_of_new hashing Change-moved is_key)

  -- where a link of the changed nodes comes from
  Source : ℕ → ℕ → Type 0
  Source p o = ((p ≡ n) × (o ≡ mp)) ⊎ ((p ≢ n) × (p ≢ mp) × (o ≡ p))

  origin :
      (p r : ℕ)
      → links after p ≡ some r
      → ((p ≡ prev) × (r ≡ n)) ⊎ ((o : ℕ) × (links nodes o ≡ some r) × Source p o)
  unfolding Source
  origin p r e = elim (ℕ_discrete p mp) [
    | yes same ↦ let gone = ap (links after) same ∙ link_mp in absurd (cc)
    | no ne ↦ elim (ℕ_discrete p n) [
      | yes same ↦ inr (mp, sym link_n ∙ ap (links after) (sym same) ∙ e, inl (same, refl))
      | no ne' ↦ elim (ℕ_discrete p prev) [
        | yes same ↦
            inl (same, same_next (links after prev) (ap (links after) (sym same) ∙ e) link_prev)
        | no other ↦ inr (p, sym (link_else p ne ne' other) ∙ e, inr (ne', ne, refl))
      ]
    ]
  ]

  one-Source : (p q o : ℕ) → Source p o → Source q o → p ≡ q
  unfolding Source
  one-Source p q o (inl (e, f)) (inl (e', f')) = e ∙ sym e'
  one-Source p q o (inl (e, f)) (inr (ne, not_mp, f')) = absurd (not_mp (sym f' ∙ f))
  one-Source p q o (inr (ne, not_mp, f)) (inl (e', f')) = absurd (not_mp (sym f ∙ f'))
  one-Source p q o (inr (ne, not_mp, f)) (inr (ne', not_mp', f')) = sym f ∙ f'

  not_to_n : (o : ℕ) → links nodes o ≡ some n → ⊥
  not_to_n o e = not_n n (wf.closed o n e).0 refl

  single_after : (p q r : ℕ) → links after p ≡ some r → links after q ≡ some r → p ≡ q
  single_after p q r e e' = elim (origin p r e) [
    | inl (same, to) ↦ elim (origin q r e') [
      | inl (same', to') ↦ same ∙ sym same'
      | inr (o, link, from) ↦ absurd (not_to_n o (link ∙ ap some to))
    ]
    | inr (o, link, from) ↦ elim (origin q r e') [
      | inl (same', to') ↦ absurd (not_to_n o (link ∙ ap some to'))
      | inr (o', link', from') ↦
          one-Source p q o from (subst (Source q) (wf.single o' o r link' link) from')
    ]
  ]

  closed_after : (p q : ℕ) → links after p ≡ some q → Used hashing after q
  closed_after p q e = elim (origin p q e) [
    | inl (same, to) ↦ subst (Used hashing after) (sym to) Used_n
    | inr (o, link, from) ↦ Used-moved q (wf.closed o q link).0
  ]

  -- a link of the old nodes is one of the changed nodes, the moved node at its new place
  link_there : (p r : ℕ) → links nodes p ≡ some r → links after (there p) ≡ some (there r)
  link_there p r e = elim (ℕ_discrete p mp) [
    | yes same ↦
        let loop : r ≢ mp =
          λ back. Ends-no_cycle (wf.ends mp) r (ap (links nodes) (sym same) ∙ e) (here back) in
        ap (λ x. links after (there x)) same
        ∙ ap (links after) there-mp
        ∙ link_n
        ∙ ap (links nodes) (sym same)
        ∙ e
        ∙ ap some (sym (there_else r loop))
    | no ne ↦ ap (links after) (there_else p ne) ∙ elim (ℕ_discrete p prev) [
      | yes same ↦
          let to : r ≡ mp = same_next (links nodes prev) (ap (links nodes) (sym same) ∙ e) leads in
          ap (links after) same ∙ link_prev ∙ ap some (sym (ap there to ∙ there-mp))
      | no other ↦
          let not_free : p ≢ n = λ same. let gone = ap (links nodes) same ∙ link_free in cc in
          let not_to : r ≢ mp = λ to. other (wf.single p prev mp (e ∙ ap some to) leads) in
          link_else p ne not_free other ∙ e ∙ ap some (sym (there_else r not_to))
    ]
  ]

  Ends-there : (p : ℕ) → p ≢ n → Ends (links after) (there p)
  Ends-there p =
      Ends-elim (λ q. q ≢ n → Ends (links after) (there q))
        (λ q e ne. elim (ℕ_discrete q mp) [
          | yes same ↦ last (
              ap (λ x. links after (there x)) same
              ∙ ap (links after) there-mp
              ∙ link_n
              ∙ ap (links nodes) (sym same)
              ∙ e)
          | no other ↦
              let not_prev : q ≢ prev = λ same. let gone = ap (links nodes) same ∙ leads in cc in
              last (ap (links after) (there_else q other) ∙ link_else q other ne not_prev ∙ e)
        ])
        (λ q r e up ne. more (link_there q r e) (up (not_n r (wf.closed q r e).0))) (wf.ends p)

  Ends-after : (p : ℕ) → Ends (links after) p
  Ends-after p = elim (ℕ_discrete p mp) [
    | yes same ↦ last (ap (links after) same ∙ link_mp)
    | no ne ↦ elim (ℕ_discrete p n) [
      | yes same ↦ subst (Ends (links after)) (there-mp ∙ sym same) (Ends-there mp apart_mp)
      | no ne' ↦ subst (Ends (links after)) (there_else p ne) (Ends-there p ne')
    ]
  ]

  status_after :
      (q : ℕ) → q ≢ mp → Free hashing after q ⊎ (Used hashing after q × (q < length nodes))
  status_after q ne = elim (wf.status q) [
    | inr (used, below) ↦ inr (Used-moved q used, below)
    | inl unused ↦ elim (ℕ_discrete q n) [
      | yes same ↦ inr (
        subst (Used hashing after) (sym same) Used_n,
        subst (λ p. p < length nodes) (sym same) n_in,
      )
      | no other ↦ elim (ℕ_discrete q prev) [
        | yes same ↦ inr (
            subst (λ p. Used hashing after p × (p < length nodes)) (sym same)
              (Used-moved prev prev_used.0, prev_used.1))
        | no not_prev ↦ inl (elsewhere q ne other not_prev ∙ unused)
      ]
    ]
  ]

  reach_there :
      (q : ℕ)
      → q ≢ mp
      → Used hashing nodes (back q)
      → Reach (links after) (main_of hashing nodes (back q)) q
  reach_there q ne used =
      let m = main_of hashing nodes (back q) in
      let same_m : there m ≡ m = there_else m (main_not_mp m (wf.main (back q) used)) in
      let same_q : there (back q) ≡ q = ground arith in
      subst (λ x. Reach (links after) x q) same_m
        (subst (Reach (links after) (there m)) same_q (
          Reach-map there (λ p r e. step (link_there p r e) (here refl))
            (wf.reached (back q) used)))

  pub WellFormed-moved : WellFormed hashing after
  WellFormed-moved =
      WellFormed-Change hashing Change-moved is_key wf absent mains IsMain-here status_after
        closed_after single_after Ends-after (here refl) reach_there

  pub nil_moved : (q : ℕ) → q ≢ n → is_nil (key_at nodes q) ≡ true → is_nil (key_at after q) ≡ true
  nil_moved q ne empty = elim (ℕ_discrete q mp) [
    | yes same ↦
        let mp_key = taken.0 in
        let also : is_nil (key_at nodes mp) ≡ true =
          ap (λ p. is_nil (key_at nodes p)) (sym same) ∙ empty in
        absurd (cc)
    | no other ↦
        ap is_nil (same_but (λ x. x.i_key) refl q other)
        ∙ ap (λ p. is_nil (key_at nodes p)) (back_else q ne)
        ∙ empty
  ]
