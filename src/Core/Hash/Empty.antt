-- ===== src/Core/Hash/Empty.antt =====
-- A new key in its main position, which has no value there: the first branch of `newkey`.
use luascript.Prelude.{
  ℕ, ◌<◌, ◌≡◌, ◌≢◌, refl, ap, ◌∙◌, sym, subst, inl, inr, true, List, length, length-set,
  get_or-set_self, get_or-set_ne,
}
use luascript.Core.Value.{Number, Value}
use luascript.Core.Hash.{Hashing, Node, is_nil, blank, node_at, mainposition, set_key}
use luascript.Core.Hash.Equal.{mainposition-lt}
use luascript.Core.Hash.Links.{here, step, Reach-map, Ends, last, more, Ends-elim}
use luascript.Core.Hash.WellFormed.{links, is_nil_sound, IsKey, Used, WellFormed}
use luascript.Core.Hash.Change.{
  Absent, Change, Used-new, Used-renamed, IsMain, WellFormed-Change, main_of_new, main_of_old,
}
use native.Mathlib.Decide.{ℕ_discrete}

module _ {N : Number} (hashing : Hashing N) (key : Value N.Num) (nodes : List (Node N.Num))
    (wf : WellFormed hashing nodes) (is_key : IsKey hashing key)
    (absent : Absent hashing nodes key) where
  abbrev mp : ℕ
  mp = mainposition hashing (length nodes) key

  abbrev after : List (Node N.Num)
  after = set_key key nodes mp

  mp_in : mp < length nodes
  mp_in = mainposition-lt hashing (length nodes) key wf.some_node

  at_mp : node_at after mp ≡ record (node_at nodes mp) { i_key = key }
  at_mp = get_or-set_self nodes mp _ blank mp_in

  elsewhere : (q : ℕ) → q ≢ mp → node_at after q ≡ node_at nodes q
  elsewhere q other = get_or-set_ne nodes mp q _ blank (λ e. other (sym e))

  same_links : (q : ℕ) → links after q ≡ links nodes q
  same_links q = elim (ℕ_discrete q mp) [
    | yes e ↦ ap (links after) e ∙ ap (λ n. n.next) at_mp ∙ ap (links nodes) (sym e)
    | no ne ↦ ap (λ n. n.next) (elsewhere q ne)
  ]

  module _ (empty : is_nil (node_at nodes mp).i_val ≡ true) where
    pub Change-empty : Change hashing key nodes after mp (λ q. q)
    Change-empty = record {
      same_size = length-set nodes mp _;
      in_size = mp_in;
      new_key = ap (λ n. n.i_key) at_mp;
      new_val = ap (λ n. n.i_val) at_mp ∙ is_nil_sound (node_at nodes mp).i_val empty;
      old_key = λ q other. ap (λ n. n.i_key) (elsewhere q other);
      old_val = λ q other. ap (λ n. n.i_val) (elsewhere q other);
      apart = λ p q ne ne' e. e;
      onto = λ q used full. (
        q,
        λ e.
            let also : is_nil (node_at nodes q).i_val ≡ true =
              ap (λ p. is_nil (node_at nodes p).i_val) e ∙ empty in
            cc,
        refl,
      );
    }

    pub Used-empty : (q : ℕ) → Used hashing nodes q → Used hashing after q
    Used-empty q used = elim (ℕ_discrete q mp) [
      | yes e ↦ subst (Used hashing after) (sym e) (Used-new hashing Change-empty is_key)
      | no ne ↦ Used-renamed hashing Change-empty is_key q ne used
    ]

    IsMain-here : IsMain hashing after mp
    IsMain-here = (Used-new hashing Change-empty is_key, main_of_new hashing Change-empty is_key)

    mains : (q : ℕ) → IsMain hashing nodes q → IsMain hashing after q
    mains q (used, main) = elim (ℕ_discrete q mp) [
      | yes e ↦ subst (IsMain hashing after) (sym e) IsMain-here
      | no ne ↦ (Used-empty q used, main_of_old hashing Change-empty is_key q ne ∙ main)
    ]

    pub WellFormed-empty : WellFormed hashing after
    WellFormed-empty =
        WellFormed-Change hashing Change-empty is_key wf absent mains IsMain-here
          (λ q ne. elim (wf.status q) [
            | inl free ↦ inl (elsewhere q ne ∙ free)
            | inr (used, below) ↦ inr (Used-empty q used, below)
          ])
          (λ p q e. Used-empty q (wf.closed p q (sym (same_links p) ∙ e)).0)
          (λ p q r e e'. wf.single p q r (sym (same_links p) ∙ e) (sym (same_links q) ∙ e'))
          (λ p.
            Ends-elim (Ends (links after)) (λ p e. last (same_links p ∙ e))
              (λ p r e ends. more (same_links p ∙ e) ends) (wf.ends p))
          (here refl)
          (λ q ne used.
            Reach-map (λ p. p) (λ p r e. step (same_links p ∙ e) (here refl)) (wf.reached q used))
