-- ===== src/Core/Hash/Put.antt =====
-- A write of a value through the pointer to a node.
use luascript.Prelude.{
  ℕ, ◌<◌, ◌≡◌, ◌≢◌, refl, ap, ◌∙◌, sym, subst, inl, inr, true, false, List, length, arith,
  length-set, get_or-set_self, get_or-set_ne, set,
}
use luascript.Core.Value.{Number, Value}
use luascript.Core.Hash.{raw_equal, Hashing, Node, blank, node_at, mainposition}
use luascript.Core.Hash.Links.{Reach, here, step, Reach-map, Ends, last, more, Ends-elim}
use luascript.Core.Hash.WellFormed.{
  links, key_at, IsKey, main_of, Used, Free-not_used, WellFormed, lookup-cases, held, held_entry,
  held_absent,
}
use luascript.Core.Hash.Change.{IsMain}
use native.Mathlib.Decide.{ℕ_discrete}

module _ {N : Number} (hashing : Hashing N) (nodes : List (Node N.Num)) (p : ℕ) (v : Value N.Num)
    (wf : WellFormed hashing nodes) (p_in : p < length nodes) (p_used : Used hashing nodes p) where
  abbrev after : List (Node N.Num)
  after = set nodes p (record (node_at nodes p) { i_val = v })

  pub same_size : length after ≡ length nodes
  same_size = length-set nodes p _

  at_p : node_at after p ≡ record (node_at nodes p) { i_val = v }
  at_p = get_or-set_self nodes p _ blank p_in

  elsewhere : (q : ℕ) → q ≢ p → node_at after q ≡ node_at nodes q
  elsewhere q ne = get_or-set_ne nodes p q _ blank (λ e. ne (sym e))

  same_but :
      {A : Type 0} (field : Node N.Num → A)
      → field (record (node_at nodes p) { i_val = v }) ≡ field (node_at nodes p)
      → (q : ℕ) → field (node_at after q) ≡ field (node_at nodes q)
  same_but field keep q = elim (ℕ_discrete q p) [
    | yes e ↦
        ap (λ r. field (node_at after r)) e
        ∙ ap field at_p
        ∙ keep
        ∙ ap (λ r. field (node_at nodes r)) (sym e)
    | no ne ↦ ap field (elsewhere q ne)
  ]

  pub same_key : (q : ℕ) → key_at after q ≡ key_at nodes q
  same_key = same_but (λ x. x.i_key) refl

  same_link : (q : ℕ) → links after q ≡ links nodes q
  same_link = same_but (λ x. x.next) refl

  used : (q : ℕ) → Used hashing nodes q → Used hashing after q
  used q h = subst (IsKey hashing) (sym (same_key q)) h

  pub was_used : (q : ℕ) → Used hashing after q → Used hashing nodes q
  was_used q h = subst (IsKey hashing) (same_key q) h

  same_main : (q : ℕ) → main_of hashing after q ≡ main_of hashing nodes q
  same_main q =
      ap (λ n. mainposition hashing n (key_at after q)) same_size
      ∙ ap (mainposition hashing (length nodes)) (same_key q)

  pub Used-put : (q : ℕ) → Used hashing nodes q → Used hashing after q
  Used-put = used

  pub WellFormed-put : WellFormed hashing after
  WellFormed-put = record {
    some_node = omega (arith, wf.some_node, same_size);
    status = λ q. elim (wf.status q) [
      | inr (h, below) ↦ inr (used q h, omega (arith, below, same_size))
      | inl free ↦ inl (
          elsewhere q
            (λ e. Free-not_used hashing nodes q free (subst (Used hashing nodes) (sym e) p_used))
          ∙ free)
    ];
    closed = λ q r e.
        let (h, below) = wf.closed q r (sym (same_link q) ∙ e) in
        (used r h, omega (arith, below, same_size));
    single = λ q q' r e e'. wf.single q q' r (sym (same_link q) ∙ e) (sym (same_link q') ∙ e');
    ends = λ q.
        Ends-elim (Ends (links after)) (λ r e. last (same_link r ∙ e))
          (λ r r' e up. more (same_link r ∙ e) up) (wf.ends q);
    reached = λ q h.
        subst (λ m. Reach (links after) m q) (sym (same_main q))
          (Reach-map (λ r. r) (λ r r' e. step (same_link r ∙ e) (here refl))
            (wf.reached q (was_used q h)));
    main = λ q h. subst (IsMain hashing after) (sym (same_main q)) (
        let (h', e) = wf.main q (was_used q h) in
        (used (main_of hashing nodes q) h', same_main (main_of hashing nodes q) ∙ e));
    unique = λ q r h h' equal. wf.unique q r (was_used q h) (was_used r h') (
        subst (λ k. raw_equal N k (key_at nodes r) ≡ true) (same_key q)
          (subst (λ k. raw_equal N (key_at after q) k ≡ true) (same_key r) equal));
  }

  -- the key of the node has the new value
  pub held-put_same :
      (k : Value N.Num)
      → IsKey hashing k
      → raw_equal N (key_at nodes p) k ≡ true
      → held hashing after k ≡ v
  held-put_same k is_key equal =
      held_entry hashing after k p WellFormed-put is_key (used p p_used)
        (subst (λ x. raw_equal N x k ≡ true) (sym (same_key p)) equal)
      ∙ ap (λ x. x.i_val) at_p

  -- any other key has the value it had
  pub held-put_other :
      (k : Value N.Num)
      → IsKey hashing k
      → raw_equal N (key_at nodes p) k ≡ false
      → held hashing after k ≡ held hashing nodes k
  held-put_other k is_key other = elim (lookup-cases hashing nodes k wf is_key) [
    | inl (nowhere, all) ↦
        held_absent hashing after k WellFormed-put is_key
          (λ q h. subst (λ x. raw_equal N x k ≡ false) (sym (same_key q)) (all q (was_used q h)))
        ∙ sym (held_absent hashing nodes k wf is_key all)
    | inr (q, there, h, below, equal) ↦
        let ne : q ≢ p =
          λ e. let same = subst (λ r. raw_equal N (key_at nodes r) k ≡ true) e equal in cc in
        held_entry hashing after k q WellFormed-put is_key (used q h)
          (subst (λ x. raw_equal N x k ≡ true) (sym (same_key q)) equal)
        ∙ ap (λ x. x.i_val) (elsewhere q ne)
        ∙ sym (held_entry hashing nodes k q wf is_key h equal)
  ]
