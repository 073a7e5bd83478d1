-- ===== src/Core/Hash/WellFormed.antt =====
-- The invariant of the hash part, and that the searches find what is there.
use luascript.Prelude.{
  ℕ, zero, suc, ◌≤◌, ◌<◌, ◌≡◌, refl, ap, ◌∙◌, sym, subst, ◌⊎◌, inl, inr, Bool, true, false, Option,
  none, some, List, arith, length, Bool-cases,
}
use luascript.Core.Value.{Number, Value, nil}
use luascript.Core.Hash.{raw_equal, Hashing, Node, is_nil, blank, node_at, walk, mainposition}
use luascript.Core.Hash.Links.{
  Reach, here, step, Ends, last, more, same_next, positions, positions_bound,
}
use luascript.Core.Hash.Equal.{raw_equal_sym, raw_equal_trans, mainposition_equal, mainposition-lt}

module _ {Num : Type 0} where
  abbrev pub links : List (Node Num) → ℕ → Option ℕ
  links nodes p = (node_at nodes p).next

  pub is_nil_sound : (v : Value Num) → is_nil v ≡ true → v ≡ nil
  is_nil_sound nil h = refl
  is_nil_sound v h = cc

  abbrev pub key_at : List (Node Num) → ℕ → Value Num
  key_at nodes p = (node_at nodes p).i_key

  not_hit :
      (hit : Node Num → Bool) (nodes : List (Node Num)) (p q : ℕ)
      → hit (node_at nodes p) ≡ false
      → ((r : ℕ) → links nodes p ≡ some r → Reach (links nodes) r q → hit (node_at nodes q) ≡ false)
      → Reach (links nodes) p q
      → hit (node_at nodes q) ≡ false
  not_hit hit nodes p q no_hit later (here e) = subst (λ x. hit (node_at nodes x) ≡ false) e no_hit
  not_hit hit nodes p q no_hit later (step {r = r} e reach) = later r e reach

  -- a search of enough rounds finds a node that is reached and hit, where there is one
  pub walk-cases :
      (k : ℕ) (hit : Node Num → Bool) (nodes : List (Node Num)) {p : ℕ}
      (ends : Ends (links nodes) p)
      → length (positions ends) ≤ k
      → ((walk k hit nodes p ≡ none)
          × ((q : ℕ) → Reach (links nodes) p q → hit (node_at nodes q) ≡ false))
        ⊎ ((q : ℕ) × (walk k hit nodes p ≡ some q)
            × Reach (links nodes) p q
            × (hit (node_at nodes q) ≡ true))
  unfolding walk positions
  walk-cases zero hit nodes (last e) h = absurd (omega arith)
  walk-cases zero hit nodes (more e ends) h = absurd (omega arith)
  walk-cases (suc k) hit nodes {p} (last e) h = elim (Bool-cases (hit (node_at nodes p))) [
    | inl yes_hit ↦ inr (p, rw yes_hit refl, here refl, yes_hit)
    | inr no_hit ↦ inl (rw (no_hit, e) refl, λ q. not_hit hit nodes p q no_hit (λ r e' reach. cc))
  ]
  walk-cases (suc k) hit nodes {p} (more {r = r} e ends) h =
      elim (Bool-cases (hit (node_at nodes p))) [
        | inl yes_hit ↦ inr (p, rw yes_hit refl, here refl, yes_hit)
        | inr no_hit ↦ elim (walk-cases k hit nodes ends (omega arith)) [
          | inl (nowhere, none_hit) ↦ inl (
            rw (no_hit, e, nowhere) refl,
            λ q. not_hit hit nodes p q no_hit λ r' e' reach.
                none_hit q
                  (subst (λ x. Reach (links nodes) x q) (same_next (links nodes p) e' e) reach),
          )
          | inr (q, there, reach, yes_hit) ↦
              inr (q, rw (no_hit, e, there) refl, step e reach, yes_hit)
        ]
      ]

module _ {N : Number} (hashing : Hashing N) where
  abbrev pub IsKey : Value N.Num → Type 0
  IsKey k = (is_nil k ≡ false) × (raw_equal N k k ≡ true)

  abbrev pub main_of : List (Node N.Num) → ℕ → ℕ
  main_of nodes p = mainposition hashing (length nodes) (key_at nodes p)

  -- a node in use, by the key that it has
  abbrev pub Used : List (Node N.Num) → ℕ → Type 0
  Used nodes p = IsKey (key_at nodes p)

  abbrev pub Free : List (Node N.Num) → ℕ → Type 0
  Free nodes p = node_at nodes p ≡ blank

  pub record WellFormed (nodes : List (Node N.Num)) : Type 0 where
    pub some_node : 0 < length nodes
    pub status : (p : ℕ) → Free nodes p ⊎ (Used nodes p × (p < length nodes))
    -- a chain links nodes in use, never two to one, and ends
    pub closed : (p q : ℕ) → links nodes p ≡ some q → Used nodes q × (q < length nodes)
    pub single : (p q r : ℕ) → links nodes p ≡ some r → links nodes q ≡ some r → p ≡ q
    pub ends : (p : ℕ) → Ends (links nodes) p
    -- every key is reached from its main position, whose own key belongs there
    pub reached : (p : ℕ) → Used nodes p → Reach (links nodes) (main_of nodes p) p
    pub main :
        (p : ℕ)
        → Used nodes p
        → Used nodes (main_of nodes p) × (main_of nodes (main_of nodes p) ≡ main_of nodes p)
    pub unique :
        (p q : ℕ)
        → Used nodes p
        → Used nodes q
        → raw_equal N (key_at nodes p) (key_at nodes q) ≡ true
        → p ≡ q

  raw_equal_nil : (k : Value N.Num) → raw_equal N nil k ≡ true → is_nil k ≡ true
  raw_equal_nil nil h = refl
  raw_equal_nil k h = cc

  pub Free-not_used : (nodes : List (Node N.Num)) (p : ℕ) → Free nodes p → Used nodes p → ⊥
  Free-not_used nodes p free used =
      let empty : is_nil (key_at nodes p) ≡ true = ap (λ x. is_nil x.i_key) free in
      let taken = used.0 in cc

  pub Free-place :
      (nodes : List (Node N.Num)) (p : ℕ)
      → WellFormed nodes
      → is_nil (key_at nodes p) ≡ true
      → Free nodes p
  Free-place nodes p wf empty = elim (wf.status p) [
    | inl free ↦ free
    | inr (used, below) ↦ let taken = used.0 in absurd (cc)
  ]

  pub Used_place :
      (nodes : List (Node N.Num)) (p : ℕ)
      → WellFormed nodes
      → is_nil (node_at nodes p).i_val ≡ false
      → Used nodes p × (p < length nodes)
  Used_place nodes p wf full = elim (wf.status p) [
    | inl free ↦
        let empty : is_nil (node_at nodes p).i_val ≡ true = ap (λ x. is_nil x.i_val) free in
        absurd (cc)
    | inr used ↦ used
  ]

  abbrev pub lookup : List (Node N.Num) → Value N.Num → Option ℕ
  lookup nodes k =
      walk (length nodes) (λ x. raw_equal N x.i_key k) nodes (mainposition hashing (length nodes) k)

  -- the search of a key finds the node that has it
  pub lookup-cases :
      (nodes : List (Node N.Num)) (k : Value N.Num)
      → WellFormed nodes
      → IsKey k
      → ((lookup nodes k ≡ none)
          × ((q : ℕ) → Used nodes q → raw_equal N (key_at nodes q) k ≡ false))
        ⊎ ((q : ℕ) × (lookup nodes k ≡ some q)
            × Used nodes q
            × (q < length nodes)
            × (raw_equal N (key_at nodes q) k ≡ true))
  lookup-cases nodes k wf is_key =
      let size = length nodes in
      let m = mainposition hashing size k in
      let m_in = mainposition-lt hashing size k wf.some_node in
      let hit = λ (x : Node N.Num). raw_equal N x.i_key k in
      let bound = positions_bound size (wf.ends m) m_in (λ q r e. (wf.closed q r e).1) in
      elim (walk-cases size hit nodes (wf.ends m) bound) [
        | inl (nowhere, none_hit) ↦ inl (
          nowhere,
          λ q used. elim (Bool-cases (raw_equal N (key_at nodes q) k)) [
            | inr other ↦ other
            | inl equal ↦
                let from : main_of nodes q ≡ m =
                  mainposition_equal hashing size (key_at nodes q) k equal in
                none_hit q (subst (λ x. Reach (links nodes) x q) from (wf.reached q used))
          ],
        )
        | inr (q, there, reach, yes_hit) ↦ elim (wf.status q) [
          | inl free ↦
              let empty : key_at nodes q ≡ nil = ap (λ x. x.i_key) free in
              let no_key = raw_equal_nil k (subst (λ x. raw_equal N x k ≡ true) empty yes_hit) in
              let some_key = is_key.0 in absurd (cc)
          | inr (used, in_range) ↦ inr (q, there, used, in_range, yes_hit)
        ]
      ]

  -- what the table holds for a key: nil where no node has it
  unfoldable pub held : List (Node N.Num) → Value N.Num → Value N.Num
  held nodes k = elim (lookup nodes k) [ none ↦ nil | some q ↦ (node_at nodes q).i_val ]

  -- each entry that is not nil is also an entry of the other nodes
  abbrev pub Keeps : List (Node N.Num) → List (Node N.Num) → Type 0
  Keeps nodes nodes' =
      (q : ℕ)
      → Used nodes q
      → is_nil (node_at nodes q).i_val ≡ false
      → (q' : ℕ) × Used nodes' q'
        × (key_at nodes' q' ≡ key_at nodes q)
        × ((node_at nodes' q').i_val ≡ (node_at nodes q).i_val)

  pub held_entry :
      (nodes : List (Node N.Num)) (k : Value N.Num) (q : ℕ)
      → WellFormed nodes
      → IsKey k
      → Used nodes q
      → raw_equal N (key_at nodes q) k ≡ true
      → held nodes k ≡ (node_at nodes q).i_val
  unfolding held
  held_entry nodes k q wf is_key used equal = elim (lookup-cases nodes k wf is_key) [
    | inl (nowhere, others) ↦ let other = others q used in absurd (cc)
    | inr (q', there, used', in_range, equal') ↦
        let back = raw_equal_sym hashing (key_at nodes q) k equal in
        let one =
          wf.unique q' q used' used
            (raw_equal_trans hashing (key_at nodes q') k (key_at nodes q) equal' back) in
        rw (held, there) (ap (λ x. (node_at nodes x).i_val) one)
  ]

  pub held_absent :
      (nodes : List (Node N.Num)) (k : Value N.Num)
      → WellFormed nodes
      → IsKey k
      → ((q : ℕ) → Used nodes q → raw_equal N (key_at nodes q) k ≡ false)
      → held nodes k ≡ nil
  unfolding held
  held_absent nodes k wf is_key all = elim (lookup-cases nodes k wf is_key) [
    | inl (nowhere, others) ↦ rw (held, nowhere) refl
    | inr (q, there, used, in_range, equal) ↦ let other = all q used in absurd (cc)
  ]

  -- a key with a value that is not nil has its entry
  pub held_some :
      (nodes : List (Node N.Num)) (k : Value N.Num)
      → WellFormed nodes
      → IsKey k
      → (held nodes k ≡ nil)
        ⊎ ((q : ℕ) × Used nodes q
            × (raw_equal N (key_at nodes q) k ≡ true)
            × (is_nil (node_at nodes q).i_val ≡ false)
            × (held nodes k ≡ (node_at nodes q).i_val))
  unfolding held
  held_some nodes k wf is_key = elim (lookup-cases nodes k wf is_key) [
    | inl (nowhere, others) ↦ inl (rw (held, nowhere) refl)
    | inr (q, there, used, in_range, equal) ↦
        let e = held_entry nodes k q wf is_key used equal in
        elim (Bool-cases (is_nil (node_at nodes q).i_val)) [
          | inl empty ↦ inl (e ∙ is_nil_sound (node_at nodes q).i_val empty)
          | inr full ↦ inr (q, used, equal, full, e)
        ]
  ]

  held-kept :
      (nodes nodes' : List (Node N.Num)) (k : Value N.Num) (q : ℕ)
      → WellFormed nodes'
      → IsKey k
      → Keeps nodes nodes'
      → Used nodes q
      → raw_equal N (key_at nodes q) k ≡ true
      → is_nil (node_at nodes q).i_val ≡ false
      → held nodes' k ≡ (node_at nodes q).i_val
  held-kept nodes nodes' k q wf' is_key keeps used equal full =
      let (q', used', same_key, same_val) = keeps q used full in
      held_entry nodes' k q' wf' is_key used'
        (subst (λ x. raw_equal N x k ≡ true) (sym same_key) equal)
      ∙ same_val

  pub held-Keeps :
      (nodes nodes' : List (Node N.Num)) (k : Value N.Num)
      → WellFormed nodes
      → WellFormed nodes'
      → IsKey k
      → Keeps nodes nodes'
      → Keeps nodes' nodes
      → held nodes' k ≡ held nodes k
  held-Keeps nodes nodes' k wf wf' is_key there back = elim (held_some nodes k wf is_key) [
    | inr (q, used, equal, full, e) ↦
        held-kept nodes nodes' k q wf' is_key there used equal full ∙ sym e
    | inl empty ↦ elim (held_some nodes' k wf' is_key) [
      | inl empty' ↦ empty' ∙ sym empty
      | inr (q, used, equal, full, e) ↦
          e ∙ sym (held-kept nodes' nodes k q wf is_key back used equal full)
    ]
  ]
