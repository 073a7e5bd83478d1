-- ===== src/Core/Hash/Change.antt =====
-- A new key in the hash part: what a change of the nodes has to keep so that every value stays.
use luascript.Prelude.{
  ℕ, ◌<◌, ◌≡◌, ◌≢◌, ◌⊎◌, ap, ◌∙◌, sym, subst, inl, inr, true, false, some, List, length, arith,
}
use luascript.Core.Value.{Number, Value, nil}
use luascript.Core.Hash.{raw_equal, Hashing, Node, is_nil, node_at, mainposition}
use luascript.Core.Hash.Links.{Reach, Ends}
use luascript.Core.Hash.Equal.{raw_equal_sym}
use luascript.Core.Hash.WellFormed.{
  links, key_at, IsKey, main_of, Used, Free, Free-not_used, WellFormed, Keeps, held, held-Keeps,
}
use native.Mathlib.Decide.{ℕ_discrete}

module _ {N : Number} (hashing : Hashing N) where
  abbrev pub Absent : List (Node N.Num) → Value N.Num → Type 0
  Absent nodes key = (q : ℕ) → Used hashing nodes q → raw_equal N (key_at nodes q) key ≡ false

  -- `q` is a node in use whose key belongs to it
  abbrev pub IsMain : List (Node N.Num) → ℕ → Type 0
  IsMain nodes q = Used hashing nodes q × (main_of hashing nodes q ≡ q)

  -- The node `x` has the new key and no value; any other has the key and the value of the old node `τ q`
  pub record Change (key : Value N.Num) (nodes nodes' : List (Node N.Num)) (x : ℕ) (τ : ℕ → ℕ)
      : Type 0 where
    pub same_size : length nodes' ≡ length nodes
    pub in_size : x < length nodes
    pub new_key : key_at nodes' x ≡ key
    pub new_val : (node_at nodes' x).i_val ≡ nil
    pub old_key : (q : ℕ) → q ≢ x → key_at nodes' q ≡ key_at nodes (τ q)
    pub old_val : (q : ℕ) → q ≢ x → (node_at nodes' q).i_val ≡ (node_at nodes (τ q)).i_val
    pub apart : (p q : ℕ) → p ≢ x → q ≢ x → τ p ≡ τ q → p ≡ q
    pub onto :
        (q : ℕ)
        → Used hashing nodes q
        → is_nil (node_at nodes q).i_val ≡ false
        → (q' : ℕ) × (q' ≢ x) × (τ q' ≡ q)

  module _ {key : Value N.Num} {nodes nodes' : List (Node N.Num)} {x : ℕ} {τ : ℕ → ℕ}
      (change : Change key nodes nodes' x τ) (is_key : IsKey hashing key) where
    open change use {same_size, in_size, new_key, new_val, old_key, old_val, apart, onto}

    pub Used-new : Used hashing nodes' x
    Used-new = subst (IsKey hashing) (sym new_key) is_key

    pub Used-old : (q : ℕ) → q ≢ x → Used hashing nodes' q → Used hashing nodes (τ q)
    Used-old q other used = subst (IsKey hashing) (old_key q other) used

    pub key_origin :
        (q : ℕ)
        → Used hashing nodes' q
        → (key_at nodes' q ≡ key)
          ⊎ ((q' : ℕ) × Used hashing nodes q' × (key_at nodes' q ≡ key_at nodes q'))
    key_origin q used = elim (ℕ_discrete q x) [
      | yes e ↦ inl (ap (key_at nodes') e ∙ new_key)
      | no ne ↦ inr (τ q, Used-old q ne used, old_key q ne)
    ]

    pub Used-renamed : (q : ℕ) → q ≢ x → Used hashing nodes (τ q) → Used hashing nodes' q
    Used-renamed q other used = subst (IsKey hashing) (sym (old_key q other)) used

    pub unique_after :
        WellFormed hashing nodes
        → Absent nodes key
        → (p q : ℕ) → Used hashing nodes' p
        → Used hashing nodes' q
        → raw_equal N (key_at nodes' p) (key_at nodes' q) ≡ true
        → p ≡ q
    unique_after wf absent p q used used' equal = elim (ℕ_discrete p x) [
      | yes e ↦ elim (ℕ_discrete q x) [
        | yes e' ↦ e ∙ sym e'
        | no ne' ↦
            let same : raw_equal N key (key_at nodes (τ q)) ≡ true =
              subst (λ k. raw_equal N k (key_at nodes (τ q)) ≡ true)
                (ap (key_at nodes') e ∙ new_key)
                (subst (λ k. raw_equal N (key_at nodes' p) k ≡ true) (old_key q ne') equal) in
            let turned = raw_equal_sym hashing key (key_at nodes (τ q)) same in
            let other = absent (τ q) (Used-old q ne' used') in absurd (cc)
      ]
      | no ne ↦ elim (ℕ_discrete q x) [
        | yes e' ↦
            let same : raw_equal N (key_at nodes (τ p)) key ≡ true =
              subst (λ k. raw_equal N (key_at nodes (τ p)) k ≡ true)
                (ap (key_at nodes') e' ∙ new_key)
                (subst (λ k. raw_equal N k (key_at nodes' q) ≡ true) (old_key p ne) equal) in
            let other = absent (τ p) (Used-old p ne used) in absurd (cc)
        | no ne' ↦ apart p q ne ne' (
            wf.unique (τ p) (τ q) (Used-old p ne used) (Used-old q ne' used') (
              subst (λ k. raw_equal N k (key_at nodes (τ q)) ≡ true) (old_key p ne)
                (subst (λ k. raw_equal N (key_at nodes' p) k ≡ true) (old_key q ne') equal)))
      ]
    ]

    Keeps-there : Keeps hashing nodes nodes'
    Keeps-there q used full =
        let (q', other, from) = onto q used full in
        (
          q',
          Used-renamed q' other (subst (Used hashing nodes) (sym from) used),
          old_key q' other ∙ ap (key_at nodes) from,
          old_val q' other ∙ ap (λ p. (node_at nodes p).i_val) from,
        )

    Keeps-back : Keeps hashing nodes' nodes
    Keeps-back q used full = elim (ℕ_discrete q x) [
      | yes e ↦
          let empty : is_nil (node_at nodes' q).i_val ≡ true =
            ap (λ p. is_nil (node_at nodes' p).i_val) e ∙ ap is_nil new_val in
          absurd (cc)
      | no ne ↦ (τ q, Used-old q ne used, sym (old_key q ne), sym (old_val q ne))
    ]

    -- no value of any key changes
    pub held-Change :
        WellFormed hashing nodes
        → WellFormed hashing nodes'
        → (k : Value N.Num) → IsKey hashing k
        → held hashing nodes' k ≡ held hashing nodes k
    held-Change wf wf' k h = held-Keeps hashing nodes nodes' k wf wf' h Keeps-there Keeps-back

    pub main_of_new : main_of hashing nodes' x ≡ mainposition hashing (length nodes) key
    main_of_new =
        ap (λ n. mainposition hashing n (key_at nodes' x)) same_size
        ∙ ap (mainposition hashing (length nodes)) new_key

    pub main_of_old : (q : ℕ) → q ≢ x → main_of hashing nodes' q ≡ main_of hashing nodes (τ q)
    main_of_old q other =
        ap (λ n. mainposition hashing n (key_at nodes' q)) same_size
        ∙ ap (mainposition hashing (length nodes)) (old_key q other)

    -- what is left to show of the changed nodes: their links
    pub WellFormed-Change :
        WellFormed hashing nodes
        → Absent nodes key
        → ((q : ℕ) → IsMain nodes q → IsMain nodes' q)
        → IsMain nodes' (mainposition hashing (length nodes) key)
        → ((q : ℕ) → q ≢ x → Free hashing nodes' q ⊎ (Used hashing nodes' q × (q < length nodes)))
        → ((p q : ℕ) → links nodes' p ≡ some q → Used hashing nodes' q)
        → ((p q r : ℕ) → links nodes' p ≡ some r → links nodes' q ≡ some r → p ≡ q)
        → ((p : ℕ) → Ends (links nodes') p)
        → Reach (links nodes') (mainposition hashing (length nodes) key) x
        → ((q : ℕ)
            → q ≢ x
            → Used hashing nodes (τ q)
            → Reach (links nodes') (main_of hashing nodes (τ q)) q)
        → WellFormed hashing nodes'
    WellFormed-Change wf absent mains main_new status' closed' single' ends' reach_new reach_old =
        record {
          some_node = omega (arith, wf.some_node, same_size);
          status = status_all;
          closed = λ p q e. (closed' p q e, used_in q (closed' p q e));
          single = single';
          ends = ends';
          reached = reached_all;
          main = main_all;
          unique = unique_after wf absent;
        }
      where
        status_all : (q : ℕ) → Free hashing nodes' q ⊎ (Used hashing nodes' q × (q < length nodes'))
        status_all q = elim (ℕ_discrete q x) [
          | yes e ↦
              inr (subst (Used hashing nodes') (sym e) Used-new, omega (arith, in_size, same_size))
          | no ne ↦ elim (status' q ne) [
            | inl free ↦ inl free
            | inr (used, below) ↦ inr (used, omega (arith, below, same_size))
          ]
        ]

        used_in : (q : ℕ) → Used hashing nodes' q → q < length nodes'
        used_in q used = elim (status_all q) [
          | inl free ↦ absurd (Free-not_used hashing nodes' q free used)
          | inr (also, below) ↦ below
        ]

        reached_all :
            (q : ℕ) → Used hashing nodes' q → Reach (links nodes') (main_of hashing nodes' q) q
        reached_all q used = elim (ℕ_discrete q x) [
          | yes e ↦
              let from : main_of hashing nodes' q ≡ mainposition hashing (length nodes) key =
                ap (main_of hashing nodes') e ∙ main_of_new in
              subst (λ m. Reach (links nodes') m q) (sym from)
                (subst (Reach (links nodes') (mainposition hashing (length nodes) key)) (sym e)
                  reach_new)
          | no ne ↦
              subst (λ m. Reach (links nodes') m q) (sym (main_of_old q ne))
                (reach_old q ne (Used-old q ne used))
        ]

        main_all : (q : ℕ) → Used hashing nodes' q → IsMain nodes' (main_of hashing nodes' q)
        main_all q used = elim (ℕ_discrete q x) [
          | yes e ↦
              subst (IsMain nodes') (sym (ap (main_of hashing nodes') e ∙ main_of_new)) main_new
          | no ne ↦
              subst (IsMain nodes') (sym (main_of_old q ne))
                (mains (main_of hashing nodes (τ q)) (wf.main (τ q) (Used-old q ne used)))
        ]
