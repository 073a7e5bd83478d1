-- ===== src/Core/Hash/Insert.antt =====
-- `newkey` in all its branches: it finds a place, or there is none.
use luascript.Prelude.{
  ℕ, ◌≤◌, ◌<◌, ◌≡◌, ◌≢◌, refl, ap, ◌∙◌, sym, subst, ◌⊎◌, inl, inr, true, false, some, List, length,
  arith, ◌==◌, Bool-cases,
}
use luascript.Core.Value.{Number, Value, nil}
use luascript.Core.Hash.{
  Hashing, Node, Table, placed, full, in_node, is_nil, node_at, getfreepos, mainposition, set_key,
  chain_behind, move_away, collide, newkey,
}
use luascript.Core.Hash.Equal.{mainposition-lt}
use luascript.Core.Hash.Links.{positions_bound}
use luascript.Core.Hash.WellFormed.{
  links, key_at, IsKey, main_of, Used, Free, Free-place, Used_place, WellFormed, held,
}
use luascript.Core.Hash.Places.{getfreepos-cases, previous_found}
use luascript.Core.Hash.Change.{Absent, Change, Used-new, held-Change, key_origin}
use luascript.Core.Hash.Empty.{Change-empty, Used-empty, WellFormed-empty}
use luascript.Core.Hash.Behind.{Change-behind, Used-behind, WellFormed-behind}
use luascript.Core.Hash.Moved.{Change-moved, Used-moved, nil_moved, Used_n, WellFormed-moved}
use native.Mathlib.Decide.{ℕ_discrete, dec_lt}

module _ {N : Number} (hashing : Hashing N) where
  -- `lastfree`: all free places are before it; the shared node is never given away
  pub record IsTable (t : Table N.Num) : Type 0 where
    pub nodes : WellFormed hashing t.node
    pub lastfree_in : t.lastfree ≤ length t.node
    pub above :
        t.dummy ≡ false → (q : ℕ) → t.lastfree ≤ q → q < length t.node → Used hashing t.node q
    pub shared : t.dummy ≡ true → t.lastfree ≡ 0

  -- the node `p` of the new table is there for the key, and no value of any key has changed
  pub record Inserts (t : Table N.Num) (key : Value N.Num) (p : ℕ) (t' : Table N.Num) : Type 0 where
    pub valid : IsTable t'
    pub in_size : p < length t'.node
    pub same_size : length t'.node ≡ length t.node
    pub same_array : t'.array ≡ t.array
    pub new_key : key_at t'.node p ≡ key
    pub new_val : (node_at t'.node p).i_val ≡ nil
    pub same_held :
        (k : Value N.Num) → IsKey hashing k → held hashing t'.node k ≡ held hashing t.node k
    pub same_dummy : t'.dummy ≡ t.dummy
    -- no key but the new one is new, and one free node at most is taken
    pub origin :
        (q : ℕ)
        → Used hashing t'.node q
        → (key_at t'.node q ≡ key)
          ⊎ ((q' : ℕ) × Used hashing t.node q' × (key_at t'.node q ≡ key_at t.node q'))
    pub one_more :
        (f : ℕ) × ((q : ℕ)
          → q ≢ f
          → is_nil (key_at t.node q) ≡ true
          → is_nil (key_at t'.node q) ≡ true)

  -- there is no free node
  abbrev pub IsFull : Table N.Num → Type 0
  IsFull t = (t.dummy ≡ true) ⊎ ((q : ℕ) → q < length t.node → Used hashing t.node q)

  module _ (t : Table N.Num) (key : Value N.Num) (valid : IsTable t) (is_key : IsKey hashing key)
      (absent : Absent hashing t.node key) where
    abbrev mp : ℕ
    mp = mainposition hashing (length t.node) key

    insert_empty :
        is_nil (node_at t.node mp).i_val ≡ true
        → t.dummy ≡ false
        → Inserts t key mp (record t { node = set_key key t.node mp })
    insert_empty empty own =
        let change = Change-empty hashing key t.node valid.nodes is_key absent empty in
        let wf = WellFormed-empty hashing key t.node valid.nodes is_key absent empty in
        record {
          valid = record {
            nodes = wf;
            lastfree_in = omega (arith, valid.lastfree_in, change.same_size);
            above = λ real q h h'.
                Used-empty hashing key t.node valid.nodes is_key absent empty q
                  (valid.above real q h (omega (arith, h', change.same_size)));
            shared = valid.shared;
          };
          in_size = omega (arith, change.in_size, change.same_size);
          same_size = change.same_size;
          same_array = refl;
          new_key = change.new_key;
          new_val = change.new_val;
          same_held = held-Change hashing change is_key valid.nodes wf;
          same_dummy = refl;
          origin = key_origin hashing change is_key;
          one_more = (mp, λ q ne empty. ap is_nil (change.old_key q ne) ∙ empty);
        }

    -- a free place that `getfreepos` has found, when the main position is taken
    module _ (n : ℕ) (below : n < t.lastfree) (empty : is_nil (key_at t.node n) ≡ true)
        (rest : (q : ℕ) → n < q → q < t.lastfree → is_nil (key_at t.node q) ≡ false)
        (taken : is_nil (node_at t.node mp).i_val ≡ false) where
      n_in : n < length t.node
      n_in = omega (arith, below, valid.lastfree_in)

      n-Free : Free hashing t.node n
      n-Free = Free-place hashing t.node n valid.nodes empty

      mp_used : Used hashing t.node mp
      mp_used = (Used_place hashing t.node mp valid.nodes taken).0

      used_above : t.dummy ≡ false → (q : ℕ) → n < q → q < length t.node → Used hashing t.node q
      used_above real q h h' = elim (dec_lt q t.lastfree) [
        | no past ↦ valid.above real q (omega (arith, past)) h'
        | yes before ↦ elim (valid.nodes.status q) [
          | inr (used, in_range) ↦ used
          | inl free ↦
              let gone : is_nil (key_at t.node q) ≡ true = ap (λ x. is_nil x.i_key) free in
              let some_key = rest q h before in absurd (cc)
        ]
      ]

      not_shared : t.dummy ≡ true → ⊥
      not_shared e = let none_free = valid.shared e in omega (arith, below, none_free)

      -- what both ways to use the free place have in common
      insert_free :
          {nodes' : List (Node N.Num)} {x : ℕ} {τ : ℕ → ℕ}
          → Change hashing key t.node nodes' x τ
          → WellFormed hashing nodes'
          → Used hashing nodes' n
          → ((q : ℕ) → Used hashing t.node q → Used hashing nodes' q)
          → ((q : ℕ) → q ≢ n → is_nil (key_at t.node q) ≡ true → is_nil (key_at nodes' q) ≡ true)
          → Inserts t key x (record t { node = nodes'; lastfree = n })
      insert_free {nodes' = nodes'} change wf n_used mono others = record {
        valid = record {
          nodes = wf;
          lastfree_in = omega (arith, n_in, change.same_size);
          above = λ real q h h'. elim (ℕ_discrete q n) [
            | yes same ↦ subst (Used hashing nodes') (sym same) n_used
            | no ne ↦
                mono q
                  (used_above real q (omega (arith, h, ne)) (omega (arith, h', change.same_size)))
          ];
          shared = λ e. absurd (not_shared e);
        };
        in_size = omega (arith, change.in_size, change.same_size);
        same_size = change.same_size;
        same_array = refl;
        new_key = change.new_key;
        new_val = change.new_val;
        same_held = held-Change hashing change is_key valid.nodes wf;
        same_dummy = refl;
        origin = key_origin hashing change is_key;
        one_more = (n, others);
      }

      insert_behind :
          main_of hashing t.node mp ≡ mp
          → Inserts t key n (record t { node = chain_behind key mp n t.node; lastfree = n })
      insert_behind own =
          let change =
            Change-behind hashing key t.node valid.nodes is_key absent n n_in n-Free mp_used own in
          insert_free change
            (WellFormed-behind hashing key t.node valid.nodes is_key absent n n_in n-Free mp_used
              own)
            (Used-new hashing change is_key)
            (Used-behind hashing key t.node valid.nodes is_key absent n n_in n-Free mp_used own)
            (λ q ne empty. ap is_nil (change.old_key q ne) ∙ empty)

      insert_moved :
          main_of hashing t.node mp ≢ mp
          → (prev : ℕ) → links t.node prev ≡ some mp
          → Inserts t key mp (record t { node = move_away key mp n prev t.node; lastfree = n })
      insert_moved alien prev leads =
          insert_free
            (Change-moved hashing key t.node valid.nodes is_key absent n n_in n-Free mp_used alien
              prev leads)
            (WellFormed-moved hashing key t.node valid.nodes is_key absent n n_in n-Free mp_used
              alien prev leads)
            (Used_n hashing key t.node valid.nodes is_key absent n n_in n-Free mp_used alien prev
              leads)
            (Used-moved hashing key t.node valid.nodes is_key absent n n_in n-Free mp_used alien
              prev leads)
            (nil_moved hashing key t.node valid.nodes is_key absent n n_in n-Free mp_used alien prev
              leads)

      collide_placed :
          (p : ℕ) × (t' : Table N.Num) × (collide hashing t key mp (some n, n)
            ≡ placed (in_node p) t')
          × Inserts t key p t'
      collide_placed = elim (ℕ_discrete (main_of hashing t.node mp) mp) [
        | yes own ↦
            let test : (main_of hashing t.node mp == mp) ≡ true = ground arith in
            (n, _, rw test refl, insert_behind own)
        | no alien ↦
            let test : (main_of hashing t.node mp == mp) ≡ false = ground arith in
            let othern = main_of hashing t.node mp in
            let bound =
              positions_bound (length t.node) (valid.nodes.ends othern)
                (mainposition-lt hashing (length t.node) (key_at t.node mp) valid.nodes.some_node)
                (λ q r e. (valid.nodes.closed q r e).1) in
            let (prev, found, leads) =
              previous_found (length t.node) t.node mp (valid.nodes.ends othern) bound alien
                (valid.nodes.reached mp mp_used) in
            (mp, _, rw (test, found) refl, insert_moved alien prev leads)
      ]

    collide-cases :
        (is_nil (node_at t.node mp).i_val ≡ false) ⊎ (t.dummy ≡ true)
        → ((collide hashing t key mp (getfreepos t.node t.lastfree) ≡ full) × IsFull t)
          ⊎ ((p : ℕ) × (t' : Table N.Num) × (collide hashing t key mp (getfreepos t.node t.lastfree)
                ≡ placed (in_node p) t')
              × Inserts t key p t')
    collide-cases why = elim (getfreepos-cases t.node t.lastfree) [
      | inl (nowhere, all) ↦ inl (rw nowhere refl, full_reason all)
      | inr (n, place, below, empty, rest) ↦ elim why [
        | inr dummy ↦ let none_free = valid.shared dummy in absurd (omega (arith, below, none_free))
        | inl taken ↦
            let (p, t', e, inserts) = collide_placed n below empty rest taken in
            inr (p, t', rw place e, inserts)
      ]
    ]
      where
        full_reason : ((q : ℕ) → q < t.lastfree → is_nil (key_at t.node q) ≡ false) → IsFull t
        full_reason all = elim (Bool-cases t.dummy) [
          | inl dummy ↦ inl dummy
          | inr real ↦ inr (λ q h. elim (dec_lt q t.lastfree) [
            | no past ↦ valid.above real q (omega (arith, past)) h
            | yes before ↦ elim (valid.nodes.status q) [
              | inr (used, in_range) ↦ used
              | inl free ↦
                  let gone : is_nil (key_at t.node q) ≡ true = ap (λ x. is_nil x.i_key) free in
                  let some_key = all q before in absurd (cc)
            ]
          ])
        ]

    newkey_collides :
        (is_nil (node_at t.node mp).i_val ≡ false) ⊎ (t.dummy ≡ true)
        → newkey hashing t key ≡ collide hashing t key mp (getfreepos t.node t.lastfree)
    unfolding newkey
    newkey_collides (inl taken) = rw taken refl
    newkey_collides (inr dummy) = elim (Bool-cases (is_nil (node_at t.node mp).i_val)) [
      | inl empty ↦ rw (empty, dummy) refl
      | inr taken ↦ rw taken refl
    ]

    newkey_full :
        (is_nil (node_at t.node mp).i_val ≡ false) ⊎ (t.dummy ≡ true)
        → ((newkey hashing t key ≡ full) × IsFull t)
          ⊎ ((p : ℕ) × (t' : Table N.Num) × (newkey hashing t key ≡ placed (in_node p) t')
              × Inserts t key p t')
    newkey_full why = elim (collide-cases why) [
      | inl (e, no_place) ↦ inl (newkey_collides why ∙ e, no_place)
      | inr (p, t', e, inserts) ↦ inr (p, t', newkey_collides why ∙ e, inserts)
    ]

    -- For a valid table and a key that it does not have: `newkey` finds no free node only if there is none,
    -- and otherwise gives a node with the key and no value in a valid table of the same size, in which
    -- every key has the value it had. No link is NULL where the code follows it.
    pub newkey-Inserts :
        ((newkey hashing t key ≡ full) × IsFull t)
        ⊎ ((p : ℕ) × (t' : Table N.Num) × (newkey hashing t key ≡ placed (in_node p) t')
            × Inserts t key p t')
    unfolding newkey
    newkey-Inserts = elim (Bool-cases t.dummy) [
      | inl dummy ↦ newkey_full (inr dummy)
      | inr real ↦ elim (Bool-cases (is_nil (node_at t.node mp).i_val)) [
        | inl empty ↦ inr (mp, _, rw (empty, real) refl, insert_empty empty real)
        | inr taken ↦ newkey_full (inl taken)
      ]
    ]
