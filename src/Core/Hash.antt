-- ===== src/Core/Hash.antt =====
-- The hash part of tables: luascript/lua/ltable.c, a chained scatter table with Brent's variation. A node is
-- told by its index; `next` is `none` for NULL. `dummynode` is the shared node of an empty hash part: a
-- vector of this one node, with `lastfree` at its start. Dead keys, which the collector leaves, the
-- barrier and the cache of metamethods are left out.
pub mod Behind
pub mod Change
pub mod Empty
pub mod Equal
pub mod Insert
pub mod Links
pub mod Get
pub mod Put
pub mod Moved
pub mod Places
pub mod Set
pub mod WellFormed
pub mod Written
use Prim.Native.Nat.{bit_or}
use mathlib.Core.Option
use luascript.Prelude.{
  ℕ, zero, suc, ◌+◌, ◌-◌, ◌%◌, ◌^◌, ◌≡◌, Bool, true, false, not, ◌&&◌, ◌||◌, Option, none, some,
  List, [], ◌∷◌, ◌==◌, ltb, leb, if◌then◌else◌, length, get_or, set,
}
use luascript.Prelude.Bytes.{Bytes, bytes_eq, codes}
use luascript.Prelude.Int.{ℤ, pos, negsuc}
use luascript.Core.Value.{
  Number, Value, nil, boolean, light, number, str, object, Kind, table, function, userdata, thread,
}
use luascript.Core.Strings.{hash_of, lmod}

abbrev pub same_bool : Bool → Bool → Bool
same_bool true b = b
same_bool false b = not b

abbrev pub same_kind : Kind → Kind → Bool
same_kind table table = true
same_kind function function = true
same_kind userdata userdata = true
same_kind thread thread = true
same_kind _ _ = false

-- `luaO_rawequalObj`; equal strings are one object
abbrev pub raw_equal : (N : Number) → Value N.Num → Value N.Num → Bool
raw_equal N nil nil = true
raw_equal N (number n) (number m) = N.num_eq n m
raw_equal N (boolean b) (boolean c) = same_bool b c
raw_equal N (light p) (light q) = p == q
raw_equal N (str s) (str t) = bytes_eq s t
raw_equal N (object j a) (object k b) = same_kind j k && a == b
raw_equal N _ _ = false

-- How a number lies in memory, as unsigned ints, and what IEEE arithmetic says of `==`: the words of equal
-- numbers other than 0 are the same, equal numbers are converted to one `int`, and an `int` is no NaN
pub record Hashing (N : Number) : Type 0 where
  pub words : N.Num → List ℕ
  pub num_eq_sym : (a b : N.Num) → N.num_eq a b ≡ true → N.num_eq b a ≡ true
  pub num_eq_trans :
      (a b c : N.Num) → N.num_eq a b ≡ true → N.num_eq b c ≡ true → N.num_eq a c ≡ true
  pub words_eq :
      (a b : N.Num)
      → N.num_eq a b ≡ true
      → N.num_eq a (N.of_int (pos 0)) ≡ false
      → words a ≡ words b
  pub of_int_eq : (z : ℤ) → N.num_eq (N.of_int z) (N.of_int z) ≡ true
  pub to_int_eq : (a b : N.Num) → N.num_eq a b ≡ true → N.to_int a ≡ N.to_int b

pub record Node (Num : Type 0) : Type 0 where
  pub i_val : Value Num
  pub i_key : Value Num
  pub next : Option ℕ

pub record Table (Num : Type 0) : Type 0 where
  pub array : List (Value Num)
  pub node : List (Node Num)
  pub lastfree : ℕ
  pub dummy : Bool

-- where a value is kept: what a `TValue *` into a table points to
pub data Slot : Type 0 where
  in_array in_node : ℕ → Slot

module _ {Num : Type 0} where
  abbrev pub is_nil : Value Num → Bool
  is_nil nil = true
  is_nil _ = false

  abbrev pub blank : Node Num
  blank = record { i_val = nil; i_key = nil; next = none }

  abbrev pub node_at : List (Node Num) → ℕ → Node Num
  node_at nodes p = get_or nodes p blank

  abbrev pub sizenode : Table Num → ℕ
  sizenode t = length t.node

  unfoldable pub value_at : Table Num → Slot → Value Num
  value_at t (in_array i) = get_or t.array i nil
  value_at t (in_node p) = (node_at t.node p).i_val

  -- a write through the pointer
  unfoldable pub put : Slot → Value Num → Table Num → Table Num
  put (in_array i) v t = record t { array = set t.array i v }
  put (in_node p) v t = record t { node = set t.node p (record (node_at t.node p) { i_val = v }) }

  -- `do { if (hit) return n; else n = gnext(n); } while (n)`, with rounds left
  unfoldable pub walk : ℕ → (Node Num → Bool) → List (Node Num) → ℕ → Option ℕ
  walk zero hit nodes p = none
  walk (suc k) hit nodes p =
      let later : Option ℕ = elim (node_at nodes p).next [
        | none ↦ none
        | some q ↦ walk k hit nodes q
      ] in
      if hit (node_at nodes p) then some p else later

  -- `while (t->lastfree-- > t->node)` down from an index: the free place and the new `lastfree`
  unfoldable pub getfreepos : List (Node Num) → ℕ → Option ℕ × ℕ
  getfreepos nodes zero = (none, 0)
  getfreepos nodes (suc f) =
      let lower = getfreepos nodes f in
      if is_nil (node_at nodes f).i_key then (some f, f) else lower

  -- `while (gnext(othern) != mp) othern = gnext(othern)`, with rounds left; `none` at NULL
  unfoldable pub previous : ℕ → List (Node Num) → ℕ → ℕ → Option ℕ
  previous zero nodes mp othern = none
  previous (suc k) nodes mp othern = elim (node_at nodes othern).next [
    | none ↦ none
    | some q ↦ let later = previous k nodes mp q in if q == mp then some othern else later
  ]

  abbrev pub set_key : Value Num → List (Node Num) → ℕ → List (Node Num)
  set_key key nodes p = set nodes p (record (node_at nodes p) { i_key = key })

  -- the colliding node is in its main position: the new node goes to `n`, behind it
  abbrev pub chain_behind : Value Num → ℕ → ℕ → List (Node Num) → List (Node Num)
  chain_behind key mp n nodes =
      let nodes₁ = set nodes n (record (node_at nodes n) { next = (node_at nodes mp).next }) in
      set_key key (set nodes₁ mp (record (node_at nodes₁ mp) { next = some n })) n

  -- it is not, and `prev` points to it: it moves to `n`
  abbrev pub move_away : Value Num → ℕ → ℕ → ℕ → List (Node Num) → List (Node Num)
  move_away key mp n prev nodes =
      let nodes₁ = set nodes prev (record (node_at nodes prev) { next = some n }) in
      let nodes₂ = set nodes₁ n (node_at nodes₁ mp) in
      set nodes₂ mp (record { i_val = nil; i_key = key; next = none })

-- what `newkey` and `luaH_set` end with: a slot and the table; a table that `rehash` has to grow; an error
-- of Lua; or a NULL pointer read
pub data Setting (Num : Type 0) : Type 0 where
  placed : Slot → Table Num → Setting Num
  full : Setting Num
  raised : Bytes → Setting Num
  undefined : Setting Num

module _ {N : Number} (hashing : Hashing N) where
  open hashing use {words}

  abbrev pub hashpow2 : ℕ → ℕ → ℕ
  hashpow2 size n = lmod n size

  abbrev pub hashmod : ℕ → ℕ → ℕ
  hashmod size n = n % bit_or (size - 1) 1

  unfoldable pub sum_words : List ℕ → ℕ
  sum_words [] = 0
  sum_words (w ∷ ws) = (w + sum_words ws) % 2 ^ 32

  unfoldable pub hashnum : ℕ → N.Num → ℕ
  unfolding sum_words
  hashnum size n = if N.num_eq n (N.of_int (pos 0)) then 0 else hashmod size (sum_words (words n))

  -- `bvalue` of a key is 0 or 1; a key is never nil
  unfoldable pub mainposition : ℕ → Value N.Num → ℕ
  unfolding hashnum
  mainposition size (number n) = hashnum size n
  mainposition size (str s) = hashpow2 size (hash_of s)
  mainposition size (boolean b) = hashpow2 size (if b then 1 else 0)
  mainposition size (light p) = hashmod size (p % 2 ^ 32)
  mainposition size (object k a) = hashmod size (a % 2 ^ 32)
  mainposition size nil = 0

  abbrev pub is_number : N.Num → Value N.Num → Bool
  is_number n (number m) = N.num_eq m n
  is_number n _ = false

  abbrev pub is_string : Bytes → Value N.Num → Bool
  is_string s (str t) = bytes_eq t s
  is_string s _ = false

  abbrev pub found : Option ℕ → Option Slot
  found o = Option.map in_node o

  -- `cast(unsigned int, key-1) < cast(unsigned int, t->sizearray)`
  abbrev pub in_range : ℤ → ℕ → Bool
  in_range (pos (suc i)) size = ltb i size
  in_range _ size = false

  abbrev pub array_slot : ℤ → Slot
  array_slot (pos i) = in_array (i - 1)
  array_slot (negsuc i) = in_array 0

  unfoldable pub luah_getnum : Table N.Num → ℤ → Option Slot
  unfolding walk hashnum
  luah_getnum t key =
      let nk = N.of_int key in
      let n = hashnum (sizenode t) nk in
      if in_range key (length t.array)
      then some (array_slot key)
      else found (walk (sizenode t) (λ x. is_number nk x.i_key) t.node n)

  unfoldable pub luah_getstr : Table N.Num → Bytes → Option Slot
  unfolding walk
  luah_getstr t key =
      let n = hashpow2 (sizenode t) (hash_of key) in
      found (walk (sizenode t) (λ x. is_string key x.i_key) t.node n)

  -- the default case of `luaH_get`
  unfoldable pub get_generic : Table N.Num → Value N.Num → Option Slot
  unfolding walk mainposition
  get_generic t key =
      let n = mainposition (sizenode t) key in
      found (walk (sizenode t) (λ x. raw_equal N x.i_key key) t.node n)

  -- `none` is `luaO_nilobject`
  unfoldable pub luah_get : Table N.Num → Value N.Num → Option Slot
  unfolding luah_getnum luah_getstr get_generic
  luah_get t nil = none
  luah_get t (str s) = luah_getstr t s
  luah_get t (number n) =
      let k = N.to_int n in
      if N.num_eq (N.of_int k) n then luah_getnum t k else get_generic t (number n)
  luah_get t key = get_generic t key

  -- `newkey` where the main position is taken, with what `getfreepos` gives
  abbrev pub collide : Table N.Num → Value N.Num → ℕ → Option ℕ × ℕ → Setting N.Num
  collide t key mp (none, lastfree) = full
  collide t key mp (some n, lastfree) =
      let othern = mainposition (sizenode t) (node_at t.node mp).i_key in
      let kept =
        placed (in_node n)
          (record t { node = chain_behind key mp n t.node; lastfree = lastfree }) in
      let moved : Setting N.Num = elim (previous (sizenode t) t.node mp othern) [
        | none ↦ undefined
        | some prev ↦
            placed (in_node mp)
              (record t { node = move_away key mp n prev t.node; lastfree = lastfree })
      ] in
      if othern == mp then kept else moved

  unfoldable pub newkey : Table N.Num → Value N.Num → Setting N.Num
  unfolding mainposition getfreepos previous
  newkey t key =
      let mp = mainposition (sizenode t) key in
      if not (is_nil (node_at t.node mp).i_val) || t.dummy
      then collide t key mp (getfreepos t.node t.lastfree)
      else placed (in_node mp) (record t { node = set_key key t.node mp })

  abbrev pub is_nan : Value N.Num → Bool
  is_nan (number n) = not (N.num_eq n n)
  is_nan _ = false

  unfoldable pub luah_set : Table N.Num → Value N.Num → Setting N.Num
  unfolding luah_get newkey
  luah_set t key = elim (luah_get t key) [
    | some slot ↦ placed slot t
    | none ↦
        if is_nil key
        then raised (codes "table index is nil")
        else if is_nan key
        then raised (codes "table index is NaN")
        else newkey t key
  ]
