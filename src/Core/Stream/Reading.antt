-- ===== src/Core/Stream/Reading.antt =====
-- `luaZ_read` reads the bytes that the reader delivers, whatever the blocks are that it cuts them into.
use luascript.Prelude.{
  ℕ, zero, suc, ◌+◌, ◌-◌, ◌≤◌, ◌<◌, ◌≡◌, refl, ap, ◌∙◌, sym, subst, ◌⊎◌, inl, inr, false, Option,
  none, some, [], ◌∷◌, ◌++◌, arith, leb, ◌==◌, length, take, drop, length-append, length-drop,
  if◌then◌else◌,
}
use luascript.Prelude.Bytes.{Bytes}
use luascript.Core.Stream.{Zio, advance, fill, lookahead, read_loop, copied, luaz_read}

take_nil : (n : ℕ) → take n (◌++◌ {A = ℕ} [] []) ≡ []
take_nil zero = refl
take_nil (suc n) = refl

drop_nil : (n : ℕ) → drop n (◌++◌ {A = ℕ} [] []) ≡ []
drop_nil zero = refl
drop_nil (suc n) = refl

take-then : (m k : ℕ) (xs : Bytes) → take m xs ++ take k (drop m xs) ≡ take (m + k) xs
take-then zero k xs = ground arith
take-then (suc m) k [] = take_nil k ∙ sym (take_nil (suc m + k))
take-then (suc m) k (x ∷ xs) =
    let e : suc m + k ≡ suc (m + k) = omega arith in rw (e, take-then m k xs)

drop-then : (m k : ℕ) (xs : Bytes) → drop k (drop m xs) ≡ drop (m + k) xs
drop-then zero k xs = ground arith
drop-then (suc m) k [] = drop_nil k ∙ sym (drop_nil (suc m + k))
drop-then (suc m) k (x ∷ xs) =
    let e : suc m + k ≡ suc (m + k) = omega arith in rw (e, drop-then m k xs)

within :
    (m : ℕ) (p tail : Bytes)
    → m ≤ length p
    → (take m (p ++ tail) ≡ take m p) × (drop m (p ++ tail) ≡ drop m p ++ tail)
within zero p tail h = (refl, refl)
within (suc m) [] tail h = absurd (omega arith)
within (suc m) (x ∷ p) tail h = let (t, d) = within m p tail (omega arith) in (ap (λ u. x ∷ u) t, d)

module _ {S : Type 0} (reader : S → Option Bytes × S) where
  -- the reader delivers these bytes before its end, which is NULL or an empty block
  pub data Delivers : S → Bytes → Type 0 where
    delivers_null : (d d' : S) → reader d ≡ (none, d') → Delivers d []
    delivers_empty : (d d' : S) → reader d ≡ (some [], d') → Delivers d []
    delivers_block :
        (d d' : S) (c : ℕ) (cs bs : Bytes)
        → reader d ≡ (some (c ∷ cs), d')
        → Delivers d' bs
        → Delivers d (c ∷ (cs ++ bs))

  -- a stream with these bytes before its end, in its block and still to be delivered
  pub record Holds (z : Zio S) (bs : Bytes) : Type 0 where
    pub tail : Bytes
    pub in_block : z.n ≡ length z.p
    pub delivered : Delivers z.data_ tail
    pub joined : z.p ++ tail ≡ bs

  -- what `luaZ_lookahead` finds: the end, or a byte of a block that is not empty
  abbrev Looks : Zio S → Bytes → Type 0
  Looks z bs =
      ((bs ≡ []) × ((z' : Zio S) × (lookahead reader z ≡ (none, z'))))
      ⊎ ((c : ℕ) × (z' : Zio S) × (lookahead reader z ≡ (some c, z')) × Holds z' bs × (0 < z'.n))

  lookahead_fills :
      (z : Zio S) (d : S) (bs : Bytes) → z.n ≡ 0 → z.data_ ≡ d → Delivers d bs → Looks z bs
  unfolding lookahead fill
  lookahead_fills z d _ h e (delivers_null _ d' r) =
      inl (refl, (record z { data_ = d' }, rw (h, e, r)))
  lookahead_fills z d _ h e (delivers_empty _ d' r) =
      inl (refl, (record z { data_ = d' }, rw (h, e, r)))
  lookahead_fills z d _ h e (delivers_block _ d' c cs bs r more) =
      let z' : Zio S = record { n = length cs + 1; p = c ∷ cs; data_ = d' } in
      inr (
        c,
        z',
        rw (h, e, r),
        record { tail = bs; in_block = omega arith; delivered = more; joined = refl },
        omega arith,
      )

  lookahead_reads : (z : Zio S) (p bs : Bytes) → z.p ≡ p → z.n ≡ length p → Holds z bs → Looks z bs
  unfolding lookahead
  lookahead_reads z [] bs hp hn holds =
      lookahead_fills z z.data_ bs hn refl (
        subst (Delivers z.data_) (ap (λ t. t ++ holds.tail) (sym hp) ∙ holds.joined)
          holds.delivered)
  lookahead_reads z (c ∷ q) bs hp hn holds = inr (c, z, ground (arith, hn, hp), holds, omega arith)

  -- after the first m bytes of the block
  advance-Holds :
      (z : Zio S) (bs : Bytes) (m : ℕ) → m ≤ z.n → Holds z bs → Holds (advance m z) (drop m bs)
  advance-Holds z bs m h holds = record {
    tail = holds.tail;
    in_block = omega (arith, length-drop m z.p, holds.in_block);
    delivered = holds.delivered;
    joined =
        sym (within m z.p holds.tail (omega (arith, holds.in_block))).1 ∙ ap (drop m) holds.joined;
  }

  taken : (z : Zio S) (bs : Bytes) (m : ℕ) → m ≤ z.n → Holds z bs → take m z.p ≡ take m bs
  taken z bs m h holds =
      sym (within m z.p holds.tail (omega (arith, holds.in_block))).0 ∙ ap (take m) holds.joined

  abbrev Reads : ℕ → Bytes → Option (ℕ × Bytes × Zio S) → Type 0
  Reads n bs r =
      (z' : Zio S) × (r ≡ some (n - length bs, take n bs, z'))
      × (n ≤ length bs → Holds z' (drop n bs))

  copied-Reads :
      (n m : ℕ) (bs : Bytes) (r : Option (ℕ × Bytes × Zio S))
      → m ≤ n
      → m ≤ length bs
      → Reads (n - m) (drop m bs) r
      → Reads n bs (copied reader (take m bs) r)
  copied-Reads n m bs r h k (z', e, rest) =
      let missing : (n - m) - length (drop m bs) ≡ n - length bs =
        omega (arith, length-drop m bs) in
      let all : m + (n - m) ≡ n = omega arith in
      (
        z',
        rw (e, missing, take-then m (n - m) bs, all) refl,
        λ enough.
            subst (Holds z') (drop-then m (n - m) bs ∙ ap (λ t. drop t bs) all)
              (rest (omega (arith, length-drop m bs))),
      )

  abbrev amount : ℕ → ℕ → ℕ
  amount n room = if leb n room then n else room

  amount_bounds :
      (n room : ℕ)
      → (amount n room ≤ n) × (amount n room ≤ room) × (0 < n → 0 < room → 0 < amount n room)
  amount_bounds n room = (ground arith, ground arith, λ h k. ground arith)

  length-Holds : (z : Zio S) (bs : Bytes) → Holds z bs → z.n ≤ length bs
  length-Holds z bs holds =
      omega (arith, holds.in_block, length-append z.p holds.tail, ap length holds.joined)

  read_loop-Reads :
      (k n : ℕ) (z : Zio S) (bs : Bytes) → n ≤ k → Holds z bs → Reads n bs (read_loop reader k n z)
  unfolding read_loop
  read_loop-Reads zero zero z bs h holds = (z, ground arith, λ enough. holds)
  read_loop-Reads zero (suc n) z bs h holds = absurd (omega arith)
  read_loop-Reads (suc k) zero z bs h holds = (z, ground arith, λ enough. holds)
  read_loop-Reads (suc k) (suc n) z bs h holds =
      let more : (suc n == 0) ≡ false = ground arith in
      elim (lookahead_reads z z.p bs refl holds.in_block holds) [
        | inl (e, (z', l)) ↦
            (z', rw (more, l, e) (ground arith), λ enough. absurd (omega (arith, ap length e)))
        | inr (c, z', l, holds', room) ↦
            let m = amount (suc n) z'.n in
            let (m_n, m_room, some_m) = amount_bounds (suc n) z'.n in
            let fits = length-Holds z' bs holds' in
            let positive = some_m (omega arith) room in
            let later =
              read_loop-Reads k (suc n - m) (advance m z') (drop m bs) (omega arith)
                (advance-Holds z' bs m m_room holds') in
            let whole = copied-Reads (suc n) m bs _ m_n (omega arith) later in
            rw (more, l, taken z' bs m m_room holds') whole
      ]

  -- `luaZ_read` of n bytes from a stream that holds the bytes bs before its end writes the first n of
  -- them, or all if there are fewer, and returns the number of those that are missing; if none is, the
  -- stream then holds the bytes behind them. n rounds of the loop are enough.
  pub luaz_read-take :
      (n : ℕ) (z : Zio S) (bs : Bytes)
      → Holds z bs
      → (z' : Zio S) × (luaz_read reader n z ≡ some (n - length bs, take n bs, z'))
        × (n ≤ length bs → Holds z' (drop n bs))
  unfolding luaz_read
  luaz_read-take n z bs holds = read_loop-Reads n n z bs (omega arith) holds
