-- ===== src/Core/Binary/Loads.antt =====
-- What the steps of lundump.c load from a stream that holds the bytes of the format.
use luascript.Prelude.{
  ℕ, ◌+◌, ◌-◌, ◌*◌, ◌^◌, ◌<◌, ◌≡◌, refl, ap, ◌∙◌, sym, subst, true, false, Option, none, some, List,
  [], ◌∷◌, ◌++◌, ◌==◌, leb, arith, append_assoc, if◌then◌else◌, length, length-append, Each,
}
use luascript.Prelude.Bytes.{Bytes, codes}
use luascript.Core.Value.{Number}
use luascript.Core.Stream.{Zio}
use luascript.Core.Stream.Reading.{Holds, luaz_read-take}
use luascript.Core.Binary.{
  Image, Constant, knil, kboolean, knumber, kstring, LocVar, word_bytes, bytes_word, words_bytes,
}
use luascript.Core.Binary.Words.{
  length-word_bytes, bytes_word-word_bytes, take-exact, drop-exact, AreWords, length-words_bytes,
  bytes_words-words_bytes,
}
use luascript.Core.Binary.Undump.{
  ok, L, ◌>>=◌, ◌>>◌, ret, refuse, load_each, load_block, load_char, load_int, load_text,
  load_string, load_vector, load_array, load_locvar, load_number, load_constant, load_values,
}
use luascript.Core.Binary.Format.{
  HasSize, FitsString, FitsConstant, FitsLocvar, string_bytes, vector_bytes, each_bytes,
  array_bytes, locvar_bytes, constant_bytes,
}

module _ {S : Type 0} (reader : S → Option Bytes × S) where
  -- from a stream that holds these bytes the step loads the value, and leaves what is behind them
  abbrev pub Loads : {A : Type 0} → L S A → A → Bytes → Type 0
  Loads m v b =
      (z : Zio S) (rest : Bytes)
      → Holds reader z (b ++ rest)
      → (z' : Zio S) × (m z ≡ (ok v, z')) × Holds reader z' rest

  pub ret-Loads : {A : Type 0} (v : A) → Loads (ret v) v []
  ret-Loads v z rest h = (z, refl, h)

  pub bind-Loads :
      {A B : Type 0} (m : L S A) (f : A → L S B) (a : A) (v : B) (b c : Bytes)
      → Loads m a b
      → Loads (f a) v c
      → Loads (m >>= f) v (b ++ c)
  bind-Loads m f a v b c hm hf z rest h =
      let (z₁, first, h₁) = hm z (c ++ rest) (subst (Holds reader z) (append_assoc b c rest) h) in
      let (z₂, second, h₂) = hf z₁ rest h₁ in (z₂, rw first second, h₂)

  -- the last step of a chain may read nothing
  pub last-Loads :
      {A B : Type 0} (m : L S A) (f : A → L S B) (a : A) (v : B) (b : Bytes)
      → Loads m a b
      → ((z : Zio S) → f a z ≡ (ok v, z))
      → Loads (m >>= f) v b
  last-Loads m f a v b hm hf z rest h =
      let (z₁, first, h₁) = hm z rest h in (z₁, rw first (hf z₁), h₁)

  pub block-Loads : (n : ℕ) (b : Bytes) → length b ≡ n → Loads (load_block reader n) b b
  unfolding load_block
  block-Loads n b e z rest h =
      let (z', run, left) = luaz_read-take reader n z (b ++ rest) h in
      let all : n - length (b ++ rest) ≡ 0 = omega (arith, length-append b rest) in
      (
        z',
        rw (run, all, take-exact n b rest e),
        subst (Holds reader z') (drop-exact n b rest e)
            (left (omega (arith, length-append b rest))),
      )

  -- a word, and a step that uses the number
  word-Loads :
      {B : Type 0} (w n : ℕ) (f : ℕ → L S B) (v : B) (c : Bytes)
      → n < 256 ^ w
      → Loads (f n) v c
      → Loads (load_block reader w >>= λ b. f (bytes_word b)) v (word_bytes w n ++ c)
  word-Loads w n f v c h hf =
      bind-Loads (load_block reader w) (λ b. f (bytes_word b)) (word_bytes w n) v (word_bytes w n) c
        (block-Loads w (word_bytes w n) (length-word_bytes w n))
        (subst (λ k. Loads (f k) v c) (sym (bytes_word-word_bytes w n h)) hf)

  last_word-Loads :
      {B : Type 0} (w n : ℕ) (f : ℕ → L S B) (v : B)
      → n < 256 ^ w
      → ((z : Zio S) → f n z ≡ (ok v, z))
      → Loads (load_block reader w >>= λ b. f (bytes_word b)) v (word_bytes w n)
  last_word-Loads w n f v h hf =
      last-Loads (load_block reader w) (λ b. f (bytes_word b)) (word_bytes w n) v (word_bytes w n)
        (block-Loads w (word_bytes w n) (length-word_bytes w n))
        (λ z. ap (λ k. f k z) (bytes_word-word_bytes w n h) ∙ hf z)

  pub char-Loads : (c : ℕ) → c < 256 → Loads (load_char reader) c (word_bytes 1 c)
  unfolding load_char
  char-Loads c h = last_word-Loads 1 c ret c (omega arith) (λ z. refl)

  pub int-Loads : (x : ℕ) → x < 2 ^ 31 → Loads (load_int reader) x (word_bytes 4 x)
  unfolding load_int
  int-Loads x h =
      let small : leb (2 ^ 31) x ≡ false = ground arith in
      last_word-Loads 4 x (λ n. refuse (leb (2 ^ 31) n) (codes "bad integer") >> ret n) x
        (omega arith) (λ z. rw small)

  text-Loads : (s : Bytes) → Loads (load_text reader (length s + 1)) (some s) (s ++ 0 ∷ [])
  unfolding load_text
  text-Loads s =
      let kept : length s + 1 - 1 ≡ length s = omega arith in
      last-Loads (load_block reader (length s + 1)) _ (s ++ 0 ∷ []) (some s) (s ++ 0 ∷ [])
        (block-Loads (length s + 1) (s ++ 0 ∷ []) (length-append s (0 ∷ [])))
        (λ z. rw (kept, take-exact (length s) s (0 ∷ []) refl))

  pub string-Loads :
      (s : Option Bytes) → FitsString s → Loads (load_string reader) s (string_bytes s)
  unfolding load_string string_bytes
  string-Loads none h =
      last_word-Loads 8 0 (λ size. if size == 0 then ret none else load_text reader size) none
        (omega arith) (λ z. refl)
  string-Loads (some s) h =
      let some_size : (length s + 1 == 0) ≡ false = ground arith in
      word-Loads 8 (length s + 1) (λ size. if size == 0 then ret none else load_text reader size)
        (some s) (s ++ 0 ∷ []) (omega arith) (rw some_size (text-Loads s))

  pub vector-Loads :
      (ns : List ℕ) → HasSize ns → AreWords ns → Loads (load_vector reader) ns (vector_bytes ns)
  unfolding load_vector vector_bytes
  vector-Loads ns h words =
      bind-Loads (load_int reader) _ (length ns) ns (word_bytes 4 (length ns)) (words_bytes ns)
        (int-Loads (length ns) h)
        (last-Loads (load_block reader (length ns * 4)) _ (words_bytes ns) ns (words_bytes ns)
          (block-Loads (length ns * 4) (words_bytes ns) (length-words_bytes ns))
          (λ z. rw (bytes_words-words_bytes ns words)))

  load_each-Loads :
      {A : Type 0} (step : L S A) (P : A → Type 0) (bytes : A → Bytes)
      → ((x : A) → P x → Loads step x (bytes x))
      → (xs : List A) → Each P xs
      → Loads (load_each (length xs) step) xs (each_bytes bytes xs)
  unfolding load_each each_bytes
  load_each-Loads step P bytes one [] h = ret-Loads []
  load_each-Loads step P bytes one (x ∷ xs) h =
      bind-Loads step _ x (x ∷ xs) (bytes x) (each_bytes bytes xs) (one x h.0) (
        last-Loads (load_each (length xs) step) _ xs (x ∷ xs) (each_bytes bytes xs)
          (load_each-Loads step P bytes one xs h.1) (λ z. refl))

  pub array-Loads :
      {A : Type 0} (step : L S A) (P : A → Type 0) (bytes : A → Bytes)
      → ((x : A) → P x → Loads step x (bytes x))
      → (xs : List A) → HasSize xs
      → Each P xs
      → Loads (load_array reader step) xs (array_bytes bytes xs)
  unfolding load_array array_bytes
  array-Loads step P bytes one xs h all =
      bind-Loads (load_int reader) (λ n. load_each n step) (length xs) xs _ _
        (int-Loads (length xs) h) (load_each-Loads step P bytes one xs all)

  pub locvar-Loads : (v : LocVar) → FitsLocvar v → Loads (load_locvar reader) v (locvar_bytes v)
  unfolding load_locvar locvar_bytes
  locvar-Loads v (name, start, stop) =
      bind-Loads (load_string reader) _ v.varname v _ _ (string-Loads v.varname name) (
        bind-Loads (load_int reader) _ v.startpc v _ _ (int-Loads v.startpc start)
          (last-Loads (load_int reader) _ v.endpc v _ (int-Loads v.endpc stop) (λ z. refl)))

  module _ {N : Number} (image : Image N) where
    pub constant-Loads :
        (k : Constant N.Num)
        → FitsConstant k
        → Loads (load_constant reader image) k (constant_bytes image k)
    unfolding load_constant constant_bytes load_number
    constant-Loads knil h =
        last-Loads (load_char reader) _ 0 knil (word_bytes 1 0) (char-Loads 0 (omega arith))
          (λ z. refl)
    constant-Loads (kboolean true) h =
        bind-Loads (load_char reader) _ 1 _ _ _ (char-Loads 1 (omega arith))
          (last-Loads (load_char reader) _ 1 _ _ (char-Loads 1 (omega arith)) (λ z. refl))
    constant-Loads (kboolean false) h =
        bind-Loads (load_char reader) _ 1 _ _ _ (char-Loads 1 (omega arith))
          (last-Loads (load_char reader) _ 0 _ _ (char-Loads 0 (omega arith)) (λ z. refl))
    constant-Loads (knumber n) h =
        bind-Loads (load_char reader) _ 3 _ _ _ (char-Loads 3 (omega arith)) (
          last-Loads (load_block reader 8 >>= λ b. ret (image.of_bytes b)) _ n _ _
            (last-Loads (load_block reader 8) _ (image.to_bytes n) n _
              (block-Loads 8 (image.to_bytes n) (image.length-to_bytes n))
              (λ z. rw (image.of_bytes-to_bytes n)))
            (λ z. refl))
    constant-Loads (kstring s) h =
        bind-Loads (load_char reader) _ 4 _ _ _ (char-Loads 4 (omega arith))
          (last-Loads (load_string reader) _ s _ _ (string-Loads s h) (λ z. refl))

    pub values-Loads :
        (k : List (Constant N.Num))
        → HasSize k
        → Each FitsConstant k
        → Loads (load_values reader image) k (array_bytes (constant_bytes image) k)
    unfolding load_values
    values-Loads k size all =
        array-Loads (load_constant reader image) FitsConstant (constant_bytes image) constant-Loads
          k size all
