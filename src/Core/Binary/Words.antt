-- ===== src/Core/Binary/Words.antt =====
-- Machine words as bytes.
use luascript.Prelude.{
  ℕ, zero, suc, ◌*◌, ◌/◌, ◌^◌, ◌<◌, ◌≡◌, refl, ap, List, [], ◌∷◌, ◌++◌, arith, length,
  length-append, take, drop,
}
use native.Mathlib.Nat.{pow-suc}
use luascript.Core.Binary.{word_bytes, bytes_word, words_bytes, bytes_words}

pub length-word_bytes : (w n : ℕ) → length (word_bytes w n) ≡ w
unfolding word_bytes
length-word_bytes zero n = refl
length-word_bytes (suc w) n = ap suc (length-word_bytes w (n / 256))

pub bytes_word-word_bytes : (w n : ℕ) → n < 256 ^ w → bytes_word (word_bytes w n) ≡ n
unfolding word_bytes bytes_word
bytes_word-word_bytes zero n h = omega (arith, h)
bytes_word-word_bytes (suc w) n h =
    omega (arith, pow-suc 256 w, bytes_word-word_bytes w (n / 256) (omega (arith, pow-suc 256 w)))

module _ {ℓ} {A : Type ℓ} where
  pub take-exact : (n : ℕ) (xs ys : List A) → length xs ≡ n → take n (xs ++ ys) ≡ xs
  take-exact zero [] ys h = refl
  take-exact zero (x ∷ xs) ys h = absurd (omega arith)
  take-exact (suc n) [] ys h = absurd (omega arith)
  take-exact (suc n) (x ∷ xs) ys h = ap (λ t. x ∷ t) (take-exact n xs ys (omega arith))

  pub drop-exact : (n : ℕ) (xs ys : List A) → length xs ≡ n → drop n (xs ++ ys) ≡ ys
  drop-exact zero [] ys h = refl
  drop-exact zero (x ∷ xs) ys h = absurd (omega arith)
  drop-exact (suc n) [] ys h = absurd (omega arith)
  drop-exact (suc n) (x ∷ xs) ys h = drop-exact n xs ys (omega arith)

abbrev pub AreWords : List ℕ → Type 0
AreWords [] = Unit
AreWords (n ∷ ns) = (n < 2 ^ 32) × AreWords ns

pub length-words_bytes : (ns : List ℕ) → length (words_bytes ns) ≡ length ns * 4
unfolding words_bytes
length-words_bytes [] = refl
length-words_bytes (n ∷ ns) = omega (
  arith,
  length-append (word_bytes 4 n) (words_bytes ns),
  length-word_bytes 4 n,
  length-words_bytes ns,
)

pub bytes_words-words_bytes :
    (ns : List ℕ) → AreWords ns → bytes_words (length ns) (words_bytes ns) ≡ ns
unfolding bytes_words words_bytes
bytes_words-words_bytes [] h = refl
bytes_words-words_bytes (n ∷ ns) h =
    let four = length-word_bytes 4 n in
    rw (
      take-exact 4 (word_bytes 4 n) (words_bytes ns) four,
      drop-exact 4 (word_bytes 4 n) (words_bytes ns) four,
      bytes_word-word_bytes 4 n (omega arith),
      bytes_words-words_bytes ns h.1,
    )
