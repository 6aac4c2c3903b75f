-- ===== src/ProducerConsumer/Letters.antt =====
-- The characters that the producers write: 'a' and those behind it, as a signed char counts.
use ics7_os.Common.{
  ap₂, ℕ, zero, suc, ◌+◌, ◌≡◌, refl, List, [], ◌∷◌, ◌++◌, ℤ, pos, ◌+ℤ◌, to_char, length,
  length-append, arith,
}

unfoldable pub letter : ℕ → ℤ
letter n = to_char (pos (b'a' + n))

unfoldable pub letters : ℕ → List ℤ
letters zero = []
letters (suc n) = letters n ++ letter n ∷ []

pub letter_next : (n : ℕ) → to_char (letter n +ℤ pos 1) ≡ letter (n + 1)
unfolding letter to_char
letter_next n = ground arith

pub length-letters : (n : ℕ) → length (letters n) ≡ n
unfolding letters
length-letters zero = refl
length-letters (suc n) = omega (arith, length-append (letters n) (letter n ∷ []), length-letters n)

-- A list of the first letters, with the next one behind it.
pub letters_grow :
    (l : List ℤ) (x : ℤ)
    → l ≡ letters (length l)
    → x ≡ letter (length l)
    → l ++ x ∷ [] ≡ letters (length (l ++ x ∷ []))
unfolding letters
letters_grow l x p q = rw (length_snoc l x) (ap₂ (λ a b. a ++ b ∷ []) p q)
  where
    length_snoc : (l : List ℤ) (x : ℤ) → length (l ++ x ∷ []) ≡ suc (length l)
    length_snoc l x = omega (arith, length-append l (x ∷ []))
