-- ===== src/Infix/Ascii.antt =====
-- `isalnum` in the C locale: an instance of what the conversions take of <ctype.h>.
use ics7_os.Common.{ℕ, ◌≡◌, refl, Bool, false, ◌&&◌, ◌||◌, ℤ, pos, leb_ℤ}
use ics7_os.Infix.{Op, plus, minus, times, over, rem, glyph, Ctype}

abbrev between : ℕ → ℕ → ℤ → Bool
between lo hi c = leb_ℤ (pos lo) c && leb_ℤ c (pos hi)

abbrev pub is_alnum : ℤ → Bool
is_alnum c = between b'0' b'9' c || between b'a' b'z' c || between b'A' b'Z' c

pub is_alnum-glyph : (o : Op) → is_alnum (glyph o) ≡ false
is_alnum-glyph plus = refl
is_alnum-glyph minus = refl
is_alnum-glyph times = refl
is_alnum-glyph over = refl
is_alnum-glyph rem = refl

abbrev pub ascii : Ctype
ascii = record {
  isalnum = is_alnum;
  lparen_not = refl;
  rparen_not = refl;
  glyph_not = is_alnum-glyph;
}
