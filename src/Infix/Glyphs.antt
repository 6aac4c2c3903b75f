-- ===== src/Infix/Glyphs.antt =====
-- The characters of the operators are not brackets, and are positive.
use ics7_os.Common.{◌<◌, ◌≡◌, refl, true, false, pos, eqb_ℤ, ltb_ℤ, arith}
use ics7_os.Infix.{Op, plus, minus, times, over, rem, glyph, rank, lparen, rparen}

pub glyph-ne-lparen : (o : Op) → eqb_ℤ (glyph o) lparen ≡ false
glyph-ne-lparen plus = refl
glyph-ne-lparen minus = refl
glyph-ne-lparen times = refl
glyph-ne-lparen over = refl
glyph-ne-lparen rem = refl

pub glyph-ne-rparen : (o : Op) → eqb_ℤ (glyph o) rparen ≡ false
glyph-ne-rparen plus = refl
glyph-ne-rparen minus = refl
glyph-ne-rparen times = refl
glyph-ne-rparen over = refl
glyph-ne-rparen rem = refl

pub glyph-pos : (o : Op) → (ltb_ℤ (pos 0) (glyph o) ≡ true) × (ltb_ℤ (glyph o) (pos 0) ≡ false)
glyph-pos plus = (refl, refl)
glyph-pos minus = (refl, refl)
glyph-pos times = (refl, refl)
glyph-pos over = (refl, refl)
glyph-pos rem = (refl, refl)

pub rank_positive : (o : Op) → 0 < rank o
rank_positive plus = omega arith
rank_positive minus = omega arith
rank_positive times = omega arith
rank_positive over = omega arith
rank_positive rem = omega arith
