-- ===== src/Infix.antt =====
-- What unix-lab-02/task3/lab_4_9 converts: infix arithmetic over the operators of C, each operator
-- associating to the left, and the postfix form of an expression. The source has no such type; it
-- is the description that both converters are held against.
pub mod Ascii
pub mod Glyphs
use ics7_os.Common.{ℕ, suc, ◌≤◌, ◌≡◌, Bool, true, false, List, [], ◌∷◌, ◌++◌, ℤ, pos}

abbrev pub lparen : ℤ
lparen = pos b'('

abbrev pub rparen : ℤ
rparen = pos b')'

pub data Op : Type 0 where
  plus minus times over rem : Op

abbrev pub glyph : Op → ℤ
glyph plus = pos b'+'
glyph minus = pos b'-'
glyph times = pos b'*'
glyph over = pos b'/'
glyph rem = pos b'%'

-- How tightly an operator binds.
abbrev pub rank : Op → ℕ
rank plus = 1
rank minus = 1
rank times = 2
rank over = 2
rank rem = 2

pub data Expr : Type 0 where
  operand : ℤ → Expr
  paren : Expr → Expr
  bin : Op → Expr → Expr → Expr

unfoldable pub print : Expr → List ℤ
print (operand c) = c ∷ []
print (paren e) = lparen ∷ (print e ++ rparen ∷ [])
print (bin o a b) = print a ++ glyph o ∷ print b

unfoldable pub postfix : Expr → List ℤ
postfix (operand c) = c ∷ []
postfix (paren e) = postfix e
postfix (bin o a b) = postfix a ++ (postfix b ++ glyph o ∷ [])

-- `isalnum` of <ctype.h>: documented to hold of letters and digits only.
pub record Ctype : Type 0 where
  pub isalnum : ℤ → Bool
  pub lparen_not : isalnum lparen ≡ false
  pub rparen_not : isalnum rparen ≡ false
  pub glyph_not : (o : Op) → isalnum (glyph o) ≡ false

-- The text of `e` reads back as `e` where an operator of rank `l` or more is allowed: the left
-- operand binds at least as tightly as its operator, the right one more tightly.
abbrev pub Fits : Ctype → ℕ → Expr → Type 0
Fits t l (operand c) = t.isalnum c ≡ true
Fits t l (paren e) = Fits t 1 e
Fits t l (bin o a b) = (l ≤ rank o) × Fits t (rank o) a × Fits t (suc (rank o)) b
