-- ===== src/ListStack/Order.antt =====
-- The order in which the list converter writes the operators of a chain `c o1 b1 o2 b2 ...`: right
-- where all bind alike and no bracket stands round them, and from the last to the first in
-- brackets.
use ics7_os.Common.{
  ℕ, ◌+◌, ◌<◌, ◌≡◌, ◌≢◌, refl, ap, ◌∙◌, sym, true, some, List, [], ◌∷◌, ◌++◌, append_assoc,
  append-nil, ℤ, length, All, IsChar, arith, leb_of_le, leb_of_gt, lt→ltb,
}
use ics7_os.Infix.{
  Op, plus, minus, times, over, rem, glyph, rank, Expr, operand, paren, bin, print, postfix, Ctype,
  lparen, rparen,
}
use ics7_os.Infix.Glyphs.{glyph-ne-lparen, glyph-ne-rparen, glyph-pos, rank_positive}
use ics7_os.ArrayStack.{max_size}
use ics7_os.Memory.{null}
use ics7_os.ListStack.{Heap, Allocator, precedence_list, infix_to_postfix_list}
use ics7_os.ListStack.Reference.{last_of, group, higher, flush, token_step, tokens, convert}
use ics7_os.ListStack.Refine.{infix_to_postfix_list-convert}

-- An operator and its right operand.
abbrev pub Links : Type 0
Links = List (Op × ℤ)

-- The chain as C reads it when all its operators bind alike.
unfoldable pub chain : Expr → Links → Expr
chain e [] = e
chain e ((o, b) ∷ r) = chain (bin o e (operand b)) r

abbrev links : Links → List ℤ
links [] = []
links ((o, b) ∷ r) = glyph o ∷ b ∷ links r

abbrev tail : Links → List ℤ
tail [] = []
tail ((o, b) ∷ r) = b ∷ glyph o ∷ tail r

unfoldable pub operands : Links → List ℤ
operands [] = []
operands ((o, b) ∷ r) = b ∷ operands r

-- The operators of the chain, the last one first, before `rest`.
unfoldable pub backwards : Links → List ℤ → List ℤ
backwards [] rest = rest
backwards ((o, b) ∷ r) rest = backwards r (glyph o ∷ rest)

print-chain : (e : Expr) (r : Links) → print (chain e r) ≡ print e ++ links r
unfolding print chain
print-chain e [] = rw append-nil
print-chain e ((o, b) ∷ r) =
    print-chain (bin o e (operand b)) r ∙ append_assoc (print e) (glyph o ∷ b ∷ []) (links r)

postfix-chain : (e : Expr) (r : Links) → postfix (chain e r) ≡ postfix e ++ tail r
unfolding postfix chain
postfix-chain e [] = rw append-nil
postfix-chain e ((o, b) ∷ r) =
    postfix-chain (bin o e (operand b)) r ∙ append_assoc (postfix e) (b ∷ glyph o ∷ []) (tail r)

precedence_list-glyph : (o : Op) → precedence_list (glyph o) ≡ rank o
unfolding precedence_list
precedence_list-glyph plus = refl
precedence_list-glyph minus = refl
precedence_list-glyph times = refl
precedence_list-glyph over = refl
precedence_list-glyph rem = refl

-- The operators `acc` above an opening bracket.
abbrev opened : List Op → List ℤ
opened [] = lparen ∷ []
opened (o ∷ acc) = glyph o ∷ opened acc

abbrev glyphs : List Op → List ℤ
glyphs [] = []
glyphs (o ∷ acc) = glyph o ∷ glyphs acc

length-opened : (acc : List Op) → length (opened acc) ≡ length acc + 1
length-opened [] = refl
length-opened (o ∷ acc) = omega (arith, length-opened acc)

group-opened : (acc : List Op) → group (opened acc) ≡ ([], glyphs acc)
unfolding group
group-opened [] = refl
group-opened (o ∷ acc) = rw (
  glyph-ne-lparen o,
  lt→ltb 0 (length (opened acc)) (omega (arith, length-opened acc)),
  group-opened acc,
)

last_of-opened : (x : ℤ) (acc : List Op) → last_of x (opened acc) ≡ lparen
last_of-opened x [] = refl
last_of-opened x (o ∷ acc) = last_of-opened (glyph o) acc

higher-opened : (o : Op) (acc : List Op) → higher (rank o) (opened acc) ≡ (opened acc, [])
unfolding higher precedence_list
higher-opened o [] = rw (leb_of_gt (rank o) 0 (rank_positive o))
higher-opened o (o' ∷ acc) =
    rw (last_of-opened (glyph o') acc) (rw (leb_of_gt (rank o) 0 (rank_positive o)))

module _ (t : Ctype) where
  abbrev Alnum : Links → Type 0
  Alnum = All (λ l. t.isalnum l.1 ≡ true)

  abbrev run : List ℤ → List ℤ → List ℤ
  run ts xs = (tokens t.isalnum ts xs).1 ++ flush (tokens t.isalnum ts xs).0

  run-cons :
      (c : ℤ) (ts xs : List ℤ) {xs' out : List ℤ}
      → token_step t.isalnum c xs ≡ (xs', out)
      → run (c ∷ ts) xs ≡ out ++ run ts xs'
  unfolding tokens
  run-cons c ts xs {xs'} {out} e = rw e (append_assoc out _ _)

  step_operand :
      (c : ℤ) (xs : List ℤ) → t.isalnum c ≡ true → token_step t.isalnum c xs ≡ (xs, c ∷ [])
  unfolding token_step
  step_operand c xs e = rw e

  step_glyph :
      (o : Op) (xs : List ℤ) {ys out : List ℤ}
      → higher (rank o) xs ≡ (ys, out)
      → length ys < max_size
      → token_step t.isalnum (glyph o) xs ≡ (glyph o ∷ ys, out)
  unfolding token_step
  step_glyph o xs e h =
      rw (t.glyph_not o, glyph-ne-lparen o, glyph-ne-rparen o, precedence_list-glyph o, e)
        (rw (lt→ltb _ _ h))

  run-tail :
      (k : ℕ) (o : Op) (r : Links)
      → rank o ≡ k
      → All (λ l. rank l.0 ≡ k) r
      → Alnum r
      → run (links r) (glyph o ∷ []) ≡ glyph o ∷ tail r
  unfolding tokens flush higher
  run-tail k o [] same sames al = rw ((glyph-pos o).1)
  run-tail k o ((o', b) ∷ r) same sames al =
      let emptied : higher (rank o') (glyph o ∷ []) ≡ ([], glyph o ∷ []) =
        rw (precedence_list-glyph o)
          (rw (leb_of_le (rank o') (rank o) (omega (arith, same, sames.0)))) in
      run-cons (glyph o') (b ∷ links r) (glyph o ∷ [])
        (step_glyph o' (glyph o ∷ []) emptied (omega arith))
      ∙ ap (λ l. glyph o ∷ l)
          (run-cons b (links r) (glyph o' ∷ []) (step_operand b (glyph o' ∷ []) al.0))
      ∙ ap (λ l. glyph o ∷ b ∷ l) (run-tail k o' r sames.0 sames.1 al.1)

  closing : (acc : List Op) → token_step t.isalnum rparen (opened acc) ≡ ([], glyphs acc)
  unfolding token_step
  closing acc = rw t.rparen_not (group-opened acc)

  run-opened :
      (r : Links) (acc : List Op)
      → length acc + length r < max_size
      → Alnum r
      → run (links r ++ rparen ∷ []) (opened acc) ≡ operands r ++ backwards r (glyphs acc)
  unfolding operands backwards flush tokens
  run-opened [] acc h al = run-cons rparen [] (opened acc) (closing acc) ∙ rw append-nil
  run-opened ((o, b) ∷ r) acc h al =
      run-cons (glyph o) (b ∷ (links r ++ rparen ∷ [])) (opened acc)
        (step_glyph o (opened acc) (higher-opened o acc) (omega (arith, length-opened acc)))
      ∙ run-cons b (links r ++ rparen ∷ []) (opened (o ∷ acc))
          (step_operand b (opened (o ∷ acc)) al.0)
      ∙ ap (λ l. b ∷ l) (run-opened r (o ∷ acc) (omega arith) al.1)

  opening : token_step t.isalnum lparen [] ≡ (lparen ∷ [], [])
  unfolding token_step
  opening = rw t.lparen_not

  first_step : (o : Op) → token_step t.isalnum (glyph o) [] ≡ (glyph o ∷ [], [])
  unfolding higher
  first_step o = step_glyph o [] refl (omega arith)

  run-links : (k : ℕ) (r : Links) → All (λ l. rank l.0 ≡ k) r → Alnum r → run (links r) [] ≡ tail r
  unfolding tokens flush
  run-links k [] same al = refl
  run-links k ((o, b) ∷ r) same al =
      run-cons (glyph o) (b ∷ links r) [] (first_step o)
      ∙ run-cons b (links r) (glyph o ∷ []) (step_operand b (glyph o ∷ []) al.0)
      ∙ ap (λ l. b ∷ l) (run-tail k o r same.0 same.1 al.1)

  module _ (a : Allocator) (memory : (h : Heap) → a.malloc h ≢ null) where
    -- When `malloc` never gives NULL: a chain of operators that all bind alike, without brackets
    -- and of any length, is written by `infix_to_postfix_list` in its postfix form.
    infix_to_postfix_list-chain :
        (h : Heap) (k : ℕ) (c : ℤ) (r : Links)
        → t.isalnum c ≡ true
        → Alnum r
        → All (λ l. rank l.0 ≡ k) r
        → All IsChar (print (chain (operand c) r))
        → infix_to_postfix_list t.isalnum a h (print (chain (operand c) r))
          ≡ some (postfix (chain (operand c) r))
    unfolding convert print postfix
    infix_to_postfix_list-chain h k c r al als same chars =
        infix_to_postfix_list-convert t.isalnum a memory h (print (chain (operand c) r)) chars
        ∙ ap some (
            ap (λ ts. run ts []) (print-chain (operand c) r)
            ∙ run-cons c (links r) [] (step_operand c [] al)
            ∙ ap (λ l. c ∷ l) (run-links k r same als)
            ∙ sym (postfix-chain (operand c) r))

    -- When `malloc` never gives NULL: a chain of at most 101 operators in one pair of brackets is
    -- written as its operands in order and then its operators from the last to the first, however
    -- they bind. For two operators or more this is not the postfix form that C's rules give.
    pub infix_to_postfix_list-paren :
        (h : Heap) (c : ℤ) (r : Links)
        → t.isalnum c ≡ true
        → Alnum r
        → length r < max_size
        → All IsChar (print (paren (chain (operand c) r)))
        → infix_to_postfix_list t.isalnum a h (print (paren (chain (operand c) r)))
          ≡ some (c ∷ (operands r ++ backwards r []))
    unfolding convert print
    infix_to_postfix_list-paren h c r al als room chars =
        infix_to_postfix_list-convert t.isalnum a memory h (print (paren (chain (operand c) r)))
          chars
        ∙ ap some (
            ap (λ ts. run (lparen ∷ (ts ++ rparen ∷ [])) []) (print-chain (operand c) r)
            ∙ run-cons lparen (c ∷ (links r ++ rparen ∷ [])) [] opening
            ∙ run-cons c (links r ++ rparen ∷ []) (lparen ∷ []) (step_operand c (lparen ∷ []) al)
            ∙ ap (λ l. c ∷ l) (run-opened r [] (omega (arith, room)) als))
