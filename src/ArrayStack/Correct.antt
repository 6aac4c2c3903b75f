-- ===== src/ArrayStack/Correct.antt =====
-- On the text of an expression the conversion writes the expression's postfix form.
use ics7_os.Common.{
  leb_of_le, leb_of_gt, ℕ, suc, ◌+◌, ◌≤◌, ◌<◌, ◌≡◌, refl, sym, ap, ap₂, ◌∙◌, true, some, List, [],
  ◌∷◌, ◌++◌, append_assoc, append-nil, ℤ, length, length-append, All, All-append, All-mono, arith,
  lt→ltb, IsChar,
}
use ics7_os.Infix.{
  Op, plus, minus, times, over, rem, glyph, rank, lparen, rparen, Expr, operand, paren, bin, print,
  postfix, Ctype, Fits,
}
use ics7_os.Infix.Glyphs.{glyph-ne-lparen, glyph-ne-rparen, glyph-pos}
use ics7_os.ArrayStack.{Stack, max_size, precedence, infix_to_postfix}
use ics7_os.ArrayStack.Reference.{group, higher, flush, token_step, tokens, convert}
use ics7_os.ArrayStack.Refine.{infix_to_postfix-convert}

-- An operator's character, of rank `l` or more.
abbrev Above : ℕ → ℤ → Type 0
Above l c = (o : Op) × (c ≡ glyph o) × (l ≤ rank o)

-- The top of the stack binds less tightly than `l`.
abbrev Below : ℕ → List ℤ → Type 0
Below l [] = Unit
Below l (x ∷ xs) = precedence x < l

pub precedence-glyph : (o : Op) → precedence (glyph o) ≡ rank o
unfolding precedence
precedence-glyph plus = refl
precedence-glyph minus = refl
precedence-glyph times = refl
precedence-glyph over = refl
precedence-glyph rem = refl

precedence-lparen : precedence lparen < 1
unfolding precedence
precedence-lparen = omega arith

higher-append :
    (p : ℕ) (ops xs : List ℤ) → All (Above p) ops → Below p xs → higher p (ops ++ xs) ≡ (xs, ops)
unfolding higher
higher-append p [] [] above below = refl
higher-append p [] (x ∷ xs) above below = rw (leb_of_gt p (precedence x) below)
higher-append p (x ∷ ops) xs ((o, e, h), above) below =
    rw (e, precedence-glyph o, leb_of_le p (rank o) h, higher-append p ops xs above below)

group-append : (ops xs : List ℤ) → All (Above 1) ops → group (ops ++ lparen ∷ xs) ≡ (xs, ops)
unfolding group
group-append [] xs above = refl
group-append (x ∷ ops) xs ((o, e, h), above) =
    rw (e, glyph-ne-lparen o, (glyph-pos o).0, group-append ops xs above)

flush-eq : (l : ℕ) (ops : List ℤ) → All (Above l) ops → flush ops ≡ ops
unfolding flush
flush-eq l [] above = refl
flush-eq l (x ∷ ops) ((o, e, h), above) = rw (e, (glyph-pos o).1, flush-eq l ops above)

module _ (t : Ctype) where
  tokens-cons :
      (x : ℤ) (ts xs : List ℤ) {ys zs v w : List ℤ}
      → token_step t.isalnum x xs ≡ (ys, v)
      → tokens t.isalnum ts ys ≡ (zs, w)
      → tokens t.isalnum (x ∷ ts) xs ≡ (zs, v ++ w)
  unfolding tokens
  tokens-cons x ts xs p q = rw (p, q)

  tokens-append :
      (ts us xs : List ℤ) {ys zs v w : List ℤ}
      → tokens t.isalnum ts xs ≡ (ys, v)
      → tokens t.isalnum us ys ≡ (zs, w)
      → tokens t.isalnum (ts ++ us) xs ≡ (zs, v ++ w)
  unfolding tokens
  tokens-append [] us xs p q = rw (ap (λ r. r.0) p, ← ap (λ r. r.1) p) q
  tokens-append (x ∷ ts) us xs {v} {w} p q =
      let step = token_step t.isalnum x xs in
      let rest = tokens t.isalnum ts step.0 in
      rw (tokens-append ts us step.0 {v = rest.1} (λ i. ((p i).0, rest.1)) q) (
        ap₂ (λ a b. (a, b)) refl
          (sym (append_assoc step.1 rest.1 w) ∙ ap (λ l. l ++ w) (ap (λ r. r.1) p)))

  step-operand :
      (c : ℤ) (xs : List ℤ) → t.isalnum c ≡ true → token_step t.isalnum c xs ≡ (xs, c ∷ [])
  unfolding token_step
  step-operand c xs f = rw f

  step-lparen :
      (xs : List ℤ) → length xs < max_size → token_step t.isalnum lparen xs ≡ (lparen ∷ xs, [])
  unfolding token_step
  step-lparen xs room = rw (t.lparen_not, lt→ltb _ _ room)

  step-rparen :
      (ops xs : List ℤ)
      → All (Above 1) ops
      → token_step t.isalnum rparen (ops ++ lparen ∷ xs) ≡ (xs, ops)
  unfolding token_step
  step-rparen ops xs above = rw (t.rparen_not, group-append ops xs above)

  step-glyph :
      (o : Op) (ops xs : List ℤ)
      → All (Above (rank o)) ops
      → Below (rank o) xs
      → length xs < max_size
      → token_step t.isalnum (glyph o) (ops ++ xs) ≡ (glyph o ∷ xs, ops)
  unfolding token_step
  step-glyph o ops xs above below room = rw (
    t.glyph_not o,
    glyph-ne-lparen o,
    glyph-ne-rparen o,
    precedence-glyph o,
    higher-append (rank o) ops xs above below,
    lt→ltb _ _ room,
  )

  -- After the text of `e` the stack has grown by `ops`, which `written` lacks of the postfix form.
  record Pass (l : ℕ) (e : Expr) (xs : List ℤ) : Type 0 where
    ops : List ℤ
    written : List ℤ
    runs : tokens t.isalnum (print e) xs ≡ (ops ++ xs, written)
    whole : written ++ ops ≡ postfix e
    above : All (Above l) ops

  tokens-nil : (xs : List ℤ) → tokens t.isalnum [] xs ≡ (xs, [])
  unfolding tokens
  tokens-nil xs = refl

  operand-Pass : (c : ℤ) (l : ℕ) (xs : List ℤ) → t.isalnum c ≡ true → Pass l (operand c) xs
  unfolding print postfix
  operand-Pass c l xs f = record {
    ops = [];
    written = c ∷ [];
    runs = tokens-cons c [] xs (step-operand c xs f) (tokens-nil xs);
    whole = refl;
    above = tt;
  }

  paren-Pass :
      (e : Expr) (l : ℕ) (xs : List ℤ)
      → Pass 1 e (lparen ∷ xs)
      → length xs < max_size
      → Pass l (paren e) xs
  unfolding print postfix
  paren-Pass e l xs r room = record {
    ops = [];
    written = r.written ++ (r.ops ++ []);
    runs = tokens-cons lparen _ xs (step-lparen xs room) (
        tokens-append (print e) (rparen ∷ []) _ r.runs
          (tokens-cons rparen [] _ (step-rparen r.ops xs r.above) (tokens-nil xs)));
    whole = simp append-nil r.whole;
    above = tt;
  }

  bin-Pass :
      (o : Op) (a b : Expr) (l : ℕ) (xs : List ℤ)
      → Pass (rank o) a xs
      → Pass (suc (rank o)) b (glyph o ∷ xs)
      → l ≤ rank o
      → Below (rank o) xs
      → length xs < max_size
      → Pass l (bin o a b) xs
  unfolding print postfix
  bin-Pass o a b l xs ra rb h below room = record {
    ops = rb.ops ++ glyph o ∷ [];
    written = ra.written ++ (ra.ops ++ rb.written);
    runs =
        tokens-append (print a) (glyph o ∷ print b) xs ra.runs (
          tokens-cons (glyph o) (print b) (ra.ops ++ xs)
            (step-glyph o ra.ops xs ra.above below room) rb.runs)
        ∙ ap (λ s. (s, ra.written ++ (ra.ops ++ rb.written))) (sym (append_assoc rb.ops _ xs));
    whole = rw (← ra.whole, ← rb.whole) (simp append_assoc);
    above =
        All-append (Above l) rb.ops (glyph o ∷ [])
          (All-mono (Above (suc (rank o))) (Above l) rb.ops (λ c u. (u.0, u.1, omega arith))
            rb.above)
          ((o, refl, h), tt);
  }

  Below-mono : (l m : ℕ) (xs : List ℤ) → l ≤ m → Below l xs → Below m xs
  Below-mono l m [] h below = tt
  Below-mono l m (x ∷ xs) h below = omega arith

  pass :
      (e : Expr) (l : ℕ) (xs : List ℤ)
      → Fits t l e
      → Below l xs
      → length xs + length (print e) ≤ max_size
      → Pass l e xs
  unfolding print
  pass (operand c) l xs f below room = operand-Pass c l xs f
  pass (paren e) l xs f below room =
      let long = length-append (print e) (rparen ∷ []) in
      paren-Pass e l xs (pass e 1 (lparen ∷ xs) f precedence-lparen (omega (arith, long)))
        (omega arith)
  pass (bin o a b) l xs f below room =
      let long = length-append (print a) (glyph o ∷ print b) in
      let deeper = Below-mono l (rank o) xs f.0 below in
      bin-Pass o a b l xs (pass a (rank o) xs f.1 deeper (omega (arith, long)))
        (pass b (suc (rank o)) (glyph o ∷ xs) f.2 (omega (arith, precedence-glyph o))
          (omega (arith, long)))
        f.0 deeper (omega (arith, long))

  -- The conversion over lists, on the text of an expression.
  convert-print :
      (e : Expr)
      → Fits t 1 e
      → length (print e) ≤ max_size
      → convert t.isalnum (print e) ≡ postfix e
  unfolding convert
  convert-print e f room =
      let r = pass e 1 [] f tt (omega arith) in
      rw (r.runs, append-nil, flush-eq 1 r.ops r.above) r.whole

  -- For every expression that fits the grammar, of at most 102 characters in its text and with
  -- operands that are characters, `infix_to_postfix` on that text ends and writes exactly the
  -- postfix form of the expression, whatever the stack's array held at first.
  pub infix_to_postfix-print :
      (e : Expr) (s : Stack)
      → Fits t 1 e
      → length (print e) ≤ max_size
      → All IsChar (print e)
      → infix_to_postfix t.isalnum s (print e) ≡ some (postfix e)
  infix_to_postfix-print e s f room chars =
      infix_to_postfix-convert t.isalnum s (print e) chars ∙ ap some (convert-print e f room)
