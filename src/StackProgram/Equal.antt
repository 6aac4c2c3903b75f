-- ===== src/StackProgram/Equal.antt =====
-- Where the two converters agree.
use ics7_os.Common.{
  ℕ, ◌≤◌, ◌≡◌, ◌≢◌, refl, sym, ap, ◌∙◌, Bool, true, false, some, List, [], ◌∷◌, ℤ, eqb_ℤ, All,
  IsChar, leb_of_le, arith,
}
use ics7_os.Infix.{lparen, rparen}
use ics7_os.Memory.{null}
use ics7_os.ArrayStack.{Stack, precedence, infix_to_postfix}
use ics7_os.ArrayStack.Reference as Array
use ics7_os.ArrayStack.Refine.{infix_to_postfix-convert}
use ics7_os.ListStack.{Heap, Allocator, precedence_list, infix_to_postfix_list}
use ics7_os.ListStack.Reference as Nodes
use ics7_os.ListStack.Refine.{infix_to_postfix_list-convert}

-- Operands, and operators each of which binds no tighter than `k` and than all before it; no
-- bracket.
pub data Falling (isalnum : ℤ → Bool) : ℕ → List ℤ → Type 0 where
  ends : {k : ℕ} → Falling isalnum k []
  letter :
      {k : ℕ} {t : ℤ} {ts : List ℤ}
      → isalnum t ≡ true
      → Falling isalnum k ts
      → Falling isalnum k (t ∷ ts)
  operator :
      {k : ℕ} {t : ℤ} {ts : List ℤ}
      → isalnum t ≡ false
      → eqb_ℤ t lparen ≡ false
      → eqb_ℤ t rparen ≡ false
      → precedence t ≤ k
      → Falling isalnum (precedence t) ts
      → Falling isalnum k (t ∷ ts)

precedence_same : (t : ℤ) → precedence_list t ≡ precedence t
unfolding precedence precedence_list
precedence_same t = refl

flush_same : (xs : List ℤ) → Array.flush xs ≡ Nodes.flush xs
unfolding Array.flush Nodes.flush
flush_same [] = refl
flush_same (x ∷ xs) = rw (flush_same xs) refl

module _ (isalnum : ℤ → Bool) where
  array_letter :
      (t : ℤ) → isalnum t ≡ true → (xs : List ℤ) → Array.token_step isalnum t xs ≡ (xs, t ∷ [])
  unfolding Array.token_step
  array_letter t e xs = rw e refl

  nodes_letter :
      (t : ℤ) → isalnum t ≡ true → (xs : List ℤ) → Nodes.token_step isalnum t xs ≡ (xs, t ∷ [])
  unfolding Nodes.token_step
  nodes_letter t e xs = rw e refl

  -- An operator that does not bind tighter takes the place of the only one on the stack.
  module _ (t : ℤ) (letter_not : isalnum t ≡ false) (left_not : eqb_ℤ t lparen ≡ false)
      (right_not : eqb_ℤ t rparen ≡ false) where
    array_first : Array.token_step isalnum t [] ≡ (t ∷ [], [])
    unfolding Array.token_step Array.higher
    array_first = rw (letter_not, left_not, right_not) refl

    nodes_first : Nodes.token_step isalnum t [] ≡ (t ∷ [], [])
    unfolding Nodes.token_step Nodes.higher
    nodes_first = rw (letter_not, left_not, right_not) refl

    array_next :
        (x : ℤ)
        → precedence t ≤ precedence x
        → Array.token_step isalnum t (x ∷ []) ≡ (t ∷ [], x ∷ [])
    unfolding Array.token_step Array.higher
    array_next x le = rw (letter_not, left_not, right_not, leb_of_le _ _ le) refl

    nodes_next :
        (x : ℤ)
        → precedence t ≤ precedence x
        → Nodes.token_step isalnum t (x ∷ []) ≡ (t ∷ [], x ∷ [])
    unfolding Nodes.token_step Nodes.higher
    nodes_next x le =
        rw
          (
            letter_not,
            left_not,
            right_not,
            precedence_same t,
            precedence_same x,
            leb_of_le (precedence t) (precedence x) le,
          )
          refl

  -- With at most one operator on the stack, the bottom is the top.
  tokens_one :
      (k : ℕ) (x : ℤ) (ts : List ℤ)
      → k ≤ precedence x
      → Falling isalnum k ts
      → Array.tokens isalnum ts (x ∷ []) ≡ Nodes.tokens isalnum ts (x ∷ [])
  unfolding Array.tokens Nodes.tokens
  tokens_one k x [] le ends = refl
  tokens_one k x (t ∷ ts) le (letter e f) =
      rw (array_letter t e (x ∷ []), nodes_letter t e (x ∷ []), tokens_one k x ts le f) refl
  tokens_one k x (t ∷ ts) le (operator e l r p f) =
      rw
        (
          array_next t e l r x (omega (arith, le, p)),
          nodes_next t e l r x (omega (arith, le, p)),
          tokens_one (precedence t) t ts (omega arith) f,
        )
        refl

  tokens_none :
      (k : ℕ) (ts : List ℤ)
      → Falling isalnum k ts
      → Array.tokens isalnum ts [] ≡ Nodes.tokens isalnum ts []
  unfolding Array.tokens Nodes.tokens
  tokens_none k [] ends = refl
  tokens_none k (t ∷ ts) (letter e f) =
      rw (array_letter t e [], nodes_letter t e [], tokens_none k ts f) refl
  tokens_none k (t ∷ ts) (operator e l r p f) =
      rw (array_first t e l r, nodes_first t e l r, tokens_one (precedence t) t ts (omega arith) f)
        refl

  pub convert_same :
      (k : ℕ) (ts : List ℤ)
      → Falling isalnum k ts
      → Array.convert isalnum ts ≡ Nodes.convert isalnum ts
  unfolding Array.convert Nodes.convert
  convert_same k ts f = rw (tokens_none k ts f, flush_same (Nodes.tokens isalnum ts []).0) refl

  -- When malloc never gives NULL: on a text of characters without brackets, in which no operator
  -- binds tighter than one before it, the two converters end, without a fault, and write the same.
  pub infix_to_postfix-infix_to_postfix_list :
      (s : Stack) (a : Allocator) (h : Heap) (k : ℕ) (text : List ℤ)
      → ((h : Heap) → a.malloc h ≢ null)
      → All IsChar text
      → Falling isalnum k text
      → (out : List ℤ) × (infix_to_postfix isalnum s text ≡ some out)
        × (infix_to_postfix_list isalnum a h text ≡ some out)
  infix_to_postfix-infix_to_postfix_list s a h k text memory chars f = (
    Array.convert isalnum text,
    infix_to_postfix-convert isalnum s text chars,
    infix_to_postfix_list-convert isalnum a memory h text chars
        ∙ ap some (sym (convert_same k text f)),
  )
