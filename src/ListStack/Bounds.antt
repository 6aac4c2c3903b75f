-- ===== src/ListStack/Bounds.antt =====
-- Whatever the text, `infix_to_postfix_list` ends and writes no more characters than it read.
use ics7_os.Common.{
  ℕ, ◌+◌, ◌≤◌, ◌≡◌, ◌≢◌, some, Bool, List, [], ◌∷◌, ℤ, length, length-append, All, IsChar, arith,
}
use ics7_os.Infix.{lparen}
use ics7_os.Memory.{null}
use ics7_os.ListStack.{Heap, Allocator, precedence_list, infix_to_postfix_list}
use ics7_os.ListStack.Reference.{push_values, group, higher, flush, token_step, tokens, convert}
use ics7_os.ListStack.Refine.{infix_to_postfix_list-convert}

abbrev size : List ℤ × List ℤ → ℕ
size r = length r.0 + length r.1

group-le : (xs : List ℤ) → size (group xs) ≤ length xs
unfolding group
group-le [] = omega arith
group-le (x ∷ xs) = ground (arith, group-le xs)

higher-le : (p : ℕ) (xs : List ℤ) → size (higher p xs) ≤ length xs
unfolding higher
higher-le p [] = omega arith
higher-le p (x ∷ xs) = ground (arith, higher-le p xs)

flush-le : (xs : List ℤ) → length (flush xs) ≤ length xs
unfolding flush
flush-le [] = omega arith
flush-le (x ∷ xs) = ground (arith, flush-le xs)

push_values-le : (x : ℤ) (xs : List ℤ) → length (push_values x xs) ≤ length xs + 1
push_values-le x xs = ground arith

module _ (isalnum : ℤ → Bool) where
  token_step-le : (c : ℤ) (xs : List ℤ) → size (token_step isalnum c xs) ≤ length xs + 1
  unfolding token_step
  token_step-le c xs = ground (
    arith,
    group-le xs,
    higher-le (precedence_list c) xs,
    push_values-le lparen xs,
    push_values-le c (higher (precedence_list c) xs).0,
  )

  tokens-le : (ts xs : List ℤ) → size (tokens isalnum ts xs) ≤ length xs + length ts
  unfolding tokens
  tokens-le [] xs = omega arith
  tokens-le (t ∷ ts) xs =
      let s = token_step isalnum t xs in
      omega
        (arith, token_step-le t xs, tokens-le ts s.0, length-append s.1 (tokens isalnum ts s.0).1)

  -- When `malloc` never gives NULL, then on every text of characters, well formed or not,
  -- `infix_to_postfix_list` meets no fault and ends, and what it writes is no longer than the text.
  pub infix_to_postfix_list_bounded :
      (a : Allocator) (memory : (h : Heap) → a.malloc h ≢ null) (h : Heap) (text : List ℤ)
      → All IsChar text
      → (out : List ℤ) × (infix_to_postfix_list isalnum a h text ≡ some out)
        × (length out ≤ length text)
  unfolding convert
  infix_to_postfix_list_bounded a memory h text c =
      let r = tokens isalnum text [] in
      (
        convert isalnum text,
        infix_to_postfix_list-convert isalnum a memory h text c,
        omega (arith, tokens-le text [], flush-le r.0, length-append r.1 (flush r.0)),
      )
