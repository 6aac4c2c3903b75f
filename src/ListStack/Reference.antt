-- ===== src/ListStack/Reference.antt =====
-- The conversion of list_operations.c over a list of values in place of the nodes.
use ics7_os.Common.{
  ℕ, Bool, ◌&&◌, not, List, [], ◌∷◌, ◌++◌, ℤ, pos, eqb_ℤ, ltb_ℤ, leb, ltb, length, if◌then◌else◌,
}
use ics7_os.ArrayStack.{max_size}
use ics7_os.ListStack.{precedence_list}
use ics7_os.Infix.{lparen, rparen}

abbrev pub push_values : ℤ → List ℤ → List ℤ
push_values x xs = if ltb (length xs) max_size then x ∷ xs else xs

abbrev pub last_of : ℤ → List ℤ → ℤ
last_of x [] = x
last_of x (y ∷ ys) = last_of y ys

-- Each function gives the stack that is left and the text that it writes. The element that empties
-- the stack is taken off and not written.
unfoldable pub group : List ℤ → List ℤ × List ℤ
group [] = ([], [])
group (x ∷ xs) =
    let rest = group xs in
    if not (eqb_ℤ x lparen) && ltb 0 (length xs) then (rest.0, x ∷ rest.1) else (xs, [])

-- The comparison is with the bottom of the stack.
unfoldable pub higher : ℕ → List ℤ → List ℤ × List ℤ
higher p [] = ([], [])
higher p (x ∷ xs) =
    let rest = higher p xs in
    if leb p (precedence_list (last_of x xs)) then (rest.0, x ∷ rest.1) else (x ∷ xs, [])

unfoldable pub flush : List ℤ → List ℤ
flush [] = []
flush (x ∷ xs) = if ltb_ℤ x (pos 0) then [] else x ∷ flush xs

module _ (isalnum : ℤ → Bool) where
  unfoldable pub token_step : ℤ → List ℤ → List ℤ × List ℤ
  token_step token xs =
      if isalnum token
      then (xs, token ∷ [])
      else if eqb_ℤ token lparen
      then (push_values lparen xs, [])
      else if eqb_ℤ token rparen
      then group xs
      else (
        push_values token (higher (precedence_list token) xs).0,
        (higher (precedence_list token) xs).1,
      )

  unfoldable pub tokens : List ℤ → List ℤ → List ℤ × List ℤ
  tokens [] xs = (xs, [])
  tokens (t ∷ ts) xs =
      let step = token_step t xs in let rest = tokens ts step.0 in (rest.0, step.1 ++ rest.1)

  unfoldable pub convert : List ℤ → List ℤ
  unfolding tokens token_step group higher flush
  convert ts = (tokens ts []).1 ++ flush (tokens ts []).0
