-- ===== src/ArrayStack/Reference.antt =====
-- The conversion of array_operations.c over a list in place of the array.
use ics7_os.Common.{
  ℕ, Bool, List, [], ◌∷◌, ◌++◌, ℤ, pos, eqb_ℤ, ltb_ℤ, leb, ltb, length, if◌then◌else◌,
}
use ics7_os.ArrayStack.{precedence, max_size}
use ics7_os.Infix.{lparen, rparen}

abbrev pub push_list : ℤ → List ℤ → List ℤ
push_list x xs = if ltb (length xs) max_size then x ∷ xs else xs

-- Each function gives the stack that is left and the text that it writes.
unfoldable pub group : List ℤ → List ℤ × List ℤ
group [] = ([], [])
group (x ∷ xs) =
    let rest = group xs in
    if eqb_ℤ x lparen then (xs, []) else if ltb_ℤ (pos 0) x then (rest.0, x ∷ rest.1) else (xs, [])

unfoldable pub higher : ℕ → List ℤ → List ℤ × List ℤ
higher p [] = ([], [])
higher p (x ∷ xs) =
    let rest = higher p xs in if leb p (precedence x) then (rest.0, x ∷ rest.1) else (x ∷ xs, [])

unfoldable pub flush : List ℤ → List ℤ
flush [] = []
flush (x ∷ xs) = if ltb_ℤ x (pos 0) then [] else x ∷ flush xs

module _ (isalnum : ℤ → Bool) where
  unfoldable pub token_step : ℤ → List ℤ → List ℤ × List ℤ
  token_step token xs =
      if isalnum token
      then (xs, token ∷ [])
      else if eqb_ℤ token lparen
      then (push_list lparen xs, [])
      else if eqb_ℤ token rparen
      then group xs
      else (push_list token (higher (precedence token) xs).0, (higher (precedence token) xs).1)

  unfoldable pub tokens : List ℤ → List ℤ → List ℤ × List ℤ
  tokens [] xs = (xs, [])
  tokens (t ∷ ts) xs =
      let step = token_step t xs in let rest = tokens ts step.0 in (rest.0, step.1 ++ rest.1)

  unfoldable pub convert : List ℤ → List ℤ
  convert ts = (tokens ts []).1 ++ flush (tokens ts []).0
