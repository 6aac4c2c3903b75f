-- ===== src/ArrayStack.antt =====
-- unix-lab-02/task3/lab_4_9/array_operations.c: the stack in an array, and the conversion of an
-- infix expression with it. A `char` is the `int` that it promotes to, `char` being signed.
pub mod Ops
pub mod Reference
pub mod Refine
pub mod Correct
pub mod Bounds
pub mod Menu
pub mod Tests
use ics7_os.Common.{
  ℕ, zero, suc, ◌+◌, Bool, true, false, ◌&&◌, ◌||◌, not, Option, none, some, List, [], ◌∷◌, ◌++◌, ℤ,
  pos, negsuc, ◌+ℤ◌, ◌-ℤ◌, eqb_ℤ, ltb_ℤ, leb_ℤ, leb, to_char, if◌then◌else◌,
}
use ics7_os.Common.Options.{◌>>=◌}
use ics7_os.Infix.{lparen, rparen}

-- defines.h
abbrev pub ok : ℤ
ok = pos 0

abbrev pub err_length : ℤ
err_length = negsuc 0

abbrev pub err_read : ℤ
err_read = negsuc 1

abbrev pub max_size : ℕ
max_size = 102

-- `cells i` is what `data[i]` reads. The array is `cells 0` to `cells 499`; the other indices stand
-- for the memory around it, of which nothing is known.
pub record Stack : Type 0 where
  pub cells : ℤ → ℤ
  pub top_index : ℤ

abbrev pub update : (ℤ → ℤ) → ℤ → ℤ → ℤ → ℤ
update f i x j = if eqb_ℤ i j then x else f j

unfoldable pub empty : Stack → ℤ
empty s = if eqb_ℤ s.top_index (negsuc 0) then err_length else ok

unfoldable pub full : Stack → ℤ
full s = if eqb_ℤ s.top_index (pos max_size) then err_length else ok

unfoldable pub push : Stack → ℤ → ℤ × Stack
push s x = if leb_ℤ (pos max_size -ℤ pos 1) s.top_index then (err_length, s) else (
  ok,
  record { cells = update s.cells (s.top_index +ℤ pos 1) x; top_index = s.top_index +ℤ pos 1 },
)

unfoldable pub pop : Stack → ℤ × Stack
pop s =
    if eqb_ℤ s.top_index (negsuc 0)
    then (err_length, s)
    else (s.cells s.top_index, record s { top_index = s.top_index -ℤ pos 1 })

unfoldable pub top : Stack → ℤ
top s = s.cells s.top_index

unfoldable pub precedence : ℤ → ℕ
precedence x =
    if eqb_ℤ x lparen
    then 0
    else if eqb_ℤ x (pos b'+') || eqb_ℤ x (pos b'-')
    then 1
    else if eqb_ℤ x (pos b'*') || eqb_ℤ x (pos b'/') || eqb_ℤ x (pos b'%')
    then 2
    else 3

unfoldable pub init : Stack → Stack
init s = record s { top_index = negsuc 0 }

-- `!e` of C
abbrev pub is_zero : ℤ → Bool
is_zero e = eqb_ℤ e (pos 0)

-- The `while` of the branch for ')'. Each loop runs on fuel, `none` being fuel that ran out.
pop_group : ℕ → Stack → List ℤ → Option (Stack × List ℤ)
pop_group zero s out = none
pop_group (suc k) s out =
    let (popped, s') = pop s in
    let x = to_char popped in
    let rest = pop_group k s' (out ++ x ∷ []) in
    if not (eqb_ℤ x lparen) && ltb_ℤ (pos 0) x then rest else some (s', out)

-- The `while` of the branch for an operator.
pop_higher : ℕ → ℤ → Stack → List ℤ → Option (Stack × List ℤ)
pop_higher zero token s out = none
pop_higher (suc k) token s out =
    let (popped, s') = pop s in
    let rest = pop_higher k token s' (out ++ to_char popped ∷ []) in
    if leb (precedence token) (precedence (to_char (top s))) && is_zero (empty s)
    then rest
    else some (s, out)

-- The `while` behind the `for`.
pop_all : ℕ → Stack → List ℤ → Option (List ℤ)
pop_all zero s out = none
pop_all (suc k) s out =
    let (popped, s') = pop s in
    let x = to_char popped in
    let rest = pop_all k s' (out ++ x ∷ []) in
    if is_zero (empty s) then (if ltb_ℤ x (pos 0) then some out else rest) else some out

-- A loop takes one element off the stack each round, and then finds it empty.
abbrev pub loop_fuel : ℕ
loop_fuel = max_size + 1

module _ (isalnum : ℤ → Bool) where
  -- The body of the `for`, and the text written to `postfix` so far.
  on_token : ℤ → Stack → List ℤ → Option (Stack × List ℤ)
  on_token token s out =
      if isalnum token
      then some (s, out ++ token ∷ [])
      else if eqb_ℤ token lparen
      then some ((push s lparen).1, out)
      else if eqb_ℤ token rparen
      then pop_group loop_fuel s out
      else pop_higher loop_fuel token s out >>= λ r. some ((push r.0 token).1, r.1)

  for_tokens : List ℤ → Stack → List ℤ → Option (Stack × List ℤ)
  for_tokens [] s out = some (s, out)
  for_tokens (token ∷ ts) s out = on_token token s out >>= λ r. for_tokens ts r.0 r.1

  -- `s` is the local stack, whose array starts with unknown contents.
  unfoldable pub infix_to_postfix : Stack → List ℤ → Option (List ℤ)
  unfolding pop_group pop_higher pop_all on_token for_tokens
  infix_to_postfix s text = for_tokens text (init s) [] >>= λ r. pop_all loop_fuel r.0 r.1

-- The copy loop of `create_infix_form` from index `i` on, for `rounds` elements.
copy_from : ℕ → ℕ → (ℤ → ℤ) → List ℤ
copy_from zero i cells = []
copy_from (suc rounds) i cells = to_char (cells (pos i)) ∷ copy_from rounds (i + 1) cells

count_of : ℤ → ℕ
count_of (pos n) = suc n
count_of (negsuc n) = 0

-- The text that it writes, without the final '\0'.
unfoldable pub create_infix_form : Stack → List ℤ
unfolding copy_from count_of
create_infix_form arr = copy_from (count_of arr.top_index) 0 arr.cells
