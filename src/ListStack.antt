-- ===== src/ListStack.antt =====
-- unix-lab-02/task3/lab_4_9/list_operations.c: the stack in a linked list, and the conversion of an
-- infix expression with it, over an explicit heap. `none` is a fault, or a loop out of fuel.
pub mod Chain
pub mod Ops
pub mod Beside
pub mod Reference
pub mod Refine
pub mod Bounds
pub mod Order
pub mod Text
pub mod Lifo
pub mod Freed
pub mod Menu
pub mod Tests
use ics7_os.Common.{
  ℕ, zero, suc, ◌+◌, ◌-◌, ◌≡◌, ◌≢◌, ◌≤◌, arith, ==_of_ne, Bool, true, false, ◌&&◌, ◌||◌, not,
  Option, none, some, List, [], ◌∷◌, ◌++◌, ℤ, pos, negsuc, eqb_ℤ, ltb_ℤ, leb, ltb, ◌==◌, to_char,
  if◌then◌else◌,
}
use ics7_os.Common.Options.{◌>>=◌}
use ics7_os.Memory.{Ptr, null, Memory, write, load, Malloc}
use ics7_os.Infix.{lparen, rparen}
use ics7_os.ArrayStack.{ok, err_length, err_read, max_size, is_zero}

-- struct list_stack
pub record Node : Type 0 where
  pub value : ℤ
  pub next : Ptr

abbrev pub node : ℤ → Ptr → Node
node v q = record { value = v; next = q }

abbrev pub Heap : Type 0
Heap = Memory Node

abbrev pub Allocator : Type 0
Allocator = Malloc Node

-- The heap, and the caller's variables `s` and `n`.
pub record Stack : Type 0 where
  pub heap : Heap
  pub s : Ptr
  pub n : ℕ

unfoldable pub empty_list : Ptr → ℤ
empty_list s = if s == null then err_length else ok

-- `*s` and `*n` after `push_list`, and its result. The block is allocated before `n` is tested.
unfoldable pub push_list : Allocator → Stack → ℤ → ℤ × Stack
push_list a st x =
    let p = a.malloc st.heap in
    let h = if p == null then st.heap else write st.heap p (some (a.contents st.heap)) in
    if leb max_size st.n
    then (err_length, record st { heap = h })
    else if p == null
    then (err_read, record st { n = st.n + 1 })
    else (ok, record { heap = write h p (some (node x st.s)); s = p; n = st.n + 1 })

unfoldable pub pop_list : Stack → Option (ℤ × Stack)
pop_list st =
    if ltb st.n 1
    then some (err_length, st)
    else load st.heap st.s >>= λ c.
        some (c.value, record { heap = write st.heap st.s none; s = c.next; n = st.n - 1 })

-- The `for` of the functions that walk to the last node.
unfoldable pub last_node : ℕ → Heap → Ptr → Option Node
last_node zero h p = none
last_node (suc k) h p =
    load h p >>= λ c. elim (c.next == null) [ true ↦ some c | false ↦ last_node k h c.next ]

-- The number of `next` pointers on the way to the last node.
unfoldable pub steps_to_last : ℕ → Heap → Ptr → Option ℕ
steps_to_last zero h p = none
steps_to_last (suc k) h p = load h p >>= λ c. elim (c.next == null) [
  | true ↦ some 0
  | false ↦ steps_to_last k h c.next >>= λ i. some (i + 1)
]

-- A walk visits 102 nodes at most.
abbrev pub walk_fuel : ℕ
walk_fuel = max_size + 1

unfoldable pub full_list : Heap → Ptr → Option ℤ
full_list h s =
    steps_to_last walk_fuel h s >>= λ i. some (if i + 1 == max_size then err_length else ok)

unfoldable pub top_list : Heap → Ptr → Option ℤ
top_list h s = if s == null then some err_length else last_node walk_fuel h s >>= λ c. some c.value

unfoldable pub number_list : Heap → Ptr → Option ℤ
number_list h s =
    if s == null then some err_length else steps_to_last walk_fuel h s >>= λ i. some (pos i)

unfoldable pub precedence_list : ℤ → ℕ
precedence_list x =
    if eqb_ℤ x lparen
    then 0
    else if eqb_ℤ x (pos b'+') || eqb_ℤ x (pos b'-')
    then 1
    else if eqb_ℤ x (pos b'*') || eqb_ℤ x (pos b'/') || eqb_ℤ x (pos b'%')
    then 2
    else 3

-- The characters from the last node to the first: the second loop of the source reverses `temp`.
unfoldable pub letters_from : ℕ → Heap → Ptr → List ℤ → Option (List ℤ)
letters_from zero h p later = none
letters_from (suc k) h p later = load h p >>= λ c.
    let x = to_char c.value in
    elim (c.next == null) [ true ↦ some (x ∷ later) | false ↦ letters_from k h c.next (x ∷ later) ]

unfoldable pub create_infix_form_list : Heap → Ptr → Option (List ℤ)
create_infix_form_list h arr = letters_from walk_fuel h arr []

-- The `while` of the branch for ')'.
pop_group_list : ℕ → Stack → List ℤ → Option (Stack × List ℤ)
pop_group_list zero st out = none
pop_group_list (suc k) st out = pop_list st >>= λ r.
    let x = to_char r.0 in
    elim (not (eqb_ℤ x lparen) && ltb 0 r.1.n) [
      | true ↦ pop_group_list k r.1 (out ++ x ∷ [])
      | false ↦ some (r.1, out)
    ]

-- The `while` of the branch for an operator.
pop_higher_list : ℕ → ℤ → Stack → List ℤ → Option (Stack × List ℤ)
pop_higher_list zero token st out = none
pop_higher_list (suc k) token st out = top_list st.heap st.s >>= λ t.
    elim (leb (precedence_list token) (precedence_list (to_char t))
      && is_zero (empty_list st.s)
      && ltb 0 st.n) [
        | true ↦ pop_list st >>= λ r. pop_higher_list k token r.1 (out ++ to_char r.0 ∷ [])
        | false ↦ some (st, out)
      ]

-- The `while` behind the `for`.
pop_all_list : ℕ → Stack → List ℤ → Option (Stack × List ℤ)
pop_all_list zero st out = none
pop_all_list (suc k) st out = elim (ltb 0 st.n && is_zero (empty_list st.s)) [
  | true ↦ pop_list st >>= λ r.
      let x = to_char r.0 in
      elim (ltb_ℤ x (pos 0)) [ true ↦ some (r.1, out) | false ↦ pop_all_list k r.1 (out ++ x ∷ []) ]
  | false ↦ some (st, out)
]

module _ (isalnum : ℤ → Bool) (a : Allocator) where
  -- The body of the `for`, and the text written to `postfix` so far.
  on_token_list : ℤ → Stack → List ℤ → Option (Stack × List ℤ)
  on_token_list token st out =
      if isalnum token
      then some (st, out ++ token ∷ [])
      else if eqb_ℤ token lparen
      then some ((push_list a st lparen).1, out)
      else if eqb_ℤ token rparen
      then pop_group_list walk_fuel st out
      else pop_higher_list walk_fuel token st out >>= λ r. some ((push_list a r.0 token).1, r.1)

  for_tokens_list : List ℤ → Stack → List ℤ → Option (Stack × List ℤ)
  for_tokens_list [] st out = some (st, out)
  for_tokens_list (token ∷ ts) st out =
      on_token_list token st out >>= λ r. for_tokens_list ts r.0 r.1

  -- The local stack at the end, and the text in `postfix`.
  pub convert_list : Heap → List ℤ → Option (Stack × List ℤ)
  unfolding pop_group_list pop_higher_list pop_all_list on_token_list for_tokens_list
  convert_list h text = for_tokens_list text (record { heap = h; s = null; n = 0 }) [] >>= λ r.
      pop_all_list walk_fuel r.0 r.1

  unfoldable pub infix_to_postfix_list : Heap → List ℤ → Option (List ℤ)
  unfolding convert_list
  infix_to_postfix_list h text = convert_list h text >>= λ r. some r.1
