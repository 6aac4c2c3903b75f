-- ===== src/ListStack/Tests.antt =====
-- Runs of list_operations.c, and its theorems at concrete inputs.
use mathlib.Core.List.{map}
use ics7_os.Common.{
  ◌≤◌, ◌≡◌, refl, ◌⊎◌, Option, none, some, List, [], ◌∷◌, ℤ, pos, length, arith, if◌then◌else◌,
  ◌==◌,
}
use ics7_os.Infix.{plus, times, operand, paren, print}
use ics7_os.Infix.Ascii.{is_alnum, ascii}
use ics7_os.Memory.{Ptr, null, empty_memory, bump, bump_memory}
use ics7_os.ListStack.{Node, node, Heap, Stack, infix_to_postfix_list}
use ics7_os.ListStack.Chain.{Cells, IsStack}
use ics7_os.ListStack.Ops.{bottom}
use ics7_os.ListStack.Bounds.{infix_to_postfix_list_bounded}
use ics7_os.ListStack.Order.{chain, operands, backwards, infix_to_postfix_list-paren}
use ics7_os.ListStack.Lifo.{Refused, Miscounted, Popped, push_list-pop_list}

abbrev blank : Node
blank = node (pos 0) null

abbrev nothing : Heap
nothing = empty_memory

abbrev start : Stack
start = record { heap = nothing; s = null; n = 0 }

abbrev two_at : Ptr → Option Node
two_at p =
    if p == 1
    then some (node (pos b'x') null)
    else if p == 2
    then some (node (pos b'y') 1)
    else none

abbrev two_above : (p : Ptr) → 3 ≤ p → two_at p ≡ none
two_above p h = ground arith

-- The stack with 'x' and then 'y' pushed.
abbrev two : Stack
two = record { heap = record { at = two_at; bound = 3; above = two_above }; s = 2; n = 2 }

abbrev two_cells : Cells
two_cells = (2, pos b'y') ∷ (1, pos b'x') ∷ []

two_IsStack : IsStack two two_cells
two_IsStack = record {
  head = refl;
  counted = refl;
  room = omega arith;
  chain = (
    (λ q. omega (arith, q)),
    refl,
    ((λ q. omega (arith, q)), tt),
    ((λ q. omega (arith, q)), refl, tt, tt),
  );
  chars = (omega arith, (omega arith, tt));
}

infix_to_postfix_list_bounded_example :
    (out : List ℤ) × (infix_to_postfix_list is_alnum
        (bump blank)
        nothing
        (map pos (b'a' ∷ b')' ∷ b'+' ∷ []))
      ≡ some out)
    × (length out ≤ 3)
infix_to_postfix_list_bounded_example =
    infix_to_postfix_list_bounded is_alnum (bump blank) (bump_memory blank) nothing
      (map pos (b'a' ∷ b')' ∷ b'+' ∷ [])) (omega arith)

-- (a*b+c) gives abc+*
infix_to_postfix_list-paren_example :
    infix_to_postfix_list is_alnum
      (bump blank)
      nothing
      (print (paren (chain (operand (pos b'a')) ((times, pos b'b') ∷ (plus, pos b'c') ∷ []))))
    ≡ some (map pos (b'a' ∷ b'b' ∷ b'c' ∷ b'+' ∷ b'*' ∷ []))
unfolding print chain operands backwards
infix_to_postfix_list-paren_example =
    infix_to_postfix_list-paren ascii (bump blank) (bump_memory blank) nothing (pos b'a')
      ((times, pos b'b') ∷ (plus, pos b'c') ∷ []) refl (refl, (refl, tt)) (omega arith)
      (omega arith)

bottom_is_x : bottom (pos b'y') ((1, pos b'x') ∷ []) ≡ pos b'x'
unfolding bottom
bottom_is_x = refl

push_list-pop_list_example :
    Refused (bump blank) two two_cells (pos b'z') two_IsStack
    ⊎ (Miscounted (bump blank) two two_cells (pos b'z') two_IsStack
        ⊎ Popped (bump blank) two two_cells (pos b'z') two_IsStack)
push_list-pop_list_example =
    push_list-pop_list (bump blank) two two_cells (pos b'z') two_IsStack (omega arith)
