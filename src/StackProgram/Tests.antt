-- ===== src/StackProgram/Tests.antt =====
-- The whole program of lab_4_9 at concrete inputs.
use mathlib.Core.List.{map}
use ics7_os.Common.{◌≡◌, refl, none, some, List, [], ◌∷◌, ℤ, pos, negsuc, arith}
use ics7_os.Infix.Ascii.{is_alnum}
use ics7_os.Memory.{null, empty_memory, bump, bump_memory}
use ics7_os.ArrayStack.{max_size, infix_to_postfix}
use ics7_os.ArrayStack as Array
use ics7_os.ArrayStack.Menu.{Entry, text_size}
use ics7_os.ArrayStack.Menu as ArrayMenu
use ics7_os.ListStack.{Node, node, infix_to_postfix_list}
use ics7_os.ListStack.Menu as ListMenu
use ics7_os.StackProgram.{Frame, Choice, unread, key, Said, Main, str, main}
use ics7_os.StackProgram.Equal.{
  Falling, ends, letter, operator, infix_to_postfix-infix_to_postfix_list,
}
use ics7_os.StackProgram.Session.{IsChoice, without_addresses, answers, main-answers}

abbrev blank : Node
blank = node (pos 0) null

abbrev unset : Array.Stack
unset = record { cells = λ _. negsuc 41; top_index = pos 7 }

-- a*b+c-
abbrev text : List ℤ
text = pos b'a' ∷ pos b'*' ∷ pos b'b' ∷ pos b'+' ∷ pos b'c' ∷ pos b'-' ∷ []

text_falls : Falling is_alnum 3 text
unfolding Array.precedence
text_falls = letter refl (
    operator refl refl refl (omega arith) (
      letter refl (
        operator refl refl refl (omega arith)
          (letter refl (operator refl refl refl (omega arith) ends)))))

infix_to_postfix-infix_to_postfix_list_example :
    (out : List ℤ) × (infix_to_postfix is_alnum unset text ≡ some out)
    × (infix_to_postfix_list is_alnum (bump blank) empty_memory text ≡ some out)
infix_to_postfix-infix_to_postfix_list_example =
    infix_to_postfix-infix_to_postfix_list is_alnum unset (bump blank) empty_memory 3 text
      (bump_memory blank) (omega arith) text_falls

abbrev frame : Frame
frame = record { arr = unset; addresses = λ _. null; text = []; tail = [] }

-- Both menus, with one character pushed and shown; a letter where a number is asked for; the times;
-- the exit.
abbrev menu_keys : List Entry
menu_keys =
    ArrayMenu.key (pos 1) (some (pos b'x' ∷ []))
    ∷ ArrayMenu.key (pos 4) none
    ∷ ArrayMenu.key (pos 5) none
    ∷ []

abbrev choices : List Choice
choices =
    key (pos 1) menu_keys frame
    ∷ key (pos 2) menu_keys frame
    ∷ unread
    ∷ key (pos 3) [] frame
    ∷ key (pos 4) [] frame
    ∷ unread
    ∷ []

no_keys : IsChoice (key (pos 3) [] frame)
unfolding str
no_keys = (tt, omega arith, tt, omega arith, tt, omega arith)

typed_keys : IsChoice (key (pos 1) menu_keys frame)
unfolding str
typed_keys = (
  ((omega arith, ((omega arith, refl), tt)), (tt, (tt, tt))),
  omega arith,
  tt,
  omega arith,
  tt,
  omega arith,
)

main-answers_example :
    (end : Main) × (out : List (Said ListMenu.Message)) × (main is_alnum unset
        (bump blank)
        empty_memory
        (pos 0)
        choices
      ≡ some (end, out))
    × (map without_addresses out ≡ answers is_alnum unset choices)
main-answers_example =
    main-answers is_alnum unset (bump blank) (bump_memory blank) empty_memory (pos 0) choices refl
      (typed_keys, (typed_keys, (tt, (no_keys, (no_keys, (tt, tt))))))
