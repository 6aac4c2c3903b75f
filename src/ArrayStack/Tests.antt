-- ===== src/ArrayStack/Tests.antt =====
-- Runs of array_operations.c, and its theorems at concrete inputs.
use mathlib.Core.List.{map}
use ics7_os.Common.{
  ℕ, ◌≤◌, ◌≡◌, refl, none, some, List, [], ◌∷◌, ℤ, pos, to_char, negsuc, length, All, arith,
}
use ics7_os.Infix.{plus, minus, times, Expr, operand, paren, bin, print, postfix}
use ics7_os.Infix.Ascii.{is_alnum, ascii}
use ics7_os.ArrayStack.{
  Stack, init, push, pop, top, empty, precedence, infix_to_postfix, create_infix_form,
}
use ics7_os.ArrayStack.Correct.{infix_to_postfix-print}
use ics7_os.ArrayStack.Bounds.{infix_to_postfix_bounded}
use ics7_os.ArrayStack.Menu.{
  Entry, unread, key, added, removed, was_empty, shown, goodbye, Menu, text_size, start_array_menu,
}
use ics7_os.ArrayStack.Menu.Session.{IsTyped, session, start_array_menu-session}

abbrev blank : Stack
blank = record { cells = λ _. negsuc 41; top_index = pos 7 }

abbrev letter : ℕ → Expr
letter c = operand (pos c)

-- (a*b+c)-d
abbrev sample : Expr
sample =
    bin minus (paren (bin plus (bin times (letter b'a') (letter b'b')) (letter b'c'))) (letter b'd')

infix_to_postfix-print_example :
    infix_to_postfix is_alnum blank (print sample) ≡ some (postfix sample)
unfolding print
infix_to_postfix-print_example =
    infix_to_postfix-print ascii sample blank
      (omega arith, (omega arith, (omega arith, refl, refl), refl), refl) (omega arith)
      (omega arith)

sample_text :
    some (postfix sample) ≡ some (map pos (b'a' ∷ b'b' ∷ b'*' ∷ b'c' ∷ b'+' ∷ b'd' ∷ b'-' ∷ []))
unfolding postfix
sample_text = refl

-- "a)b(+": brackets that do not match
abbrev stray : List ℤ
stray = map pos (b'a' ∷ b')' ∷ b'b' ∷ b'(' ∷ b'+' ∷ [])

stray_result :
    infix_to_postfix is_alnum blank stray ≡ some (map pos (b'a' ∷ b'b' ∷ b'+' ∷ b'(' ∷ []))
unfolding infix_to_postfix push pop top empty init precedence to_char
stray_result = refl

infix_to_postfix_bounded_example :
    (out : List ℤ) × (infix_to_postfix is_alnum blank stray ≡ some out) × (length out ≤ 5)
infix_to_postfix_bounded_example = infix_to_postfix_bounded is_alnum blank stray (omega arith)

abbrev typed : List Entry
typed =
    key (pos 1) (some (pos b'x' ∷ []))
    ∷ key (pos 1) (some (pos b'y' ∷ []))
    ∷ key (pos 4) none
    ∷ key (pos 2) none
    ∷ key (pos 2) none
    ∷ key (pos 2) none
    ∷ key (pos 5) none
    ∷ unread
    ∷ []

typed_ascii : All (IsTyped text_size) typed
typed_ascii = (
  (omega arith, ((omega arith, refl), tt)),
  ((omega arith, ((omega arith, refl), tt)), (tt, (tt, (tt, (tt, (tt, (tt, tt))))))),
)

start_array_menu-session_example :
    (end : Menu) × (start_array_menu is_alnum blank blank [] typed
      ≡ some (end, session is_alnum blank [] [] typed))
start_array_menu-session_example =
    start_array_menu-session is_alnum blank blank [] typed (omega arith) typed_ascii

typed_result :
    session is_alnum blank [] [] typed
    ≡ added
      ∷ added
      ∷ shown (pos b'x' ∷ pos b'y' ∷ [])
      ∷ removed
      ∷ removed
      ∷ was_empty
      ∷ goodbye
      ∷ []
unfolding session infix_to_postfix push pop top empty init precedence to_char create_infix_form
typed_result = refl
