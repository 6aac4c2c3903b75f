-- ===== src/ListStack/Menu/Tests.antt =====
-- A session of `start_list_menu`.
use mathlib.Core.List.{map}
use ics7_os.Common.{◌≡◌, refl, some, none, List, [], ◌∷◌, pos, All, arith}
use ics7_os.Infix.Ascii.{is_alnum}
use ics7_os.ArrayStack.{max_size}
use ics7_os.ArrayStack.Menu.{
  Entry, unread, key, added, removed, goodbye, bad_input, converted, shown,
}
use ics7_os.ArrayStack.Menu.Session.{IsTyped, add_message, items_after, drop_message}
use ics7_os.ListStack.Reference.{convert}
use ics7_os.Memory.{null, empty_memory, bump, bump_memory}
use ics7_os.ListStack.{Node, node}
use ics7_os.ListStack.Menu.{Menu, Message, start_list_menu}
use ics7_os.ListStack.Menu.Steps.{plain}
use ics7_os.ListStack.Menu.Session.{session, start_list_menu-session}

abbrev blank : Node
blank = node (pos 0) null

-- Two characters, a look at the stack, an expression, a letter where a number is asked for, and so
-- on.
abbrev typed : List Entry
typed =
    key (pos 1) (some (pos b'x' ∷ []))
    ∷ key (pos 1) (some (pos b'y' ∷ []))
    ∷ key (pos 4) none
    ∷ key (pos 3) (some (pos b'a' ∷ pos b'+' ∷ pos b'b' ∷ []))
    ∷ unread
    ∷ key (pos 2) none
    ∷ key (pos 5) none
    ∷ unread
    ∷ []

typed_ascii : All (IsTyped max_size) typed
typed_ascii = (
  (omega arith, ((omega arith, refl), tt)),
  (
    (omega arith, ((omega arith, refl), tt)),
    (
      tt,
      (
        (omega arith, ((omega arith, refl), ((omega arith, refl), ((omega arith, refl), tt)))),
        (tt, (tt, (tt, (tt, tt)))),
      ),
    ),
  ),
)

start_list_menu-session_example :
    (next : Menu) × (out : List Message) × (start_list_menu is_alnum
        (bump blank)
        empty_memory
        (λ _. null)
        []
        typed
      ≡ some (next, out))
    × (map plain out ≡ session is_alnum [] [] typed)
start_list_menu-session_example =
    start_list_menu-session is_alnum (bump blank) (bump_memory blank) empty_memory (λ _. null) []
      typed (omega arith) tt (omega arith) typed_ascii

typed_result :
    session is_alnum [] [] typed
    ≡ added
      ∷ added
      ∷ shown (pos b'y' ∷ pos b'x' ∷ [])
      ∷ goodbye
      ∷ converted (some (pos b'a' ∷ pos b'b' ∷ pos b'+' ∷ []))
      ∷ bad_input
      ∷ removed
      ∷ goodbye
      ∷ []
unfolding session add_message items_after drop_message convert
typed_result = refl
