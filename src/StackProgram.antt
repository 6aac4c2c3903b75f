-- ===== src/StackProgram.antt =====
-- `main` and `compare_time` of unix-lab-02/task3/lab_4_9 (main.c and time.c): the program around
-- the two stacks. `none` is a fault in one of the functions that are called, or
-- a text that does not fit in its buffer.
pub mod Equal
pub mod Session
pub mod Tests
use ics7_os.Common.{
  ℕ, zero, suc, Bool, true, false, Option, none, some, List, [], ◌∷◌, ◌++◌, ℤ, pos, eqb_ℤ,
  if◌then◌else◌,
}
use ics7_os.Common.Options.{◌>>=◌}
use ics7_os.Memory.{Ptr}
use ics7_os.ArrayStack.{ok, err_read, infix_to_postfix}
use ics7_os.ArrayStack as Array
use ics7_os.ArrayStack.Menu.{Entry, text_size, within, start_array_menu}
use ics7_os.ArrayStack.Menu as ArrayMenu
use ics7_os.ListStack.{Heap, Allocator, convert_list}
use ics7_os.ListStack.Menu.{start_list_menu}
use ics7_os.ListStack.Menu as ListMenu

-- What the locals of a function that is called hold before they are set: `arr` of the two menus,
-- `infix`, and the bytes of `str` behind the hundred that are set; of both, up to the first NUL,
-- which may lie behind the buffer.
pub record Frame : Type 0 where
  pub arr : Array.Stack
  pub addresses : ℕ → Ptr
  pub text : List ℤ
  pub tail : List ℤ

-- What a round reads: a key, if `input_key` can read it, and what is typed while the menu that it
-- opens is open.
pub data Choice : Type 0 where
  unread : Choice
  key : ℤ → List Entry → Frame → Choice

-- What a round prints, with the messages of the list menu in `M`. `compared` has what the
-- converters wrote, in place of the times.
pub data Said (M : Type 0) : Type 0 where
  bad_input incorrect farewell : Said M
  array_menu : List ArrayMenu.Message → Said M
  list_menu : List M → Said M
  compared : List (Option (List ℤ)) → List (List ℤ) → Said M

pub record Main : Type 0 where
  pub heap : Heap
  pub action : ℤ
  pub rc : ℤ

-- N_TIME
abbrev pub n_time : ℕ
n_time = 100

-- The `for` that fills `str`.
abbrev pub pairs : ℕ → List ℤ
pairs zero = []
pairs (suc n) = pos b'1' ∷ pos b'+' ∷ pairs n

unfoldable pub str : List ℤ → List ℤ
str tail = pairs 50 ++ tail

-- `local_stack` is the stack of a converter, before it is set. These are the measured loops.
module _ (isalnum : ℤ → Bool) (local_stack : Array.Stack) where
  unfoldable pub array_times : ℕ → List ℤ → List (Option (List ℤ))
  array_times zero text = []
  array_times (suc n) text = infix_to_postfix isalnum local_stack text ∷ array_times n text

module _ (isalnum : ℤ → Bool) (a : Allocator) where
  unfoldable pub list_times : ℕ → Heap → List ℤ → Option (Heap × List (List ℤ))
  list_times zero h text = some (h, [])
  list_times (suc n) h text = convert_list isalnum a h text >>= λ r.
      list_times n r.0.heap text >>= λ rest. some (rest.0, r.1 ∷ rest.1)

module _ (isalnum : ℤ → Bool) (local_stack : Array.Stack) (a : Allocator) where
  unfoldable pub compare_time :
      Heap → List ℤ → Option (Heap × List (Option (List ℤ)) × List (List ℤ))
  unfolding str array_times list_times
  compare_time h tail = within text_size (str tail) >>= λ text.
      list_times isalnum a n_time h text >>= λ r.
      some (r.0, array_times isalnum local_stack n_time text, r.1)

  -- Cases 1, 2 and 3.
  unfoldable pub on_array_menu : Main → List Entry → Frame → Option (Main × Said ListMenu.Message)
  on_array_menu m es f =
      start_array_menu isalnum local_stack f.arr f.text es >>= λ r. some (m, array_menu r.1)

  unfoldable pub on_list_menu : Main → List Entry → Frame → Option (Main × Said ListMenu.Message)
  on_list_menu m es f = start_list_menu isalnum a m.heap f.addresses f.text es >>= λ r.
      some (record m { heap = r.0.stack.heap }, list_menu r.1)

  unfoldable pub on_compare : Main → Frame → Option (Main × Said ListMenu.Message)
  on_compare m f =
      compare_time m.heap f.tail >>= λ r. some (record m { heap = r.0 }, compared r.1 r.2)

  -- The `switch`. `str` and `post` of case 3 have `text_size` bytes each.
  unfoldable pub on_key : Main → ℤ → List Entry → Frame → Option (Main × Said ListMenu.Message)
  on_key m k es f =
      if eqb_ℤ k (pos 1)
      then on_array_menu m es f
      else if eqb_ℤ k (pos 2)
      then on_list_menu m es f
      else if eqb_ℤ k (pos 3)
      then on_compare m f
      else if eqb_ℤ k (pos 4)
      then some (m, farewell)
      else some (m, incorrect)

  unfoldable pub round : Main → Choice → Option (Main × Said ListMenu.Message)
  round m unread = some (record m { rc = err_read }, bad_input)
  round m (key k es f) = on_key (record m { action = k; rc = ok }) k es f

  -- The `do` loop, as long as there is input; it does not look at `rc`.
  unfoldable pub rounds : Main → List Choice → Option (Main × List (Said ListMenu.Message))
  rounds m [] = some (m, [])
  rounds m (c ∷ cs) = round m c >>= λ s. elim (eqb_ℤ s.0.action (pos 4)) [
    | true ↦ some (s.0, s.1 ∷ [])
    | false ↦ rounds s.0 cs >>= λ r. some (r.0, s.1 ∷ r.1)
  ]

  -- `action` starts unset.
  unfoldable pub main : Heap → ℤ → List Choice → Option (Main × List (Said ListMenu.Message))
  main h unset cs = rounds (record { heap = h; action = unset; rc = ok }) cs
