-- ===== src/ListStack/Menu.antt =====
-- `start_list_menu` and `print_stack` of list_operations.c: a round of the loop at a time. `none`
-- is a fault: a NULL or freed address, an index behind the end of `arr`, or a text that does not fit
-- in the 102 bytes of `s` or `infix`.
pub mod Parts
pub mod Steps
pub mod Session
pub mod Tests
use ics7_os.Common.{
  ℕ, zero, suc, Bool, true, false, Option, none, some, List, [], ◌∷◌, ◌++◌, ℤ, pos, eqb_ℤ, ltb_ℤ,
  ltb, leb, ◌==◌, length, if◌then◌else◌,
}
use ics7_os.Common.Options.{◌>>=◌}
use ics7_os.ArrayStack.{max_size, is_zero}
use ics7_os.ArrayStack.Menu.{
  Entry, unread, key, or_else, within, scan, added, not_added, removed, was_empty, limit_exceeded,
  goodbye, incorrect, bad_input, converted, shown,
}
use ics7_os.Memory.{Ptr, null, load}
use ics7_os.ListStack.{Heap, Allocator, Stack, push_list, pop_list, walk_fuel, convert_list}
use ics7_os.ListStack.Chain.{Cells, values}
use ics7_os.ListStack.Freed.{Freed, add_delete_memory, delete_old_memory_from_array}
use ics7_os.ArrayStack.Menu as ArrayMenu

-- What is printed: a text as in the other menu, or the nodes with their addresses and the addresses
-- that were freed.
pub data Message : Type 0 where
  said : ArrayMenu.Message → Message
  listed : Cells → List Ptr → Message

-- The locals that outlive a round: `list` and `n`, `arr` and `m`, `infix`, and `action`.
pub record Menu : Type 0 where
  pub stack : Stack
  pub freed : Freed
  pub text : List ℤ
  pub action : ℤ

unfoldable pub print_stack : ℕ → Heap → Ptr → Option Cells
print_stack zero h p = none
print_stack (suc k) h p = load h p >>= λ c. elim (c.next == null) [
  | true ↦ some ((p, c.value) ∷ [])
  | false ↦ print_stack k h c.next >>= λ rest. some ((p, c.value) ∷ rest)
]

-- The `for` of case 4.
abbrev pub addresses : (ℕ → Ptr) → ℕ → List Ptr
addresses arr zero = []
addresses arr (suc m) = addresses arr m ++ arr m ∷ []

module _ (isalnum : ℤ → Bool) (a : Allocator) where
  -- Case 1, behind `scanf`. A word of one character is pushed.
  pub on_add : Menu → Option (List ℤ) → Option (Menu × List Message)
  on_add m (some (c ∷ [])) =
      let r = push_list a m.stack c in
      delete_old_memory_from_array r.1.s m.freed >>= λ d.
      some (
        record m { stack = r.1; freed = d.1 },
        said (if is_zero r.0 then added else not_added) ∷ [],
      )
  on_add m word = some (m, said not_added ∷ [])

  -- Case 2.
  pub on_remove : Menu → Option (Menu × List Message)
  on_remove m = add_delete_memory m.stack.s m.stack.n m.freed >>= λ d. pop_list m.stack >>= λ r.
      some (
        record m { stack = r.1; freed = d.1 },
        said (if ltb_ℤ (pos 0) r.0 then removed else was_empty) ∷ [],
      )

  -- Case 3, behind `scanf`.
  pub on_convert : Menu → List ℤ → Option (Menu × List Message)
  on_convert m text = elim (ltb (length text) max_size) [
    | true ↦ convert_list isalnum a m.stack.heap text >>= λ r. some (
      record m { stack = record m.stack { heap = r.0.heap }; text = text },
      said (converted (some r.1)) ∷ [],
    )
    | false ↦ some (record m { text = text }, said limit_exceeded ∷ [])
  ]

  -- Case 4, which goes on into case 5.
  pub on_show : Menu → Option (Menu × List Message)
  on_show m = elim (leb 1 m.stack.n) [
    | true ↦ print_stack walk_fuel m.stack.heap m.stack.s >>= λ cells.
        some (m, listed cells (addresses m.freed.arr m.freed.m) ∷ said goodbye ∷ [])
    | false ↦ some (m, said was_empty ∷ said goodbye ∷ [])
  ]

  -- In case 3 a failed `scanf` leaves the last text.
  on_key : Menu → ℤ → Option (List ℤ) → Option (Menu × List Message)
  on_key m k word =
      if eqb_ℤ k (pos 1)
      then (scan max_size word >>= λ w. on_add m w)
      else if eqb_ℤ k (pos 2)
      then on_remove m
      else if eqb_ℤ k (pos 3)
      then (scan max_size word >>= λ w.
          within max_size (or_else m.text w) >>= λ text. on_convert m text)
      else if eqb_ℤ k (pos 4)
      then on_show m
      else if eqb_ℤ k (pos 5)
      then some (m, said goodbye ∷ [])
      else some (m, said incorrect ∷ [])

  pub round : Menu → Entry → Option (Menu × List Message)
  unfolding on_add on_remove on_convert on_show on_key
  round m unread = some (m, said bad_input ∷ [])
  round m (key k word) = on_key (record m { action = k }) k word

  -- The `do` loop, which an unread key does not end, as long as there is input.
  pub rounds : Menu → List Entry → Option (Menu × List Message)
  rounds m [] = some (m, [])
  rounds m (e ∷ es) = round m e >>= λ s. elim (eqb_ℤ s.0.action (pos 5)) [
    | true ↦ some s
    | false ↦ rounds s.0 es >>= λ r. some (r.0, s.1 ++ r.1)
  ]

  -- `arr` and `infix` start unset: `unset` are the bytes of `infix` up to the first NUL.
  unfoldable pub start_list_menu :
      Heap → (ℕ → Ptr) → List ℤ → List Entry → Option (Menu × List Message)
  unfolding round rounds
  start_list_menu h arr unset es =
      rounds
        (record {
          stack = record { heap = h; s = null; n = 0 };
          freed = record { arr = arr; m = 0 };
          text = unset;
          action = pos 0;
        })
        es
