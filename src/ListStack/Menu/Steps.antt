-- ===== src/ListStack/Menu/Steps.antt =====
-- Each case of `start_list_menu`, on a stack that holds characters.
use mathlib.Core.List.{map}
use ics7_os.Common.{
  ℕ, ◌+◌, ◌≤◌, ◌<◌, ◌≡◌, ◌≢◌, refl, ap, ◌∙◌, inl, inr, Bool, Bool-cases, Option, none, some, List,
  [], ◌∷◌, ℤ, ltb, leb_of_le, leb_of_gt, length, All, IsChar, arith, dec_lt, lt→ltb, ltb_of_ge,
  if◌then◌else◌,
}
use ics7_os.Common.Options.{◌>>=◌}
use ics7_os.ArrayStack.{max_size}
use ics7_os.ArrayStack.Menu as ArrayMenu
use ics7_os.ArrayStack.Menu.{
  Entry, unread, key, or_else, added, not_added, removed, was_empty, limit_exceeded, goodbye,
  incorrect, bad_input, converted, shown,
}
use ics7_os.ArrayStack.Menu.Session.{
  IsWord, Positive, add_items, drop_items, add_message, drop_message,
}
use ics7_os.Memory.{null}
use ics7_os.ListStack.{Heap, Allocator, walk_fuel}
use ics7_os.ListStack.Chain.{Cells, values, IsStack, length-values}
use ics7_os.ListStack.Ops.{push_list-cons, push_list_refused, pop_list-cons, pop_list-nil}
use ics7_os.ListStack.Reference.{convert}
use ics7_os.ListStack.Refine.{convert_list-convert}
use ics7_os.ListStack.Freed.{array_size}
use ics7_os.ListStack.Menu.Parts.{
  add_delete_memory-le, delete_old_memory_from_array-le, print_stack-cells,
}
use ics7_os.ListStack.Menu.{
  Message, said, listed, Menu, print_stack, addresses, on_add, on_remove, on_convert, on_show,
}

-- A message without its addresses.
abbrev pub plain : Message → ArrayMenu.Message
plain (said message) = message
plain (listed cells addresses) = shown (values cells)

unfoldable pub show_messages : List ℤ → List ArrayMenu.Message
show_messages [] = was_empty ∷ goodbye ∷ []
show_messages (x ∷ xs) = shown (x ∷ xs) ∷ goodbye ∷ []

unfoldable pub convert_message : (ℤ → Bool) → List ℤ → ArrayMenu.Message
convert_message isalnum text =
    if ltb (length text) max_size then converted (some (convert isalnum text)) else limit_exceeded

-- A round ends, and leaves a stack that holds `xs`, top first, `text`, and at most `b` addresses.
pub record Does (r : Option (Menu × List Message)) (action : ℤ) (xs text : List ℤ) (b : ℕ)
    (replies : List ArrayMenu.Message) : Type 0 where
  pub next : Menu
  pub messages : List Message
  pub works : r ≡ some (next, messages)
  pub cells : Cells
  pub is : IsStack next.stack cells
  pub same : values cells ≡ xs
  pub few : next.freed.m ≤ b
  pub text_kept : next.text ≡ text
  pub action_kept : next.action ≡ action
  pub says : map plain messages ≡ replies

module _ (isalnum : ℤ → Bool) (a : Allocator) (memory : (h : Heap) → a.malloc h ≢ null) (b : ℕ)
    (room : b < array_size) (m : Menu) (cells : Cells) (is : IsStack m.stack cells)
    (few : m.freed.m ≤ b) where
  -- The menu stays as it is.
  pub Does-same :
      (messages : List Message)
      → Does (some (m, messages)) m.action (values cells) m.text (b + 1) (map plain messages)
  Does-same messages = record {
    next = m;
    messages = messages;
    works = refl;
    cells = cells;
    is = is;
    same = refl;
    few = omega (arith, few);
    text_kept = refl;
    action_kept = refl;
    says = refl;
  }

  pub on_add-Does :
      (word : Option (List ℤ))
      → IsWord max_size word
      → Does
          (on_add isalnum a m word)
          m.action
          (add_items (values cells) word)
          m.text
          (b + 1)
          (add_message (values cells) word ∷ [])
  unfolding on_add add_items add_message
  on_add-Does none t = Does-same (said not_added ∷ [])
  on_add-Does (some []) t = Does-same (said not_added ∷ [])
  on_add-Does (some (c ∷ d ∷ w)) t = Does-same (said not_added ∷ [])
  on_add-Does (some (c ∷ [])) t = elim (dec_lt (length cells) max_size) [
    | yes h ↦
        let (st', q, is') = push_list-cons a m.stack cells c is h (memory m.stack.heap) t.1.0.0 in
        let (r, e, le) = delete_old_memory_from_array-le st'.s m.freed (omega (arith, few)) in
        record {
          next = record m { stack = st'; freed = r.1 };
          messages = said added ∷ [];
          works = rw (q, ◌>>=◌) (rw (e, ◌>>=◌));
          cells = (a.malloc m.stack.heap, c) ∷ cells;
          is = is';
          same = rw (length-values cells, lt→ltb _ _ h);
          few = omega (arith, le, few);
          text_kept = refl;
          action_kept = refl;
          says = rw (length-values cells, lt→ltb _ _ h);
        }
    | no h ↦
        let (st', q, is', _at) =
          push_list_refused a m.stack cells c is (omega (arith, is.room)) (memory m.stack.heap) in
        let (r, e, le) = delete_old_memory_from_array-le st'.s m.freed (omega (arith, few)) in
        let full = ltb_of_ge (length cells) max_size (omega arith) in
        record {
          next = record m { stack = st'; freed = r.1 };
          messages = said not_added ∷ [];
          works = rw (q, ◌>>=◌) (rw (e, ◌>>=◌));
          cells = cells;
          is = is';
          same = rw (length-values cells, full);
          few = omega (arith, le, few);
          text_kept = refl;
          action_kept = refl;
          says = rw (length-values cells, full);
        }
  ]

module _ (isalnum : ℤ → Bool) (a : Allocator) (memory : (h : Heap) → a.malloc h ≢ null) where
  pub on_remove-Does :
      (b : ℕ) (m : Menu) (cells : Cells)
      → b < array_size
      → IsStack m.stack cells
      → m.freed.m ≤ b
      → All Positive (values cells)
      → Does
          (on_remove isalnum a m)
          m.action
          (drop_items (values cells))
          m.text
          (b + 1)
          (drop_message (values cells) ∷ [])
  unfolding on_remove drop_items drop_message
  on_remove-Does b m [] room is few above =
      let (r, e, le) = add_delete_memory-le m.stack.s m.stack.n m.freed (omega (arith, few)) in
      record {
        next = record m { freed = r.1 };
        messages = said was_empty ∷ [];
        works = rw (e, ◌>>=◌) (rw (pop_list-nil m.stack is, ◌>>=◌));
        cells = [];
        is = is;
        same = refl;
        few = omega (arith, le, few);
        text_kept = refl;
        action_kept = refl;
        says = refl;
      }
  on_remove-Does b m ((p, v) ∷ cells) room is few above =
      let (r, e, le) = add_delete_memory-le m.stack.s m.stack.n m.freed (omega (arith, few)) in
      let (st', q, is', _heap) = pop_list-cons m.stack p v cells is in
      record {
        next = record m { stack = st'; freed = r.1 };
        messages = said removed ∷ [];
        works = rw (e, ◌>>=◌) (rw (q, ◌>>=◌) (rw (above.0) refl));
        cells = cells;
        is = is';
        same = refl;
        few = omega (arith, le, few);
        text_kept = refl;
        action_kept = refl;
        says = refl;
      }

  pub on_show-Does :
      (b : ℕ) (m : Menu) (cells : Cells)
      → b < array_size
      → IsStack m.stack cells
      → m.freed.m ≤ b
      → Does
          (on_show isalnum a m)
          m.action
          (values cells)
          m.text
          (b + 1)
          (show_messages (values cells))
  unfolding on_show show_messages
  on_show-Does b m [] room is few =
      rw (leb_of_gt 1 m.stack.n (omega (arith, is.counted)), on_show)
        (Does-same isalnum a memory b room m [] is few (said was_empty ∷ said goodbye ∷ []))
  on_show-Does b m ((p, v) ∷ cells) room is few =
      rw (leb_of_le 1 m.stack.n (omega (arith, is.counted)), on_show)
        (rw (printed, ◌>>=◌)
          (Does-same isalnum a memory b room m ((p, v) ∷ cells) is few
            (listed ((p, v) ∷ cells) (addresses m.freed.arr m.freed.m) ∷ said goodbye ∷ [])))
    where
      printed : print_stack walk_fuel m.stack.heap m.stack.s ≡ some ((p, v) ∷ cells)
      printed =
          ap (print_stack walk_fuel m.stack.heap) is.head
          ∙ print_stack-cells walk_fuel m.stack.heap p v cells is.chain (omega (arith, is.room))

  pub on_convert-Does :
      (b : ℕ) (m : Menu) (cells : Cells) (text : List ℤ)
      → b < array_size
      → IsStack m.stack cells
      → m.freed.m ≤ b
      → All IsChar text
      → Does
          (on_convert isalnum a m text)
          m.action
          (values cells)
          text
          (b + 1)
          (convert_message isalnum text ∷ [])
  unfolding on_convert convert_message
  on_convert-Does b m cells text room is few t = elim (Bool-cases (ltb (length text) max_size)) [
    | inl e ↦
        let (st, q, kept) =
          convert_list-convert isalnum a memory m.stack.heap text cells t is.chain in
        rw (e, on_convert)
          (rw (q, ◌>>=◌)
            (record {
              next = record m { stack = record m.stack { heap = st.heap }; text = text };
              messages = said (converted (some (convert isalnum text))) ∷ [];
              works = refl;
              cells = cells;
              is = record {
                head = is.head;
                counted = is.counted;
                room = is.room;
                chain = kept;
                chars = is.chars;
              };
              same = refl;
              few = omega (arith, few);
              text_kept = refl;
              action_kept = refl;
              says = refl;
            }))
    | inr e ↦
        rw (e, on_convert)
          (record {
            next = record m { text = text };
            messages = said limit_exceeded ∷ [];
            works = refl;
            cells = cells;
            is = is;
            same = refl;
            few = omega (arith, few);
            text_kept = refl;
            action_kept = refl;
            says = refl;
          })
  ]
