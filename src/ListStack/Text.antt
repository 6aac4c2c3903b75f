-- ===== src/ListStack/Text.antt =====
-- What `create_infix_form_list` writes.
use ics7_os.Common.{
  ℕ, zero, suc, ◌<◌, ◌≡◌, Option, none, some, List, [], ◌∷◌, ℤ, length, All, IsChar, arith,
  to_char-eq,
}
use ics7_os.Common.Options.{◌>>=◌}
use ics7_os.Memory.{Ptr}
use ics7_os.ListStack.{Heap, Stack, walk_fuel, letters_from, create_infix_form_list}
use ics7_os.ListStack.Chain.{Cells, values, Chain, IsStack, load-cons}
use ics7_os.ListStack.Ops.{first-cons}

-- The values, the oldest one first.
unfoldable pub oldest_first : List ℤ → List ℤ → List ℤ
oldest_first [] later = later
oldest_first (x ∷ xs) later = oldest_first xs (x ∷ later)

letters_from-oldest_first :
    (k : ℕ) (h : Heap) (p : Ptr) (v : ℤ) (xs : Cells) (later : List ℤ)
    → Chain h ((p, v) ∷ xs)
    → All IsChar (v ∷ values xs)
    → length xs < k
    → letters_from k h p later ≡ some (oldest_first (v ∷ values xs) later)
unfolding letters_from oldest_first
letters_from-oldest_first zero h p v xs later ch c small = absurd (omega arith)
letters_from-oldest_first (suc k) h p v [] later ch c small =
    rw (load-cons h p v [] ch) (rw (to_char-eq v c.0))
letters_from-oldest_first (suc k) h p v ((q, w) ∷ xs) later ch c small =
    rw (load-cons h p v ((q, w) ∷ xs) ch) (
      rw (first-cons h q w xs ch.3, ◌>>=◌, letters_from)
        (rw (to_char-eq v c.0)
          (letters_from-oldest_first k h q w xs (v ∷ later) ch.3 c.1 (omega arith))))

-- On a stack with elements, `create_infix_form_list` writes its characters, the oldest one first.
-- On an empty stack it reads through a null pointer.
create_infix_form_list_lem :
    (st : Stack) (xs : Cells)
    → IsStack st xs
    → create_infix_form_list st.heap st.s ≡ elim xs as (λ _. Option (List ℤ)) [
      | [] ↦ none
      | (c ∷ cs) ↦ some (oldest_first (values (c ∷ cs)) [])
    ]
unfolding create_infix_form_list letters_from
create_infix_form_list_lem st [] is = rw is.head
create_infix_form_list_lem st ((p, v) ∷ xs) is = rw is.head (
    letters_from-oldest_first walk_fuel st.heap p v xs [] is.chain is.chars
      (omega (arith, is.room)))
