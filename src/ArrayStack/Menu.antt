-- ===== src/ArrayStack/Menu.antt =====
-- `start_array_menu` of array_operations.c: what the user types, a round of the loop at a time.
-- `none` is a fault: a text that does not fit in its buffer.
pub mod Session
use ics7_os.Common.{
  ℕ, zero, suc, Bool, true, false, ◌&&◌, ◌||◌, not, Option, none, some, List, [], ◌∷◌, ◌++◌, ℤ, pos,
  negsuc, eqb_ℤ, ltb_ℤ, ltb, ◌==◌, length, if◌then◌else◌,
}
use ics7_os.Common.Options.{◌>>=◌}
use ics7_os.ArrayStack.{
  Stack, max_size, ok, err_read, push, pop, init, is_zero, infix_to_postfix, create_infix_form,
}

-- What one round reads: a key that `input_key` cannot read, or a key and the word that a later
-- `scanf("%s")` of the round reads, if it makes that call and the input has a word. A word may be
-- longer than the buffer that it goes to, and may have NULs in it.
pub data Entry : Type 0 where
  unread : Entry
  key : ℤ → Option (List ℤ) → Entry

-- What a round prints behind the menu.
pub data Message : Type 0 where
  added not_added removed was_empty limit_exceeded goodbye incorrect bad_input : Message
  converted : Option (List ℤ) → Message
  shown : List ℤ → Message

-- The locals that outlive a round: `arr`, `infix`, `action` and `rc`.
pub record Menu : Type 0 where
  pub arr : Stack
  pub text : List ℤ
  pub action : ℤ
  pub rc : ℤ

-- N, the bytes of `infix` and of `s`
abbrev pub text_size : ℕ
text_size = 500

-- A text in a buffer of `size` bytes, with its NUL.
unfoldable pub within : ℕ → List ℤ → Option (List ℤ)
within size text = if ltb (length text) size then some text else none

-- What the string functions see of the bytes in a buffer.
unfoldable pub up_to_nul : List ℤ → List ℤ
up_to_nul [] = []
up_to_nul (c ∷ cs) = let rest = up_to_nul cs in if is_zero c then [] else c ∷ rest

-- `scanf("%s")` into a buffer of `size` bytes: the word as it is then seen, if there is one.
unfoldable pub scan : ℕ → Option (List ℤ) → Option (Option (List ℤ))
scan size none = some none
scan size (some word) = within size word >>= λ bytes. some (some (up_to_nul bytes))

-- Case 1, behind `scanf`. A word of one character is pushed.
unfoldable pub on_add : Menu → Option (List ℤ) → Menu × Message
on_add m (some (c ∷ [])) =
    let (rc, arr) = push m.arr c in
    (record m { arr = arr; rc = ok }, if is_zero rc then added else not_added)
on_add m word = (record m { rc = ok }, not_added)

-- Case 2.
unfoldable pub on_remove : Menu → Menu × Message
on_remove m =
    let (rc, arr) = pop m.arr in
    (record m { arr = arr; rc = ok }, if ltb_ℤ (pos 0) rc then removed else was_empty)

abbrev pub or_else : List ℤ → Option (List ℤ) → List ℤ
or_else old none = old
or_else old (some word) = word

-- `while (action != 5 && rc == OK)`
unfoldable pub goes_on : Menu → Bool
goes_on m = not (eqb_ℤ m.action (pos 5)) && is_zero m.rc

module _ (isalnum : ℤ → Bool) (local_stack : Stack) where
  -- Case 3, behind `scanf`; `local_stack` is the converter's own stack.
  on_convert : Menu → List ℤ → Menu × Message
  on_convert m text = (
    record m { text = text },
    if ltb (length text) max_size
        then converted (infix_to_postfix isalnum local_stack text)
        else limit_exceeded,
  )

  -- In case 3 a failed `scanf` leaves the last text.
  on_key : Menu → ℤ → Option (List ℤ) → Option (Menu × Message)
  on_key m k word =
      if eqb_ℤ k (pos 1)
      then (scan text_size word >>= λ w. some (on_add m w))
      else if eqb_ℤ k (pos 2)
      then some (on_remove m)
      else if eqb_ℤ k (pos 3)
      then (scan text_size word >>= λ w.
          within text_size (or_else m.text w) >>= λ text. some (on_convert m text))
      else if eqb_ℤ k (pos 4)
      then some (m, shown (create_infix_form m.arr))
      else if eqb_ℤ k (pos 5)
      then some (m, goodbye)
      else some (m, incorrect)

  unfoldable pub round : Menu → Entry → Option (Menu × Message)
  unfolding on_convert on_key
  round m unread = some (record m { rc = err_read }, bad_input)
  round m (key k word) = on_key (record m { action = k; rc = ok }) k word

  -- The `do` loop, as long as there is input: the messages, and the menu at the end.
  unfoldable pub rounds : Menu → List Entry → Option (Menu × List Message)
  unfolding goes_on round
  rounds m [] = some (m, [])
  rounds m (e ∷ es) = round m e >>= λ s. elim (goes_on s.0) [
    | true ↦ rounds s.0 es >>= λ r. some (r.0, s.1 ∷ r.1)
    | false ↦ some (s.0, s.1 ∷ [])
  ]

  -- `infix` starts unset: `unset` are its bytes up to the first NUL.
  unfoldable pub start_array_menu : Stack → List ℤ → List Entry → Option (Menu × List Message)
  unfolding rounds
  start_array_menu arr unset es =
      rounds (record { arr = init arr; text = unset; action = pos 0; rc = ok }) es
