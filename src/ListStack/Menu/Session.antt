-- ===== src/ListStack/Menu/Session.antt =====
-- A session of `start_list_menu` against a bounded stack of characters.
use mathlib.Core.List.{map, map-append}
use ics7_os.Common.{
  ℕ, ◌+◌, ◌≤◌, ◌<◌, ◌≡◌, ◌≢◌, refl, sym, ap, ap₂, append-nil, subst, ◌∙◌, inl, inr, Bool, false,
  Bool-cases, Option, none, some, List, [], ◌∷◌, ◌++◌, ℤ, pos, eqb_ℤ, eqb_ℤ_iff, length, All,
  All-mono, IsChar, arith, if◌then◌else◌,
}
use ics7_os.Common.Options.{◌>>=◌}
use ics7_os.ArrayStack.{max_size}
use ics7_os.ArrayStack.Menu as ArrayMenu
use ics7_os.ArrayStack.Menu.{
  Entry, unread, key, or_else, added, not_added, removed, was_empty, limit_exceeded, goodbye,
  incorrect, bad_input, converted, shown,
}
use ics7_os.ArrayStack.Menu.Session.{
  IsWord, IsTyped, IsAscii, Positive, within-fits, scan-IsWord, or_else-fits, text_after-fits,
  Positive-items_after, add_message, drop_message, items_after, text_after,
}
use ics7_os.Memory.{Ptr, null}
use ics7_os.ListStack.{Heap, Allocator}
use ics7_os.ListStack.Chain.{Cells, values, IsStack}
use ics7_os.ListStack.Ops.{empty_IsStack}
use ics7_os.ListStack.Freed.{array_size}
use ics7_os.ListStack.Menu.Steps.{
  plain, show_messages, Does, Does-same, convert_message, on_add-Does, on_remove-Does, on_show-Does,
  on_convert-Does,
}
use ics7_os.ListStack.Menu.{Message, said, Menu, on_key, round, rounds, start_list_menu}

abbrev action_after : ℤ → Entry → ℤ
action_after old unread = old
action_after old (key k word) = k

abbrev stops : Entry → Bool
stops unread = false
stops (key k word) = eqb_ℤ k (pos 5)

module _ (isalnum : ℤ → Bool) where
  -- What a round prints, by the contract, for a stack that holds `xs`.
  message_of : List ℤ → List ℤ → Entry → List ArrayMenu.Message
  message_of xs text unread = bad_input ∷ []
  message_of xs text (key k word) =
      if eqb_ℤ k (pos 1)
      then add_message xs word ∷ []
      else if eqb_ℤ k (pos 2)
      then drop_message xs ∷ []
      else if eqb_ℤ k (pos 3)
      then convert_message isalnum (or_else text word) ∷ []
      else if eqb_ℤ k (pos 4)
      then show_messages xs
      else if eqb_ℤ k (pos 5)
      then goodbye ∷ []
      else incorrect ∷ []

  -- What a session prints, by the contract.
  unfoldable pub session : List ℤ → List ℤ → List Entry → List ArrayMenu.Message
  unfolding message_of show_messages convert_message
  session xs text [] = []
  session xs text (e ∷ es) =
      let rest = session (items_after xs e) (text_after text e) es in
      message_of xs text e ++ (if stops e then [] else rest)

module _ (isalnum : ℤ → Bool) (a : Allocator) (memory : (h : Heap) → a.malloc h ≢ null) where
  IsChar-or_else :
      (text : List ℤ) (word : Option (List ℤ))
      → All IsChar text
      → IsWord max_size word
      → All IsChar (or_else text word)
  IsChar-or_else text none h t = h
  IsChar-or_else text (some word) h t = All-mono IsAscii IsChar word (λ x c. c.0) t.1

  round-Does :
      (b : ℕ) (m : Menu) (cells : Cells) (e : Entry)
      → b < array_size
      → IsStack m.stack cells
      → m.freed.m ≤ b
      → All IsChar m.text
      → length m.text < max_size
      → All Positive (values cells)
      → IsTyped max_size e
      → Does
          (round isalnum a m e)
          (action_after m.action e)
          (items_after (values cells) e)
          (text_after m.text e)
          (b + 1)
          (message_of isalnum (values cells) m.text e)
  unfolding round on_key message_of items_after text_after
  round-Does b m cells unread room is few chars fits above t =
      Does-same isalnum a memory b room m cells is few (said bad_input ∷ [])
  round-Does b m cells (key k word) room is few chars fits above t =
      let m' : Menu = record m { action = k } in
      let same = Does-same isalnum a memory b room m' cells is few in
      elim (Bool-cases (eqb_ℤ k (pos 1))) [
        | inl e ↦
            rw (e, (eqb_ℤ_iff k (pos 1)).0 e)
              (rw (scan-IsWord max_size word t, ◌>>=◌)
                (on_add-Does isalnum a memory b room (record m { action = pos 1 }) cells is few word
                  t))
        | inr e₁ ↦ elim (Bool-cases (eqb_ℤ k (pos 2))) [
          | inl e ↦
              rw (e, (eqb_ℤ_iff k (pos 2)).0 e)
                (on_remove-Does isalnum a memory b (record m { action = pos 2 }) cells room is few
                  above)
          | inr e₂ ↦ elim (Bool-cases (eqb_ℤ k (pos 3))) [
            | inl e ↦
                rw (e, (eqb_ℤ_iff k (pos 3)).0 e)
                  (rw (scan-IsWord max_size word t, ◌>>=◌)
                    (rw (within-fits max_size _ (or_else-fits m.text word fits t), ◌>>=◌)
                      (on_convert-Does isalnum a memory b (record m { action = pos 3 }) cells
                        (or_else m.text word) room is few (IsChar-or_else m.text word chars t))))
            | inr e₃ ↦ elim (Bool-cases (eqb_ℤ k (pos 4))) [
              | inl e ↦
                  rw (e, (eqb_ℤ_iff k (pos 4)).0 e)
                    (on_show-Does isalnum a memory b (record m { action = pos 4 }) cells room is
                      few)
              | inr e₄ ↦ elim (Bool-cases (eqb_ℤ k (pos 5))) [
                | inl e ↦ rw (e₁, e₂, e₃, e₄, e) (same (said goodbye ∷ []))
                | inr e₅ ↦ rw (e₁, e₂, e₃, e₄, e₅) (same (said incorrect ∷ []))
              ]
            ]
          ]
        ]
      ]

  stops_after :
      (m : Menu) (e : Entry)
      → eqb_ℤ m.action (pos 5) ≡ false
      → eqb_ℤ (action_after m.action e) (pos 5) ≡ stops e
  stops_after m unread h = h
  stops_after m (key k word) h = refl

  IsChar-text_after :
      (text : List ℤ) (e : Entry)
      → All IsChar text
      → IsTyped max_size e
      → All IsChar (text_after text e)
  unfolding text_after
  IsChar-text_after text unread h t = h
  IsChar-text_after text (key k word) h t = elim (Bool-cases (eqb_ℤ k (pos 3))) [
    | inl e ↦ rw e (IsChar-or_else text word h t)
    | inr e ↦ rw e h
  ]

  abbrev Ends : Menu → List Entry → List ArrayMenu.Message → Type 0
  Ends m es replies =
      (next : Menu) × (out : List Message) × (rounds isalnum a m es ≡ some (next, out))
      × (map plain out ≡ replies)

  rounds-session :
      (es : List Entry) (b : ℕ) (m : Menu) (cells : Cells)
      → b + length es < array_size
      → IsStack m.stack cells
      → m.freed.m ≤ b
      → All IsChar m.text
      → length m.text < max_size
      → All Positive (values cells)
      → eqb_ℤ m.action (pos 5) ≡ false
      → All (IsTyped max_size) es
      → Ends m es (session isalnum (values cells) m.text es)
  unfolding rounds session
  rounds-session [] b m cells room is few chars fits above going t = (m, [], refl, refl)
  rounds-session (e ∷ es) b m cells room is few chars fits above going t =
      let d = round-Does b m cells e (omega arith) is few chars fits above t.0 in
      let after : eqb_ℤ d.next.action (pos 5) ≡ stops e =
        ap (λ k. eqb_ℤ k (pos 5)) d.action_kept ∙ stops_after m e going in
      elim (Bool-cases (stops e)) [
        | inl last ↦ (
          d.next,
          d.messages,
          rw (d.works, ◌>>=◌) (rw (after, last)),
          rw last (d.says ∙ sym (append-nil (message_of isalnum (values cells) m.text e))),
        )
        | inr more ↦
            let (next, out, q, says) =
              rounds-session es (b + 1) d.next d.cells (omega arith) d.is d.few
                (subst (All IsChar) (sym d.text_kept) (IsChar-text_after m.text e chars t.0))
                (subst (λ l. length l < max_size) (sym d.text_kept)
                  (text_after-fits m.text e fits t.0))
                (subst (All Positive) (sym d.same)
                  (Positive-items_after max_size (values cells) e above t.0))
                (after ∙ more) t.1 in
            (
              next,
              d.messages ++ out,
              rw (d.works, ◌>>=◌) (rw (after, more) (rw (q, ◌>>=◌))),
              rw more (
                  map-append plain d.messages out
                  ∙ ap₂ (λ l l'. l ++ l') d.says
                      (says ∙ ap₂ (λ xs text. session isalnum xs text es) d.same d.text_kept)),
            )
      ]

  -- When `malloc` never gives NULL, fewer than 500 keys are typed, the bytes of `infix` are
  -- characters with a NUL among the first 102, and the words typed are ASCII characters, none of
  -- them NUL, fewer than 102 in each word: `start_list_menu` meets no fault, and prints, but for
  -- addresses, what a stack of at most 102 characters would. It adds a one-character word while
  -- there is room, removes the last one added, and shows the elements, that one first. Only the key
  -- 5 ends it: a key that is not read does not.
  pub start_list_menu-session :
      (h : Heap) (arr : ℕ → Ptr) (unset : List ℤ) (es : List Entry)
      → length es < array_size
      → All IsChar unset
      → length unset < max_size
      → All (IsTyped max_size) es
      → (next : Menu) × (out : List Message) × (start_list_menu isalnum a h arr unset es
          ≡ some (next, out))
        × (map plain out ≡ session isalnum [] unset es)
  unfolding start_list_menu
  start_list_menu-session h arr unset es few chars fits t =
      rounds-session es 0 _ [] (omega (arith, few)) (empty_IsStack h) (omega arith) chars fits tt
        refl t
