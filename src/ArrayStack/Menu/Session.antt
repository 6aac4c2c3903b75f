-- ===== src/ArrayStack/Menu/Session.antt =====
-- A session of `start_array_menu` against a bounded stack of characters.
use mathlib.Core.List.{reverse, reverse-cons}
use mathlib.Core.Bool.{and-false}
use native.Mathlib.Nat.{zero-add}
use ics7_os.Common.{
  ℕ, zero, suc, ◌+◌, ◌<◌, ◌≡◌, refl, sym, subst, ap, ap₂, ◌≡⟨◌⟩◌, ◌∎, ◌∙◌, inl, inr, Bool, true,
  false, not, Bool-cases, Option, none, some, List, [], ◌∷◌, ◌++◌, ℤ, pos, negsuc, eqb_ℤ, eqb_ℤ_iff,
  ltb_ℤ, ltb, length, All, IsChar, to_char, to_char-eq, arith, dec_lt, lt→ltb, ltb_of_ge,
  if◌then◌else◌,
}
use ics7_os.Common.Options.{◌>>=◌}
use ics7_os.ArrayStack.{
  Stack, max_size, ok, is_zero, copy_from, infix_to_postfix, create_infix_form,
}
use ics7_os.ArrayStack.Ops.{
  Holds, IsStack, init-IsStack, push-cons, push_refused, pop-cons, pop-nil,
}
use ics7_os.ArrayStack.Reference.{push_list}
use ics7_os.ArrayStack.Menu.{
  Entry, unread, key, Message, added, not_added, removed, was_empty, limit_exceeded, goodbye,
  incorrect, bad_input, converted, shown, Menu, or_else, text_size, within, up_to_nul, scan, on_add,
  on_remove, round, rounds, goes_on, start_array_menu,
}

copy_from-snoc :
    (n i : ℕ) (f : ℤ → ℤ)
    → copy_from (suc n) i f ≡ copy_from n i f ++ to_char (f (pos (i + n))) ∷ []
unfolding copy_from
copy_from-snoc zero i f = ap (λ k. to_char (f (pos k)) ∷ []) (omega arith)
copy_from-snoc (suc n) i f =
    ap (λ l. to_char (f (pos i)) ∷ l)
      (copy_from-snoc n (i + 1) f
        ∙ ap (λ k. copy_from n (i + 1) f ++ to_char (f (pos k)) ∷ []) (omega arith))

copy_from-reverse :
    (xs : List ℤ) (f : ℤ → ℤ) → Holds f xs → All IsChar xs → copy_from (length xs) 0 f ≡ reverse xs
copy_from-reverse [] f h c = unfold copy_from in refl
copy_from-reverse (x ∷ xs) f h c =
    copy_from (suc (length xs)) 0 f
    ≡⟨ copy_from-snoc (length xs) 0 f ⟩
      copy_from (length xs) 0 f ++ to_char (f (pos (0 + length xs))) ∷ []
    ≡⟨ ap₂ (λ l v. l ++ v ∷ []) (copy_from-reverse xs f h.1 c.1) (last (length xs) x h.0 c.0) ⟩
      reverse xs ++ x ∷ []
    ≡⟨ sym (reverse-cons x xs) ⟩ reverse (x ∷ xs) ∎
  where
    last : (n : ℕ) (x : ℤ) → f (pos n) ≡ x → IsChar x → to_char (f (pos (0 + n))) ≡ x
    last n x e c = rw (zero-add, e) (to_char-eq x c)

-- For a stack that holds `xs`, top first, `create_infix_form` gives its elements from the bottom
-- up.
pub create_infix_form-reverse :
    (s : Stack) (xs : List ℤ) → IsStack s xs → create_infix_form s ≡ reverse xs
unfolding create_infix_form
create_infix_form-reverse s [] is = rw (is.depth) (copy_from-reverse [] s.cells is.held is.chars)
create_infix_form-reverse s (x ∷ xs) is =
    rw (is.depth) (copy_from-reverse (x ∷ xs) s.cells is.held is.chars)

abbrev pub Positive : ℤ → Type 0
Positive x = ltb_ℤ (pos 0) x ≡ true

-- A character of ASCII that is not NUL.
abbrev pub IsAscii : ℤ → Type 0
IsAscii x = IsChar x × Positive x

-- A word that fits in a buffer of `size` bytes.
abbrev pub IsWord : ℕ → Option (List ℤ) → Type 0
IsWord size none = Unit
IsWord size (some word) = (length word < size) × All IsAscii word

abbrev pub IsTyped : ℕ → Entry → Type 0
IsTyped size unread = Unit
IsTyped size (key k word) = IsWord size word

pub within-fits : (size : ℕ) (text : List ℤ) → length text < size → within size text ≡ some text
unfolding within
within-fits size text h = rw (lt→ltb _ _ h) refl

no_nul : (x : ℤ) → Positive x → is_zero x ≡ false
no_nul (pos zero) h = absurd (cc h)
no_nul (pos (suc n)) h = ground arith
no_nul (negsuc n) h = refl

up_to_nul-all : (word : List ℤ) → All IsAscii word → up_to_nul word ≡ word
unfolding up_to_nul
up_to_nul-all [] h = refl
up_to_nul-all (c ∷ cs) h = rw (no_nul c h.0.1) (ap (λ l. c ∷ l) (up_to_nul-all cs h.1))

pub scan-IsWord :
    (size : ℕ) (word : Option (List ℤ)) → IsWord size word → scan size word ≡ some word
unfolding scan
scan-IsWord size none h = refl
scan-IsWord size (some word) h =
    rw (within-fits size word h.0, ◌>>=◌) (ap (λ w. some (some w)) (up_to_nul-all word h.1))

-- The contract of the menu: a stack of at most 102 characters.

unfoldable pub add_items : List ℤ → Option (List ℤ) → List ℤ
add_items xs (some (c ∷ [])) = push_list c xs
add_items xs word = xs

unfoldable pub add_message : List ℤ → Option (List ℤ) → Message
add_message xs (some (c ∷ [])) = if ltb (length xs) max_size then added else not_added
add_message xs word = not_added

unfoldable pub drop_items : List ℤ → List ℤ
drop_items [] = []
drop_items (x ∷ xs) = xs

unfoldable pub drop_message : List ℤ → Message
drop_message [] = was_empty
drop_message (x ∷ xs) = removed

unfoldable pub items_after : List ℤ → Entry → List ℤ
unfolding add_items drop_items
items_after xs unread = xs
items_after xs (key k word) =
    if eqb_ℤ k (pos 1) then add_items xs word else if eqb_ℤ k (pos 2) then drop_items xs else xs

unfoldable pub text_after : List ℤ → Entry → List ℤ
text_after text unread = text
text_after text (key k word) = if eqb_ℤ k (pos 3) then or_else text word else text

unfoldable pub ends : Entry → Bool
ends unread = true
ends (key k word) = eqb_ℤ k (pos 5)

on_add-IsStack :
    (m : Menu) (xs : List ℤ) (word : Option (List ℤ))
    → IsStack m.arr xs
    → IsWord text_size word
    → (arr : Stack) × (on_add m word ≡ (record m { arr = arr; rc = ok }, add_message xs word))
      × IsStack arr (add_items xs word)
unfolding on_add add_items add_message
on_add-IsStack m xs none is t = (m.arr, refl, is)
on_add-IsStack m xs (some []) is t = (m.arr, refl, is)
on_add-IsStack m xs (some (c ∷ d ∷ w)) is t = (m.arr, refl, is)
on_add-IsStack m xs (some (c ∷ [])) is t = elim (dec_lt (length xs) max_size) [
  | yes h ↦
      let (arr, q, is') = push-cons xs c is h t.1.0.0 in
      (arr, rw (q, lt→ltb _ _ h), rw (lt→ltb _ _ h) is')
  | no h ↦
      let full = ltb_of_ge (length xs) max_size (omega arith) in
      (m.arr, rw (push_refused xs c is (omega (arith, is.room)), full), rw full is)
]

on_remove-IsStack :
    (m : Menu) (xs : List ℤ)
    → IsStack m.arr xs
    → All Positive xs
    → (arr : Stack) × (on_remove m ≡ (record m { arr = arr; rc = ok }, drop_message xs))
      × IsStack arr (drop_items xs)
unfolding on_remove drop_items drop_message
on_remove-IsStack m [] is above = (m.arr, rw (pop-nil is), is)
on_remove-IsStack m (x ∷ xs) is above =
    let (arr, q, is') = pop-cons x xs is in (arr, rw (q, above.0), is')

-- The stack of a session has positive characters, and its text fits.
pub Positive-items_after :
    (size : ℕ) (xs : List ℤ) (e : Entry)
    → All Positive xs
    → IsTyped size e
    → All Positive (items_after xs e)
unfolding items_after add_items drop_items
Positive-items_after size xs unread h t = h
Positive-items_after size xs (key k word) h t = elim (Bool-cases (eqb_ℤ k (pos 1))) [
  | inl e ↦ rw e (added_positive word t)
  | inr e ↦ elim (Bool-cases (eqb_ℤ k (pos 2))) [
    | inl e' ↦ rw (e, e') (dropped_positive xs h)
    | inr e' ↦ rw (e, e') h
  ]
]
  where
    added_positive : (word : Option (List ℤ)) → IsWord size word → All Positive (add_items xs word)
    added_positive none t = h
    added_positive (some []) t = h
    added_positive (some (c ∷ d ∷ w)) t = h
    added_positive (some (c ∷ [])) t = elim (Bool-cases (ltb (length xs) max_size)) [
      | inl room ↦ rw room (t.1.0.1, h)
      | inr full ↦ rw full h
    ]

    dropped_positive : (xs : List ℤ) → All Positive xs → All Positive (drop_items xs)
    dropped_positive [] h = tt
    dropped_positive (x ∷ xs) h = h.1

pub or_else-fits :
    {size : ℕ} (text : List ℤ) (word : Option (List ℤ))
    → length text < size
    → IsWord size word
    → length (or_else text word) < size
or_else-fits text none h t = h
or_else-fits text (some word) h t = t.0

pub text_after-fits :
    {size : ℕ} (text : List ℤ) (e : Entry)
    → length text < size
    → IsTyped size e
    → length (text_after text e) < size
unfolding text_after
text_after-fits text unread h t = h
text_after-fits text (key k word) h t = elim (Bool-cases (eqb_ℤ k (pos 3))) [
  | inl e ↦ rw e (or_else-fits text word h t)
  | inr e ↦ rw e h
]

module _ (isalnum : ℤ → Bool) (local_stack : Stack) where
  message_of : List ℤ → List ℤ → Entry → Message
  message_of xs text unread = bad_input
  message_of xs text (key k word) =
      if eqb_ℤ k (pos 1)
      then add_message xs word
      else if eqb_ℤ k (pos 2)
      then drop_message xs
      else if eqb_ℤ k (pos 3)
      then (if ltb (length (or_else text word)) max_size
          then converted (infix_to_postfix isalnum local_stack (or_else text word))
          else limit_exceeded)
      else if eqb_ℤ k (pos 4)
      then shown (reverse xs)
      else if eqb_ℤ k (pos 5)
      then goodbye
      else incorrect

  -- What a session prints, by the contract.
  unfoldable pub session : List ℤ → List ℤ → List Entry → List Message
  unfolding message_of items_after text_after ends add_message drop_message
  session xs text [] = []
  session xs text (e ∷ es) =
      let rest = session (items_after xs e) (text_after text e) es in
      message_of xs text e ∷ (if ends e then [] else rest)

  -- A round meets no fault, and does what the contract says.
  record Follows (m : Menu) (xs : List ℤ) (e : Entry) : Type 0 where
    next : Menu
    works : round isalnum local_stack m e ≡ some (next, message_of xs m.text e)
    holds : IsStack next.arr (items_after xs e)
    text : next.text ≡ text_after m.text e
    stops : goes_on next ≡ not (ends e)

  round-Follows :
      (m : Menu) (xs : List ℤ) (e : Entry)
      → IsStack m.arr xs
      → All Positive xs
      → length m.text < text_size
      → IsTyped text_size e
      → Follows m xs e
  unfolding round goes_on message_of items_after text_after ends
  round-Follows m xs unread is above fits t = record {
    next = _;
    works = refl;
    holds = is;
    text = refl;
    stops = and-false (not (eqb_ℤ m.action (pos 5)));
  }
  round-Follows m xs (key k word) is above fits t = elim (Bool-cases (eqb_ℤ k (pos 1))) [
    | inl e ↦
        let (arr, q, is') = on_add-IsStack (record m { action = pos 1; rc = ok }) xs word is t in
        rw ((eqb_ℤ_iff k (pos 1)).0 e) (record {
          next = record m { arr = arr; action = pos 1; rc = ok };
          works = rw (scan-IsWord text_size word t, ◌>>=◌) (ap some q);
          holds = is';
          text = refl;
          stops = refl;
        })
    | inr e₁ ↦ elim (Bool-cases (eqb_ℤ k (pos 2))) [
      | inl e ↦
          let (arr, q, is') =
            on_remove-IsStack (record m { action = pos 2; rc = ok }) xs is above in
          rw ((eqb_ℤ_iff k (pos 2)).0 e) (record {
            next = record m { arr = arr; action = pos 2; rc = ok };
            works = ap some q;
            holds = is';
            text = refl;
            stops = refl;
          })
      | inr e₂ ↦ elim (Bool-cases (eqb_ℤ k (pos 3))) [
        | inl e ↦
            let stays = within-fits text_size _ (or_else-fits m.text word fits t) in
            rw ((eqb_ℤ_iff k (pos 3)).0 e) (record {
              next = record m { text = or_else m.text word; action = pos 3; rc = ok };
              works = rw (scan-IsWord text_size word t, ◌>>=◌) (rw (stays, ◌>>=◌) refl);
              holds = is;
              text = refl;
              stops = refl;
            })
        | inr e₃ ↦ elim (Bool-cases (eqb_ℤ k (pos 4))) [
          | inl e ↦ rw ((eqb_ℤ_iff k (pos 4)).0 e) (record {
            next = record m { action = pos 4; rc = ok };
            works = rw (create_infix_form-reverse m.arr xs is) refl;
            holds = is;
            text = refl;
            stops = refl;
          })
          | inr e₄ ↦ elim (Bool-cases (eqb_ℤ k (pos 5))) [
            | inl e ↦
                rw ((eqb_ℤ_iff k (pos 5)).0 e)
                  (record { next = _; works = refl; holds = is; text = refl; stops = refl })
            | inr e₅ ↦ record {
              next = record m { action = k; rc = ok };
              works = rw (e₁, e₂, e₃, e₄, e₅) refl;
              holds = rw (e₁, e₂) is;
              text = rw e₃ refl;
              stops = rw e₅ refl;
            }
          ]
        ]
      ]
    ]
  ]

  rounds-session :
      (es : List Entry) (m : Menu) (xs : List ℤ)
      → IsStack m.arr xs
      → All Positive xs
      → length m.text < text_size
      → All (IsTyped text_size) es
      → (end : Menu) × (rounds isalnum local_stack m es ≡ some (end, session xs m.text es))
  unfolding rounds session
  rounds-session [] m xs is above fits t = (m, refl)
  rounds-session (e ∷ es) m xs is above fits t =
      let f = round-Follows m xs e is above fits t.0 in
      elim (Bool-cases (ends e)) [
        | inl last ↦ (f.next, rw (f.works, ◌>>=◌) (rw (f.stops, last) refl))
        | inr more ↦
            let (end, q) =
              rounds-session es f.next (items_after xs e) f.holds
                (Positive-items_after text_size xs e above t.0)
                (subst (λ l. length l < text_size) (sym f.text) (text_after-fits m.text e fits t.0))
                t.1 in
            let rest = q ∙ ap (λ text. some (end, session (items_after xs e) text es)) f.text in
            (end, rw (f.works, ◌>>=◌) (rw (f.stops, more) (rw (rest, ◌>>=◌) refl)))
      ]

  -- When the bytes of `infix` have a NUL among the first 500, and the words typed are ASCII
  -- characters, none of them NUL, fewer than 500 in each word: `start_array_menu` meets no fault,
  -- and prints what a stack of at most 102 characters would. It adds a one-character word while
  -- there is room, removes from the same end, shows the elements from the oldest on, and stops at
  -- the first key 5 or unreadable key.
  pub start_array_menu-session :
      (arr : Stack) (unset : List ℤ) (es : List Entry)
      → length unset < text_size
      → All (IsTyped text_size) es
      → (end : Menu) × (start_array_menu isalnum local_stack arr unset es
          ≡ some (end, session [] unset es))
  unfolding start_array_menu
  start_array_menu-session arr unset es fits t = rounds-session es _ [] (init-IsStack arr) tt fits t
