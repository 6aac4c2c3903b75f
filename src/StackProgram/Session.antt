-- ===== src/StackProgram/Session.antt =====
-- A session of the whole program against what its parts promise.
use mathlib.Core.List.{map}
use ics7_os.Common.{
  ℕ, zero, suc, ◌<◌, ◌≡◌, ◌≢◌, refl, ap, ap₂, ◌∙◌, inl, inr, Bool, Bool-cases, false, none, some,
  List, [], ◌∷◌, ℤ, pos, eqb_ℤ, eqb_ℤ_iff, length, All, All-mono, All-append, IsChar, arith,
  if◌then◌else◌,
}
use ics7_os.Common.Options.{◌>>=◌}
use ics7_os.Memory.{null}
use ics7_os.ArrayStack.{max_size, infix_to_postfix}
use ics7_os.ArrayStack as Array
use ics7_os.ArrayStack.Menu.{Entry, text_size, start_array_menu}
use ics7_os.ArrayStack.Menu as ArrayMenu
use ics7_os.ArrayStack.Menu.Session.{IsTyped, within-fits, start_array_menu-session}
use ics7_os.ArrayStack.Menu.Session as ArraySession
use ics7_os.ArrayStack.Reference as ArrayConversion
use ics7_os.ArrayStack.Refine.{infix_to_postfix-convert}
use ics7_os.ListStack.{Heap, Allocator}
use ics7_os.ListStack.Freed.{array_size}
use ics7_os.ListStack.Menu.{start_list_menu}
use ics7_os.ListStack.Menu as ListMenu
use ics7_os.ListStack.Menu.Session.{start_list_menu-session}
use ics7_os.ListStack.Menu.Session as ListSession
use ics7_os.ListStack.Menu.Steps.{plain}
use ics7_os.ListStack.Reference as ListConversion
use ics7_os.ListStack.Refine.{convert_list-convert}
use ics7_os.StackProgram.{
  Frame, Choice, unread, key, Said, bad_input, incorrect, farewell, array_menu, list_menu, compared,
  Main, n_time, pairs, str, array_times, list_times, compare_time, on_array_menu, on_list_menu,
  on_compare, on_key, round, rounds, main,
}

-- The output with the addresses of the list menu left out.
abbrev pub without_addresses : Said ListMenu.Message → Said ArrayMenu.Message
without_addresses bad_input = bad_input
without_addresses incorrect = incorrect
without_addresses farewell = farewell
without_addresses (array_menu out) = array_menu out
without_addresses (list_menu out) = list_menu (map plain out)
without_addresses (compared xs ys) = compared xs ys

abbrev pub repeated {ℓ} : {A : Type ℓ} → ℕ → A → List A
repeated zero a = []
repeated (suc n) a = a ∷ repeated n a

-- ASCII words of fewer than 102 characters are typed, fewer than 500 keys in a menu; and the unset
-- bytes are characters, with a NUL among the first 102 of `infix` and among the first 500 of `str`.
abbrev pub IsChoice : Choice → Type 0
IsChoice unread = Unit
IsChoice (key k es f) =
    All (IsTyped max_size) es
    × (length es < array_size)
    × All IsChar f.text
    × (length f.text < max_size)
    × All IsChar f.tail
    × (length (str f.tail) < text_size)

shorter : (n : ℕ) → n < max_size → n < text_size
shorter n h = omega (arith, h)

IsTyped-longer : (e : Entry) → IsTyped max_size e → IsTyped text_size e
IsTyped-longer ArrayMenu.unread t = tt
IsTyped-longer (ArrayMenu.key k none) t = tt
IsTyped-longer (ArrayMenu.key k (some word)) t = (shorter (length word) t.0, t.1)

abbrev pub is_last : Choice → Bool
is_last unread = false
is_last (key k es f) = eqb_ℤ k (pos 4)

module _ (isalnum : ℤ → Bool) (local_stack : Array.Stack) where
  -- What a round prints, by the contracts of the menus and the converters.
  unfoldable pub answer : Choice → Said ArrayMenu.Message
  answer unread = bad_input
  answer (key k es f) =
      if eqb_ℤ k (pos 1)
      then array_menu (ArraySession.session isalnum local_stack [] f.text es)
      else if eqb_ℤ k (pos 2)
      then list_menu (ListSession.session isalnum [] f.text es)
      else if eqb_ℤ k (pos 3)
      then compared (repeated n_time (some (ArrayConversion.convert isalnum (str f.tail))))
          (repeated n_time (ListConversion.convert isalnum (str f.tail)))
      else if eqb_ℤ k (pos 4)
      then farewell
      else incorrect

  unfoldable pub answers : List Choice → List (Said ArrayMenu.Message)
  unfolding answer
  answers [] = []
  answers (c ∷ cs) = let rest = answers cs in answer c ∷ (if is_last c then [] else rest)

  pairs-IsChar : (n : ℕ) → All IsChar (pairs n)
  pairs-IsChar zero = tt
  pairs-IsChar (suc n) = (omega arith, (omega arith, pairs-IsChar n))

  str-IsChar : (tail : List ℤ) → All IsChar tail → All IsChar (str tail)
  unfolding str
  str-IsChar tail h = All-append IsChar (pairs 50) tail (pairs-IsChar 50) h

  array_times-repeated :
      (n : ℕ) (text : List ℤ)
      → All IsChar text
      → array_times isalnum local_stack n text
        ≡ repeated n (some (ArrayConversion.convert isalnum text))
  unfolding array_times
  array_times-repeated zero text h = refl
  array_times-repeated (suc n) text h =
      ap₂ (λ x xs. x ∷ xs) (infix_to_postfix-convert isalnum local_stack text h)
        (array_times-repeated n text h)

  module _ (a : Allocator) (memory : (h : Heap) → a.malloc h ≢ null) where
    list_times-repeated :
        (n : ℕ) (h : Heap) (text : List ℤ)
        → All IsChar text
        → (h' : Heap) × (list_times isalnum a n h text
            ≡ some (h', repeated n (ListConversion.convert isalnum text)))
    unfolding list_times
    list_times-repeated zero h text c = (h, refl)
    list_times-repeated (suc n) h text c =
        let (st, e, kept) = convert_list-convert isalnum a memory h text [] c tt in
        let (h', e') = list_times-repeated n st.heap text c in (h', rw (e, ◌>>=◌, e') refl)

    -- A round says what it should, and notes the key.
    record Does (m : Main) (c : Choice) : Type 0 where
      next : Main
      out : Said ListMenu.Message
      works : round isalnum local_stack a m c ≡ some (next, out)
      says : without_addresses out ≡ answer c
      notes : eqb_ℤ m.action (pos 4) ≡ false → eqb_ℤ next.action (pos 4) ≡ is_last c

    on_array_menu-Does :
        (m : Main) (es : List Entry) (f : Frame)
        → IsChoice (key (pos 1) es f)
        → Does m (key (pos 1) es f)
    unfolding round on_key on_array_menu answer
    on_array_menu-Does m es f h =
        let (end, e) =
          start_array_menu-session isalnum local_stack f.arr f.text es (shorter (length f.text) h.3)
            (All-mono (IsTyped max_size) (IsTyped text_size) es IsTyped-longer h.0) in
        record {
          next = record m { action = pos 1; rc = pos 0 };
          out = array_menu (ArraySession.session isalnum local_stack [] f.text es);
          works = rw (e, ◌>>=◌) refl;
          says = refl;
          notes = λ _. refl;
        }

    on_list_menu-Does :
        (m : Main) (es : List Entry) (f : Frame)
        → IsChoice (key (pos 2) es f)
        → Does m (key (pos 2) es f)
    unfolding round on_key on_list_menu answer
    on_list_menu-Does m es f h =
        let (next, out, e, says) =
          start_list_menu-session isalnum a memory m.heap f.addresses f.text es h.1 h.2 h.3 h.0 in
        record {
          next = record m { heap = next.stack.heap; action = pos 2; rc = pos 0 };
          out = list_menu out;
          works = rw (e, ◌>>=◌) refl;
          says = ap list_menu says;
          notes = λ _. refl;
        }

    on_compare-Does :
        (m : Main) (es : List Entry) (f : Frame)
        → IsChoice (key (pos 3) es f)
        → Does m (key (pos 3) es f)
    unfolding round on_key on_compare compare_time answer
    on_compare-Does m es f h =
        let chars = str-IsChar f.tail h.4 in
        let (h', e) = list_times-repeated n_time m.heap (str f.tail) chars in
        let by_list = repeated n_time (ListConversion.convert isalnum (str f.tail)) in
        record {
          next = record m { heap = h'; action = pos 3; rc = pos 0 };
          out = compared (array_times isalnum local_stack n_time (str f.tail)) by_list;
          works = rw (within-fits text_size (str f.tail) h.5, ◌>>=◌) (rw (e, ◌>>=◌) refl);
          says = ap (λ xs. compared xs by_list) (array_times-repeated n_time (str f.tail) chars);
          notes = λ _. refl;
        }

    round-Does : (m : Main) (c : Choice) → IsChoice c → Does m c
    unfolding round on_key answer
    round-Does m unread h = record { next = _; out = _; works = refl; says = refl; notes = λ e. e }
    round-Does m (key k es f) h = elim (Bool-cases (eqb_ℤ k (pos 1))) [
      | inl e ↦ rw ((eqb_ℤ_iff k (pos 1)).0 e) (on_array_menu-Does m es f h)
      | inr e₁ ↦ elim (Bool-cases (eqb_ℤ k (pos 2))) [
        | inl e ↦ rw ((eqb_ℤ_iff k (pos 2)).0 e) (on_list_menu-Does m es f h)
        | inr e₂ ↦ elim (Bool-cases (eqb_ℤ k (pos 3))) [
          | inl e ↦ rw ((eqb_ℤ_iff k (pos 3)).0 e) (on_compare-Does m es f h)
          | inr e₃ ↦ elim (Bool-cases (eqb_ℤ k (pos 4))) [
            | inl e ↦
                rw ((eqb_ℤ_iff k (pos 4)).0 e)
                  (record { next = _; out = _; works = refl; says = refl; notes = λ _. refl })
            | inr e₄ ↦ record {
              next = record m { action = k; rc = pos 0 };
              out = incorrect;
              works = rw (e₁, e₂, e₃, e₄) refl;
              says = rw (e₁, e₂, e₃, e₄) refl;
              notes = λ _. refl;
            }
          ]
        ]
      ]
    ]

    Session : Main → List Choice → List (Said ArrayMenu.Message) → Type 0
    Session m cs expected =
        (end : Main) × (out : List (Said ListMenu.Message)) × (rounds isalnum local_stack a m cs
          ≡ some (end, out))
        × (map without_addresses out ≡ expected)

    rounds-answers :
        (m : Main) (cs : List Choice)
        → eqb_ℤ m.action (pos 4) ≡ false
        → All IsChoice cs
        → Session m cs (answers cs)
    unfolding Session rounds answers
    rounds-answers m [] going h = (m, [], refl, refl)
    rounds-answers m (c ∷ cs) going h =
        let d = round-Does m c h.0 in
        elim (Bool-cases (is_last c)) [
          | inl last ↦ (
            d.next,
            d.out ∷ [],
            rw (d.works, ◌>>=◌) (rw (d.notes going, last) refl),
            rw last (ap (λ s. s ∷ []) d.says),
          )
          | inr more ↦
              let (end, out, e, says) = rounds-answers d.next cs (d.notes going ∙ more) h.1 in
              (
                end,
                d.out ∷ out,
                rw (d.works, ◌>>=◌) (rw (d.notes going, more) (rw (e, ◌>>=◌) refl)),
                rw more (ap₂ (λ s ss. s ∷ ss) d.says says),
              )
        ]

    -- When malloc never gives NULL; the unset action is not 4; the words typed are ASCII
    -- characters, none of them NUL, fewer than 102 in each; fewer than 500 keys are typed in each
    -- menu; and the unset bytes are characters, with a NUL among the first 102 of `infix` and the
    -- first 500 of `str`: the program meets no fault, and prints, but for times and addresses, for
    -- each key 1 or 2 a session of a stack of at most 102 characters, that starts empty and with no
    -- trace of the sessions before, and for each key 3 the same text of each converter, 100 times;
    -- it ends at the first key 4, and at no key that is not read.
    pub main-answers :
        (h : Heap) (unset : ℤ) (cs : List Choice)
        → eqb_ℤ unset (pos 4) ≡ false
        → All IsChoice cs
        → (end : Main) × (out : List (Said ListMenu.Message)) × (main isalnum local_stack a h unset
              cs
            ≡ some (end, out))
          × (map without_addresses out ≡ answers cs)
    unfolding Session main
    main-answers h unset cs going chars = rounds-answers _ cs going chars
