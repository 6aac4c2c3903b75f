-- ===== src/ListStack/Refine.antt =====
-- `infix_to_postfix_list` meets no fault, ends within its fuel, and does what the conversion over
-- lists of values does.
use ics7_os.Common.{
  ℕ, zero, suc, ◌<◌, ◌≡◌, ◌≢◌, refl, ap, inl, inr, Bool, Bool-cases, true, false, ◌&&◌, not, Option,
  some, List, [], ◌∷◌, ◌++◌, append_assoc, append-nil, ℤ, pos, eqb_ℤ, ltb_ℤ, leb, ltb, length, All,
  IsChar, to_char, ◌∙◌, to_char-eq, arith, dec_lt, lt→ltb, ltb_of_ge,
}
use ics7_os.Common.Options.{◌>>=◌}
use ics7_os.Infix.{lparen, rparen}
use ics7_os.ArrayStack.{err_length, max_size, is_zero}
use ics7_os.Memory.{null}
use ics7_os.ListStack.{
  Heap, Allocator, Stack, push_list, empty_list, precedence_list, pop_group_list, pop_higher_list,
  pop_all_list, walk_fuel, on_token_list, for_tokens_list, convert_list, infix_to_postfix_list,
}
use ics7_os.ListStack.Chain.{Cells, values, Chain, Beside, length-values}
use ics7_os.ListStack.Ops.{pop_list-nil, empty_list-cons, top_list-nil, top_list-bottom, bottom}
use ics7_os.ListStack.Beside.{
  empty_Beside, push_list-cons-Beside, push_list_refused-Beside, pop_list-cons-Beside,
}
use ics7_os.ListStack.Reference.{
  push_values, last_of, group, higher, flush, token_step, tokens, convert,
}

-- The run ends with a stack of the first list's values, and has written the second behind `out`.
abbrev Ends : Cells → Option (Stack × List ℤ) → List ℤ → List ℤ × List ℤ → Type 0
Ends ws r out e =
    (st : Stack) × (xs : Cells) × (r ≡ some (st, out ++ e.1)) × Beside ws st xs × (values xs ≡ e.0)

Ends-cons :
    {ws : Cells} {r : Option (Stack × List ℤ)} (out : List ℤ) (x : ℤ) (e : List ℤ × List ℤ)
    → Ends ws r (out ++ x ∷ []) e
    → Ends ws r out (e.0, x ∷ e.1)
Ends-cons out x e (st, xs, q, is, v) =
    (st, xs, rw q (ap (λ l. some (st, l)) (append_assoc out (x ∷ []) e.1)), is, v)

Ends-nil :
    {ws : Cells} {r : Option (Stack × List ℤ)} {st : Stack} (out : List ℤ) (xs : Cells)
    → r ≡ some (st, out)
    → Beside ws st xs
    → Ends ws r out (values xs, [])
Ends-nil {st} out xs q is = (st, xs, rw q (ap (λ l. some (st, l)) (rw append-nil)), is, refl)

Ends-pushed :
    {ws : Cells} (out : List ℤ) (st : Stack) (xs : Cells) {l : List ℤ}
    → Beside ws st xs
    → values xs ≡ l
    → Ends ws (some (st, out)) out (l, [])
Ends-pushed out st xs is v = (st, xs, ap (λ l. some (st, l)) (rw append-nil), is, v)

bottom-last_of : (v : ℤ) (xs : Cells) → bottom v xs ≡ last_of v (values xs)
unfolding bottom
bottom-last_of v [] = refl
bottom-last_of v ((p, w) ∷ xs) = bottom-last_of w xs

IsChar-last_of : (x : ℤ) (xs : List ℤ) → All IsChar (x ∷ xs) → IsChar (last_of x xs)
IsChar-last_of x [] c = c.0
IsChar-last_of x (y ∷ ys) c = IsChar-last_of y ys c.1

and_false : (a b : Bool) → (a && b && false) ≡ false
and_false true true = refl
and_false true false = refl
and_false false b = refl

pop_group_list-group :
    {ws : Cells} (k : ℕ) (st : Stack) (xs : Cells) (out : List ℤ)
    → Beside ws st xs
    → length xs < k
    → Ends ws (pop_group_list k st out) out (group (values xs))
unfolding pop_group_list group
pop_group_list-group zero st xs out is h = absurd (omega arith)
pop_group_list-group (suc k) st [] out is h =
    let none_left : ltb 0 st.n ≡ false = ltb_of_ge 0 st.n (omega (arith, is.stack.counted)) in
    rw (pop_list-nil st is.stack) (
      rw (to_char-eq err_length (omega arith), ◌>>=◌)
        (rw (none_left, ◌>>=◌, pop_group_list) (Ends-nil out [] refl is)))
pop_group_list-group (suc k) st ((p, x) ∷ xs) out is h =
    let (st', q, is') = pop_list-cons-Beside st p x xs is in
    rw q (
      rw (to_char-eq x is.stack.chars.0, is'.stack.counted, length-values xs, ◌>>=◌, pop_group_list)
        (elim (Bool-cases (not (eqb_ℤ x lparen) && ltb 0 (length xs))) [
          | inl more ↦
              rw (more, ◌>>=◌, pop_group_list)
                (rw (to_char-eq x is.stack.chars.0) (
                  Ends-cons out x (group (values xs))
                    (pop_group_list-group k st' xs (out ++ x ∷ []) is' (omega arith))))
          | inr last ↦ rw (last, ◌>>=◌, pop_group_list) (Ends-nil out xs refl is')
        ]))

pop_higher_list-higher :
    {ws : Cells} (k : ℕ) (st : Stack) (token : ℤ) (xs : Cells) (out : List ℤ)
    → Beside ws st xs
    → length xs < k
    → All IsChar (values xs)
    → Ends ws (pop_higher_list k token st out) out (higher (precedence_list token) (values xs))
unfolding pop_higher_list higher
pop_higher_list-higher zero st token xs out is h c = absurd (omega arith)
pop_higher_list-higher (suc k) st token [] out is h c =
    let none_left : ltb 0 st.n ≡ false = ltb_of_ge 0 st.n (omega (arith, is.stack.counted)) in
    let stops =
      and_false (leb (precedence_list token) (precedence_list (to_char err_length)))
        (is_zero (empty_list st.s)) in
    rw (top_list-nil st is.stack)
      (rw none_left (rw (stops, ◌>>=◌, pop_higher_list) (Ends-nil out [] refl is)))
pop_higher_list-higher (suc k) st token ((p, x) ∷ xs) out is h c =
    let (st', q, is') = pop_list-cons-Beside st p x xs is in
    let some_left : ltb 0 st.n ≡ true = lt→ltb 0 st.n (omega (arith, is.stack.counted)) in
    let at_bottom : to_char (bottom x xs) ≡ last_of x (values xs) =
      rw (bottom-last_of x xs) (to_char-eq _ (IsChar-last_of x (values xs) c)) in
    rw (top_list-bottom st p x xs is.stack) (
      rw (some_left, empty_list-cons st p x xs is.stack, at_bottom, ◌>>=◌, pop_higher_list)
        (elim (Bool-cases (leb (precedence_list token) (precedence_list (last_of x (values xs))))) [
          | inl more ↦
              rw (more, ◌>>=◌, q)
                (rw (◌>>=◌, to_char-eq x is.stack.chars.0)
                  (Ends-cons out x (higher (precedence_list token) (values xs))
                    (pop_higher_list-higher k st' token xs (out ++ x ∷ []) is' (omega arith) c.1)))
          | inr last ↦ rw (last, ◌>>=◌) (Ends-nil out ((p, x) ∷ xs) refl is)
        ]))

-- The run ends with some stack, and has written the list behind `out`.
abbrev Flushes : Cells → Option (Stack × List ℤ) → List ℤ → List ℤ → Type 0
Flushes ws r out l = (st : Stack) × (xs : Cells) × (r ≡ some (st, out ++ l)) × Beside ws st xs

Flushes-nil :
    {ws : Cells} {r : Option (Stack × List ℤ)} {st : Stack} (out : List ℤ) (xs : Cells)
    → r ≡ some (st, out)
    → Beside ws st xs
    → Flushes ws r out []
Flushes-nil {st = st} out xs q is = (st, xs, rw q (ap (λ l. some (st, l)) (rw append-nil)), is)

Flushes-cons :
    {ws : Cells} {r : Option (Stack × List ℤ)} (out : List ℤ) (x : ℤ) (l : List ℤ)
    → Flushes ws r (out ++ x ∷ []) l
    → Flushes ws r out (x ∷ l)
Flushes-cons out x l (st, xs, q, is) =
    (st, xs, rw q (ap (λ l. some (st, l)) (append_assoc out (x ∷ []) l)), is)

pop_all_list-flush :
    {ws : Cells} (k : ℕ) (st : Stack) (xs : Cells) (out : List ℤ)
    → Beside ws st xs
    → length xs < k
    → Flushes ws (pop_all_list k st out) out (flush (values xs))
unfolding pop_all_list flush
pop_all_list-flush zero st xs out is h = absurd (omega arith)
pop_all_list-flush (suc k) st [] out is h =
    let none_left : ltb 0 st.n ≡ false = ltb_of_ge 0 st.n (omega (arith, is.stack.counted)) in
    rw (none_left, pop_all_list) (Flushes-nil out [] refl is)
pop_all_list-flush (suc k) st ((p, x) ∷ xs) out is h =
    let (st', q, is') = pop_list-cons-Beside st p x xs is in
    let some_left : ltb 0 st.n ≡ true = lt→ltb 0 st.n (omega (arith, is.stack.counted)) in
    rw (some_left, empty_list-cons st p x xs is.stack, q, pop_all_list)
      (rw (to_char-eq x is.stack.chars.0, ◌>>=◌)
        (elim (Bool-cases (ltb_ℤ x (pos 0))) [
          | inl stop ↦ rw (stop, ◌>>=◌) (Flushes-nil out xs refl is')
          | inr more ↦
              rw (more, ◌>>=◌)
                (rw (to_char-eq x is.stack.chars.0) (
                  Flushes-cons out x (flush (values xs))
                    (pop_all_list-flush k st' xs (out ++ x ∷ []) is' (omega arith))))
        ]))

module _ (isalnum : ℤ → Bool) (a : Allocator) (memory : (h : Heap) → a.malloc h ≢ null) where
  push_list-push_values :
      {ws : Cells} (st : Stack) (xs : Cells) (x : ℤ)
      → Beside ws st xs
      → IsChar x
      → (ys : Cells) × Beside ws (push_list a st x).1 ys × (values ys ≡ push_values x (values xs))
  push_list-push_values st xs x is c = elim (dec_lt (length xs) max_size) [
    | yes h ↦
        let (st', q, is') = push_list-cons-Beside a st xs x is h (memory st.heap) c in
        ((a.malloc st.heap, x) ∷ xs, rw q is', rw (length-values xs, lt→ltb _ _ h))
    | no h ↦
        let (st', q, is') =
          push_list_refused-Beside a st xs x is (omega (arith, is.stack.room)) (memory st.heap) in
        (xs, rw q is', rw (length-values xs, ltb_of_ge (length xs) max_size (omega arith)))
  ]

  on_token_list-token_step :
      {ws : Cells} (st : Stack) (token : ℤ) (xs : Cells) (out : List ℤ)
      → Beside ws st xs
      → IsChar token
      → Ends ws (on_token_list isalnum a token st out) out (token_step isalnum token (values xs))
  unfolding on_token_list token_step
  on_token_list-token_step st token xs out is c = elim (Bool-cases (isalnum token)) [
    | inl e ↦ rw e (st, xs, refl, is, refl)
    | inr e ↦ rw e (elim (Bool-cases (eqb_ℤ token lparen)) [
      | inl e ↦
          let (ys, is', v) = push_list-push_values st xs lparen is (omega arith) in
          rw e (Ends-pushed out (push_list a st lparen).1 ys is' v)
      | inr e ↦ rw e (elim (Bool-cases (eqb_ℤ token rparen)) [
        | inl e ↦ rw e (pop_group_list-group walk_fuel st xs out is (omega (arith, is.stack.room)))
        | inr e ↦
            let (st', ys, q, is', v) =
              pop_higher_list-higher walk_fuel st token xs out is (omega (arith, is.stack.room))
                is.stack.chars in
            let (zs, is'', v') = push_list-push_values st' ys token is' c in
            rw (e, q) (_, zs, refl, is'', v' ∙ ap (push_values token) v)
      ])
    ])
  ]

  for_tokens_list-tokens :
      {ws : Cells} (ts : List ℤ) (st : Stack) (xs : Cells) (out : List ℤ)
      → Beside ws st xs
      → All IsChar ts
      → Ends ws (for_tokens_list isalnum a ts st out) out (tokens isalnum ts (values xs))
  unfolding for_tokens_list tokens
  for_tokens_list-tokens [] st xs out is c = Ends-nil out xs refl is
  for_tokens_list-tokens (t ∷ ts) st xs out is c =
      let (st', ys, q, is', v) = on_token_list-token_step st t xs out is c.0 in
      let step = token_step isalnum t (values xs) in
      let (st'', zs, q', is'', v') = for_tokens_list-tokens ts st' ys (out ++ step.1) is' c.1 in
      (
        st'',
        zs,
        rw (q, ◌>>=◌, q')
            (ap (λ l. some (st'', l))
              (append_assoc out step.1 _ ∙ ap (λ l. out ++ (step.1 ++ (tokens isalnum ts l).1)) v)),
        is'',
        v' ∙ ap (λ l. (tokens isalnum ts l).0) v,
      )

  -- With memory at every call, the conversion over the nodes meets no fault, ends, writes what the
  -- conversion over lists of values gives, and keeps the nodes of any other list.
  pub convert_list-convert :
      (h : Heap) (text : List ℤ) (ws : Cells)
      → All IsChar text
      → Chain h ws
      → (st : Stack) × (convert_list isalnum a h text ≡ some (st, convert isalnum text))
        × Chain st.heap ws
  unfolding convert_list convert
  convert_list-convert h text ws c kept =
      let (st, xs, q, is, v) = for_tokens_list-tokens text _ [] [] (empty_Beside h ws kept) c in
      let (st', xs', q', is') =
        pop_all_list-flush walk_fuel st xs (tokens isalnum text []).1 is
          (omega (arith, is.stack.room)) in
      (
        st',
        rw (q, ◌>>=◌) (q' ∙ ap (λ l. some (st', (tokens isalnum text []).1 ++ flush l)) v),
        is'.kept,
      )

  pub infix_to_postfix_list-convert :
      (h : Heap) (text : List ℤ)
      → All IsChar text
      → infix_to_postfix_list isalnum a h text ≡ some (convert isalnum text)
  unfolding infix_to_postfix_list
  infix_to_postfix_list-convert h text c =
      let (st, q, _kept) = convert_list-convert h text [] c tt in rw q refl
