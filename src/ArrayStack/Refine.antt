-- ===== src/ArrayStack/Refine.antt =====
-- `infix_to_postfix` of array_operations.c does what the conversion over lists does, and its loops
-- end within their fuel.
use ics7_os.Common.{
  ℕ, zero, suc, ◌<◌, ◌≡◌, refl, ap, inl, inr, Bool-cases, Option, some, List, [], ◌∷◌, ◌++◌,
  append_assoc, append-nil, ℤ, pos, eqb_ℤ, ltb_ℤ, leb, length, All, IsChar, to_char, to_char-eq,
  arith, dec_lt, lt→ltb, ltb_of_ge, Bool,
}
use ics7_os.Infix.{lparen, rparen}
use ics7_os.ArrayStack.{
  Stack, err_length, max_size, push, top, precedence, pop_group, pop_higher, pop_all, loop_fuel,
  on_token, for_tokens, infix_to_postfix,
}
use ics7_os.ArrayStack.Ops.{
  IsStack, init-IsStack, push-cons, push_refused, pop-cons, pop-nil, top-cons, empty-nil,
  empty-cons,
}
use ics7_os.ArrayStack.Reference.{push_list, group, higher, flush, token_step, tokens, convert}

-- The run ends with a stack that holds the first list, and has written the second behind `out`.
abbrev Ends : Option (Stack × List ℤ) → List ℤ → List ℤ × List ℤ → Type 0
Ends r out e = (s : Stack) × (r ≡ some (s, out ++ e.1)) × IsStack s e.0

Ends-cons :
    {r : Option (Stack × List ℤ)} (out : List ℤ) (x : ℤ) (e : List ℤ × List ℤ)
    → Ends r (out ++ x ∷ []) e
    → Ends r out (e.0, x ∷ e.1)
Ends-cons out x e (s, q, is) = (s, rw q (ap (λ l. some (s, l)) (append_assoc out (x ∷ []) e.1)), is)

Ends-nil :
    {r : Option (Stack × List ℤ)} {s : Stack} (out xs : List ℤ)
    → r ≡ some (s, out)
    → IsStack s xs
    → Ends r out (xs, [])
Ends-nil {s} out xs q is = (s, rw q (ap (λ l. some (s, l)) (rw append-nil)), is)

pop_group-group :
    (k : ℕ) {s : Stack} (xs out : List ℤ)
    → IsStack s xs
    → length xs < k
    → Ends (pop_group k s out) out (group xs)
unfolding pop_group group
pop_group-group zero xs out is h = absurd (omega arith)
pop_group-group (suc k) [] out is h =
    Ends-nil out [] (rw (pop-nil is, to_char-eq err_length (omega arith))) is
pop_group-group (suc k) (x ∷ xs) out is h =
    let (s', q, is') = pop-cons x xs is in
    rw (q, to_char-eq x is.chars.0)
      (elim (Bool-cases (eqb_ℤ x lparen)) [
        | inl open_paren ↦ rw open_paren (Ends-nil out xs refl is')
        | inr other ↦ rw other (elim (Bool-cases (ltb_ℤ (pos 0) x)) [
          | inl more ↦
              rw more (
                Ends-cons out x (group xs) (pop_group-group k xs (out ++ x ∷ []) is' (omega arith)))
          | inr last ↦ rw last (Ends-nil out xs refl is')
        ])
      ])

pop_higher-higher :
    (k : ℕ) {s : Stack} (token : ℤ) (xs out : List ℤ)
    → IsStack s xs
    → length xs < k
    → Ends (pop_higher k token s out) out (higher (precedence token) xs)
unfolding pop_higher higher
pop_higher-higher zero token xs out is h = absurd (omega arith)
pop_higher-higher (suc k) {s} token [] out is h =
    rw (pop-nil is, empty-nil is)
      (Ends-nil out []
        (elim (Bool-cases (leb (precedence token) (precedence (to_char (top s))))) [
          | inl e ↦ rw e
          | inr e ↦ rw e
        ])
        is)
pop_higher-higher (suc k) token (x ∷ xs) out is h =
    let (s', q, is') = pop-cons x xs is in
    rw (q, top-cons x xs is, empty-cons x xs is, to_char-eq x is.chars.0)
      (elim (Bool-cases (leb (precedence token) (precedence x))) [
        | inl more ↦ rw more (
            Ends-cons out x (higher (precedence token) xs)
              (pop_higher-higher k token xs (out ++ x ∷ []) is' (omega arith)))
        | inr last ↦ rw last (Ends-nil out (x ∷ xs) refl is)
      ])

pop_all-flush :
    (k : ℕ) {s : Stack} (xs out : List ℤ)
    → IsStack s xs
    → length xs < k
    → pop_all k s out ≡ some (out ++ flush xs)
unfolding pop_all flush
pop_all-flush zero xs out is h = absurd (omega arith)
pop_all-flush (suc k) [] out is h = rw (pop-nil is, empty-nil is, append-nil)
pop_all-flush (suc k) (x ∷ xs) out is h =
    let (s', q, is') = pop-cons x xs is in
    rw (q, empty-cons x xs is, to_char-eq x is.chars.0)
      (elim (Bool-cases (ltb_ℤ x (pos 0))) [
        | inl stop ↦ rw (stop, append-nil)
        | inr more ↦
            rw (more, pop_all-flush k xs (out ++ x ∷ []) is' (omega arith))
              (ap some (append_assoc out (x ∷ []) (flush xs)))
      ])

push-push_list :
    {s : Stack} (xs : List ℤ) (x : ℤ)
    → IsStack s xs
    → IsChar x
    → IsStack (push s x).1 (push_list x xs)
push-push_list {s} xs x is c = elim (dec_lt (length xs) max_size) [
  | yes h ↦ let (s', q, is') = push-cons xs x is h c in rw (q, lt→ltb _ _ h) is'
  | no h ↦
      rw
        (
          push_refused xs x is (omega (arith, is.room)),
          ltb_of_ge (length xs) max_size (omega arith),
        )
        is
]

module _ (isalnum : ℤ → Bool) where
  on_token-token_step :
      {s : Stack} (token : ℤ) (xs out : List ℤ)
      → IsStack s xs
      → IsChar token
      → Ends (on_token isalnum token s out) out (token_step isalnum token xs)
  unfolding on_token token_step
  on_token-token_step {s} token xs out is c = elim (Bool-cases (isalnum token)) [
    | inl e ↦ rw e (s, refl, is)
    | inr e ↦ rw e (elim (Bool-cases (eqb_ℤ token lparen)) [
      | inl e ↦
          rw e (Ends-nil out (push_list lparen xs) refl (push-push_list xs lparen is (omega arith)))
      | inr e ↦ rw e (elim (Bool-cases (eqb_ℤ token rparen)) [
        | inl e ↦ rw e (pop_group-group loop_fuel xs out is (omega (arith, is.room)))
        | inr e ↦
            let (s', q, is') =
              pop_higher-higher loop_fuel token xs out is (omega (arith, is.room)) in
            rw (e, q) (_, refl, push-push_list _ token is' c)
      ])
    ])
  ]

  for_tokens-tokens :
      (ts xs out : List ℤ) {s : Stack}
      → IsStack s xs
      → All IsChar ts
      → Ends (for_tokens isalnum ts s out) out (tokens isalnum ts xs)
  unfolding for_tokens tokens
  for_tokens-tokens [] xs out is c = Ends-nil out xs refl is
  for_tokens-tokens (t ∷ ts) xs out is c =
      let (s', q, is') = on_token-token_step t xs out is c.0 in
      let step = token_step isalnum t xs in
      let (s'', q', is'') = for_tokens-tokens ts step.0 (out ++ step.1) is' c.1 in
      (s'', rw (q, q') (ap (λ l. some (s'', l)) (append_assoc out step.1 _)), is'')

  -- The conversion over the array ends, and writes what the conversion over lists gives.
  pub infix_to_postfix-convert :
      (s : Stack) (text : List ℤ)
      → All IsChar text
      → infix_to_postfix isalnum s text ≡ some (convert isalnum text)
  unfolding infix_to_postfix convert
  infix_to_postfix-convert s text c =
      let (s', q, is) = for_tokens-tokens text [] [] (init-IsStack s) c in
      rw q (pop_all-flush loop_fuel _ _ is (omega (arith, is.room)))
