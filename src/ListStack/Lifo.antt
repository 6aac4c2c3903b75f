-- ===== src/ListStack/Lifo.antt =====
-- `push_list` and then `pop_list`: with room and memory, at the limit, and without memory.
use ics7_os.Common.{
  ◌+◌, ◌<◌, ◌≡◌, ◌≢◌, ◌⊎◌, inl, inr, true, false, Bool-cases, none, some, [], ℤ, length, IsChar,
  arith, ◌==◌, ltb, leb_of_le, leb_of_gt, dec_lt, ltb_of_ge,
}
use ics7_os.ArrayStack.{ok, err_length, err_read, max_size}
use ics7_os.Memory.{null}
use ics7_os.ListStack.{Allocator, Stack, push_list, pop_list}
use ics7_os.ListStack.Chain.{Cells, first, IsStack}
use ics7_os.ListStack.Ops.{push_list-cons, push_list_refused, pop_list-cons}

module _ (a : Allocator) (st : Stack) (xs : Cells) (x : ℤ) (is : IsStack st xs) where
  -- The stack was full.
  abbrev pub Refused : Type 0
  Refused =
      (length xs ≡ max_size) × ((push_list a st x).0 ≡ err_length) × IsStack (push_list a st x).1 xs

  -- There was room but no memory: the count is one too high from then on.
  abbrev pub Miscounted : Type 0
  Miscounted =
      (length xs < max_size)
      × (a.malloc st.heap ≡ null)
      × ((push_list a st x).0 ≡ err_read)
      × ((push_list a st x).1.s ≡ first xs)
      × ((push_list a st x).1.n ≡ length xs + 1)

  -- There was room and memory.
  abbrev pub Popped : Type 0
  Popped =
      (length xs < max_size)
      × (a.malloc st.heap ≢ null)
      × ((push_list a st x).0 ≡ ok)
      × ((st' : Stack) × (pop_list (push_list a st x).1 ≡ some (x, st')) × IsStack st' xs)

  no_memory :
      a.malloc st.heap ≡ null
      → length xs < max_size
      → push_list a st x ≡ (err_read, record st { n = st.n + 1 })
  unfolding push_list
  no_memory e h = rw (e, leb_of_gt max_size st.n (omega (arith, is.counted)))

  no_memory_refused :
      a.malloc st.heap ≡ null
      → length xs ≡ max_size
      → push_list a st x ≡ (err_length, record st { heap = st.heap })
  unfolding push_list
  no_memory_refused e h = rw (e, leb_of_le max_size st.n (omega (arith, is.counted)))

  null_of : (a.malloc st.heap == null) ≡ true → a.malloc st.heap ≡ null
  null_of e = ground (arith, e)

  some_of : (a.malloc st.heap == null) ≡ false → a.malloc st.heap ≢ null
  some_of e q = ground (arith, e, q)

  full : (length xs < max_size → ⊥) → length xs ≡ max_size
  full h = omega (arith, is.room)

  -- On a stack that holds a list, `push_list` of a character does one of three things, each in its
  -- own case: with 102 elements it refuses and keeps the list; with fewer, and when `malloc` gives
  -- NULL, it fails with the variable `s` as it was and `n` one higher than the number of nodes;
  -- with fewer, and when `malloc` gives a block, `pop_list` gives the character back and leaves the
  -- stack with the list.
  pub push_list-pop_list : IsChar x → Refused ⊎ Miscounted ⊎ Popped
  push_list-pop_list c = elim (dec_lt (length xs) max_size) [
    | yes h ↦ elim (Bool-cases (a.malloc st.heap == null)) [
      | inl e ↦
          let q = no_memory (null_of e) h in
          inr (inl (h, null_of e, rw q, rw q is.head, rw q (omega (arith, is.counted))))
      | inr e ↦
          let (st', q, is') = push_list-cons a st xs x is h (some_of e) c in
          let (st'', q', is'', _h) = pop_list-cons st' (a.malloc st.heap) x xs is' in
          inr (inr (h, some_of e, rw q, (st'', rw q q', is'')))
    ]
    | no h ↦ elim (Bool-cases (a.malloc st.heap == null)) [
      | inl e ↦ let q = no_memory_refused (null_of e) (full h) in inl (full h, rw q, rw q is)
      | inr e ↦
          let (st', q, is', _h) = push_list_refused a st xs x is (full h) (some_of e) in
          inl (full h, rw q, rw q is')
    ]
  ]

-- Without memory, `push_list` on an empty stack makes the next `pop_list` read through a null
-- pointer.
push_list-pop_list-null :
    (a : Allocator) (st : Stack) (x : ℤ)
    → IsStack st []
    → a.malloc st.heap ≡ null
    → pop_list (push_list a st x).1 ≡ none
unfolding pop_list
push_list-pop_list-null a st x is e =
    let some_left : ltb (st.n + 1) 1 ≡ false = ltb_of_ge (st.n + 1) 1 (omega (arith, is.counted)) in
    rw (no_memory a st [] x is e (omega arith)) (rw some_left (rw is.head))
