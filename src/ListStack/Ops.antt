-- ===== src/ListStack/Ops.antt =====
-- The operations of list_operations.c on a stack that holds a chain.
use ics7_os.Common.{
  ℕ, zero, suc, ◌+◌, ◌<◌, ◌≡◌, ◌≢◌, refl, true, false, none, some, [], ◌∷◌, ℤ, pos, length, IsChar,
  arith, ◌==◌, leb, ltb, if◌then◌else◌, ap, ◌∙◌, ==_of_ne, ==_self, leb_of_le, leb_of_gt,
}
use ics7_os.Common.Options.{◌>>=◌}
use ics7_os.ArrayStack.{ok, err_length, max_size}
use ics7_os.Memory.{Ptr, null, write, load}
use ics7_os.ListStack.{
  Node, node, Heap, Allocator, Stack, empty_list, push_list, pop_list, last_node, steps_to_last,
  walk_fuel, full_list, top_list, number_list,
}
use ics7_os.ListStack.Chain.{Cells, first, Chain, IsStack, Chain-write, Apart-unused, load-cons}

pub empty_IsStack : (h : Heap) → IsStack (record { heap = h; s = null; n = 0 }) []
empty_IsStack h = record { head = refl; counted = refl; room = omega arith; chain = tt; chars = tt }

pub first-cons :
    (h : Heap) (p : Ptr) (v : ℤ) (xs : Cells) → Chain h ((p, v) ∷ xs) → (p == null) ≡ false
first-cons h p v xs ch = ground (arith, ch.0)

-- With room and memory, `push_list` puts a node with the value in front.
pub push_list-cons :
    (a : Allocator) (st : Stack) (xs : Cells) (x : ℤ)
    → IsStack st xs
    → length xs < max_size
    → a.malloc st.heap ≢ null
    → IsChar x
    → (st' : Stack) × (push_list a st x ≡ (ok, st')) × IsStack st' ((a.malloc st.heap, x) ∷ xs)
unfolding push_list
push_list-cons a st xs x is h ne c =
    let p = a.malloc st.heap in
    let apart = Apart-unused st.heap p xs (a.unused st.heap ne) is.chain in
    let got : (p == null) ≡ false = ==_of_ne p null ne in
    let fits : leb max_size st.n ≡ false = leb_of_gt _ _ (omega (arith, is.counted)) in
    (
      record {
        heap = write (write st.heap p (some (a.contents st.heap))) p (some (node x st.s));
        s = p;
        n = st.n + 1;
      },
      rw (got, fits),
      record {
        head = refl;
        counted = omega (arith, is.counted);
        room = h;
        chain = (
          ne,
          ground (arith, is.head),
          apart,
          Chain-write (write st.heap p (some (a.contents st.heap))) p _ xs apart
              (Chain-write st.heap p _ xs apart is.chain),
        );
        chars = (c, is.chars);
      },
    )

-- With 102 elements `push_list` refuses. The block that it asked for stays allocated.
pub push_list_refused :
    (a : Allocator) (st : Stack) (xs : Cells) (x : ℤ)
    → IsStack st xs
    → length xs ≡ max_size
    → a.malloc st.heap ≢ null
    → (st' : Stack) × (push_list a st x ≡ (err_length, st'))
      × IsStack st' xs
      × (st'.heap.at (a.malloc st.heap) ≡ some (a.contents st.heap))
unfolding push_list
push_list_refused a st xs x is h ne =
    let p = a.malloc st.heap in
    let apart = Apart-unused st.heap p xs (a.unused st.heap ne) is.chain in
    let got : (p == null) ≡ false = ==_of_ne p null ne in
    let full : leb max_size st.n ≡ true = leb_of_le _ _ (omega (arith, is.counted)) in
    (
      record st { heap = write st.heap p (some (a.contents st.heap)) },
      rw (got, full),
      record {
        head = is.head;
        counted = is.counted;
        room = is.room;
        chain = Chain-write st.heap p _ xs apart is.chain;
        chars = is.chars;
      },
      rw (==_self p),
    )

-- A stack whose variables are known.
stack_eq :
    (st : Stack) {p : Ptr} {m : ℕ}
    → st.s ≡ p
    → st.n ≡ m
    → st ≡ record { heap = st.heap; s = p; n = m }
stack_eq st p q = λ i. record { heap = st.heap; s = p i; n = q i }

pop_list_at :
    (h : Heap) (p : Ptr) (m : ℕ) {v : ℤ} {q : Ptr}
    → load h p ≡ some (node v q)
    → pop_list (record { heap = h; s = p; n = suc m })
      ≡ some (v, record { heap = write h p none; s = q; n = m })
unfolding pop_list
pop_list_at h p m {v} {q} e =
    let high : ltb (suc m) 1 ≡ false = ground arith in
    rw (high, e) (ap (λ k. some (v, record { heap = write h p none; s = q; n = k })) (omega arith))

pub pop_list-cons :
    (st : Stack) (p : Ptr) (v : ℤ) (xs : Cells)
    → IsStack st ((p, v) ∷ xs)
    → (st' : Stack) × (pop_list st ≡ some (v, st'))
      × IsStack st' xs
      × (st'.heap ≡ write st.heap p none)
pop_list-cons st p v xs is = (
  record { heap = write st.heap p none; s = first xs; n = length xs },
  ap pop_list (stack_eq st is.head is.counted)
      ∙ pop_list_at st.heap p (length xs) (load-cons st.heap p v xs is.chain),
  record {
    head = refl;
    counted = refl;
    room = omega (arith, is.room);
    chain = Chain-write st.heap p none xs is.chain.2 is.chain.3;
    chars = is.chars.1;
  },
  refl,
)

pub pop_list-nil : (st : Stack) → IsStack st [] → pop_list st ≡ some (err_length, st)
unfolding pop_list
pop_list-nil st is = ground (arith, is.counted)

-- The value at the bottom, which is the one pushed first.
unfoldable pub bottom : ℤ → Cells → ℤ
bottom v [] = v
bottom v ((p, w) ∷ xs) = bottom w xs

last_node-bottom :
    (k : ℕ) (h : Heap) (p : Ptr) (v : ℤ) (xs : Cells)
    → Chain h ((p, v) ∷ xs)
    → length xs < k
    → (c : Node) × (last_node k h p ≡ some c) × (c.value ≡ bottom v xs)
unfolding last_node bottom
last_node-bottom zero h p v xs ch small = absurd (omega arith)
last_node-bottom (suc k) h p v [] ch small = (node v null, rw (load-cons h p v [] ch), refl)
last_node-bottom (suc k) h p v ((q, w) ∷ xs) ch small =
    let (c, e, at) = last_node-bottom k h q w xs ch.3 (omega arith) in
    (
      c,
      rw (load-cons h p v ((q, w) ∷ xs) ch) (rw (first-cons h q w xs ch.3, ◌>>=◌, last_node) e),
      at,
    )

steps_to_last-length :
    (k : ℕ) (h : Heap) (p : Ptr) (v : ℤ) (xs : Cells)
    → Chain h ((p, v) ∷ xs)
    → length xs < k
    → steps_to_last k h p ≡ some (length xs)
unfolding steps_to_last
steps_to_last-length zero h p v xs ch small = absurd (omega arith)
steps_to_last-length (suc k) h p v [] ch small = rw (load-cons h p v [] ch)
steps_to_last-length (suc k) h p v ((q, w) ∷ xs) ch small = rw (load-cons h p v ((q, w) ∷ xs) ch) (
    rw (first-cons h q w xs ch.3, ◌>>=◌, steps_to_last)
      (rw (steps_to_last-length k h q w xs ch.3 (omega arith)) (ap some (omega arith))))

pub empty_list-nil : (st : Stack) → IsStack st [] → empty_list st.s ≡ err_length
unfolding empty_list
empty_list-nil st is = ground (arith, is.head)

pub empty_list-cons :
    (st : Stack) (p : Ptr) (v : ℤ) (xs : Cells) → IsStack st ((p, v) ∷ xs) → empty_list st.s ≡ ok
unfolding empty_list
empty_list-cons st p v xs is = rw (is.head, first-cons st.heap p v xs is.chain)

pub top_list-nil : (st : Stack) → IsStack st [] → top_list st.heap st.s ≡ some err_length
unfolding top_list
top_list-nil st is = rw is.head

-- `top_list` gives the value that was pushed first, not the one on top.
pub top_list-bottom :
    (st : Stack) (p : Ptr) (v : ℤ) (xs : Cells)
    → IsStack st ((p, v) ∷ xs)
    → top_list st.heap st.s ≡ some (bottom v xs)
unfolding top_list
top_list-bottom st p v xs is =
    let (c, e, at) = last_node-bottom walk_fuel st.heap p v xs is.chain (omega (arith, is.room)) in
    rw (is.head, first-cons st.heap p v xs is.chain, e) (ap some at)

-- On a stack with elements, `top_list` gives the value at the bottom, `number_list` one less than
-- the number of elements, and `full_list` an error exactly at 102 elements.
top-number-full :
    (st : Stack) (p : Ptr) (v : ℤ) (xs : Cells)
    → IsStack st ((p, v) ∷ xs)
    → (top_list st.heap st.s ≡ some (bottom v xs))
      × (number_list st.heap st.s ≡ some (pos (length xs)))
      × (full_list st.heap st.s ≡ some (if length xs + 1 == max_size then err_length else ok))
unfolding number_list full_list
top-number-full st p v xs is =
    let steps = steps_to_last-length walk_fuel st.heap p v xs is.chain (omega (arith, is.room)) in
    (
      top_list-bottom st p v xs is,
      rw (is.head, first-cons st.heap p v xs is.chain, steps),
      rw (is.head, steps),
    )
