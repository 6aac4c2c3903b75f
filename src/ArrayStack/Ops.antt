-- ===== src/ArrayStack/Ops.antt =====
-- The operations of array_operations.c on a stack that holds a list, its top element first.
use ics7_os.Common.{
  ◌⊎◌, inl, inr, dec_lt, sym, ap, subst, ℕ, ◌≤◌, ◌<◌, ◌≡◌, refl, List, [], ◌∷◌, ℤ, pos, negsuc,
  length, All, IsChar, arith,
}
use ics7_os.ArrayStack.{Stack, update, ok, err_length, max_size, empty, full, push, pop, top, init}

abbrev pub index_of : List ℤ → ℤ
index_of [] = negsuc 0
index_of (x ∷ xs) = pos (length xs)

abbrev pub Holds : (ℤ → ℤ) → List ℤ → Type 0
Holds f [] = Unit
Holds f (x ∷ xs) = (f (pos (length xs)) ≡ x) × Holds f xs

pub record IsStack (s : Stack) (xs : List ℤ) : Type 0 where
  pub depth : s.top_index ≡ index_of xs
  pub room : length xs ≤ max_size
  pub held : Holds s.cells xs
  pub chars : All IsChar xs

-- A write above a list's cells keeps them.
Holds-update :
    (f : ℤ → ℤ) (xs : List ℤ) (n : ℕ) (x : ℤ)
    → length xs ≤ n
    → Holds f xs
    → Holds (update f (pos n) x) xs
Holds-update f [] n x h held = tt
Holds-update f (y ∷ ys) n x h held =
    (ground (arith, held.0), Holds-update f ys n x (omega arith) held.1)

pub init-IsStack : (s : Stack) → IsStack (init s) []
unfolding init
init-IsStack s = record { depth = refl; room = omega arith; held = tt; chars = tt }

-- What `push` leaves, as long as there is room.
push_room :
    {s : Stack} (xs : List ℤ) (x : ℤ)
    → IsStack s xs
    → length xs < max_size
    → push s x
      ≡ (ok, record { cells = update s.cells (pos (length xs)) x; top_index = pos (length xs) })
unfolding push
push_room [] x is h = rw (is.depth) refl
push_room (y ∷ ys) x is h = ground (arith, is.depth)

pop_cons_eq :
    {s : Stack} (x : ℤ) (xs : List ℤ)
    → IsStack s (x ∷ xs)
    → pop s ≡ (x, record s { top_index = index_of xs })
unfolding pop
pop_cons_eq x [] is = ground (arith, is.depth, is.held.0)
pop_cons_eq x (y ∷ ys) is = ground (arith, is.depth, is.held.0)

pub push-cons :
    {s : Stack} (xs : List ℤ) (x : ℤ)
    → IsStack s xs
    → length xs < max_size
    → IsChar x
    → (s' : Stack) × (push s x ≡ (ok, s')) × IsStack s' (x ∷ xs)
push-cons {s} xs x is h c = (
  _,
  push_room xs x is h,
  record {
    depth = refl;
    room = omega arith;
    held = (ground arith, Holds-update s.cells xs (length xs) x (omega arith) is.held);
    chars = (c, is.chars);
  },
)

pub push_refused :
    {s : Stack} (xs : List ℤ) (x : ℤ)
    → IsStack s xs
    → length xs ≡ max_size
    → push s x ≡ (err_length, s)
unfolding push
push_refused [] x is h = absurd (omega arith)
push_refused (y ∷ ys) x is h = ground (arith, is.depth)

pub pop-cons :
    {s : Stack} (x : ℤ) (xs : List ℤ)
    → IsStack s (x ∷ xs)
    → (s' : Stack) × (pop s ≡ (x, s')) × IsStack s' xs
pop-cons {s} x xs is = (
  record s { top_index = index_of xs },
  pop_cons_eq x xs is,
  record { depth = refl; room = omega (arith, is.room); held = is.held.1; chars = is.chars.1 },
)

pub pop-nil : {s : Stack} → IsStack s [] → pop s ≡ (err_length, s)
unfolding pop
pop-nil is = ground (arith, is.depth)

pub top-cons : {s : Stack} (x : ℤ) (xs : List ℤ) → IsStack s (x ∷ xs) → top s ≡ x
unfolding top
top-cons x xs is = ground (arith, is.depth, is.held.0)

pub empty-nil : {s : Stack} → IsStack s [] → empty s ≡ err_length
unfolding empty
empty-nil is = ground (arith, is.depth)

pub empty-cons : {s : Stack} (x : ℤ) (xs : List ℤ) → IsStack s (x ∷ xs) → empty s ≡ ok
unfolding empty
empty-cons x xs is = ground (arith, is.depth)

-- `full` compares with an index that no stack reaches.
pub full_never : {s : Stack} (xs : List ℤ) → IsStack s xs → full s ≡ ok
unfolding full
full_never [] is = ground (arith, is.depth)
full_never (x ∷ xs) is = ground (arith, is.depth)

-- On a stack that holds `xs`, `push` refuses exactly if there are 102 elements, and then changes
-- nothing; else a `pop` gives the pushed character back and leaves a stack that holds `xs`. And
-- `full` reports room in every case, also where `push` refuses.
push-pop-full :
    (s : Stack) (xs : List ℤ) (x : ℤ)
    → IsStack s xs
    → IsChar x
    → (((length xs ≡ max_size) × (push s x ≡ (err_length, s)))
        ⊎ ((s' : Stack) × (push s x ≡ (ok, s')) × ((pop s').0 ≡ x) × IsStack (pop s').1 xs))
      × (full s ≡ ok)
push-pop-full s xs x is c = (
  elim (dec_lt (length xs) max_size) [
    | yes h ↦
        let (s', q, is') = push-cons xs x is h c in
        let (s'', p, is'') = pop-cons x xs is' in
        inr (s', q, ap (λ r. r.0) p, subst (λ r. IsStack r.1 xs) (sym p) is'')
    | no h ↦
        let e : length xs ≡ max_size = omega (arith, is.room) in inl (e, push_refused xs x is e)
  ],
  full_never xs is,
)
