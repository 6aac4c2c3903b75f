-- ===== src/ListStack/Chain.antt =====
-- The nodes of a list, from an address to NULL.
use ics7_os.Common.{
  ◌≤◌, ◌≡◌, ◌≢◌, refl, Option, none, some, List, [], ◌∷◌, ℤ, length, All, IsChar, arith,
}
use ics7_os.ArrayStack.{max_size}
use ics7_os.Memory.{Ptr, null, write, load}
use ics7_os.ListStack.{Node, node, Heap, Stack}

-- Addresses and values, the head first.
abbrev pub Cells : Type 0
Cells = List (Ptr × ℤ)

abbrev pub first : Cells → Ptr
first [] = null
first ((p, v) ∷ xs) = p

abbrev pub values : Cells → List ℤ
values [] = []
values ((p, v) ∷ xs) = v ∷ values xs

abbrev pub Apart : Ptr → Cells → Type 0
Apart a = All (λ c. c.0 ≢ a)

abbrev pub Chain : Heap → Cells → Type 0
Chain h [] = Unit
Chain h ((p, v) ∷ xs) = (p ≢ null) × (h.at p ≡ some (node v (first xs))) × Apart p xs × Chain h xs

-- A stack of the program that holds `xs`.
pub record IsStack (st : Stack) (xs : Cells) : Type 0 where
  pub head : st.s ≡ first xs
  pub counted : st.n ≡ length xs
  pub room : length xs ≤ max_size
  pub chain : Chain st.heap xs
  pub chars : All IsChar (values xs)

pub length-values : (xs : Cells) → length (values xs) ≡ length xs
length-values [] = refl
length-values ((p, v) ∷ xs) = omega (arith, length-values xs)

-- A write to an address outside the chain keeps it.
pub Chain-write :
    (h : Heap) (a : Ptr) (c : Option Node) (xs : Cells)
    → Apart a xs
    → Chain h xs
    → Chain (write h a c) xs
Chain-write h a c [] apart ch = tt
Chain-write h a c ((p, v) ∷ xs) (ne, apart) (nn, at, out, ch) =
    (nn, ground arith, out, Chain-write h a c xs apart ch)

-- An unused address is in no chain.
pub Apart-unused : (h : Heap) (a : Ptr) (xs : Cells) → h.at a ≡ none → Chain h xs → Apart a xs
Apart-unused h a [] e ch = tt
Apart-unused h a ((p, v) ∷ xs) e (nn, at, out, ch) = ((λ q. ground arith), Apart-unused h a xs e ch)

pub load-cons :
    (h : Heap) (p : Ptr) (v : ℤ) (xs : Cells)
    → Chain h ((p, v) ∷ xs)
    → load h p ≡ some (node v (first xs))
load-cons h p v xs (nn, at, out, ch) = ground arith

-- A stack of the program that holds `xs`, and beside it a list `ys` of other nodes.
pub record Beside (ys : Cells) (st : Stack) (xs : Cells) : Type 0 where
  pub stack : IsStack st xs
  pub kept : Chain st.heap ys
  pub apart : All (λ c. Apart c.0 ys) xs
