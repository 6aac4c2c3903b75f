-- ===== src/Queue/Chain.antt =====
-- The nodes of a queue, from `head` to NULL.
use ics7_os.Common.{
  ℕ, suc, ◌<◌, ◌≡◌, ◌≢◌, false, Option, none, some, List, [], ◌∷◌, ◌++◌, length, sym, All,
  All-append, ==_self, zero, arith, ◌==◌, ==_of_ne,
}
use ics7_os.Memory.{Ptr, null, write, load}
use ics7_os.Common.Options.{◌>>=◌}
use ics7_os.Queue.{Heap, walk}

abbrev pub first : List Ptr → Ptr
first [] = null
first (p ∷ ps) = p

abbrev pub Apart : Ptr → List Ptr → Type 0
Apart a = All (λ p. p ≢ a)

abbrev pub Linked : Heap → List Ptr → Type 0
Linked h [] = Unit
Linked h (p ∷ ps) = (p ≢ null) × (h.at p ≡ some (first ps)) × Apart p ps × Linked h ps

-- A write outside the list keeps it.
pub Linked-write :
    (h : Heap) (a : Ptr) (c : Option Ptr) (ps : List Ptr)
    → Apart a ps
    → Linked h ps
    → Linked (write h a c) ps
Linked-write h a c [] apart l = tt
Linked-write h a c (p ∷ ps) (ne, apart) (nn, at, out, l) =
    (nn, ground arith, out, Linked-write h a c ps apart l)

-- An unused address is in no list.
pub Apart-unused : (h : Heap) (a : Ptr) (ps : List Ptr) → h.at a ≡ none → Linked h ps → Apart a ps
Apart-unused h a [] e l = tt
Apart-unused h a (p ∷ ps) e (nn, at, out, l) = ((λ q. ground arith), Apart-unused h a ps e l)

pub load-first :
    (h : Heap) (p : Ptr) (ps : List Ptr) → Linked h (p ∷ ps) → load h p ≡ some (first ps)
load-first h p ps (nn, at, out, l) = ground arith

pub first_not_null : (h : Heap) (p : Ptr) (ps : List Ptr) → Linked h (p ∷ ps) → (p == null) ≡ false
first_not_null h p ps l = ==_of_ne p null l.0

-- No node is in both lists.
abbrev pub Disjoint : List Ptr → List Ptr → Type 0
Disjoint ps = All (λ t. Apart t ps)

pub Apart-head : (p : Ptr) (ps tail : List Ptr) → Disjoint (p ∷ ps) tail → Apart p tail
Apart-head p ps [] f = tt
Apart-head p ps (t ∷ tail) (f, fs) = ((λ e. f.0 (sym e)), Apart-head p ps tail fs)

pub Apart-rest : (p : Ptr) (ps tail : List Ptr) → Disjoint (p ∷ ps) tail → Disjoint ps tail
Apart-rest p ps [] f = tt
Apart-rest p ps (t ∷ tail) (f, fs) = (f.1, Apart-rest p ps tail fs)

pub Disjoint-sym : (ps qs : List Ptr) → Disjoint ps qs → Disjoint qs ps
Disjoint-sym [] qs d = tt
Disjoint-sym (p ∷ ps) qs d = (Apart-head p ps qs d, Disjoint-sym ps qs (Apart-rest p ps qs d))

pub Disjoint-snoc :
    (ps qs : List Ptr) (a : Ptr) → Disjoint ps qs → Apart a qs → Disjoint (ps ++ a ∷ []) qs
Disjoint-snoc ps [] a d f = tt
Disjoint-snoc ps (q ∷ qs) a (apart, d) (ne, f) =
    (All-append (λ p. p ≢ q) ps (a ∷ []) apart ((λ e. ne (sym e)), tt), Disjoint-snoc ps qs a d f)

walk_last : (h : Heap) (p : Ptr) (k : ℕ) → 0 < k → load h p ≡ some null → walk k h p ≡ some p
unfolding walk
walk_last h p zero small e = absurd (omega arith)
walk_last h p (suc k) small e = rw e

walk_on :
    (h : Heap) (p : Ptr) {q cur : Ptr} {n : ℕ} (k : ℕ)
    → suc n < k
    → load h p ≡ some q
    → (q == null) ≡ false
    → ((j : ℕ) → n < j → walk j h q ≡ some cur)
    → walk k h p ≡ some cur
unfolding walk
walk_on h p zero small e ne found = absurd (omega arith)
walk_on h p (suc k) small e ne found = rw e (rw (ne, ◌>>=◌) (found k (omega arith)))

-- The list with `tail` behind it, after its last node, which the walk finds, was made to point
-- there.
pub Linked-append :
    (h : Heap) (p : Ptr) (ps tail : List Ptr)
    → Linked h (p ∷ ps)
    → Linked h tail
    → Disjoint (p ∷ ps) tail
    → (cur : Ptr) × Linked (write h cur (some (first tail))) (p ∷ (ps ++ tail))
      × ((k : ℕ) → length ps < k → walk k h p ≡ some cur)
      × ((a : Ptr) → Apart a (p ∷ ps) → cur ≢ a)
unfolding walk
Linked-append h p [] tail (nn, at, out, l) behind fresh =
    let apart : Apart p tail = Apart-head p [] tail fresh in
    (
      p,
      (nn, rw (==_self p), apart, Linked-write h p (some (first tail)) tail apart behind),
      (λ k small. walk_last h p k small (load-first h p [] (nn, at, out, l))),
      (λ a a_apart. a_apart.0),
    )
Linked-append h p (q ∷ ps) tail (nn, at, out, l) behind fresh =
    let (cur, l', found, off) =
      Linked-append h q ps tail l behind (Apart-rest p (q ∷ ps) tail fresh) in
    (
      cur,
      (
        nn,
        rw (==_of_ne cur p (off p out)) at,
        All-append (λ r. r ≢ p) (q ∷ ps) tail out (Apart-head p (q ∷ ps) tail fresh),
        l',
      ),
      (λ k small.
          walk_on h p k small (load-first h p (q ∷ ps) (nn, at, out, l)) (first_not_null h q ps l)
            found),
      (λ a a_apart. off a a_apart.1),
    )
