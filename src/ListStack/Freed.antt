-- ===== src/ListStack/Freed.antt =====
-- unix-lab-02/task3/lab_4_9/list_operations.c: the array of the addresses that were freed.
-- `none` is an access behind the end of the array.
use ics7_os.Common.{
  ℕ, zero, suc, ◌+◌, ◌-◌, ◌≤◌, ◌<◌, ◌≡◌, ◌≢◌, false, Option, none, some, ℤ, ◌||◌, ltb, ◌==◌,
  if◌then◌else◌, arith, ==_self, ==_of_ne, lt→ltb, ltb_of_ge, inl, inr, Bool-cases,
}
use ics7_os.ArrayStack.{ok, err_length}
use ics7_os.Memory.{Ptr, null}

-- N of defines.h
abbrev pub array_size : ℕ
array_size = 500

-- The caller's `arr` and `m`.
pub record Freed : Type 0 where
  pub arr : ℕ → Ptr
  pub m : ℕ

abbrev pub set : (ℕ → Ptr) → ℕ → Ptr → ℕ → Ptr
set arr i p j = if j == i then p else arr j

unfoldable pub add_delete_memory : Ptr → ℕ → Freed → Option (ℤ × Freed)
add_delete_memory s n f =
    if ltb n 1 || s == null
    then some (err_length, f)
    else if ltb f.m array_size
    then some (ok, record { arr = set f.arr f.m s; m = f.m + 1 })
    else none

-- The first index from `i` on, below `i + k`, that holds `s`.
unfoldable pub find_from : ℕ → ℕ → Ptr → (ℕ → Ptr) → Option ℕ
find_from zero i s arr = none
find_from (suc k) i s arr =
    let later = find_from k (suc i) s arr in if arr i == s then some i else later

-- The body of the `if`.
abbrev pub swap_out : Freed → ℕ → Option (ℤ × Freed)
swap_out f i =
    if ltb f.m array_size
    then some (ok, record { arr = set (set f.arr f.m (f.arr i)) i (f.arr f.m); m = f.m - 1 })
    else none

unfoldable pub delete_old_memory_from_array : Ptr → Freed → Option (ℤ × Freed)
delete_old_memory_from_array s f = elim (find_from f.m 0 s f.arr) [
  | none ↦ some (ok, f)
  | some i ↦ swap_out f i
]

-- Two arrays that agree below `m`.
abbrev SameBelow : ℕ → (ℕ → Ptr) → (ℕ → Ptr) → Type 0
SameBelow m a b = (j : ℕ) → j < m → a j ≡ b j

find_from-some :
    (k i j : ℕ) (s : Ptr) (arr : ℕ → Ptr)
    → i ≤ j
    → j < i + k
    → arr j ≡ s
    → ((l : ℕ) → i ≤ l → l < j → arr l ≢ s)
    → find_from k i s arr ≡ some j
unfolding find_from
find_from-some zero i j s arr low high at before = absurd (omega arith)
find_from-some (suc k) i j s arr low high at before = elim (Bool-cases (i == j)) [
  | inl e ↦ let same : i ≡ j = ground (arith, e) in rw same (rw at (rw (==_self s)))
  | inr e ↦
      let apart : i ≢ j = (λ q. ground (arith, e, q)) in
      let hit : (arr i == s) ≡ false = ==_of_ne (arr i) s (before i (omega arith) (omega arith)) in
      rw hit (
        find_from-some k (suc i) j s arr (omega arith) (omega arith) at
          (λ l lo hi. before l (omega arith) hi))
]

-- `delete_old_memory_from_array`, when `s` stands first at `i` and the array has a free place: one
-- entry less is kept, and in the place of `s` stands what was behind the last entry, so that the
-- last entry is lost unless it was `s`.
delete_old_memory_from_array_lem :
    (f : Freed) (s : Ptr) (i : ℕ)
    → i < f.m
    → f.m < array_size
    → f.arr i ≡ s
    → ((l : ℕ) → l < i → f.arr l ≢ s)
    → (g : Freed) × (delete_old_memory_from_array s f ≡ some (ok, g))
      × (g.m + 1 ≡ f.m)
      × (g.arr i ≡ f.arr f.m)
      × ((j : ℕ) → j < f.m → j ≢ i → g.arr j ≡ f.arr j)
unfolding delete_old_memory_from_array
delete_old_memory_from_array_lem f s i low room at before = (
  record { arr = set (set f.arr f.m (f.arr i)) i (f.arr f.m); m = f.m - 1 },
  rw
      (
        find_from-some f.m 0 i s f.arr (omega arith) (omega arith) at (λ l _. before l),
        delete_old_memory_from_array,
      )
      (rw (lt→ltb _ _ room)),
  omega arith,
  rw (==_self i),
  (λ j below apart. rw (==_of_ne j i apart, ==_of_ne j f.m (λ q. omega (arith, q)))),
)

-- An address that was just recorded, and was not recorded before, is taken out again with the
-- entries before it as they were, when the array had two free places.
add_delete_memory-delete_old_memory_from_array :
    (f : Freed) (s : Ptr) (n : ℕ)
    → 0 < n
    → s ≢ null
    → f.m + 1 < array_size
    → ((l : ℕ) → l < f.m → f.arr l ≢ s)
    → (g : Freed) × (add_delete_memory s n f ≡ some (ok, g))
      × ((g' : Freed) × (delete_old_memory_from_array s g ≡ some (ok, g'))
          × (g'.m ≡ f.m)
          × SameBelow f.m g'.arr f.arr)
unfolding add_delete_memory
add_delete_memory-delete_old_memory_from_array f s n some_left nn room fresh =
    let g : Freed = record { arr = set f.arr f.m s; m = f.m + 1 } in
    let (g', q, m, at, same) =
      delete_old_memory_from_array_lem g s f.m (omega arith) room (rw (==_self f.m))
        (λ l h. rw (==_of_ne l f.m (λ q. omega (arith, q))) (fresh l h)) in
    (
      g,
      rw (ltb_of_ge n 1 some_left, ==_of_ne s null nn, lt→ltb f.m array_size (omega arith)),
      (
        g',
        q,
        omega (arith, m),
        (λ j h.
            rw (same j (omega arith) (λ q. omega (arith, q)))
              (rw (==_of_ne j f.m (λ q. omega (arith, q))))),
      ),
    )
