-- ===== src/ListStack/Menu/Parts.antt =====
-- The array of freed addresses, and print_stack, in a session of `start_list_menu`.
use ics7_os.Common.{
  ℕ, zero, suc, ◌+◌, ◌-◌, ◌≤◌, ◌<◌, ◌≡◌, refl, inl, inr, ◌||◌, Bool-cases, Option, none, some, [],
  ◌∷◌, ℤ, ltb, length, arith, ◌==◌, lt→ltb,
}
use ics7_os.Common.Options.{◌>>=◌}
use ics7_os.ArrayStack.{ok, err_length}
use ics7_os.Memory.{Ptr, null}
use ics7_os.ListStack.{Heap}
use ics7_os.ListStack.Chain.{Cells, Chain, load-cons}
use ics7_os.ListStack.Ops.{first-cons}
use ics7_os.ListStack.Freed.{
  Freed, set, array_size, find_from, add_delete_memory, delete_old_memory_from_array,
}
use ics7_os.ListStack.Menu.{print_stack}

-- With a free place, both functions on the array end, and at most one address is added.
pub add_delete_memory-le :
    (s : Ptr) (n : ℕ) (f : Freed)
    → f.m < array_size
    → (r : ℤ × Freed) × (add_delete_memory s n f ≡ some r) × (r.1.m ≤ f.m + 1)
unfolding add_delete_memory
add_delete_memory-le s n f room = elim (Bool-cases (ltb n 1 || s == null)) [
  | inl e ↦ ((err_length, f), rw e, omega arith)
  | inr e ↦ (
    (ok, record { arr = set f.arr f.m s; m = f.m + 1 }),
    rw (e, lt→ltb f.m array_size room),
    omega arith,
  )
]

pub delete_old_memory_from_array-le :
    (s : Ptr) (f : Freed)
    → f.m < array_size
    → (r : ℤ × Freed) × (delete_old_memory_from_array s f ≡ some r) × (r.1.m ≤ f.m)
unfolding delete_old_memory_from_array
delete_old_memory_from_array-le s f room = go (find_from f.m 0 s f.arr) refl
  where
    go :
        (o : Option ℕ)
        → find_from f.m 0 s f.arr ≡ o
        → (r : ℤ × Freed) × (delete_old_memory_from_array s f ≡ some r) × (r.1.m ≤ f.m)
    go none e = ((ok, f), rw (e, delete_old_memory_from_array), omega arith)
    go (some i) e = (
      (ok, record { arr = set (set f.arr f.m (f.arr i)) i (f.arr f.m); m = f.m - 1 }),
      rw (e, delete_old_memory_from_array) (rw (lt→ltb f.m array_size room)),
      omega arith,
    )

pub print_stack-cells :
    (k : ℕ) (h : Heap) (p : Ptr) (v : ℤ) (xs : Cells)
    → Chain h ((p, v) ∷ xs)
    → length xs < k
    → print_stack k h p ≡ some ((p, v) ∷ xs)
unfolding print_stack
print_stack-cells zero h p v xs ch small = absurd (omega arith)
print_stack-cells (suc k) h p v [] ch small = rw (load-cons h p v [] ch)
print_stack-cells (suc k) h p v ((q, w) ∷ xs) ch small =
    rw (load-cons h p v ((q, w) ∷ xs) ch)
      (rw (first-cons h q w xs ch.3, ◌>>=◌) (rw (print_stack-cells k h q w xs ch.3 (omega arith))))
