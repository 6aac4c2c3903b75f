-- ===== src/ReadersWriters/Invariant/Moves.antt =====
-- The invariant of rw.c, and that a move of one process keeps it.
use ics7_os.Common.{
  ℕ, zero, suc, ◌+◌, ◌≤◌, ◌≡◌, refl, List, [], ◌∷◌, ◌++◌, length, length-append, arith, ap₂,
}
use ics7_os.Common.Threads.{weight}
use ics7_os.Semaphore.{Kernel}
use ics7_os.ReadersWriters.{
  waiting_readers, active_readers, waiting_writers, bin_writer, Shared, Pc, print_read, put,
  print_written, Move, enter_read, do_print_read, leave_read, enter_write, do_load, do_put,
  do_print_written, leave_write, reading, writing,
}
use ics7_os.ReadersWriters.Calls.{
  semop-start_read, semop-stop_read, semop-start_write, semop-stop_write,
}

-- A reader that entered and has not printed; a writer that stored and has not printed.
abbrev pub entered : Pc → ℕ
entered print_read = 1
entered _ = 0

abbrev pub stored : Pc → ℕ
stored print_written = 1
stored _ = 0

pub record Tally : Type 0 where
  pub readers : ℕ
  pub writers : ℕ
  pub unprinted : ℕ
  pub unshown : ℕ

abbrev pub tally_at : Pc → Tally
tally_at p = record {
  readers = reading p;
  writers = writing p;
  unprinted = entered p;
  unshown = stored p;
}

abbrev pub tally : ℕ → (ℕ → Pc) → Tally
tally n pc = record {
  readers = weight reading n pc;
  writers = weight writing n pc;
  unprinted = weight entered n pc;
  unshown = weight stored n pc;
}

-- 1, 2, …, n
unfoldable pub up_to : ℕ → List ℕ
up_to zero = []
up_to (suc n) = up_to n ++ suc n ∷ []

up_to_grow :
    (l : List ℕ) (x : ℕ)
    → l ≡ up_to (length l)
    → x ≡ suc (length l)
    → l ++ x ∷ [] ≡ up_to (length (l ++ x ∷ []))
unfolding up_to
up_to_grow l x p q = rw (long l x) (ap₂ (λ a b. a ++ b ∷ []) p q)
  where
    long : (l : List ℕ) (x : ℕ) → length (l ++ x ∷ []) ≡ suc (length l)
    long l x = omega (arith, length-append l (x ∷ []))

pub record Good (m : Shared) (t : Tally) : Type 0 where
  pub one_writer : m.sems bin_writer + t.writers ≡ 1
  pub counted : m.sems active_readers ≡ t.readers
  pub none_waits : m.sems waiting_writers ≡ 0
  pub never_down : m.sems waiting_readers ≡ length m.read + t.unprinted
  pub number : m.shm ≡ length m.written + t.unshown
  pub all_written : m.written ≡ up_to (length m.written)

-- What a process's local variable says of the number.
abbrev pub Owns : Shared → Pc → Type 0
Owns m (put v) = v ≡ m.shm
Owns m _ = Unit

-- From `t` to `u` one process went from `p` to `q`.
pub record Shift (t u : Tally) (p q : Pc) : Type 0 where
  pub readers : u.readers + reading p ≡ t.readers + reading q
  pub writers : u.writers + writing p ≡ t.writers + writing q
  pub unprinted : u.unprinted + entered p ≡ t.unprinted + entered q
  pub unshown : u.unshown + stored p ≡ t.unshown + stored q
  pub among_readers : reading p ≤ t.readers
  pub among_writers : writing p ≤ t.writers
  pub fewer_shown : t.unshown ≤ t.writers

module _ (k : Kernel) where
  pub Move-Good :
      {m m' : Shared} {p p' : Pc} {t u : Tally}
      → Move k m p m' p'
      → Good m t
      → Shift t u p p'
      → Owns m p
      → Good m' u
  Move-Good (enter_read q) g s o = ground (arith, semop-start_read k q)
  Move-Good {m} do_print_read g s o = ground (arith, length-append m.read (m.shm ∷ []))
  Move-Good (leave_read q) g s o = ground (arith, semop-stop_read k q)
  Move-Good (enter_write q) g s o = ground (arith, semop-start_write k q)
  Move-Good do_load g s o = ground arith
  Move-Good (do_put {v}) g s o = ground arith
  Move-Good {m} do_print_written g s o =
      let long = length-append m.written (m.shm ∷ []) in
      record {
        one_writer = omega arith;
        counted = omega arith;
        none_waits = g.none_waits;
        never_down = omega arith;
        number = omega (arith, long);
        all_written = up_to_grow m.written m.shm g.all_written (omega arith);
      }
  Move-Good (leave_write q) g s o = ground (arith, semop-stop_write k q)

  pub Move-Owns : {m m' : Shared} {p p' : Pc} → Move k m p m' p' → Owns m' p'
  Move-Owns do_load = refl
  Move-Owns mv = tt

  -- Only a writer in its section changes the number.
  pub Move-Owns_other :
      {m m' : Shared} {p p' : Pc}
      → Move k m p m' p'
      → (q : Pc) → writing p + writing q ≤ 1
      → Owns m q
      → Owns m' q
  Move-Owns_other do_put q h o = ground arith
  Move-Owns_other mv q h o = ground arith
