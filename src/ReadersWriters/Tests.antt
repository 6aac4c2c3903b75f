-- ===== src/ReadersWriters/Tests.antt =====
-- Runs of rw.c over a counting kernel, and its theorems in states that are reached.
use ics7_os.Common.{ℕ, ◌+◌, ◌≤◌, ◌≡◌, refl, none, [], ◌∷◌, length, arith}
use ics7_os.Semaphore.Counters.{run, counters}
use ics7_os.ReadersWriters.{
  System, pick, Reach, start, later, init, start_read, start_write, first_ops, reading, writing,
  enter_read, do_print_read, enter_write, do_load, do_put,
}
use ics7_os.ReadersWriters.Invariant.{up_to}
use ics7_os.ReadersWriters.Safety.{writers_exclusive, no_lost_update, writer_needs_none}

record Run : Type 0 where
  last : System
  reach : Reach counters 7 0 last

-- Writer 0 is in its section and has stored 1.
abbrev writing_one : Run
unfolding init start_write run
writing_one = record {
  last = _;
  reach =
      later
        (later (later start (pick 0 (omega arith) (enter_write refl)))
          (pick 0 (omega arith) do_load))
        (pick 0 (omega arith) do_put);
}

-- Reader 2 has entered beside it, and has read the number before the writer printed it.
abbrev both_in : Run
unfolding init start_write start_read run
both_in = record {
  last = _;
  reach =
      later (later writing_one.reach (pick 2 (omega arith) (enter_read refl)))
        (pick 2 (omega arith) do_print_read);
}

-- A reader and a writer in their sections together.
reader_beside_writer :
    (reading (both_in.last.pc 2) ≡ 1)
    × (writing (both_in.last.pc 0) ≡ 1)
    × (both_in.last.mem.read ≡ 1 ∷ [])
    × (both_in.last.mem.written ≡ [])
unfolding init start_write start_read run
reader_beside_writer = (refl, refl, refl, refl)

-- At the start, with nobody inside, a reader waits.
reader_waits : run init.mem.sems (first_ops 4 start_read) ≡ none
unfolding init start_read run
reader_waits = refl

writers_exclusive_example : ◌≡◌ {A = ℕ} 0 0
unfolding both_in
writers_exclusive_example =
    writers_exclusive counters 7 both_in.last both_in.reach 0 0 (omega arith) (omega arith) refl
      refl

no_lost_update_example :
    (both_in.last.mem.written ≡ up_to (length both_in.last.mem.written))
    × (length both_in.last.mem.written ≤ both_in.last.mem.shm)
    × (both_in.last.mem.shm ≤ length both_in.last.mem.written + 1)
no_lost_update_example = no_lost_update counters 7 both_in.last both_in.reach

writer_needs_none_example : (reading (init.pc 3) ≡ 0) × (writing (init.pc 3) ≡ 0)
unfolding init start_write run
writer_needs_none_example = writer_needs_none counters 7 init _ start refl 3 (omega arith)
