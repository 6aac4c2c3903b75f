-- ===== src/ProducerConsumer/Tests.antt =====
-- Runs of pc.c over a counting kernel, and its theorems in a state that is reached.
use ics7_os.Common.{ℕ, ◌+◌, ◌≤◌, ◌<◌, ◌≡◌, refl, true, [], ◌∷◌, ℤ, pos, length, arith}
use ics7_os.Semaphore.Counters.{run, counters}
use ics7_os.ProducerConsumer.{
  size_buf, System, addr3, pick, Reach, start, later, init, start_produce, stop_produce,
  start_consume, enter_produce, do_store, do_print_stored, do_advance, do_next_letter,
  leave_produce, enter_consume, do_print_taken, do_increment,
}
use ics7_os.ProducerConsumer.Letters.{letters}
use ics7_os.ProducerConsumer.Safety.{mutual_exclusion, in_order, places}
use ics7_os.ProducerConsumer.Progress.{Advance, no_deadlock, alive}

abbrev unset : ℕ → ℤ
unset _ = pos 0

-- A system that is reached, with the way there.
record Run : Type 0 where
  last : System
  reach : Reach counters 6 unset last

-- Producer 0 enters.
abbrev entered : Run
unfolding init start_produce run
entered = record { last = _; reach = later start (pick 0 (omega arith) (enter_produce refl)) }

-- Producer 0 makes its round, and consumer 3 takes the letter.
abbrev passed_on : Run
unfolding init start_produce stop_produce start_consume run
passed_on = record {
  last = _;
  reach =
      later
        (later
          (later
            (later
              (later
                (later
                  (later (later entered.reach (pick 0 (omega arith) (do_store (omega arith))))
                    (pick 0 (omega arith) do_print_stored))
                  (pick 0 (omega arith) do_advance))
                (pick 0 (omega arith) do_next_letter))
              (pick 0 (omega arith) (leave_produce refl)))
            (pick 3 (omega arith) (enter_consume refl)))
          (pick 3 (omega arith) do_print_taken))
        (pick 3 (omega arith) do_increment);
}

passed_on_letters :
    (passed_on.last.mem.produced ≡ pos b'a' ∷ []) × (passed_on.last.mem.consumed ≡ pos b'a' ∷ [])
unfolding init start_produce stop_produce start_consume run
passed_on_letters = (refl, refl)

mutual_exclusion_example : ◌≡◌ {A = ℕ} 0 0
unfolding entered
mutual_exclusion_example =
    mutual_exclusion counters 6 unset entered.last entered.reach 0 0 (omega arith) (omega arith)
      refl refl

in_order_example :
    (passed_on.last.mem.consumed ≡ letters (length passed_on.last.mem.consumed))
    × (passed_on.last.mem.produced ≡ letters (length passed_on.last.mem.produced))
    × (length passed_on.last.mem.consumed ≤ length passed_on.last.mem.produced)
    × (length passed_on.last.mem.produced ≤ length passed_on.last.mem.consumed + size_buf)
in_order_example = in_order counters 6 unset passed_on.last passed_on.reach

places_example :
    (entered.last.mem.ptr_prod ≡ addr3 + length entered.last.mem.produced)
    × (entered.last.mem.ptr_cons ≡ addr3)
unfolding entered
places_example = places counters 6 unset entered.last entered.reach 0 (omega arith) refl

all_alive : (i : ℕ) → i < 6 → alive (passed_on.last.pc i) ≡ true
unfolding passed_on
all_alive i h = ground arith

no_deadlock_example : (i : ℕ) × (i < 6) × Advance counters passed_on.last.mem (passed_on.last.pc i)
unfolding passed_on
no_deadlock_example =
    no_deadlock counters unset passed_on.last passed_on.reach (omega arith) (omega arith) all_alive
