-- ===== src/ProducerConsumer/Invariant/Moves.antt =====
-- A step of a process that is alone in the critical section, or enters or leaves it, keeps the
-- invariant.
use ics7_os.Common.{◌-◌, ◌≡◌, [], ◌∷◌, length, length-append, arith}
use ics7_os.Semaphore.{Kernel}
use ics7_os.ProducerConsumer.{
  Shared, Pc, Move, enter_produce, fail_produce, do_store, store_behind, crash_store,
  do_print_stored, do_advance, do_next_letter, leave_produce, fail_end_produce, enter_consume,
  fail_consume, do_print_taken, do_increment, leave_consume, fail_end_consume,
}
use ics7_os.ProducerConsumer.Letters.{letter, letter_next, letters_grow}
use ics7_os.ProducerConsumer.Calls.{
  semop-start_produce, semop-start_consume, semop-stop_produce, semop-stop_consume,
}
use ics7_os.ProducerConsumer.Invariant.Defs.{tally_at, Good}

module _ (k : Kernel) where
  -- A step of a process that is alone in the critical section, or enters it.
  pub Move-Good :
      {m m' : Shared} {p p' : Pc} → Move k m p m' p' → Good m (tally_at p) → Good m' (tally_at p')
  Move-Good (enter_produce q) g = ground (arith, semop-start_produce k q)
  Move-Good fail_produce g = ground arith
  Move-Good {m} (do_store h) g = ground (arith, g.first_byte, g.next_char)
  Move-Good {m} (store_behind h) g = ground (arith, g.first_byte, g.next_char)
  Move-Good (crash_store h) g = ground arith
  Move-Good {m} do_print_stored g =
      let x = m.bytes m.ptr_prod in
      let long = length-append m.produced (x ∷ []) in
      let now : x ≡ letter (length m.produced) = ground arith in
      record {
        one = g.one;
        slots = g.slots;
        flow = omega (arith, long);
        place = omega (arith, long);
        cons_place = g.cons_place;
        changed_some = omega (arith, long);
        taken_some = g.taken_some;
        next_char = ground (arith, long);
        first_byte = λ h. g.first_byte (omega (arith, long));
        last_byte = λ h. absurd (omega arith);
        all_produced = letters_grow m.produced x g.all_produced now;
        all_consumed = g.all_consumed;
      }
  Move-Good do_advance g = ground arith
  Move-Good {m} do_next_letter g = ground (arith, letter_next (length m.produced - 1))
  Move-Good (leave_produce q) g = ground (arith, semop-stop_produce k q)
  Move-Good fail_end_produce g = ground arith
  Move-Good (enter_consume q) g = ground (arith, semop-start_consume k q)
  Move-Good fail_consume g = ground arith
  Move-Good {m} do_print_taken g =
      let x = m.bytes m.ptr_cons in
      let long = length-append m.consumed (x ∷ []) in
      let now : x ≡ letter (length m.consumed) = ground (arith, g.first_byte) in
      record {
        one = g.one;
        slots = g.slots;
        flow = omega (arith, long);
        place = g.place;
        cons_place = g.cons_place;
        changed_some = g.changed_some;
        taken_some = omega (arith, long);
        next_char = g.next_char;
        first_byte = λ h. ground (arith, g.first_byte h, long);
        last_byte = λ h. absurd (omega arith);
        all_produced = g.all_produced;
        all_consumed = letters_grow m.consumed x g.all_consumed now;
      }
  Move-Good {m} do_increment g = ground (arith, letter_next (length m.consumed - 1))
  Move-Good (leave_consume q) g = ground (arith, semop-stop_consume k q)
  Move-Good fail_end_consume g = ground arith
