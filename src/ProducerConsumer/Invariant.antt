-- ===== src/ProducerConsumer/Invariant.antt =====
-- What holds of the segment and of the processes' places in every reachable state.
mod Defs
mod Moves
mod Alone
pub use Defs.{tally, Good}
pub use Alone.{busy-le, tally_alone}
use Defs.{printing, moving, changing, storing, entering, incrementing, tally_at}
use Moves.{Move-Good}
use Alone.{tally_of, tally-move_self}
use mathlib.Core.Path.{subst₂}
use ics7_os.Common.{
  ℕ, zero, suc, ◌+◌, ◌-◌, ◌≤◌, ◌<◌, ◌≡◌, refl, List, [], ◌∷◌, ◌++◌, ℤ, pos, ◌+ℤ◌, to_char, length,
  length-append, arith, ap, dec_lt, ◌⊎◌, inl, inr, sym, subst, ◌∙◌, ltb, if◌then◌else◌,
}
use ics7_os.Common.Threads.{
  move, weight, weight-move, weight_one, weight_mono, weight_alone, weight_zero,
}
use ics7_os.Semaphore.{Sems, Kernel}
use ics7_os.ProducerConsumer.{
  size_buf, sb, se, sf, Shared, Pc, produce, store, print_stored, advance, next_letter, end_produce,
  lost_produce, consume, print_taken, increment, end_consume, lost_consume, gone, put_byte, Move,
  enter_produce, fail_produce, do_store, store_behind, crash_store, do_print_stored, do_advance,
  do_next_letter, leave_produce, fail_end_produce, enter_consume, fail_consume, do_print_taken,
  do_increment, leave_consume, fail_end_consume, System, addr3, init, Step, pick, Reach, start,
  later, critical, forked,
}
use ics7_os.ProducerConsumer.Letters.{letter, letters, letter_next, letters_grow}
use ics7_os.ProducerConsumer.Calls.{
  Values, semop-start_produce, semop-start_consume, semop-stop_produce, semop-stop_consume,
}

move_here : (i : ℕ) (pc : ℕ → Pc) (p : Pc) → move pc i p i ≡ p
move_here i pc p = ground arith

module _ (k : Kernel) where
  -- A process that moves has the critical section for itself, or leaves for good outside it.
  alone_or_gone :
      {m m' : Shared} {p p' : Pc} (w : ℕ)
      → Move k m p m' p'
      → m.sems sb + w ≡ 1
      → critical p ≤ w
      → (w ≡ critical p) ⊎ ((m' ≡ m) × (tally_at p ≡ tally_at p'))
  alone_or_gone w (enter_produce q) one le = inl (omega (arith, (semop-start_produce k q).1))
  alone_or_gone w fail_produce one le = inr (refl, refl)
  alone_or_gone w (enter_consume q) one le = inl (omega (arith, (semop-start_consume k q).1))
  alone_or_gone w fail_consume one le = inr (refl, refl)
  alone_or_gone w (do_store h) one le = inl (omega arith)
  alone_or_gone w (store_behind h) one le = inl (omega arith)
  alone_or_gone w (crash_store h) one le = inl (omega arith)
  alone_or_gone w do_print_stored one le = inl (omega arith)
  alone_or_gone w do_advance one le = inl (omega arith)
  alone_or_gone w do_next_letter one le = inl (omega arith)
  alone_or_gone w (leave_produce q) one le = inl (omega arith)
  alone_or_gone w fail_end_produce one le = inl (omega arith)
  alone_or_gone w do_print_taken one le = inl (omega arith)
  alone_or_gone w do_increment one le = inl (omega arith)
  alone_or_gone w (leave_consume q) one le = inl (omega arith)
  alone_or_gone w fail_end_consume one le = inl (omega arith)

  pub Step-Good :
      {n : ℕ} {s t : System} → Step k n s t → Good s.mem (tally n s.pc) → Good t.mem (tally n t.pc)
  Step-Good {n} {s} (pick i {m} {p} h mv) g =
      elim (alone_or_gone (weight critical n s.pc) mv g.one (weight_one critical n i s.pc h)) [
        | inl e ↦
            let after : weight critical n (move s.pc i p) ≡ critical (move s.pc i p i) =
              rw (move_here i s.pc p) (omega (arith, weight-move critical n i s.pc p h)) in
            let good = Move-Good k mv (subst (Good s.mem) (tally_of n i s.pc h e) g) in
            subst (Good m)
              (sym (tally_of n i (move s.pc i p) h after ∙ ap tally_at (move_here i s.pc p))) good
        | inr (same, idle) ↦ subst₂ Good (sym same) (sym (tally-move_self n i s.pc p h idle)) g
      ]

  forked-weight : (w : Pc → ℕ) (n : ℕ) → w produce ≡ 0 → w consume ≡ 0 → weight w n forked ≡ 0
  forked-weight w n p c = weight_zero w n forked (λ i h. ground arith)

  pub init-Good : (unset : ℕ → ℤ) (n : ℕ) → Good (init unset).mem (tally n (init unset).pc)
  unfolding init letters letter to_char
  init-Good unset n =
      let none_in = forked-weight critical n refl refl in
      record {
        one = omega (arith, none_in);
        slots = omega (arith, none_in);
        flow =
            omega (arith, forked-weight entering n refl refl, forked-weight printing n refl refl);
        place = omega (arith, forked-weight moving n refl refl);
        cons_place = refl;
        changed_some = omega (arith, forked-weight changing n refl refl);
        taken_some = omega (arith, forked-weight incrementing n refl refl);
        next_char = rw (forked-weight changing n refl refl);
        first_byte = λ h. absurd (omega (arith, forked-weight storing n refl refl));
        last_byte = λ h. absurd (omega (arith, forked-weight storing n refl refl));
        all_produced = refl;
        all_consumed = refl;
      }

  pub Reach-Good :
      {n : ℕ} {unset : ℕ → ℤ} {s : System} → Reach k n unset s → Good s.mem (tally n s.pc)
  Reach-Good {n} {unset} start = init-Good unset n
  Reach-Good (later r st) = Step-Good st (Reach-Good r)
