-- ===== src/ReadersWriters/Invariant.antt =====
-- What holds of the semaphores, of the number and of the processes' places in every state that is
-- reached without a failed call of `semop`.
mod Moves
pub use Moves.{tally, up_to, Good, Owns}
use Moves.{entered, stored, tally_at, Shift, Move-Good, Move-Owns, Move-Owns_other}
use ics7_os.Common.{
  ℕ, zero, suc, ◌+◌, ◌-◌, ◌≤◌, ◌<◌, ◌≡◌, ◌≢◌, refl, ap, ◌∙◌, List, [], ◌∷◌, ◌++◌, length,
  length-append, arith, ℕ_discrete, ap₂, sym, subst, ltb, if◌then◌else◌,
}
use ics7_os.Common.Threads.{
  move, weight, weight-move, weight_one, weight_two, weight_zero, weight_mono,
}
use ics7_os.Semaphore.{Kernel}
use ics7_os.ReadersWriters.{
  waiting_readers, active_readers, waiting_writers, bin_writer, Shared, Pc, begin_read, print_read,
  end_read, begin_write, load, put, print_written, end_write, Move, enter_read, do_print_read,
  leave_read, enter_write, do_load, do_put, do_print_written, leave_write, System, init, forked,
  Step, pick, Reach, start, later, reading, writing,
}
use ics7_os.ReadersWriters.Calls.{
  Values, semop-start_read, semop-stop_read, semop-start_write, semop-stop_write,
}

pub record Inv (n : ℕ) (s : System) : Type 0 where
  pub good : Good s.mem (tally n s.pc)
  pub owns : (i : ℕ) → i < n → Owns s.mem (s.pc i)

stored-le : (p : Pc) → stored p ≤ writing p
stored-le p = ground arith

pub unshown-le : (n : ℕ) (pc : ℕ → Pc) → (tally n pc).unshown ≤ (tally n pc).writers
unshown-le n pc = weight_mono writing stored stored-le n pc

shift :
    (n i : ℕ) (pc : ℕ → Pc) (q : Pc) → i < n → Shift (tally n pc) (tally n (move pc i q)) (pc i) q
shift n i pc q h = record {
  readers = weight-move reading n i pc q h;
  writers = weight-move writing n i pc q h;
  unprinted = weight-move entered n i pc q h;
  unshown = weight-move stored n i pc q h;
  among_readers = weight_one reading n i pc h;
  among_writers = weight_one writing n i pc h;
  fewer_shown = weight_mono writing stored stored-le n pc;
}

module _ (k : Kernel) where
  pub Step-Inv : {n : ℕ} {s t : System} → Step k n s t → Inv n s → Inv n t
  Step-Inv {n} {s} (pick i {m} {p} h mv) inv = record {
    good = Move-Good k mv inv.good (shift n i s.pc p h) (inv.owns i h);
    owns = λ j b. elim (ℕ_discrete i j) [
      | yes e ↦ subst (λ q. Owns m q) (here j e) (Move-Owns k mv)
      | no ne ↦
          subst (λ q. Owns m q) (there j ne)
            (Move-Owns_other k mv (s.pc j)
              (omega (arith, inv.good.one_writer, weight_two writing n i j s.pc h b ne))
              (inv.owns j b))
    ];
  }
    where
      here : (j : ℕ) → i ≡ j → p ≡ move s.pc i p j
      here j e = ground arith

      there : (j : ℕ) → i ≢ j → s.pc j ≡ move s.pc i p j
      there j ne = ground arith

  forked-weight :
      (w : Pc → ℕ) (n : ℕ) → w begin_read ≡ 0 → w begin_write ≡ 0 → weight w n forked ≡ 0
  forked-weight w n r v = weight_zero w n forked (λ i h. ground arith)

  init-Inv : (n : ℕ) → Inv n init
  unfolding init
  init-Inv n = record {
    good = record {
      one_writer = omega (arith, forked-weight writing n refl refl);
      counted = omega (arith, forked-weight reading n refl refl);
      none_waits = refl;
      never_down = omega (arith, forked-weight entered n refl refl);
      number = omega (arith, forked-weight stored n refl refl);
      all_written = unfold up_to in refl;
    };
    owns = λ i h. ground arith;
  }

  pub Reach-Inv : {n : ℕ} {s : System} → Reach k n 0 s → Inv n s
  Reach-Inv {n} start = init-Inv n
  Reach-Inv (later r st) = Step-Inv st (Reach-Inv r)
