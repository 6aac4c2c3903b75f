-- ===== src/PipeTasks/Tests.antt =====
-- The theorems on unix-lab-02/task-4.c and task-5.c at concrete inputs.
use ics7_os.Common.{ℕ, ◌≡◌, ◌≢◌, refl, arith, inl, inr, Bool, true, false, List, [], ◌∷◌, ◌++◌}
use ics7_os.Common.Kids.{Kid, first, second, set}
use ics7_os.PipeTasks.{
  msg, exited, Open, reaped, State, overlay, c_string, fork_ok, caught_parent, saw_signal,
  no_signal, wrote, waited, did_read, did_print, Reach, begun, later,
}
use ics7_os.PipeTasks.Received.{Sent, received}
use ics7_os.PipeTasks.Both.{zeros, Printed, both_received}

-- Two pointers of 8 bytes, and a third that is NULL.
abbrev pointers : List ℕ
pointers = 4 ∷ 1 ∷ 1 ∷ 1 ∷ 1 ∷ 1 ∷ 1 ∷ 1 ∷ 8 ∷ 1 ∷ 1 ∷ 1 ∷ 1 ∷ 1 ∷ 1 ∷ 1 ∷ []

abbrev row : List ℕ
row = pointers ++ zeros 8

record Run (flag : Bool) : Type 0 where
  last : State
  reach : Reach flag row last

-- The second child writes first.
abbrev both_written : Run true
both_written = record {
  last = _;
  reach =
      later
        (later
          (later
            (later (later (later begun (fork_ok first refl)) (fork_ok second refl))
              (saw_signal first refl refl))
            (saw_signal second refl refl))
          (wrote second refl))
        (wrote first refl);
}

abbrev both_printed : Run true
both_printed = record {
  last = _;
  reach =
      later
        (later
          (later (later both_written.reach (waited 0 first refl (omega arith) refl))
            (waited 1 second refl (omega arith) refl))
          (did_read refl (inr (λ k open_end. shut k open_end))))
        (did_print refl);
}
  where
    shut :
        (k : Kid) → ¬ Open (set (set (λ _. exited true) first (reaped true)) second (reaped true) k)
    shut first h = h
    shut second h = h

both_received_example : Printed (msg second ++ msg first)
both_received_example =
    both_received both_printed.last pointers 8 (omega arith) both_printed.reach refl λ k. refl

-- The signal comes between the two forks.
abbrev late_signal : Run false
late_signal = record {
  last = _;
  reach =
      later
        (later
          (later
            (later (later (later begun (fork_ok first refl)) caught_parent) (fork_ok second refl))
            (no_signal first refl refl))
          (saw_signal second refl refl))
        (wrote second refl);
}

abbrev late_printed : Run false
late_printed = record {
  last = _;
  reach =
      later
        (later
          (later (later late_signal.reach (waited 0 second refl (omega arith) refl))
            (waited 1 first refl (omega arith) refl))
          (did_read refl (inl (λ e. cons_nil e))))
        (did_print refl);
}
  where
    cons_nil : {x : ℕ} {xs : List ℕ} → x ∷ xs ≢ []
    cons_nil e = cc e

received_example :
    (sent : List ℕ) × Sent late_printed.last.at sent × (msg second ≡ c_string (overlay sent row))
received_example = received row false late_printed.last late_printed.reach refl
