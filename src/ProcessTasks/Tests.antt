-- ===== src/ProcessTasks/Tests.antt =====
-- The theorems on task-1.c, task-2.c and task-3.c at concrete inputs.
use ics7_os.Common.{
  ℕ, ◌*◌, ◌/◌, ◌%◌, ◌≤◌, ◌≡◌, refl, arith, ◌⊎◌, Bool, true, lt→ltb, ==_iff, ==_of_ne, ◌&&◌, ltb,
  ◌==◌, [], ◌∷◌,
}
use ics7_os.Common.Kids.{Kid, first, second}
use ics7_os.ProcessTasks.{
  task_3, WaitStatus, waited, exited_with, terminated_with, returned, failed, reaped, State, Step,
  greet, fork_ok, tell, speak, exec_ok, other_ended, killed, wait_ok, report, describe, Reach,
  start, later,
}
use ics7_os.ProcessTasks.Lines.{about}
use ics7_os.ProcessTasks.Reports.{IsWaitStatus, Told, waited_both}
use ics7_os.ProcessTasks.Ends.{run_ends}

-- The encoding of Linux: the code in the second byte, or the signal in the low seven bits.
abbrev linux : WaitStatus
linux = record {
  if_exited = λ s. s % 128 == 0;
  exit_status = λ s. s / 256 % 256;
  if_signaled = λ s. ltb 0 (s % 128) && ltb (s % 128) 127;
  term_sig = λ s. s % 128;
  if_stopped = λ s. s % 256 == 127;
  stop_sig = λ s. s / 256 % 256;
  of_exit = λ c. c % 256 * 256;
  of_signal = λ n. n;
}

both : {a b : Bool} → a ≡ true → b ≡ true → (a && b) ≡ true
both h h' = rw (h, h') refl

linux-IsWaitStatus : IsWaitStatus linux
linux-IsWaitStatus = record {
  exit = λ c. ((==_iff _ 0).1 (omega arith), omega arith);
  signal = λ n low high. (
    ==_of_ne _ 0 (omega (arith, low, high)),
    both (lt→ltb 0 (n % 128) (omega (arith, low, high)))
        (lt→ltb (n % 128) 127 (omega (arith, low, high))),
    omega (arith, low, high),
  );
}

-- task-3.c: the second program ends with the exit code 7, and the first child is killed.
record Ran : Type 0 where
  last : State
  reach : Reach linux task_3 13 last
  end : last.parent ≡ returned
  first_lines : about first last.printed ≡ waited first 9 ∷ terminated_with 9 first ∷ []
  second_lines : about second last.printed ≡ waited second 1792 ∷ exited_with 7 second ∷ []

abbrev run : Ran
unfolding describe
run = record {
  last = _;
  reach =
      later
        (later
          (later
            (later
              (later
                (later
                  (later
                    (later
                      (later
                        (later
                          (later (later (later start (greet refl)) (fork_ok first refl))
                            (tell first refl))
                          (fork_ok second refl))
                        (tell second refl))
                      (speak second refl))
                    (exec_ok second refl refl))
                  (killed first 9 (omega arith) (omega arith) tt))
                (other_ended second 7 refl))
              (wait_ok 0 second refl refl))
            (report 0 second refl))
          (wait_ok 1 first refl refl))
        (report 1 first refl);
  end = refl;
  first_lines = refl;
  second_lines = refl;
}

waited_both_example :
    (status : ℕ) × (run.last.at first ≡ reaped status)
    × Told linux first status (about first run.last.printed)
waited_both_example =
    waited_both linux linux-IsWaitStatus task_3 13 run.last (λ q. absurd (cc q)) run.reach run.end
      first

run_ends_example :
    (13 ≤ 17)
    × ((run.last.parent ≡ returned)
        ⊎ ((k : Kid) × (run.last.parent ≡ failed k))
        ⊎ ((t : State) × Step linux task_3 run.last t))
run_ends_example = run_ends linux task_3 13 run.last run.reach
