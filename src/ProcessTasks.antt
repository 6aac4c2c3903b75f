-- ===== src/ProcessTasks.antt =====
-- unix-lab-02/task-1.c, task-2.c and task-3.c: a parent, two children, and what they print. `fork`,
-- `execl` and `wait` are steps; a child can be killed by a signal at any time.
pub mod Children
pub mod Lines
pub mod Invariant
pub mod Moves
pub mod Reports
pub mod Ends
pub mod Tests
use ics7_os.Common.{
  ℕ, zero, suc, ◌+◌, ◌<◌, ◌≡◌, ◌≢◌, Bool, true, false, List, [], ◌∷◌, ◌++◌, if◌then◌else◌,
}
use ics7_os.Common.Kids.{Kid, first, second, set}

-- The three programs.
pub data Task : Type 0 where
  task_1 task_2 task_3 : Task

-- The macros of <sys/wait.h> that read a status, and the statuses of a process that ended with an
-- exit code, or by a signal.
pub record WaitStatus : Type 0 where
  pub if_exited : ℕ → Bool
  pub exit_status : ℕ → ℕ
  pub if_signaled : ℕ → Bool
  pub term_sig : ℕ → ℕ
  pub if_stopped : ℕ → Bool
  pub stop_sig : ℕ → ℕ
  pub of_exit : ℕ → ℕ
  pub of_signal : ℕ → ℕ

-- A printf, with the child that it is about. A group, and the id of the parent, are left out.
pub data Line : Type 0 where
  parent_pid : Line
  forked : Kid → Line
  child_pid : Kid → Line
  executed : Kid → Line
  waited : Kid → (status : ℕ) → Line
  exited_with : (code : ℕ) → Kid → Line
  terminated_with : (signal : ℕ) → Kid → Line
  stopped_with : (signal : ℕ) → Kid → Line

-- The parent: before its first output, before a `fork`, before the output that follows it, before
-- the `wait` of a round, before the output of a round, and at the end: by exit(1), where the `fork`
-- of a child failed, or by `return 0`.
pub data Parent : Type 0 where
  beginning : Parent
  forking : Kid → Parent
  telling : Kid → Parent
  waiting : (round : ℕ) → Parent
  reporting : (round : ℕ) → Kid → (status : ℕ) → Parent
  failed : Kid → Parent
  returned : Parent

-- A child: before its output, before `execl` or `return`, with another program in place of this
-- one, a process that ended, and one that the parent waited for.
pub data Child : Type 0 where
  unborn born spoke replaced : Child
  done reaped : (status : ℕ) → Child

pub record State : Type 0 where
  pub parent : Parent
  pub at : Kid → Child
  pub printed : List Line

-- task-2.c has its first output commented out.
abbrev pub greeting : Task → List Line
greeting task_2 = []
greeting _ = parent_pid ∷ []

-- task-1.c has no second loop.
abbrev pub behind_loop : Task → Parent
behind_loop task_1 = returned
behind_loop _ = waiting 0

abbrev pub next_fork : Task → Kid → Parent
next_fork p first = forking second
next_fork p second = behind_loop p

abbrev pub spoken : Task → Kid → List Line
spoken task_3 k = child_pid k ∷ executed k ∷ []
spoken _ k = child_pid k ∷ []

abbrev pub next_wait : ℕ → Parent
next_wait zero = waiting 1
next_wait (suc n) = returned

abbrev pub Alive : Child → Type 0
Alive born = Unit
Alive spoke = Unit
Alive replaced = Unit
Alive _ = ⊥

module _ (w : WaitStatus) where
  open w use {
    if_exited, exit_status, if_signaled, term_sig, if_stopped, stop_sig, of_exit, of_signal,
  }

  -- The `if` on the status of a child.
  unfoldable pub describe : Kid → ℕ → List Line
  describe k status =
      if if_exited status
      then exited_with (exit_status status) k ∷ []
      else if if_signaled status
      then terminated_with (term_sig status) k ∷ []
      else if if_stopped status
      then stopped_with (stop_sig status) k ∷ []
      else []

  pub data Step (p : Task) (s : State) : State → Type 0 where
    greet :
        s.parent ≡ beginning
        → Step p s (record s { parent = forking first; printed = s.printed ++ greeting p })
    fork_ok :
        (k : Kid)
        → s.parent ≡ forking k
        → Step p s (record s { parent = telling k; at = set s.at k born })
    fork_failed : (k : Kid) → s.parent ≡ forking k → Step p s (record s { parent = failed k })
    tell :
        (k : Kid)
        → s.parent ≡ telling k
        → Step p s (record s { parent = next_fork p k; printed = s.printed ++ forked k ∷ [] })
    speak :
        (k : Kid)
        → s.at k ≡ born
        → Step p s (record s { at = set s.at k spoke; printed = s.printed ++ spoken p k })
    return :
        (k : Kid)
        → p ≢ task_3
        → s.at k ≡ spoke
        → Step p s (record s { at = set s.at k (done (of_exit 0)) })
    exec_ok :
        (k : Kid) → p ≡ task_3 → s.at k ≡ spoke → Step p s (record s { at = set s.at k replaced })
    exec_failed :
        (k : Kid)
        → p ≡ task_3
        → s.at k ≡ spoke
        → Step p s (record s { at = set s.at k (done (of_exit 1)) })
    -- The other program ends, with any exit code.
    other_ended :
        (k : Kid) (code : ℕ)
        → s.at k ≡ replaced
        → Step p s (record s { at = set s.at k (done (of_exit code)) })
    killed :
        (k : Kid) (signal : ℕ)
        → 0 < signal
        → signal < 65
        → Alive (s.at k)
        → Step p s (record s { at = set s.at k (done (of_signal signal)) })
    wait_ok :
        (n : ℕ) (k : Kid) {status : ℕ}
        → s.parent ≡ waiting n
        → s.at k ≡ done status
        → Step p s (record s { parent = reporting n k status; at = set s.at k (reaped status) })
    report :
        (n : ℕ) (k : Kid) {status : ℕ}
        → s.parent ≡ reporting n k status
        → Step p s (record s {
          parent = next_wait n;
          printed = s.printed ++ waited k status ∷ describe k status;
        })

  pub data Reach (p : Task) : ℕ → State → Type 0 where
    start : Reach p 0 (record { parent = beginning; at = λ _. unborn; printed = [] })
    later : {n : ℕ} {s t : State} → Reach p n s → Step p s t → Reach p (suc n) t

  -- The states of each program.
  abbrev pub Task1 : ℕ → State → Type 0
  Task1 n s = Reach task_1 n s

  abbrev pub Task2 : ℕ → State → Type 0
  Task2 n s = Reach task_2 n s

  abbrev pub Task3 : ℕ → State → Type 0
  Task3 n s = Reach task_3 n s
