-- ===== src/PipeTasks.antt =====
-- unix-lab-02/task-4.c and task-5.c: a parent, two children, and a pipe. In task-5.c a child writes
-- its message only if it saw the signal; task-4.c is the same program with `sig_flag` set from the
-- start.
pub mod Received
pub mod Both
pub mod Tests
use ics7_os.Common.{
  ℕ, zero, suc, ◌+◌, ◌<◌, ◌≡◌, ◌≢◌, Bool, true, false, List, [], ◌∷◌, ◌++◌, ◌⊎◌, ◌==◌,
  if◌then◌else◌,
}
use ics7_os.Common.Kids.{Kid, first, second, set}

-- The strings of `msg`.
abbrev pub msg : Kid → List ℕ
msg first = 120 ∷ 120 ∷ 120 ∷ []
msg second =
    97 ∷ 97 ∷ 98 ∷ 98 ∷ 99 ∷ 99 ∷ 100 ∷ 100 ∷ 101 ∷ 101 ∷ 102 ∷ 102 ∷ 103 ∷ 103 ∷ 107 ∷ 107 ∷ 108
    ∷ 108 ∷ 109 ∷ 109 ∷ 110 ∷ 110 ∷ []

-- The parent: before a fork, before the `wait` of a round, before the last output, and at the end.
pub data Parent : Type 0 where
  forking : Kid → Parent
  waiting : (round : ℕ) → Parent
  printing : Parent
  ended : (status : ℕ) → Parent

-- A child: before the test of `sig_flag`, before `write`, a process that returned or that a signal
-- ended, and one that the parent waited for; `wrote` says whether it sent its message.
pub data Child : Type 0 where
  unborn born writing : Child
  exited reaped : (wrote : Bool) → Child

-- `signaled` says which children a signal ended before they wrote; `row` are the bytes of `msg[0]`,
-- in the parent.
pub record State : Type 0 where
  pub parent : Parent
  pub parent_flag : Bool
  pub at : Kid → Child
  pub flag : Kid → Bool
  pub signaled : Kid → Bool
  pub pipe : List ℕ
  pub row : List ℕ
  pub printed : List ℕ

abbrev pub next_fork : Kid → Parent
next_fork first = forking second
next_fork second = waiting 0

-- The bytes that `read` puts at the start of a buffer.
abbrev pub overlay : List ℕ → List ℕ → List ℕ
overlay [] old = old
overlay (c ∷ cs) [] = c ∷ cs
overlay (c ∷ cs) (d ∷ old) = c ∷ overlay cs old

-- What printf writes for "%s".
abbrev pub c_string : List ℕ → List ℕ
c_string [] = []
c_string (c ∷ cs) = let rest = c_string cs in if c == 0 then [] else c ∷ rest

-- The write end of the pipe is open in this child.
abbrev pub Open : Child → Type 0
Open born = Unit
Open writing = Unit
Open _ = ⊥

pub data Step (s : State) : State → Type 0 where
  fork_ok :
      (k : Kid)
      → s.parent ≡ forking k
      → Step s (record s {
        parent = next_fork k;
        at = set s.at k born;
        flag = set s.flag k s.parent_flag;
      })
  fork_failed : (k : Kid) → s.parent ≡ forking k → Step s (record s { parent = ended 1 })
  -- sigCatch, in one of the processes.
  caught_parent : Step s (record s { parent_flag = true })
  caught : (k : Kid) → Step s (record s { flag = set s.flag k true })
  saw_signal :
      (k : Kid) → s.at k ≡ born → s.flag k ≡ true → Step s (record s { at = set s.at k writing })
  no_signal :
      (k : Kid)
      → s.at k ≡ born
      → s.flag k ≡ false
      → Step s (record s { at = set s.at k (exited false) })
  wrote :
      (k : Kid)
      → s.at k ≡ writing
      → Step s (record s { at = set s.at k (exited true); pipe = s.pipe ++ msg k })
  -- WIFSIGNALED: a signal that is not caught ends a child that has not written.
  killed :
      (k : Kid) {c : Child}
      → s.at k ≡ c
      → Open c
      → Step s (record s { at = set s.at k (exited false); signaled = set s.signaled k true })
  waited :
      (n : ℕ) (k : Kid) {b : Bool}
      → s.parent ≡ waiting n
      → n < 2
      → s.at k ≡ exited b
      → Step s (record s { parent = waiting (suc n); at = set s.at k (reaped b) })
  -- The parent closed its write end; `read` waits until there are bytes, or no writers.
  did_read :
      s.parent ≡ waiting 2
      → (s.pipe ≢ []) ⊎ ((k : Kid) → ¬ Open (s.at k))
      → Step s (record s { parent = printing; row = overlay s.pipe s.row; pipe = [] })
  did_print : s.parent ≡ printing → Step s (record s { parent = ended 0; printed = c_string s.row })

-- `flag` is the first value of `sig_flag`.
abbrev pub start : Bool → List ℕ → State
start flag row = record {
  parent = forking first;
  parent_flag = flag;
  at = λ _. unborn;
  flag = λ _. flag;
  signaled = λ _. false;
  pipe = [];
  row = row;
  printed = [];
}

pub data Reach (flag : Bool) (row : List ℕ) : State → Type 0 where
  begun : Reach flag row (start flag row)
  later : {s t : State} → Reach flag row s → Step s t → Reach flag row t

-- The states of task-4.c.
abbrev pub Task4 : List ℕ → State → Type 0
Task4 row s = Reach true row s
