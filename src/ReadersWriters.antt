-- ===== src/ReadersWriters.antt =====
-- unix-lab-04/rw.c: readers and writers over a shared number, five semaphores and `semop`. The
-- program does not look at what `semop` returns: a process whose call fails goes on as if it had
-- succeeded.
pub mod Calls
pub mod Invariant
pub mod Safety
pub mod Tests
use ics7_os.Common.{
  ℕ, zero, suc, ◌+◌, ◌<◌, ◌≡◌, Bool, ◌&&◌, Option, none, some, List, [], ◌∷◌, ◌++◌, ℤ, pos, ltb,
  ◌==◌, if◌then◌else◌,
}
use ics7_os.Common.Threads.{move}
use ics7_os.Semaphore.{Sembuf, buf, Sems, set_to, down, up, Kernel}

abbrev pub count_writers : ℕ
count_writers = 2

abbrev pub count_readers : ℕ
count_readers = 5

abbrev pub waiting_readers : ℕ
waiting_readers = 0

abbrev pub active_readers : ℕ
active_readers = 1

abbrev pub waiting_writers : ℕ
waiting_writers = 3

abbrev pub bin_writer : ℕ
bin_writer = 4

unfoldable pub start_read : List Sembuf
start_read =
    buf waiting_readers up
    ∷ buf bin_writer (pos 0)
    ∷ buf waiting_writers (pos 0)
    ∷ buf active_readers up
    ∷ buf waiting_readers down
    ∷ []

unfoldable pub stop_read : List Sembuf
stop_read = buf active_readers down ∷ []

unfoldable pub start_write : List Sembuf
start_write =
    buf waiting_writers up
    ∷ buf active_readers (pos 0)
    ∷ buf bin_writer down
    ∷ buf waiting_writers down
    ∷ []

unfoldable pub stop_write : List Sembuf
stop_write = buf bin_writer up ∷ []

-- The operations that a call of `semop` with `nsops` is given.
abbrev pub first_ops : ℕ → List Sembuf → List Sembuf
first_ops zero ops = []
first_ops (suc n) [] = []
first_ops (suc n) (b ∷ ops) = b ∷ first_ops n ops

-- The semaphores, `*shm`, and what the readers and the writers printed of it.
pub record Shared : Type 0 where
  pub sems : Sems
  pub shm : ℕ
  pub read : List ℕ
  pub written : List ℕ

-- Where a process stands: before `semop`, or before the statement that is named. `(*shm)++` is a
-- load and a store.
pub data Pc : Type 0 where
  begin_read : Pc
  print_read : Pc
  end_read : Pc
  begin_write : Pc
  load : Pc
  put : (loaded : ℕ) → Pc
  print_written : Pc
  end_write : Pc

module _ (k : Kernel) where
  open k use {semop}

  -- One step of a process, in `reader` or in `writer`.
  pub data Move (m : Shared) : Pc → Shared → Pc → Type 0 where
    enter_read :
        {s : Sems}
        → semop m.sems (first_ops 4 start_read) ≡ some s
        → Move m begin_read (record m { sems = s }) print_read
    do_print_read : Move m print_read (record m { read = m.read ++ m.shm ∷ [] }) end_read
    leave_read :
        {s : Sems}
        → semop m.sems (first_ops 1 stop_read) ≡ some s
        → Move m end_read (record m { sems = s }) begin_read
    enter_write :
        {s : Sems}
        → semop m.sems (first_ops 4 start_write) ≡ some s
        → Move m begin_write (record m { sems = s }) load
    do_load : Move m load m (put m.shm)
    do_put : {v : ℕ} → Move m (put v) (record m { shm = v + 1 }) print_written
    do_print_written :
        Move m print_written (record m { written = m.written ++ m.shm ∷ [] }) end_write
    leave_write :
        {s : Sems}
        → semop m.sems (first_ops 1 stop_write) ≡ some s
        → Move m end_write (record m { sems = s }) begin_write

-- A call of `semop` fails, and the process goes on all the same.
pub data Fails : Pc → Pc → Type 0 where
  fail_start_read : Fails begin_read print_read
  fail_stop_read : Fails end_read begin_read
  fail_start_write : Fails begin_write load
  fail_stop_write : Fails end_write begin_write

-- An index from the number of processes on names no process.
pub record System : Type 0 where
  pub mem : Shared
  pub pc : ℕ → Pc

-- `create_writers` and `create_readers`: the first children write, the later ones read.
abbrev pub forked : ℕ → Pc
forked i = if ltb i count_writers then begin_write else begin_read

-- What `main` leaves to its children. It sets BIN_WRITER alone; a new set has zeros elsewhere.
unfoldable pub init : System
init = record {
  mem = record { sems = set_to (λ _. 0) bin_writer 1; shm = 0; read = []; written = [] };
  pc = forked;
}

-- What the calls in `main` return: whether each succeeds, and how many forks do.
pub record Startup : Type 0 where
  pub ftok : Bool
  pub shmget : Bool
  pub shmat : Bool
  pub semget : Bool
  pub setval : Bool
  pub forks : ℕ

-- `main` until it waits: `none` is an end before the first fork.
unfoldable pub launch : Startup → Option (System × ℕ)
launch c =
    if c.ftok && c.shmget && c.shmat && c.semget && c.setval
    then some (
      init,
      if ltb c.forks (count_writers + count_readers)
          then c.forks
          else count_writers + count_readers,
    )
    else none

module _ (k : Kernel) (n : ℕ) where
  pub data Step (s : System) : System → Type 0 where
    pick :
        (i : ℕ) {m : Shared} {p : Pc}
        → i < n
        → Move k s.mem (s.pc i) m p
        → Step s (record { mem = m; pc = move s.pc i p })

  -- A process goes on after a failed call; the set and the number are as they were.
  pub data Fault (s : System) : System → Type 0 where
    pick_failed :
        (i : ℕ) {p : Pc}
        → i < n
        → Fails (s.pc i) p
        → Fault s (record { mem = s.mem; pc = move s.pc i p })

  -- `Reach f s`: the processes can get to `s`, and `f` calls of `semop` failed on the way.
  pub data Reach : ℕ → System → Type 0 where
    start : Reach 0 init
    later : {f : ℕ} {s t : System} → Reach f s → Step s t → Reach f t
    failed : {f : ℕ} {s t : System} → Reach f s → Fault s t → Reach (suc f) t

-- In the section of a reader, and of a writer.
abbrev pub reading : Pc → ℕ
reading print_read = 1
reading end_read = 1
reading _ = 0

abbrev pub writing : Pc → ℕ
writing load = 1
writing (put _) = 1
writing print_written = 1
writing end_write = 1
writing _ = 0
