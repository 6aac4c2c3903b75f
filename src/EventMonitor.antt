-- ===== src/EventMonitor.antt =====
-- unix-lab-05/main.c: readers and writers as threads of Windows, over interlocked counters, a mutex
-- and two events.
pub mod Winapi
pub mod Startup
pub mod Counters
pub mod Tests
use ics7_os.Common.{
  ℕ, ◌+◌, ◌-◌, ◌≤◌, ◌<◌, ◌≡◌, ◌≢◌, Bool, true, false, Option, none, some, ltb, if◌then◌else◌,
}
use ics7_os.Common.Threads.{move}
use ics7_os.EventMonitor.Winapi.{Handle, Signals, Wait, object_0, Mutex, Kernel}

-- RNUM and WNUM, RRUNS and WRUNS
abbrev pub r_num : ℕ
r_num = 3

abbrev pub w_num : ℕ
w_num = 3

abbrev pub r_runs : ℕ
r_runs = 7

abbrev pub w_runs : ℕ
w_runs = 8

-- The global variables that the threads change, and what their handles name.
pub record Shared : Type 0 where
  pub waiting_readers : ℕ
  pub active_readers : ℕ
  pub waiting_writers : ℕ
  pub active_writer : Bool
  pub val : ℕ
  pub signals : Signals
  pub mutex : Mutex

-- `_can_read` and `_can_write`, as `main` leaves them.
pub record Handles : Type 0 where
  pub can_read : Handle
  pub can_write : Handle

-- Where a thread stands: before the call or the access that is named. `val++` is a load and a
-- store.
pub data Place : Type 0 where
  -- startRead
  begin_read : Place
  lock_mutex : Place
  test_writers : Place
  try_write : Place
  await_read : Place
  signal_read : Place
  count_active : Place
  uncount_reader : Place
  unlock_mutex : Place
  -- readerRoutine, stopRead
  print_read : Place
  end_read : Place
  test_active : Place
  reset_read : Place
  signal_write : Place
  turn_read : Place
  -- startWrite
  begin_write : Place
  test_writer : Place
  try_read : Place
  await_write : Place
  uncount_writer : Place
  claim : Place
  -- writerRoutine, stopWirite
  load : Place
  put : (loaded : ℕ) → Place
  print_written : Place
  unclaim : Place
  test_readers : Place
  wake_readers : Place
  wake_writers : Place
  turn_write : Place
  finished : Place

module _ (k : Kernel) (hs : Handles) where
  open k use {set_event, reset_event, wait_now, wait_for, lock, unlock}
  open hs use {can_read, can_write}

  -- One step of thread `i`, in a routine.
  pub data Move (i : ℕ) (m : Shared) : Place → Shared → Place → Type 0 where
    do_begin_read :
        Move i m begin_read (record m { waiting_readers = m.waiting_readers + 1 }) lock_mutex
    do_lock :
        {x : Mutex}
        → lock m.mutex i ≡ some x
        → Move i m lock_mutex (record m { mutex = x }) test_writers
    some_writers : 0 < m.waiting_writers → Move i m test_writers m await_read
    no_writers : m.waiting_writers ≡ 0 → Move i m test_writers m try_write
    write_signalled :
        {s : Signals}
        → wait_now m.signals can_write ≡ (object_0, s)
        → Move i m try_write (record m { signals = s }) await_read
    write_silent :
        {w : Wait} {s : Signals}
        → wait_now m.signals can_write ≡ (w, s)
        → w ≢ object_0
        → Move i m try_write (record m { signals = s }) signal_read
    do_await_read :
        {w : Wait} {s : Signals}
        → wait_for m.signals can_read ≡ some (w, s)
        → Move i m await_read (record m { signals = s }) signal_read
    do_signal_read :
        Move i m signal_read (record m { signals = set_event m.signals can_read }) count_active
    do_count_active :
        Move i m count_active (record m { active_readers = m.active_readers + 1 }) uncount_reader
    do_uncount_reader :
        Move i m uncount_reader (record m { waiting_readers = m.waiting_readers - 1 }) unlock_mutex
    do_unlock :
        {x : Mutex}
        → unlock m.mutex i ≡ some x
        → Move i m unlock_mutex (record m { mutex = x }) print_read
    do_print_read : Move i m print_read m end_read
    do_end_read : Move i m end_read (record m { active_readers = m.active_readers - 1 }) test_active
    no_active : m.active_readers ≡ 0 → Move i m test_active m reset_read
    some_active : 0 < m.active_readers → Move i m test_active m turn_read
    do_reset_read :
        Move i m reset_read (record m { signals = reset_event m.signals can_read }) signal_write
    do_signal_write :
        Move i m signal_write (record m { signals = set_event m.signals can_write }) turn_read
    do_begin_write :
        Move i m begin_write (record m { waiting_writers = m.waiting_writers + 1 }) test_writer
    a_writer : m.active_writer ≡ true → Move i m test_writer m await_write
    no_writer : m.active_writer ≡ false → Move i m test_writer m try_read
    read_signalled :
        {s : Signals}
        → wait_now m.signals can_read ≡ (object_0, s)
        → Move i m try_read (record m { signals = s }) await_write
    read_silent :
        {w : Wait} {s : Signals}
        → wait_now m.signals can_read ≡ (w, s)
        → w ≢ object_0
        → Move i m try_read (record m { signals = s }) uncount_writer
    do_await_write :
        {w : Wait} {s : Signals}
        → wait_for m.signals can_write ≡ some (w, s)
        → Move i m await_write (record m { signals = s }) uncount_writer
    do_uncount_writer :
        Move i m uncount_writer (record m { waiting_writers = m.waiting_writers - 1 }) claim
    do_claim : Move i m claim (record m { active_writer = true }) load
    do_load : Move i m load m (put m.val)
    do_put : {v : ℕ} → Move i m (put v) (record m { val = v + 1 }) print_written
    do_print_written : Move i m print_written m unclaim
    do_unclaim : Move i m unclaim (record m { active_writer = false }) test_readers
    some_readers : 0 < m.waiting_readers → Move i m test_readers m wake_readers
    no_readers : m.waiting_readers ≡ 0 → Move i m test_readers m wake_writers
    do_wake_readers :
        Move i m wake_readers (record m { signals = set_event m.signals can_read }) turn_write
    do_wake_writers :
        Move i m wake_writers (record m { signals = set_event m.signals can_write }) turn_write

-- The end of a round of the `for` of a routine: where the next one begins, and how many there are.
pub data IsTurn : Place → Place → ℕ → Type 0 where
  reader : IsTurn turn_read begin_read r_runs
  writer : IsTurn turn_write begin_write w_runs

-- `turns` is the `i` of each routine. The readers are the threads below RNUM, the writers those
-- behind.
pub record System : Type 0 where
  pub mem : Shared
  pub at : ℕ → Place
  pub turns : ℕ → ℕ

-- What the threads find: the first ones read, the later ones write. `silent` are the new events.
unfoldable pub init : Signals → Mutex → System
init silent free = record {
  mem = record {
    waiting_readers = 0;
    active_readers = 0;
    waiting_writers = 0;
    active_writer = false;
    val = 0;
    signals = silent;
    mutex = free;
  };
  at = λ i. if ltb i r_num then begin_read else begin_write;
  turns = λ _. 0;
}

module _ (k : Kernel) (hs : Handles) where
  -- A step of thread `i`.
  pub data StepOf (i : ℕ) (s : System) : System → Type 0 where
    go :
        {m : Shared} {p : Place}
        → Move k hs i s.mem (s.at i) m p
        → StepOf i s (record s { mem = m; at = move s.at i p })
    turn :
        {p : Place} {runs : ℕ}
        → IsTurn (s.at i) p runs
        → s.turns i + 1 < runs
        → StepOf i s (record s { at = move s.at i p; turns = move s.turns i (s.turns i + 1) })
    last :
        {p : Place} {runs : ℕ}
        → IsTurn (s.at i) p runs
        → runs ≤ s.turns i + 1
        → StepOf i s (record s { at = move s.at i finished })

  pub data Step (s : System) : System → Type 0 where
    pick : (i : ℕ) {t : System} → i < r_num + w_num → StepOf i s t → Step s t

  pub data Reach (start : System) : System → Type 0 where
    here : Reach start start
    later : {s t : System} → Reach start s → Step s t → Reach start t
