-- ===== src/ProducerConsumer.antt =====
-- unix-lab-04/pc.c: producers and consumers over a shared segment, three semaphores and `semop`.
pub mod Calls
pub mod Letters
pub mod Invariant
pub mod Safety
pub mod Progress
pub mod Tests
use ics7_os.Common.{
  ℕ, ◌+◌, ◌-◌, ◌*◌, ◌≤◌, ◌<◌, ◌≡◌, Bool, true, false, ◌&&◌, Option, none, some, List, [], ◌∷◌, ◌++◌,
  ℤ, pos, ◌+ℤ◌, to_char, ltb, ◌==◌, if◌then◌else◌,
}
use ics7_os.Common.Threads.{move}
use ics7_os.Semaphore.{Sembuf, buf, Sems, set_to, down, up, Kernel}

abbrev pub size_buf : ℕ
size_buf = 128

abbrev pub producers_amount : ℕ
producers_amount = 3

abbrev pub consumers_amount : ℕ
consumers_amount = 3

abbrev pub sb : ℕ
sb = 0

abbrev pub se : ℕ
se = 1

abbrev pub sf : ℕ
sf = 2

unfoldable pub start_produce : List Sembuf
start_produce = buf se down ∷ buf sb down ∷ []

unfoldable pub stop_produce : List Sembuf
stop_produce = buf sb up ∷ buf sf up ∷ []

unfoldable pub start_consume : List Sembuf
start_consume = buf sf down ∷ buf sb down ∷ []

unfoldable pub stop_consume : List Sembuf
stop_consume = buf sb up ∷ buf se up ∷ []

-- The segment and the semaphores. An address is an offset into the segment. `bytes` is the segment
-- but for the two pointers and the letter at its start, and what lies behind the 128 bytes that it
-- was asked for; the two lists are what was printed.
pub record Shared : Type 0 where
  pub sems : Sems
  pub bytes : ℕ → ℤ
  pub ptr_prod : ℕ
  pub ptr_cons : ℕ
  pub alfa : ℤ
  pub produced : List ℤ
  pub consumed : List ℤ

-- Where a process stands: before `semop`, or before the statement that is named. A process whose
-- `semop` fails calls `exit(1)`: `gone` outside the critical section, `lost` at its end. A signal
-- ends a producer at `lost_store`.
pub data Pc : Type 0 where
  produce : Pc
  store : Pc
  print_stored : Pc
  advance : Pc
  next_letter : Pc
  end_produce : Pc
  lost_produce : Pc
  lost_store : Pc
  consume : Pc
  print_taken : Pc
  increment : Pc
  end_consume : Pc
  lost_consume : Pc
  gone : Pc

abbrev pub put_byte : (ℕ → ℤ) → ℕ → ℤ → ℕ → ℤ
put_byte bytes at x j = if at == j then x else bytes j

module _ (k : Kernel) where
  open k use {semop}

  -- One step of a process, in `producer` or in `consumer`.
  pub data Move (m : Shared) : Pc → Shared → Pc → Type 0 where
    enter_produce :
        {s : Sems}
        → semop m.sems start_produce ≡ some s
        → Move m produce (record m { sems = s }) store
    fail_produce : Move m produce m gone
    do_store :
        m.ptr_prod < size_buf
        → Move m store (record m { bytes = put_byte m.bytes m.ptr_prod m.alfa }) print_stored
    -- Behind the 128 bytes, what a store does depends on how much the kernel attached: it is done, or
    -- ends the process.
    store_behind :
        size_buf ≤ m.ptr_prod
        → Move m store (record m { bytes = put_byte m.bytes m.ptr_prod m.alfa }) print_stored
    crash_store : size_buf ≤ m.ptr_prod → Move m store m lost_store
    do_print_stored :
        Move m print_stored (record m { produced = m.produced ++ m.bytes m.ptr_prod ∷ [] }) advance
    do_advance : Move m advance (record m { ptr_prod = m.ptr_prod + 1 }) next_letter
    do_next_letter : Move m next_letter (record m { alfa = to_char (m.alfa +ℤ pos 1) }) end_produce
    leave_produce :
        {s : Sems}
        → semop m.sems stop_produce ≡ some s
        → Move m end_produce (record m { sems = s }) produce
    fail_end_produce : Move m end_produce m lost_produce
    enter_consume :
        {s : Sems}
        → semop m.sems start_consume ≡ some s
        → Move m consume (record m { sems = s }) print_taken
    fail_consume : Move m consume m gone
    do_print_taken :
        Move m print_taken (record m { consumed = m.consumed ++ m.bytes m.ptr_cons ∷ [] }) increment
    do_increment :
        Move m increment
          (record m { bytes = put_byte m.bytes m.ptr_cons (to_char (m.bytes m.ptr_cons +ℤ pos 1)) })
          end_consume
    leave_consume :
        {s : Sems}
        → semop m.sems stop_consume ≡ some s
        → Move m end_consume (record m { sems = s }) consume
    fail_end_consume : Move m end_consume m lost_consume

-- An index from the number of processes on names no process.
pub record System : Type 0 where
  pub mem : Shared
  pub pc : ℕ → Pc

-- `create_producers` and `create_consumers`: the first children produce, the later ones consume.
abbrev pub forked : ℕ → Pc
forked i = if ltb i producers_amount then produce else consume

-- The offsets that `main` computes. `ptr_cons` is a `char**`, so `ptr_cons + sizeof(char*)` lies
-- eight pointers of eight bytes behind it.
abbrev pub cons_at : ℕ
cons_at = 8

abbrev pub alfa_at : ℕ
alfa_at = cons_at + 8 * 8

abbrev pub addr3 : ℕ
addr3 = alfa_at + 1

-- The segment as `main` leaves it to its children. The store to `*addr` writes the low byte that
-- `*ptr_prod` has already.
unfoldable pub init : (ℕ → ℤ) → System
init unset = record {
  mem = record {
    sems = set_to (set_to (set_to (λ _. 0) sb 1) se size_buf) sf 0;
    bytes = unset;
    ptr_prod = addr3;
    ptr_cons = addr3;
    alfa = pos b'a';
    produced = [];
    consumed = [];
  };
  pc = forked;
}

-- What the calls in `main` return: whether each succeeds, and how many of the six forks do.
pub record Startup : Type 0 where
  pub shmget : Bool
  pub shmat : Bool
  pub semget : Bool
  pub setval_sb : Bool
  pub setval_se : Bool
  pub setval_sf : Bool
  pub forks : ℕ

-- `main` until it waits: `none` is an `exit(1)` before the first fork. After a failed fork the
-- children that are there go on, with no parent.
unfoldable pub launch : Startup → (ℕ → ℤ) → Option (System × ℕ)
launch c unset =
    if c.shmget && c.shmat && c.semget && c.setval_sb && c.setval_se && c.setval_sf
    then some (
      init unset,
      if ltb c.forks (producers_amount + consumers_amount)
          then c.forks
          else producers_amount + consumers_amount,
    )
    else none

module _ (k : Kernel) (n : ℕ) where
  pub data Step (s : System) : System → Type 0 where
    pick :
        (i : ℕ) {m : Shared} {p : Pc}
        → i < n
        → Move k s.mem (s.pc i) m p
        → Step s (record { mem = m; pc = move s.pc i p })

  pub data Reach (unset : ℕ → ℤ) : System → Type 0 where
    start : Reach unset (init unset)
    later : {s t : System} → Reach unset s → Step s t → Reach unset t

-- In the critical section, or dead in it.
abbrev pub critical : Pc → ℕ
critical produce = 0
critical consume = 0
critical gone = 0
critical _ = 1
