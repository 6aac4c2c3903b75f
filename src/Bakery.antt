-- ===== src/Bakery.antt =====
-- unix-lab-06/bakery/bakery_server.c: Lamport's bakery behind remote procedure calls. The desk, one
-- thread that serves the calls, gives the numbers; a thread for each client waits for its turn.
pub mod Invariant
pub mod Turns
pub mod Safety
pub mod Rest
pub mod Progress
pub mod Calls
pub mod Letters
pub mod Tests
use ics7_os.Common.{
  ℕ, ◌+◌, ◌≤◌, ◌<◌, ◌≡◌, Bool, true, false, ◌&&◌, ◌||◌, List, [], ◌∷◌, ◌++◌, ltb, ◌==◌,
}
use ics7_os.Common.Threads.{move}

-- The length of every array of the file.
abbrev pub clients : ℕ
clients = 30

-- The global variables. Of `threads_results` the model has `id` and `res`, by index. `given` is
-- what was stored to `res`, in order, and `answers` what `bakery_res_1_svc` returned: `pid` and
-- `result`.
pub record Server : Type 0 where
  pub choosing : ℕ → ℕ
  pub number : ℕ → ℕ
  pub symbol : ℕ
  pub num : ℕ
  pub idx_thread_create : ℕ
  pub idx_thread_join : ℕ
  pub id : ℕ → ℕ
  pub res : ℕ → ℕ
  pub given : List ℕ
  pub answers : List (ℕ × ℕ)

-- Where the desk is in `get_number`: between calls, before the test of `number[j]`, before the
-- store to `max` that follows it, or before the statement that is named. `i` is the client's.
pub data Desk : Type 0 where
  idle : Desk
  scan : (i j max : ℕ) → Desk
  found : (i j max : ℕ) → Desk
  note : (i : ℕ) → Desk
  unchoose : (i : ℕ) → Desk

-- Where client `i` is: not yet given a number; with a number and not yet in `wait_queue`; then in
-- `bakery`, before the loop on `choosing[j]` or on `number[j]`, or before the statement that is
-- named. `symbol++` is a load and a store.
pub data Place : Type 0 where
  absent : Place
  held : Place
  check : (j : ℕ) → Place
  compare : (j : ℕ) → Place
  enter : Place
  bump : Place
  put : (loaded : ℕ) → Place
  inside : Place
  left : Place

-- `slot` is the index in `threads_results` that the thread of a client was given.
pub record System : Type 0 where
  pub mem : Server
  pub desk : Desk
  pub at : ℕ → Place
  pub slot : ℕ → ℕ

-- The condition of the second `while`.
abbrev pub blocked : (ℕ → ℕ) → ℕ → ℕ → Bool
blocked number i j =
    ltb 0 (number j) && (ltb (number j) (number i) || (number j == number i && ltb j i))

-- A step of the desk. A call of `get_number` when all the numbers are given writes behind the
-- arrays; there is no step for it.
pub data Serve (s : System) : System → Type 0 where
  take :
      s.desk ≡ idle
      → s.mem.num < clients
      → Serve s (record s {
        mem = record s.mem { num = s.mem.num + 1; choosing = move s.mem.choosing s.mem.num 1 };
        desk = scan s.mem.num 0 0;
      })
  higher :
      {i j max : ℕ}
      → s.desk ≡ scan i j max
      → j < clients
      → max < s.mem.number j
      → Serve s (record s { desk = found i j max })
  not_higher :
      {i j max : ℕ}
      → s.desk ≡ scan i j max
      → j < clients
      → s.mem.number j ≤ max
      → Serve s (record s { desk = scan i (j + 1) max })
  keep :
      {i j max : ℕ}
      → s.desk ≡ found i j max
      → Serve s (record s { desk = scan i (j + 1) (s.mem.number j) })
  assign :
      {i max : ℕ}
      → s.desk ≡ scan i clients max
      → Serve s (record s {
        mem = record s.mem { number = move s.mem.number i (max + 1) };
        desk = note i;
      })
  tell : {i : ℕ} → s.desk ≡ note i → Serve s (record s { desk = unchoose i })
  hand_out :
      {i : ℕ}
      → s.desk ≡ unchoose i
      → Serve s (record s {
        mem = record s.mem { choosing = move s.mem.choosing i 0 };
        desk = idle;
        at = move s.at i held;
      })
  -- `wait_queue_1_svc`. A client calls it once, with the `pid` that it was given.
  wait_queue :
      (pid : ℕ)
      → s.desk ≡ idle
      → s.at pid ≡ held
      → Serve s (record s {
        mem = record s.mem {
          id = move s.mem.id s.mem.idx_thread_create pid;
          idx_thread_create = s.mem.idx_thread_create + 1;
        };
        at = move s.at pid (check 0);
        slot = move s.slot pid s.mem.idx_thread_create;
      })
  -- `wait_queue_1_svc` when `pthread_create` fails: the index moves on, and no thread waits for the
  -- client, which keeps its number. The client may call again.
  no_thread :
      (pid : ℕ)
      → s.desk ≡ idle
      → s.at pid ≡ held
      → Serve s (record s {
        mem = record s.mem {
          id = move s.mem.id s.mem.idx_thread_create pid;
          idx_thread_create = s.mem.idx_thread_create + 1;
        };
      })
  -- `bakery_res_1_svc`, for the client `pid`: `pthread_join` waits for the thread at
  -- `idx_thread_join`, which is that of the client `i`. For an index without a thread there is no
  -- step: `workers` holds no thread's name there.
  bakery_res :
      (pid i : ℕ)
      → s.desk ≡ idle
      → s.mem.idx_thread_join < s.mem.idx_thread_create
      → s.slot i ≡ s.mem.idx_thread_join
      → s.at i ≡ left
      → Serve s (record s {
        mem = record s.mem {
          answers = s.mem.answers ++ (pid, s.mem.res s.mem.idx_thread_join) ∷ [];
          idx_thread_join = s.mem.idx_thread_join + 1;
        };
      })

-- A step of the thread of client `i`, in `bakery`. A test of a loop is one step; one that fails to
-- end the loop changes nothing.
pub data Work (s : System) (i : ℕ) : Server → Place → Type 0 where
  chosen :
      {j : ℕ} → s.at i ≡ check j → j < clients → s.mem.choosing j ≡ 0 → Work s i s.mem (compare j)
  ahead :
      {j : ℕ}
      → s.at i ≡ compare j
      → blocked s.mem.number i j ≡ false
      → Work s i s.mem (check (j + 1))
  through : s.at i ≡ check clients → Work s i s.mem enter
  do_enter :
      s.at i ≡ enter
      → Work s i
          (record s.mem {
            res = move s.mem.res (s.slot i) s.mem.symbol;
            given = s.mem.given ++ s.mem.symbol ∷ [];
          })
          bump
  do_bump : s.at i ≡ bump → Work s i s.mem (put s.mem.symbol)
  do_put : {v : ℕ} → s.at i ≡ put v → Work s i (record s.mem { symbol = v + 1 }) inside
  leave : s.at i ≡ inside → Work s i (record s.mem { number = move s.mem.number i 0 }) left

pub data Step (s : System) : System → Type 0 where
  serve : {t : System} → Serve s t → Step s t
  work :
      (i : ℕ) {m : Server} {p : Place}
      → Work s i m p
      → Step s (record s { mem = m; at = move s.at i p })

unfoldable pub init : System
init = record {
  mem = record {
    choosing = λ _. 0;
    number = λ _. 0;
    symbol = b'a';
    num = 0;
    idx_thread_create = 0;
    idx_thread_join = 0;
    id = λ _. 0;
    res = λ _. 0;
    given = [];
    answers = [];
  };
  desk = idle;
  at = λ _. absent;
  slot = λ _. 0;
}

pub data Reach : System → Type 0 where
  start : Reach init
  later : {s t : System} → Reach s → Step s t → Reach t

-- From the end of the loop to the store that gives the number back.
abbrev pub critical : Place → ℕ
critical enter = 1
critical bump = 1
critical (put _) = 1
critical inside = 1
critical _ = 0
