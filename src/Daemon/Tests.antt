-- ===== src/Daemon/Tests.antt =====
-- The theorems on unix-lab-03/main.c at concrete inputs.
use mathlib.Core.List.{map}
use ics7_os.Common.{
  ℕ, zero, suc, ◌+◌, ◌≤◌, ◌<◌, ◌≡◌, ◌≢◌, refl, ap, sym, ◌⊎◌, inl, inr, Bool, dec_lt, true, false,
  Option, none, some, List, [], ◌∷◌, ◌++◌, arith, ◌==◌, if◌then◌else◌, ℕ_discrete,
}
use ics7_os.Common.Threads.{move}
use ics7_os.Daemon.Outcome.{ended, runs}
use ics7_os.Daemon.{
  Fds, set_to, Kernel, default, Process, upto, in_parent, in_child, Lock, acquired, busy, Calls,
  start, daemonize, close_from,
}
use ics7_os.Daemon.Startup.{Succeeds, Detached, start_lem}
use ics7_os.Daemon.LockFile.{
  Library, open_file, lock_file, truncate, write_pid, running, gone, System, opened, locked,
  not_locked, truncated, wrote, Reach, booted, later, one_daemon, pid_file,
}
use ics7_os.Daemon.Signals.{got_term, wait_failed, entry, thr_fn, thr_fn_lem}

-- The lowest free descriptor, from `i` on.
abbrev lowest : ℕ → ℕ → Fds → Option ℕ
lowest zero i t = none
lowest (suc n) i t = if t i then lowest n (i + 1) t else some i

lowest_lem :
    (n i j : ℕ) (t : Fds)
    → i ≤ j
    → j < i + n
    → t j ≡ false
    → ((m : ℕ) → m < j → t m ≡ true)
    → lowest n i t ≡ some j
lowest_lem zero i j t h h' free taken = absurd (omega arith)
lowest_lem (suc n) i j t h h' free taken = elim (ℕ_discrete i j) [
  | yes e ↦ rw (e, free)
  | no ne ↦
      rw (taken i (omega (arith, ne)))
        (lowest_lem n (i + 1) j t (omega (arith, ne)) (omega arith) free taken)
]

abbrev opens : Fds → Option ℕ → Option (ℕ × Fds)
opens t none = none
opens t (some i) = some (i, set_to t i true)

lowest_full : (n i : ℕ) (t : Fds) → ((m : ℕ) → m < i + n → t m ≡ true) → lowest n i t ≡ none
lowest_full zero i t taken = refl
lowest_full (suc n) i t taken =
    rw (taken i (omega arith)) (lowest_full n (i + 1) t (λ m h. taken m (omega (arith, h))))

opens_lem :
    (n : ℕ) (t : Fds) (i : ℕ)
    → t i ≡ false
    → ((j : ℕ) → j < i → t j ≡ true)
    → (opens t (lowest n 0 t) ≡ none) ⊎ (opens t (lowest n 0 t) ≡ some (i, set_to t i true))
opens_lem n t i free taken = elim (dec_lt i n) [
  | yes h ↦ inr (rw (lowest_lem n 0 i t (omega arith) (omega (arith, h)) free taken))
  | no h ↦ inl (rw (lowest_full n 0 t (λ m low. taken m (omega (arith, h, low)))))
]

-- A kernel with `n` descriptors for a process.
abbrev kernel_of : ℕ → Kernel
kernel_of n = record {
  close = λ t i. set_to t i false;
  open_null = λ t. opens t (lowest n 0 t);
  dup = λ t old. if t old then opens t (lowest n 0 t) else none;
  close_lem = λ t i. refl;
  open_null_lowest = opens_lem n;
  dup_lowest = λ t old i free taken. dup_case (t old) (opens_lem n t i free taken);
}
  where
    dup_case :
        {r : Option (ℕ × Fds)} {x : ℕ × Fds} (b : Bool)
        → (r ≡ none) ⊎ (r ≡ some x)
        → ((if b then r else none) ≡ none) ⊎ ((if b then r else none) ≡ some x)
    dup_case true h = h
    dup_case false h = inl refl

abbrev kernel : Kernel
kernel = kernel_of 5

abbrev calls : Calls
calls = record {
  getrlimit = some (upto 4);
  fork = in_child;
  setsid = true;
  ignore_hup = true;
  chdir = true;
  open_lock_file = some 3;
  lock = acquired;
  sigaction = true;
  sigmask = true;
  create_thread = true;
}

-- Started by a shell, with the descriptor 3 open too.
abbrev shell : Process
shell = record {
  fds = λ i. if i == 4 then false else true;
  umask = 18;
  leads_session = false;
  hup = default;
  in_root = false;
  all_blocked = false;
}

start_lem_example :
    ((fd : ℕ) × Succeeds kernel calls shell (upto 4) fd
      × (q : Process) × (start kernel calls shell ≡ runs q)
      × Detached kernel (upto 4) fd shell q)
    ⊎ (((in_child ≡ in_parent) × (start kernel calls shell ≡ ended 0))
        ⊎ ((in_child ≢ in_parent)
            × ((fd : ℕ) → ¬ Succeeds kernel calls shell (upto 4) fd)
            × (start kernel calls shell ≡ ended 1)))
start_lem_example = start_lem kernel calls shell (upto 4) refl (omega arith)

-- With two descriptors for a process, the second `dup` fails, and the daemon exits.
no_third_descriptor : start (kernel_of 2) calls shell ≡ ended 1
unfolding start daemonize close_from
no_third_descriptor = refl

abbrev setlk_value : Option ℕ → ℕ → Lock × Option ℕ
setlk_value none i = (acquired, some i)
setlk_value (some j) i = if j == i then (acquired, some j) else (busy, some j)

setlk_value-acquired :
    (x : Option ℕ) (i : ℕ) {y : Option ℕ}
    → setlk_value x i ≡ (acquired, y)
    → ((x ≡ none) ⊎ (x ≡ some i)) × (y ≡ some i)
setlk_value-acquired none i e = (inl refl, sym (ap (λ r. r.1) e))
setlk_value-acquired (some j) i e = ground (arith, e)

setlk_value-refused :
    (x : Option ℕ) (i : ℕ) {r : Lock} {y : Option ℕ}
    → setlk_value x i ≡ (r, y)
    → r ≢ acquired
    → y ≡ x
setlk_value-refused none i e ne = absurd (ne (sym (ap (λ r. r.0) e)))
setlk_value-refused (some j) i e ne = ground (arith, e)

abbrev library : Library
library = record {
  setlk = setlk_value;
  digits = λ i. (48 + i) ∷ [];
  setlk_acquired = setlk_value-acquired;
  setlk_refused = setlk_value-refused;
}

-- What a daemon with a longer number left.
abbrev old_text : List ℕ
old_text = 49 ∷ 50 ∷ 0 ∷ []

-- Process 1 is in its loop, and process 2 was refused the lock.
abbrev two : System
two = record {
  holder = some 1;
  text = 49 ∷ 0 ∷ [];
  at =
      move
        (move
          (move (move (move (move (λ _. open_file) 1 lock_file) 1 truncate) 2 lock_file) 2 (gone 1))
          1 (write_pid true))
        1 (running true);
}

two_Reach : Reach library old_text two
two_Reach =
    later
      (later
        (later (later (later (later booted (opened 1 refl)) (locked 1 refl refl)) (opened 2 refl))
          (not_locked 2 refl refl (λ e. cc e)))
        (truncated 1 refl))
      (wrote 1 refl)

one_daemon_example : ◌≡◌ {A = ℕ} 1 1
one_daemon_example = one_daemon library old_text two two_Reach 1 1 refl refl

pid_file_example : ◌≡◌ {A = List ℕ} (49 ∷ 0 ∷ []) (49 ∷ 0 ∷ [])
pid_file_example = pid_file library old_text two two_Reach 1 refl

-- SIGHUP is 1, SIGTERM 15; SIGHUP and 10 come first, and then SIGTERM, or the failure 22.
abbrev first_signals : List (ℕ × ℕ)
first_signals = (0, 1) ∷ (0, 10) ∷ []

thr_fn_lem_example :
    (thr_fn 1 15 first_signals ≡ (map (entry 1 15) first_signals, none))
    × (thr_fn 1 15 (first_signals ++ (0, 15) ∷ [])
        ≡ (map (entry 1 15) first_signals ++ got_term ∷ [], some 0))
    × (thr_fn 1 15 (first_signals ++ (22, 0) ∷ [])
        ≡ (map (entry 1 15) first_signals ++ wait_failed ∷ [], some 1))
thr_fn_lem_example =
    thr_fn_lem 1 15 first_signals [] 22 0
      ((refl, λ e. omega (arith, e)), ((refl, λ e. omega (arith, e)), tt)) (λ e. omega (arith, e))
      (λ e. omega (arith, e))
