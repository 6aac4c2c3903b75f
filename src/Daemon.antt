-- ===== src/Daemon.antt =====
-- unix-lab-03/main.c: a daemon. Here the descriptors of a process and the way to the main loop; the
-- children have the lock file and the thread that takes signals.
pub mod Outcome
pub mod Startup
pub mod LockFile
pub mod Signals
pub mod Tests
use ics7_os.Common.{
  ℕ, zero, suc, ◌+◌, ◌≤◌, ◌<◌, ◌≡◌, ◌≢◌, ◌⊎◌, Bool, true, false, ◌&&◌, not, Option, none, some,
  ◌==◌, if◌then◌else◌,
}
use ics7_os.Daemon.Outcome.{Run, ended, runs, check, ◌>>=◌, ◌>>◌}

-- The open descriptors of the process.
abbrev pub Fds : Type 0
Fds = ℕ → Bool

abbrev pub set_to : Fds → ℕ → Bool → Fds
set_to t i b j = if i == j then b else t j

-- close, open of /dev/null, and dup, as POSIX has them: the new descriptor is the lowest free one,
-- unless the call fails, which is `none`.
pub record Kernel : Type 0 where
  pub close : Fds → ℕ → Fds
  pub open_null : Fds → Option (ℕ × Fds)
  pub dup : Fds → ℕ → Option (ℕ × Fds)
  pub close_lem : (t : Fds) (i : ℕ) → close t i ≡ set_to t i false
  pub open_null_lowest :
      (t : Fds) (i : ℕ)
      → t i ≡ false
      → ((j : ℕ) → j < i → t j ≡ true)
      → (open_null t ≡ none) ⊎ (open_null t ≡ some (i, set_to t i true))
  pub dup_lowest :
      (t : Fds) (old i : ℕ)
      → t i ≡ false
      → ((j : ℕ) → j < i → t j ≡ true)
      → (dup t old ≡ none) ⊎ (dup t old ≡ some (i, set_to t i true))

-- What a signal does to the process, for SIGHUP.
pub data Disposition : Type 0 where
  default ignored : Disposition

pub record Process : Type 0 where
  pub fds : Fds
  pub umask : ℕ
  pub leads_session : Bool
  pub hup : Disposition
  pub in_root : Bool
  pub all_blocked : Bool

pub data Limit : Type 0 where
  infinity : Limit
  upto : ℕ → Limit

pub data Fork : Type 0 where
  fork_failed in_parent in_child : Fork

-- What a call to lock the file comes to: the lock, EACCES or EAGAIN, or another error.
pub data Lock : Type 0 where
  acquired busy lock_failed : Lock

-- What the other calls return, in their order.
pub record Calls : Type 0 where
  pub getrlimit : Option Limit
  pub fork : Fork
  pub setsid : Bool
  pub ignore_hup : Bool
  pub chdir : Bool
  -- The descriptor, or `none` for -1.
  pub open_lock_file : Option ℕ
  pub lock : Lock
  pub sigaction : Bool
  pub sigmask : Bool
  pub create_thread : Bool

-- `if (rl.rlim_max == RLIM_INFINITY) rl.rlim_max = 1024;`
abbrev pub descriptors : Limit → ℕ
descriptors infinity = 1024
descriptors (upto n) = n

abbrev pub is_child : Fork → Run (Unit {0})
is_child fork_failed = ended 1
is_child in_parent = ended 0
is_child in_child = runs tt

abbrev pub or_exit {ℓ} : {A : Type ℓ} → Option A → Run A
or_exit none = ended 1
or_exit (some a) = runs a

-- `fd == i`, where `none` is -1.
abbrev pub is_fd : Option (ℕ × Fds) → ℕ → Bool
is_fd none i = false
is_fd (some (fd, t)) i = fd == i

abbrev pub fds_after : Fds → Option (ℕ × Fds) → Fds
fds_after t none = t
fds_after t (some (fd, u)) = u

module _ (k : Kernel) where
  -- The loop over `close`, from `i` on.
  unfoldable pub close_from : ℕ → ℕ → Fds → Fds
  close_from zero i t = t
  close_from (suc n) i t = close_from n (i + 1) (k.close t i)

  -- The descriptors behind `open`, `dup(0)`, `dup(0)`, or the exit when they are not 0, 1 and 2.
  standard_fds : Fds → Run Fds
  standard_fds t =
      let fd0 = k.open_null t in
      let t₀ = fds_after t fd0 in
      let fd1 = k.dup t₀ 0 in
      let t₁ = fds_after t₀ fd1 in
      let fd2 = k.dup t₁ 0 in
      do check (is_fd fd0 0 && is_fd fd1 1 && is_fd fd2 2) 1; runs (fds_after t₁ fd2)

  unfoldable pub daemonize : Calls → Process → Run Process
  unfolding standard_fds
  daemonize c p = do
    limit ← or_exit c.getrlimit
    is_child c.fork
    check c.setsid 1
    check c.ignore_hup 1
    check c.chdir 1
    fds ← standard_fds (close_from (descriptors limit) 0 p.fds)
    runs (record p { fds = fds; umask = 0; leads_session = true; hup = ignored; in_root = true })

  abbrev lock_result : Lock → ℕ → Fds → Run (Bool × Fds)
  lock_result acquired fd t = runs (false, t)
  lock_result busy fd t = runs (true, k.close t fd)
  lock_result lock_failed fd t = ended 1

  unfoldable pub already_running : Calls → Fds → Run (Bool × Fds)
  already_running c t = do fd ← or_exit c.open_lock_file; lock_result c.lock fd (set_to t fd true)

  -- `main`, until its loop, and until the call of `syslog` before it, which opens a descriptor of
  -- its own.
  unfoldable pub start : Calls → Process → Run Process
  start c p = do
    q ← daemonize c p
    r ← already_running c q.fds
    check (not r.0) 1
    check c.sigaction 1
    check c.sigmask 1
    check c.create_thread 1
    runs (record q { fds = r.1; hup = default; all_blocked = true })
