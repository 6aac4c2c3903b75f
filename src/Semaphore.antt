-- ===== src/Semaphore.antt =====
-- System V semaphores as unix-lab-04 uses them. `semop` is the kernel's: it is a parameter, with
-- the behaviour that its manual page documents. The operations of an array are done in order and
-- together, or the caller waits or the call fails, and nothing is done.
pub mod Counters
pub mod Laws
use ics7_os.Common.{
  ℕ, suc, ◌+◌, ◌-◌, ◌≤◌, ◌<◌, ◌≡◌, ◌≢◌, Option, none, some, List, [], ◌∷◌, ℤ, pos, negsuc, ◌==◌,
  if◌then◌else◌,
}

-- struct sembuf, with the flags 0 that the programs pass
pub record Sembuf : Type 0 where
  pub sem_num : ℕ
  pub sem_op : ℤ

abbrev pub buf : ℕ → ℤ → Sembuf
buf n op = record { sem_num = n; sem_op = op }

-- the values of a semaphore set
abbrev pub Sems : Type 0
Sems = ℕ → ℕ

abbrev pub set_to : Sems → ℕ → ℕ → Sems
set_to s n v j = if n == j then v else s j

-- `P` and `V` of both programs
abbrev pub down : ℤ
down = negsuc 0

abbrev pub up : ℤ
up = pos 1

-- `semop s ops` is the set behind the call, or `none` where the call waits or fails; no value goes
-- above SEMVMX.
pub record Kernel : Type 0 where
  pub semvmx : ℕ
  pub semop : Sems → List Sembuf → Option Sems
  pub nothing : (s : Sems) → semop s [] ≡ some s
  pub increase :
      (s : Sems) (n k : ℕ) (ops : List Sembuf)
      → s n + suc k ≤ semvmx
      → semop s (buf n (pos (suc k)) ∷ ops) ≡ semop (set_to s n (s n + suc k)) ops
  pub too_high :
      (s : Sems) (n k : ℕ) (ops : List Sembuf)
      → semvmx < s n + suc k
      → semop s (buf n (pos (suc k)) ∷ ops) ≡ none
  pub decrease :
      (s : Sems) (n k : ℕ) (ops : List Sembuf)
      → k < s n
      → semop s (buf n (negsuc k) ∷ ops) ≡ semop (set_to s n (s n - suc k)) ops
  pub too_low :
      (s : Sems) (n k : ℕ) (ops : List Sembuf) → s n ≤ k → semop s (buf n (negsuc k) ∷ ops) ≡ none
  pub at_zero :
      (s : Sems) (n : ℕ) (ops : List Sembuf) → s n ≡ 0 → semop s (buf n (pos 0) ∷ ops) ≡ semop s ops
  pub not_zero :
      (s : Sems) (n : ℕ) (ops : List Sembuf) → s n ≢ 0 → semop s (buf n (pos 0) ∷ ops) ≡ none
