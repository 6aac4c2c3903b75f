-- ===== src/Semaphore/Counters.antt =====
-- A kernel that does what the manual page says, by counting.
use ics7_os.Common.{
  ℕ, suc, ◌+◌, ◌-◌, ◌≤◌, ◌<◌, ◌≡◌, refl, ◌≢◌, Option, none, some, List, [], ◌∷◌, ℤ, pos, negsuc,
  leb, ◌==◌, if◌then◌else◌, arith,
}
use ics7_os.Semaphore.{Sembuf, buf, Sems, set_to, Kernel}

-- SEMVMX of Linux
abbrev most : ℕ
most = 32767

-- One operation.
apply : Sems → ℕ → ℤ → Option Sems
apply s n (pos k) =
    if k == 0
    then (if s n == 0 then some s else none)
    else (if leb (s n + k) most then some (set_to s n (s n + k)) else none)
apply s n (negsuc k) = if leb (s n) k then none else some (set_to s n (s n - suc k))

unfoldable pub run : Sems → List Sembuf → Option Sems
unfolding apply
run s [] = some s
run s (b ∷ ops) = elim (apply s b.sem_num b.sem_op) [ none ↦ none | some s' ↦ run s' ops ]

pub run-nothing : (s : Sems) → run s [] ≡ some s
unfolding run
run-nothing s = refl

pub run-decrease :
    (s : Sems) (n k : ℕ) (ops : List Sembuf)
    → k < s n
    → run s (buf n (negsuc k) ∷ ops) ≡ run (set_to s n (s n - suc k)) ops
unfolding run
run-decrease s n k ops h = ground arith

pub run-too_low :
    (s : Sems) (n k : ℕ) (ops : List Sembuf) → s n ≤ k → run s (buf n (negsuc k) ∷ ops) ≡ none
unfolding run
run-too_low s n k ops h = ground arith

pub run-at_zero :
    (s : Sems) (n : ℕ) (ops : List Sembuf) → s n ≡ 0 → run s (buf n (pos 0) ∷ ops) ≡ run s ops
unfolding run
run-at_zero s n ops h = ground arith

pub run-not_zero :
    (s : Sems) (n : ℕ) (ops : List Sembuf) → s n ≢ 0 → run s (buf n (pos 0) ∷ ops) ≡ none
unfolding run
run-not_zero s n ops h = ground arith

pub run-increase :
    (s : Sems) (n k : ℕ) (ops : List Sembuf)
    → s n + suc k ≤ most
    → run s (buf n (pos (suc k)) ∷ ops) ≡ run (set_to s n (s n + suc k)) ops
unfolding run
run-increase s n k ops h = ground arith

pub run-too_high :
    (s : Sems) (n k : ℕ) (ops : List Sembuf)
    → most < s n + suc k
    → run s (buf n (pos (suc k)) ∷ ops) ≡ none
unfolding run
run-too_high s n k ops h = ground arith

abbrev pub counters : Kernel
counters = record {
  semvmx = most;
  semop = run;
  nothing = run-nothing;
  increase = run-increase;
  too_high = run-too_high;
  decrease = run-decrease;
  too_low = run-too_low;
  at_zero = run-at_zero;
  not_zero = run-not_zero;
}
