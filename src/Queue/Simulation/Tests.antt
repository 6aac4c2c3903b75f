-- ===== src/Queue/Simulation/Tests.antt =====
-- The theorems on `start_list_time` at concrete inputs.
use ics7_os.Common.{ℕ, ◌+◌, ◌*◌, ◌-◌, ◌/◌, ◌≤◌, ◌<◌, ◌≡◌, true, none, some, arith, leb, length}
use ics7_os.Memory.{Ptr, bump}
use ics7_os.Queue.{Heap, Allocator, size}
use ics7_os.Queue.Tests.{whole}
use ics7_os.Queue.Times.{Arithmetic, Interval, Intervals}
use ics7_os.Queue.Simulation.{State, rounds, start, finish, ending}
use ics7_os.Queue.Simulation.Reports.{Sound}
use ics7_os.Queue.Simulation.Ends.{start_list_time_lem, start_list_time-Sound}

-- Times in whole units.
abbrev pub units : Arithmetic ℕ
units = record {
  order = whole;
  at_most = leb;
  plus = ◌+◌;
  minus = ◌-◌;
  times = ◌*◌;
  divide = ◌/◌;
  fabs = λ n. n;
  of_int = λ n. n;
  eps = 0;
  rand_max = 1;
}

abbrev pub between : ℕ → ℕ → Interval ℕ
between m n = record { min = m; max = n }

abbrev pub intervals : Intervals ℕ
intervals = record { t1 = between 1 5; t2 = between 0 3; t3 = between 0 4; t4 = between 0 1 }

abbrev pub rand : ℕ → ℕ
rand n = n

abbrev allocator : Allocator
allocator = bump 0

start_list_time_lem_example :
    (s : State ℕ) × (rounds units rand allocator true intervals 6 5 (start 0) ≡ some s)
    × (h : Heap) × (finish units rand allocator true intervals 6 s
        ≡ some (ending units rand allocator true intervals 6 s, h))
    × ((p : Ptr) → h.at p ≡ none)
    × (s.lines.adr.1 < size)
start_list_time_lem_example =
    start_list_time_lem units rand allocator true intervals 6 5 0 (omega arith)

start_list_time-Sound_example :
    (s : State ℕ) × (rounds units rand allocator true intervals 6 5 (start 0) ≡ some s)
    × Sound allocator 0 s.printed
    × (100 * length s.printed ≤ s.lines.one.n_quit)
    × (s.lines.one.n_quit < 100 * length s.printed + 100)
start_list_time-Sound_example =
    start_list_time-Sound units rand allocator true intervals 6 5 0 (omega arith)
