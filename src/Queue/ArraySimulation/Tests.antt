-- ===== src/Queue/ArraySimulation/Tests.antt =====
-- The theorem on `start_arr_time` at a concrete input.
use ics7_os.Common.{ℕ, ◌<◌, arith, inr}
use ics7_os.Queue.ArraySimulation.{rounds, start}
use ics7_os.Queue.ArraySimulation.Sums.{Kept, start_arr_time_lem}
use ics7_os.Queue.Simulation.Tests.{units, intervals, rand}

-- Two arrays of 10000 elements, one behind the other.
start_arr_time_lem_example :
    (c : ℕ) × (c < 1000)
    × Kept units rand intervals 1 10001 c c
        (rounds units rand intervals 1 10001 5 (start units rand intervals 1 10001))
start_arr_time_lem_example =
    start_arr_time_lem units rand intervals 1 10001 5 (omega arith) (omega arith)
      (inr (omega arith)) (omega arith)
