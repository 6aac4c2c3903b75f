-- ===== src/Queue/Main/Tests.antt =====
-- `main` of the simulations at concrete inputs.
use ics7_os.Common.{ℕ, ◌≡◌, ◌≢◌, refl, true, false, none, some, List, [], ◌∷◌, pos, arith, All}
use ics7_os.Queue.Times.{Intervals}
use ics7_os.Queue.Simulation.Tests.{units, between}
use ics7_os.Queue.Main.{
  Reading, arr_time, list_time, over, out_of_fuel, goes_on, initial, main, rounds, round, on_key,
  on_edit, start_edit_menu, input_interval, input_min, min_refused, input_max, max_refused, on_run,
  on_model,
}
use ics7_os.Queue.Main.Input.{AreIntervals}
use ics7_os.Queue.Main.Valid.{IsStarted, main_lem}

abbrev typed : ℕ → Reading ℕ
typed n = record { int = some (pos n); double = some n }

-- The intervals are set, one of them at the third attempt; then key 2, the lists and `flag`; then 2
-- and 1, and 3.
abbrev readings : List (Reading ℕ)
readings =
    typed 1
    ∷ typed 2
    ∷ typed 1
    ∷ record { int = none; double = none }
    ∷ typed 6
    ∷ typed 0
    ∷ typed 3
    ∷ typed 0
    ∷ typed 4
    ∷ typed 0
    ∷ typed 1
    ∷ typed 2
    ∷ typed 2
    ∷ typed 1
    ∷ typed 2
    ∷ typed 1
    ∷ typed 3
    ∷ []

abbrev edited : Intervals ℕ
edited = record (initial units) { t1 = between 2 6 }

runs : (main units (pos 0) 20 readings).1.started ≡ list_time edited true ∷ arr_time edited ∷ []
unfolding main rounds round on_key on_edit start_edit_menu input_interval input_min min_refused
    input_max max_refused on_run on_model
runs = refl

-- The key 3 of the inner menu ends the program.
inner_exit : (main units (pos 0) 20 (typed 2 ∷ typed 3 ∷ typed 2 ∷ typed 1 ∷ [])).0 ≡ over
unfolding main rounds round on_key on_run on_model
inner_exit = refl

initial_good : AreIntervals units (initial units)
initial_good = record {
  t1 = record { not_negative = refl; ordered = refl; wide = refl };
  t2 = record { not_negative = refl; ordered = refl; wide = refl };
  t3 = record { not_negative = refl; ordered = refl; wide = refl };
  t4 = record { not_negative = refl; ordered = refl; wide = refl };
}

main_lem_example :
    ((main units (pos 0) 20 readings).0 ≢ out_of_fuel)
    × All (IsStarted units) (main units (pos 0) 20 readings).1.started
    × ((main units (pos 0) 20 readings).0 ≡ over
        → goes_on (main units (pos 0) 20 readings).1 ≡ false)
main_lem_example = main_lem units initial_good (pos 0) 20 readings (omega arith)
