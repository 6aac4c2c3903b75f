-- ===== src/Queue/ArraySimulation.antt =====
-- `start_arr_time` of unix-lab-02/task3/lab_05_02/src/array.c: two queues in two arrays, and one
-- machine that serves them.
pub mod Sums
pub mod Tests
use ics7_os.Common.{
  ℕ, zero, suc, ◌+◌, ◌-◌, ◌/◌, ◌%◌, ◌≡◌, Bool, true, false, ◌&&◌, not, Option, none, some, List, [],
  ◌∷◌, ◌++◌, ltb, leb, ◌==◌, if◌then◌else◌,
}
use ics7_os.Memory.{Ptr}
use ics7_os.Queue.Ring.{add_element_to_queue_arr, get_time_work_exit_element_arr}
use ics7_os.Queue.Times.{
  Arithmetic, Interval, Intervals, Clocks, get_random_time, print_fault_1, start_clocks, stay, tick,
}

-- `pin`, `pout`, `count` and `n_quit`, for one of the queues.
pub record Ring : Type 0 where
  pub pin : Ptr
  pub pout : Ptr
  pub count : ℕ
  pub n_quit : ℕ

-- A block of output. What stands behind `if (n_quit > 0)` is `none` otherwise.
pub record Report {ℓ} (D : Type ℓ) : Type ℓ where
  pub time : D
  pub av_len_1 : Option D
  pub len_1 : ℕ
  pub av_len_2 : Option D
  pub len_2 : ℕ
  pub t_wait : D
  pub count : ℕ
  pub n_quit : ℕ
  pub stay_1 : Option D
  pub stay_2 : Option D

pub record State {ℓ} (D : Type ℓ) : Type ℓ where
  pub clocks : Clocks D
  pub one : Ring
  pub two : Ring
  pub calls : ℕ
  pub av_len : D
  pub i : ℕ
  pub printed : List (Report D)

-- The output behind the loop.
pub record Ending {ℓ} (D : Type ℓ) : Type ℓ where
  pub count_2 : ℕ
  pub n_quit_2 : ℕ
  pub fault_1 : D

-- abs(p - q)
abbrev pub distance : Ptr → Ptr → ℕ
distance p q = if leb q p then p - q else q - p

-- `q_1` and `q_2` are the arrays, `rand` gives the results of the calls of `rand`.
module _ {ℓ} {D : Type ℓ} (f : Arithmetic D) (rand : ℕ → ℕ) (ts : Intervals D) (q_1 q_2 : Ptr) where
  open f use {order, at_most, plus, divide, of_int}

  abbrev pub enters : Ptr → Ring → Ring
  enters q r =
      let e = add_element_to_queue_arr q r.pin r.pout r.count in record r { pin = e.0; count = e.1 }

  abbrev pub leaves : Ring → Ring
  leaves r =
      let e = get_time_work_exit_element_arr r.pin r.pout r.n_quit in
      record r { pout = e.0; n_quit = e.1 }

  pub arrival_1 : State D → State D
  arrival_1 s =
      if at_most s.clocks.t_in_1 order.nought
      then record s {
        clocks = record s.clocks { t_in_1 = get_random_time f (rand s.calls) ts.t1 };
        one = enters q_1 s.one;
        calls = s.calls + 1;
      }
      else s

  -- The second queue is given the first array.
  pub arrival_2 : State D → State D
  arrival_2 s =
      if at_most s.clocks.t_in_2 order.nought
      then record s {
        clocks = record s.clocks { t_in_2 = get_random_time f (rand s.calls) ts.t2 };
        two = enters q_1 s.two;
        calls = s.calls + 1;
      }
      else s

  abbrev works : Interval D → State D → Clocks D
  works t s =
      let t_out = get_random_time f (rand s.calls) t in
      record s.clocks { t_out = t_out; t_work = plus s.clocks.t_work t_out }

  pub service : State D → State D
  service s =
      if at_most s.clocks.t_out order.nought
      then (if s.one.pin == s.one.pout
          then (if s.two.pin == s.two.pout
              then record s {
                clocks = record s.clocks { t_wait = plus s.clocks.t_wait s.clocks.t_min };
              }
              else record s { clocks = works ts.t4 s; two = leaves s.two; calls = s.calls + 1 })
          else record s { clocks = works ts.t3 s; one = leaves s.one; calls = s.calls + 1 })
      else s

  -- `av_len` with the part of one more queue; the division of `n_quit` is of integers.
  abbrev more : D → ℕ → ℕ → D
  more av_len len n_quit =
      if ltb 0 n_quit then plus av_len (divide (of_int len) (of_int (n_quit / 100))) else av_len

  abbrev shown : D → ℕ → Option D
  shown av_len n_quit = if ltb 0 n_quit then some av_len else none

  pub report : State D → State D
  report s =
      let len_1 = distance s.one.pin s.one.pout in
      let len_2 = distance s.two.pin s.two.pout in
      let av_1 = more s.av_len len_1 s.one.n_quit in
      let av_2 = more av_1 len_2 s.two.n_quit in
      if s.one.n_quit % 100 == 0 && not (s.i == s.one.n_quit)
      then record s {
        i = s.one.n_quit;
        av_len = av_2;
        printed =
            s.printed
            ++ (record {
              time = s.clocks.time;
              av_len_1 = shown av_1 s.one.n_quit;
              len_1 = len_1;
              av_len_2 = shown av_2 s.two.n_quit;
              len_2 = len_2;
              t_wait = s.clocks.t_wait;
              count = s.one.count;
              n_quit = s.one.n_quit;
              stay_1 = stay f s.clocks.time s.one.n_quit;
              stay_2 = stay f s.clocks.time s.two.n_quit;
            })
              ∷ [];
      }
      else s

  unfoldable pub round : State D → State D
  unfolding arrival_1 arrival_2 service report
  round s =
      let t = service (arrival_2 (arrival_1 s)) in report (record t { clocks = tick f t.clocks })

  -- The loop, as far as `n` rounds.
  unfoldable pub rounds : ℕ → State D → State D
  rounds zero s = s
  rounds (suc n) s = elim (ltb s.one.n_quit 1000) [ true ↦ rounds n (round s) | false ↦ s ]

  abbrev pub start : State D
  start = record {
    clocks = start_clocks order.nought;
    one = record { pin = q_1; pout = q_1; count = 0; n_quit = 0 };
    two = record { pin = q_2; pout = q_2; count = 0; n_quit = 0 };
    calls = 0;
    av_len = order.nought;
    i = 0;
    printed = [];
  }

  abbrev pub ending : State D → Ending D
  ending s = record {
    count_2 = s.two.count;
    n_quit_2 = s.two.n_quit;
    fault_1 = print_fault_1 f ts.t1 s.clocks.time s.one.count;
  }
