-- ===== src/Queue/Times.antt =====
-- The clocks of the simulations, over any type for `double`: struct.h, io.c, list.c and array.c of
-- unix-lab-02/task3/lab_05_02.
use ics7_os.Common.{ℕ, Bool, Option, none, some, ltb, if◌then◌else◌}
use ics7_os.Queue.Clock.{Double, get_min}

-- The arithmetic on `double` that the simulation uses. Nothing is stated of its results.
pub record Arithmetic {ℓ} (D : Type ℓ) : Type ℓ where
  pub order : Double D
  pub at_most : D → D → Bool
  pub plus : D → D → D
  pub minus : D → D → D
  pub times : D → D → D
  pub divide : D → D → D
  pub fabs : D → D
  pub of_int : ℕ → D
  pub eps : D
  pub rand_max : D

pub record Interval {ℓ} (D : Type ℓ) : Type ℓ where
  pub min : D
  pub max : D

-- `t1` to `t4`.
pub record Intervals {ℓ} (D : Type ℓ) : Type ℓ where
  pub t1 : Interval D
  pub t2 : Interval D
  pub t3 : Interval D
  pub t4 : Interval D

pub record Clocks {ℓ} (D : Type ℓ) : Type ℓ where
  pub t_in_1 : D
  pub t_in_2 : D
  pub t_out : D
  pub t_wait : D
  pub time : D
  pub t_min : D
  pub t_work : D

abbrev pub start_clocks {ℓ} : {D : Type ℓ} → D → Clocks D
start_clocks nought = record {
  t_in_1 = nought;
  t_in_2 = nought;
  t_out = nought;
  t_wait = nought;
  time = nought;
  t_min = nought;
  t_work = nought;
}

-- `r` is the result of `rand`.
abbrev pub get_random_time {ℓ} : {D : Type ℓ} → Arithmetic D → ℕ → Interval D → D
get_random_time f r t =
    f.plus (f.plus (f.times (f.minus t.max t.min) (f.divide (f.of_int r) f.rand_max)) t.min) f.eps

abbrev pub print_fault_1 {ℓ} : {D : Type ℓ} → Arithmetic D → Interval D → D → ℕ → D
print_fault_1 f t1 time count =
    let one_time = f.divide time (f.divide (f.plus t1.max t1.min) (f.of_int 2)) in
    f.divide (f.times (f.of_int 100) (f.fabs (f.minus (f.of_int count) one_time))) one_time

-- The clocks after the next event.
abbrev pub tick {ℓ} : {D : Type ℓ} → Arithmetic D → Clocks D → Clocks D
tick f c =
    let t_min = get_min f.order c.t_in_1 c.t_in_2 c.t_out in
    record c {
      t_in_1 = f.minus c.t_in_1 t_min;
      t_in_2 = f.minus c.t_in_2 t_min;
      t_out = f.minus c.t_out t_min;
      time = f.plus c.time t_min;
      t_min = t_min;
    }

-- What is printed behind `if (n_quit > 0)`.
abbrev pub stay {ℓ} : {D : Type ℓ} → Arithmetic D → D → ℕ → Option D
stay f time n_quit = if ltb 0 n_quit then some (f.divide time (f.of_int n_quit)) else none
