-- ===== src/Queue/Simulation.antt =====
-- `start_list_time` of unix-lab-02/task3/lab_05_02/src/list.c: two queues in one heap, and one
-- machine that serves them. `none` is a fault, or a walk out of fuel.
pub mod Shape
pub mod Rounds
pub mod Tests
pub mod Reports
pub mod Ends
use ics7_os.Common.{
  ℕ, zero, suc, ◌+◌, ◌%◌, ◌≡◌, Bool, true, false, ◌&&◌, not, Option, none, some, List, [], ◌∷◌,
  ◌++◌, ltb, ◌==◌, if◌then◌else◌,
}
use ics7_os.Common.Options.{◌>>=◌}
use ics7_os.Memory.{Ptr, null, empty_memory}
use ics7_os.Queue.{
  Heap, Allocator, add_element_to_queue, list_size, free_all, get_time_work_exit_element,
}
use ics7_os.Queue.Times.{
  Arithmetic, Interval, Intervals, Clocks, get_random_time, print_fault_1, start_clocks, tick, stay,
}

-- One of the queues: `head`, `count` and `n_quit`, or these with _2.
pub record Line : Type 0 where
  pub head : Ptr
  pub count : ℕ
  pub n_quit : ℕ

-- The heap with both queues, `adr` and `adr_num`.
pub record Lines : Type 0 where
  pub heap : Heap
  pub one : Line
  pub two : Line
  pub adr : (ℕ → Ptr) × ℕ

-- A block of output.
pub record Report {ℓ} (D : Type ℓ) : Type ℓ where
  pub time : D
  pub av_len_1 : D
  pub len_1 : ℕ
  pub av_len_2 : D
  pub len_2 : ℕ
  pub count : ℕ
  pub n_quit : ℕ
  pub stay_1 : Option D
  pub stay_2 : Option D
  pub t_wait : D
  pub t_work : D

-- The output behind the loop.
pub record Ending {ℓ} (D : Type ℓ) : Type ℓ where
  pub count_2 : ℕ
  pub n_quit_2 : ℕ
  pub fault_1 : D
  pub addresses : List Ptr

-- `calls` is the number of calls of `rand` so far.
pub record State {ℓ} (D : Type ℓ) : Type ℓ where
  pub clocks : Clocks D
  pub lines : Lines
  pub calls : ℕ
  pub av_len : D
  pub i : ℕ
  pub printed : List (Report D)

-- `add_element_to_queue` on one of the queues.
unfoldable pub enter : Allocator → ℕ → Heap → Line → Option (Heap × Line)
enter a k h l =
    add_element_to_queue a k (record { heap = h; head = l.head; count = l.count }) >>= λ q.
    some (q.heap, record l { head = q.head; count = q.count })

-- `get_time_work_exit_element` on one of the queues.
unfoldable pub leave : Bool → (ℕ → Ptr) × ℕ → Heap → Line → Option ((ℕ → Ptr) × ℕ × Heap × Line)
leave flag adr h l =
    get_time_work_exit_element flag adr h l.head l.n_quit >>= λ (adr', i, h', head, n_quit).
    some (adr', i, h', record l { head = head; n_quit = n_quit })

-- What `print_adresses` prints.
abbrev pub print_adresses : (ℕ → Ptr) → ℕ → List Ptr
print_adresses adresses zero = []
print_adresses adresses (suc n) = print_adresses adresses n ++ adresses n ∷ []

abbrev pub no_line : Line
no_line = record { head = null; count = 0; n_quit = 0 }

abbrev pub start {ℓ} : {D : Type ℓ} → D → State D
start nought = record {
  clocks = start_clocks nought;
  lines = record { heap = empty_memory; one = no_line; two = no_line; adr = ((λ _. null), 0) };
  calls = 0;
  av_len = nought;
  i = 0;
  printed = [];
}

-- `flag` is true for 1, `rand` gives the results of the calls of `rand`, and `k` is the fuel of a
-- walk.
module _ {ℓ} {D : Type ℓ} (f : Arithmetic D) (rand : ℕ → ℕ) (a : Allocator) (flag : Bool)
    (ts : Intervals D) (k : ℕ) where
  open f use {order, at_most, plus, minus, times, divide, of_int, eps, rand_max}

  -- The first `if` of the loop, and the second.
  pub arrival_1 : State D → Option (State D)
  arrival_1 s = elim (at_most s.clocks.t_in_1 eps) [
    | true ↦ enter a k s.lines.heap s.lines.one >>= λ r. some (record s {
      clocks = record s.clocks { t_in_1 = get_random_time f (rand s.calls) ts.t1 };
      lines = record s.lines { heap = r.0; one = r.1 };
      calls = s.calls + 1;
    })
    | false ↦ some s
  ]

  pub arrival_2 : State D → Option (State D)
  arrival_2 s = elim (at_most s.clocks.t_in_2 eps) [
    | true ↦ enter a k s.lines.heap s.lines.two >>= λ r. some (record s {
      clocks = record s.clocks { t_in_2 = get_random_time f (rand s.calls) ts.t2 };
      lines = record s.lines { heap = r.0; two = r.1 };
      calls = s.calls + 1;
    })
    | false ↦ some s
  ]

  -- `t_out` and `t_work` when the machine takes an element.
  abbrev works : Interval D → State D → Clocks D
  works t s =
      let t_out = get_random_time f (rand s.calls) t in
      record s.clocks { t_out = t_out; t_work = plus s.clocks.t_work t_out }

  -- The third `if`.
  pub service : State D → Option (State D)
  service s = elim (at_most s.clocks.t_out eps) [
    | true ↦ elim (s.lines.one.head == null) [
      | true ↦ elim (s.lines.two.head == null) [
        | true ↦
            some (record s {
              clocks = record s.clocks { t_wait = plus s.clocks.t_wait s.clocks.t_min };
            })
        | false ↦ leave flag s.lines.adr s.lines.heap s.lines.two >>= λ r. some (record s {
          clocks = works ts.t4 s;
          lines = record s.lines { adr = (r.0, r.1); heap = r.2; two = r.3 };
          calls = s.calls + 1;
        })
      ]
      | false ↦ leave flag s.lines.adr s.lines.heap s.lines.one >>= λ r. some (record s {
        clocks = works ts.t3 s;
        lines = record s.lines { adr = (r.0, r.1); heap = r.2; one = r.3 };
        calls = s.calls + 1;
      })
    ]
    | false ↦ some s
  ]

  abbrev pub advance : State D → State D
  advance s = record s { clocks = tick f s.clocks }

  -- `av_len` with the part of one more queue.
  abbrev more : D → ℕ → ℕ → D
  more av_len len n_quit =
      if ltb 0 n_quit
      then plus av_len (divide (of_int len) (divide (of_int n_quit) (of_int 100)))
      else av_len

  pub report : State D → Option (State D)
  report s =
      let c = s.clocks in
      let l = s.lines in
      elim (l.one.n_quit % 100 == 0 && not (s.i == l.one.n_quit)) [
        | true ↦ list_size k l.heap l.one.head >>= λ len_1.
            list_size k l.heap l.two.head >>= λ len_2.
            let av_1 = more s.av_len len_1 l.one.n_quit in
            let av_2 = more av_1 len_2 l.two.n_quit in
            some (record s {
              i = l.one.n_quit;
              av_len = av_2;
              printed =
                  s.printed
                  ++ (record {
                    time = c.time;
                    av_len_1 = av_1;
                    len_1 = len_1;
                    av_len_2 = av_2;
                    len_2 = len_2;
                    count = l.one.count;
                    n_quit = l.one.n_quit;
                    stay_1 = stay f c.time l.one.n_quit;
                    stay_2 = stay f c.time l.two.n_quit;
                    t_wait = c.t_wait;
                    t_work = c.t_work;
                  })
                    ∷ [];
            })
        | false ↦ some s
      ]

  unfoldable pub round : State D → Option (State D)
  unfolding arrival_1 arrival_2 service report
  round s = arrival_1 s >>= arrival_2 >>= service >>= λ t. report (advance t)

  -- The loop, as far as `n` rounds.
  unfoldable pub rounds : ℕ → State D → Option (State D)
  rounds zero s = some s
  rounds (suc n) s = elim (ltb s.lines.one.n_quit 1000) [
    | true ↦ round s >>= rounds n
    | false ↦ some s
  ]

  abbrev pub ending : State D → Ending D
  ending s = record {
    count_2 = s.lines.two.count;
    n_quit_2 = s.lines.two.n_quit;
    fault_1 = print_fault_1 f ts.t1 s.clocks.time s.lines.one.count;
    addresses = if flag then print_adresses s.lines.adr.0 s.lines.adr.1 else [];
  }

  -- What follows the loop, and the heap at the end.
  unfoldable pub finish : State D → Option (Ending D × Heap)
  finish s = free_all k s.lines.heap s.lines.one.head >>= λ h.
      free_all k h s.lines.two.head >>= λ h'. some (ending s, h')
