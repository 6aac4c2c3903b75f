-- ===== src/Queue/Simulation/Rounds.antt =====
-- The memory of `start_list_time`: the parts of a round.
use ics7_os.Common.{
  ℕ, ◌+◌, ◌≤◌, ◌≡◌, refl, inl, inr, Bool, Bool-cases, true, false, Option, some, arith, ◌==◌,
}
use ics7_os.Common.Options.{◌>>=◌}
use ics7_os.Memory.{null}
use ics7_os.Queue.{Allocator}
use ics7_os.Queue.Simulation.Shape.{Shape-swap, enters, leaves, Good, Good-later, Good-two}
use ics7_os.Queue.Times.{Arithmetic, Intervals, Clocks, get_random_time}
use ics7_os.Queue.Simulation.{State, arrival_1, arrival_2, works, service}

module _ {ℓ} {D : Type ℓ} (f : Arithmetic D) (rand : ℕ → ℕ) (a : Allocator) (flag : Bool)
    (ts : Intervals D) (k : ℕ) where
  -- What a part of a round, with result `m`, does to the queues: it ends, and `d` elements of the
  -- first queue leave at most.
  pub record After (b c d : ℕ) (s : State D) (m : Option (State D)) : Type ℓ where
    pub next : State D
    pub ends : m ≡ some next
    pub good : Good a b c next.lines
    pub same_i : next.i ≡ s.i
    pub same_printed : next.printed ≡ s.printed
    pub up : s.lines.one.n_quit ≤ next.lines.one.n_quit
    pub by : next.lines.one.n_quit ≤ s.lines.one.n_quit + d

  -- Nothing changes but the clocks.
  After-clocks :
      (b c b' c' d : ℕ) (s : State D) {m : Option (State D)} (clocks : Clocks D)
      → b ≤ b'
      → c ≤ c'
      → Good a b c s.lines
      → m ≡ some (record s { clocks = clocks })
      → After b' c' d s m
  After-clocks b c b' c' d s clocks le le' g e = record {
    next = record s { clocks = clocks };
    ends = e;
    good = Good-later a le le' g;
    same_i = refl;
    same_printed = refl;
    up = omega arith;
    by = omega arith;
  }

  pub arrival_1-After :
      (b c : ℕ) (s : State D)
      → b ≤ k
      → Good a b c s.lines
      → After (b + 1) c 0 s (arrival_1 f rand a flag ts k s)
  unfolding arrival_1
  arrival_1-After b c s room g = elim (Bool-cases (f.at_most s.clocks.t_in_1 f.eps)) [
    | inl e ↦
        let (h', l', ps', q, shape, held, n) =
          enters a k b s.lines.heap s.lines.one g.ps g.qs room g.shape g.one in
        record {
          next = record s {
            clocks = record s.clocks { t_in_1 = get_random_time f (rand s.calls) ts.t1 };
            lines = record s.lines { heap = h'; one = l' };
            calls = s.calls + 1;
          };
          ends = rw (e, arrival_1) (rw (q, ◌>>=◌));
          good = record {
            ps = ps';
            qs = g.qs;
            shape = shape;
            one = held;
            two = g.two;
            index = g.index;
          };
          same_i = refl;
          same_printed = refl;
          up = omega (arith, n);
          by = omega (arith, n);
        }
    | inr e ↦
        After-clocks b c (b + 1) c 0 s s.clocks (omega arith) (omega arith) g (rw (e, arrival_1))
  ]

  pub arrival_2-After :
      (b c : ℕ) (s : State D)
      → c ≤ k
      → Good a b c s.lines
      → After b (c + 1) 0 s (arrival_2 f rand a flag ts k s)
  unfolding arrival_2
  arrival_2-After b c s room g = elim (Bool-cases (f.at_most s.clocks.t_in_2 f.eps)) [
    | inl e ↦
        let (h', l', qs', q, shape, held, n) =
          enters a k c s.lines.heap s.lines.two g.qs g.ps room (Good-two a g) g.two in
        record {
          next = record s {
            clocks = record s.clocks { t_in_2 = get_random_time f (rand s.calls) ts.t2 };
            lines = record s.lines { heap = h'; two = l' };
            calls = s.calls + 1;
          };
          ends = rw (e, arrival_2) (rw (q, ◌>>=◌));
          good = record {
            ps = g.ps;
            qs = qs';
            shape = Shape-swap shape;
            one = g.one;
            two = held;
            index = g.index;
          };
          same_i = refl;
          same_printed = refl;
          up = omega arith;
          by = omega arith;
        }
    | inr e ↦
        After-clocks b c b (c + 1) 0 s s.clocks (omega arith) (omega arith) g (rw (e, arrival_2))
  ]

  -- When the machine takes a request of the first queue, and of the second.
  service_1-After :
      (b c : ℕ) (s : State D)
      → Good a b c s.lines
      → f.at_most s.clocks.t_out f.eps ≡ true
      → (s.lines.one.head == null) ≡ false
      → After b c 1 s (service f rand a flag ts k s)
  unfolding service
  service_1-After b c s g e some_head =
      let (adr', h', l', ps', q, shape, held, n, index) =
        leaves a flag s.lines.adr b s.lines.heap s.lines.one g.ps g.qs g.shape g.one some_head
          g.index in
      record {
        next = record s {
          clocks = works f rand a flag ts k ts.t3 s;
          lines = record s.lines { adr = adr'; heap = h'; one = l' };
          calls = s.calls + 1;
        };
        ends = rw (e, service) (rw (some_head, q, ◌>>=◌));
        good = record {
          ps = ps';
          qs = g.qs;
          shape = shape;
          one = held;
          two = g.two;
          index = index;
        };
        same_i = refl;
        same_printed = refl;
        up = omega (arith, n);
        by = omega (arith, n);
      }

  service_2-After :
      (b c : ℕ) (s : State D)
      → Good a b c s.lines
      → f.at_most s.clocks.t_out f.eps ≡ true
      → (s.lines.one.head == null) ≡ true
      → (s.lines.two.head == null) ≡ false
      → After b c 1 s (service f rand a flag ts k s)
  unfolding service
  service_2-After b c s g e no_head some_head =
      let (adr', h', l', qs', q, shape, held, n, index) =
        leaves a flag s.lines.adr c s.lines.heap s.lines.two g.qs g.ps (Good-two a g) g.two
          some_head g.index in
      record {
        next = record s {
          clocks = works f rand a flag ts k ts.t4 s;
          lines = record s.lines { adr = adr'; heap = h'; two = l' };
          calls = s.calls + 1;
        };
        ends = rw (e, service) (rw (no_head, some_head, q, ◌>>=◌));
        good = record {
          ps = g.ps;
          qs = qs';
          shape = Shape-swap shape;
          one = g.one;
          two = held;
          index = index;
        };
        same_i = refl;
        same_printed = refl;
        up = omega arith;
        by = omega arith;
      }

  pub service-After :
      (b c : ℕ) (s : State D) → Good a b c s.lines → After b c 1 s (service f rand a flag ts k s)
  unfolding service
  service-After b c s g = elim (Bool-cases (f.at_most s.clocks.t_out f.eps)) [
    | inl e ↦ elim (Bool-cases (s.lines.one.head == null)) [
      | inl no_head ↦ elim (Bool-cases (s.lines.two.head == null)) [
        | inl no_head_2 ↦
            After-clocks b c b c 1 s
              (record s.clocks { t_wait = f.plus s.clocks.t_wait s.clocks.t_min }) (omega arith)
              (omega arith) g (rw (e, service) (rw (no_head, no_head_2)))
        | inr some_head ↦ service_2-After b c s g e no_head some_head
      ]
      | inr some_head ↦ service_1-After b c s g e some_head
    ]
    | inr e ↦ After-clocks b c b c 1 s s.clocks (omega arith) (omega arith) g (rw (e, service))
  ]
