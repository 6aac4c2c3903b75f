-- ===== src/Queue/ArraySimulation/Sums.antt =====
-- The counts of `start_arr_time`, as long as no address has to wrap.
use ics7_os.Common.{
  ℕ, zero, suc, ◌+◌, ◌%◌, ◌≤◌, ◌<◌, ◌≡◌, ◌⊎◌, inl, inr, Bool-cases, false, ◌&&◌, not, All,
  All-append, ltb, arith, ◌==◌,
}
use ics7_os.Memory.{Ptr}
use ics7_os.Queue.Ring.{add_element_to_queue_arr, get_time_work_exit_element_arr, arr_push, arr_pop}
use ics7_os.Queue.Times.{Arithmetic, Intervals, tick}
use ics7_os.Queue.ArraySimulation.{
  Ring, Report, State, distance, enters, leaves, arrival_1, arrival_2, service, report, round,
  rounds, start,
}

-- Nothing wrapped yet: `pin` counts what came, at most `b` requests, and `pout` what left.
pub record Straight (q : Ptr) (r : Ring) (b : ℕ) : Type 0 where
  pub pin_at : r.pin ≡ q + r.count
  pub pout_at : r.pout ≡ q + r.n_quit
  pub order : r.n_quit ≤ r.count
  pub few : r.count ≤ b

abbrev pub Counted {ℓ} : {D : Type ℓ} → Report D → Type 0
Counted r = r.n_quit + r.len_1 ≡ r.count

Straight-later : {q : Ptr} {r : Ring} {b : ℕ} → Straight q r b → Straight q r (b + 1)
Straight-later s = record {
  pin_at = s.pin_at;
  pout_at = s.pout_at;
  order = s.order;
  few = omega (arith, s.few);
}

module _ {ℓ} {D : Type ℓ} (f : Arithmetic D) (rand : ℕ → ℕ) (ts : Intervals D) (q_1 q_2 : Ptr) where
  -- The array `q` is not where the first array ends.
  Straight-enters :
      (q : Ptr) (r : Ring) (b : ℕ)
      → b + 1 < 1000
      → 0 < q_1
      → 0 < q
      → (q ≤ q_1) ⊎ (q_1 + 1000 ≤ q)
      → Straight q r b
      → Straight q (enters f rand ts q_1 q_2 q_1 r) (b + 1)
  unfolding add_element_to_queue_arr arr_push
  Straight-enters q r b small nn nn_q apart s = record {
    pin_at = ground (arith, s.pin_at, s.pout_at, s.order, s.few, apart);
    pout_at = s.pout_at;
    order = omega (arith, s.order);
    few = omega (arith, s.few);
  }

  Straight-leaves :
      (q : Ptr) (r : Ring) (b : ℕ)
      → b < 1000
      → 0 < q
      → (r.pin == r.pout) ≡ false
      → Straight q r b
      → Straight q (leaves f rand ts q_1 q_2 r) b
  unfolding get_time_work_exit_element_arr arr_pop
  Straight-leaves q r b small nn apart s = record {
    pin_at = s.pin_at;
    pout_at = ground (arith, s.pin_at, s.pout_at, s.order, s.few, apart);
    order = ground (arith, s.pin_at, s.pout_at, s.order, apart);
    few = s.few;
  }

  pub record Kept (b c : ℕ) (s : State D) : Type ℓ where
    pub one : Straight q_1 s.one b
    pub two : Straight q_2 s.two c
    pub counted : All Counted s.printed

  module _ (b : ℕ) (s : State D) (small : b + 1 < 1000) (nn : 0 < q_1) (nn_2 : 0 < q_2)
      (apart : (q_2 ≤ q_1) ⊎ (q_1 + 1000 ≤ q_2)) where
    arrival_1-Kept : Kept b b s → Kept (b + 1) b (arrival_1 f rand ts q_1 q_2 s)
    unfolding arrival_1
    arrival_1-Kept h = elim (Bool-cases (f.at_most s.clocks.t_in_1 f.order.nought)) [
      | inl e ↦
          rw (e, arrival_1)
            (record {
              one = Straight-enters q_1 s.one b small nn nn (inl (omega arith)) h.one;
              two = h.two;
              counted = h.counted;
            })
      | inr e ↦
          rw (e, arrival_1)
            (record { one = Straight-later h.one; two = h.two; counted = h.counted })
    ]

    arrival_2-Kept : Kept (b + 1) b s → Kept (b + 1) (b + 1) (arrival_2 f rand ts q_1 q_2 s)
    unfolding arrival_2
    arrival_2-Kept h = elim (Bool-cases (f.at_most s.clocks.t_in_2 f.order.nought)) [
      | inl e ↦
          rw (e, arrival_2)
            (record {
              one = h.one;
              two = Straight-enters q_2 s.two b small nn nn_2 apart h.two;
              counted = h.counted;
            })
      | inr e ↦
          rw (e, arrival_2)
            (record { one = h.one; two = Straight-later h.two; counted = h.counted })
    ]

    service-Kept : Kept (b + 1) (b + 1) s → Kept (b + 1) (b + 1) (service f rand ts q_1 q_2 s)
    unfolding service
    service-Kept h = elim (Bool-cases (f.at_most s.clocks.t_out f.order.nought)) [
      | inl e ↦ elim (Bool-cases (s.one.pin == s.one.pout)) [
        | inl e_1 ↦ elim (Bool-cases (s.two.pin == s.two.pout)) [
          | inl e_2 ↦
              rw (e, service)
                (rw (e_1, e_2) (record { one = h.one; two = h.two; counted = h.counted }))
          | inr e_2 ↦
              rw (e, service)
                (rw (e_1, e_2)
                  (record {
                    one = h.one;
                    two = Straight-leaves q_2 s.two (b + 1) small nn_2 e_2 h.two;
                    counted = h.counted;
                  }))
        ]
        | inr e_1 ↦
            rw (e, service)
              (rw e_1 (record {
                one = Straight-leaves q_1 s.one (b + 1) small nn e_1 h.one;
                two = h.two;
                counted = h.counted;
              }))
      ]
      | inr e ↦ rw (e, service) h
    ]

    report-Kept : Kept (b + 1) (b + 1) s → Kept (b + 1) (b + 1) (report f rand ts q_1 q_2 s)
    unfolding report
    report-Kept h = elim (Bool-cases (s.one.n_quit % 100 == 0 && not (s.i == s.one.n_quit))) [
      | inl e ↦
          rw (e, report)
            (record {
              one = h.one;
              two = h.two;
              counted = All-append Counted s.printed _ h.counted (length_counted, tt);
            })
      | inr e ↦ rw (e, report) h
    ]
      where
        length_counted : s.one.n_quit + distance s.one.pin s.one.pout ≡ s.one.count
        length_counted = ground (arith, h.one.pin_at, h.one.pout_at, h.one.order)

  module _ (nn : 0 < q_1) (nn_2 : 0 < q_2) (apart : (q_2 ≤ q_1) ⊎ (q_1 + 1000 ≤ q_2)) where
    round-Kept :
        (b : ℕ) (s : State D)
        → b + 1 < 1000
        → Kept b b s
        → Kept (b + 1) (b + 1) (round f rand ts q_1 q_2 s)
    unfolding round
    round-Kept b s small h =
        let s1 = arrival_1 f rand ts q_1 q_2 s in
        let s2 = arrival_2 f rand ts q_1 q_2 s1 in
        let s3 = service f rand ts q_1 q_2 s2 in
        let h1 = arrival_1-Kept b s small nn nn_2 apart h in
        let h2 = arrival_2-Kept b s1 small nn nn_2 apart h1 in
        let h3 = service-Kept b s2 small nn nn_2 apart h2 in
        report-Kept b (record s3 { clocks = tick f s3.clocks }) small nn nn_2 apart
          (record { one = h3.one; two = h3.two; counted = h3.counted })

    rounds-Kept :
        (n b : ℕ) (s : State D)
        → b + n < 1000
        → Kept b b s
        → (c : ℕ) × (c < 1000) × Kept c c (rounds f rand ts q_1 q_2 n s)
    unfolding rounds
    rounds-Kept zero b s small h = (b, omega (arith, small), h)
    rounds-Kept (suc n) b s small h = elim (Bool-cases (ltb s.one.n_quit 1000)) [
      | inl e ↦
          rw (e, rounds)
            (rounds-Kept n (b + 1) (round f rand ts q_1 q_2 s) (omega arith)
              (round-Kept b s (omega arith) h))
      | inr e ↦ rw (e, rounds) (b, omega (arith, small), h)
    ]

  -- For fewer than 1000 rounds, with the second array not where the first one ends, and any
  -- `double` and results of `rand`: each address is as far from the start of its array as requests
  -- came, or left, so nothing wraps; and in each block printed, what left and the number of
  -- elements make up what came.
  pub start_arr_time_lem :
      (n : ℕ)
      → 0 < q_1
      → 0 < q_2
      → (q_2 ≤ q_1) ⊎ (q_1 + 1000 ≤ q_2)
      → n < 1000
      → (c : ℕ) × (c < 1000) × Kept c c (rounds f rand ts q_1 q_2 n (start f rand ts q_1 q_2))
  start_arr_time_lem n nn nn_2 apart small =
      rounds-Kept nn nn_2 apart n 0 (start f rand ts q_1 q_2) (omega (arith, small)) (record {
        one = record {
          pin_at = omega arith;
          pout_at = omega arith;
          order = omega arith;
          few = omega arith;
        };
        two = record {
          pin_at = omega arith;
          pout_at = omega arith;
          order = omega arith;
          few = omega arith;
        };
        counted = tt;
      })
