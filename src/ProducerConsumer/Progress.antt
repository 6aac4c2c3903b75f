-- ===== src/ProducerConsumer/Progress.antt =====
-- pc.c does not deadlock as long as no process dies and the segment has room.
use ics7_os.Common.{
  ℕ, ◌+◌, ◌-◌, ◌≤◌, ◌<◌, ◌≡◌, refl, Bool, true, false, [], ◌∷◌, arith, dec_lt, ltb, if◌then◌else◌,
  some, ◌∙◌, ℤ,
}
use ics7_os.Common.Threads.{weight, weight_one, weight_some}
use ics7_os.Semaphore.{Sems, Kernel, set_to, buf, up, down}
use ics7_os.ProducerConsumer.{
  size_buf, producers_amount, consumers_amount, sb, se, sf, Shared, Pc, produce, store,
  print_stored, advance, next_letter, end_produce, lost_produce, lost_store, consume, print_taken,
  increment, end_consume, lost_consume, gone, Move, System, pick, Reach, start, later, critical,
  init, start_produce, stop_produce, start_consume, stop_consume, enter_produce, do_store,
  do_print_stored, do_advance, do_next_letter, leave_produce, enter_consume, do_print_taken,
  do_increment, leave_consume,
}
use ics7_os.ProducerConsumer.Invariant.{Reach-Good}

abbrev pub alive : Pc → Bool
alive gone = false
alive lost_produce = false
alive lost_store = false
alive lost_consume = false
alive _ = true

-- The code that a process runs.
abbrev produces : Pc → Bool
produces consume = false
produces print_taken = false
produces increment = false
produces end_consume = false
produces lost_consume = false
produces _ = true

abbrev consumes : Pc → Bool
consumes gone = true
consumes p = if produces p then false else true

-- A step that is no failure and stores nothing behind the segment, and where it leads.
pub record Advance (k : Kernel) (m : Shared) (p : Pc) : Type 0 where
  pub mem : Shared
  pub pc : Pc
  pub step : Move k m p mem pc
  pub lives : alive pc ≡ true
  pub within : p ≡ store → m.ptr_prod < size_buf

abbrev HasRole : ℕ → Pc → Type 0
HasRole i p = (if ltb i producers_amount then produces p else consumes p) ≡ true

le_zero : (a : ℕ) → a ≤ 0 → a ≡ 0
le_zero a h = omega arith

module _ (k : Kernel) where
  open k use {semop}

  give_two :
      (s : Sems) (a b : ℕ)
      → s a + 1 ≤ k.semvmx
      → set_to s a (s a + 1) b + 1 ≤ k.semvmx
      → (t : Sems) × (semop s (buf a up ∷ buf b up ∷ []) ≡ some t)
  give_two s a b h h' = (_, k.increase s a 0 _ h ∙ k.increase _ b 0 [] h' ∙ k.nothing _)

  take_two :
      (s : Sems) (a : ℕ)
      → 0 < s a
      → 0 < set_to s a (s a - 1) sb
      → (t : Sems) × (semop s (buf a down ∷ buf sb down ∷ []) ≡ some t)
  take_two s a h h' = (_, k.decrease s a 0 _ h ∙ k.decrease _ sb 0 [] h' ∙ k.nothing _)

  -- The semaphores can be raised.
  record Fits (m : Shared) : Type 0 where
    at_sb : m.sems sb + 1 ≤ k.semvmx
    at_se : m.sems se + 1 ≤ k.semvmx
    at_sf : m.sems sf + 1 ≤ k.semvmx

  inside_advances :
      (m : Shared) (p : Pc)
      → Fits m
      → m.ptr_prod < size_buf
      → alive p ≡ true
      → 0 < critical p
      → Advance k m p
  unfolding stop_produce stop_consume
  inside_advances m store f room a h = record {
    mem = _;
    pc = _;
    step = do_store room;
    lives = refl;
    within = λ _. room;
  }
  inside_advances m print_stored f room a h = record {
    mem = _;
    pc = _;
    step = do_print_stored;
    lives = refl;
    within = λ e. absurd (cc e);
  }
  inside_advances m advance f room a h = record {
    mem = _;
    pc = _;
    step = do_advance;
    lives = refl;
    within = λ e. absurd (cc e);
  }
  inside_advances m next_letter f room a h = record {
    mem = _;
    pc = _;
    step = do_next_letter;
    lives = refl;
    within = λ e. absurd (cc e);
  }
  inside_advances m end_produce f room a h =
      let (t, q) = give_two m.sems sb sf f.at_sb f.at_sf in
      record { mem = _; pc = _; step = leave_produce q; lives = refl; within = λ e. absurd (cc e) }
  inside_advances m print_taken f room a h = record {
    mem = _;
    pc = _;
    step = do_print_taken;
    lives = refl;
    within = λ e. absurd (cc e);
  }
  inside_advances m increment f room a h = record {
    mem = _;
    pc = _;
    step = do_increment;
    lives = refl;
    within = λ e. absurd (cc e);
  }
  inside_advances m end_consume f room a h =
      let (t, q) = give_two m.sems sb se f.at_sb f.at_se in
      record { mem = _; pc = _; step = leave_consume q; lives = refl; within = λ e. absurd (cc e) }
  inside_advances m produce f room a h = absurd (omega arith)
  inside_advances m consume f room a h = absurd (omega arith)
  inside_advances m gone f room a h = absurd (omega arith)
  inside_advances m lost_produce f room a h = cc
  inside_advances m lost_store f room a h = cc
  inside_advances m lost_consume f room a h = cc

  produce_advances :
      (m : Shared) (p : Pc)
      → alive p ≡ true
      → produces p ≡ true
      → critical p ≡ 0
      → 0 < m.sems sb
      → 0 < m.sems se
      → Advance k m p
  unfolding start_produce
  produce_advances m produce a r c h h' =
      let (t, q) = take_two m.sems se h' h in
      record { mem = _; pc = _; step = enter_produce q; lives = refl; within = λ e. absurd (cc e) }
  produce_advances m p a r c h h' = ground arith

  consume_advances :
      (m : Shared) (p : Pc)
      → alive p ≡ true
      → consumes p ≡ true
      → critical p ≡ 0
      → 0 < m.sems sb
      → 0 < m.sems sf
      → Advance k m p
  unfolding start_consume
  consume_advances m consume a r c h h' =
      let (t, q) = take_two m.sems sf h' h in
      record { mem = _; pc = _; step = enter_consume q; lives = refl; within = λ e. absurd (cc e) }
  consume_advances m p a r c h h' = ground arith

  Move-HasRole : {m m' : Shared} {p p' : Pc} (i : ℕ) → Move k m p m' p' → HasRole i p → HasRole i p'
  Move-HasRole i (enter_produce q) r = r
  Move-HasRole i mv r = ground arith

  Reach-HasRole :
      {n : ℕ} {unset : ℕ → ℤ} {s : System} → Reach k n unset s → (i : ℕ) → HasRole i (s.pc i)
  unfolding init
  Reach-HasRole start i = ground arith
  Reach-HasRole (later {s} r (pick j {p} h mv)) i =
      ground (arith, Move-HasRole j mv (Reach-HasRole r j), Reach-HasRole r i)

  -- With all six children running and none dead, SEMVMX at least 128, and room in the segment for
  -- the next letter, some process has a step that is no failure and stores nothing behind the
  -- segment: the program is not at rest.
  pub no_deadlock :
      (unset : ℕ → ℤ) (s : System)
      → Reach k (producers_amount + consumers_amount) unset s
      → size_buf ≤ k.semvmx
      → s.mem.ptr_prod < size_buf
      → ((i : ℕ) → i < producers_amount + consumers_amount → alive (s.pc i) ≡ true)
      → (i : ℕ) × (i < producers_amount + consumers_amount) × Advance k s.mem (s.pc i)
  no_deadlock unset s r high space live =
      let g = Reach-Good k r in
      let at_rest = λ (i : ℕ) (h : i < 6) (e : weight critical 6 s.pc ≡ 0).
        le_zero (critical (s.pc i)) (omega (arith, e, weight_one critical 6 i s.pc h)) in
      elim (dec_lt 0 (weight critical 6 s.pc)) [
        | yes some_in ↦
            let (i, h, here) = weight_some critical 6 s.pc some_in in
            let fits : Fits s.mem = record {
              at_sb = omega (arith, g.one, some_in);
              at_se = omega (arith, g.slots, some_in);
              at_sf = omega (arith, g.slots, some_in);
            } in
            (i, h, inside_advances s.mem (s.pc i) fits space (live i h) here)
        | no none_in ↦ elim (dec_lt 0 (s.mem.sems se)) [
          | yes room ↦ (
            0,
            omega arith,
            produce_advances s.mem (s.pc 0) (live 0 (omega arith)) (Reach-HasRole r 0)
                (at_rest 0 (omega arith) (omega arith)) (omega (arith, g.one)) room,
          )
          | no full ↦ (
            3,
            omega arith,
            consume_advances s.mem (s.pc 3) (live 3 (omega arith)) (Reach-HasRole r 3)
                (at_rest 3 (omega arith) (omega arith)) (omega (arith, g.one))
                (omega (arith, g.slots)),
          )
        ]
      ]
