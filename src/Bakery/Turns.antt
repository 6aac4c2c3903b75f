-- ===== src/Bakery/Turns.antt =====
-- Every step of bakery_server.c keeps the invariant.
use ics7_os.Common.{
  ℕ, ◌+◌, ◌≤◌, ◌<◌, ◌≡◌, ◌≢◌, refl, subst, false, arith, ==_self, ==_of_ne, ℕ_discrete,
}
use ics7_os.Common.Threads.{move, move_all}
use ics7_os.Bakery.{
  clients, Server, Desk, idle, scan, found, note, unchoose, Place, held, check, compare, enter,
  bump, put, inside, System, blocked, Serve, take, higher, not_higher, keep, assign, tell, hand_out,
  wait_queue, no_thread, bakery_res, Work, chosen, ahead, through, do_enter, do_bump, do_put, leave,
  serve, work, init, Reach, start, later,
}
use ics7_os.Bakery.Invariant.{
  stored, handed, handed_le, Names, Scanned, present, holding, reach, Inv, Inv-move, Inv-leave,
  reach_present,
}

module _ {number : ℕ → ℕ} {n : ℕ} {at : ℕ → Place} where
  Inv-take : Inv number n idle at → n < clients → Inv number (n + 1) (scan n 0 0) at
  Inv-take inv h = record {
    few = omega arith;
    names = refl;
    scanned = λ l low. absurd (omega (arith, low));
    fresh = λ j low. inv.fresh j (omega (arith, low));
    known = λ i q. omega (arith, inv.known i q);
    seen = λ i low. inv.seen i (omega (arith, low));
    has_number = inv.has_number;
    order = inv.order;
    passed = inv.passed;
  }

  -- The desk goes on in its loop.
  Inv-desk :
      {d : Desk} (d' : Desk)
      → Inv number n d at
      → stored d' n ≡ stored d n
      → handed d' n ≡ handed d n
      → Names d' n
      → Scanned d' number
      → Inv number n d' at
  Inv-desk d' inv st ha names scanned = record {
    few = inv.few;
    names = names;
    scanned = scanned;
    fresh = λ j low. inv.fresh j (omega (arith, low, st));
    known = λ i q. omega (arith, inv.known i q, ha);
    seen = λ i low. inv.seen i (omega (arith, low, ha));
    has_number = inv.has_number;
    order = inv.order;
    passed = inv.passed;
  }

  Inv-assign :
      (i max : ℕ)
      → Inv number n (scan i clients max) at
      → Inv (move number i (max + 1)) n (note i) at
  Inv-assign i max inv = record {
    few = inv.few;
    names = inv.names;
    scanned = rw (==_self i) (omega arith);
    fresh = λ j low.
        omega (
          arith,
          other j (λ e. omega (arith, e, low, inv.names)),
          inv.fresh j (omega (arith, low)),
        );
    known = inv.known;
    seen = inv.seen;
    has_number = λ j q. omega (arith, grows j, inv.has_number j q);
    order = λ j k h some. elim (ℕ_discrete i k) [
      | yes e ↦ omega (
        arith,
        other j (λ e'. omega (arith, e, e', h)),
        inv.scanned j (omega (arith, e, h, inv.names, inv.few)),
        given k e,
      )
      | no ne ↦ omega (
        arith,
        other k ne,
        other j
            (λ e. omega (arith, some, other k ne, inv.fresh k (omega (arith, e, h, inv.names)))),
        inv.order j k h (omega (arith, some, other k ne)),
      )
    ];
    passed = λ k j h l. omega (
      arith,
      inv.passed k j h l,
      other j (λ e. omega (arith, e, l, inv.names, inv.known k (reach_present inv k j h))),
    );
  }
    where
      other : (j : ℕ) → i ≢ j → move number i (max + 1) j ≡ number j
      other j ne = rw (==_of_ne i j ne)

      given : (j : ℕ) → i ≡ j → move number i (max + 1) j ≡ max + 1
      given j e = rw (e, ==_self j)

      grows : (j : ℕ) → number j ≤ move number i (max + 1) j
      grows j = elim (ℕ_discrete i j) [
        | yes e ↦ omega (arith, given j e, inv.fresh j (omega (arith, e, inv.names)))
        | no ne ↦ omega (arith, other j ne)
      ]

  Inv-hand_out : (i : ℕ) → Inv number n (unchoose i) at → Inv number n idle (move at i held)
  Inv-hand_out i inv = record {
    few = inv.few;
    names = tt;
    scanned = tt;
    fresh = inv.fresh;
    known =
        move_all (λ j q. present q ≡ 1 → j < n) at i held (λ _. omega (arith, inv.names))
          (λ j _ q. omega (arith, inv.known j q));
    seen =
        move_all (λ j q. j < n → present q ≡ 1) at i held (λ _. refl)
          (λ j ne h. inv.seen j (omega (arith, h, inv.names, ne)));
    has_number =
        move_all (λ j q. holding q ≡ 1 → 0 < number j) at i held (λ _. inv.scanned)
          (λ j _. inv.has_number j);
    order = inv.order;
    passed =
        move_all (λ k q. (j : ℕ) → j < reach q → j < k → number j ≡ 0) at i held
          (λ j h. absurd (omega (arith, h))) (λ k _. inv.passed k);
  }

-- A client is past one that comes before it only when that one has given its number back.
free_zero :
    (number : ℕ → ℕ) (i j : ℕ)
    → blocked number i j ≡ false
    → j < i
    → number j < number i
    → number j ≡ 0
free_zero number i j q h le = ground arith

pub Serve-Inv :
    {s t : System}
    → Inv s.mem.number s.mem.num s.desk s.at
    → Serve s t
    → Inv t.mem.number t.mem.num t.desk t.at
Serve-Inv {s} inv (take d h) = Inv-take (subst (λ d. Inv s.mem.number s.mem.num d s.at) d inv) h
Serve-Inv {s} inv (higher {i} {j} {max} d h more) =
    let inv = subst (λ d. Inv s.mem.number s.mem.num d s.at) d inv in
    Inv-desk (found i j max) inv refl refl inv.names (λ l low. elim (ℕ_discrete l j) [
      | yes e ↦ rw e (omega arith)
      | no ne ↦ omega (arith, inv.scanned l (omega (arith, low, ne)))
    ])
Serve-Inv {s} inv (not_higher {i} {j} {max} d h le) =
    let inv = subst (λ d. Inv s.mem.number s.mem.num d s.at) d inv in
    Inv-desk (scan i (j + 1) max) inv refl refl inv.names (λ l low. elim (ℕ_discrete l j) [
      | yes e ↦ rw e le
      | no ne ↦ inv.scanned l (omega (arith, low, ne))
    ])
Serve-Inv {s} inv (keep {i} {j} {max} d) =
    let inv = subst (λ d. Inv s.mem.number s.mem.num d s.at) d inv in
    Inv-desk (scan i (j + 1) (s.mem.number j)) inv refl refl inv.names
      (λ l low. inv.scanned l (omega (arith, low)))
Serve-Inv {s} inv (assign {i} {max} d) =
    Inv-assign i max (subst (λ d. Inv s.mem.number s.mem.num d s.at) d inv)
Serve-Inv {s} inv (tell {i} d) =
    let inv = subst (λ d. Inv s.mem.number s.mem.num d s.at) d inv in
    Inv-desk (unchoose i) inv refl refl inv.names inv.scanned
Serve-Inv {s} inv (hand_out {i} d) =
    Inv-hand_out i (subst (λ d. Inv s.mem.number s.mem.num d s.at) d inv)
Serve-Inv {s} inv (wait_queue pid d here) =
    Inv-move inv pid (check 0) (rw here) refl (λ _. inv.has_number pid (rw here))
      (λ j h. absurd (omega (arith, h)))
Serve-Inv {s} inv (no_thread pid d here) = inv
Serve-Inv {s} inv (bakery_res pid i d h k l) = inv

pub Work-Inv :
    {s : System} {i : ℕ} {m : Server} {p : Place}
    → Inv s.mem.number s.mem.num s.desk s.at
    → Work s i m p
    → Inv m.number m.num s.desk (move s.at i p)
Work-Inv {s} {i} inv (chosen {j} here h q) =
    Inv-move inv i (compare j) (rw here) refl (λ _. inv.has_number i (rw here))
      (λ l low. inv.passed i l (rw here low))
Work-Inv {s} {i} inv (ahead {j} here q) =
    Inv-move inv i (check (j + 1)) (rw here) refl (λ _. inv.has_number i (rw here))
      (λ l low before. elim (ℕ_discrete l j) [
        | yes e ↦
            free_zero s.mem.number i l (rw e q) before
              (inv.order l i before (inv.has_number i (rw here)))
        | no ne ↦ inv.passed i l (rw here (omega (arith, low, ne))) before
      ])
Work-Inv {s} {i} inv (through here) =
    Inv-move inv i enter (rw here) refl (λ _. inv.has_number i (rw here))
      (λ l low. inv.passed i l (rw here low))
Work-Inv {s} {i} inv (do_enter here) =
    Inv-move inv i bump (rw here) refl (λ _. inv.has_number i (rw here))
      (λ l low. inv.passed i l (rw here low))
Work-Inv {s} {i} inv (do_bump here) =
    Inv-move inv i (put s.mem.symbol) (rw here) refl (λ _. inv.has_number i (rw here))
      (λ l low. inv.passed i l (rw here low))
Work-Inv {s} {i} inv (do_put here) =
    Inv-move inv i inside (rw here) refl (λ _. inv.has_number i (rw here))
      (λ l low. inv.passed i l (rw here low))
Work-Inv {s} {i} inv (leave here) =
    let here_now : present (s.at i) ≡ 1 = rw here in
    Inv-leave inv i here_now (λ l low.
      inv.passed i l
        (rw here (omega (arith, low, inv.known i here_now, inv.few, handed_le s.desk s.mem.num)))
        low)

pub Reach-Inv : {s : System} → Reach s → Inv s.mem.number s.mem.num s.desk s.at
unfolding init
Reach-Inv start = record {
  few = omega arith;
  names = tt;
  scanned = tt;
  fresh = λ _ _. refl;
  known = λ i q. absurd (omega (arith, q));
  seen = λ i h. absurd (omega (arith, h));
  has_number = λ i q. absurd (omega (arith, q));
  order = λ j i h some. absurd (omega (arith, some));
  passed = λ _ _ _ _. refl;
}
Reach-Inv (later r (serve step)) = Serve-Inv (Reach-Inv r) step
Reach-Inv (later r (work i step)) = Work-Inv (Reach-Inv r) step
