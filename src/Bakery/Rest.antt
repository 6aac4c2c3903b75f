-- ===== src/Bakery/Rest.antt =====
-- What the desk has chosen, and what clients that left gave back.
use ics7_os.Common.{
  ℕ, ◌+◌, ◌≤◌, ◌<◌, ◌≡◌, ◌≢◌, refl, sym, ap, subst, arith, ℕ_discrete, ==_self, ==_of_ne,
}
use ics7_os.Common.Threads.{move, move_all}
use ics7_os.Bakery.{
  clients, Server, Desk, idle, scan, found, note, unchoose, Place, held, check, compare, enter,
  bump, put, inside, left, System, Serve, take, higher, not_higher, keep, assign, tell, hand_out,
  wait_queue, no_thread, bakery_res, Work, chosen, ahead, through, do_enter, do_bump, do_put, leave,
  serve, work, init, Reach, start, later,
}
use ics7_os.Bakery.Invariant.{present, Inv}
use ics7_os.Bakery.Turns.{Reach-Inv}

-- The desk has the client `l` at work.
abbrev pub Serves : Desk → ℕ → Type 0
Serves idle l = ⊥
Serves (scan i _ _) l = l ≡ i
Serves (found i _ _) l = l ≡ i
Serves (note i) l = l ≡ i
Serves (unchoose i) l = l ≡ i

abbrev pub InLoop : Place → Type 0
InLoop (check j) = j ≤ clients
InLoop (compare j) = j < clients
InLoop _ = Unit

pub record Rest (choosing number : ℕ → ℕ) (d : Desk) (at : ℕ → Place) : Type 0 where
  pub choice : (l : ℕ) → ¬ Serves d l → choosing l ≡ 0
  pub gone : (l : ℕ) → at l ≡ left → number l ≡ 0
  pub in_loop : (l : ℕ) → InLoop (at l)

abbrev pub RestOf : System → Type 0
RestOf s = Rest s.mem.choosing s.mem.number s.desk s.at

-- The desk goes on with the same client.
Rest-desk :
    {choosing number : ℕ → ℕ} {d : Desk} {at : ℕ → Place} (d' : Desk)
    → ((l : ℕ) → Serves d l → Serves d' l)
    → Rest choosing number d at
    → Rest choosing number d' at
Rest-desk d' same h = record {
  choice = λ l free. h.choice l (λ q. free (same l q));
  gone = h.gone;
  in_loop = h.in_loop;
}

-- A client goes to a place other than the last.
Rest-move :
    {choosing number : ℕ → ℕ} {d : Desk} {at : ℕ → Place} (i : ℕ) (p : Place)
    → p ≢ left
    → InLoop p
    → Rest choosing number d at
    → Rest choosing number d (move at i p)
Rest-move {choosing} {number} {d} {at} i p there loop h = record {
  choice = h.choice;
  gone = move_all (λ l q. q ≡ left → number l ≡ 0) at i p (λ e. absurd (there e)) (λ l _. h.gone l);
  in_loop = move_all (λ _ q. InLoop q) at i p loop (λ l _. h.in_loop l);
}

pub at_desk :
    (s : System) {d : Desk} → s.desk ≡ d → RestOf s → Rest s.mem.choosing s.mem.number d s.at
at_desk s d h = subst (λ d. Rest s.mem.choosing s.mem.number d s.at) d h

Serve-Rest :
    {s t : System} → Inv s.mem.number s.mem.num s.desk s.at → RestOf s → Serve s t → RestOf t
Serve-Rest {s} inv h (take d low) =
    let h = at_desk s d h in
    record {
      choice =
          move_all (λ l c. ¬ (l ≡ s.mem.num) → c ≡ 0) s.mem.choosing s.mem.num 1
            (λ free. absurd (free refl)) (λ l _ _. h.choice l (λ q. q));
      gone = h.gone;
      in_loop = h.in_loop;
    }
Serve-Rest {s} inv h (higher {i} {j} {max} d low more) =
    Rest-desk (found i j max) (λ l q. q) (at_desk s d h)
Serve-Rest {s} inv h (not_higher {i} {j} {max} d low le) =
    Rest-desk (scan i (j + 1) max) (λ l q. q) (at_desk s d h)
Serve-Rest {s} inv h (keep {i} {j} {max} d) =
    Rest-desk (scan i (j + 1) (s.mem.number j)) (λ l q. q) (at_desk s d h)
Serve-Rest {s} inv h (assign {i} {max} d) =
    let inv = subst (λ d. Inv s.mem.number s.mem.num d s.at) d inv in
    let h = at_desk s d h in
    record {
      choice = h.choice;
      gone =
          move_all (λ l n. s.at l ≡ left → n ≡ 0) s.mem.number i (max + 1)
            (λ q. absurd (omega (arith, inv.known i (ap present q), inv.names))) (λ l _. h.gone l);
      in_loop = h.in_loop;
    }
Serve-Rest {s} inv h (tell {i} d) = Rest-desk (unchoose i) (λ l q. q) (at_desk s d h)
Serve-Rest {s} inv h (hand_out {i} d) =
    let h = Rest-move i held (λ q. absurd (cc q)) tt (at_desk s d h) in
    record {
      choice =
          move_all (λ l c. ¬ ⊥ → c ≡ 0) s.mem.choosing i 0 (λ _. refl)
            (λ l ne _. h.choice l (λ q. ne (sym q)));
      gone = h.gone;
      in_loop = h.in_loop;
    }
Serve-Rest {s} inv h (wait_queue pid d here) =
    Rest-move pid (check 0) (λ q. absurd (cc q)) (omega arith) h
Serve-Rest {s} inv h (no_thread pid d here) = record {
  choice = h.choice;
  gone = h.gone;
  in_loop = h.in_loop;
}
Serve-Rest {s} inv h (bakery_res pid i d low e here) = record {
  choice = h.choice;
  gone = h.gone;
  in_loop = h.in_loop;
}

next_in_loop : {j : ℕ} → j < clients → j + 1 ≤ clients
next_in_loop h = omega (arith, h)

Work-Rest :
    {s : System} {i : ℕ} {m : Server} {p : Place}
    → RestOf s
    → Work s i m p
    → Rest m.choosing m.number s.desk (move s.at i p)
Work-Rest {s} {i} h (chosen {j} here low e) = Rest-move i (compare j) (λ q. absurd (cc q)) low h
Work-Rest {s} {i} h (ahead {j} here e) =
    Rest-move i (check (j + 1)) (λ q. absurd (cc q))
      (next_in_loop (subst InLoop here (h.in_loop i))) h
Work-Rest {s} {i} h (through here) = Rest-move i enter (λ q. absurd (cc q)) tt h
Work-Rest {s} {i} h (do_enter here) = Rest-move i bump (λ q. absurd (cc q)) tt h
Work-Rest {s} {i} h (do_bump here) = Rest-move i (put s.mem.symbol) (λ q. absurd (cc q)) tt h
Work-Rest {s} {i} h (do_put here) = Rest-move i inside (λ q. absurd (cc q)) tt h
Work-Rest {s} {i} h (leave here) = record {
  choice = h.choice;
  gone = gone_now;
  in_loop = move_all (λ _ q. InLoop q) s.at i left tt (λ l _. h.in_loop l);
}
  where
    other : (l : ℕ) → i ≢ l → move s.at i left l ≡ s.at l
    other l ne = rw (==_of_ne i l ne) refl

    gone_now : (l : ℕ) → move s.at i left l ≡ left → move s.mem.number i 0 l ≡ 0
    gone_now l q = elim (ℕ_discrete i l) [
      | yes e ↦ rw (sym e) (rw (==_self i) refl)
      | no ne ↦ rw (==_of_ne i l ne) (h.gone l (subst (λ p. p ≡ left) (other l ne) q))
    ]

pub Reach-Rest : {s : System} → Reach s → RestOf s
unfolding init
Reach-Rest start = record { choice = λ _ _. refl; gone = λ l e. refl; in_loop = λ _. tt }
Reach-Rest (later r (serve step)) = Serve-Rest (Reach-Inv r) (Reach-Rest r) step
Reach-Rest (later r (work i step)) = Work-Rest (Reach-Rest r) step
