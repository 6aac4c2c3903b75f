-- ===== src/PipeTasks/Received.antt =====
-- What the parent of unix-lab-02/task-4.c and task-5.c prints at the end.
use ics7_os.Common.{
  ℕ, zero, suc, ◌+◌, ◌≤◌, ◌≡◌, ◌≢◌, refl, ap, subst, ◌∙◌, ◌⊎◌, inl, inr, Bool, true, false, List,
  [], ◌++◌, arith,
}
use ics7_os.Common.Kids.{Kid, first, second, set}
use ics7_os.PipeTasks.{
  msg, Parent, forking, waiting, printing, ended, Child, unborn, born, writing, exited, reaped,
  State, next_fork, overlay, c_string, Open, Step, fork_ok, fork_failed, caught_parent, caught,
  saw_signal, no_signal, wrote, killed, waited, did_read, did_print, Reach, begun, later,
}

abbrev pub has_written : Child → Bool
has_written (exited b) = b
has_written (reaped b) = b
has_written _ = false

abbrev pub is_reaped : Child → ℕ
is_reaped (reaped b) = 1
is_reaped _ = 0

abbrev pub is_born : Child → ℕ
is_born unborn = 0
is_born _ = 1

-- The messages of the children that wrote, in some order.
abbrev pub IsSent : Bool → Bool → List ℕ → Type 0
IsSent false false sent = sent ≡ []
IsSent true false sent = sent ≡ msg first
IsSent false true sent = sent ≡ msg second
IsSent true true sent = (sent ≡ msg first ++ msg second) ⊎ (sent ≡ msg second ++ msg first)

abbrev pub Sent : (Kid → Child) → List ℕ → Type 0
Sent at = IsSent (has_written (at first)) (has_written (at second))

-- The children that are born and those waited for, at each place of the parent.
abbrev pub Stage : Parent → (Kid → Child) → Type 0
Stage (forking first) at = (at first ≡ unborn) × (at second ≡ unborn)
Stage (forking second) at =
    (at second ≡ unborn) × (is_born (at first) ≡ 1) × (is_reaped (at first) ≡ 0)
Stage (waiting n) at =
    (is_born (at first) ≡ 1)
    × (is_born (at second) ≡ 1)
    × (is_reaped (at first) + is_reaped (at second) ≡ n)
Stage (ended (suc n)) at = Unit
Stage _ at = is_reaped (at first) + is_reaped (at second) ≡ 2

-- Where the messages are: in the pipe, in the array, or printed.
abbrev pub Carries : List ℕ → Parent → (Kid → Child) → List ℕ → List ℕ → List ℕ → Type 0
Carries row (forking k) at pipe now printed = Sent at pipe × (now ≡ row)
Carries row (waiting n) at pipe now printed = Sent at pipe × (now ≡ row)
Carries row printing at pipe now printed = (sent : List ℕ) × Sent at sent × (now ≡ overlay sent row)
Carries row (ended zero) at pipe now printed =
    (sent : List ℕ) × Sent at sent × (printed ≡ c_string (overlay sent row))
Carries row (ended (suc n)) at pipe now printed = Unit

pub record Inv (row : List ℕ) (s : State) : Type 0 where
  pub stage : Stage s.parent s.at
  pub carries : Carries row s.parent s.at s.pipe s.row s.printed

-- A child takes a step of its own, from a place where it is born and not waited for, to another.
Stage-move :
    (p : Parent) (at : Kid → Child) (k : Kid) (c : Child)
    → is_born (at k) ≡ 1
    → is_reaped (at k) ≡ 0
    → is_born c ≡ 1
    → is_reaped c ≡ 0
    → Stage p at
    → Stage p (set at k c)
Stage-move (forking first) at first c b r b' r' h = absurd (omega (arith, b, ap is_born h.0))
Stage-move (forking first) at second c b r b' r' h = absurd (omega (arith, b, ap is_born h.1))
Stage-move (forking second) at first c b r b' r' h = (h.0, b', r')
Stage-move (forking second) at second c b r b' r' h = absurd (omega (arith, b, ap is_born h.0))
Stage-move (waiting n) at first c b r b' r' h = (b', h.1, omega (arith, h.2, r, r'))
Stage-move (waiting n) at second c b r b' r' h = (h.0, b', omega (arith, h.2, r, r'))
Stage-move printing at first c b r b' r' h = omega (arith, h, r, r')
Stage-move printing at second c b r b' r' h = omega (arith, h, r, r')
Stage-move (ended zero) at first c b r b' r' h = omega (arith, h, r, r')
Stage-move (ended zero) at second c b r b' r' h = omega (arith, h, r, r')
Stage-move (ended (suc n)) at k c b r b' r' h = tt

Sent-same :
    (at : Kid → Child) (k : Kid) (c : Child) (sent : List ℕ)
    → has_written (at k) ≡ has_written c
    → Sent at sent
    → Sent (set at k c) sent
Sent-same at first c sent e h = subst (λ b. IsSent b (has_written (at second)) sent) e h
Sent-same at second c sent e h = subst (λ b. IsSent (has_written (at first)) b sent) e h

IsSent-first : (b : Bool) (sent : List ℕ) → IsSent false b sent → IsSent true b (sent ++ msg first)
IsSent-first false sent h = ap (λ l. l ++ msg first) h
IsSent-first true sent h = inr (ap (λ l. l ++ msg first) h)

IsSent-second :
    (b : Bool) (sent : List ℕ) → IsSent b false sent → IsSent b true (sent ++ msg second)
IsSent-second false sent h = ap (λ l. l ++ msg second) h
IsSent-second true sent h = inl (ap (λ l. l ++ msg second) h)

Sent-write :
    (at : Kid → Child) (k : Kid) (sent : List ℕ)
    → has_written (at k) ≡ false
    → Sent at sent
    → Sent (set at k (exited true)) (sent ++ msg k)
Sent-write at first sent e h =
    IsSent-first (has_written (at second)) sent
      (subst (λ b. IsSent b (has_written (at second)) sent) e h)
Sent-write at second sent e h =
    IsSent-second (has_written (at first)) sent
      (subst (λ b. IsSent (has_written (at first)) b sent) e h)

pub is_reaped-le : (c : Child) → is_reaped c ≤ 1
is_reaped-le unborn = omega arith
is_reaped-le born = omega arith
is_reaped-le writing = omega arith
is_reaped-le (exited b) = omega arith
is_reaped-le (reaped b) = omega arith

module _ (row : List ℕ) where
  -- A child moves on without writing.
  Carries-move :
      (p : Parent) (at : Kid → Child) (pipe now printed : List ℕ) (k : Kid) (c : Child)
      → has_written (at k) ≡ has_written c
      → Carries row p at pipe now printed
      → Carries row p (set at k c) pipe now printed
  Carries-move (forking j) at pipe now printed k c e h = (Sent-same at k c pipe e h.0, h.1)
  Carries-move (waiting n) at pipe now printed k c e h = (Sent-same at k c pipe e h.0, h.1)
  Carries-move printing at pipe now printed k c e h = (h.0, Sent-same at k c h.0 e h.1, h.2)
  Carries-move (ended zero) at pipe now printed k c e h = (h.0, Sent-same at k c h.0 e h.1, h.2)
  Carries-move (ended (suc n)) at pipe now printed k c e h = tt

  two_reaped :
      (at : Kid → Child) (k : Kid)
      → is_reaped (at k) ≡ 0
      → is_reaped (at first) + is_reaped (at second) ≢ 2
  two_reaped at first e h = omega (arith, e, h, is_reaped-le (at second))
  two_reaped at second e h = omega (arith, e, h, is_reaped-le (at first))

  -- A child writes; the parent has not read yet.
  Carries-write :
      (p : Parent) (at : Kid → Child) (pipe now printed : List ℕ) (k : Kid)
      → at k ≡ writing
      → Stage p at
      → Carries row p at pipe now printed
      → Carries row p (set at k (exited true)) (pipe ++ msg k) now printed
  Carries-write (forking j) at pipe now printed k e st h =
      (Sent-write at k pipe (ap has_written e) h.0, h.1)
  Carries-write (waiting n) at pipe now printed k e st h =
      (Sent-write at k pipe (ap has_written e) h.0, h.1)
  Carries-write printing at pipe now printed k e st h = absurd (two_reaped at k (ap is_reaped e) st)
  Carries-write (ended zero) at pipe now printed k e st h =
      absurd (two_reaped at k (ap is_reaped e) st)
  Carries-write (ended (suc n)) at pipe now printed k e st h = tt

  Stage-fork :
      (k : Kid) (at : Kid → Child) → Stage (forking k) at → Stage (next_fork k) (set at k born)
  Stage-fork first at h = (h.1, refl, refl)
  Stage-fork second at h = (h.1, refl, omega (arith, h.2))

  Carries-fork :
      (k : Kid) (at : Kid → Child) (pipe now printed : List ℕ)
      → Stage (forking k) at
      → Carries row (forking k) at pipe now printed
      → Carries row (next_fork k) (set at k born) pipe now printed
  Carries-fork first at pipe now printed st h =
      (Sent-same at first born pipe (ap has_written st.0) h.0, h.1)
  Carries-fork second at pipe now printed st h =
      (Sent-same at second born pipe (ap has_written st.0) h.0, h.1)

  Stage-wait :
      (n : ℕ) (at : Kid → Child) (k : Kid) (b : Bool)
      → at k ≡ exited b
      → Stage (waiting n) at
      → Stage (waiting (suc n)) (set at k (reaped b))
  Stage-wait n at first b e h = (refl, h.1, omega (arith, h.2, ap is_reaped e))
  Stage-wait n at second b e h = (h.0, refl, omega (arith, h.2, ap is_reaped e))

  moved :
      (s : State) (k : Kid) (c c' : Child)
      → s.at k ≡ c
      → is_born c ≡ 1
      → is_reaped c ≡ 0
      → is_born c' ≡ 1
      → is_reaped c' ≡ 0
      → has_written c ≡ has_written c'
      → Inv row s
      → Inv row (record s { at = set s.at k c' })
  moved s k c c' e b r b' r' w inv = record {
    stage = Stage-move s.parent s.at k c' (ap is_born e ∙ b) (ap is_reaped e ∙ r) b' r' inv.stage;
    carries =
        Carries-move s.parent s.at s.pipe s.row s.printed k c' (ap has_written e ∙ w) inv.carries;
  }

  -- The invariant, with the place of the parent known.
  pub at_parent :
      (s : State) {p : Parent}
      → s.parent ≡ p
      → Inv row s
      → Stage p s.at × Carries row p s.at s.pipe s.row s.printed
  at_parent s e inv = (
    subst (λ p. Stage p s.at) e inv.stage,
    subst (λ p. Carries row p s.at s.pipe s.row s.printed) e inv.carries,
  )

  Inv-killed :
      (s : State) (k : Kid) (c : Child)
      → s.at k ≡ c
      → Open c
      → Inv row s
      → Inv row (record s { at = set s.at k (exited false); signaled = set s.signaled k true })
  Inv-killed s k born e open_end inv =
      let q = moved s k born (exited false) e refl refl refl refl refl inv in
      record { stage = q.stage; carries = q.carries }
  Inv-killed s k writing e open_end inv =
      let q = moved s k writing (exited false) e refl refl refl refl refl inv in
      record { stage = q.stage; carries = q.carries }
  Inv-killed s k unborn e open_end inv = absurd open_end
  Inv-killed s k (exited b) e open_end inv = absurd open_end
  Inv-killed s k (reaped b) e open_end inv = absurd open_end

  Step-Inv : {s t : State} → Inv row s → Step s t → Inv row t
  Step-Inv {s} inv (fork_ok k e) =
      let (st, h) = at_parent s e inv in
      record {
        stage = Stage-fork k s.at st;
        carries = Carries-fork k s.at s.pipe s.row s.printed st h;
      }
  Step-Inv {s} inv (fork_failed k e) = record { stage = tt; carries = tt }
  Step-Inv {s} inv caught_parent = record { stage = inv.stage; carries = inv.carries }
  Step-Inv {s} inv (caught k) = record { stage = inv.stage; carries = inv.carries }
  Step-Inv {s} inv (saw_signal k e on) = moved s k born writing e refl refl refl refl refl inv
  Step-Inv {s} inv (no_signal k e off) =
      moved s k born (exited false) e refl refl refl refl refl inv
  Step-Inv {s} inv (wrote k e) = record {
    stage =
        Stage-move s.parent s.at k (exited true) (ap is_born e) (ap is_reaped e) refl refl
          inv.stage;
    carries = Carries-write s.parent s.at s.pipe s.row s.printed k e inv.stage inv.carries;
  }
  Step-Inv {s} inv (killed k {c} e open_end) = Inv-killed s k c e open_end inv
  Step-Inv {s} inv (waited n k {b} e small here) =
      let (st, h) = at_parent s e inv in
      record {
        stage = Stage-wait n s.at k b here st;
        carries = (Sent-same s.at k (reaped b) s.pipe (ap has_written here) h.0, h.1);
      }
  Step-Inv {s} inv (did_read e ready) =
      let (st, h) = at_parent s e inv in
      record { stage = st.2; carries = (s.pipe, h.0, ap (overlay s.pipe) h.1) }
  Step-Inv {s} inv (did_print e) =
      let (st, h) = at_parent s e inv in
      record { stage = st; carries = (h.0, h.1, ap c_string h.2) }

  pub Reach-Inv : {flag : Bool} {s : State} → Reach flag row s → Inv row s
  Reach-Inv begun = record { stage = (refl, refl); carries = (refl, refl) }
  Reach-Inv (later r step) = Step-Inv (Reach-Inv r) step

  -- When the parent has ended with status 0, it printed the messages of the children that wrote,
  -- each whole and once, in some order, put over the first bytes of `msg[0]`, up to the first NUL.
  pub received :
      (flag : Bool) (s : State)
      → Reach flag row s
      → s.parent ≡ ended 0
      → (sent : List ℕ) × Sent s.at sent × (s.printed ≡ c_string (overlay sent row))
  received flag s r e = (at_parent s e (Reach-Inv r)).1
