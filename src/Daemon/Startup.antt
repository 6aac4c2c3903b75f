-- ===== src/Daemon/Startup.antt =====
-- The way of unix-lab-03/main.c to its loop.
use ics7_os.Common.{
  ℕ, zero, suc, ◌+◌, ◌≤◌, ◌<◌, ◌≡◌, ◌≢◌, refl, ap, ◌∙◌, ◌⊎◌, inl, inr, true, false, Option, none,
  some, arith, ==_self, ==_of_ne, ℕ_discrete,
}
use ics7_os.Daemon.Outcome.{ended, runs, ◌>>=◌}
use ics7_os.Daemon.{
  Fds, set_to, Kernel, default, Process, Limit, in_parent, in_child, acquired, Calls, descriptors,
  close_from, standard_fds, daemonize, already_running, start,
}

module _ (k : Kernel) where
  close_from_other :
      (n i : ℕ) (t : Fds) (j : ℕ) → (j < i) ⊎ (i + n ≤ j) → close_from k n i t j ≡ t j
  unfolding close_from
  close_from_other zero i t j h = refl
  close_from_other (suc n) i t j h =
      close_from_other n (i + 1) (k.close t i) j (out h)
      ∙ ap (λ u. u j) (k.close_lem t i)
      ∙ rw (==_of_ne i j (apart h))
    where
      out : (j < i) ⊎ (i + suc n ≤ j) → (j < i + 1) ⊎ (i + 1 + n ≤ j)
      out (inl h) = inl (omega arith)
      out (inr h) = inr (omega arith)

      apart : (j < i) ⊎ (i + suc n ≤ j) → i ≢ j
      apart (inl h) e = omega (arith, e)
      apart (inr h) e = omega (arith, e)

  close_from_below : (n i : ℕ) (t : Fds) (j : ℕ) → i ≤ j → j < i + n → close_from k n i t j ≡ false
  unfolding close_from
  close_from_below zero i t j h h' = absurd (omega arith)
  close_from_below (suc n) i t j h h' = elim (ℕ_discrete i j) [
    | yes e ↦
        close_from_other n (i + 1) (k.close t i) j (inl (omega (arith, e)))
        ∙ ap (λ u. u j) (k.close_lem t i)
        ∙ rw (e, ==_self j)
    | no ne ↦ close_from_below n (i + 1) (k.close t i) j (omega (arith, ne)) (omega arith)
  ]

  -- 0, 1 and 2 open, the others as in `t`.
  abbrev three : Fds → Fds
  three t = set_to (set_to (set_to t 0 true) 1 true) 2 true

  -- The calls of `open` and `dup` behind the loop over `close` succeed.
  abbrev pub Opened : Fds → Type 0
  Opened t =
      (k.open_null t ≢ none)
      × (k.dup (set_to t 0 true) 0 ≢ none)
      × (k.dup (set_to (set_to t 0 true) 1 true) 0 ≢ none)

  is_some : {r : Option (ℕ × Fds)} {x : ℕ × Fds} → r ≡ some x → r ≢ none
  is_some e q = cc (e, q)

  -- With 0, 1 and 2 closed, the three calls give 0, 1 and 2, or one fails and the process exits.
  standard_fds-three :
      (t : Fds)
      → t 0 ≡ false
      → t 1 ≡ false
      → t 2 ≡ false
      → (Opened t × (standard_fds k t ≡ runs (three t)))
        ⊎ ((¬ Opened t) × (standard_fds k t ≡ ended 1))
  unfolding standard_fds
  standard_fds-three t c0 c1 c2 =
      elim (k.open_null_lowest t 0 c0 (λ j h. absurd (omega (arith, h)))) [
        | inl e0 ↦ inr (λ o. o.0 e0, rw e0)
        | inr e0 ↦ elim (k.dup_lowest (set_to t 0 true) 0 1 c1 (λ j h. ground (arith, h))) [
          | inl e1 ↦ inr (λ o. o.1 e1, rw e0 (rw e1))
          | inr e1 ↦
              elim (k.dup_lowest (set_to (set_to t 0 true) 1 true) 0 2 c2
                (λ j h. ground (arith, h))) [
                  | inl e2 ↦ inr (λ o. o.2 e2, rw e0 (rw e1 (rw e2)))
                  | inr e2 ↦ inl ((is_some e0, is_some e1, is_some e2), rw e0 (rw e1 (rw e2)))
                ]
        ]
      ]

  abbrev detached : Limit → ℕ → Process → Process
  detached l fd p = record {
    fds = set_to (three (close_from k (descriptors l) 0 p.fds)) fd true;
    umask = 0;
    leads_session = true;
    hup = default;
    in_root = true;
    all_blocked = true;
  }

  -- Every call behind getrlimit but `open` and `dup` succeeds, in the child.
  abbrev Done : Calls → ℕ → Type 0
  Done c fd =
      (c.fork ≡ in_child)
      × (c.setsid ≡ true)
      × (c.ignore_hup ≡ true)
      × (c.chdir ≡ true)
      × (c.open_lock_file ≡ some fd)
      × (c.lock ≡ acquired)
      × (c.sigaction ≡ true)
      × (c.sigmask ≡ true)
      × (c.create_thread ≡ true)

  -- Every call behind getrlimit succeeds, in the child.
  abbrev pub Succeeds : Calls → Process → Limit → ℕ → Type 0
  Succeeds c p l fd = Opened (close_from k (descriptors l) 0 p.fds) × Done c fd

  start_opened :
      (c : Calls) (p : Process) (l : Limit)
      → c.getrlimit ≡ some l
      → standard_fds k (close_from k (descriptors l) 0 p.fds)
        ≡ runs (three (close_from k (descriptors l) 0 p.fds))
      → ((fd : ℕ) × Done c fd × (start k c p ≡ runs (detached l fd p)))
        ⊎ (((c.fork ≡ in_parent) × (start k c p ≡ ended 0))
            ⊎ ((c.fork ≢ in_parent) × ((fd : ℕ) → ¬ Done c fd) × (start k c p ≡ ended 1)))
  unfolding start daemonize already_running
  start_opened c p l e fds = rw (e, ◌>>=◌) (rw fds (ground arith))

  start_not_opened :
      (c : Calls) (p : Process) (l : Limit)
      → c.getrlimit ≡ some l
      → standard_fds k (close_from k (descriptors l) 0 p.fds) ≡ ended 1
      → ((c.fork ≡ in_parent) × (start k c p ≡ ended 0))
        ⊎ ((c.fork ≢ in_parent) × (start k c p ≡ ended 1))
  unfolding start daemonize already_running
  start_not_opened c p l e fds = rw (e, ◌>>=◌) (rw fds (ground arith))

  start_cases :
      (c : Calls) (p : Process) (l : Limit)
      → c.getrlimit ≡ some l
      → 3 ≤ descriptors l
      → ((fd : ℕ) × Succeeds c p l fd × (start k c p ≡ runs (detached l fd p)))
        ⊎ (((c.fork ≡ in_parent) × (start k c p ≡ ended 0))
            ⊎ ((c.fork ≢ in_parent) × ((fd : ℕ) → ¬ Succeeds c p l fd) × (start k c p ≡ ended 1)))
  start_cases c p l e h =
      let t = close_from k (descriptors l) 0 p.fds in
      let shut : (j : ℕ) → j < 3 → t j ≡ false =
        λ j low. close_from_below (descriptors l) 0 p.fds j (omega arith) (omega arith) in
      elim (standard_fds-three t (shut 0 (omega arith)) (shut 1 (omega arith))
        (shut 2 (omega arith))) [
          | inl (o, fds) ↦ elim (start_opened c p l e fds) [
            | inl (fd, good, q) ↦ inl (fd, (o, good), q)
            | inr (inl q) ↦ inr (inl q)
            | inr (inr (child, bad, q)) ↦ inr (inr (child, (λ fd s. bad fd s.1), q))
          ]
          | inr (o, fds) ↦ elim (start_not_opened c p l e fds) [
            | inl q ↦ inr (inl q)
            | inr (child, q) ↦ inr (inr (child, (λ fd s. o s.0), q))
          ]
        ]

  -- The standard descriptors are open. But for that of the lock file, the others below the limit
  -- are closed, and those above it as they were; and the process has let go of its terminal, its
  -- directory and its signals.
  pub record Detached (l : Limit) (fd : ℕ) (p q : Process) : Type 0 where
    pub standard : (j : ℕ) → j < 3 → q.fds j ≡ true
    pub closed : (j : ℕ) → 3 ≤ j → j < descriptors l → fd ≢ j → q.fds j ≡ false
    pub kept : (j : ℕ) → 3 ≤ j → descriptors l ≤ j → fd ≢ j → q.fds j ≡ p.fds j
    pub no_umask : q.umask ≡ 0
    pub own_session : q.leads_session ≡ true
    pub takes_hup : q.hup ≡ default
    pub root : q.in_root ≡ true
    pub blocked : q.all_blocked ≡ true

  detached-Detached : (l : Limit) (fd : ℕ) (p : Process) → Detached l fd p (detached l fd p)
  detached-Detached l fd p = record {
    standard = λ j h. ground (arith, h);
    closed = λ j h h' ne.
        rw
          (
            ==_of_ne fd j ne,
            ==_of_ne 0 j (λ e. omega (arith, e, h)),
            ==_of_ne 1 j (λ e. omega (arith, e, h)),
            ==_of_ne 2 j (λ e. omega (arith, e, h)),
          )
          (close_from_below (descriptors l) 0 p.fds j (omega arith) (omega (arith, h')));
    kept = λ j h h' ne.
        rw
          (
            ==_of_ne fd j ne,
            ==_of_ne 0 j (λ e. omega (arith, e, h)),
            ==_of_ne 1 j (λ e. omega (arith, e, h)),
            ==_of_ne 2 j (λ e. omega (arith, e, h)),
          )
          (close_from_other (descriptors l) 0 p.fds j (inr (omega (arith, h'))));
    no_umask = refl;
    own_session = refl;
    takes_hup = refl;
    root = refl;
    blocked = refl;
  }

  -- When getrlimit succeeds and the limit is at least three, `main` does one of these. It comes to
  -- its loop, detached, when it is the child and every call succeeds, `open` and `dup` among them;
  -- the parent ends with status 0; and otherwise, when some call fails, it ends with status 1.
  pub start_lem :
      (c : Calls) (p : Process) (l : Limit)
      → c.getrlimit ≡ some l
      → 3 ≤ descriptors l
      → ((fd : ℕ) × Succeeds c p l fd × (q : Process) × (start k c p ≡ runs q) × Detached l fd p q)
        ⊎ (((c.fork ≡ in_parent) × (start k c p ≡ ended 0))
            ⊎ ((c.fork ≢ in_parent) × ((fd : ℕ) → ¬ Succeeds c p l fd) × (start k c p ≡ ended 1)))
  start_lem c p l e h = elim (start_cases c p l e h) [
    | inl (fd, good, q) ↦ inl (fd, good, detached l fd p, q, detached-Detached l fd p)
    | inr other ↦ inr other
  ]
