-- ===== src/ProcessTasks/Moves.antt =====
-- Every step keeps the invariant.
use ics7_os.Common.{
  ℕ, zero, suc, ◌≡◌, refl, sym, ap, ap₂, append-nil, subst, ◌∙◌, inl, inr, true, false, List, [],
  ◌∷◌, ◌++◌, arith, if◌then◌else◌,
}
use ics7_os.Common.Kids.{Kid, first, second, set, set_all}
use ics7_os.ProcessTasks.{
  Task, task_1, task_2, task_3, WaitStatus, Line, forked, beginning, forking, telling, waiting,
  reporting, failed, returned, Child, born, spoke, replaced, done, reaped, State, greeting,
  next_fork, spoken, next_wait, Step, greet, fork_ok, fork_failed, tell, speak, return, exec_ok,
  exec_failed, other_ended, killed, wait_ok, report, Reach, start, later,
}
use ics7_os.ProcessTasks.Children.{
  is_reaped, is_born, born_at, Loops, InLoop, Here, Alive-born, same_total, more_total,
  unborn-not_reaped, sum_after, set_here,
}
use ics7_os.ProcessTasks.Lines.{
  same, about, about-append, greeting-Silent, spoken-Silent, told, about-told,
}
use ics7_os.ProcessTasks.Invariant.{pending, expected, Ended, Inv, to, printing, not_reaped, moving}

module _ (w : WaitStatus) where
  open w use {of_exit, of_signal}

  forked_too :
      (p : Task) (at : Kid → Child) (printed : List Line) (k : Kid)
      → Inv w p (forking k) at printed
      → Inv w p (telling k) (set at k born) printed
  forked_too p at printed k inv = record {
    born = born_now k inv.born;
    sum = same_total at k born gone ∙ inv.sum;
    in_loop = tt;
    lines =
        set_all (λ j c. about j printed ≡ expected w false j c) at k born
          (inv.lines k ∙ not_reaped w false false k (at k) born gone refl) inv.lines;
    status = set_all (λ _ c. Ended w c) at k born tt inv.status;
    here = tt;
  }
    where
      not_yet : (k : Kid) → born_at (forking k) k ≡ 0
      not_yet first = refl
      not_yet second = refl

      gone : is_reaped (at k) ≡ 0
      gone = unborn-not_reaped (at k) (inv.born k ∙ not_yet k)

      born_now :
          (k : Kid)
          → ((j : Kid) → is_born (at j) ≡ born_at (forking k) j)
          → (j : Kid) → is_born (set at k born j) ≡ born_at (telling k) j
      born_now first h first = refl
      born_now first h second = h second
      born_now second h first = h first
      born_now second h second = refl

  waited_too :
      (p : Task) (at : Kid → Child) (printed : List Line) (n : ℕ) (k : Kid) (status : ℕ)
      → at k ≡ done status
      → Inv w p (waiting n) at printed
      → Inv w p (reporting n k status) (set at k (reaped status)) printed
  waited_too p at printed n k status e inv = record {
    born = set_all (λ j c. is_born c ≡ 1) at k (reaped status) refl inv.born;
    sum = more_total at k status e ∙ ap suc inv.sum;
    in_loop = inv.in_loop.0;
    lines = now k e inv.lines;
    status =
        set_all (λ _ c. Ended w c) at k (reaped status) (subst (Ended w) e (inv.status k))
          inv.status;
    here = set_here at k (reaped status);
  }
    where
      now :
          (k : Kid)
          → at k ≡ done status
          → ((j : Kid) → about j printed ≡ expected w false j (at j))
          → (j : Kid) → about j printed ≡ expected w (same j k) j (set at k (reaped status) j)
      now first e h first = h first ∙ ap (expected w false first) e
      now first e h second = h second
      now second e h first = h first
      now second e h second = h second ∙ ap (expected w false second) e

  reported :
      (p : Task) (at : Kid → Child) (printed : List Line) (n : ℕ) (k : Kid) (status : ℕ)
      → Inv w p (reporting n k status) at printed
      → Inv w p (next_wait n) at (printed ++ told w k status)
  reported p at printed n k status inv = record {
    born = λ j. inv.born j ∙ all_born n j;
    sum = inv.sum ∙ sum_after p n at inv.in_loop inv.sum;
    in_loop = loop n inv.in_loop;
    lines = λ j.
        about-append j printed (told w k status)
        ∙ ap₂ ◌++◌ (inv.lines j) (about-told w j k status)
        ∙ heard k j inv.here
        ∙ ap (λ b. expected w b j (at j)) (sym (nothing_pending n j));
    status = inv.status;
    here = nothing_here n;
  }
    where
      all_born : (n : ℕ) (j : Kid) → 1 ≡ born_at (next_wait n) j
      all_born zero j = refl
      all_born (suc n) j = refl

      loop : (n : ℕ) → Loops p → InLoop p (next_wait n)
      loop zero h = (h, omega arith)
      loop (suc n) h = tt

      heard :
          (k j : Kid)
          → at k ≡ reaped status
          → expected w (same j k) j (at j) ++ (if same j k then told w k status else [])
            ≡ expected w false j (at j)
      heard first first e =
          ap (λ c. expected w true first c ++ told w first status) e
          ∙ sym (ap (expected w false first) e)
      heard first second e = append-nil _
      heard second first e = append-nil _
      heard second second e =
          ap (λ c. expected w true second c ++ told w second status) e
          ∙ sym (ap (expected w false second) e)

      nothing_pending : (n : ℕ) (j : Kid) → pending (next_wait n) j ≡ false
      nothing_pending zero j = refl
      nothing_pending (suc n) j = refl

      nothing_here : (n : ℕ) → Here (next_wait n) at
      nothing_here zero = tt
      nothing_here (suc n) = tt

  failed_born : (k j : Kid) → born_at (forking k) j ≡ born_at (failed k) j
  failed_born first j = refl
  failed_born second first = refl
  failed_born second second = refl

  told_too :
      (p : Task) (k : Kid) (at : Kid → Child) (printed : List Line)
      → Inv w p (telling k) at printed
      → Inv w p (next_fork p k) at printed
  told_too p first at printed inv =
      to w p (telling first) (forking second) at printed same_born refl (λ k. refl) tt tt inv
    where
      same_born : (k : Kid) → born_at (telling first) k ≡ born_at (forking second) k
      same_born first = refl
      same_born second = refl
  told_too task_1 second at printed inv =
      to w task_1 (telling second) returned at printed (λ k. refl) refl (λ k. refl) tt tt inv
  told_too task_2 second at printed inv =
      to w task_2 (telling second) (waiting 0) at printed (λ k. refl) refl (λ k. refl)
        (tt, omega arith) tt inv
  told_too task_3 second at printed inv =
      to w task_3 (telling second) (waiting 0) at printed (λ k. refl) refl (λ k. refl)
        (tt, omega arith) tt inv

  Step-Inv :
      {p : Task} {s t : State}
      → Inv w p s.parent s.at s.printed
      → Step w p s t
      → Inv w p t.parent t.at t.printed
  Step-Inv {p} {s} inv (greet e) =
      let here = subst (λ q. Inv w p q s.at s.printed) e inv in
      to w p beginning (forking first) s.at _ (λ k. refl) refl (λ k. refl) tt tt
        (printing w p beginning s.at s.printed (greeting p) (greeting-Silent p) here)
  Step-Inv {p} {s} inv (fork_ok k e) =
      forked_too p s.at s.printed k (subst (λ q. Inv w p q s.at s.printed) e inv)
  Step-Inv {p} {s} inv (fork_failed k e) =
      to w p (forking k) (failed k) s.at s.printed (failed_born k) refl (λ k. refl) tt tt
        (subst (λ q. Inv w p q s.at s.printed) e inv)
  Step-Inv {p} {s} inv (tell k e) = told_too p k s.at _ (
      printing w p (telling k) s.at s.printed (forked k ∷ []) (λ j. refl)
        (subst (λ q. Inv w p q s.at s.printed) e inv))
  Step-Inv {p} {s} inv (speak k e) =
      printing w p _ _ s.printed (spoken p k) (spoken-Silent p k)
        (moving w p _ s.at s.printed k spoke (ap is_born e) (ap is_reaped e) refl refl tt inv)
  Step-Inv {p} {s} inv (return k loop e) =
      moving w p _ s.at s.printed k (done (of_exit 0)) (ap is_born e) (ap is_reaped e) refl refl
        (inl (0, refl)) inv
  Step-Inv {p} {s} inv (exec_ok k task e) =
      moving w p _ s.at s.printed k replaced (ap is_born e) (ap is_reaped e) refl refl tt inv
  Step-Inv {p} {s} inv (exec_failed k task e) =
      moving w p _ s.at s.printed k (done (of_exit 1)) (ap is_born e) (ap is_reaped e) refl refl
        (inl (1, refl)) inv
  Step-Inv {p} {s} inv (other_ended k code e) =
      moving w p _ s.at s.printed k (done (of_exit code)) (ap is_born e) (ap is_reaped e) refl refl
        (inl (code, refl)) inv
  Step-Inv {p} {s} inv (killed k signal low high alive) =
      moving w p _ s.at s.printed k (done (of_signal signal)) (Alive-born (s.at k) alive).0
        (Alive-born (s.at k) alive).1 refl refl (inr (signal, low, high, refl)) inv
  Step-Inv {p} {s} inv (wait_ok n k {status} e here) =
      waited_too p s.at s.printed n k status here (subst (λ q. Inv w p q s.at s.printed) e inv)
  Step-Inv {p} {s} inv (report n k {status} e) =
      reported p s.at s.printed n k status (subst (λ q. Inv w p q s.at s.printed) e inv)

  pub Reach-Inv : {p : Task} {n : ℕ} {s : State} → Reach w p n s → Inv w p s.parent s.at s.printed
  Reach-Inv start = record {
    born = λ k. refl;
    sum = refl;
    in_loop = tt;
    lines = λ k. refl;
    status = λ k. tt;
    here = tt;
  }
  Reach-Inv (later r step) = Step-Inv (Reach-Inv r) step
