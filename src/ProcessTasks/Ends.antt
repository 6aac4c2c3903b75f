-- ===== src/ProcessTasks/Ends.antt =====
-- Every run of the three programs comes to an end, with the parent at the end of `main`.
use ics7_os.Common.{
  ℕ, zero, suc, ◌+◌, ◌≤◌, ◌<◌, ◌≡◌, refl, sym, ap, subst, ◌⊎◌, inl, inr, arith, dec_lt,
}
use ics7_os.Common.Kids.{Kid, first, second, set}
use ics7_os.ProcessTasks.{
  Task, task_1, task_2, task_3, WaitStatus, Parent, beginning, forking, telling, waiting, reporting,
  failed, returned, Child, unborn, born, spoke, replaced, done, reaped, State, next_fork, next_wait,
  Alive, Step, greet, fork_ok, fork_failed, tell, speak, return, exec_ok, exec_failed, other_ended,
  killed, wait_ok, report, Reach, start, later,
}
use ics7_os.ProcessTasks.Children.{is_reaped, is_born, is_reaped-le}
use ics7_os.ProcessTasks.Invariant.{Inv}
use ics7_os.ProcessTasks.Moves.{Reach-Inv}

-- The steps that are left, at most.
abbrev to_go : Child → ℕ
to_go unborn = 0
to_go born = 4
to_go spoke = 3
to_go replaced = 2
to_go (done status) = 1
to_go (reaped status) = 0

abbrev rounds_to_go : ℕ → ℕ
rounds_to_go zero = 4
rounds_to_go (suc n) = 2

abbrev parent_to_go : Parent → ℕ
parent_to_go beginning = 17
parent_to_go (forking first) = 16
parent_to_go (telling first) = 11
parent_to_go (forking second) = 10
parent_to_go (telling second) = 5
parent_to_go (waiting n) = rounds_to_go n
parent_to_go (reporting zero k status) = 3
parent_to_go (reporting (suc n) k status) = 1
parent_to_go (failed k) = 0
parent_to_go returned = 0

abbrev left : Parent → (Kid → Child) → ℕ
left q at = parent_to_go q + to_go (at first) + to_go (at second)

left-set :
    (q : Parent) (at : Kid → Child) (k : Kid) (c : Child)
    → to_go c < to_go (at k)
    → left q (set at k c) < left q at
left-set q at first c h = omega (arith, h)
left-set q at second c h = omega (arith, h)

left-to :
    (q q' : Parent) (at : Kid → Child) → parent_to_go q' < parent_to_go q → left q' at < left q at
left-to q q' at h = omega (arith, h)

left-Alive : (c : Child) → Alive c → 1 < to_go c
left-Alive unborn a = elim a [ ]
left-Alive born a = omega arith
left-Alive spoke a = omega arith
left-Alive replaced a = omega arith
left-Alive (done status) a = elim a [ ]
left-Alive (reaped status) a = elim a [ ]

next_fork_left : (p : Task) (k : Kid) → parent_to_go (next_fork p k) < parent_to_go (telling k)
next_fork_left p first = omega arith
next_fork_left task_1 second = omega arith
next_fork_left task_2 second = omega arith
next_fork_left task_3 second = omega arith

failed_left : (k : Kid) → 0 < parent_to_go (forking k)
failed_left first = omega arith
failed_left second = omega arith

fork_left : (at : Kid → Child) (k : Kid) → left (telling k) (set at k born) < left (forking k) at
fork_left at first = omega arith
fork_left at second = omega arith

wait_left :
    (at : Kid → Child) (n : ℕ) (k : Kid) (status : ℕ)
    → at k ≡ done status
    → left (reporting n k status) (set at k (reaped status)) < left (waiting n) at
wait_left at zero first status e = omega (arith, ap to_go e)
wait_left at zero second status e = omega (arith, ap to_go e)
wait_left at (suc n) first status e = omega (arith, ap to_go e)
wait_left at (suc n) second status e = omega (arith, ap to_go e)

report_left :
    (n : ℕ) (k : Kid) (status : ℕ)
    → parent_to_go (next_wait n) < parent_to_go (reporting n k status)
report_left zero k status = omega arith
report_left (suc n) k status = omega arith

module _ (w : WaitStatus) where
  -- Every step takes one off.
  Step-left : {p : Task} {s t : State} → Step w p s t → left t.parent t.at < left s.parent s.at
  Step-left {p} {s} (greet e) =
      left-to s.parent (forking first) s.at (omega (arith, ap parent_to_go e))
  Step-left {p} {s} (fork_ok k e) =
      subst (λ q. left (telling k) (set s.at k born) < left q s.at) (sym e) (fork_left s.at k)
  Step-left {p} {s} (fork_failed k e) =
      left-to s.parent (failed k) s.at (subst (λ q. 0 < parent_to_go q) (sym e) (failed_left k))
  Step-left {p} {s} (tell k e) =
      left-to s.parent (next_fork p k) s.at
        (subst (λ q. parent_to_go (next_fork p k) < parent_to_go q) (sym e) (next_fork_left p k))
  Step-left {p} {s} (speak k e) = left-set s.parent s.at k spoke (omega (arith, ap to_go e))
  Step-left {p} {s} (return k loop e) = left-set s.parent s.at k _ (omega (arith, ap to_go e))
  Step-left {p} {s} (exec_ok k task e) =
      left-set s.parent s.at k replaced (omega (arith, ap to_go e))
  Step-left {p} {s} (exec_failed k task e) = left-set s.parent s.at k _ (omega (arith, ap to_go e))
  Step-left {p} {s} (other_ended k code e) = left-set s.parent s.at k _ (omega (arith, ap to_go e))
  Step-left {p} {s} (killed k signal low high alive) =
      left-set s.parent s.at k _ (left-Alive (s.at k) alive)
  Step-left {p} {s} (wait_ok n k {status} e here) =
      subst (λ q. left (reporting n k status) (set s.at k (reaped status)) < left q s.at) (sym e)
        (wait_left s.at n k status here)
  Step-left {p} {s} (report n k {status} e) =
      left-to s.parent (next_wait n) s.at
        (subst (λ q. parent_to_go (next_wait n) < parent_to_go q) (sym e) (report_left n k status))

  Reach-left : {p : Task} {n : ℕ} {s : State} → Reach w p n s → n + left s.parent s.at ≤ 17
  Reach-left start = omega arith
  Reach-left (later r step) = omega (arith, Reach-left r, Step-left step)

  -- A child that was born and not waited for can take a step, or is done.
  child_steps :
      (p : Task) (s : State) (k : Kid) (c : Child)
      → s.at k ≡ c
      → is_born c ≡ 1
      → is_reaped c ≡ 0
      → ((t : State) × Step w p s t) ⊎ ((status : ℕ) × (s.at k ≡ done status))
  child_steps p s k unborn e b r = absurd (omega (arith, b))
  child_steps p s k born e b r = inl (_, speak k e)
  child_steps task_1 s k spoke e b r = inl (_, return k (λ q. absurd (cc q)) e)
  child_steps task_2 s k spoke e b r = inl (_, return k (λ q. absurd (cc q)) e)
  child_steps task_3 s k spoke e b r = inl (_, exec_ok k refl e)
  child_steps p s k replaced e b r = inl (_, other_ended k 0 e)
  child_steps p s k (done status) e b r = inr (status, e)
  child_steps p s k (reaped status) e b r = absurd (omega (arith, r))

  -- Of the children that the parent waits for, one can take a step, or is done.
  wait_steps :
      (p : Task) (s : State) (n : ℕ)
      → Inv w p s.parent s.at s.printed
      → s.parent ≡ waiting n
      → (t : State) × Step w p s t
  wait_steps p s n inv e =
      let here = subst (λ q. Inv w p q s.at s.printed) e inv in
      elim (dec_lt (is_reaped (s.at first)) 1) [
        | yes h ↦ of_child first (here.born first) (omega (arith, h))
        | no h ↦
            of_child second (here.born second)
              (omega (arith, h, here.sum, here.in_loop.1, is_reaped-le (s.at first)))
      ]
    where
      of_child :
          (k : Kid) → is_born (s.at k) ≡ 1 → is_reaped (s.at k) ≡ 0 → (t : State) × Step w p s t
      of_child k b r = elim (child_steps p s k (s.at k) refl b r) [
        | inl h ↦ h
        | inr h ↦ (_, wait_ok n k e h.1)
      ]

  moves_on :
      (p : Task) (s : State) (q : Parent)
      → Inv w p s.parent s.at s.printed
      → s.parent ≡ q
      → (s.parent ≡ returned) ⊎ ((k : Kid) × (s.parent ≡ failed k)) ⊎ ((t : State) × Step w p s t)
  moves_on p s beginning inv e = inr (inr (_, greet e))
  moves_on p s (forking k) inv e = inr (inr (_, fork_ok k e))
  moves_on p s (telling k) inv e = inr (inr (_, tell k e))
  moves_on p s (waiting n) inv e = inr (inr (wait_steps p s n inv e))
  moves_on p s (reporting n k status) inv e = inr (inr (_, report n k e))
  moves_on p s (failed k) inv e = inr (inl (k, e))
  moves_on p s returned inv e = inl e

  -- A run of task-1.c, task-2.c or task-3.c has at most 17 steps, of its three processes together,
  -- where the program that execl starts counts as one; and unless the parent has returned, or a
  -- fork failed, there is a next step.
  pub run_ends :
      (p : Task) (n : ℕ) (s : State)
      → Reach w p n s
      → (n ≤ 17)
        × ((s.parent ≡ returned)
            ⊎ ((k : Kid) × (s.parent ≡ failed k))
            ⊎ ((t : State) × Step w p s t))
  run_ends p n s r = (omega (arith, Reach-left r), moves_on p s s.parent (Reach-Inv w r) refl)
