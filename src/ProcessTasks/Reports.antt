-- ===== src/ProcessTasks/Reports.antt =====
-- What a parent that waits has printed of its children.
use ics7_os.Common.{
  ℕ, ◌%◌, ◌<◌, ◌≡◌, ◌≢◌, refl, sym, ap, subst, ◌∙◌, ◌⊎◌, inl, inr, true, false, List, [], ◌∷◌,
}
use ics7_os.Common.Kids.{Kid}
use ics7_os.ProcessTasks.{
  Task, task_1, WaitStatus, Line, waited, exited_with, terminated_with, returned, reaped, State,
  describe, Reach,
}
use ics7_os.ProcessTasks.Children.{both_reaped, two_reaped}
use ics7_os.ProcessTasks.Lines.{about, told}
use ics7_os.ProcessTasks.Invariant.{IsStatus, expected, Ended, Inv}
use ics7_os.ProcessTasks.Moves.{Reach-Inv}

module _ (w : WaitStatus) where
  open w use {of_exit, of_signal}

  -- The two lines for a child that ended with an exit code, or by a signal.
  abbrev pub Told : Kid → ℕ → List Line → Type 0
  Told k status ls =
      ((code : ℕ) × (status ≡ of_exit code)
        × (ls ≡ waited k status ∷ exited_with (code % 256) k ∷ []))
      ⊎ ((signal : ℕ) × (status ≡ of_signal signal)
          × (ls ≡ waited k status ∷ terminated_with signal k ∷ []))

  -- What wait(2) documents.
  pub record IsWaitStatus : Type 0 where
    pub exit :
        (code : ℕ)
        → (w.if_exited (of_exit code) ≡ true) × (w.exit_status (of_exit code) ≡ code % 256)
    pub signal :
        (n : ℕ)
        → 0 < n
        → n < 65
        → (w.if_exited (of_signal n) ≡ false)
          × (w.if_signaled (of_signal n) ≡ true)
          × (w.term_sig (of_signal n) ≡ n)

  told_status :
      IsWaitStatus → (k : Kid) (status : ℕ) → IsStatus w status → Told k status (told w k status)
  unfolding describe
  told_status d k status (inl (code, e)) =
      inl (code, e, rw (e, (d.exit code).0, (d.exit code).1) refl)
  told_status d k status (inr (n, low, high, e)) =
      let (not_exit, by_signal, which) = d.signal n low high in
      inr (n, e, rw (e, not_exit, by_signal, which) refl)

  -- With the macros of <sys/wait.h> as documented: when main of task-2.c or task-3.c has returned
  -- 0, it waited for both children, and printed of each of them two lines: one with its status, and
  -- one with its exit code modulo 256, or with the signal that ended it.
  pub waited_both :
      IsWaitStatus
      → (p : Task) (n : ℕ) (s : State) → p ≢ task_1
      → Reach w p n s
      → s.parent ≡ returned
      → (k : Kid) → (status : ℕ) × (s.at k ≡ reaped status) × Told k status (about k s.printed)
  waited_both d p n s two r e k =
      let inv = subst (λ q. Inv w p q s.at s.printed) e (Reach-Inv w r) in
      let (status, is) = both_reaped s.at (inv.sum ∙ two_reaped p two) k in
      (
        status,
        is,
        subst (Told k status) (sym (inv.lines k ∙ ap (expected w false k) is))
            (told_status d k status (subst (Ended w) is (inv.status k))),
      )
