-- ===== src/PipeTasks/Both.antt =====
-- What the parent prints when `sig_flag` is set from the start, as in unix-lab-02/task-4.c.
use ics7_os.Common.{
  ℕ, zero, suc, ◌+◌, ◌≤◌, ◌≡◌, refl, sym, ap, subst, ◌∙◌, ◌⊎◌, inl, inr, Bool, true, false, List,
  [], ◌∷◌, ◌++◌, append-nil, length, arith,
}
use ics7_os.Common.Kids.{Kid, first, second, set, set_all}
use ics7_os.PipeTasks.{
  msg, ended, Child, unborn, born, writing, exited, reaped, State, overlay, c_string, Step, fork_ok,
  fork_failed, caught_parent, caught, saw_signal, no_signal, wrote, killed, waited, did_read,
  did_print, Reach, Task4, begun, later,
}
use ics7_os.PipeTasks.Received.{
  has_written, is_reaped, IsSent, is_reaped-le, at_parent, Reach-Inv, received,
}

abbrev pub zeros : ℕ → List ℕ
zeros zero = []
zeros (suc n) = 0 ∷ zeros n

-- Bytes that cover all but NULs leave NULs behind them.
overlay-zeros :
    (sent old : List ℕ) (n : ℕ)
    → length old ≤ length sent
    → (m : ℕ) × (overlay sent (old ++ zeros n) ≡ sent ++ zeros m)
overlay-zeros [] [] n h = (n, refl)
overlay-zeros [] (d ∷ old) n h = absurd (omega arith)
overlay-zeros (c ∷ cs) [] zero h = (0, sym (append-nil (c ∷ cs)))
overlay-zeros (c ∷ cs) [] (suc n) h =
    let (m, e) = overlay-zeros cs [] n (omega arith) in (m, ap (λ l. c ∷ l) e)
overlay-zeros (c ∷ cs) (d ∷ old) n h =
    let (m, e) = overlay-zeros cs old n (omega arith) in (m, ap (λ l. c ∷ l) e)

-- A child that returned, or was waited for, and wrote nothing.
abbrev silent : Child → Bool
silent (exited false) = true
silent (reaped false) = true
silent _ = false

record Loud (s : State) : Type 0 where
  parent_on : s.parent_flag ≡ true
  on : (k : Kid) → s.flag k ≡ true
  told : (k : Kid) → s.signaled k ≡ false → silent (s.at k) ≡ false

-- A step of one child, which then is not silent.
told_move :
    (s : State) (k : Kid) (c : Child)
    → silent c ≡ false
    → Loud s
    → (j : Kid) → s.signaled j ≡ false
    → silent (set s.at k c j) ≡ false
told_move s k c e h =
    set_all (λ j c. s.signaled j ≡ false → silent c ≡ false) s.at k c (λ _. e) h.told

-- A child that a signal ended is not one of those that `told` is about.
told_killed :
    (s : State) (k : Kid)
    → Loud s
    → (j : Kid) → set s.signaled k true j ≡ false
    → silent (set s.at k (exited false) j) ≡ false
told_killed s first h first q = absurd (cc q)
told_killed s first h second q = h.told second q
told_killed s second h first q = h.told first q
told_killed s second h second q = absurd (cc q)

Step-Loud : {s t : State} → Loud s → Step s t → Loud t
Step-Loud {s} h (fork_ok k e) = record {
  parent_on = h.parent_on;
  on = set_all (λ _ b. b ≡ true) s.flag k s.parent_flag h.parent_on h.on;
  told = told_move s k born refl h;
}
Step-Loud {s} h (fork_failed k e) = record { parent_on = h.parent_on; on = h.on; told = h.told }
Step-Loud {s} h caught_parent = record { parent_on = refl; on = h.on; told = h.told }
Step-Loud {s} h (caught k) = record {
  parent_on = h.parent_on;
  on = set_all (λ _ b. b ≡ true) s.flag k true refl h.on;
  told = h.told;
}
Step-Loud {s} h (saw_signal k e on) = record {
  parent_on = h.parent_on;
  on = h.on;
  told = told_move s k writing refl h;
}
Step-Loud {s} h (no_signal k e off) = absurd (cc (off, h.on k))
Step-Loud {s} h (wrote k e) = record {
  parent_on = h.parent_on;
  on = h.on;
  told = told_move s k (exited true) refl h;
}
Step-Loud {s} h (killed k e open_end) = record {
  parent_on = h.parent_on;
  on = h.on;
  told = told_killed s k h;
}
Step-Loud {s} h (waited n k {b} e small here) = record {
  parent_on = h.parent_on;
  on = h.on;
  told =
      set_all (λ j c. s.signaled j ≡ false → silent c ≡ false) s.at k (reaped b)
        (λ q. loud b (ap silent (sym here) ∙ h.told k q)) h.told;
}
  where
    loud : (b : Bool) → silent (exited b) ≡ false → silent (reaped b) ≡ false
    loud true e = refl
    loud false e = e
Step-Loud {s} h (did_read e ready) = record { parent_on = h.parent_on; on = h.on; told = h.told }
Step-Loud {s} h (did_print e) = record { parent_on = h.parent_on; on = h.on; told = h.told }

Reach-Loud : {row : List ℕ} {s : State} → Reach true row s → Loud s
Reach-Loud begun = record { parent_on = refl; on = λ k. refl; told = λ k q. refl }
Reach-Loud (later r step) = Step-Loud (Reach-Loud r) step

-- A child that was waited for and is not silent wrote.
reaped_wrote : (c : Child) → is_reaped c ≡ 1 → silent c ≡ false → has_written c ≡ true
reaped_wrote (reaped true) e h = refl
reaped_wrote (reaped false) e h = sym h
reaped_wrote unborn e h = absurd (omega (arith, e))
reaped_wrote born e h = absurd (omega (arith, e))
reaped_wrote writing e h = absurd (omega (arith, e))
reaped_wrote (exited b) e h = absurd (omega (arith, e))

c_string-zeros : (m : ℕ) → c_string (zeros m) ≡ []
c_string-zeros zero = refl
c_string-zeros (suc m) = refl

-- Both messages, in one order or the other.
abbrev pub Printed : List ℕ → Type 0
Printed p = (p ≡ msg first ++ msg second) ⊎ (p ≡ msg second ++ msg first)

c_string-both :
    (sent old : List ℕ) (n : ℕ)
    → length old ≤ 16
    → IsSent true true sent
    → Printed (c_string (overlay sent (old ++ zeros n)))
c_string-both sent old n h (inl e) =
    let (m, q) = overlay-zeros (msg first ++ msg second) old n (omega arith) in
    inl (rw e (rw q (ap (λ l. (msg first ++ msg second) ++ l) (c_string-zeros m))))
c_string-both sent old n h (inr e) =
    let (m, q) = overlay-zeros (msg second ++ msg first) old n (omega arith) in
    inr (rw e (rw q (ap (λ l. (msg second ++ msg first) ++ l) (c_string-zeros m))))

-- In task-4.c, where `msg[0]` holds at most 16 bytes, of two pointers, and then NULs: when the
-- parent has ended with status 0, and no signal ended a child before it wrote, the parent printed
-- both messages, whole, in one order or the other.
pub both_received :
    (s : State) (old : List ℕ) (n : ℕ)
    → length old ≤ 16
    → Task4 (old ++ zeros n) s
    → s.parent ≡ ended 0
    → ((k : Kid) → s.signaled k ≡ false)
    → Printed s.printed
both_received s old n h r e quiet =
    let (sent, is, printed) = received (old ++ zeros n) true s r e in
    let both : is_reaped (s.at first) + is_reaped (s.at second) ≡ 2 =
      (at_parent (old ++ zeros n) s e (Reach-Inv (old ++ zeros n) r)).0 in
    let loud = (Reach-Loud r).told in
    let one =
      reaped_wrote (s.at first)
        (omega (arith, both, is_reaped-le (s.at first), is_reaped-le (s.at second)))
        (loud first (quiet first)) in
    let two =
      reaped_wrote (s.at second)
        (omega (arith, both, is_reaped-le (s.at first), is_reaped-le (s.at second)))
        (loud second (quiet second)) in
    subst Printed (sym printed) (
      c_string-both sent old n h (
        subst (λ b. IsSent b true sent) one
          (subst (λ b. IsSent (has_written (s.at first)) b sent) two is)))
