-- ===== src/Daemon/LockFile.antt =====
-- `already_running` of unix-lab-03/main.c, in several processes at once: who gets past the lock on
-- the file, and what the file says. A process is named by its number.
use ics7_os.Common.{
  ℕ, ◌≡◌, ◌≢◌, refl, subst, ◌∙◌, ◌⊎◌, inl, inr, Bool, true, false, Option, none, some, List, [],
  ◌∷◌, ◌++◌, arith, ◌==◌, if◌then◌else◌,
}
use ics7_os.Common.Threads.{move, move_all}
use ics7_os.Daemon.{Lock, acquired}

-- `setlk holder i` is F_SETLK, by process `i`, of a lock on the whole file, whose holder is given.
-- `digits` is what sprintf writes for "%ld".
pub record Library : Type 0 where
  pub setlk : Option ℕ → ℕ → Lock × Option ℕ
  pub digits : ℕ → List ℕ
  pub setlk_acquired :
      (x : Option ℕ) (i : ℕ) {y : Option ℕ}
      → setlk x i ≡ (acquired, y)
      → ((x ≡ none) ⊎ (x ≡ some i)) × (y ≡ some i)
  pub setlk_refused :
      (x : Option ℕ) (i : ℕ) {r : Lock} {y : Option ℕ} → setlk x i ≡ (r, y) → r ≢ acquired → y ≡ x

-- Where a process is: before the call that is named, in its loop, or ended. `cut` says whether its
-- ftruncate succeeded, and `said` whether its write did too, with all its bytes. The program looks
-- at neither result.
pub data Phase : Type 0 where
  open_file lock_file truncate : Phase
  write_pid : (cut : Bool) → Phase
  running : (said : Bool) → Phase
  gone : (status : ℕ) → Phase

pub record System : Type 0 where
  pub holder : Option ℕ
  pub text : List ℕ
  pub at : ℕ → Phase

-- The end of a process releases its lock.
abbrev pub released : Option ℕ → ℕ → Option ℕ
released none i = none
released (some j) i = if j == i then none else some j

-- `write` at offset 0.
abbrev pub written : List ℕ → List ℕ → List ℕ
written [] old = old
written (c ∷ cs) [] = c ∷ cs
written (c ∷ cs) (d ∷ old) = c ∷ written cs old

module _ (l : Library) where
  open l use {setlk, digits}

  pub data Step (s : System) : System → Type 0 where
    opened : (i : ℕ) → s.at i ≡ open_file → Step s (record s { at = move s.at i lock_file })
    not_opened : (i : ℕ) → s.at i ≡ open_file → Step s (record s { at = move s.at i (gone 1) })
    locked :
        (i : ℕ) {x : Option ℕ}
        → s.at i ≡ lock_file
        → setlk s.holder i ≡ (acquired, x)
        → Step s (record s { holder = x; at = move s.at i truncate })
    not_locked :
        (i : ℕ) {r : Lock} {x : Option ℕ}
        → s.at i ≡ lock_file
        → setlk s.holder i ≡ (r, x)
        → r ≢ acquired
        → Step s (record s { holder = x; at = move s.at i (gone 1) })
    truncated :
        (i : ℕ)
        → s.at i ≡ truncate
        → Step s (record s { text = []; at = move s.at i (write_pid true) })
    not_truncated :
        (i : ℕ) → s.at i ≡ truncate → Step s (record s { at = move s.at i (write_pid false) })
    wrote :
        (i : ℕ) {cut : Bool}
        → s.at i ≡ write_pid cut
        → Step s (record s {
          text = written (digits i ++ 0 ∷ []) s.text;
          at = move s.at i (running cut);
        })
    -- `write` fails, or writes a part only.
    not_written :
        (i : ℕ) {cut : Bool} (part rest : List ℕ)
        → s.at i ≡ write_pid cut
        → digits i ++ 0 ∷ [] ≡ part ++ rest
        → rest ≢ []
        → Step s (record s { text = written part s.text; at = move s.at i (running false) })
    -- A process may be ended at any time.
    ends :
        (i status : ℕ)
        → Step s (record s { holder = released s.holder i; at = move s.at i (gone status) })

  -- `text` is what an earlier daemon left.
  pub data Reach (text : List ℕ) : System → Type 0 where
    booted : Reach text (record { holder = none; text = text; at = λ _. open_file })
    later : {s t : System} → Reach text s → Step s t → Reach text t

-- Past the lock, and not ended.
abbrev pub holds : Phase → ℕ
holds truncate = 1
holds (write_pid _) = 1
holds (running _) = 1
holds _ = 0

module _ (l : Library) where
  -- What the file says while process `j` is at a phase.
  abbrev Says : List ℕ → ℕ → Phase → Type 0
  Says text j (write_pid true) = text ≡ []
  Says text j (running true) = text ≡ l.digits j ++ 0 ∷ []
  Says text j _ = Unit

  record Inv (s : System) : Type 0 where
    owned : (j : ℕ) → holds (s.at j) ≡ 1 → s.holder ≡ some j
    says : (j : ℕ) → Says s.text j (s.at j)

  Says-other : (text : List ℕ) (j : ℕ) (p : Phase) → ¬ (holds p ≡ 1) → Says text j p
  Says-other text j open_file h = tt
  Says-other text j lock_file h = tt
  Says-other text j truncate h = tt
  Says-other text j (write_pid _) h = absurd (h refl)
  Says-other text j (running _) h = absurd (h refl)
  Says-other text j (gone _) h = tt

  -- The end of a process keeps the lock of another one.
  released_other : (x : Option ℕ) (i j : ℕ) → i ≢ j → x ≡ some j → released x i ≡ some j
  released_other none i j ne e = absurd (cc e)
  released_other (some m) i j ne e = ground (arith, e, ne)

  written_nil : (cs : List ℕ) → written cs [] ≡ cs
  written_nil [] = refl
  written_nil (c ∷ cs) = refl

  Says-wrote :
      (text : List ℕ) (i : ℕ) (cut : Bool)
      → Says text i (write_pid cut)
      → Says (written (l.digits i ++ 0 ∷ []) text) i (running cut)
  Says-wrote text i true empty = rw empty (written_nil (l.digits i ++ 0 ∷ []))
  Says-wrote text i false any = tt

  module _ {s : System} (inv : Inv s) (i : ℕ) where
    -- The holder changes only as far as no other process past the lock minds.
    Inv-move :
        (x : Option ℕ) (p : Phase)
        → ((j : ℕ) → i ≢ j → s.holder ≡ some j → x ≡ some j)
        → ¬ (holds p ≡ 1)
        → Inv (record s { holder = x; at = move s.at i p })
    Inv-move x p keep out = record {
      owned =
          move_all (λ j q. holds q ≡ 1 → x ≡ some j) s.at i p (λ h. absurd (out h))
            (λ j ne h. keep j ne (inv.owned j h));
      says =
          move_all (λ j q. Says s.text j q) s.at i p (Says-other s.text i p out)
            (λ j _. inv.says j);
    }

    -- Nobody else is past the lock that `i` holds.
    alone : s.holder ≡ some i → (j : ℕ) → i ≢ j → ¬ (holds (s.at j) ≡ 1)
    alone own j ne h = ne (cc (own, inv.owned j h))

    Inv-write :
        (text : List ℕ) (p : Phase)
        → s.holder ≡ some i
        → Says text i p
        → Inv (record s { text = text; at = move s.at i p })
    Inv-write text p own said = record {
      owned =
          move_all (λ j q. holds q ≡ 1 → s.holder ≡ some j) s.at i p (λ _. own)
            (λ j _. inv.owned j);
      says =
          move_all (λ j q. Says text j q) s.at i p said
            (λ j ne. Says-other text j (s.at j) (alone own j ne));
    }

    Inv-lock :
        {x : Option ℕ}
        → ((s.holder ≡ none) ⊎ (s.holder ≡ some i)) × (x ≡ some i)
        → Inv (record s { holder = x; at = move s.at i truncate })
    Inv-lock {x} (before, after) = record {
      owned =
          move_all (λ j q. holds q ≡ 1 → x ≡ some j) s.at i truncate (λ _. after)
            (λ j ne h. absurd (nobody before j ne (inv.owned j h)));
      says = move_all (λ j q. Says s.text j q) s.at i truncate tt (λ j _. inv.says j);
    }
      where
        nobody : (s.holder ≡ none) ⊎ (s.holder ≡ some i) → (j : ℕ) → i ≢ j → s.holder ≢ some j
        nobody (inl free) j ne e = cc (free, e)
        nobody (inr mine) j ne e = ne (cc (mine, e))

  Step-Inv : {s t : System} → Inv s → Step l s t → Inv t
  Step-Inv {s} inv (opened i here) =
      Inv-move inv i s.holder lock_file (λ j _ e. e) (λ h. omega (arith, h))
  Step-Inv {s} inv (not_opened i here) =
      Inv-move inv i s.holder (gone 1) (λ j _ e. e) (λ h. omega (arith, h))
  Step-Inv {s} inv (locked i {x} here e) = Inv-lock inv i (l.setlk_acquired s.holder i e)
  Step-Inv {s} inv (not_locked i {r} {x} here e ne) =
      Inv-move inv i x (gone 1) (λ j _ own. l.setlk_refused s.holder i e ne ∙ own)
        (λ h. omega (arith, h))
  Step-Inv {s} inv (truncated i here) =
      Inv-write inv i [] (write_pid true) (inv.owned i (rw here)) refl
  Step-Inv {s} inv (not_truncated i here) =
      Inv-write inv i s.text (write_pid false) (inv.owned i (rw here)) tt
  Step-Inv {s} inv (wrote i {cut} here) =
      Inv-write inv i (written (l.digits i ++ 0 ∷ []) s.text) (running cut) (inv.owned i (rw here))
        (Says-wrote s.text i cut (subst (Says s.text i) here (inv.says i)))
  Step-Inv {s} inv (not_written i part rest here e left_out) =
      Inv-write inv i (written part s.text) (running false) (inv.owned i (rw here)) tt
  Step-Inv {s} inv (ends i status) =
      Inv-move inv i (released s.holder i) (gone status) (λ j ne. released_other s.holder i j ne)
        (λ h. omega (arith, h))

  Reach-Inv : {text : List ℕ} {s : System} → Reach l text s → Inv s
  Reach-Inv booted = record { owned = λ j h. absurd (omega (arith, h)); says = λ j. tt }
  Reach-Inv (later r step) = Step-Inv (Reach-Inv r) step

  module _ (text : List ℕ) (s : System) (r : Reach l text s) where
    -- In every reachable state, two processes that got past the lock and have not ended are the
    -- same.
    pub one_daemon : (i j : ℕ) → holds (s.at i) ≡ 1 → holds (s.at j) ≡ 1 → i ≡ j
    one_daemon i j h h' = let inv = Reach-Inv r in cc (inv.owned i h, inv.owned j h')

    -- In every reachable state, while a process is in its loop whose own ftruncate and write
    -- succeeded, the file says its number and nothing else, whatever it said before, whoever else
    -- tried, and whichever calls of others failed.
    pub pid_file : (i : ℕ) → s.at i ≡ running true → s.text ≡ l.digits i ++ 0 ∷ []
    pid_file i here = subst (Says s.text i) here ((Reach-Inv r).says i)
