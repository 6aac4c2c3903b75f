-- ===== src/Daemon/Signals.antt =====
-- `thr_fn` of unix-lab-03/main.c: the thread that takes the signals. What sigwait gives, call by
-- call, is a list of its result and the number of the signal.
use mathlib.Core.List.{map}
use ics7_os.Common.{
  ℕ, ◌≡◌, ◌≢◌, refl, ap, sym, ◌∙◌, append-nil, not, Option, none, some, List, [], ◌∷◌, ◌++◌, All,
  arith, ◌==◌, if◌then◌else◌, ==_self, ==_of_ne,
}

-- What is written to the log.
pub data Entry : Type 0 where
  wait_failed reads_config got_term : Entry
  unexpected : ℕ → Entry

-- The numbers of SIGHUP and SIGTERM are those of <signal.h>.
module _ (sighup sigterm : ℕ) where
  -- The log, and the status of the exit; `none` while the thread waits for another signal.
  unfoldable pub thr_fn : List (ℕ × ℕ) → List Entry × Option ℕ
  thr_fn [] = ([], none)
  thr_fn ((err, signo) ∷ ws) =
      let rest = thr_fn ws in
      if not (err == 0)
      then (wait_failed ∷ [], some 1)
      else if signo == sighup
      then (reads_config ∷ rest.0, rest.1)
      else if signo == sigterm
      then (got_term ∷ [], some 0)
      else (unexpected signo ∷ rest.0, rest.1)

  -- The call succeeded, and the signal is not SIGTERM.
  abbrev pub GoesOn : ℕ × ℕ → Type 0
  GoesOn w = (w.0 ≡ 0) × (w.1 ≢ sigterm)

  abbrev pub entry : ℕ × ℕ → Entry
  entry w = if w.1 == sighup then reads_config else unexpected w.1

  step :
      (err signo : ℕ) (ws : List (ℕ × ℕ))
      → err ≡ 0
      → signo ≢ sigterm
      → thr_fn ((err, signo) ∷ ws) ≡ (entry (err, signo) ∷ (thr_fn ws).0, (thr_fn ws).1)
  unfolding thr_fn
  step err signo ws e ne = rw e (ground (arith, ==_of_ne signo sigterm ne))

  goes_on :
      (ws rest : List (ℕ × ℕ))
      → All GoesOn ws
      → thr_fn (ws ++ rest) ≡ (map entry ws ++ (thr_fn rest).0, (thr_fn rest).1)
  goes_on [] rest h = refl
  goes_on ((err, signo) ∷ ws) rest h =
      step err signo (ws ++ rest) h.0.0 h.0.1
      ∙ ap (λ r. (entry (err, signo) ∷ r.0, r.1)) (goes_on ws rest h.1)

  -- As long as sigwait succeeds with other signals than SIGTERM, the thread writes one entry for
  -- each, in order, and goes on. The first SIGTERM adds one entry and ends the program with status
  -- 0, and the first failure of sigwait one entry and status 1; what comes later is not read.
  pub thr_fn_lem :
      (ws rest : List (ℕ × ℕ)) (err signo : ℕ)
      → All GoesOn ws
      → sighup ≢ sigterm
      → err ≢ 0
      → (thr_fn ws ≡ (map entry ws, none))
        × (thr_fn (ws ++ (0, sigterm) ∷ rest) ≡ (map entry ws ++ got_term ∷ [], some 0))
        × (thr_fn (ws ++ (err, signo) ∷ rest) ≡ (map entry ws ++ wait_failed ∷ [], some 1))
  unfolding thr_fn
  thr_fn_lem ws rest err signo h ne failed = (
    ap thr_fn (sym (append-nil ws))
        ∙ goes_on ws [] h
        ∙ ap (λ l. (l, none)) (append-nil (map entry ws)),
    goes_on ws ((0, sigterm) ∷ rest) h
        ∙ rw (==_of_ne sigterm sighup (λ e. ne (sym e))) (rw (==_self sigterm)),
    goes_on ws ((err, signo) ∷ rest) h ∙ rw (==_of_ne err 0 failed),
  )
