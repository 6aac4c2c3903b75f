-- ===== src/Queue/Main/Valid.antt =====
-- What `main` starts the simulations with.
use ics7_os.Common.{
  ℕ, zero, suc, ◌≤◌, ◌<◌, ◌≡◌, ◌≢◌, refl, Bool, true, false, Option, none, some, List, [], ◌∷◌,
  ◌++◌, ℤ, pos, eqb_ℤ, arith, length, All, All-append,
}
use ics7_os.Queue.Times.{Arithmetic}
use ics7_os.Queue.Main.{
  Reading, Started, arr_time, list_time, Main, Outcome, over, waits, out_of_fuel, goes_on,
  start_edit_menu, on_edit, on_model, on_run, on_key, round, rounds, initial, main,
}
use ics7_os.Queue.Main.Input.{
  Leaves, Leaves-bind, Leaves-le, Leaves-if, Leaves-option, AreIntervals,
  start_edit_menu-AreIntervals,
}

module _ {ℓ} {D : Type ℓ} (f : Arithmetic D) where
  open f use {order, minus, fabs, eps}

  abbrev pub IsStarted : Started D → Type 0
  IsStarted (arr_time ts) = AreIntervals f ts
  IsStarted (list_time ts flag) = AreIntervals f ts

  -- The intervals are good, and so were those of all calls.
  pub record IsMain (m : Main D) : Type 0 where
    pub now : AreIntervals f m.ts
    pub calls : All IsStarted m.started

  calling :
      (m : Main D) (c : Started D)
      → IsMain m
      → IsStarted c
      → IsMain (record m { started = m.started ++ c ∷ [] })
  calling m c h good = record {
    now = h.now;
    calls = All-append IsStarted m.started (c ∷ []) h.calls (good, tt);
  }

  on_model-IsMain :
      (m : Main D) (k : ℤ) (rs : List (Reading D))
      → IsMain m
      → Leaves f IsMain (length rs) (on_model f m k rs)
  unfolding on_model
  on_model-IsMain m k [] h =
      Leaves-if f IsMain 0 (eqb_ℤ k (pos 1)) _ _ (calling m (arr_time m.ts) h h.now, omega arith)
        (Leaves-if f IsMain 0 (eqb_ℤ k (pos 2)) none _ tt (h, omega arith))
  on_model-IsMain m k (r ∷ rs) h =
      Leaves-if f IsMain (suc (length rs)) (eqb_ℤ k (pos 1)) _ _
        (calling m (arr_time m.ts) h h.now, omega arith)
        (Leaves-if f IsMain (suc (length rs)) (eqb_ℤ k (pos 2)) _ _
          (calling m (list_time m.ts _) h h.now, omega arith) (h, omega arith))

  on_run-IsMain :
      (m : Main D) (rs : List (Reading D)) → IsMain m → Leaves f IsMain (length rs) (on_run f m rs)
  unfolding on_run
  on_run-IsMain m [] h = tt
  on_run-IsMain m (r ∷ rs) h =
      Leaves-option f IsMain (suc (length rs)) r.int _ _
        (record { now = h.now; calls = h.calls }, omega arith)
        λ k.
          Leaves-le f IsMain (on_model f (record m { action = k; rc = pos 0 }) k rs) (omega arith)
            (on_model-IsMain _ k rs (record { now = h.now; calls = h.calls }))

  on_edit-IsMain :
      (m : Main D) (rs : List (Reading D)) → IsMain m → Leaves f IsMain (length rs) (on_edit f m rs)
  unfolding on_edit
  on_edit-IsMain m rs h =
      Leaves-bind f IsMain (length rs) (start_edit_menu f m.ts rs) _
        (start_edit_menu-AreIntervals f m.ts rs)
        λ ts rs' good le. (record { now = good; calls = h.calls }, le)

  on_key-IsMain :
      (m : Main D) (k : ℤ) (rs : List (Reading D))
      → IsMain m
      → Leaves f IsMain (length rs) (on_key f m k rs)
  unfolding on_key
  on_key-IsMain m k rs h =
      Leaves-if f IsMain (length rs) (eqb_ℤ k (pos 1)) (on_edit f m rs) _ (on_edit-IsMain m rs h) (
        Leaves-if f IsMain (length rs) (eqb_ℤ k (pos 2)) (on_run f m rs) _ (on_run-IsMain m rs h)
          (h, omega arith))

  round-IsMain :
      (m : Main D) (r : Reading D) (rs : List (Reading D))
      → IsMain m
      → Leaves f IsMain (length rs) (round f m (r ∷ rs))
  unfolding round
  round-IsMain m r rs h =
      Leaves-option f IsMain (length rs) r.int _ _
        (record { now = h.now; calls = h.calls }, omega arith)
        λ k. on_key-IsMain _ k rs (record { now = h.now; calls = h.calls })

  record Run (r : Outcome × Main D) : Type 0 where
    enough : r.0 ≢ out_of_fuel
    valid : IsMain r.1
    stopped : r.0 ≡ over → goes_on r.1 ≡ false

  waiting : (m : Main D) → IsMain m → Run (waits, m)
  waiting m h = record { enough = λ e. absurd (cc e); valid = h; stopped = λ e. absurd (cc e) }

  abbrev Onward : ℕ → ℕ → Type ℓ
  Onward n k =
      (s : Main D × List (Reading D)) → IsMain s.0 → length s.1 ≤ k → Run (rounds f n s.0 s.1)

  rounds-Run :
      (n : ℕ) (m : Main D) (rs : List (Reading D))
      → length rs < n
      → IsMain m
      → Run (rounds f n m rs)
  unfolding rounds round
  rounds-Run zero m rs lt h = absurd (omega (arith, lt))
  rounds-Run (suc n) m [] lt h = waiting m h
  rounds-Run (suc n) m (r ∷ rs) lt h =
      go (round f m (r ∷ rs)) (round-IsMain m r rs h)
        λ s good le. rounds-Run n s.0 s.1 (omega (arith, lt, le)) good
    where
      last :
          (s : Main D × List (Reading D)) (b : Bool)
          → goes_on s.0 ≡ b
          → IsMain s.0
          → length s.1 ≤ length rs
          → Onward n (length rs)
          → Run (elim b [ true ↦ rounds f n s.0 s.1 | false ↦ (over, s.0) ])
      last s true e good le next = next s good le
      last s false e good le next = record {
        enough = λ q. absurd (cc q);
        valid = good;
        stopped = λ _. e;
      }

      go :
          (o : Option (Main D × List (Reading D)))
          → Leaves f IsMain (length rs) o
          → Onward n (length rs)
          → Run (elim o [
            | none ↦ (waits, m)
            | some s ↦ elim (goes_on s.0) [ true ↦ rounds f n s.0 s.1 | false ↦ (over, s.0) ]
          ])
      go none l next = waiting m h
      go (some s) l next = last s (goes_on s.0) refl l.0 l.1 next

  -- With fuel for more rounds than there are results of scanf, the run of main ends or waits for
  -- input. When the four intervals that main starts with are good, every simulation that it started
  -- has good intervals: no time below 0, the greatest not below the least, and EPS or more between
  -- them. When it ends, action is 3 or rc is not OK.
  pub main_lem :
      AreIntervals f (initial f)
      → (unset : ℤ) (n : ℕ) (rs : List (Reading D)) → length rs < n
      → ((main f unset n rs).0 ≢ out_of_fuel)
        × All IsStarted (main f unset n rs).1.started
        × ((main f unset n rs).0 ≡ over → goes_on (main f unset n rs).1 ≡ false)
  unfolding main
  main_lem good unset n rs lt =
      let r = rounds-Run n _ rs lt (record { now = good; calls = tt }) in
      (r.enough, r.valid.calls, r.stopped)
