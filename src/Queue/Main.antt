-- ===== src/Queue/Main.antt =====
-- `main` of unix-lab-02/task3/lab_05_02/src/main.c, and `input_interval`, `start_edit_menu` and
-- `input_key` of io.c: a menu that sets the intervals and starts the simulations.
pub mod Input
pub mod Valid
pub mod Tests
use ics7_os.Common.{
  ℕ, zero, suc, Bool, true, false, ◌&&◌, ◌||◌, not, Option, none, some, List, [], ◌∷◌, ◌++◌, ℤ, pos,
  eqb_ℤ, if◌then◌else◌,
}
use ics7_os.Common.Options.{◌>>=◌}
use ics7_os.ArrayStack.{ok, err_read, is_zero}
use ics7_os.Queue.Clock.{Double}
use ics7_os.Queue.Times.{Arithmetic, Interval, Intervals}

-- A call of `scanf`: what it stores for "%d", or for "%lf"; `none` is a result other than 1.
pub record Reading {ℓ} (D : Type ℓ) : Type ℓ where
  pub int : Option ℤ
  pub double : Option D

-- A call of `start_arr_time`, or of `start_list_time` with whether its `flag` became 1.
pub data Started {ℓ} (D : Type ℓ) : Type ℓ where
  arr_time : Intervals D → Started D
  list_time : Intervals D → Bool → Started D

-- The locals of `main`: `t1` to `t4`, `action` and `rc`. `started` are the calls so far, in order.
pub record Main {ℓ} (D : Type ℓ) : Type ℓ where
  pub ts : Intervals D
  pub action : ℤ
  pub rc : ℤ
  pub started : List (Started D)

-- How a run stopped: the program ended, it waits in a call of `scanf`, or the fuel is over.
pub data Outcome : Type 0 where
  over waits out_of_fuel : Outcome

abbrev pub is_read {ℓ} : {A : Type ℓ} → Option A → Bool
is_read none = false
is_read (some a) = true

abbrev pub or_else {ℓ} : {A : Type ℓ} → A → Option A → A
or_else old none = old
or_else old (some new) = new

-- `while (action != 3 && rc == OK)`
abbrev pub goes_on {ℓ} : {D : Type ℓ} → Main D → Bool
goes_on m = not (eqb_ℤ m.action (pos 3)) && is_zero m.rc

module _ {ℓ} {D : Type ℓ} (f : Arithmetic D) where
  open f use {order, minus, fabs, of_int, eps}

  abbrev less : D → D → Bool
  less = order.less

  -- The conditions of the loops of `input_interval`.
  unfoldable pub min_refused : Bool → Interval D → Bool
  min_refused got t = not got || less t.min order.nought

  unfoldable pub max_refused : Bool → Interval D → Bool
  max_refused got t = not got || less t.max t.min || less (fabs (minus t.max t.min)) eps

  -- The loops; a failed `scanf` leaves the field.
  unfoldable pub input_min : Interval D → List (Reading D) → Option (Interval D × List (Reading D))
  input_min t [] = none
  input_min t (r ∷ rs) =
      let t' : Interval D = record t { min = or_else t.min r.double } in
      elim (min_refused (is_read r.double) t') [ true ↦ input_min t' rs | false ↦ some (t', rs) ]

  unfoldable pub input_max : Interval D → List (Reading D) → Option (Interval D × List (Reading D))
  input_max t [] = none
  input_max t (r ∷ rs) =
      let t' : Interval D = record t { max = or_else t.max r.double } in
      elim (max_refused (is_read r.double) t') [ true ↦ input_max t' rs | false ↦ some (t', rs) ]

  unfoldable pub input_interval :
      Interval D → List (Reading D) → Option (Interval D × List (Reading D))
  input_interval t rs = input_min t rs >>= λ r. input_max r.0 r.1

  unfoldable pub start_edit_menu :
      Intervals D → List (Reading D) → Option (Intervals D × List (Reading D))
  start_edit_menu ts rs = input_interval ts.t1 rs >>= λ r₁. input_interval ts.t2 r₁.1 >>= λ r₂.
      input_interval ts.t3 r₂.1 >>= λ r₃. input_interval ts.t4 r₃.1 >>= λ r₄.
      some (record { t1 = r₁.0; t2 = r₂.0; t3 = r₃.0; t4 = r₄.0 }, r₄.1)

  -- Case 1.
  unfoldable pub on_edit : Main D → List (Reading D) → Option (Main D × List (Reading D))
  on_edit m rs = start_edit_menu m.ts rs >>= λ r. some (record m { ts = r.0 }, r.1)

  -- The inner `switch`. `start_list_time` reads `flag`, which starts as 0.
  unfoldable pub on_model : Main D → ℤ → List (Reading D) → Option (Main D × List (Reading D))
  on_model m k [] =
      if eqb_ℤ k (pos 1)
      then some (record m { started = m.started ++ arr_time m.ts ∷ [] }, [])
      else if eqb_ℤ k (pos 2)
      then none
      else some (m, [])
  on_model m k (r ∷ rs) =
      if eqb_ℤ k (pos 1)
      then some (record m { started = m.started ++ arr_time m.ts ∷ [] }, r ∷ rs)
      else if eqb_ℤ k (pos 2)
      then some (
        record m {
          started = m.started ++ list_time m.ts (eqb_ℤ (or_else (pos 0) r.int) (pos 1)) ∷ [];
        },
        rs,
      )
      else some (m, r ∷ rs)

  -- Case 2. The number of the model is read to `action`.
  unfoldable pub on_run : Main D → List (Reading D) → Option (Main D × List (Reading D))
  on_run m [] = none
  on_run m (r ∷ rs) = elim r.int [
    | none ↦ some (record m { rc = err_read }, rs)
    | some k ↦ on_model (record m { action = k; rc = ok }) k rs
  ]

  unfoldable pub on_key : Main D → ℤ → List (Reading D) → Option (Main D × List (Reading D))
  on_key m k rs =
      if eqb_ℤ k (pos 1)
      then on_edit m rs
      else if eqb_ℤ k (pos 2)
      then on_run m rs
      else some (m, rs)

  -- The body of the `do` loop; `none` is a call of `scanf` that has no input.
  unfoldable pub round : Main D → List (Reading D) → Option (Main D × List (Reading D))
  round m [] = none
  round m (r ∷ rs) = elim r.int [
    | none ↦ some (record m { rc = err_read }, rs)
    | some k ↦ on_key (record m { action = k; rc = ok }) k rs
  ]

  unfoldable pub rounds : ℕ → Main D → List (Reading D) → Outcome × Main D
  rounds zero m rs = (out_of_fuel, m)
  rounds (suc n) m rs = elim (round m rs) [
    | none ↦ (waits, m)
    | some r ↦ elim (goes_on r.0) [ true ↦ rounds n r.0 r.1 | false ↦ (over, r.0) ]
  ]

  abbrev between : ℕ → ℕ → Interval D
  between a b = record { min = of_int a; max = of_int b }

  abbrev pub initial : Intervals D
  initial = record { t1 = between 1 5; t2 = between 0 3; t3 = between 0 4; t4 = between 0 1 }

  -- `action` starts unset.
  unfoldable pub main : ℤ → ℕ → List (Reading D) → Outcome × Main D
  main unset n rs = rounds n (record { ts = initial; action = unset; rc = ok; started = [] }) rs
