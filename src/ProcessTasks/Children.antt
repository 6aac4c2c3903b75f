-- ===== src/ProcessTasks/Children.antt =====
-- How many children there are, and were waited for, at each place of the parent.
use ics7_os.Common.{ℕ, zero, suc, ◌+◌, ◌≤◌, ◌<◌, ◌≡◌, ◌≢◌, refl, ap, arith}
use ics7_os.Common.Kids.{Kid, first, second, set}
use ics7_os.ProcessTasks.{
  Task, task_1, task_2, task_3, Parent, beginning, forking, telling, waiting, reporting, failed,
  returned, Child, unborn, born, spoke, replaced, done, reaped, next_wait, Alive,
}

abbrev pub is_reaped : Child → ℕ
is_reaped (reaped status) = 1
is_reaped _ = 0

abbrev pub is_born : Child → ℕ
is_born unborn = 0
is_born _ = 1

abbrev pub total : (Kid → Child) → ℕ
total at = is_reaped (at first) + is_reaped (at second)

-- Whether a child is born at a place of the parent, and how many the parent waited for.
abbrev pub born_at : Parent → Kid → ℕ
born_at beginning k = 0
born_at (forking first) k = 0
born_at (failed first) k = 0
born_at (telling first) first = 1
born_at (telling first) second = 0
born_at (forking second) first = 1
born_at (forking second) second = 0
born_at (failed second) first = 1
born_at (failed second) second = 0
born_at _ k = 1

abbrev pub reaped_at : Task → Parent → ℕ
reaped_at p (waiting n) = n
reaped_at p (reporting n k status) = suc n
reaped_at task_1 returned = 0
reaped_at task_2 returned = 2
reaped_at task_3 returned = 2
reaped_at p _ = 0

abbrev pub Loops : Task → Type 0
Loops task_1 = ⊥
Loops _ = Unit

abbrev pub InLoop : Task → Parent → Type 0
InLoop p (waiting n) = Loops p × (n < 2)
InLoop p (reporting n k status) = Loops p
InLoop p _ = Unit

-- The child that a report is about was waited for.
abbrev pub Here : Parent → (Kid → Child) → Type 0
Here (reporting n k status) at = at k ≡ reaped status
Here _ at = Unit

pub is_reaped-le : (c : Child) → is_reaped c ≤ 1
is_reaped-le unborn = omega arith
is_reaped-le born = omega arith
is_reaped-le spoke = omega arith
is_reaped-le replaced = omega arith
is_reaped-le (done status) = omega arith
is_reaped-le (reaped status) = omega arith

pub Alive-born : (c : Child) → Alive c → (is_born c ≡ 1) × (is_reaped c ≡ 0)
Alive-born unborn a = elim a [ ]
Alive-born (done status) a = elim a [ ]
Alive-born (reaped status) a = elim a [ ]
Alive-born born a = (refl, refl)
Alive-born spoke a = (refl, refl)
Alive-born replaced a = (refl, refl)

pub same_total :
    (at : Kid → Child) (k : Kid) (c : Child)
    → is_reaped (at k) ≡ is_reaped c
    → total (set at k c) ≡ total at
same_total at first c e = omega (arith, e)
same_total at second c e = omega (arith, e)

pub more_total :
    (at : Kid → Child) (k : Kid) (status : ℕ)
    → at k ≡ done status
    → total (set at k (reaped status)) ≡ suc (total at)
more_total at first status e = omega (arith, ap is_reaped e)
more_total at second status e = omega (arith, ap is_reaped e)

pub unborn-not_reaped : (c : Child) → is_born c ≡ 0 → is_reaped c ≡ 0
unborn-not_reaped unborn e = refl
unborn-not_reaped born e = refl
unborn-not_reaped spoke e = refl
unborn-not_reaped replaced e = refl
unborn-not_reaped (done status) e = refl
unborn-not_reaped (reaped status) e = absurd (omega (arith, e))

pub sum_after :
    (p : Task) (n : ℕ) (at : Kid → Child)
    → Loops p
    → total at ≡ suc n
    → suc n ≡ reaped_at p (next_wait n)
sum_after p zero at l e = refl
sum_after task_1 (suc n) at l e = elim l [ ]
sum_after task_2 (suc n) at l e =
    omega (arith, e, is_reaped-le (at first), is_reaped-le (at second))
sum_after task_3 (suc n) at l e =
    omega (arith, e, is_reaped-le (at first), is_reaped-le (at second))

reaped_status : (c : Child) → is_reaped c ≡ 1 → (status : ℕ) × (c ≡ reaped status)
reaped_status (reaped status) e = (status, refl)
reaped_status unborn e = absurd (omega (arith, e))
reaped_status born e = absurd (omega (arith, e))
reaped_status spoke e = absurd (omega (arith, e))
reaped_status replaced e = absurd (omega (arith, e))
reaped_status (done status) e = absurd (omega (arith, e))

pub both_reaped :
    (at : Kid → Child) → total at ≡ 2 → (k : Kid) → (status : ℕ) × (at k ≡ reaped status)
both_reaped at e first =
    reaped_status (at first) (omega (arith, e, is_reaped-le (at first), is_reaped-le (at second)))
both_reaped at e second =
    reaped_status (at second) (omega (arith, e, is_reaped-le (at first), is_reaped-le (at second)))

pub two_reaped : (p : Task) → p ≢ task_1 → reaped_at p returned ≡ 2
two_reaped task_1 h = absurd (h refl)
two_reaped task_2 h = refl
two_reaped task_3 h = refl

pub set_here : {A : Type 0} (f : Kid → A) (k : Kid) (a : A) → set f k a k ≡ a
set_here f first a = refl
set_here f second a = refl

reaped_kept :
    (at : Kid → Child) (k j : Kid) (c : Child) (status : ℕ)
    → is_reaped (at k) ≡ 0
    → at j ≡ reaped status
    → set at k c j ≡ reaped status
reaped_kept at first first c status r e = absurd (omega (arith, r, ap is_reaped e))
reaped_kept at first second c status r e = e
reaped_kept at second first c status r e = e
reaped_kept at second second c status r e = absurd (omega (arith, r, ap is_reaped e))

pub Here-set :
    (q : Parent) (at : Kid → Child) (k : Kid) (c : Child)
    → is_reaped (at k) ≡ 0
    → Here q at
    → Here q (set at k c)
Here-set (reporting n j status) at k c r h = reaped_kept at k j c status r h
Here-set beginning at k c r h = tt
Here-set (forking j) at k c r h = tt
Here-set (telling j) at k c r h = tt
Here-set (waiting n) at k c r h = tt
Here-set (failed j) at k c r h = tt
Here-set returned at k c r h = tt
