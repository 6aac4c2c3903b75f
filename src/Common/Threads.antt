-- ===== src/Common/Threads.antt =====
-- Processes by index: who stands where, and how many stand at the places that a weight picks.
use Prim.Native.Nat.{ℕ, zero, suc, ◌+◌, ◌≤◌, ◌<◌}
use mathlib.Core.Path.{◌≡◌, refl, subst}
use mathlib.Core.Logic.{◌≢◌}
use native.Mathlib.Decide.{dec_lt, ℕ_discrete}
use native.Mathlib.Omega.{arith}
use ics7_os.Common.Tests.{==_self, ==_of_ne, ◌==◌, if◌then◌else◌}

-- Process `i` goes to `a`.
abbrev pub move {ℓ} : {A : Type ℓ} → (ℕ → A) → ℕ → A → ℕ → A
move at i a j = if i == j then a else at j

-- What holds of the process that goes, and of each other one, holds of each.
pub move_all {ℓ κ} :
    {A : Type ℓ} (P : ℕ → A → Type κ) (at : ℕ → A) (i : ℕ) (a : A)
    → P i a
    → ((j : ℕ) → i ≢ j → P j (at j))
    → (j : ℕ) → P j (move at i a j)
move_all P at i a here other j = elim (ℕ_discrete i j) [
  | yes e ↦ subst (λ l. P l (move at i a l)) e (rw (==_self i) here)
  | no ne ↦ rw (==_of_ne i j ne) (other j ne)
]

module _ {ℓ} {A : Type ℓ} (w : A → ℕ) where
  -- The weight of the processes below `n`.
  pub weight : ℕ → (ℕ → A) → ℕ
  weight zero at = 0
  weight (suc n) at = w (at n) + weight n at

  weight_above : (n i : ℕ) (at : ℕ → A) (a : A) → n ≤ i → weight n (move at i a) ≡ weight n at
  unfolding weight
  weight_above zero i at a h = refl
  weight_above (suc n) i at a h = ground (arith, weight_above n i at a)

  pub weight-move :
      (n i : ℕ) (at : ℕ → A) (a : A) → i < n → weight n (move at i a) + w (at i) ≡ weight n at + w a
  unfolding weight
  weight-move zero i at a h = elim h [ ]
  weight-move (suc n) i at a h = elim (dec_lt i n) [
    | yes below ↦ ground (arith, weight-move n i at a below)
    | no last ↦ ground (arith, weight_above n i at a)
  ]

  pub weight_one : (n i : ℕ) (at : ℕ → A) → i < n → w (at i) ≤ weight n at
  unfolding weight
  weight_one zero i at h = elim h [ ]
  weight_one (suc n) i at h = elim (dec_lt i n) [
    | yes below ↦ ground (arith, weight_one n i at below)
    | no last ↦ ground arith
  ]

  pub weight_two :
      (n i j : ℕ) (at : ℕ → A) → i < n → j < n → i ≢ j → w (at i) + w (at j) ≤ weight n at
  unfolding weight
  weight_two zero i j at h k ne = elim h [ ]
  weight_two (suc n) i j at h k ne = elim (dec_lt i n) [
    | yes i_below ↦ elim (dec_lt j n) [
      | yes j_below ↦ omega (arith, weight_two n i j at i_below j_below ne)
      | no j_last ↦ ground (arith, weight_one n i at i_below)
    ]
    | no i_last ↦ ground (arith, weight_one n j at)
  ]

  -- Some process has weight, if all together have.
  pub weight_some : (n : ℕ) (at : ℕ → A) → 0 < weight n at → (i : ℕ) × (i < n) × (0 < w (at i))
  unfolding weight
  weight_some zero at h = absurd (omega arith)
  weight_some (suc n) at h = elim (dec_lt 0 (w (at n))) [
    | yes here ↦ (n, omega arith, here)
    | no gone ↦ let (i, below, some) = weight_some n at (omega arith) in (i, omega arith, some)
  ]

  pub weight_zero : (n : ℕ) (at : ℕ → A) → ((i : ℕ) → i < n → w (at i) ≡ 0) → weight n at ≡ 0
  unfolding weight
  weight_zero zero at h = refl
  weight_zero (suc n) at h =
      omega (arith, h n (omega arith), weight_zero n at (λ i b. h i (omega arith)))

pub weight-add {ℓ} :
    {A : Type ℓ} (v w : A → ℕ) (n : ℕ) (at : ℕ → A)
    → weight (λ a. v a + w a) n at ≡ weight v n at + weight w n at
unfolding weight
weight-add v w zero at = refl
weight-add v w (suc n) at = omega (arith, weight-add v w n at)

module _ {ℓ} {A : Type ℓ} (v w : A → ℕ) (le : (a : A) → w a ≤ v a) where
  pub weight_mono : (n : ℕ) (at : ℕ → A) → weight w n at ≤ weight v n at
  unfolding weight
  weight_mono zero at = omega arith
  weight_mono (suc n) at = omega (arith, le (at n), weight_mono n at)

  -- If `i` alone has all the weight of `v`, it has all that of the smaller `w`.
  pub weight_alone :
      (n i : ℕ) (at : ℕ → A) → i < n → weight v n at ≤ 1 → v (at i) ≡ 1 → weight w n at ≡ w (at i)
  unfolding weight
  weight_alone zero i at h small here = elim h [ ]
  weight_alone (suc n) i at h small here = elim (dec_lt i n) [
    | yes below ↦
        omega (
          arith,
          weight_one v n i at below,
          le (at n),
          weight_alone n i at below (omega arith) here,
        )
    | no last ↦ ground (arith, weight_mono n at)
  ]
