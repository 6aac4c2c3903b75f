-- ===== src/Daemon/Outcome.antt =====
-- A run of a program: it ends with a status, or goes on.
use ics7_os.Common.{ℕ, Bool, true, false}

pub data Run {ℓ} (A : Type ℓ) : Type ℓ where
  ended : ℕ → Run A
  runs : A → Run A

infixl 5 ◌>>=◌ ◌>>◌
abbrev pub ◌>>=◌ {ℓ κ} : {A : Type ℓ} {B : Type κ} → Run A → (A → Run B) → Run B
ended status >>= f = ended status
runs a >>= f = f a

abbrev pub ◌>>◌ {ℓ κ} : {A : Type ℓ} {B : Type κ} → Run A → Run B → Run B
m >> n = m >>= λ _. n

-- A call that failed ends the program.
abbrev pub check : Bool → ℕ → Run (Unit {0})
check true status = runs tt
check false status = ended status
