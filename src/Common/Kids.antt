-- ===== src/Common/Kids.antt =====
-- The children of a loop that forks two.

-- The child of each round.
pub data Kid : Type 0 where
  first second : Kid

abbrev pub set {ℓ} : {A : Type ℓ} → (Kid → A) → Kid → A → Kid → A
set f first a first = a
set f first a second = f second
set f second a first = f first
set f second a second = a

pub set_all {κ} :
    {A : Type 0} (P : Kid → A → Type κ) (f : Kid → A) (k : Kid) (a : A)
    → P k a
    → ((j : Kid) → P j (f j))
    → (j : Kid) → P j (set f k a j)
set_all P f first a here other first = here
set_all P f first a here other second = other second
set_all P f second a here other first = other first
set_all P f second a here other second = here
