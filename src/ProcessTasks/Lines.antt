-- ===== src/ProcessTasks/Lines.antt =====
-- The lines that tell of a child.
use ics7_os.Common.{ℕ, ◌≡◌, refl, ap, Bool, true, false, List, [], ◌∷◌, ◌++◌, if◌then◌else◌}
use ics7_os.Common.Kids.{Kid, first, second}
use ics7_os.ProcessTasks.{
  Task, task_1, task_2, task_3, WaitStatus, Line, waited, exited_with, terminated_with,
  stopped_with, greeting, spoken, describe,
}

abbrev pub same : Kid → Kid → Bool
same first first = true
same second second = true
same _ _ = false

-- The line tells of the end of child `k`.
abbrev pub tells : Kid → Line → Bool
tells k (waited j status) = same k j
tells k (exited_with c j) = same k j
tells k (terminated_with c j) = same k j
tells k (stopped_with c j) = same k j
tells k _ = false

abbrev pub about : Kid → List Line → List Line
about k [] = []
about k (l ∷ ls) = let rest = about k ls in if tells k l then l ∷ rest else rest

pub about-append : (k : Kid) (xs ys : List Line) → about k (xs ++ ys) ≡ about k xs ++ about k ys
about-append k [] ys = refl
about-append k (x ∷ xs) ys = go (about-append k xs ys) (tells k x)
  where
    go :
        about k (xs ++ ys) ≡ about k xs ++ about k ys
        → (b : Bool)
        → (if b then x ∷ about k (xs ++ ys) else about k (xs ++ ys))
          ≡ (if b then x ∷ about k xs else about k xs) ++ about k ys
    go ih true = ap (λ l. x ∷ l) ih
    go ih false = ih

one :
    (j : Kid) (b : Bool) (l : Line) → tells j l ≡ b → about j (l ∷ []) ≡ (if b then l ∷ [] else [])
one j b l e = ap (λ b. if b then l ∷ [] else []) e

abbrev pub Silent : List Line → Type 0
Silent ls = (k : Kid) → about k ls ≡ []

pub greeting-Silent : (p : Task) → Silent (greeting p)
greeting-Silent task_1 k = refl
greeting-Silent task_2 k = refl
greeting-Silent task_3 k = refl

pub spoken-Silent : (p : Task) (j : Kid) → Silent (spoken p j)
spoken-Silent task_1 j k = refl
spoken-Silent task_2 j k = refl
spoken-Silent task_3 j k = refl

module _ (w : WaitStatus) where
  abbrev pub told : Kid → ℕ → List Line
  told k status = waited k status ∷ describe w k status

  -- One of the three lines, or none, all of which tell of a child, or do not.
  about_one :
      (j : Kid) (b b₁ b₂ b₃ : Bool) (l₁ l₂ l₃ : Line)
      → tells j l₁ ≡ b
      → tells j l₂ ≡ b
      → tells j l₃ ≡ b
      → let ls = if b₁ then l₁ ∷ [] else if b₂ then l₂ ∷ [] else if b₃ then l₃ ∷ [] else [] in
        about j ls ≡ (if b then ls else [])
  about_one j b true b₂ b₃ l₁ l₂ l₃ e₁ e₂ e₃ = one j b l₁ e₁
  about_one j b false true b₃ l₁ l₂ l₃ e₁ e₂ e₃ = one j b l₂ e₂
  about_one j b false false true l₁ l₂ l₃ e₁ e₂ e₃ = one j b l₃ e₃
  about_one j true false false false l₁ l₂ l₃ e₁ e₂ e₃ = refl
  about_one j false false false false l₁ l₂ l₃ e₁ e₂ e₃ = refl

  about-describe :
      (j k : Kid) (status : ℕ)
      → about j (describe w k status) ≡ (if same j k then describe w k status else [])
  unfolding describe
  about-describe j k status =
      about_one j (same j k) (w.if_exited status) (w.if_signaled status) (w.if_stopped status) _ _ _
        refl refl refl

  pub about-told :
      (j k : Kid) (status : ℕ) → about j (told k status) ≡ (if same j k then told k status else [])
  about-told first first status =
      ap (λ l. waited first status ∷ l) (about-describe first first status)
  about-told first second status = about-describe first second status
  about-told second first status = about-describe second first status
  about-told second second status =
      ap (λ l. waited second status ∷ l) (about-describe second second status)
