-- ===== src/ProcessTasks/Invariant.antt =====
-- What holds of the children and of the output at each place of the parent.
use ics7_os.Common.{
  ℕ, ◌<◌, ◌≡◌, refl, sym, ap, ap₂, append-nil, ◌∙◌, ◌⊎◌, Bool, false, List, [], ◌∷◌, ◌++◌, arith,
  if◌then◌else◌,
}
use ics7_os.Common.Kids.{Kid, set, set_all}
use ics7_os.ProcessTasks.{
  Task, WaitStatus, Line, waited, Parent, reporting, Child, unborn, born, spoke, replaced, done,
  reaped, describe,
}
use ics7_os.ProcessTasks.Children.{
  is_reaped, is_born, total, born_at, reaped_at, InLoop, Here, same_total, Here-set,
}
use ics7_os.ProcessTasks.Lines.{same, about, about-append, Silent}

-- The parent is about to print what it learned of the child.
abbrev pub pending : Parent → Kid → Bool
pending (reporting n j status) k = same k j
pending _ k = false

module _ (w : WaitStatus) where
  open w use {of_exit, of_signal}

  -- What the parent has printed of a child.
  abbrev pub expected : Bool → Kid → Child → List Line
  expected pending k (reaped status) = if pending then [] else waited k status ∷ describe w k status
  expected pending k _ = []

  abbrev pub IsStatus : ℕ → Type 0
  IsStatus status =
      ((code : ℕ) × (status ≡ of_exit code))
      ⊎ ((signal : ℕ) × (0 < signal) × (signal < 65) × (status ≡ of_signal signal))

  abbrev pub Ended : Child → Type 0
  Ended (done status) = IsStatus status
  Ended (reaped status) = IsStatus status
  Ended _ = Unit

  pub record Inv (p : Task) (q : Parent) (at : Kid → Child) (printed : List Line) : Type 0 where
    pub born : (k : Kid) → is_born (at k) ≡ born_at q k
    pub sum : total at ≡ reaped_at p q
    pub in_loop : InLoop p q
    pub lines : (k : Kid) → about k printed ≡ expected (pending q k) k (at k)
    pub status : (k : Kid) → Ended (at k)
    pub here : Here q at

  -- The parent goes to a place of which the same holds.
  pub to :
      (p : Task) (q q' : Parent) (at : Kid → Child) (printed : List Line)
      → ((k : Kid) → born_at q k ≡ born_at q' k)
      → reaped_at p q ≡ reaped_at p q'
      → ((k : Kid) → pending q k ≡ pending q' k)
      → InLoop p q'
      → Here q' at
      → Inv p q at printed
      → Inv p q' at printed
  to p q q' at printed b r w i h inv = record {
    born = λ k. inv.born k ∙ b k;
    sum = inv.sum ∙ r;
    in_loop = i;
    lines = λ k. inv.lines k ∙ ap (λ b. expected b k (at k)) (w k);
    status = inv.status;
    here = h;
  }

  pub printing :
      (p : Task) (q : Parent) (at : Kid → Child) (printed ls : List Line)
      → Silent ls
      → Inv p q at printed
      → Inv p q at (printed ++ ls)
  printing p q at printed ls quiet inv = record {
    born = inv.born;
    sum = inv.sum;
    in_loop = inv.in_loop;
    lines = λ k. about-append k printed ls ∙ ap₂ ◌++◌ (inv.lines k) (quiet k) ∙ append-nil _;
    status = inv.status;
    here = inv.here;
  }

  pub not_reaped :
      (b b' : Bool) (k : Kid) (c c' : Child)
      → is_reaped c ≡ 0
      → is_reaped c' ≡ 0
      → expected b k c ≡ expected b' k c'
  not_reaped b b' k c c' r r' = none_of b c r ∙ sym (none_of b' c' r')
    where
      none_of : (b : Bool) (c : Child) → is_reaped c ≡ 0 → expected b k c ≡ []
      none_of b unborn r = refl
      none_of b born r = refl
      none_of b spoke r = refl
      none_of b replaced r = refl
      none_of b (done status) r = refl
      none_of b (reaped status) r = absurd (omega (arith, r))

  -- A child that is not waited for moves on.
  pub moving :
      (p : Task) (q : Parent) (at : Kid → Child) (printed : List Line) (k : Kid) (c' : Child)
      → is_born (at k) ≡ 1
      → is_reaped (at k) ≡ 0
      → is_born c' ≡ 1
      → is_reaped c' ≡ 0
      → Ended c'
      → Inv p q at printed
      → Inv p q (set at k c') printed
  moving p q at printed k c' b r b' r' e inv = record {
    born = set_all (λ j c. is_born c ≡ born_at q j) at k c' (b' ∙ sym b ∙ inv.born k) inv.born;
    sum = same_total at k c' (r ∙ sym r') ∙ inv.sum;
    in_loop = inv.in_loop;
    lines =
        set_all (λ j c. about j printed ≡ expected (pending q j) j c) at k c'
          (inv.lines k ∙ not_reaped _ _ k (at k) c' r r') inv.lines;
    status = set_all (λ _ c. Ended c) at k c' e inv.status;
    here = Here-set q at k c' r inv.here;
  }
