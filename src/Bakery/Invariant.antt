-- ===== src/Bakery/Invariant.antt =====
-- What bakery_server.c keeps in every reachable state.
use ics7_os.Common.{
  ℕ, ◌+◌, ◌-◌, ◌≤◌, ◌<◌, ◌≡◌, ◌≢◌, refl, sym, arith, ==_self, ==_of_ne, ℕ_discrete,
}
use ics7_os.Common.Threads.{move, move_all}
use ics7_os.Bakery.{
  clients, Desk, idle, scan, found, note, unchoose, Place, absent, held, check, compare, enter,
  bump, put, inside, left,
}

-- How many clients have got their number stored, and how many also have it handed out.
abbrev pub stored : Desk → ℕ → ℕ
stored idle n = n
stored (scan _ _ _) n = n - 1
stored (found _ _ _) n = n - 1
stored (note _) n = n
stored (unchoose _) n = n

abbrev pub handed : Desk → ℕ → ℕ
handed idle n = n
handed _ n = n - 1

pub handed_le : (d : Desk) (n : ℕ) → handed d n ≤ n
handed_le idle n = omega arith
handed_le (scan _ _ _) n = omega arith
handed_le (found _ _ _) n = omega arith
handed_le (note _) n = omega arith
handed_le (unchoose _) n = omega arith

-- The client that the desk serves is the last one.
abbrev pub Names : Desk → ℕ → Type 0
Names idle n = Unit
Names (scan i _ _) n = n ≡ i + 1
Names (found i _ _) n = n ≡ i + 1
Names (note i) n = n ≡ i + 1
Names (unchoose i) n = n ≡ i + 1

abbrev pub Scanned : Desk → (ℕ → ℕ) → Type 0
Scanned (scan i j max) number = (l : ℕ) → l < j → number l ≤ max
Scanned (found i j max) number = (l : ℕ) → l ≤ j → number l ≤ number j
Scanned (note i) number = 0 < number i
Scanned (unchoose i) number = 0 < number i
Scanned idle number = Unit

abbrev pub present : Place → ℕ
present absent = 0
present _ = 1

abbrev pub holding : Place → ℕ
holding absent = 0
holding left = 0
holding _ = 1

-- The clients whose turn was waited for.
abbrev pub reach : Place → ℕ
reach absent = 0
reach held = 0
reach (check j) = j
reach (compare j) = j
reach left = 0
reach _ = clients

pub record Inv (number : ℕ → ℕ) (n : ℕ) (d : Desk) (at : ℕ → Place) : Type 0 where
  pub few : n ≤ clients
  pub names : Names d n
  pub scanned : Scanned d number
  pub fresh : (j : ℕ) → stored d n ≤ j → number j ≡ 0
  pub known : (i : ℕ) → present (at i) ≡ 1 → i < handed d n
  pub seen : (i : ℕ) → i < handed d n → present (at i) ≡ 1
  pub has_number : (i : ℕ) → holding (at i) ≡ 1 → 0 < number i
  pub order : (j i : ℕ) → j < i → 0 < number i → number j < number i
  pub passed : (i j : ℕ) → j < reach (at i) → j < i → number j ≡ 0

module _ {number : ℕ → ℕ} {n : ℕ} {d : Desk} {at : ℕ → Place} (inv : Inv number n d at) where
  -- A client goes on, with the numbers as they are.
  pub Inv-move :
      (i : ℕ) (p : Place)
      → present (at i) ≡ 1
      → present p ≡ 1
      → (holding p ≡ 1 → 0 < number i)
      → ((j : ℕ) → j < reach p → j < i → number j ≡ 0)
      → Inv number n d (move at i p)
  Inv-move i p here there has past = record {
    few = inv.few;
    names = inv.names;
    scanned = inv.scanned;
    fresh = inv.fresh;
    known =
        move_all (λ j q. present q ≡ 1 → j < handed d n) at i p (λ _. inv.known i here)
          (λ j _. inv.known j);
    seen = move_all (λ j q. j < handed d n → present q ≡ 1) at i p (λ _. there) (λ j _. inv.seen j);
    has_number =
        move_all (λ j q. holding q ≡ 1 → 0 < number j) at i p has (λ j _. inv.has_number j);
    order = inv.order;
    passed =
        move_all (λ k q. (j : ℕ) → j < reach q → j < k → number j ≡ 0) at i p past
          (λ k _. inv.passed k);
  }

  cleared : (i j : ℕ) → move number i 0 j ≤ number j
  cleared i j = ground arith

  stays : (i j : ℕ) → i ≢ j → move number i 0 j ≡ number j
  stays i j ne = rw (==_of_ne i j ne)

  cleared_zero : (i j : ℕ) → number j ≡ 0 → move number i 0 j ≡ 0
  cleared_zero i j e = ground (arith, e)

  pub reach_present : (i j : ℕ) → j < reach (at i) → present (at i) ≡ 1
  reach_present i j h = go (at i) h
    where
      go : (p : Place) → j < reach p → present p ≡ 1
      go absent h = absurd (omega arith)
      go held h = refl
      go (check _) h = refl
      go (compare _) h = refl
      go enter h = refl
      go bump h = refl
      go (put _) h = refl
      go inside h = refl
      go left h = refl

Scanned-leave :
    {number : ℕ → ℕ} {n : ℕ} {d : Desk} {at : ℕ → Place} (inv : Inv number n d at) (i : ℕ)
    → present (at i) ≡ 1
    → ((j : ℕ) → j < i → number j ≡ 0)
    → Scanned d (move number i 0)
Scanned-leave {number} {d = idle} inv i here past = tt
Scanned-leave {number} {d = scan i' j max} inv i here past =
    λ l h. omega (arith, cleared inv i l, inv.scanned l h)
Scanned-leave {number} {d = found i' j max} inv i here past = λ l h. elim (ℕ_discrete i j) [
  | yes e ↦ elim (ℕ_discrete i l) [
    | yes e' ↦ rw (sym e') (rw (==_self i) (omega arith))
    | no ne ↦ omega (arith, cleared inv i l, past l (omega (arith, e, ne)))
  ]
  | no ne ↦ omega (arith, cleared inv i l, inv.scanned l h, stays inv i j ne)
]
Scanned-leave {number} {d = note i'} inv i here past =
    omega (arith, inv.scanned, stays inv i i' (λ e. omega (arith, e, inv.known i here, inv.names)))
Scanned-leave {number} {d = unchoose i'} inv i here past =
    omega (arith, inv.scanned, stays inv i i' (λ e. omega (arith, e, inv.known i here, inv.names)))

-- A client gives its number back, once all the earlier ones have.
pub Inv-leave :
    {number : ℕ → ℕ} {n : ℕ} {d : Desk} {at : ℕ → Place} (inv : Inv number n d at) (i : ℕ)
    → present (at i) ≡ 1
    → ((j : ℕ) → j < i → number j ≡ 0)
    → Inv (move number i 0) n d (move at i left)
Inv-leave {number} {n} {d} {at} inv i here past = record {
  few = inv.few;
  names = inv.names;
  scanned = Scanned-leave inv i here past;
  fresh = λ j h. cleared_zero inv i j (inv.fresh j h);
  known =
      move_all (λ j q. present q ≡ 1 → j < handed d n) at i left (λ _. inv.known i here)
        (λ j _. inv.known j);
  seen = move_all (λ j q. j < handed d n → present q ≡ 1) at i left (λ _. refl) (λ j _. inv.seen j);
  has_number =
      move_all (λ j q. holding q ≡ 1 → 0 < move number i 0 j) at i left
        (λ q. absurd (omega (arith, q)))
        (λ j ne q. omega (arith, inv.has_number j q, stays inv i j ne));
  order = λ j k h some. omega (arith, cleared inv i j, cleared inv i k, lower j k h some);
  passed =
      move_all (λ k q. (j : ℕ) → j < reach q → j < k → move number i 0 j ≡ 0) at i left
        (λ j h. absurd (omega (arith, h))) (λ k _ j h l. cleared_zero inv i j (inv.passed k j h l));
}
  where
    lower : (j k : ℕ) → j < k → 0 < move number i 0 k → number j < move number i 0 k
    lower j k h some = elim (ℕ_discrete i k) [
      | yes e ↦ omega (arith, past j (omega (arith, e)), some)
      | no ne ↦ omega (
        arith,
        stays inv i k ne,
        cleared inv i k,
        inv.order j k h (omega (arith, stays inv i k ne)),
      )
    ]
