-- ===== src/Bakery/Safety.antt =====
-- Whom bakery_server.c lets in, in which order, and what each client is given.
use ics7_os.Common.{ℕ, ◌≤◌, ◌<◌, ◌≡◌, refl, arith, dec_lt}
use ics7_os.Bakery.{
  clients, Desk, Place, absent, held, check, compare, enter, bump, put, inside, left, System, Reach,
  critical,
}
use ics7_os.Bakery.Invariant.{handed_le, present, holding, reach, Inv}
use ics7_os.Bakery.Turns.{Reach-Inv}

critical_reach : (p : Place) → critical p ≡ 1 → reach p ≡ clients
critical_reach absent q = absurd (omega (arith, q))
critical_reach held q = absurd (omega (arith, q))
critical_reach (check _) q = absurd (omega (arith, q))
critical_reach (compare _) q = absurd (omega (arith, q))
critical_reach enter q = refl
critical_reach bump q = refl
critical_reach (put _) q = refl
critical_reach inside q = refl
critical_reach left q = absurd (omega (arith, q))

-- The three are 0 or 1, and who is critical has a number and is there.
sizes :
    (p : Place)
    → (critical p ≤ present p) × (critical p ≤ holding p) × (holding p ≤ 1) × (present p ≤ 1)
sizes absent = omega arith
sizes held = omega arith
sizes (check _) = omega arith
sizes (compare _) = omega arith
sizes enter = omega arith
sizes bump = omega arith
sizes (put _) = omega arith
sizes inside = omega arith
sizes left = omega arith

gave_back : (p : Place) → present p ≡ 1 → holding p ≡ 0 → p ≡ left
gave_back absent h q = absurd (omega (arith, h))
gave_back held h q = absurd (omega (arith, q))
gave_back (check _) h q = absurd (omega (arith, q))
gave_back (compare _) h q = absurd (omega (arith, q))
gave_back enter h q = absurd (omega (arith, q))
gave_back bump h q = absurd (omega (arith, q))
gave_back (put _) h q = absurd (omega (arith, q))
gave_back inside h q = absurd (omega (arith, q))
gave_back left h q = refl

module _ {number : ℕ → ℕ} {n : ℕ} {d : Desk} {at : ℕ → Place} (inv : Inv number n d at) where
  pub is_client : (i : ℕ) → present (at i) ≡ 1 → i < clients
  is_client i q = omega (arith, inv.known i q, handed_le d n, inv.few)

  pub critical_client : (i : ℕ) → critical (at i) ≡ 1 → present (at i) ≡ 1
  critical_client i q = omega (arith, q, sizes (at i))

  earlier_zero : (i j : ℕ) → critical (at i) ≡ 1 → j < i → number j ≡ 0
  earlier_zero i j q h =
      inv.passed i j (omega (arith, critical_reach (at i) q, is_client i (critical_client i q), h))
        h

  not_earlier : (i j : ℕ) → critical (at i) ≡ 1 → critical (at j) ≡ 1 → ¬ (j < i)
  not_earlier i j qi qj h =
      omega (arith, earlier_zero i j qi h, inv.has_number j (omega (arith, qj, sizes (at j))))

  pub one_critical : (i j : ℕ) → critical (at i) ≡ 1 → critical (at j) ≡ 1 → i ≡ j
  one_critical i j qi qj = omega (arith, not_earlier i j qi qj, not_earlier j i qj qi)

-- In every reachable state two clients in the critical section are the same client.
pub critical_exclusive :
    (s : System) → Reach s → (i j : ℕ) → critical (s.at i) ≡ 1 → critical (s.at j) ≡ 1 → i ≡ j
critical_exclusive s r i j = one_critical (Reach-Inv r) i j

-- In every reachable state where client `i` is in the critical section, every client that took its
-- number before has been in the section and has left.
pub served_in_order :
    (s : System) → Reach s → (i j : ℕ) → critical (s.at i) ≡ 1 → j < i → s.at j ≡ left
served_in_order s r i j q h =
    let inv = Reach-Inv r in
    let here = inv.seen j (omega (arith, h, inv.known i (critical_client inv i q))) in
    gave_back (s.at j) here (elim (dec_lt 0 (holding (s.at j))) [
      | yes some ↦ absurd (
          omega (
            arith,
            earlier_zero inv i j q h,
            inv.has_number j (omega (arith, some, sizes (s.at j))),
          ))
      | no none ↦ omega (arith, none)
    ])

-- In every reachable state, of two clients that have a number stored and not given back, the one
-- that called first has the smaller number.
numbers_in_order :
    (s : System)
    → Reach s
    → (j i : ℕ) → j < i
    → 0 < s.mem.number i
    → s.mem.number j < s.mem.number i
numbers_in_order s r = (Reach-Inv r).order
