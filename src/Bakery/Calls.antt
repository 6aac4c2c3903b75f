-- ===== src/Bakery/Calls.antt =====
-- A call of get_number as one step, and the steps of the desk that make it up.
use ics7_os.Common.{
  ℕ, zero, suc, ◌+◌, ◌≤◌, ◌<◌, ◌≡◌, ◌≢◌, refl, ap, subst, ◌∙◌, arith, dec_lt, ℕ_discrete, ltb,
  lt→ltb, ltb_of_ge, if◌then◌else◌, ==_self, ==_of_ne,
}
use ics7_os.Common.Threads.{move}
use ics7_os.Bakery.Invariant.{Inv}
use ics7_os.Bakery.Turns.{Reach-Inv}
use ics7_os.Bakery.{
  clients, idle, scan, held, System, take, higher, not_higher, keep, assign, tell, hand_out, Step,
  serve, Reach, later,
}

-- The loop on `j`, with `k` rounds left.
unfoldable pub highest : (ℕ → ℕ) → (k j max : ℕ) → ℕ
highest number zero j max = max
highest number (suc k) j max =
    highest number k (j + 1) (if ltb max (number j) then number j else max)

-- What a whole call does.
unfoldable pub get_number : System → System
get_number s =
    let i = s.mem.num in
    record s {
      mem = record s.mem {
        num = i + 1;
        choosing = move (move s.mem.choosing i 1) i 0;
        number = move s.mem.number i (highest s.mem.number clients 0 0 + 1);
      };
      desk = idle;
      at = move s.at i held;
    }

-- Some steps.
pub data Runs (s : System) : System → Type 0 where
  done : Runs s s
  next : {t u : System} → Runs s t → Step t u → Runs s u

Runs-Reach : {s t : System} → Reach s → Runs s t → Reach t
Runs-Reach r done = r
Runs-Reach r (next run step) = later (Runs-Reach r run) step

scan-Runs :
    (s₀ : System) (k : ℕ) (s : System) (i j max : ℕ)
    → s.desk ≡ scan i j max
    → k + j ≡ clients
    → Runs s₀ s
    → Runs s₀ (record s { desk = scan i clients (highest s.mem.number k j max) })
unfolding highest
scan-Runs s₀ zero s i j max d e run =
    let last : j ≡ clients = omega (arith, e) in
    subst (λ d. Runs s₀ (record s { desk = d })) (d ∙ ap (λ j. scan i j max) last) run
scan-Runs s₀ (suc k) s i j max d e run = elim (dec_lt max (s.mem.number j)) [
  | yes more ↦ rw (lt→ltb max (s.mem.number j) more) (
      scan-Runs s₀ k (record s { desk = scan i (j + 1) (s.mem.number j) }) i (j + 1) _ refl
        (omega (arith, e))
        (next (next run (serve (higher d (omega (arith, e)) more))) (serve (keep refl))))
  | no not_more ↦ rw (ltb_of_ge max (s.mem.number j) (omega (arith, not_more))) (
      scan-Runs s₀ k (record s { desk = scan i (j + 1) max }) i (j + 1) max refl (omega (arith, e))
        (next run (serve (not_higher d (omega (arith, e)) (omega (arith, not_more))))))
]

highest-le : (number : ℕ → ℕ) (k j max : ℕ) → max ≤ highest number k j max
unfolding highest
highest-le number zero j max = omega arith
highest-le number (suc k) j max =
    ground (arith, highest-le number k (j + 1) (if ltb max (number j) then number j else max))

highest_all :
    (number : ℕ → ℕ) (k j max l : ℕ) → j ≤ l → l < j + k → number l ≤ highest number k j max
unfolding highest
highest_all number zero j max l le lt = absurd (omega (arith, le, lt))
highest_all number (suc k) j max l le lt =
    let max' = if ltb max (number j) then number j else max in
    elim (ℕ_discrete j l) [
      | yes e ↦ ground (arith, ap number e, highest-le number k (j + 1) max')
      | no ne ↦ highest_all number k (j + 1) max' l (omega (arith, le, ne)) (omega (arith, lt))
    ]

-- From a reachable state in which no call of get_number is running and fewer than 30 numbers were
-- given, the desk can run a call to its end by itself, and that does what get_number does as one
-- step; the number that it gives is higher than that of every other client.
pub get_number-Runs :
    (s : System)
    → Reach s
    → s.desk ≡ idle
    → s.mem.num < clients
    → Runs s (get_number s)
      × Reach (get_number s)
      × ((j : ℕ)
          → s.mem.num ≢ j
          → (get_number s).mem.number j < (get_number s).mem.number s.mem.num)
unfolding get_number
get_number-Runs s r d few = (run, Runs-Reach r run, higher_than)
  where
    scanned : Runs s (record s {
      mem = record s.mem { num = s.mem.num + 1; choosing = move s.mem.choosing s.mem.num 1 };
      desk = scan s.mem.num clients (highest s.mem.number clients 0 0);
    })
    scanned = scan-Runs s clients _ s.mem.num 0 0 refl refl (next done (serve (take d few)))

    run : Runs s (get_number s)
    run =
        next (next (next scanned (serve (assign refl))) (serve (tell refl))) (serve (hand_out refl))

    inv : Inv s.mem.number s.mem.num idle s.at
    inv = subst (λ d. Inv s.mem.number s.mem.num d s.at) d (Reach-Inv r)

    below : (j : ℕ) → s.mem.number j ≤ highest s.mem.number clients 0 0
    below j = elim (dec_lt j clients) [
      | yes low ↦ highest_all s.mem.number clients 0 0 j (omega arith) (omega (arith, low))
      | no high ↦ omega (arith, inv.fresh j (omega (arith, few, high)))
    ]

    higher_than :
        (j : ℕ) → s.mem.num ≢ j → (get_number s).mem.number j < (get_number s).mem.number s.mem.num
    higher_than j ne = rw (==_of_ne s.mem.num j ne, ==_self s.mem.num) (omega (arith, below j))
