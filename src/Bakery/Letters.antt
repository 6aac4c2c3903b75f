-- ===== src/Bakery/Letters.antt =====
-- The symbols that bakery_server.c gives to its clients.
use ics7_os.Common.{
  ℕ, zero, suc, ◌+◌, ◌≤◌, ◌<◌, ◌≡◌, ◌≢◌, refl, subst, sym, ap, ap₂, ◌∙◌, List, [], ◌∷◌, ◌++◌,
  length, length-append, arith, ℕ_discrete, dec_lt,
}
use ics7_os.Common.Threads.{move, move_all, weight, weight-move, weight_zero}
use ics7_os.Bakery.{
  clients, Server, Place, absent, held, check, compare, enter, bump, put, inside, left, System,
  Serve, take, higher, not_higher, keep, assign, tell, hand_out, wait_queue, no_thread, bakery_res,
  Work, chosen, ahead, through, do_enter, do_bump, do_put, leave, serve, work, init, Reach, start,
  later, critical,
}
use ics7_os.Bakery.Invariant.{present, Inv}
use ics7_os.Bakery.Turns.{Reach-Inv}
use ics7_os.Bakery.Safety.{is_client, one_critical}

-- `n` symbols from 'a' on.
unfoldable pub symbols : ℕ → List ℕ
symbols zero = []
symbols (suc n) = symbols n ++ (b'a' + n) ∷ []

-- Between the store to `res` and the store to `symbol`.
abbrev pub lagging : Place → ℕ
lagging bump = 1
lagging (put _) = 1
lagging _ = 0

abbrev Loaded : ℕ → Place → Type 0
Loaded symbol (put v) = v ≡ symbol
Loaded symbol _ = Unit

record Given (m : Server) (at : ℕ → Place) : Type 0 where
  said : m.given ≡ symbols (length m.given)
  count : m.symbol + weight lagging clients at ≡ b'a' + length m.given
  loaded : (i : ℕ) → Loaded m.symbol (at i)

lagging-critical : (p : Place) → (lagging p ≤ critical p) × (lagging p ≤ 1) × (critical p ≤ 1)
lagging-critical absent = omega arith
lagging-critical held = omega arith
lagging-critical (check _) = omega arith
lagging-critical (compare _) = omega arith
lagging-critical enter = omega arith
lagging-critical bump = omega arith
lagging-critical (put _) = omega arith
lagging-critical inside = omega arith
lagging-critical left = omega arith

-- A place that is not between the two stores.
Loaded-other : (v : ℕ) (p : Place) → lagging p ≡ 0 → Loaded v p
Loaded-other v absent q = tt
Loaded-other v held q = tt
Loaded-other v (check _) q = tt
Loaded-other v (compare _) q = tt
Loaded-other v enter q = tt
Loaded-other v bump q = tt
Loaded-other v (put _) q = absurd (omega (arith, q))
Loaded-other v inside q = tt
Loaded-other v left q = tt

not_yet : (p : Place) → ¬ (present p ≡ 1) → lagging p ≡ 0
not_yet absent out = refl
not_yet held out = refl
not_yet (check _) out = refl
not_yet (compare _) out = refl
not_yet enter out = refl
not_yet bump out = absurd (out refl)
not_yet (put _) out = absurd (out refl)
not_yet inside out = refl
not_yet left out = refl

-- A client goes from one place outside the two stores to another.
Given-move :
    (m m' : Server) (at : ℕ → Place) (i : ℕ) (p : Place)
    → m'.given ≡ m.given
    → m'.symbol ≡ m.symbol
    → Given m at
    → i < clients
    → lagging (at i) ≡ 0
    → lagging p ≡ 0
    → Given m' (move at i p)
Given-move m m' at i p same same' g low before after = record {
  said = rw same g.said;
  count = rw (same, same') (omega (arith, g.count, weight-move lagging clients i at p low));
  loaded = rw same' (
      move_all (λ j q. Loaded m.symbol q) at i p (Loaded-other m.symbol p after)
        (λ j _. g.loaded j));
}

module _ (s : System) (inv : Inv s.mem.number s.mem.num s.desk s.at) (g : Given s.mem s.at) where
  client_at : (i : ℕ) {p : Place} → s.at i ≡ p → present p ≡ 1 → i < clients
  client_at i here q = is_client inv i (rw here q)

  -- Nobody else is between the two stores.
  others : (i : ℕ) → critical (s.at i) ≡ 1 → (j : ℕ) → i ≢ j → lagging (s.at j) ≡ 0
  others i q j ne = elim (dec_lt 0 (lagging (s.at j))) [
    | yes some ↦
        absurd (ne (one_critical inv i j q (omega (arith, some, lagging-critical (s.at j)))))
    | no none ↦ omega (arith, none)
  ]

  Work-Given : {i : ℕ} {m : Server} {p : Place} → Work s i m p → Given m (move s.at i p)
  unfolding symbols
  Work-Given {i} (chosen here h q) =
      Given-move s.mem s.mem s.at i _ refl refl g (client_at i here refl) (rw here) refl
  Work-Given {i} (ahead here q) =
      Given-move s.mem s.mem s.at i _ refl refl g (client_at i here refl) (rw here) refl
  Work-Given {i} (through here) =
      Given-move s.mem s.mem s.at i _ refl refl g (client_at i here refl) (rw here) refl
  Work-Given {i} (leave here) =
      Given-move s.mem _ s.at i _ refl refl g (client_at i here refl) (rw here) refl
  Work-Given {i} (do_enter here) =
      let here' : critical (s.at i) ≡ 1 = rw here in
      let before : lagging (s.at i) ≡ 0 = rw here in
      let alone = weight_zero lagging clients s.at (λ j _. elim (ℕ_discrete i j) [
        | yes e ↦ subst (λ l. lagging (s.at l) ≡ 0) e before
        | no ne ↦ others i here' j ne
      ]) in
      let more = length-append s.mem.given (s.mem.symbol ∷ []) in
      let one_more : length (s.mem.given ++ s.mem.symbol ∷ []) ≡ suc (length s.mem.given) =
        omega (arith, more) in
      let now : s.mem.symbol ≡ b'a' + length s.mem.given = omega (arith, alone, g.count) in
      record {
        said = ap₂ (λ l v. l ++ v ∷ []) g.said now ∙ sym (ap symbols one_more);
        count = omega (
          arith,
          more,
          g.count,
          before,
          weight-move lagging clients i s.at bump (client_at i here refl),
        );
        loaded = move_all (λ j q. Loaded s.mem.symbol q) s.at i bump tt (λ j _. g.loaded j);
      }
  Work-Given {i} (do_bump here) =
      let before : lagging (s.at i) ≡ 1 = rw here in
      record {
        said = g.said;
        count = omega (
          arith,
          g.count,
          before,
          weight-move lagging clients i s.at (put s.mem.symbol) (client_at i here refl),
        );
        loaded =
            move_all (λ j q. Loaded s.mem.symbol q) s.at i (put s.mem.symbol) refl
              (λ j _. g.loaded j);
      }
  Work-Given {i} (do_put {v} here) =
      let here' : critical (s.at i) ≡ 1 = rw here in
      let before : lagging (s.at i) ≡ 1 = rw here in
      let read : v ≡ s.mem.symbol = subst (Loaded s.mem.symbol) here (g.loaded i) in
      record {
        said = g.said;
        count = omega (
          arith,
          g.count,
          before,
          read,
          weight-move lagging clients i s.at inside (client_at i here refl),
        );
        loaded =
            move_all (λ j q. Loaded (v + 1) q) s.at i inside tt
              (λ j ne. Loaded-other (v + 1) (s.at j) (others i here' j ne));
      }

  Serve-Given : {t : System} → Serve s t → Given t.mem t.at
  Serve-Given (take d h) = record { said = g.said; count = g.count; loaded = g.loaded }
  Serve-Given (higher d h more) = g
  Serve-Given (not_higher d h le) = g
  Serve-Given (keep d) = g
  Serve-Given (assign d) = record { said = g.said; count = g.count; loaded = g.loaded }
  Serve-Given (tell d) = g
  Serve-Given (hand_out {i} d) =
      let inv' = subst (λ d. Inv s.mem.number s.mem.num d s.at) d inv in
      Given-move s.mem _ s.at i held refl refl g (omega (arith, inv'.names, inv'.few))
        (not_yet (s.at i) (λ q. omega (arith, inv'.known i q, inv'.names))) refl
  Serve-Given (wait_queue pid d here) =
      Given-move s.mem _ s.at pid (check 0) refl refl g (client_at pid here refl) (rw here) refl
  Serve-Given (no_thread pid d here) = record { said = g.said; count = g.count; loaded = g.loaded }
  Serve-Given (bakery_res pid i d h k l) = record {
    said = g.said;
    count = g.count;
    loaded = g.loaded;
  }

Reach-Given : {s : System} → Reach s → Given s.mem s.at
unfolding init symbols
Reach-Given start = record {
  said = refl;
  count = omega (arith, weight_zero lagging clients (λ _. absent) (λ _ _. refl));
  loaded = λ _. tt;
}
Reach-Given (later r (serve step)) = Serve-Given _ (Reach-Inv r) (Reach-Given r) step
Reach-Given (later r (work i step)) = Work-Given _ (Reach-Inv r) (Reach-Given r) step

-- In every reachable state, the symbols stored for the clients are those from 'a' on, in the order
-- in which the clients entered, none left out or given twice, though `symbol++` is not atomic.
pub given_in_order : (s : System) → Reach s → s.mem.given ≡ symbols (length s.mem.given)
given_in_order s r = (Reach-Given r).said
