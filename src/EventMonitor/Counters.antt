-- ===== src/EventMonitor/Counters.antt =====
-- What the counters and the mutex of unix-lab-05/main.c say in every reachable state.
use ics7_os.Common.{
  ℕ, ◌+◌, ◌≤◌, ◌<◌, ◌≡◌, ◌≢◌, refl, sym, ap, ◌∙◌, ◌⊎◌, inl, inr, none, some, arith, ltb,
  if◌then◌else◌,
}
use ics7_os.Common.Threads.{move, move_all, weight, weight-move, weight_one, weight_zero}
use ics7_os.EventMonitor.Winapi.{Signals, Mutex, Kernel}
use ics7_os.EventMonitor.{
  r_num, w_num, Shared, Handles, Place, begin_read, lock_mutex, test_writers, try_write, await_read,
  signal_read, count_active, uncount_reader, unlock_mutex, print_read, end_read, begin_write,
  test_writer, try_read, await_write, uncount_writer, finished, Move, do_begin_read, do_lock,
  do_unlock, IsTurn, reader, writer, System, init, StepOf, go, turn, last, pick, Reach, here, later,
}

-- In startRead between the two changes of `_waiting_readers`.
abbrev pub waits : Place → ℕ
waits lock_mutex = 1
waits test_writers = 1
waits try_write = 1
waits await_read = 1
waits signal_read = 1
waits count_active = 1
waits uncount_reader = 1
waits _ = 0

-- Between the two changes of `_active_readers`.
abbrev pub reads : Place → ℕ
reads uncount_reader = 1
reads unlock_mutex = 1
reads print_read = 1
reads end_read = 1
reads _ = 0

-- Between the two changes of `_waiting_writers`.
abbrev pub waits_write : Place → ℕ
waits_write test_writer = 1
waits_write try_read = 1
waits_write await_write = 1
waits_write uncount_writer = 1
waits_write _ = 0

-- Between the lock and the release of the mutex.
abbrev pub holds : Place → ℕ
holds test_writers = 1
holds try_write = 1
holds await_read = 1
holds signal_read = 1
holds count_active = 1
holds uncount_reader = 1
holds unlock_mutex = 1
holds _ = 0

abbrev pub threads : ℕ
threads = r_num + w_num

pub record Inv (m : Shared) (at : ℕ → Place) : Type 0 where
  pub waiting : m.waiting_readers ≡ weight waits threads at
  pub active : m.active_readers ≡ weight reads threads at
  pub writing : m.waiting_writers ≡ weight waits_write threads at
  pub owned : (j : ℕ) → holds (at j) ≡ 1 → m.mutex ≡ some j
  pub owner : (j : ℕ) → m.mutex ≡ some j → holds (at j) ≡ 1

-- What a move does to the mutex.
abbrev Change : Kernel → ℕ → Shared → Place → Shared → Place → Type 0
Change k i m p m' q =
    ((m'.mutex ≡ m.mutex) × (holds q ≡ holds p))
    ⊎ (((k.lock m.mutex i ≡ some m'.mutex) × (holds p ≡ 0) × (holds q ≡ 1))
        ⊎ ((k.unlock m.mutex i ≡ some m'.mutex) × (holds p ≡ 1) × (holds q ≡ 0)))

-- What a step does to the counters, given the places before and after it.
record Counts (m : Shared) (p : Place) (m' : Shared) (q : Place) : Type 0 where
  waiting : waits p ≤ m.waiting_readers → m'.waiting_readers + waits p ≡ m.waiting_readers + waits q
  active : reads p ≤ m.active_readers → m'.active_readers + reads p ≡ m.active_readers + reads q
  writing :
      waits_write p ≤ m.waiting_writers
      → m'.waiting_writers + waits_write p ≡ m.waiting_writers + waits_write q

Move-waits :
    {k : Kernel} {hs : Handles} {i : ℕ} {m m' : Shared} {p q : Place}
    → Move k hs i m p m' q
    → waits p ≤ m.waiting_readers
    → m'.waiting_readers + waits p ≡ m.waiting_readers + waits q
Move-waits do_begin_read h = omega arith
Move-waits _ h = omega arith

Move-reads :
    {k : Kernel} {hs : Handles} {i : ℕ} {m m' : Shared} {p q : Place}
    → Move k hs i m p m' q
    → reads p ≤ m.active_readers
    → m'.active_readers + reads p ≡ m.active_readers + reads q
Move-reads do_begin_read h = omega arith
Move-reads _ h = omega arith

Move-waits_write :
    {k : Kernel} {hs : Handles} {i : ℕ} {m m' : Shared} {p q : Place}
    → Move k hs i m p m' q
    → waits_write p ≤ m.waiting_writers
    → m'.waiting_writers + waits_write p ≡ m.waiting_writers + waits_write q
Move-waits_write do_begin_read h = omega arith
Move-waits_write _ h = omega arith

Move-Change :
    {k : Kernel} {hs : Handles} {i : ℕ} {m m' : Shared} {p q : Place}
    → Move k hs i m p m' q
    → Change k i m p m' q
Move-Change (do_lock e) = inr (inl (e, refl, refl))
Move-Change (do_unlock e) = inr (inr (e, refl, refl))
Move-Change _ = inl (refl, refl)

-- A turn changes no counter and no mutex, and so does the end.
IsTurn-idle :
    {p q : Place} {runs : ℕ}
    → IsTurn p q runs
    → (waits p + reads p + waits_write p + holds p ≡ 0)
      × (waits q + reads q + waits_write q + holds q ≡ 0)
IsTurn-idle reader = (refl, refl)
IsTurn-idle writer = (refl, refl)

Counts-idle :
    (m : Shared) (p q : Place)
    → waits p + reads p + waits_write p + holds p ≡ 0
    → waits q + reads q + waits_write q + holds q ≡ 0
    → Counts m p m q
Counts-idle m p q h h' = record {
  waiting = λ _. omega arith;
  active = λ _. omega arith;
  writing = λ _. omega arith;
}

lock_result :
    (k : Kernel) (i : ℕ) (x : Mutex) {y : Mutex}
    → x ≢ some i
    → k.lock x i ≡ some y
    → (x ≡ none) × (y ≡ some i)
lock_result k i none other e = (refl, cc (k.lock_free i))
lock_result k i (some j) other e = absurd (cc (k.lock_owned i j (λ q. other (ap some q))))

unlock_result : (k : Kernel) (i : ℕ) {x y : Mutex} → x ≡ some i → k.unlock x i ≡ some y → y ≡ none
unlock_result k i own e = cc (k.unlock_own i)

module _ (k : Kernel) {m : Shared} {at : ℕ → Place} (inv : Inv m at) (i : ℕ) where
  locked :
      (m' : Shared)
      → k.lock m.mutex i ≡ some m'.mutex
      → holds (at i) ≡ 0
      → (m.mutex ≡ none) × (m'.mutex ≡ some i)
  locked m' e h = lock_result k i m.mutex (λ q. omega (arith, h, inv.owner i q)) e

  keeps_owned :
      (m' : Shared) (q : Place)
      → Change k i m (at i) m' q
      → (j : ℕ) → holds (move at i q j) ≡ 1
      → m'.mutex ≡ some j
  keeps_owned m' q (inl (e, h)) =
      move_all (λ j p. holds p ≡ 1 → m'.mutex ≡ some j) at i q (λ c. e ∙ inv.owned i (sym h ∙ c))
        (λ j _ c. e ∙ inv.owned j c)
  keeps_owned m' q (inr (inl (e, h, h'))) =
      let (free, mine) = locked m' e h in
      move_all (λ j p. holds p ≡ 1 → m'.mutex ≡ some j) at i q (λ _. mine)
        (λ j _ c. absurd (cc (free, inv.owned j c)))
  keeps_owned m' q (inr (inr (e, h, h'))) =
      move_all (λ j p. holds p ≡ 1 → m'.mutex ≡ some j) at i q (λ c. absurd (omega (arith, c, h')))
        (λ j ne c. absurd (ne (cc (inv.owned i h, inv.owned j c))))

  keeps_owner :
      (m' : Shared) (q : Place)
      → Change k i m (at i) m' q
      → (j : ℕ) → m'.mutex ≡ some j
      → holds (move at i q j) ≡ 1
  keeps_owner m' q (inl (e, h)) =
      move_all (λ j p. m'.mutex ≡ some j → holds p ≡ 1) at i q (λ c. h ∙ inv.owner i (sym e ∙ c))
        (λ j _ c. inv.owner j (sym e ∙ c))
  keeps_owner m' q (inr (inl (e, h, h'))) =
      let (free, mine) = locked m' e h in
      move_all (λ j p. m'.mutex ≡ some j → holds p ≡ 1) at i q (λ _. h')
        (λ j ne c. absurd (ne (cc (mine, c))))
  keeps_owner m' q (inr (inr (e, h, h'))) =
      let given_back = unlock_result k i (inv.owned i h) e in λ j c. absurd (cc (given_back, c))

  -- A step of thread `i` keeps the invariant.
  Inv-move :
      {m' : Shared} {q : Place}
      → i < threads
      → Counts m (at i) m' q
      → Change k i m (at i) m' q
      → Inv m' (move at i q)
  Inv-move {m'} {q} low c change = record {
    waiting = omega (
      arith,
      weight-move waits threads i at q low,
      inv.waiting,
      c.waiting (omega (arith, weight_one waits threads i at low, inv.waiting)),
    );
    active = omega (
      arith,
      weight-move reads threads i at q low,
      inv.active,
      c.active (omega (arith, weight_one reads threads i at low, inv.active)),
    );
    writing = omega (
      arith,
      weight-move waits_write threads i at q low,
      inv.writing,
      c.writing (omega (arith, weight_one waits_write threads i at low, inv.writing)),
    );
    owned = keeps_owned m' q change;
    owner = keeps_owner m' q change;
  }

StepOf-Inv :
    {k : Kernel} {hs : Handles} {i : ℕ} {s t : System}
    → i < threads
    → Inv s.mem s.at
    → StepOf k hs i s t
    → Inv t.mem t.at
StepOf-Inv {k} {i} low inv (go mv) =
    Inv-move k inv i low
      (record { waiting = Move-waits mv; active = Move-reads mv; writing = Move-waits_write mv })
      (Move-Change mv)
StepOf-Inv {k} {i} {s} low inv (turn {p} is h) =
    let (before, after) = IsTurn-idle is in
    Inv-move k inv i low (Counts-idle s.mem (s.at i) p before after)
      (inl (refl, omega (arith, before, after)))
StepOf-Inv {k} {i} {s} low inv (last is h) =
    let (before, _after) = IsTurn-idle is in
    Inv-move k inv i low (Counts-idle s.mem (s.at i) finished before refl)
      (inl (refl, omega (arith, before)))

pub Reach-Inv :
    {k : Kernel} {hs : Handles} (silent : Signals) {s : System}
    → Reach k hs (init silent none) s
    → Inv s.mem s.at
unfolding init
Reach-Inv silent here = record {
  waiting = omega (arith, weight_zero waits threads _ (λ i _. idle waits i refl refl));
  active = omega (arith, weight_zero reads threads _ (λ i _. idle reads i refl refl));
  writing = omega (arith, weight_zero waits_write threads _ (λ i _. idle waits_write i refl refl));
  owned = λ j h. absurd (omega (arith, h, idle holds j refl refl));
  owner = λ j h. absurd (cc h);
}
  where
    idle :
        (w : Place → ℕ) (i : ℕ)
        → w begin_read ≡ 0
        → w begin_write ≡ 0
        → w (if ltb i r_num then begin_read else begin_write) ≡ 0
    idle w i a b = ground arith
Reach-Inv silent (later r (pick i low step)) = StepOf-Inv low (Reach-Inv silent r) step

module _ (k : Kernel) (hs : Handles) (silent : Signals) (s : System)
    (r : Reach k hs (init silent none) s) where
  -- In every reachable state, the three counters are the numbers of threads between the two changes
  -- of each: no change is lost, and none goes below zero.
  pub counters_exact :
      (s.mem.waiting_readers ≡ weight waits threads s.at)
      × (s.mem.active_readers ≡ weight reads threads s.at)
      × (s.mem.waiting_writers ≡ weight waits_write threads s.at)
  counters_exact = let inv = Reach-Inv silent r in (inv.waiting, inv.active, inv.writing)

  -- In every reachable state, two readers between the lock and the release of the mutex are the
  -- same.
  pub entry_exclusive : (i j : ℕ) → holds (s.at i) ≡ 1 → holds (s.at j) ≡ 1 → i ≡ j
  entry_exclusive i j h h' = let inv = Reach-Inv silent r in cc (inv.owned i h, inv.owned j h')
