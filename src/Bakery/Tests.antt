-- ===== src/Bakery/Tests.antt =====
-- Runs of bakery_server.c: one client after the other, and its theorems at the states reached.
use ics7_os.Common.{
  ℕ, zero, suc, ◌+◌, ◌<◌, ◌≡◌, ◌≢◌, refl, subst, ap, ◌∙◌, false, arith, length, [], ◌∷◌, ◌++◌,
  ==_self, ==_of_ne, ℕ_discrete,
}
use ics7_os.Common.Threads.{move, move_all}
use ics7_os.Bakery.{
  clients, Server, idle, scan, note, unchoose, held, check, compare, enter, bump, put, inside, left,
  System, blocked, take, not_higher, assign, tell, hand_out, wait_queue, chosen, ahead, through,
  do_enter, do_bump, do_put, leave, serve, work, init, Reach, start, later, critical,
}
use ics7_os.Bakery.Safety.{critical_exclusive, served_in_order}
use ics7_os.Bakery.Calls.{get_number, Runs, get_number-Runs}
use ics7_os.Bakery.Letters.{symbols, given_in_order}

-- The desk reads all the numbers, which are 0.
scan_all :
    (k : ℕ) (s : System) (i j : ℕ)
    → Reach s
    → s.desk ≡ scan i j 0
    → k + j ≡ clients
    → ((l : ℕ) → s.mem.number l ≡ 0)
    → (t : System) × Reach t × (t.desk ≡ scan i clients 0) × (t.mem ≡ s.mem) × (t.at ≡ s.at)
scan_all zero s i j r d e none =
    let last : j ≡ clients = omega (arith, e) in (s, r, d ∙ ap (λ j. scan i j 0) last, refl, refl)
scan_all (suc k) s i j r d e none =
    scan_all k (record s { desk = scan i (j + 1) 0 }) i (j + 1)
      (later r (serve (not_higher d (omega (arith, e)) (omega (arith, none j))))) refl
      (omega (arith, e)) none

-- A client waits for nobody.
walk_all :
    (k : ℕ) (s : System) (i j : ℕ)
    → Reach s
    → s.at i ≡ check j
    → k + j ≡ clients
    → ((l : ℕ) → s.mem.choosing l ≡ 0)
    → ((l : ℕ) → blocked s.mem.number i l ≡ false)
    → (t : System) × Reach t
      × (t.at i ≡ check clients)
      × (t.mem ≡ s.mem)
      × (t.desk ≡ s.desk)
      × ((l : ℕ) → i ≢ l → t.at l ≡ s.at l)
walk_all zero s i j r here e free first =
    let last : j ≡ clients = omega (arith, e) in
    (s, r, here ∙ ap check last, refl, refl, (λ l ne. refl))
walk_all (suc k) s i j r here e free first =
    let s₁ : System = record s { at = move s.at i (compare j) } in
    let r₁ : Reach s₁ = later r (work i (chosen here (omega (arith, e)) (free j))) in
    let s₂ : System = record s₁ { at = move s₁.at i (check (j + 1)) } in
    let r₂ : Reach s₂ = later r₁ (work i (ahead (rw (==_self i)) (first j))) in
    let (t, r', there, m, d, same) =
      walk_all k s₂ i (j + 1) r₂ (rw (==_self i)) (omega (arith, e)) free first in
    (t, r', there, m, d, (λ l ne. same l ne ∙ rw (==_of_ne i l ne)))

-- Nobody has a number, and the desk is idle.
record Quiet (s : System) (n : ℕ) : Type 0 where
  reached : Reach s
  free : s.desk ≡ idle
  next : s.mem.num ≡ n
  numbers : (l : ℕ) → s.mem.number l ≡ 0
  choosing : (l : ℕ) → s.mem.choosing l ≡ 0

record Entered (s : System) (n : ℕ) (t : System) : Type 0 where
  reached : Reach t
  free : t.desk ≡ idle
  next : t.mem.num ≡ n + 1
  here : t.at n ≡ enter
  own : t.mem.number n ≡ 1
  numbers : (l : ℕ) → n ≢ l → t.mem.number l ≡ 0
  others : (l : ℕ) → n ≢ l → t.at l ≡ s.at l
  choosing : (l : ℕ) → t.mem.choosing l ≡ 0

first_blocked :
    (number : ℕ → ℕ) (i l : ℕ) → ((j : ℕ) → i ≢ j → number j ≡ 0) → blocked number i l ≡ false
first_blocked number i l none = elim (ℕ_discrete i l) [
  | yes e ↦ rw e (ground arith)
  | no ne ↦ rw (none l ne)
]

come_in : (s : System) (n : ℕ) → Quiet s n → n < clients → (t : System) × Entered s n t
come_in s n q small =
    let s₁ : System = record s {
      mem = record s.mem { num = s.mem.num + 1; choosing = move s.mem.choosing s.mem.num 1 };
      desk = scan s.mem.num 0 0;
    } in
    let r₁ : Reach s₁ = later q.reached (serve (take q.free (rw q.next small))) in
    let (s₂, r₂, d₂, m₂, a₂) = scan_all clients s₁ s.mem.num 0 r₁ refl refl q.numbers in
    let i : ℕ = s.mem.num in
    let s₃ : System = record s₂ {
      mem = record s₂.mem { number = move s₂.mem.number i 1 };
      desk = note i;
    } in
    let r₃ : Reach s₃ = later r₂ (serve (assign d₂)) in
    let s₄ : System = record s₃ { desk = unchoose i } in
    let r₄ : Reach s₄ = later r₃ (serve (tell refl)) in
    let s₅ : System = record s₄ {
      mem = record s₄.mem { choosing = move s₄.mem.choosing i 0 };
      desk = idle;
      at = move s₄.at i held;
    } in
    let r₅ : Reach s₅ = later r₄ (serve (hand_out refl)) in
    let s₆ : System = record s₅ {
      mem = record s₅.mem {
        id = move s₅.mem.id s₅.mem.idx_thread_create i;
        idx_thread_create = s₅.mem.idx_thread_create + 1;
      };
      at = move s₅.at i (check 0);
      slot = move s₅.slot i s₅.mem.idx_thread_create;
    } in
    let r₆ : Reach s₆ = later r₅ (serve (wait_queue i refl (rw (==_self i)))) in
    let none : (l : ℕ) → i ≢ l → s₆.mem.number l ≡ 0 =
      λ l ne. rw (==_of_ne i l ne) (rw m₂ (q.numbers l)) in
    let open_now : (l : ℕ) → s₆.mem.choosing l ≡ 0 =
      move_all (λ _ c. c ≡ 0) s₂.mem.choosing i 0 refl
        (λ l ne. rw m₂ (rw (==_of_ne i l ne) (q.choosing l))) in
    let (t, r, there, m, d, same) =
      walk_all clients s₆ i 0 r₆ (rw (==_self i)) refl open_now
        (λ l. first_blocked s₆.mem.number i l none) in
    let t' : System = record t { at = move t.at i enter } in
    (
      t',
      subst (λ k. Entered s k t') q.next
          (record {
            reached = later r (work i (through there));
            free = d;
            next = ap (λ m. m.num) m ∙ ap (λ m. m.num) m₂;
            here = rw (==_self i);
            own = ap (λ m. m.number i) m ∙ rw (==_self i);
            numbers = λ l ne. ap (λ m. m.number l) m ∙ none l ne;
            others = λ l ne.
                rw (==_of_ne i l ne) (same l ne ∙ rw (==_of_ne i l ne) (ap (λ at. at l) a₂));
            choosing = λ l. ap (λ m. m.choosing l) m ∙ open_now l;
          }),
    )

-- The client takes its symbol and leaves.
go_out : (s t : System) (n : ℕ) → Entered s n t → (u : System) × Quiet u (n + 1) × (u.at n ≡ left)
go_out s t n e =
    let m₁ : Server = record t.mem {
      res = move t.mem.res (t.slot n) t.mem.symbol;
      given = t.mem.given ++ t.mem.symbol ∷ [];
    } in
    let t₁ : System = record t { mem = m₁; at = move t.at n bump } in
    let r₁ : Reach t₁ = later e.reached (work n (do_enter e.here)) in
    let t₂ : System = record t₁ { at = move t₁.at n (put m₁.symbol) } in
    let r₂ : Reach t₂ = later r₁ (work n (do_bump (rw (==_self n)))) in
    let t₃ : System = record t₂ {
      mem = record m₁ { symbol = m₁.symbol + 1 };
      at = move t₂.at n inside;
    } in
    let r₃ : Reach t₃ = later r₂ (work n (do_put (rw (==_self n)))) in
    (
      record t₃ { mem = record t₃.mem { number = move t₃.mem.number n 0 }; at = move t₃.at n left },
      record {
        reached = later r₃ (work n (leave (rw (==_self n))));
        free = e.free;
        next = e.next;
        numbers = move_all (λ _ k. k ≡ 0) t.mem.number n 0 refl e.numbers;
        choosing = e.choosing;
      },
      rw (==_self n),
    )

begin : Quiet init 0
unfolding init
begin = record {
  reached = start;
  free = refl;
  next = refl;
  numbers = λ _. refl;
  choosing = λ _. refl;
}

-- The first client has come and gone, and the second one is in the section.
second_in : (t : System) × Reach t × (t.at 1 ≡ enter) × (t.at 0 ≡ left) × (t.mem.number 1 ≡ 1)
second_in =
    let (t, e) = come_in init 0 begin (omega arith) in
    let (u, q, gone) = go_out init t 0 e in
    let (v, e') = come_in u 1 q (omega arith) in
    (v, e'.reached, e'.here, served_in_order v e'.reached 1 0 (rw e'.here) (omega arith), e'.own)

critical_exclusive_example : ◌≡◌ {A = ℕ} 1 1
critical_exclusive_example =
    critical_exclusive second_in.0 second_in.1 1 1 (ap critical second_in.2)
      (ap critical second_in.2)

served_in_order_example : second_in.0.at 0 ≡ left
served_in_order_example =
    served_in_order second_in.0 second_in.1 1 0 (ap critical second_in.2) (omega arith)

given_in_order_example : second_in.0.mem.given ≡ symbols (length second_in.0.mem.given)
given_in_order_example = given_in_order second_in.0 second_in.1

-- The first client is in the section, and no other is there.
first_in : (t : System) × Entered init 0 t
first_in = come_in init 0 begin (omega arith)

get_number-Runs_example :
    Runs first_in.0 (get_number first_in.0)
    × Reach (get_number first_in.0)
    × ((j : ℕ)
        → first_in.0.mem.num ≢ j
        → (get_number first_in.0).mem.number j
          < (get_number first_in.0).mem.number first_in.0.mem.num)
get_number-Runs_example =
    get_number-Runs first_in.0 first_in.1.reached first_in.1.free (omega (arith, first_in.1.next))
