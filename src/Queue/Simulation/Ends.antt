-- ===== src/Queue/Simulation/Ends.antt =====
-- `start_list_time` as a whole: its rounds, and what it frees at the end.
use ics7_os.Common.{
  ℕ, zero, suc, ◌+◌, ◌*◌, ◌≤◌, ◌<◌, ◌≡◌, refl, ap, sym, subst, ◌∙◌, inl, inr, Bool, Bool-cases,
  none, some, List, [], ◌∷◌, length, All, All-mono, arith, ltb, ℕ_discrete,
}
use ics7_os.Common.Options.{◌>>=◌}
use ics7_os.Memory.{Ptr}
use ics7_os.Queue.{Heap, Allocator, size}
use ics7_os.Queue.Chain.{Apart, Disjoint, Linked}
use ics7_os.Queue.Fifo.{free_all_lem}
use ics7_os.Queue.Simulation.Shape.{Good, Good-later}
use ics7_os.Queue.Simulation.Rounds.{arrival_1-After, arrival_2-After, service-After}
use ics7_os.Queue.Simulation.Reports.{Sound, Tally, report-Tally}
use ics7_os.Queue.Times.{Arithmetic, Intervals}
use ics7_os.Queue.Simulation.{State, advance, round, rounds, start, finish, ending}

-- What is outside the first list is as it was, so the second one is.
Linked-kept :
    (h h' : Heap) (ps qs : List Ptr)
    → ((b : Ptr) → Apart b ps → h'.at b ≡ h.at b)
    → Disjoint ps qs
    → Linked h qs
    → Linked h' qs
Linked-kept h h' ps [] same d l = tt
Linked-kept h h' ps (q ∷ qs) same d l =
    (l.0, same q d.0 ∙ l.1, l.2, Linked-kept h h' ps qs same d.1 l.3)

-- What holds of the elements of a list and of all others holds of all.
everywhere {κ} :
    (P : Ptr → Type κ) (ps : List Ptr) → All P ps → ((b : Ptr) → Apart b ps → P b) → (b : Ptr) → P b
everywhere P [] h out b = out b tt
everywhere P (p ∷ ps) h out b = elim (ℕ_discrete p b) [
  | yes e ↦ subst P e h.0
  | no ne ↦
      everywhere P ps h.1
        (λ c apart. elim (ℕ_discrete p c) [ yes e ↦ subst P e h.0 | no ne ↦ out c (ne, apart) ]) b
]

module _ {ℓ} {D : Type ℓ} (f : Arithmetic D) (rand : ℕ → ℕ) (a : Allocator) (flag : Bool)
    (ts : Intervals D) (k : ℕ) where
  pub record Inv (b : ℕ) (s : State D) : Type ℓ where
    pub good : Good a b b s.lines
    pub tally : Tally {D = D} a s.i s.lines.one.n_quit s.printed

  round-Inv :
      (b : ℕ) (s : State D)
      → b + 1 < k
      → Inv b s
      → (t : State D) × (round f rand a flag ts k s ≡ some t) × Inv (b + 1) t
  unfolding round
  round-Inv b s room inv =
      let r1 = arrival_1-After f rand a flag ts k b b s (omega arith) inv.good in
      let r2 = arrival_2-After f rand a flag ts k (b + 1) b r1.next (omega arith) r1.good in
      let r3 = service-After f rand a flag ts k (b + 1) (b + 1) r2.next r2.good in
      let s' = advance f rand a flag ts k r3.next in
      let same_i : r3.next.i ≡ s.i = r3.same_i ∙ r2.same_i ∙ r1.same_i in
      let same : r3.next.printed ≡ s.printed =
        r3.same_printed ∙ r2.same_printed ∙ r1.same_printed in
      let (t, e, lines, tally) =
        report-Tally f rand a flag ts k (b + 1) (b + 1) s' room room r3.good
          (same_i ∙ inv.tally.hundreds ∙ ap (λ l. 100 * length l) (sym same))
          (omega (arith, same_i, inv.tally.low, r1.up, r2.up, r3.up))
          (omega (arith, same_i, inv.tally.high, r1.by, r2.by, r3.by))
          (subst (Sound a 0) (sym same) inv.tally.sound) in
      (
        t,
        rw (r1.ends, ◌>>=◌) (rw (r2.ends, ◌>>=◌) (rw (r3.ends, ◌>>=◌) e)),
        record { good = subst (Good a (b + 1) (b + 1)) (sym lines) r3.good; tally = tally },
      )

  rounds-Inv :
      (n b : ℕ) (s : State D)
      → b + n < k
      → Inv b s
      → (t : State D) × (rounds f rand a flag ts k n s ≡ some t) × Inv (b + n) t
  unfolding rounds
  rounds-Inv zero b s room inv = (
    s,
    refl,
    record { good = Good-later a (omega arith) (omega arith) inv.good; tally = inv.tally },
  )
  rounds-Inv (suc n) b s room inv = elim (Bool-cases (ltb s.lines.one.n_quit 1000)) [
    | inl e ↦
        let (t, e_round, inv') = round-Inv b s (omega arith) inv in
        let (u, e_rounds, inv'') = rounds-Inv n (b + 1) t (omega arith) inv' in
        (
          u,
          rw (e, rounds) (rw (e_round, ◌>>=◌) e_rounds),
          record {
            good = Good-later a (omega arith) (omega arith) inv''.good;
            tally = inv''.tally;
          },
        )
    | inr e ↦ (
      s,
      rw (e, rounds),
      record { good = Good-later a (omega arith) (omega arith) inv.good; tally = inv.tally },
    )
  ]

  start-Inv : (nought : D) → Inv 0 (start nought)
  start-Inv nought = record {
    good = record {
      ps = [];
      qs = [];
      shape = record { nodes = tt; nodes_2 = tt; disjoint = tt; rest = λ b _ _. refl };
      one = record {
        starts = refl;
        counted = omega arith;
        exact = λ _. refl;
        bounded = omega arith;
      };
      two = record {
        starts = refl;
        counted = omega arith;
        exact = λ _. refl;
        bounded = omega arith;
      };
      index = omega arith;
    };
    tally = record { hundreds = refl; low = omega arith; high = omega arith; sound = tt };
  }

  finish-Good :
      (b : ℕ) (s : State D)
      → b < k
      → Good a b b s.lines
      → (h : Heap) × (finish f rand a flag ts k s ≡ some (ending f rand a flag ts k s, h))
        × ((p : Ptr) → h.at p ≡ none)
  unfolding finish
  finish-Good b s room g =
      let (h, e, gone, same) =
        free_all_lem k s.lines.heap g.ps g.shape.nodes
          (omega (arith, g.one.counted, g.one.bounded)) in
      let (h', e', gone', same') =
        free_all_lem k h g.qs
          (Linked-kept s.lines.heap h g.ps g.qs same g.shape.disjoint g.shape.nodes_2)
          (omega (arith, g.two.counted, g.two.bounded)) in
      (
        h',
        rw (g.one.starts, g.two.starts) (rw (e, ◌>>=◌) (rw (e', ◌>>=◌))),
        everywhere (λ p. h'.at p ≡ none) g.qs gone'
            (λ p out.
              same' p out
              ∙ everywhere (λ q. Apart q g.qs → h.at q ≡ none) g.ps
                  (All-mono (λ q. h.at q ≡ none) (λ q. Apart q g.qs → h.at q ≡ none) g.ps
                    (λ q free _. free) gone)
                  (λ q out_1 out_2. same q out_1 ∙ g.shape.rest q out_1 out_2) p out),
      )

  -- With fuel for more than `n` nodes, `n` rounds of the loop end, with any results of `rand` and
  -- `malloc`, and for any `double`: no walk runs out and no freed or NULL address is read. What
  -- follows the loop then frees both queues: no block is in use any more. `adr_num` stays below N.
  pub start_list_time_lem :
      (n : ℕ) (nought : D)
      → n < k
      → (s : State D) × (rounds f rand a flag ts k n (start nought) ≡ some s)
        × (h : Heap) × (finish f rand a flag ts k s ≡ some (ending f rand a flag ts k s, h))
        × ((p : Ptr) → h.at p ≡ none)
        × (s.lines.adr.1 < size)
  start_list_time_lem n nought room =
      let (s, e, inv) = rounds-Inv n 0 (start nought) (omega (arith, room)) (start-Inv nought) in
      let (h, e', free) = finish-Good (0 + n) s (omega (arith, room)) inv.good in
      (s, e, h, e', free, inv.good.index)

  -- With fuel for more than `n` nodes, the blocks that `n` rounds print are for 100, 200 and so on
  -- requests that left the first queue, none left out. In each, what left and what is in the queue
  -- are no more than the count of what came; and as many, when malloc never fails.
  pub start_list_time-Sound :
      (n : ℕ) (nought : D)
      → n < k
      → (s : State D) × (rounds f rand a flag ts k n (start nought) ≡ some s)
        × Sound a 0 s.printed
        × (100 * length s.printed ≤ s.lines.one.n_quit)
        × (s.lines.one.n_quit < 100 * length s.printed + 100)
  start_list_time-Sound n nought room =
      let (s, e, inv) = rounds-Inv n 0 (start nought) (omega (arith, room)) (start-Inv nought) in
      let t = inv.tally in
      (s, e, t.sound, omega (arith, t.hundreds, t.low), omega (arith, t.hundreds, t.high))
