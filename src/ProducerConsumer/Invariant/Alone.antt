-- ===== src/ProducerConsumer/Invariant/Alone.antt =====
-- The tally of all processes where one of them has the critical section, or nobody moves in it.
use ics7_os.Common.{◌+◌, ℕ, ◌≤◌, ◌<◌, ◌≡◌, arith, ap, dec_lt}
use ics7_os.Common.Threads.{
  move, weight, weight-move, weight_mono, weight_alone, weight-add, weight_one,
}
use ics7_os.ProducerConsumer.{Pc, critical}
use ics7_os.ProducerConsumer.Invariant.Defs.{
  printing, moving, changing, storing, entering, incrementing, tally_at, tally,
}

critical-le : (p : Pc) → critical p ≤ 1
critical-le p = ground arith

printing-le : (p : Pc) → printing p ≤ critical p
printing-le p = ground arith

moving-le : (p : Pc) → moving p ≤ critical p
moving-le p = ground arith

changing-le : (p : Pc) → changing p ≤ critical p
changing-le p = ground arith

storing-le : (p : Pc) → storing p ≤ critical p
storing-le p = ground arith

entering-le : (p : Pc) → entering p ≤ critical p
entering-le p = ground arith

incrementing-le : (p : Pc) → incrementing p ≤ critical p
incrementing-le p = ground arith

-- What a process that moves alone finds.
weight_of :
    (w : Pc → ℕ) (n i : ℕ) (pc : ℕ → Pc)
    → ((p : Pc) → w p ≤ critical p)
    → i < n
    → weight critical n pc ≡ critical (pc i)
    → weight w n pc ≡ w (pc i)
weight_of w n i pc le h e = elim (dec_lt 0 (critical (pc i))) [
  | yes here ↦
      weight_alone critical w le n i pc h (omega (arith, critical-le (pc i)))
        (omega (arith, critical-le (pc i)))
  | no away ↦ omega (arith, le (pc i), weight_mono critical w le n pc)
]

pub tally_of :
    (n i : ℕ) (pc : ℕ → Pc)
    → i < n
    → weight critical n pc ≡ critical (pc i)
    → tally n pc ≡ tally_at (pc i)
tally_of n i pc h e = λ j. record {
  inside = e j;
  printed = weight_of printing n i pc printing-le h e j;
  unmoved = weight_of moving n i pc moving-le h e j;
  unchanged = weight_of changing n i pc changing-le h e j;
  stored = weight_of storing n i pc storing-le h e j;
  taking = weight_of entering n i pc entering-le h e j;
  taken = weight_of incrementing n i pc incrementing-le h e j;
}

weight-move_self :
    (w : Pc → ℕ) (n i : ℕ) (pc : ℕ → Pc) (p : Pc)
    → i < n
    → w (pc i) ≡ w p
    → weight w n (move pc i p) ≡ weight w n pc
weight-move_self w n i pc p h e = omega (arith, weight-move w n i pc p h)

pub tally-move_self :
    (n i : ℕ) (pc : ℕ → Pc) (p : Pc)
    → i < n
    → tally_at (pc i) ≡ tally_at p
    → tally n (move pc i p) ≡ tally n pc
tally-move_self n i pc p h e = λ j. record {
  inside = weight-move_self critical n i pc p h (ap (λ t. t.inside) e) j;
  printed = weight-move_self printing n i pc p h (ap (λ t. t.printed) e) j;
  unmoved = weight-move_self moving n i pc p h (ap (λ t. t.unmoved) e) j;
  unchanged = weight-move_self changing n i pc p h (ap (λ t. t.unchanged) e) j;
  stored = weight-move_self storing n i pc p h (ap (λ t. t.stored) e) j;
  taking = weight-move_self entering n i pc p h (ap (λ t. t.taking) e) j;
  taken = weight-move_self incrementing n i pc p h (ap (λ t. t.taken) e) j;
}

-- A process that printed and has not left, or entered to take, is in the critical section.
pub busy-le :
    (n : ℕ) (pc : ℕ → Pc) → (tally n pc).taking + (tally n pc).printed ≤ (tally n pc).inside
busy-le n pc = omega (
  arith,
  weight-add entering printing n pc,
  weight_mono critical (λ p. entering p + printing p) (λ p. ground arith) n pc,
)

pub tally_alone :
    (n i : ℕ) (pc : ℕ → Pc)
    → i < n
    → (tally n pc).inside ≤ 1
    → critical (pc i) ≡ 1
    → tally n pc ≡ tally_at (pc i)
tally_alone n i pc h small here = tally_of n i pc h (omega (arith, weight_one critical n i pc h))
