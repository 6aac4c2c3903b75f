-- ===== src/ProducerConsumer/Invariant/Defs.antt =====
-- The invariant of pc.c.
use ics7_os.Common.{ℕ, ◌+◌, ◌-◌, ◌≤◌, ◌<◌, ◌≡◌, length}
use ics7_os.Common.Threads.{weight}
use ics7_os.ProducerConsumer.{
  size_buf, sb, se, sf, Shared, Pc, print_stored, advance, next_letter, end_produce, lost_produce,
  print_taken, increment, addr3, critical,
}
use ics7_os.ProducerConsumer.Letters.{letter, letters}

-- How many processes have, in the critical section, printed what they stored; not yet moved the
-- pointer; not yet changed the letter; stored and not printed; entered to take; printed what they
-- took and not changed it.
pub record Tally : Type 0 where
  pub inside : ℕ
  pub printed : ℕ
  pub unmoved : ℕ
  pub unchanged : ℕ
  pub stored : ℕ
  pub taking : ℕ
  pub taken : ℕ

abbrev pub printing : Pc → ℕ
printing advance = 1
printing next_letter = 1
printing end_produce = 1
printing lost_produce = 1
printing _ = 0

abbrev pub moving : Pc → ℕ
moving advance = 1
moving _ = 0

abbrev pub changing : Pc → ℕ
changing advance = 1
changing next_letter = 1
changing _ = 0

abbrev pub storing : Pc → ℕ
storing print_stored = 1
storing _ = 0

abbrev pub entering : Pc → ℕ
entering print_taken = 1
entering _ = 0

abbrev pub incrementing : Pc → ℕ
incrementing increment = 1
incrementing _ = 0

-- The tally of one process, and of the first `n`.
abbrev pub tally_at : Pc → Tally
tally_at p = record {
  inside = critical p;
  printed = printing p;
  unmoved = moving p;
  unchanged = changing p;
  stored = storing p;
  taking = entering p;
  taken = incrementing p;
}

abbrev pub tally : ℕ → (ℕ → Pc) → Tally
tally n pc = record {
  inside = weight critical n pc;
  printed = weight printing n pc;
  unmoved = weight moving n pc;
  unchanged = weight changing n pc;
  stored = weight storing n pc;
  taking = weight entering n pc;
  taken = weight incrementing n pc;
}

pub record Good (m : Shared) (t : Tally) : Type 0 where
  pub one : m.sems sb + t.inside ≡ 1
  pub slots : m.sems se + m.sems sf + t.inside ≡ size_buf
  pub flow : m.sems sf + length m.consumed + t.taking + t.printed ≡ length m.produced
  pub place : m.ptr_prod + t.unmoved ≡ addr3 + length m.produced
  pub cons_place : m.ptr_cons ≡ addr3
  pub changed_some : t.unchanged ≤ length m.produced
  pub taken_some : t.taken ≤ length m.consumed
  pub next_char : m.alfa ≡ letter (length m.produced - t.unchanged)
  pub first_byte :
      0 < length m.produced + t.stored → m.bytes addr3 ≡ letter (length m.consumed - t.taken)
  pub last_byte : 0 < t.stored → m.bytes m.ptr_prod ≡ m.alfa
  pub all_produced : m.produced ≡ letters (length m.produced)
  pub all_consumed : m.consumed ≡ letters (length m.consumed)
