-- ===== src/ProducerConsumer/Safety.antt =====
-- What pc.c keeps in every reachable state, whichever of its processes run and in whatever order.
use ics7_os.Common.{ℕ, ◌+◌, ◌≤◌, ◌<◌, ◌≡◌, Bool, true, false, ℤ, length, arith, ℕ_discrete, ap, ◌∙◌}
use ics7_os.Common.Threads.{weight_two}
use ics7_os.Semaphore.{Kernel}
use ics7_os.ProducerConsumer.{
  size_buf, Pc, store, lost_produce, consume, print_taken, increment, end_consume, lost_consume,
  gone, System, addr3, Reach, critical,
}
use ics7_os.ProducerConsumer.Letters.{letters}
use ics7_os.ProducerConsumer.Invariant.{tally, busy-le, tally_alone, Reach-Good}

abbrev pub alive : Pc → Bool
alive gone = false
alive lost_produce = false
alive lost_consume = false
alive _ = true

-- The code that a process runs.
abbrev produces : Pc → Bool
produces consume = false
produces print_taken = false
produces increment = false
produces end_consume = false
produces lost_consume = false
produces _ = true

module _ (k : Kernel) where
  -- Two processes are never in the critical section together.
  pub mutual_exclusion :
      (n : ℕ) (unset : ℕ → ℤ) (s : System)
      → Reach k n unset s
      → (i j : ℕ) → i < n
      → j < n
      → critical (s.pc i) ≡ 1
      → critical (s.pc j) ≡ 1
      → i ≡ j
  mutual_exclusion n unset s r i j hi hj in_i in_j = elim (ℕ_discrete i j) [
    | yes same ↦ same
    | no other ↦
        absurd (omega (arith, (Reach-Good k r).one, weight_two critical n i j s.pc hi hj other))
  ]

  -- What the consumers print is the letters from 'a' on, in order, with none left out or repeated;
  -- so is what the producers print; and the producers are ahead by 128 at most.
  pub in_order :
      (n : ℕ) (unset : ℕ → ℤ) (s : System)
      → Reach k n unset s
      → (s.mem.consumed ≡ letters (length s.mem.consumed))
        × (s.mem.produced ≡ letters (length s.mem.produced))
        × (length s.mem.consumed ≤ length s.mem.produced)
        × (length s.mem.produced ≤ length s.mem.consumed + size_buf)
  in_order n unset s r =
      let g = Reach-Good k r in
      (g.all_consumed, g.all_produced, omega arith, omega (arith, busy-le n s.pc))

  -- A producer that is about to store does so behind all that was printed, at an offset that grows
  -- without end, while the consumers stay at the first byte of the buffer.
  pub places :
      (n : ℕ) (unset : ℕ → ℤ) (s : System)
      → Reach k n unset s
      → (i : ℕ) → i < n
      → s.pc i ≡ store
      → (s.mem.ptr_prod ≡ addr3 + length s.mem.produced) × (s.mem.ptr_cons ≡ addr3)
  places n unset s r i h e =
      let g = Reach-Good k r in
      let inside : critical (s.pc i) ≡ 1 = rw e in
      let t = tally_alone n i s.pc h (omega (arith, g.one)) inside in
      let unmoved : (tally n s.pc).unmoved ≡ 0 = ap (λ t. t.unmoved) t ∙ rw e in
      (omega (arith, g.place), g.cons_place)
