-- ===== src/ReadersWriters/Safety.antt =====
-- What rw.c keeps while no call of `semop` fails, and whom it lets in.
use ics7_os.Common.{ℕ, ◌+◌, ◌≤◌, ◌<◌, ◌≡◌, some, length, arith, ℕ_discrete}
use ics7_os.Common.Threads.{weight_one, weight_two, weight_some}
use ics7_os.Semaphore.{Sems, Kernel}
use ics7_os.ReadersWriters.{
  waiting_readers, System, Reach, reading, writing, start_read, start_write, first_ops,
}
use ics7_os.ReadersWriters.Calls.{semop-start_read, semop-start_write}
use ics7_os.ReadersWriters.Invariant.{tally, unshown-le, up_to, Reach-Inv}

le_zero : (a : ℕ) → a ≤ 0 → a ≡ 0
le_zero a h = omega arith

module _ (k : Kernel) where
  open k use {semop}

  -- In every state reached without a failed call of `semop`, two processes in the section of a writer are the same process.
  pub writers_exclusive :
      (n : ℕ) (s : System)
      → Reach k n 0 s
      → (i j : ℕ) → i < n
      → j < n
      → writing (s.pc i) ≡ 1
      → writing (s.pc j) ≡ 1
      → i ≡ j
  writers_exclusive n s r i j hi hj in_i in_j = elim (ℕ_discrete i j) [
    | yes same ↦ same
    | no other ↦
        absurd (
          omega (arith, (Reach-Inv k r).good.one_writer, weight_two writing n i j s.pc hi hj other))
  ]

  -- In every state reached without a failed call of `semop`, no update is lost: the writers print 1, 2, 3 and so on, none left out or repeated; and the
  -- number is the last of these, or one more while a writer has stored and not yet printed.
  pub no_lost_update :
      (n : ℕ) (s : System)
      → Reach k n 0 s
      → (s.mem.written ≡ up_to (length s.mem.written))
        × (length s.mem.written ≤ s.mem.shm)
        × (s.mem.shm ≤ length s.mem.written + 1)
  no_lost_update n s r =
      let g = (Reach-Inv k r).good in
      (g.all_written, omega arith, omega (arith, unshown-le n s.pc, g.one_writer))

  -- In every state reached without a failed call of `semop`, the call with which a reader enters
  -- succeeds only while some writer is in its section.
  reader_needs_writer :
      (n : ℕ) (s : System) (t : Sems)
      → Reach k n 0 s
      → semop s.mem.sems (first_ops 4 start_read) ≡ some t
      → (j : ℕ) × (j < n) × (0 < writing (s.pc j))
  reader_needs_writer n s t r q =
      let bin = (semop-start_read k q).0 in
      weight_some writing n s.pc (omega (arith, (Reach-Inv k r).good.one_writer))

  -- In every state reached without a failed call of `semop`, the call with which a writer enters
  -- succeeds only while no reader and no writer is inside.
  pub writer_needs_none :
      (n : ℕ) (s : System) (t : Sems)
      → Reach k n 0 s
      → semop s.mem.sems (first_ops 4 start_write) ≡ some t
      → (j : ℕ) → j < n
      → (reading (s.pc j) ≡ 0) × (writing (s.pc j) ≡ 0)
  writer_needs_none n s t r q j h =
      let g = (Reach-Inv k r).good in
      let p = semop-start_write k q in
      (
        le_zero _ (omega (arith, weight_one reading n j s.pc h, p.0, g.counted)),
        le_zero _ (omega (arith, weight_one writing n j s.pc h, p.1, g.one_writer)),
      )

  -- Without a failed call of `semop`, WAITING_READERS is the number of reads ever begun: those printed, and those of the readers that
  -- have entered and not printed.
  waiting_readers_counts :
      (n : ℕ) (s : System)
      → Reach k n 0 s
      → s.mem.sems waiting_readers ≡ length s.mem.read + (tally n s.pc).unprinted
  waiting_readers_counts n s r = (Reach-Inv k r).good.never_down
