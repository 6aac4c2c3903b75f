-- ===== src/ReadersWriters/Calls.antt =====
-- What the calls of `semop` in rw.c need of the set, and leave in it.
use ics7_os.Common.{ℕ, ◌+◌, ◌-◌, ◌<◌, ◌≡◌, refl, some, arith}
use ics7_os.Semaphore.{Sems, Kernel}
use ics7_os.Semaphore.Laws.{semop-nil, semop-down, semop-up, semop-zero}
use ics7_os.ReadersWriters.{
  waiting_readers, active_readers, waiting_writers, bin_writer, start_read, stop_read, start_write,
  stop_write, first_ops,
}

-- The semaphores after a call.
pub record Values (t : Sems) (wr ar ww bin : ℕ) : Type 0 where
  pub at_wr : t waiting_readers ≡ wr
  pub at_ar : t active_readers ≡ ar
  pub at_ww : t waiting_writers ≡ ww
  pub at_bin : t bin_writer ≡ bin

module _ (k : Kernel) {s t : Sems} where
  open k use {semop}

  -- A reader passes only where BIN_WRITER and WAITING_WRITERS are zero. The last of the five
  -- operations is not among the four that the call passes.
  pub semop-start_read :
      semop s (first_ops 4 start_read) ≡ some t
      → (s bin_writer ≡ 0)
        × (s waiting_writers ≡ 0)
        × Values t (s waiting_readers + 1) (s active_readers + 1) (s waiting_writers) (s bin_writer)
  unfolding start_read
  semop-start_read q =
      let q₁ = semop-up k s waiting_readers _ q in
      let (bin, q₂) = semop-zero k _ bin_writer _ q₁ in
      let (ww, q₃) = semop-zero k _ waiting_writers _ q₂ in
      let q₄ = semop-up k _ active_readers _ q₃ in
      (
        bin,
        ww,
        rw (semop-nil k _ q₄) (record { at_wr = refl; at_ar = refl; at_ww = refl; at_bin = refl }),
      )

  pub semop-stop_read :
      semop s (first_ops 1 stop_read) ≡ some t
      → (0 < s active_readers)
        × Values t (s waiting_readers) (s active_readers - 1) (s waiting_writers) (s bin_writer)
  unfolding stop_read
  semop-stop_read q =
      let (some_in, q₁) = semop-down k s active_readers _ q in
      (
        some_in,
        rw (semop-nil k _ q₁) (record { at_wr = refl; at_ar = refl; at_ww = refl; at_bin = refl }),
      )

  pub semop-start_write :
      semop s (first_ops 4 start_write) ≡ some t
      → (s active_readers ≡ 0)
        × (0 < s bin_writer)
        × Values t (s waiting_readers) (s active_readers) (s waiting_writers) (s bin_writer - 1)
  unfolding start_write
  semop-start_write q =
      let q₁ = semop-up k s waiting_writers _ q in
      let (ar, q₂) = semop-zero k _ active_readers _ q₁ in
      let (bin, q₃) = semop-down k _ bin_writer _ q₂ in
      let (_ww, q₄) = semop-down k _ waiting_writers _ q₃ in
      (
        ar,
        bin,
        rw (semop-nil k _ q₄)
            (record { at_wr = refl; at_ar = refl; at_ww = omega arith; at_bin = refl }),
      )

  pub semop-stop_write :
      semop s (first_ops 1 stop_write) ≡ some t
      → Values t (s waiting_readers) (s active_readers) (s waiting_writers) (s bin_writer + 1)
  unfolding stop_write
  semop-stop_write q =
      rw (semop-nil k _ (semop-up k s bin_writer _ q))
        (record { at_wr = refl; at_ar = refl; at_ww = refl; at_bin = refl })
