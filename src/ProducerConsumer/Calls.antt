-- ===== src/ProducerConsumer/Calls.antt =====
-- What the calls of `semop` in pc.c do to the set.
use ics7_os.Common.{ℕ, ◌+◌, ◌-◌, ◌<◌, ◌≡◌, refl, some, [], ◌∷◌}
use ics7_os.Semaphore.{buf, Sems, down, up, Kernel}
use ics7_os.Semaphore.Laws.{semop-nil, semop-down, semop-up}
use ics7_os.ProducerConsumer.{sb, se, sf, start_produce, stop_produce, start_consume, stop_consume}

-- The three semaphores after a call.
pub record Values (t : Sems) (b e f : ℕ) : Type 0 where
  pub at_sb : t sb ≡ b
  pub at_se : t se ≡ e
  pub at_sf : t sf ≡ f

module _ (k : Kernel) {s t : Sems} where
  open k use {semop}

  pub semop-start_produce :
      semop s start_produce ≡ some t
      → (0 < s se) × (0 < s sb) × Values t (s sb - 1) (s se - 1) (s sf)
  unfolding start_produce
  semop-start_produce q =
      let (have_se, q') = semop-down k s se (buf sb down ∷ []) q in
      let (have_sb, q'') = semop-down k _ sb [] q' in
      let e = semop-nil k _ q'' in
      (have_se, have_sb, rw e (record { at_sb = refl; at_se = refl; at_sf = refl }))

  pub semop-start_consume :
      semop s start_consume ≡ some t
      → (0 < s sf) × (0 < s sb) × Values t (s sb - 1) (s se) (s sf - 1)
  unfolding start_consume
  semop-start_consume q =
      let (have_sf, q') = semop-down k s sf (buf sb down ∷ []) q in
      let (have_sb, q'') = semop-down k _ sb [] q' in
      let e = semop-nil k _ q'' in
      (have_sf, have_sb, rw e (record { at_sb = refl; at_se = refl; at_sf = refl }))

  pub semop-stop_produce : semop s stop_produce ≡ some t → Values t (s sb + 1) (s se) (s sf + 1)
  unfolding stop_produce
  semop-stop_produce q =
      rw (semop-nil k _ (semop-up k _ sf [] (semop-up k s sb (buf sf up ∷ []) q)))
        (record { at_sb = refl; at_se = refl; at_sf = refl })

  pub semop-stop_consume : semop s stop_consume ≡ some t → Values t (s sb + 1) (s se + 1) (s sf)
  unfolding stop_consume
  semop-stop_consume q =
      rw (semop-nil k _ (semop-up k _ se [] (semop-up k s sb (buf se up ∷ []) q)))
        (record { at_sb = refl; at_se = refl; at_sf = refl })
