-- ===== src/Semaphore/Laws.antt =====
-- What a `semop` that returned says of the set, an operation at a time.
use ics7_os.Common.{
  ℕ, ◌+◌, ◌-◌, ◌<◌, ◌≡◌, sym, ◌∙◌, none, some, List, [], ◌∷◌, pos, arith, dec_lt, ℕ_discrete,
}
use ics7_os.Semaphore.{Sembuf, buf, Sems, set_to, down, up, Kernel}

some-ne-none {ℓ} : {A : Type ℓ} {a : A} → ¬ (some a ≡ none)
some-ne-none e = cc

module _ (k : Kernel) (s : Sems) where
  open k use {semop}

  pub semop-nil : {t : Sems} → semop s [] ≡ some t → t ≡ s
  semop-nil q = cc (q, k.nothing s)

  pub semop-down :
      (n : ℕ) (ops : List Sembuf) {t : Sems}
      → semop s (buf n down ∷ ops) ≡ some t
      → (0 < s n) × (semop (set_to s n (s n - 1)) ops ≡ some t)
  semop-down n ops q = elim (dec_lt 0 (s n)) [
    | no low ↦ absurd (some-ne-none (sym q ∙ k.too_low s n 0 ops (omega arith)))
    | yes high ↦ (high, sym (k.decrease s n 0 ops high) ∙ q)
  ]

  pub semop-up :
      (n : ℕ) (ops : List Sembuf) {t : Sems}
      → semop s (buf n up ∷ ops) ≡ some t
      → semop (set_to s n (s n + 1)) ops ≡ some t
  semop-up n ops q = elim (dec_lt k.semvmx (s n + 1)) [
    | no room ↦ sym (k.increase s n 0 ops (omega arith)) ∙ q
    | yes full ↦ absurd (some-ne-none (sym q ∙ k.too_high s n 0 ops full))
  ]

  pub semop-zero :
      (n : ℕ) (ops : List Sembuf) {t : Sems}
      → semop s (buf n (pos 0) ∷ ops) ≡ some t
      → (s n ≡ 0) × (semop s ops ≡ some t)
  semop-zero n ops q = elim (ℕ_discrete (s n) 0) [
    | yes e ↦ (e, sym (k.at_zero s n ops e) ∙ q)
    | no ne ↦ absurd (some-ne-none (sym q ∙ k.not_zero s n ops ne))
  ]
