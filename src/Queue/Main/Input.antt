-- ===== src/Queue/Main/Input.antt =====
-- What `start_edit_menu` gives, and how many readings are left.
use ics7_os.Common.{
  ℕ, suc, ◌≤◌, ◌≡◌, refl, Bool, ◌||◌, not, true, false, Option, none, some, List, [], ◌∷◌, ℤ, arith,
  length, if◌then◌else◌,
}
use ics7_os.Common.Options.{◌>>=◌}
use ics7_os.Queue.Times.{Arithmetic, Interval, Intervals}
use ics7_os.Queue.Main.{
  Reading, is_read, or_else, min_refused, max_refused, input_min, input_max, input_interval,
  start_edit_menu,
}

module _ {ℓ} {D : Type ℓ} (f : Arithmetic D) where
  open f use {order, minus, fabs, eps}

  -- No part of it is below 0, and it is not empty.
  pub record IsInterval (t : Interval D) : Type 0 where
    pub not_negative : order.less t.min order.nought ≡ false
    pub ordered : order.less t.max t.min ≡ false
    pub wide : order.less (fabs (minus t.max t.min)) eps ≡ false

  pub record AreIntervals (ts : Intervals D) : Type 0 where
    pub t1 : IsInterval ts.t1
    pub t2 : IsInterval ts.t2
    pub t3 : IsInterval ts.t3
    pub t4 : IsInterval ts.t4

  -- A result, when there is one, has the property, and at most `n` readings are left.
  abbrev pub Leaves {κ} : {A : Type κ} → (A → Type 0) → ℕ → Option (A × List (Reading D)) → Type 0
  Leaves P n none = Unit
  Leaves P n (some r) = P r.0 × (length r.1 ≤ n)

  pub Leaves-bind {κ μ} :
      {A : Type κ} {B : Type μ} {P : A → Type 0} (Q : B → Type 0) {n : ℕ} (k : ℕ)
      (o : Option (A × List (Reading D))) (g : A × List (Reading D) → Option (B × List (Reading D)))
      → Leaves P n o
      → ((a : A) (rs : List (Reading D)) → P a → length rs ≤ n → Leaves Q k (g (a, rs)))
      → Leaves Q k (o >>= g)
  Leaves-bind Q k none g h step = tt
  Leaves-bind Q k (some r) g h step = step r.0 r.1 h.0 h.1

  pub Leaves-le {κ} :
      {A : Type κ} (P : A → Type 0) {n k : ℕ} (o : Option (A × List (Reading D)))
      → n ≤ k
      → Leaves P n o
      → Leaves P k o
  Leaves-le P none le h = tt
  Leaves-le P (some r) le h = (h.0, omega (arith, h.1, le))

  Leaves-test {κ} :
      {A : Type κ} (P : A → Type 0) (n : ℕ) (b : Bool) (x y : Option (A × List (Reading D)))
      → (b ≡ true → Leaves P n x)
      → (b ≡ false → Leaves P n y)
      → Leaves P n (elim b [ true ↦ x | false ↦ y ])
  Leaves-test P n true x y h h' = h refl
  Leaves-test P n false x y h h' = h' refl

  pub Leaves-if {κ} :
      {A : Type κ} (P : A → Type 0) (n : ℕ) (b : Bool) (x y : Option (A × List (Reading D)))
      → Leaves P n x
      → Leaves P n y
      → Leaves P n (if b then x else y)
  Leaves-if P n true x y h h' = h
  Leaves-if P n false x y h h' = h'

  pub Leaves-option {κ} :
      {A : Type κ} (P : A → Type 0) (n : ℕ) (o : Option ℤ) (x : Option (A × List (Reading D)))
      (g : ℤ → Option (A × List (Reading D)))
      → Leaves P n x
      → ((k : ℤ) → Leaves P n (g k))
      → Leaves P n (elim o [ none ↦ x | some k ↦ g k ])
  Leaves-option P n none x g h h' = h
  Leaves-option P n (some k) x g h h' = h' k

  either : (a b : Bool) → (a || b) ≡ false → (a ≡ false) × (b ≡ false)
  either a b e = (ground (arith, e), ground (arith, e))

  abbrev Positive : Interval D → Type 0
  Positive t = order.less t.min order.nought ≡ false

  input_min-Leaves :
      (t : Interval D) (rs : List (Reading D)) → Leaves Positive (length rs) (input_min f t rs)
  unfolding input_min min_refused
  input_min-Leaves t [] = tt
  input_min-Leaves t (r ∷ rs) =
      let t' : Interval D = record t { min = or_else t.min r.double } in
      Leaves-test Positive (suc (length rs)) (min_refused f (is_read r.double) t') _ _
        (λ e. Leaves-le Positive (input_min f t' rs) (omega arith) (input_min-Leaves t' rs))
        λ e. ((either (not (is_read r.double)) _ e).1, omega arith)

  input_max-Leaves :
      (t : Interval D) (rs : List (Reading D))
      → Positive t
      → Leaves IsInterval (length rs) (input_max f t rs)
  unfolding input_max max_refused
  input_max-Leaves t [] p = tt
  input_max-Leaves t (r ∷ rs) p =
      let t' : Interval D = record t { max = or_else t.max r.double } in
      Leaves-test IsInterval (suc (length rs)) (max_refused f (is_read r.double) t') _ _
        (λ e. Leaves-le IsInterval (input_max f t' rs) (omega arith) (input_max-Leaves t' rs p))
        λ e.
          let tests = either (not (is_read r.double) || order.less t'.max t'.min) _ e in
          let ordered = (either (not (is_read r.double)) _ tests.0).1 in
          (record { not_negative = p; ordered = ordered; wide = tests.1 }, omega arith)

  input_interval-IsInterval :
      (t : Interval D) (rs : List (Reading D)) (n : ℕ)
      → length rs ≤ n
      → Leaves IsInterval n (input_interval f t rs)
  unfolding input_interval
  input_interval-IsInterval t rs n le =
      Leaves-bind IsInterval n (input_min f t rs) (λ r. input_max f r.0 r.1) (input_min-Leaves t rs)
        λ t' rs' p le'.
          Leaves-le IsInterval (input_max f t' rs') (omega (arith, le, le'))
            (input_max-Leaves t' rs' p)

  pub start_edit_menu-AreIntervals :
      (ts : Intervals D) (rs : List (Reading D))
      → Leaves AreIntervals (length rs) (start_edit_menu f ts rs)
  unfolding start_edit_menu
  start_edit_menu-AreIntervals ts rs = next ts.t1 rs (omega arith) _ λ t₁ rs₁ h₁ l₁.
      next ts.t2 rs₁ l₁ _ λ t₂ rs₂ h₂ l₂. next ts.t3 rs₂ l₂ _ λ t₃ rs₃ h₃ l₃.
        next ts.t4 rs₃ l₃ _ λ t₄ rs₄ h₄ l₄. (record { t1 = h₁; t2 = h₂; t3 = h₃; t4 = h₄ }, l₄)
    where
      next :
          (t : Interval D) (rs' : List (Reading D))
          → length rs' ≤ length rs
          → (g : Interval D × List (Reading D) → Option (Intervals D × List (Reading D)))
          → ((t' : Interval D) (rs'' : List (Reading D))
              → IsInterval t'
              → length rs'' ≤ length rs
              → Leaves AreIntervals (length rs) (g (t', rs'')))
          → Leaves AreIntervals (length rs) (input_interval f t rs' >>= g)
      next t rs' le g h =
          Leaves-bind AreIntervals (length rs) (input_interval f t rs') g
            (input_interval-IsInterval t rs' (length rs) le) h
