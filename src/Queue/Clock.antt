-- ===== src/Queue/Clock.antt =====
-- `get_min` and `get_min_of_two` of list.c, over any type for `double`.
use ics7_os.Common.{
  ◌≡◌, sym, ◌∙◌, ◌⊎◌, inl, inr, Bool, Bool-cases, true, false, ◌&&◌, arith, if◌then◌else◌,
}

-- What the code uses of `double`: `<`, and 0. The laws are those of numbers that are not NaN.
pub record Double {ℓ} (D : Type ℓ) : Type ℓ where
  pub less : D → D → Bool
  pub nought : D
  pub less_irrefl : (a : D) → less a a ≡ false
  pub less_trans : (a b c : D) → less a b ≡ true → less b c ≡ true → less a c ≡ true

both : {a b : Bool} → (a && b) ≡ true → (a ≡ true) × (b ≡ true)
both {a} {b} h = (ground (arith, h), ground (arith, h))

swap {ℓ κ} : {A : Type ℓ} {B : Type κ} → A ⊎ B → B ⊎ A
swap (inl a) = inr a
swap (inr b) = inl b

module _ {ℓ} {D : Type ℓ} (d : Double D) where
  open d use {less, nought}

  unfoldable pub get_min_of_two : D → D → D
  get_min_of_two a b = if less a b then a else b

  unfoldable pub get_min : D → D → D → D
  get_min t1 t2 t3 =
      let p1 = less nought t1 in
      let p2 = less nought t2 in
      let p3 = less nought t3 in
      if p1 && p2 && p3
      then (if less t1 t2 && less t1 t3 then t1 else if less t2 t1 && less t2 t3 then t2 else t3)
      else if p1 && p2
      then get_min_of_two t1 t2
      else if p1 && p3
      then get_min_of_two t1 t3
      else if p2 && p3
      then get_min_of_two t2 t3
      else if p1
      then t1
      else if p2
      then t2
      else if p3
      then t3
      else nought

  asym : (a b : D) → less a b ≡ true → less b a ≡ false
  asym a b h = elim (Bool-cases (less b a)) [
    | inl e ↦ absurd (cc (d.less_trans a b a h e, d.less_irrefl a))
    | inr e ↦ e
  ]

  -- The third is not larger than the first, when neither of the first two was taken.
  first_ge :
      (t1 t2 t3 : D)
      → (less t1 t2 ≡ true) ⊎ (less t2 t1 ≡ true)
      → (less t1 t2 && less t1 t3) ≡ false
      → (less t2 t1 && less t2 t3) ≡ false
      → less t1 t3 ≡ false
  first_ge t1 t2 t3 (inl h) c c' = sym (rw h) ∙ c
  first_ge t1 t2 t3 (inr h) c c' = elim (Bool-cases (less t1 t3)) [
    | inl e ↦ absurd (ground (arith, h, c', d.less_trans t2 t1 t3 h e))
    | inr e ↦ e
  ]

  abbrev pub Positive : D → Type 0
  Positive t = less nought t ≡ true

  -- When one of the first two is smaller than the other, no time is smaller than the result.
  get_min_differ :
      (t1 t2 t3 : D)
      → Positive t1
      → Positive t2
      → Positive t3
      → (less t1 t2 ≡ true) ⊎ (less t2 t1 ≡ true)
      → (less t1 (get_min t1 t2 t3) ≡ false)
        × (less t2 (get_min t1 t2 t3) ≡ false)
        × (less t3 (get_min t1 t2 t3) ≡ false)
  unfolding get_min
  get_min_differ t1 t2 t3 p1 p2 p3 differ = elim (Bool-cases (less t1 t2 && less t1 t3)) [
    | inl c ↦
        let (c12, c13) = both c in
        rw (p1, p2, p3, c) (d.less_irrefl t1, asym t1 t2 c12, asym t1 t3 c13)
    | inr c ↦ elim (Bool-cases (less t2 t1 && less t2 t3)) [
      | inl c' ↦
          let (c21, c23) = both c' in
          rw (p1, p2, p3, c, c') (asym t2 t1 c21, d.less_irrefl t2, asym t2 t3 c23)
      | inr c' ↦
          rw (p1, p2, p3, c, c')
            (first_ge t1 t2 t3 differ c c', first_ge t2 t1 t3 (swap differ) c' c, d.less_irrefl t3)
    ]
  ]

  abbrev pub Least : D → D → D → D → Type 0
  Least t1 t2 t3 m = (less t1 m ≡ false) × (less t2 m ≡ false) × (less t3 m ≡ false)

  -- For three positive times: `get_min` gives one that none of them is smaller than, or else the
  -- first two are equal, neither smaller than the other, and it gives the third, whatever that is.
  get_min_lem :
      (t1 t2 t3 : D)
      → Positive t1
      → Positive t2
      → Positive t3
      → Least t1 t2 t3 (get_min t1 t2 t3)
        ⊎ ((less t1 t2 ≡ false) × (less t2 t1 ≡ false) × (get_min t1 t2 t3 ≡ t3))
  unfolding get_min
  get_min_lem t1 t2 t3 p1 p2 p3 = elim (Bool-cases (less t1 t2)) [
    | inl h ↦ inl (get_min_differ t1 t2 t3 p1 p2 p3 (inl h))
    | inr q ↦ elim (Bool-cases (less t2 t1)) [
      | inl h ↦ inl (get_min_differ t1 t2 t3 p1 p2 p3 (inr h))
      | inr q' ↦ inr (q, q', rw (p1, p2, p3, q, q'))
    ]
  ]
