-- ===== src/Memory.antt =====
-- The heap of a program: blocks that hold an `A`, and `malloc` of <stdlib.h>.
use ics7_os.Common.{ℕ, ◌+◌, ◌≤◌, ◌≡◌, ◌≢◌, refl, Option, none, ◌==◌, if◌then◌else◌, ==_of_ne, arith}

abbrev pub Ptr : Type 0
Ptr = ℕ

abbrev pub null : Ptr
null = 0

-- The blocks in use; there are finitely many.
pub record Memory {ℓ} (A : Type ℓ) : Type ℓ where
  pub at : Ptr → Option A
  pub bound : ℕ
  pub above : (p : Ptr) → bound ≤ p → at p ≡ none

abbrev pub update {ℓ} : {A : Type ℓ} → (Ptr → Option A) → Ptr → Option A → Ptr → Option A
update at p c a = if p == a then c else at a

pub update_above {ℓ} :
    {A : Type ℓ} (h : Memory A) (p : Ptr) (c : Option A) (a : Ptr)
    → h.bound + p + 1 ≤ a
    → update h.at p c a ≡ none
update_above h p c a le = rw (==_of_ne p a (λ q. omega (arith, q))) (h.above a (omega arith))

-- Block `p` gets new contents, or is freed.
abbrev pub write {ℓ} : {A : Type ℓ} → Memory A → Ptr → Option A → Memory A
write h p c = record { at = update h.at p c; bound = h.bound + p + 1; above = update_above h p c }

abbrev pub load {ℓ} : {A : Type ℓ} → Memory A → Ptr → Option A
load h p = if p == null then none else h.at p

-- `malloc`: NULL, or the address of a block that was not in use, with unknown contents.
pub record Malloc {ℓ} (A : Type ℓ) : Type ℓ where
  pub malloc : Memory A → Ptr
  pub contents : Memory A → A
  pub unused : (h : Memory A) → malloc h ≢ null → h.at (malloc h) ≡ none

abbrev pub empty_memory {ℓ} : {A : Type ℓ} → Memory A
empty_memory = record { at = λ _. none; bound = 0; above = λ _ _. refl }

-- An allocator that always has memory, and one that never has.
abbrev pub bump {ℓ} : {A : Type ℓ} → A → Malloc A
bump c = record {
  malloc = λ h. h.bound + 1;
  contents = λ _. c;
  unused = λ h _. h.above (h.bound + 1) (omega arith);
}

pub bump_memory {ℓ} : {A : Type ℓ} (c : A) (h : Memory A) → (bump c).malloc h ≢ null
bump_memory c h q = omega (arith, q)

abbrev pub exhausted {ℓ} : {A : Type ℓ} → A → Malloc A
exhausted c = record { malloc = λ _. null; contents = λ _. c; unused = λ h ne. absurd (ne refl) }
