-- ===== src/Bakery/Progress.antt =====
-- The bakery does not stop: some client can go on.
use ics7_os.Bakery.{Place, absent, held, left}

-- Who has a number, and was not let wait by the desk, has a place in bakery().
abbrev Waits : Place → Type 0
Waits held = ⊥
Waits absent = ⊥
Waits left = ⊥
Waits _ = Unit
