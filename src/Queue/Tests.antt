-- ===== src/Queue/Tests.antt =====
-- list.c and array.c at concrete inputs.
use ics7_os.Common.{ℕ, ◌≡◌, refl, true, false, arith, ltb}
use ics7_os.Queue.Clock.{Double, get_min}
use ics7_os.Queue.Ring.{arr_push, add_element_to_queue_arr}

abbrev ltb_irrefl : (a : ℕ) → ltb a a ≡ false
ltb_irrefl a = ground arith

abbrev ltb_trans : (a b c : ℕ) → ltb a b ≡ true → ltb b c ≡ true → ltb a c ≡ true
ltb_trans a b c h k = ground (arith, h, k)

-- Times in whole units.
abbrev pub whole : Double ℕ
whole = record { less = ltb; nought = 0; less_irrefl = ltb_irrefl; less_trans = ltb_trans }

-- Both arrivals are at 2, and the clock goes to 9.
tie : get_min whole 2 2 9 ≡ 9
unfolding get_min
tie = refl

-- With 999 elements in the array at 1, the next one makes both addresses the same: the queue is
-- empty.
full_is_empty : (add_element_to_queue_arr 1 1000 1 999).0 ≡ 1
unfolding add_element_to_queue_arr arr_push
full_is_empty = refl
