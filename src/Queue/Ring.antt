-- ===== src/Queue/Ring.antt =====
-- unix-lab-02/task3/lab_05_02/src/array.c: the queue in an array. An address counts elements of
-- type `queue`; 0 is NULL.
use ics7_os.Common.{
  ℕ, ◌+◌, ◌-◌, ◌≤◌, ◌<◌, ◌≡◌, ◌≢◌, refl, ◌⊎◌, ◌||◌, ℤ, negsuc, arith, leb, ◌==◌, if◌then◌else◌,
}
use ics7_os.ArrayStack.{ok, err_length}
use ics7_os.Memory.{Ptr, null}
use ics7_os.Queue.{size}

-- ERR_NULL of defines.h
abbrev pub err_null : ℤ
err_null = negsuc 3

-- The result, and `*pin`.
unfoldable pub arr_push : Ptr → Ptr → Ptr → ℤ × Ptr
arr_push pin pout begin =
    if pin == null || begin == null
    then (err_null, pin)
    else if pin + 1 == pout
    then (err_length, pin + 1)
    else if pin + 1 == begin + size
    then (ok, begin)
    else (ok, pin + 1)

-- The result, and `*pout`.
unfoldable pub arr_pop : Ptr → Ptr → ℤ × Ptr
arr_pop pout begin =
    if pout == null || begin == null
    then (err_length, pout)
    else if pout + 1 == begin + size
    then (ok, begin)
    else (ok, pout + 1)

-- `*pin` and `*count`. The result of `arr_push` is not looked at.
unfoldable pub add_element_to_queue_arr : Ptr → Ptr → Ptr → ℕ → Ptr × ℕ
add_element_to_queue_arr q pin pout count = ((arr_push pin pout q).1, count + 1)

-- `*pout` and `*n_quit`, but for `t_work`. `arr_pop` is given `pin` as the start of the array.
unfoldable pub get_time_work_exit_element_arr : Ptr → Ptr → ℕ → Ptr × ℕ
get_time_work_exit_element_arr pin pout n_quit = ((arr_pop pout pin).1, n_quit + 1)

-- The number of elements from `pout` on, before `pin`, round the end of the array.
abbrev pub used : Ptr → Ptr → ℕ
used pin pout = if leb pout pin then pin - pout else pin + size - pout

abbrev pub Within : Ptr → Ptr → Type 0
Within begin p = (begin ≤ p) × (p < begin + size)

-- With both addresses in the array, `add_element_to_queue_arr` leaves `pin` in the array and raises
-- `count` by 1. There is one element more; but at 999 elements the queue is empty afterwards.
add_element_to_queue_arr_lem :
    (q pin pout count : ℕ)
    → 0 < q
    → Within q pin
    → Within q pout
    → Within q (add_element_to_queue_arr q pin pout count).0
      × (used (add_element_to_queue_arr q pin pout count).0 pout
          ≡ (if used pin pout + 1 == size then 0 else used pin pout + 1))
      × ((add_element_to_queue_arr q pin pout count).1 ≡ count + 1)
unfolding add_element_to_queue_arr arr_push
add_element_to_queue_arr_lem q pin pout count nn at_pin at_pout =
    (ground (arith, at_pin, at_pout), ground (arith, at_pin, at_pout), refl)

-- With both addresses in the array and some element in the queue, `get_time_work_exit_element_arr`
-- leaves one element less, and raises `n_quit` by 1. It leaves `pout` in the array, or just behind
-- the end of it.
get_time_work_exit_element_arr_lem :
    (q pin pout n_quit : ℕ)
    → 0 < q
    → Within q pin
    → Within q pout
    → pin ≢ pout
    → (used pin (get_time_work_exit_element_arr pin pout n_quit).0 + 1 ≡ used pin pout)
      × (Within q (get_time_work_exit_element_arr pin pout n_quit).0
          ⊎ ((get_time_work_exit_element_arr pin pout n_quit).0 ≡ q + size))
      × ((get_time_work_exit_element_arr pin pout n_quit).1 ≡ n_quit + 1)
unfolding get_time_work_exit_element_arr arr_pop
get_time_work_exit_element_arr_lem q pin pout n_quit nn at_pin at_pout some =
    (ground (arith, at_pin, at_pout), ground (arith, at_pin, at_pout), refl)
