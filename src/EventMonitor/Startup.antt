-- ===== src/EventMonitor/Startup.antt =====
-- `main` of unix-lab-05/main.c, until it waits for the threads.
use ics7_os.Common.{
  ℕ, ◌+◌, ◌≤◌, ◌≡◌, ◌≢◌, ◌⊎◌, Bool, true, false, ◌||◌, not, Option, none, some, arith, ltb, ◌==◌,
  if◌then◌else◌,
}
use ics7_os.EventMonitor.Winapi.{Handle, null_handle}
use ics7_os.EventMonitor.{Handles, r_num, w_num}

-- What the calls return: CreateMutex, CreateEvent twice, and CreateThread until the first failure.
pub record Calls : Type 0 where
  pub create_mutex : Handle
  pub first_event : Handle
  pub second_event : Handle
  pub threads : ℕ

-- A truth value that is stored in a handle.
abbrev pub as_handle : Bool → Handle
as_handle true = 1
as_handle false = null_handle

-- `none` is a return of -1. What is stored in `_can_read` is the value of `||`, because of the
-- places of the brackets.
unfoldable pub launch : Calls → Option Handles
launch c =
    let can_read = as_handle (c.first_event == null_handle || c.second_event == null_handle) in
    if c.create_mutex == null_handle
    then none
    else if not (can_read == null_handle)
    then none
    else if ltb c.threads (r_num + w_num)
    then none
    else some (record { can_read = can_read; can_write = c.second_event })

abbrev pub Created : Calls → Type 0
Created c =
    (c.create_mutex ≢ null_handle)
    × (c.first_event ≢ null_handle)
    × (c.second_event ≢ null_handle)
    × (r_num + w_num ≤ c.threads)

-- `main` starts the threads exactly when every object and thread is created; and then `_can_read`
-- is NULL, not the first event.
pub launch_lem :
    (c : Calls)
    → (Created c
        × (launch c ≡ some (record { can_read = null_handle; can_write = c.second_event })))
      ⊎ ((launch c ≡ none) × ¬ Created c)
unfolding launch
launch_lem c = ground arith
