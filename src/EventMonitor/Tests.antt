-- ===== src/EventMonitor/Tests.antt =====
-- The theorems on unix-lab-05/main.c at concrete inputs.
use ics7_os.Common.{
  ℕ, ◌≡◌, refl, ◌⊎◌, true, false, none, some, arith, ◌==◌, if◌then◌else◌, ==_self, ==_of_ne,
}
use ics7_os.Common.Threads.{move, weight}
use ics7_os.EventMonitor.Winapi.{
  Handle, null_handle, Signals, Wait, object_0, timeout, failed, Kernel, signal_to,
}
use ics7_os.EventMonitor.{
  Handles, lock_mutex, test_writers, do_begin_read, do_lock, System, init, go, pick, Reach, here,
  later,
}
use ics7_os.EventMonitor.Startup.{Calls, Created, launch, launch_lem}
use ics7_os.EventMonitor.Counters.{
  waits, reads, waits_write, threads, counters_exact, entry_exclusive,
}

abbrev wait_value : Signals → Handle → Wait × Signals
wait_value s h =
    if h == null_handle
    then (failed, s)
    else if s h
    then (object_0, signal_to s h false)
    else (timeout, s)

-- A kernel of two events.
abbrev kernel : Kernel
kernel = record {
  set_event = λ s h. if h == null_handle then s else signal_to s h true;
  reset_event = λ s h. if h == null_handle then s else signal_to s h false;
  wait_now = wait_value;
  wait_for = λ s h.
      if h == null_handle
      then some (failed, s)
      else if s h
      then some (object_0, signal_to s h false)
      else none;
  lock = λ x i. elim x [ none ↦ some (some i) | some j ↦ if j == i then some (some i) else none ];
  unlock = λ x i. elim x [ none ↦ none | some j ↦ if j == i then some none else none ];
  set_event_lem = λ s h ne. rw (==_of_ne h null_handle ne);
  set_event_null = λ s. refl;
  reset_event_lem = λ s h ne. rw (==_of_ne h null_handle ne);
  reset_event_null = λ s. refl;
  wait_now_signalled = λ s h ne on. rw (==_of_ne h null_handle ne, on);
  wait_now_silent = λ s h ne off. rw (==_of_ne h null_handle ne, off);
  wait_now_null = λ s. refl;
  wait_for_signalled = λ s h ne on. rw (==_of_ne h null_handle ne, on);
  wait_for_silent = λ s h ne off. rw (==_of_ne h null_handle ne, off);
  wait_for_null = λ s. refl;
  lock_free = λ i. refl;
  lock_owned = λ i j ne. rw (==_of_ne j i ne);
  unlock_own = λ i. rw (==_self i);
}

abbrev calls : Calls
calls = record { create_mutex = 1; first_event = 2; second_event = 3; threads = 6 }

launch_lem_example :
    (Created calls × (launch calls ≡ some (record { can_read = null_handle; can_write = 3 })))
    ⊎ ((launch calls ≡ none) × ¬ Created calls)
launch_lem_example = launch_lem calls

abbrev handles : Handles
handles = record { can_read = null_handle; can_write = 3 }

abbrev silent : Signals
silent _ = false

-- Reader 0 holds the mutex.
abbrev first : System
unfolding init
first = record (init silent none) {
  mem = record (init silent none).mem { waiting_readers = 1; mutex = some 0 };
  at = move (move (init silent none).at 0 lock_mutex) 0 test_writers;
}

first_Reach : Reach kernel handles (init silent none) first
unfolding init
first_Reach =
    later (later here (pick 0 (omega arith) (go do_begin_read)))
      (pick 0 (omega arith) (go (do_lock refl)))

counters_exact_example :
    (1 ≡ weight waits threads first.at)
    × (0 ≡ weight reads threads first.at)
    × (0 ≡ weight waits_write threads first.at)
unfolding first
counters_exact_example = counters_exact kernel handles silent first first_Reach

entry_exclusive_example : ◌≡◌ {A = ℕ} 0 0
unfolding first
entry_exclusive_example = entry_exclusive kernel handles silent first first_Reach 0 0 refl refl
