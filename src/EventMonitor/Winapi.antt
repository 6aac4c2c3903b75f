-- ===== src/EventMonitor/Winapi.antt =====
-- Events and mutexes of Windows, as unix-lab-05 uses them: parameters, with the behaviour that is
-- documented. Handle 0 is NULL.
use ics7_os.Common.{ℕ, ◌≡◌, ◌≢◌, Bool, true, false, Option, none, some, ◌==◌, if◌then◌else◌}

abbrev pub Handle : Type 0
Handle = ℕ

abbrev pub null_handle : Handle
null_handle = 0

-- Which event is signalled, by its handle.
abbrev pub Signals : Type 0
Signals = Handle → Bool

-- What WaitForSingleObject returns.
pub data Wait : Type 0 where
  object_0 timeout failed : Wait

-- The thread that owns the mutex.
abbrev pub Mutex : Type 0
Mutex = Option ℕ

abbrev pub signal_to : Signals → Handle → Bool → Signals
signal_to s h b j = if h == j then b else s j

-- `wait_now` is a wait with timeout 0. In `wait_for` and `lock`, with timeout INFINITE, `none`
-- means that the caller waits on. An event that ends a wait is reset, since it is made with the
-- flag for that. A call on NULL fails at once and changes nothing.
pub record Kernel : Type 0 where
  pub set_event : Signals → Handle → Signals
  pub reset_event : Signals → Handle → Signals
  pub wait_now : Signals → Handle → Wait × Signals
  pub wait_for : Signals → Handle → Option (Wait × Signals)
  pub lock : Mutex → ℕ → Option Mutex
  pub unlock : Mutex → ℕ → Option Mutex
  pub set_event_lem :
      (s : Signals) (h : Handle) → h ≢ null_handle → set_event s h ≡ signal_to s h true
  pub set_event_null : (s : Signals) → set_event s null_handle ≡ s
  pub reset_event_lem :
      (s : Signals) (h : Handle) → h ≢ null_handle → reset_event s h ≡ signal_to s h false
  pub reset_event_null : (s : Signals) → reset_event s null_handle ≡ s
  pub wait_now_signalled :
      (s : Signals) (h : Handle)
      → h ≢ null_handle
      → s h ≡ true
      → wait_now s h ≡ (object_0, signal_to s h false)
  pub wait_now_silent :
      (s : Signals) (h : Handle) → h ≢ null_handle → s h ≡ false → wait_now s h ≡ (timeout, s)
  pub wait_now_null : (s : Signals) → wait_now s null_handle ≡ (failed, s)
  pub wait_for_signalled :
      (s : Signals) (h : Handle)
      → h ≢ null_handle
      → s h ≡ true
      → wait_for s h ≡ some (object_0, signal_to s h false)
  pub wait_for_silent :
      (s : Signals) (h : Handle) → h ≢ null_handle → s h ≡ false → wait_for s h ≡ none
  pub wait_for_null : (s : Signals) → wait_for s null_handle ≡ some (failed, s)
  pub lock_free : (i : ℕ) → lock none i ≡ some (some i)
  pub lock_owned : (i j : ℕ) → j ≢ i → lock (some j) i ≡ none
  pub unlock_own : (i : ℕ) → unlock (some i) i ≡ some none
