-- ===== src/BakeryCalls/Client.antt =====
-- `bakery_prog_1` and `main` of unix-lab-06/bakery/bakery_client.c.
use ics7_os.Common.{ℕ, Bool, true, false, Option, none, some, List, [], ◌∷◌, ◌++◌, ℤ, ltb}
use ics7_os.BakeryCalls.{Message, Procedure, get_number, wait_queue, bakery_res}

-- The output.
pub data Line : Type 0 where
  usage create_failed call_failed : Line
  has_number : (pid num : ℤ) → Line
  got_response : (pid response : ℤ) → Line

-- How the process ends; `crashed` is a read through NULL.
pub data Ended : Type 0 where
  exited : ℕ → Ended
  crashed : Ended

-- The locals `get_number_1_arg`, `wait_queue_1_arg` and `bakery_res_1_arg`, before they are set.
pub record Locals : Type 0 where
  pub get_number_1_arg : Message
  pub wait_queue_1_arg : Message
  pub bakery_res_1_arg : Message

-- `call` are the stubs, and `W` what they change.
module _ {W : Type 0} (call : Procedure → Message → W → Option Message × W) (unset : Locals)
    (getpid : ℤ) where
  abbrev Result : Type 0
  Result = Ended × List Line × W

  -- Behind the third call.
  unfoldable pub on_response : List Line → Option Message × W → Result
  on_response out (none, w) = (crashed, out ++ call_failed ∷ [], w)
  on_response out (some r, w) = (exited 0, out ++ got_response getpid r.result ∷ [], w)

  unfoldable pub ask_response : List Line → ℤ → ℤ → W → Result
  ask_response out num pid w =
      on_response out (call bakery_res (record unset.bakery_res_1_arg { num = num; pid = pid }) w)

  -- Behind the second call, whose result is only compared with NULL.
  unfoldable pub on_waited : List Line → ℤ → ℤ → Option Message × W → Result
  on_waited out num pid (none, w) = ask_response (out ++ call_failed ∷ []) num pid w
  on_waited out num pid (some r, w) = ask_response out num pid w

  -- Behind the first call.
  unfoldable pub on_number : Option Message × W → Result
  on_number (none, w) = (crashed, call_failed ∷ [], w)
  on_number (some r, w) =
      on_waited (has_number getpid r.num ∷ []) r.num r.pid
        (call wait_queue (record unset.wait_queue_1_arg { num = r.num; pid = r.pid }) w)

  -- `created` is false when `clnt_create` gave NULL.
  unfoldable pub bakery_prog_1 : Bool → W → Result
  bakery_prog_1 false w = (exited 1, create_failed ∷ [], w)
  bakery_prog_1 true w =
      on_number (call get_number (record unset.get_number_1_arg { pid = getpid }) w)

  unfoldable pub main : ℕ → Bool → W → Result
  main argc created w = elim (ltb argc 2) [
    | true ↦ (exited 1, usage ∷ [], w)
    | false ↦ bakery_prog_1 created w
  ]
