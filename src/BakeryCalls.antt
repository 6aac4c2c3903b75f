-- ===== src/BakeryCalls.antt =====
-- The remote calls of unix-lab-06/bakery: xdr_BAKERY (bakery_xdr.c), the stubs of the client
-- (bakery_clnt.c) and the dispatcher of the server (bakery_svc.c). Bakery has what the server does.
pub mod Client
pub mod Server
pub mod Transparent
pub mod Tests
use ics7_os.Common.{ℕ, zero, suc, Bool, true, false, Option, none, some, List, [], ◌∷◌, ℤ, pos}
use ics7_os.Common.Options.{◌>>=◌}

-- struct BAKERY
pub record Message : Type 0 where
  pub num : ℤ
  pub pid : ℤ
  pub result : ℤ

-- `xdr_int` of the library on a stream that is written, and on one that is read: `none` is FALSE.
pub record XdrInt : Type 0 where
  pub put_int : ℤ → List ℕ → Option (List ℕ)
  pub get_int : List ℕ → Option (ℤ × List ℕ)

-- An `xdrproc_t` for a BAKERY, in both directions.
pub record Filter : Type 0 where
  pub encode : Message → List ℕ → Option (List ℕ)
  pub decode : List ℕ → Option (Message × List ℕ)

module _ (x : XdrInt) where
  open x use {put_int, get_int}

  unfoldable pub xdr_encode : Message → List ℕ → Option (List ℕ)
  xdr_encode m ws = put_int m.num ws >>= put_int m.pid >>= put_int m.result

  unfoldable pub xdr_decode : List ℕ → Option (Message × List ℕ)
  xdr_decode ws = get_int ws >>= λ a. get_int a.1 >>= λ b.
      get_int b.1 >>= λ c. some (record { num = a.0; pid = b.0; result = c.0 }, c.1)

  abbrev pub xdr_bakery : Filter
  xdr_bakery = record { encode = xdr_encode; decode = xdr_decode }

-- The procedures of BAKERY_VER, with their numbers.
pub data Procedure : Type 0 where
  get_number wait_queue bakery_res : Procedure

abbrev pub number_of : Procedure → ℕ
number_of get_number = 1
number_of wait_queue = 2
number_of bakery_res = 3

-- `clnt_call`, with the number, the filter and the argument, and the filter of the result; a result
-- other than RPC_SUCCESS is `none`. `W` is all that a call can change.
abbrev pub ClntCall : Type 0 → Type 0
ClntCall W = ℕ → Filter → Message → Filter → W → Option Message × W

-- The functions get_number_1, wait_queue_1 and bakery_res_1 of the client.
unfoldable pub stub :
    {W : Type 0} → XdrInt → ClntCall W → Procedure → Message → W → Option Message × W
stub x call get_number arg w = call 1 (xdr_bakery x) arg (xdr_bakery x) w
stub x call wait_queue arg w = call 2 (xdr_bakery x) arg (xdr_bakery x) w
stub x call bakery_res arg w = call 3 (xdr_bakery x) arg (xdr_bakery x) w

-- The functions of the server, get_number_1_svc and so on; `none` is NULL.
abbrev pub Services : Type 0 → Type 0
Services W = Procedure → Message → W → Option Message × W

-- `svc_getargs` on the request, `svc_sendreply` with what it sends, and `svc_freeargs`.
pub record Svc : Type 0 where
  pub getargs : Filter → List ℕ → Option Message
  pub sendreply : Filter → Message → Option (List ℕ)
  pub freeargs : Filter → Message → Bool

-- What is sent for a request: a result, a reply without one, one of the error replies, or nothing.
pub data Reply : Type 0 where
  replied : List ℕ → Reply
  replied_void no_procedure cannot_decode system_error silent : Reply

-- The `switch` on the number: NULLPROC is 0.
pub data Chosen : Type 0 where
  null_procedure unknown : Chosen
  procedure : Procedure → Chosen

abbrev pub choose : ℕ → Chosen
choose zero = null_procedure
choose (suc zero) = procedure get_number
choose (suc (suc zero)) = procedure wait_queue
choose (suc (suc (suc zero))) = procedure bakery_res
choose (suc (suc (suc (suc n)))) = unknown

module _ (x : XdrInt) (svc : Svc) {W : Type 0} (services : Services W) where
  open svc use {getargs, sendreply, freeargs}

  -- The reply to the result of a function; NULL has none.
  unfoldable pub reply_to : Option Message → Reply
  reply_to none = silent
  reply_to (some m) = elim (sendreply (xdr_bakery x) m) [
    | none ↦ system_error
    | some ws ↦ replied ws
  ]

  -- The Boolean says whether the server goes on: it exits when it cannot free the arguments.
  unfoldable pub run_local : Procedure → List ℕ → W → Reply × Bool × W
  run_local p request w = elim (getargs (xdr_bakery x) request) [
    | none ↦ (cannot_decode, true, w)
    | some arg ↦ let r = services p arg w in (reply_to r.0, freeargs (xdr_bakery x) arg, r.1)
  ]

  -- `bakery_prog_1` of bakery_svc.c.
  unfoldable pub bakery_prog_1 : ℕ → List ℕ → W → Reply × Bool × W
  bakery_prog_1 n request w = elim (choose n) [
    | null_procedure ↦ (replied_void, true, w)
    | procedure p ↦ run_local p request w
    | unknown ↦ (no_procedure, true, w)
  ]
