-- ===== src/BakeryCalls/Tests.antt =====
-- The remote calls at concrete inputs.
use ics7_os.Common.{
  ℕ, ◌+◌, ◌-◌, ◌%◌, ◌^◌, ap, ◌≡◌, refl, Bool, true, Option, none, some, List, [], ◌∷◌, ◌++◌, ℤ, pos,
  negsuc, arith, ltb, lt→ltb, ltb_of_ge, if◌then◌else◌,
}
use ics7_os.Common.Options.{◌>>=◌}
use ics7_os.BakeryCalls.{
  Message, XdrInt, Filter, xdr_encode, xdr_decode, Procedure, get_number, wait_queue, bakery_res,
  ClntCall, stub, Svc, Reply, replied, no_procedure, bakery_prog_1,
}
use ics7_os.BakeryCalls.Client.{Locals, exited, has_number, got_response}
use ics7_os.BakeryCalls.Client as Client
use ics7_os.BakeryCalls.Transparent.{
  IsInt, IsMessage, Written, IsXdrInt, IsSvc, Delivers, Room, local_call, xdr_encode-xdr_decode,
  client_served,
}

-- An int is one unit of 32 bits.
abbrev unit : ℤ → ℕ
unit (pos n) = n
unit (negsuc n) = 2 ^ 32 - 1 - n

abbrev int : ℕ → ℤ
int u = if ltb u (2 ^ 31) then pos u else negsuc (2 ^ 32 - 1 - u)

abbrev get : List ℕ → Option (ℤ × List ℕ)
get [] = none
get (u ∷ us) = some (int u, us)

abbrev units : XdrInt
units = record { put_int = λ n ws. some (ws ++ unit n ∷ []); get_int = get }

int-unit : (n : ℤ) → IsInt n → int (unit n) ≡ n
int-unit (pos n) h = rw (lt→ltb n (2 ^ 31) h) refl
int-unit (negsuc n) h =
    rw (ltb_of_ge (2 ^ 32 - 1 - n) (2 ^ 31) (omega (arith, h))) (ap negsuc (omega (arith, h)))

units-IsXdrInt : IsXdrInt units
units-IsXdrInt = record {
  written = λ n ws ws' is e. (unit n ∷ [], cc e, λ rest. ap (λ k. some (k, rest)) (int-unit n is));
}

units-Room : Room units units-IsXdrInt
unfolding xdr_encode
units-Room m is = (unit m.num ∷ unit m.pid ∷ unit m.result ∷ [], refl)

abbrev svc : Svc
svc = record {
  getargs = λ f ws. f.decode ws >>= λ r. some r.0;
  sendreply = λ f m. f.encode m [];
  freeargs = λ _ _. true;
}

svc-IsSvc : IsSvc units units-IsXdrInt svc
svc-IsSvc = record { getargs = λ f ws rest m e. rw (e, ◌>>=◌) refl; sendreply = λ f m ws e. e }

-- A server that gives the clients numbers and letters in turn; the state is the number of the calls
-- so far.
abbrev serve : Procedure → Message → ℕ → Message × ℕ
serve get_number m w =
    (record { num = pos (w % 30 + 1); pid = pos (w % 30); result = pos 0 }, w + 1)
serve wait_queue m w = (record { num = pos 0; pid = pos 0; result = pos 0 }, w + 1)
serve bakery_res m w = (record { num = pos 0; pid = pos 0; result = pos (b'a' + w % 26) }, w + 1)

abbrev answered : Filter → Reply × Bool × ℕ → Option Message × ℕ
answered g (replied ws, alive, w) = ((g.decode ws >>= λ r. some r.0), w)
answered g (_, alive, w) = (none, w)

-- The network loses nothing.
abbrev direct : ClntCall ℕ
direct n f arg g w = elim (f.encode arg []) [
  | none ↦ (none, w)
  | some request ↦ answered g (bakery_prog_1 units svc (local_call serve) n request w)
]

direct-Delivers : Delivers units units-IsXdrInt svc (local_call serve) direct
direct-Delivers n f g arg m request ws alive w w' e e' e'' =
    rw (direct, e) (rw (e', e'', ◌>>=◌) refl)

serve-IsMessage : (p : Procedure) (m : Message) (w : ℕ) → IsMessage (serve p m w).0
serve-IsMessage get_number m w = record {
  num = omega arith;
  pid = omega arith;
  result = omega arith;
}
serve-IsMessage wait_queue m w = record {
  num = omega arith;
  pid = omega arith;
  result = omega arith;
}
serve-IsMessage bakery_res m w = record {
  num = omega arith;
  pid = omega arith;
  result = omega arith;
}

abbrev message : Message
message = record { num = pos 3; pid = negsuc 0; result = pos 97 }

message-IsMessage : IsMessage message
message-IsMessage = record { num = omega arith; pid = omega arith; result = omega arith }

xdr_encode-xdr_decode_example :
    Written (xdr_decode units) message (7 ∷ []) (7 ∷ 3 ∷ 4294967295 ∷ 97 ∷ [])
unfolding xdr_encode
xdr_encode-xdr_decode_example =
    xdr_encode-xdr_decode units units-IsXdrInt message (7 ∷ []) (7 ∷ 3 ∷ 4294967295 ∷ 97 ∷ [])
      message-IsMessage refl

abbrev locals : Locals
locals = record {
  get_number_1_arg = message;
  wait_queue_1_arg = message;
  bakery_res_1_arg = message;
}

client_served_example :
    Client.main (stub units direct) locals (pos 1234) 2 true 4
    ≡ (exited 0, has_number (pos 1234) (pos 5) ∷ got_response (pos 1234) (pos b'g') ∷ [], 7)
client_served_example =
    client_served units units-IsXdrInt units-Room svc svc-IsSvc serve direct direct-Delivers
      serve-IsMessage locals (pos 1234) 2 4 message-IsMessage message-IsMessage message-IsMessage
      (omega arith) (omega arith)

unknown_procedure : (bakery_prog_1 units svc (local_call serve) 4 [] 0).0 ≡ no_procedure
unfolding bakery_prog_1
unknown_procedure = refl
