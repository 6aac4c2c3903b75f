-- ===== src/BakeryCalls/Transparent.antt =====
-- A remote call does what the function of the server does.
use ics7_os.Common.{
  ℕ, ◌^◌, ◌≤◌, ◌<◌, ◌≡◌, refl, sym, ap, ◌∙◌, Bool, true, Option, some, List, [], ◌∷◌, ◌++◌,
  append_assoc, append-nil, ltb_of_ge, ℤ, pos, negsuc,
}
use ics7_os.Common.Options.{◌>>=◌, bind_some}
use ics7_os.BakeryCalls.{
  Message, XdrInt, Filter, xdr_encode, xdr_decode, xdr_bakery, Procedure, get_number, wait_queue,
  bakery_res, number_of, ClntCall, stub, Services, Svc, replied, run_local, bakery_prog_1, reply_to,
}
use ics7_os.BakeryCalls.Client.{Locals, exited, has_number, got_response}
use ics7_os.BakeryCalls.Client as Client

-- An `int` of 32 bits.
abbrev pub IsInt : ℤ → Type 0
IsInt (pos n) = n < 2 ^ 31
IsInt (negsuc n) = n < 2 ^ 31

pub record IsMessage (m : Message) : Type 0 where
  pub num : IsInt m.num
  pub pid : IsInt m.pid
  pub result : IsInt m.result

-- What is documented of `xdr_int`: it puts an int at the end of the stream, when there is room, so
-- that it is read back, whatever follows.
abbrev pub Written {ℓ} :
    {A : Type ℓ} → (List ℕ → Option (A × List ℕ)) → A → List ℕ → List ℕ → Type ℓ
Written get a ws ws' =
    (code : List ℕ) × (ws' ≡ ws ++ code) × ((rest : List ℕ) → get (code ++ rest) ≡ some (a, rest))

pub record IsXdrInt (x : XdrInt) : Type 0 where
  pub written :
      (n : ℤ) (ws ws' : List ℕ) → IsInt n → x.put_int n ws ≡ some ws' → Written x.get_int n ws ws'

-- The functions of the server, which never give NULL.
abbrev pub local_call : {W : Type 0} → (Procedure → Message → W → Message × W) → Services W
local_call serve p m w = (some (serve p m w).0, (serve p m w).1)

module _ (x : XdrInt) (lib : IsXdrInt x) where
  -- With xdr_int as documented, a message of ints that xdr_BAKERY encodes behind whatever is in the
  -- stream is the one that it decodes there, and what follows is left.
  pub xdr_encode-xdr_decode :
      (m : Message) (ws ws' : List ℕ)
      → IsMessage m
      → xdr_encode x m ws ≡ some ws'
      → Written (xdr_decode x) m ws ws'
  unfolding xdr_encode xdr_decode
  xdr_encode-xdr_decode m ws ws' is e =
      let (w₂, e₂, e_result) =
        bind_some (x.put_int m.num ws >>= x.put_int m.pid) (x.put_int m.result) e in
      let (w₁, e_num, e_pid) = bind_some (x.put_int m.num ws) (x.put_int m.pid) e₂ in
      let (a, q_a, get_a) = lib.written m.num ws w₁ is.num e_num in
      let (b, q_b, get_b) = lib.written m.pid w₁ w₂ is.pid e_pid in
      let (c, q_c, get_c) = lib.written m.result w₂ ws' is.result e_result in
      (
        a ++ (b ++ c),
        q_c
            ∙ ap (λ l. l ++ c) (q_b ∙ ap (λ l. l ++ b) q_a)
            ∙ append_assoc (ws ++ a) b c
            ∙ append_assoc ws a (b ++ c),
        λ rest.
            rw
              (
                append_assoc a (b ++ c) rest,
                get_a ((b ++ c) ++ rest),
                append_assoc b c rest,
                get_b (c ++ rest),
                get_c rest,
              )
              refl,
      )

  -- What is documented of the library, when no message is lost: the argument goes through its
  -- filter to the server, where svc_getargs decodes it; svc_sendreply encodes the result, and
  -- clnt_call decodes it.
  pub record IsSvc (svc : Svc) : Type 0 where
    pub getargs :
        (f : Filter) (ws rest : List ℕ) (m : Message)
        → f.decode ws ≡ some (m, rest)
        → svc.getargs f ws ≡ some m
    pub sendreply :
        (f : Filter) (m : Message) (ws : List ℕ)
        → f.encode m [] ≡ some ws
        → svc.sendreply f m ≡ some ws

  abbrev pub Delivers : {W : Type 0} → Svc → Services W → ClntCall W → Type 0
  Delivers {W} svc services call =
      (n : ℕ) (f g : Filter) (arg m : Message) (request ws : List ℕ) (alive : Bool) (w w' : W)
      → f.encode arg [] ≡ some request
      → bakery_prog_1 x svc services n request w ≡ (replied ws, alive, w')
      → g.decode ws ≡ some (m, [])
      → call n f arg g w ≡ (some m, w')

  -- There is room for a message.
  abbrev pub Room : Type 0
  Room = (m : Message) → IsMessage m → (ws : List ℕ) × (xdr_encode x m [] ≡ some ws)

  module _ (room : Room) (svc : Svc) (is : IsSvc svc) {W : Type 0}
      (serve : Procedure → Message → W → Message × W) (call : ClntCall W) where
    decoded :
        (m : Message) (ws : List ℕ)
        → IsMessage m
        → xdr_encode x m [] ≡ some ws
        → xdr_decode x ws ≡ some (m, [])
    decoded m ws good e =
        let (code, q, read) = xdr_encode-xdr_decode m [] ws good e in
        ap (xdr_decode x) (q ∙ sym (append-nil code)) ∙ read []

    dispatched_to :
        (p : Procedure) (request : List ℕ) (w : W)
        → bakery_prog_1 x svc (local_call serve) (number_of p) request w
          ≡ run_local x svc (local_call serve) p request w
    unfolding bakery_prog_1
    dispatched_to get_number request w = refl
    dispatched_to wait_queue request w = refl
    dispatched_to bakery_res request w = refl

    stub_calls :
        (p : Procedure) (arg : Message) (w : W)
        → stub x call p arg w ≡ call (number_of p) (xdr_bakery x) arg (xdr_bakery x) w
    unfolding stub
    stub_calls get_number arg w = refl
    stub_calls wait_queue arg w = refl
    stub_calls bakery_res arg w = refl

    dispatched :
        (p : Procedure) (arg : Message) (request ws : List ℕ) (w : W)
        → IsMessage arg
        → xdr_encode x arg [] ≡ some request
        → xdr_encode x (serve p arg w).0 [] ≡ some ws
        → bakery_prog_1 x svc (local_call serve) (number_of p) request w
          ≡ (replied ws, svc.freeargs (xdr_bakery x) arg, (serve p arg w).1)
    unfolding run_local reply_to
    dispatched p arg request ws w good e e' =
        let got = is.getargs (xdr_bakery x) request [] arg (decoded arg request good e) in
        let sent = is.sendreply (xdr_bakery x) (serve p arg w).0 ws e' in
        dispatched_to p request w ∙ rw (run_local, got) (rw (reply_to, sent) refl)

    remote_call :
        Delivers svc (local_call serve) call
        → (p : Procedure) (arg : Message) (w : W) → IsMessage arg
        → IsMessage (serve p arg w).0
        → stub x call p arg w ≡ local_call serve p arg w
    remote_call delivers p arg w good good' =
        let (request, e) = room arg good in
        let (ws, e') = room (serve p arg w).0 good' in
        stub_calls p arg w
        ∙ delivers (number_of p) (xdr_bakery x) (xdr_bakery x) arg _ request ws _ w _ e
            (dispatched p arg request ws w good e e') (decoded (serve p arg w).0 ws good' e')

    -- The client, started with a host, over a network that loses nothing, with room for a message,
    -- and with a pid, locals and a server of ints: it prints the number and the response that the
    -- functions of the server give when they are called one after the other, the second and the
    -- third with the number and the pid that the first gave, and exits with 0.
    pub client_served :
        Delivers svc (local_call serve) call
        → ((p : Procedure) (m : Message) (v : W) → IsMessage (serve p m v).0)
        → (unset : Locals) (getpid : ℤ) (argc : ℕ) (w : W) → IsMessage unset.get_number_1_arg
        → IsMessage unset.wait_queue_1_arg
        → IsMessage unset.bakery_res_1_arg
        → IsInt getpid
        → 2 ≤ argc
        → let r₁ = serve get_number (record unset.get_number_1_arg { pid = getpid }) w in
          let r₂ =
            serve wait_queue
              (record unset.wait_queue_1_arg { num = r₁.0.num; pid = r₁.0.pid })
              r₁.1 in
          let r₃ =
            serve bakery_res
              (record unset.bakery_res_1_arg { num = r₁.0.num; pid = r₁.0.pid })
              r₂.1 in
          Client.main (stub x call) unset getpid argc true w
          ≡ (exited 0, has_number getpid r₁.0.num ∷ got_response getpid r₃.0.result ∷ [], r₃.1)
    unfolding Client.main Client.bakery_prog_1 Client.on_number Client.on_waited Client.ask_response
        Client.on_response
    client_served delivers ints unset getpid argc w good₁ good₂ good₃ pid enough =
        let m₁ : Message = record unset.get_number_1_arg { pid = getpid } in
        let r₁ = serve get_number m₁ w in
        let m₂ : Message = record unset.wait_queue_1_arg { num = r₁.0.num; pid = r₁.0.pid } in
        let r₂ = serve wait_queue m₂ r₁.1 in
        let m₃ : Message = record unset.bakery_res_1_arg { num = r₁.0.num; pid = r₁.0.pid } in
        let first = ints get_number m₁ w in
        let calls = remote_call delivers in
        let e₁ =
          calls get_number m₁ w (record { num = good₁.num; pid = pid; result = good₁.result })
            first in
        let e₂ =
          calls wait_queue m₂ r₁.1
            (record { num = first.num; pid = first.pid; result = good₂.result })
            (ints wait_queue m₂ r₁.1) in
        let e₃ =
          calls bakery_res m₃ r₂.1
            (record { num = first.num; pid = first.pid; result = good₃.result })
            (ints bakery_res m₃ r₂.1) in
        let out = has_number getpid r₁.0.num ∷ [] in
        rw (Client.main, ltb_of_ge argc 2 enough)
          (ap (Client.on_number (stub x call) unset getpid) e₁
            ∙ ap (Client.on_waited (stub x call) unset getpid out r₁.0.num r₁.0.pid) e₂
            ∙ ap (Client.on_response (stub x call) unset getpid out) e₃)
