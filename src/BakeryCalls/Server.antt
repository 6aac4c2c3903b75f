-- ===== src/BakeryCalls/Server.antt =====
-- `main` of unix-lab-06/bakery/bakery_svc.c.
use ics7_os.Common.{◌≡◌, refl, sym, ap, ◌∙◌, Bool, true, false, List, [], ◌∷◌, ◌++◌}

pub data Transport : Type 0 where
  udp tcp : Transport

-- The message before exit(1).
pub data Stopped : Type 0 where
  cannot_create unable_to_register : Transport → Stopped
  run_returned : Stopped

-- Whether svcudp_create, svctcp_create and the two calls of svc_register succeed.
module _ (create register : Transport → Bool) where
  abbrev pub Result : Type 0
  Result = Stopped × List Transport

  -- One transport: the programs registered so far stay registered when a call fails.
  unfoldable pub offer : Transport → (List Transport → Result) → List Transport → Result
  offer t next registered = elim (create t) [
    | false ↦ (cannot_create t, registered)
    | true ↦ elim (register t) [
      | false ↦ (unable_to_register t, registered)
      | true ↦ next (registered ++ t ∷ [])
    ]
  ]

  -- pmap_unset comes first, so nothing is registered at the start.
  unfoldable pub main : Result
  unfolding offer
  main = offer udp (offer tcp (λ registered. (run_returned, registered))) []

  offer_all :
      (t : Transport) (next : List Transport → Result) (registered : List Transport)
      → (offer t next registered).0 ≡ run_returned
      → offer t next registered ≡ next (registered ++ t ∷ [])
  unfolding offer
  offer_all t next registered e = go (create t) (register t) e
    where
      given : Bool → Bool → Result
      given a b = elim a [
        | false ↦ (cannot_create t, registered)
        | true ↦ elim b [
          | false ↦ (unable_to_register t, registered)
          | true ↦ next (registered ++ t ∷ [])
        ]
      ]

      go : (a b : Bool) → (given a b).0 ≡ run_returned → given a b ≡ next (registered ++ t ∷ [])
      go false b e = absurd (cc e)
      go true false e = absurd (cc e)
      go true true e = refl

  -- svc_run is called with both transports registered, or not at all.
  main_registers : main.0 ≡ run_returned → main.1 ≡ udp ∷ tcp ∷ []
  unfolding main
  main_registers e =
      let first = offer_all udp (offer tcp (λ registered. (run_returned, registered))) [] e in
      let second =
        offer_all tcp (λ registered. (run_returned, registered)) (udp ∷ [])
          (ap (λ r. r.0) (sym first) ∙ e) in
      ap (λ r. r.1) (first ∙ second)
