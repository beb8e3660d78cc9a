-- ===== src/Main/Flight/Arrive.antt =====
-- cmd/agent/main.go: the request that comes in, with the manager as it is and the Creates in flight.
use devplat_agent.Base.{
  ◌≡◌, refl, true, ◌++◌, Option, ◌||◌, Option-cases, arith, inl, inr, Bool-cases,
}
use devplat_agent.Base.Text.{Bytes, codes, atoi, text_eq}
use devplat_agent.Base.Assoc.{bytes_key, int_key}
use devplat_agent.Json.{Json}
use devplat_agent.World.{Result, done, failed}
use devplat_agent.Base.Int.{pos, ltb_ℤ}
use devplat_agent.Regmetrics.{Fetched}
use devplat_agent.Manager.State.{Vm, Agent, Setting}
use devplat_agent.Api.Server.{
  Request, Server, Reply, handle_list_vms, handle_health, handle_proxy_port, connect, write_error,
  Accepted, turned_down, accepted,
}
use devplat_agent.Api.Acceptance.{Verdict, drained, malformed, asks, accept_create-Verdict}
use devplat_agent.Manager.Queries.{guest_addr}
use devplat_agent.Api.Router.{health as health_route}
use devplat_agent.Api.Router.{
  Route, create_vm, list_vms, no_path, no_method, delete_vm, proxy_port, dispatch, route,
}
use devplat_agent.Main.Sections.{creating, over, again, arrive, arrive_at}
use devplat_agent.Main.Flight.{GoesOn}

module _ {S : Type 0} (env : Setting S) where
  answered :
      (guest : Result Bytes) (a : Agent S)
      → (elim guest as (λ _. Reply × Agent S) [
        | failed err ↦ (write_error 404 (codes "not_found"), a)
        | done addr ↦ let (reply, w) = connect env addr a.world in (reply, record a { world = w })
      ]).1.manager
        ≡ a.manager
  answered (failed err) a = refl
  answered (done addr) a = refl

  handle_proxy_port_manager :
      (id port_text : Bytes) (a : Agent S)
      → (handle_proxy_port env id port_text a).1.manager ≡ a.manager
  unfolding handle_proxy_port
  handle_proxy_port_manager id port_text a = elim (Option-cases (atoi port_text)) [
    | inl bad ↦ rw (bad, handle_proxy_port) refl
    | inr (port, read) ↦ elim (Bool-cases (ltb_ℤ port (pos 1) || ltb_ℤ (pos 65535) port)) [
      | inl outside ↦ rw (read, handle_proxy_port, outside) refl
      | inr inside ↦
          rw (read, handle_proxy_port, inside) (answered (guest_addr env id port a.manager) a)
    ]
  ]

  arrive_at_manager :
      (r : Route) (s : Server) (req : Request) (fetched : Fetched) (a : Agent S)
      → (arrive_at env r s req fetched a).1.manager ≡ a.manager
  unfolding arrive_at dispatch handle_list_vms handle_health
  arrive_at_manager create_vm s req fetched a = refl
  arrive_at_manager (delete_vm id) s req fetched a = refl
  arrive_at_manager list_vms s req fetched a = refl
  arrive_at_manager (proxy_port id port) s req fetched a = handle_proxy_port_manager id port a
  arrive_at_manager health_route s req fetched a = refl
  arrive_at_manager no_path s req fetched a = refl
  arrive_at_manager no_method s req fetched a = refl

  pub arrive_manager :
      (s : Server) (req : Request) (fetched : Fetched) (a : Agent S)
      → (arrive env s req fetched a).1.manager ≡ a.manager
  unfolding arrive
  arrive_manager s req fetched a =
      elim (Bool-cases (text_eq req.authorization (codes "Bearer " ++ s.token))) [
        | inl known ↦ rw known (arrive_at_manager (route req.method req.path) s req fetched a)
        | inr stranger ↦ rw stranger refl
      ]

  accepted-GoesOn :
      (vm : Vm) (s : Server) (body : Option Json)
      → s.draining ≡ true
      → (c : Accepted) → Verdict s body c
      → GoesOn vm (elim c [ turned_down reply ↦ over reply | accepted q ↦ again (creating q) ])
      → ⊥
  accepted-GoesOn vm s body d c (drained d' e) = rw e (λ g. g)
  accepted-GoesOn vm s body d c (malformed msg open' e) = absurd (ground arith)
  accepted-GoesOn vm s body d c (asks req open' good e) = absurd (ground arith)

  arrive_at-GoesOn :
      (vm : Vm) (r : Route) (s : Server) (req : Request) (fetched : Fetched) (a : Agent S)
      → s.draining ≡ true
      → GoesOn vm (arrive_at env r s req fetched a).0
      → ⊥
  unfolding arrive_at dispatch
  arrive_at-GoesOn vm create_vm s req fetched a d g =
      accepted-GoesOn vm s req.body d _ (accept_create-Verdict s req.body) g
  arrive_at-GoesOn vm (delete_vm id) s req fetched a d g = g
  arrive_at-GoesOn vm list_vms s req fetched a d g = g
  arrive_at-GoesOn vm (proxy_port id port) s req fetched a d g = g
  arrive_at-GoesOn vm health_route s req fetched a d g = g
  arrive_at-GoesOn vm no_path s req fetched a d g = g
  arrive_at-GoesOn vm no_method s req fetched a d g = g

  -- A server that drains starts no Create.
  pub arrive-GoesOn :
      (vm : Vm) (s : Server) (req : Request) (fetched : Fetched) (a : Agent S)
      → s.draining ≡ true
      → GoesOn vm (arrive env s req fetched a).0
      → ⊥
  unfolding arrive
  arrive-GoesOn vm s req fetched a d =
      elim (Bool-cases (text_eq req.authorization (codes "Bearer " ++ s.token))) [
        | inl known ↦ rw known (arrive_at-GoesOn vm (route req.method req.path) s req fetched a d)
        | inr stranger ↦ rw stranger (λ g. g)
      ]
