-- ===== src/Api/Server.antt =====
-- internal/api/server.go: authorization, routing and the handlers.
use mathlib.Core.Option
use devplat_agent.Base.{
  ℕ, Bool, true, false, ◌||◌, List, [], ◌∷◌, ◌++◌, Option, none, some, if◌then◌else◌,
}
use devplat_agent.Base.Int.{pos, ltb_ℤ, leb_ℤ}
use devplat_agent.Base.Text.{Bytes, codes, text_eq, atoi}
use devplat_agent.Json.{Json, Items, bool, num, str, arr, obj, nil, cons, object}
use devplat_agent.Json.Decode.{key_matches, read_int64, read_str, read_struct}
use devplat_agent.Regmetrics.{Fetched, scrape}
use devplat_agent.World.{
  Io, attempt, pure, ◌>>=◌, ◌>>◌, Result, done, failed, is_no_capacity, is_not_found, dial,
  hijackable, hijack, close_guest, close_conn, clear_deadline, write_upgrade, flush, pipe,
}
use devplat_agent.Network.Tap.{Error}
use devplat_agent.Manager.State.{Vm, Agent, Setting, expires_at}
use devplat_agent.Manager.Admission.{CreateRequest}
use devplat_agent.Manager.Lifecycle.{create, destroy}
use devplat_agent.Manager.Queries.{list_vms, guest_addr, health}

-- A request as the multiplexer sees it: the segments of a clean path, and a body that is JSON or not.
pub record Request : Type 0 where
  pub method : Bytes
  pub path : List Bytes
  pub authorization : Bytes
  pub body : Option Json

pub record Server : Type 0 where
  pub token : Bytes
  pub registry_metrics_url : Bytes
  pub draining : Bool

-- A JSON response, one of the multiplexer's own, a connection that was taken over and piped to an
-- address, or one that was taken over and closed.
pub data Reply : Type 0 where
  respond : ℕ → Json → Reply
  unrouted : ℕ → Reply
  piped : Bytes → Reply
  closed : Reply

-- NewServer and SetDraining
unfoldable pub new_server : Bytes → Bytes → Server
new_server token url = record { token = token; registry_metrics_url = url; draining = false }

unfoldable pub set_draining : Bool → Server → Server
set_draining v s = record s { draining = v }

-- writeError
unfoldable pub write_error : ℕ → Bytes → Reply
write_error status msg = respond status (obj (object ((codes "error", str msg) ∷ [])))

unfoldable pub set_request : Bytes → Json → CreateRequest → Option CreateRequest
set_request k v r =
    if key_matches k (codes "team_id")
    then Option.map (λ s. record r { team_id = s }) (read_str v r.team_id)
    else if key_matches k (codes "ttl_minutes")
    then Option.map (λ z. record r { ttl_minutes = z }) (read_int64 v r.ttl_minutes)
    else if key_matches k (codes "vcpu")
    then Option.map (λ z. record r { vcpu = z }) (read_int64 v r.vcpu)
    else if key_matches k (codes "ram_mb")
    then Option.map (λ z. record r { ram_mb = z }) (read_int64 v r.ram_mb)
    else some r

-- Decode of the body into a createVMRequest
unfoldable pub decode_request : Option Json → Option CreateRequest
decode_request none = none
decode_request (some j) =
    read_struct set_request j
      (record { team_id = []; ttl_minutes = pos 0; vcpu = pos 0; ram_mb = pos 0 })

unfoldable pub create_reply : Result Vm → Reply
create_reply (done vm) = respond 201 (
    obj (
      object ((codes "docker_endpoint", str vm.docker_endpoint) ∷ (codes "vm_id", str vm.id) ∷ [])))
create_reply (failed err) =
    if is_no_capacity err
    then write_error 409 (codes "no_capacity")
    else write_error 500 (codes "create_failed")

unfoldable pub delete_reply : Error → Reply
delete_reply none = respond 200 (obj (object ((codes "ok", bool true) ∷ [])))
delete_reply (some err) =
    if is_not_found err
    then write_error 404 (codes "not_found")
    else write_error 500 (codes "destroy_failed")

-- handleCreateVM up to its call of Create: the reply to a request that it turns down, or what it asks
-- of Create.
pub data Accepted : Type 0 where
  turned_down : Reply → Accepted
  accepted : CreateRequest → Accepted

unfoldable pub accept_create : Server → Option Json → Accepted
accept_create s body =
    if s.draining
    then turned_down (write_error 503 (codes "host_draining"))
    else elim (decode_request body) [
      | none ↦ turned_down (write_error 400 (codes "invalid_body"))
      | some req ↦
          if text_eq req.team_id []
          then turned_down (write_error 400 (codes "team_id_required"))
          else if leb_ℤ req.vcpu (pos 0) || leb_ℤ req.ram_mb (pos 0)
          then turned_down (write_error 400 (codes "vcpu_and_ram_mb_required"))
          else accepted req
    ]

module _ {S : Type 0} (env : Setting S) where
  unfoldable pub handle_create_vm : Server → Option Json → Agent S → Reply × Agent S
  handle_create_vm s body a = elim (accept_create s body) [
    | turned_down reply ↦ (reply, a)
    | accepted req ↦ let (result, a') = create env req a in (create_reply result, a')
  ]

  unfoldable pub handle_delete_vm : Bytes → Agent S → Reply × Agent S
  unfolding delete_reply
  handle_delete_vm id a = let (e, a') = destroy env id a in (delete_reply e, a')

  unfoldable pub vm_json : Vm → Json
  vm_json vm = obj (
      object (
        (codes "created_at", str (env.time_format.format vm.created_at))
        ∷ (codes "docker_endpoint", str vm.docker_endpoint)
        ∷ (codes "expires_at", str (env.time_format.format (expires_at vm)))
        ∷ (codes "team_id", str vm.team_id)
        ∷ (codes "vm_id", str vm.id)
        ∷ []))

  unfoldable pub vms_json : List Vm → Items
  vms_json [] = nil
  vms_json (vm ∷ vms) = cons (vm_json vm) (vms_json vms)

  unfoldable pub handle_list_vms : Agent S → Reply × Agent S
  handle_list_vms a =
      (respond 200 (obj (object ((codes "vms", arr (vms_json (list_vms a.manager))) ∷ []))), a)

  -- handleProxyPort once the guest has answered: the connection is taken over, and both ends are
  -- closed whatever happens.
  unfoldable pub splice : Bytes → Io Reply
  splice addr = do
    able ← attempt env.responder hijackable
    if able
        then (do
          taken ← attempt env.responder hijack
          if taken
              then (do
                attempt env.responder clear_deadline
                written ← attempt env.responder write_upgrade
                if written
                    then (do
                      flushed ← attempt env.responder flush
                      if flushed
                          then (do
                            attempt env.responder (pipe addr)
                            attempt env.responder close_guest
                            attempt env.responder close_conn
                            pure (piped addr))
                          else (do
                            attempt env.responder close_guest
                            attempt env.responder close_conn
                            pure closed))
                    else (do
                      attempt env.responder close_guest
                      attempt env.responder close_conn
                      pure closed))
              else (do attempt env.responder close_guest; pure closed))
        else (do
          attempt env.responder close_guest
          pure (write_error 500 (codes "hijack_unsupported")))

  unfoldable pub connect : Bytes → Io Reply
  connect addr = do
    dialed ← attempt env.responder (dial addr)
    if dialed then splice addr else pure (write_error 502 (codes "guest_dial_failed"))

  unfoldable pub handle_proxy_port : Bytes → Bytes → Agent S → Reply × Agent S
  handle_proxy_port id port_text a = elim (atoi port_text) [
    | none ↦ (write_error 400 (codes "invalid_port"), a)
    | some port ↦
        if ltb_ℤ port (pos 1) || ltb_ℤ (pos 65535) port
        then (write_error 400 (codes "invalid_port"), a)
        else elim (guest_addr env id port a.manager) [
          | failed err ↦ (write_error 404 (codes "not_found"), a)
          | done addr ↦ let (reply, w) = connect addr a.world in (reply, record a { world = w })
        ]
  ]

  unfoldable pub handle_health : Server → Fetched → Agent S → Reply × Agent S
  handle_health s fetched a =
      let h = health env a.manager in
      let counters : List (Bytes × Json) = elim (scrape s.registry_metrics_url fetched) [
        | none ↦ []
        | some (total, hits) ↦
            (codes "cache_hits", num (pos hits)) ∷ (codes "cache_lookups", num (pos total)) ∷ []
      ] in
      (
        respond 200 (
            obj (
              object (
                (codes "active_vm_count", num (pos h.active_vm_count)) ∷ counters
                ++ ((codes "cpu_total", num h.cpu_total)
                    ∷ (codes "cpu_used", num h.cpu_used)
                    ∷ (codes "draining", bool s.draining)
                    ∷ (codes "ram_total_mb", num h.ram_total_mb)
                    ∷ (codes "ram_used_mb", num h.ram_used_mb)
                    ∷ [])))),
        a,
      )
