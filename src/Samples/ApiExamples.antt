-- ===== src/Samples/ApiExamples.antt =====
-- Requests to the sample host.
use devplat_agent.Base.{◌≡◌, ◌≢◌, refl, ◌⊎◌, ◌∷◌, ◌++◌, [], true, false, none, some}
use devplat_agent.Base.Int.{pos}
use devplat_agent.Base.Text.{codes}
use devplat_agent.Base.Assoc.{lookup, bytes_key, int_key}
use devplat_agent.Json.{Json, bool, obj, num, str, object}
use devplat_agent.Manager.State.{Vm}
use devplat_agent.Regmetrics.{unreachable}
use devplat_agent.Api.Server.{
  Request, Server, new_server, respond, write_error, handle_create_vm, handle_delete_vm,
  handle_proxy_port, connect,
}
use devplat_agent.Api.Router.{route, dispatch, serve_http}
use devplat_agent.Api.Access.{serve_http_authorized}
use devplat_agent.Api.Creation.{Answer, handle_create_vm-Answer, handle_delete_vm_exact}
use devplat_agent.Api.Proxy.{
  guest_open, client_open, Proxied, handle_proxy_port-Proxied, connect_closes,
}
use devplat_agent.Samples.{host, busy, busy_agent}

abbrev body : Json
body = obj (
    object (
      (codes "team_id", str (codes "red"))
      ∷ (codes "vcpu", num (pos 1))
      ∷ (codes "ram_mb", num (pos 512))
      ∷ []))

abbrev server : Server
server = new_server (codes "secret") []

abbrev post : Request
post = record {
  method = codes "POST";
  path = codes "vms" ∷ [];
  authorization = codes "Bearer secret";
  body = some body;
}

serve_http_authorized_example :
    (codes "Bearer secret" ≡ codes "Bearer " ++ server.token
      → serve_http host server post unreachable busy_agent
        ≡ dispatch host
            (route (codes "POST") (codes "vms" ∷ []))
            server
            post
            unreachable
            busy_agent)
    × (codes "Bearer secret" ≢ codes "Bearer " ++ server.token
        → serve_http host server post unreachable busy_agent
          ≡ (write_error 401 (codes "invalid_agent_token"), busy_agent))
serve_http_authorized_example = serve_http_authorized host server post unreachable busy_agent

handle_create_vm-Answer_example :
    Answer host server (some body) busy_agent (handle_create_vm host server (some body) busy_agent)
handle_create_vm-Answer_example = handle_create_vm-Answer host server (some body) busy_agent

handle_delete_vm_exact_example :
    (lookup (codes "vm_1") busy.vms ≡ none
      → handle_delete_vm host (codes "vm_1") busy_agent
        ≡ (write_error 404 (codes "not_found"), busy_agent))
    × ((vm : Vm)
        → lookup (codes "vm_1") busy.vms ≡ some vm
        → let (reply, b) = handle_delete_vm host (codes "vm_1") busy_agent in
          ((reply ≡ respond 200 (obj (object ((codes "ok", bool true) ∷ []))))
            × (lookup (codes "vm_1") b.manager.vms ≡ none)
            × (lookup vm.slot b.manager.slots ≡ none))
          ⊎ ((reply ≡ write_error 500 (codes "destroy_failed")) × (b.manager ≡ busy)))
handle_delete_vm_exact_example =
    handle_delete_vm_exact host (codes "vm_1") busy_agent (λ vm s w err e. absurd (cc))

handle_proxy_port-Proxied_example :
    Proxied host
      (codes "vm_1")
      (codes "8080")
      busy_agent
      (handle_proxy_port host (codes "vm_1") (codes "8080") busy_agent)
handle_proxy_port-Proxied_example =
    handle_proxy_port-Proxied host (codes "vm_1") (codes "8080") busy_agent

connect_closes_example :
    (guest_open (connect host (codes "172.20.0.2:8080") []).1 ≡ false)
    × (client_open (connect host (codes "172.20.0.2:8080") []).1 ≡ false)
connect_closes_example =
    connect_closes host (codes "172.20.0.2:8080") [] (unfold guest_open in refl)
      (unfold client_open in refl)
