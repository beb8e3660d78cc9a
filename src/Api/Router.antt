-- ===== src/Api/Router.antt =====
-- internal/api/server.go: the routes of NewServer and the authorization of ServeHTTP, with the rules
-- of http.ServeMux: GET patterns serve HEAD too, a wildcard takes one segment that is not empty, a
-- path with no pattern is 404 and one with patterns for other methods only is 405.
use devplat_agent.Base.{Bool, ◌||◌, ◌&&◌, not, List, [], ◌∷◌, ◌++◌, if◌then◌else◌}
use devplat_agent.Base.Text.{Bytes, codes, text_eq}
use devplat_agent.Regmetrics.{Fetched}
use devplat_agent.Manager.State.{Agent, Setting}
use devplat_agent.Api.Server.{
  Request, Server, Reply, unrouted, write_error, handle_create_vm, handle_delete_vm,
  handle_list_vms, handle_proxy_port, handle_health,
}

pub data Route : Type 0 where
  create_vm list_vms health no_path no_method : Route
  delete_vm : Bytes → Route
  proxy_port : Bytes → Bytes → Route

unfoldable pub is_get : Bytes → Bool
is_get method = text_eq method (codes "GET") || text_eq method (codes "HEAD")

unfoldable pub is_wildcard : Bytes → Bool
is_wildcard segment = not (text_eq segment [])

unfoldable pub route_one : Bytes → Bytes → Route
route_one method a =
    if text_eq a (codes "vms")
    then (if text_eq method (codes "POST")
        then create_vm
        else if is_get method
        then list_vms
        else no_method)
    else if text_eq a (codes "health")
    then (if is_get method then health else no_method)
    else no_path

unfoldable pub route_two : Bytes → Bytes → Bytes → Route
route_two method a id =
    if text_eq a (codes "vms") && is_wildcard id
    then (if text_eq method (codes "DELETE") then delete_vm id else no_method)
    else no_path

unfoldable pub route_four : Bytes → Bytes → Bytes → Bytes → Bytes → Route
route_four method a id b port =
    if text_eq a (codes "vms") && is_wildcard id && text_eq b (codes "proxy") && is_wildcard port
    then (if is_get method then proxy_port id port else no_method)
    else no_path

unfoldable pub route : Bytes → List Bytes → Route
route method [] = no_path
route method (a ∷ []) = route_one method a
route method (a ∷ id ∷ []) = route_two method a id
route method (a ∷ id ∷ b ∷ []) = no_path
route method (a ∷ id ∷ b ∷ port ∷ []) = route_four method a id b port
route method (a ∷ id ∷ b ∷ port ∷ c ∷ rest) = no_path

module _ {S : Type 0} (env : Setting S) where
  unfoldable pub dispatch : Route → Server → Request → Fetched → Agent S → Reply × Agent S
  dispatch create_vm s req fetched a = handle_create_vm env s req.body a
  dispatch (delete_vm id) s req fetched a = handle_delete_vm env id a
  dispatch list_vms s req fetched a = handle_list_vms env a
  dispatch (proxy_port id port) s req fetched a = handle_proxy_port env id port a
  dispatch health s req fetched a = handle_health env s fetched a
  dispatch no_path s req fetched a = (unrouted 404, a)
  dispatch no_method s req fetched a = (unrouted 405, a)

  -- ServeHTTP; what the registry would answer is given for the handler that asks it
  unfoldable pub serve_http : Server → Request → Fetched → Agent S → Reply × Agent S
  serve_http s req fetched a =
      if text_eq req.authorization (codes "Bearer " ++ s.token)
      then dispatch (route req.method req.path) s req fetched a
      else (write_error 401 (codes "invalid_agent_token"), a)
