-- ===== src/Api/Access.antt =====
-- internal/api/server.go: who is served, and draining.
use devplat_agent.Base.{◌≡◌, ◌≢◌, refl, true, ◌++◌, inl, inr, Bool-cases}
use devplat_agent.Base.Text.{codes, text_eq, text_eq_iff}
use devplat_agent.Regmetrics.{Fetched}
use devplat_agent.Manager.State.{Agent, Setting}
use devplat_agent.Api.Server.{
  Request, Server, write_error, set_draining, handle_create_vm, accept_create,
}
use devplat_agent.Api.Router.{Route, create_vm, health, route, dispatch, serve_http}

module _ {S : Type 0} (env : Setting S) where
  -- A request reaches the handler of its route exactly where its Authorization header is "Bearer "
  -- and the token; otherwise it is answered 401 and nothing changes.
  pub serve_http_authorized :
      (s : Server) (req : Request) (fetched : Fetched) (a : Agent S)
      → (req.authorization ≡ codes "Bearer " ++ s.token
          → serve_http env s req fetched a
            ≡ dispatch env (route req.method req.path) s req fetched a)
        × (req.authorization ≢ codes "Bearer " ++ s.token
            → serve_http env s req fetched a ≡ (write_error 401 (codes "invalid_agent_token"), a))
  unfolding serve_http
  serve_http_authorized s req fetched a =
      let exact = text_eq_iff req.authorization (codes "Bearer " ++ s.token) in
      (
        λ e. rw (exact.1 e),
        λ ne. elim (Bool-cases (text_eq req.authorization (codes "Bearer " ++ s.token))) [
          | inl same ↦ absurd (ne (exact.0 same))
          | inr other ↦ rw other
        ],
      )

  -- The routes whose handlers look at the draining flag.
  abbrev pub Minds : Route → Type 0
  Minds create_vm = Unit
  Minds health = Unit
  Minds _ = ⊥

  -- A draining server answers every POST /vms with 503 and changes nothing, and serves every route
  -- other than that and GET /health as one that does not drain.
  pub dispatch-draining :
      (s : Server) (req : Request) (fetched : Fetched) (a : Agent S)
      → (dispatch env create_vm (set_draining true s) req fetched a
          ≡ (write_error 503 (codes "host_draining"), a))
        × ((r : Route)
            → ¬ Minds r
            → dispatch env r (set_draining true s) req fetched a ≡ dispatch env r s req fetched a)
  unfolding dispatch handle_create_vm accept_create set_draining
  dispatch-draining s req fetched a = (refl, unaffected)
    where
      unaffected :
          (r : Route)
          → ¬ Minds r
          → dispatch env r (set_draining true s) req fetched a ≡ dispatch env r s req fetched a
      unaffected create_vm h = absurd (h tt)
      unaffected health h = absurd (h tt)
      unaffected _ h = refl
