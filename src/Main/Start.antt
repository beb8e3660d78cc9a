-- ===== src/Main/Start.antt =====
-- cmd/agent/main.go: the process that main starts, and the states it can reach.
use devplat_agent.Base.{
  ◌≡◌, refl, sym, ap, ◌∙◌, Bool, [], Option, arith, inl, inr, ◌⊎◌, if◌then◌else◌, Bool-cases,
}
use devplat_agent.Base.Text.{Bytes, codes}
use devplat_agent.Base.Assoc.{bytes_key, int_key}
use devplat_agent.World.{World, Result, done, failed}
use devplat_agent.Network.Address.{Ipv4}
use devplat_agent.Config.{Config}
use devplat_agent.Config.Load.{Environment, Checked, ok, bad, load}
use devplat_agent.Config.Load.Sound.{load-Loaded}
use devplat_agent.Regmetrics.{Fetched}
use devplat_agent.Manager.State.{Agent, Setting}
use devplat_agent.Manager.Reconcile.{Listing, start}
use devplat_agent.Api.Server.{Request, write_error, new_server, set_draining}
use devplat_agent.Api.Router.{serve_http}
use devplat_agent.Api.Access.{serve_http_authorized}
use devplat_agent.Main.{
  Host, Process, Started, bad_config, no_manager, no_ticker, lacks_ticker, up, fresh_process,
  setting, start_process, Move, Leads, request, goes_on, reaps, beats, signal, mark, refuse,
  shut_down, begin, then', handle, run_section, reap_tick, beat,
}
use devplat_agent.Main.Shutdown.{NoneDraining, IsOrdered, reach-IsOrdered}

module _ {S : Type 0} (host : Host S) (env : Environment)
    (colon_notation : Bytes → Option Ipv4) where
  -- What main has established of the process it starts.
  record IsStarted (state_dir : Listing) (s : S) (w : World) (sett : Setting S) (p : Process S)
      : Type 0 where
    config : Config
    agent : Agent S
    loaded : load env colon_notation ≡ ok config
    started : start (setting host config) state_dir s w ≡ done agent
    over : sett ≡ setting host config
    process : p ≡ fresh_process config agent

  after_start : Config → Result (Agent S) → Started S
  after_start cfg r = elim r [
    | failed err ↦ no_manager err
    | done a ↦ if lacks_ticker cfg then no_ticker else up (setting host cfg) (fresh_process cfg a)
  ]

  after_load : Listing → S → World → Checked Config → Started S
  after_load state_dir s w c = elim c [
    | bad p ↦ bad_config p
    | ok cfg ↦ after_start cfg (start (setting host cfg) state_dir s w)
  ]

  up_injective :
      {sett sett' : Setting S} {p p' : Process S}
      → Started.up sett p ≡ up sett' p'
      → (sett ≡ sett') × (p ≡ p')
  up_injective h = (cc, cc)

  after_start-IsStarted :
      (state_dir : Listing) (s : S) (w : World) (sett : Setting S) (p : Process S) (cfg : Config)
      → load env colon_notation ≡ ok cfg
      → (r : Result (Agent S)) → start (setting host cfg) state_dir s w ≡ r
      → after_start cfg r ≡ up sett p
      → IsStarted state_dir s w sett p
  unfolding after_start
  after_start-IsStarted state_dir s w sett p cfg e (failed err) e' h = absurd (cc)
  after_start-IsStarted state_dir s w sett p cfg e (done a) e' h =
      elim (Bool-cases (lacks_ticker cfg)) [
        | inl bad_interval ↦ absurd (ground arith)
        | inr good ↦
            let same : Started.up (setting host cfg) (fresh_process cfg a) ≡ up sett p =
              ground arith in
            record {
              config = cfg;
              agent = a;
              loaded = e;
              started = e';
              over = sym (up_injective same).0;
              process = sym (up_injective same).1;
            }
      ]

  after_load-IsStarted :
      (state_dir : Listing) (s : S) (w : World) (sett : Setting S) (p : Process S)
      (c : Checked Config)
      → load env colon_notation ≡ c
      → after_load state_dir s w c ≡ up sett p
      → IsStarted state_dir s w sett p
  unfolding after_load
  after_load-IsStarted state_dir s w sett p (bad problem) e h = absurd (cc)
  after_load-IsStarted state_dir s w sett p (ok cfg) e h =
      after_start-IsStarted state_dir s w sett p cfg e _ refl h

  start_process-IsStarted :
      (state_dir : Listing) (s : S) (w : World) (sett : Setting S) (p : Process S)
      → start_process host env colon_notation state_dir s w ≡ up sett p
      → IsStarted state_dir s w sett p
  unfolding start_process after_load after_start
  start_process-IsStarted state_dir s w sett p h =
      after_load-IsStarted state_dir s w sett p (load env colon_notation) refl h

  beat_token :
      (sett : Setting S) (fetched : Fetched) (built : Bool) (p : Process S)
      → (beat sett fetched built p).server.token ≡ p.server.token
  unfolding beat
  beat_token sett fetched built p = ground arith

  move_token :
      (sett : Setting S) (p q : Process S) → Move sett p q → q.server.token ≡ p.server.token
  unfolding handle run_section reap_tick set_draining
  move_token sett p q (request req fetched open') = refl
  move_token sett p q (goes_on before j behind e) = refl
  move_token sett p q reaps = refl
  move_token sett p q (beats fetched built) = beat_token sett fetched built p
  move_token sett p q signal = refl
  move_token sett p q (mark h) = refl
  move_token sett p q (refuse h) = refl
  move_token sett p q (shut_down h) = refl

  reach_token :
      (sett : Setting S) (p q : Process S) → Leads sett p q → q.server.token ≡ p.server.token
  reach_token sett p q begin = refl
  reach_token sett p q (then' {q = m} reach step) =
      move_token sett m q step ∙ reach_token sett p m reach

  -- In every state that a process started by main can reach, a request with no Authorization
  -- header, or with a bearer token that is empty, is answered 401 and changes nothing.
  pub started_refuses_tokenless :
      (state_dir : Listing) (s : S) (w : World) (sett : Setting S) (p q : Process S) (req : Request)
      (fetched : Fetched)
      → start_process host env colon_notation state_dir s w ≡ up sett p
      → Leads sett p q
      → (req.authorization ≡ []) ⊎ (req.authorization ≡ codes "Bearer ")
      → serve_http sett q.server req fetched q.agent
        ≡ (write_error 401 (codes "invalid_agent_token"), q.agent)
  unfolding new_server
  started_refuses_tokenless state_dir s w sett p q req fetched h reach empty =
      let st = start_process-IsStarted state_dir s w sett p h in
      let token : q.server.token ≡ st.config.agent_token =
        reach_token sett p q reach ∙ ap (λ (x : Process S). x.server.token) st.process in
      let present = (load-Loaded env colon_notation st.config st.loaded).agent_token in
      (serve_http_authorized sett q.server req fetched q.agent).1
        (λ e. elim empty [ inl none' ↦ absurd (ground arith) | inr bare ↦ absurd (ground arith) ])

  -- No heartbeat that a process started by main gives to the network says that the host drains: the
  -- flag is set only behind the end of the context that the requests are bound to.
  pub started_never_reports_draining :
      (state_dir : Listing) (s : S) (w : World) (sett : Setting S) (p q : Process S)
      → start_process host env colon_notation state_dir s w ≡ up sett p
      → Leads sett p q
      → NoneDraining q.sent
  unfolding new_server
  started_never_reports_draining state_dir s w sett p q h reach =
      let st = start_process-IsStarted state_dir s w sett p h in
      let ordered : IsOrdered sett p = rw st.process (record {
        marked = λ e. absurd (ground arith);
        refused = λ e. absurd (ground arith);
        closed = λ e. absurd (ground arith);
        quiet = tt;
      }) in
      (reach-IsOrdered sett p q reach ordered).quiet
