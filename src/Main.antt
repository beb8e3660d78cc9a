-- ===== src/Main.antt =====
-- cmd/agent/main.go: the agent process, from its start to the end of its HTTP server.
pub mod Sections
pub mod Flight
pub mod Shutdown
pub mod Start
use devplat_agent.Base.{◌≡◌, Bool, ◌||◌, true, false, List, [], ◌∷◌, ◌++◌, Option, if◌then◌else◌}
use devplat_agent.Base.Int.{ℤ, pos, leb_ℤ}
use devplat_agent.Base.Words.{mul64}
use devplat_agent.Base.Text.{Bytes}
use devplat_agent.Json.{Json}
use devplat_agent.World.{World, Responder, Err, done, failed, attempt, read_clock}
use devplat_agent.Network.Address.{Ipv4}
use devplat_agent.Config.{Config}
use devplat_agent.Config.Load.{Environment, Problem, ok, bad, load}
use devplat_agent.Regmetrics.{Fetched, scrape}
use devplat_agent.Manager.State.{Agent, Setting, Backend, TimeFormat}
use devplat_agent.Manager.Queries.{health}
use devplat_agent.Manager.Reap.{expired_ids}
use devplat_agent.Manager.Reconcile.{Listing, start}
use devplat_agent.Api.Server.{Request, Server, new_server, set_draining}
use Sections.{Job, destroying, Next, over, again, advance, arrive}
use devplat_agent.Heartbeat.{Reading, beat_call, payload}

-- The process: the agent and the HTTP server, the flag that the heartbeat reads, whether the context
-- of the loops is cancelled, whether the server accepts requests, and the payloads of the heartbeats
-- that were given to the network, newest first, and what the goroutines of the requests and of the reaper
-- have left to do.
pub record Process (S : Type 0) : Type 0 where
  pub agent : Agent S
  pub server : Server
  pub draining : Bool
  pub cancelled : Bool
  pub listening : Bool
  pub sent : List Json
  pub jobs : List Job

-- What main gives before it waits for a signal: log.Fatalf, the panic of time.NewTicker in one of the
-- loops, or a process over its setting.
pub data Started (S : Type 0) : Type 0 where
  bad_config : Problem → Started S
  no_manager : Err → Started S
  no_ticker : Started S
  up : Setting S → Process S → Started S

abbrev pub fresh_process : {S : Type 0} → Config → Agent S → Process S
fresh_process cfg a = record {
  agent = a;
  server = new_server cfg.agent_token cfg.registry_metrics_url;
  draining = false;
  cancelled = false;
  listening = true;
  sent = [];
  jobs = [];
}

-- The host that main runs on: what was detected of it, the backend for a configuration, and the
-- outside.
pub record Host (S : Type 0) : Type 0 where
  pub cpu_total : ℤ
  pub ram_total_mb : ℤ
  pub time_format : TimeFormat
  pub backend : Config → Backend S
  pub responder : Responder

unfoldable pub setting : {S : Type 0} → Host S → Config → Setting S
setting host cfg = record {
  config = cfg;
  cpu_total = host.cpu_total;
  ram_total_mb = host.ram_total_mb;
  time_format = host.time_format;
  backend = host.backend cfg;
  responder = host.responder;
}

-- Whether the interval of a loop is none that time.NewTicker takes.
unfoldable pub lacks_ticker : Config → Bool
lacks_ticker cfg =
    leb_ℤ cfg.heartbeat_interval (pos 0)
    || leb_ℤ (mul64 cfg.reaper_interval_seconds (pos 1_000_000_000)) (pos 0)

-- main up to the wait for the signal.
unfoldable pub start_process :
    {S : Type 0} → Host S → Environment → (Bytes → Option Ipv4) → Listing → S → World → Started S
unfolding setting
start_process host env colon_notation listing s w = elim (load env colon_notation) [
  | bad p ↦ bad_config p
  | ok cfg ↦ elim (start (setting host cfg) listing s w) [
    | failed err ↦ no_manager err
    | done a ↦ if lacks_ticker cfg then no_ticker else up (setting host cfg) (fresh_process cfg a)
  ]
]

-- The jobs behind a section, or behind the arrival of a request.
unfoldable pub resume : Next → List Job → List Job
resume (over reply) jobs = jobs
resume (again j) jobs = j ∷ jobs

-- The jobs with the second loop of ReapExpired, over these ids.
unfoldable pub reap_job : List Bytes → List Job → List Job
reap_job [] jobs = jobs
reap_job (id ∷ ids) jobs = destroying id ids ∷ jobs

module _ {S : Type 0} (env : Setting S) where
  -- A request that comes in, up to its first section; it is answered at once, or its job is left.
  unfoldable pub handle : Request → Fetched → Process S → Process S
  handle req fetched p =
      let (next, a) = arrive env p.server req fetched p.agent in
      record p { agent = a; jobs = resume next p.jobs }

  -- One section of the job between these.
  unfoldable pub run_section : List Job → Job → List Job → Process S → Process S
  run_section before j behind p =
      let (next, a) = advance env j p.agent in
      record p { agent = a; jobs = before ++ resume next behind }

  -- A round of the reaper, up to the first Destroy of what is expired.
  unfoldable pub reap_tick : Process S → Process S
  reap_tick p =
      let (now, w) = read_clock env.responder p.agent.world in
      record p {
        agent = record p.agent { world = w };
        jobs = reap_job (expired_ids now p.agent.manager.vms) p.jobs;
      }

  -- A heartbeat: its request is bound to the context of the loops, so it fails without being sent once
  -- that is cancelled.
  unfoldable pub beat : Fetched → Bool → Process S → Process S
  beat fetched built p =
      let url = p.server.registry_metrics_url in
      let g : Reading = record {
        manager = p.agent.manager;
        draining = p.draining;
        fetched = fetched;
        built = built;
      } in
      let c = beat_call env url g in
      if built
      then (if p.cancelled
          then record p {
            agent = record p.agent { world = record { call = c; ok = false } ∷ p.agent.world };
          }
          else record p {
            agent = record p.agent { world = (attempt env.responder c p.agent.world).1 };
            sent = payload (health env p.agent.manager) p.draining (scrape url fetched) ∷ p.sent;
          })
      else p

  -- The steps of the process. Main takes its own in this order: SIGTERM or SIGINT, then the flag of the
  -- heartbeat, then that of the server, then the shutdown of the server; the loops may tick once more
  -- behind the signal, since a select with two ready cases takes either. A job that is left goes on by a
  -- section at any time, so requests, the reaper and the shutdown overlap; a request that came in before
  -- the server was shut down goes on behind it. Rounds of the reaper may overlap too, which is more than
  -- its one loop does.
  pub data Move (p : Process S) : Process S → Type 0 where
    request :
        (req : Request) (fetched : Fetched) → p.listening ≡ true → Move p (handle req fetched p)
    goes_on :
        (before : List Job) (j : Job) (behind : List Job)
        → p.jobs ≡ before ++ (j ∷ behind)
        → Move p (run_section before j behind p)
    reaps : Move p (reap_tick p)
    beats : (fetched : Fetched) (built : Bool) → Move p (beat fetched built p)
    signal : Move p (record p { cancelled = true })
    mark : p.cancelled ≡ true → Move p (record p { draining = true })
    refuse : p.draining ≡ true → Move p (record p { server = set_draining true p.server })
    shut_down : p.server.draining ≡ true → Move p (record p { listening = false })

  pub data Leads (p : Process S) : Process S → Type 0 where
    begin : Leads p p
    then' : {q r : Process S} → Leads p q → Move q r → Leads p r
