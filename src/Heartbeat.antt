-- ===== src/Heartbeat.antt =====
-- internal/heartbeat/heartbeat.go: the status of the host, posted to the scheduler at once and at every
-- tick.
use devplat_agent.Base.{
  ℕ, ◌≡◌, refl, ap, ◌∙◌, Bool, List, [], ◌∷◌, ◌++◌, map, Option, none, some, arith, if◌then◌else◌,
  length,
}
use devplat_agent.Base.Int.{pos}
use devplat_agent.Base.Text.{Bytes, codes}
use devplat_agent.Json.{Json, bool, num, obj, object}
use devplat_agent.World.{World, Event, Call, attempt, post}
use devplat_agent.Regmetrics.{Fetched, scrape}
use devplat_agent.Manager.State.{Manager, Setting}
use devplat_agent.Manager.Admission.{used_cpu, used_ram_mb}
use devplat_agent.Manager.Queries.{HealthStatus, health}

-- What a beat reads: the manager, the draining flag, what the registry answers, and whether the request
-- could be built from the scheduler's URL.
pub record Reading : Type 0 where
  pub manager : Manager
  pub draining : Bool
  pub fetched : Fetched
  pub built : Bool

-- The fields of the counters, left out where they are nil.
unfoldable pub counters : Option (ℕ × ℕ) → List (Bytes × Json)
counters none = []
counters (some (total, hits)) =
    (codes "cacheLookups", num (pos total)) ∷ (codes "cacheHits", num (pos hits)) ∷ []

-- The payload, as json.Marshal writes it.
unfoldable pub payload : HealthStatus → Bool → Option (ℕ × ℕ) → Json
unfolding counters
payload h draining cache = obj (
    object (
      (codes "cpuUsed", num h.cpu_used)
      ∷ (codes "ramUsedMb", num h.ram_used_mb)
      ∷ (codes "activeVmCount", num (pos h.active_vm_count))
      ∷ (codes "draining", bool draining)
      ∷ counters cache))

-- The tick of the loop, or the end of its context.
pub data Beat : Type 0 where
  cancelled : Beat
  tick : Reading → Beat

module _ {S : Type 0} (env : Setting S) (registry_metrics_url : Bytes) where
  -- The call of one beat.
  unfoldable pub beat_call : Reading → Call
  beat_call g =
      post (env.config.scheduler_url ++ codes "/internal/hosts/heartbeat")
        (codes "Bearer " ++ env.config.agent_token)
        (payload (health env g.manager) g.draining (scrape registry_metrics_url g.fetched))

  -- send: a failure is logged only
  unfoldable pub send : Reading → World → World
  send g w = if g.built then (attempt env.responder (beat_call g) w).1 else w

  unfoldable pub beats : List Beat → World → World
  beats [] w = w
  beats (cancelled ∷ rest) w = w
  beats (tick g ∷ rest) w = beats rest (send g w)

  -- Start
  unfoldable pub run_heartbeat : Reading → List Beat → World → World
  run_heartbeat first rest w = beats rest (send first w)

  abbrev pub calls : World → List Call
  calls = map (λ (e : Event). e.call)

  -- What the scheduler is told by the API: the URL, the bearer token and the fields of the status.
  abbrev pub status_call : Reading → Call
  status_call g =
      post (env.config.scheduler_url ++ codes "/internal/hosts/heartbeat")
        (codes "Bearer " ++ env.config.agent_token)
        (obj (
          object (
            (codes "cpuUsed", num (used_cpu g.manager))
            ∷ (codes "ramUsedMb", num (used_ram_mb g.manager))
            ∷ (codes "activeVmCount", num (pos (length g.manager.vms)))
            ∷ (codes "draining", bool g.draining)
            ∷ (elim (scrape registry_metrics_url g.fetched) [
              | none ↦ []
              | some (total, hits) ↦
                  (codes "cacheLookups", num (pos total)) ∷ (codes "cacheHits", num (pos hits)) ∷ []
            ]))))

  -- The calls of beats up to the first end of the context, on top of older ones.
  abbrev pub posted : List Beat → List Call → List Call
  posted [] older = older
  posted (cancelled ∷ rest) older = older
  posted (tick g ∷ rest) older = posted rest (if g.built then status_call g ∷ older else older)

  counters_lem :
      (c : Option (ℕ × ℕ))
      → counters c ≡ (elim c [
        | none ↦ []
        | some (total, hits) ↦
            (codes "cacheLookups", num (pos total)) ∷ (codes "cacheHits", num (pos hits)) ∷ []
      ])
  unfolding counters
  counters_lem none = refl
  counters_lem (some (total, hits)) = refl

  beat_call-status_call : (g : Reading) → beat_call g ≡ status_call g
  unfolding beat_call payload health
  beat_call-status_call g = rw (counters_lem (scrape registry_metrics_url g.fetched)) refl

  send-calls :
      (g : Reading) (w : World)
      → calls (send g w) ≡ (if g.built then status_call g ∷ calls w else calls w)
  unfolding send attempt
  send-calls g w = ground (arith, beat_call-status_call g)

  beats-posted : (rest : List Beat) (w : World) → calls (beats rest w) ≡ posted rest (calls w)
  unfolding beats
  beats-posted [] w = refl
  beats-posted (cancelled ∷ rest) w = refl
  beats-posted (tick g ∷ rest) w = beats-posted rest (send g w) ∙ ap (posted rest) (send-calls g w)

  -- Whatever posts fail, the heartbeat posts to /internal/hosts/heartbeat of the scheduler, with
  -- the agent's token as bearer, the used CPUs and memory, the number of VMs, the draining flag and
  -- the counters of the registry where there are some, once at its start and once at each tick
  -- until it is cancelled, where the request can be built.
  pub run_heartbeat-posted :
      (first : Reading) (rest : List Beat) (w : World)
      → calls (run_heartbeat first rest w) ≡ posted (tick first ∷ rest) (calls w)
  unfolding run_heartbeat beats
  run_heartbeat-posted first rest w = beats-posted (tick first ∷ rest) w
