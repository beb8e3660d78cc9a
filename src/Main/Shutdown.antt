-- ===== src/Main/Shutdown.antt =====
-- cmd/agent/main.go: the order of the shutdown, and what the scheduler and the VMs see of it.
use devplat_agent.Base.{
  ℕ, ◌≡◌, refl, sym, ap, ◌∙◌, ◌⊎◌, Bool, true, false, List, [], ◌∷◌, Option, some, arith, inl, inr,
  Bool-cases,
}
use devplat_agent.Base.Text.{Bytes}
use devplat_agent.Base.Assoc.{lookup, bytes_key}
use devplat_agent.Json.{Json}
use devplat_agent.Regmetrics.{Fetched, scrape}
use devplat_agent.Manager.State.{Vm, Manager, Setting}
use devplat_agent.Manager.Queries.{HealthStatus, health}
use devplat_agent.Manager.Reap.{expired_ids}
use devplat_agent.Heartbeat.{payload}
use devplat_agent.Api.Server.{set_draining}
use devplat_agent.Main.{
  Process, Move, Leads, request, goes_on, reaps, beats, signal, mark, refuse, shut_down, begin,
  then', handle, run_section, reap_tick, beat,
}
use devplat_agent.Main.Sections.{advance, arrive}
use devplat_agent.Main.Flight.{
  InFlight, InFlight-resume, InFlight-section, InFlight-here, InFlight-reap_job, advance-GoesOn,
  advance-listed,
}
use devplat_agent.Main.Flight.Arrive.{arrive_manager, arrive-GoesOn}

-- Payloads that all say that the host does not drain.
abbrev pub NoneDraining : List Json → Type 0
NoneDraining [] = Unit
NoneDraining (j ∷ sent) =
    ((h : HealthStatus) × (counters : Option (ℕ × ℕ)) × (j ≡ payload h false counters))
    × NoneDraining sent

module _ {S : Type 0} (env : Setting S) where
  -- The order of main's own steps, as the flags have it.
  pub record IsOrdered (p : Process S) : Type 0 where
    pub marked : p.draining ≡ true → p.cancelled ≡ true
    pub refused : p.server.draining ≡ true → p.draining ≡ true
    pub closed : p.listening ≡ false → p.server.draining ≡ true
    pub quiet : NoneDraining p.sent

  beat-IsOrdered :
      (fetched : Fetched) (built : Bool) (p : Process S)
      → IsOrdered p
      → IsOrdered (beat env fetched built p)
  unfolding beat
  beat-IsOrdered fetched false p o = o
  beat-IsOrdered fetched true p o = elim (Bool-cases p.cancelled) [
    | inl over ↦
        rw over
          (record { marked = λ h. refl; refused = o.refused; closed = o.closed; quiet = o.quiet })
    | inr live ↦
        let idle : p.draining ≡ false = ground (arith, o.marked) in
        rw (live, idle)
          (record {
            marked = λ h. absurd (ground arith);
            refused = λ h. absurd (ground (arith, o.refused h));
            closed = o.closed;
            quiet = (
              (health env p.agent.manager, scrape p.server.registry_metrics_url fetched, refl),
              o.quiet,
            );
          })
  ]

  move-IsOrdered : (p q : Process S) → Move env p q → IsOrdered p → IsOrdered q
  unfolding handle run_section reap_tick set_draining
  move-IsOrdered p q (request req fetched open') o = record {
    marked = o.marked;
    refused = o.refused;
    closed = o.closed;
    quiet = o.quiet;
  }
  move-IsOrdered p q (goes_on before j behind e) o = record {
    marked = o.marked;
    refused = o.refused;
    closed = o.closed;
    quiet = o.quiet;
  }
  move-IsOrdered p q reaps o = record {
    marked = o.marked;
    refused = o.refused;
    closed = o.closed;
    quiet = o.quiet;
  }
  move-IsOrdered p q (beats fetched built) o = beat-IsOrdered fetched built p o
  move-IsOrdered p q signal o = record {
    marked = λ h. refl;
    refused = o.refused;
    closed = o.closed;
    quiet = o.quiet;
  }
  move-IsOrdered p q (mark h) o = record {
    marked = λ _. h;
    refused = λ _. refl;
    closed = o.closed;
    quiet = o.quiet;
  }
  move-IsOrdered p q (refuse h) o = record {
    marked = o.marked;
    refused = λ _. h;
    closed = λ _. refl;
    quiet = o.quiet;
  }
  move-IsOrdered p q (shut_down h) o = record {
    marked = o.marked;
    refused = o.refused;
    closed = λ _. h;
    quiet = o.quiet;
  }

  -- Every step keeps the order.
  pub reach-IsOrdered : (p q : Process S) → Leads env p q → IsOrdered p → IsOrdered q
  reach-IsOrdered p q begin o = o
  reach-IsOrdered p q (then' {q = m} reach step) o =
      move-IsOrdered m q step (reach-IsOrdered p m reach o)

  -- Every VM of the second process was listed or was being made by a Create in flight in the first, and
  -- so was every VM that a Create in flight in the second makes.
  pub record Listed (q p : Process S) : Type 0 where
    pub listed :
        (id : Bytes) (vm : Vm)
        → lookup id q.agent.manager.vms ≡ some vm
        → (lookup id p.agent.manager.vms ≡ some vm) ⊎ InFlight vm p.jobs
    pub made : (vm : Vm) → InFlight vm q.jobs → InFlight vm p.jobs

  beat_jobs :
      (fetched : Fetched) (built : Bool) (p : Process S) → (beat env fetched built p).jobs ≡ p.jobs
  unfolding beat
  beat_jobs fetched built p = ground arith

  beat_manager :
      (fetched : Fetched) (built : Bool) (p : Process S)
      → (beat env fetched built p).agent.manager ≡ p.agent.manager
  unfolding beat
  beat_manager fetched built p = ground arith

  beat-server :
      (fetched : Fetched) (built : Bool) (p : Process S)
      → (beat env fetched built p).server ≡ p.server
  unfolding beat
  beat-server fetched built p = ground arith

  move-Listed : (p q : Process S) → Move env p q → p.server.draining ≡ true → Listed q p
  unfolding handle run_section reap_tick devplat_agent.World.read_clock
  move-Listed p q (request req fetched open') drains = record {
    listed = λ id vm l. inl (
        ap (λ (m : Manager). lookup id m.vms)
          (sym (arrive_manager env p.server req fetched p.agent))
        ∙ l);
    made = λ vm f. elim (InFlight-resume vm (arrive env p.server req fetched p.agent).0 p.jobs f) [
      | inl g ↦ absurd (arrive-GoesOn env vm p.server req fetched p.agent drains g)
      | inr g ↦ g
    ];
  }
  move-Listed p q (goes_on before j behind e) drains = record {
    listed = λ id vm l. elim (advance-listed env id vm j p.agent l) [
      | inl was ↦ inl was
      | inr makes ↦ inr (rw e (InFlight-here vm before j behind makes))
    ];
    made = λ vm f. rw e (
        InFlight-section vm before j (advance env j p.agent).0 behind
          (advance-GoesOn env vm j p.agent) f);
  }
  move-Listed p q reaps drains = record {
    listed = λ id vm l. inl l;
    made = λ vm.
        InFlight-reap_job vm (expired_ids (env.responder.clock p.agent.world) p.agent.manager.vms)
          p.jobs;
  }
  move-Listed p q (beats fetched built) drains = record {
    listed = λ id vm l. inl (rw (← beat_manager fetched built p) l);
    made = λ vm f. rw (← beat_jobs fetched built p) f;
  }
  move-Listed p q signal drains = record { listed = λ id vm l. inl l; made = λ vm f. f }
  move-Listed p q (mark h) drains = record { listed = λ id vm l. inl l; made = λ vm f. f }
  move-Listed p q (refuse h) drains = record { listed = λ id vm l. inl l; made = λ vm f. f }
  move-Listed p q (shut_down h) drains = record { listed = λ id vm l. inl l; made = λ vm f. f }

  move_drains :
      (p q : Process S) → Move env p q → p.server.draining ≡ true → q.server.draining ≡ true
  unfolding handle run_section reap_tick set_draining
  move_drains p q (request req fetched open') drains = drains
  move_drains p q (goes_on before j behind e) drains = drains
  move_drains p q reaps drains = drains
  move_drains p q (beats fetched built) drains = rw (beat-server fetched built p) drains
  move_drains p q signal drains = drains
  move_drains p q (mark h) drains = drains
  move_drains p q (refuse h) drains = refl
  move_drains p q (shut_down h) drains = drains

  -- Once the server drains it goes on draining, however requests, reaper rounds and the shutdown
  -- overlap; every VM listed later either was listed then, or was being made by a Create in flight
  -- then, with the same team and sizes; and no Create is in flight later that makes another VM.
  pub draining_only_finishes :
      (p q : Process S)
      → Leads env p q
      → p.server.draining ≡ true
      → (q.server.draining ≡ true) × Listed q p
  draining_only_finishes p q begin drains =
      (drains, record { listed = λ id vm l. inl l; made = λ vm f. f })
  draining_only_finishes p q (then' {q = m} reach step) drains =
      let (still, before) = draining_only_finishes p m reach drains in
      let last = move-Listed m q step still in
      (
        move_drains m q step still,
        record {
          listed = λ id vm l. elim (last.listed id vm l) [
            | inl was ↦ before.listed id vm was
            | inr f ↦ inr (before.made vm f)
          ];
          made = λ vm f. before.made vm (last.made vm f);
        },
      )
