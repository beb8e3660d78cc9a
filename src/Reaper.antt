-- ===== src/Reaper.antt =====
-- internal/reaper/reaper.go: a round of the manager's reaper at every tick.
use devplat_agent.Base.{List, [], ◌∷◌}
use devplat_agent.Base.Text.{Bytes}
use devplat_agent.Base.Assoc.{bytes_key}
use devplat_agent.World.{read_clock}
use devplat_agent.Manager.State.{Agent, Setting}
use devplat_agent.Manager.Lifecycle.{destroy}
use devplat_agent.Manager.Slots.{IsConsistent, destroy-IsConsistent}
use devplat_agent.Manager.Reap.{destroy_all, reap_expired}

-- What the loop wakes up for: the end of its context, or a tick, at the agent that the requests since
-- the last one have left of the agent that is given.
pub data Wake (S : Type 0) : Type 0 where
  cancelled : Wake S
  tick : (Agent S → Agent S) → Wake S

module _ {S : Type 0} (env : Setting S) where
  -- Start, on the wakes that come; the agent at its end.
  unfoldable pub run_reaper : List (Wake S) → Agent S → Agent S
  run_reaper [] a = a
  run_reaper (cancelled ∷ wakes) a = a
  run_reaper (tick others ∷ wakes) a = run_reaper wakes (reap_expired env (others a)).1

  -- Requests that keep the manager consistent.
  abbrev pub Keeps : List (Wake S) → Type 0
  Keeps [] = Unit
  Keeps (cancelled ∷ wakes) = Keeps wakes
  Keeps (tick others ∷ wakes) =
      ((a : Agent S) → IsConsistent a.manager → IsConsistent (others a).manager) × Keeps wakes

  destroy_all-IsConsistent :
      (ids : List Bytes) (a : Agent S)
      → IsConsistent a.manager
      → IsConsistent (destroy_all env ids a).1.manager
  unfolding destroy_all
  destroy_all-IsConsistent [] a c = c
  destroy_all-IsConsistent (id ∷ ids) a c =
      destroy_all-IsConsistent ids (destroy env id a).1 (destroy-IsConsistent env id a c)

  pub reap_expired-IsConsistent :
      (a : Agent S) → IsConsistent a.manager → IsConsistent (reap_expired env a).1.manager
  unfolding reap_expired read_clock
  reap_expired-IsConsistent a c = destroy_all-IsConsistent _ _ c

  -- The reaper keeps the manager consistent over any number of ticks, if the requests between the
  -- ticks do.
  pub run_reaper-IsConsistent :
      (wakes : List (Wake S)) (a : Agent S)
      → Keeps wakes
      → IsConsistent a.manager
      → IsConsistent (run_reaper wakes a).manager
  unfolding run_reaper
  run_reaper-IsConsistent [] a k c = c
  run_reaper-IsConsistent (cancelled ∷ wakes) a k c = c
  run_reaper-IsConsistent (tick others ∷ wakes) a k c =
      run_reaper-IsConsistent wakes _ k.1 (reap_expired-IsConsistent (others a) (k.0 a c))
