-- ===== src/Firecracker/Adds.antt =====
-- internal/vmmanager/firecracker.go: the production backend as one that only adds to the run.
use devplat_agent.World.{Responder}
use devplat_agent.Config.{Config}
use devplat_agent.Manager.Growth.{OnlyAdds}
use devplat_agent.Firecracker.{firecracker_backend}
use devplat_agent.Firecracker.Growth.{boot-Later, stop-Later}

pub firecracker_backend-OnlyAdds :
    (r : Responder) (cfg : Config) → OnlyAdds (firecracker_backend r cfg)
firecracker_backend-OnlyAdds r cfg = record { boot = boot-Later r cfg; stop = stop-Later r cfg }
