-- ===== src/Samples/RunExamples.antt =====
-- Runs of the sample host.
use devplat_agent.Base.{List, ◌≡◌, refl, [], ◌∷◌, arith}
use devplat_agent.Base.Text.{codes, itoa, text_eq_iff}
use devplat_agent.Base.Assoc.{lookup, bytes_key}
use devplat_agent.World.Growth.{same}
use devplat_agent.Manager.Admission.{vm_id}
use devplat_agent.Manager.Growth.{OnlyAdds}
use devplat_agent.Manager.Runs.{
  Advances, IsSound, Op, create_vm, destroy_vm, reap, run_ops, AllModest, run_ops-IsSound,
}
use devplat_agent.Base.Int.{pos, ◌≤ℤ◌}
use devplat_agent.Manager.Queries.{health}
use devplat_agent.Manager.Runs.Reported.{health_within}
use devplat_agent.Manager.Runs.Refines.{view, Accepts, run_ops_refines}
use devplat_agent.Samples.{
  host, willing, backend, busy, busy_agent, small, busy-IsConsistent, busy-IsWithin,
  host-IsOrdinary, small-IsModest,
}

abbrev ops : List Op
ops = create_vm small ∷ destroy_vm (codes "vm_1") ∷ reap ∷ []

pub willing-Advances : Advances willing
willing-Advances = record { forward = λ w e. omega arith; strict = λ w. omega arith }

pub backend-OnlyAdds : OnlyAdds backend
backend-OnlyAdds = record { boot = λ vm nc path s w. same; stop = λ vm s w. same }

pub vm_1-vm_id : codes "vm_1" ≡ vm_id 1
unfolding vm_id itoa
vm_1-vm_id = refl

pub busy_agent-IsSound : IsSound host busy_agent
unfolding lookup
busy_agent-IsSound = record {
  consistent = busy-IsConsistent;
  within = busy-IsWithin;
  fresh = λ id vm h. (1, ground (arith, text_eq_iff (codes "vm_1") id, vm_1-vm_id), omega arith);
}

ops-AllModest : AllModest host ops
ops-AllModest = (small-IsModest, tt)

run_ops-IsSound_example : IsSound host (run_ops host ops busy_agent).1
run_ops-IsSound_example =
    run_ops-IsSound host ops busy_agent host-IsOrdinary willing-Advances backend-OnlyAdds
      ops-AllModest busy_agent-IsSound

run_ops_refines_example :
    Accepts ops
      (run_ops host ops busy_agent).0
      (view busy)
      (view (run_ops host ops busy_agent).1.manager)
run_ops_refines_example =
    run_ops_refines host ops busy_agent host-IsOrdinary willing-Advances backend-OnlyAdds
      ops-AllModest busy_agent-IsSound

health_within_example :
    let h = health host (run_ops host ops busy_agent).1.manager in
    (h.cpu_used ≤ℤ h.cpu_total)
    × (h.ram_used_mb ≤ℤ h.ram_total_mb)
    × (pos h.active_vm_count ≤ℤ h.cpu_total)
health_within_example =
    health_within host ops busy_agent host-IsOrdinary willing-Advances backend-OnlyAdds
      ops-AllModest busy_agent-IsSound
