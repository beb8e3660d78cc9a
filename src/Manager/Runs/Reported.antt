-- ===== src/Manager/Runs/Reported.antt =====
-- internal/vmmanager/manager.go, Health: what the status of the host can say after a run.
use devplat_agent.Base.{◌≤◌, [], ◌∷◌, List, arith, length}
use devplat_agent.Base.Int.{pos, ◌≤ℤ◌}
use devplat_agent.Base.Text.{Bytes}
use devplat_agent.Base.Assoc.{Assoc}
use devplat_agent.Manager.State.{Vm, Agent, Setting}
use devplat_agent.Manager.Queries.{health}
use devplat_agent.Manager.Totals.{AllSized, total, vcpu_of}
use devplat_agent.Manager.Growth.{OnlyAdds}
use devplat_agent.Manager.Budget.{
  IsOrdinary, used_cpu-total, used_ram_mb-total, capacity_ram_mb-nonneg,
}
use devplat_agent.Manager.Runs.{Advances, IsSound, Op, run_ops, AllModest, run_ops-IsSound}

length-total : (vms : Assoc Bytes Vm) → AllSized vms → length vms ≤ total vcpu_of vms
length-total [] h = omega arith
length-total ((id, vm) ∷ vms) h = omega (arith, h.0.0, length-total vms h.1)

module _ {S : Type 0} (env : Setting S) where
  -- Under the conditions of a run (a host of less than 2 ^ 62 units, a clock that never runs
  -- backwards and of which two reads differ, a backend that only adds to the run, requests of less
  -- than 2 ^ 62 units, and a manager that is consistent, within the budget and with ids of past
  -- times), the health status after every sequence of Create, Destroy and ReapExpired has no more
  -- CPUs and memory in use than there are, and no more VMs than CPUs.
  pub health_within :
      (ops : List Op) (a : Agent S)
      → IsOrdinary env
      → Advances env.responder
      → OnlyAdds env.backend
      → AllModest env ops
      → IsSound env a
      → let h = health env (run_ops env ops a).1.manager in
        (h.cpu_used ≤ℤ h.cpu_total)
        × (h.ram_used_mb ≤ℤ h.ram_total_mb)
        × (pos h.active_vm_count ≤ℤ h.cpu_total)
  unfolding health
  health_within ops a o t adds q s =
      let m = (run_ops env ops a).1.manager in
      let v = (run_ops-IsSound env ops a o t adds q s).within in
      (
        rw (used_cpu-total env m o v) (omega (arith, v.cpu, o.cpu_pos)),
        rw (used_ram_mb-total env m o v) (omega (arith, v.ram, capacity_ram_mb-nonneg env)),
        omega (arith, v.cpu, o.cpu_pos, length-total m.vms v.sized),
      )
