-- ===== src/Manager/Queries.antt =====
-- internal/vmmanager/manager.go: List, Get, GuestAddr and Health.
use devplat_agent.Base.{ℕ, ◌∷◌, ◌++◌, List, map, Option, none, some, length}
use devplat_agent.Base.Int.{ℤ}
use devplat_agent.Base.Text.{Bytes, itoa}
use devplat_agent.Base.Assoc.{lookup, bytes_key}
use devplat_agent.World.{Result, done, failed, not_found}
use devplat_agent.Network.Address.{dotted}
use devplat_agent.Network.Derive.{derive_net_config}
use devplat_agent.Manager.State.{Vm, Manager, Setting}
use devplat_agent.Manager.Admission.{used_cpu, used_ram_mb, capacity_cpu, capacity_ram_mb}

unfoldable pub list_vms : Manager → List Vm
list_vms m = map (λ (e : Bytes × Vm). e.1) m.vms

unfoldable pub get : Bytes → Manager → Option Vm
get id m = lookup id m.vms

pub record HealthStatus : Type 0 where
  pub cpu_total : ℤ
  pub cpu_used : ℤ
  pub ram_total_mb : ℤ
  pub ram_used_mb : ℤ
  pub active_vm_count : ℕ

module _ {S : Type 0} (env : Setting S) where
  -- net.JoinHostPort of an IPv4 address
  unfoldable pub guest_addr : Bytes → ℤ → Manager → Result Bytes
  guest_addr id port m = elim (lookup id m.vms) [
    | none ↦ failed not_found
    | some vm ↦ done (dotted (derive_net_config env.config vm.slot).guest_ip ++ (b':' ∷ itoa port))
  ]

  unfoldable pub health : Manager → HealthStatus
  health m = record {
    cpu_total = capacity_cpu env;
    cpu_used = used_cpu m;
    ram_total_mb = capacity_ram_mb env;
    ram_used_mb = used_ram_mb m;
    active_vm_count = length m.vms;
  }
