-- ===== src/Manager/Admission.antt =====
-- internal/vmmanager/manager.go: the host-wide budget, the search for a slot, and the part of
-- Create that runs under the lock.
use devplat_agent.Base.{ℕ, zero, suc, Bool, ◌||◌, [], ◌∷◌, ◌++◌, Option, none, some, if◌then◌else◌}
use devplat_agent.Base.Int.{ℤ, pos, pos_part, ltb_ℤ, leb_ℤ}
use devplat_agent.Base.Words.{add64, sub64, mul64}
use devplat_agent.Base.Text.{Bytes, codes, itoa}
use devplat_agent.Base.Assoc.{Assoc, lookup, insert, int_key}
use devplat_agent.World.{Io, read_clock, pure, ◌>>=◌, Result, done, failed, no_capacity, bad_size}
use devplat_agent.Config.{Config}
use devplat_agent.Manager.State.{Vm, Manager, Agent, Setting}

-- A sum in int64 over the VMs, in the order in which the map is ranged over.
unfoldable pub sum_from : (Vm → ℤ) → ℤ → Assoc Bytes Vm → ℤ
sum_from size sum [] = sum
sum_from size sum ((id, vm) ∷ vms) = sum_from size (add64 sum (size vm)) vms

unfoldable pub used_cpu : Manager → ℤ
unfolding sum_from
used_cpu m = sum_from (λ vm. vm.vcpu) (pos 0) m.vms

unfoldable pub used_ram_mb : Manager → ℤ
unfolding sum_from
used_ram_mb m = sum_from (λ vm. vm.ram_mb) (pos 0) m.vms

-- Tries `i`, `i + 1`, and so on, `rounds` of them.
unfoldable pub free_slot_from : ℕ → ℕ → Assoc ℤ Bytes → Option ℕ
free_slot_from zero i slots = none
free_slot_from (suc rounds) i slots =
    let rest = free_slot_from rounds (suc i) slots in
    elim (lookup (pos i) slots) [ none ↦ some i | some id ↦ rest ]

-- newVMID
unfoldable pub vm_id : ℕ → Bytes
vm_id nanos = codes "vm_" ++ itoa (pos nanos)

pub record CreateRequest : Type 0 where
  pub team_id : Bytes
  pub ttl_minutes : ℤ
  pub vcpu : ℤ
  pub ram_mb : ℤ

-- time.Duration(ttlMinutes) * time.Minute, where a TTL that is not positive is the default one
unfoldable pub ttl_of : Config → ℤ → ℤ
ttl_of cfg ttl_minutes =
    mul64 (if leb_ℤ ttl_minutes (pos 0) then cfg.default_ttl_minutes else ttl_minutes)
      (pos 60_000_000_000)

module _ {S : Type 0} (env : Setting S) where
  unfoldable pub capacity_cpu : ℤ
  capacity_cpu = env.cpu_total

  unfoldable pub capacity_ram_mb : ℤ
  capacity_ram_mb =
      let ram = sub64 env.ram_total_mb env.config.host_reserved_ram_mb in
      if ltb_ℤ ram (pos 0) then pos 0 else ram

  unfoldable pub free_slot : Manager → Option ℕ
  free_slot m = free_slot_from (pos_part capacity_cpu) 0 m.slots

  -- Whether the request and all that runs exceed the budget.
  unfoldable pub over_budget : Manager → CreateRequest → Bool
  over_budget m req =
      ltb_ℤ capacity_cpu (add64 (used_cpu m) req.vcpu)
      || ltb_ℤ capacity_ram_mb (add64 (used_ram_mb m) req.ram_mb)

  unfoldable pub new_vm : CreateRequest → ℕ → Io Vm
  new_vm req slot = do
    id_time ← read_clock env.responder
    created ← read_clock env.responder
    pure (record {
      id = vm_id id_time;
      team_id = req.team_id;
      slot = pos slot;
      vcpu = req.vcpu;
      ram_mb = req.ram_mb;
      docker_endpoint = [];
      pid = pos 0;
      created_at = pos created;
      ttl = ttl_of env.config req.ttl_minutes;
    })

  unfoldable pub reserve : CreateRequest → ℕ → Agent S → Result Vm × Agent S
  reserve req slot a =
      let (vm, w) = new_vm req slot a.world in
      (
        done vm,
        record a {
          manager = record a.manager { slots = insert vm.slot vm.id a.manager.slots };
          world = w;
        },
      )

  -- Create up to the release of the lock: the checks, and the reservation of a slot.
  unfoldable pub admit : CreateRequest → Agent S → Result Vm × Agent S
  admit req a =
      if leb_ℤ req.vcpu (pos 0) || leb_ℤ req.ram_mb (pos 0)
      then (failed bad_size, a)
      else if over_budget a.manager req
      then (failed no_capacity, a)
      else elim (free_slot a.manager) [
        | none ↦ (failed no_capacity, a)
        | some slot ↦ reserve req slot a
      ]
