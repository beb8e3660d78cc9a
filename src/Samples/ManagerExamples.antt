-- ===== src/Samples/ManagerExamples.antt =====
-- The manager of the sample host, one call after another.
use mathlib.Core.List.Perm
use devplat_agent.Manager.MapOrder.{over_budget-Perm}
use devplat_agent.Manager.Queries.{health}
use devplat_agent.Manager.State.{Manager}
use devplat_agent.Base.{
  Bool, ℕ, ◌+◌, ◌<◌, ◌≤◌, ◌≡◌, ◌≢◌, refl, true, false, [], ◌∷◌, none, some, arith, if◌then◌else◌,
}
use devplat_agent.Base.Int.{ℤ, pos, ◌+ℤ◌}
use devplat_agent.Base.Words.{add64}
use devplat_agent.Base.Text.{Bytes, codes, text_eq, itoa, atoi}
use devplat_agent.Base.Assoc.{lookup, bytes_key, int_key}
use devplat_agent.World.{done, failed, no_capacity}
use devplat_agent.Json.Decode.{fits64}
use devplat_agent.Manager.State.{Vm, Agent}
use devplat_agent.Manager.Admission.{
  CreateRequest, admit, over_budget, used_cpu, used_ram_mb, capacity_cpu, free_slot, free_slot_from,
  vm_id,
}
use devplat_agent.Manager.FreeSlot.{free_slot_lowest}
use devplat_agent.Manager.Budget.{Fits, admit_exact, over_budget_overflow}
use devplat_agent.Manager.Meta.{marshal, unmarshal}
use devplat_agent.Manager.Meta.RoundTrip.{IsStorable, unmarshal-marshal}
use devplat_agent.World.{read_clock}
use devplat_agent.Manager.State.{expires_at}
use devplat_agent.Manager.Reap.{is_expired, expired_ids, destroy_all, reap_expired}
use devplat_agent.Manager.Reap.Exact.{
  contains, found_expired, reap_expired_exact, reap_expired_complete,
}
use devplat_agent.Manager.Reconcile.{Entry, entries, document, unreadable, start}
use devplat_agent.Manager.Reconcile.Restart.{empty, vm_dir, half_created, restart_restores}
use devplat_agent.Samples.{
  host, first_vm, busy, busy_agent, small, time_format, busy-IsConsistent, busy-IsWithin,
  host-IsOrdinary, small-IsModest,
}

fresh : lookup (vm_id (host.responder.clock [])) busy.vms ≡ none
unfolding lookup vm_id itoa text_eq
fresh = refl

admit_exact_example :
    (Fits host busy small → (vm : Vm) × ((admit host small busy_agent).0 ≡ done vm))
    × (¬ Fits host busy small → admit host small busy_agent ≡ (failed no_capacity, busy_agent))
admit_exact_example =
    admit_exact host small busy_agent host-IsOrdinary busy-IsConsistent busy-IsWithin small-IsModest
      (omega arith) (omega arith)

free_slot_lowest_example :
    (lookup (pos 1) busy.slots ≡ none)
    × (1 < 4)
    × ((j : ℕ) → j < 1 → lookup (pos j) busy.slots ≢ none)
free_slot_lowest_example =
    free_slot_lowest host busy 1 (unfold free_slot free_slot_from capacity_cpu lookup in refl)

-- A request that no host can hold.
abbrev huge : CreateRequest
huge = record {
  team_id = codes "red";
  ttl_minutes = pos 0;
  vcpu = pos 9_223_372_036_854_775_807;
  ram_mb = pos 9_223_372_036_854_775_807;
}

over_budget_overflow_example : over_budget host busy huge ≡ false
over_budget_overflow_example =
    over_budget_overflow host busy huge 2 2048 9_223_372_036_854_775_807 9_223_372_036_854_775_807
      (unfold capacity_cpu in refl) (unfold used_cpu add64 in refl)
      (unfold used_ram_mb add64 in refl) refl refl (omega arith) (omega arith) (omega arith)
      (omega arith) (omega arith) (omega arith)

pub first_vm-IsStorable : IsStorable time_format first_vm
unfolding fits64 itoa atoi
first_vm-IsStorable = record {
  slot = refl;
  vcpu = refl;
  ram_mb = refl;
  pid = refl;
  ttl = refl;
  created_at = refl;
}

unmarshal-marshal_example : unmarshal time_format (marshal time_format first_vm) ≡ some first_vm
unmarshal-marshal_example = unmarshal-marshal time_format first_vm first_vm-IsStorable

-- The state directory of the manager, with what an unfinished Create left.
abbrev pub state_dir : devplat_agent.Base.List Entry
state_dir =
    record { name = codes "vm_0"; is_dir = true; meta = unreadable }
    ∷ record { name = codes "vm_1"; is_dir = true; meta = document (marshal time_format first_vm) }
    ∷ []

restart_restores_example :
    (a : Agent Unit) × (start host (entries state_dir) tt [] ≡ done a)
    × ((id : Bytes) → lookup id a.manager.vms ≡ lookup id busy.vms)
    × ((slot : ℤ) → lookup slot a.manager.slots ≡ lookup slot busy.slots)
restart_restores_example =
    restart_restores host busy state_dir tt [] busy-IsConsistent
      (half_created (codes "vm_0") (vm_dir (codes "vm_1") first_vm first_vm-IsStorable empty))

reap_expired_exact_example :
    let result = reap_expired host busy_agent in
    (lookup (codes "vm_1") result.1.manager.vms
      ≡ (if contains (codes "vm_1") result.0 then none else lookup (codes "vm_1") busy.vms))
    × (contains (codes "vm_1") result.0 ≡ true
        → found_expired (host.responder.clock []) (lookup (codes "vm_1") busy.vms) ≡ true)
reap_expired_exact_example = reap_expired_exact host busy_agent (codes "vm_1") busy-IsConsistent

still_listed : lookup (codes "vm_1") (reap_expired host busy_agent).1.manager.vms ≡ some first_vm
unfolding lookup reap_expired read_clock expired_ids is_expired expires_at destroy_all text_eq ◌+ℤ◌
still_listed = refl

reap_expired_complete_example : is_expired (host.responder.clock []) first_vm ≡ false
reap_expired_complete_example =
    reap_expired_complete host busy_agent (codes "vm_1") first_vm busy-IsConsistent (λ vm s w. refl)
      still_listed

abbrev other_vm : Vm
other_vm = record first_vm { id = codes "vm_2"; slot = pos 1; vcpu = pos 1 }

abbrev listed : Bool → Manager
listed true = record busy { vms = (codes "vm_1", first_vm) ∷ (codes "vm_2", other_vm) ∷ [] }
listed false = record busy { vms = (codes "vm_2", other_vm) ∷ (codes "vm_1", first_vm) ∷ [] }

over_budget-Perm_example :
    (over_budget host (listed true) small ≡ over_budget host (listed false) small)
    × (health host (listed true) ≡ health host (listed false))
over_budget-Perm_example =
    over_budget-Perm host (listed true) (listed false) small
      (Perm.swap (codes "vm_2", other_vm) (codes "vm_1", first_vm) [])
