-- ===== src/Samples/ConcurrencyExamples.antt =====
-- Interleaved requests on the sample host.
use devplat_agent.Base.{◌≡◌, ◌≢◌, refl, false, [], ◌∷◌, some, arith}
use devplat_agent.Base.Int.{pos}
use devplat_agent.Base.Text.{Bytes, codes, text_eq, text_eq_iff}
use devplat_agent.Base.Assoc.{lookup, insert, bytes_key, int_key}
use devplat_agent.Manager.State.{Vm, Booted}
use devplat_agent.Manager.Admission.{free_slot, over_budget, capacity_cpu}
use devplat_agent.Manager.Lifecycle.{commit, forget}
use devplat_agent.Manager.Outcome.{hold, running}
use devplat_agent.Manager.Budget.{IsWithin, Fits}
use devplat_agent.Manager.Interleaving.{System, Reach, here, next, begins}
use devplat_agent.Manager.Interleaving.Safety.{interleaved_slots_distinct}
use devplat_agent.Manager.Interleaving.Invariant.{IsSafe}
use devplat_agent.Manager.Interleaving.Races.{
  after_race, destroy_twice_shares_slot, create_twice_overcommits,
}
use devplat_agent.Samples.{
  host, first_vm, capacity_ram_mb-host, busy, small, busy-IsWithin, host-IsOrdinary, small-IsModest,
}

abbrev second_vm : Vm
second_vm = record first_vm { id = codes "vm_2"; ram_mb = pos 1024 }

abbrev third_vm : Vm
third_vm = record second_vm { id = codes "vm_3" }

abbrev up : Booted
up = record { docker_endpoint = codes "203.0.113.7:42000"; pid = pos 42 }

-- One VM is listed, and a second one boots on slot 1.
abbrev booting : System
booting = record {
  manager = record busy { slots = (pos 0, codes "vm_1") ∷ (pos 1, codes "vm_2") ∷ [] };
  creating = (codes "vm_2", record second_vm { slot = pos 1 }) ∷ [];
  stopping = [];
}

booting-IsSafe : IsSafe booting
unfolding lookup text_eq
booting-IsSafe = record {
  owned = λ id vm h. ground (arith, text_eq_iff (codes "vm_1") id);
  pending = λ id vm h. ground (arith, text_eq_iff (codes "vm_2") id);
  apart = λ id vm h. ground (arith, text_eq_iff (codes "vm_2") id, text_eq_iff (codes "vm_1") id);
  ending = λ id vm h. absurd (cc);
}

-- A Destroy of the first VM begins, while the second one boots.
abbrev both : System
both = record booting { stopping = insert (codes "vm_1") first_vm [] }

both_reached : Reach host booting both
unfolding lookup text_eq
both_reached = next here (begins (codes "vm_1") first_vm both refl refl refl)

interleaved_slots_distinct_example :
    ((i j : Bytes) (vm wm : Vm)
      → lookup i both.manager.vms ≡ some vm
      → lookup j both.manager.vms ≡ some wm
      → vm.slot ≡ wm.slot
      → i ≡ j)
    × ((i j : Bytes) (vm wm : Vm)
        → lookup i both.creating ≡ some vm
        → lookup j both.creating ≡ some wm
        → vm.slot ≡ wm.slot
        → i ≡ j)
    × ((i j : Bytes) (vm wm : Vm)
        → lookup i both.manager.vms ≡ some vm
        → lookup j both.creating ≡ some wm
        → vm.slot ≢ wm.slot)
interleaved_slots_distinct_example =
    interleaved_slots_distinct host {s = booting} {t = both} booting-IsSafe both_reached

destroy_twice_shares_slot_example :
    (free_slot host (forget (codes "vm_1") first_vm busy) ≡ some 0)
    × (lookup (codes "vm_2") (after_race (codes "vm_1") first_vm second_vm up busy).vms
        ≡ some (running second_vm up))
    × (free_slot host (after_race (codes "vm_1") first_vm second_vm up busy) ≡ some 0)
destroy_twice_shares_slot_example =
    destroy_twice_shares_slot host busy (codes "vm_1") first_vm second_vm up 0 refl (omega arith)
      (λ j below. absurd (omega arith)) refl different
  where
    different : codes "vm_1" ≢ codes "vm_2"
    different = ground arith

busy-Fits : Fits host busy small
unfolding capacity_cpu
busy-Fits = (omega arith, rw capacity_ram_mb-host (omega arith))

create_twice_overcommits_example :
    (over_budget host busy small ≡ false)
    × (over_budget host (hold second_vm busy) small ≡ false)
    × ¬ IsWithin host (
        commit
          (running third_vm up)
          (hold third_vm (commit (running second_vm up) (hold second_vm busy))))
create_twice_overcommits_example =
    create_twice_overcommits host busy small small second_vm third_vm up up host-IsOrdinary
      busy-IsWithin small-IsModest small-IsModest (omega arith, omega arith)
      (omega arith, omega arith) refl refl refl refl busy-Fits busy-Fits
      (unfold lookup text_eq in refl) (unfold lookup text_eq in refl) (ground arith)
      (unfold capacity_cpu in omega arith)
