-- ===== src/Manager/Interleaving/Races.antt =====
-- internal/vmmanager/manager.go: interleavings of the locked sections, the budget and the slots.
use devplat_agent.Base.{ℕ, ◌+◌, ◌<◌, ◌≡◌, ◌≢◌, none, some, arith, if◌then◌else◌, false}
use devplat_agent.Base.Int.{ℤ, pos, pos_part, eq_ℤ, eq_ℤ_iff}
use devplat_agent.Base.Text.{Bytes, text_eq_iff}
use devplat_agent.Base.Assoc.{
  lookup, insert, delete, lookup-insert, lookup-delete, bytes_key, int_key,
}
use devplat_agent.Manager.State.{Vm, Booted, Manager, Setting}
use devplat_agent.Manager.Admission.{CreateRequest, free_slot, over_budget, capacity_cpu}
use devplat_agent.Manager.Lifecycle.{commit, forget}
use devplat_agent.Manager.Outcome.{hold, running}
use devplat_agent.Manager.FreeSlot.{free_slot_finds}
use devplat_agent.Manager.Totals.{IsSized, total, vcpu_of, total-insert}
use devplat_agent.Manager.Budget.{IsOrdinary, IsWithin, IsModest, Fits, over_budget-Fits}

-- The manager after one Destroy, a Create and the last section of a second Destroy of the same VM.
abbrev pub after_race : Bytes → Vm → Vm → Booted → Manager → Manager
after_race id vm wm b m = forget id vm (commit (running wm b) (hold wm (forget id vm m)))

race_listed :
    (m : Manager) (id : Bytes) (vm wm : Vm) (b : Booted)
    → id ≢ wm.id
    → lookup wm.id (after_race id vm wm b m).vms ≡ some (running wm b)
unfolding commit forget
race_listed m id vm wm b other = ground (
  arith,
  lookup-delete id wm.id (insert wm.id (running wm b) (delete id m.vms)),
  lookup-insert wm.id wm.id (running wm b) (delete id m.vms),
  text_eq_iff id wm.id,
  text_eq_iff wm.id wm.id,
)

race_slots :
    (m : Manager) (id : Bytes) (vm wm : Vm) (b : Booted) (slot : ℤ)
    → wm.slot ≡ vm.slot
    → lookup slot (after_race id vm wm b m).slots
      ≡ (if eq_ℤ vm.slot slot then none else lookup slot m.slots)
unfolding commit forget
race_slots m id vm wm b slot same =
    let once = delete vm.slot m.slots in
    ground (
      arith,
      lookup-delete vm.slot slot (insert wm.slot wm.id once),
      lookup-insert wm.slot slot wm.id once,
      lookup-delete vm.slot slot m.slots,
      eq_ℤ_iff vm.slot slot,
      eq_ℤ_iff wm.slot slot,
    )

module _ {S : Type 0} (env : Setting S) where
  -- If every slot below a VM's slot is taken, two Destroys of that VM with a Create between their
  -- last sections free the slot that the new VM holds, and the next Create gets it too.
  pub destroy_twice_shares_slot :
      (m : Manager) (id : Bytes) (vm wm : Vm) (b : Booted) (k : ℕ)
      → vm.slot ≡ pos k
      → k < pos_part env.cpu_total
      → ((j : ℕ) → j < k → lookup (pos j) m.slots ≢ none)
      → wm.slot ≡ vm.slot
      → id ≢ wm.id
      → (free_slot env (forget id vm m) ≡ some k)
        × (lookup wm.id (after_race id vm wm b m).vms ≡ some (running wm b))
        × (free_slot env (after_race id vm wm b m) ≡ some k)
  destroy_twice_shares_slot m id vm wm b k at below lower same other = (
    free_slot_finds env (forget id vm m) k below
        (unfold forget in
          ground (arith, lookup-delete vm.slot (pos k) m.slots, eq_ℤ_iff vm.slot (pos k)))
        (λ j less.
          unfold forget in
          ground
            (arith, lower j less, lookup-delete vm.slot (pos j) m.slots, eq_ℤ_iff vm.slot (pos j))),
    race_listed m id vm wm b other,
    free_slot_finds env (after_race id vm wm b m) k below
        (ground (arith, race_slots m id vm wm b (pos k) same, eq_ℤ_iff vm.slot (pos k)))
        (λ j less.
          ground
            (arith, lower j less, race_slots m id vm wm b (pos j) same, eq_ℤ_iff vm.slot (pos j))),
  )

  -- On a host of less than 2 ^ 62 units with sized VMs within its budget, two requests of positive
  -- size below 2 ^ 62 with new ids that each fit, and whose CPUs together do not, both pass the
  -- budget test where the second is decided while the first one's VM boots, and the VMs are not
  -- within the budget once both are listed.
  pub create_twice_overcommits :
      (m : Manager) (first second : CreateRequest) (vm wm : Vm) (b c : Booted)
      → IsOrdinary env
      → IsWithin env m
      → IsModest env first
      → IsModest env second
      → IsSized vm
      → IsSized wm
      → first.vcpu ≡ vm.vcpu
      → first.ram_mb ≡ vm.ram_mb
      → second.vcpu ≡ wm.vcpu
      → second.ram_mb ≡ wm.ram_mb
      → Fits env m first
      → Fits env m second
      → lookup vm.id m.vms ≡ none
      → lookup wm.id m.vms ≡ none
      → vm.id ≢ wm.id
      → pos_part (capacity_cpu env) < total vcpu_of m.vms + pos_part vm.vcpu + pos_part wm.vcpu
      → (over_budget env m first ≡ false)
        × (over_budget env (hold vm m) second ≡ false)
        × ¬ IsWithin env (commit (running wm c) (hold wm (commit (running vm b) (hold vm m))))
  unfolding commit
  create_twice_overcommits m first second vm wm b c o v q1 q2 s1 s2 e1 e2 e3 e4 f1 f2 new1 new2 ne
        over =
      (
        (over_budget-Fits env m first o v q1 (rw e1 s1.0) (rw e2 s1.1)).1 f1,
        (over_budget-Fits env (hold vm m) second o
              (record { sized = v.sized; cpu = v.cpu; ram = v.ram }) q2 (rw e3 s2.0) (rw e4 s2.1)).1
            f2,
        λ w. omega (
          arith,
          w.cpu,
          total-insert vcpu_of wm.id (running wm c) (insert vm.id (running vm b) m.vms) (
              ground
                (arith, lookup-insert vm.id wm.id (running vm b) m.vms, text_eq_iff vm.id wm.id)),
          total-insert vcpu_of vm.id (running vm b) m.vms new1,
        ),
      )
