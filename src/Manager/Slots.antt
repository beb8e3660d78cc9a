-- ===== src/Manager/Slots.antt =====
-- internal/vmmanager/manager.go: the slots of the listed VMs, over calls made one after another.

use devplat_agent.Base.{◌≡◌, none, some, inl, inr, arith, Bool-cases}
use devplat_agent.Base.Int.{ℤ, eq_ℤ, eq_ℤ_iff}
use devplat_agent.Base.Text.{Bytes, text_eq_iff}
use devplat_agent.Base.Assoc.{
  lookup, insert, lookup-insert, lookup-delete, IsMap, insert-IsMap, delete-IsMap, bytes_key,
  int_key,
}
use devplat_agent.Manager.State.{Vm, Manager, Agent, Setting}
use devplat_agent.Manager.Admission.{CreateRequest, vm_id}
use devplat_agent.Manager.FreeSlot.{free_slot_lowest}
use devplat_agent.Manager.Lifecycle.{create, destroy, commit, release_slot, forget}
use devplat_agent.Manager.Outcome.{
  hold, running, Reserved, refused, aborted, entered, create-Created, unknown, kept, forgotten,
  destroy-Destroyed,
}

-- Every VM is listed once, under its own id, and holds its slot, and every slot is held by a listed VM.
pub record IsConsistent (m : Manager) : Type 0 where
  pub once : IsMap m.vms
  pub owned :
      (id : Bytes) (vm : Vm)
      → lookup id m.vms ≡ some vm
      → (vm.id ≡ id) × (lookup vm.slot m.slots ≡ some id)
  pub occupied :
      (slot : ℤ) (id : Bytes)
      → lookup slot m.slots ≡ some id
      → (vm : Vm) × (lookup id m.vms ≡ some vm) × (vm.slot ≡ slot)

-- Two listed VMs with one slot are one VM.
pub slot_injective :
    (m : Manager) (i j : Bytes) (vm wm : Vm)
    → IsConsistent m
    → lookup i m.vms ≡ some vm
    → lookup j m.vms ≡ some wm
    → vm.slot ≡ wm.slot
    → i ≡ j
slot_injective m i j vm wm c hi hj e = ground (arith, c.owned i vm hi, c.owned j wm hj)

commit-IsConsistent :
    (m : Manager) (vm : Vm)
    → IsConsistent m
    → lookup vm.id m.vms ≡ none
    → lookup vm.slot m.slots ≡ none
    → IsConsistent (commit vm (hold vm m))
unfolding commit
commit-IsConsistent m vm c fresh free = record {
  once = insert-IsMap vm.id vm m.vms c.once;
  owned = λ id wm h. ground (
    arith,
    lookup-insert vm.id id vm m.vms,
    lookup-insert vm.slot wm.slot vm.id m.slots,
    text_eq_iff vm.id id,
    eq_ℤ_iff vm.slot wm.slot,
    c.owned id wm,
  );
  occupied = λ slot id h. elim (Bool-cases (eq_ℤ vm.slot slot)) [
    | inl same ↦ (
      vm,
      ground (
        arith,
        lookup-insert vm.slot slot vm.id m.slots,
        lookup-insert vm.id id vm m.vms,
        text_eq_iff vm.id id,
      ),
      ground (arith, eq_ℤ_iff vm.slot slot),
    )
    | inr other ↦
        let old : lookup slot m.slots ≡ some id =
          ground (arith, lookup-insert vm.slot slot vm.id m.slots) in
        let (wm, listed, at) = c.occupied slot id old in
        (wm, ground (arith, lookup-insert vm.id id vm m.vms, text_eq_iff vm.id id), at)
  ];
}

-- A slot that was free, taken and given back leaves the manager as it was for every lookup.
release-IsConsistent :
    (m : Manager) (vm : Vm)
    → IsConsistent m
    → lookup vm.slot m.slots ≡ none
    → IsConsistent (release_slot vm.slot (hold vm m))
unfolding release_slot
release-IsConsistent m vm c free = record {
  once = c.once;
  owned = λ id wm h. (
    (c.owned id wm h).0,
    ground (
      arith,
      lookup-delete vm.slot wm.slot (insert vm.slot vm.id m.slots),
      lookup-insert vm.slot wm.slot vm.id m.slots,
      eq_ℤ_iff vm.slot wm.slot,
      c.owned id wm h,
    ),
  );
  occupied = λ slot id h. c.occupied slot id (
      ground (
        arith,
        lookup-delete vm.slot slot (insert vm.slot vm.id m.slots),
        lookup-insert vm.slot slot vm.id m.slots,
      ));
}

forget-IsConsistent :
    (m : Manager) (id : Bytes) (vm : Vm)
    → IsConsistent m
    → lookup id m.vms ≡ some vm
    → IsConsistent (forget id vm m)
unfolding forget
forget-IsConsistent m id vm c listed = record {
  once = delete-IsMap id m.vms c.once;
  owned = λ j wm h.
      let old : lookup j m.vms ≡ some wm = ground (arith, lookup-delete id j m.vms) in
      (
        (c.owned j wm old).0,
        ground (
          arith,
          lookup-delete id j m.vms,
          lookup-delete vm.slot wm.slot m.slots,
          text_eq_iff id j,
          eq_ℤ_iff vm.slot wm.slot,
          c.owned j wm old,
          c.owned id vm listed,
        ),
      );
  occupied = λ slot j h.
      let old : lookup slot m.slots ≡ some j = ground (arith, lookup-delete vm.slot slot m.slots) in
      let (wm, there, at) = c.occupied slot j old in
      (
        wm,
        ground (
          arith,
          lookup-delete vm.slot slot m.slots,
          lookup-delete id j m.vms,
          text_eq_iff id j,
          eq_ℤ_iff vm.slot slot,
        ),
        at,
      );
}

module _ {S : Type 0} (env : Setting S) where
  pub Reserved-free :
      (req : CreateRequest) (a : Agent S) (vm : Vm)
      → Reserved env req a vm
      → lookup vm.slot a.manager.slots ≡ none
  Reserved-free req a vm h = rw h.slot (free_slot_lowest env a.manager h.index h.found).0

  -- Create keeps the VM list and the slot table consistent on every branch (refused, root file
  -- system or boot failed, VM entered), if the clock gives an id that is not listed.
  pub create-IsConsistent :
      (req : CreateRequest) (a : Agent S)
      → IsConsistent a.manager
      → lookup (vm_id (env.responder.clock a.world)) a.manager.vms ≡ none
      → IsConsistent (create env req a).1.manager
  create-IsConsistent req a c fresh = elim (create-Created env req a) [
    | refused err e ↦ rw e c
    | aborted vm err s w h e ↦ rw e (release-IsConsistent a.manager vm c (Reserved-free req a vm h))
    | entered vm b s w h e ↦
        rw e (
          commit-IsConsistent a.manager (running vm b) c (rw h.id fresh) (Reserved-free req a vm h))
  ]

  -- Destroy keeps the VM list and the slot table consistent on every branch (unknown id, failed
  -- stop, VM removed).
  pub destroy-IsConsistent :
      (id : Bytes) (a : Agent S)
      → IsConsistent a.manager
      → IsConsistent (destroy env id a).1.manager
  destroy-IsConsistent id a c = elim (destroy-Destroyed env id a) [
    | unknown h e ↦ rw e c
    | kept vm err s w h cause e ↦ rw e c
    | forgotten vm s w h e ↦ rw e (forget-IsConsistent a.manager id vm c h)
  ]
