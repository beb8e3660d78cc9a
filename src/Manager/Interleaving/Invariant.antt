-- ===== src/Manager/Interleaving/Invariant.antt =====
-- internal/vmmanager/manager.go: the invariant of interleaved requests, one locked section at a
-- time.
use devplat_agent.Base.{◌≡◌, none, some, arith}
use devplat_agent.Base.Int.{eq_ℤ_iff}
use devplat_agent.Base.Text.{Bytes, text_eq_iff}
use devplat_agent.Base.Assoc.{
  lookup, insert, delete, lookup-insert, lookup-delete, bytes_key, int_key,
}
use devplat_agent.Manager.State.{Vm, Booted}
use devplat_agent.Manager.Lifecycle.{commit, release_slot, forget}
use devplat_agent.Manager.Outcome.{hold, running}
use devplat_agent.Manager.Interleaving.{System}

-- Listed VMs and booting VMs have their own ids and hold their own slots, no booting VM is listed,
-- and a VM that is being stopped is listed.
pub record IsSafe (s : System) : Type 0 where
  pub owned :
      (id : Bytes) (vm : Vm)
      → lookup id s.manager.vms ≡ some vm
      → (vm.id ≡ id) × (lookup vm.slot s.manager.slots ≡ some id)
  pub pending :
      (id : Bytes) (vm : Vm)
      → lookup id s.creating ≡ some vm
      → (vm.id ≡ id) × (lookup vm.slot s.manager.slots ≡ some id)
  pub apart :
      (id : Bytes) (vm : Vm) → lookup id s.creating ≡ some vm → lookup id s.manager.vms ≡ none
  pub ending :
      (id : Bytes) (vm : Vm) → lookup id s.stopping ≡ some vm → lookup id s.manager.vms ≡ some vm

pub hold-IsSafe :
    (s : System) (vm : Vm)
    → IsSafe s
    → lookup vm.slot s.manager.slots ≡ none
    → lookup vm.id s.manager.vms ≡ none
    → lookup vm.id s.creating ≡ none
    → IsSafe (record s { manager = hold vm s.manager; creating = insert vm.id vm s.creating })
hold-IsSafe s vm v free new1 new2 = record {
  owned = λ id wm h. (
    (v.owned id wm h).0,
    ground (
      arith,
      lookup-insert vm.slot wm.slot vm.id s.manager.slots,
      eq_ℤ_iff vm.slot wm.slot,
      v.owned id wm h,
    ),
  );
  pending = λ id wm h. ground (
    arith,
    lookup-insert vm.id id vm s.creating,
    lookup-insert vm.slot wm.slot vm.id s.manager.slots,
    text_eq_iff vm.id id,
    eq_ℤ_iff vm.slot wm.slot,
    v.pending id wm,
  );
  apart = λ id wm h.
      ground (arith, lookup-insert vm.id id vm s.creating, text_eq_iff vm.id id, v.apart id wm);
  ending = v.ending;
}

pub commit-IsSafe :
    (s : System) (id : Bytes) (vm : Vm) (b : Booted)
    → IsSafe s
    → lookup id s.creating ≡ some vm
    → IsSafe
        (record s { manager = commit (running vm b) s.manager; creating = delete id s.creating })
unfolding commit
commit-IsSafe s id vm b v h = record {
  owned = λ j wm listed. ground (
    arith,
    lookup-insert vm.id j (running vm b) s.manager.vms,
    text_eq_iff vm.id j,
    v.owned j wm,
    v.pending id vm h,
  );
  pending = λ j wm waits. v.pending j wm (ground (arith, lookup-delete id j s.creating));
  apart = λ j wm waits. ground (
    arith,
    lookup-delete id j s.creating,
    lookup-insert vm.id j (running vm b) s.manager.vms,
    text_eq_iff vm.id j,
    text_eq_iff id j,
    v.pending id vm h,
    v.apart j wm,
  );
  ending = λ j wm stops. ground (
    arith,
    lookup-insert vm.id j (running vm b) s.manager.vms,
    text_eq_iff vm.id j,
    v.pending id vm h,
    v.apart id vm h,
    v.ending j wm stops,
  );
}

pub release-IsSafe :
    (s : System) (id : Bytes) (vm : Vm)
    → IsSafe s
    → lookup id s.creating ≡ some vm
    → IsSafe
        (record s { manager = release_slot vm.slot s.manager; creating = delete id s.creating })
unfolding release_slot
release-IsSafe s id vm v h = record {
  owned = λ j wm listed. ground (
    arith,
    lookup-delete vm.slot wm.slot s.manager.slots,
    eq_ℤ_iff vm.slot wm.slot,
    v.owned j wm listed,
    v.pending id vm h,
    v.apart id vm h,
  );
  pending = λ j wm waits.
      let old : lookup j s.creating ≡ some wm = ground (arith, lookup-delete id j s.creating) in
      ground (
        arith,
        lookup-delete id j s.creating,
        lookup-delete vm.slot wm.slot s.manager.slots,
        eq_ℤ_iff vm.slot wm.slot,
        text_eq_iff id j,
        v.pending j wm old,
        v.pending id vm h,
      );
  apart = λ j wm waits. v.apart j wm (ground (arith, lookup-delete id j s.creating));
  ending = v.ending;
}

pub forget-IsSafe :
    (s : System) (id : Bytes) (vm : Vm)
    → IsSafe s
    → lookup id s.stopping ≡ some vm
    → IsSafe (record s { manager = forget id vm s.manager; stopping = delete id s.stopping })
unfolding forget
forget-IsSafe s id vm v h = record {
  owned = λ j wm listed.
      let old : lookup j s.manager.vms ≡ some wm =
        ground (arith, lookup-delete id j s.manager.vms) in
      ground (
        arith,
        lookup-delete id j s.manager.vms,
        lookup-delete vm.slot wm.slot s.manager.slots,
        text_eq_iff id j,
        eq_ℤ_iff vm.slot wm.slot,
        v.owned j wm old,
        v.owned id vm (v.ending id vm h),
      );
  pending = λ j wm waits. ground (
    arith,
    lookup-delete vm.slot wm.slot s.manager.slots,
    eq_ℤ_iff vm.slot wm.slot,
    v.pending j wm waits,
    v.apart j wm waits,
    v.ending id vm h,
    v.owned id vm (v.ending id vm h),
  );
  apart = λ j wm waits. ground (arith, lookup-delete id j s.manager.vms, v.apart j wm waits);
  ending = λ j wm stops.
      ground
        (arith, lookup-delete id j s.stopping, lookup-delete id j s.manager.vms, v.ending j wm);
}

pub fails-IsSafe :
    (s : System) (id : Bytes) → IsSafe s → IsSafe (record s { stopping = delete id s.stopping })
fails-IsSafe s id v = record {
  owned = v.owned;
  pending = v.pending;
  apart = v.apart;
  ending = λ j wm stops. v.ending j wm (ground (arith, lookup-delete id j s.stopping));
}

pub begins-IsSafe :
    (s : System) (id : Bytes) (vm : Vm)
    → IsSafe s
    → lookup id s.manager.vms ≡ some vm
    → IsSafe (record s { stopping = insert id vm s.stopping })
begins-IsSafe s id vm v h = record {
  owned = v.owned;
  pending = v.pending;
  apart = v.apart;
  ending = λ j wm stops.
      ground (arith, lookup-insert id j vm s.stopping, text_eq_iff id j, v.ending j wm);
}
