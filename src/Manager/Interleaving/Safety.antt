-- ===== src/Manager/Interleaving/Safety.antt =====
-- internal/vmmanager/manager.go: interleaved requests, where no two Destroy calls stop the same
-- VM at a time.
use devplat_agent.Base.{◌≡◌, ◌≢◌, none, some, arith, subst}
use devplat_agent.Base.Text.{Bytes}
use devplat_agent.Base.Assoc.{lookup, insert, bytes_key, int_key}
use devplat_agent.World.{done}
use devplat_agent.Manager.State.{Vm, Manager, Agent, Setting}
use devplat_agent.Manager.Admission.{CreateRequest, admit}
use devplat_agent.Manager.Outcome.{admit-Reserved}
use devplat_agent.Manager.Slots.{Reserved-free}
use devplat_agent.Manager.Interleaving.{
  System, Step, admits, enters, aborts, begins, fails, ends, Reach, here, next,
}
use devplat_agent.Manager.Interleaving.Invariant.{
  IsSafe, hold-IsSafe, commit-IsSafe, release-IsSafe, forget-IsSafe, fails-IsSafe, begins-IsSafe,
}

module _ {S : Type 0} (env : Setting S) where
  admits-IsSafe :
      (s : System) (req : CreateRequest) (a : Agent S) (vm : Vm)
      → a.manager ≡ s.manager
      → (admit env req a).0 ≡ done vm
      → lookup vm.id s.manager.vms ≡ none
      → lookup vm.id s.creating ≡ none
      → IsSafe s
      → IsSafe (record s {
        manager = (admit env req a).1.manager;
        creating = insert vm.id vm s.creating;
      })
  admits-IsSafe s req a vm same ok new1 new2 v =
      let (held, h) = admit-Reserved env req a vm ok in
      let free : lookup vm.slot s.manager.slots ≡ none =
        subst (λ (m : Manager). lookup vm.slot m.slots ≡ none) same
          (Reserved-free env req a vm h) in
      rw (held, same) (hold-IsSafe s vm v free new1 new2)

  pub Step-IsSafe : {s t : System} → Step env s t → IsSafe s → IsSafe t
  Step-IsSafe {s} (admits req a vm t same ok new1 new2 e) v =
      rw e (admits-IsSafe s req a vm same ok new1 new2 v)
  Step-IsSafe {s} (enters id vm b t h e) v = rw e (commit-IsSafe s id vm b v h)
  Step-IsSafe {s} (aborts id vm t h e) v = rw e (release-IsSafe s id vm v h)
  Step-IsSafe {s} (begins id vm t h _ e) v = rw e (begins-IsSafe s id vm v h)
  Step-IsSafe {s} (fails id t e) v = rw e (fails-IsSafe s id v)
  Step-IsSafe {s} (ends id vm t h e) v = rw e (forget-IsSafe s id vm v h)

  -- Every system that interleaved requests reach from a safe one is safe.
  pub Reach-IsSafe : {s t : System} → IsSafe s → Reach env s t → IsSafe t
  Reach-IsSafe v here = v
  Reach-IsSafe v (next r st) = Step-IsSafe st (Reach-IsSafe v r)

  -- From a safe system, whatever the order of the locked sections of Create and Destroy, no slot is
  -- used by two VMs, listed or booting, as long as new ids are unused and no two Destroys of one VM
  -- overlap.
  pub interleaved_slots_distinct :
      {s t : System}
      → IsSafe s
      → Reach env s t
      → ((i j : Bytes) (vm wm : Vm)
          → lookup i t.manager.vms ≡ some vm
          → lookup j t.manager.vms ≡ some wm
          → vm.slot ≡ wm.slot
          → i ≡ j)
        × ((i j : Bytes) (vm wm : Vm)
            → lookup i t.creating ≡ some vm
            → lookup j t.creating ≡ some wm
            → vm.slot ≡ wm.slot
            → i ≡ j)
        × ((i j : Bytes) (vm wm : Vm)
            → lookup i t.manager.vms ≡ some vm
            → lookup j t.creating ≡ some wm
            → vm.slot ≢ wm.slot)
  interleaved_slots_distinct {s} {t} safe r =
      let v = Reach-IsSafe safe r in
      (
        λ i j vm wm hi hj e. ground (arith, v.owned i vm hi, v.owned j wm hj),
        λ i j vm wm hi hj e. ground (arith, v.pending i vm hi, v.pending j wm hj),
        λ i j vm wm hi hj e. ground (arith, v.owned i vm hi, v.pending j wm hj, v.apart j wm hj),
      )
