-- ===== src/Manager/Outcome/Create.antt =====
-- internal/vmmanager/manager.go: the ways in which Create can end, for every backend and every
-- responder.
use devplat_agent.Base.{◌≡◌, refl, sym, subst, none, some}
use devplat_agent.Base.Text.{Bytes}
use devplat_agent.Base.Assoc.{bytes_key, int_key}
use devplat_agent.World.{World, Err, Result, done, failed, wrapped, boot_vm, prepare_rootfs_stage}
use devplat_agent.Network.Tap.{Error}
use devplat_agent.Manager.State.{Vm, Booted, Agent, Setting}
use devplat_agent.Manager.Admission.{CreateRequest, admit}
use devplat_agent.Manager.Lifecycle.{
  launch, settle, create, commit, release_slot, prepare_rootfs, vm_dir, persist, remove_vm_dir,
}
use devplat_agent.Network.Derive.{derive_net_config}
use devplat_agent.Manager.Outcome.Admit.{
  hold, running, Reserved, Admitted, denied, reserved, admit-Admitted,
}

module _ {S : Type 0} (env : Setting S) where
  -- The boot fails, or gives the VM its endpoint and pid and leaves the rest of it.
  pub data Launched (vm : Vm) (result : Result Vm × S × World) : Type 0 where
    lost : (err : Err) (s : S) (w : World) → result ≡ (failed err, s, w) → Launched vm result
    up :
        (b : Booted) (s : S) (w : World) → result ≡ (done (running vm b), s, w) → Launched vm result

  boot_step :
      (vm : Vm) (result : Result Booted × S × World)
      → Launched vm (elim result.0 [
        | failed err ↦
            let (_, w) = remove_vm_dir env.responder (vm_dir env vm.id) result.2 in
            (failed (wrapped boot_vm err), result.1, w)
        | done b ↦
            let (_, w) = persist env (running vm b) result.2 in (done (running vm b), result.1, w)
      ])
  boot_step vm (failed err, s, w) = lost _ _ _ refl
  boot_step vm (done b, s, w) = up b _ _ refl

  rootfs_step :
      (vm : Vm) (path : Bytes) (s : S) (result : Error × World)
      → Launched vm (elim result.0 [
        | some err ↦ (failed (wrapped prepare_rootfs_stage err), s, result.1)
        | none ↦
            let (booted, s2, w2) =
              env.backend.boot vm (derive_net_config env.config vm.slot) path s result.1 in
            elim booted [
              | failed err ↦
                  let (_, w) = remove_vm_dir env.responder (vm_dir env vm.id) w2 in
                  (failed (wrapped boot_vm err), s2, w)
              | done b ↦ let (_, w) = persist env (running vm b) w2 in (done (running vm b), s2, w)
            ]
      ])
  rootfs_step vm path s (some err, w) = lost _ _ _ refl
  rootfs_step vm path s (none, w) = boot_step vm (env.backend.boot vm _ path s w)

  pub launch-Launched : (vm : Vm) (s : S) (w : World) → Launched vm (launch env vm s w)
  unfolding launch
  launch-Launched vm s w = rootfs_step vm _ s (prepare_rootfs env.responder _ _ w)

  -- Create is refused and changes nothing, fails and gives its slot back, or enters the new VM.
  pub data Created (req : CreateRequest) (a : Agent S) (result : Result Vm × Agent S) : Type 0 where
    refused : (err : Err) → result ≡ (failed err, a) → Created req a result
    aborted :
        (vm : Vm) (err : Err) (s : S) (w : World)
        → Reserved env req a vm
        → result ≡ (
          failed err,
          record { manager = release_slot vm.slot (hold vm a.manager); backend = s; world = w },
        )
        → Created req a result
    entered :
        (vm : Vm) (b : Booted) (s : S) (w : World)
        → Reserved env req a vm
        → result ≡ (
          done (running vm b),
          record { manager = commit (running vm b) (hold vm a.manager); backend = s; world = w },
        )
        → Created req a result

  settle-Created :
      (req : CreateRequest) (a : Agent S) (vm : Vm) (result : Result Vm × S × World)
      → Reserved env req a vm
      → Launched vm result
      → Created req a (settle vm.slot result (hold vm a.manager))
  unfolding settle
  settle-Created req a vm result h (lost err s w e) = rw e (aborted vm err s w h refl)
  settle-Created req a vm result h (up b s w e) = rw e (entered vm b s w h refl)

  -- Create behind its first locked section.
  abbrev after_admit : Result Vm × Agent S → Result Vm × Agent S
  after_admit result = elim result.0 [
    | failed err ↦ (failed err, result.1)
    | done vm ↦ settle vm.slot (launch env vm result.1.backend result.1.world) result.1.manager
  ]

  after_admit-Created :
      (req : CreateRequest) (a : Agent S) (result : Result Vm × Agent S)
      → Admitted env req a result
      → Created req a (after_admit result)
  after_admit-Created req a result (denied err e) =
      subst (λ r. Created req a (after_admit r)) (sym e) (Created.refused err refl)
  after_admit-Created req a result (reserved vm w h e) =
      subst (λ r. Created req a (after_admit r)) (sym e)
        (settle-Created req a vm _ h (launch-Launched vm a.backend w))

  pub create-Created : (req : CreateRequest) (a : Agent S) → Created req a (create env req a)
  unfolding create
  create-Created req a = after_admit-Created req a (admit env req a) (admit-Admitted env req a)
