-- ===== src/Manager/Growth.antt =====
-- internal/vmmanager/manager.go: Create and Destroy only add to the run, if the backend does, and a
-- Create reads the clock first.
use devplat_agent.Base.{
  ◌≡◌, refl, ap, ◌∙◌, Bool, true, false, ◌∷◌, none, some, arith, inl, inr, Bool-cases, Option-cases,
}
use devplat_agent.Base.Text.{Bytes, codes}
use devplat_agent.Base.Int.{ℤ}
use devplat_agent.Paths.{join}
use devplat_agent.Base.Assoc.{lookup, bytes_key, int_key}
use devplat_agent.World.{
  World, Responder, Result, done, failed, read_clock, attempt, Call, wrapped, boot_vm, stop_vm,
}
use devplat_agent.World.Growth.{Later, same, more, Later-trans, Grows, growth}
use devplat_agent.Network.Derive.{NetConfig, derive_net_config}
use devplat_agent.Network.Tap.{Error}
use devplat_agent.Network.Tap.{teardown_tap_device}
use devplat_agent.Network.Firewall.{teardown_firewall}
use devplat_agent.Firecracker.Growth.{teardown_tap_device-Grows, teardown_firewall-Grows}
use devplat_agent.Firecracker.Ready.Ends.{done_event}
use devplat_agent.Manager.State.{Vm, Booted, Manager, Agent, Setting, Backend}
use devplat_agent.Manager.Admission.{CreateRequest, admit, reserve, new_vm}
use devplat_agent.Manager.Lifecycle.{
  create, destroy, forget, launch, settle, shut_down, prepare_rootfs, remove_vm_dir, remove_cgroup,
  persist, vm_dir,
}

unfoldable pub is_done : {A : Type 0} → Result A → Bool
is_done (done a) = true
is_done (failed err) = false

-- A backend whose operations only add to the run.
pub record OnlyAdds {S : Type 0} (b : Backend S) : Type 0 where
  pub boot :
      (vm : Vm) (nc : NetConfig) (path : Bytes) (s : S) (w : World)
      → Later w (b.boot vm nc path s w).2
  pub stop : (vm : Vm) (s : S) (w : World) → Later w (b.stop vm s w).2

prepare_rootfs-Grows : (r : Responder) (golden dest : Bytes) → Grows (prepare_rootfs r golden dest)
unfolding prepare_rootfs
prepare_rootfs-Grows r golden dest w = grind growth

remove_vm_dir-Grows : (r : Responder) (dir : Bytes) → Grows (remove_vm_dir r dir)
unfolding remove_vm_dir
remove_vm_dir-Grows r dir w = grind growth

remove_cgroup-Grows : (r : Responder) (id : Bytes) → Grows (remove_cgroup r id)
unfolding remove_cgroup attempt
remove_cgroup-Grows r id w = grind growth

module _ {S : Type 0} (env : Setting S) where
  persist-Grows : (vm : Vm) → Grows (persist env vm)
  unfolding persist
  persist-Grows vm w = grind growth

  -- The run after Create's first locked section, if it reserved a slot.
  unfoldable pub admitted_at : Agent S → Bool → World
  admitted_at a true = done_event Call.now ∷ done_event Call.now ∷ a.world
  admitted_at a false = a.world

  pub admit-world :
      (req : CreateRequest) (a : Agent S)
      → (admit env req a).1.world ≡ admitted_at a (is_done (admit env req a).0)
  unfolding admit reserve new_vm read_clock admitted_at is_done
  admit-world req a = ground arith

  module _ (adds : OnlyAdds env.backend) where
    booted-Later :
        (vm : Vm) (result : Result Booted × S × World)
        → Later result.2
            (elim result.0 as (λ _. Result Vm × S × World) [
              | failed err ↦
                  let (_, w) = remove_vm_dir env.responder (vm_dir env vm.id) result.2 in
                  (failed (wrapped boot_vm err), result.1, w)
              | done b ↦
                  let up = record vm { docker_endpoint = b.docker_endpoint; pid = b.pid } in
                  let (_, w) = persist env up result.2 in (done up, result.1, w)
            ]).2
    booted-Later vm (failed err, s, w) = remove_vm_dir-Grows env.responder _ w
    booted-Later vm (done b, s, w) = persist-Grows _ w

    launch-Later : (vm : Vm) (s : S) (w : World) → Later w (launch env vm s w).2
    unfolding launch
    launch-Later vm s w =
        let path = join (vm_dir env vm.id) (codes "rootfs.ext4") in
        let nc = derive_net_config env.config vm.slot in
        let w1 = (prepare_rootfs env.responder env.config.golden_image_path path w).1 in
        let prepared : Later w w1 = prepare_rootfs-Grows env.responder _ path w in
        elim (Option-cases (prepare_rootfs env.responder env.config.golden_image_path path w).0) [
          | inl e ↦
              rw (e, launch)
                (Later-trans prepared (
                  Later-trans (adds.boot vm nc path s w1)
                    (booted-Later vm (env.backend.boot vm nc path s w1))))
          | inr (err, e) ↦ rw (e, launch) prepared
        ]

    settle-world :
        (slot : ℤ) (result : Result Vm × S × World) (m : Manager)
        → (settle slot result m).1.world ≡ result.2
    unfolding settle
    settle-world slot (done vm, s, w) m = refl
    settle-world slot (failed err, s, w) m = refl

    entered-Later :
        (admitted : Result Vm × Agent S)
        → Later admitted.1.world
            (elim admitted.0 as (λ _. Result Vm × Agent S) [
              | failed err ↦ (failed err, admitted.1)
              | done vm ↦
                  settle vm.slot
                    (launch env vm admitted.1.backend admitted.1.world)
                    admitted.1.manager
            ]).1.world
    entered-Later (failed err, a) = same
    entered-Later (done vm, a) =
        rw (settle-world vm.slot (launch env vm a.backend a.world) a.manager)
          (launch-Later vm a.backend a.world)

    -- Create reads the clock before anything else and never takes back an event.
    pub create-Later :
        (req : CreateRequest) (a : Agent S) (vm : Vm)
        → (create env req a).0 ≡ done vm
        → Later (done_event Call.now ∷ a.world) (create env req a).1.world
    unfolding create admitted_at is_done
    create-Later req a vm h = elim (Bool-cases (is_done (admit env req a).0)) [
      | inl ok ↦
          let at : (admit env req a).1.world ≡ done_event Call.now ∷ done_event Call.now ∷ a.world =
            admit-world req a ∙ ap (admitted_at a) ok in
          Later-trans (rw at (more _ same)) (entered-Later (admit env req a))
      | inr bad ↦ absurd (ground arith)
    ]

    pub create-grows :
        (req : CreateRequest) (a : Agent S) → Later a.world (create env req a).1.world
    unfolding create admitted_at
    create-grows req a = elim (Bool-cases (is_done (admit env req a).0)) [
      | inl ok ↦
          let at : (admit env req a).1.world ≡ done_event Call.now ∷ done_event Call.now ∷ a.world =
            admit-world req a ∙ ap (admitted_at a) ok in
          Later-trans (rw at (more _ (more _ same))) (entered-Later (admit env req a))
      | inr bad ↦
          let at : (admit env req a).1.world ≡ a.world =
            admit-world req a ∙ ap (admitted_at a) bad in
          Later-trans (rw at same) (entered-Later (admit env req a))
    ]

    shut-Later :
        (id : Bytes) (vm : Vm) (a : Agent S) (stopped : Error × S × World)
        → Later stopped.2
            (elim stopped.0 as (λ _. Error × Agent S) [
              | some err ↦ (some err, record a { backend = stopped.1; world = stopped.2 })
              | none ↦ (
                none,
                record { manager = forget id vm a.manager; backend = stopped.1; world = stopped.2 },
              )
            ]).1.world
    shut-Later id vm a (some err, s, w) = same
    shut-Later id vm a (none, s, w) = same

    stopped-Later :
        (vm : Vm) (result : Error × S × World)
        → Later result.2
            (elim result.0 as (λ _. Error × S × World) [
              | some err ↦ (some (wrapped stop_vm err), result.1, result.2)
              | none ↦
                  let nc = derive_net_config env.config vm.slot in
                  let (_, w2) = teardown_firewall env.responder env.config nc result.2 in
                  let (_, w3) = teardown_tap_device env.responder nc w2 in
                  let (_, w4) = remove_cgroup env.responder vm.id w3 in
                  let (_, w5) = remove_vm_dir env.responder (vm_dir env vm.id) w4 in
                  (none, result.1, w5)
            ]).2
    stopped-Later vm (some err, s, w) = same
    stopped-Later vm (none, s, w) =
        Later-trans (teardown_firewall-Grows env.responder env.config _ w) (
          Later-trans (teardown_tap_device-Grows env.responder _ _) (
            Later-trans (remove_cgroup-Grows env.responder _ _)
              (remove_vm_dir-Grows env.responder _ _)))

    shut_down-Later : (vm : Vm) (s : S) (w : World) → Later w (shut_down env vm s w).2
    unfolding shut_down
    shut_down-Later vm s w =
        Later-trans (adds.stop vm s w) (stopped-Later vm (env.backend.stop vm s w))

    pub destroy-Later : (id : Bytes) (a : Agent S) → Later a.world (destroy env id a).1.world
    unfolding destroy
    destroy-Later id a = elim (Option-cases (lookup id a.manager.vms)) [
      | inl e ↦ rw (e, destroy) same
      | inr (vm, e) ↦
          rw (e, destroy)
            (Later-trans (shut_down-Later vm a.backend a.world)
              (shut-Later id vm a (shut_down env vm a.backend a.world)))
    ]
