-- ===== src/Firecracker/Rules/Keeps.antt =====
-- internal/vmmanager/manager.go over firecracker.go: no operation takes a rule away that it has not put
-- in force itself, but for a Destroy that succeeds.
use devplat_agent.Base.{ℕ, ◌≤◌, ◌≡◌, refl, List, none, some, arith, inl, inr, Option-cases}
use devplat_agent.Base.Int.{ℤ}
use devplat_agent.Base.Text.{Bytes, codes}
use devplat_agent.Base.Assoc.{lookup, bytes_key, int_key}
use devplat_agent.Paths.{join}
use devplat_agent.World.{World, Responder, Err, Result, done, failed, wrapped, boot_vm}
use devplat_agent.Config.{Config}
use devplat_agent.Network.Derive.{derive_net_config}
use devplat_agent.Manager.State.{Vm, Booted, Agent, Setting, TimeFormat}
use devplat_agent.Manager.Admission.{CreateRequest, admit}
use devplat_agent.Manager.Lifecycle.{
  create, destroy, launch, settle, prepare_rootfs, remove_vm_dir, persist, vm_dir, shut_down,
}
use devplat_agent.Manager.Outcome.{running}
use devplat_agent.Firecracker.{Machines, boot, stop}
use devplat_agent.Firecracker.Rules.{rule_count, IsHonest, rule_count-Quiet}
use devplat_agent.Firecracker.Rules.Setup.{Left, all_left, some_left, none_left, IsLeft}
use devplat_agent.Firecracker.Rules.Boot.{boot_world-IsLeft}
use devplat_agent.Firecracker.Rules.Lifetime.{
  production, prepare_rootfs-IsQuiet, remove_vm_dir-IsQuiet, persist-IsQuiet, stop-count,
  settle-result, admit-count,
}

-- A Boot takes no rule away that was there before.
IsLeft-le : (l : Left) (own before after : ℕ) → IsLeft l own before after → before ≤ after
unfolding IsLeft
IsLeft-le all_left own before after h = omega arith
IsLeft-le some_left own before after h = h.0
IsLeft-le none_left own before after h = omega arith

module _ (cfg : Config) (cpus ram : ℤ) (t : TimeFormat) (r : Responder) (honest : IsHonest r) where
  abbrev pub host : Setting Machines
  host = production cfg cpus ram t r

  module _ (rule : List Bytes) where
    booted_keeps :
        (vm : Vm) (booted : Result Booted × Machines × World)
        → rule_count rule booted.2
          ≤ rule_count rule
              (elim booted.0 as (λ _. Result Vm × Machines × World) [
                | failed err ↦
                    let (_, w) = remove_vm_dir r (vm_dir host vm.id) booted.2 in
                    (failed (wrapped boot_vm err), booted.1, w)
                | done b ↦
                    let (_, w) = persist host (running vm b) booted.2 in
                    (done (running vm b), booted.1, w)
              ]).2
    booted_keeps vm (failed err, s, w) =
        omega (arith, rule_count-Quiet rule (remove_vm_dir-IsQuiet r (vm_dir host vm.id) w))
    booted_keeps vm (done b, s, w) = omega (
      arith,
      rule_count-Quiet rule (persist-IsQuiet cfg cpus ram t r rule honest (running vm b) w),
    )

    launch_keeps :
        (vm : Vm) (s : Machines) (w : World)
        → rule_count rule w ≤ rule_count rule (launch host vm s w).2
    unfolding launch boot
    launch_keeps vm s w =
        let path = join (vm_dir host vm.id) (codes "rootfs.ext4") in
        let nc = derive_net_config cfg vm.slot in
        let w1 = (prepare_rootfs r cfg.golden_image_path path w).1 in
        let prepared =
          rule_count-Quiet rule (prepare_rootfs-IsQuiet r cfg.golden_image_path path w) in
        elim (Option-cases (prepare_rootfs r cfg.golden_image_path path w).0) [
          | inr (err, e) ↦ rw (e, launch) (omega (arith, prepared))
          | inl e ↦
              rw (e, launch)
                (omega (
                  arith,
                  prepared,
                  IsLeft-le _ _ _ _ (boot_world-IsLeft r cfg nc rule honest vm path w1),
                  booted_keeps vm (boot r cfg vm nc path s w1),
                ))
        ]

    settled_keeps :
        (admitted : Result Vm × Agent Machines)
        → rule_count rule admitted.1.world
          ≤ rule_count rule
              (elim admitted.0 as (λ _. Result Vm × Agent Machines) [
                | failed err ↦ (failed err, admitted.1)
                | done vm ↦
                    settle vm.slot
                      (launch host vm admitted.1.backend admitted.1.world)
                      admitted.1.manager
              ]).1.world
    settled_keeps (failed err, a) = omega arith
    settled_keeps (done vm, a) =
        rw
          (settle-result cfg cpus ram t r rule honest vm.slot (launch host vm a.backend a.world)
            a.manager).1
          (launch_keeps vm a.backend a.world)

    pub create_keeps :
        (req : CreateRequest) (a : Agent Machines)
        → rule_count rule a.world ≤ rule_count rule (create host req a).1.world
    unfolding create
    create_keeps req a =
        omega
          (arith, admit-count cfg cpus ram t r rule honest req a, settled_keeps (admit host req a))

    shut_down_keeps :
        (vm : Vm) (s : Machines) (w : World) (err : Err)
        → (shut_down host vm s w).0 ≡ some err
        → rule_count rule (shut_down host vm s w).2 ≡ rule_count rule w
    unfolding shut_down
    shut_down_keeps vm s w err h = elim (Option-cases (stop r cfg vm s w).0) [
      | inl e ↦ let clash : none ≡ some err = rw (e, shut_down) at h in absurd (cc)
      | inr (cause, e) ↦ rw (e, shut_down) (stop-count cfg cpus ram t r rule honest vm s w)
    ]

    pub destroy_keeps :
        (id : Bytes) (a : Agent Machines) (err : Err)
        → (destroy host id a).0 ≡ some err
        → rule_count rule (destroy host id a).1.world ≡ rule_count rule a.world
    unfolding destroy
    destroy_keeps id a err h = elim (Option-cases (lookup id a.manager.vms)) [
      | inl missing ↦ rw (missing, destroy) refl
      | inr (vm, listed) ↦ elim (Option-cases (shut_down host vm a.backend a.world).0) [
        | inl e ↦ let clash : none ≡ some err = rw (listed, destroy, e) at h in absurd (cc)
        | inr (cause, e) ↦ rw (listed, destroy, e) (shut_down_keeps vm a.backend a.world cause e)
      ]
    ]
