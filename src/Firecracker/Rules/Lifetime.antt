-- ===== src/Firecracker/Rules/Lifetime.antt =====
-- internal/vmmanager/manager.go over firecracker.go: the firewall rules over the life of a VM, from
-- Create to Destroy, with the production backend.
use devplat_agent.Base.{
  ℕ, ◌+◌, ◌-◌, ◌≡◌, refl, sym, ap, ◌∙◌, subst, List, none, some, arith, inl, inr, Bool-cases,
  Option-cases,
}
use devplat_agent.Base.Int.{ℤ}
use devplat_agent.Base.Text.{Bytes, codes, text_eq, text_eq_iff}
use devplat_agent.Base.Assoc.{lookup, insert, lookup-insert, bytes_key, int_key}
use devplat_agent.Paths.{join}
use devplat_agent.World.{World, Responder, attempt, Result, done, failed, wrapped, boot_vm, stop_vm}
use devplat_agent.World.Quiet.{IsQuiet, quiet}
use devplat_agent.Config.{Config}
use devplat_agent.Network.Derive.{derive_net_config}
use devplat_agent.Network.Tap.{Error, teardown_tap_device}
use devplat_agent.Network.Firewall.{setup_steps, teardown_firewall}
use devplat_agent.Manager.State.{Vm, Booted, Manager, Agent, Setting, TimeFormat}
use devplat_agent.Manager.Admission.{CreateRequest, admit}
use devplat_agent.Manager.Lifecycle.{
  create, destroy, launch, settle, commit, shut_down, prepare_rootfs, remove_vm_dir, remove_cgroup,
  persist, vm_dir,
}
use devplat_agent.Manager.Growth.{is_done, admitted_at, admit-world}
use devplat_agent.Manager.Outcome.{running, refused, aborted, entered, create-Created}
use devplat_agent.Firecracker.{Machines, firecracker_backend, boot, boot_world, stop, kill_process}
use devplat_agent.Firecracker.Rules.{
  rule_count, copies, IsHonest, rule_count-Quiet, rule_count-teardown_firewall,
  rule_count-teardown_tap_device,
}
use devplat_agent.Firecracker.Rules.Setup.{IsLeft, left, error_of}
use devplat_agent.Firecracker.Rules.Boot.{boot_world-IsLeft}

-- The agent on a host with the production backend.
abbrev pub production : Config → ℤ → ℤ → TimeFormat → Responder → Setting Machines
production cfg cpus ram t r = record {
  config = cfg;
  cpu_total = cpus;
  ram_total_mb = ram;
  time_format = t;
  backend = firecracker_backend r cfg;
  responder = r;
}

module _ (r : Responder) where
  pub prepare_rootfs-IsQuiet : (golden dest : Bytes) → IsQuiet (prepare_rootfs r golden dest)
  unfolding prepare_rootfs text_eq
  prepare_rootfs-IsQuiet golden dest w = grind quiet

  pub remove_vm_dir-IsQuiet : (dir : Bytes) → IsQuiet (remove_vm_dir r dir)
  unfolding remove_vm_dir
  remove_vm_dir-IsQuiet dir w = grind quiet

  remove_cgroup-IsQuiet : (id : Bytes) → IsQuiet (remove_cgroup r id)
  unfolding remove_cgroup attempt
  remove_cgroup-IsQuiet id w = grind quiet

module _ (cfg : Config) (cpus ram : ℤ) (t : TimeFormat) (r : Responder) (rule : List Bytes)
    (honest : IsHonest r) where
  abbrev pub env : Setting Machines
  env = production cfg cpus ram t r

  -- The copies of the rule among those of a slot.
  unfoldable pub share : ℤ → ℕ
  share slot = copies rule (setup_steps cfg (derive_net_config cfg slot))

  pub persist-IsQuiet : (vm : Vm) → IsQuiet (persist env vm)
  unfolding persist
  persist-IsQuiet vm w = grind quiet

  pub stop-count :
      (vm : Vm) (machines : Machines) (w : World)
      → rule_count rule (stop r cfg vm machines w).2 ≡ rule_count rule w
  unfolding stop kill_process attempt rule_count
  stop-count vm machines w = ground arith

  -- What of Create follows the boot.
  booted-count :
      (vm vm' : Vm) (booted : Result Booted × Machines × World)
      → let result = (elim booted.0 as (λ _. Result Vm × Machines × World) [
        | failed err ↦
            let (_, w) = remove_vm_dir env.responder (vm_dir env vm.id) booted.2 in
            (failed (wrapped boot_vm err), booted.1, w)
        | done b ↦
            let (_, w) = persist env (running vm b) booted.2 in (done (running vm b), booted.1, w)
      ]) in
        result.0 ≡ done vm'
        → (rule_count rule result.2 ≡ rule_count rule booted.2)
          × (error_of booted.0 ≡ none)
          × (vm'.slot ≡ vm.slot)
  unfolding error_of
  booted-count vm vm' (failed err, s, w) h = absurd (ground arith)
  booted-count vm vm' (done b, s, w) h =
      (rule_count-Quiet rule (persist-IsQuiet (running vm b) w), refl, ground arith)

  boot-count :
      (vm : Vm) (path : Bytes) (s : Machines) (w : World)
      → let nc = derive_net_config cfg vm.slot in
        error_of (boot r cfg vm nc path s w).0 ≡ none
        → rule_count rule (boot r cfg vm nc path s w).2 ≡ share vm.slot + rule_count rule w
  unfolding boot IsLeft left share
  boot-count vm path s w h =
      let nc = derive_net_config cfg vm.slot in
      subst
        (λ (e : Error).
          IsLeft (left e) (share vm.slot) (rule_count rule w)
            (rule_count rule (boot_world r cfg vm nc path w).1))
        h (boot_world-IsLeft r cfg nc rule honest vm path w)

  launch-count :
      (vm vm' : Vm) (s : Machines) (w : World)
      → (launch env vm s w).0 ≡ done vm'
      → (rule_count rule (launch env vm s w).2 ≡ share vm.slot + rule_count rule w)
        × (vm'.slot ≡ vm.slot)
  unfolding launch
  launch-count vm vm' s w h =
      let path = join (vm_dir env vm.id) (codes "rootfs.ext4") in
      let nc = derive_net_config cfg vm.slot in
      let w1 = (prepare_rootfs r cfg.golden_image_path path w).1 in
      let prepared =
        rule_count-Quiet rule (prepare_rootfs-IsQuiet r cfg.golden_image_path path w) in
      elim (Option-cases (prepare_rootfs r cfg.golden_image_path path w).0) [
        | inr (err, e) ↦ absurd (ground arith)
        | inl e ↦
            let after = booted-count vm vm' (boot r cfg vm nc path s w1) (rw (e, launch) at h) in
            rw (e, launch)
              (
                after.0 ∙ boot-count vm path s w1 after.1 ∙ ap (λ n. share vm.slot + n) prepared,
                after.2,
              )
      ]

  pub settle-result :
      (slot : ℤ) (result : Result Vm × Machines × World) (m : Manager)
      → ((settle slot result m).0 ≡ result.0) × ((settle slot result m).1.world ≡ result.2)
  unfolding settle
  settle-result slot (done vm, s, w) m = (refl, refl)
  settle-result slot (failed err, s, w) m = (refl, refl)

  settled-count :
      (vm' : Vm) (admitted : Result Vm × Agent Machines)
      → let result = (elim admitted.0 as (λ _. Result Vm × Agent Machines) [
        | failed err ↦ (failed err, admitted.1)
        | done vm ↦
            settle vm.slot (launch env vm admitted.1.backend admitted.1.world) admitted.1.manager
      ]) in
        result.0 ≡ done vm'
        → rule_count rule result.1.world ≡ share vm'.slot + rule_count rule admitted.1.world
  settled-count vm' (failed err, a) h = absurd (ground arith)
  settled-count vm' (done vm, a) h =
      let (same, world) = settle-result vm.slot (launch env vm a.backend a.world) a.manager in
      let (count, slot) = launch-count vm vm' a.backend a.world (sym same ∙ h) in
      rw (world, slot) count

  pub admit-count :
      (req : CreateRequest) (a : Agent Machines)
      → rule_count rule (admit env req a).1.world ≡ rule_count rule a.world
  unfolding admitted_at rule_count
  admit-count req a =
      let at = admit-world env req a in
      elim (Bool-cases (is_done (admit env req a).0)) [
        | inl ok ↦ ap (rule_count rule) (at ∙ ap (admitted_at env a) ok)
        | inr bad ↦ ap (rule_count rule) (at ∙ ap (admitted_at env a) bad)
      ]

  pub create-count :
      (req : CreateRequest) (a : Agent Machines) (vm : Vm)
      → (create env req a).0 ≡ done vm
      → rule_count rule (create env req a).1.world ≡ share vm.slot + rule_count rule a.world
  unfolding create
  create-count req a vm h =
      settled-count vm (admit env req a) h ∙ ap (λ n. share vm.slot + n) (admit-count req a)

  create-listed :
      (req : CreateRequest) (a : Agent Machines) (vm : Vm)
      → (create env req a).0 ≡ done vm
      → lookup vm.id (create env req a).1.manager.vms ≡ some vm
  unfolding commit
  create-listed req a vm h = elim (create-Created env req a) [
    | refused err e ↦ absurd (ground arith)
    | aborted wm err s w own e ↦ absurd (ground arith)
    | entered wm b s w own e ↦
        let same : running wm b ≡ vm = ground arith in
        rw e (
          subst (λ (x : Vm). lookup x.id (insert wm.id (running wm b) a.manager.vms) ≡ some x) same
            (ground (
              arith,
              lookup-insert wm.id wm.id (running wm b) a.manager.vms,
              text_eq_iff wm.id wm.id,
            )))
  ]

  stopped-count :
      (vm : Vm) (stopped : Error × Machines × World)
      → let result = (elim stopped.0 as (λ _. Error × Machines × World) [
        | some err ↦ (some (wrapped stop_vm err), stopped.1, stopped.2)
        | none ↦
            let nc = derive_net_config cfg vm.slot in
            let (_, w2) = teardown_firewall r cfg nc stopped.2 in
            let (_, w3) = teardown_tap_device r nc w2 in
            let (_, w4) = remove_cgroup r vm.id w3 in
            let (_, w5) = remove_vm_dir r (vm_dir env vm.id) w4 in (none, stopped.1, w5)
      ]) in
        result.0 ≡ none → rule_count rule result.2 ≡ rule_count rule stopped.2 - share vm.slot
  unfolding share
  stopped-count vm (some err, s, w) h = absurd (ground arith)
  stopped-count vm (none, s, w) h =
      let nc = derive_net_config cfg vm.slot in
      rule_count-Quiet rule (remove_vm_dir-IsQuiet r (vm_dir env vm.id) _)
      ∙ rule_count-Quiet rule (remove_cgroup-IsQuiet r vm.id _)
      ∙ rule_count-teardown_tap_device r honest rule nc _
      ∙ rule_count-teardown_firewall r honest rule cfg nc w

  shut_down-count :
      (vm : Vm) (s : Machines) (w : World)
      → (shut_down env vm s w).0 ≡ none
      → rule_count rule (shut_down env vm s w).2 ≡ rule_count rule w - share vm.slot
  unfolding shut_down
  shut_down-count vm s w h =
      stopped-count vm (stop r cfg vm s w) h ∙ ap (λ n. n - share vm.slot) (stop-count vm s w)

  pub destroy-count :
      (id : Bytes) (a : Agent Machines) (vm : Vm)
      → lookup id a.manager.vms ≡ some vm
      → (destroy env id a).0 ≡ none
      → rule_count rule (destroy env id a).1.world ≡ rule_count rule a.world - share vm.slot
  unfolding destroy
  destroy-count id a vm listed h = elim (Option-cases (shut_down env vm a.backend a.world).0) [
    | inl e ↦ rw (listed, destroy, e) (shut_down-count vm a.backend a.world e)
    | inr (err, e) ↦ let clash : some err ≡ none = rw (listed, destroy, e) at h in absurd (cc)
  ]

  -- With the production backend, and where deleting a firewall rule that is in force succeeds, a
  -- Create that gave a VM and a Destroy of that VM that succeeded leave as many copies of every
  -- firewall rule in force as there were before, whatever else fails.
  pub lifetime_restores_rules :
      (req : CreateRequest) (a : Agent Machines) (vm : Vm)
      → (create env req a).0 ≡ done vm
      → (destroy env vm.id (create env req a).1).0 ≡ none
      → rule_count rule (destroy env vm.id (create env req a).1).1.world ≡ rule_count rule a.world
  lifetime_restores_rules req a vm h d = omega (
    arith,
    destroy-count vm.id (create env req a).1 vm (create-listed req a vm h) d,
    create-count req a vm h,
  )
