-- ===== src/Firecracker/Quiet.antt =====
-- internal/vmmanager/firecracker.go, network.go and cgroup.go: the parts of a Boot that leave the tap
-- device, the firewall and the machines alone.
use devplat_agent.Base.{ℕ, zero, suc, refl, List, [], ◌∷◌, none, some}
use devplat_agent.Base.Int.{ℤ}
use devplat_agent.Base.Text.{Bytes, codes, text_eq}
use devplat_agent.World.{
  World, Responder, attempt, read_clock, write_text, stat, mkdir_all, machine_pid, dial, sleep,
}
use devplat_agent.World.Quiet.{
  still, Quiet-trans, Quiet-below, IsQuiet, IsApart, IsApart-IsQuiet, quiet,
}
use devplat_agent.Config.{Config}
use devplat_agent.Network.Address.{Ipv4}
use devplat_agent.Network.Derive.{NetConfig}
use devplat_agent.Network.Tap.{Error, setup_bandwidth_cap, run_cmd}
use devplat_agent.Paths.{join}
use devplat_agent.Manager.Lifecycle.{cgroup_root}
use devplat_agent.Manager.State.{Vm}
use devplat_agent.Cgroup.{
  enable_controllers, enable_dirs, ensure_parent_controllers, leaf_unless, check_controllers,
  write_limits, prepare_leaf, cgroup_mount, create_cgroup, add_process_to_cgroup,
}
use devplat_agent.Firecracker.{setup_console, cap_machine}
use devplat_agent.Firecracker.Ready.{poll_ms, ready_loop, wait_for_docker_ready}

module _ (r : Responder) where
  pub setup_bandwidth_cap-IsApart :
      (nc : NetConfig) (mbit : ℤ) → IsApart (setup_bandwidth_cap r nc mbit)
  unfolding setup_bandwidth_cap run_cmd text_eq
  setup_bandwidth_cap-IsApart nc mbit w = grind quiet

  ready_loop-IsApart :
      (fuel : ℕ) (addr : Bytes) (deadline : ℕ) → IsApart (ready_loop r fuel addr deadline)
  unfolding ready_loop attempt read_clock
  ready_loop-IsApart zero addr deadline w = still
  ready_loop-IsApart (suc fuel) addr deadline w =
      let w2 : World = (read_clock r (attempt r (dial addr) w).1).1 in
      grind (
        quiet,
        Quiet-below refl (
            Quiet-below refl (
              Quiet-below refl
                (ready_loop-IsApart fuel addr deadline (attempt r (sleep poll_ms) w2).1))),
      )

  pub wait_for_docker_ready-IsApart : (ip : Ipv4) → IsApart (wait_for_docker_ready r ip)
  unfolding wait_for_docker_ready read_clock
  wait_for_docker_ready-IsApart ip w = Quiet-below refl (ready_loop-IsApart 152 _ _ _)

  enable_controllers-IsApart :
      (path : Bytes) (controllers : List Bytes) → IsApart (enable_controllers r path controllers)
  unfolding enable_controllers attempt
  enable_controllers-IsApart path [] w = still
  enable_controllers-IsApart path (c ∷ controllers) w = grind (
    quiet,
    Quiet-below refl
        (enable_controllers-IsApart path controllers (attempt r (write_text path c) w).1),
  )

  enable_dirs-IsApart : (dirs : List Bytes) → IsApart (enable_dirs r dirs)
  unfolding enable_dirs
  enable_dirs-IsApart [] w = still
  enable_dirs-IsApart (dir ∷ dirs) w =
      let path = join dir (codes "cgroup.subtree_control") in
      let both = codes "+cpu" ∷ codes "+memory" ∷ [] in
      grind (quiet, enable_controllers-IsApart path both w, enable_dirs-IsApart dirs)

  ensure_parent_controllers-IsApart : IsApart (ensure_parent_controllers r)
  unfolding ensure_parent_controllers attempt
  ensure_parent_controllers-IsApart w = grind (
    quiet,
    Quiet-below refl (
        Quiet-below refl (
          enable_dirs-IsApart (cgroup_mount ∷ cgroup_root ∷ [])
            (attempt r (mkdir_all cgroup_root)
              (attempt r (stat (join cgroup_mount (codes "cgroup.controllers"))) w).1).1)),
  )

  leaf_unless-IsApart :
      (e : Error) (path : Bytes) (vcpus ram_mb : ℤ) → IsApart (leaf_unless r e path vcpus ram_mb)
  unfolding leaf_unless prepare_leaf check_controllers write_limits attempt
  leaf_unless-IsApart none path vcpus ram_mb w = grind quiet
  leaf_unless-IsApart (some err) path vcpus ram_mb w = still

  create_cgroup-IsApart :
      (id : Bytes) (vcpus ram_mb : ℤ) → IsApart (create_cgroup r id vcpus ram_mb)
  unfolding create_cgroup
  create_cgroup-IsApart id vcpus ram_mb w =
      Quiet-trans (ensure_parent_controllers-IsApart w) (leaf_unless-IsApart _ _ vcpus ram_mb _)

module _ (r : Responder) (cfg : Config) where
  pub setup_console-IsApart : (vm : Vm) → IsApart (setup_console r cfg vm)
  unfolding setup_console attempt
  setup_console-IsApart vm w = grind quiet

  pub cap_machine-IsApart : (vm : Vm) → IsApart (cap_machine r cfg vm)
  unfolding cap_machine add_process_to_cgroup attempt
  cap_machine-IsApart vm w = grind (
    quiet,
    Quiet-below refl
        (create_cgroup-IsApart r vm.id vm.vcpu vm.ram_mb (attempt r (machine_pid vm.id) w).1),
  )

  pub setup_console-IsQuiet : (vm : Vm) → IsQuiet (setup_console r cfg vm)
  setup_console-IsQuiet vm = IsApart-IsQuiet (setup_console r cfg vm) (setup_console-IsApart vm)

  pub cap_machine-IsQuiet : (vm : Vm) → IsQuiet (cap_machine r cfg vm)
  cap_machine-IsQuiet vm = IsApart-IsQuiet (cap_machine r cfg vm) (cap_machine-IsApart vm)

module _ (r : Responder) where
  pub setup_bandwidth_cap-IsQuiet :
      (nc : NetConfig) (mbit : ℤ) → IsQuiet (setup_bandwidth_cap r nc mbit)
  setup_bandwidth_cap-IsQuiet nc mbit =
      IsApart-IsQuiet (setup_bandwidth_cap r nc mbit) (setup_bandwidth_cap-IsApart r nc mbit)

  pub wait_for_docker_ready-IsQuiet : (ip : Ipv4) → IsQuiet (wait_for_docker_ready r ip)
  wait_for_docker_ready-IsQuiet ip =
      IsApart-IsQuiet (wait_for_docker_ready r ip) (wait_for_docker_ready-IsApart r ip)
