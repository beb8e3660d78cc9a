-- ===== src/Samples/BootExamples.antt =====
-- Boots on the sample host.
use devplat_agent.Base.{Bool, ◌≡◌, refl, ◌∷◌, ◌++◌, [], arith, ◌*◌, ◌+◌}
use devplat_agent.Base.Int.{pos}
use devplat_agent.Base.Text.{codes, itoa}
use devplat_agent.World.{World, Call, attempt, read_clock}
use devplat_agent.Network.Address.{dotted}
use devplat_agent.Network.Derive.{derive_net_config}
use devplat_agent.Paths.{join}
use devplat_agent.Manager.Lifecycle.{cgroup_root}
use devplat_agent.Cgroup.{
  create_cgroup, ensure_parent_controllers, enable_dirs, enable_controllers, leaf_unless,
  prepare_leaf, check_controllers, contains_text, write_limits,
}
use devplat_agent.Cgroup.Limits.{written, create_cgroup-limits}
use devplat_agent.Firecracker.{
  boot_world, setup_network, setup_console, launch_machine, run_machine, cap_machine, await_guest,
  host_public_ip, split_host,
}
use devplat_agent.Base.Words.{add64}
use devplat_agent.Cgroup.{add_process_to_cgroup}
use devplat_agent.Network.Tap.{setup_tap_device, run_cmd, setup_bandwidth_cap}
use devplat_agent.Network.Firewall.{setup_firewall, apply_steps, setup_steps}
use devplat_agent.Firecracker.Ready.{ready_loop, loop_error, timeout_nanos, wait_for_docker_ready}
use devplat_agent.Firecracker.Ready.Ends.{KeepsTime, Ends, done_event, wait_for_docker_ready-Ends}
use devplat_agent.Firecracker.Taps.{tap_held}
use devplat_agent.Firecracker.Taps.Boot.{leaves_tap, tap_held-boot_world}
use devplat_agent.Base.{if◌then◌else◌, some, none, false}
use devplat_agent.Base.Text.{text_eq}
use devplat_agent.Base.Assoc.{lookup, bytes_key}
use devplat_agent.World.{Responder}
use devplat_agent.Firecracker.{boot, stop}
use devplat_agent.Firecracker.Handles.{StopOutcome, stop-StopOutcome}
use devplat_agent.Firecracker.Live.{
  IsTracked, as_before, boots, stops, Handles-IsTracked, machine_runs,
}
use devplat_agent.Firecracker.Wiring.{Wired, boot_world-Wired}
use devplat_agent.Samples.{config, willing, silent, first_vm}

tap_held-boot_world_example :
    let nc = derive_net_config config (pos 0) in
    tap_held nc.tap_name (boot_world silent config first_vm nc (codes "/rootfs.ext4") []).1
    ≡ leaves_tap (boot_world silent config first_vm nc (codes "/rootfs.ext4") []).0
tap_held-boot_world_example =
    tap_held-boot_world silent config (derive_net_config config (pos 0)) (λ w h. (refl, refl))
      first_vm (codes "/rootfs.ext4") [] (unfold tap_held in refl)

silent-KeepsTime : KeepsTime silent
silent-KeepsTime = record { forward = λ w e. omega arith; sleeps = λ w e. omega arith }

willing-KeepsTime : KeepsTime willing
willing-KeepsTime = record { forward = λ w e. omega arith; sleeps = λ w e. omega arith }

wait_for_docker_ready-Ends_example :
    let guest_ip = (derive_net_config config (pos 0)).guest_ip in
    let addr = dotted guest_ip ++ codes ":2375" in
    Ends addr
      (ready_loop silent 152 addr (silent.clock [] + timeout_nanos) (done_event Call.now ∷ []))
wait_for_docker_ready-Ends_example =
    wait_for_docker_ready-Ends silent silent-KeepsTime (derive_net_config config (pos 0)).guest_ip
      []

create_cgroup-limits_example :
    (older : World) × ((create_cgroup willing (codes "vm_1") (pos 2) (pos 2048) []).1
      ≡ written
          (join (join cgroup_root (codes "vm_1")) (codes "memory.max"))
          (itoa (pos (2048 * 1024 * 1024)))
        ∷ written
            (join (join cgroup_root (codes "vm_1")) (codes "cpu.max"))
            (itoa (pos (2 * 100000)) ++ codes " 100000")
        ∷ older)
create_cgroup-limits_example =
    create_cgroup-limits willing (codes "vm_1") 2 2048 [] (omega arith) (omega arith) (
      unfold create_cgroup ensure_parent_controllers enable_dirs enable_controllers leaf_unless
        prepare_leaf check_controllers contains_text devplat_agent.Base.Text.has_prefix write_limits
        attempt in
      refl)

-- Every call fails.
abbrev refusing : Responder
refusing = record willing { ok = λ w c. false }

stop-StopOutcome_example :
    StopOutcome refusing config first_vm [] [] (stop refusing config first_vm [] [])
stop-StopOutcome_example = stop-StopOutcome refusing config first_vm [] []

no_machine-IsTracked : IsTracked [] []
unfolding machine_runs lookup
no_machine-IsTracked = record { runs = λ id. refl; named = λ id live h. absurd (cc) }

-- A Boot and the Stop of its VM.
Handles-IsTracked_example :
    let nc = derive_net_config config (pos 0) in
    let path = codes "/rootfs.ext4" in
    let up = boot willing config first_vm nc path [] [] in
    IsTracked (stop willing config first_vm up.1 up.2).1 (stop willing config first_vm up.1 up.2).2
Handles-IsTracked_example =
    let nc = derive_net_config config (pos 0) in
    let path = codes "/rootfs.ext4" in
    let up = boot willing config first_vm nc path [] [] in
    Handles-IsTracked willing config [] [] (stop willing config first_vm up.1 up.2).1
      (stop willing config first_vm up.1 up.2).2 no_machine-IsTracked
      (stops first_vm (boots first_vm nc path as_before (unfold lookup in refl)))

boot_world-Wired_example :
    let nc = derive_net_config config (pos 0) in
    let path = codes "/rootfs.ext4" in
    Wired willing config first_vm nc path []
      (record { docker_endpoint = codes "203.0.113.7:42000"; pid = pos 4711 })
      (boot_world willing config first_vm nc path []).1
boot_world-Wired_example =
    boot_world-Wired willing config first_vm (derive_net_config config (pos 0))
      (codes "/rootfs.ext4") []
      (record { docker_endpoint = codes "203.0.113.7:42000"; pid = pos 4711 })
      (unfold boot_world setup_network setup_tap_device setup_firewall run_cmd apply_steps
          setup_steps setup_bandwidth_cap setup_console launch_machine run_machine cap_machine
          create_cgroup ensure_parent_controllers enable_dirs enable_controllers leaf_unless
          prepare_leaf check_controllers contains_text devplat_agent.Base.Text.has_prefix
          write_limits add_process_to_cgroup await_guest wait_for_docker_ready ready_loop loop_error
          attempt read_clock host_public_ip split_host derive_net_config add64 itoa in
        refl)

split_host_plain : split_host (codes "10.8.0.2:7777") ≡ some (codes "10.8.0.2")
unfolding split_host
split_host_plain = refl

split_host_brackets : split_host (codes "[fd00::2]:7777") ≡ some (codes "fd00::2")
unfolding split_host
split_host_brackets = refl

split_host_colons : split_host (codes "fd00::2:7777") ≡ none
unfolding split_host
split_host_colons = refl
