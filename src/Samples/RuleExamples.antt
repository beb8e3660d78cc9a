-- ===== src/Samples/RuleExamples.antt =====
-- The firewall rules over a boot, and over the life of a VM, on the sample host.
use devplat_agent.Base.{List, ◌≡◌, refl, [], ◌∷◌, none}
use devplat_agent.Base.Int.{pos}
use devplat_agent.Base.Text.{Bytes, codes}
use devplat_agent.World.{Result, done, failed}
use devplat_agent.Manager.State.{Vm, Agent, Setting}
use devplat_agent.Firecracker.{Machines}
use devplat_agent.Firecracker.Rules.{IsHonest, rule_count, copies}
use devplat_agent.Firecracker.Rules.Setup.{left, error_of, IsLeft}
use devplat_agent.Firecracker.Rules.Boot.{boot_world-IsLeft}
use devplat_agent.Firecracker.Rules.Lifetime.{production, lifetime_restores_rules}
use devplat_agent.Base.{some, arith}
use devplat_agent.Base.Assoc.{bytes_key}
use devplat_agent.Manager.Runs.{Op, create_vm, perform, run_ops}
use devplat_agent.Firecracker.Rules.InForce.{HasRules, Guarded, listed-Guarded}
use devplat_agent.Samples.{small, time_format, config, willing, first_vm}
use devplat_agent.Manager.Admission.{
  admit, over_budget, capacity_cpu, used_cpu, capacity_ram_mb, used_ram_mb, free_slot,
  free_slot_from, reserve, new_vm, sum_from, ttl_of, vm_id,
}
use devplat_agent.Base.Words.{add64, sub64, mul64, to_u32, wrap64}
use devplat_agent.Base.Assoc.{lookup, insert, delete}
use devplat_agent.Base.Text.{itoa, text_eq, has_prefix}
use devplat_agent.Base.Int.{◌*ℤ◌, ◌+ℤ◌, ◌-ℤ◌}
use devplat_agent.Manager.Lifecycle.{
  create, destroy, launch, settle, shut_down, prepare_rootfs, commit, forget, persist,
  remove_cgroup, remove_vm_dir,
}
use devplat_agent.Network.Derive.{derive_net_config}
use devplat_agent.Network.Tap.{setup_tap_device, run_cmd, setup_bandwidth_cap, teardown_tap_device}
use devplat_agent.Network.Firewall.{
  setup_firewall, apply_steps, setup_steps, remove_steps, teardown_firewall, teardown_steps,
}
use devplat_agent.Cgroup.{
  create_cgroup, ensure_parent_controllers, enable_dirs, enable_controllers, leaf_unless,
  prepare_leaf, check_controllers, contains_text, write_limits, add_process_to_cgroup,
}
use devplat_agent.Firecracker.{
  boot, boot_world, setup_network, setup_console, launch_machine, run_machine, cap_machine,
  await_guest, stop,
}
use devplat_agent.Firecracker.Ready.{wait_for_docker_ready, ready_loop, loop_error}
use devplat_agent.World.{attempt, read_clock}

willing-IsHonest : IsHonest willing
willing-IsHonest = λ w args deletes there. refl

-- The rule that lets the answers of the first slot's guest out.
abbrev rule : List Bytes
rule =
    codes "-D" ∷ codes "FORWARD" ∷ codes "-i" ∷ codes "fc-tap-0" ∷ codes "-j" ∷ codes "ACCEPT" ∷ []

boot_world-IsLeft_example :
    let nc = derive_net_config config (pos 0) in
    let path = codes "/rootfs.ext4" in
    IsLeft
      (left (error_of (boot_world willing config first_vm nc path []).0))
      (copies rule (setup_steps config nc))
      (rule_count rule [])
      (rule_count rule (boot_world willing config first_vm nc path []).1)
boot_world-IsLeft_example =
    boot_world-IsLeft willing config (derive_net_config config (pos 0)) rule willing-IsHonest
      first_vm (codes "/rootfs.ext4") []

abbrev production_host : Setting Machines
production_host = production config (pos 4) (pos 8192) time_format willing

abbrev idle : Agent Machines
idle = record { manager = record { vms = []; slots = [] }; backend = []; world = [] }

abbrev vm_of : Result Vm → Vm
vm_of (done vm) = vm
vm_of (failed err) = first_vm

abbrev made : Vm
made = vm_of (create production_host small idle).0

create-made : (create production_host small idle).0 ≡ done made
unfolding admit over_budget capacity_cpu used_cpu capacity_ram_mb used_ram_mb free_slot
    free_slot_from reserve new_vm sum_from ttl_of vm_id add64 sub64 mul64 to_u32 wrap64 lookup
    insert delete itoa text_eq has_prefix ◌*ℤ◌ ◌+ℤ◌ ◌-ℤ◌ create destroy launch settle shut_down
    prepare_rootfs commit forget persist remove_cgroup remove_vm_dir derive_net_config
    setup_tap_device run_cmd setup_bandwidth_cap teardown_tap_device setup_firewall apply_steps
    setup_steps remove_steps teardown_firewall teardown_steps create_cgroup
    ensure_parent_controllers enable_dirs enable_controllers leaf_unless prepare_leaf
    check_controllers contains_text write_limits add_process_to_cgroup boot boot_world setup_network
    setup_console launch_machine run_machine cap_machine await_guest stop wait_for_docker_ready
    ready_loop loop_error attempt read_clock
create-made = refl

destroy-made : (destroy production_host made.id (create production_host small idle).1).0 ≡ none
unfolding admit over_budget capacity_cpu used_cpu capacity_ram_mb used_ram_mb free_slot
    free_slot_from reserve new_vm sum_from ttl_of vm_id add64 sub64 mul64 to_u32 wrap64 lookup
    insert delete itoa text_eq has_prefix ◌*ℤ◌ ◌+ℤ◌ ◌-ℤ◌ create destroy launch settle shut_down
    prepare_rootfs commit forget persist remove_cgroup remove_vm_dir derive_net_config
    setup_tap_device run_cmd setup_bandwidth_cap teardown_tap_device setup_firewall apply_steps
    setup_steps remove_steps teardown_firewall teardown_steps create_cgroup
    ensure_parent_controllers enable_dirs enable_controllers leaf_unless prepare_leaf
    check_controllers contains_text write_limits add_process_to_cgroup boot boot_world setup_network
    setup_console launch_machine run_machine cap_machine await_guest stop wait_for_docker_ready
    ready_loop loop_error attempt read_clock
destroy-made = refl

lifetime_restores_rules_example :
    rule_count rule (destroy production_host made.id (create production_host small idle).1).1.world
    ≡ rule_count rule []
lifetime_restores_rules_example =
    lifetime_restores_rules config (pos 4) (pos 8192) time_format willing rule willing-IsHonest
      small idle made create-made destroy-made

abbrev make : List Op
make = create_vm small ∷ []

idle-HasRules : HasRules config (pos 4) (pos 8192) time_format willing willing-IsHonest idle
idle-HasRules rule = omega arith

made-listed : lookup made.id (run_ops production_host make idle).1.manager.vms ≡ some made
unfolding run_ops perform admit over_budget capacity_cpu used_cpu capacity_ram_mb used_ram_mb
    free_slot free_slot_from reserve new_vm sum_from ttl_of vm_id add64 sub64 mul64 to_u32 wrap64
    lookup insert delete itoa text_eq has_prefix ◌*ℤ◌ ◌+ℤ◌ ◌-ℤ◌ create destroy launch settle
    shut_down prepare_rootfs commit forget persist remove_cgroup remove_vm_dir derive_net_config
    setup_tap_device run_cmd setup_bandwidth_cap teardown_tap_device setup_firewall apply_steps
    setup_steps remove_steps teardown_firewall teardown_steps create_cgroup
    ensure_parent_controllers enable_dirs enable_controllers leaf_unless prepare_leaf
    check_controllers contains_text write_limits add_process_to_cgroup boot boot_world setup_network
    setup_console launch_machine run_machine cap_machine await_guest stop wait_for_docker_ready
    ready_loop loop_error attempt read_clock
made-listed = refl

listed-Guarded_example :
    Guarded config
      (pos 4)
      (pos 8192)
      time_format
      willing
      willing-IsHonest
      made
      (run_ops production_host make idle).1.world
listed-Guarded_example =
    listed-Guarded config (pos 4) (pos 8192) time_format willing willing-IsHonest make idle made.id
      made idle-HasRules made-listed
