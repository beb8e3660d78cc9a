-- ===== src/Firecracker/Growth.antt =====
-- internal/vmmanager/firecracker.go, network.go and cgroup.go: Boot and Stop only add to the run.
use devplat_agent.Base.{List, [], ◌∷◌, none}
use devplat_agent.Base.Text.{Bytes, codes}
use devplat_agent.Base.Assoc.{bytes_key}
use devplat_agent.World.{World, Responder, attempt}
use devplat_agent.World.Growth.{Later, same, Later-trans, Later-below, Grows, growth}
use devplat_agent.World.Quiet.{Quiet-Later}
use devplat_agent.Firecracker.Quiet.{
  setup_bandwidth_cap-IsQuiet, wait_for_docker_ready-IsQuiet, setup_console-IsQuiet,
  cap_machine-IsQuiet,
}
use devplat_agent.Config.{Config}
use devplat_agent.Network.Derive.{NetConfig}
use devplat_agent.Network.Tap.{Error, setup_tap_device, teardown_tap_device, run_cmd}
use devplat_agent.Network.Firewall.{
  setup_firewall, teardown_firewall, setup_steps, teardown_steps, apply_steps, remove_steps,
}
use devplat_agent.Manager.State.{Vm}
use devplat_agent.Firecracker.{
  Machines, setup_network, teardown_network, launch_machine, await_guest, run_machine, boot_world,
  boot, stop, kill_process, machine_config, command,
}
use devplat_agent.World.{new_machine, start_machine, cancel, close_tty, close_pty, stop_vmm}
use devplat_agent.Firecracker.Ready.{wait_for_docker_ready}

module _ (r : Responder) where
  setup_tap_device-Grows : (nc : NetConfig) → Grows (setup_tap_device r nc)
  unfolding setup_tap_device
  setup_tap_device-Grows nc w = grind growth

  pub teardown_tap_device-Grows : (nc : NetConfig) → Grows (teardown_tap_device r nc)
  unfolding teardown_tap_device
  teardown_tap_device-Grows nc w = grind growth

  run_cmd-Grows : (name : Bytes) (args : List Bytes) → Grows (run_cmd r name args)
  unfolding run_cmd
  run_cmd-Grows name args w = grind growth

  apply_steps-Grows : (steps : List (List Bytes)) → Grows (apply_steps r steps)
  unfolding apply_steps
  apply_steps-Grows [] w = same
  apply_steps-Grows (args ∷ steps) w =
      grind (growth, run_cmd-Grows (codes "iptables") args w, apply_steps-Grows steps)

  setup_firewall-Grows : (cfg : Config) (nc : NetConfig) → Grows (setup_firewall r cfg nc)
  unfolding setup_firewall run_cmd attempt
  setup_firewall-Grows cfg nc w = grind (
    growth,
    Later-below (
        apply_steps-Grows (setup_steps cfg nc)
          (run_cmd r (codes "sysctl") (codes "-w" ∷ codes "net.ipv4.ip_forward=1" ∷ []) w).1),
  )

  remove_steps-Grows : (steps : List (List Bytes)) (e : Error) → Grows (remove_steps r steps e)
  unfolding remove_steps
  remove_steps-Grows [] e w = same
  remove_steps-Grows (args ∷ steps) e w =
      Later-trans (run_cmd-Grows (codes "iptables") args w) (remove_steps-Grows steps _ _)

  pub teardown_firewall-Grows : (cfg : Config) (nc : NetConfig) → Grows (teardown_firewall r cfg nc)
  unfolding teardown_firewall
  teardown_firewall-Grows cfg nc w = remove_steps-Grows (teardown_steps cfg nc) none w

module _ (r : Responder) (cfg : Config) where
  setup_network-Grows : (nc : NetConfig) → Grows (setup_network r cfg nc)
  unfolding setup_network
  setup_network-Grows nc w = grind (
    growth,
    setup_tap_device-Grows r nc w,
    setup_firewall-Grows r cfg nc,
    λ (v : World). Quiet-Later (setup_bandwidth_cap-IsQuiet r nc cfg.bandwidth_cap_mbit v),
    teardown_tap_device-Grows r nc,
    teardown_firewall-Grows r cfg nc,
  )

  teardown_network-Grows : (nc : NetConfig) → Grows (teardown_network r cfg nc)
  unfolding teardown_network
  teardown_network-Grows nc w =
      Later-trans (teardown_firewall-Grows r cfg nc w) (teardown_tap_device-Grows r nc _)

  launch_machine-Grows :
      (vm : Vm) (nc : NetConfig) (path : Bytes) → Grows (launch_machine r cfg vm nc path)
  unfolding launch_machine attempt
  launch_machine-Grows vm nc path w =
      let new = new_machine (machine_config cfg vm nc path) (command cfg vm) in
      let w1 : World = (attempt r new w).1 in
      let w2 : World = (attempt r (start_machine vm.id) w1).1 in
      grind (
        growth,
        Later-below (
            Later-below (
              Later-below (
                Later-below (
                  teardown_network-Grows nc
                    (attempt r close_pty
                      (attempt r close_tty (attempt r (cancel vm.id) w1).1).1).1)))),
        Later-below (
            Later-below (
              Later-below (
                Later-below (
                  Later-below (
                    teardown_network-Grows nc
                      (attempt r close_pty
                        (attempt r close_tty (attempt r (cancel vm.id) w2).1).1).1))))),
      )

  await_guest-Grows : (vm : Vm) (nc : NetConfig) → Grows (await_guest r cfg vm nc)
  unfolding await_guest attempt
  await_guest-Grows vm nc w =
      let w1 = (wait_for_docker_ready r nc.guest_ip w).1 in
      grind (
        growth,
        Quiet-Later (wait_for_docker_ready-IsQuiet r nc.guest_ip w),
        Later-below (
            Later-below (
              Later-below (
                teardown_network-Grows nc
                  (attempt r close_pty
                    (attempt r (cancel vm.id) (attempt r (stop_vmm vm.id) w1).1).1).1))),
      )

  run_machine-Grows :
      (vm : Vm) (nc : NetConfig) (path : Bytes) → Grows (run_machine r cfg vm nc path)
  unfolding run_machine
  run_machine-Grows vm nc path w = grind (
    growth,
    launch_machine-Grows vm nc path w,
    λ (v : World). Quiet-Later (cap_machine-IsQuiet r cfg vm v),
    await_guest-Grows vm nc,
  )

  boot_world-Grows : (vm : Vm) (nc : NetConfig) (path : Bytes) → Grows (boot_world r cfg vm nc path)
  unfolding boot_world
  boot_world-Grows vm nc path w = grind (
    growth,
    setup_network-Grows nc w,
    λ (v : World). Quiet-Later (setup_console-IsQuiet r cfg vm v),
    run_machine-Grows vm nc path,
  )

  pub boot-Later :
      (vm : Vm) (nc : NetConfig) (path : Bytes) (machines : Machines) (w : World)
      → Later w (boot r cfg vm nc path machines w).2
  unfolding boot
  boot-Later vm nc path machines w = boot_world-Grows vm nc path w

  pub stop-Later :
      (vm : Vm) (machines : Machines) (w : World) → Later w (stop r cfg vm machines w).2
  unfolding stop kill_process attempt
  stop-Later vm machines w = grind growth
