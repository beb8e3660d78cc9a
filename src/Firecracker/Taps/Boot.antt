-- ===== src/Firecracker/Taps/Boot.antt =====
-- internal/vmmanager/firecracker.go: Boot as a whole and its tap device.
use devplat_agent.Base.{◌≡◌, refl, Bool, true, false, ◌∷◌, none, some, inl, inr, arith, Bool-cases}
use devplat_agent.Base.Text.{Bytes}
use devplat_agent.Config.{Config}
use devplat_agent.World.{
  World, Responder, attempt, Result, done, failed, wrapped, create_vm_state_dir, open_pty,
  open_console,
}
use devplat_agent.Network.Derive.{NetConfig}
use devplat_agent.Network.Tap.{Error, setup_tap_device, setup_bandwidth_cap}
use devplat_agent.Network.Firewall.{setup_firewall, teardown_firewall}
use devplat_agent.World.{read_clock, new_machine, start_machine, stop_vmm, cancel, close_pty}
use devplat_agent.Firecracker.{
  setup_network, setup_console, teardown_network, launch_machine, cap_machine, await_guest,
  machine_config, command, run_machine, boot_world,
}
use devplat_agent.Firecracker.Ready.{wait_for_docker_ready}
use devplat_agent.Manager.State.{Vm, Booted}
use devplat_agent.Firecracker.Quiet.{
  setup_bandwidth_cap-IsQuiet, wait_for_docker_ready-IsQuiet, setup_console-IsQuiet,
  cap_machine-IsQuiet,
}
use devplat_agent.Firecracker.Taps.{
  tap_held, FindsTap, tap_held-Quiet, tap_held-setup_firewall, tap_held-teardown_tap_device,
  tap_held-setup_tap_device,
}

-- Whether the tap device stays behind a stage that returned the error: it does where there was none,
-- and where the state directory, the pty or the console log could not be made.
pub error_leaves : Error → Bool
error_leaves none = true
error_leaves (some (wrapped create_vm_state_dir e)) = true
error_leaves (some (wrapped open_pty e)) = true
error_leaves (some (wrapped open_console e)) = true
error_leaves (some err) = false

pub leaves_tap : Result Booted → Bool
leaves_tap (done b) = true
leaves_tap (failed err) = error_leaves (some err)

error_leaves-none : error_leaves none ≡ true
unfolding error_leaves
error_leaves-none = refl

module _ (r : Responder) (cfg : Config) (nc : NetConfig) (finds : FindsTap r nc.tap_name) where
  tap_held-teardown_network :
      (w : World) → tap_held nc.tap_name (teardown_network r cfg nc w).1 ≡ false
  unfolding teardown_network
  tap_held-teardown_network w = tap_held-teardown_tap_device r nc.tap_name nc _ finds

  tap_held-setup_network :
      (w : World)
      → tap_held nc.tap_name w ≡ false
      → tap_held nc.tap_name (setup_network r cfg nc w).1
        ≡ error_leaves (setup_network r cfg nc w).0
  unfolding setup_network error_leaves
  tap_held-setup_network w h =
      let name = nc.tap_name in
      let w1 = (setup_tap_device r nc w).1 in
      let w2 = (setup_firewall r cfg nc w1).1 in
      let w3 = (setup_bandwidth_cap r nc cfg.bandwidth_cap_mbit w2).1 in
      ground (
        arith,
        tap_held-setup_tap_device r name nc w finds h,
        tap_held-setup_firewall r name cfg nc w1,
        tap_held-Quiet name (setup_bandwidth_cap-IsQuiet r nc cfg.bandwidth_cap_mbit w2),
        tap_held-teardown_tap_device r name nc w2 finds,
        tap_held-teardown_tap_device r name nc (teardown_firewall r cfg nc w3).1 finds,
      )

  error_leaves-setup_console :
      (vm : Vm) (w : World) → error_leaves (setup_console r cfg vm w).0 ≡ true
  unfolding setup_console attempt error_leaves
  error_leaves-setup_console vm w = ground arith

  tap_held-launch_machine :
      (vm : Vm) (path : Bytes) (w : World)
      → tap_held nc.tap_name w ≡ true
      → tap_held nc.tap_name (launch_machine r cfg vm nc path w).1
        ≡ error_leaves (launch_machine r cfg vm nc path w).0
  unfolding launch_machine attempt tap_held error_leaves
  tap_held-launch_machine vm path w h =
      elim (Bool-cases (r.ok w (new_machine (machine_config cfg vm nc path) (command cfg vm)))) [
        | inr unconfigured ↦ rw unconfigured (tap_held-teardown_network _)
        | inl configured ↦
            rw configured
              (elim (Bool-cases (
                r.ok
                  (record {
                    call = new_machine (machine_config cfg vm nc path) (command cfg vm);
                    ok = true;
                  }
                    ∷ w)
                  (start_machine vm.id))) [
                    | inr stuck ↦ rw stuck (tap_held-teardown_network _)
                    | inl started ↦ rw started h
                  ])
      ]

  tap_held-wait_for_docker_ready :
      (w : World)
      → tap_held nc.tap_name (wait_for_docker_ready r nc.guest_ip w).1 ≡ tap_held nc.tap_name w
  unfolding wait_for_docker_ready read_clock tap_held
  tap_held-wait_for_docker_ready w =
      tap_held-Quiet nc.tap_name (wait_for_docker_ready-IsQuiet r nc.guest_ip w)

  tap_held-await_guest :
      (vm : Vm) (w : World)
      → tap_held nc.tap_name w ≡ true
      → tap_held nc.tap_name (await_guest r cfg vm nc w).1
        ≡ error_leaves (await_guest r cfg vm nc w).0
  unfolding await_guest error_leaves
  tap_held-await_guest vm w h =
      let w1 = (wait_for_docker_ready r nc.guest_ip w).1 in
      ground (
        arith,
        tap_held-wait_for_docker_ready w,
        tap_held-teardown_network
            (attempt r close_pty (attempt r (cancel vm.id) (attempt r (stop_vmm vm.id) w1).1).1).1,
      )

  tap_held-run_machine :
      (vm : Vm) (path : Bytes) (w : World)
      → tap_held nc.tap_name w ≡ true
      → tap_held nc.tap_name (run_machine r cfg vm nc path w).1
        ≡ leaves_tap (run_machine r cfg vm nc path w).0
  unfolding run_machine leaves_tap error_leaves
  tap_held-run_machine vm path w h =
      let w1 = (launch_machine r cfg vm nc path w).1 in
      let w2 = (cap_machine r cfg vm w1).1 in
      ground (
        arith,
        tap_held-launch_machine vm path w h,
        tap_held-Quiet nc.tap_name (cap_machine-IsQuiet r cfg vm w1),
        tap_held-await_guest vm w2,
      )

  -- If the tap device did not exist before, and one that exists is found by its name and can be
  -- deleted, Boot leaves it at its end exactly where it succeeded or failed at the state directory,
  -- the pty or the console log; after every other failure it does not exist.
  pub tap_held-boot_world :
      (vm : Vm) (path : Bytes) (w : World)
      → tap_held nc.tap_name w ≡ false
      → tap_held nc.tap_name (boot_world r cfg vm nc path w).1
        ≡ leaves_tap (boot_world r cfg vm nc path w).0
  unfolding boot_world leaves_tap
  tap_held-boot_world vm path w h =
      let w1 = (setup_network r cfg nc w).1 in
      ground (
        arith,
        error_leaves-none,
        tap_held-setup_network w h,
        tap_held-Quiet nc.tap_name (setup_console-IsQuiet r cfg vm w1),
        error_leaves-setup_console vm w1,
        tap_held-run_machine vm path (setup_console r cfg vm w1).1,
      )
