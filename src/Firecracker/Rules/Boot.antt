-- ===== src/Firecracker/Rules/Boot.antt =====
-- internal/vmmanager/firecracker.go: the firewall rules that a Boot leaves.
use devplat_agent.Base.{
  ℕ, ◌-◌, ◌≡◌, refl, ap, ◌∙◌, subst, true, List, ◌∷◌, none, some, arith, inl, inr, Bool-cases,
  Option-cases,
}
use devplat_agent.Base.Text.{Bytes}
use devplat_agent.World.{World, Responder, attempt, Err, new_machine, start_machine}
use devplat_agent.Config.{Config}
use devplat_agent.Network.Derive.{NetConfig}
use devplat_agent.Network.Tap.{Error}
use devplat_agent.Network.Firewall.{teardown_firewall, setup_steps}
use devplat_agent.Manager.State.{Vm}
use devplat_agent.Firecracker.{
  setup_network, setup_console, teardown_network, launch_machine, cap_machine, await_guest,
  run_machine, boot_world, machine_config, command,
}
use devplat_agent.Firecracker.Ready.{wait_for_docker_ready}
use devplat_agent.Firecracker.Quiet.{
  wait_for_docker_ready-IsQuiet, setup_console-IsQuiet, cap_machine-IsQuiet,
}
use devplat_agent.Firecracker.Rules.{
  rule_count, copies, IsHonest, rule_count-Quiet, rule_count-teardown_firewall,
  rule_count-teardown_tap_device,
}
use devplat_agent.Firecracker.Rules.Setup.{
  all_left, none_left, left, error_of, IsLeft, own, setup_network-IsLeft,
}

module _ (r : Responder) (cfg : Config) (nc : NetConfig) (rule : List Bytes)
    (honest : IsHonest r) where
  rule_count-teardown_network :
      (w : World)
      → rule_count rule (teardown_network r cfg nc w).1
        ≡ rule_count rule w - (own r cfg nc rule honest)
  unfolding teardown_network
  rule_count-teardown_network w =
      rule_count-teardown_tap_device r honest rule nc (teardown_firewall r cfg nc w).1
      ∙ rule_count-teardown_firewall r honest rule cfg nc w

  -- A later stage keeps the rules, or tears them down where it fails.
  torn : Error → ℕ → ℕ
  torn none n = n
  torn (some err) n = n - (own r cfg nc rule honest)

  rule_count-launch_machine :
      (vm : Vm) (path : Bytes) (w : World)
      → rule_count rule (launch_machine r cfg vm nc path w).1
        ≡ torn (launch_machine r cfg vm nc path w).0 (rule_count rule w)
  unfolding launch_machine attempt rule_count torn
  rule_count-launch_machine vm path w =
      let new = new_machine (machine_config cfg vm nc path) (command cfg vm) in
      elim (Bool-cases (r.ok w new)) [
        | inr unconfigured ↦ rw (unconfigured, launch_machine) (rule_count-teardown_network _)
        | inl configured ↦
            elim (Bool-cases (r.ok (record { call = new; ok = true } ∷ w) (start_machine vm.id))) [
              | inr stuck ↦ rw (configured, launch_machine, stuck) (rule_count-teardown_network _)
              | inl started ↦ rw (configured, launch_machine, started) refl
            ]
      ]

  rule_count-await_guest :
      (vm : Vm) (w : World)
      → rule_count rule (await_guest r cfg vm nc w).1
        ≡ torn (await_guest r cfg vm nc w).0 (rule_count rule w)
  unfolding await_guest torn attempt rule_count
  rule_count-await_guest vm w =
      let w1 = (wait_for_docker_ready r nc.guest_ip w).1 in
      let wait = rule_count-Quiet rule (wait_for_docker_ready-IsQuiet r nc.guest_ip w) in
      elim (Option-cases (wait_for_docker_ready r nc.guest_ip w).0) [
        | inl ready ↦ rw (ready, await_guest) wait
        | inr (err, down) ↦
            rw (down, await_guest)
              (rule_count-teardown_network _ ∙ ap (λ n. n - (own r cfg nc rule honest)) wait)
      ]

  rule_count-run_machine :
      (vm : Vm) (path : Bytes) (w : World)
      → rule_count rule (run_machine r cfg vm nc path w).1
        ≡ torn (error_of (run_machine r cfg vm nc path w).0) (rule_count rule w)
  unfolding run_machine torn error_of
  rule_count-run_machine vm path w =
      let w1 = (launch_machine r cfg vm nc path w).1 in
      let w2 = (cap_machine r cfg vm w1).1 in
      ground (
        arith,
        rule_count-launch_machine vm path w,
        rule_count-Quiet rule (cap_machine-IsQuiet r cfg vm w1),
        rule_count-await_guest vm w2,
      )

  left-launch_machine :
      (vm : Vm) (path : Bytes) (w : World) (err : Err)
      → (launch_machine r cfg vm nc path w).0 ≡ some err
      → left (some err) ≡ none_left
  unfolding launch_machine attempt left
  left-launch_machine vm path w err h = ground arith

  left-run_machine :
      (vm : Vm) (path : Bytes) (w : World) (err : Err)
      → error_of (run_machine r cfg vm nc path w).0 ≡ some err
      → left (some err) ≡ none_left
  unfolding run_machine await_guest error_of left
  left-run_machine vm path w err h = ground (arith, left-launch_machine vm path w err)

  left-setup_console :
      (vm : Vm) (w : World) (err : Err)
      → (setup_console r cfg vm w).0 ≡ some err
      → left (some err) ≡ all_left
  unfolding setup_console attempt left
  left-setup_console vm w err h = ground arith

  -- Where deleting a firewall rule that is in force succeeds, a Boot that succeeds, or fails at the
  -- state directory, the pty or the console log, has added every rule of the VM once; one that
  -- fails in the set-up of the firewall has added some of them; and after every other failure each
  -- rule has as many copies as before.
  pub boot_world-IsLeft :
      (vm : Vm) (path : Bytes) (w : World)
      → IsLeft
          (left (error_of (boot_world r cfg vm nc path w).0))
          (copies rule (setup_steps cfg nc))
          (rule_count rule w)
          (rule_count rule (boot_world r cfg vm nc path w).1)
  unfolding boot_world error_of left IsLeft torn
  boot_world-IsLeft vm path w =
      let w1 = (setup_network r cfg nc w).1 in
      let w2 = (setup_console r cfg vm w1).1 in
      let console = rule_count-Quiet rule (setup_console-IsQuiet r cfg vm w1) in
      let network : (e : Error)
          → (setup_network r cfg nc w).0 ≡ e
          → IsLeft (left e) (own r cfg nc rule honest) (rule_count rule w) (rule_count rule w1) =
        λ e h.
          subst
            (λ (x : Error).
              IsLeft (left x) (own r cfg nc rule honest) (rule_count rule w) (rule_count rule w1))
            h (setup_network-IsLeft r cfg nc rule honest w) in
      elim (Option-cases (setup_network r cfg nc w).0) [
        | inr (err, e) ↦ rw (e, boot_world) (network (some err) e)
        | inl e ↦ elim (Option-cases (setup_console r cfg vm w1).0) [
          | inr (err, c) ↦
              rw (e, boot_world, c, left-setup_console vm w1 err c) (console ∙ network none e)
          | inl c ↦
              let run = rule_count-run_machine vm path w2 in
              elim (Option-cases (error_of (run_machine r cfg vm nc path w2).0)) [
                | inl ok ↦
                    rw (e, boot_world, c, ok, left)
                      (run ∙ ap (λ x. torn x (rule_count rule w2)) ok ∙ console ∙ network none e)
                | inr (err, f) ↦
                    rw (e, boot_world, c, f, left-run_machine vm path w2 err f)
                      (ground (
                        arith,
                        run,
                        ap (λ x. torn x (rule_count rule w2)) f,
                        console,
                        network none e,
                      ))
              ]
        ]
      ]
