-- ===== src/Firecracker/Wiring.antt =====
-- internal/vmmanager/firecracker.go: what a Boot that succeeds has done, in order, and how the guest's
-- configuration fits the host's.
use devplat_agent.Base.{
  ℕ, zero, suc, ◌≡◌, refl, true, false, List, [], ◌∷◌, ◌++◌, none, arith, inl, inr, Bool-cases,
}
use devplat_agent.Base.Text.{Bytes, codes, itoa}
use devplat_agent.World.{
  World, Responder, attempt, read_clock, done, link_add, addr_add, link_set_up, new_machine,
  start_machine, close_tty, dial, sleep, close_guest,
}
use devplat_agent.World.Growth.{Later, same, more, Later-trans, Later-below}
use devplat_agent.Sdk.{MachineConfig, Command, StaticConfiguration, Drive}
use devplat_agent.Config.{Config}
use devplat_agent.Network.Address.{Ipv4, dotted}
use devplat_agent.Network.Derive.{NetConfig}
use devplat_agent.Network.Tap.{setup_tap_device, setup_bandwidth_cap, run_cmd}
use devplat_agent.Network.Firewall.{setup_firewall, setup_steps, apply_steps}
use devplat_agent.Network.Firewall.Teardown.{succeeded, complete, stopped, apply_steps-Applied}
use devplat_agent.Manager.State.{Vm, Booted}
use devplat_agent.Firecracker.{
  machine_config, command, setup_network, setup_console, launch_machine, cap_machine, await_guest,
  run_machine, boot_world, host_public_ip,
}
use devplat_agent.Firecracker.Ready.{
  Loop, ended, exhausted, poll_ms, ready_loop, loop_error, wait_for_docker_ready,
}
use devplat_agent.Firecracker.Ready.Ends.{done_event}
use devplat_agent.World.Quiet.{Quiet-Later}
use devplat_agent.Firecracker.Quiet.{
  setup_bandwidth_cap-IsQuiet, setup_console-IsQuiet, cap_machine-IsQuiet,
}

-- The run after a tap device was made, given an address and brought up.
abbrev pub tap_up : StaticConfiguration → World → World
tap_up s w =
    done_event (link_set_up s.host_dev_name)
    ∷ done_event (addr_add s.host_dev_name s.gateway s.mask)
    ∷ done_event (link_add s.host_dev_name)
    ∷ w

module _ (r : Responder) (cfg : Config) where
  setup_tap_device-done :
      (nc : NetConfig) (w : World)
      → (setup_tap_device r nc w).0 ≡ none
      → (setup_tap_device r nc w).1
        ≡ done_event (link_set_up nc.tap_name)
          ∷ done_event (addr_add nc.tap_name nc.host_ip nc.mask)
          ∷ done_event (link_add nc.tap_name)
          ∷ w
  unfolding setup_tap_device
  setup_tap_device-done nc w h = ground arith

  pub apply_steps-done :
      (steps : List (List Bytes)) (w : World)
      → (apply_steps r steps w).0 ≡ none
      → (apply_steps r steps w).1 ≡ succeeded steps w
  apply_steps-done steps w h = elim (apply_steps-Applied r steps w) [
    | complete e ↦ ground arith
    | stopped before args behind err s e ↦ absurd (ground arith)
  ]

  setup_firewall-done :
      (nc : NetConfig) (w : World)
      → (setup_firewall r cfg nc w).0 ≡ none
      → (v : World) × Later w v × ((setup_firewall r cfg nc w).1 ≡ succeeded (setup_steps cfg nc) v)
  unfolding setup_firewall run_cmd attempt
  setup_firewall-done nc w h =
      let v : World =
        (run_cmd r (codes "sysctl") (codes "-w" ∷ codes "net.ipv4.ip_forward=1" ∷ []) w).1 in
      (v, more _ same, ground (arith, apply_steps-done (setup_steps cfg nc) v))

  pub launch_machine-done :
      (vm : Vm) (nc : NetConfig) (path : Bytes) (w : World)
      → (launch_machine r cfg vm nc path w).0 ≡ none
      → (launch_machine r cfg vm nc path w).1
        ≡ (attempt r close_tty (
            done_event (start_machine vm.id)
            ∷ done_event (new_machine (machine_config cfg vm nc path) (command cfg vm))
            ∷ w)).1
  unfolding launch_machine attempt
  launch_machine-done vm nc path w h = ground arith

  -- A dial that succeeded, after a run and by a later one.
  abbrev Answered : Bytes → World → World → Type 0
  Answered addr w v = (u : World) × Later w u × Later (done_event (dial addr) ∷ u) v

  ready_loop-done :
      (fuel : ℕ) (addr : Bytes) (deadline : ℕ) (w : World)
      → (ready_loop r fuel addr deadline w).0 ≡ ended none
      → Answered addr w (ready_loop r fuel addr deadline w).1
  unfolding ready_loop attempt read_clock
  ready_loop-done zero addr deadline w h = absurd (ground arith)
  ready_loop-done (suc fuel) addr deadline w h =
      let w2 : World = (read_clock r (attempt r (dial addr) w).1).1 in
      let w3 : World = (attempt r (sleep poll_ms) w2).1 in
      elim (Bool-cases (r.ok w (dial addr))) [
        | inl up ↦
            let end : (ready_loop r (suc fuel) addr deadline w).1
                ≡ (attempt r close_guest (done_event (dial addr) ∷ w)).1 =
              ground arith in
            rw end (w, same, more _ same)
        | inr down ↦
            let again : (ready_loop r fuel addr deadline w3).0 ≡ ended none = ground arith in
            let end : (ready_loop r (suc fuel) addr deadline w).1
                ≡ (ready_loop r fuel addr deadline w3).1 =
              ground arith in
            let (u, before, answer) = ready_loop-done fuel addr deadline w3 again in
            rw end (u, Later-below (Later-below (Later-below before)), answer)
      ]

  loop_error-none : (l : Loop) → loop_error r l ≡ none → l ≡ ended none
  unfolding loop_error
  loop_error-none (ended e) h = ground arith
  loop_error-none exhausted h = absurd (ground arith)

  wait_for_docker_ready-done :
      (ip : Ipv4) (w : World)
      → (wait_for_docker_ready r ip w).0 ≡ none
      → Answered (dotted ip ++ codes ":2375") w (wait_for_docker_ready r ip w).1
  unfolding wait_for_docker_ready read_clock
  wait_for_docker_ready-done ip w h =
      let (u, before, answer) = ready_loop-done 152 _ _ _ (loop_error-none _ h) in
      (u, Later-below before, answer)

  await_guest-done :
      (vm : Vm) (nc : NetConfig) (w : World)
      → (await_guest r cfg vm nc w).0 ≡ none
      → Answered (dotted nc.guest_ip ++ codes ":2375") w (await_guest r cfg vm nc w).1
  unfolding await_guest
  await_guest-done vm nc w h =
      let ready : (wait_for_docker_ready r nc.guest_ip w).0 ≡ none = ground arith in
      rw (ready, await_guest) (wait_for_docker_ready-done nc.guest_ip w ready)

  -- What a Boot that gives `b` has done between the runs `w` and `v`.
  pub record Wired (vm : Vm) (nc : NetConfig) (path : Bytes) (w : World) (b : Booted) (v : World)
      : Type 0 where
    pub machine : MachineConfig
    pub process : Command
    pub guest : StaticConfiguration
    pub root : Drive
    pub network : machine.network_interfaces ≡ guest ∷ []
    pub drives : machine.drives ≡ root ∷ []
    pub own_root :
        (root.path_on_host ≡ path) × (root.is_root_device ≡ true) × (root.is_read_only ≡ false)
    pub sized :
        (machine.vcpu_count ≡ vm.vcpu) × (machine.mem_size_mib ≡ vm.ram_mb) × (machine.vmid ≡ vm.id)
    pub socket : process.socket_path ≡ machine.socket_path
    -- the runs before the firewall rules, before the machine and before the answer
    pub before_rules : World
    pub before_machine : World
    pub before_answer : World
    pub linked : Later (tap_up guest w) before_rules
    pub ruled : Later (succeeded (setup_steps cfg nc) before_rules) before_machine
    pub started :
        Later
          (done_event (start_machine vm.id)
            ∷ done_event (new_machine machine process)
            ∷ before_machine)
          before_answer
    pub answered : Later (done_event (dial (dotted guest.ip ++ codes ":2375")) ∷ before_answer) v
    pub endpoint : b.docker_endpoint ≡ host_public_ip cfg ++ (b':' ∷ itoa nc.docker_port)

  setup_network-done :
      (nc : NetConfig) (w : World)
      → (setup_network r cfg nc w).0 ≡ none
      → (v : World) × Later
          (done_event (link_set_up nc.tap_name)
            ∷ done_event (addr_add nc.tap_name nc.host_ip nc.mask)
            ∷ done_event (link_add nc.tap_name)
            ∷ w)
          v
        × Later (succeeded (setup_steps cfg nc) v) (setup_network r cfg nc w).1
  unfolding setup_network
  setup_network-done nc w h =
      let w1 = (setup_tap_device r nc w).1 in
      let w2 = (setup_firewall r cfg nc w1).1 in
      let tap : (setup_tap_device r nc w).0 ≡ none = ground arith in
      let firewall : (setup_firewall r cfg nc w1).0 ≡ none = ground arith in
      let end : (setup_network r cfg nc w).1
          ≡ (setup_bandwidth_cap r nc cfg.bandwidth_cap_mbit w2).1 =
        ground arith in
      let (v, before, rules) = setup_firewall-done nc w1 firewall in
      (
        v,
        rw (← setup_tap_device-done nc w tap) before,
        rw (end, ← rules)
            (Quiet-Later (setup_bandwidth_cap-IsQuiet r nc cfg.bandwidth_cap_mbit w2)),
      )

  -- A Boot that succeeds has done, in this order and each with success: brought up the tap device
  -- that the guest's configuration names, with the address that the guest has as its gateway; given
  -- every firewall rule; made and started the machine, whose writable root drive is the VM's copy
  -- and whose sizes are the VM's, on the socket of its process; and dialed the guest's configured
  -- address at port 2375.
  pub boot_world-Wired :
      (vm : Vm) (nc : NetConfig) (path : Bytes) (w : World) (b : Booted)
      → (boot_world r cfg vm nc path w).0 ≡ done b
      → Wired vm nc path w b (boot_world r cfg vm nc path w).1
  unfolding boot_world run_machine machine_config command attempt
  boot_world-Wired vm nc path w b h =
      let w1 = (setup_network r cfg nc w).1 in
      let w2 = (setup_console r cfg vm w1).1 in
      let w3 = (launch_machine r cfg vm nc path w2).1 in
      let w4 = (cap_machine r cfg vm w3).1 in
      let network : (setup_network r cfg nc w).0 ≡ none = ground arith in
      let console : (setup_console r cfg vm w1).0 ≡ none = ground arith in
      let launched : (launch_machine r cfg vm nc path w2).0 ≡ none = ground arith in
      let ready : (await_guest r cfg vm nc w4).0 ≡ none = ground arith in
      let end : (boot_world r cfg vm nc path w).1 ≡ (await_guest r cfg vm nc w4).1 = ground arith in
      let (before_rules, linked, ruled) = setup_network-done nc w network in
      let (before_answer, wait, answer) = await_guest-done vm nc w4 ready in
      rw end (record {
        machine = machine_config cfg vm nc path;
        process = command cfg vm;
        guest = _;
        root = _;
        network = refl;
        drives = refl;
        own_root = (refl, refl, refl);
        sized = (refl, refl, refl);
        socket = refl;
        before_rules = before_rules;
        before_machine = w2;
        before_answer = before_answer;
        linked = linked;
        ruled = Later-trans ruled (Quiet-Later (setup_console-IsQuiet r cfg vm w1));
        started =
            Later-trans
              (Later-trans (rw (launch_machine-done vm nc path w2 launched) (more _ same))
                (Quiet-Later (cap_machine-IsQuiet r cfg vm w3)))
              wait;
        answered = answer;
        endpoint = ground arith;
      })
