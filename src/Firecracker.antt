-- ===== src/Firecracker.antt =====
-- internal/vmmanager/firecracker.go: the production backend, over netlink, iptables, cgroups and the
-- Firecracker SDK.
pub mod Ready
pub mod Taps
pub mod Handles
pub mod Growth
pub mod Quiet
pub mod Calm
pub mod Live
pub mod Wiring
pub mod Rules
pub mod Adds
use devplat_agent.Base.{
  ℕ, Bool, true, false, not, ◌&&◌, ◌||◌, List, [], ◌∷◌, ◌++◌, Option, none, some, if◌then◌else◌,
  ◌==◌,
}
use devplat_agent.Base.Int.{ℤ, pos, eq_ℤ}
use devplat_agent.Base.Text.{Bytes, codes, itoa}
use devplat_agent.Base.Assoc.{Assoc, lookup, insert, delete, bytes_key}
use devplat_agent.Paths.{join, dir_of}
use devplat_agent.World.{
  Io, World, Responder, attempt, pure, ◌>>=◌, ◌>>◌, Err, Result, done, failed, outside, wrapped,
  mkdir_all, open_file, pty_open, close_tty, close_pty, new_machine, start_machine, machine_pid,
  stop_vmm, cancel, kill, tap_setup, firewall_setup, bandwidth_cap, create_vm_state_dir, open_pty,
  open_console, configure_machine, start_vm, boot_vm, stop_machine, kill_pid,
}
use devplat_agent.Sdk.{Drive, StaticConfiguration, MachineConfig, Command}
use devplat_agent.Config.{Config}
use devplat_agent.Network.Derive.{NetConfig}
use devplat_agent.Network.Tap.{Error, setup_tap_device, teardown_tap_device, setup_bandwidth_cap}
use devplat_agent.Network.Firewall.{setup_firewall, teardown_firewall}
use devplat_agent.Manager.State.{Vm, Booted, Backend}
use devplat_agent.Manager.Lifecycle.{cgroup_root}
use devplat_agent.Cgroup.{create_cgroup, add_process_to_cgroup}
use Ready.{wait_for_docker_ready}

-- liveMachine: the machine, as the configuration and the process that it was made from, and the cancel
-- function of its context, which goes by the id in the configuration.
pub record LiveMachine : Type 0 where
  pub config : MachineConfig
  pub process : Command

-- The live handles, by VM id.
abbrev pub Machines : Type 0
Machines = Assoc Bytes LiveMachine

contains_byte : ℕ → Bytes → Bool
contains_byte b [] = false
contains_byte b (c ∷ s) = c == b || contains_byte b s

-- What stands before the first such byte, and what stands behind it.
before_byte : ℕ → Bytes → Bytes
before_byte b [] = []
before_byte b (c ∷ s) = let rest = before_byte b s in if c == b then [] else c ∷ rest

after_byte : ℕ → Bytes → Bytes
after_byte b [] = []
after_byte b (c ∷ s) = let rest = after_byte b s in if c == b then s else rest

-- The host of net.SplitHostPort, by what is wrong with the address: of one without brackets, and of
-- one in brackets, at what follows the bracket that opens.
plain_host : Bytes → Option Bytes
unfolding contains_byte before_byte after_byte
plain_host s =
    if contains_byte b':' s
      && not
          (contains_byte b':' (after_byte b':' s) || contains_byte b'[' s || contains_byte b']' s)
    then some (before_byte b':' s)
    else none

bracketed_host : Bytes → Bytes → Option Bytes
unfolding contains_byte before_byte
bracketed_host s [] = none
bracketed_host s (c ∷ port) =
    if c == b':' && not (contains_byte b':' port || contains_byte b'[' s || contains_byte b']' port)
    then some (before_byte b']' s)
    else none

unfoldable pub split_host : Bytes → Option Bytes
unfolding plain_host bracketed_host after_byte
split_host [] = none
split_host (c ∷ s) = if c == b'[' then bracketed_host s (after_byte b']' s) else plain_host (c ∷ s)

-- hostPublicIP: the host of the listen address, or the whole of it where it has none.
unfoldable pub host_public_ip : Config → Bytes
host_public_ip cfg = elim (split_host cfg.listen_addr) [ some host ↦ host | none ↦ cfg.listen_addr ]

-- The three files of a VM's state directory.
unfoldable pub state_path : Config → Vm → Bytes → Bytes
state_path cfg vm name = join (join cfg.vm_state_dir vm.id) name

-- The configuration of the machine that a VM runs in.
unfoldable pub machine_config : Config → Vm → NetConfig → Bytes → MachineConfig
machine_config cfg vm nc rootfs_path = record {
  socket_path = state_path cfg vm (codes "firecracker.sock");
  log_path = state_path cfg vm (codes "firecracker.log");
  log_level = codes "Warning";
  kernel_image_path = cfg.kernel_image_path;
  kernel_args = codes "console=ttyS0 reboot=k panic=1 pci=off random.trust_cpu=on";
  drives =
      record {
        drive_id = codes "rootfs";
        path_on_host = rootfs_path;
        is_root_device = true;
        is_read_only = false;
      }
      ∷ [];
  network_interfaces =
      record {
        host_dev_name = nc.tap_name;
        ip = nc.guest_ip;
        mask = nc.mask;
        gateway = nc.host_ip;
        nameservers = codes "1.1.1.1" ∷ [];
      }
      ∷ [];
  vcpu_count = vm.vcpu;
  mem_size_mib = vm.ram_mb;
  vmid = vm.id;
}

-- The process of the machine: the leader of a session of its own, on the terminal of its output.
unfoldable pub command : Config → Vm → Command
command cfg vm = record {
  bin = cfg.firecracker_binary;
  socket_path = state_path cfg vm (codes "firecracker.sock");
  setsid = true;
  setctty = true;
  ctty = 1;
}

module _ (r : Responder) (cfg : Config) where
  -- The tap device, the firewall and the bandwidth cap.
  unfoldable pub setup_network : NetConfig → Io Error
  setup_network nc w =
      let (tap, w1) = setup_tap_device r nc w in
      elim tap [
        | some err ↦ (some (wrapped tap_setup err), w1)
        | none ↦
            let (firewall, w2) = setup_firewall r cfg nc w1 in
            elim firewall [
              | some err ↦
                  let (_, w3) = teardown_tap_device r nc w2 in
                  (some (wrapped firewall_setup err), w3)
              | none ↦
                  let (cap, w3) = setup_bandwidth_cap r nc cfg.bandwidth_cap_mbit w2 in
                  elim cap [
                    | some err ↦
                        let (_, w4) = teardown_firewall r cfg nc w3 in
                        let (_, w5) = teardown_tap_device r nc w4 in
                        (some (wrapped bandwidth_cap err), w5)
                    | none ↦ (none, w3)
                  ]
            ]
      ]

  -- The state directory, the pty and the console log.
  unfoldable pub setup_console : Vm → Io Error
  setup_console vm = do
    made ← attempt r (mkdir_all (dir_of (state_path cfg vm (codes "firecracker.sock"))))
    if made
        then (do
          pty ← attempt r pty_open
          if pty
              then (do
                console ← attempt r (open_file (state_path cfg vm (codes "console.log")))
                if console then pure none else (do
                  attempt r close_tty
                  attempt r close_pty
                  pure (some (wrapped open_console outside))))
              else pure (some (wrapped open_pty outside)))
        else pure (some (wrapped create_vm_state_dir outside))

  unfoldable pub teardown_network : NetConfig → Io Error
  teardown_network nc w = let (_, w1) = teardown_firewall r cfg nc w in teardown_tap_device r nc w1

  -- The machine is configured and started; the slave end of the pty is closed on every path.
  unfoldable pub launch_machine : Vm → NetConfig → Bytes → Io Error
  launch_machine vm nc rootfs_path = do
    configured ← attempt r (new_machine (machine_config cfg vm nc rootfs_path) (command cfg vm))
    if configured
        then (do
          started ← attempt r (start_machine vm.id)
          if started then (do attempt r close_tty; pure none) else (do
            attempt r (cancel vm.id)
            attempt r close_tty
            attempt r close_pty
            teardown_network nc
            pure (some (wrapped start_vm outside))))
        else (do
          attempt r (cancel vm.id)
          attempt r close_tty
          attempt r close_pty
          teardown_network nc
          pure (some (wrapped configure_machine outside)))

  join_cgroup : Error → Vm → ℤ → World → World
  join_cgroup (some err) vm pid w = w
  join_cgroup none vm pid w = (add_process_to_cgroup r (join cgroup_root vm.id) pid w).1

  -- The pid, or 0; the caps are set where it is known, and no failure of theirs stops the boot.
  unfoldable pub cap_machine : Vm → Io ℤ
  unfolding join_cgroup
  cap_machine vm w =
      let (known, w1) = attempt r (machine_pid vm.id) w in
      elim known [
        | false ↦ (pos 0, w1)
        | true ↦
            let pid = r.pid w in
            let (e, w2) = create_cgroup r vm.id vm.vcpu vm.ram_mb w1 in
            (pid, join_cgroup e vm pid w2)
      ]

  -- The wait for dockerd, and the clean-up where it fails.
  unfoldable pub await_guest : Vm → NetConfig → Io Error
  await_guest vm nc w =
      let (e, w1) = wait_for_docker_ready r nc.guest_ip w in
      elim e [
        | none ↦ (none, w1)
        | some err ↦
            let (_, w2) = attempt r (stop_vmm vm.id) w1 in
            let (_, w3) = attempt r (cancel vm.id) w2 in
            let (_, w4) = attempt r close_pty w3 in
            let (_, w5) = teardown_network nc w4 in (some (wrapped boot_vm err), w5)
      ]

  unfoldable pub run_machine : Vm → NetConfig → Bytes → Io (Result Booted)
  run_machine vm nc rootfs_path w =
      let (launched, w1) = launch_machine vm nc rootfs_path w in
      elim launched [
        | some err ↦ (failed err, w1)
        | none ↦
            let (pid, w2) = cap_machine vm w1 in
            let (ready, w3) = await_guest vm nc w2 in
            elim ready [
              | some err ↦ (failed err, w3)
              | none ↦ (
                done (record {
                  docker_endpoint = host_public_ip cfg ++ (b':' ∷ itoa nc.docker_port);
                  pid = pid;
                }),
                w3,
              )
            ]
      ]

  -- Boot on the world.
  unfoldable pub boot_world : Vm → NetConfig → Bytes → Io (Result Booted)
  boot_world vm nc rootfs_path w =
      let (network, w1) = setup_network nc w in
      elim network [
        | some err ↦ (failed err, w1)
        | none ↦
            let (console, w2) = setup_console vm w1 in
            elim console [ some err ↦ (failed err, w2) | none ↦ run_machine vm nc rootfs_path w2 ]
      ]

  -- Boot: the handle is kept where the machine is up.
  unfoldable pub boot : Vm → NetConfig → Bytes → Machines → World → Result Booted × Machines × World
  boot vm nc rootfs_path machines w =
      let (result, w') = boot_world vm nc rootfs_path w in
      let live : LiveMachine = record {
        config = machine_config cfg vm nc rootfs_path;
        process = command cfg vm;
      } in
      (result, elim result [ done b ↦ insert vm.id live machines | failed err ↦ machines ], w')

  unfoldable pub kill_process : ℤ → Io Error
  kill_process pid w =
      if eq_ℤ pid (pos 0)
      then (none, w)
      else (let (killed, w') = attempt r (kill pid) w in
          (
            if killed
                then none
                else if r.absent w (kill pid)
                then none
                else some (wrapped kill_pid outside),
            w',
          ))

  -- Stop: through the live handle, or by the persisted pid.
  unfoldable pub stop : Vm → Machines → World → Error × Machines × World
  unfolding kill_process
  stop vm machines w = elim (lookup vm.id machines) [
    | some machine ↦
        let (stopped, w1) = attempt r (stop_vmm machine.config.vmid) w in
        elim stopped [
          | false ↦ (some (wrapped stop_machine outside), machines, w1)
          | true ↦
              let (_, w2) = attempt r (cancel machine.config.vmid) w1 in
              (none, delete vm.id machines, w2)
        ]
    | none ↦ let (e, w1) = kill_process vm.pid w in (e, machines, w1)
  ]

  abbrev pub firecracker_backend : Backend Machines
  firecracker_backend = record { boot = boot; stop = stop }
