-- ===== src/Firecracker/Taps.antt =====
-- internal/vmmanager/firecracker.go: the calls of a boot and its tap device.
pub mod Boot
use devplat_agent.Base.{
  ℕ, zero, suc, ◌≡◌, ◌≢◌, refl, sym, ap, ◌∙◌, Bool, true, false, ◌||◌, List, [], ◌∷◌, ◌++◌, Option,
  none, some, inl, inr, arith, if◌then◌else◌, Bool-cases, Option-cases,
}
use devplat_agent.Base.Text.{Bytes, text_eq, text_eq_refl, codes}
use devplat_agent.Config.{Config}
use devplat_agent.World.{
  World, Event, Call, Responder, attempt, ◌>>=◌, ◌>>◌, Err, Result, done, failed, outside, wrapped,
  link_add, link_del, link_by_name, addr_add, link_set_up, create_vm_state_dir, open_pty,
  open_console, run,
}
use devplat_agent.World.Quiet.{Quiet, still, aside, shapes_network}
use devplat_agent.Network.Derive.{NetConfig}
use devplat_agent.Network.Tap.{
  Error, setup_tap_device, teardown_tap_device, setup_bandwidth_cap, run_cmd,
}
use devplat_agent.Network.Firewall.{
  setup_firewall, teardown_firewall, setup_steps, teardown_steps, apply_steps, remove_steps,
}
use devplat_agent.Network.Firewall.Teardown.{
  succeeded, ran, Applied, complete, stopped, apply_steps-Applied,
}
use devplat_agent.Base.Int.{ℤ, leb_ℤ}
use devplat_agent.World.{
  read_clock, dial, sleep, write_text, stat, mkdir_all, machine_pid, new_machine, start_machine,
  stop_vmm, cancel, close_pty,
}
use devplat_agent.Paths.{join}
use devplat_agent.Manager.Lifecycle.{cgroup_root}
use devplat_agent.Firecracker.{
  setup_network, setup_console, teardown_network, launch_machine, cap_machine, await_guest,
  run_machine, boot_world,
}
use devplat_agent.Firecracker.Ready.{poll_ms, timeout_nanos, ready_loop, wait_for_docker_ready}
use devplat_agent.Cgroup.{
  enable_controllers, enable_dirs, ensure_parent_controllers, leaf_unless, check_controllers,
  write_limits, prepare_leaf, cgroup_mount, create_cgroup, add_process_to_cgroup,
}
use devplat_agent.Manager.State.{Vm, Booted}

-- Whether a run, newest call first, has created the tap device and not deleted it since.
unfoldable pub tap_held : Bytes → World → Bool
tap_held name [] = false
tap_held name (e ∷ w) = elim e.call [
  | link_add n ↦ (if text_eq n name then e.ok || tap_held name w else tap_held name w)
  | link_del n ↦
      (if text_eq n name then (if e.ok then false else tap_held name w) else tap_held name w)
  | _ ↦ tap_held name w
]

-- A tap device that exists is found by its name, and can be deleted.
abbrev pub FindsTap : Responder → Bytes → Type 0
FindsTap r name =
    (w : World)
    → tap_held name w ≡ true
    → (r.ok w (link_by_name name) ≡ true) × (r.ok w (link_del name) ≡ true)

tap_held-aside :
    (name : Bytes) (c : Call) (ok : Bool) (w : World)
    → shapes_network c ≡ false
    → tap_held name (record { call = c; ok = ok } ∷ w) ≡ tap_held name w
unfolding tap_held
tap_held-aside name (link_add n) ok w h = absurd (ground arith)
tap_held-aside name (link_del n) ok w h = absurd (ground arith)
tap_held-aside name _ ok w h = refl

-- A stage that leaves the network alone leaves the tap device alone.
pub tap_held-Quiet : (name : Bytes) {w v : World} → Quiet w v → tap_held name v ≡ tap_held name w
unfolding tap_held
tap_held-Quiet name still = refl
tap_held-Quiet name (aside {v} e h q) = tap_held-aside name e.call e.ok v h ∙ tap_held-Quiet name q

module _ (r : Responder) (name : Bytes) where
  pub tap_held-run_cmd :
      (c : Bytes) (args : List Bytes) (w : World)
      → tap_held name (run_cmd r c args w).1 ≡ tap_held name w
  unfolding run_cmd tap_held
  tap_held-run_cmd c args w = refl

  pub tap_held-remove_steps :
      (steps : List (List Bytes)) (e : Error) (w : World)
      → tap_held name (remove_steps r steps e w).1 ≡ tap_held name w
  unfolding remove_steps run_cmd tap_held
  tap_held-remove_steps [] e w = refl
  tap_held-remove_steps (args ∷ steps) e w = tap_held-remove_steps steps _ _

  pub tap_held-succeeded :
      (steps : List (List Bytes)) (w : World) → tap_held name (succeeded steps w) ≡ tap_held name w
  unfolding tap_held
  tap_held-succeeded [] w = refl
  tap_held-succeeded (args ∷ steps) w = tap_held-succeeded steps (ran true args w)

  pub tap_held-apply_steps :
      (steps : List (List Bytes)) (w : World)
      → tap_held name (apply_steps r steps w).1 ≡ tap_held name w
  unfolding tap_held
  tap_held-apply_steps steps w = elim (apply_steps-Applied r steps w) [
    | complete e ↦ rw e (tap_held-succeeded steps w)
    | stopped before args behind err s e ↦ rw e (tap_held-succeeded before w)
  ]

  pub tap_held-setup_firewall :
      (cfg : Config) (nc : NetConfig) (w : World)
      → tap_held name (setup_firewall r cfg nc w).1 ≡ tap_held name w
  unfolding setup_firewall run_cmd tap_held
  tap_held-setup_firewall cfg nc w = ground (
    arith,
    tap_held-apply_steps (setup_steps cfg nc)
        (run_cmd r (codes "sysctl") (codes "-w" ∷ codes "net.ipv4.ip_forward=1" ∷ []) w).1,
  )

  pub tap_held-teardown_firewall :
      (cfg : Config) (nc : NetConfig) (w : World)
      → tap_held name (teardown_firewall r cfg nc w).1 ≡ tap_held name w
  unfolding teardown_firewall
  tap_held-teardown_firewall cfg nc w = tap_held-remove_steps (teardown_steps cfg nc) none w

  pub tap_held-teardown_tap_device :
      (nc : NetConfig) (w : World)
      → FindsTap r nc.tap_name
      → tap_held nc.tap_name (teardown_tap_device r nc w).1 ≡ false
  unfolding teardown_tap_device tap_held
  tap_held-teardown_tap_device nc w finds =
      let found : World = record { call = link_by_name nc.tap_name; ok = true } ∷ w in
      ground (arith, text_eq_refl nc.tap_name, finds w, finds found)

  pub tap_held-setup_tap_device :
      (nc : NetConfig) (w : World)
      → FindsTap r nc.tap_name
      → tap_held nc.tap_name w ≡ false
      → tap_held nc.tap_name (setup_tap_device r nc w).1
        ≡ (elim (setup_tap_device r nc w).0 [ none ↦ true | some err ↦ false ])
  unfolding setup_tap_device tap_held
  tap_held-setup_tap_device nc w finds h =
      let name = nc.tap_name in
      let added : World = record { call = link_add name; ok = true } ∷ w in
      let addr = addr_add name nc.host_ip nc.mask in
      let unassigned : World = record { call = addr; ok = false } ∷ added in
      let assigned : World = record { call = addr; ok = true } ∷ added in
      let down : World = record { call = link_set_up name; ok = false } ∷ assigned in
      ground (arith, text_eq_refl name, finds unassigned, finds down)
