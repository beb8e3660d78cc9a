-- ===== src/Firecracker/Live.antt =====
-- internal/vmmanager/firecracker.go: the machines that run and the live handles, over Boot and Stop.
use devplat_agent.Base.{
  ◌≡◌, refl, Bool, true, false, ◌||◌, [], ◌∷◌, none, some, arith, inl, inr, if◌then◌else◌,
  Option-cases, sym, ◌∙◌,
}
use devplat_agent.Base.Text.{Bytes, text_eq, text_eq_iff}
use devplat_agent.Base.Assoc.{lookup, lookup-insert, lookup-delete, bytes_key}
use devplat_agent.World.{
  World, Call, Responder, attempt, Result, done, failed, new_machine, start_machine, stop_vmm,
  cancel, close_tty, close_pty,
}
use devplat_agent.World.Quiet.{Aside, still, aside, moves_machine, IsApart-IsCalm}
use devplat_agent.Config.{Config}
use devplat_agent.Network.Derive.{NetConfig}
use devplat_agent.Network.Tap.{Error}
use devplat_agent.Manager.State.{Vm, Booted}
use devplat_agent.Firecracker.{
  LiveMachine, Machines, machine_config, command, setup_network, setup_console, launch_machine,
  cap_machine, await_guest, run_machine, boot_world, boot, stop, kill_process,
}
use devplat_agent.Firecracker.Ready.{wait_for_docker_ready}
use devplat_agent.Firecracker.Quiet.{
  wait_for_docker_ready-IsApart, setup_console-IsApart, cap_machine-IsApart,
}
use devplat_agent.Firecracker.Calm.{setup_network-IsCalm, teardown_network-IsCalm}

-- Whether a run, newest call first, has started the machine with this id, and neither stopped it nor
-- cancelled its context since; the SDK kills the process when that is cancelled.
unfoldable pub machine_runs : Bytes → World → Bool
machine_runs id [] = false
machine_runs id (e ∷ w) = elim e.call [
  | start_machine n ↦ (if text_eq n id then e.ok || machine_runs id w else machine_runs id w)
  | stop_vmm n ↦
      (if text_eq n id then (if e.ok then false else machine_runs id w) else machine_runs id w)
  | cancel n ↦ (if text_eq n id then false else machine_runs id w)
  | _ ↦ machine_runs id w
]

runs-aside :
    (id : Bytes) (c : Call) (ok : Bool) (w : World)
    → moves_machine c ≡ false
    → machine_runs id (record { call = c; ok = ok } ∷ w) ≡ machine_runs id w
unfolding machine_runs
runs-aside id (start_machine n) ok w h = absurd (ground arith)
runs-aside id (stop_vmm n) ok w h = absurd (ground arith)
runs-aside id (cancel n) ok w h = absurd (ground arith)
runs-aside id _ ok w h = refl

runs-calm :
    (id : Bytes) {w v : World} → Aside moves_machine w v → machine_runs id v ≡ machine_runs id w
unfolding machine_runs
runs-calm id still = refl
runs-calm id (aside {v} e h q) = runs-aside id e.call e.ok v h ∙ runs-calm id q

abbrev is_nil : Error → Bool
is_nil none = true
is_nil (some err) = false

abbrev pub is_up : Result Booted → Bool
is_up (done b) = true
is_up (failed err) = false

module _ (r : Responder) (cfg : Config) (vm : Vm) (nc : NetConfig) (id : Bytes) where
  -- What runs behind a stage that returned so, in place of what ran before it.
  abbrev after_stage : Bool → World → Bool
  after_stage ok w = if text_eq vm.id id then ok else machine_runs id w

  runs-launch_machine :
      (path : Bytes) (w : World)
      → (text_eq vm.id id ≡ true → machine_runs id w ≡ false)
      → machine_runs id (launch_machine r cfg vm nc path w).1
        ≡ after_stage (is_nil (launch_machine r cfg vm nc path w).0) w
  unfolding launch_machine attempt machine_runs
  runs-launch_machine path w h =
      let new = new_machine (machine_config cfg vm nc path) (command cfg vm) in
      let w1 : World = (attempt r new w).1 in
      let w2 : World = (attempt r (start_machine vm.id) w1).1 in
      ground (
        arith,
        runs-calm id (
            teardown_network-IsCalm r cfg nc
              (attempt r close_pty (attempt r close_tty (attempt r (cancel vm.id) w1).1).1).1),
        runs-calm id (
            teardown_network-IsCalm r cfg nc
              (attempt r close_pty (attempt r close_tty (attempt r (cancel vm.id) w2).1).1).1),
        h,
      )

  runs-await_guest :
      (w : World)
      → (text_eq vm.id id ≡ true → machine_runs id w ≡ true)
      → machine_runs id (await_guest r cfg vm nc w).1
        ≡ after_stage (is_nil (await_guest r cfg vm nc w).0) w
  unfolding await_guest attempt machine_runs
  runs-await_guest w h =
      let w1 = (wait_for_docker_ready r nc.guest_ip w).1 in
      ground (
        arith,
        runs-calm id (
            IsApart-IsCalm (wait_for_docker_ready r nc.guest_ip)
              (wait_for_docker_ready-IsApart r nc.guest_ip) w),
        runs-calm id (
            teardown_network-IsCalm r cfg nc
              (attempt r close_pty
                (attempt r (cancel vm.id) (attempt r (stop_vmm vm.id) w1).1).1).1),
        h,
      )

  runs-run_machine :
      (path : Bytes) (w : World)
      → (text_eq vm.id id ≡ true → machine_runs id w ≡ false)
      → machine_runs id (run_machine r cfg vm nc path w).1
        ≡ after_stage (is_up (run_machine r cfg vm nc path w).0) w
  unfolding run_machine
  runs-run_machine path w h =
      let w1 = (launch_machine r cfg vm nc path w).1 in
      let w2 = (cap_machine r cfg vm w1).1 in
      ground (
        arith,
        runs-launch_machine path w h,
        runs-calm id (IsApart-IsCalm (cap_machine r cfg vm) (cap_machine-IsApart r cfg vm) w1),
        runs-await_guest w2,
      )

  runs-boot_world :
      (path : Bytes) (w : World)
      → (text_eq vm.id id ≡ true → machine_runs id w ≡ false)
      → machine_runs id (boot_world r cfg vm nc path w).1
        ≡ after_stage (is_up (boot_world r cfg vm nc path w).0) w
  unfolding boot_world
  runs-boot_world path w h =
      let w1 = (setup_network r cfg nc w).1 in
      let w2 = (setup_console r cfg vm w1).1 in
      ground (
        arith,
        runs-calm id (setup_network-IsCalm r cfg nc w),
        runs-calm id (IsApart-IsCalm (setup_console r cfg vm) (setup_console-IsApart r cfg vm) w1),
        runs-run_machine path w2,
        h,
      )

abbrev pub has_handle : Bytes → Machines → Bool
has_handle id machines = elim (lookup id machines) [ none ↦ false | some live ↦ true ]

-- Exactly the machines that run have a handle, each under the id that it was configured with.
pub record IsTracked (machines : Machines) (w : World) : Type 0 where
  pub runs : (id : Bytes) → machine_runs id w ≡ has_handle id machines
  pub named :
      (id : Bytes) (live : LiveMachine) → lookup id machines ≡ some live → live.config.vmid ≡ id

module _ (r : Responder) (cfg : Config) where
  boot-IsTracked :
      (vm : Vm) (nc : NetConfig) (path : Bytes) (machines : Machines) (w : World)
      → IsTracked machines w
      → lookup vm.id machines ≡ none
      → IsTracked (boot r cfg vm nc path machines w).1 (boot r cfg vm nc path machines w).2
  unfolding boot machine_config
  boot-IsTracked vm nc path machines w t new =
      let live : LiveMachine = record {
        config = machine_config cfg vm nc path;
        process = command cfg vm;
      } in
      record {
        runs = λ id.
            let idle : text_eq vm.id id ≡ true → machine_runs id w ≡ false =
              λ own. t.runs id ∙ unlisted id (sym (own_id id own)) new in
            ground (
              arith,
              runs-boot_world r cfg vm nc id path w idle,
              lookup-insert vm.id id live machines,
              t.runs id,
            );
        named = λ id kept h.
            ground (arith, lookup-insert vm.id id live machines, t.named id kept, own_id id);
      }
    where
      own_id : (id : Bytes) → text_eq vm.id id ≡ true → vm.id ≡ id
      own_id id own = ground (arith, text_eq_iff vm.id id)

      unlisted :
          (id : Bytes) → id ≡ vm.id → lookup vm.id machines ≡ none → has_handle id machines ≡ false
      unlisted id e h = rw e (ground (arith, h))

  stop-IsTracked :
      (vm : Vm) (machines : Machines) (w : World)
      → IsTracked machines w
      → IsTracked (stop r cfg vm machines w).1 (stop r cfg vm machines w).2
  unfolding stop kill_process attempt machine_runs
  stop-IsTracked vm machines w t = elim (Option-cases (lookup vm.id machines)) [
    | inl lost ↦ record {
      runs = λ id. ground (arith, t.runs id);
      named = λ id kept h. ground (arith, t.named id kept);
    }
    | inr (live, held) ↦
        let same = t.named vm.id live held in
        record {
          runs = λ id.
              ground
                (arith, t.runs id, lookup-delete vm.id id machines, same, text_eq_iff vm.id id);
          named = λ id kept h. ground (arith, t.named id kept, lookup-delete vm.id id machines);
        }
  ]

  -- Boots of VMs that have no handle, and Stops, one after the other.
  pub data Handles (machines : Machines) (w : World) : Machines → World → Type 0 where
    as_before : Handles machines w machines w
    boots :
        {ms : Machines} {v : World} (vm : Vm) (nc : NetConfig) (path : Bytes)
        → Handles machines w ms v
        → lookup vm.id ms ≡ none
        → Handles machines w (boot r cfg vm nc path ms v).1 (boot r cfg vm nc path ms v).2
    stops :
        {ms : Machines} {v : World} (vm : Vm)
        → Handles machines w ms v
        → Handles machines w (stop r cfg vm ms v).1 (stop r cfg vm ms v).2

  -- If exactly the machines that run have a live handle, each under the id of its configuration,
  -- this is so again after every sequence of Boots of VMs without a handle and of Stops, whatever
  -- fails: a machine that was started has a handle until it is stopped, and a Boot that fails
  -- leaves none running.
  pub Handles-IsTracked :
      (machines : Machines) (w : World) (ms : Machines) (v : World)
      → IsTracked machines w
      → Handles machines w ms v
      → IsTracked ms v
  Handles-IsTracked machines w ms v t as_before = t
  Handles-IsTracked machines w ms v t (boots {ms = ns} {v = u} vm nc path h new) =
      boot-IsTracked vm nc path ns u (Handles-IsTracked machines w ns u t h) new
  Handles-IsTracked machines w ms v t (stops {ms = ns} {v = u} vm h) =
      stop-IsTracked vm ns u (Handles-IsTracked machines w ns u t h)
