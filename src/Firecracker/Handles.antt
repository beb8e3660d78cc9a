-- ===== src/Firecracker/Handles.antt =====
-- internal/vmmanager/firecracker.go: the live handles of the backend, over Boot and Stop.
use devplat_agent.Base.{
  ◌≡◌, ◌≢◌, ◌⊎◌, refl, Bool, true, false, none, some, inl, inr, arith, Bool-cases, Option-cases,
}
use devplat_agent.Base.Int.{pos, eq_ℤ, eq_ℤ_iff}
use devplat_agent.Base.Assoc.{lookup, delete, bytes_key}
use devplat_agent.World.{
  World, Call, Responder, attempt, Err, outside, wrapped, is_not_found, stop_vmm, cancel, kill,
  stop_machine, kill_pid,
}
use devplat_agent.Config.{Config}
use devplat_agent.Network.Tap.{Error}
use devplat_agent.Manager.State.{Vm}
use devplat_agent.Firecracker.{LiveMachine, Machines, kill_process, stop}

module _ (r : Responder) (cfg : Config) where
  -- The call, and the run behind it.
  abbrev pub succeeds : Call → World → Bool
  succeeds c w = (attempt r c w).0

  abbrev pub after : Call → World → World
  after c w = (attempt r c w).1

  -- The ways in which a Stop can end.
  pub data StopOutcome (vm : Vm) (machines : Machines) (w : World)
      (result : Error × Machines × World) : Type 0 where
    -- the VMM was stopped and its context cancelled, and the handle is gone
    stopped :
        (machine : LiveMachine)
        → lookup vm.id machines ≡ some machine
        → succeeds (stop_vmm machine.config.vmid) w ≡ true
        → result ≡ (
          none,
          delete vm.id machines,
          after (cancel machine.config.vmid) (after (stop_vmm machine.config.vmid) w),
        )
        → StopOutcome vm machines w result
    -- the VMM could not be stopped, and the handle stays
    running :
        (machine : LiveMachine)
        → lookup vm.id machines ≡ some machine
        → succeeds (stop_vmm machine.config.vmid) w ≡ false
        → result
          ≡ (some (wrapped stop_machine outside), machines, after (stop_vmm machine.config.vmid) w)
        → StopOutcome vm machines w result
    -- there is neither a handle nor a pid, and nothing is done
    no_process :
        lookup vm.id machines ≡ none
        → vm.pid ≡ pos 0
        → result ≡ (none, machines, w)
        → StopOutcome vm machines w result
    -- there is no handle, and the persisted pid is killed, or there is no such process
    killed :
        lookup vm.id machines ≡ none
        → vm.pid ≢ pos 0
        → (succeeds (kill vm.pid) w ≡ true) ⊎ (r.absent w (kill vm.pid) ≡ true)
        → result ≡ (none, machines, after (kill vm.pid) w)
        → StopOutcome vm machines w result
    -- the persisted pid could not be killed
    alive :
        lookup vm.id machines ≡ none
        → vm.pid ≢ pos 0
        → succeeds (kill vm.pid) w ≡ false
        → r.absent w (kill vm.pid) ≡ false
        → result ≡ (some (wrapped kill_pid outside), machines, after (kill vm.pid) w)
        → StopOutcome vm machines w result

  -- Stop stops the VMM of the live handle where there is one, and otherwise kills the persisted
  -- pid, a process that is gone being no error; the handle goes exactly where its VMM was stopped.
  pub stop-StopOutcome :
      (vm : Vm) (machines : Machines) (w : World)
      → StopOutcome vm machines w (stop r cfg vm machines w)
  unfolding stop kill_process
  stop-StopOutcome vm machines w = elim (Option-cases (lookup vm.id machines)) [
    | inr (machine, live) ↦ elim (Bool-cases (succeeds (stop_vmm machine.config.vmid) w)) [
      | inl fine ↦ rw (live, stop, fine) (stopped machine live fine refl)
      | inr bad ↦ rw (live, stop, bad) (running machine live bad refl)
    ]
    | inl lost ↦ elim (Bool-cases (eq_ℤ vm.pid (pos 0))) [
      | inl unknown ↦
          rw (lost, stop, unknown) (no_process lost ((eq_ℤ_iff vm.pid (pos 0)).0 unknown) refl)
      | inr other ↦
          let known : vm.pid ≢ pos 0 = ground (arith, eq_ℤ_iff vm.pid (pos 0)) in
          elim (Bool-cases (succeeds (kill vm.pid) w)) [
            | inl fine ↦ rw (lost, stop, other, fine) (killed lost known (inl fine) refl)
            | inr bad ↦ elim (Bool-cases (r.absent w (kill vm.pid))) [
              | inl gone ↦ rw (lost, stop, other, bad, gone) (killed lost known (inr gone) refl)
              | inr there ↦ rw (lost, stop, other, bad, there) (alive lost known bad there refl)
            ]
          ]
    ]
  ]

  -- No error that Stop returns is the manager's ErrNotFound.
  pub stop_not_found :
      (vm : Vm) (machines : Machines) (w : World) (err : Err)
      → (stop r cfg vm machines w).0 ≡ some err
      → is_not_found err ≡ false
  unfolding stop kill_process attempt is_not_found
  stop_not_found vm machines w err h = ground arith
