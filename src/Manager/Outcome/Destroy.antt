-- ===== src/Manager/Outcome/Destroy.antt =====
-- internal/vmmanager/manager.go: the ways in which Destroy can end, for every backend and every
-- responder.
use devplat_agent.Base.{◌≡◌, refl, ap, none, some, inl, inr, arith, Option-cases}
use devplat_agent.Base.Text.{Bytes}
use devplat_agent.Base.Assoc.{lookup, bytes_key, int_key}
use devplat_agent.World.{World, Err, wrapped, stop_vm, not_found}
use devplat_agent.Network.Tap.{Error, teardown_tap_device}
use devplat_agent.Network.Firewall.{teardown_firewall}
use devplat_agent.Manager.State.{Vm, Agent, Setting}
use devplat_agent.Manager.Lifecycle.{
  forget, shut_down, destroy, vm_dir, remove_vm_dir, remove_cgroup,
}
use devplat_agent.Network.Derive.{derive_net_config}

module _ {S : Type 0} (env : Setting S) where
  -- Destroy does not know the id, or fails to stop the VM and keeps it, or forgets it.
  pub data Destroyed (id : Bytes) (a : Agent S) (result : Error × Agent S) : Type 0 where
    unknown : lookup id a.manager.vms ≡ none → result ≡ (some not_found, a) → Destroyed id a result
    kept :
        (vm : Vm) (err : Err) (s : S) (w : World)
        → lookup id a.manager.vms ≡ some vm
        → (env.backend.stop vm a.backend a.world).0 ≡ some err
        → result ≡ (some (wrapped stop_vm err), record a { backend = s; world = w })
        → Destroyed id a result
    forgotten :
        (vm : Vm) (s : S) (w : World)
        → lookup id a.manager.vms ≡ some vm
        → result ≡ (none, record { manager = forget id vm a.manager; backend = s; world = w })
        → Destroyed id a result

  -- The stop of a VM: the backend's error, or the clean-up, whose errors are dropped.
  data ShutDown (vm : Vm) (s : S) (w : World) (result : Error × S × World) : Type 0 where
    stuck :
        (err : Err) (s1 : S) (w1 : World)
        → (env.backend.stop vm s w).0 ≡ some err
        → result ≡ (some (wrapped stop_vm err), s1, w1)
        → ShutDown vm s w result
    clean : (s1 : S) (w1 : World) → result ≡ (none, s1, w1) → ShutDown vm s w result

  clean_up : Vm → Error × S × World → Error × S × World
  clean_up vm stopped = elim stopped.0 [
    | some err ↦ (some (wrapped stop_vm err), stopped.1, stopped.2)
    | none ↦
        let nc = derive_net_config env.config vm.slot in
        let (_, w2) = teardown_firewall env.responder env.config nc stopped.2 in
        let (_, w3) = teardown_tap_device env.responder nc w2 in
        let (_, w4) = remove_cgroup env.responder vm.id w3 in
        let (_, w5) = remove_vm_dir env.responder (vm_dir env vm.id) w4 in (none, stopped.1, w5)
  ]

  clean_up-ShutDown :
      (vm : Vm) (s : S) (w : World) (stopped : Error × S × World)
      → env.backend.stop vm s w ≡ stopped
      → ShutDown vm s w (clean_up vm stopped)
  unfolding clean_up
  clean_up-ShutDown vm s w (some err, s1, w1) e =
      stuck err s1 w1 (ap (λ (r : Error × S × World). r.0) e) refl
  clean_up-ShutDown vm s w (none, s1, w1) e = clean s1 _ refl

  shut_down-ShutDown : (vm : Vm) (s : S) (w : World) → ShutDown vm s w (shut_down env vm s w)
  unfolding shut_down clean_up
  shut_down-ShutDown vm s w = clean_up-ShutDown vm s w (env.backend.stop vm s w) refl

  after_stop :
      (id : Bytes) (a : Agent S) (vm : Vm) (stopped : Error × S × World)
      → lookup id a.manager.vms ≡ some vm
      → ShutDown vm a.backend a.world stopped
      → Destroyed id a (elim stopped.0 [
        | some err ↦ (some err, record a { backend = stopped.1; world = stopped.2 })
        | none ↦ (
          none,
          record { manager = forget id vm a.manager; backend = stopped.1; world = stopped.2 },
        )
      ])
  after_stop id a vm (some e, s, w) h (stuck err s1 w1 cause r) =
      kept vm err s w h cause (ground arith)
  after_stop id a vm (none, s, w) h (stuck err s1 w1 cause r) = absurd (ground arith)
  after_stop id a vm (some e, s, w) h (clean s1 w1 r) = absurd (ground arith)
  after_stop id a vm (none, s, w) h (clean s1 w1 r) = forgotten vm s w h refl

  pub destroy-Destroyed : (id : Bytes) (a : Agent S) → Destroyed id a (destroy env id a)
  unfolding destroy
  destroy-Destroyed id a = elim (Option-cases (lookup id a.manager.vms)) [
    | inl e ↦ rw (e, destroy) (unknown e refl)
    | inr (vm, e) ↦
        rw (e, destroy)
          (after_stop id a vm (shut_down env vm a.backend a.world) e
            (shut_down-ShutDown vm a.backend a.world))
  ]
