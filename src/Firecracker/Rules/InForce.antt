-- ===== src/Firecracker/Rules/InForce.antt =====
-- internal/vmmanager/manager.go over firecracker.go: every listed VM has its firewall rules in force,
-- along every sequence of the manager's operations with the production backend.
use devplat_agent.Base.{◌+◌, ◌<◌, ◌≤◌, ◌≡◌, ap, List, [], ◌∷◌, some, arith, All}
use devplat_agent.Base.Int.{ℤ, pos, pos_part}
use devplat_agent.Base.Text.{Bytes}
use devplat_agent.Base.Assoc.{Assoc, lookup, insert, delete, bytes_key, int_key}
use devplat_agent.World.{World, Responder, Result, read_clock}
use devplat_agent.Config.{Config}
use devplat_agent.Network.Derive.{derive_net_config}
use devplat_agent.Network.Tap.{Error}
use devplat_agent.Network.Firewall.{setup_steps}
use devplat_agent.Manager.State.{Vm, Agent, Setting, TimeFormat}
use devplat_agent.Manager.Admission.{CreateRequest}
use devplat_agent.Manager.Lifecycle.{create, destroy, commit, release_slot, forget}
use devplat_agent.Manager.Reap.{destroy_all, reap_expired}
use devplat_agent.Manager.Totals.{total, total-delete}
use devplat_agent.Manager.Outcome.{
  running, refused, aborted, entered, create-Created, unknown, kept, forgotten, destroy-Destroyed,
}
use devplat_agent.Manager.Runs.{Op, create_vm, destroy_vm, reap, perform, run_ops}
use devplat_agent.Firecracker.{Machines}
use devplat_agent.Firecracker.Rules.{rule_count, copies, rule_of, IsHonest, texts_eq_refl}
use devplat_agent.Firecracker.Rules.Lifetime.{production, share, create-count, destroy-count}
use devplat_agent.Firecracker.Rules.Keeps.{create_keeps, destroy_keeps}

total-insert_le :
    (size : Vm → ℤ) (id : Bytes) (vm : Vm) (vms : Assoc Bytes Vm)
    → total size (insert id vm vms) ≤ pos_part (size vm) + total size vms
unfolding insert
total-insert_le size id vm [] = omega arith
total-insert_le size id vm ((j, wm) ∷ vms) = ground (arith, total-insert_le size id vm vms)

total-delete_listed :
    (size : Vm → ℤ) (id : Bytes) (vm : Vm) (vms : Assoc Bytes Vm)
    → lookup id vms ≡ some vm
    → total size (delete id vms) + pos_part (size vm) ≤ total size vms
unfolding lookup delete
total-delete_listed size id vm [] h = absurd (ground arith)
total-delete_listed size id vm ((j, wm) ∷ vms) h =
    ground (arith, total-delete_listed size id vm vms, total-delete size id vms)

module _ (cfg : Config) (cpus ram : ℤ) (t : TimeFormat) (r : Responder) (honest : IsHonest r) where
  abbrev host : Setting Machines
  host = production cfg cpus ram t r

  -- The copies of a rule that the VMs of a list have.
  abbrev pub owed : List Bytes → Vm → ℤ
  owed rule vm = pos (copies rule (setup_steps cfg (derive_net_config cfg vm.slot)))

  -- No rule has fewer copies in force than the listed VMs have.
  abbrev pub HasRules : Agent Machines → Type 0
  HasRules a = (rule : List Bytes) → total (owed rule) a.manager.vms ≤ rule_count rule a.world

  create-HasRules :
      (req : CreateRequest) (a : Agent Machines) → HasRules a → HasRules (create host req a).1
  unfolding commit release_slot share
  create-HasRules req a h rule = elim (create-Created host req a) [
    | refused err e ↦ rw e (h rule)
    | aborted vm err s w own e ↦
        let same : (create host req a).1.manager.vms ≡ a.manager.vms =
          ap (λ (x : Result Vm × Agent Machines). x.1.manager.vms) e in
        rw same (omega (arith, h rule, create_keeps cfg cpus ram t r honest rule req a))
    | entered vm b s w own e ↦
        let listed : (create host req a).1.manager.vms ≡ insert vm.id (running vm b) a.manager.vms =
          ap (λ (x : Result Vm × Agent Machines). x.1.manager.vms) e in
        rw listed (
          omega (
            arith,
            h rule,
            create-count cfg cpus ram t r rule honest req a (running vm b)
                (ap (λ (x : Result Vm × Agent Machines). x.0) e),
            total-insert_le (owed rule) vm.id (running vm b) a.manager.vms,
          ))
  ]

  destroy-HasRules : (id : Bytes) (a : Agent Machines) → HasRules a → HasRules (destroy host id a).1
  unfolding forget share
  destroy-HasRules id a h rule = elim (destroy-Destroyed host id a) [
    | unknown missing e ↦ rw e (h rule)
    | kept vm err s w listed cause e ↦
        let same : (destroy host id a).1.manager.vms ≡ a.manager.vms =
          ap (λ (x : Error × Agent Machines). x.1.manager.vms) e in
        rw same (
          omega (
            arith,
            h rule,
            destroy_keeps cfg cpus ram t r honest rule id a _
                (ap (λ (x : Error × Agent Machines). x.0) e),
          ))
    | forgotten vm s w listed e ↦
        let gone : (destroy host id a).1.manager.vms ≡ delete id a.manager.vms =
          ap (λ (x : Error × Agent Machines). x.1.manager.vms) e in
        rw gone (
          omega (
            arith,
            h rule,
            destroy-count cfg cpus ram t r rule honest id a vm listed
                (ap (λ (x : Error × Agent Machines). x.0) e),
            total-delete_listed (owed rule) id vm a.manager.vms listed,
          ))
  ]

  destroy_all-HasRules :
      (ids : List Bytes) (a : Agent Machines) → HasRules a → HasRules (destroy_all host ids a).1
  unfolding destroy_all
  destroy_all-HasRules [] a h = h
  destroy_all-HasRules (id ∷ ids) a h =
      destroy_all-HasRules ids (destroy host id a).1 (destroy-HasRules id a h)

  reap_expired-HasRules : (a : Agent Machines) → HasRules a → HasRules (reap_expired host a).1
  unfolding reap_expired read_clock rule_count
  reap_expired-HasRules a h = destroy_all-HasRules _ _ h

  run_ops-HasRules :
      (ops : List Op) (a : Agent Machines) → HasRules a → HasRules (run_ops host ops a).1
  unfolding run_ops perform
  run_ops-HasRules [] a h = h
  run_ops-HasRules (create_vm req ∷ ops) a h = run_ops-HasRules ops _ (create-HasRules req a h)
  run_ops-HasRules (destroy_vm id ∷ ops) a h = run_ops-HasRules ops _ (destroy-HasRules id a h)
  run_ops-HasRules (reap ∷ ops) a h = run_ops-HasRules ops _ (reap_expired-HasRules a h)

  -- Every rule of the VM's slot has a copy in force.
  abbrev pub Guarded : Vm → World → Type 0
  Guarded vm w =
      All (λ args. 0 < rule_count (rule_of args) w)
        (setup_steps cfg (derive_net_config cfg vm.slot))

  total-listed :
      (size : Vm → ℤ) (id : Bytes) (vm : Vm) (vms : Assoc Bytes Vm)
      → lookup id vms ≡ some vm
      → pos_part (size vm) ≤ total size vms
  total-listed size id vm vms h = omega (arith, total-delete_listed size id vm vms h)

  copies-All :
      (steps : List (List Bytes)) (w : World)
      → ((rule : List Bytes) → copies rule steps ≤ rule_count rule w)
      → All (λ args. 0 < rule_count (rule_of args) w) steps
  unfolding copies
  copies-All [] w h = tt
  copies-All (args ∷ steps) w h = (
    ground (arith, h (rule_of args), texts_eq_refl (rule_of args)),
    copies-All steps w (λ rule. ground (arith, h rule)),
  )

  -- With the production backend, and where deleting a firewall rule that is in force succeeds, if
  -- no rule has fewer copies in force than the listed VMs have, then after every sequence of
  -- Create, Destroy and ReapExpired, whatever else fails, every listed VM has each of its firewall
  -- rules in force.
  pub listed-Guarded :
      (ops : List Op) (a : Agent Machines) (id : Bytes) (vm : Vm)
      → HasRules a
      → lookup id (run_ops host ops a).1.manager.vms ≡ some vm
      → Guarded vm (run_ops host ops a).1.world
  listed-Guarded ops a id vm h listed =
      copies-All (setup_steps cfg (derive_net_config cfg vm.slot)) _ (λ rule. omega (
        arith,
        run_ops-HasRules ops a h rule,
        total-listed (owed rule) id vm (run_ops host ops a).1.manager.vms listed,
      ))
