-- ===== src/Manager/Runs/Refines.antt =====
-- internal/vmmanager/manager.go: what the callers of a manager see, as an abstract map from ids to
-- VMs that the replies alone determine: without slots, the order of the map, the backend or the run.
use mathlib.Core.Path.{fun_ext}
use devplat_agent.Base.{
  ◌≡◌, ◌≢◌, refl, true, List, [], ◌∷◌, Option, none, some, arith, inl, inr, Option-cases,
  if◌then◌else◌,
}
use devplat_agent.Base.Text.{Bytes, text_eq}
use devplat_agent.Base.Assoc.{lookup, lookup-insert, lookup-delete, bytes_key, int_key}
use devplat_agent.World.{done, failed, not_found}
use devplat_agent.Manager.State.{Vm, Manager, Agent, Setting}
use devplat_agent.Manager.Admission.{CreateRequest}
use devplat_agent.Manager.Lifecycle.{create, destroy, commit, release_slot, forget}
use devplat_agent.Manager.Reap.{reap_expired}
use devplat_agent.Manager.Reap.Exact.{contains, reap_expired_exact}
use devplat_agent.Manager.Growth.{OnlyAdds}
use devplat_agent.Manager.Outcome.{
  running, refused, aborted, entered, create-Created, unknown, kept, forgotten, destroy-Destroyed,
}
use devplat_agent.Manager.Slots.{IsConsistent, Reserved-free}
use devplat_agent.Manager.Budget.{IsOrdinary}
use devplat_agent.Manager.Runs.{
  Advances, IsSound, Op, create_vm, destroy_vm, reap, Reply, created, destroyed, reaped, perform,
  run_ops, AllModest, IsFresh-unlisted, create-IsSound, destroy-IsSound, reap_expired-IsSound,
}

-- The listed VMs by their ids.
abbrev pub View : Type 0
View = Bytes → Option Vm

abbrev pub view : Manager → View
view m id = lookup id m.vms

abbrev pub put : Bytes → Option Vm → View → View
put id v f j = if text_eq id j then v else f j

-- The map after a call that had a reply.
pub update : Op → Reply → View → View
update (create_vm req) (created (done vm)) f = put vm.id (some vm) f
update (destroy_vm id) (destroyed none) f = put id none f
update reap (reaped ids) f = λ j. if contains j ids then none else f j
update _ _ f = f

-- The replies that a call may have. A VM that is created is new, has what was asked for and a slot of
-- its own; one that is destroyed or reaped was there; one that is not there is not found.
pub Allowed : Op → Reply → View → Type 0
Allowed (create_vm req) (created (done vm)) f =
    (f vm.id ≡ none)
    × (vm.team_id ≡ req.team_id)
    × (vm.vcpu ≡ req.vcpu)
    × (vm.ram_mb ≡ req.ram_mb)
    × ((j : Bytes) (wm : Vm) → f j ≡ some wm → wm.slot ≢ vm.slot)
Allowed (create_vm req) (created (failed err)) f = Unit
Allowed (destroy_vm id) (destroyed none) f = (vm : Vm) × (f id ≡ some vm)
Allowed (destroy_vm id) (destroyed (some err)) f = f id ≡ none → err ≡ not_found
Allowed reap (reaped ids) f = (j : Bytes) → contains j ids ≡ true → (vm : Vm) × (f j ≡ some vm)
Allowed _ _ f = ⊥

-- The replies to a sequence of calls are allowed, one after another, and take one map to the other.
pub Accepts : List Op → List Reply → View → View → Type 0
Accepts [] [] f g = f ≡ g
Accepts (op ∷ ops) (reply ∷ replies) f g =
    Allowed op reply f × Accepts ops replies (update op reply f) g
Accepts _ _ f g = ⊥

module _ {S : Type 0} (env : Setting S) where
  create-Allowed :
      (req : CreateRequest) (a : Agent S)
      → IsSound env a
      → Allowed (create_vm req) (created (create env req a).0) (view a.manager)
        × (view (create env req a).1.manager
            ≡ update (create_vm req) (created (create env req a).0) (view a.manager))
  unfolding Allowed update commit release_slot
  create-Allowed req a s = elim (create-Created env req a) [
    | refused err e ↦ rw e (tt, refl)
    | aborted vm err t w h e ↦ rw e (tt, refl)
    | entered vm b t w h e ↦ rw e (
      (
        rw h.id (IsFresh-unlisted env a.manager a.world s.fresh),
        h.team_id,
        h.vcpu,
        h.ram_mb,
        λ j wm l same. ground (arith, s.consistent.owned j wm l, Reserved-free env req a vm h),
      ),
      fun_ext (λ j. lookup-insert vm.id j (running vm b) a.manager.vms),
    )
  ]

  destroy-Allowed :
      (id : Bytes) (a : Agent S)
      → Allowed (destroy_vm id) (destroyed (destroy env id a).0) (view a.manager)
        × (view (destroy env id a).1.manager
            ≡ update (destroy_vm id) (destroyed (destroy env id a).0) (view a.manager))
  unfolding Allowed update forget
  destroy-Allowed id a = elim (destroy-Destroyed env id a) [
    | unknown h e ↦ rw e (λ _. refl, refl)
    | kept vm err s w h cause e ↦ rw e (λ l. absurd (ground arith), refl)
    | forgotten vm s w h e ↦ rw e ((vm, h), fun_ext (λ j. lookup-delete id j a.manager.vms))
  ]

  reap-Allowed :
      (a : Agent S)
      → IsConsistent a.manager
      → Allowed reap (reaped (reap_expired env a).0) (view a.manager)
        × (view (reap_expired env a).1.manager
            ≡ update reap (reaped (reap_expired env a).0) (view a.manager))
  unfolding Allowed update
  reap-Allowed a c = (
    λ j h. elim (Option-cases (lookup j a.manager.vms)) [
      | inl missing ↦ absurd (ground (arith, (reap_expired_exact env a j c).1 h))
      | inr listed ↦ listed
    ],
    fun_ext (λ j. (reap_expired_exact env a j c).0),
  )

  -- From a manager whose slots are consistent, whose VMs are within the budget and have ids of past
  -- times, on a host of less than 2 ^ 62 units, with a clock that never runs backwards and of which
  -- two reads differ, a backend that only adds to the run and requests of less than 2 ^ 62 units,
  -- every sequence of Create, Destroy and ReapExpired has replies that an abstract map from ids to
  -- VMs allows: a created VM is new, of the team and sizes that were asked for, and on a slot of
  -- its own; a destroyed or reaped one was listed; one that is not listed is not found; and the map
  -- that these replies alone give is the manager's at the end.
  pub run_ops_refines :
      (ops : List Op) (a : Agent S)
      → IsOrdinary env
      → Advances env.responder
      → OnlyAdds env.backend
      → AllModest env ops
      → IsSound env a
      → Accepts ops (run_ops env ops a).0 (view a.manager) (view (run_ops env ops a).1.manager)
  unfolding run_ops perform Accepts
  run_ops_refines [] a o t adds q s = refl
  run_ops_refines (create_vm req ∷ ops) a o t adds q s =
      let (allowed, e) = create-Allowed req a s in
      (
        allowed,
        rw (← e) (run_ops_refines ops _ o t adds q.1 (create-IsSound env req a o t adds q.0 s)),
      )
  run_ops_refines (destroy_vm id ∷ ops) a o t adds q s =
      let (allowed, e) = destroy-Allowed id a in
      (allowed, rw (← e) (run_ops_refines ops _ o t adds q (destroy-IsSound env id a t adds s)))
  run_ops_refines (reap ∷ ops) a o t adds q s =
      let (allowed, e) = reap-Allowed a s.consistent in
      (allowed, rw (← e) (run_ops_refines ops _ o t adds q (reap_expired-IsSound env a t adds s)))
