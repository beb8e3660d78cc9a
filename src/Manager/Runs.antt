-- ===== src/Manager/Runs.antt =====
-- internal/vmmanager/manager.go: any sequence of the manager's operations, one after another.
pub mod Refines
pub mod Reported
use devplat_agent.Base.{
  ℕ, ◌≤◌, ◌<◌, ◌≡◌, ◌≢◌, refl, sym, ap, ◌∙◌, List, [], ◌∷◌, none, some, arith, inl, inr,
  Option-cases, Bool-cases,
}
use devplat_agent.Base.Int.{pos}
use devplat_agent.Base.Text.{Bytes, codes, itoa, itoa_injective, text_eq, text_eq_iff}
use devplat_agent.Base.Assoc.{lookup, lookup-insert, lookup-delete, bytes_key, int_key}
use devplat_agent.World.{World, Event, Call, Responder, Result, done, failed, read_clock}
use devplat_agent.World.Growth.{Later, same, more, Later-trans, Later-below}
use devplat_agent.Firecracker.Ready.Ends.{done_event}
use devplat_agent.Network.Tap.{Error}
use devplat_agent.Manager.State.{Vm, Manager, Agent, Setting}
use devplat_agent.Manager.Admission.{CreateRequest, vm_id}
use devplat_agent.Manager.Lifecycle.{create, destroy, commit, release_slot, forget}
use devplat_agent.Manager.Reap.{destroy_all, reap_expired}
use devplat_agent.Manager.Growth.{OnlyAdds, create-Later, create-grows, destroy-Later}
use devplat_agent.Manager.Outcome.{
  hold, running, Reserved, refused, aborted, entered, create-Created, unknown, kept, forgotten,
  destroy-Destroyed,
}
use devplat_agent.Reaper.{reap_expired-IsConsistent}
use devplat_agent.Manager.Slots.{IsConsistent, create-IsConsistent, destroy-IsConsistent}
use devplat_agent.Manager.Budget.{IsWithin, IsOrdinary, IsModest, create-IsWithin, destroy-IsWithin}

-- A clock that does not run backwards, and of which two reads differ.
pub record Advances (r : Responder) : Type 0 where
  pub forward : (w : World) (e : Event) → r.clock w ≤ r.clock (e ∷ w)
  pub strict : (w : World) → r.clock w < r.clock (done_event Call.now ∷ w)

pub clock-Later : (r : Responder) {w v : World} → Advances r → Later w v → r.clock w ≤ r.clock v
clock-Later r t same = omega arith
clock-Later r t (more {v} e l) = omega (arith, clock-Later r t l, t.forward v e)

pub vm_id_injective : (s t : ℕ) → vm_id s ≡ vm_id t → s ≡ t
unfolding vm_id
vm_id_injective s t h =
    let digits : itoa (pos s) ≡ itoa (pos t) = ground arith in itoa_injective s t digits

-- Every listed VM has the id of a time that is past.
abbrev pub IsFresh : Responder → Manager → World → Type 0
IsFresh r m w =
    (id : Bytes) (vm : Vm) → lookup id m.vms ≡ some vm → (t : ℕ) × (id ≡ vm_id t) × (t < r.clock w)

-- What every run keeps.
pub record IsSound {S : Type 0} (env : Setting S) (a : Agent S) : Type 0 where
  pub consistent : IsConsistent a.manager
  pub within : IsWithin env a.manager
  pub fresh : IsFresh env.responder a.manager a.world

-- The calls that a manager gets.
pub data Op : Type 0 where
  create_vm : CreateRequest → Op
  destroy_vm : Bytes → Op
  reap : Op

-- What they return.
pub data Reply : Type 0 where
  created : Result Vm → Reply
  destroyed : Error → Reply
  reaped : List Bytes → Reply

module _ {S : Type 0} (env : Setting S) where
  unfoldable pub perform : Op → Agent S → Reply × Agent S
  perform (create_vm req) a = let (result, a') = create env req a in (created result, a')
  perform (destroy_vm id) a = let (e, a') = destroy env id a in (destroyed e, a')
  perform reap a = let (ids, a') = reap_expired env a in (reaped ids, a')

  unfoldable pub run_ops : List Op → Agent S → List Reply × Agent S
  run_ops [] a = ([], a)
  run_ops (op ∷ ops) a =
      let (reply, a1) = perform op a in let (replies, a2) = run_ops ops a1 in (reply ∷ replies, a2)

  -- Every Create asks for less than 2 ^ 62 units.
  abbrev pub AllModest : List Op → Type 0
  AllModest [] = Unit
  AllModest (create_vm req ∷ ops) = IsModest env req × AllModest ops
  AllModest (destroy_vm id ∷ ops) = AllModest ops
  AllModest (reap ∷ ops) = AllModest ops

  pub IsFresh-later :
      (m : Manager) (w v : World)
      → Advances env.responder
      → Later w v
      → IsFresh env.responder m w
      → IsFresh env.responder m v
  IsFresh-later m w v t l f id vm h =
      let (s, e, below) = f id vm h in (s, e, omega (arith, clock-Later env.responder t l))

  pub IsFresh-unlisted :
      (m : Manager) (w : World)
      → IsFresh env.responder m w
      → lookup (vm_id (env.responder.clock w)) m.vms ≡ none
  IsFresh-unlisted m w f = elim (Option-cases (lookup (vm_id (env.responder.clock w)) m.vms)) [
    | inl e ↦ e
    | inr (vm, e) ↦
        let (t, same_id, below) = f _ vm e in
        absurd (omega (arith, vm_id_injective (env.responder.clock w) t same_id))
  ]

  pub create-IsFresh :
      (req : CreateRequest) (a : Agent S)
      → Advances env.responder
      → OnlyAdds env.backend
      → IsFresh env.responder a.manager a.world
      → IsFresh env.responder (create env req a).1.manager (create env req a).1.world
  unfolding commit release_slot
  create-IsFresh req a t adds f =
      let r = env.responder in
      let v = (create env req a).1.world in
      let old : IsFresh r a.manager v =
        IsFresh-later a.manager _ v t (create-grows env adds req a) f in
      elim (create-Created env req a) [
        | refused err e ↦ λ id vm h. old id vm (ground arith)
        | aborted vm err s w h e ↦ λ id wm l. old id wm (ground arith)
        | entered vm b s w h e ↦
            let later : Later (done_event Call.now ∷ a.world) v =
              create-Later env adds req a (running vm b) (ground arith) in
            λ id wm l. elim (Bool-cases (text_eq vm.id id)) [
              | inl mine ↦ (
                r.clock a.world,
                ground (arith, text_eq_iff vm.id id, h.id),
                omega (arith, t.strict a.world, clock-Later r t later),
              )
              | inr other ↦
                  old id wm (ground (arith, lookup-insert vm.id id (running vm b) a.manager.vms))
            ]
      ]

  pub destroy-IsFresh :
      (id : Bytes) (a : Agent S)
      → Advances env.responder
      → OnlyAdds env.backend
      → IsFresh env.responder a.manager a.world
      → IsFresh env.responder (destroy env id a).1.manager (destroy env id a).1.world
  unfolding forget
  destroy-IsFresh id a t adds f =
      let v = (destroy env id a).1.world in
      let old : IsFresh env.responder a.manager v =
        IsFresh-later a.manager _ v t (destroy-Later env adds id a) f in
      elim (destroy-Destroyed env id a) [
        | unknown h e ↦ λ j wm l. old j wm (ground arith)
        | kept vm err s w h cause e ↦ λ j wm l. old j wm (ground arith)
        | forgotten vm s w h e ↦
            λ j wm l. old j wm (ground (arith, lookup-delete id j a.manager.vms))
      ]

  pub create-IsSound :
      (req : CreateRequest) (a : Agent S)
      → IsOrdinary env
      → Advances env.responder
      → OnlyAdds env.backend
      → IsModest env req
      → IsSound env a
      → IsSound env (create env req a).1
  create-IsSound req a o t adds q s =
      let new = IsFresh-unlisted a.manager a.world s.fresh in
      record {
        consistent = create-IsConsistent env req a s.consistent new;
        within = create-IsWithin env req a o s.within q new;
        fresh = create-IsFresh req a t adds s.fresh;
      }

  pub destroy-IsSound :
      (id : Bytes) (a : Agent S)
      → Advances env.responder
      → OnlyAdds env.backend
      → IsSound env a
      → IsSound env (destroy env id a).1
  destroy-IsSound id a t adds s = record {
    consistent = destroy-IsConsistent env id a s.consistent;
    within = destroy-IsWithin env id a s.within;
    fresh = destroy-IsFresh id a t adds s.fresh;
  }

  destroy_all-IsFresh :
      (ids : List Bytes) (a : Agent S)
      → Advances env.responder
      → OnlyAdds env.backend
      → IsFresh env.responder a.manager a.world
      → IsFresh env.responder (destroy_all env ids a).1.manager (destroy_all env ids a).1.world
  unfolding destroy_all
  destroy_all-IsFresh [] a t adds f = f
  destroy_all-IsFresh (id ∷ ids) a t adds f =
      destroy_all-IsFresh ids (destroy env id a).1 t adds (destroy-IsFresh id a t adds f)

  pub reap_expired-IsFresh :
      (a : Agent S)
      → Advances env.responder
      → OnlyAdds env.backend
      → IsFresh env.responder a.manager a.world
      → IsFresh env.responder (reap_expired env a).1.manager (reap_expired env a).1.world
  unfolding reap_expired read_clock
  reap_expired-IsFresh a t adds f =
      destroy_all-IsFresh _ (record a { world = done_event Call.now ∷ a.world }) t adds
        (IsFresh-later a.manager a.world _ t (more _ same) f)

  destroy_all-IsWithin :
      (ids : List Bytes) (a : Agent S)
      → IsWithin env a.manager
      → IsWithin env (destroy_all env ids a).1.manager
  unfolding destroy_all
  destroy_all-IsWithin [] a v = v
  destroy_all-IsWithin (id ∷ ids) a v =
      destroy_all-IsWithin ids (destroy env id a).1 (destroy-IsWithin env id a v)

  pub reap_expired-IsSound :
      (a : Agent S)
      → Advances env.responder
      → OnlyAdds env.backend
      → IsSound env a
      → IsSound env (reap_expired env a).1
  unfolding reap_expired read_clock
  reap_expired-IsSound a t adds s = record {
    consistent = reap_expired-IsConsistent env a s.consistent;
    within = destroy_all-IsWithin _ _ s.within;
    fresh = reap_expired-IsFresh a t adds s.fresh;
  }

  -- On a host of less than 2 ^ 62 units, with a clock that never runs backwards and of which two
  -- reads differ, a backend that only adds to the run and requests of less than 2 ^ 62 units, a
  -- manager that is consistent in its slots, within the host's CPUs and memory, and with ids of
  -- past times is so again after every sequence of Create, Destroy and ReapExpired.
  pub run_ops-IsSound :
      (ops : List Op) (a : Agent S)
      → IsOrdinary env
      → Advances env.responder
      → OnlyAdds env.backend
      → AllModest ops
      → IsSound env a
      → IsSound env (run_ops ops a).1
  unfolding run_ops perform
  run_ops-IsSound [] a o t adds q s = s
  run_ops-IsSound (create_vm req ∷ ops) a o t adds q s =
      run_ops-IsSound ops _ o t adds q.1 (create-IsSound req a o t adds q.0 s)
  run_ops-IsSound (destroy_vm id ∷ ops) a o t adds q s =
      run_ops-IsSound ops _ o t adds q (destroy-IsSound id a t adds s)
  run_ops-IsSound (reap ∷ ops) a o t adds q s =
      run_ops-IsSound ops _ o t adds q (reap_expired-IsSound a t adds s)
