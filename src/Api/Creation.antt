-- ===== src/Api/Creation.antt =====
-- internal/api/server.go: the replies of POST /vms and DELETE /vms/{id}, and the VMs.
use devplat_agent.Base.{
  ℕ, ◌≡◌, refl, ◌⊎◌, inl, inr, true, false, [], ◌∷◌, Option, none, some, arith, Bool-cases,
}
use devplat_agent.Base.Int.{ℤ, eq_ℤ_iff}
use devplat_agent.Base.Text.{Bytes, codes, text_eq_iff}
use devplat_agent.Base.Assoc.{lookup, insert, lookup-insert, lookup-delete, bytes_key, int_key}
use devplat_agent.Json.{Json, bool, str, obj, object}
use devplat_agent.World.{World, Err, failed, is_no_capacity, is_not_found}
use devplat_agent.Manager.State.{Vm, Manager, Agent, Setting}
use devplat_agent.Manager.Admission.{CreateRequest}
use devplat_agent.Manager.Lifecycle.{create, commit, release_slot, forget}
use devplat_agent.Manager.Outcome.{
  hold, running, refused, aborted, entered, create-Created, unknown, kept, forgotten,
  destroy-Destroyed,
}
use devplat_agent.Manager.Slots.{Reserved-free}
use devplat_agent.Api.Acceptance.{drained, malformed, asks, accept_create-Verdict}
use devplat_agent.Api.Server.{
  Server, Reply, respond, write_error, create_reply, decode_request, handle_create_vm,
  handle_delete_vm,
}

-- The same VMs are listed, and the same slots are taken.
pub record Unchanged (m n : Manager) : Type 0 where
  pub vms : n.vms ≡ m.vms
  pub slots : (slot : ℤ) → lookup slot n.slots ≡ lookup slot m.slots

module _ {S : Type 0} (env : Setting S) where
  -- The replies of POST /vms: 503 from a server that drains; 201 with the id and the endpoint of a VM
  -- that is of the request's team and sizes, is listed and holds its slot; or an error of another
  -- status, and nothing has changed for the manager.
  pub data Answer (s : Server) (body : Option Json) (a : Agent S) (result : Reply × Agent S)
      : Type 0 where
    drains :
        s.draining ≡ true
        → result.0 ≡ respond 503 (obj (object ((codes "error", str (codes "host_draining")) ∷ [])))
        → result.1 ≡ a
        → Answer s body a result
    created :
        (req : CreateRequest) (vm : Vm)
        → s.draining ≡ false
        → decode_request body ≡ some req
        → (vm.team_id ≡ req.team_id) × (vm.vcpu ≡ req.vcpu) × (vm.ram_mb ≡ req.ram_mb)
        → result.0
          ≡ respond 201 (
              obj (
                object (
                  (codes "docker_endpoint", str vm.docker_endpoint)
                  ∷ (codes "vm_id", str vm.id)
                  ∷ [])))
        → lookup vm.id result.1.manager.vms ≡ some vm
        → lookup vm.slot result.1.manager.slots ≡ some vm.id
        → Answer s body a result
    rejected :
        (status : ℕ) (msg : Bytes)
        → s.draining ≡ false
        → result.0 ≡ respond status (obj (object ((codes "error", str msg) ∷ [])))
        → (status ≡ 400) ⊎ (status ≡ 409) ⊎ (status ≡ 500)
        → Unchanged a.manager result.1.manager
        → Answer s body a result

  unchanged : (m : Manager) → Unchanged m m
  unchanged m = record { vms = refl; slots = λ slot. refl }

  release-Unchanged :
      (m : Manager) (vm : Vm)
      → lookup vm.slot m.slots ≡ none
      → Unchanged m (release_slot vm.slot (hold vm m))
  unfolding release_slot
  release-Unchanged m vm free = record {
    vms = refl;
    slots = λ slot. ground (
      arith,
      lookup-delete vm.slot slot (insert vm.slot vm.id m.slots),
      lookup-insert vm.slot slot vm.id m.slots,
      eq_ℤ_iff vm.slot slot,
    );
  }

  module _ (s : Server) (body : Option Json) (open' : s.draining ≡ false) where
    failure-Answer :
        (a b : Agent S) (err : Err)
        → Unchanged a.manager b.manager
        → Answer s body a (create_reply (failed err), b)
    unfolding create_reply write_error
    failure-Answer a b err u = elim (Bool-cases (is_no_capacity err)) [
      | inl full ↦ rejected 409 (codes "no_capacity") open' (rw full) (ground arith) u
      | inr other ↦ rejected 500 (codes "create_failed") open' (rw other) (ground arith) u
    ]

    create-Answer :
        (req : CreateRequest) (a : Agent S)
        → decode_request body ≡ some req
        → Answer s body a (create_reply (create env req a).0, (create env req a).1)
    unfolding commit create_reply
    create-Answer req a good = elim (create-Created env req a) [
      | refused err e ↦ rw e (failure-Answer a a err (unchanged a.manager))
      | aborted vm err b w h e ↦
          rw e
            (failure-Answer a _ err (release-Unchanged a.manager vm (Reserved-free env req a vm h)))
      | entered vm b t w h e ↦ rw e (
          created req (running vm b) open' good (h.team_id, h.vcpu, h.ram_mb) refl
            (ground (
              arith,
              lookup-insert vm.id vm.id (running vm b) a.manager.vms,
              text_eq_iff vm.id vm.id,
            ))
            (ground (
              arith,
              lookup-insert vm.slot vm.slot vm.id a.manager.slots,
              eq_ℤ_iff vm.slot vm.slot,
            )))
    ]

  -- POST /vms answers 503 host_draining and changes nothing where the server drains; otherwise it
  -- answers 201 with the id as vm_id and the endpoint as docker_endpoint of a VM that has the team
  -- and the sizes of the body, is listed and holds its slot, or an error of status 400, 409 or 500
  -- and the listed VMs and the taken slots are unchanged.
  pub handle_create_vm-Answer :
      (s : Server) (body : Option Json) (a : Agent S)
      → Answer s body a (handle_create_vm env s body a)
  unfolding handle_create_vm write_error
  handle_create_vm-Answer s body a = elim (accept_create-Verdict s body) [
    | drained yes' e ↦ rw (e, handle_create_vm) (drains yes' refl refl)
    | malformed msg open' e ↦
        rw (e, handle_create_vm) (rejected 400 msg open' refl (ground arith) (unchanged a.manager))
    | asks req open' good e ↦ rw (e, handle_create_vm) (create-Answer s body open' req a good)
  ]

  -- The backend's errors are not the manager's ErrNotFound.
  abbrev pub OwnErrors : Type 0
  OwnErrors =
      (vm : Vm) (s : S) (w : World) (err : Err)
      → (env.backend.stop vm s w).0 ≡ some err
      → is_not_found err ≡ false

  -- If the backend's errors are not ErrNotFound, DELETE /vms/{id} answers 404 for an id that is not
  -- listed, with nothing changed, and for a listed VM either 200 with the VM gone and its slot
  -- free, or 500 with the manager unchanged.
  pub handle_delete_vm_exact :
      (id : Bytes) (a : Agent S)
      → OwnErrors
      → (lookup id a.manager.vms ≡ none
          → handle_delete_vm env id a ≡ (write_error 404 (codes "not_found"), a))
        × ((vm : Vm)
            → lookup id a.manager.vms ≡ some vm
            → let (reply, b) = handle_delete_vm env id a in
              ((reply ≡ respond 200 (obj (object ((codes "ok", bool true) ∷ []))))
                × (lookup id b.manager.vms ≡ none)
                × (lookup vm.slot b.manager.slots ≡ none))
              ⊎ ((reply ≡ write_error 500 (codes "destroy_failed")) × (b.manager ≡ a.manager)))
  unfolding handle_delete_vm forget
  handle_delete_vm_exact id a own = (
    λ missing. elim (destroy-Destroyed env id a) [
      | unknown h e ↦ rw e (unfold is_not_found in refl)
      | kept vm err s w h cause e ↦ absurd (ground arith)
      | forgotten vm s w h e ↦ absurd (ground arith)
    ],
    λ vm listed. elim (destroy-Destroyed env id a) [
      | unknown h e ↦ absurd (ground arith)
      | kept wm err s w h cause e ↦
          rw e (inr (unfold is_not_found in rw (own wm a.backend a.world err cause), refl))
      | forgotten wm s w h e ↦ rw e (
          inl (
            refl,
            ground (arith, lookup-delete id id a.manager.vms, text_eq_iff id id),
            ground (arith, lookup-delete wm.slot vm.slot a.manager.slots, eq_ℤ_iff wm.slot vm.slot),
          ))
    ],
  )
