-- ===== src/Manager/Reap/Exact.antt =====
-- internal/vmmanager/manager.go: a round of ReapExpired and the VMs that are listed.
use devplat_agent.Base.{
  ℕ, ◌≡◌, refl, sym, ◌∙◌, Bool, true, false, ◌||◌, List, [], ◌∷◌, Option, none, some, arith,
  if◌then◌else◌, Bool-cases,
}
use devplat_agent.Base.Text.{Bytes, text_eq, text_eq_iff}
use devplat_agent.Base.Assoc.{Assoc, lookup, lookup-delete, IsMap, bytes_key, int_key}
use devplat_agent.World.{World, Call, read_clock}
use devplat_agent.Manager.State.{Vm, Agent, Setting}
use devplat_agent.Manager.Lifecycle.{destroy, forget}
use devplat_agent.Manager.Outcome.{unknown, kept, forgotten, destroy-Destroyed}
use devplat_agent.Manager.Slots.{IsConsistent}
use devplat_agent.Manager.Reap.{is_expired, expired_ids, destroy_all, reap_expired}

pub contains : Bytes → List Bytes → Bool
contains id [] = false
contains id (j ∷ ids) = text_eq j id || contains id ids

-- Whether a lookup found a VM that is past its TTL.
abbrev pub found_expired : ℕ → Option Vm → Bool
found_expired now none = false
found_expired now (some vm) = is_expired now vm

contains-expired :
    (now : ℕ) (id : Bytes) (vms : Assoc Bytes Vm)
    → IsMap vms
    → contains id (expired_ids now vms) ≡ found_expired now (lookup id vms)
unfolding contains expired_ids lookup
contains-expired now id [] u = refl
contains-expired now id ((j, vm) ∷ vms) u =
    ground (arith, contains-expired now id vms u.1, text_eq_iff j id)

module _ {S : Type 0} (env : Setting S) where
  -- A Destroy that returns nil removes its VM; any other leaves the manager alone.
  pub destroy-lookup :
      (id j : Bytes) (a : Agent S)
      → lookup j (destroy env id a).1.manager.vms ≡ (elim (destroy env id a).0 [
        | none ↦ if text_eq id j then none else lookup j a.manager.vms
        | some err ↦ lookup j a.manager.vms
      ])
  unfolding forget
  destroy-lookup id j a = elim (destroy-Destroyed env id a) [
    | unknown h e ↦ rw e
    | kept vm err s w h cause e ↦ rw e
    | forgotten vm s w h e ↦ rw e (lookup-delete id j a.manager.vms)
  ]

  pub destroy_all-lookup :
      (j : Bytes) (ids : List Bytes) (a : Agent S)
      → lookup j (destroy_all env ids a).1.manager.vms
        ≡ (if contains j (destroy_all env ids a).0 then none else lookup j a.manager.vms)
  unfolding destroy_all contains
  destroy_all-lookup j [] a = refl
  destroy_all-lookup j (id ∷ ids) a =
      ground (arith, destroy-lookup id j a, destroy_all-lookup j ids (destroy env id a).1)

  destroy_all-contains :
      (j : Bytes) (ids : List Bytes) (a : Agent S)
      → contains j (destroy_all env ids a).0 ≡ true
      → contains j ids ≡ true
  unfolding destroy_all contains
  destroy_all-contains j [] a h = h
  destroy_all-contains j (id ∷ ids) a h =
      ground (arith, destroy_all-contains j ids (destroy env id a).1)

  -- For a consistent manager and whatever stops fail, ReapExpired removes exactly the VMs whose ids
  -- it returns, each of which was listed and past its TTL, and leaves every other one as it was.
  pub reap_expired_exact :
      (a : Agent S) (id : Bytes)
      → IsConsistent a.manager
      → let result = reap_expired env a in
        (lookup id result.1.manager.vms
          ≡ (if contains id result.0 then none else lookup id a.manager.vms))
        × (contains id result.0 ≡ true
            → found_expired (env.responder.clock a.world) (lookup id a.manager.vms) ≡ true)
  unfolding reap_expired read_clock
  reap_expired_exact a id c =
      let now = env.responder.clock a.world in
      let ids = expired_ids now a.manager.vms in
      let b : Agent S = record a { world = record { call = Call.now; ok = true } ∷ a.world } in
      (
        destroy_all-lookup id ids b,
        λ h. sym (contains-expired now id a.manager.vms c.once) ∙ destroy_all-contains id ids b h,
      )

  -- A backend that can stop every VM.
  abbrev pub AlwaysStops : Type 0
  AlwaysStops = (vm : Vm) (s : S) (w : World) → (env.backend.stop vm s w).0 ≡ none

  destroy_gone :
      (id : Bytes) (a : Agent S) → AlwaysStops → lookup id (destroy env id a).1.manager.vms ≡ none
  unfolding forget
  destroy_gone id a ok = elim (destroy-Destroyed env id a) [
    | unknown h e ↦ rw e h
    | kept vm err s w h cause e ↦
        let clash : some err ≡ none = sym cause ∙ ok vm a.backend a.world in absurd (cc)
    | forgotten vm s w h e ↦
        rw e (ground (arith, lookup-delete id id a.manager.vms, text_eq_iff id id))
  ]

  destroy_all_gone :
      (j : Bytes) (ids : List Bytes) (a : Agent S)
      → AlwaysStops
      → contains j ids ≡ true
      → lookup j (destroy_all env ids a).1.manager.vms ≡ none
  unfolding destroy_all contains
  destroy_all_gone j [] a ok h = absurd (cc)
  destroy_all_gone j (id ∷ ids) a ok h = ground (
    arith,
    text_eq_iff id j,
    destroy_all_gone j ids (destroy env id a).1 ok,
    destroy_all-lookup j ids (destroy env id a).1,
    destroy_gone id a ok,
  )

  -- With a consistent manager and a backend that can stop every VM, no VM listed after ReapExpired
  -- was past its TTL at the time of the round.
  pub reap_expired_complete :
      (a : Agent S) (id : Bytes) (vm : Vm)
      → IsConsistent a.manager
      → AlwaysStops
      → lookup id (reap_expired env a).1.manager.vms ≡ some vm
      → is_expired (env.responder.clock a.world) vm ≡ false
  unfolding reap_expired read_clock
  reap_expired_complete a id vm c ok h =
      let now = env.responder.clock a.world in
      let ids = expired_ids now a.manager.vms in
      let b : Agent S = record a { world = record { call = Call.now; ok = true } ∷ a.world } in
      ground (
        arith,
        contains-expired now id a.manager.vms c.once,
        destroy_all_gone id ids b ok,
        destroy_all-lookup id ids b,
        Bool-cases (contains id ids),
      )
