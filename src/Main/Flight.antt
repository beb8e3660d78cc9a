-- ===== src/Main/Flight.antt =====
-- cmd/agent/main.go: the Creates that are in flight, over the sections of the requests.
pub mod Arrive
use devplat_agent.Base.{
  ◌≡◌, refl, ◌⊎◌, true, List, [], ◌∷◌, ◌++◌, Option, some, none, ◌||◌, Option-cases, arith, inl,
  inr, Bool-cases, sym, ◌∙◌, ap,
}
use devplat_agent.Base.Text.{Bytes, codes, atoi, text_eq}
use devplat_agent.Base.Assoc.{lookup, lookup-insert, lookup-delete, bytes_key, int_key}
use devplat_agent.Json.{Json}
use devplat_agent.World.{World, Result, done, failed, not_found}
use devplat_agent.Base.Int.{pos, ltb_ℤ}
use devplat_agent.Regmetrics.{Fetched}
use devplat_agent.Network.Tap.{Error}
use devplat_agent.Manager.State.{Vm, Agent, Setting}
use devplat_agent.Manager.Admission.{CreateRequest, admit}
use devplat_agent.Manager.Lifecycle.{settle, commit, release_slot, forget}
use devplat_agent.Manager.Outcome.{
  denied, reserved, admit-Admitted, Launched, lost, up, launch-Launched, Admitted,
}
use devplat_agent.Api.Server.{
  Request, Server, Reply, handle_list_vms, handle_health, handle_proxy_port, connect, write_error,
  create_reply, Accepted, turned_down, accepted,
}
use devplat_agent.Api.Acceptance.{Verdict, drained, malformed, asks, accept_create-Verdict}
use devplat_agent.Manager.Queries.{guest_addr}
use devplat_agent.Api.Router.{health as health_route}
use devplat_agent.Api.Router.{
  Route, create_vm, list_vms, no_path, no_method, delete_vm, proxy_port, dispatch, route,
}
use devplat_agent.Main.{resume, reap_job}
use devplat_agent.Main.Sections.{
  Job, creating, booting, settling, destroying, stopping, stopped, Next, over, again, destroyed,
  advance, arrive, arrive_at,
}

-- A job is a Create that can still list the VM: it asks for its team and sizes, or boots it, or has it
-- as its result.
abbrev pub Makes : Vm → Job → Type 0
Makes vm (creating req) =
    (vm.team_id ≡ req.team_id) × (vm.vcpu ≡ req.vcpu) × (vm.ram_mb ≡ req.ram_mb)
Makes vm (booting v) =
    (vm.id ≡ v.id) × (vm.team_id ≡ v.team_id) × (vm.vcpu ≡ v.vcpu) × (vm.ram_mb ≡ v.ram_mb)
Makes vm (settling slot (done v)) = vm ≡ v
Makes vm (settling slot (failed err)) = ⊥
Makes vm (destroying id ids) = ⊥
Makes vm (stopping id v ids) = ⊥
Makes vm (stopped id v e ids) = ⊥

abbrev pub InFlight : Vm → List Job → Type 0
InFlight vm [] = ⊥
InFlight vm (j ∷ jobs) = Makes vm j ⊎ InFlight vm jobs

abbrev pub GoesOn : Vm → Next → Type 0
GoesOn vm (over reply) = ⊥
GoesOn vm (again j) = Makes vm j

pub InFlight-resume :
    (vm : Vm) (n : Next) (jobs : List Job)
    → InFlight vm (resume n jobs)
    → GoesOn vm n ⊎ InFlight vm jobs
unfolding resume
InFlight-resume vm (over reply) jobs f = inr f
InFlight-resume vm (again j) jobs f = f

pub InFlight-section :
    (vm : Vm) (before : List Job) (j : Job) (n : Next) (behind : List Job)
    → (GoesOn vm n → Makes vm j)
    → InFlight vm (before ++ resume n behind)
    → InFlight vm (before ++ (j ∷ behind))
InFlight-section vm [] j n behind own f = elim (InFlight-resume vm n behind f) [
  | inl g ↦ inl (own g)
  | inr g ↦ inr g
]
InFlight-section vm (i ∷ before) j n behind own (inl f) = inl f
InFlight-section vm (i ∷ before) j n behind own (inr f) =
    inr (InFlight-section vm before j n behind own f)

pub InFlight-here :
    (vm : Vm) (before : List Job) (j : Job) (behind : List Job)
    → Makes vm j
    → InFlight vm (before ++ (j ∷ behind))
InFlight-here vm [] j behind m = inl m
InFlight-here vm (i ∷ before) j behind m = inr (InFlight-here vm before j behind m)

destroyed-GoesOn : (vm : Vm) (ids : List Bytes) (e : Error) → GoesOn vm (destroyed ids e) → ⊥
unfolding destroyed
destroyed-GoesOn vm [] e g = g
destroyed-GoesOn vm (id ∷ ids) e g = g

pub InFlight-reap_job :
    (vm : Vm) (ids : List Bytes) (jobs : List Job)
    → InFlight vm (reap_job ids jobs)
    → InFlight vm jobs
unfolding reap_job
InFlight-reap_job vm [] jobs f = f
InFlight-reap_job vm (id ∷ ids) jobs (inl f) = absurd f
InFlight-reap_job vm (id ∷ ids) jobs (inr f) = f

done_injective : {A : Type 0} {a b : A} → Result.done a ≡ done b → a ≡ b
done_injective h = cc

module _ {S : Type 0} (env : Setting S) where
  Admitted-GoesOn :
      (vm : Vm) (req : CreateRequest) (a : Agent S) (r : Result Vm × Agent S)
      → Admitted env req a r
      → ((v : Vm) → r.0 ≡ done v → Makes vm (booting v) → Makes vm (creating req))
        × (r.1.manager.vms ≡ a.manager.vms)
  Admitted-GoesOn vm req a r (denied err e) = (λ v h. absurd (ground arith), ground arith)
  Admitted-GoesOn vm req a r (reserved v w h e) = (
    λ u same (i, t, c, m).
        let q : v ≡ u = done_injective (sym (ap (λ (x : Result Vm × Agent S). x.0) e) ∙ same) in
        (
          t ∙ sym (ap (λ (x : Vm). x.team_id) q) ∙ h.team_id,
          c ∙ sym (ap (λ (x : Vm). x.vcpu) q) ∙ h.vcpu,
          m ∙ sym (ap (λ (x : Vm). x.ram_mb) q) ∙ h.ram_mb,
        ),
    ap (λ (x : Result Vm × Agent S). x.1.manager.vms) e,
  )

  launched-GoesOn :
      (vm v : Vm) (result : Result Vm × S × World)
      → Launched env v result
      → Makes vm (settling v.slot result.0)
      → Makes vm (booting v)
  launched-GoesOn vm v result (lost err s w e) = rw e (λ m. absurd m)
  launched-GoesOn vm v result (up b s w e) = rw e (λ m. (
    ap (λ (x : Vm). x.id) m,
    ap (λ (x : Vm). x.team_id) m,
    ap (λ (x : Vm). x.vcpu) m,
    ap (λ (x : Vm). x.ram_mb) m,
  ))

  -- What a section goes on with makes no VM that its job did not.
  pub advance-GoesOn :
      (vm : Vm) (j : Job) (a : Agent S) → GoesOn vm (advance env j a).0 → Makes vm j
  unfolding advance
  advance-GoesOn vm (creating req) a g =
      after (admit env req a).0 (Admitted-GoesOn vm req a _ (admit-Admitted env req a)).0 g
    where
      after :
          (r : Result Vm)
          → ((v : Vm) → r ≡ done v → Makes vm (booting v) → Makes vm (creating req))
          → GoesOn vm (elim r [
            | failed err ↦ over (create_reply (failed err))
            | done v ↦ again (booting v)
          ])
          → Makes vm (creating req)
      after (failed err) h g = absurd g
      after (done v) h g = h v refl g
  advance-GoesOn vm (booting v) a g =
      launched-GoesOn vm v _ (launch-Launched env v a.backend a.world) g
  advance-GoesOn vm (settling slot result) a g = absurd g
  advance-GoesOn vm (destroying id ids) a g = after (lookup id a.manager.vms) g
    where
      after :
          (v : Option Vm)
          → GoesOn vm (elim v [
            | none ↦ destroyed ids (some not_found)
            | some u ↦ again (stopping id u ids)
          ])
          → ⊥
      after none g = destroyed-GoesOn vm ids (some not_found) g
      after (some u) g = g
  advance-GoesOn vm (stopping id v ids) a g = g
  advance-GoesOn vm (stopped id v (some err) ids) a g = destroyed-GoesOn vm ids (some err) g
  advance-GoesOn vm (stopped id v none ids) a g = destroyed-GoesOn vm ids none g

  -- A VM that is listed behind a section was listed before, or its job makes it.
  pub advance-listed :
      (id : Bytes) (vm : Vm) (j : Job) (a : Agent S)
      → lookup id (advance env j a).1.manager.vms ≡ some vm
      → (lookup id a.manager.vms ≡ some vm) ⊎ Makes vm j
  unfolding advance settle commit release_slot forget
  advance-listed id vm (creating req) a l =
      let same = (Admitted-GoesOn vm req a _ (admit-Admitted env req a)).1 in
      inl (ap (lookup id) (sym same) ∙ l)
  advance-listed id vm (booting v) a l = inl l
  advance-listed id vm (settling slot (failed err)) a l = inl l
  advance-listed id vm (settling slot (done v)) a l =
      ground (arith, lookup-insert v.id id v a.manager.vms)
  advance-listed id vm (destroying j ids) a l = inl l
  advance-listed id vm (stopping j v ids) a l = inl l
  advance-listed id vm (stopped j v (some err) ids) a l = inl l
  advance-listed id vm (stopped j v none ids) a l =
      inl (ground (arith, lookup-delete j id a.manager.vms))
