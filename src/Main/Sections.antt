-- ===== src/Main/Sections.antt =====
-- cmd/agent/main.go with internal/api/server.go and internal/vmmanager/manager.go: the work that a
-- request or a round of the reaper does in its own goroutine, cut where it takes or drops the
-- manager's lock, so that others come in between.
use devplat_agent.Base.{zero, suc, ℕ, List, [], ◌∷◌, ◌++◌, none, some, if◌then◌else◌}
use devplat_agent.Base.Int.{ℤ}
use devplat_agent.Base.Text.{Bytes, codes, text_eq}
use devplat_agent.Base.Assoc.{lookup, bytes_key}
use devplat_agent.World.{World, Result, done, failed, not_found}
use devplat_agent.Regmetrics.{Fetched}
use devplat_agent.Network.Tap.{Error}
use devplat_agent.Manager.State.{Vm, Agent, Setting}
use devplat_agent.Manager.Admission.{CreateRequest, admit}
use devplat_agent.Manager.Lifecycle.{launch, settle, shut_down, forget}
use devplat_agent.Api.Server.{
  Request, Server, Reply, accepted, turned_down, accept_create, create_reply, delete_reply,
  write_error,
}
use devplat_agent.Api.Router.{Route, create_vm, delete_vm, route, dispatch}

-- What is left to do of a Create or of Destroys, at the start of one of its sections. Behind a Destroy
-- stand the ids that a round of the reaper destroys next.
pub data Job : Type 0 where
  -- Create is called, and has not taken the lock
  creating : CreateRequest → Job
  -- the slot is reserved, and the VM boots
  booting : Vm → Job
  -- the launch has given a result, for the VM of the slot
  settling : ℤ → Result Vm → Job
  -- Destroy is called, and has not looked the VM up
  destroying : Bytes → List Bytes → Job
  -- the VM is found, and is stopped
  stopping : Bytes → Vm → List Bytes → Job
  -- the stop has given its error or nil
  stopped : Bytes → Vm → Error → List Bytes → Job

-- Where a section ends: with the reply, or before the next section.
pub data Next : Type 0 where
  over : Reply → Next
  again : Job → Next

-- Destroy returns: the request is answered, or the loop of the reaper goes on.
unfoldable pub destroyed : List Bytes → Error → Next
destroyed [] e = over (delete_reply e)
destroyed (id ∷ ids) e = again (destroying id ids)

module _ {S : Type 0} (env : Setting S) where
  -- One section of a job.
  unfoldable pub advance : Job → Agent S → Next × Agent S
  advance (creating req) a =
      let (admitted, a1) = admit env req a in
      (
        elim admitted [
          | failed err ↦ over (create_reply (failed err))
          | done vm ↦ again (booting vm)
        ],
        a1,
      )
  advance (booting vm) a =
      let (result, s, w) = launch env vm a.backend a.world in
      (again (settling vm.slot result), record a { backend = s; world = w })
  advance (settling slot result) a =
      let (result', a1) = settle slot (result, a.backend, a.world) a.manager in
      (over (create_reply result'), a1)
  advance (destroying id ids) a = (
    elim (lookup id a.manager.vms) [
      | none ↦ destroyed ids (some not_found)
      | some vm ↦ again (stopping id vm ids)
    ],
    a,
  )
  advance (stopping id vm ids) a =
      let (e, s, w) = shut_down env vm a.backend a.world in
      (again (stopped id vm e ids), record a { backend = s; world = w })
  advance (stopped id vm (some err) ids) a = (destroyed ids (some err), a)
  advance (stopped id vm none ids) a =
      (destroyed ids none, record a { manager = forget id vm a.manager })

  unfoldable pub arrive_at : Route → Server → Request → Fetched → Agent S → Next × Agent S
  arrive_at create_vm s req fetched a = (
    elim (accept_create s req.body) [
      | turned_down reply ↦ over reply
      | accepted c ↦ again (creating c)
    ],
    a,
  )
  arrive_at (delete_vm id) s req fetched a = (again (destroying id []), a)
  arrive_at r s req fetched a = let (reply, a') = dispatch env r s req fetched a in (over reply, a')

  -- A request up to its first section: its authorization, its route and the guards of its handler.
  -- One that calls neither Create nor Destroy is answered.
  unfoldable pub arrive : Server → Request → Fetched → Agent S → Next × Agent S
  arrive s req fetched a =
      if text_eq req.authorization (codes "Bearer " ++ s.token)
      then arrive_at (route req.method req.path) s req fetched a
      else (over (write_error 401 (codes "invalid_agent_token")), a)

  -- At most so many sections of a job, with none of another in between.
  unfoldable pub straight : ℕ → Next × Agent S → Next × Agent S
  straight zero n = n
  straight (suc k) (over reply, a) = (over reply, a)
  straight (suc k) (again j, a) = straight k (advance j a)
