-- ===== src/Manager/Reconcile.antt =====
-- internal/vmmanager/manager.go: New and reconcile.
pub mod HeldSlots
pub mod Restart
use devplat_agent.Base.{Bool, true, false, List, [], ◌∷◌, Option, none, some, if◌then◌else◌}
use devplat_agent.Base.Text.{Bytes}
use devplat_agent.Base.Assoc.{insert, bytes_key, int_key}
use devplat_agent.Json.{Json}
use devplat_agent.World.{
  Io, World, attempt, pure, ◌>>=◌, ◌>>◌, Err, Result, done, failed, outside, wrapped,
  reconcile_state, mkdir_all,
}
use devplat_agent.Network.Tap.{Error}
use devplat_agent.Manager.State.{Vm, Manager, Agent, Setting, TimeFormat}
use devplat_agent.Manager.Meta.{unmarshal}

-- What a read of meta.json gives: an error, bytes that are no JSON, or a document.
pub data MetaFile : Type 0 where
  unreadable garbled : MetaFile
  document : Json → MetaFile

pub record Entry : Type 0 where
  pub name : Bytes
  pub is_dir : Bool
  pub meta : MetaFile

-- What os.ReadDir gives for the state directory.
pub data Listing : Type 0 where
  missing broken : Listing
  entries : List Entry → Listing

unfoldable pub recover : Vm → Manager → Manager
recover vm m = record { vms = insert vm.id vm m.vms; slots = insert vm.slot vm.id m.slots }

module _ (t : TimeFormat) where
  -- The VM of one entry, where it has one.
  unfoldable pub entry_vm : MetaFile → Option Vm
  entry_vm unreadable = none
  entry_vm garbled = none
  entry_vm (document j) = unmarshal t j

  unfoldable pub load_entries : List Entry → Manager → Manager
  unfolding entry_vm recover
  load_entries [] m = m
  load_entries (e ∷ es) m =
      load_entries es
        (if e.is_dir then elim (entry_vm e.meta) [ none ↦ m | some vm ↦ recover vm m ] else m)

abbrev pub no_vms : Manager
no_vms = record { vms = []; slots = [] }

module _ {S : Type 0} (env : Setting S) where
  unfoldable pub reconcile : Listing → Io (Result Manager)
  unfolding load_entries attempt
  reconcile missing = do
    made ← attempt env.responder (mkdir_all env.config.vm_state_dir)
    pure (if made then done no_vms else failed outside)
  reconcile broken = pure (failed outside)
  reconcile (entries es) = pure (done (load_entries env.time_format es no_vms))

  -- New
  unfoldable pub start : Listing → S → World → Result (Agent S)
  unfolding reconcile
  start listing s w =
      let (r, w') = reconcile listing w in
      elim r [
        | failed err ↦ failed (wrapped reconcile_state err)
        | done m ↦ done (record { manager = m; backend = s; world = w' })
      ]
