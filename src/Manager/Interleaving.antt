-- ===== src/Manager/Interleaving.antt =====
-- Concurrent requests: the locked sections of Create and Destroy (internal/vmmanager/manager.go), in
-- any order. Between its sections a Create boots its VM and a Destroy stops it.
pub mod Invariant
pub mod Safety
pub mod Races
use devplat_agent.Base.{
  ℕ, ◌≡◌, refl, Bool, none, some, inl, inr, arith, ap, sym, ◌∙◌, Bool-cases, if◌then◌else◌, true,
  false,
}
use devplat_agent.Base.Int.{ℤ, pos, eq_ℤ, eq_ℤ_iff}
use devplat_agent.Base.Text.{Bytes, text_eq, text_eq_iff}
use devplat_agent.Base.Assoc.{
  Assoc, lookup, insert, delete, lookup-insert, lookup-delete, bytes_key, int_key,
}
use devplat_agent.World.{World, done}
use devplat_agent.Manager.State.{Vm, Booted, Manager, Agent, Setting}
use devplat_agent.Manager.Admission.{CreateRequest, admit}
use devplat_agent.Manager.Lifecycle.{commit, release_slot, forget}
use devplat_agent.Manager.Outcome.{
  hold, running, Reserved, Admitted, refused, reserved, admit-Admitted,
}
use devplat_agent.Manager.Slots.{Reserved-free}

-- The manager, the VMs that are booting and those that are being stopped, by id.
pub record System : Type 0 where
  pub manager : Manager
  pub creating : Assoc Bytes Vm
  pub stopping : Assoc Bytes Vm

module _ {S : Type 0} (env : Setting S) where
  pub data Step (s : System) : System → Type 0 where
    -- a Create passes its first section, with an id that is new
    admits :
        (req : CreateRequest) (a : Agent S) (vm : Vm) (t : System)
        → a.manager ≡ s.manager
        → (admit env req a).0 ≡ done vm
        → lookup vm.id s.manager.vms ≡ none
        → lookup vm.id s.creating ≡ none
        → t ≡ record s {
          manager = (admit env req a).1.manager;
          creating = insert vm.id vm s.creating;
        }
        → Step s t
    -- its boot succeeds, and its last section enters the VM
    enters :
        (id : Bytes) (vm : Vm) (b : Booted) (t : System)
        → lookup id s.creating ≡ some vm
        → t
          ≡ record s { manager = commit (running vm b) s.manager; creating = delete id s.creating }
        → Step s t
    -- its boot fails, and the slot is given back
    aborts :
        (id : Bytes) (vm : Vm) (t : System)
        → lookup id s.creating ≡ some vm
        → t ≡ record s { manager = release_slot vm.slot s.manager; creating = delete id s.creating }
        → Step s t
    -- a Destroy finds its VM, which no other Destroy is stopping
    begins :
        (id : Bytes) (vm : Vm) (t : System)
        → lookup id s.manager.vms ≡ some vm
        → lookup id s.stopping ≡ none
        → t ≡ record s { stopping = insert id vm s.stopping }
        → Step s t
    -- the stop fails, and the VM stays
    fails : (id : Bytes) (t : System) → t ≡ record s { stopping = delete id s.stopping } → Step s t
    -- the stop succeeds, and the last section forgets the VM
    ends :
        (id : Bytes) (vm : Vm) (t : System)
        → lookup id s.stopping ≡ some vm
        → t ≡ record s { manager = forget id vm s.manager; stopping = delete id s.stopping }
        → Step s t

  pub data Reach (s : System) : System → Type 0 where
    here : Reach s s
    next : {t u : System} → Reach s t → Step t u → Reach s u
