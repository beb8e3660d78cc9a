-- ===== src/Manager/Reconcile/Restart.antt =====
-- internal/vmmanager/manager.go: a restart of the agent, New over the metadata of the VMs that
-- run.
use devplat_agent.Base.{
  ◌≡◌, refl, ◌∙◌, true, false, List, [], ◌∷◌, Option, none, some, arith, if◌then◌else◌,
}
use devplat_agent.Base.Int.{ℤ, eq_ℤ, eq_ℤ_iff}
use devplat_agent.Base.Text.{Bytes, text_eq, text_eq_iff}
use devplat_agent.Base.Assoc.{Assoc, lookup, lookup-insert, IsMap, bytes_key, int_key}
use devplat_agent.World.{World, done}
use devplat_agent.Manager.State.{Vm, Manager, Agent, Setting, TimeFormat}
use devplat_agent.Manager.Meta.{marshal}
use devplat_agent.Manager.Meta.RoundTrip.{IsStorable, unmarshal-marshal}
use devplat_agent.Manager.Reconcile.{
  Entry, MetaFile, unreadable, garbled, document, entries, entry_vm, recover, load_entries, no_vms,
  start,
}
use devplat_agent.Manager.Slots.{IsConsistent}
use devplat_agent.Manager.Reconcile.HeldSlots.{slots_of, consistent-IsMap, slots_of_exact}

-- The state directory holds the metadata of these VMs, in some order, among other entries: plain
-- files, and directories whose metadata is missing or is no JSON.
pub data Holds (t : TimeFormat) : List Entry → Assoc Bytes Vm → Type 0 where
  empty : Holds t [] []
  vm_dir :
      {es : List Entry} {vms : Assoc Bytes Vm} (name : Bytes) (vm : Vm)
      → IsStorable t vm
      → Holds t es vms
      → Holds t
          (record { name = name; is_dir = true; meta = document (marshal t vm) } ∷ es)
          ((vm.id, vm) ∷ vms)
  plain_file :
      {es : List Entry} {vms : Assoc Bytes Vm} (name : Bytes) (meta : MetaFile)
      → Holds t es vms
      → Holds t (record { name = name; is_dir = false; meta = meta } ∷ es) vms
  half_created :
      {es : List Entry} {vms : Assoc Bytes Vm} (name : Bytes)
      → Holds t es vms
      → Holds t (record { name = name; is_dir = true; meta = unreadable } ∷ es) vms
  cut_short :
      {es : List Entry} {vms : Assoc Bytes Vm} (name : Bytes)
      → Holds t es vms
      → Holds t (record { name = name; is_dir = true; meta = garbled } ∷ es) vms

abbrev or_else {ℓ} : {A : Type ℓ} → Option A → Option A → Option A
or_else none o = o
or_else (some a) o = some a

or_else-none {ℓ} : {A : Type ℓ} (o : Option A) → or_else o none ≡ o
or_else-none none = refl
or_else-none (some a) = refl

recover-vms :
    (vm : Vm) (m : Manager) (id : Bytes)
    → lookup id (recover vm m).vms ≡ (if text_eq vm.id id then some vm else lookup id m.vms)
unfolding recover
recover-vms vm m id = lookup-insert vm.id id vm m.vms

recover-slots :
    (vm : Vm) (m : Manager) (slot : ℤ)
    → lookup slot (recover vm m).slots
      ≡ (if eq_ℤ vm.slot slot then some vm.id else lookup slot m.slots)
unfolding recover
recover-slots vm m slot = lookup-insert vm.slot slot vm.id m.slots

module _ (t : TimeFormat) where
  load_entries_vm :
      (name : Bytes) (vm : Vm) (es : List Entry) (m : Manager)
      → IsStorable t vm
      → load_entries t
          (record { name = name; is_dir = true; meta = document (marshal t vm) } ∷ es)
          m
        ≡ load_entries t es (recover vm m)
  unfolding load_entries entry_vm
  load_entries_vm name vm es m v = rw (unmarshal-marshal t vm v, load_entries)

  skip_file :
      (name : Bytes) (meta : MetaFile) (es : List Entry) (m : Manager)
      → load_entries t (record { name = name; is_dir = false; meta = meta } ∷ es) m
        ≡ load_entries t es m
  unfolding load_entries
  skip_file name meta es m = refl

  skip_dir :
      (name : Bytes) (es : List Entry) (m : Manager)
      → load_entries t (record { name = name; is_dir = true; meta = unreadable } ∷ es) m
        ≡ load_entries t es m
  unfolding load_entries
  skip_dir name es m = refl

  skip_garbled :
      (name : Bytes) (es : List Entry) (m : Manager)
      → load_entries t (record { name = name; is_dir = true; meta = garbled } ∷ es) m
        ≡ load_entries t es m
  unfolding load_entries
  skip_garbled name es m = refl

  load-vms :
      {es : List Entry} {vms : Assoc Bytes Vm} (h : Holds t es vms) (m : Manager) (id : Bytes)
      → IsMap vms
      → lookup id (load_entries t es m).vms ≡ or_else (lookup id vms) (lookup id m.vms)
  unfolding lookup
  load-vms empty m id u = unfold load_entries in refl
  load-vms {vms = _ ∷ vms} (vm_dir {es = es} name vm v h) m id u =
      rw (load_entries_vm name vm es m v) (
        ground (arith, load-vms h (recover vm m) id u.1, recover-vms vm m id, text_eq_iff vm.id id))
  load-vms (plain_file {es = es} name meta h) m id u =
      rw (skip_file name meta es m) (load-vms h m id u)
  load-vms (half_created {es = es} name h) m id u = rw (skip_dir name es m) (load-vms h m id u)
  load-vms (cut_short {es = es} name h) m id u = rw (skip_garbled name es m) (load-vms h m id u)

  load-slots :
      {es : List Entry} {vms : Assoc Bytes Vm} (h : Holds t es vms) (m : Manager) (slot : ℤ)
      → IsMap (slots_of vms)
      → lookup slot (load_entries t es m).slots
        ≡ or_else (lookup slot (slots_of vms)) (lookup slot m.slots)
  unfolding lookup
  load-slots empty m slot u = unfold load_entries in refl
  load-slots {vms = _ ∷ vms} (vm_dir {es = es} name vm v h) m slot u =
      rw (load_entries_vm name vm es m v) (
        ground (
          arith,
          load-slots h (recover vm m) slot u.1,
          recover-slots vm m slot,
          eq_ℤ_iff vm.slot slot,
        ))
  load-slots (plain_file {es = es} name meta h) m slot u =
      rw (skip_file name meta es m) (load-slots h m slot u)
  load-slots (half_created {es = es} name h) m slot u =
      rw (skip_dir name es m) (load-slots h m slot u)
  load-slots (cut_short {es = es} name h) m slot u =
      rw (skip_garbled name es m) (load-slots h m slot u)

module _ {S : Type 0} (env : Setting S) where
  -- Over a state directory that holds the metadata of exactly the listed VMs of a consistent
  -- manager, with int64 numbers and creation times that the time format gives back, among entries
  -- without metadata, New lists the same VMs and has the same slots taken.
  pub restart_restores :
      (m : Manager) (es : List Entry) (s : S) (w : World)
      → IsConsistent m
      → Holds env.time_format es m.vms
      → (a : Agent S) × (start env (entries es) s w ≡ done a)
        × ((id : Bytes) → lookup id a.manager.vms ≡ lookup id m.vms)
        × ((slot : ℤ) → lookup slot a.manager.slots ≡ lookup slot m.slots)
  unfolding start
  restart_restores m es s w c h = (
    record { manager = load_entries env.time_format es no_vms; backend = s; world = w },
    refl,
    λ id. unfold lookup in load-vms env.time_format h no_vms id c.once ∙ or_else-none _,
    λ slot.
        unfold lookup in
        load-slots env.time_format h no_vms slot (consistent-IsMap m c)
        ∙ or_else-none _
        ∙ slots_of_exact m slot c,
  )
