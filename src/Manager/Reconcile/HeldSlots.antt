-- ===== src/Manager/Reconcile/HeldSlots.antt =====
-- internal/vmmanager/manager.go: the slots that listed VMs hold, and those that are taken.
use devplat_agent.Base.{
  ◌≡◌, ◌≢◌, sym, ap, ◌∙◌, [], ◌∷◌, none, some, inl, inr, arith, All, Option-cases, Bool-cases, map,
}
use devplat_agent.Base.Int.{ℤ, eq_ℤ, eq_ℤ_iff}
use devplat_agent.Base.Text.{Bytes, text_eq, text_eq_iff}
use devplat_agent.Base.Assoc.{Assoc, lookup, IsMap, bytes_key, int_key}
use devplat_agent.Manager.State.{Vm, Manager}
use devplat_agent.Manager.Slots.{IsConsistent, slot_injective}

-- The slots that the VMs hold.
abbrev pub slots_of : Assoc Bytes Vm → Assoc ℤ Bytes
slots_of = map (λ (e : Bytes × Vm). (e.1.slot, e.1.id))

-- Every VM of the list is held under its own id.
abbrev Named : Assoc Bytes Vm → Type 0
Named = All (λ (e : Bytes × Vm). e.1.id ≡ e.0)

-- A slot of the list belongs to a VM of the list.
slots_of-lookup :
    (slot : ℤ) (id : Bytes) (vms : Assoc Bytes Vm)
    → IsMap vms
    → Named vms
    → lookup slot (slots_of vms) ≡ some id
    → (vm : Vm) × (lookup id vms ≡ some vm) × (vm.slot ≡ slot)
unfolding lookup
slots_of-lookup slot id [] u n h = absurd (cc)
slots_of-lookup slot id ((j, vm) ∷ vms) u n h = elim (Bool-cases (eq_ℤ vm.slot slot)) [
  | inl here ↦ (vm, ground (arith, text_eq_iff j id), ground (arith, eq_ℤ_iff vm.slot slot))
  | inr there ↦
      let (wm, listed, at) = slots_of-lookup slot id vms u.1 n.1 (ground arith) in
      (wm, ground (arith, text_eq_iff j id), at)
]

slots_of-none :
    (slot : ℤ) (id : Bytes) (vm : Vm) (vms : Assoc Bytes Vm)
    → lookup slot (slots_of vms) ≡ none
    → lookup id vms ≡ some vm
    → vm.slot ≢ slot
unfolding lookup
slots_of-none slot id vm [] h l = absurd (cc)
slots_of-none slot id vm ((j, wm) ∷ vms) h l =
    ground (arith, slots_of-none slot id vm vms, eq_ℤ_iff wm.slot slot)

Named-of :
    (vms : Assoc Bytes Vm)
    → IsMap vms
    → ((id : Bytes) (vm : Vm) → lookup id vms ≡ some vm → vm.id ≡ id)
    → Named vms
unfolding lookup
Named-of [] u h = tt
Named-of ((j, vm) ∷ vms) u h = (
  h j vm (ground (arith, text_eq_iff j j)),
  Named-of vms u.1 (λ id wm l. h id wm (ground (arith, text_eq_iff j id))),
)

slots_of-IsMap :
    (vms : Assoc Bytes Vm)
    → IsMap vms
    → Named vms
    → ((i j : Bytes) (vm wm : Vm)
        → lookup i vms ≡ some vm
        → lookup j vms ≡ some wm
        → vm.slot ≡ wm.slot
        → i ≡ j)
    → IsMap (slots_of vms)
unfolding lookup
slots_of-IsMap [] u n h = tt
slots_of-IsMap ((j, vm) ∷ vms) u n h = (
  elim (Option-cases (lookup vm.slot (slots_of vms))) [
    | inl free ↦ free
    | inr (id, taken) ↦
        let (wm, listed, at) = slots_of-lookup vm.slot id vms u.1 n.1 taken in
        let same : j ≡ id = elim (Bool-cases (text_eq j id)) [
          | inl e ↦ ground (arith, text_eq_iff j id)
          | inr e ↦ h j id vm wm (ground (arith, text_eq_iff j j)) (ground arith) (sym at)
        ] in
        absurd (ground arith)
  ],
  slots_of-IsMap vms u.1 n.1 (λ i k wm xm li lk e.
      h i k wm xm (ground (arith, text_eq_iff j i)) (ground (arith, text_eq_iff j k)) e),
)

pub consistent-IsMap : (m : Manager) → IsConsistent m → IsMap (slots_of m.vms)
consistent-IsMap m c =
    slots_of-IsMap m.vms c.once (Named-of m.vms c.once (λ id vm l. (c.owned id vm l).0))
      (λ i j vm wm li lj e. slot_injective m i j vm wm c li lj e)

-- In a consistent manager the taken slots are those of the listed VMs.
pub slots_of_exact :
    (m : Manager) (slot : ℤ) → IsConsistent m → lookup slot (slots_of m.vms) ≡ lookup slot m.slots
slots_of_exact m slot c = elim (Option-cases (lookup slot (slots_of m.vms))) [
  | inl free ↦ elim (Option-cases (lookup slot m.slots)) [
    | inl untaken ↦ free ∙ sym untaken
    | inr (id, taken) ↦
        let (vm, listed, at) = c.occupied slot id taken in
        absurd (slots_of-none slot id vm m.vms free listed at)
  ]
  | inr (id, held) ↦
      let (vm, listed, at) =
        slots_of-lookup slot id m.vms c.once (Named-of m.vms c.once (λ j wm l. (c.owned j wm l).0))
          held in
      held ∙ sym (ap (λ (s : ℤ). lookup s m.slots) (sym at) ∙ (c.owned id vm listed).1)
]
