-- ===== src/Manager/Totals.antt =====
-- internal/vmmanager/manager.go: the committed resources as exact sums, beside the int64 sums of
-- the code.
use devplat_agent.Base.{
  ℕ, zero, suc, ◌+◌, ◌^◌, ◌<◌, ◌≤◌, ◌≡◌, ◌≢◌, refl, ap, subst, ◌∙◌, Bool, true, false, ◌||◌, [],
  ◌∷◌, none, some, arith, if◌then◌else◌, All,
}
use devplat_agent.Base.Int.{ℤ, pos, negsuc, pos_part, ◌<ℤ◌, eq_ℤ, eq_ℤ_iff}
use devplat_agent.Base.Words.{add64, add64_pos}
use devplat_agent.Base.Text.{Bytes}
use devplat_agent.Base.Assoc.{Assoc, lookup, insert, delete, bytes_key}
use devplat_agent.Manager.State.{Vm}
use devplat_agent.Manager.Admission.{sum_from}

-- A VM has at least one CPU and some memory.
abbrev pub IsSized : Vm → Type 0
IsSized vm = (pos 0 <ℤ vm.vcpu) × (pos 0 <ℤ vm.ram_mb)

abbrev pub AllSized : Assoc Bytes Vm → Type 0
AllSized = All (λ (e : Bytes × Vm). IsSized e.1)

-- The exact sum of a size.
abbrev pub total : (Vm → ℤ) → Assoc Bytes Vm → ℕ
total size [] = 0
total size ((id, vm) ∷ vms) = pos_part (size vm) + total size vms

abbrev pub vcpu_of : Vm → ℤ
vcpu_of vm = vm.vcpu

abbrev pub ram_of : Vm → ℤ
ram_of vm = vm.ram_mb

-- A size that is positive for every sized VM.
abbrev pub Positive : (Vm → ℤ) → Type 0
Positive size = (vm : Vm) → IsSized vm → pos 0 <ℤ size vm

add64_sized :
    (acc : ℕ) (z : ℤ)
    → pos 0 <ℤ z
    → acc + pos_part z < 2 ^ 63
    → add64 (pos acc) z ≡ pos (acc + pos_part z)
add64_sized acc (pos n) h b = add64_pos acc n b
add64_sized acc (negsuc n) h b = absurd (omega arith)

-- As long as the exact sum fits in an int64, the sum of the code is exact.
pub sum_from-total :
    (size : Vm → ℤ) (acc : ℕ) (vms : Assoc Bytes Vm)
    → Positive size
    → AllSized vms
    → acc + total size vms < 2 ^ 63
    → sum_from size (pos acc) vms ≡ pos (acc + total size vms)
unfolding sum_from
sum_from-total size acc [] p s b = ap pos (omega arith)
sum_from-total size acc ((id, vm) ∷ vms) p s b =
    rw (add64_sized acc (size vm) (p vm s.0) (omega arith)) (
      sum_from-total size (acc + pos_part (size vm)) vms p s.1 (omega arith) ∙ ap pos (omega arith))

pub total-insert :
    (size : Vm → ℤ) (id : Bytes) (vm : Vm) (vms : Assoc Bytes Vm)
    → lookup id vms ≡ none
    → total size (insert id vm vms) ≡ total size vms + pos_part (size vm)
unfolding lookup insert
total-insert size id vm [] h = omega arith
total-insert size id vm ((j, wm) ∷ vms) h = ground (arith, total-insert size id vm vms)

pub total-delete :
    (size : Vm → ℤ) (id : Bytes) (vms : Assoc Bytes Vm)
    → total size (delete id vms) ≤ total size vms
unfolding delete
total-delete size id [] = omega arith
total-delete size id ((j, wm) ∷ vms) = ground (arith, total-delete size id vms)

pub AllSized-insert :
    (id : Bytes) (vm : Vm) (vms : Assoc Bytes Vm)
    → IsSized vm
    → AllSized vms
    → AllSized (insert id vm vms)
unfolding insert
AllSized-insert id vm [] h s = (h, tt)
AllSized-insert id vm ((j, wm) ∷ vms) h s = ground (arith, AllSized-insert id vm vms h s.1)

pub AllSized-delete : (id : Bytes) (vms : Assoc Bytes Vm) → AllSized vms → AllSized (delete id vms)
unfolding delete
AllSized-delete id [] s = tt
AllSized-delete id ((j, wm) ∷ vms) s = ground (arith, AllSized-delete id vms s.1)

-- Whether some VM has the slot.
has_slot : ℤ → Assoc Bytes Vm → Bool
has_slot slot [] = false
has_slot slot ((id, vm) ∷ vms) = eq_ℤ vm.slot slot || has_slot slot vms

without_slot : ℤ → Assoc Bytes Vm → Assoc Bytes Vm
without_slot slot [] = []
without_slot slot ((id, vm) ∷ vms) =
    let rest = without_slot slot vms in if eq_ℤ vm.slot slot then rest else (id, vm) ∷ rest

AllSized-without :
    (slot : ℤ) (vms : Assoc Bytes Vm) → AllSized vms → AllSized (without_slot slot vms)
unfolding without_slot
AllSized-without slot [] s = tt
AllSized-without slot ((id, vm) ∷ vms) s = ground (arith, AllSized-without slot vms s.1)

has_slot-without :
    (slot other : ℤ) (vms : Assoc Bytes Vm)
    → slot ≢ other
    → has_slot other (without_slot slot vms) ≡ has_slot other vms
unfolding has_slot without_slot
has_slot-without slot other [] ne = refl
has_slot-without slot other ((id, vm) ∷ vms) ne =
    ground
      (arith, has_slot-without slot other vms ne, eq_ℤ_iff vm.slot slot, eq_ℤ_iff vm.slot other)

total-without-le :
    (slot : ℤ) (vms : Assoc Bytes Vm) → total vcpu_of (without_slot slot vms) ≤ total vcpu_of vms
unfolding without_slot
total-without-le slot [] = omega arith
total-without-le slot ((id, vm) ∷ vms) = ground (arith, total-without-le slot vms)

total-without-lt :
    (slot : ℤ) (vms : Assoc Bytes Vm)
    → AllSized vms
    → has_slot slot vms ≡ true
    → total vcpu_of (without_slot slot vms) < total vcpu_of vms
unfolding has_slot without_slot
total-without-lt slot [] s h = absurd (cc)
total-without-lt slot ((id, vm) ∷ vms) s h =
    ground (arith, total-without-lt slot vms s.1, total-without-le slot vms)

-- If every slot below `n` has a VM, the VMs have at least `n` CPUs.
slots_need_cpus :
    (n : ℕ) (vms : Assoc Bytes Vm)
    → AllSized vms
    → ((j : ℕ) → j < n → has_slot (pos j) vms ≡ true)
    → n ≤ total vcpu_of vms
slots_need_cpus zero vms s h = omega arith
slots_need_cpus (suc n) vms s h =
    let fewer : n ≤ total vcpu_of (without_slot (pos n) vms) =
      slots_need_cpus n (without_slot (pos n) vms) (AllSized-without (pos n) vms s)
        (λ j below. has_slot-without (pos n) (pos j) vms (λ e. ground arith) ∙ h j (omega arith)) in
    omega (arith, total-without-lt (pos n) vms s (h n (omega arith)))

lookup-has_slot :
    (id : Bytes) (vm : Vm) (vms : Assoc Bytes Vm)
    → lookup id vms ≡ some vm
    → has_slot vm.slot vms ≡ true
unfolding lookup has_slot
lookup-has_slot id vm [] h = absurd (cc)
lookup-has_slot id vm ((j, wm) ∷ vms) h =
    ground (arith, lookup-has_slot id vm vms, eq_ℤ_iff wm.slot vm.slot)

-- The same for the VMs that a map lists.
pub listed_slots_need_cpus :
    (n : ℕ) (vms : Assoc Bytes Vm)
    → AllSized vms
    → ((j : ℕ) → j < n → (id : Bytes) × (vm : Vm) × (lookup id vms ≡ some vm) × (vm.slot ≡ pos j))
    → n ≤ total vcpu_of vms
listed_slots_need_cpus n vms s h = slots_need_cpus n vms s (λ j below.
    let (id, vm, listed, at) = h j below in
    subst (λ slot. has_slot slot vms ≡ true) at (lookup-has_slot id vm vms listed))
