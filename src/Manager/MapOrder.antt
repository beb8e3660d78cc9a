-- ===== src/Manager/MapOrder.antt =====
-- internal/vmmanager/manager.go: the sums over the listed VMs, in any order in which the map is ranged
-- over.
use mathlib.Core.List.{Perm, Permᴰ}
use mathlib.Core.Logic.{∥∥₁_elim}
use mathlib.Core.Bool.{Bool-set}
use devplat_agent.Base.{suc, ◌≡◌, refl, ap, ◌∙◌, length, ==_iff}
use devplat_agent.Base.Int.{ℤ, pos, eq_ℤ_iff}
use devplat_agent.Base.Words.{add64, add64_swap}
use devplat_agent.Base.Text.{Bytes}
use devplat_agent.Base.Assoc.{Assoc}
use devplat_agent.Manager.State.{Vm, Manager, Setting}
use devplat_agent.Manager.Admission.{CreateRequest, sum_from, used_cpu, used_ram_mb, over_budget}
use devplat_agent.Manager.Queries.{health}

sum_from-Permᴰ :
    (size : Vm → ℤ) (sum : ℤ) {vms wms : Assoc Bytes Vm}
    → Permᴰ vms wms
    → sum_from size sum vms ≡ sum_from size sum wms
unfolding sum_from
sum_from-Permᴰ size sum Permᴰ.nil = refl
sum_from-Permᴰ size sum (Permᴰ.cons {a = a} {b = b} {l₂ = wms} e p) =
    sum_from-Permᴰ size (add64 sum (size a.1)) p
    ∙ ap (λ (x : Bytes × Vm). sum_from size (add64 sum (size x.1)) wms) e
sum_from-Permᴰ size sum (Permᴰ.swap {a = a} {b = b} {a' = a'} {b' = b'} {l = l} e1 e2) =
    ap (λ z. sum_from size z l) (add64_swap sum (size a.1) (size b.1))
    ∙ ap (λ (x : Bytes × Vm). sum_from size (add64 (add64 sum (size x.1)) (size a.1)) l) e2
    ∙ ap (λ (x : Bytes × Vm). sum_from size (add64 (add64 sum (size a'.1)) (size x.1)) l) e1
sum_from-Permᴰ size sum (Permᴰ.trans p q) = sum_from-Permᴰ size sum p ∙ sum_from-Permᴰ size sum q

length-Permᴰ : {vms wms : Assoc Bytes Vm} → Permᴰ vms wms → length vms ≡ length wms
length-Permᴰ Permᴰ.nil = refl
length-Permᴰ (Permᴰ.cons e p) = ap suc (length-Permᴰ p)
length-Permᴰ (Permᴰ.swap e1 e2) = refl
length-Permᴰ (Permᴰ.trans p q) = length-Permᴰ p ∙ length-Permᴰ q

sum_from-Perm :
    (size : Vm → ℤ) (sum : ℤ) (vms wms : Assoc Bytes Vm)
    → Perm vms wms
    → sum_from size sum vms ≡ sum_from size sum wms
sum_from-Perm size sum vms wms p = (eq_ℤ_iff (sum_from size sum vms) (sum_from size sum wms)).0 (
    ∥∥₁_elim p (Bool-set _ _) (λ d.
      (eq_ℤ_iff (sum_from size sum vms) (sum_from size sum wms)).1 (sum_from-Permᴰ size sum d)))

length-Perm : (vms wms : Assoc Bytes Vm) → Perm vms wms → length vms ≡ length wms
length-Perm vms wms p =
    (==_iff (length vms) (length wms)).0
      (∥∥₁_elim p (Bool-set _ _) (λ d. (==_iff (length vms) (length wms)).1 (length-Permᴰ d)))

module _ {S : Type 0} (env : Setting S) where
  -- The budget test of Create and the health status do not depend on the order in which the map of
  -- the VMs is ranged over.
  pub over_budget-Perm :
      (m n : Manager) (req : CreateRequest)
      → Perm m.vms n.vms
      → (over_budget env m req ≡ over_budget env n req) × (health env m ≡ health env n)
  unfolding over_budget health used_cpu used_ram_mb
  over_budget-Perm m n req p =
      let cpu = sum_from-Perm (λ vm. vm.vcpu) (pos 0) m.vms n.vms p in
      let ram = sum_from-Perm (λ vm. vm.ram_mb) (pos 0) m.vms n.vms p in
      (rw (cpu, ram), rw (cpu, ram, length-Perm m.vms n.vms p))
