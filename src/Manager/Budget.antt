-- ===== src/Manager/Budget.antt =====
-- internal/vmmanager/manager.go: the host-wide budget, over calls made one after another.
use devplat_agent.Base.{
  ℕ, ◌+◌, ◌^◌, ◌<◌, ◌≤◌, ◌≡◌, ◌≢◌, ap, ◌∙◌, inl, inr, ◌↔◌, false, ◌||◌, none, some, arith,
  Bool-cases, Option-cases, or-eq_false,
}
use devplat_agent.Base.Int.{ℤ, pos, negsuc, pos_part, neg_part, ◌<ℤ◌, leb_ℤ, ltb_ℤ}
use devplat_agent.Base.Words.{add64, add64_pos, add64_overflow}
use devplat_agent.Base.Text.{Bytes}
use devplat_agent.Base.Assoc.{lookup, bytes_key, int_key}
use devplat_agent.World.{done, failed, no_capacity}
use devplat_agent.Manager.State.{Vm, Manager, Agent, Setting}
use devplat_agent.Manager.Admission.{
  CreateRequest, admit, reserve, new_vm, over_budget, used_cpu, used_ram_mb, capacity_cpu,
  capacity_ram_mb, free_slot, vm_id,
}
use devplat_agent.Manager.Lifecycle.{create, destroy, commit, release_slot, forget}
use devplat_agent.Manager.Outcome.{
  running, refused, aborted, entered, create-Created, unknown, kept, forgotten, destroy-Destroyed,
}
use devplat_agent.Manager.FreeSlot.{free_slot-none}
use devplat_agent.Manager.Slots.{IsConsistent}
use devplat_agent.Manager.Totals.{
  AllSized, total, vcpu_of, ram_of, sum_from-total, total-insert, total-delete, AllSized-insert,
  AllSized-delete, listed_slots_need_cpus,
}

module _ {S : Type 0} (env : Setting S) where
  -- The listed VMs have positive sizes and together fit the host.
  pub record IsWithin (m : Manager) : Type 0 where
    pub sized : AllSized m.vms
    pub cpu : total vcpu_of m.vms ≤ pos_part (capacity_cpu env)
    pub ram : total ram_of m.vms ≤ pos_part (capacity_ram_mb env)

  -- The host is far smaller than an int64 can count.
  pub record IsOrdinary : Type 0 where
    pub cpu_pos : neg_part (capacity_cpu env) ≡ 0
    pub cpu : pos_part (capacity_cpu env) < 2 ^ 62
    pub ram : pos_part (capacity_ram_mb env) < 2 ^ 62

  -- A request that no sum with the host's capacity takes out of int64.
  pub record IsModest (req : CreateRequest) : Type 0 where
    pub cpu : pos_part req.vcpu < 2 ^ 62
    pub ram : pos_part req.ram_mb < 2 ^ 62

  -- The exact form of the budget test.
  abbrev pub Fits : Manager → CreateRequest → Type 0
  Fits m req =
      (total vcpu_of m.vms + pos_part req.vcpu ≤ pos_part (capacity_cpu env))
      × (total ram_of m.vms + pos_part req.ram_mb ≤ pos_part (capacity_ram_mb env))

  pub capacity_ram_mb-nonneg : neg_part (capacity_ram_mb env) ≡ 0
  unfolding capacity_ram_mb
  capacity_ram_mb-nonneg = ground arith

  pub used_cpu-total :
      (m : Manager) → IsOrdinary → IsWithin m → used_cpu m ≡ pos (total vcpu_of m.vms)
  unfolding used_cpu
  used_cpu-total m o v =
      sum_from-total vcpu_of 0 m.vms (λ vm h. h.0) v.sized (omega arith) ∙ ap pos (omega arith)

  pub used_ram_mb-total :
      (m : Manager) → IsOrdinary → IsWithin m → used_ram_mb m ≡ pos (total ram_of m.vms)
  unfolding used_ram_mb
  used_ram_mb-total m o v =
      sum_from-total ram_of 0 m.vms (λ vm h. h.1) v.sized (omega arith) ∙ ap pos (omega arith)

  over_test :
      (capacity : ℤ) (used : ℕ) (asked : ℤ)
      → neg_part capacity ≡ 0
      → pos_part capacity < 2 ^ 62
      → used ≤ pos_part capacity
      → pos 0 <ℤ asked
      → pos_part asked < 2 ^ 62
      → (ltb_ℤ capacity (add64 (pos used) asked) ≡ false)
        ↔ (used + pos_part asked ≤ pos_part capacity)
  over_test capacity used (negsuc n) hn hc hu ha hb = absurd (omega arith)
  over_test capacity used (pos n) hn hc hu ha hb =
      rw (add64_pos used n (omega arith)) (λ h. ground arith, λ h. ground arith)

  -- The int64 test of Create is the exact one for ordinary hosts and modest requests.
  pub over_budget-Fits :
      (m : Manager) (req : CreateRequest)
      → IsOrdinary
      → IsWithin m
      → IsModest req
      → pos 0 <ℤ req.vcpu
      → pos 0 <ℤ req.ram_mb
      → (over_budget env m req ≡ false) ↔ Fits m req
  unfolding over_budget
  over_budget-Fits m req o v q hc hr =
      let cpu = over_test (capacity_cpu env) _ req.vcpu o.cpu_pos o.cpu v.cpu hc q.cpu in
      let ram =
        over_test (capacity_ram_mb env) _ req.ram_mb capacity_ram_mb-nonneg o.ram v.ram hr q.ram in
      rw (used_cpu-total m o v, used_ram_mb-total m o v)
        (
          λ h. (cpu.0 ((or-eq_false _ _).0 h).0, ram.0 ((or-eq_false _ _).0 h).1),
          λ h. (or-eq_false _ _).1 (cpu.1 h.0, ram.1 h.1),
        )

  -- Within the budget a slot is always free: there are no more VMs than CPUs.
  pub Fits-free_slot :
      (m : Manager) (req : CreateRequest)
      → IsConsistent m
      → IsWithin m
      → pos 0 <ℤ req.vcpu
      → Fits m req
      → free_slot env m ≢ none
  unfolding capacity_cpu
  Fits-free_slot m req c v hc f full = absurd (omega (arith, crowded))
    where
      holder :
          (j : ℕ)
          → j < pos_part (capacity_cpu env)
          → (id : Bytes) × (vm : Vm) × (lookup id m.vms ≡ some vm) × (vm.slot ≡ pos j)
      holder j below = elim (Option-cases (lookup (pos j) m.slots)) [
        | inl free ↦ absurd (free_slot-none env m j full below free)
        | inr (id, taken) ↦
            let (vm, listed, at) = c.occupied (pos j) id taken in (id, vm, listed, at)
      ]

      crowded : pos_part (capacity_cpu env) ≤ total vcpu_of m.vms
      crowded = listed_slots_need_cpus _ m.vms v.sized holder

  -- On a host of less than 2 ^ 62 CPUs and MB, with consistent slots and sized VMs within the
  -- budget, a request of positive size below 2 ^ 62 units is admitted exactly where it fits the
  -- host with the listed VMs, and refused with ErrNoCapacity otherwise.
  pub admit_exact :
      (req : CreateRequest) (a : Agent S)
      → IsOrdinary
      → IsConsistent a.manager
      → IsWithin a.manager
      → IsModest req
      → pos 0 <ℤ req.vcpu
      → pos 0 <ℤ req.ram_mb
      → (Fits a.manager req → (vm : Vm) × ((admit env req a).0 ≡ done vm))
        × (¬ Fits a.manager req → admit env req a ≡ (failed no_capacity, a))
  unfolding admit reserve
  admit_exact req a o c v q hc hr = (
    λ fits. elim (Option-cases (free_slot env a.manager)) [
      | inl full ↦ absurd (Fits-free_slot a.manager req c v hc fits full)
      | inr (slot, found) ↦ ((new_vm env req slot a.world).0, rw (positive, exact.1 fits, found))
    ],
    λ tight. elim (Bool-cases (over_budget env a.manager req)) [
      | inl over ↦ rw (positive, over)
      | inr fits ↦ absurd (tight (exact.0 fits))
    ],
  )
    where
      positive : (leb_ℤ req.vcpu (pos 0) || leb_ℤ req.ram_mb (pos 0)) ≡ false
      positive = ground arith

      exact : (over_budget env a.manager req ≡ false) ↔ Fits a.manager req
      exact = over_budget-Fits a.manager req o v q hc hr

  -- Create keeps the listed VMs sized and within the host's CPUs and memory on every branch, for a
  -- host and a request of less than 2 ^ 62 units and an id that is not listed.
  pub create-IsWithin :
      (req : CreateRequest) (a : Agent S)
      → IsOrdinary
      → IsWithin a.manager
      → IsModest req
      → lookup (vm_id (env.responder.clock a.world)) a.manager.vms ≡ none
      → IsWithin (create env req a).1.manager
  unfolding commit release_slot
  create-IsWithin req a o v q fresh = elim (create-Created env req a) [
    | refused err e ↦ rw e v
    | aborted vm err s w h e ↦ rw e (record { sized = v.sized; cpu = v.cpu; ram = v.ram })
    | entered vm b s w h e ↦
        let unused : lookup vm.id a.manager.vms ≡ none = rw h.id fresh in
        let fits : Fits a.manager req =
          (over_budget-Fits a.manager req o v q h.some_cpu h.some_ram).0 h.within in
        rw e (record {
          sized =
              AllSized-insert vm.id (running vm b) a.manager.vms
                (rw (h.vcpu, h.ram_mb) (h.some_cpu, h.some_ram)) v.sized;
          cpu = rw (total-insert vcpu_of vm.id (running vm b) a.manager.vms unused, h.vcpu) fits.0;
          ram = rw (total-insert ram_of vm.id (running vm b) a.manager.vms unused, h.ram_mb) fits.1;
        })
  ]

  -- Destroy keeps the listed VMs sized and within the host's CPUs and memory on every branch.
  pub destroy-IsWithin :
      (id : Bytes) (a : Agent S) → IsWithin a.manager → IsWithin (destroy env id a).1.manager
  unfolding forget
  destroy-IsWithin id a v = elim (destroy-Destroyed env id a) [
    | unknown h e ↦ rw e v
    | kept vm err s w h cause e ↦ rw e v
    | forgotten vm s w h e ↦ rw e (record {
      sized = AllSized-delete id a.manager.vms v.sized;
      cpu = omega (arith, v.cpu, total-delete vcpu_of id a.manager.vms);
      ram = omega (arith, v.ram, total-delete ram_of id a.manager.vms);
    })
  ]

  -- On a host whose CPU count is not negative, with non-negative int64 numbers in use and asked
  -- for, a request passes the budget test where its CPUs and its memory, each added to what is
  -- used, leave int64.
  pub over_budget_overflow :
      (m : Manager) (req : CreateRequest) (cpus mbs asked_cpu asked_ram : ℕ)
      → neg_part (capacity_cpu env) ≡ 0
      → used_cpu m ≡ pos cpus
      → used_ram_mb m ≡ pos mbs
      → req.vcpu ≡ pos asked_cpu
      → req.ram_mb ≡ pos asked_ram
      → cpus < 2 ^ 63
      → mbs < 2 ^ 63
      → asked_cpu < 2 ^ 63
      → asked_ram < 2 ^ 63
      → 2 ^ 63 ≤ cpus + asked_cpu
      → 2 ^ 63 ≤ mbs + asked_ram
      → over_budget env m req ≡ false
  unfolding over_budget
  over_budget_overflow m req cpus mbs asked_cpu asked_ram n uc ur rc rr bc br bac bar oc or' =
      rw
        (
          uc,
          ur,
          rc,
          rr,
          add64_overflow cpus asked_cpu bc bac (omega arith),
          add64_overflow mbs asked_ram br bar (omega arith),
        )
        (ground (arith, capacity_ram_mb-nonneg))
