-- ===== src/Manager/Outcome/Admit.antt =====
-- internal/vmmanager/manager.go: the ways in which the first locked section of Create can end.
use devplat_agent.Base.{
  ℕ, ◌≡◌, refl, sym, ap, ◌∙◌, subst, false, ◌||◌, some, inl, inr, arith, Bool-cases, Option-cases,
}
use devplat_agent.Base.Int.{pos, ◌<ℤ◌, leb_ℤ}
use devplat_agent.Base.Assoc.{insert, bytes_key, int_key}
use devplat_agent.World.{World, Err, Result, done, failed, no_capacity, bad_size, read_clock}
use devplat_agent.Manager.State.{Vm, Booted, Manager, Agent, Setting}
use devplat_agent.Manager.Admission.{
  CreateRequest, admit, over_budget, free_slot, vm_id, ttl_of, new_vm, reserve,
}

-- The manager while a VM boots: its slot is taken, and it is not listed yet.
abbrev pub hold : Vm → Manager → Manager
hold vm m = record m { slots = insert vm.slot vm.id m.slots }

-- A VM as it leaves the backend.
abbrev pub running : Vm → Booted → Vm
running vm b = record vm { docker_endpoint = b.docker_endpoint; pid = b.pid }

module _ {S : Type 0} (env : Setting S) where
  -- What the first locked section of Create has established of the new VM.
  pub record Reserved (req : CreateRequest) (a : Agent S) (vm : Vm) : Type 0 where
    pub some_cpu : pos 0 <ℤ req.vcpu
    pub some_ram : pos 0 <ℤ req.ram_mb
    pub within : over_budget env a.manager req ≡ false
    pub index : ℕ
    pub found : free_slot env a.manager ≡ some index
    pub slot : vm.slot ≡ pos index
    pub id : vm.id ≡ vm_id (env.responder.clock a.world)
    pub team_id : vm.team_id ≡ req.team_id
    pub vcpu : vm.vcpu ≡ req.vcpu
    pub ram_mb : vm.ram_mb ≡ req.ram_mb
    pub ttl : vm.ttl ≡ ttl_of env.config req.ttl_minutes

  -- The first locked section refuses and changes nothing, or reserves a slot for a new VM.
  pub data Admitted (req : CreateRequest) (a : Agent S) (result : Result Vm × Agent S)
      : Type 0 where
    denied : (err : Err) → result ≡ (failed err, a) → Admitted req a result
    reserved :
        (vm : Vm) (w : World)
        → Reserved req a vm
        → result ≡ (done vm, record a { manager = hold vm a.manager; world = w })
        → Admitted req a result

  reserve-Admitted :
      (req : CreateRequest) (slot : ℕ) (a : Agent S)
      → pos 0 <ℤ req.vcpu
      → pos 0 <ℤ req.ram_mb
      → over_budget env a.manager req ≡ false
      → free_slot env a.manager ≡ some slot
      → Admitted req a (reserve env req slot a)
  unfolding reserve new_vm read_clock
  reserve-Admitted req slot a hc hr hb hs =
      reserved _ _
        (record {
          some_cpu = hc;
          some_ram = hr;
          within = hb;
          index = slot;
          found = hs;
          slot = refl;
          id = refl;
          team_id = refl;
          vcpu = refl;
          ram_mb = refl;
          ttl = refl;
        })
        refl

  pub admit-Admitted : (req : CreateRequest) (a : Agent S) → Admitted req a (admit env req a)
  unfolding admit
  admit-Admitted req a = elim (Bool-cases (leb_ℤ req.vcpu (pos 0) || leb_ℤ req.ram_mb (pos 0))) [
    | inl bad ↦ rw bad (denied bad_size refl)
    | inr good ↦ elim (Bool-cases (over_budget env a.manager req)) [
      | inl over ↦ rw (good, over) (denied no_capacity refl)
      | inr fits ↦ elim (Option-cases (free_slot env a.manager)) [
        | inl full ↦ rw (good, fits, full) (denied no_capacity refl)
        | inr (slot, found) ↦
            rw (good, fits, found)
              (reserve-Admitted req slot a (ground arith) (ground arith) fits found)
      ]
    ]
  ]

  -- A successful first section has reserved the VM that it returns.
  pub admit-Reserved :
      (req : CreateRequest) (a : Agent S) (vm : Vm)
      → (admit env req a).0 ≡ done vm
      → ((admit env req a).1.manager ≡ hold vm a.manager) × Reserved req a vm
  admit-Reserved req a vm ok = elim (admit-Admitted req a) [
    | denied err e ↦
        let clash : failed err ≡ done vm = sym (ap (λ (r : Result Vm × Agent S). r.0) e) ∙ ok in
        absurd (cc)
    | reserved wm w h e ↦
        let same : done wm ≡ done vm = sym (ap (λ (r : Result Vm × Agent S). r.0) e) ∙ ok in
        subst (λ (x : Vm). ((admit env req a).1.manager ≡ hold x a.manager) × Reserved req a x) (cc)
          (ap (λ (r : Result Vm × Agent S). r.1.manager) e, h)
  ]
