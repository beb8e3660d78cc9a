-- ===== src/Manager/Reap.antt =====
-- internal/vmmanager/manager.go: ReapExpired.
pub mod Exact
use devplat_agent.Base.{ℕ, Bool, List, [], ◌∷◌, Option, none, some, if◌then◌else◌}
use devplat_agent.Base.Int.{ℤ, pos, ltb_ℤ}
use devplat_agent.Base.Text.{Bytes}
use devplat_agent.Base.Assoc.{Assoc}
use devplat_agent.World.{read_clock, Err}
use devplat_agent.Manager.State.{Vm, Manager, Agent, Setting, expires_at}
use devplat_agent.Manager.Lifecycle.{destroy}

-- now.After(vm.ExpiresAt())
unfoldable pub is_expired : ℕ → Vm → Bool
unfolding expires_at
is_expired now vm = ltb_ℤ (expires_at vm) (pos now)

-- The ids of the expired VMs, in the order in which the map is ranged over.
unfoldable pub expired_ids : ℕ → Assoc Bytes Vm → List Bytes
expired_ids now [] = []
expired_ids now ((id, vm) ∷ vms) =
    let rest = expired_ids now vms in if is_expired now vm then id ∷ rest else rest

module _ {S : Type 0} (env : Setting S) where
  -- The second loop: those whose destruction fails are left out of the result.
  unfoldable pub destroy_all : List Bytes → Agent S → List Bytes × Agent S
  destroy_all [] a = ([], a)
  destroy_all (id ∷ ids) a =
      let (e, a1) = destroy env id a in
      let (reaped, a2) = destroy_all ids a1 in
      (elim e [ none ↦ id ∷ reaped | some err ↦ reaped ], a2)

  unfoldable pub reap_expired : Agent S → List Bytes × Agent S
  reap_expired a =
      let (now, w) = read_clock env.responder a.world in
      destroy_all (expired_ids now a.manager.vms) (record a { world = w })
