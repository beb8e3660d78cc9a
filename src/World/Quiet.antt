-- ===== src/World/Quiet.antt =====
-- Stages that leave the tap devices and the firewall alone, and stages that leave the machines alone.
use devplat_agent.Base.{◌≡◌, refl, Bool, true, false, ◌||◌, ◌∷◌, arith}
use devplat_agent.Base.Text.{codes, text_eq}
use devplat_agent.World.{
  World, Event, Call, link_add, link_del, link_by_name, run, start_machine, stop_vmm, cancel,
}
use devplat_agent.World.Growth.{Later, same, more}

-- The calls that make or remove a tap device or a rule, or look for a device.
abbrev pub shapes_network : Call → Bool
shapes_network (link_add name) = true
shapes_network (link_del name) = true
shapes_network (link_by_name name) = true
shapes_network (run name args) = text_eq name (codes "iptables")
shapes_network c = false

-- The calls that start or end a machine.
abbrev pub moves_machine : Call → Bool
moves_machine (start_machine id) = true
moves_machine (stop_vmm id) = true
moves_machine (cancel id) = true
moves_machine c = false

-- The second run is the first one with no such call on top.
pub data Aside (touches : Call → Bool) (w : World) : World → Type 0 where
  still : Aside touches w w
  aside :
      {v : World} (e : Event) → touches e.call ≡ false → Aside touches w v → Aside touches w (e ∷ v)

abbrev pub Quiet : World → World → Type 0
Quiet = Aside shapes_network

module _ {touches : Call → Bool} where
  pub Quiet-Later : {w v : World} → Aside touches w v → Later w v
  Quiet-Later still = same
  Quiet-Later (aside e h q) = more e (Quiet-Later q)

  pub Quiet-trans : {u v w : World} → Aside touches u v → Aside touches v w → Aside touches u w
  Quiet-trans l still = l
  Quiet-trans l (aside e h k) = aside e h (Quiet-trans l k)

  pub Quiet-below :
      {e : Event} {w v : World}
      → touches e.call ≡ false
      → Aside touches (e ∷ w) v
      → Aside touches w v
  Quiet-below h l = Quiet-trans (aside _ h still) l

abbrev pub IsQuiet {ℓ} : {A : Type ℓ} → (World → A × World) → Type 0
IsQuiet m = (w : World) → Quiet w (m w).1

-- No machine is started or ended.
abbrev pub IsCalm {ℓ} : {A : Type ℓ} → (World → A × World) → Type 0
IsCalm m = (w : World) → Aside moves_machine w (m w).1

-- Neither of these.
abbrev pub meddles : Call → Bool
meddles c = shapes_network c || moves_machine c

abbrev pub IsApart {ℓ} : {A : Type ℓ} → (World → A × World) → Type 0
IsApart m = (w : World) → Aside meddles w (m w).1

Aside-weaken :
    {t s : Call → Bool} {w v : World}
    → ((c : Call) → t c ≡ false → s c ≡ false)
    → Aside t w v
    → Aside s w v
Aside-weaken f still = still
Aside-weaken f (aside e h q) = aside e (f e.call h) (Aside-weaken f q)

pub IsApart-IsQuiet {ℓ} : {A : Type ℓ} → (m : World → A × World) → IsApart m → IsQuiet m
IsApart-IsQuiet m h w = Aside-weaken (λ c e. ground arith) (h w)

pub IsApart-IsCalm {ℓ} : {A : Type ℓ} → (m : World → A × World) → IsApart m → IsCalm m
IsApart-IsCalm m h w = Aside-weaken (λ c e. ground arith) (h w)

pub ruleset quiet = (arith, still, aside, Quiet-trans)
