-- ===== src/Firecracker/Rules.antt =====
-- internal/vmmanager/network.go and firecracker.go: the firewall rules in force after a run, as
-- iptables keeps them: -A appends a rule, and -D deletes one that is there and fails otherwise.
pub mod Setup
pub mod Boot
pub mod Lifetime
pub mod Keeps
pub mod InForce
use devplat_agent.Base.{
  ℕ, zero, suc, ◌+◌, ◌-◌, ◌<◌, ◌≡◌, refl, sym, ap, ◌∙◌, subst, Option, Bool, true, false, ◌&&◌,
  ◌||◌, List, [], ◌∷◌, ◌++◌, map, none, some, arith, inl, inr, if◌then◌else◌, Bool-cases,
}
use devplat_agent.Base.Text.{Bytes, codes, text_eq, text_eq_refl, text_eq_iff}
use devplat_agent.World.{
  World, Event, Call, Responder, attempt, link_add, link_del, link_by_name, run,
}
use devplat_agent.World.Quiet.{Quiet, still, aside, shapes_network}
use devplat_agent.Config.{Config}
use devplat_agent.Network.Derive.{NetConfig}
use devplat_agent.Network.Tap.{Error, setup_tap_device, teardown_tap_device, run_cmd}
use devplat_agent.Network.Firewall.{
  setup_steps, teardown_steps, apply_steps, remove_steps, teardown_firewall,
}
use devplat_agent.Network.Firewall.Teardown.{succeeded, ran, iptables}

pub texts_eq : List Bytes → List Bytes → Bool
texts_eq [] [] = true
texts_eq (a ∷ s) (b ∷ t) = text_eq a b && texts_eq s t
texts_eq _ _ = false

texts_eq_sound : (s t : List Bytes) → texts_eq s t ≡ true → s ≡ t
unfolding texts_eq
texts_eq_sound [] [] h = refl
texts_eq_sound (a ∷ s) (b ∷ t) h = ground (arith, text_eq_iff a b, texts_eq_sound s t)
texts_eq_sound [] (b ∷ t) h = absurd (ground arith)
texts_eq_sound (a ∷ s) [] h = absurd (ground arith)

pub texts_eq_refl : (s : List Bytes) → texts_eq s s ≡ true
unfolding texts_eq
texts_eq_refl [] = refl
texts_eq_refl (a ∷ s) = ground (arith, text_eq_refl a, texts_eq_refl s)

-- Whether the arguments append a rule.
pub appends : List Bytes → Bool
unfolding text_eq
appends [] = false
appends (a ∷ args) =
    if text_eq a (codes "-A") then true else if text_eq a (codes "-D") then false else appends args

-- The rule that the arguments are about, as the arguments that delete it.
pub rule_of : List Bytes → List Bytes
unfolding text_eq
rule_of [] = []
rule_of (a ∷ args) =
    if text_eq a (codes "-A") || text_eq a (codes "-D") then codes "-D" ∷ args else a ∷ rule_of args

-- The number of a rule's copies after a command that succeeded.
pub change : List Bytes → List Bytes → ℕ → ℕ
change rule args n =
    if texts_eq (rule_of args) rule then (if appends args then suc n else n - 1) else n

-- The number of a rule's copies in force after a run, newest call first.
pub rule_count : List Bytes → World → ℕ
rule_count rule [] = 0
rule_count rule (e ∷ w) =
    let rest = rule_count rule w in
    elim e.call [
      | run name args ↦
          (if text_eq name (codes "iptables") && e.ok then change rule args rest else rest)
      | _ ↦ rest
    ]

pub copies : List Bytes → List (List Bytes) → ℕ
copies rule [] = 0
copies rule (args ∷ steps) =
    if texts_eq (rule_of args) rule then suc (copies rule steps) else copies rule steps

-- Deleting a rule that is in force succeeds.
abbrev pub IsHonest : Responder → Type 0
IsHonest r =
    (w : World) (args : List Bytes)
    → appends args ≡ false
    → 0 < rule_count (rule_of args) w
    → r.ok w (iptables args) ≡ true

abbrev pub AllAppend : List (List Bytes) → Type 0
AllAppend [] = Unit
AllAppend (args ∷ steps) = (appends args ≡ true) × AllAppend steps

abbrev pub AllDelete : List (List Bytes) → Type 0
AllDelete [] = Unit
AllDelete (args ∷ steps) = (appends args ≡ false) × AllDelete steps

pub setup_steps-AllAppend : (cfg : Config) (nc : NetConfig) → AllAppend (setup_steps cfg nc)
unfolding setup_steps appends
setup_steps-AllAppend cfg nc = (refl, (refl, (refl, (refl, (refl, (refl, (refl, tt)))))))

pub teardown_steps-AllDelete : (cfg : Config) (nc : NetConfig) → AllDelete (teardown_steps cfg nc)
unfolding teardown_steps appends
teardown_steps-AllDelete cfg nc = (refl, (refl, (refl, (refl, (refl, (refl, (refl, tt)))))))

pub copies-teardown_steps :
    (rule : List Bytes) (cfg : Config) (nc : NetConfig)
    → copies rule (teardown_steps cfg nc) ≡ copies rule (setup_steps cfg nc)
unfolding setup_steps teardown_steps copies rule_of
copies-teardown_steps rule cfg nc = refl

rule_count-aside :
    (rule : List Bytes) (c : Call) (ok : Bool) (w : World)
    → shapes_network c ≡ false
    → rule_count rule (record { call = c; ok = ok } ∷ w) ≡ rule_count rule w
unfolding rule_count
rule_count-aside rule (link_add n) ok w h = absurd (ground arith)
rule_count-aside rule (link_del n) ok w h = absurd (ground arith)
rule_count-aside rule (link_by_name n) ok w h = absurd (ground arith)
rule_count-aside rule (run name args) ok w h = ground arith
rule_count-aside rule _ ok w h = refl

pub rule_count-Quiet :
    (rule : List Bytes) {w v : World} → Quiet w v → rule_count rule v ≡ rule_count rule w
rule_count-Quiet rule still = refl
rule_count-Quiet rule (aside {v} e h q) =
    rule_count-aside rule e.call e.ok v h ∙ rule_count-Quiet rule q

pub rule_count-succeeded :
    (rule : List Bytes) (steps : List (List Bytes)) (w : World)
    → AllAppend steps
    → rule_count rule (succeeded steps w) ≡ copies rule steps + rule_count rule w
unfolding rule_count change copies text_eq
rule_count-succeeded rule [] w h = omega arith
rule_count-succeeded rule (args ∷ steps) w h =
    ground (arith, rule_count-succeeded rule steps (ran true args w) h.1)

module _ (r : Responder) (honest : IsHonest r) where
  -- A command that deletes a rule takes one copy of it away, if there is one.
  rule_count_delete :
      (rule args : List Bytes) (w : World)
      → appends args ≡ false
      → rule_count rule (attempt r (iptables args) w).1
        ≡ (if texts_eq (rule_of args) rule then rule_count rule w - 1 else rule_count rule w)
  unfolding rule_count change attempt text_eq
  rule_count_delete rule args w h = elim (Bool-cases (texts_eq (rule_of args) rule)) [
    | inr other ↦ ground arith
    | inl mine ↦
        let it : rule_of args ≡ rule = texts_eq_sound (rule_of args) rule mine in
        let works : 0 < rule_count rule w → r.ok w (iptables args) ≡ true =
          subst (λ (x : List Bytes). 0 < rule_count x w → r.ok w (iptables args) ≡ true) it
            (honest w args h) in
        ground (arith, works)
  ]

  rule_count-remove_steps :
      (rule : List Bytes) (steps : List (List Bytes)) (e : Error) (w : World)
      → AllDelete steps
      → rule_count rule (remove_steps r steps e w).1 ≡ rule_count rule w - copies rule steps
  unfolding remove_steps run_cmd copies
  rule_count-remove_steps rule [] e w h = omega arith
  rule_count-remove_steps rule (args ∷ steps) e w h = ground (
    arith,
    rule_count_delete rule args w h.0,
    rule_count-remove_steps rule steps
        (elim e [ none ↦ (run_cmd r (codes "iptables") args w).0 | some err ↦ some err ])
        (attempt r (iptables args) w).1 h.1,
  )

  pub rule_count-teardown_firewall :
      (rule : List Bytes) (cfg : Config) (nc : NetConfig) (w : World)
      → rule_count rule (teardown_firewall r cfg nc w).1
        ≡ rule_count rule w - copies rule (setup_steps cfg nc)
  unfolding teardown_firewall
  rule_count-teardown_firewall rule cfg nc w =
      rule_count-remove_steps rule (teardown_steps cfg nc) none w (teardown_steps-AllDelete cfg nc)
      ∙ ap (λ n. rule_count rule w - n) (copies-teardown_steps rule cfg nc)

  pub rule_count-teardown_tap_device :
      (rule : List Bytes) (nc : NetConfig) (w : World)
      → rule_count rule (teardown_tap_device r nc w).1 ≡ rule_count rule w
  unfolding teardown_tap_device rule_count
  rule_count-teardown_tap_device rule nc w = ground arith

  pub rule_count-setup_tap_device :
      (rule : List Bytes) (nc : NetConfig) (w : World)
      → rule_count rule (setup_tap_device r nc w).1 ≡ rule_count rule w
  unfolding setup_tap_device rule_count
  rule_count-setup_tap_device rule nc w = ground arith
