-- ===== src/Network/Firewall/Teardown.antt =====
-- internal/vmmanager/network.go: the commands of setupFirewall and teardownFirewall, whatever
-- fails.

use devplat_agent.Base.{
  ◌≡◌, refl, ap, Bool, true, false, List, [], ◌∷◌, ◌++◌, map, none, some, if◌then◌else◌, Bool-cases,
  inl, inr,
}
use devplat_agent.Base.Text.{Bytes, codes, text_eq}
use devplat_agent.World.{World, Call, Event, Responder, run, Err, outside}
use devplat_agent.Config.{Config}
use devplat_agent.Network.Derive.{NetConfig}
use devplat_agent.Network.Tap.{Error, run_cmd}
use devplat_agent.Network.Firewall.{
  setup_steps, teardown_steps, apply_steps, remove_steps, teardown_firewall,
}

-- The command that deletes the rule which a command appends: the first `-A` becomes `-D`.
pub as_delete : List Bytes → List Bytes
unfolding text_eq
as_delete [] = []
as_delete (a ∷ args) = if text_eq a (codes "-A") then codes "-D" ∷ args else a ∷ as_delete args

-- teardownFirewall's commands are those of setupFirewall in the same order, each with -A replaced
-- by -D.
pub teardown_mirrors_setup :
    (cfg : Config) (nc : NetConfig) → teardown_steps cfg nc ≡ map as_delete (setup_steps cfg nc)
unfolding as_delete setup_steps teardown_steps
teardown_mirrors_setup cfg nc = refl

-- The calls of a run, newest first.
abbrev pub calls : World → List Call
calls = map (λ (e : Event). e.call)

abbrev pub iptables : List Bytes → Call
iptables args = run (codes "iptables") args

-- Commands given in order, as the calls of a run.
abbrev pub issued : List (List Bytes) → List Call → List Call
issued [] older = older
issued (args ∷ steps) older = issued steps (iptables args ∷ older)

module _ (r : Responder) where
  remove_steps-issued :
      (steps : List (List Bytes)) (first : Error) (w : World)
      → calls (remove_steps r steps first w).1 ≡ issued steps (calls w)
  unfolding remove_steps run_cmd
  remove_steps-issued [] first w = refl
  remove_steps-issued (args ∷ steps) first w = remove_steps-issued steps _ _

  -- teardownFirewall runs the delete command of every rule that setupFirewall appends, in order,
  -- whichever of them fail.
  pub teardown_runs_all :
      (cfg : Config) (nc : NetConfig) (w : World)
      → calls (teardown_firewall r cfg nc w).1
        ≡ issued (map as_delete (setup_steps cfg nc)) (calls w)
  unfolding teardown_firewall
  teardown_runs_all cfg nc w =
      rw (← teardown_mirrors_setup cfg nc) (remove_steps-issued (teardown_steps cfg nc) none w)

-- The run after a command that had the given result.
abbrev pub ran : Bool → List Bytes → World → World
ran ok args w = record { call = iptables args; ok = ok } ∷ w

abbrev pub succeeded : List (List Bytes) → World → World
succeeded [] w = w
succeeded (args ∷ steps) w = succeeded steps (ran true args w)

-- Every command succeeded and the error is nil, or one failed, those before it succeeded, none
-- behind it was given, and there is an error.
pub data Applied (steps : List (List Bytes)) (w : World) (result : Error × World) : Type 0 where
  complete : result ≡ (none, succeeded steps w) → Applied steps w result
  stopped :
      (before : List (List Bytes)) (args : List Bytes) (behind : List (List Bytes)) (err : Err)
      → steps ≡ before ++ (args ∷ behind)
      → result ≡ (some err, ran false args (succeeded before w))
      → Applied steps w result

Applied-cons :
    (args : List Bytes) (steps : List (List Bytes)) (w : World) (result : Error × World)
    → Applied steps (ran true args w) result
    → Applied (args ∷ steps) w result
Applied-cons args steps w result (complete e) = complete e
Applied-cons args steps w result (stopped before a behind err s e) =
    stopped (args ∷ before) a behind err (ap (◌∷◌ args) s) e

module _ (r : Responder) where
  -- One round of the loop, at the answer of the command.
  round : List Bytes → List (List Bytes) → World → Bool → Error × World
  round args steps w b = elim (if b then none else some outside) [
    | none ↦ apply_steps r steps (ran b args w)
    | some err ↦ (some err, ran b args w)
  ]

  apply_steps-cons :
      (args : List Bytes) (steps : List (List Bytes)) (w : World)
      → apply_steps r (args ∷ steps) w ≡ round args steps w (r.ok w (iptables args))
  unfolding apply_steps run_cmd round
  apply_steps-cons args steps w = refl

  -- The loop of setupFirewall runs all commands, or stops at the first that fails with an error,
  -- with the rules of the commands before it left in place.
  pub apply_steps-Applied :
      (steps : List (List Bytes)) (w : World) → Applied steps w (apply_steps r steps w)
  unfolding round
  apply_steps-Applied [] w = unfold apply_steps in complete refl
  apply_steps-Applied (args ∷ steps) w = elim (Bool-cases (r.ok w (iptables args))) [
    | inl good ↦
        rw (apply_steps-cons args steps w, good)
          (Applied-cons args steps w _ (apply_steps-Applied steps (ran true args w)))
    | inr bad ↦ rw (apply_steps-cons args steps w, bad) (stopped [] args steps outside refl refl)
  ]
