-- ===== src/Firecracker/Rules/Setup.antt =====
-- internal/vmmanager/firecracker.go: the firewall rules that the set-up of the network leaves.
use devplat_agent.Base.{
  ℕ, ◌+◌, ◌≤◌, ◌≡◌, ap, ◌∙◌, subst, true, List, [], ◌∷◌, ◌++◌, none, some, arith, inl, inr,
  Bool-cases, Option-cases,
}
use devplat_agent.Base.Text.{Bytes, codes, text_eq}
use devplat_agent.World.{
  World, Responder, attempt, Result, done, failed, wrapped, firewall_setup, create_vm_state_dir,
  open_pty, open_console, run,
}
use devplat_agent.Config.{Config}
use devplat_agent.Network.Derive.{NetConfig}
use devplat_agent.Network.Tap.{Error, setup_tap_device, setup_bandwidth_cap, run_cmd}
use devplat_agent.Network.Firewall.{setup_firewall, teardown_firewall, setup_steps, apply_steps}
use devplat_agent.Network.Firewall.Teardown.{complete, stopped, apply_steps-Applied}
use devplat_agent.Manager.State.{Booted}
use devplat_agent.Firecracker.{setup_network}
use devplat_agent.Firecracker.Quiet.{setup_bandwidth_cap-IsQuiet}
use devplat_agent.Firecracker.Rules.{
  rule_count, copies, change, IsHonest, AllAppend, setup_steps-AllAppend, rule_count-Quiet,
  rule_count-succeeded, rule_count-teardown_firewall, rule_count-teardown_tap_device,
  rule_count-setup_tap_device,
}

-- Which of a VM's rules a stage that returned the error leaves in force.
pub data Left : Type 0 where
  all_left some_left none_left : Left

unfoldable pub left : Error → Left
left none = all_left
left (some (wrapped create_vm_state_dir e)) = all_left
left (some (wrapped open_pty e)) = all_left
left (some (wrapped open_console e)) = all_left
left (some (wrapped firewall_setup e)) = some_left
left (some err) = none_left

unfoldable pub error_of : Result Booted → Error
error_of (done b) = none
error_of (failed err) = some err

-- The copies of a rule after a stage, by those before and those that the VM's rules have.
unfoldable pub IsLeft : Left → ℕ → ℕ → ℕ → Type 0
IsLeft all_left own before after = after ≡ own + before
IsLeft some_left own before after = (before ≤ after) × (after ≤ own + before)
IsLeft none_left own before after = after ≡ before

copies-++ :
    (rule : List Bytes) (s t : List (List Bytes))
    → copies rule (s ++ t) ≡ copies rule s + copies rule t
unfolding copies
copies-++ rule [] t = omega arith
copies-++ rule (args ∷ s) t = ground (arith, copies-++ rule s t)

AllAppend-++ : (s t : List (List Bytes)) → AllAppend (s ++ t) → AllAppend s
AllAppend-++ [] t h = tt
AllAppend-++ (args ∷ s) t h = (h.0, AllAppend-++ s t h.1)

module _ (r : Responder) (cfg : Config) (nc : NetConfig) (rule : List Bytes)
    (honest : IsHonest r) where
  abbrev pub own : ℕ
  own = copies rule (setup_steps cfg nc)

  -- The firewall's own error is the cause; Boot wraps it as firewall_setup.
  firewall_left : Error → Left
  firewall_left none = all_left
  firewall_left (some err) = some_left

  apply_steps-IsLeft :
      (w : World)
      → IsLeft
          (firewall_left (apply_steps r (setup_steps cfg nc) w).0)
          own
          (rule_count rule w)
          (rule_count rule (apply_steps r (setup_steps cfg nc) w).1)
  unfolding IsLeft firewall_left rule_count change text_eq
  apply_steps-IsLeft w =
      let steps = setup_steps cfg nc in
      elim (apply_steps-Applied r steps w) [
        | complete e ↦ rw e (rule_count-succeeded rule steps w (setup_steps-AllAppend cfg nc))
        | stopped before args behind err s e ↦
            let all : AllAppend (before ++ (args ∷ behind)) =
              subst AllAppend s (setup_steps-AllAppend cfg nc) in
            rw e (
              ground (
                arith,
                rule_count-succeeded rule before w (AllAppend-++ before (args ∷ behind) all),
                copies-++ rule before (args ∷ behind),
                ap (copies rule) s,
              ))
      ]

  setup_firewall-IsLeft :
      (w : World)
      → IsLeft
          (firewall_left (setup_firewall r cfg nc w).0)
          own
          (rule_count rule w)
          (rule_count rule (setup_firewall r cfg nc w).1)
  unfolding setup_firewall run_cmd attempt IsLeft firewall_left rule_count text_eq
  setup_firewall-IsLeft w =
      let enable = run (codes "sysctl") (codes "-w" ∷ codes "net.ipv4.ip_forward=1" ∷ []) in
      let w1 : World = record { call = enable; ok = true } ∷ w in
      elim (Bool-cases (r.ok w enable)) [
        | inr off ↦ rw (off, setup_firewall) (omega arith, omega arith)
        | inl on ↦ rw (on, setup_firewall) (apply_steps-IsLeft w1)
      ]

  pub setup_network-IsLeft :
      (w : World)
      → IsLeft
          (left (setup_network r cfg nc w).0)
          own
          (rule_count rule w)
          (rule_count rule (setup_network r cfg nc w).1)
  unfolding setup_network IsLeft left firewall_left
  setup_network-IsLeft w =
      let w1 = (setup_tap_device r nc w).1 in
      let w2 = (setup_firewall r cfg nc w1).1 in
      let w3 = (setup_bandwidth_cap r nc cfg.bandwidth_cap_mbit w2).1 in
      let tap = rule_count-setup_tap_device r honest rule nc w in
      let cap =
        rule_count-Quiet rule (setup_bandwidth_cap-IsQuiet r nc cfg.bandwidth_cap_mbit w2) in
      elim (Option-cases (setup_tap_device r nc w).0) [
        | inr (err, e1) ↦ rw (e1, setup_network) tap
        | inl e1 ↦ elim (Option-cases (setup_firewall r cfg nc w1).0) [
          | inr (err, e2) ↦
              let rules : IsLeft some_left own (rule_count rule w1) (rule_count rule w2) =
                subst
                  (λ (e : Error).
                    IsLeft (firewall_left e) own (rule_count rule w1) (rule_count rule w2))
                  e2 (setup_firewall-IsLeft w1) in
              rw (e1, setup_network, e2)
                (ground (arith, tap, rules, rule_count-teardown_tap_device r honest rule nc w2))
          | inl e2 ↦
              let rules : IsLeft all_left own (rule_count rule w1) (rule_count rule w2) =
                subst
                  (λ (e : Error).
                    IsLeft (firewall_left e) own (rule_count rule w1) (rule_count rule w2))
                  e2 (setup_firewall-IsLeft w1) in
              elim (Option-cases (setup_bandwidth_cap r nc cfg.bandwidth_cap_mbit w2).0) [
                | inl e3 ↦ rw (e1, setup_network, e2, e3) (cap ∙ rules ∙ ap (λ n. own + n) tap)
                | inr (err, e3) ↦
                    rw (e1, setup_network, e2, e3)
                      (ground (
                        arith,
                        tap,
                        rules,
                        cap,
                        rule_count-teardown_firewall r honest rule cfg nc w3,
                        rule_count-teardown_tap_device r honest rule nc
                            (teardown_firewall r cfg nc w3).1,
                      ))
              ]
        ]
      ]
