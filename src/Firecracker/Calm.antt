-- ===== src/Firecracker/Calm.antt =====
-- internal/vmmanager/firecracker.go and network.go: the parts of a Boot that start and end no machine.
use devplat_agent.Base.{refl, List, [], ◌∷◌, none}
use devplat_agent.Base.Text.{Bytes, codes}
use devplat_agent.World.{Responder}
use devplat_agent.World.Quiet.{still, Quiet-trans, Quiet-below, IsCalm, IsApart-IsCalm, quiet}
use devplat_agent.Config.{Config}
use devplat_agent.Network.Derive.{NetConfig}
use devplat_agent.Network.Tap.{
  Error, setup_tap_device, teardown_tap_device, setup_bandwidth_cap, run_cmd,
}
use devplat_agent.Network.Firewall.{
  setup_firewall, teardown_firewall, setup_steps, teardown_steps, apply_steps, remove_steps,
}
use devplat_agent.Firecracker.{setup_network, teardown_network}
use devplat_agent.Firecracker.Quiet.{setup_bandwidth_cap-IsApart}

module _ (r : Responder) where
  setup_tap_device-IsCalm : (nc : NetConfig) → IsCalm (setup_tap_device r nc)
  unfolding setup_tap_device
  setup_tap_device-IsCalm nc w = grind quiet

  teardown_tap_device-IsCalm : (nc : NetConfig) → IsCalm (teardown_tap_device r nc)
  unfolding teardown_tap_device
  teardown_tap_device-IsCalm nc w = grind quiet

  run_cmd-IsCalm : (name : Bytes) (args : List Bytes) → IsCalm (run_cmd r name args)
  unfolding run_cmd
  run_cmd-IsCalm name args w = grind quiet

  apply_steps-IsCalm : (steps : List (List Bytes)) → IsCalm (apply_steps r steps)
  unfolding apply_steps
  apply_steps-IsCalm [] w = still
  apply_steps-IsCalm (args ∷ steps) w =
      grind (quiet, run_cmd-IsCalm (codes "iptables") args w, apply_steps-IsCalm steps)

  setup_firewall-IsCalm : (cfg : Config) (nc : NetConfig) → IsCalm (setup_firewall r cfg nc)
  unfolding setup_firewall run_cmd
  setup_firewall-IsCalm cfg nc w = grind (
    quiet,
    Quiet-below refl (
        apply_steps-IsCalm (setup_steps cfg nc)
          (run_cmd r (codes "sysctl") (codes "-w" ∷ codes "net.ipv4.ip_forward=1" ∷ []) w).1),
  )

  remove_steps-IsCalm : (steps : List (List Bytes)) (e : Error) → IsCalm (remove_steps r steps e)
  unfolding remove_steps
  remove_steps-IsCalm [] e w = still
  remove_steps-IsCalm (args ∷ steps) e w =
      Quiet-trans (run_cmd-IsCalm (codes "iptables") args w) (remove_steps-IsCalm steps _ _)

  teardown_firewall-IsCalm : (cfg : Config) (nc : NetConfig) → IsCalm (teardown_firewall r cfg nc)
  unfolding teardown_firewall
  teardown_firewall-IsCalm cfg nc w = remove_steps-IsCalm (teardown_steps cfg nc) none w

module _ (r : Responder) (cfg : Config) (nc : NetConfig) where
  pub setup_network-IsCalm : IsCalm (setup_network r cfg nc)
  unfolding setup_network
  setup_network-IsCalm w = grind (
    quiet,
    setup_tap_device-IsCalm r nc w,
    setup_firewall-IsCalm r cfg nc,
    IsApart-IsCalm (setup_bandwidth_cap r nc cfg.bandwidth_cap_mbit)
        (setup_bandwidth_cap-IsApart r nc cfg.bandwidth_cap_mbit),
    teardown_tap_device-IsCalm r nc,
    teardown_firewall-IsCalm r cfg nc,
  )

  pub teardown_network-IsCalm : IsCalm (teardown_network r cfg nc)
  unfolding teardown_network
  teardown_network-IsCalm w =
      Quiet-trans (teardown_firewall-IsCalm r cfg nc w) (teardown_tap_device-IsCalm r nc _)
