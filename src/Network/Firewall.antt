-- ===== src/Network/Firewall.antt =====
-- internal/vmmanager/network.go: the iptables rules of a VM, set up and torn down.
pub mod Teardown
use devplat_agent.Base.{
  ℕ, Bool, true, false, List, [], ◌∷◌, ◌++◌, Option, none, some, if◌then◌else◌,
}
use devplat_agent.Base.Text.{Bytes, codes, itoa}
use devplat_agent.World.{Io, Responder, pure, ◌>>=◌, ◌>>◌, World, Err, wrapped, enable_ip_forward}
use devplat_agent.Config.{Config}
use devplat_agent.Network.Address.{dotted}
use devplat_agent.Network.Derive.{NetConfig}
use devplat_agent.Network.Tap.{Error, run_cmd}

-- The arguments of the iptables commands of setupFirewall, in order.
unfoldable pub setup_steps : Config → NetConfig → List (List Bytes)
setup_steps cfg nc =
    let port = itoa nc.docker_port in
    let guest = dotted nc.guest_ip in
    (codes "-t"
      ∷ codes "nat"
      ∷ codes "-A"
      ∷ codes "PREROUTING"
      ∷ codes "-p"
      ∷ codes "tcp"
      ∷ codes "-s"
      ∷ cfg.wireguard_cidr
      ∷ codes "--dport"
      ∷ port
      ∷ codes "-j"
      ∷ codes "DNAT"
      ∷ codes "--to-destination"
      ∷ (guest ++ codes ":2375")
      ∷ [])
    ∷ (codes "-t"
        ∷ codes "nat"
        ∷ codes "-A"
        ∷ codes "POSTROUTING"
        ∷ codes "-s"
        ∷ (guest ++ codes "/32")
        ∷ codes "!"
        ∷ codes "-o"
        ∷ nc.tap_name
        ∷ codes "-j"
        ∷ codes "MASQUERADE"
        ∷ [])
    ∷ (codes "-A"
        ∷ codes "INPUT"
        ∷ codes "-p"
        ∷ codes "tcp"
        ∷ codes "--dport"
        ∷ port
        ∷ codes "!"
        ∷ codes "-s"
        ∷ cfg.wireguard_cidr
        ∷ codes "-j"
        ∷ codes "DROP"
        ∷ [])
    ∷ (codes "-A"
        ∷ codes "FORWARD"
        ∷ codes "-s"
        ∷ cfg.wireguard_cidr
        ∷ codes "-o"
        ∷ nc.tap_name
        ∷ codes "-j"
        ∷ codes "ACCEPT"
        ∷ [])
    ∷ (codes "-A"
        ∷ codes "FORWARD"
        ∷ codes "-o"
        ∷ nc.tap_name
        ∷ codes "-m"
        ∷ codes "state"
        ∷ codes "--state"
        ∷ codes "NEW"
        ∷ codes "!"
        ∷ codes "-s"
        ∷ cfg.wireguard_cidr
        ∷ codes "-j"
        ∷ codes "DROP"
        ∷ [])
    ∷ (codes "-A"
        ∷ codes "FORWARD"
        ∷ codes "-o"
        ∷ nc.tap_name
        ∷ codes "-m"
        ∷ codes "state"
        ∷ codes "--state"
        ∷ codes "ESTABLISHED,RELATED"
        ∷ codes "-j"
        ∷ codes "ACCEPT"
        ∷ [])
    ∷ (codes "-A" ∷ codes "FORWARD" ∷ codes "-i" ∷ nc.tap_name ∷ codes "-j" ∷ codes "ACCEPT" ∷ [])
    ∷ []

-- The arguments of the iptables commands of teardownFirewall, in order.
unfoldable pub teardown_steps : Config → NetConfig → List (List Bytes)
teardown_steps cfg nc =
    let port = itoa nc.docker_port in
    let guest = dotted nc.guest_ip in
    (codes "-t"
      ∷ codes "nat"
      ∷ codes "-D"
      ∷ codes "PREROUTING"
      ∷ codes "-p"
      ∷ codes "tcp"
      ∷ codes "-s"
      ∷ cfg.wireguard_cidr
      ∷ codes "--dport"
      ∷ port
      ∷ codes "-j"
      ∷ codes "DNAT"
      ∷ codes "--to-destination"
      ∷ (guest ++ codes ":2375")
      ∷ [])
    ∷ (codes "-t"
        ∷ codes "nat"
        ∷ codes "-D"
        ∷ codes "POSTROUTING"
        ∷ codes "-s"
        ∷ (guest ++ codes "/32")
        ∷ codes "!"
        ∷ codes "-o"
        ∷ nc.tap_name
        ∷ codes "-j"
        ∷ codes "MASQUERADE"
        ∷ [])
    ∷ (codes "-D"
        ∷ codes "INPUT"
        ∷ codes "-p"
        ∷ codes "tcp"
        ∷ codes "--dport"
        ∷ port
        ∷ codes "!"
        ∷ codes "-s"
        ∷ cfg.wireguard_cidr
        ∷ codes "-j"
        ∷ codes "DROP"
        ∷ [])
    ∷ (codes "-D"
        ∷ codes "FORWARD"
        ∷ codes "-s"
        ∷ cfg.wireguard_cidr
        ∷ codes "-o"
        ∷ nc.tap_name
        ∷ codes "-j"
        ∷ codes "ACCEPT"
        ∷ [])
    ∷ (codes "-D"
        ∷ codes "FORWARD"
        ∷ codes "-o"
        ∷ nc.tap_name
        ∷ codes "-m"
        ∷ codes "state"
        ∷ codes "--state"
        ∷ codes "NEW"
        ∷ codes "!"
        ∷ codes "-s"
        ∷ cfg.wireguard_cidr
        ∷ codes "-j"
        ∷ codes "DROP"
        ∷ [])
    ∷ (codes "-D"
        ∷ codes "FORWARD"
        ∷ codes "-o"
        ∷ nc.tap_name
        ∷ codes "-m"
        ∷ codes "state"
        ∷ codes "--state"
        ∷ codes "ESTABLISHED,RELATED"
        ∷ codes "-j"
        ∷ codes "ACCEPT"
        ∷ [])
    ∷ (codes "-D" ∷ codes "FORWARD" ∷ codes "-i" ∷ nc.tap_name ∷ codes "-j" ∷ codes "ACCEPT" ∷ [])
    ∷ []

module _ (r : Responder) where
  -- The loop of setupFirewall: it stops at the first command that fails.
  unfoldable pub apply_steps : List (List Bytes) → Io Error
  apply_steps [] w = (none, w)
  apply_steps (args ∷ steps) w =
      let (e, w') = run_cmd r (codes "iptables") args w in
      elim e [ none ↦ apply_steps steps w' | some err ↦ (some err, w') ]

  unfoldable pub setup_firewall : Config → NetConfig → Io Error
  setup_firewall cfg nc = do
    e ← run_cmd r (codes "sysctl") (codes "-w" ∷ codes "net.ipv4.ip_forward=1" ∷ [])
    elim e [
      | none ↦ apply_steps (setup_steps cfg nc)
      | some err ↦ pure (some (wrapped enable_ip_forward err))
    ]

  -- The loop of teardownFirewall: every command is run, and the first error is kept.
  unfoldable pub remove_steps : List (List Bytes) → Error → Io Error
  remove_steps [] first w = (first, w)
  remove_steps (args ∷ steps) first w =
      let (e, w') = run_cmd r (codes "iptables") args w in
      remove_steps steps (elim first [ none ↦ e | some err ↦ some err ]) w'

  unfoldable pub teardown_firewall : Config → NetConfig → Io Error
  teardown_firewall cfg nc = remove_steps (teardown_steps cfg nc) none
