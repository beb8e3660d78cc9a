-- ===== src/Network/Derive/Separation.antt =====
-- internal/vmmanager/network.go: the network plans of several slots.
use mathlib.Core.List.{append_cancel_left}
use devplat_agent.Base.{ℕ, ◌+◌, ◌*◌, ◌%◌, ◌^◌, ◌<◌, ◌≡◌, ◌≢◌, arith}
use devplat_agent.Base.Int.{ℤ, pos}
use devplat_agent.Base.Words.{add64, to_u32}
use devplat_agent.Base.Text.{codes, itoa_injective}
use devplat_agent.Config.{Config}
use devplat_agent.Network.Address.{Ipv4, IsIpv4, to_word, of_word, of_word_injective}
use devplat_agent.Network.Derive.{NetConfig, block, derive_net_config}

block_injective :
    (base : Ipv4) (i j k l : ℕ)
    → i < 2 ^ 30
    → j < 2 ^ 30
    → k < 4
    → l < 4
    → (block base (pos i) + k) % 2 ^ 32 ≡ (block base (pos j) + l) % 2 ^ 32
    → (i ≡ j) × (k ≡ l)
unfolding block to_u32
block_injective base i j k l hi hj hk hl e = (omega arith, omega arith)

address_injective :
    (base : Ipv4) (i j k l : ℕ)
    → i < 2 ^ 30
    → j < 2 ^ 30
    → k < 4
    → l < 4
    → of_word ((block base (pos i) + k) % 2 ^ 32) ≡ of_word ((block base (pos j) + l) % 2 ^ 32)
    → (i ≡ j) × (k ≡ l)
address_injective base i j k l hi hj hk hl e =
    block_injective base i j k l hi hj hk hl (of_word_injective _ _ (omega arith) (omega arith) e)

add64_injective :
    (b : ℤ) (i j : ℕ) → i < 2 ^ 30 → j < 2 ^ 30 → add64 b (pos i) ≡ add64 b (pos j) → i ≡ j
unfolding add64
add64_injective b i j hi hj e = ground arith

-- Nothing of one plan is taken by the other.
pub record Apart (p q : NetConfig) : Type 0 where
  pub tap_names : p.tap_name ≢ q.tap_name
  pub host_host : p.host_ip ≢ q.host_ip
  pub guest_guest : p.guest_ip ≢ q.guest_ip
  pub host_guest : p.host_ip ≢ q.guest_ip
  pub guest_host : p.guest_ip ≢ q.host_ip
  pub docker_ports : p.docker_port ≢ q.docker_port

-- Any two different slots below 2 ^ 30 get different tap devices, Docker ports, and host and guest
-- addresses, for every configured pool and first port.
pub derive-Apart :
    (cfg : Config) (i j : ℕ)
    → i < 2 ^ 30
    → j < 2 ^ 30
    → i ≢ j
    → Apart (derive_net_config cfg (pos i)) (derive_net_config cfg (pos j))
unfolding derive_net_config
derive-Apart cfg i j hi hj ne = record {
  tap_names = λ e. ne (itoa_injective i j (append_cancel_left (codes "fc-tap-") _ _ e));
  host_host = λ e. ne (address_injective b i j 1 1 hi hj (omega arith) (omega arith) e).0;
  guest_guest = λ e. ne (address_injective b i j 2 2 hi hj (omega arith) (omega arith) e).0;
  host_guest = λ e. ne (address_injective b i j 1 2 hi hj (omega arith) (omega arith) e).0;
  guest_host = λ e. ne (address_injective b i j 2 1 hi hj (omega arith) (omega arith) e).0;
  docker_ports = λ e. ne (add64_injective cfg.docker_port_base i j hi hj e);
}
  where
    b : Ipv4
    b = cfg.tap_ip_base

-- With a pool that starts at a /16 boundary, every slot below 2 ^ 14 has its host and guest address
-- in that /16, as first and second host of the /30 block of its number.
pub derive_in_pool :
    (cfg : Config) (slot : ℕ)
    → IsIpv4 cfg.tap_ip_base
    → cfg.tap_ip_base.b2 ≡ 0
    → cfg.tap_ip_base.b3 ≡ 0
    → slot < 2 ^ 14
    → let nc = derive_net_config cfg (pos slot) in
      (nc.host_ip.b0 ≡ cfg.tap_ip_base.b0)
      × (nc.host_ip.b1 ≡ cfg.tap_ip_base.b1)
      × (nc.guest_ip.b0 ≡ cfg.tap_ip_base.b0)
      × (nc.guest_ip.b1 ≡ cfg.tap_ip_base.b1)
      × (to_word nc.host_ip ≡ to_word cfg.tap_ip_base + slot * 4 + 1)
      × (to_word nc.guest_ip ≡ to_word cfg.tap_ip_base + slot * 4 + 2)
unfolding derive_net_config block to_u32 to_word of_word
derive_in_pool cfg slot v z2 z3 h =
    (omega arith, omega arith, omega arith, omega arith, omega arith, omega arith)
