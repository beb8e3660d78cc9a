-- ===== src/Network/Derive.antt =====
-- internal/vmmanager/network.go, deriveNetConfig.
pub mod Separation
use devplat_agent.Base.{ℕ, ◌+◌, ◌*◌, ◌/◌, ◌%◌, ◌^◌, ◌<◌, ◌≡◌, ◌≢◌, ◌++◌, arith, refl, ap}
use devplat_agent.Base.Int.{ℤ, pos}
use devplat_agent.Base.Words.{add64, add64_pos, to_u32}
use devplat_agent.Base.Text.{Bytes, codes, itoa, itoa_injective}
use devplat_agent.Config.{Config}
use devplat_agent.Network.Address.{Ipv4, IsIpv4, to_word, of_word, to_word-of_word, to_word-lt}

pub record NetConfig : Type 0 where
  pub slot : ℤ
  pub tap_name : Bytes
  pub host_ip : Ipv4
  pub guest_ip : Ipv4
  -- the ones of the mask, out of 32
  pub mask : ℕ
  pub docker_port : ℤ

-- base + uint32(slot)*4, in uint32
unfoldable pub block : Ipv4 → ℤ → ℕ
block base slot = (to_word base + to_u32 slot * 4 % 2 ^ 32) % 2 ^ 32

unfoldable pub derive_net_config : Config → ℤ → NetConfig
derive_net_config cfg slot = record {
  slot = slot;
  tap_name = codes "fc-tap-" ++ itoa slot;
  host_ip = of_word ((block cfg.tap_ip_base slot + 1) % 2 ^ 32);
  guest_ip = of_word ((block cfg.tap_ip_base slot + 2) % 2 ^ 32);
  mask = 30;
  docker_port = add64 cfg.docker_port_base slot;
}
