-- ===== src/Config.antt =====
-- internal/config/config.go: the configuration record. Durations are in nanoseconds.
pub mod Load
use devplat_agent.Base.Int.{ℤ}
use devplat_agent.Base.Text.{Bytes}
use devplat_agent.Network.Address.{Ipv4}

pub record Config : Type 0 where
  pub listen_addr : Bytes
  pub agent_token : Bytes
  pub scheduler_url : Bytes
  pub heartbeat_interval : ℤ
  pub golden_image_path : Bytes
  pub kernel_image_path : Bytes
  pub firecracker_binary : Bytes
  pub vm_state_dir : Bytes
  pub host_reserved_ram_mb : ℤ
  pub default_ttl_minutes : ℤ
  pub reaper_interval_seconds : ℤ
  pub tap_ip_base : Ipv4
  pub docker_port_base : ℤ
  pub wireguard_cidr : Bytes
  pub bandwidth_cap_mbit : ℤ
  pub registry_mirror_url : Bytes
  pub registry_metrics_url : Bytes
