-- ===== src/Config/Load.antt =====
-- internal/config/config.go: the configuration from the environment. A variable that is not set reads
-- as the empty text, as os.Getenv has it.
pub mod Sound
use devplat_agent.Base.{
  ◌≡◌, ◌≢◌, refl, sym, ap, ◌∙◌, Bool, true, false, [], ◌∷◌, Option, none, some, inl, inr, arith,
  if◌then◌else◌, Bool-cases, Option-cases, ◌⊎◌,
}
use devplat_agent.Base.Int.{ℤ, pos}
use devplat_agent.Base.Words.{mul64}
use devplat_agent.Base.Text.{Bytes, codes, text_eq, text_eq_iff, atoi}
use devplat_agent.Network.Address.{Ipv4, IsIpv4}
use devplat_agent.Network.Address.Parse.{parse_ip4, parse_ip4-IsIpv4, GivesBytes}
use devplat_agent.Config.{Config}

abbrev pub Environment : Type 0
Environment = Bytes → Bytes

-- The errors, by the variable that is at fault.
pub data Problem : Type 0 where
  missing invalid no_address : Bytes → Problem

pub data Checked {ℓ} (A : Type ℓ) : Type ℓ where
  ok : A → Checked A
  bad : Problem → Checked A

infixl 5 ◌>>=◌
unfoldable pub ◌>>=◌ {ℓ κ} : {A : Type ℓ} {B : Type κ} → Checked A → (A → Checked B) → Checked B
ok a >>= f = f a
bad p >>= f = bad p

module _ (env : Environment) where
  unfoldable pub required_string : Bytes → Checked Bytes
  required_string name = if text_eq (env name) [] then bad (missing name) else ok (env name)

  unfoldable pub int_env : Bytes → ℤ → Checked ℤ
  int_env name default =
      if text_eq (env name) []
      then ok default
      else elim (atoi (env name)) [ none ↦ bad (invalid name) | some n ↦ ok n ]

  unfoldable pub env_or : Bytes → Bytes → Bytes
  env_or name default = if text_eq (env name) [] then default else env name

  unfoldable pub tap_ip_base : (Bytes → Option Ipv4) → Bytes → Checked Ipv4
  tap_ip_base colon_notation text = elim (parse_ip4 colon_notation text) [
    | none ↦ bad (no_address text)
    | some a ↦ ok a
  ]

  unfoldable pub load : (Bytes → Option Ipv4) → Checked Config
  load colon_notation = do
    listen_addr ← required_string (codes "LISTEN_ADDR")
    agent_token ← required_string (codes "AGENT_TOKEN")
    scheduler_url ← required_string (codes "SCHEDULER_URL")
    golden_image_path ← required_string (codes "GOLDEN_IMAGE_PATH")
    kernel_image_path ← required_string (codes "KERNEL_IMAGE_PATH")
    base_text ← required_string (codes "TAP_IP_BASE")
    base ← tap_ip_base colon_notation base_text
    wireguard_cidr ← required_string (codes "WIREGUARD_CIDR")
    heartbeat_seconds ← int_env (codes "HEARTBEAT_INTERVAL_SECONDS") (pos 20)
    host_reserved ← int_env (codes "HOST_RESERVED_RAM_MB") (pos 8192)
    default_ttl_minutes ← int_env (codes "DEFAULT_TTL_MINUTES") (pos 60)
    reaper_interval_seconds ← int_env (codes "REAPER_INTERVAL_SECONDS") (pos 30)
    docker_port_base ← int_env (codes "DOCKER_PORT_BASE") (pos 10000)
    bandwidth_cap_mbit ← int_env (codes "BANDWIDTH_CAP_MBIT") (pos 200)
    ok (record {
      listen_addr = listen_addr;
      agent_token = agent_token;
      scheduler_url = scheduler_url;
      heartbeat_interval = mul64 heartbeat_seconds (pos 1_000_000_000);
      golden_image_path = golden_image_path;
      kernel_image_path = kernel_image_path;
      firecracker_binary = env_or (codes "FIRECRACKER_BINARY") (codes "/usr/local/bin/firecracker");
      vm_state_dir = env_or (codes "VM_STATE_DIR") (codes "/var/lib/devplat/vms");
      host_reserved_ram_mb = host_reserved;
      default_ttl_minutes = default_ttl_minutes;
      reaper_interval_seconds = reaper_interval_seconds;
      tap_ip_base = base;
      docker_port_base = docker_port_base;
      wireguard_cidr = wireguard_cidr;
      bandwidth_cap_mbit = bandwidth_cap_mbit;
      registry_mirror_url = env_or (codes "REGISTRY_MIRROR_URL") [];
      registry_metrics_url =
          env_or (codes "REGISTRY_METRICS_URL") (codes "http://127.0.0.1:5001/debug/vars");
    })
