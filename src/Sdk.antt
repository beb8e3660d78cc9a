-- ===== src/Sdk.antt =====
-- The Firecracker SDK's configuration of a machine and of the process it runs in, as
-- internal/vmmanager/firecracker.go fills them in (firecracker.Config, models.Drive,
-- firecracker.StaticNetworkConfiguration, models.MachineConfiguration, VMCommandBuilder and
-- syscall.SysProcAttr).
use devplat_agent.Base.{ℕ, Bool, List}
use devplat_agent.Base.Int.{ℤ}
use devplat_agent.Base.Text.{Bytes}
use devplat_agent.Network.Address.{Ipv4}

pub record Drive : Type 0 where
  pub drive_id : Bytes
  pub path_on_host : Bytes
  pub is_root_device : Bool
  pub is_read_only : Bool

pub record StaticConfiguration : Type 0 where
  pub host_dev_name : Bytes
  pub ip : Ipv4
  -- the ones of the mask, out of 32
  pub mask : ℕ
  pub gateway : Ipv4
  pub nameservers : List Bytes

pub record MachineConfig : Type 0 where
  pub socket_path : Bytes
  pub log_path : Bytes
  pub log_level : Bytes
  pub kernel_image_path : Bytes
  pub kernel_args : Bytes
  pub drives : List Drive
  pub network_interfaces : List StaticConfiguration
  pub vcpu_count : ℤ
  pub mem_size_mib : ℤ
  pub vmid : Bytes

-- The command of the process; its standard output and error are the slave end of the pty.
pub record Command : Type 0 where
  pub bin : Bytes
  pub socket_path : Bytes
  pub setsid : Bool
  pub setctty : Bool
  pub ctty : ℕ
