-- ===== src/Manager/State.antt =====
-- internal/vmmanager/manager.go: the data of the manager and the interface of its backend.
use devplat_agent.Base.{Option}
use devplat_agent.Base.Int.{ℤ, ◌+ℤ◌}
use devplat_agent.Base.Text.{Bytes}
use devplat_agent.Base.Assoc.{Assoc}
use devplat_agent.World.{World, Result, Responder}
use devplat_agent.Config.{Config}
use devplat_agent.Network.Derive.{NetConfig}
use devplat_agent.Network.Tap.{Error}

pub record Vm : Type 0 where
  pub id : Bytes
  pub team_id : Bytes
  pub slot : ℤ
  pub vcpu : ℤ
  pub ram_mb : ℤ
  pub docker_endpoint : Bytes
  pub pid : ℤ
  -- nanoseconds since 1970
  pub created_at : ℤ
  -- nanoseconds
  pub ttl : ℤ

-- VM.ExpiresAt: time.Time.Add
unfoldable pub expires_at : Vm → ℤ
expires_at vm = vm.created_at +ℤ vm.ttl

-- What Boot fills in on success.
pub record Booted : Type 0 where
  pub docker_endpoint : Bytes
  pub pid : ℤ

-- The interface Backend over a state of its own.
pub record Backend (S : Type 0) : Type 0 where
  pub boot : Vm → NetConfig → Bytes → S → World → Result Booted × S × World
  pub stop : Vm → S → World → Error × S × World

pub record Manager : Type 0 where
  pub vms : Assoc Bytes Vm
  pub slots : Assoc ℤ Bytes

-- The agent process: the manager, the backend's state and the run so far.
pub record Agent (S : Type 0) : Type 0 where
  pub manager : Manager
  pub backend : S
  pub world : World

-- What time.Time writes into JSON, and what it reads back.
pub record TimeFormat : Type 0 where
  pub format : ℤ → Bytes
  pub parse : Bytes → Option ℤ

-- What a run of the agent is given: its configuration and the detected host.
pub record Setting (S : Type 0) : Type 0 where
  pub config : Config
  pub cpu_total : ℤ
  pub ram_total_mb : ℤ
  pub time_format : TimeFormat
  pub backend : Backend S
  pub responder : Responder
