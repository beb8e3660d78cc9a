-- ===== src/Manager/Meta.antt =====
-- internal/vmmanager/manager.go: the metadata document of a VM (the JSON tags of VM).
pub mod RoundTrip
use mathlib.Core.Option
use devplat_agent.Base.{Bool, Option, none, some, List, [], ◌∷◌, if◌then◌else◌}
use devplat_agent.Base.Int.{ℤ, pos, negsuc}
use devplat_agent.Base.Text.{Bytes, codes}
use devplat_agent.Json.{Json, num, str, obj, object, null}
use devplat_agent.Json.Decode.{key_matches, read_int64, read_str, read_struct}
use devplat_agent.Manager.State.{Vm, TimeFormat}

-- time.Time{}, the first instant of the year 1
abbrev pub zero_time : ℤ
zero_time = negsuc 62_135_596_799_999_999_999

abbrev pub zero_vm : Vm
zero_vm = record {
  id = [];
  team_id = [];
  slot = pos 0;
  vcpu = pos 0;
  ram_mb = pos 0;
  docker_endpoint = [];
  pid = pos 0;
  created_at = zero_time;
  ttl = pos 0;
}

module _ (t : TimeFormat) where
  -- json.Marshal of a VM
  unfoldable pub marshal : Vm → Json
  marshal vm = obj (
      object (
        (codes "id", str vm.id)
        ∷ (codes "team_id", str vm.team_id)
        ∷ (codes "slot", num vm.slot)
        ∷ (codes "vcpu", num vm.vcpu)
        ∷ (codes "ram_mb", num vm.ram_mb)
        ∷ (codes "docker_endpoint", str vm.docker_endpoint)
        ∷ (codes "pid", num vm.pid)
        ∷ (codes "created_at", str (t.format vm.created_at))
        ∷ (codes "ttl", num vm.ttl)
        ∷ []))

  read_time : Json → ℤ → Option ℤ
  read_time null old = some old
  read_time (str s) old = t.parse s
  read_time _ old = none

  set_field : Bytes → Json → Vm → Option Vm
  unfolding key_matches
  set_field k v vm =
      if key_matches k (codes "id")
      then Option.map (λ s. record vm { id = s }) (read_str v vm.id)
      else if key_matches k (codes "team_id")
      then Option.map (λ s. record vm { team_id = s }) (read_str v vm.team_id)
      else if key_matches k (codes "slot")
      then Option.map (λ z. record vm { slot = z }) (read_int64 v vm.slot)
      else if key_matches k (codes "vcpu")
      then Option.map (λ z. record vm { vcpu = z }) (read_int64 v vm.vcpu)
      else if key_matches k (codes "ram_mb")
      then Option.map (λ z. record vm { ram_mb = z }) (read_int64 v vm.ram_mb)
      else if key_matches k (codes "docker_endpoint")
      then Option.map (λ s. record vm { docker_endpoint = s }) (read_str v vm.docker_endpoint)
      else if key_matches k (codes "pid")
      then Option.map (λ z. record vm { pid = z }) (read_int64 v vm.pid)
      else if key_matches k (codes "created_at")
      then Option.map (λ z. record vm { created_at = z }) (read_time v vm.created_at)
      else if key_matches k (codes "ttl")
      then Option.map (λ z. record vm { ttl = z }) (read_int64 v vm.ttl)
      else some vm

  -- json.Unmarshal into a VM
  unfoldable pub unmarshal : Json → Option Vm
  unfolding set_field read_struct read_time
  unmarshal j = read_struct set_field j zero_vm
