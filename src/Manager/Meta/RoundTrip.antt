-- ===== src/Manager/Meta/RoundTrip.antt =====
-- internal/vmmanager/manager.go: the metadata of a VM on its way through meta.json.
use devplat_agent.Base.{◌≡◌, true, some, arith}
use devplat_agent.Json.Decode.{fits64, read_fields, read_int64, read_str}
use devplat_agent.Manager.State.{Vm, TimeFormat}
use devplat_agent.Manager.Meta.{marshal, unmarshal}

-- A VM whose numbers are int64 values and whose instant the time format gives back.
pub record IsStorable (t : TimeFormat) (vm : Vm) : Type 0 where
  pub slot : fits64 vm.slot ≡ true
  pub vcpu : fits64 vm.vcpu ≡ true
  pub ram_mb : fits64 vm.ram_mb ≡ true
  pub pid : fits64 vm.pid ≡ true
  pub ttl : fits64 vm.ttl ≡ true
  pub created_at : t.parse (t.format vm.created_at) ≡ some vm.created_at

-- Reading back the metadata of a VM gives the same VM, if its numbers are int64 values and the time
-- format gives its creation time back.
pub unmarshal-marshal :
    (t : TimeFormat) (vm : Vm) → IsStorable t vm → unmarshal t (marshal t vm) ≡ some vm
unfolding unmarshal marshal read_fields read_int64 read_str
unmarshal-marshal t vm v = ground arith
