-- ===== src/Samples.antt =====
-- Concrete settings on which the theorems are evaluated: a host of four CPUs and 8 GB, a backend that
-- boots and stops every VM, and a manager with one VM.
mod NetworkExamples
mod ManagerExamples
mod ConcurrencyExamples
mod BootExamples
mod ApiExamples
mod AgentExamples
mod RunExamples
mod RuleExamples
mod MainExamples
use devplat_agent.Base.{
  Bool, ◌+◌, ◌*◌, ◌≡◌, refl, true, false, [], ◌∷◌, some, none, arith, length, if◌then◌else◌,
}
use devplat_agent.Base.Words.{sub64}
use devplat_agent.Base.Int.{pos, ltb_ℤ, eq_ℤ_iff}
use devplat_agent.Base.Text.{codes, itoa, atoi, text_eq_iff}
use devplat_agent.Base.Assoc.{lookup, bytes_key, int_key}
use devplat_agent.World.{World, Call, Responder, done, dial}
use devplat_agent.Config.{Config}
use devplat_agent.Manager.State.{Vm, Manager, Agent, Backend, Setting, TimeFormat}
use devplat_agent.Manager.Admission.{CreateRequest, capacity_cpu, capacity_ram_mb}
use devplat_agent.Manager.Slots.{IsConsistent}
use devplat_agent.Manager.Budget.{IsOrdinary, IsWithin, IsModest}

abbrev pub config : Config
config = record {
  listen_addr = codes "203.0.113.7:8080";
  agent_token = codes "secret";
  scheduler_url = codes "http://10.8.0.1:9000";
  heartbeat_interval = pos 10_000_000_000;
  golden_image_path = codes "/opt/golden.ext4";
  kernel_image_path = codes "/opt/vmlinux";
  firecracker_binary = codes "/usr/bin/firecracker";
  vm_state_dir = codes "/var/lib/devplat";
  host_reserved_ram_mb = pos 1024;
  default_ttl_minutes = pos 60;
  reaper_interval_seconds = pos 30;
  tap_ip_base = record { b0 = 172; b1 = 20; b2 = 0; b3 = 0 };
  docker_port_base = pos 42000;
  wireguard_cidr = codes "10.8.0.0/24";
  bandwidth_cap_mbit = pos 100;
  registry_mirror_url = [];
  registry_metrics_url = [];
}

-- Every call succeeds, and takes 100 ms.
abbrev pub willing : Responder
willing = record {
  ok = λ w c. true;
  absent = λ w c. false;
  clock = λ w. 1_700_000_000_000_000_000 + length w * 100_000_000;
  contents = λ w path. codes "cpuset cpu io memory pids";
  pid = λ w. pos 4711;
}

-- No guest answers.
abbrev pub answers : Call → Bool
answers (dial addr) = false
answers c = true

abbrev pub silent : Responder
silent = record willing { ok = λ w c. answers c }

abbrev pub time_format : TimeFormat
time_format = record { format = itoa; parse = atoi }

abbrev pub backend : Backend Unit
backend = record {
  boot = λ vm nc path s w.
      (done (record { docker_endpoint = codes "203.0.113.7:42000"; pid = pos 4711 }), s, w);
  stop = λ vm s w. (none, s, w);
}

abbrev pub host : Setting Unit
host = record {
  config = config;
  cpu_total = pos 4;
  ram_total_mb = pos 8192;
  time_format = time_format;
  backend = backend;
  responder = willing;
}

-- A VM of two CPUs on slot 0, an hour from the start of the clock.
abbrev pub first_vm : Vm
first_vm = record {
  id = codes "vm_1";
  team_id = codes "blue";
  slot = pos 0;
  vcpu = pos 2;
  ram_mb = pos 2048;
  docker_endpoint = codes "203.0.113.7:42000";
  pid = pos 815;
  created_at = pos 1_700_000_000_000_000_000;
  ttl = pos 3_600_000_000_000;
}

abbrev pub busy : Manager
busy = record { vms = (codes "vm_1", first_vm) ∷ []; slots = (pos 0, codes "vm_1") ∷ [] }

abbrev pub busy_agent : Agent Unit
busy_agent = record { manager = busy; backend = tt; world = [] }

abbrev pub small : CreateRequest
small = record { team_id = codes "red"; ttl_minutes = pos 0; vcpu = pos 2; ram_mb = pos 1024 }

pub busy-IsConsistent : IsConsistent busy
unfolding lookup
busy-IsConsistent = record {
  once = (refl, tt);
  owned = λ id vm h. ground (arith, text_eq_iff (codes "vm_1") id);
  occupied = λ slot id h. (
    first_vm,
    ground (arith, text_eq_iff (codes "vm_1") id, eq_ℤ_iff (pos 0) slot),
    ground (arith, eq_ℤ_iff (pos 0) slot),
  );
}

pub capacity_ram_mb-host : capacity_ram_mb host ≡ pos 7168
unfolding capacity_ram_mb sub64
capacity_ram_mb-host = refl

pub host-IsOrdinary : IsOrdinary host
unfolding capacity_cpu
host-IsOrdinary = record {
  cpu_pos = refl;
  cpu = omega arith;
  ram = rw capacity_ram_mb-host (omega arith);
}

pub busy-IsWithin : IsWithin host busy
unfolding capacity_cpu
busy-IsWithin = record {
  sized = ((omega arith, omega arith), tt);
  cpu = omega arith;
  ram = rw capacity_ram_mb-host (omega arith);
}

pub small-IsModest : IsModest host small
small-IsModest = record { cpu = omega arith; ram = omega arith }
