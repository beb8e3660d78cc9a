-- ===== src/Samples/AgentExamples.antt =====
-- The configuration, the host's memory, the heartbeat and the reaper of the sample host.
use devplat_agent.Base.{
  ◌≡◌, ◌≢◌, refl, ◌/◌, ◌++◌, [], ◌∷◌, Option, none, some, inl, inr, true, false, arith,
}
use devplat_agent.Base.Int.{pos}
use devplat_agent.Base.Words.{mul64}
use devplat_agent.Base.Text.{Bytes, codes, text_eq, itoa, atoi, is_digit, parse_digits, has_prefix}
use devplat_agent.Base.Assoc.{Assoc, lookup, bytes_key}
use devplat_agent.Network.Address.{Ipv4}
use devplat_agent.Network.Address.Parse.{parse_ip4, read_octet}
use devplat_agent.Config.{Config}
use devplat_agent.Config.Load.{
  Environment, ok, ◌>>=◌, required_string, int_env, env_or, tap_ip_base, load,
}
use devplat_agent.Config.Load.Sound.{IsComplete, Loaded, load-Loaded, load_complete}
use devplat_agent.Hostinfo.{scan_total, fields, scan_total_first}
use devplat_agent.Json.{Json, num, obj, object}
use devplat_agent.Json.Decode.{key_matches, read_struct, read_fields}
use devplat_agent.Regmetrics.{
  unreachable, answered, scrape, parse, report, set_payload, set_registry, set_stats, read_pointer,
  read_uint64,
}
use devplat_agent.Regmetrics.Sound.{Counted, scrape-Counted}
use devplat_agent.Heartbeat.{Reading, Beat, run_heartbeat, calls, posted, run_heartbeat-posted}
use devplat_agent.Samples.{host, busy}

abbrev pub variables : Assoc Bytes Bytes
variables =
    (codes "LISTEN_ADDR", codes "10.10.0.2:7777")
    ∷ (codes "AGENT_TOKEN", codes "secret")
    ∷ (codes "SCHEDULER_URL", codes "https://api.example")
    ∷ (codes "GOLDEN_IMAGE_PATH", codes "/golden.ext4")
    ∷ (codes "KERNEL_IMAGE_PATH", codes "/vmlinux")
    ∷ (codes "TAP_IP_BASE", codes "172.20.0.0")
    ∷ (codes "WIREGUARD_CIDR", codes "10.10.0.0/24")
    ∷ (codes "DEFAULT_TTL_MINUTES", codes "15")
    ∷ []

abbrev or_empty : Option Bytes → Bytes
or_empty none = []
or_empty (some text) = text

abbrev pub environment : Environment
environment name = or_empty (lookup name variables)

abbrev pub no_colons : Bytes → Option Ipv4
no_colons text = none

abbrev pub loaded : Config
loaded = record {
  listen_addr = codes "10.10.0.2:7777";
  agent_token = codes "secret";
  scheduler_url = codes "https://api.example";
  heartbeat_interval = pos 20_000_000_000;
  golden_image_path = codes "/golden.ext4";
  kernel_image_path = codes "/vmlinux";
  firecracker_binary = codes "/usr/local/bin/firecracker";
  vm_state_dir = codes "/var/lib/devplat/vms";
  host_reserved_ram_mb = pos 8192;
  default_ttl_minutes = pos 15;
  reaper_interval_seconds = pos 30;
  tap_ip_base = record { b0 = 172; b1 = 20; b2 = 0; b3 = 0 };
  docker_port_base = pos 10000;
  wireguard_cidr = codes "10.10.0.0/24";
  bandwidth_cap_mbit = pos 200;
  registry_mirror_url = [];
  registry_metrics_url = codes "http://127.0.0.1:5001/debug/vars";
}

pub load_run : load environment no_colons ≡ ok loaded
unfolding load ◌>>=◌ required_string int_env env_or tap_ip_base parse_ip4 read_octet is_digit
    parse_digits atoi lookup text_eq mul64
load_run = refl

load-Loaded_example : Loaded environment no_colons loaded
load-Loaded_example = load-Loaded environment no_colons loaded load_run

environment-IsComplete : IsComplete environment no_colons
unfolding parse_ip4 read_octet is_digit parse_digits atoi lookup text_eq
environment-IsComplete = record {
  listen_addr = ground arith;
  agent_token = ground arith;
  scheduler_url = ground arith;
  golden_image_path = ground arith;
  kernel_image_path = ground arith;
  tap_ip_base = ground arith;
  wireguard_cidr = ground arith;
  base = loaded.tap_ip_base;
  base_read = refl;
  heartbeat = inl refl;
  host_reserved = inl refl;
  default_ttl = inr (pos 15, refl);
  reaper_interval = inl refl;
  docker_port = inl refl;
  bandwidth_cap = inl refl;
}

load_complete_example : (cfg : Config) × (load environment no_colons ≡ ok cfg)
load_complete_example = load_complete environment no_colons environment-IsComplete

abbrev total_line : Bytes
total_line = codes "MemTotal:       16384000 kB"

scan_total_first_example :
    scan_total ((codes "Cached: 12 kB" ∷ []) ++ (total_line ∷ codes "MemFree: 1 kB" ∷ []))
    ≡ pos (16384000 / 1024)
scan_total_first_example =
    scan_total_first (codes "Cached: 12 kB" ∷ []) (codes "MemFree: 1 kB" ∷ []) total_line
      (codes "MemTotal:") 16384000 (codes "kB" ∷ []) (unfold has_prefix in refl, tt)
      (unfold has_prefix in refl) (unfold fields itoa in refl) (omega arith)

abbrev reading : Reading
reading = record { manager = busy; draining = false; fetched = unreachable; built = true }

run_heartbeat-posted_example :
    calls host [] (run_heartbeat host [] reading (Beat.tick reading ∷ Beat.cancelled ∷ []) [])
    ≡ posted host [] (Beat.tick reading ∷ Beat.tick reading ∷ Beat.cancelled ∷ []) []
run_heartbeat-posted_example =
    run_heartbeat-posted host [] reading (Beat.tick reading ∷ Beat.cancelled ∷ []) []

abbrev stats : Json
stats = obj (
    object (
      (
        codes "registry",
        obj (
            object (
              (
                codes "proxy",
                obj (object ((codes "Hits", num (pos 30)) ∷ (codes "Misses", num (pos 10)) ∷ [])),
              )
              ∷ [])),
      )
      ∷ []))

scrape-Counted_example :
    (codes "http://cache" ≢ [])
    × ((j : Json) × (answered 200 (some stats) ≡ answered 200 (some j)) × Counted j 40 30)
scrape-Counted_example = scrape-Counted (codes "http://cache") (answered 200 (some stats)) 40 30 (
    unfold scrape parse report read_struct read_fields set_payload set_registry read_pointer
      set_stats read_uint64 key_matches in
    refl)
