-- ===== src/Samples/MainExamples.antt =====
-- The agent process on the sample host: it is started over a state directory with one VM, serves a
-- request, and is shut down, with a Create in flight.
use devplat_agent.Base.{◌≡◌, refl, true, [], ◌∷◌, none, some, inr, false}
use devplat_agent.Base.Int.{pos}
use devplat_agent.Base.Text.{Bytes, codes}
use devplat_agent.Base.Assoc.{lookup, bytes_key}
use devplat_agent.Json.{num, str, obj, object}
use devplat_agent.World.{done}
use devplat_agent.Regmetrics.{unreachable}
use devplat_agent.Manager.State.{Vm, Setting}
use devplat_agent.Manager.Lifecycle.{settle, commit}
use devplat_agent.Manager.Reconcile.{entries, start, load_entries, no_vms}
use devplat_agent.Api.Server.{Request, write_error, set_draining}
use devplat_agent.Api.Router.{serve_http}
use devplat_agent.Main.{
  Host, Process, up, fresh_process, setting, start_process, lacks_ticker, Leads, request, goes_on,
  signal, mark, refuse, shut_down, begin, then', handle, run_section,
}
use devplat_agent.Main.Sections.{settling, advance}
use devplat_agent.Firecracker.{Machines, firecracker_backend}
use devplat_agent.Main.Shutdown.{NoneDraining, Listed, draining_only_finishes}
use devplat_agent.Main.Start.{started_refuses_tokenless, started_never_reports_draining}
use devplat_agent.Samples.{willing, time_format, first_vm, busy}
use devplat_agent.Samples.AgentExamples.{environment, no_colons, loaded, load_run}
use devplat_agent.Samples.ManagerExamples.{state_dir}

abbrev machine : Host Machines
machine = record {
  cpu_total = pos 4;
  ram_total_mb = pos 8192;
  time_format = time_format;
  backend = firecracker_backend willing;
  responder = willing;
}

abbrev env : Setting Machines
env = record {
  config = loaded;
  cpu_total = pos 4;
  ram_total_mb = pos 8192;
  time_format = time_format;
  backend = firecracker_backend willing loaded;
  responder = willing;
}

abbrev first : Process Machines
first =
    fresh_process loaded
      (record { manager = load_entries time_format state_dir no_vms; backend = []; world = [] })

started : start_process machine environment no_colons (entries state_dir) [] [] ≡ up env first
unfolding start_process setting lacks_ticker devplat_agent.Base.Words.mul64 start
    devplat_agent.Manager.Reconcile.reconcile
started = rw (load_run, start_process)

abbrev list_request : Request
list_request = record {
  method = codes "GET";
  path = codes "vms" ∷ [];
  authorization = codes "Bearer ";
  body = none;
}

abbrev create_request : Request
create_request = record {
  method = codes "POST";
  path = codes "vms" ∷ [];
  authorization = codes "Bearer secret";
  body = some (
      obj (
        object (
          (codes "team_id", str (codes "red"))
          ∷ (codes "vcpu", num (pos 1))
          ∷ (codes "ram_mb", num (pos 512))
          ∷ [])));
}

abbrev served : Process Machines
served = handle env list_request unreachable first

abbrev last : Process Machines
last = record served { cancelled = true; draining = true; server = set_draining true served.server }

reached : Leads env first last
unfolding handle
reached =
    then' (then' (then' (then' begin (request list_request unreachable refl)) signal) (mark refl))
      (refuse refl)

started_refuses_tokenless_example :
    serve_http env last.server list_request unreachable last.agent
    ≡ (write_error 401 (codes "invalid_agent_token"), last.agent)
started_refuses_tokenless_example =
    started_refuses_tokenless machine environment no_colons (entries state_dir) [] [] env first last
      list_request unreachable started reached (inr refl)

started_never_reports_draining_example : NoneDraining last.sent
started_never_reports_draining_example =
    started_never_reports_draining machine environment no_colons (entries state_dir) [] [] env first
      last started reached

-- A process that drains with one VM, and with a Create whose VM is up and not listed yet.
abbrev other_vm : Vm
other_vm = record first_vm { id = codes "vm_2"; slot = pos 1 }

abbrev drained : Process Machines
drained = record (fresh_process loaded (record { manager = busy; backend = []; world = [] })) {
  server = record first.server { draining = true };
  draining = true;
  cancelled = true;
  jobs = settling (pos 1) (done other_vm) ∷ [];
}

abbrev finished : Process Machines
finished = record (run_section env [] (settling (pos 1) (done other_vm)) [] drained) {
  listening = false;
}

finished_lists : lookup (codes "vm_2") finished.agent.manager.vms ≡ some other_vm
unfolding run_section advance settle commit lookup devplat_agent.Base.Assoc.insert
    devplat_agent.Base.Text.text_eq
finished_lists = refl

draining_only_finishes_example : (finished.server.draining ≡ true) × Listed env finished drained
unfolding run_section
draining_only_finishes_example =
    draining_only_finishes env drained finished
      (then' (then' begin (goes_on [] (settling (pos 1) (done other_vm)) [] refl)) (shut_down refl))
      refl
