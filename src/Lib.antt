-- ===== src/Lib.antt =====
-- devplat-agent: the agent that runs Firecracker microVMs for the scheduler on one host.
--
-- The parts and how they interact. The HTTP server (internal/api/server.go) authorizes and routes
-- requests and calls the manager (internal/vmmanager/manager.go). The manager keeps the listed VMs and
-- the taken slots in two maps under one mutex; it admits a VM against the host's CPUs and memory, gives
-- it the lowest free slot, and hands it to the backend. The backend (internal/vmmanager/firecracker.go)
-- derives nothing itself: the network plan is a function of the slot (internal/vmmanager/network.go), and
-- it sets up the tap device, the firewall, the cgroup (internal/vmmanager/cgroup.go) and the machine, and
-- waits for the guest's dockerd. Metadata is written to meta.json, from which a restarted agent lists its
-- VMs again.
--
-- World: everything outside the agent. A run is a list of events, newest first, each a call with whether
--   it succeeded. A `Responder`, a parameter, decides from the run so far what the next call gives, so
--   the theorems hold whatever fails. Errors are values (`Err`, `Result`); an error text is not kept,
--   only the stage that wrapped it and what errors.Is looks for.
-- World/Growth: a later run is an earlier one with more events.
-- Base: shared names. Base/Int has signed integers over the native numbers, Base/Words the wrap-around of
--   int64 and the conversion to uint32, Base/Text byte strings, strconv.Itoa and strconv.Atoi, Base/Assoc
--   Go maps as association lists, Base/Tests Boolean tests and case lemmas.
-- Json, Json/Decode: JSON values and how encoding/json reads an object into a struct: the last of several
--   equal keys wins, null is ignored, keys match without regard to case. The text of JSON is not modelled.
-- Paths: filepath.Join and filepath.Dir on the paths that the agent builds.
-- Config: internal/config/config.go; Config/Load has Load over an environment, a function from names to
--   texts, and Config/Load/Sound what it gives.
-- Network: internal/vmmanager/network.go. Network/Address has IPv4 addresses (net.IP and uint32ToIP),
--   Network/Address/Parse net.ParseIP, Network/Derive deriveNetConfig, Network/Tap setupTapDevice,
--   teardownTapDevice, runCmd and setupBandwidthCap, Network/Firewall setupFirewall and teardownFirewall.
-- Manager: internal/vmmanager/manager.go and rootfs.go. Manager/State has VM, Backend and Manager,
--   Manager/Admission the budget, freeSlot and Create up to the release of its lock (`admit`),
--   Manager/Lifecycle the rest of Create and Destroy (`launch`, `settle`, `shut_down`, `forget`),
--   Manager/Meta the metadata, Manager/Reconcile New and reconcile, Manager/Queries List, Get, GuestAddr
--   and Health, Manager/Reap ReapExpired. Manager/Outcome says of admit, Create and Destroy what their
--   branches leave; the proofs about them go by its cases. Manager/Totals has the exact sums,
--   Manager/MapOrder the sums in another order of the map.
--   Manager/Growth has that Create and Destroy only add to the run, Manager/Runs any sequence of the
--   operations, Manager/Runs/Refines the abstract map that their callers see.
--   Manager/Interleaving has the locked sections of concurrent requests as a step relation.
-- Cgroup: internal/vmmanager/cgroup.go, but for removeCgroup, which stands in Manager/Lifecycle.
-- Firecracker: internal/vmmanager/firecracker.go: Boot (`setup_network`, `setup_console`,
--   `launch_machine`, `cap_machine`, `await_guest`) and Stop; Firecracker/Ready has waitForDockerReady, Firecracker/Taps
--   the tap device over a whole Boot, Firecracker/Handles how a Stop ends, Firecracker/Live
--   the machines that run and their live handles, Firecracker/Rules the firewall rules
--   in force over a Boot and over the life of a VM, Firecracker/Growth that a Boot only adds to the run,
--   Firecracker/Quiet which of its stages leave the network and the machines alone, Firecracker/Calm which
--   leave the machines alone, Firecracker/Wiring what a successful Boot has done,
--   Firecracker/Adds the backend as the one that Manager/Growth asks for.
-- Sdk: the records of the Firecracker SDK that Boot fills in.
-- Regmetrics: internal/regmetrics/regmetrics.go. What the registry answers is an argument.
-- Hostinfo: internal/vmmanager/hostinfo.go, over the text of /proc/meminfo.
-- Heartbeat: internal/heartbeat/heartbeat.go. Reaper: internal/reaper/reaper.go. The wakes of both loops
--   are a list.
-- Api: internal/api/server.go. Api/Server has the handlers, Api/Router the routes and ServeHTTP,
--   Api/Acceptance the guards of handleCreateVM by cases.
-- Main: cmd/agent/main.go: the start of the process (`start_process`), and its requests, ticks, signal and
--   shutdown as a step relation (`Move`). A request or a round of the reaper leaves a job, and any step may
--   run one section of any job (Main/Sections, `advance`): the locked sections of Create and Destroy, and
--   the launch or stop between them, which does not read the manager. Main/Flight has the Creates that
--   are in flight, Main/Flight/Arrive the requests that come in, Main/Shutdown what the steps keep,
--   Main/Start the states of a process that main has started. A heartbeat is bound to the context that
--   the signal cancels, and as net/http documents fails once that is over.
-- Samples: concrete settings, and each theorem applied to one.
--
-- Bounds and fuel. int64 and uint32 wrap around as in Go; where a theorem needs no overflow, its
-- hypotheses say so. time.Time.Add is exact, since a TTL is an int64 of nanoseconds. The loop of
-- waitForDockerReady runs on 152 rounds of fuel: a round sleeps 200 ms and the wait is over after 30 s,
-- and the model's result says whether the fuel ran out. Every other loop is structural.
--
-- Parameters. The responder; the backend's own state and operations, where a theorem is about the manager;
-- the RFC 3339 text of a time (`TimeFormat`); the colon notation of net.ParseIP; the number of CPUs and
-- the memory that were detected, which the setting of a run gives. The order in which Go ranges over a
-- map is that of the association list, and the theorems hold for every one.
--
-- Not modelled: log lines and the clock reads that only feed them; a port that the server
-- cannot bind and the time limit of its shutdown; lines of
-- /proc/meminfo longer than the scanner's buffer; the goroutines that
-- copy the console and the proxied bytes; the shell
-- scripts of image/ and the files of deploy/.
pub mod Base
pub mod Json
pub mod World
pub mod Config
pub mod Network
pub mod Paths
pub mod Main
pub mod Manager
pub mod Regmetrics
pub mod Api
pub mod Cgroup
pub mod Firecracker
pub mod Hostinfo
pub mod Heartbeat
pub mod Reaper
pub mod Samples
pub mod Sdk
