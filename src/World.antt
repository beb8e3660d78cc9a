-- ===== src/World.antt =====
-- Everything outside the agent's own code: the operating system, netlink, the Firecracker SDK and
-- the clock. A run is the list of calls that the agent has made, newest first, each with whether it
-- succeeded; a responder, which is a parameter of the model, decides from the run so far what the
-- next call returns. So a theorem for every responder holds whatever fails and whenever it fails.
pub mod Growth
pub mod Quiet
use devplat_agent.Base.{ℕ, Bool, true, false, List, ◌∷◌}
use devplat_agent.Base.Int.{ℤ}
use devplat_agent.Base.Text.{Bytes}
use devplat_agent.Network.Address.{Ipv4}
use devplat_agent.Json.{Json}
use devplat_agent.Sdk.{MachineConfig, Command}

pub data Call : Type 0 where
  now : Call
  sleep : ℕ → Call
  -- package os and os/exec
  mkdir_all remove_all remove stat read_file open_file : Bytes → Call
  write_text : Bytes → Bytes → Call
  write_json : Bytes → Json → Call
  run : Bytes → List Bytes → Call
  kill : ℤ → Call
  -- package net
  dial : Bytes → Call
  -- package net/http and the proxied connection
  hijackable hijack close_guest close_conn clear_deadline write_upgrade flush : Call
  pipe : Bytes → Call
  -- a POST of a JSON body to a URL with an Authorization header
  post : Bytes → Bytes → Json → Call
  -- package netlink
  link_add link_set_up link_by_name link_del : Bytes → Call
  addr_add : Bytes → Ipv4 → ℕ → Call
  -- package pty
  pty_open close_tty close_pty : Call
  -- the Firecracker SDK, for a machine's configuration or for the machine of a VM id
  new_machine : MachineConfig → Command → Call
  start_machine machine_pid stop_vmm cancel : Bytes → Call

pub record Event : Type 0 where
  pub call : Call
  pub ok : Bool

abbrev pub World : Type 0
World = List Event

pub record Responder : Type 0 where
  -- whether the call succeeds
  pub ok : World → Call → Bool
  -- of a call that fails, whether the error is os.IsNotExist, or ESRCH of kill
  pub absent : World → Call → Bool
  -- time.Now().UnixNano()
  pub clock : World → ℕ
  -- the bytes of a file, where it can be read
  pub contents : World → Bytes → Bytes
  -- machine.PID(), where it succeeds
  pub pid : World → ℤ

-- An action on the world.
abbrev pub Io {ℓ} : Type ℓ → Type ℓ
Io A = World → A × World

infixl 5 ◌>>=◌ ◌>>◌
abbrev pub ◌>>=◌ {ℓ κ} :
    {A : Type ℓ} {B : Type κ} → (World → A × World) → (A → World → B × World) → World → B × World
◌>>=◌ m f w = let (a, w') = m w in f a w'

abbrev pub ◌>>◌ {ℓ κ} :
    {A : Type ℓ} {B : Type κ} → (World → A × World) → (World → B × World) → World → B × World
◌>>◌ m n w = let (a, w') = m w in n w'

abbrev pub pure {ℓ} : {A : Type ℓ} → A → Io A
pure a w = (a, w)

module _ (r : Responder) where
  -- Make a call: it is recorded, and the answer is whether it succeeded.
  unfoldable pub attempt : Call → Io Bool
  attempt c w = (r.ok w c, record { call = c; ok = r.ok w c } ∷ w)

  unfoldable pub read_clock : Io ℕ
  read_clock w = (r.clock w, record { call = now; ok = true } ∷ w)

-- The errors that the agent tells apart, and those that come from outside. `wrapped` is
-- fmt.Errorf("<stage>: %w", err).
pub data Stage : Type 0 where
  prepare_rootfs_stage create_rootfs_dir copy_golden_image boot_vm stop_vm : Stage
  create_tap assign_addr bring_up tap_setup firewall_setup enable_ip_forward bandwidth_cap : Stage
  create_vm_state_dir open_pty open_console configure_machine start_vm not_ready stop_machine :
      Stage
  kill_pid reconcile_state not_cgroup_v2 create_cgroup_dir enable_controller no_controller : Stage
  set_cpu_max set_memory_max : Stage

pub data Err : Type 0 where
  no_capacity not_found bad_size outside : Err
  wrapped : Stage → Err → Err

pub data Result {ℓ} (A : Type ℓ) : Type ℓ where
  done : A → Result A
  failed : Err → Result A

-- errors.Is(err, ErrNoCapacity) and errors.Is(err, ErrNotFound)
unfoldable pub is_no_capacity : Err → Bool
is_no_capacity no_capacity = true
is_no_capacity (wrapped s e) = is_no_capacity e
is_no_capacity _ = false

unfoldable pub is_not_found : Err → Bool
is_not_found not_found = true
is_not_found (wrapped s e) = is_not_found e
is_not_found _ = false
