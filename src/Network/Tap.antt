-- ===== src/Network/Tap.antt =====
-- internal/vmmanager/network.go: the tap device and the bandwidth cap.
use devplat_agent.Base.{List, [], ◌∷◌, ◌++◌, Option, none, some, if◌then◌else◌}
use devplat_agent.Base.Int.{ℤ, pos, leb_ℤ}
use devplat_agent.Base.Text.{Bytes, codes, itoa}
use devplat_agent.World.{
  Io, Responder, attempt, pure, ◌>>=◌, ◌>>◌, Err, outside, wrapped, create_tap, assign_addr,
  bring_up, link_add, link_set_up, link_by_name, link_del, addr_add, run,
}
use devplat_agent.Network.Derive.{NetConfig}

-- The error that an operation returns; `none` is nil.
abbrev pub Error : Type 0
Error = Option Err

module _ (r : Responder) where
  unfoldable pub setup_tap_device : NetConfig → Io Error
  unfolding attempt
  setup_tap_device nc = do
    added ← attempt r (link_add nc.tap_name)
    if added
        then (do
          assigned ← attempt r (addr_add nc.tap_name nc.host_ip nc.mask)
          if assigned
              then (do
                up ← attempt r (link_set_up nc.tap_name)
                if up then pure none else (do
                  attempt r (link_del nc.tap_name)
                  pure (some (wrapped bring_up outside))))
              else (do attempt r (link_del nc.tap_name); pure (some (wrapped assign_addr outside))))
        else pure (some (wrapped create_tap outside))

  unfoldable pub teardown_tap_device : NetConfig → Io Error
  unfolding attempt
  teardown_tap_device nc = do
    found ← attempt r (link_by_name nc.tap_name)
    if found
        then (do
          gone ← attempt r (link_del nc.tap_name)
          pure (if gone then none else some outside))
        else pure none

  -- runCmd: nil, or the error of the command
  unfoldable pub run_cmd : Bytes → List Bytes → Io Error
  unfolding attempt
  run_cmd name args = do ran ← attempt r (run name args); pure (if ran then none else some outside)

  unfoldable pub setup_bandwidth_cap : NetConfig → ℤ → Io Error
  unfolding run_cmd
  setup_bandwidth_cap nc mbit =
      if leb_ℤ mbit (pos 0)
      then pure none
      else run_cmd (codes "tc") (
          codes "qdisc"
          ∷ codes "add"
          ∷ codes "dev"
          ∷ nc.tap_name
          ∷ codes "root"
          ∷ codes "tbf"
          ∷ codes "rate"
          ∷ (itoa mbit ++ codes "mbit")
          ∷ codes "burst"
          ∷ codes "32kbit"
          ∷ codes "latency"
          ∷ codes "400ms"
          ∷ [])
