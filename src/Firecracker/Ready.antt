-- ===== src/Firecracker/Ready.antt =====
-- internal/vmmanager/firecracker.go, waitForDockerReady: the guest is dialed every 200 ms for 30 s.
pub mod Ends
use devplat_agent.Base.{
  ℕ, zero, suc, ◌+◌, ◌-◌, ◌*◌, ◌<◌, ◌≤◌, ◌≡◌, ◌≢◌, refl, Bool, true, false, [], ◌∷◌, ◌++◌, Option,
  none, some, inl, inr, arith, ltb, if◌then◌else◌, Bool-cases,
}
use devplat_agent.Base.Text.{Bytes, codes}
use devplat_agent.Network.Address.{Ipv4, dotted}
use devplat_agent.Network.Tap.{Error}
use devplat_agent.World.{
  Io, World, Event, Call, Responder, attempt, read_clock, ◌>>=◌, ◌>>◌, Err, outside, wrapped,
  not_ready, dial, sleep, close_guest,
}

abbrev pub poll_ms : ℕ
poll_ms = 200

abbrev pub poll_nanos : ℕ
poll_nanos = 200_000_000

abbrev pub timeout_nanos : ℕ
timeout_nanos = 30_000_000_000

-- What a loop gives: it ended with an error or nil, or its fuel ran out.
pub data Loop : Type 0 where
  ended : Error → Loop
  exhausted : Loop

module _ (r : Responder) where
  -- The loop. A sleep that does not succeed is one that the end of the context cut short.
  unfoldable pub ready_loop : ℕ → Bytes → ℕ → World → Loop × World
  ready_loop zero addr deadline w = (exhausted, w)
  ready_loop (suc fuel) addr deadline w =
      let (open', w1) = attempt r (dial addr) w in
      elim open' [
        | true ↦ let (_, w2) = attempt r close_guest w1 in (ended none, w2)
        | false ↦
            let (now, w2) = read_clock r w1 in
            elim (ltb deadline now) [
              | true ↦ (ended (some (wrapped not_ready outside)), w2)
              | false ↦
                  let (slept, w3) = attempt r (sleep poll_ms) w2 in
                  elim slept [
                    | true ↦ ready_loop fuel addr deadline w3
                    | false ↦ (ended (some outside), w3)
                  ]
            ]
      ]

  unfoldable pub loop_error : Loop → Error
  loop_error (ended e) = e
  loop_error exhausted = some (wrapped not_ready outside)

  -- 152 rounds are more than fit into the 30 s.
  unfoldable pub wait_for_docker_ready : Ipv4 → Io Error
  unfolding loop_error
  wait_for_docker_ready guest_ip w =
      let addr = dotted guest_ip ++ codes ":2375" in
      let (start, w1) = read_clock r w in
      let (result, w2) = ready_loop 152 addr (start + timeout_nanos) w1 in (loop_error result, w2)
