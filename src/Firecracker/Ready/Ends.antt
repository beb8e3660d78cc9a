-- ===== src/Firecracker/Ready/Ends.antt =====
-- internal/vmmanager/firecracker.go: the end of the readiness wait.
use devplat_agent.Base.{
  ℕ, zero, suc, ◌+◌, ◌*◌, ◌<◌, ◌≤◌, ◌≡◌, refl, ap, Bool, true, false, ◌∷◌, ◌++◌, none, some, inl,
  inr, arith, ltb, Bool-cases,
}
use devplat_agent.Base.Text.{Bytes, codes}
use devplat_agent.Network.Address.{Ipv4, dotted}
use devplat_agent.World.{
  World, Event, Call, Responder, attempt, read_clock, outside, wrapped, not_ready, dial, sleep,
  close_guest,
}
use devplat_agent.Firecracker.Ready.{
  poll_ms, poll_nanos, timeout_nanos, Loop, ended, exhausted, ready_loop, loop_error,
  wait_for_docker_ready,
}

-- The call and whether it succeeds, at a run.
abbrev pub event : Responder → Call → World → Event
event r c w = record { call = c; ok = r.ok w c }

abbrev pub done_event : Call → Event
done_event c = record { call = c; ok = true }

-- The clock does not run backwards, and a sleep of 200 ms that was not cut short takes 200 ms.
pub record KeepsTime (r : Responder) : Type 0 where
  pub forward : (w : World) (e : Event) → r.clock w ≤ r.clock (e ∷ w)
  pub sleeps :
      (w : World) (e : Event)
      → r.clock w + poll_nanos ≤ r.clock (e ∷ done_event (sleep poll_ms) ∷ done_event Call.now ∷ w)

-- The loop ended, and if without an error then by a dial that succeeded.
abbrev pub Ends : Bytes → Loop × World → Type 0
Ends addr (exhausted, w) = ⊥
Ends addr (ended none, w) =
    (older : World) × (close : Bool) × (w
      ≡ record { call = close_guest; ok = close } ∷ done_event (dial addr) ∷ older)
Ends addr (ended (some err), w) = Unit

-- The parts of one round, each at the answer of its call.
module _ (r : Responder) (addr : Bytes) (deadline : ℕ) where
  nap : ℕ → World → Bool → Loop × World
  nap fuel w slept =
      let w' : World = record { call = sleep poll_ms; ok = slept } ∷ w in
      elim slept [ true ↦ ready_loop r fuel addr deadline w' | false ↦ (ended (some outside), w') ]

  late_or_nap : ℕ → World → Bool → Loop × World
  late_or_nap fuel w late = elim late [
    | true ↦ (ended (some (wrapped not_ready outside)), w)
    | false ↦ nap fuel w (r.ok w (sleep poll_ms))
  ]

  round : ℕ → World → Bool → Loop × World
  round fuel w open' =
      let w' : World = record { call = dial addr; ok = open' } ∷ w in
      elim open' [
        | true ↦ (ended none, event r close_guest w' ∷ w')
        | false ↦ late_or_nap fuel (done_event Call.now ∷ w') (ltb deadline (r.clock w'))
      ]

  ready_loop-round :
      (fuel : ℕ) (w : World)
      → ready_loop r (suc fuel) addr deadline w ≡ round fuel w (r.ok w (dial addr))
  unfolding ready_loop attempt read_clock round late_or_nap nap
  ready_loop-round fuel w = refl

module _ (r : Responder) (k : KeepsTime r) (addr : Bytes) (deadline : ℕ) where
  late_or_nap-Ends :
      (fuel : ℕ) (w : World) (late : Bool)
      → (late ≡ false
          → r.ok w (sleep poll_ms) ≡ true
          → Ends addr (ready_loop r fuel addr deadline (done_event (sleep poll_ms) ∷ w)))
      → Ends addr (late_or_nap r addr deadline fuel w late)
  unfolding late_or_nap nap
  late_or_nap-Ends fuel w true next' = tt
  late_or_nap-Ends fuel w false next' = elim (Bool-cases (r.ok w (sleep poll_ms))) [
    | inl rested ↦ rw rested (next' refl rested)
    | inr cut ↦ rw cut tt
  ]

  ready_loop-Ends :
      (fuel : ℕ) (w : World)
      → deadline < r.clock (event r (dial addr) w ∷ w) + fuel * poll_nanos
      → Ends addr (ready_loop r (suc fuel) addr deadline w)
  unfolding round late_or_nap nap
  ready_loop-Ends zero w h = elim (Bool-cases (r.ok w (dial addr))) [
    | inl answers ↦ rw (ready_loop-round r addr deadline 0 w, answers) (w, _, refl)
    | inr shut ↦
        let late : ltb deadline (r.clock (record { call = dial addr; ok = false } ∷ w)) ≡ true =
          ground arith in
        rw (ready_loop-round r addr deadline 0 w, shut, late) tt
  ]
  ready_loop-Ends (suc fuel) w h = elim (Bool-cases (r.ok w (dial addr))) [
    | inl answers ↦ rw (ready_loop-round r addr deadline (suc fuel) w, answers) (w, _, refl)
    | inr shut ↦
        let w1 : World = record { call = dial addr; ok = false } ∷ w in
        let w2 : World = done_event Call.now ∷ w1 in
        let w3 : World = done_event (sleep poll_ms) ∷ w2 in
        let first_dial : r.clock (event r (dial addr) w ∷ w) ≡ r.clock w1 =
          ap (λ (b : Bool). r.clock (record { call = dial addr; ok = b } ∷ w)) shut in
        rw (ready_loop-round r addr deadline (suc fuel) w, shut)
          (late_or_nap-Ends (suc fuel) w2 (ltb deadline (r.clock w1)) (λ early rested.
            ready_loop-Ends fuel w3
              (omega (arith, k.sleeps w1 (event r (dial addr) w3), first_dial))))
  ]

module _ (r : Responder) (k : KeepsTime r) where
  -- With a clock that keeps time the readiness loop ends within 152 rounds, and ends without an
  -- error only after an accepted dial that it then closes.
  pub wait_for_docker_ready-Ends :
      (guest_ip : Ipv4) (w : World)
      → let addr = dotted guest_ip ++ codes ":2375" in
        Ends addr (ready_loop r 152 addr (r.clock w + timeout_nanos) (done_event Call.now ∷ w))
  wait_for_docker_ready-Ends guest_ip w = ready_loop-Ends r k _ _ 151 (done_event Call.now ∷ w) (
      omega (
        arith,
        k.forward w (done_event Call.now),
        k.forward (done_event Call.now ∷ w)
            (event r (dial (dotted guest_ip ++ codes ":2375")) (done_event Call.now ∷ w)),
      ))

  accepted :
      (addr : Bytes) (result : Loop × World)
      → Ends addr result
      → loop_error r result.0 ≡ none
      → (older : World) × (close : Bool) × (result.1
          ≡ record { call = close_guest; ok = close } ∷ done_event (dial addr) ∷ older)
  unfolding loop_error
  accepted addr (exhausted, w) e h = absurd e
  accepted addr (ended none, w) e h = e
  accepted addr (ended (some err), w) e h = absurd (cc)

  -- With a clock that keeps time, a wait that returned nil ended with an accepted dial of port 2375
  -- of the guest and the close of that connection.
  pub wait_for_docker_ready-none :
      (guest_ip : Ipv4) (w : World)
      → (wait_for_docker_ready r guest_ip w).0 ≡ none
      → (older : World) × (close : Bool) × ((wait_for_docker_ready r guest_ip w).1
          ≡ record { call = close_guest; ok = close }
            ∷ done_event (dial (dotted guest_ip ++ codes ":2375"))
            ∷ older)
  unfolding wait_for_docker_ready read_clock
  wait_for_docker_ready-none guest_ip w h = accepted _ _ (wait_for_docker_ready-Ends guest_ip w) h
