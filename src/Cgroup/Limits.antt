-- ===== src/Cgroup/Limits.antt =====
-- internal/vmmanager/cgroup.go: the limits of a cgroup that was set up.
use devplat_agent.Base.{ℕ, ◌*◌, ◌^◌, ◌<◌, ◌≡◌, ap, subst, true, ◌∷◌, ◌++◌, none, some, arith}
use devplat_agent.Base.Int.{ℤ, pos}
use devplat_agent.Base.Words.{mul64}
use devplat_agent.Base.Text.{Bytes, codes, itoa}
use devplat_agent.Paths.{join}
use devplat_agent.World.{World, Event, Responder, attempt, write_text, mkdir_all}
use devplat_agent.Network.Tap.{Error}
use devplat_agent.Manager.Lifecycle.{cgroup_root}
use devplat_agent.Cgroup.{
  cpu_max, memory_max, create_cgroup, prepare_leaf, write_limits, ensure_parent_controllers,
  check_controllers, leaf_unless,
}

mul64_pos : (a b : ℕ) → a * b < 2 ^ 63 → mul64 (pos a) (pos b) ≡ pos (a * b)
unfolding mul64
mul64_pos a b h = ground arith

-- A write that succeeded.
abbrev pub written : Bytes → Bytes → Event
written path text = record { call = write_text path text; ok = true }

module _ (r : Responder) where
  write_limits-written :
      (path : Bytes) (vcpus ram_mb : ℤ) (w : World)
      → (write_limits r path vcpus ram_mb w).0 ≡ none
      → (write_limits r path vcpus ram_mb w).1
        ≡ written (join path (codes "memory.max")) (memory_max ram_mb)
          ∷ written (join path (codes "cpu.max")) (cpu_max vcpus)
          ∷ w
  unfolding write_limits attempt
  write_limits-written path vcpus ram_mb w h = ground arith

  prepare_leaf-written :
      (path : Bytes) (vcpus ram_mb : ℤ) (w : World)
      → (prepare_leaf r path vcpus ram_mb w).0 ≡ none
      → (older : World) × ((prepare_leaf r path vcpus ram_mb w).1
          ≡ written (join path (codes "memory.max")) (memory_max ram_mb)
            ∷ written (join path (codes "cpu.max")) (cpu_max vcpus)
            ∷ older)
  unfolding prepare_leaf
  prepare_leaf-written path vcpus ram_mb w h =
      let w1 = (attempt r (mkdir_all path) w).1 in
      let w2 = (check_controllers r path w1).1 in
      (w2, ground (arith, write_limits-written path vcpus ram_mb w2))

  leaf_unless-written :
      (e : Error) (path : Bytes) (vcpus ram_mb : ℤ) (w : World)
      → (leaf_unless r e path vcpus ram_mb w).0 ≡ none
      → (older : World) × ((leaf_unless r e path vcpus ram_mb w).1
          ≡ written (join path (codes "memory.max")) (memory_max ram_mb)
            ∷ written (join path (codes "cpu.max")) (cpu_max vcpus)
            ∷ older)
  unfolding leaf_unless
  leaf_unless-written (some err) path vcpus ram_mb w h = absurd (cc)
  leaf_unless-written none path vcpus ram_mb w h = prepare_leaf-written path vcpus ram_mb w h

  -- If createCgroup returns no error and the sizes in microseconds and bytes are below 2 ^ 63, its
  -- last two writes are the CPU quota of 100000 microseconds per CPU and the memory limit in bytes,
  -- to the cgroup of the VM.
  pub create_cgroup-limits :
      (id : Bytes) (cpus mbs : ℕ) (w : World)
      → cpus * 100000 < 2 ^ 63
      → mbs * 1024 * 1024 < 2 ^ 63
      → (create_cgroup r id (pos cpus) (pos mbs) w).0 ≡ none
      → (older : World) × ((create_cgroup r id (pos cpus) (pos mbs) w).1
          ≡ written
              (join (join cgroup_root id) (codes "memory.max"))
              (itoa (pos (mbs * 1024 * 1024)))
            ∷ written
                (join (join cgroup_root id) (codes "cpu.max"))
                (itoa (pos (cpus * 100000)) ++ codes " 100000")
            ∷ older)
  unfolding create_cgroup cpu_max memory_max
  create_cgroup-limits id cpus mbs w hc hm h =
      let (e, w1) = ensure_parent_controllers r w in
      let (older, done') = leaf_unless-written e (join cgroup_root id) (pos cpus) (pos mbs) w1 h in
      (
        older,
        subst
            (λ (limits : Bytes × Bytes).
              (create_cgroup r id (pos cpus) (pos mbs) w).1
              ≡ written (join (join cgroup_root id) (codes "memory.max")) limits.0
                ∷ written (join (join cgroup_root id) (codes "cpu.max")) limits.1
                ∷ older)
            (λ i. (ap itoa memory i, ap itoa cpu i ++ codes " 100000")) done',
      )
    where
      cpu : mul64 (pos cpus) (pos 100000) ≡ pos (cpus * 100000)
      cpu = mul64_pos cpus 100000 hc

      memory : mul64 (mul64 (pos mbs) (pos 1024)) (pos 1024) ≡ pos (mbs * 1024 * 1024)
      memory = rw (mul64_pos mbs 1024 (omega arith)) (mul64_pos (mbs * 1024) 1024 hm)
