-- ===== src/Cgroup.antt =====
-- internal/vmmanager/cgroup.go: the cgroup that caps a VM.
pub mod Limits
use devplat_agent.Base.{
  ℕ, Bool, true, false, ◌||◌, ◌&&◌, List, [], ◌∷◌, ◌++◌, Option, none, some, if◌then◌else◌, ◌==◌,
}
use devplat_agent.Base.Int.{ℤ, pos}
use devplat_agent.Base.Words.{mul64}
use devplat_agent.Base.Text.{Bytes, codes, itoa, has_prefix}
use devplat_agent.Paths.{join}
use devplat_agent.World.{
  Io, World, Responder, attempt, pure, ◌>>=◌, ◌>>◌, Err, outside, wrapped, stat, mkdir_all,
  read_file, write_text, not_cgroup_v2, create_cgroup_dir, enable_controller, no_controller,
  set_cpu_max, set_memory_max,
}
use devplat_agent.Network.Tap.{Error}
use devplat_agent.Manager.Lifecycle.{cgroup_root}

abbrev pub cgroup_mount : Bytes
cgroup_mount = codes "/sys/fs/cgroup"

-- strings.Contains
unfoldable pub contains_text : Bytes → Bytes → Bool
contains_text [] part = has_prefix [] part
contains_text (c ∷ s) part = has_prefix (c ∷ s) part || contains_text s part

-- The text of cpu.max: quota and period in microseconds.
unfoldable pub cpu_max : ℤ → Bytes
cpu_max vcpus = itoa (mul64 vcpus (pos 100000)) ++ codes " 100000"

-- The text of memory.max, in bytes.
unfoldable pub memory_max : ℤ → Bytes
memory_max ram_mb = itoa (mul64 (mul64 ram_mb (pos 1024)) (pos 1024))

module _ (r : Responder) where
  -- The inner loop: one controller to each write, until one fails.
  unfoldable pub enable_controllers : Bytes → List Bytes → Io Error
  enable_controllers path [] w = (none, w)
  enable_controllers path (controller ∷ rest) w =
      let (ok, w') = attempt r (write_text path controller) w in
      elim ok [
        | true ↦ enable_controllers path rest w'
        | false ↦ (some (wrapped enable_controller outside), w')
      ]

  -- The outer loop, from the root down.
  unfoldable pub enable_dirs : List Bytes → Io Error
  unfolding enable_controllers
  enable_dirs [] w = (none, w)
  enable_dirs (dir ∷ rest) w =
      let (e, w') =
        enable_controllers (join dir (codes "cgroup.subtree_control"))
          (codes "+cpu" ∷ codes "+memory" ∷ []) w in
      elim e [ none ↦ enable_dirs rest w' | some err ↦ (some err, w') ]

  unfoldable pub ensure_parent_controllers : Io Error
  ensure_parent_controllers = do
    unified ← attempt r (stat (join cgroup_mount (codes "cgroup.controllers")))
    if unified
        then (do
          made ← attempt r (mkdir_all cgroup_root)
          if made
              then enable_dirs (cgroup_mount ∷ cgroup_root ∷ [])
              else pure (some (wrapped create_cgroup_dir outside)))
        else pure (some (wrapped not_cgroup_v2 outside))

  -- Whether the controllers reached the leaf; an unreadable file is let pass.
  unfoldable pub check_controllers : Bytes → Io Bool
  check_controllers path w =
      let file = join path (codes "cgroup.controllers") in
      let (readable, w') = attempt r (read_file file) w in
      let have = r.contents w file in
      (
        if readable
            then contains_text have (codes "cpu") && contains_text have (codes "memory")
            else true,
        w',
      )

  unfoldable pub write_limits : Bytes → ℤ → ℤ → Io Error
  write_limits path vcpus ram_mb = do
    cpu ← attempt r (write_text (join path (codes "cpu.max")) (cpu_max vcpus))
    if cpu
        then (do
          memory ← attempt r (write_text (join path (codes "memory.max")) (memory_max ram_mb))
          pure (if memory then none else some (wrapped set_memory_max outside)))
        else pure (some (wrapped set_cpu_max outside))

  unfoldable pub prepare_leaf : Bytes → ℤ → ℤ → Io Error
  prepare_leaf path vcpus ram_mb = do
    made ← attempt r (mkdir_all path)
    if made
        then (do
          there ← check_controllers path
          if there
              then write_limits path vcpus ram_mb
              else pure (some (wrapped no_controller outside)))
        else pure (some (wrapped create_cgroup_dir outside))

  -- The rest of createCgroup, behind ensureParentControllers.
  unfoldable pub leaf_unless : Error → Bytes → ℤ → ℤ → Io Error
  leaf_unless (some err) path vcpus ram_mb w = (some err, w)
  leaf_unless none path vcpus ram_mb w = prepare_leaf path vcpus ram_mb w

  -- createCgroup; the path that it returns is that of the leaf.
  unfoldable pub create_cgroup : Bytes → ℤ → ℤ → Io Error
  create_cgroup id vcpus ram_mb = do
    e ← ensure_parent_controllers
    leaf_unless e (join cgroup_root id) vcpus ram_mb

  unfoldable pub add_process_to_cgroup : Bytes → ℤ → Io Bool
  add_process_to_cgroup path pid =
      attempt r (write_text (join path (codes "cgroup.procs")) (itoa pid))
