-- ===== src/Manager/Lifecycle.antt =====
-- internal/vmmanager/manager.go and rootfs.go: Create, Destroy, and what they call.
use devplat_agent.Base.{[], ◌∷◌, none, some, if◌then◌else◌}
use devplat_agent.Base.Int.{ℤ}
use devplat_agent.Base.Text.{Bytes, codes}
use devplat_agent.Base.Assoc.{lookup, insert, delete, bytes_key, int_key}
use devplat_agent.Paths.{join, dir_of}
use devplat_agent.World.{
  Io, World, Responder, attempt, pure, ◌>>=◌, Result, done, failed, outside, not_found, wrapped,
  mkdir_all, run, remove, remove_all, write_json, create_rootfs_dir, copy_golden_image,
  prepare_rootfs_stage, boot_vm, stop_vm,
}
use devplat_agent.Network.Derive.{derive_net_config}
use devplat_agent.Network.Tap.{Error, teardown_tap_device}
use devplat_agent.Network.Firewall.{teardown_firewall}
use devplat_agent.Manager.State.{Vm, Manager, Agent, Setting}
use devplat_agent.Manager.Meta.{marshal}
use devplat_agent.Manager.Admission.{CreateRequest, admit}

abbrev pub cgroup_root : Bytes
cgroup_root = codes "/sys/fs/cgroup/devplat"

module _ (r : Responder) where
  unfoldable pub prepare_rootfs : Bytes → Bytes → Io Error
  unfolding attempt
  prepare_rootfs golden dest = do
    made ← attempt r (mkdir_all (dir_of dest))
    if made
        then (do
          copied ← attempt r (run (codes "cp") (codes "--sparse=always" ∷ golden ∷ dest ∷ []))
          pure (if copied then none else some (wrapped copy_golden_image outside)))
        else pure (some (wrapped create_rootfs_dir outside))

  unfoldable pub remove_vm_dir : Bytes → Io Error
  unfolding attempt
  remove_vm_dir dir = do
    gone ← attempt r (remove_all dir)
    pure (if gone then none else some outside)

  -- A cgroup that is not there is no error.
  unfoldable pub remove_cgroup : Bytes → Io Error
  unfolding attempt
  remove_cgroup id w =
      let path = join cgroup_root id in
      let (gone, w') = attempt r (remove path) w in
      if gone
      then (none, w')
      else if r.absent w (remove path)
      then (none, w')
      else (some outside, w')

unfoldable pub release_slot : ℤ → Manager → Manager
release_slot slot m = record m { slots = delete slot m.slots }

-- The last locked section of Create.
unfoldable pub commit : Vm → Manager → Manager
commit vm m = record m { vms = insert vm.id vm m.vms }

-- The last locked section of Destroy.
unfoldable pub forget : Bytes → Vm → Manager → Manager
forget id vm m = record m { vms = delete id m.vms; slots = delete vm.slot m.slots }

-- The end of Create: the VM is entered, or its slot is given back.
unfoldable pub settle : {S : Type 0} → ℤ → Result Vm × S × World → Manager → Result Vm × Agent S
settle slot (done vm, s, w) m = (done vm, record { manager = commit vm m; backend = s; world = w })
settle slot (failed err, s, w) m =
    (failed err, record { manager = release_slot slot m; backend = s; world = w })

module _ {S : Type 0} (env : Setting S) where
  unfoldable pub vm_dir : Bytes → Bytes
  vm_dir id = join env.config.vm_state_dir id

  unfoldable pub persist : Vm → Io Error
  unfolding attempt vm_dir
  persist vm = do
    made ← attempt env.responder (mkdir_all (vm_dir vm.id))
    if made
        then (do
          written ←
              attempt env.responder
                (write_json (join (vm_dir vm.id) (codes "meta.json")) (marshal env.time_format vm))
          pure (if written then none else some outside))
        else pure (some outside)

  -- Create between its locked sections: the root file system, the boot and the metadata.
  unfoldable pub launch : Vm → S → World → Result Vm × S × World
  unfolding vm_dir
  launch vm s w =
      let nc = derive_net_config env.config vm.slot in
      let rootfs_path = join (vm_dir vm.id) (codes "rootfs.ext4") in
      let (e, w1) = prepare_rootfs env.responder env.config.golden_image_path rootfs_path w in
      elim e [
        | some err ↦ (failed (wrapped prepare_rootfs_stage err), s, w1)
        | none ↦
            let (booted, s2, w2) = env.backend.boot vm nc rootfs_path s w1 in
            elim booted [
              | failed err ↦
                  let (_, w3) = remove_vm_dir env.responder (vm_dir vm.id) w2 in
                  (failed (wrapped boot_vm err), s2, w3)
              | done b ↦
                  let running = record vm { docker_endpoint = b.docker_endpoint; pid = b.pid } in
                  let (_, w3) = persist running w2 in (done running, s2, w3)
            ]
      ]

  unfoldable pub create : CreateRequest → Agent S → Result Vm × Agent S
  create req a =
      let (admitted, a1) = admit env req a in
      elim admitted [
        | failed err ↦ (failed err, a1)
        | done vm ↦ settle vm.slot (launch vm a1.backend a1.world) a1.manager
      ]

  -- Destroy between its locked sections.
  unfoldable pub shut_down : Vm → S → World → Error × S × World
  unfolding vm_dir
  shut_down vm s w =
      let (e, s1, w1) = env.backend.stop vm s w in
      elim e [
        | some err ↦ (some (wrapped stop_vm err), s1, w1)
        | none ↦
            let nc = derive_net_config env.config vm.slot in
            let (_, w2) = teardown_firewall env.responder env.config nc w1 in
            let (_, w3) = teardown_tap_device env.responder nc w2 in
            let (_, w4) = remove_cgroup env.responder vm.id w3 in
            let (_, w5) = remove_vm_dir env.responder (vm_dir vm.id) w4 in (none, s1, w5)
      ]

  unfoldable pub destroy : Bytes → Agent S → Error × Agent S
  destroy id a = elim (lookup id a.manager.vms) [
    | none ↦ (some not_found, a)
    | some vm ↦
        let (e, s, w) = shut_down vm a.backend a.world in
        elim e [
          | some err ↦ (some err, record a { backend = s; world = w })
          | none ↦ (none, record { manager = forget id vm a.manager; backend = s; world = w })
        ]
  ]
