-- ===== src/Paths.antt =====
-- package path/filepath, on paths that are clean already: no doubled slash, no `.` and no `..`.
use devplat_agent.Base.{Bool, false, ◌||◌, [], ◌∷◌, ◌++◌, ◌==◌, if◌then◌else◌, ◌≡◌, refl}
use devplat_agent.Base.Text.{Bytes, codes}

-- filepath.Join of two elements; an empty element is dropped.
unfoldable pub join : Bytes → Bytes → Bytes
join dir [] = dir
join [] (c ∷ name) = c ∷ name
join (d ∷ dir) (c ∷ name) = (d ∷ dir) ++ (b'/' ∷ c ∷ name)

has_slash : Bytes → Bool
has_slash [] = false
has_slash (c ∷ s) = c == b'/' || has_slash s

-- What stands before the last slash.
before_last_slash : Bytes → Bytes
before_last_slash [] = []
before_last_slash (c ∷ s) = let rest = before_last_slash s in if has_slash s then c ∷ rest else []

or_root : Bytes → Bytes
or_root [] = codes "/"
or_root (c ∷ s) = c ∷ s

-- filepath.Dir
unfoldable pub dir_of : Bytes → Bytes
unfolding has_slash before_last_slash or_root
dir_of s = if has_slash s then or_root (before_last_slash s) else codes "."

dir_of_example :
    dir_of (join (join (codes "/var/vms") (codes "vm_1")) (codes "rootfs.ext4"))
    ≡ codes "/var/vms/vm_1"
unfolding dir_of join
dir_of_example = refl
