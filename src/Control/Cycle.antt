-- ===== src/Control/Cycle.antt =====
-- A buffer that a file of android/adsprpc.c maps and unmaps by requests.
use reasoned_soc.Prelude.{ℕ, List, [], ◌∷◌, ◌++◌}
use reasoned_soc.Control.{Ioctl, Copies, ioctl_mmap, ioctl_munmap}
use reasoned_soc.Remote.Mmap.{MmapIoctl}

-- A request that maps, requests that are refused, and one that unmaps.
abbrev pub cycle : Copies → MmapIoctl → List (Copies × Ioctl) → Copies → ℕ → List (Copies × Ioctl)
cycle k ud refused k' raddr =
    (k, ioctl_mmap ud) ∷ (refused ++ (k', ioctl_munmap raddr ud.size) ∷ [])
