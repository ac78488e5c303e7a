-- ===== src/Control/Guard.antt =====
-- What a request of `fastrpc_device_ioctl` in android/adsprpc.c may do to its file and to the state of the
-- driver.
use reasoned_soc.Prelude.{
  ltb, if◌then◌else◌, Bool-cases, ℕ, ◌<◌, inl, inr, Bool, true, false, not, ◌||◌, arith,
}
use reasoned_soc.Control.{
  Mode, ControlReq, Device, internal_control, Ioctl, Handlers, Copies, init_filelen_max,
  init_memlen_max, ebadf, set_mode, get_perf, Reply, served, served_out, set_device, control_out,
  check_init, dispatch, handle_ioctl, device_ioctl, ioctl_invoke, ioctl_other, ioctl_mmap,
  ioctl_munmap, ioctl_munmap_fd, ioctl_setmode, ioctl_getperf, ioctl_control, ioctl_getinfo,
  ioctl_init, ioctl_init_attrs,
}
use reasoned_soc.Errno.{Result, failed, err, ok}
use reasoned_soc.Process.{InitIoctl}
use reasoned_soc.Remote.Mmap.{MmapIoctl}

-- What holds of a file and of the state is kept by the functions that the requests are handed to, and
-- by what a request does itself; the start of a process may rely on the limits of its two lengths.
pub record IsKept {S : Type 0} (h : Handlers S) (P : Device → S → Type 0) : Type 0 where
  pub invoke : (d : Device) (s : S) → P d s → P d (h.invoke d s).1
  pub mmap : (ud : MmapIoctl) (d : Device) (s : S) → P d s → P d (h.mmap ud s).1
  pub munmap : (vaddrout size : ℕ) (d : Device) (s : S) → P d s → P d (h.munmap vaddrout size s).1
  pub munmap_fd : (fd va len : ℕ) (d : Device) (s : S) → P d s → P d (h.munmap_fd fd va len s).1
  pub get_info : (d : Device) (info : ℕ) (s : S) → P d s → P d (h.get_info d info s).1
  pub init :
      (d : Device) (init : InitIoctl) (s : S)
      → init.filelen < init_filelen_max
      → init.memlen < init_memlen_max
      → P d s
      → P d (h.init d init s).1
  pub profiled : (d : Device) (s : S) → P d s → P (record d { profile = true }) s
  pub moded : (mode : Mode) (d : Device) (s : S) → P d s → P (set_mode mode d).1 s
  pub controlled :
      (apps default : ℕ) (req : ControlReq) (d : Device) (s : S)
      → P d s
      → P (internal_control apps default req d).1 s

module _ {S : Type 0} (h : Handlers S) (P : Device → S → Type 0) (kept : IsKept h P) where
  served-kept : (d : Device) (r : Result (Unit {0}) × S) → P d r.1 → P (served d r).1 (served d r).2
  served-kept d (err e, s) p = p
  served-kept d (ok done, s) p = p

  served_out-kept :
      (b : Bool) (d : Device) (r : Result (Unit {0}) × S)
      → P d r.1
      → P (served_out b d r).1 (served_out b d r).2
  served_out-kept b d (err e, s) p = p
  served_out-kept b d (ok done, s) p = p

  set_device-kept :
      (s : S) (r : Result (Unit {0}) × Device) → P r.1 s → P (set_device s r).1 (set_device s r).2
  set_device-kept s (err e, d) p = p
  set_device-kept s (ok done, d) p = p

  control_out-kept :
      (k : Copies) (req : ControlReq) (r : Reply S)
      → P r.1 r.2
      → P (control_out k req r).1 (control_out k req r).2
  control_out-kept k req (err e, d, s) p = p
  control_out-kept k req (ok v, d, s) p = p

  either-kept :
      (b : Bool) (x y : Reply S)
      → P x.1 x.2
      → P y.1 y.2
      → P (if b then x else y).1 (if b then x else y).2
  either-kept true x y p q = p
  either-kept false x y p q = q

  check_init-kept :
      (d : Device) (init : InitIoctl) (s : S)
      → P d s
      → P (check_init h d init s).1 (check_init h d init s).2
  unfolding check_init
  check_init-kept d init s p =
      elim (Bool-cases
        (not (ltb init.filelen init_filelen_max) || not (ltb init.memlen init_memlen_max))) [
          | inl e ↦ rw (check_init, e) p
          | inr e ↦
              let file : init.filelen < init_filelen_max = ground (arith, e) in
              let mem : init.memlen < init_memlen_max = ground (arith, e) in
              rw (check_init, e) (served-kept d (h.init d init s) (kept.init d init s file mem p))
        ]

  dispatch-kept :
      (k : Copies) (req : Ioctl) (d : Device) (s : S)
      → P d s
      → P (dispatch h k req d s).1 (dispatch h k req d s).2
  unfolding dispatch
  dispatch-kept k ioctl_invoke d s p = served-kept d (h.invoke d s) (kept.invoke d s p)
  dispatch-kept k (ioctl_mmap ud) d s p =
      served_out-kept k.to_user d (h.mmap ud s) (kept.mmap ud d s p)
  dispatch-kept k (ioctl_munmap vaddrout size) d s p =
      served-kept d (h.munmap vaddrout size s) (kept.munmap vaddrout size d s p)
  dispatch-kept k (ioctl_munmap_fd fd va len) d s p =
      served-kept d (h.munmap_fd fd va len s) (kept.munmap_fd fd va len d s p)
  dispatch-kept k (ioctl_getperf keys values) d s p =
      set_device-kept s (get_perf k keys values d, d) p
  dispatch-kept k (ioctl_control req) d s p =
      let r = internal_control k.latency k.default req d in
      control_out-kept k req (set_device s r)
        (set_device-kept s r (kept.controlled k.latency k.default req d s p))
  dispatch-kept k (ioctl_getinfo info) d s p =
      served_out-kept k.to_user d (h.get_info d info s) (kept.get_info d info s p)
  dispatch-kept k (ioctl_init init) d s p =
      check_init-kept d (record init { attrs = 0; siglen = 0 }) s p
  dispatch-kept k (ioctl_init_attrs init) d s p = check_init-kept d init s p
  dispatch-kept k (ioctl_setmode mode) d s p = p
  dispatch-kept k ioctl_other d s p = p

  handle_ioctl-kept :
      (k : Copies) (req : Ioctl) (d : Device) (s : S)
      → P d s
      → P (handle_ioctl h k req d s).1 (handle_ioctl h k req d s).2
  unfolding handle_ioctl
  handle_ioctl-kept k req d s p =
      let copied : (r : Ioctl)
          → let x = (if k.from_user then dispatch h k r d s else (err failed, d, s)) in P x.1 x.2 =
        λ r.
          either-kept k.from_user (dispatch h k r d s) (err failed, d, s) (dispatch-kept k r d s p)
            p in
      elim req as (λ r. P (handle_ioctl h k r d s).1 (handle_ioctl h k r d s).2) [
        | ioctl_setmode mode ↦ set_device-kept s (set_mode mode d) (kept.moded mode d s p)
        | ioctl_other ↦ p
        | ioctl_invoke ↦ copied ioctl_invoke
        | ioctl_mmap ud ↦ copied (ioctl_mmap ud)
        | ioctl_munmap vaddrout size ↦ copied (ioctl_munmap vaddrout size)
        | ioctl_munmap_fd fd va len ↦ copied (ioctl_munmap_fd fd va len)
        | ioctl_getperf keys values ↦ copied (ioctl_getperf keys values)
        | ioctl_control r ↦ copied (ioctl_control r)
        | ioctl_getinfo info ↦ copied (ioctl_getinfo info)
        | ioctl_init init ↦ copied (ioctl_init init)
        | ioctl_init_attrs init ↦ copied (ioctl_init_attrs init)
      ]

-- What holds of a file and of the driver's state is kept by every request, whatever its number and
-- its arguments and whether its copies succeed, if it is kept by the functions behind the requests,
-- the start of a process for a program below 2 MB and a heap below 8 MB, by the setting of a mode, by
-- a control request and by the mark that the file is profiled.
pub device_ioctl-kept :
    {S : Type 0} (h : Handlers S) (P : Device → S → Type 0) (k : Copies) (req : Ioctl) (d : Device)
    (s : S)
    → IsKept h P
    → P d s
    → P (device_ioctl h k req d s).1 (device_ioctl h k req d s).2
unfolding device_ioctl
device_ioctl-kept h P k req d s kept p =
    let d₁ = record d { profile = true } in
    either-kept h P kept d.file_close (ok ebadf, d₁, s) (handle_ioctl h k req d₁ s)
      (kept.profiled d s p) (handle_ioctl-kept h P kept k req d₁ s (kept.profiled d s p))
