-- ===== src/Control/Undone.antt =====
-- Requests to an open file of android/adsprpc.c that change nothing, and a request that undoes another.
use reasoned_soc.Prelude.{
  ltb, if◌then◌else◌, All, ℕ, ◌≤◌, ◌≡◌, refl, ◌∙◌, ◌⊎◌, inl, inr, Bool, true, false, not, ◌||◌,
  List, [], ◌∷◌, ◌++◌, arith,
}
use reasoned_soc.Errno.{Result, failed, err, ok}
use reasoned_soc.Control.{
  ControlReq, Device, internal_control, Ioctl, Handlers, Copies, init_filelen_max, init_memlen_max,
  ebadf, set_mode, get_perf, Reply, served, served_out, set_device, control_out, check_init,
  dispatch, handle_ioctl, device_ioctl, ioctl_invoke, ioctl_other, ioctl_mmap, ioctl_munmap,
  ioctl_munmap_fd, ioctl_setmode, ioctl_getperf, ioctl_control, ioctl_getinfo, ioctl_init,
  ioctl_init_attrs,
}
use reasoned_soc.Process.{InitIoctl}
use reasoned_soc.Control.Guard.{IsKept, device_ioctl-kept}
use reasoned_soc.Control.Qos.{device_ioctls}
use reasoned_soc.Remote.Mmap.{MmapIoctl}

-- The request does not get to the functions behind it: it has none, or its arguments cannot be
-- copied, or the program or the heap is too large.
abbrev pub IsRefused : Copies × Ioctl → Type 0
IsRefused (k, ioctl_setmode mode) = Unit {0}
IsRefused (k, ioctl_other) = Unit {0}
IsRefused (k, ioctl_control req) = Unit {0}
IsRefused (k, ioctl_getperf keys values) = Unit {0}
IsRefused (k, ioctl_init init) =
    (k.from_user ≡ false) ⊎ (init_filelen_max ≤ init.filelen) ⊎ (init_memlen_max ≤ init.memlen)
IsRefused (k, ioctl_init_attrs init) =
    (k.from_user ≡ false) ⊎ (init_filelen_max ≤ init.filelen) ⊎ (init_memlen_max ≤ init.memlen)
IsRefused (k, ioctl_invoke) = k.from_user ≡ false
IsRefused (k, ioctl_mmap ud) = k.from_user ≡ false
IsRefused (k, ioctl_munmap vaddrout size) = k.from_user ≡ false
IsRefused (k, ioctl_munmap_fd fd va len) = k.from_user ≡ false
IsRefused (k, ioctl_getinfo info) = k.from_user ≡ false

module _ {S : Type 0} (h : Handlers S) where
  set_device-state : (s : S) (r : Result (Unit {0}) × Device) → (set_device s r).2 ≡ s
  set_device-state s (err e, d) = refl
  set_device-state s (ok done, d) = refl

  control_out-state : (k : Copies) (req : ControlReq) (r : Reply S) → (control_out k req r).2 ≡ r.2
  control_out-state k req (err e, d, s) = refl
  control_out-state k req (ok v, d, s) = refl

  served-state : (d : Device) (r : Result (Unit {0}) × S) → (served d r).2 ≡ r.1
  served-state d (err e, s) = refl
  served-state d (ok done, s) = refl

  pub served_out-state :
      (b : Bool) (d : Device) (r : Result (Unit {0}) × S) → (served_out b d r).2 ≡ r.1
  served_out-state b d (err e, s) = refl
  served_out-state b d (ok done, s) = refl

  check_init-refused :
      (d : Device) (init : InitIoctl) (s : S)
      → (init_filelen_max ≤ init.filelen) ⊎ (init_memlen_max ≤ init.memlen)
      → (check_init h d init s).2 ≡ s
  unfolding check_init
  check_init-refused d init s over =
      let e : (not (ltb init.filelen init_filelen_max) || not (ltb init.memlen init_memlen_max))
          ≡ true =
        ground (arith, over) in
      rw (check_init, e) refl

  uncopied :
      (b : Bool) (x : Reply S) (d : Device) (s : S)
      → (b ≡ false) ⊎ (x.2 ≡ s)
      → (if b then x else (err failed, d, s)).2 ≡ s
  uncopied true x d s (inl e) = ground (arith, e)
  uncopied true x d s (inr e) = e
  uncopied false x d s h = refl

  init-over :
      (k : Copies) (d : Device) (init : InitIoctl) (s : S)
      → (k.from_user ≡ false) ⊎ (init_filelen_max ≤ init.filelen) ⊎ (init_memlen_max ≤ init.memlen)
      → (k.from_user ≡ false) ⊎ ((check_init h d init s).2 ≡ s)
  init-over k d init s (inl e) = inl e
  init-over k d init s (inr over) = inr (check_init-refused d init s over)

  handle_ioctl-refused :
      (k : Copies) (req : Ioctl) (d : Device) (s : S)
      → IsRefused (k, req)
      → (handle_ioctl h k req d s).2 ≡ s
  unfolding handle_ioctl dispatch
  handle_ioctl-refused k (ioctl_setmode mode) d s r = set_device-state s (set_mode mode d)
  handle_ioctl-refused k ioctl_other d s r = refl
  handle_ioctl-refused k (ioctl_control req) d s r =
      let x = set_device s (internal_control k.latency k.default req d) in
      uncopied k.from_user (control_out k req x) d s (
        inr (
          control_out-state k req x
          ∙ set_device-state s (internal_control k.latency k.default req d)))
  handle_ioctl-refused k (ioctl_getperf keys values) d s r =
      uncopied k.from_user (set_device s (get_perf k keys values d, d)) d s
        (inr (set_device-state s (get_perf k keys values d, d)))
  handle_ioctl-refused k (ioctl_init init) d s r =
      let i = record init { attrs = 0; siglen = 0 } in
      uncopied k.from_user (check_init h d i s) d s (init-over k d i s r)
  handle_ioctl-refused k (ioctl_init_attrs init) d s r =
      uncopied k.from_user (check_init h d init s) d s (init-over k d init s r)
  handle_ioctl-refused k ioctl_invoke d s r =
      uncopied k.from_user (served d (h.invoke d s)) d s (inl r)
  handle_ioctl-refused k (ioctl_mmap ud) d s r =
      uncopied k.from_user (served_out k.to_user d (h.mmap ud s)) d s (inl r)
  handle_ioctl-refused k (ioctl_munmap vaddrout size) d s r =
      uncopied k.from_user (served d (h.munmap vaddrout size s)) d s (inl r)
  handle_ioctl-refused k (ioctl_munmap_fd fd va len) d s r =
      uncopied k.from_user (served d (h.munmap_fd fd va len s)) d s (inl r)
  handle_ioctl-refused k (ioctl_getinfo info) d s r =
      uncopied k.from_user (served_out k.to_user d (h.get_info d info s)) d s (inl r)

  either-state :
      (b : Bool) (v : ℕ) (x : Reply S) (d : Device) (s : S)
      → x.2 ≡ s
      → (if b then (ok v, d, s) else x).2 ≡ s
  either-state true v x d s e = refl
  either-state false v x d s e = e

  device_ioctl-refused :
      (k : Copies) (req : Ioctl) (d : Device) (s : S)
      → IsRefused (k, req)
      → (device_ioctl h k req d s).2 ≡ s
  unfolding device_ioctl
  device_ioctl-refused k req d s r =
      let d₁ = record d { profile = true } in
      either-state d.file_close ebadf (handle_ioctl h k req d₁ s) d₁ s
        (handle_ioctl-refused k req d₁ s r)

  -- No request closes a file, or opens it again.
  pub file_close-IsKept : (b : Bool) → IsKept h (λ d s. d.file_close ≡ b)
  unfolding set_mode internal_control
  file_close-IsKept b = record {
    invoke = λ d s v. v;
    mmap = λ ud d s v. v;
    munmap = λ vaddrout size d s v. v;
    munmap_fd = λ fd va len d s v. v;
    get_info = λ d info s v. v;
    init = λ d init s file mem v. v;
    profiled = λ d s v. v;
    moded = λ mode d s v. ground (arith, v);
    controlled = λ apps default req d s v. ground (arith, v);
  }

  -- Behind requests that are refused, the state is as before.
  pub refused_kept :
      (reqs : List (Copies × Ioctl)) (d : Device) (s : S)
      → All IsRefused reqs
      → (device_ioctls h reqs d s).1 ≡ s
  unfolding device_ioctls
  refused_kept [] d s all = refl
  refused_kept ((k, req) ∷ reqs) d s (first, all) =
      let (r, d', s') = device_ioctl h k req d s in
      refused_kept reqs d' s' all ∙ device_ioctl-refused k req d s first

  -- A file that is being closed.
  closing_state :
      (b : Bool) (v : ℕ) (x : Reply S) (d : Device) (s : S)
      → b ≡ true
      → (if b then (ok v, d, s) else x).2 ≡ s
  closing_state true v x d s e = refl
  closing_state false v x d s e = ground (arith, e)

  pub closing_kept :
      (reqs : List (Copies × Ioctl)) (d : Device) (s : S)
      → d.file_close ≡ true
      → (device_ioctls h reqs d s).1 ≡ s
  unfolding device_ioctls device_ioctl
  closing_kept [] d s closing = refl
  closing_kept ((k, req) ∷ reqs) d s closing =
      let (r, d', s') = device_ioctl h k req d s in
      let d₁ = record d { profile = true } in
      closing_kept reqs d' s' (
        device_ioctl-kept h (λ d s. d.file_close ≡ true) k req d s (file_close-IsKept true) closing)
      ∙ closing_state d.file_close ebadf (handle_ioctl h k req d₁ s) d₁ s closing

  pub device_ioctls-++ :
      (xs ys : List (Copies × Ioctl)) (d : Device) (s : S)
      → device_ioctls h (xs ++ ys) d s
        ≡ (let (d', s') = device_ioctls h xs d s in device_ioctls h ys d' s')
  unfolding device_ioctls
  device_ioctls-++ [] ys d s = refl
  device_ioctls-++ ((k, req) ∷ xs) ys d s =
      let (r, d', s') = device_ioctl h k req d s in device_ioctls-++ xs ys d' s'

  pub open_kept :
      (reqs : List (Copies × Ioctl)) (d : Device) (s : S)
      → d.file_close ≡ false
      → (device_ioctls h reqs d s).0.file_close ≡ false
  unfolding device_ioctls
  open_kept [] d s opened = opened
  open_kept ((k, req) ∷ reqs) d s opened =
      let (r, d', s') = device_ioctl h k req d s in
      open_kept reqs d' s' (
        device_ioctl-kept h (λ d s. d.file_close ≡ false) k req d s (file_close-IsKept false)
          opened)

  pub mmap-state :
      (k : Copies) (ud : MmapIoctl) (d : Device) (s : S)
      → d.file_close ≡ false
      → k.from_user ≡ true
      → (device_ioctl h k (ioctl_mmap ud) d s).2 ≡ (h.mmap ud s).1
  unfolding device_ioctl handle_ioctl dispatch
  mmap-state k ud d s opened copied =
      let d₁ = record d { file_close = false; profile = true } in
      simp (device_ioctl, handle_ioctl, dispatch, opened, copied)
        (served_out-state k.to_user d₁ (h.mmap ud s))

  pub munmap-state :
      (k : Copies) (vaddrout size : ℕ) (d : Device) (s : S)
      → d.file_close ≡ false
      → k.from_user ≡ true
      → (device_ioctl h k (ioctl_munmap vaddrout size) d s).2 ≡ (h.munmap vaddrout size s).1
  unfolding device_ioctl handle_ioctl dispatch
  munmap-state k vaddrout size d s opened copied =
      let d₁ = record d { file_close = false; profile = true } in
      simp (device_ioctl, handle_ioctl, dispatch, opened, copied)
        (served-state d₁ (h.munmap vaddrout size s))
