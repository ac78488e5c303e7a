-- ===== src/Control.antt =====
-- The requests to an open file of android/adsprpc.c: `fastrpc_device_open`, `fastrpc_internal_control`
-- and `fastrpc_device_ioctl`, which hands the other requests to their functions.
pub mod Cycle
mod CycleExamples
pub mod Driver
mod Examples
pub mod Guard
pub mod Qos
pub mod Undone
use reasoned_soc.Prelude.{
  ltb, ◌==◌, if◌then◌else◌, ℕ, ◌*◌, ◌^◌, Bool, true, false, not, ◌&&◌, ◌||◌, Option, none, some,
  List, [], ◌∷◌,
}
use reasoned_soc.Errno.{Result, failed, enotty, err, ok}
use reasoned_soc.Session.{FileBinding}
use reasoned_soc.Remote.Mmap.{MmapIoctl}
use reasoned_soc.Process.{InitIoctl}
use Prim.Native.Nat.{bit_or}

-- FASTRPC_MODE_PARALLEL and the others
pub data Mode : Type 0 where
  parallel serial profile_mode session_mode other_mode : Mode

-- `pm_qos_add_request` and `pm_qos_update_request`
pub data QosCall : Type 0 where
  add_request update_request : (latency : ℕ) → QosCall

-- `struct fastrpc_ioctl_control`
pub data ControlReq : Type 0 where
  control_latency : (enable : ℕ) → ControlReq
  control_smmu : (sharedcb : Bool) → ControlReq
  control_kalloc control_other : ControlReq

-- The fields of `struct fastrpc_file` that requests set, with the calls for its latency, the last
-- one first. `perfs` has the threads of its profiles.
pub record Device : Type 0 where
  pub file_close : Bool
  pub profile : Bool
  pub mode : Mode
  pub sessionid : Bool
  pub tgid : ℕ
  pub sharedcb : Bool
  pub qos_request : Bool
  pub qos_calls : List QosCall
  pub perfs : List ℕ

-- FASTRPC_LATENCY_CTRL_ENB
abbrev pub latency_ctrl_enb : ℕ
latency_ctrl_enb = 1

abbrev pub request_latency : ℕ → Device → Device
request_latency latency d =
    if not d.qos_request
    then record d { qos_request = true; qos_calls = add_request latency ∷ d.qos_calls }
    else record d { qos_calls = update_request latency ∷ d.qos_calls }

-- `apps` is `apps->latency`, `default` is PM_QOS_DEFAULT_VALUE.
unfoldable pub internal_control : ℕ → ℕ → ControlReq → Device → Result (Unit {0}) × Device
internal_control apps default (control_latency enable) d =
    let latency = if enable == latency_ctrl_enb then apps else default in
    if latency == 0 then (err failed, d) else (ok tt, request_latency latency d)
internal_control apps default (control_smmu sharedcb) d = (ok tt, record d { sharedcb = sharedcb })
internal_control apps default control_kalloc d = (ok tt, d)
internal_control apps default control_other d = (err enotty, d)

abbrev pub minor_num_dev : ℕ
minor_num_dev = 0

abbrev pub minor_num_secure_dev : ℕ
minor_num_secure_dev = 1

abbrev pub new_device : ℕ → Device
new_device tgid = record {
  file_close = false;
  profile = false;
  mode = serial;
  sessionid = false;
  tgid = tgid;
  sharedcb = false;
  qos_request = false;
  qos_calls = [];
  perfs = [];
}

abbrev pub new_binding : Bool → FileBinding
new_binding secure_node = record {
  cid = none;
  sctx = none;
  sharedcb = false;
  ssrcount = 0;
  secure_node = secure_node;
}

-- The new file with its address, and `me->drivers`. `fresh` is the address of `kzalloc`.
unfoldable pub device_open : ℕ → Option ℕ → ℕ → List ℕ → Result (ℕ × Device × FileBinding) × List ℕ
device_open minor fresh tgid drivers =
    if not ((minor == minor_num_dev) || (minor == minor_num_secure_dev))
    then (err failed, drivers)
    else elim fresh [
      | none ↦ (err failed, drivers)
      | some p ↦ (ok (p, new_device tgid, new_binding (minor == minor_num_secure_dev)), p ∷ drivers)
    ]

-- The requests, by the number of `fastrpc_device_ioctl`.
pub data Ioctl : Type 0 where
  ioctl_invoke ioctl_other : Ioctl
  ioctl_mmap : (ud : MmapIoctl) → Ioctl
  ioctl_munmap : (vaddrout size : ℕ) → Ioctl
  ioctl_munmap_fd : (fd va len : ℕ) → Ioctl
  ioctl_setmode : (mode : Mode) → Ioctl
  ioctl_getperf : (keys values : Bool) → Ioctl
  ioctl_control : (req : ControlReq) → Ioctl
  ioctl_getinfo : (info : ℕ) → Ioctl
  ioctl_init ioctl_init_attrs : (init : InitIoctl) → Ioctl

-- The functions that the requests are handed to, on a state of theirs.
pub record Handlers (S : Type 0) : Type 0 where
  pub invoke : Device → S → Result (Unit {0}) × S
  pub mmap : MmapIoctl → S → Result (Unit {0}) × S
  pub munmap : (vaddrout size : ℕ) → S → Result (Unit {0}) × S
  pub munmap_fd : (fd va len : ℕ) → S → Result (Unit {0}) × S
  pub get_info : Device → (info : ℕ) → S → Result (Unit {0}) × S
  pub init : Device → InitIoctl → S → Result (Unit {0}) × S

-- What a request is given: the outcome of the copies from and to the process, of those of the keys
-- and of the data of a profile, the number of the thread, and the two latencies.
pub record Copies : Type 0 where
  pub from_user : Bool
  pub to_user : Bool
  pub keys : Bool
  pub values : Bool
  pub pid : ℕ
  pub latency : ℕ
  pub default : ℕ

-- INIT_FILELEN_MAX and INIT_MEMLEN_MAX
abbrev pub init_filelen_max : ℕ
init_filelen_max = 2 * 1024 * 1024

abbrev pub init_memlen_max : ℕ
init_memlen_max = 8 * 1024 * 1024

-- EBADF, which is returned as a positive number
abbrev pub ebadf : ℕ
ebadf = 9

unfoldable pub set_mode : Mode → Device → Result (Unit {0}) × Device
set_mode parallel d = (ok tt, record d { mode = parallel })
set_mode serial d = (ok tt, record d { mode = serial })
set_mode profile_mode d = (ok tt, record d { profile = true })
set_mode session_mode d = (ok tt, record d { sessionid = true; tgid = bit_or d.tgid (2 ^ 30) })
set_mode other_mode d = (err enotty, d)

abbrev pub has_perf : ℕ → List ℕ → Bool
has_perf pid [] = false
has_perf pid (tid ∷ tids) = (tid == pid) || has_perf pid tids

-- The error of the data's copy stays while the next copy is made.
abbrev pub get_perf : Copies → Bool → Bool → Device → Result (Unit {0})
get_perf k keys values d =
    if (keys && not k.keys) || (values && has_perf k.pid d.perfs && not k.values) || not k.to_user
    then err failed
    else ok tt

-- The value that is returned, the file and the state.
abbrev pub Reply : Type 0 → Type 0
Reply S = Result ℕ × Device × S

abbrev pub is_kalloc : ControlReq → Bool
is_kalloc control_kalloc = true
is_kalloc _ = false

module _ {S : Type 0} where
  abbrev pub served : Device → Result (Unit {0}) × S → Reply S
  served d (err e, s) = (err e, d, s)
  served d (ok done, s) = (ok 0, d, s)

  -- A result that is copied to the process.
  abbrev pub served_out : Bool → Device → Result (Unit {0}) × S → Reply S
  served_out copied d (err e, s) = (err e, d, s)
  served_out copied d (ok done, s) = (if copied then ok 0 else err failed, d, s)

  abbrev pub set_device : S → Result (Unit {0}) × Device → Reply S
  set_device s (err e, d) = (err e, d, s)
  set_device s (ok done, d) = (ok 0, d, s)

  abbrev pub control_out : Copies → ControlReq → Reply S → Reply S
  control_out k req (err e, d, s) = (err e, d, s)
  control_out k req (ok v, d, s) =
      (if is_kalloc req && not k.to_user then err failed else ok v, d, s)

  -- The checks on the two lengths, of which neither is negative.
  unfoldable pub check_init : Handlers S → Device → InitIoctl → S → Reply S
  check_init h d init s =
      if not (ltb init.filelen init_filelen_max) || not (ltb init.memlen init_memlen_max)
      then (err failed, d, s)
      else served d (h.init d init s)

  -- The requests whose arguments are copied in first.
  unfoldable pub dispatch : Handlers S → Copies → Ioctl → Device → S → Reply S
  dispatch h k ioctl_invoke d s = served d (h.invoke d s)
  dispatch h k (ioctl_mmap ud) d s = served_out k.to_user d (h.mmap ud s)
  dispatch h k (ioctl_munmap vaddrout size) d s = served d (h.munmap vaddrout size s)
  dispatch h k (ioctl_munmap_fd fd va len) d s = served d (h.munmap_fd fd va len s)
  dispatch h k (ioctl_getperf keys values) d s = set_device s (get_perf k keys values d, d)
  dispatch h k (ioctl_control req) d s =
      control_out k req (set_device s (internal_control k.latency k.default req d))
  dispatch h k (ioctl_getinfo info) d s = served_out k.to_user d (h.get_info d info s)
  dispatch h k (ioctl_init init) d s = check_init h d (record init { attrs = 0; siglen = 0 }) s
  dispatch h k (ioctl_init_attrs init) d s = check_init h d init s
  dispatch h k req d s = (err enotty, d, s)  -- not reached

  -- The requests without a copy come first.
  unfoldable pub handle_ioctl : Handlers S → Copies → Ioctl → Device → S → Reply S
  handle_ioctl h k (ioctl_setmode mode) d s = set_device s (set_mode mode d)
  handle_ioctl h k ioctl_other d s = (err enotty, d, s)
  handle_ioctl h k req d s = if k.from_user then dispatch h k req d s else (err failed, d, s)

  unfoldable pub device_ioctl : Handlers S → Copies → Ioctl → Device → S → Reply S
  device_ioctl h k req d₀ s =
      let d = record d₀ { profile = true } in
      if d.file_close then (ok ebadf, d, s) else handle_ioctl h k req d s
