-- ===== src/Control/Qos.antt =====
-- The latency that a file of android/adsprpc.c asks for with FASTRPC_CONTROL_LATENCY.
use reasoned_soc.Prelude.{
  ◌==◌, if◌then◌else◌, Bool-cases, ℕ, ◌≡◌, ap, inl, inr, Bool, true, false, List, [], ◌∷◌,
}
use reasoned_soc.Control.{
  Mode, QosCall, ControlReq, Device, latency_ctrl_enb, request_latency, internal_control, Ioctl,
  Handlers, Copies, set_mode, device_ioctl, parallel, serial, profile_mode, session_mode,
  other_mode, add_request, update_request, control_latency, control_smmu, control_kalloc,
  control_other,
}
use reasoned_soc.Control.Guard.{IsKept, device_ioctl-kept}

-- One `pm_qos_add_request`, and nothing but updates after it; the last call comes first.
unfoldable pub is_added_once : List QosCall → Bool
is_added_once [] = false
is_added_once (add_request l ∷ []) = true
is_added_once (add_request l ∷ c ∷ cs) = false
is_added_once (update_request l ∷ cs) = is_added_once cs

-- Either there was no call, or there was one request, which the file knows of.
abbrev pub IsRequested : Device → Type 0
IsRequested d = (if d.qos_request then is_added_once d.qos_calls ≡ true else d.qos_calls ≡ [])

request_latency-IsRequested :
    (l : ℕ) (d : Device) → IsRequested d → IsRequested (request_latency l d)
unfolding is_added_once
request_latency-IsRequested l d v = elim (Bool-cases d.qos_request) [
  | inl e ↦ rw e (rw e at v)
  | inr e ↦ rw e (ap (λ cs. is_added_once (add_request l ∷ cs)) (rw e at v))
]

set_mode-IsRequested : (m : Mode) (d : Device) → IsRequested d → IsRequested (set_mode m d).1
unfolding set_mode
set_mode-IsRequested parallel d v = v
set_mode-IsRequested serial d v = v
set_mode-IsRequested profile_mode d v = v
set_mode-IsRequested session_mode d v = v
set_mode-IsRequested other_mode d v = v

internal_control-IsRequested :
    (apps default : ℕ) (req : ControlReq) (d : Device)
    → IsRequested d
    → IsRequested (internal_control apps default req d).1
unfolding internal_control
internal_control-IsRequested apps default (control_latency enable) d v =
    let latency = if enable == latency_ctrl_enb then apps else default in
    elim (Bool-cases (latency == 0)) [
      | inl e ↦ simp (internal_control, e) v
      | inr e ↦ simp (internal_control, e) (request_latency-IsRequested latency d v)
    ]
internal_control-IsRequested apps default (control_smmu sharedcb) d v = v
internal_control-IsRequested apps default control_kalloc d v = v
internal_control-IsRequested apps default control_other d v = v

IsRequested-kept : {S : Type 0} (h : Handlers S) → IsKept h (λ d s. IsRequested d)
IsRequested-kept h = record {
  invoke = λ d s v. v;
  mmap = λ ud d s v. v;
  munmap = λ vaddrout size d s v. v;
  munmap_fd = λ fd va len d s v. v;
  get_info = λ d info s v. v;
  init = λ d init s file mem v. v;
  profiled = λ d s v. v;
  moded = λ mode d s v. set_mode-IsRequested mode d v;
  controlled = λ apps default req d s v. internal_control-IsRequested apps default req d v;
}

-- The requests of a file, one after the other.
unfoldable pub device_ioctls :
    {S : Type 0} → Handlers S → List (Copies × Ioctl) → Device → S → Device × S
device_ioctls h [] d s = (d, s)
device_ioctls h ((k, req) ∷ reqs) d s =
    let (r, d', s') = device_ioctl h k req d s in device_ioctls h reqs d' s'

-- After any sequence of requests to a file that makes its request for a latency at most once, in
-- particular to one that was just opened, `pm_qos_add_request` was called at most once, before every
-- update, and the file knows of it.
pub device_ioctls-IsRequested :
    {S : Type 0} (h : Handlers S) (reqs : List (Copies × Ioctl)) (d : Device) (s : S)
    → IsRequested d
    → IsRequested (device_ioctls h reqs d s).0
unfolding device_ioctls
device_ioctls-IsRequested h [] d s v = v
device_ioctls-IsRequested h ((k, req) ∷ reqs) d s v =
    let (r, d', s') = device_ioctl h k req d s in
    device_ioctls-IsRequested h reqs d' s'
      (device_ioctl-kept h (λ d s. IsRequested d) k req d s (IsRequested-kept h) v)
