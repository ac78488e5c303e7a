-- ===== src/Control/Examples.antt =====
-- Requests to a file that was just opened, with functions behind them that only take note of the length of
-- the program that is started.
use reasoned_soc.Prelude.{ℕ, ◌≡◌, refl, true, some, List, [], ◌∷◌}
use reasoned_soc.Errno.{failed, err, ok}
use reasoned_soc.Control.{
  internal_control, new_device, device_open, Ioctl, Handlers, Copies, set_mode, check_init,
  dispatch, handle_ioctl, device_ioctl, session_mode, add_request, update_request, control_latency,
  ioctl_invoke, ioctl_setmode, ioctl_control, ioctl_init,
}
use reasoned_soc.Process.{InitIoctl, create}
use reasoned_soc.Control.Qos.{IsRequested, device_ioctls, device_ioctls-IsRequested}

abbrev noting : Handlers ℕ
noting = record {
  invoke = λ d s. (ok tt, s);
  mmap = λ ud s. (ok tt, s);
  munmap = λ vaddrout size s. (ok tt, s);
  munmap_fd = λ fd va len s. (ok tt, s);
  get_info = λ d info s. (ok tt, s);
  init = λ d init s. (ok tt, init.filelen);
}

abbrev copied : Copies
copied = record {
  from_user = true;
  to_user = true;
  keys = true;
  values = true;
  pid = 101;
  latency = 100;
  default = 2000;
}

abbrev program : ℕ → InitIoctl
program filelen = record {
  flags = create;
  file = 0x10_0000;
  filelen = filelen;
  filefd = 3;
  mem = 0;
  memlen = 0;
  attrs = 0;
  siglen = 0;
}

large_refused :
    (device_ioctl noting copied (ioctl_init (program 0x100_0000)) (new_device 100) 7).0 ≡ err failed
unfolding device_ioctl handle_ioctl dispatch check_init
large_refused = refl

-- A request to a file that is being closed returns a number that is no error.
closing_returned :
    (device_ioctl noting copied ioctl_invoke (record (new_device 100) { file_close = true }) 7).0
    ≡ ok 9
unfolding device_ioctl
closing_returned = refl

abbrev latencies : List (Copies × Ioctl)
latencies =
    (copied, ioctl_control (control_latency 1))
    ∷ (copied, ioctl_setmode session_mode)
    ∷ (copied, ioctl_control (control_latency 0))
    ∷ []

latency_calls :
    (device_ioctls noting latencies (new_device 100) 7).0.qos_calls
    ≡ update_request 2000 ∷ add_request 100 ∷ []
unfolding device_ioctls device_ioctl handle_ioctl dispatch set_mode internal_control
latency_calls = refl

device_ioctls-IsRequested_example :
    IsRequested (device_ioctls noting latencies (new_device 100) 7).0
device_ioctls-IsRequested_example =
    device_ioctls-IsRequested noting latencies (new_device 100) 7 refl

opened : (device_open 1 (some 0x7000) 100 []).1 ≡ 0x7000 ∷ []
unfolding device_open
opened = refl

opened_elsewhere : (device_open 2 (some 0x7000) 100 []) ≡ (err failed, [])
unfolding device_open
opened_elsewhere = refl
