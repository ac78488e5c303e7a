-- ===== src/Control/CycleExamples.antt =====
-- A file that maps a buffer, asks for what it cannot have, and unmaps the buffer.
use reasoned_soc.Prelude.{◌^◌, true, false, none, some, List, [], ◌∷◌}
use reasoned_soc.Errno.{failed, err, ok}
use reasoned_soc.Control.{Ioctl, Copies, session_mode, ioctl_invoke, ioctl_setmode, ioctl_init}
use reasoned_soc.Process.{InitGiven, create}
use reasoned_soc.Control.Driver.{OpenFile, Surroundings, memory_of}
use reasoned_soc.Context.Runs.{initially}
use reasoned_soc.Session.{no_session}
use reasoned_soc.Channel.{ChannelCtx, connected}
use reasoned_soc.Buffer.{BufGiven}
use reasoned_soc.Mapping.{Maps}
use reasoned_soc.Mapping.Create.{Given}
use reasoned_soc.Remote.{Host, Memory}
use reasoned_soc.Remote.Mmap.{MmapIoctl, internal_mmap}

abbrev willing : Host
willing = record {
  invoke = λ call. ok 0x7000_0000;
  scm_call2 = λ call. ok tt;
  assign = λ phys size there. true;
  tgid = 100;
  compat = false;
}

abbrev no_maps : Maps
no_maps = record {
  cell = λ p. none;
  global = [];
  maps = λ f. [];
  sessions = λ f. record { sctx = some no_session; secsctx = none };
  held = record { regions = 0; handles = 0; bufs = 0; attaches = 0; tables = 0; mapped = 0 };
}

abbrev given_map : Given
given_map = record {
  fresh = some 0x9000;
  region = none;
  handle = true;
  ion_range = err failed;
  ion_flags = some (false, true);
  session = err failed;
  buf = true;
  attach = true;
  nents = some 1;
  mapped_nents = 1;
  dma_address = 0x8000_0000;
  dma_len = 0x1000;
  assigned = true;
}

abbrev given_buf : BufGiven
given_buf = record {
  fresh = some 0xa000;
  first = some (0xffff_0000, 0x8000_0000);
  second = none;
  assigned = true;
  vmid = 0;
}

abbrev given_init : InitGiven
given_init = record {
  invoke = λ call. ok tt;
  access_ok = true;
  has_name = true;
  name_copied = true;
  is_audiopd = false;
  namelen = 5;
  tgid = 100;
  channel = record {
    notify_handle = true;
    glink_handle = none;
    smd_handle = none;
    work_events = [];
    workport_events = [];
    intent = λ ii. ok tt;
  };
  map = given_map;
  buf = given_buf;
  vmid = 0;
  range = (0, 2 ^ 40);
}

abbrev around : Surroundings
around = record {
  sort = λ os. os;
  glink = true;
  host = willing;
  dev = true;
  buf = given_buf;
  map = given_map;
  vmid = 0;
  range = (0, 2 ^ 40);
  init = given_init;
  call = record {
    kernel = false;
    handle = 7;
    pd = 1;
    has_sessionid = false;
    faults = false;
    request = record {
      fl = 1;
      tgid = 7;
      pid = 70;
      sc = 5;
      length = 0;
      nbufs = 0;
      lpra = [];
      fresh = some 0x12345;
      copied = true;
    };
    got_args = ok tt;
    buf_phys = 0;
    used = 0;
    glink_tx = λ m. ok tt;
    smd_write = λ m. true;
  };
  put = ok tt;
  interrupted = false;
  wait = λ c. c;
}

abbrev channel : ChannelCtx
channel = record {
  chan = some 0xc000;
  work = 0;
  workport = 0;
  kref = 1;
  ssrcount = 0;
  prevssrcount = 0;
  issubsystemup = true;
  link = record { link_up = true; port_state = connected; registered = true };
}

abbrev driver_state : OpenFile
driver_state = record {
  process = record {
    fl = 1;
    tgid = 100;
    pd = 1;
    spdname = none;
    init_mem = none;
    opening = record {
      fl = record { cid = some 3; sctx = true; ssrcount = 0; refcount = true };
      ctx = channel;
      maps = no_maps;
    };
    bufs = record { cell = λ p. none; cached_bufs = []; remote_bufs = []; freed = []; cb = 5 };
    spd = λ cid. [];
    staticpd_flags = false;
  };
  contexts = initially;
  sctx = some 0;
  secure_node = false;
  chans = [];
  ctxs = λ cid. channel;
}

abbrev copied : Copies
copied = record {
  from_user = true;
  to_user = true;
  keys = true;
  values = true;
  pid = 101;
  latency = 100;
  default = 2000;
}

abbrev request : MmapIoctl
request = record { fd = 3; flags = 0; vaddrin = 0x10_0000; size = 0x1000 }

-- A mode, a program that is too large, and a call that cannot be copied.
abbrev in_vain : List (Copies × Ioctl)
in_vain =
    (copied, ioctl_setmode session_mode)
    ∷ (
      copied,
      ioctl_init (record {
        flags = create;
        file = 0x10_0000;
        filelen = 0x100_0000;
        filefd = 3;
        mem = 0;
        memlen = 0;
        attrs = 0;
        siglen = 0;
      }),
    )
    ∷ (record copied { from_user = false }, ioctl_invoke)
    ∷ []

abbrev mapped : Memory
mapped =
    (internal_mmap willing true given_buf given_map 1 0 (0, 2 ^ 40) request
      (memory_of driver_state)).1
