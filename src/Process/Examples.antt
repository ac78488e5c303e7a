-- ===== src/Process/Examples.antt =====
-- A process that is started on the remote processor, and then another one for the same file.
use reasoned_soc.Prelude.{
  ℕ, ◌+◌, ◌*◌, ◌%◌, ◌^◌, ◌≤◌, ◌<◌, ◌≡◌, refl, ◌⊎◌, true, false, Option, none, some, [], ◌∷◌, arith,
}
use reasoned_soc.Pages.{buf_page_size}
use reasoned_soc.Context.Interrupted.{free_each}
use reasoned_soc.Errno.{failed, err, ok}
use reasoned_soc.Process.{
  InitIoctl, InitGiven, Process, memlen_of, start_created, create_process, assign_heap,
  start_static, create,
}
use reasoned_soc.Process.Kept.{create_twice_leaks}
use reasoned_soc.Process.Size.{memlen_of-fits}
use reasoned_soc.Process.Balance.{create_process-IsBalanced}
use reasoned_soc.Process.Dropped.{IsBalanced}
use reasoned_soc.Mapping.{Maps, mmap_add, find_map, mmap_find, release, mmap_free}
use reasoned_soc.Mapping.Create.{
  fill_heap, import, open_secure, pick_session, attach_buf, map_table, place, fill_attached,
  fill_secured, fill_plain, fill, finish, mmap_create,
}
use reasoned_soc.Mapping.Fill.{◌>>=◌, attempt, update}
use reasoned_soc.Mapping.Counts.{IsCounted}
use reasoned_soc.Buffer.{Buf, Bufs, best_fit, new_buf, enter_buf, make_buf, buf_alloc}
use reasoned_soc.File.{World, Closing, file_free}
use reasoned_soc.Context.{put, unlink}
use reasoned_soc.Context.Runs.{initially}
use reasoned_soc.Session.{no_session}
use reasoned_soc.Remote.{Host}
use reasoned_soc.Channel.{connected}

abbrev nothing : Maps
nothing = record {
  cell = λ p. none;
  global = [];
  maps = λ f. [];
  sessions = λ f. record { sctx = some no_session; secsctx = none };
  held = record { regions = 0; handles = 0; bufs = 0; attaches = 0; tables = 0; mapped = 0 };
}

abbrev given_now : InitGiven
given_now = record {
  invoke = λ call. ok tt;
  access_ok = true;
  has_name = true;
  name_copied = true;
  is_audiopd = false;
  namelen = 5;
  tgid = 100;
  channel = record {
    notify_handle = true;
    glink_handle = none;
    smd_handle = none;
    work_events = [];
    workport_events = [];
    intent = λ ii. ok tt;
  };
  map = record {
    fresh = some 0x9000;
    region = none;
    handle = true;
    ion_range = err failed;
    ion_flags = some (false, true);
    session = err failed;
    buf = true;
    attach = true;
    nents = some 1;
    mapped_nents = 1;
    dma_address = 0x8000_0000;
    dma_len = 0x1000;
    assigned = true;
  };
  buf = record {
    fresh = some 6;
    first = some (0xf000, 0x9000_0000);
    second = none;
    assigned = true;
    vmid = 0;
  };
  vmid = 0;
  range = (0, 2 ^ 32);
}

abbrev asked : InitIoctl
asked = record {
  flags = create;
  file = 0x10_0000;
  filelen = 0x1000;
  filefd = 3;
  mem = 0;
  memlen = 0;
  attrs = 0;
  siglen = 0;
}

abbrev old_mem : Buf
old_mem = new_buf 0x30_0000 0 (some 0xe000) 0xa000_0000

abbrev first : Process
first = record {
  fl = 1;
  tgid = 100;
  pd = 1;
  spdname = none;
  init_mem = some 5;
  opening = record {
    fl = record { cid = some 3; sctx = true; ssrcount = 0; refcount = true };
    ctx = record {
      chan = some 0xc000;
      work = 0;
      workport = 0;
      kref = 1;
      ssrcount = 0;
      prevssrcount = 0;
      issubsystemup = true;
      link = record { link_up = true; port_state = connected; registered = true };
    };
    maps = nothing;
  };
  bufs = record {
    cell = put (λ p. none) 5 (some old_mem);
    cached_bufs = [];
    remote_bufs = [];
    freed = [];
    cb = 0;
  };
  spd = λ cid. [];
  staticpd_flags = false;
}

abbrev second : Process
second = (create_process given_now true asked first).1

-- The heap of the static processes is refused by the remote processor.
abbrev refusing : Host
refusing = record {
  invoke = λ call. err failed;
  scm_call2 = λ call. err failed;
  assign = λ phys size there. false;
  tgid = 100;
  compat = false;
}

second-starts : create_process given_now true asked first ≡ (ok tt, second)
unfolding create_process start_created mmap_create mmap_find find_map fill fill_plain import
    fill_secured open_secure pick_session fill_attached attach_buf map_table place finish mmap_add
    mmap_free release buf_page_size memlen_of buf_alloc make_buf enter_buf best_fit ◌>>=◌ update
    attempt
second-starts = refl

nothing-IsCounted : IsCounted nothing
nothing-IsCounted = record {
  global = λ p h. ground (arith, h);
  file = λ f p h. ground (arith, h);
  global_once = λ p. omega arith;
  file_once = λ f p. omega arith;
}

create_process-IsBalanced_example :
    IsBalanced nothing (create_process given_now true asked first).1.opening.maps
create_process-IsBalanced_example =
    create_process-IsBalanced given_now true asked first nothing-IsCounted (omega arith)
      (omega arith) (λ p h. (refl, refl))

abbrev world_of : Bufs → World
world_of bufs = record {
  drivers = 1 ∷ [];
  contexts = initially;
  owned = λ p. record { maps = []; buf = none; lbuf = none };
  maps = nothing;
  bufs = bufs;
  ctx = first.opening.ctx;
  chan = record { session = no_session ∷ []; sesscount = 1; ssrcount = 0; secure = false };
}

abbrev closing_with : Option ℕ → Closing
closing_with init_mem = record {
  fl = 1;
  file = first.opening.fl;
  init_mem = init_mem;
  sctx = some 0;
  secsctx = none;
}

create_twice_leaks_example :
    (file_free true true (closing_with second.init_mem) (world_of second.bufs)).bufs.cell 5
    ≡ some old_mem
unfolding free_each
create_twice_leaks_example =
    create_twice_leaks old_mem 5 given_now true true true asked first second
      (closing_with second.init_mem) (world_of second.bufs) refl (refl, refl, refl)
      (λ h. ground (arith, h)) second-starts refl refl refl

memlen_of-fits_example :
    let n = memlen_of 0x10_0000 in
    (n % (1024 * 1024) ≡ 0)
    × (3 * 1024 * 1024 ≤ n)
    × (4 * 0x10_0000 ≤ n)
    × ((n < 4 * 1024 * 1024) ⊎ (n < 4 * 0x10_0000 + 1024 * 1024))
    × (n ≤ 8 * 1024 * 1024)
memlen_of-fits_example = memlen_of-fits 0x10_0000 (omega arith)

-- The remote processor refuses the heap of the static processes: nothing of it is left.
refused :
    ((start_static given_now refusing true asked first).0 ≡ err failed)
    × ((start_static given_now refusing true asked first).1.opening.maps.global ≡ [])
unfolding start_static assign_heap mmap_create mmap_find find_map fill fill_heap finish mmap_add
    mmap_free release unlink ◌>>=◌ update attempt
refused = (refl, refl)
