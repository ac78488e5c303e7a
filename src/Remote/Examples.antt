-- ===== src/Remote/Examples.antt =====
-- A remote processor that accepts every call or none, and requests of one file to it.
use reasoned_soc.Pages.{buf_page_size}
use reasoned_soc.Remote.Heap.{mmap_remove_ssr}
use reasoned_soc.Remote.Drain.{Ending, mmap_remove_ssr_ends}
use reasoned_soc.Remote.Unmap.{IsReordered, internal_munmap_fails}
use reasoned_soc.Context.{put}
use reasoned_soc.Mapping.Counts.{IsCounted}
use reasoned_soc.Prelude.{◌∷◌, ℕ, ◌^◌, ◌≡◌, refl, true, false, none, some, [], arith}
use reasoned_soc.Errno.{Result, failed, econnreset, err, ok}
use reasoned_soc.Session.{no_session}
use reasoned_soc.Mapping.{mmap_remove, Map, Held, Maps, mmap_add, find_map, mmap_find}
use reasoned_soc.Mapping.Fill.{◌>>=◌, attempt, update}
use reasoned_soc.Mapping.Create.{
  new_map, Given, import, open_secure, pick_session, attach_buf, map_table, place, fill_attached,
  fill_secured, fill_plain, fill, finish, mmap_create,
}
use reasoned_soc.Mapping.Failure.{IsUndone}
use reasoned_soc.Buffer.{Bufs, BufGiven}
use reasoned_soc.Remote.{
  unmap_map, unmap_taken, munmap_on_dsp, adsp_mmap_add_pages, Host, protect, mmap_on_dsp, Memory,
  find_rbuf, internal_munmap,
}
use reasoned_soc.Remote.Mmap.{
  wanted_of, MmapIoctl, map_created, map_made, map_buffer, internal_mmap,
}
use reasoned_soc.Remote.Cycle.{internal_mmap-munmap}

abbrev willing : Host
willing = record {
  invoke = λ call. ok 0x7000_0000;
  scm_call2 = λ call. ok tt;
  assign = λ phys size there. true;
  tgid = 100;
  compat = false;
}

abbrev unwilling : Host
unwilling = record willing { invoke = λ call. err econnreset; assign = λ phys size there. false }

abbrev nothing_held : Held
nothing_held = record { regions = 0; handles = 0; bufs = 0; attaches = 0; tables = 0; mapped = 0 }

abbrev no_maps : Maps
no_maps = record {
  cell = λ p. none;
  global = [];
  maps = λ f. [];
  sessions = λ f. record { sctx = some no_session; secsctx = none };
  held = nothing_held;
}

abbrev no_bufs : Bufs
no_bufs = record { cell = λ p. none; cached_bufs = []; remote_bufs = []; freed = []; cb = 5 }

abbrev nothing : Memory
nothing = record { maps = no_maps; bufs = no_bufs }

abbrev given_all : Given
given_all = record {
  fresh = some 0x9000;
  region = none;
  handle = true;
  ion_range = err failed;
  ion_flags = some (false, true);
  session = err failed;
  buf = true;
  attach = true;
  nents = some 1;
  mapped_nents = 1;
  dma_address = 0x8000_0000;
  dma_len = 0x1000;
  assigned = true;
}

abbrev given_buf : BufGiven
given_buf = record {
  fresh = some 0xa000;
  first = some (0xffff_0000, 0x8000_0000);
  second = none;
  assigned = true;
  vmid = 0;
}

abbrev request : MmapIoctl
request = record { fd = 3; flags = 0; vaddrin = 0x10_0000; size = 0x1000 }

abbrev mapped : Memory
mapped = (internal_mmap willing true given_buf given_all 1 0 (0, 2 ^ 40) request nothing).1

mapping_made :
    internal_mmap willing true given_buf given_all 1 0 (0, 2 ^ 40) request nothing
    ≡ (ok (some 0x7000_0000), mapped)
unfolding buf_page_size internal_mmap map_buffer mmap_find find_map map_made mmap_create finish fill
    fill_plain fill_secured open_secure pick_session fill_attached attach_buf map_table place import
    ◌>>=◌ attempt update map_created mmap_on_dsp protect mmap_add
mapping_made = refl

internal_mmap-munmap_example :
    (u : Memory) × (internal_munmap willing true 1 0x7000_0000 0x1000 mapped ≡ (ok tt, u))
    × (u.bufs ≡ no_bufs)
    × IsUndone 0x9000 no_maps u.maps
unfolding find_map find_rbuf
internal_mmap-munmap_example =
    internal_mmap-munmap willing willing true true given_buf given_all 1 0 (0, 2 ^ 40) request
      0x9000 0x7000_0000 nothing mapped (refl, refl) refl (omega arith) (omega arith) refl refl refl
      mapping_made refl refl λ call. (0x7000_0000, refl)

abbrev pages_request : MmapIoctl
pages_request = record { fd = 0; flags = adsp_mmap_add_pages; vaddrin = 0; size = 0x2000 }

-- One mapping of heap memory, and one of the remote heap.
abbrev heap_map : ℕ → Map
heap_map flags = record (new_map (wanted_of 1 0 (0, 2 ^ 40) request)) {
  fl = none;
  flags = flags;
  phys = 0x8000_0000;
  raddr = 0x7000_0000;
  len = 0x1000;
}

abbrev two_heaps : Maps
two_heaps = record no_maps {
  cell = put (put no_maps.cell 1 (some (heap_map 4))) 2 (some (heap_map 8));
  global = 1 ∷ 2 ∷ [];
}

two_heaps-IsCounted : IsCounted two_heaps
two_heaps-IsCounted = record {
  global = λ p h. ground (arith, h);
  file = λ f p h. ground (arith, h);
  global_once = λ p. ground arith;
  file_once = λ f p. ground arith;
}

-- The second is refused, and stays.
mmap_remove_ssr_ends_example :
    (x : Result (Unit {0}) × Maps) × (mmap_remove_ssr 3 unwilling true two_heaps ≡ some x)
    × Ending unwilling true two_heaps x
mmap_remove_ssr_ends_example =
    mmap_remove_ssr_ends unwilling true 3 two_heaps two_heaps-IsCounted (omega arith)

abbrev heaps : Memory
heaps = record nothing { maps = two_heaps }

abbrev refused : Result (Unit {0}) × Memory
refused = internal_munmap unwilling true 1 0x7000_0000 0x1000 heaps

heap_refused : refused ≡ (err failed, refused.1)
unfolding internal_munmap find_rbuf unmap_map mmap_remove find_map unmap_taken munmap_on_dsp
heap_refused = refl

internal_munmap_fails_example :
    (failed ≡ failed) × (refused.1.bufs ≡ heaps.bufs) × IsReordered two_heaps refused.1.maps
internal_munmap_fails_example =
    internal_munmap_fails unwilling true 1 0x7000_0000 0x1000 heaps refused.1 failed
      two_heaps-IsCounted heap_refused
