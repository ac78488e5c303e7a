-- ===== src/Remote/Mmap.antt =====
-- `fastrpc_internal_mmap` of android/adsprpc.c: a file asks for memory that the remote processor
-- maps, pages that the driver allocates or a buffer of the process.
use reasoned_soc.Prelude.{◌==◌, if◌then◌else◌, ℕ, Bool, true, false, not, Option, none, some}
use reasoned_soc.Errno.{Result, failed, einval, err, ok}
use reasoned_soc.Context.{put}
use reasoned_soc.Mapping.{Map, Maps, is_heap, mmap_find, mmap_free}
use reasoned_soc.Mapping.Create.{Given, Wanted, mmap_create}
use reasoned_soc.Buffer.{Buf, Bufs, BufGiven, buf_alloc}
use reasoned_soc.Remote.{adsp_mmap_add_pages, Host, mmap_on_dsp, Memory, with_bufs, with_maps}

-- `struct fastrpc_ioctl_mmap`, as it comes in
pub record MmapIoctl : Type 0 where
  pub fd : ℕ
  pub flags : ℕ
  pub vaddrin : ℕ
  pub size : ℕ

-- The arguments of the call of `fastrpc_mmap_create`; the attributes are 0.
abbrev pub wanted_of : ℕ → ℕ → ℕ × ℕ → MmapIoctl → Wanted
wanted_of fl vmid range ud = record {
  fl = fl;
  fd = ud.fd;
  keep_map = false;
  nova = false;
  va = ud.vaddrin;
  len = ud.size;
  mflags = ud.flags;
  vmid = vmid;
  range = range;
}

-- A new buffer with the address that the remote processor gave it.
abbrev pub set_buf_raddr : ℕ → ℕ → Buf → Bufs → Bufs
set_buf_raddr p raddr b s = record s { cell = put s.cell p (some (record b { raddr = raddr })) }

abbrev pub set_map_raddr : ℕ → ℕ → Map → Maps → Maps
set_map_raddr p raddr m s = record s { cell = put s.cell p (some (record m { raddr = raddr })) }

-- Behind the allocation of the pages: they stay with the file when the remote call fails.
unfoldable pub map_buf : Host → MmapIoctl → ℕ → Bufs → Result (Option ℕ) × Bufs
map_buf host ud p s = elim (s.cell p) [
  | none ↦ (err failed, s)
  | some b ↦ elim (mmap_on_dsp host ud.flags 0 b.phys b.size) [
    | err e ↦ (err e, s)
    | ok raddr ↦ (ok (some raddr), set_buf_raddr p raddr b s)
  ]
]

unfoldable pub add_pages : Host → BufGiven → MmapIoctl → Bufs → Result (Option ℕ) × Bufs
add_pages host g ud s =
    if not (ud.vaddrin == 0)
    then (err einval, s)
    else let (r, s') = buf_alloc g ud.size ud.flags true s in
      elim r [ err e ↦ (err e, s') | ok p ↦ map_buf host ud p s' ]

-- Behind the creation of the mapping, which is freed when the remote call fails.
unfoldable pub map_created : Host → Bool → MmapIoctl → ℕ → Maps → Result (Option ℕ) × Maps
map_created host dev ud p s = elim (s.cell p) [
  | none ↦ (err failed, s)
  | some m ↦ elim (mmap_on_dsp host ud.flags (if is_heap ud.flags then 0 else m.va) m.phys m.size) [
    | err e ↦ (err failed, mmap_free dev p false s)
    | ok raddr ↦ (ok (some raddr), set_map_raddr p raddr m s)
  ]
]

unfoldable pub map_made : Host → Bool → MmapIoctl → Result ℕ × Maps → Result (Option ℕ) × Maps
map_made host dev ud (err e, s) = (err failed, s)
map_made host dev ud (ok p, s) = map_created host dev ud p s

-- A mapping that is found is counted, and `vaddrout` is not written, which is `none`.
unfoldable pub map_buffer :
    Host → Bool → Given → Wanted → MmapIoctl → Maps → Result (Option ℕ) × Maps
map_buffer host dev g w ud s =
    let (found, s') = mmap_find w.fl ud.fd ud.vaddrin ud.size ud.flags true s in
    elim found [ ok p ↦ (ok none, s') | err e ↦ map_made host dev ud (mmap_create dev g w s') ]

-- `vmid` is that of the channel, and `range` is `me->range`.
unfoldable pub internal_mmap :
    Host → Bool → BufGiven → Given → ℕ → ℕ → ℕ × ℕ → MmapIoctl → Memory → Result (Option ℕ) × Memory
internal_mmap host dev bg g fl vmid range ud s =
    if ud.flags == adsp_mmap_add_pages
    then with_bufs s (add_pages host bg ud s.bufs)
    else with_maps s (map_buffer host dev g (wanted_of fl vmid range ud) ud s.maps)
