-- ===== src/Mapping/Create.antt =====
-- `fastrpc_mmap_create` of android/adsprpc.c. The mapping is filled in step by step; a step that
-- fails leaves the mapping as it is by then, which `fastrpc_mmap_free` takes apart.
use reasoned_soc.Prelude.{
  leb, ◌==◌, if◌then◌else◌, ℕ, ◌+◌, ◌*◌, ◌^◌, Bool, true, false, not, ◌&&◌, ◌||◌, Option, none,
  some,
}
use reasoned_soc.Errno.{Result, failed, err, ok}
use reasoned_soc.Pages.{u64, buf_page_size}
use reasoned_soc.Session.{Session}
use reasoned_soc.Mapping.{
  dmahandle_nomap, Map, Maps, is_heap, mmap_add, mmap_find, session_of, more, mmap_free,
}
use reasoned_soc.Mapping.Fill.{◌>>=◌, ◌>>◌, Draft, Fill, attempt, update, check, to_map, given}
use reasoned_soc.Context.{put}

-- What the kernel's functions return to the call: the address of `kzalloc`; the region of
-- `dma_alloc_memory`; whether `ion_import_dma_buf_fd` gives a handle; the range of `ion_phys`; the
-- flags of the handle, secure and cached; the session of `fastrpc_session_alloc`; whether
-- `dma_buf_get` and `dma_buf_attach` succeed; the entries of the table of `dma_buf_map_attachment`,
-- and how many of them are mapped; the address and the length of its first entry; whether the pages
-- are assigned to the remote processor.
pub record Given : Type 0 where
  pub fresh : Option ℕ
  pub region : Option (ℕ × ℕ)
  pub handle : Bool
  pub ion_range : Result (ℕ × ℕ)
  pub ion_flags : Option (Bool × Bool)
  pub session : Result Session
  pub buf : Bool
  pub attach : Bool
  pub nents : Option ℕ
  pub mapped_nents : ℕ
  pub dma_address : ℕ
  pub dma_len : ℕ
  pub assigned : Bool

-- The arguments and the surroundings of the call. `keep_map` and `nova` are the attributes of these
-- names, `vmid` is that of the channel, and `range` is `me->range`, an address and a size.
pub record Wanted : Type 0 where
  pub fl : ℕ
  pub fd : ℕ
  pub keep_map : Bool
  pub nova : Bool
  pub va : ℕ
  pub len : ℕ
  pub mflags : ℕ
  pub vmid : ℕ
  pub range : ℕ × ℕ

unfoldable pub fill_heap : Given → Wanted → Fill (Unit {0})
fill_heap g w = do
  update λ d. to_map (λ m. record m { fl = none }) d
  (phys, va) ← attempt (given g.region)
  update λ d. record d {
    map = record d.map { phys = phys; size = w.len; va = va };
    held = record d.held { regions = d.held.regions + 1 };
  }

-- `map->handle = ion_import_dma_buf_fd(...)`, with its check
unfoldable pub import : Given → Fill (Unit {0})
import g = do
  update λ d. record d {
    map = record d.map { handle = g.handle };
    held = record d.held { handles = more g.handle d.held.handles };
  }
  check g.handle

unfoldable pub fill_nomap : Given → Fill (Unit {0})
fill_nomap g = do
  import g
  update λ d. to_map (λ m. record m { uncached = true; va = 0; phys = 0 }) d
  (phys, size) ← attempt g.ion_range
  update λ d. to_map (λ m. record m { phys = phys; size = size }) d

-- `fl->secsctx`, which is allocated when it is first needed
unfoldable pub open_secure : Given → Bool → Fill (Unit {0})
open_secure g secure d = if not secure then (ok tt, d) else elim d.sessions.secsctx [
  | some sess ↦ (ok tt, d)
  | none ↦ elim g.session [
    | err e ↦ (err e, d)
    | ok sess ↦ (ok tt, record d { sessions = record d.sessions { secsctx = some sess } })
  ]
]

-- `sess`, which must not be null
unfoldable pub pick_session : Bool → Fill Session
pick_session secure d = (given (session_of secure d.sessions), d)

-- `map->buf`, `map->attach` and `map->table`, each with its check
unfoldable pub attach_buf : Given → Fill ℕ
attach_buf g = do
  update λ d. record d {
    map = record d.map { buf = g.buf };
    held = record d.held { bufs = more g.buf d.held.bufs };
  }
  check g.buf
  update λ d. record d {
    map = record d.map { attach = g.attach };
    held = record d.held { attaches = more g.attach d.held.attaches };
  }
  check g.attach
  nents ← attempt (given g.nents)
  update λ d. record d {
    map = record d.map { table = true };
    held = record d.held { tables = d.held.tables + 1 };
  }
  attempt (ok nents)

-- `msm_dma_map_sg_attrs`, which maps all entries or, at a failure, none, and `map->phys`
unfoldable pub map_table : Given → Session → ℕ → Fill (Unit {0})
map_table g sess nents = do
  check (if sess.enabled then nents == g.mapped_nents else nents == 1)
  update λ d. record d {
    map = record d.map { phys = g.dma_address };
    held = record d.held { mapped = more sess.enabled d.held.mapped };
  }

-- The physical range, and whether the remote processor may use it.
unfoldable pub place : Given → Wanted → Session → Fill (Unit {0})
place g w sess = do
  let phys = if sess.cb == 0 then g.dma_address else u64 (g.dma_address + sess.cb * 2 ^ 32)
  let size = if sess.cb == 0 then buf_page_size w.len else g.dma_len
  update λ d. to_map (λ m. record m { phys = phys; size = size }) d
  check (
      if not sess.enabled && (w.vmid == 0)
      then leb w.range.0 phys && leb (u64 (phys + size)) (u64 (w.range.0 + w.range.1))
      else true)
  check (w.vmid == 0 || g.assigned)
  update λ d. to_map (λ m. record m { va = w.va }) d

-- The steps of a plain mapping once its session is chosen.
unfoldable pub fill_attached : Given → Wanted → Bool → Session → Fill (Unit {0})
fill_attached g w cached sess = do
  update λ d. to_map (λ m. record m { uncached = not cached || (w.nova && not sess.coherent) }) d
  nents ← attach_buf g
  map_table g sess nents
  place g w sess

-- and once the flags of the handle are known.
unfoldable pub fill_secured : Given → Wanted → Bool × Bool → Fill (Unit {0})
fill_secured g w (secure, cached) = do
  update λ d. to_map (λ m. record m { secure = secure }) d
  open_secure g secure
  sess ← pick_session secure
  fill_attached g w cached sess

unfoldable pub fill_plain : Given → Wanted → Fill (Unit {0})
fill_plain g w = do
  update λ d. if w.keep_map then to_map (λ m. record m { refs = 2 }) d else d
  import g
  flags ← attempt (given g.ion_flags)
  fill_secured g w flags

unfoldable pub fill : Given → Wanted → Fill (Unit {0})
fill g w =
    if is_heap w.mflags
    then fill_heap g w
    else if w.mflags == dmahandle_nomap
    then fill_nomap g
    else fill_plain g w

-- The mapping behind `kzalloc` and its first assignments.
abbrev pub new_map : Wanted → Map
new_map w = record {
  fl = some w.fl;
  fd = w.fd;
  flags = w.mflags;
  handle = false;
  buf = false;
  attach = false;
  table = false;
  phys = 0;
  size = 0;
  va = 0;
  len = 0;
  refs = 1;
  raddr = 0;
  uncached = false;
  secure = false;
}

abbrev pub draft : Wanted → Maps → Draft
draft w s = record { map = new_map w; sessions = s.sessions w.fl; held = s.held }

-- The state with a draft's sessions and resources, and its mapping at `p`.
abbrev pub with_draft : ℕ → Wanted → Draft → Maps → Maps
with_draft p w d s = record s {
  cell = put s.cell p (some d.map);
  sessions = put s.sessions w.fl d.sessions;
  held = d.held;
}

-- The mapping is entered, or taken apart.
unfoldable pub finish : Bool → ℕ → Wanted → Maps → Result (Unit {0}) × Draft → Result ℕ × Maps
finish dev p w s (err e, d) = (err e, mmap_free dev p false (with_draft p w d s))
finish dev p w s (ok done, d) =
    (ok p, mmap_add p (record d.map { len = w.len }) (with_draft p w d s))

-- A mapping that cannot be found, for whatever reason, is made.
unfoldable pub mmap_create : Bool → Given → Wanted → Maps → Result ℕ × Maps
mmap_create dev g w s =
    let (found, s') = mmap_find w.fl w.fd w.va w.len w.mflags true s in
    elim found [
      | ok p ↦ (ok p, s')
      | err e ↦ elim g.fresh [
        | none ↦ (err failed, s)
        | some p ↦ finish dev p w s (fill g w (draft w s))
      ]
    ]
