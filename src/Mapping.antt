-- ===== src/Mapping.antt =====
-- Mappings of user memory and of heap memory in android/adsprpc.c: `struct fastrpc_mmap`, the lists
-- that they are in, and their reference counts.
pub mod Create
mod Examples
pub mod Closed
pub mod Counts
pub mod Failure
pub mod Fill
pub mod Owned
pub mod Runs
pub mod Search
use reasoned_soc.Prelude.{
  ltb, leb, ◌==◌, if◌then◌else◌, ℕ, ◌+◌, ◌-◌, ◌%◌, ◌^◌, Bool, false, not, ◌&&◌, ◌||◌, Option, none,
  some, List, [], ◌∷◌,
}
use reasoned_soc.Errno.{Result, eoverflow, etoomanyrefs, enotty, err, ok}
use reasoned_soc.Session.{Session}
use reasoned_soc.Context.{put, unlink}

abbrev pub adsp_mmap_heap_addr : ℕ
adsp_mmap_heap_addr = 4

abbrev pub adsp_mmap_remote_heap_addr : ℕ
adsp_mmap_remote_heap_addr = 8

abbrev pub dmahandle_nomap : ℕ
dmahandle_nomap = 16

abbrev pub int_max : ℕ
int_max = 0x7fff_ffff

-- `struct fastrpc_mmap`. The handle, the buffer, the attachment and the table are there or not;
-- `fl` is null for memory of a heap.
pub record Map : Type 0 where
  pub fl : Option ℕ
  pub fd : ℕ
  pub flags : ℕ
  pub handle : Bool
  pub buf : Bool
  pub attach : Bool
  pub table : Bool
  pub phys : ℕ
  pub size : ℕ
  pub va : ℕ
  pub len : ℕ
  pub refs : ℕ
  pub raddr : ℕ
  pub uncached : Bool
  pub secure : Bool

-- How many resources of each kind the driver holds: regions of `dma_alloc_attrs`, ION handles,
-- buffers of `dma_buf_get`, attachments, mapped attachments, and IOMMU mappings.
pub record Held : Type 0 where
  pub regions : ℕ
  pub handles : ℕ
  pub bufs : ℕ
  pub attaches : ℕ
  pub tables : ℕ
  pub mapped : ℕ

-- The two sessions of an open file.
pub record MapSessions : Type 0 where
  pub sctx : Option Session
  pub secsctx : Option Session

-- The mappings by address, `me->maps`, the `maps` and the sessions of each file, and what is held.
pub record Maps : Type 0 where
  pub cell : ℕ → Option Map
  pub global : List ℕ
  pub maps : ℕ → List ℕ
  pub sessions : ℕ → MapSessions
  pub held : Held

abbrev pub is_heap : ℕ → Bool
is_heap flags = (flags == adsp_mmap_heap_addr) || (flags == adsp_mmap_remote_heap_addr)

-- `map->fl->maps`; the code dereferences `fl`, which is null for heap memory only.
abbrev pub file_of : Map → ℕ
file_of m = elim m.fl [ none ↦ 0 | some f ↦ f ]

unfoldable pub mmap_add : ℕ → Map → Maps → Maps
mmap_add p m s =
    if is_heap m.flags
    then record s { cell = put s.cell p (some m); global = p ∷ s.global }
    else record s {
      cell = put s.cell p (some m);
      maps = put s.maps (file_of m) (p ∷ s.maps (file_of m));
    }

-- The loops of `fastrpc_mmap_find` and `fastrpc_mmap_remove`: the first entry that passes the test.
unfoldable pub find_map : (Map → Bool) → (ℕ → Option Map) → List ℕ → Option (ℕ × Map)
find_map test cell [] = none
find_map test cell (p ∷ ps) =
    let rest = find_map test cell ps in
    elim (cell p) [ none ↦ rest | some m ↦ if test m then some (p, m) else rest ]

-- `va` and `len` are below 2 ^ 64, and `map->va + map->len` of a mapping in a list wraps around.
abbrev pub holds_range : ℕ → ℕ → ℕ → Map → Bool
holds_range fd va len m = leb m.va va && leb (va + len) ((m.va + m.len) % 2 ^ 64) && (m.fd == fd)

-- `refs` says whether the reference is counted.
unfoldable pub mmap_find : ℕ → ℕ → ℕ → ℕ → ℕ → Bool → Maps → Result ℕ × Maps
mmap_find fl fd va len mflags refs s =
    if ltb ((va + len) % 2 ^ 64) va
    then (err eoverflow, s)
    else elim (find_map (holds_range fd va len) s.cell
        (if is_heap mflags then s.global else s.maps fl)) [
          | none ↦ (err enotty, s)
          | some (p, m) ↦
              if not refs
              then (ok p, s)
              else if m.refs + 1 == int_max
              then (err etoomanyrefs, s)
              else (ok p, record s { cell = put s.cell p (some (record m { refs = m.refs + 1 })) })
        ]

abbrev pub is_remote_range : ℕ → ℕ → Map → Bool
is_remote_range va len m =
    (m.raddr == va) && ((m.raddr + m.len) % 2 ^ 64 == (va + len) % 2 ^ 64) && (m.refs == 1)

-- The mapping is taken out of its list, and is the caller's.
unfoldable pub mmap_remove : ℕ → ℕ → ℕ → Maps → Result ℕ × Maps
mmap_remove fl va len s = elim (find_map (is_remote_range va len) s.cell s.global) [
  | some (p, m) ↦ (ok p, record s { global = unlink p s.global })
  | none ↦ elim (find_map (is_remote_range va len) s.cell (s.maps fl)) [
    | some (p, m) ↦ (ok p, record s { maps = put s.maps fl (unlink p (s.maps fl)) })
    | none ↦ (err enotty, s)
  ]
]

-- `map->secure ? fl->secsctx : fl->sctx`
abbrev pub session_of : Bool → MapSessions → Option Session
session_of secure e = if secure then e.secsctx else e.sctx

abbrev pub is_enabled : Option Session → Bool
is_enabled none = false
is_enabled (some sess) = sess.enabled

abbrev pub less : Bool → ℕ → ℕ
less b n = if b then n - 1 else n

abbrev pub more : Bool → ℕ → ℕ
more b n = if b then n + 1 else n

-- The end of `fastrpc_mmap_free`: what the mapping holds is given back. The pages that were assigned
-- to the remote processor are assigned back, which is left out.
unfoldable pub release : Map → MapSessions → Held → Held
release m e h =
    if is_heap m.flags
    then record h { regions = less (not (m.phys == 0)) h.regions }
    else if m.flags == dmahandle_nomap
    then record h { handles = less m.handle h.handles }
    else record h {
      handles = less m.handle h.handles;
      mapped =
          less (is_enabled (session_of m.secure e) && (not (m.size == 0) || not (m.phys == 0)))
            h.mapped;
      tables = less m.table h.tables;
      attaches = less m.attach h.attaches;
      bufs = less m.buf h.bufs;
    }

-- `hlist_del_init(&map->hn)`
abbrev pub unlink_map : ℕ → Map → Maps → Maps
unlink_map p m s =
    if is_heap m.flags
    then record s { global = unlink p s.global }
    else record s { maps = put s.maps (file_of m) (unlink p (s.maps (file_of m))) }

-- `dev` says whether `me->dev` is set; without it, heap memory is not given back and the mapping
-- stays allocated.
unfoldable pub mmap_free : Bool → ℕ → Bool → Maps → Maps
mmap_free dev p flags s = elim (s.cell p) [
  | none ↦ s
  | some m ↦
      let m' = record m { refs = m.refs - 1 } in
      let s' =
        if m'.refs == 0
        then unlink_map p m (record s { cell = put s.cell p (some m') })
        else record s { cell = put s.cell p (some m') } in
      if ltb 0 m'.refs && (is_heap m.flags || not flags)
      then s'
      else if is_heap m.flags && not dev
      then s'
      else record s' { cell = put s'.cell p none; held = release m (s.sessions (file_of m)) s.held }
]
