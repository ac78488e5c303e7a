-- ===== src/Process.antt =====
-- The processes that android/adsprpc.c starts on the remote processor: `fastrpc_init_process`, in its
-- three branches.
mod Examples
pub mod Balance
pub mod Dropped
pub mod Kept
pub mod Size
use reasoned_soc.Prelude.{
  ltb, ◌==◌, if◌then◌else◌, length, ℕ, ◌+◌, ◌-◌, ◌*◌, ◌/◌, ◌%◌, ◌^◌, Bool, true, false, not, Option,
  none, some, List,
}
use reasoned_soc.Errno.{Result, as_failed, failed, enotty, einval, err, ok}
use reasoned_soc.Mapping.{adsp_mmap_remote_heap_addr, Maps, mmap_free}
use reasoned_soc.Mapping.Create.{Given, Wanted, mmap_create}
use reasoned_soc.Buffer.{Buf, Bufs, BufGiven, buf_alloc}
use reasoned_soc.Remote.{Host}
use reasoned_soc.Remote.Heap.{StaticPd, audio_pdr, mmap_remove_pdr}
use reasoned_soc.Channel.Open.{ChannelGiven, Opening, channel_open}
use reasoned_soc.File.{cid_of}
use Prim.Native.Nat.{max}

-- FASTRPC_INIT_ATTACH and the others
pub data InitFlags : Type 0 where
  attach create create_static attach_sensors other : InitFlags

-- `struct fastrpc_ioctl_init_attrs`; an address that is null is 0.
pub record InitIoctl : Type 0 where
  pub flags : InitFlags
  pub file : ℕ
  pub filelen : ℕ
  pub filefd : ℕ
  pub mem : ℕ
  pub memlen : ℕ
  pub attrs : ℕ
  pub siglen : ℕ

-- The calls of the kernel's own handle, with the method, the numbers of input and output buffers of
-- `sc`, and the fields of `inbuf` and of `pages`.
pub data InitCall : Type 0 where
  attach_call : (tgid : ℕ) → InitCall
  create_call :
      (method ins outs pgid namelen filelen fd pageslen phys size attrs siglen : ℕ) → InitCall
  create_static_call : (method ins outs pgid namelen pageslen phys size : ℕ) → InitCall

-- What a call is given: the outcome of `fastrpc_internal_invoke`; the outcome of `access_ok`, of
-- `kzalloc` and of `copy_from_user`; whether the name that is copied is "audiopd"; the length of the
-- name of the running program with its end, and its number; what the channel, the mapping and the
-- buffer are given, with the `vmid` and `me->range` of the mapping; the length of the loop that
-- unmaps the heap.
pub record InitGiven : Type 0 where
  pub invoke : InitCall → Result (Unit {0})
  pub access_ok : Bool
  pub has_name : Bool
  pub name_copied : Bool
  pub is_audiopd : Bool
  pub namelen : ℕ
  pub tgid : ℕ
  pub channel : ChannelGiven
  pub map : Given
  pub buf : BufGiven
  pub vmid : ℕ
  pub range : ℕ × ℕ

-- The file `fl` with its channel, its mappings and its buffers; `tgid`, `pd` and `spdname` of
-- `struct fastrpc_file`, a name being a number; the protection domains of each channel, and
-- `staticpd_flags` of `struct fastrpc_apps`.
pub record Process : Type 0 where
  pub fl : ℕ
  pub tgid : ℕ
  pub pd : ℕ
  pub spdname : Option ℕ
  pub init_mem : Option ℕ
  pub opening : Opening
  pub bufs : Bufs
  pub spd : ℕ → List StaticPd
  pub staticpd_flags : Bool

abbrev pub Init : Type 0
Init = Result (Unit {0}) × Process

-- SENSORS_PDR_SERVICE_LOCATION_CLIENT_NAME
abbrev pub sensors_pdr : ℕ
sensors_pdr = 2

abbrev pub set_maps : Maps → Process → Process
set_maps maps s = record s { opening = record s.opening { maps = maps } }

unfoldable pub attach_process : InitGiven → Bool → Process → Init
attach_process g sensors s = (
  g.invoke (attach_call s.tgid),
  if sensors then record s { pd = 2; spdname = some sensors_pdr } else record s { pd = 0 },
)

-- `ALIGN(x, a)` of an `int`, for `a` a power of two
abbrev pub align : ℕ → ℕ → ℕ
align x a = (x + (a - 1)) % 2 ^ 32 / a * a

-- A value of 32 bits, a negative `int` above 2 ^ 31, as the larger with the positive `b`.
abbrev pub max_int : ℕ → ℕ → ℕ
max_int b x = if ltb x (2 ^ 31) then max b x else b

-- An `int` as a `size_t`.
abbrev pub to_size : ℕ → ℕ
to_size x = if ltb x (2 ^ 31) then x else x + (2 ^ 64 - 2 ^ 32)

-- `memlen`, as `fastrpc_buf_alloc` gets it.
unfoldable pub memlen_of : ℕ → ℕ
memlen_of filelen = to_size (align (max_int (1024 * 1024 * 3) (filelen * 4 % 2 ^ 32)) (1024 * 1024))

abbrev pub file_wanted : InitGiven → ℕ → InitIoctl → Wanted
file_wanted g fl init = record {
  fl = fl;
  fd = init.filefd;
  keep_map = false;
  nova = false;
  va = init.file;
  len = init.filelen;
  mflags = 0;
  vmid = g.vmid;
  range = g.range;
}

-- `attrs` and `siglen` are in the array of arguments also where the numbers of `sc` leave them out.
abbrev pub create_call_of : InitGiven → ℕ → InitIoctl → Buf → InitCall
create_call_of g tgid init b =
    create_call (if init.attrs == 0 then 6 else 7) (if init.attrs == 0 then 4 else 6) 0 tgid
      g.namelen init.filelen init.filefd 1 b.phys b.size init.attrs init.siglen

-- The memory of the process, which the file keeps whatever becomes of the call.
unfoldable pub start_created : InitGiven → InitIoctl → Process → Init
start_created g init s =
    if not (init.mem == 0)
    then (err einval, s)
    else let (r, bufs) = buf_alloc g.buf (memlen_of init.filelen) 0 false s.bufs in
      elim r [
        | err e ↦ (err e, record s { bufs = bufs })
        | ok p ↦ elim (bufs.cell p) [
          | none ↦ (err failed, record s { bufs = bufs })
          | some b ↦ (
            g.invoke (create_call_of g s.tgid init b),
            record s { bufs = bufs; init_mem = some p },
          )
        ]
      ]

-- `fastrpc_mmap_free(file, 0)` at the end.
abbrev pub drop_map : Bool → ℕ → Init → Init
drop_map dev p (r, s) = (r, set_maps (mmap_free dev p false s.opening.maps) s)

-- The branch for FASTRPC_INIT_CREATE: the file of the program is mapped while the call lasts.
unfoldable pub create_process : InitGiven → Bool → InitIoctl → Process → Init
create_process g dev init s₀ =
    let s = record s₀ { pd = 1 } in
    if not g.access_ok
    then (err failed, s)
    else if init.filelen == 0
    then start_created g init s
    else let (r, maps) = mmap_create dev g.map (file_wanted g s.fl init) s.opening.maps in
      elim r [
        | err e ↦ (err failed, set_maps maps s)
        | ok p ↦ drop_map dev p (start_created g init (set_maps maps s))
      ]

-- The arguments of the call of `fastrpc_mmap_create` for the heap; the descriptor is -1.
abbrev pub heap_wanted : InitGiven → ℕ → InitIoctl → Wanted
heap_wanted g fl init = record {
  fl = fl;
  fd = 2 ^ 32 - 1;
  keep_map = false;
  nova = false;
  va = init.mem;
  len = init.memlen;
  mflags = adsp_mmap_remote_heap_addr;
  vmid = g.vmid;
  range = g.range;
}

abbrev pub call_static : InitGiven → InitIoctl → ℕ → ℕ → ℕ → Process → Init
call_static g init pageslen phys size s =
    (g.invoke (create_static_call 8 3 0 g.tgid init.filelen pageslen phys size), s)

-- The pages of the heap are assigned to the remote processor.
unfoldable pub assign_heap : InitGiven → Host → InitIoctl → ℕ → Process → Init
assign_heap g host init p s = elim (s.opening.maps.cell p) [
  | none ↦ (err failed, s)
  | some m ↦
      if not (host.assign m.phys m.size true)
      then (err failed, s)
      else call_static g init 1 m.phys m.size (record s { staticpd_flags = true })
]

-- `if (mem && err)`; assigning the pages back leaves no trace here.
abbrev pub drop_failed : Bool → ℕ → Init → Init
drop_failed dev p (err e, s) = (err e, set_maps (mmap_free dev p false s.opening.maps) s)
drop_failed dev p (ok done, s) = (ok done, s)

-- The heap of the static processes is made once.
unfoldable pub start_static : InitGiven → Host → Bool → InitIoctl → Process → Init
start_static g host dev init s =
    if s.staticpd_flags
    then call_static g init 0 0 0 s
    else let (r, maps) = mmap_create dev g.map (heap_wanted g s.fl init) s.opening.maps in
      elim r [
        | err e ↦ (err failed, set_maps maps s)
        | ok p ↦ drop_failed dev p (assign_heap g host init p (set_maps maps s))
      ]

-- The heap is looked through, by one pass more than it has mappings, when the domain has restarted.
unfoldable pub forget_audio : Host → Bool → Process → Init
forget_audio host dev s₀ =
    let s = record s₀ { spdname = some audio_pdr } in
    let maps = s.opening.maps in
    elim (mmap_remove_pdr (length maps.global + 1) host dev (cid_of s.opening.fl) s.spd maps) [
      | none ↦ (err failed, s)
      | some (r, spd, maps') ↦ (as_failed r, set_maps maps' (record s { spd = spd }))
    ]

-- The branch for FASTRPC_INIT_CREATE_STATIC.
unfoldable pub create_static_process : InitGiven → Host → Bool → InitIoctl → Process → Init
create_static_process g host dev init s =
    if init.filelen == 0
    then (ok tt, s)
    else if not g.has_name
    then (err failed, s)
    else if not g.name_copied
    then (err failed, s)
    else let s' = record s { pd = 1 } in
      if not g.is_audiopd
      then start_static g host dev init s'
      else (let (r, s'') = forget_audio host dev s' in
          elim r [ err e ↦ (err failed, s'') | ok done ↦ start_static g host dev init s'' ])

unfoldable pub start_process : InitGiven → Host → Bool → InitIoctl → InitFlags → Process → Init
start_process g host dev init attach s = attach_process g false s
start_process g host dev init attach_sensors s = attach_process g true s
start_process g host dev init create s = create_process g dev init s
start_process g host dev init create_static s = create_static_process g host dev init s
start_process g host dev init other s = (err enotty, s)

-- `if (err && (init->flags == FASTRPC_INIT_CREATE_STATIC))`
abbrev pub reset_static : InitFlags → Init → Init
reset_static create_static (err e, s) = (err e, record s { staticpd_flags = false })
reset_static flags (r, s) = (r, s)

unfoldable pub init_process : InitGiven → Bool → Host → Bool → InitIoctl → Process → Init
init_process g glink host dev init s =
    let (r, opening) = channel_open glink g.channel host dev s.opening in
    let s' = record s { opening = opening } in
    reset_static init.flags
      (elim r [ err e ↦ (err e, s') | ok opened ↦ start_process g host dev init init.flags s' ])
