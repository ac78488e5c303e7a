-- ===== src/Remote.antt =====
-- Memory that the remote processor maps: the remote calls of android/adsprpc.c that map and unmap,
-- the protection of heap memory, and the requests of a file to map and to unmap.
mod Examples
pub mod Cycle
pub mod Drain
pub mod Heap
pub mod Mmap
pub mod Pages
pub mod Undo
pub mod Unmap
use reasoned_soc.Prelude.{
  ◌==◌, if◌then◌else◌, ℕ, ◌%◌, ◌^◌, Bool, true, false, not, ◌&&◌, Option, none, some, List, [], ◌∷◌,
}
use reasoned_soc.Errno.{Result, ◌>>=◌, ◌>>◌, verify, as_failed, failed, err, ok}
use reasoned_soc.Mapping.{
  adsp_mmap_heap_addr, adsp_mmap_remote_heap_addr, Maps, is_heap, mmap_add, mmap_find, mmap_remove,
  mmap_free,
}
use reasoned_soc.Buffer.{Buf, Bufs, buf_free}

abbrev pub adsp_mmap_add_pages : ℕ
adsp_mmap_add_pages = 0x1000

-- The remote calls of the kernel's own handle: the method with the numbers of its input and output
-- buffers, and the fields of `inargs` and of `page`.
pub data RemoteCall : Type 0 where
  map_pages : (method ins outs pid flags vaddrin num addr size : ℕ) → RemoteCall
  unmap_pages : (method ins outs pid vaddrout size : ℕ) → RemoteCall
  unprotect_heap : (method ins outs : ℕ) → RemoteCall

-- The two calls of `scm_call2`.
pub data ScmCall : Type 0 where
  protect_mem : (phys size : ℕ) → ScmCall
  clear_protect : (phys size skey : ℕ) → ScmCall

-- What the other parties answer: `fastrpc_internal_invoke` with the number that the remote processor
-- writes to its output buffer, `scm_call2`, and whether `hyp_assign_phys` moves pages to the remote
-- processor (`true`) or back. `tgid` is that of the file, `compat` is `apps->compat`.
pub record Host : Type 0 where
  pub invoke : RemoteCall → Result ℕ
  pub scm_call2 : ScmCall → Result (Unit {0})
  pub assign : (phys size : ℕ) → Bool → Bool
  pub tgid : ℕ
  pub compat : Bool

-- The bytes of `struct smq_phy_page`, two 64-bit words.
abbrev pub page_bytes : ℕ
page_bytes = 16

-- The end of `fastrpc_mmap_on_dsp`: heap memory is protected from, or assigned to, the processor.
unfoldable pub protect : Host → ℕ → ℕ → ℕ → Result (Unit {0})
protect host flags phys size =
    if flags == adsp_mmap_heap_addr
    then host.scm_call2 (protect_mem phys size)
    else if flags == adsp_mmap_remote_heap_addr
    then verify (host.assign phys size true)
    else ok tt

-- The address on the remote processor.
unfoldable pub mmap_on_dsp : Host → ℕ → ℕ → ℕ → ℕ → Result ℕ
mmap_on_dsp host flags va phys size = do
  raddr ← host.invoke (
      if host.compat
      then map_pages 4 2 1 host.tgid flags va page_bytes phys size
      else map_pages 2 2 1 host.tgid flags va 1 phys size)
  protect host flags phys size
  ok raddr

-- The branch of `fastrpc_munmap_on_dsp_rh` for memory of the heap, with the `err` of its own block.
unfoldable pub clear_heap : Host → ℕ → ℕ → Result (Unit {0})
clear_heap host phys size = do
  skey ← host.invoke (unprotect_heap 7 0 1)
  host.scm_call2 (clear_protect phys size (skey % 2 ^ 8))

-- The block's `err` hides that of the function, which stays 0.
abbrev pub shadowed : Result (Unit {0}) → Result (Unit {0})
shadowed r = ok tt

-- `fl` is not null in any of the calls.
unfoldable pub munmap_on_dsp_rh : Host → ℕ → ℕ → ℕ → Result (Unit {0})
munmap_on_dsp_rh host phys size flags =
    if flags == adsp_mmap_heap_addr
    then shadowed (clear_heap host phys size)
    else if flags == adsp_mmap_remote_heap_addr
    then verify (host.assign phys size false)
    else ok tt

unfoldable pub munmap_on_dsp : Host → ℕ → ℕ → ℕ → ℕ → Result (Unit {0})
munmap_on_dsp host raddr phys size flags = do
  done ← host.invoke (
      if host.compat
      then unmap_pages 5 1 0 host.tgid raddr size
      else unmap_pages 3 1 0 host.tgid raddr size)
  if is_heap flags then as_failed (munmap_on_dsp_rh host phys size flags) else ok tt

-- The mappings, and the buffers of the file that calls.
pub record Memory : Type 0 where
  pub maps : Maps
  pub bufs : Bufs

abbrev pub with_bufs : {A : Type 0} → Memory → A × Bufs → A × Memory
with_bufs s (a, bufs) = (a, record s { bufs = bufs })

abbrev pub with_maps : {A : Type 0} → Memory → A × Maps → A × Memory
with_maps s (a, maps) = (a, record s { maps = maps })

abbrev pub is_added : ℕ → ℕ → Buf → Bool
is_added vaddrout size b =
    not (b.raddr == 0)
    && (b.flags == adsp_mmap_add_pages)
    && (b.raddr == vaddrout)
    && (b.size == size)

-- The loop of `fastrpc_internal_munmap` over the remote buffers.
unfoldable pub find_rbuf : ℕ → ℕ → (ℕ → Option Buf) → List ℕ → Option (ℕ × Buf)
find_rbuf vaddrout size cell [] = none
find_rbuf vaddrout size cell (p ∷ ps) =
    let rest = find_rbuf vaddrout size cell ps in
    elim (cell p) [ none ↦ rest | some b ↦ if is_added vaddrout size b then some (p, b) else rest ]

-- The pages that were added for the file.
unfoldable pub unmap_rbuf : Host → ℕ → Buf → Memory → Result (Unit {0}) × Memory
unmap_rbuf host p b s = elim (munmap_on_dsp host b.raddr b.phys b.size b.flags) [
  | err e ↦ (err failed, s)
  | ok done ↦ (ok tt, record s { bufs = buf_free p false s.bufs })
]

-- A mapping that was taken out of its list: it is freed, or put back.
unfoldable pub unmap_taken : Host → Bool → ℕ → Maps → Result (Unit {0}) × Maps
unmap_taken host dev p s = elim (s.cell p) [
  | none ↦ (err failed, s)
  | some m ↦ elim (munmap_on_dsp host m.raddr m.phys m.size m.flags) [
    | err e ↦ (err failed, mmap_add p m s)
    | ok done ↦ (ok tt, mmap_free dev p false s)
  ]
]

unfoldable pub unmap_map : Host → Bool → ℕ → ℕ → ℕ → Maps → Result (Unit {0}) × Maps
unmap_map host dev fl vaddrout size s =
    let (found, s') = mmap_remove fl vaddrout size s in
    elim found [ err e ↦ (err failed, s') | ok p ↦ unmap_taken host dev p s' ]

unfoldable pub internal_munmap : Host → Bool → ℕ → ℕ → ℕ → Memory → Result (Unit {0}) × Memory
internal_munmap host dev fl vaddrout size s =
    elim (find_rbuf vaddrout size s.bufs.cell s.bufs.remote_bufs) [
      | some (p, b) ↦ unmap_rbuf host p b s
      | none ↦ with_maps s (unmap_map host dev fl vaddrout size s.maps)
    ]

unfoldable pub internal_munmap_fd : Bool → ℕ → ℕ → ℕ → ℕ → Maps → Result (Unit {0}) × Maps
internal_munmap_fd dev fl fd va len s =
    let (found, s') = mmap_find fl fd va len 0 false s in
    elim found [ err e ↦ (err failed, s') | ok p ↦ (ok tt, mmap_free dev p false s') ]
