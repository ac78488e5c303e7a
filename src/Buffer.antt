-- ===== src/Buffer.antt =====
-- Buffers of android/adsprpc.c that the driver allocates for a file: `struct fastrpc_buf`, the cache
-- of a file and its list of remote buffers.
pub mod Aside
pub mod Cache
pub mod Emptied
mod Examples
pub mod Fresh
use reasoned_soc.Prelude.{
  ltb, leb, ◌==◌, if◌then◌else◌, ℕ, zero, suc, ◌+◌, ◌-◌, ◌*◌, ◌/◌, ◌^◌, Bool, true, false, not,
  ◌&&◌, Option, none, some, List, [], ◌∷◌,
}
use reasoned_soc.Errno.{Result, failed, enomem, err, ok}
use reasoned_soc.Pages.{u64}
use reasoned_soc.Context.{put, unlink}
use Prim.Native.Nat.{bit_and}

-- `virt` is null for `none`.
pub record Buf : Type 0 where
  pub virt : Option ℕ
  pub phys : ℕ
  pub size : ℕ
  pub raddr : ℕ
  pub flags : ℕ
  pub remote : Bool

-- The size, the virtual and the physical address of a call of `dma_free_attrs`.
abbrev pub Region : Type 0
Region = ℕ × ℕ × ℕ

-- The buffers of a file by address, its two lists, and the regions that were given back, the last
-- one first. `cb` is `fl->sctx->smmu.cb`.
pub record Bufs : Type 0 where
  pub cell : ℕ → Option Buf
  pub cached_bufs : List ℕ
  pub remote_bufs : List ℕ
  pub freed : List Region
  pub cb : ℕ

-- `phys &= ~((uint64_t)cb << 32)`, for `cb` of 32 bits
abbrev pub without_cb : ℕ → ℕ → ℕ
without_cb cb phys = phys - bit_and (phys / 2 ^ 32) cb * 2 ^ 32

abbrev pub give_back : ℕ → Buf → List Region → List Region
give_back cb b freed = elim b.virt [
  | none ↦ freed
  | some virt ↦ (b.size, virt, without_cb cb b.phys) ∷ freed
]

-- The assignment of the pages to the driver's own processor is left out.
unfoldable pub buf_free : ℕ → Bool → Bufs → Bufs
buf_free p cache s = elim (s.cell p) [
  | none ↦ s
  | some b ↦ if cache then record s { cached_bufs = p ∷ s.cached_bufs } else record s {
    cell = put s.cell p none;
    remote_bufs = if b.remote then unlink p s.remote_bufs else s.remote_bufs;
    freed = give_back s.cb b s.freed;
  }
]

-- The loop of `fastrpc_cached_buf_list_free`, over the entries of the list.
unfoldable pub free_cached : List ℕ → Bufs → Bufs
free_cached [] s = s
free_cached (p ∷ ps) s =
    free_cached ps (buf_free p false (record s { cached_bufs = unlink p s.cached_bufs }))

unfoldable pub cached_buf_list_free : Bufs → Bufs
unfolding free_cached
cached_buf_list_free s = free_cached s.cached_bufs s

abbrev pub better : ℕ → Option (ℕ × Buf) → Buf → Bool
better size none b = leb size b.size
better size (some (q, c)) b = leb size b.size && ltb b.size c.size

-- The loop over the cache: `fr` is the smallest buffer so far that is large enough.
unfoldable pub best_fit : (ℕ → Option Buf) → ℕ → Option (ℕ × Buf) → List ℕ → Option (ℕ × Buf)
best_fit cell size fr [] = fr
best_fit cell size fr (p ∷ ps) = elim (cell p) [
  | none ↦ best_fit cell size fr ps
  | some b ↦ best_fit cell size (if better size fr b then some (p, b) else fr) ps
]

-- What a call is given: the address of `kzalloc`, the regions of the two calls of `dma_alloc_attrs`,
-- virtual and physical, whether the pages are assigned, and the channel's `vmid`.
pub record BufGiven : Type 0 where
  pub fresh : Option ℕ
  pub first : Option (ℕ × ℕ)
  pub second : Option (ℕ × ℕ)
  pub assigned : Bool
  pub vmid : ℕ

abbrev pub new_buf : ℕ → ℕ → Option ℕ → ℕ → Buf
new_buf size rflags virt phys = record {
  virt = virt;
  phys = phys;
  size = size;
  raddr = 0;
  flags = rflags;
  remote = false;
}

-- The end of `fastrpc_buf_alloc`, with memory at `virt` and `phys`.
unfoldable pub enter_buf : BufGiven → ℕ → ℕ → Bool → ℕ → ℕ × ℕ → Bufs → Result ℕ × Bufs
enter_buf g size rflags remote p (virt, phys) s =
    let b =
      new_buf size rflags (some virt) (if s.cb == 0 then phys else u64 (phys + s.cb * 2 ^ 32)) in
    if not (g.vmid == 0) && not g.assigned
    then (err failed, buf_free p false (record s { cell = put s.cell p (some b) }))
    else if remote
    then (
      ok p,
      record s {
        cell = put s.cell p (some (record b { remote = true }));
        remote_bufs = p ∷ s.remote_bufs;
      },
    )
    else (ok p, record s { cell = put s.cell p (some b) })

-- A new buffer: at a failure the cache is freed, and the allocation is tried once more.
unfoldable pub make_buf : BufGiven → ℕ → ℕ → Bool → Bufs → Result ℕ × Bufs
unfolding cached_buf_list_free
make_buf g size rflags remote s = elim g.fresh [
  | none ↦ (err failed, s)
  | some p ↦ elim g.first [
    | some region ↦ enter_buf g size rflags remote p region s
    | none ↦
        let s' = cached_buf_list_free s in
        elim g.second [
          | some region ↦ enter_buf g size rflags remote p region s'
          | none ↦ (
            err enomem,
            buf_free p false
                (record s' { cell = put s'.cell p (some (new_buf size rflags none 0)) }),
          )
        ]
  ]
]

unfoldable pub buf_alloc : BufGiven → ℕ → ℕ → Bool → Bufs → Result ℕ × Bufs
unfolding make_buf
buf_alloc g size rflags remote s =
    if size == 0
    then (err failed, s)
    else if remote
    then make_buf g size rflags remote s
    else elim (best_fit s.cell size none s.cached_bufs) [
      | some (p, b) ↦ (ok p, record s { cached_bufs = unlink p s.cached_bufs })
      | none ↦ make_buf g size rflags remote s
    ]

-- The loop of `fastrpc_remote_buf_list_free`, on fuel: a buffer leaves the list when it is freed.
unfoldable pub remote_buf_list_free : ℕ → Bufs → Option Bufs
remote_buf_list_free zero s = none
remote_buf_list_free (suc fuel) s = elim s.remote_bufs [
  | [] ↦ some s
  | p ∷ ps ↦ remote_buf_list_free fuel (buf_free p false s)
]
