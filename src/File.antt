-- ===== src/File.antt =====
-- The closing of an open file in android/adsprpc.c: `fastrpc_file_free`, with
-- `fastrpc_release_current_dsp_process`, the call of the kernel that comes first.
pub mod Buffers
pub mod Closed
pub mod Cached
mod Examples
pub mod Released
use reasoned_soc.Prelude.{
  ltb, if◌then◌else◌, length, ℕ, ◌+◌, Bool, true, false, not, Option, none, some, List, [], ◌∷◌,
  ◌++◌,
}
use reasoned_soc.Errno.{Result, failed, err}
use reasoned_soc.Overlap.{Overlap}
use reasoned_soc.Session.{Channel, session_free, num_channels}
use reasoned_soc.Context.{Contexts, unlink}
use reasoned_soc.Context.Interrupted.{free_each, context_list_dtor}
use reasoned_soc.Mapping.{Maps, mmap_free}
use reasoned_soc.Mapping.Closed.{close_maps}
use reasoned_soc.Buffer.{Bufs, buf_free, cached_buf_list_free, remote_buf_list_free}
use reasoned_soc.Channel.{ChannelCtx, FileCtx, handle}
use reasoned_soc.Channel.Users.{release_channel}
use reasoned_soc.Invoke.{Message, Call, kernel_handle, invoke_begin}

-- The call up to its wait; `k` has the arguments that `fastrpc_release_current_dsp_process` makes.
unfoldable pub release_dsp_process :
    (List Overlap → List Overlap)
    → Bool
    → Call
    → FileCtx
    → ChannelCtx
    → Contexts
    → Result (ℕ × Option Message) × Contexts
release_dsp_process sort glink k f chan s =
    if elim f.cid [ none ↦ true | some cid ↦ not (ltb cid num_channels) ]
    then (err failed, s)
    else elim chan.chan [
      | none ↦ (err failed, s)
      | some h ↦
          invoke_begin sort glink (record k { kernel = true; handle = kernel_handle }) f chan s
    ]

-- The fields of `struct smq_invoke_ctx` that `context_free` releases: the mappings of its arguments
-- that are not null, and its two buffers.
pub record Owned : Type 0 where
  pub maps : List ℕ
  pub buf : Option ℕ
  pub lbuf : Option ℕ

-- What the driver has of a file: `me->drivers`, its contexts with what they own, its mappings and
-- buffers, the channel that it is bound to, and the sessions of that channel.
pub record World : Type 0 where
  pub drivers : List ℕ
  pub contexts : Contexts
  pub owned : ℕ → Owned
  pub maps : Maps
  pub bufs : Bufs
  pub ctx : ChannelCtx
  pub chan : Channel

-- The loop of `context_free` over the mappings.
unfoldable pub release_maps : Bool → List ℕ → Maps → Maps
release_maps dev [] s = s
release_maps dev (p ∷ ps) s = release_maps dev ps (mmap_free dev p false s)

-- A buffer of a context goes to the cache of its file.
abbrev pub release_buf : Option ℕ → Bufs → Bufs
release_buf none s = s
release_buf (some p) s = buf_free p true s

-- What `context_free` releases, besides what it does to the table and the lists.
abbrev pub release_context : Bool → Owned → Maps × Bufs → Maps × Bufs
release_context dev o (maps, bufs) =
    (release_maps dev o.maps maps, release_buf o.lbuf (release_buf o.buf bufs))

unfoldable pub release_each : Bool → (ℕ → Owned) → List ℕ → Maps × Bufs → Maps × Bufs
release_each dev owned [] x = x
release_each dev owned (p ∷ ps) x = release_each dev owned ps (release_context dev (owned p) x)

-- The contexts that `fastrpc_context_list_dtor` frees, in its order.
abbrev pub freed_contexts : ℕ → Contexts → List ℕ
freed_contexts fl s = let l = (s.clst fl).interrupted in l ++ ((free_each l s).clst fl).pending

-- The fields of `struct fastrpc_file` that its closing reads. The sessions go by their index.
pub record Closing : Type 0 where
  pub fl : ℕ
  pub file : FileCtx
  pub init_mem : Option ℕ
  pub sctx : Option ℕ
  pub secsctx : Option ℕ

abbrev pub free_init_mem : Option ℕ → Bufs → Bufs
free_init_mem none s = s
free_init_mem (some p) s = buf_free p false s

abbrev pub free_session : Option ℕ → Channel → Channel
free_session none chan = chan
free_session (some idx) chan = session_free chan idx

abbrev pub cid_of : FileCtx → ℕ
cid_of f = elim f.cid [ none ↦ 0 | some cid ↦ cid ]

-- The loop over the remote buffers, one pass more than there are.
abbrev pub free_remote_bufs : Bufs → Bufs
free_remote_bufs s = elim (remote_buf_list_free (length s.remote_bufs + 1) s) [
  | none ↦ s
  | some t ↦ t
]

-- `fastrpc_file_free` behind that call, without the profiles of the file. A file that is not bound
-- has nothing but its entry in the list.
unfoldable pub file_free : Bool → Bool → Closing → World → World
file_free glink dev f s =
    let drivers = unlink f.fl s.drivers in
    elim f.sctx [
      | none ↦ record s { drivers = drivers }
      | some idx ↦
          let (maps, bufs) =
            release_each dev s.owned (freed_contexts f.fl s.contexts)
              (s.maps, free_init_mem f.init_mem s.bufs) in
          record {
            drivers = drivers;
            contexts = context_list_dtor f.fl s.contexts;
            owned = s.owned;
            maps = close_maps dev f.fl (maps.maps f.fl) maps;
            bufs = free_remote_bufs (cached_buf_list_free bufs);
            ctx = release_channel glink (cid_of f.file) f.file s.ctx;
            chan = free_session f.secsctx (session_free s.chan idx);
          }
    ]
