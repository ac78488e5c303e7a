-- ===== src/Control/Driver.antt =====
-- The functions behind the requests of `fastrpc_device_ioctl` in android/adsprpc.c, on one state: what the
-- driver has of an open file.
use reasoned_soc.Prelude.{set, get_or, ℕ, Bool, true, false, Option, none, some, List}
use reasoned_soc.Errno.{Result, err, ok}
use reasoned_soc.Control.{Device, Handlers}
use reasoned_soc.Process.{InitIoctl, InitGiven, Process, init_process}
use reasoned_soc.Channel.{ChannelCtx}
use reasoned_soc.Context.{Contexts}
use reasoned_soc.Mapping.Create.{Given}
use reasoned_soc.Buffer.{BufGiven}
use reasoned_soc.Overlap.{Overlap}
use reasoned_soc.Session.{Channel, FileBinding, no_channel, get_info}
use reasoned_soc.Remote.{Host, Memory, internal_munmap, internal_munmap_fd}
use reasoned_soc.Remote.Mmap.{MmapIoctl, internal_mmap}
use reasoned_soc.Invoke.{Call, invoke_begin, invoke_end}

-- The file with its channel, its mappings and its buffers; its contexts; its session, by index;
-- whether it was opened on the secure node; the sessions of all channels, and the channels.
pub record OpenFile : Type 0 where
  pub process : Process
  pub contexts : Contexts
  pub sctx : Option ℕ
  pub secure_node : Bool
  pub chans : List Channel
  pub ctxs : ℕ → ChannelCtx

-- What the functions are given. A call has its arguments, the outcome of the copies behind it,
-- whether a signal interrupts its wait, and what happens to the contexts while it waits.
pub record Surroundings : Type 0 where
  pub sort : List Overlap → List Overlap
  pub glink : Bool
  pub host : Host
  pub dev : Bool
  pub buf : BufGiven
  pub map : Given
  pub vmid : ℕ
  pub range : ℕ × ℕ
  pub init : InitGiven
  pub call : Call
  pub put : Result (Unit {0})
  pub interrupted : Bool
  pub wait : Contexts → Contexts

-- `fastrpc_internal_invoke`, its two parts with the wait between them.
unfoldable pub run_invoke : Surroundings → OpenFile → Result (Unit {0}) × OpenFile
run_invoke g s =
    let o = s.process.opening in
    let (begun, c) = invoke_begin g.sort g.glink g.call o.fl o.ctx s.contexts in
    elim begun [
      | err e ↦ (err e, record s { contexts = c })
      | ok (p, message) ↦
          let (r, c') = invoke_end g.call o.fl o.ctx g.put g.interrupted p (g.wait c) in
          (r, record s { contexts = c' })
    ]

abbrev pub memory_of : OpenFile → Memory
memory_of s = record { maps = s.process.opening.maps; bufs = s.process.bufs }

abbrev pub with_memory : OpenFile → Memory → OpenFile
with_memory s m = record s {
  process = record s.process {
    opening = record s.process.opening { maps = m.maps };
    bufs = m.bufs;
  };
}

abbrev pub without_value : {A : Type 0} → Result A → Result (Unit {0})
without_value (err e) = err e
without_value (ok a) = ok tt

unfoldable pub run_mmap : Surroundings → MmapIoctl → OpenFile → Result (Unit {0}) × OpenFile
run_mmap g ud s =
    let (r, m) =
      internal_mmap g.host g.dev g.buf g.map s.process.fl g.vmid g.range ud (memory_of s) in
    (without_value r, with_memory s m)

unfoldable pub run_munmap : Surroundings → ℕ → ℕ → OpenFile → Result (Unit {0}) × OpenFile
run_munmap g vaddrout size s =
    let (r, m) = internal_munmap g.host g.dev s.process.fl vaddrout size (memory_of s) in
    (r, with_memory s m)

unfoldable pub run_munmap_fd : Surroundings → ℕ → ℕ → ℕ → OpenFile → Result (Unit {0}) × OpenFile
run_munmap_fd g fd va len s =
    let (r, maps) = internal_munmap_fd g.dev s.process.fl fd va len s.process.opening.maps in
    (r, with_memory s (record (memory_of s) { maps = maps }))

abbrev pub is_some : {A : Type 0} → Option A → Bool
is_some none = false
is_some (some a) = true

-- The fields of the file that `fastrpc_get_info` works with.
abbrev pub binding_of : Device → OpenFile → FileBinding
binding_of d s = record {
  cid = s.process.opening.fl.cid;
  sctx = s.sctx;
  sharedcb = d.sharedcb;
  ssrcount = s.process.opening.fl.ssrcount;
  secure_node = s.secure_node;
}

-- The sessions of the channel that is asked for, with its count of restarts.
abbrev pub chans_for : ℕ → OpenFile → List Channel
chans_for info s =
    set s.chans info (record (get_or s.chans info no_channel) { ssrcount = (s.ctxs info).ssrcount })

abbrev pub bound_ctx : Option ℕ → Option ℕ → OpenFile → ChannelCtx
bound_ctx none (some cid) s = s.ctxs cid
bound_ctx before after s = s.process.opening.ctx

-- The file and its channel once it is bound.
abbrev pub bind : FileBinding → List Channel → OpenFile → OpenFile
bind b chans s =
    let o = s.process.opening in
    record s {
      process = record s.process {
        opening = record o {
          fl = record o.fl { cid = b.cid; sctx = is_some b.sctx; ssrcount = b.ssrcount };
          ctx = bound_ctx o.fl.cid b.cid s;
        };
      };
      sctx = b.sctx;
      chans = chans;
    }

unfoldable pub run_get_info : Surroundings → Device → ℕ → OpenFile → Result (Unit {0}) × OpenFile
run_get_info g d info s =
    let (r, b, chans) = get_info g.dev (binding_of d s) (chans_for info s) info in
    (without_value r, bind b chans s)

unfoldable pub run_init :
    Surroundings → Device → InitIoctl → OpenFile → Result (Unit {0}) × OpenFile
run_init g d init s =
    let (r, process) =
      init_process g.init g.glink g.host g.dev init (record s.process { tgid = d.tgid }) in
    (r, record s { process = process })

abbrev pub driver : Surroundings → Handlers OpenFile
driver g = record {
  invoke = λ d s. run_invoke g s;
  mmap = λ ud s. run_mmap g ud s;
  munmap = λ vaddrout size s. run_munmap g vaddrout size s;
  munmap_fd = λ fd va len s. run_munmap_fd g fd va len s;
  get_info = λ d info s. run_get_info g d info s;
  init = λ d init s. run_init g d init s;
}
