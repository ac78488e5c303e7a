-- ===== src/Invoke.antt =====
-- An invocation of android/adsprpc.c, from its checks to its result: `fastrpc_internal_invoke` in two
-- parts, up to the wait and behind it, and `fastrpc_invoke_send`.
pub mod Answered
mod Examples
pub mod Refused
use reasoned_soc.Prelude.{
  ltb, ◌==◌, if◌then◌else◌, ℕ, ◌+◌, ◌^◌, Bool, true, false, not, ◌&&◌, ◌||◌, Option, none, some,
  List,
}
use reasoned_soc.Errno.{
  Errno, Result, ◌>>◌, verify, as_failed, failed, econnreset, enosuch, erestartsys, remote, err, ok,
}
use reasoned_soc.Pages.{buf_page_size}
use reasoned_soc.Context.{
  Ctx, Contexts, put, context_free, Request, context_alloc, context_save_interrupted,
}
use reasoned_soc.Channel.{PortState, ChannelCtx, FileCtx, connected}
use reasoned_soc.Context.Interrupted.{context_restore_interrupted}
use reasoned_soc.Session.{num_channels}
use reasoned_soc.Overlap.{Overlap}

-- `struct smq_msg`
pub record Message : Type 0 where
  pub pid : ℕ
  pub tid : ℕ
  pub ctx : ℕ
  pub handle : ℕ
  pub sc : ℕ
  pub addr : ℕ
  pub size : ℕ

-- What a call is given: the arguments and the attributes of the file; `coherent` and `faults` of its
-- session; the request for a context; the copied arguments' outcome, physical address and used length;
-- the outcomes of `glink_tx` and of `smd_write`.
pub record Call : Type 0 where
  pub kernel : Bool
  pub handle : ℕ
  pub pd : ℕ
  pub has_sessionid : Bool
  pub faults : Bool
  pub request : Request
  pub got_args : Result (Unit {0})
  pub buf_phys : ℕ
  pub used : ℕ
  pub glink_tx : Message → Result (Unit {0})
  pub smd_write : Message → Bool

-- FASTRPC_STATIC_HANDLE_KERNEL
abbrev pub kernel_handle : ℕ
kernel_handle = 1

-- `SESSION_ID_INDEX` is 30, and a thread's number is below 2 ^ 30. The identifier of a context and the
-- domain `pd`, which is below 4, share no bit.
unfoldable pub message_of : Call → Ctx → Message
message_of k c = record {
  pid = if k.kernel then 0 else c.tgid;
  tid = if k.has_sessionid then k.request.pid + 2 ^ 30 else k.request.pid;
  ctx = c.ctxid + k.pd;
  handle = k.handle;
  sc = c.sc;
  addr = k.buf_phys;
  size = buf_page_size k.used;
}

abbrev pub is_connected : PortState → Bool
is_connected connected = true
is_connected _ = false

-- The message, once it is on its way.
unfoldable pub invoke_send : Bool → Call → FileCtx → ChannelCtx → Ctx → Result Message
invoke_send glink k f chan c = do
  verify (elim chan.chan [ none ↦ false | some h ↦ true ])
  let m = message_of k c
  (if not glink
      then verify (k.smd_write m)
      else if not (f.ssrcount == chan.ssrcount)
      then err econnreset
      else (verify (is_connected chan.link.port_state) >> k.glink_tx m))
  ok m

-- The arguments are copied if there are any, and the message is sent.
unfoldable pub prepare : Bool → Call → FileCtx → ChannelCtx → Ctx → Result Message
prepare glink k f chan c = do
  (if k.request.length == 0 then ok tt else as_failed k.got_args)
  as_failed (invoke_send glink k f chan c)

-- A new context `p`, which is freed again when it cannot be sent.
unfoldable pub launch :
    Bool → Call → FileCtx → ChannelCtx → ℕ → Contexts → Result (ℕ × Option Message) × Contexts
launch glink k f chan p s = elim (s.cell p) [
  | none ↦ (err failed, s)
  | some c ↦ elim (prepare glink k f chan c) [
    | err e ↦ (err failed, context_free p s)
    | ok m ↦
        (ok (p, some m), record s { cell = put s.cell p (some (record c { msg_pid = m.pid })) })
  ]
]

unfoldable pub begin_new :
    (List Overlap → List Overlap)
    → Bool
    → Call
    → FileCtx
    → ChannelCtx
    → Contexts
    → Result (ℕ × Option Message) × Contexts
begin_new sort glink k f chan s =
    let (r, s') = context_alloc sort k.request s in
    elim r [ err e ↦ (err failed, s') | ok p ↦ launch glink k f chan p s' ]

-- A call of a process: one that was interrupted is taken up again, without a message.
unfoldable pub begin_user :
    (List Overlap → List Overlap)
    → Bool
    → Call
    → FileCtx
    → ChannelCtx
    → Contexts
    → Result (ℕ × Option Message) × Contexts
begin_user sort glink k f chan s =
    let (r, s') = context_restore_interrupted k.request.fl k.request.pid k.request.sc s in
    elim r [
      | err e ↦ (err failed, s')
      | ok none ↦ if k.faults then (err enosuch, s') else begin_new sort glink k f chan s'
      | ok (some p) ↦ if k.faults then (err enosuch, context_free p s') else (ok (p, none), s')
    ]

-- Whether the call is turned away before it looks at contexts.
unfoldable pub is_turned_away : Call → FileCtx → Bool
is_turned_away k f =
    (not k.kernel && (k.handle == kernel_handle))
    || not f.sctx
    || (elim f.cid [ none ↦ true | some cid ↦ not (ltb cid num_channels) ])

-- The calls up to the wait, without the last test.
unfoldable pub begin_call :
    (List Overlap → List Overlap)
    → Bool
    → Call
    → FileCtx
    → ChannelCtx
    → Contexts
    → Result (ℕ × Option Message) × Contexts
begin_call sort glink k f chan s =
    if is_turned_away k f
    then (err failed, s)
    else if k.kernel
    then begin_new sort glink k f chan s
    else begin_user sort glink k f chan s

-- The last test of `fastrpc_internal_invoke`, on every path that returns: the channel has restarted
-- since the file was bound. It reads the channel of the file also where `fl->cid` was out of bounds.
abbrev pub restart_error : FileCtx → ChannelCtx → Errno → Errno
restart_error f chan e = if f.ssrcount == chan.ssrcount then e else econnreset

-- `fastrpc_internal_invoke` up to the wait: the context to wait for, with the message if one was sent,
-- or the error of the call.
unfoldable pub invoke_begin :
    (List Overlap → List Overlap)
    → Bool
    → Call
    → FileCtx
    → ChannelCtx
    → Contexts
    → Result (ℕ × Option Message) × Contexts
invoke_begin sort glink k f chan s =
    let (r, s') = begin_call sort glink k f chan s in
    (elim r [ err e ↦ err (restart_error f chan e) | ok begun ↦ ok begun ], s')

-- The result of a call that was completed, `put` being that of `put_args`.
abbrev pub result_of : Result (Unit {0}) → Ctx → Result (Unit {0})
result_of put c = if c.retval == 0 then as_failed put else err (remote c.retval)

abbrev pub check_restart : FileCtx → ChannelCtx → Result (Unit {0}) → Result (Unit {0})
check_restart f chan r = if f.ssrcount == chan.ssrcount then r else err econnreset

-- Behind the wait, which a signal ends early for a process but not for the kernel.
unfoldable pub invoke_end :
    Call
    → FileCtx
    → ChannelCtx
    → Result (Unit {0})
    → Bool
    → ℕ
    → Contexts
    → Result (Unit {0}) × Contexts
invoke_end k f chan put interrupted p s = elim (s.cell p) [
  | none ↦ (err failed, s)
  | some c ↦
      if interrupted && not k.kernel
      then (check_restart f chan (err erestartsys), context_save_interrupted p c s)
      else (check_restart f chan (result_of put c), context_free p s)
]
