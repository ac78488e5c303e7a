-- ===== src/Channel.antt =====
-- Channels of android/adsprpc.c: opening and closing, the callbacks of the transports, and the
-- restart of the subsystem behind a channel.
mod Examples
pub mod Contract
pub mod Joined
pub mod Kept
pub mod Lost
pub mod Open
pub mod Refines
pub mod Restart
pub mod Users
use reasoned_soc.Prelude.{
  ◌==◌, if◌then◌else◌, ℕ, ◌+◌, ◌-◌, Bool, true, false, Option, List, [], ◌∷◌,
}

abbrev pub num_intents : ℕ
num_intents = 16

-- FASTRPC_LINK_DISCONNECTED and the others
pub data PortState : Type 0 where
  disconnected connecting connected disconnecting remote_disconnecting : PortState

-- `struct fastrpc_glink_info`; `registered` says whether `link_notify_handle` is set.
pub record LinkInfo : Type 0 where
  pub link_up : Bool
  pub port_state : PortState
  pub registered : Bool

-- The fields of `struct fastrpc_channel_ctx` that opening and closing work with. `work` and `workport`
-- are the counts of the two completions, `kref` is a counter of 32 bits.
pub record ChannelCtx : Type 0 where
  pub chan : Option ℕ
  pub work : ℕ
  pub workport : ℕ
  pub kref : ℕ
  pub ssrcount : ℕ
  pub prevssrcount : ℕ
  pub issubsystemup : Bool
  pub link : LinkInfo

-- The fields of `struct fastrpc_file` that opening and closing work with; `cid` is -1 for `none`, and
-- `sctx` says whether the file has a session.
pub record FileCtx : Type 0 where
  pub cid : Option ℕ
  pub sctx : Bool
  pub ssrcount : ℕ
  pub refcount : Bool

-- The events of `fastrpc_link_state_handler`, of `fastrpc_glink_notify_state` and of the part of
-- `smd_event_handler` that opens.
pub data Event : Type 0 where
  link_state_up link_state_down link_state_other : Event
  glink_connected glink_local_disconnected glink_remote_disconnected glink_other : Event
  smd_event_open : Event

unfoldable pub link_state_handler : Event → ChannelCtx → ChannelCtx
link_state_handler link_state_up c = record c {
  link = record c.link { link_up = true };
  work = c.work + 1;
}
link_state_handler link_state_down c = record c { link = record c.link { link_up = false } }
link_state_handler e c = c

unfoldable pub glink_notify_state : Event → ChannelCtx → ChannelCtx
glink_notify_state glink_connected c = record c {
  link = record c.link { port_state = connected };
  workport = c.workport + 1;
}
glink_notify_state glink_local_disconnected c = record c {
  link = record c.link { port_state = disconnected };
}
glink_notify_state e c = c

unfoldable pub smd_event_handler : Event → ChannelCtx → ChannelCtx
smd_event_handler smd_event_open c = record c { workport = c.workport + 1 }
smd_event_handler e c = c

-- An event goes to the handlers, of which one knows it.
unfoldable pub handle : Event → ChannelCtx → ChannelCtx
handle e c = smd_event_handler e (glink_notify_state e (link_state_handler e c))

unfoldable pub handle_all : List Event → ChannelCtx → ChannelCtx
handle_all [] c = c
handle_all (e ∷ es) c = handle_all es (handle e c)

-- `wait_for_completion_timeout` on `work` and on `workport`, with the events that come in while the
-- caller waits: `true` if the completion was there in time.
unfoldable pub wait_work : List Event → ChannelCtx → Bool × ChannelCtx
wait_work es c =
    let c' = handle_all es c in
    if c'.work == 0 then (false, c') else (true, record c' { work = c'.work - 1 })

unfoldable pub wait_workport : List Event → ChannelCtx → Bool × ChannelCtx
wait_workport es c =
    let c' = handle_all es c in
    if c'.workport == 0 then (false, c') else (true, record c' { workport = c'.workport - 1 })
