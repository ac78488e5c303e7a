-- ===== src/Channel/Restart.antt =====
-- The restart of a subsystem or of a protection domain in android/adsprpc.c:
-- `fastrpc_restart_notifier_cb` and `fastrpc_pdr_notifier_cb`.
use reasoned_soc.Prelude.{◌==◌, if◌then◌else◌, ℕ, ◌+◌, Bool, true, false, ◌&&◌, none, some, List}
use reasoned_soc.Context.{Contexts}
use reasoned_soc.Context.Response.{Driver, notify_drivers, notify_pdr_drivers}
use reasoned_soc.Remote.Heap.{StaticPd, audio_pdr}
use reasoned_soc.Channel.{ChannelCtx, handle}
use reasoned_soc.Channel.Open.{channel_close}

-- The codes of the two notifiers; `ramdump` comes with `enable_ramdump`.
pub data Code : Type 0 where
  before_shutdown after_powerup : Code
  service_down service_up : Code
  ramdump : Bool → Code
  other_code : Code

-- What a restart concerns: the channel; `remoteheap_ramdump_dev` and `ramdumpenabled` of channel 0;
-- whether the static domain has been attached; the contexts.
pub record Subsystem : Type 0 where
  pub ctx : ChannelCtx
  pub ramdump_dev : Bool
  pub ramdumpenabled : Bool
  pub staticpd_flags : Bool
  pub contexts : Contexts

-- The channel of a subsystem that shuts down; a restart is counted, and an open channel is closed.
unfoldable pub shut_down : Bool → ℕ → ChannelCtx → ChannelCtx
shut_down glink cid c =
    let c' = record c { ssrcount = c.ssrcount + 1; issubsystemup = false } in
    elim c.chan [ none ↦ c' | some handle ↦ channel_close glink cid c' ]

unfoldable pub enable_ramdump : Bool → Subsystem → Subsystem
enable_ramdump enable s = if s.ramdump_dev && enable then record s { ramdumpenabled = true } else s

-- `cid` is the index of the channel.
unfoldable pub restart_notifier_cb : Bool → List Driver → ℕ → Code → Subsystem → Subsystem
restart_notifier_cb glink drivers cid before_shutdown s = record s {
  ctx = shut_down glink cid s.ctx;
  staticpd_flags = if cid == 0 then false else s.staticpd_flags;
  contexts = notify_drivers drivers cid s.contexts;
}
restart_notifier_cb glink drivers cid (ramdump enable) s = enable_ramdump enable s
restart_notifier_cb glink drivers cid after_powerup s = record s {
  ctx = record s.ctx { issubsystemup = true };
}
restart_notifier_cb glink drivers cid _ s = s

-- A protection domain that restarts, with the domain itself.
unfoldable pub pdr_notifier_cb : List Driver → Code → StaticPd → Subsystem → StaticPd × Subsystem
pdr_notifier_cb drivers service_down d s = (
  record d { pdrcount = d.pdrcount + 1; ispdup = false },
  record s {
    staticpd_flags = if d.spdname == audio_pdr then false else s.staticpd_flags;
    contexts = notify_pdr_drivers drivers d.spdname s.contexts;
  },
)
pdr_notifier_cb drivers (ramdump enable) d s = (d, enable_ramdump enable s)
pdr_notifier_cb drivers service_up d s = (record d { ispdup = true }, s)
pdr_notifier_cb drivers _ d s = (d, s)
