-- ===== src/Channel/Open.antt =====
-- The opening of a channel in android/adsprpc.c: `fastrpc_channel_open` with `fastrpc_glink_register`
-- and `fastrpc_glink_open`, and its closing: `fastrpc_glink_close` and `fastrpc_channel_close`.
use reasoned_soc.Prelude.{
  ltb, ◌==◌, if◌then◌else◌, length, ℕ, zero, suc, ◌+◌, ◌-◌, ◌%◌, ◌^◌, Bool, true, false, not, ◌&&◌,
  ◌||◌, Option, none, some, List,
}
use reasoned_soc.Errno.{Result, ◌>>◌, verify, failed, enotconn, err, ok}
use reasoned_soc.Session.{num_channels}
use reasoned_soc.Mapping.{Maps}
use reasoned_soc.Remote.{Host}
use reasoned_soc.Remote.Heap.{mmap_remove_ssr}
use reasoned_soc.Channel.{
  num_intents, PortState, ChannelCtx, FileCtx, Event, handle, wait_work, wait_workport,
  disconnected, connecting, connected, disconnecting, remote_disconnecting,
}

-- What opening a channel is given: whether the link callback is registered, the handle of
-- `glink_open`, that of `smd_named_open_on_edge`, the events during the two waits, and the outcome of
-- each `glink_queue_rx_intent`.
pub record ChannelGiven : Type 0 where
  pub notify_handle : Bool
  pub glink_handle : Option ℕ
  pub smd_handle : Option ℕ
  pub work_events : List Event
  pub workport_events : List Event
  pub intent : ℕ → Result (Unit {0})

unfoldable pub glink_register : ChannelGiven → ℕ → ChannelCtx → Result (Unit {0}) × ChannelCtx
glink_register g cid c =
    if not (ltb cid num_channels)
    then (err failed, c)
    else if c.link.registered
    then (ok tt, c)
    else if not g.notify_handle
    then (err failed, c)
    else (let (done, c') =
          wait_work g.work_events (record c { link = record c.link { registered = true } }) in
        (verify done, c'))

abbrev pub set_port : PortState → ChannelCtx → ChannelCtx
set_port p c = record c { link = record c.link { port_state = p } }

abbrev pub is_disconnected : PortState → Bool
is_disconnected disconnected = true
is_disconnected _ = false

-- A port whose `glink_open` fails is disconnected again.
unfoldable pub glink_open : ChannelGiven → ℕ → ChannelCtx → Result (Unit {0}) × ChannelCtx
glink_open g cid c =
    if not (ltb cid num_channels) || not c.link.link_up || not (is_disconnected c.link.port_state)
    then (err failed, c)
    else elim g.glink_handle [
      | none ↦ (err failed, set_port disconnected c)
      | some handle ↦ (ok tt, record (set_port connecting c) { chan = some handle })
    ]

abbrev pub is_closable : PortState → Bool
is_closable connected = true
is_closable remote_disconnecting = true
is_closable _ = false

unfoldable pub glink_close : ℕ → ChannelCtx → ChannelCtx
glink_close cid c =
    if ltb cid num_channels && is_closable c.link.port_state then set_port disconnecting c else c

-- `smd_close` leaves no trace in the driver.
unfoldable pub channel_close : Bool → ℕ → ChannelCtx → ChannelCtx
channel_close glink cid c = record (if glink then glink_close cid c else c) { chan = none }

-- `kref_put_mutex` with `fastrpc_channel_close`
unfoldable pub put_channel : Bool → ℕ → ChannelCtx → ChannelCtx
put_channel glink cid c =
    let left = (c.kref + (2 ^ 32 - 1)) % 2 ^ 32 in
    let c' = record c { kref = left } in if left == 0 then channel_close glink cid c' else c'

unfoldable pub smd_open : ChannelGiven → ChannelCtx → Result (Unit {0}) × ChannelCtx
smd_open g c = elim g.smd_handle [
  | none ↦ (err failed, c)
  | some handle ↦ (ok tt, record c { chan = some handle })
]

-- The wait for the port, which also follows a transport that did not open.
unfoldable pub settle :
    ChannelGiven → Result (Unit {0}) × ChannelCtx → Result (Unit {0}) × ChannelCtx
settle g (r, c) =
    let (done, c') = wait_workport g.workport_events c in
    elim (r >> verify done) [
      | err e ↦ (err failed, record c' { chan = none })
      | ok settled ↦ (ok tt, record c' { kref = 1 })
    ]

unfoldable pub connect : Bool → ChannelGiven → ℕ → ChannelCtx → Result (Unit {0}) × ChannelCtx
connect glink g cid c =
    if not glink
    then settle g (smd_open g c)
    else (let (r, c') = glink_register g cid c in
        elim r [ err e ↦ (err failed, c') | ok done ↦ settle g (glink_open g cid c') ])

-- The loop over the intents, of which the last sets the error.
unfoldable pub queue_intents :
    ℕ → ℕ → (ℕ → Result (Unit {0})) → Result (Unit {0}) → Result (Unit {0})
queue_intents zero ii intent r = r
queue_intents (suc n) ii intent r = queue_intents n (ii + 1) intent (intent ii)

-- The file, its channel and the mappings.
pub record Opening : Type 0 where
  pub fl : FileCtx
  pub ctx : ChannelCtx
  pub maps : Maps

-- The remote heap is unmapped, by one pass more than it has mappings, when the subsystem of channel 0
-- has restarted; its error is only printed.
unfoldable pub forget_heap : Host → Bool → ℕ → Opening → Opening
forget_heap host dev cid o =
    if (cid == 0) && not (o.ctx.ssrcount == o.ctx.prevssrcount)
    then record o {
      ctx = record o.ctx { prevssrcount = o.ctx.ssrcount };
      maps = elim (mmap_remove_ssr (length o.maps.global + 1) host dev o.maps) [
        | none ↦ o.maps
        | some (r, maps) ↦ maps
      ];
    }
    else o

-- Behind the reference: the channel is opened unless it is open already.
unfoldable pub open_first :
    Bool → ChannelGiven → Host → Bool → ℕ → Opening → Result (Unit {0}) × Opening
open_first glink g host dev cid o =
    let (r, c) = connect glink g cid o.ctx in
    let o' = record o { ctx = c } in
    elim r [
      | err e ↦ (err e, o')
      | ok done ↦ (
        if glink then queue_intents num_intents 0 g.intent (ok tt) else ok tt,
        forget_heap host dev cid o',
      )
    ]

-- The reference is taken whether or not the channel is open, unless its count is 0.
unfoldable pub take_reference :
    Bool → ChannelGiven → Host → Bool → ℕ → Opening → Result (Unit {0}) × Opening
take_reference glink g host dev cid o =
    let fl = record o.fl { ssrcount = o.ctx.ssrcount; refcount = true } in
    if o.ctx.kref == 0
    then open_first glink g host dev cid (record o { fl = fl })
    else (let c = record o.ctx { kref = (o.ctx.kref + 1) % 2 ^ 32 } in
        elim c.chan [
          | none ↦ open_first glink g host dev cid (record o { fl = fl; ctx = c })
          | some handle ↦ (ok tt, record o { fl = fl; ctx = c })
        ])

unfoldable pub channel_open :
    Bool → ChannelGiven → Host → Bool → Opening → Result (Unit {0}) × Opening
channel_open glink g host dev o = if not o.fl.sctx then (err failed, o) else elim o.fl.cid [
  | none ↦ (err failed, o)
  | some cid ↦
      if not (ltb cid num_channels)
      then (err failed, o)
      else if not (o.ctx.ssrcount == o.ctx.prevssrcount) && not o.ctx.issubsystemup
      then (err enotconn, o)
      else take_reference glink g host dev cid o
]
