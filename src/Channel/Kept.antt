-- ===== src/Channel/Kept.antt =====
-- What the callbacks and the opening of a channel of android/adsprpc.c leave alone.
use reasoned_soc.Prelude.{
  ltb, ◌==◌, Bool-cases, Option-cases, ℕ, ◌≡◌, refl, ◌∙◌, ◌⊎◌, inl, inr, Bool, true, false, not,
  ◌||◌, none, some, List, [], ◌∷◌, arith,
}
use reasoned_soc.Errno.{Result, Result-cases, err, ok}
use reasoned_soc.Channel.{
  ChannelCtx, Event, link_state_handler, glink_notify_state, smd_event_handler, handle, handle_all,
  wait_work, wait_workport, link_state_up, link_state_down, link_state_other, glink_connected,
  glink_local_disconnected, glink_remote_disconnected, glink_other, smd_event_open,
}
use reasoned_soc.Session.{num_channels}
use reasoned_soc.Channel.Open.{
  ChannelGiven, glink_register, is_disconnected, glink_open, smd_open, settle, connect,
}

-- The handle, the count of references and the count of restarts are the same.
abbrev pub SameUse : ChannelCtx → ChannelCtx → Type 0
SameUse c d = (d.chan ≡ c.chan) × (d.kref ≡ c.kref) × (d.ssrcount ≡ c.ssrcount)

pub handle-SameUse : (e : Event) (c : ChannelCtx) → SameUse c (handle e c)
unfolding handle smd_event_handler glink_notify_state link_state_handler
handle-SameUse link_state_up c = (refl, refl, refl)
handle-SameUse link_state_down c = (refl, refl, refl)
handle-SameUse link_state_other c = (refl, refl, refl)
handle-SameUse glink_connected c = (refl, refl, refl)
handle-SameUse glink_local_disconnected c = (refl, refl, refl)
handle-SameUse glink_remote_disconnected c = (refl, refl, refl)
handle-SameUse glink_other c = (refl, refl, refl)
handle-SameUse smd_event_open c = (refl, refl, refl)

SameUse-trans : (c d e : ChannelCtx) → SameUse c d → SameUse d e → SameUse c e
SameUse-trans c d e (a, b, s) (a', b', s') = (a' ∙ a, b' ∙ b, s' ∙ s)

handle_all-SameUse : (es : List Event) (c : ChannelCtx) → SameUse c (handle_all es c)
unfolding handle_all
handle_all-SameUse [] c = (refl, refl, refl)
handle_all-SameUse (e ∷ es) c =
    SameUse-trans c (handle e c) (handle_all es (handle e c)) (handle-SameUse e c)
      (handle_all-SameUse es (handle e c))

wait_work-SameUse : (es : List Event) (c : ChannelCtx) → SameUse c (wait_work es c).1
unfolding wait_work
wait_work-SameUse es c =
    let (a, b, d) = handle_all-SameUse es c in
    elim (Bool-cases ((handle_all es c).work == 0)) [
      | inl e ↦ rw (wait_work, e) (a, b, d)
      | inr e ↦ rw (wait_work, e) (a, b, d)
    ]

wait_workport-SameUse : (es : List Event) (c : ChannelCtx) → SameUse c (wait_workport es c).1
unfolding wait_workport
wait_workport-SameUse es c =
    let (a, b, d) = handle_all-SameUse es c in
    elim (Bool-cases ((handle_all es c).workport == 0)) [
      | inl e ↦ rw (wait_workport, e) (a, b, d)
      | inr e ↦ rw (wait_workport, e) (a, b, d)
    ]

glink_register-SameUse :
    (g : ChannelGiven) (cid : ℕ) (c : ChannelCtx) → SameUse c (glink_register g cid c).1
unfolding glink_register
glink_register-SameUse g cid c =
    let d : ChannelCtx = record c { link = record c.link { registered = true } } in
    ground (arith, wait_work-SameUse g.work_events d)

-- An opened transport has set the handle, and one that did not open has left it.
abbrev pub IsAttached : ChannelCtx → Result (Unit {0}) × ChannelCtx → Type 0
IsAttached c (err e, d) = SameUse c d
IsAttached c (ok done, d) =
    ((handle : ℕ) × (d.chan ≡ some handle)) × (d.kref ≡ c.kref) × (d.ssrcount ≡ c.ssrcount)

glink_open-IsAttached :
    (g : ChannelGiven) (cid : ℕ) (c : ChannelCtx) → IsAttached c (glink_open g cid c)
unfolding glink_open
glink_open-IsAttached g cid c =
    let guard =
      not (ltb cid num_channels) || not c.link.link_up || not (is_disconnected c.link.port_state) in
    elim (Bool-cases guard) [
      | inl shut ↦ rw (glink_open, shut) (refl, refl, refl)
      | inr fine ↦ elim (Option-cases g.glink_handle) [
        | inl e ↦ rw (glink_open, fine, e) (refl, refl, refl)
        | inr (handle, e) ↦ rw (glink_open, fine, e) ((handle, refl), refl, refl)
      ]
    ]

smd_open-IsAttached : (g : ChannelGiven) (c : ChannelCtx) → IsAttached c (smd_open g c)
unfolding smd_open
smd_open-IsAttached g c = elim (Option-cases g.smd_handle) [
  | inl e ↦ rw (smd_open, e) (refl, refl, refl)
  | inr (handle, e) ↦ rw (smd_open, e) ((handle, refl), refl, refl)
]

-- A channel that was connected has a handle and one reference; otherwise it has no handle, or the
-- one that it had.
abbrev pub IsConnected : ChannelCtx → Result (Unit {0}) × ChannelCtx → Type 0
IsConnected c (err e, d) = ((d.chan ≡ none) ⊎ (d.chan ≡ c.chan)) × (d.ssrcount ≡ c.ssrcount)
IsConnected c (ok done, d) =
    ((handle : ℕ) × (d.chan ≡ some handle)) × (d.kref ≡ 1) × (d.ssrcount ≡ c.ssrcount)

settle-IsConnected :
    (g : ChannelGiven) (c : ChannelCtx) (x : Result (Unit {0}) × ChannelCtx)
    → IsAttached c x
    → IsConnected c (settle g x)
unfolding settle
settle-IsConnected g c (err e, d) (a, b, s) =
    let (a', b', s') = wait_workport-SameUse g.workport_events d in (inl refl, s' ∙ s)
settle-IsConnected g c (ok done, d) ((handle, a), b, s) =
    let (a', b', s') = wait_workport-SameUse g.workport_events d in
    elim (Bool-cases (wait_workport g.workport_events d).0) [
      | inl e ↦ rw (settle, e) ((handle, a' ∙ a), refl, s' ∙ s)
      | inr e ↦ rw (settle, e) (inl refl, s' ∙ s)
    ]

IsConnected-from :
    (c c' : ChannelCtx) (x : Result (Unit {0}) × ChannelCtx)
    → SameUse c c'
    → IsConnected c' x
    → IsConnected c x
IsConnected-from c c' (err e, d) (a, b, s) (inl shut, s') = (inl shut, s' ∙ s)
IsConnected-from c c' (err e, d) (a, b, s) (inr same, s') = (inr (same ∙ a), s' ∙ s)
IsConnected-from c c' (ok done, d) (a, b, s) (opened, one, s') = (opened, one, s' ∙ s)

pub connect-IsConnected :
    (glink : Bool) (g : ChannelGiven) (cid : ℕ) (c : ChannelCtx)
    → IsConnected c (connect glink g cid c)
unfolding connect
connect-IsConnected false g cid c = settle-IsConnected g c (smd_open g c) (smd_open-IsAttached g c)
connect-IsConnected true g cid c =
    let (a, b, s) = glink_register-SameUse g cid c in
    let c' = (glink_register g cid c).1 in
    elim (Result-cases (glink_register g cid c).0) [
      | inl (e, h) ↦ rw (connect, h) (inr a, s)
      | inr (done, h) ↦
          rw (connect, h)
            (IsConnected-from c c' (settle g (glink_open g cid c')) (a, b, s)
              (settle-IsConnected g c' (glink_open g cid c') (glink_open-IsAttached g cid c')))
    ]
