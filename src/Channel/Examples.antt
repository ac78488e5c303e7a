-- ===== src/Channel/Examples.antt =====
-- Files that open a channel over glink, in time or too late.
use reasoned_soc.Prelude.{ℕ, ◌≡◌, refl, inr, true, false, none, some, [], ◌∷◌, arith}
use reasoned_soc.Errno.{failed, ok}
use reasoned_soc.Session.{no_session}
use reasoned_soc.Mapping.{Maps}
use reasoned_soc.Remote.{Host}
use reasoned_soc.Channel.{
  ChannelCtx, FileCtx, link_state_handler, glink_notify_state, smd_event_handler, handle,
  handle_all, wait_work, wait_workport, disconnected, link_state_up, glink_connected,
  glink_local_disconnected,
}
use reasoned_soc.Channel.Open.{
  ChannelGiven, glink_register, glink_open, put_channel, settle, connect, Opening, forget_heap,
  open_first, take_reference, channel_open,
}
use reasoned_soc.Channel.Users.{is_user, release_channel, System, tried, Step, Use, IsUsedBy}
use reasoned_soc.Channel.Refines.{Step-Use}
use reasoned_soc.Channel.Lost.{failed_open_closes}

abbrev closed : ChannelCtx
closed = record {
  chan = none;
  work = 0;
  workport = 0;
  kref = 0;
  ssrcount = 0;
  prevssrcount = 0;
  issubsystemup = true;
  link = record { link_up = false; port_state = disconnected; registered = false };
}

abbrev fresh_file : FileCtx
fresh_file = record { cid = some 3; sctx = true; ssrcount = 0; refcount = false }

-- The link comes up and the port connects, or is disconnected before it could.
abbrev in_time : ChannelGiven
in_time = record {
  notify_handle = true;
  glink_handle = some 0xc000;
  smd_handle = none;
  work_events = link_state_up ∷ [];
  workport_events = glink_connected ∷ [];
  intent = λ ii. ok tt;
}

abbrev too_late : ChannelGiven
too_late = record in_time { workport_events = glink_local_disconnected ∷ [] }

abbrev no_maps : Maps
no_maps = record {
  cell = λ p. none;
  global = [];
  maps = λ f. [];
  sessions = λ f. record { sctx = some no_session; secsctx = none };
  held = record { regions = 0; handles = 0; bufs = 0; attaches = 0; tables = 0; mapped = 0 };
}

abbrev willing : Host
willing = record {
  invoke = λ call. ok 0;
  scm_call2 = λ call. ok tt;
  assign = λ phys size there. true;
  tgid = 100;
  compat = false;
}

abbrev alone : System
alone = record { ctx = closed; files = fresh_file ∷ [] }

alone-IsUsedBy : IsUsedBy alone (0, 0)
alone-IsUsedBy = record {
  count = refl;
  agrees = refl;
  small = omega arith;
  past = ((λ marked. ground (arith, marked)), tt);
}

abbrev first_try : Opening
first_try = tried true in_time willing true no_maps fresh_file closed

opens_in_time : (handle : ℕ) × (first_try.ctx.chan ≡ some handle)
unfolding channel_open take_reference open_first connect glink_register wait_work glink_open settle
    wait_workport handle_all handle smd_event_handler glink_notify_state link_state_handler
    forget_heap
opens_in_time = (0xc000, refl)

Step-Use_example :
    (w : ℕ × ℕ) × Use (0, 0) w
    × IsUsedBy (record { ctx = first_try.ctx; files = first_try.fl ∷ [] }) w
Step-Use_example = Step-Use alone-IsUsedBy (
    Step.opens [] [] fresh_file in_time willing true no_maps refl refl (omega arith)
      (inr opens_in_time))

-- The file opens the channel again, and is closed: the channel stays open without a user.
abbrev again : Opening
again = tried true in_time willing true no_maps first_try.fl first_try.ctx

repeated_stays_open :
    (again.ctx.kref ≡ 2)
    × ((release_channel true 3 again.fl again.ctx).chan ≡ some 0xc000)
    × ((release_channel true 3 again.fl again.ctx).kref ≡ 1)
unfolding channel_open take_reference open_first connect glink_register wait_work glink_open settle
    wait_workport handle_all handle smd_event_handler glink_notify_state link_state_handler
    forget_heap release_channel put_channel
repeated_stays_open = (refl, refl, refl)

abbrev failed_try : Opening
failed_try = tried true too_late willing true no_maps fresh_file closed

abbrev second_try : Opening
second_try = tried true in_time willing true no_maps fresh_file failed_try.ctx

failed_open_closes_example :
    (is_user second_try.ctx failed_try.fl ≡ true)
    × (is_user second_try.ctx second_try.fl ≡ true)
    × ((release_channel true 3 failed_try.fl second_try.ctx).chan ≡ none)
unfolding channel_open take_reference open_first connect glink_register wait_work glink_open settle
    wait_workport handle_all handle smd_event_handler glink_notify_state link_state_handler
    forget_heap
failed_open_closes_example =
    failed_open_closes true too_late in_time willing true 3 no_maps fresh_file fresh_file closed
      failed (refl, refl) (refl, refl) (omega arith) (λ z. refl) (λ ii. refl) refl
      (refl, omega arith) (refl, (0xc000, refl))
