-- ===== src/Invoke/Examples.antt =====
-- A call of a process over a channel that is connected, and over one that is closed.
use reasoned_soc.Prelude.{◌≡◌, refl, true, false, none, some, [], arith}
use reasoned_soc.Errno.{failed, err, ok}
use reasoned_soc.Context.{
  Ctx, Contexts, free_entry, ctxid_of, context_free, new_ctx, enter_table, context_alloc,
}
use reasoned_soc.Context.Alloc.{IsUnchanged}
use reasoned_soc.Context.Invariant.{IsConsistent}
use reasoned_soc.Context.Interrupted.{find_pid, context_restore_interrupted}
use reasoned_soc.Context.Response.{deliver}
use reasoned_soc.Context.Runs.{initially, Reach-IsConsistent, allocates, started, next}
use reasoned_soc.Channel.{ChannelCtx, FileCtx, connected}
use reasoned_soc.Invoke.{
  Message, Call, message_of, invoke_send, prepare, launch, begin_new, begin_user, is_turned_away,
  begin_call, invoke_begin, result_of, check_restart, invoke_end,
}
use reasoned_soc.Invoke.Answered.{StillThere, invoke_answered}
use reasoned_soc.Invoke.Refused.{invoke_begin-refused}
use reasoned_soc.Pages.{buf_page_size}

abbrev call : Call
call = record {
  kernel = false;
  handle = 40;
  pd = 1;
  has_sessionid = false;
  faults = false;
  request = record {
    fl = 1;
    tgid = 100;
    pid = 101;
    sc = 0x300_0000;
    length = 0;
    nbufs = 0;
    lpra = [];
    fresh = some 0x7000;
    copied = true;
  };
  got_args = ok tt;
  buf_phys = 0;
  used = 0;
  glink_tx = λ m. ok tt;
  smd_write = λ m. true;
}

abbrev bound_file : FileCtx
bound_file = record { cid = some 3; sctx = true; ssrcount = 0; refcount = true }

abbrev connected_channel : ChannelCtx
connected_channel = record {
  chan = some 0xc000;
  work = 0;
  workport = 0;
  kref = 1;
  ssrcount = 0;
  prevssrcount = 0;
  issubsystemup = true;
  link = record { link_up = true; port_state = connected; registered = true };
}

abbrev begun : Contexts
begun = (invoke_begin (λ xs. xs) true call bound_file connected_channel initially).1

abbrev sent_message : Message
sent_message = record {
  pid = 100;
  tid = 101;
  ctx = 0x7001;
  handle = 40;
  sc = 0x300_0000;
  addr = 0;
  size = 0x1000;
}

call_sent :
    invoke_begin (λ xs. xs) true call bound_file connected_channel initially
    ≡ (ok (0x7000, some sent_message), begun)
unfolding buf_page_size invoke_begin begin_call is_turned_away begin_user
    context_restore_interrupted find_pid begin_new context_alloc enter_table free_entry ctxid_of
    launch prepare invoke_send message_of
call_sent = refl

-- The state in which the answer arrives.
abbrev arrived : Contexts
arrived = (context_alloc (λ xs. xs) call.request initially).1

arrived-IsConsistent : IsConsistent arrived
arrived-IsConsistent = Reach-IsConsistent (next started (allocates call.request λ p h. refl))

abbrev called : Ctx
called = record (new_ctx call.request []) { ctxid = 0x7000 }

called_live : arrived.cell 0x7000 ≡ some called
unfolding context_alloc enter_table free_entry ctxid_of
called_live = refl

called_still : StillThere 0x7000 begun arrived
unfolding invoke_begin begin_call is_turned_away begin_user context_restore_interrupted find_pid
    begin_new context_alloc enter_table free_entry ctxid_of launch prepare invoke_send message_of
called_still c d a b = ground (arith, a, b)

invoke_answered_example :
    let done = record called { retval = 7; completed = true } in
    (t : Contexts) × (deliver (record { ctx = 0x7001; retval = 7 }) arrived ≡ ok t)
    × (t.cell 0x7000 ≡ some done)
    × (invoke_end call bound_file connected_channel (ok tt) false 0x7000 t ≡ (
      check_restart bound_file connected_channel (result_of (ok tt) done),
      context_free 0x7000 t,
    ))
invoke_answered_example =
    invoke_answered (λ xs. xs) true call bound_file connected_channel connected_channel 0x7000 7
      sent_message initially begun arrived called (ok tt) call_sent (omega arith)
      arrived-IsConsistent called_live called_still

abbrev closed_channel : ChannelCtx
closed_channel = record connected_channel { chan = none }

abbrev turned_back : Contexts
turned_back = (invoke_begin (λ xs. xs) true call bound_file closed_channel initially).1

call_refused :
    invoke_begin (λ xs. xs) true call bound_file closed_channel initially
    ≡ (err failed, turned_back)
unfolding invoke_begin begin_call is_turned_away begin_user context_restore_interrupted find_pid
    begin_new context_alloc enter_table free_entry launch prepare invoke_send
call_refused = refl

invoke_begin-refused_example : IsUnchanged initially turned_back
invoke_begin-refused_example =
    invoke_begin-refused (λ xs. xs) true call bound_file closed_channel failed initially turned_back
      (Reach-IsConsistent {sort = λ xs. xs} started) (λ p h. refl) refl call_refused
