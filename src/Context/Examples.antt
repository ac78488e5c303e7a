-- ===== src/Context/Examples.antt =====
-- A context of the file 1, and the operations on it.
use reasoned_soc.Prelude.{
  ◌==◌, if◌then◌else◌, get_elem?, ℕ, ◌≡◌, refl, ◌≢◌, true, none, some, List, [], ◌∷◌, arith,
}
use reasoned_soc.Errno.{failed, err, ok}
use reasoned_soc.Overlap.{Overlap}
use reasoned_soc.Context.{
  Ctx, Contexts, free_entry, ctxid_of, context_free, Request, new_ctx, enter_table, context_alloc,
  context_save_interrupted,
}
use reasoned_soc.Context.Invariant.{IsConsistent}
use reasoned_soc.Context.Response.{
  context_notify_user, deliver, Driver, notify_drivers, notify_pdr_drivers,
}
use reasoned_soc.Context.Interrupted.{context_restore_interrupted, context_list_dtor}
use reasoned_soc.Context.Alloc.{IsFresh, Outcome, context_alloc-Outcome, context_alloc_room}
use reasoned_soc.Context.Deliver.{header, deliver_sound, deliver-header, deliver_freed}
use reasoned_soc.Context.Runs.{initially, Reach, Reach-IsConsistent, allocates, started, next}
use reasoned_soc.Context.Wake.{notify_drivers_wakes, notify_pdr_drivers_wakes}
use reasoned_soc.Context.Signals.{IsResumed, restore_saved, context_list_dtor_empties}

abbrev as_given : List Overlap → List Overlap
as_given os = os

abbrev request : Request
request = record {
  fl = 1;
  tgid = 7;
  pid = 70;
  sc = 5;
  length = 0;
  nbufs = 0;
  lpra = [];
  fresh = some 0x12345;
  copied = true;
}

abbrev ctx : Ctx
ctx = record (new_ctx request []) { ctxid = 0x12000 }

abbrev one_call : Contexts
one_call = (context_alloc as_given request initially).1

request-IsFresh : IsFresh request initially
request-IsFresh p h = refl

-- one context has been allocated
run : Reach as_given one_call
run = next started (allocates request request-IsFresh)

one_call-live : one_call.cell 0x12345 ≡ some ctx
unfolding context_alloc enter_table free_entry ctxid_of
one_call-live = refl

one_call-entry : get_elem? one_call.table 0 ≡ some (some 0x12345)
unfolding context_alloc enter_table free_entry
one_call-entry = refl

Reach-IsConsistent_example : IsConsistent one_call
Reach-IsConsistent_example = Reach-IsConsistent run

-- the invariant for the other examples
ready : IsConsistent one_call
ready = Reach-IsConsistent run

context_alloc-Outcome_example : Outcome request initially (context_alloc as_given request initially)
context_alloc-Outcome_example =
    context_alloc-Outcome as_given request initially (Reach-IsConsistent {sort = as_given} started)
      request-IsFresh

context_alloc_room_example :
    ((i : ℕ)
      → get_elem? initially.table i ≡ some none
      → (context_alloc as_given request initially).0 ≡ ok 0x12345)
    × (((i : ℕ) → get_elem? initially.table i ≢ some none)
        → (context_alloc as_given request initially).0 ≡ err failed)
context_alloc_room_example = context_alloc_room as_given request initially 0x12345 [] refl refl refl

delivered :
    deliver (record { ctx = 0x12001; retval = 9 }) one_call
    ≡ ok (context_notify_user 0x12345 9 one_call)
unfolding deliver context_alloc enter_table free_entry ctxid_of
delivered = refl

deliver_sound_example :
    (p : ℕ) × (c : Ctx) × (one_call.cell p ≡ some c)
    × (c.ctxid ≡ 0x12000)
    × ((context_notify_user 0x12345 9 one_call).cell p
        ≡ some (record c { retval = 9; completed = true }))
    × ((q : ℕ) → q ≢ p → (context_notify_user 0x12345 9 one_call).cell q ≡ one_call.cell q)
    × ((context_notify_user 0x12345 9 one_call).table ≡ one_call.table)
    × ((context_notify_user 0x12345 9 one_call).clst ≡ one_call.clst)
deliver_sound_example =
    deliver_sound (record { ctx = 0x12001; retval = 9 }) one_call
      (context_notify_user 0x12345 9 one_call) delivered

-- a context of the same page in the entry of one that was freed
deliver-header_example :
    deliver (record { ctx = header 0x12678 0 1; retval = 9 }) one_call
    ≡ ok (context_notify_user 0x12345 9 one_call)
deliver-header_example =
    deliver-header one_call 0x12678 0x12345 0 1 9 ready one_call-entry (omega arith)

deliver_freed_example :
    (get_elem? (context_free 0x12345 one_call).table 0 ≡ some none)
    × (deliver (record { ctx = header 0x12345 0 1; retval = 9 }) (context_free 0x12345 one_call)
        ≡ err failed)
deliver_freed_example = deliver_freed one_call 0x12345 0 1 9 ready one_call-entry (omega arith)

abbrev drivers : List Driver
drivers =
    record { fl = 2; cid = some 0; spdname = none }
    ∷ record { fl = 1; cid = some 3; spdname = some 8 }
    ∷ []

notify_drivers_wakes_example :
    (notify_drivers drivers 3 one_call).cell 0x12345 ≡ some (record ctx { completed = true })
notify_drivers_wakes_example =
    notify_drivers_wakes drivers 3 one_call 0x12345 ctx ready one_call-live

notify_pdr_drivers_wakes_example : (notify_pdr_drivers drivers 8 one_call).cell 0x12345 ≡ some ctx
notify_pdr_drivers_wakes_example =
    notify_pdr_drivers_wakes drivers 8 one_call 0x12345 ctx ready one_call-live

restore_saved_example :
    let saved = context_save_interrupted 0x12345 ctx one_call in
    let r = context_restore_interrupted 1 70 5 saved in
    (ctx.sc ≡ ctx.sc → (r.0 ≡ ok (some 0x12345)) × IsResumed 0x12345 ctx one_call r.1)
    × (ctx.sc ≢ ctx.sc → (r.0 ≡ err failed) × (r.1 ≡ saved))
restore_saved_example = restore_saved one_call 0x12345 ctx 5 ready one_call-live

context_list_dtor_empties_example :
    let t = context_list_dtor 1 one_call in
    ((t.clst 1).pending ≡ [])
    × ((t.clst 1).interrupted ≡ [])
    × ((p : ℕ) (c : Ctx)
        → one_call.cell p ≡ some c
        → t.cell p ≡ (if c.fl == 1 then none else some c))
context_list_dtor_empties_example = context_list_dtor_empties 1 one_call ready
