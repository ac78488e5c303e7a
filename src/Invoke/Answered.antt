-- ===== src/Invoke/Answered.antt =====
-- A call of android/adsprpc.c whose message is answered.
use reasoned_soc.Prelude.{
  Bool-cases, Option-cases, ℕ, ◌+◌, ◌<◌, ◌≡◌, sym, ap, ◌∙◌, inl, inr, Bool, true, false, Option,
  some, List, arith,
}
use reasoned_soc.Errno.{Result, Result-cases, ok}
use reasoned_soc.Context.{Ctx, Contexts, put, context_free, context_alloc}
use reasoned_soc.Channel.{ChannelCtx, FileCtx}
use reasoned_soc.Invoke.{
  Message, Call, message_of, invoke_send, prepare, launch, begin_new, begin_user, is_turned_away,
  begin_call, invoke_begin, result_of, check_restart, invoke_end,
}
use reasoned_soc.Context.Deliver.{header, deliver-header}
use reasoned_soc.Context.Invariant.{IsConsistent}
use reasoned_soc.Context.Interrupted.{context_restore_interrupted}
use reasoned_soc.Context.Response.{context_notify_user, deliver}
use reasoned_soc.Overlap.{Overlap}
use mathlib.Core.Path.{subst}

invoke_send-ok :
    (glink : Bool) (k : Call) (f : FileCtx) (chan : ChannelCtx) (c : Ctx) (m : Message)
    → invoke_send glink k f chan c ≡ ok m
    → message_of k c ≡ m
unfolding invoke_send
invoke_send-ok glink k f chan c m h = ground (arith, h)

prepare-ok :
    (glink : Bool) (k : Call) (f : FileCtx) (chan : ChannelCtx) (c : Ctx) (m : Message)
    → prepare glink k f chan c ≡ ok m
    → message_of k c ≡ m
unfolding prepare
prepare-ok glink k f chan c m h = ground (arith, h, invoke_send-ok glink k f chan c m)

-- The context that was waited for, with the message that was sent for it.
abbrev pub IsSent : Call → ℕ → Message → Contexts → Type 0
IsSent k p m s = (c : Ctx) × (s.cell p ≡ some c) × (m.ctx ≡ c.ctxid + k.pd)

launch-IsSent :
    (glink : Bool) (k : Call) (f : FileCtx) (chan : ChannelCtx) (q p : ℕ) (m : Message)
    (s t : Contexts)
    → launch glink k f chan q s ≡ (ok (p, some m), t)
    → IsSent k p m t
unfolding launch message_of
launch-IsSent glink k f chan q p m s t h = elim (Option-cases (s.cell q)) [
  | inl e ↦ ground (arith, (rw (launch, e) at h))
  | inr (c, e) ↦ elim (Result-cases (prepare glink k f chan c)) [
    | inl (d, r) ↦ ground (arith, (rw (launch, e, r) at h))
    | inr (n, r) ↦
        let h' = rw (launch, e, r) at h in
        let q_eq : q ≡ p = ground (arith, h') in
        let n_eq : n ≡ m = ground (arith, h') in
        let sent = prepare-ok glink k f chan c n r in
        let t_eq : record s { cell = put s.cell q (some (record c { msg_pid = n.pid })) } ≡ t =
          ground (arith, h') in
        subst (λ (u : Contexts). IsSent k p m u) t_eq
          (record c { msg_pid = n.pid }, ground (arith, q_eq), ap (λ x. x.ctx) (sym (sent ∙ n_eq)))
  ]
]

begin_new-IsSent :
    (sort : List Overlap → List Overlap) (glink : Bool) (k : Call) (f : FileCtx) (chan : ChannelCtx)
    (p : ℕ) (m : Message) (s t : Contexts)
    → begin_new sort glink k f chan s ≡ (ok (p, some m), t)
    → IsSent k p m t
unfolding begin_new
begin_new-IsSent sort glink k f chan p m s t h =
    elim (Result-cases (context_alloc sort k.request s).0) [
      | inl (e, r) ↦ ground (arith, (rw (begin_new, r) at h))
      | inr (q, r) ↦
          launch-IsSent glink k f chan q p m (context_alloc sort k.request s).1 t
            (rw (begin_new, r) at h)
    ]

begin_user-IsSent :
    (sort : List Overlap → List Overlap) (glink : Bool) (k : Call) (f : FileCtx) (chan : ChannelCtx)
    (p : ℕ) (m : Message) (s t : Contexts)
    → begin_user sort glink k f chan s ≡ (ok (p, some m), t)
    → IsSent k p m t
unfolding begin_user
begin_user-IsSent sort glink k f chan p m s t h =
    let x = context_restore_interrupted k.request.fl k.request.pid k.request.sc s in
    elim (Result-cases x.0) [
      | inl (e, r) ↦ ground (arith, (rw (begin_user, r) at h))
      | inr (o, r) ↦ elim (Option-cases o) [
        | inr (q, w) ↦ ground (arith, (rw (begin_user, r, w) at h))
        | inl w ↦ elim (Bool-cases k.faults) [
          | inl bad ↦ ground (arith, (rw (begin_user, r, w, bad) at h))
          | inr fine ↦
              let run : begin_user sort glink k f chan s ≡ begin_new sort glink k f chan x.1 =
                simp (begin_user, r, w, fine) in
              begin_new-IsSent sort glink k f chan p m x.1 t (sym run ∙ h)
        ]
      ]
    ]

begin_call-IsSent :
    (sort : List Overlap → List Overlap) (glink : Bool) (k : Call) (f : FileCtx) (chan : ChannelCtx)
    (p : ℕ) (m : Message) (s t : Contexts)
    → begin_call sort glink k f chan s ≡ (ok (p, some m), t)
    → IsSent k p m t
unfolding begin_call
begin_call-IsSent sort glink k f chan p m s t h = elim (Bool-cases (is_turned_away k f)) [
  | inl away ↦ ground (arith, (rw (begin_call, away) at h))
  | inr fine ↦ elim (Bool-cases k.kernel) [
    | inl e ↦
        let run : begin_call sort glink k f chan s ≡ begin_new sort glink k f chan s =
          simp (begin_call, fine, e) in
        begin_new-IsSent sort glink k f chan p m s t (sym run ∙ h)
    | inr e ↦
        let run : begin_call sort glink k f chan s ≡ begin_user sort glink k f chan s =
          simp (begin_call, fine, e) in
        begin_user-IsSent sort glink k f chan p m s t (sym run ∙ h)
  ]
]

invoke_begin-ok :
    (sort : List Overlap → List Overlap) (glink : Bool) (k : Call) (f : FileCtx) (chan : ChannelCtx)
    (p : ℕ) (m : Option Message) (s t : Contexts)
    → invoke_begin sort glink k f chan s ≡ (ok (p, m), t)
    → begin_call sort glink k f chan s ≡ (ok (p, m), t)
unfolding invoke_begin
invoke_begin-ok sort glink k f chan p m s t h =
    let x = begin_call sort glink k f chan s in
    elim (Result-cases x.0) [
      | inl (e, r) ↦ ground (arith, (rw (invoke_begin, r) at h))
      | inr (begun, r) ↦ let h' = rw (invoke_begin, r) at h in ap (λ y. (y, x.1)) r ∙ h'
    ]

-- A later state in which the context `p` is still the one of `s`.
abbrev pub StillThere : ℕ → Contexts → Contexts → Type 0
StillThere p s t = (c d : Ctx) → s.cell p ≡ some c → t.cell p ≡ some d → d.ctxid ≡ c.ctxid

-- Let a call of any kind have sent a message, and let the state be a consistent one at any later
-- time, in which the context of the call is live and has kept its identifier. A response with the word
-- that the message carried is accepted, completes that context, and lets the call return: its result
-- is the value of the response, or the outcome of the copies back where that is 0, or ECONNRESET if
-- the channel has restarted by then; its context is freed.
pub invoke_answered :
    (sort : List Overlap → List Overlap) (glink : Bool) (k : Call) (f : FileCtx) (chan : ChannelCtx)
    (later : ChannelCtx) (p retval : ℕ) (m : Message) (s sent now : Contexts) (d : Ctx)
    (put_args : Result (Unit {0}))
    → invoke_begin sort glink k f chan s ≡ (ok (p, some m), sent)
    → k.pd < 4
    → IsConsistent now
    → now.cell p ≡ some d
    → StillThere p sent now
    → let done = record d { retval = retval; completed = true } in
      (t : Contexts) × (deliver (record { ctx = m.ctx; retval = retval }) now ≡ ok t)
      × (t.cell p ≡ some done)
      × (invoke_end k f later put_args false p t
          ≡ (check_restart f later (result_of put_args done), context_free p t))
unfolding context_notify_user invoke_end
invoke_answered sort glink k f chan later p retval m s sent now d put_args begun low v live still =
    let (c, live_c, word) =
      begin_call-IsSent sort glink k f chan p m s sent
        (invoke_begin-ok sort glink k f chan p (some m) s sent begun) in
    let (i, at) = v.entered p d live in
    let (d', live', id, magic) = v.entries i p at in
    let same_d : d' ≡ d = ground (arith, live', live) in
    let word' : m.ctx ≡ header p i k.pd =
      word
      ∙ ap (λ w. w + k.pd) (sym (still c d live_c live) ∙ ap (λ x. x.ctxid) (sym same_d) ∙ id) in
    let t = context_notify_user p retval now in
    let there : t.cell p ≡ some (record d { retval = retval; completed = true }) =
      rw (context_notify_user, live) (ground arith) in
    (
      t,
      ap (λ w. deliver (record { ctx = w; retval = retval }) now) word'
          ∙ deliver-header now p p i k.pd retval v at low
          ∙ ground arith,
      there,
      simp (invoke_end, there),
    )
