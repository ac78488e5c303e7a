-- ===== src/Channel/Lost.antt =====
-- A failed opening of a channel in android/adsprpc.c, which leaves the file marked as a user.
use mathlib.Core.Path.{subst}
use reasoned_soc.Prelude.{
  ltb, ◌==◌, Bool-cases, Option-cases, ℕ, zero, suc, ◌+◌, ◌-◌, ◌%◌, ◌^◌, ◌<◌, ◌≡◌, refl, ap, inl,
  inr, Bool, true, false, not, ◌&&◌, none, some, arith,
}
use reasoned_soc.Mapping.{Maps}
use reasoned_soc.Remote.{Host}
use reasoned_soc.Channel.{num_intents, ChannelCtx, FileCtx, handle}
use reasoned_soc.Channel.Open.{
  ChannelGiven, channel_close, put_channel, connect, queue_intents, Opening, open_first,
  take_reference, channel_open,
}
use reasoned_soc.Channel.Users.{is_user, release_channel, IsOpen, tried}
use reasoned_soc.Channel.Contract.{IsReferenced, IsTried, tried-IsTried}
use reasoned_soc.Errno.{Errno, Result, Result-cases, err, ok}
use reasoned_soc.Channel.Kept.{IsConnected, connect-IsConnected}
use reasoned_soc.Session.{num_channels}

first-reference :
    (f : FileCtx) (c : ChannelCtx) (o : Opening)
    → f.refcount ≡ false
    → IsTried f c o
    → o.fl.refcount ≡ true
    → (o.fl.ssrcount ≡ c.ssrcount)
      × (o.ctx.ssrcount ≡ c.ssrcount)
      × (IsOpen o.ctx → IsReferenced c o.ctx)
first-reference f c o fresh (inl (same, x)) marked =
    ground (arith, marked, ap (λ g. g.refcount) same, fresh)
first-reference f c o fresh (inr (y, now, same, refs)) marked = (now, same, refs)

IsReferenced-closed : (c d : ChannelCtx) → c.chan ≡ none → IsReferenced c d → d.kref ≡ 1
IsReferenced-closed c d closed refs = rw closed at refs

last_release :
    (glink : Bool) (cid : ℕ) (f : FileCtx) (c : ChannelCtx)
    → is_user c f ≡ true
    → c.kref ≡ 1
    → (release_channel glink cid f c).chan ≡ none
unfolding release_channel put_channel channel_close
last_release glink cid f c user one =
    let left : (c.kref + (2 ^ 32 - 1)) % 2 ^ 32 ≡ 0 = omega (arith, one) in
    let zero_left : ((c.kref + (2 ^ 32 - 1)) % 2 ^ 32 == 0) ≡ true = ground (arith, left) in
    simp (release_channel, user, put_channel, zero_left)

-- The intents of a channel that was connected.
queued :
    (n ii : ℕ) (intent : ℕ → Result (Unit {0}))
    → ((jj : ℕ) → intent jj ≡ ok tt)
    → queue_intents n ii intent (ok tt) ≡ ok tt
unfolding queue_intents
queued zero ii intent all = refl
queued (suc n) ii intent all = rw (all ii) (queued n (ii + 1) intent all)

open_first-closed :
    (glink : Bool) (g : ChannelGiven) (host : Host) (dev : Bool) (cid : ℕ) (o : Opening) (e : Errno)
    → ((ii : ℕ) → g.intent ii ≡ ok tt)
    → o.ctx.chan ≡ none
    → (open_first glink g host dev cid o).0 ≡ err e
    → (open_first glink g host dev cid o).1.ctx.chan ≡ none
unfolding open_first
open_first-closed glink g host dev cid o e intents shut fails =
    let r = (connect glink g cid o.ctx).0 in
    let c = (connect glink g cid o.ctx).1 in
    let all : IsConnected o.ctx (r, c) = connect-IsConnected glink g cid o.ctx in
    elim (Result-cases r) [
      | inl (error, h) ↦
          let (either, s) = subst (λ x. IsConnected o.ctx (x, c)) h all in
          rw (open_first, h) (ground (arith, either, shut))
      | inr (done, h) ↦
          ground (arith, (rw (open_first, h) at fails), queued num_intents 0 g.intent intents)
    ]

take_reference-closed :
    (glink : Bool) (g : ChannelGiven) (host : Host) (dev : Bool) (cid : ℕ) (o : Opening) (e : Errno)
    → ((ii : ℕ) → g.intent ii ≡ ok tt)
    → (o.ctx.kref ≡ 0 → o.ctx.chan ≡ none)
    → (take_reference glink g host dev cid o).0 ≡ err e
    → (take_reference glink g host dev cid o).1.ctx.chan ≡ none
unfolding take_reference
take_reference-closed glink g host dev cid o e intents shut fails =
    let fl = record o.fl { ssrcount = o.ctx.ssrcount; refcount = true } in
    elim (Bool-cases (o.ctx.kref == 0)) [
      | inl z ↦
          rw (take_reference, z)
            (open_first-closed glink g host dev cid (record o { fl = fl }) e intents
              (shut (ground (arith, z))) (rw (take_reference, z) at fails))
      | inr z ↦
          let c = record o.ctx { kref = (o.ctx.kref + 1) % 2 ^ 32 } in
          elim (Option-cases o.ctx.chan) [
            | inl closed ↦
                rw (take_reference, z, closed)
                  (open_first-closed glink g host dev cid (record o { fl = fl; ctx = c }) e intents
                    closed (rw (take_reference, z, closed) at fails))
            | inr (handle, there) ↦ ground (arith, (rw (take_reference, z, there) at fails))
          ]
    ]

-- An opening that fails, but not by an intent, and has marked the file leaves the channel closed.
failed_open-closed :
    (glink : Bool) (g : ChannelGiven) (host : Host) (dev : Bool) (cid : ℕ) (o : Opening) (e : Errno)
    → ((ii : ℕ) → g.intent ii ≡ ok tt)
    → o.fl.cid ≡ some cid
    → o.fl.refcount ≡ false
    → (o.ctx.kref ≡ 0 → o.ctx.chan ≡ none)
    → (channel_open glink g host dev o).0 ≡ err e
    → (channel_open glink g host dev o).1.fl.refcount ≡ true
    → (channel_open glink g host dev o).1.ctx.chan ≡ none
unfolding channel_open
failed_open-closed glink g host dev cid o e intents bound fresh shut fails marked =
    elim (Bool-cases o.fl.sctx) [
      | inr a ↦ ground (arith, (rw (channel_open, a) at marked), fresh)
      | inl a ↦ elim (Bool-cases (ltb cid num_channels)) [
        | inr far ↦ ground (arith, (rw (channel_open, a, bound, far) at marked), fresh)
        | inl near ↦
            elim (Bool-cases
              (not (o.ctx.ssrcount == o.ctx.prevssrcount) && not o.ctx.issubsystemup)) [
                | inl down ↦
                    ground (arith, (rw (channel_open, a, bound, near, down) at marked), fresh)
                | inr up ↦
                    simp (channel_open, a, bound, near, up)
                      (take_reference-closed glink g host dev cid o e intents shut
                        (rw (channel_open, a, bound, near, up) at fails))
              ]
      ]
    ]

-- Let two files be on a channel that neither has opened, and let the channel be closed if its count of
-- references is 0. Let the opening by the first file fail behind the point where it is marked as a
-- user, but not by an intent, all of which can be queued; let the counts of references be below
-- their bound, and let the second file open the channel after that. Then both files count as users
-- of the channel, and closing the first one closes the channel.
pub failed_open_closes :
    (glink : Bool) (g h : ChannelGiven) (host : Host) (dev : Bool) (cid : ℕ) (maps : Maps)
    (f1 f2 : FileCtx) (c : ChannelCtx) (e : Errno)
    → (f1.cid ≡ some cid) × (f2.cid ≡ some cid)
    → (f1.refcount ≡ false) × (f2.refcount ≡ false)
    → c.kref + 1 < 2 ^ 32
    → (c.kref ≡ 0 → c.chan ≡ none)
    → ((ii : ℕ) → g.intent ii ≡ ok tt)
    → (channel_open glink g host dev (record { fl = f1; ctx = c; maps = maps })).0 ≡ err e
    → let o1 = tried glink g host dev maps f1 c in
      let o2 = tried glink h host dev maps f2 o1.ctx in
      (o1.fl.refcount ≡ true) × (o1.ctx.kref + 1 < 2 ^ 32)
      → (o2.fl.refcount ≡ true) × IsOpen o2.ctx
      → (is_user o2.ctx o1.fl ≡ true)
        × (is_user o2.ctx o2.fl ≡ true)
        × ((release_channel glink cid o1.fl o2.ctx).chan ≡ none)
failed_open_closes glink g h host dev cid maps f1 f2 c e (at1, at2) (fresh1, fresh2) small shut
      intents fails (marked1, small1) (marked2, open2) =
    let o1 = tried glink g host dev maps f1 c in
    let o2 = tried glink h host dev maps f2 o1.ctx in
    let none1 : o1.ctx.chan ≡ none =
      failed_open-closed glink g host dev cid (record { fl = f1; ctx = c; maps = maps }) e intents
        at1 fresh1 shut fails marked1 in
    let (now1, restarts1, refs1) =
      first-reference f1 c o1 fresh1 (tried-IsTried glink g host dev cid maps f1 c at1 small shut)
        marked1 in
    let (now2, restarts2, refs2) =
      first-reference f2 o1.ctx o2 fresh2
        (tried-IsTried glink h host dev cid maps f2 o1.ctx at2 small1 (λ z. none1)) marked2 in
    let one : o2.ctx.kref ≡ 1 = IsReferenced-closed o1.ctx o2.ctx none1 (refs2 open2) in
    let user1 : is_user o2.ctx o1.fl ≡ true = ground (arith, marked1, now1, restarts1, restarts2) in
    let user2 : is_user o2.ctx o2.fl ≡ true = ground (arith, marked2, now2, restarts2) in
    (user1, user2, last_release glink cid o1.fl o2.ctx user1 one)
