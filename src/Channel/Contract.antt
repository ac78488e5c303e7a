-- ===== src/Channel/Contract.antt =====
-- A channel of android/adsprpc.c keeps to its contract: it is open while someone uses it.
use reasoned_soc.Prelude.{
  ltb, ◌==◌, Bool-cases, Option-cases, ℕ, ◌+◌, ◌%◌, ◌^◌, ◌<◌, ◌≡◌, refl, sym, ap, ◌∙◌, ◌⊎◌, inl,
  inr, Bool, true, not, ◌&&◌, none, some, arith,
}
use reasoned_soc.Errno.{Errno, Result, Result-cases, failed, enotconn, err}
use reasoned_soc.Remote.{Host}
use reasoned_soc.Channel.Open.{
  ChannelGiven, connect, Opening, forget_heap, open_first, take_reference, channel_open,
}
use reasoned_soc.Channel.Kept.{SameUse, IsConnected, connect-IsConnected}
use reasoned_soc.Channel.Users.{IsOpen, tried}
use reasoned_soc.Channel.{ChannelCtx, FileCtx, handle}
use reasoned_soc.Mapping.{Maps}
use reasoned_soc.Session.{num_channels}
use mathlib.Core.Path.{subst}

forget_heap-SameUse :
    (host : Host) (dev : Bool) (cid : ℕ) (o : Opening)
    → ((forget_heap host dev cid o).fl ≡ o.fl) × SameUse o.ctx (forget_heap host dev cid o).ctx
unfolding forget_heap
forget_heap-SameUse host dev cid o =
    elim (Bool-cases ((cid == 0) && not (o.ctx.ssrcount == o.ctx.prevssrcount))) [
      | inl e ↦ rw (forget_heap, e) (refl, (refl, refl, refl))
      | inr e ↦ rw (forget_heap, e) (refl, (refl, refl, refl))
    ]

-- A file that got as far as taking a reference to a channel without a handle.
abbrev IsFirst : Opening → Opening → Type 0
IsFirst o t = (t.fl ≡ o.fl) × (t.ctx.ssrcount ≡ o.ctx.ssrcount) × (IsOpen t.ctx → t.ctx.kref ≡ 1)

open_first-IsFirst :
    (glink : Bool) (g : ChannelGiven) (host : Host) (dev : Bool) (cid : ℕ) (o : Opening)
    → o.ctx.chan ≡ none
    → IsFirst o (open_first glink g host dev cid o).1
unfolding open_first
open_first-IsFirst glink g host dev cid o shut =
    let r = (connect glink g cid o.ctx).0 in
    let c = (connect glink g cid o.ctx).1 in
    let all : IsConnected o.ctx (r, c) = connect-IsConnected glink g cid o.ctx in
    elim (Result-cases r) [
      | inl (e, h) ↦
          let (either, s) = subst (λ x. IsConnected o.ctx (x, c)) h all in
          rw (open_first, h) (refl, s, λ (handle, k). ground (arith, either, k, shut))
      | inr (done, h) ↦
          let (there, one, s) = subst (λ x. IsConnected o.ctx (x, c)) h all in
          let (a, (b, k, s')) = forget_heap-SameUse host dev cid (record o { ctx = c }) in
          rw (open_first, h) (a, s' ∙ s, λ opened. k ∙ one)
    ]

-- What an opening that ends with an open channel has done to the count of references.
abbrev pub IsReferenced : ChannelCtx → ChannelCtx → Type 0
IsReferenced c d = elim c.chan [
  | none ↦ d.kref ≡ 1
  | some handle ↦ (d.kref ≡ c.kref + 1) × (d.chan ≡ some handle)
]

-- The file was refused before it took anything, or it is marked as a user of the channel.
abbrev pub IsTried : FileCtx → ChannelCtx → Opening → Type 0
IsTried f c o =
    ((o.fl ≡ f) × (o.ctx ≡ c))
    ⊎ ((o.fl.refcount ≡ true)
        × (o.fl.ssrcount ≡ c.ssrcount)
        × (o.ctx.ssrcount ≡ c.ssrcount)
        × (IsOpen o.ctx → IsReferenced c o.ctx))

IsReferenced-first : (c d : ChannelCtx) → c.chan ≡ none → d.kref ≡ 1 → IsReferenced c d
IsReferenced-first c d closed one = ground (arith, closed, one)

take_reference-IsTried :
    (glink : Bool) (g : ChannelGiven) (host : Host) (dev : Bool) (cid : ℕ) (o : Opening)
    → o.ctx.kref + 1 < 2 ^ 32
    → (o.ctx.kref ≡ 0 → o.ctx.chan ≡ none)
    → IsTried o.fl o.ctx (take_reference glink g host dev cid o).1
unfolding take_reference
take_reference-IsTried glink g host dev cid o small shut =
    let fl = record o.fl { ssrcount = o.ctx.ssrcount; refcount = true } in
    elim (Bool-cases (o.ctx.kref == 0)) [
      | inl e ↦
          let closed = shut (ground (arith, e)) in
          let (a, s, one) = open_first-IsFirst glink g host dev cid (record o { fl = fl }) closed in
          rw (take_reference, e)
            (inr (
              ap (λ x. x.refcount) a,
              ap (λ x. x.ssrcount) a,
              s,
              λ h.
                  IsReferenced-first o.ctx
                    (open_first glink g host dev cid (record o { fl = fl })).1.ctx closed (one h),
            ))
      | inr e ↦
          let c = record o.ctx { kref = (o.ctx.kref + 1) % 2 ^ 32 } in
          elim (Option-cases o.ctx.chan) [
            | inl closed ↦
                let (a, s, one) =
                  open_first-IsFirst glink g host dev cid (record o { fl = fl; ctx = c }) closed in
                rw (take_reference, e, closed)
                  (inr (ap (λ x. x.refcount) a, ap (λ x. x.ssrcount) a, s, one))
            | inr (handle, there) ↦
                rw (take_reference, e, there)
                  (inr (refl, refl, refl, λ h. (omega (arith, small), there)))
          ]
    ]

pub tried-IsTried :
    (glink : Bool) (g : ChannelGiven) (host : Host) (dev : Bool) (cid : ℕ) (maps : Maps)
    (f : FileCtx) (c : ChannelCtx)
    → f.cid ≡ some cid
    → c.kref + 1 < 2 ^ 32
    → (c.kref ≡ 0 → c.chan ≡ none)
    → IsTried f c (tried glink g host dev maps f c)
unfolding channel_open
tried-IsTried glink g host dev cid maps f c bound small shut =
    let o : Opening = record { fl = f; ctx = c; maps = maps } in
    let refused : (e : Errno)
        → channel_open glink g host dev o ≡ (err e, o)
        → IsTried f c (tried glink g host dev maps f c) =
      λ e eq.
        subst (λ (x : Result (Unit {0}) × Opening). IsTried f c x.1) (sym eq) (inl (refl, refl)) in
    elim (Bool-cases f.sctx) [
      | inr e ↦ refused failed (simp (channel_open, e))
      | inl e ↦ elim (Bool-cases (ltb cid num_channels)) [
        | inr far ↦ refused failed (simp (channel_open, e, bound, far))
        | inl near ↦ elim (Bool-cases (not (c.ssrcount == c.prevssrcount) && not c.issubsystemup)) [
          | inl down ↦ refused enotconn (simp (channel_open, e, bound, near, down))
          | inr up ↦
              let run : channel_open glink g host dev o ≡ take_reference glink g host dev cid o =
                simp (channel_open, e, bound, near, up) in
              subst (λ (x : Result (Unit {0}) × Opening). IsTried f c x.1) (sym run)
                (take_reference-IsTried glink g host dev cid o small shut)
        ]
      ]
    ]
