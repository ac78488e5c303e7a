-- ===== src/Channel/Refines.antt =====
-- Each step of a channel of android/adsprpc.c is a step of its contract.
use reasoned_soc.Prelude.{
  ◌==◌, if◌then◌else◌, Bool-cases, Option-cases, All, ℕ, ◌+◌, ◌-◌, ◌%◌, ◌^◌, ◌<◌, ◌≡◌, refl, sym,
  ap, ◌∙◌, inl, inr, Bool, none, List, ◌∷◌, ◌++◌, arith,
}
use reasoned_soc.Channel.{ChannelCtx, FileCtx, handle}
use reasoned_soc.Channel.Open.{glink_close, channel_close, put_channel}
use reasoned_soc.Channel.Kept.{handle-SameUse}
use reasoned_soc.Channel.Users.{
  is_user, count_user, users, release_channel, System, IsOpen, tried, Step, Use, Agrees, IsUsedBy,
  users-++, users_same, users_restarted, All-split, All-join,
}
use reasoned_soc.Channel.Contract.{tried-IsTried}
use reasoned_soc.Channel.Restart.{shut_down}
use reasoned_soc.Channel.Joined.{Past, Past-same, Past-later, same-IsUsedBy, kref_zero, opens-Use}
use mathlib.Core.Path.{subst}

put_channel-kept :
    (glink : Bool) (cid : ℕ) (c : ChannelCtx)
    → 0 < c.kref
    → c.kref < 2 ^ 32
    → let d = put_channel glink cid c in
      (d.ssrcount ≡ c.ssrcount)
      × (d.kref ≡ c.kref - 1)
      × (d.chan ≡ (if c.kref - 1 == 0 then none else c.chan))
unfolding put_channel channel_close glink_close
put_channel-kept glink cid c pos small =
    let left : (c.kref + (2 ^ 32 - 1)) % 2 ^ 32 ≡ c.kref - 1 = omega arith in ground (arith, left)

-- The files that are left when one is closed.
without-file :
    (s : System) (u : ℕ × ℕ) (pre post : List FileCtx) (f : FileCtx)
    → IsUsedBy s u
    → s.files ≡ pre ++ f ∷ post
    → (count_user s.ctx f + users s.ctx (pre ++ post) ≡ u.0) × All (Past s.ctx) (pre ++ post)
without-file s u pre post f v split =
    let c = s.ctx in
    let (past_pre, past_f, past_post) =
      All-split (Past c) pre post f (subst (All (Past c)) split v.past) in
    let whole : users c (pre ++ f ∷ post) ≡ u.0 = sym (ap (users c) split) ∙ v.count in
    (
      omega (arith, whole, users-++ c pre (f ∷ post), users-++ c pre post),
      All-join (Past c) pre post past_pre past_post,
    )

in_use :
    (s : System) (u : ℕ × ℕ)
    → IsUsedBy s u
    → 0 < u.0 + u.1
    → (s.ctx.kref ≡ u.0 + u.1) × IsOpen s.ctx
in_use s u v pos = elim (Option-cases s.ctx.chan) [
  | inl e ↦ ground (arith, (rw e at v.agrees), pos)
  | inr (handle, e) ↦ ((rw e at v.agrees).0, (handle, e))
]

Agrees-less :
    (s : System) (d : ChannelCtx) (u : ℕ × ℕ) (left : ℕ)
    → IsUsedBy s u
    → left + 1 ≡ u.0 + u.1
    → d.kref ≡ s.ctx.kref - 1
    → d.chan ≡ (if s.ctx.kref - 1 == 0 then none else s.ctx.chan)
    → Agrees d.chan d.kref left
Agrees-less s d u left v more one_less shut =
    let (counted, (handle, there)) = in_use s u v (omega (arith, more)) in
    elim (Bool-cases (s.ctx.kref - 1 == 0)) [
      | inl z ↦
          let gone : d.chan ≡ none = rw z at shut in
          subst (λ h. Agrees h d.kref left) (sym gone) (ground (arith, z, counted, more))
      | inr some_left ↦
          let kept : d.chan ≡ s.ctx.chan = rw some_left at shut in
          subst (λ h. Agrees h d.kref left) (sym (kept ∙ there))
            (omega (arith, one_less, counted, more), ground (arith, some_left, counted, more))
    ]

closes-Use :
    (glink : Bool) (cid : ℕ) (s : System) (u : ℕ × ℕ) (pre post : List FileCtx) (f : FileCtx)
    → IsUsedBy s u
    → s.files ≡ pre ++ f ∷ post
    → (t : ℕ × ℕ) × Use u t
      × IsUsedBy (record { ctx = release_channel glink cid f s.ctx; files = pre ++ post }) t
unfolding release_channel
closes-Use glink cid s u pre post f v split =
    let (count, past) = without-file s u pre post f v split in
    elim (Bool-cases (is_user s.ctx f)) [
      | inr e ↦ (
        u,
        Use.stays u.0 u.1,
        rw (release_channel, e)
            (record {
              count = omega (arith, (rw e at count));
              agrees = v.agrees;
              small = v.small;
              past = past;
            }),
      )
      | inl e ↦
          let k = u.1 in
          let rest = users s.ctx (pre ++ post) in
          let more : rest + 1 ≡ u.0 = omega (arith, (rw e at count)) in
          let total : rest + k + 1 ≡ u.0 + k = omega (arith, more) in
          let d = put_channel glink cid s.ctx in
          let counted : s.ctx.kref ≡ u.0 + k = (in_use s u v (omega (arith, more))).0 in
          let (restarts, left, shut) =
            put_channel-kept glink cid s.ctx (omega (arith, counted, more)) v.small in
          (
            (rest, k),
            subst (λ n. Use (n, k) (rest, k)) more (Use.leaves rest k),
            rw (release_channel, e)
                (record {
                  count = users_same s.ctx d (pre ++ post) restarts;
                  agrees = Agrees-less s d u (rest + k) v total left shut;
                  small = omega (arith, left, v.small);
                  past = Past-same s.ctx d (pre ++ post) restarts past;
                }),
          )
    ]

shut_down-kept :
    (glink : Bool) (cid : ℕ) (c : ChannelCtx)
    → let d = shut_down glink cid c in
      (d.ssrcount ≡ c.ssrcount + 1) × (d.kref ≡ c.kref) × (d.chan ≡ none)
unfolding shut_down channel_close glink_close
shut_down-kept glink cid c = ground arith

shuts-Use :
    (glink : Bool) (cid : ℕ) (s : System) (u : ℕ × ℕ)
    → IsUsedBy s u
    → IsUsedBy (record s { ctx = shut_down glink cid s.ctx }) (0, 0)
shuts-Use glink cid s u v =
    let d = shut_down glink cid s.ctx in
    let (restarts, same, shut) = shut_down-kept glink cid s.ctx in
    record {
      count = users_restarted s.ctx d s.files v.past restarts;
      agrees = subst (λ h. Agrees h d.kref 0) (sym shut) refl;
      small = omega (arith, same, v.small);
      past = Past-later s.ctx d s.files (omega (arith, restarts)) v.past;
    }

-- Let a channel be open exactly while the number of its users plus the number of references taken by
-- files that were users already is positive, and let an open one count that many references; let
-- no file have seen more restarts than the channel, and let there be room for one more reference
-- where a file opens. Then the same holds behind every step of the channel, and the contract allows
-- the change: an opening that ends with an open channel lets the file join, or, if
-- it is a user, for instance one that starts a second process, takes one more reference that nobody
-- puts; an opening that is refused before it takes a reference changes nothing; the closing of a
-- file lets it leave if it is a user; at a restart all leave; a callback changes nothing. An opening
-- that fails behind the mark and leaves the channel closed is not among the steps.
pub Step-Use :
    {glink : Bool} {cid : ℕ} {s t : System} {u : ℕ × ℕ}
    → IsUsedBy s u
    → Step glink cid s t
    → (w : ℕ × ℕ) × Use u w × IsUsedBy t w
Step-Use {s = s} {u = u} v (Step.arrives f fresh) = (
  u,
  Use.stays u.0 u.1,
  record {
    count = ground (arith, fresh, v.count);
    agrees = v.agrees;
    small = v.small;
    past = ((λ marked. ground (arith, fresh, marked)), v.past);
  },
)
Step-Use {glink} {cid} {s} {u = u} v
      (Step.opens pre post f g host dev maps split bound small settled) =
    opens-Use s u pre post f (tried glink g host dev maps f s.ctx) v split small
      (tried-IsTried glink g host dev cid maps f s.ctx bound small (kref_zero s u v)) settled
Step-Use {glink} {cid} {s} {u = u} v (Step.closes pre post f split) =
    closes-Use glink cid s u pre post f v split
Step-Use {glink} {cid} {s} {u = u} v Step.shuts_down =
    ((0, 0), Use.resets u.0 u.1, shuts-Use glink cid s u v)
Step-Use {s = s} {u = u} v Step.powers_up =
    (u, Use.stays u.0 u.1, same-IsUsedBy s _ u (refl, refl, refl) v)
Step-Use {s = s} {u = u} v (Step.happens e) =
    (u, Use.stays u.0 u.1, same-IsUsedBy s (handle e s.ctx) u (handle-SameUse e s.ctx) v)
