-- ===== src/Session/Info.antt =====
-- What `fastrpc_get_info` lets a file reach, and what a failed call leaves behind.
use mathlib.Core.Path.{subst}
use reasoned_soc.Prelude.{
  get_or, All, ℕ, ◌≤◌, ◌<◌, ◌≡◌, refl, sym, ap, ◌≢◌, ◌⊎◌, Bool, true, false, none, some, List, [],
  ◌∷◌, arith,
}
use reasoned_soc.Errno.{Errno, Result, failed, err, ok}
use reasoned_soc.Session.{
  Channel, session_alloc_locked, FileBinding, num_channels, no_channel, report_info, bind_channel,
  get_info,
}

-- A file that is not bound yet and was opened on the node that is not secure never gets at a
-- channel that is restricted to the secure node: if the call succeeds, then the file is bound to
-- the channel that it asked for, that channel exists and is not restricted, and the file has a
-- session.
pub get_info_node :
    (dev enabled : Bool) (fl fl' : FileBinding) (chans chans' : List Channel) (info : ℕ)
    → fl.cid ≡ none
    → fl.secure_node ≡ false
    → get_info dev fl chans info ≡ (ok enabled, fl', chans')
    → (info < num_channels)
      × ((get_or chans info no_channel).secure ≡ false)
      × (fl'.cid ≡ some info)
      × (fl'.sctx ≢ none)
unfolding get_info bind_channel report_info
get_info_node dev enabled fl fl' chans chans' info free node h = ground arith

-- A call that is refused before the file is bound (no such channel, or a restricted one asked for
-- from the other node) changes neither the file nor a channel.
pub get_info_refused :
    (dev : Bool) (fl : FileBinding) (chans : List Channel) (info : ℕ)
    → fl.cid ≡ none
    → ((num_channels ≤ info)
        ⊎ ((fl.secure_node ≡ false) × ((get_or chans info no_channel).secure ≡ true)))
    → ((get_info dev fl chans info).0 ≢ ok false)
      × ((get_info dev fl chans info).0 ≢ ok true)
      × ((get_info dev fl chans info).1 ≡ fl)
      × ((get_info dev fl chans info).2 ≡ chans)
unfolding get_info
get_info_refused dev fl chans info free h = ground arith

-- The results of later calls for a file, each with `me->dev`, the channels at that time and the channel
-- that is asked for.
unfoldable pub get_infos : FileBinding → List (Bool × List Channel × ℕ) → List (Result Bool)
get_infos fl [] = []
get_infos fl ((dev, chans, info) ∷ calls) =
    let (r, fl', chans') = get_info dev fl chans info in r ∷ get_infos fl' calls

IsBound-fails :
    (cid : ℕ) (fl : FileBinding) (calls : List (Bool × List Channel × ℕ))
    → fl.cid ≡ some cid
    → fl.sctx ≡ none
    → All (λ r. r ≡ err failed) (get_infos fl calls)
unfolding get_infos get_info report_info
IsBound-fails cid fl [] bound empty = tt
IsBound-fails cid fl ((dev, chans, info) ∷ calls) bound empty =
    let run : get_info dev fl chans info ≡ (err failed, fl, chans) =
      simp (get_info, bound, report_info, empty) refl in
    (
      ap (λ x. x.0) run,
      subst (λ g. All (λ r. r ≡ err failed) (get_infos g calls)) (sym (ap (λ x. x.1) run))
          (IsBound-fails cid fl calls bound empty),
    )

-- Let a file that is not bound and has no session ask for a channel that exists and that it may use, and let that channel
-- have no session for it. Then the call fails, and the file is bound to the channel without a
-- session: every call of every sequence of later calls fails, whatever they ask for and whatever
-- sessions have become free since.
pub get_info_stuck :
    (dev : Bool) (fl : FileBinding) (chans : List Channel) (info : ℕ) (e : Errno)
    (calls : List (Bool × List Channel × ℕ))
    → fl.cid ≡ none
    → fl.sctx ≡ none
    → info < num_channels
    → (fl.secure_node ≡ true) ⊎ ((get_or chans info no_channel).secure ≡ false)
    → session_alloc_locked dev (get_or chans info no_channel) false fl.sharedcb ≡ err e
    → let (r, fl', chans') = get_info dev fl chans info in
      (r ≡ err failed)
      × (fl'.cid ≡ some info)
      × (fl'.sctx ≡ none)
      × All (λ r. r ≡ err failed) (get_infos fl' calls)
unfolding get_info bind_channel report_info
get_info_stuck dev fl chans info e calls free empty lt allowed busy =
    let first = get_info dev fl chans info in
    let failed_first : first.0 ≡ err failed = ground (arith, busy) in
    let bound : first.1.cid ≡ some info = ground (arith, busy) in
    let none_there : first.1.sctx ≡ none = ground (arith, busy) in
    (failed_first, bound, none_there, IsBound-fails info first.1 calls bound none_there)
