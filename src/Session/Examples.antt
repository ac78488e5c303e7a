-- ===== src/Session/Examples.antt =====
-- The session theorems at a channel with a private and a shared session.
use reasoned_soc.Prelude.{
  set, All, ℕ, ◌<◌, ◌≡◌, refl, ◌≢◌, ◌↔◌, inr, Bool, true, false, none, some, List, [], ◌∷◌, arith,
}
use reasoned_soc.Errno.{failed, err, ok}
use reasoned_soc.Session.{
  Session, Channel, no_session, fits, find_session, session_alloc_locked, session_free, FileBinding,
  num_channels, get_info,
}
use reasoned_soc.Session.Alloc.{
  session_at, IsAllocated, session_alloc_locked_lem, session_alloc_locked_fails,
}
use reasoned_soc.Session.Owners.{
  Users, assign, Reach, IsExclusive, Reach-IsExclusive, takes, here, next,
}
use reasoned_soc.Session.Shared.{session_alloc_shared}
use reasoned_soc.Session.Info.{get_info_node, get_info_refused, get_infos, get_info_stuck}

abbrev private_one : Session
private_one = no_session

abbrev shared_one : Session
shared_one = record no_session { sharedcb = true }

abbrev cdsp : Channel
cdsp = record {
  session = private_one ∷ shared_one ∷ [];
  sesscount = 2;
  ssrcount = 0;
  secure = false;
}

abbrev cdsp_taken : Channel
cdsp_taken = record cdsp { session = record private_one { used = true } ∷ shared_one ∷ [] }

abbrev cdsp_full : Channel
cdsp_full = record cdsp {
  session = record private_one { used = true } ∷ record shared_one { used = true } ∷ [];
}

session_alloc_locked_lem_example : IsAllocated cdsp cdsp_taken false false 0
unfolding session_alloc_locked find_session
session_alloc_locked_lem_example =
    session_alloc_locked_lem true cdsp cdsp_taken false false 0 (omega arith) refl

session_alloc_locked_fails_example :
    (session_alloc_locked true cdsp_full false false ≡ err failed)
    ↔ ((i : ℕ) → i < 2 → fits false false (session_at cdsp_full i) ≡ false)
session_alloc_locked_fails_example =
    session_alloc_locked_fails true cdsp_full false false (omega arith) (omega arith)

abbrev nobody : Users
nobody = record { chan = cdsp; holds = λ h. none }

nobody-IsExclusive : IsExclusive nobody
nobody-IsExclusive = record {
  counted = omega arith;
  marked = λ h i e. cc;
  distinct = λ g h i e f. cc;
}

abbrev somebody : Users
somebody = record { chan = cdsp_taken; holds = assign (λ h. none) 7 (some 0) }

one_taken : Reach true nobody somebody
unfolding session_alloc_locked find_session
one_taken = next here (takes 7 false refl refl)

Reach-IsExclusive_example : IsExclusive somebody
Reach-IsExclusive_example = Reach-IsExclusive nobody-IsExclusive one_taken

session_alloc_shared_example :
    (chan : Channel) × (session_alloc_locked true (session_free cdsp_full 1) false false
      ≡ ok (1, chan))
unfolding session_alloc_locked find_session
session_alloc_shared_example =
    session_alloc_shared true cdsp_full cdsp_full true 1 (omega arith) refl refl
      (λ i h. let e : i ≡ 0 = omega arith in rw e refl)

abbrev opened : FileBinding
opened = record { cid = none; sctx = none; sharedcb = false; ssrcount = 0; secure_node = false }

abbrev chans : List Channel
chans =
    record cdsp { secure = true }
    ∷ record cdsp { secure = true }
    ∷ record cdsp { secure = true }
    ∷ cdsp
    ∷ []

abbrev bound : FileBinding
bound = record opened { cid = some 3; sctx = some 0 }

get_info_node_example :
    (3 < num_channels) × (cdsp.secure ≡ false) × (bound.cid ≡ some 3) × (bound.sctx ≢ none)
unfolding get_info session_alloc_locked find_session
get_info_node_example =
    get_info_node true false opened bound chans (set chans 3 cdsp_taken) 3 refl refl refl

get_info_refused_example :
    ((get_info true opened chans 0).0 ≢ ok false)
    × ((get_info true opened chans 0).0 ≢ ok true)
    × ((get_info true opened chans 0).1 ≡ opened)
    × ((get_info true opened chans 0).2 ≡ chans)
get_info_refused_example = get_info_refused true opened chans 0 refl (inr (refl, refl))

abbrev full_chans : List Channel
full_chans = cdsp_full ∷ cdsp_full ∷ cdsp_full ∷ cdsp_full ∷ []

abbrev later_calls : List (Bool × List Channel × ℕ)
later_calls = (true, chans, 3) ∷ (true, chans, 0) ∷ (true, full_chans, 9) ∷ []

get_info_stuck_example :
    let (r, fl', chans') = get_info true opened full_chans 3 in
    (r ≡ err failed)
    × (fl'.cid ≡ some 3)
    × (fl'.sctx ≡ none)
    × All (λ r. r ≡ err failed) (get_infos fl' later_calls)
unfolding session_alloc_locked find_session
get_info_stuck_example =
    get_info_stuck true opened full_chans 3 failed later_calls refl refl (omega arith) (inr refl)
      refl
