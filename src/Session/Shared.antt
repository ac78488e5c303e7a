-- ===== src/Session/Shared.antt =====
-- A context bank that two files share, after one of them is closed.
use reasoned_soc.Prelude.{
  length, set, get_or, length-set, get_or-set_self, get_or-set_ne, ℕ, zero, suc, ◌+◌, ◌<◌, ◌≡◌, ap,
  ◌∙◌, Bool, true, false, some, List, [], ◌∷◌, arith,
}
use reasoned_soc.Errno.{ok}
use reasoned_soc.Session.{
  Session, Channel, no_session, fits, find_session, session_alloc_locked, session_free,
}
use reasoned_soc.Session.Alloc.{session_at, session_alloc_locked_lem}

find_session-first :
    (secure sharedcb : Bool) (idx count : ℕ) (ss : List Session) (k : ℕ)
    → k < count
    → k < length ss
    → ((i : ℕ) → i < k → fits secure sharedcb (get_or ss i no_session) ≡ false)
    → fits secure sharedcb (get_or ss k no_session) ≡ true
    → find_session secure sharedcb idx count ss ≡ some (idx + k)
unfolding find_session
find_session-first secure sharedcb idx count [] k lt lt' before hit = absurd (omega arith)
find_session-first secure sharedcb idx zero (s ∷ ss) k lt lt' before hit = absurd (omega arith)
find_session-first secure sharedcb idx (suc count) (s ∷ ss) zero lt lt' before hit =
    rw hit (ap some (omega arith))
find_session-first secure sharedcb idx (suc count) (s ∷ ss) (suc k) lt lt' before hit =
    rw (before 0 (omega arith)) (
      find_session-first secure sharedcb (idx + 1) count ss k (omega arith) (omega arith)
        (λ i h. before (suc i) (omega arith)) hit
      ∙ ap some (omega arith))

-- Let a file hold a shared session `k`, and let a second file ask for a shared one, be given `k`
-- too, and be closed, which frees its session. If a private session is then asked for, with the
-- security of `k`, and no session with a smaller index fits, the request is granted with `k`, which
-- the first file still holds.
pub session_alloc_shared :
    (dev : Bool) (chan chan' : Channel) (secure : Bool) (k : ℕ)
    → 0 < chan.sesscount
    → (session_at chan k).used ≡ true
    → session_alloc_locked dev chan secure true ≡ ok (k, chan')
    → ((i : ℕ) → i < k → fits (session_at chan k).secure false (session_at chan i) ≡ false)
    → (chan'' : Channel) × (session_alloc_locked dev
          (session_free chan' k)
          (session_at chan k).secure
          false
        ≡ ok (k, chan''))
unfolding session_alloc_locked session_free
session_alloc_shared dev chan chan' secure k pos used a first =
    let x = session_alloc_locked_lem dev chan chan' secure true k pos a in
    let want = (session_at chan k).secure in
    let s : Session = record (session_at chan' k) { used = false } in
    let freed : List Session = set chan'.session k s in
    let at : get_or freed k no_session ≡ s =
      get_or-set_self chan'.session k s no_session (omega (arith, x.present, x.kept)) in
    let secure_eq : s.secure ≡ want = ground (arith, x.taken) in
    let found : find_session want false 0 chan'.sesscount freed ≡ some (0 + k) =
      find_session-first want false 0 chan'.sesscount freed k (omega (arith, x.bounded, x.count))
        (omega (arith, x.present, x.kept, length-set chan'.session k s))
        (λ i lt.
          rw (get_or-set_ne chan'.session k i s no_session (omega arith), x.others i (omega arith))
            (first i lt))
        (rw at (ground (arith, secure_eq))) in
    (
      record chan' { session = set freed k (record s { used = true; faults = 0 }) },
      ground (arith, found, at, x.count),
    )
