-- ===== src/Session/Alloc.antt =====
-- What an allocation of a session promises, and when it fails.
use reasoned_soc.Prelude.{
  Bool-cases, Option-cases, length, set, get_or, length-set, get_or-set_self, get_or-set_ne, ℕ,
  zero, suc, ◌+◌, ◌-◌, ◌≤◌, ◌<◌, ◌≡◌, ◌≢◌, ◌↔◌, inl, inr, Bool, true, false, none, some, List, [],
  ◌∷◌, arith,
}
use reasoned_soc.Errno.{failed, err, ok}
use reasoned_soc.Session.{Session, Channel, no_session, fits, find_session, session_alloc_locked}

abbrev pub session_at : Channel → ℕ → Session
session_at chan i = get_or chan.session i no_session

find_session_lem :
    (secure sharedcb : Bool) (idx count : ℕ) (ss : List Session) (i : ℕ)
    → find_session secure sharedcb idx count ss ≡ some i
    → (idx ≤ i)
      × (i < idx + count)
      × (i - idx < length ss)
      × (fits secure sharedcb (get_or ss (i - idx) no_session) ≡ true)
unfolding find_session
find_session_lem secure sharedcb idx count [] i h = ground arith
find_session_lem secure sharedcb idx zero (s ∷ ss) i h = ground arith
find_session_lem secure sharedcb idx (suc count) (s ∷ ss) i h =
    elim (Bool-cases (fits secure sharedcb s)) [
      | inl e ↦
          let k : idx ≡ i = ground (arith, e) in
          let z : i - idx ≡ 0 = omega arith in (omega arith, omega arith, omega arith, rw z e)
      | inr e ↦
          let q : find_session secure sharedcb (idx + 1) count ss ≡ some i = ground (arith, e) in
          let f = find_session_lem secure sharedcb (idx + 1) count ss i q in
          let z : i - idx ≡ suc (i - (idx + 1)) = omega (arith, f.0) in
          (omega (arith, f.0), omega (arith, f.1), omega (arith, f.0, f.2), rw z f.3)
    ]

find_session-none :
    (secure sharedcb : Bool) (idx count : ℕ) (ss : List Session) (i : ℕ)
    → find_session secure sharedcb idx count ss ≡ none
    → i < count
    → i < length ss
    → fits secure sharedcb (get_or ss i no_session) ≡ false
unfolding find_session
find_session-none secure sharedcb idx count [] i h lt lt' = absurd (omega arith)
find_session-none secure sharedcb idx zero (s ∷ ss) i h lt lt' = absurd (omega arith)
find_session-none secure sharedcb idx (suc count) (s ∷ ss) zero h lt lt' = ground arith
find_session-none secure sharedcb idx (suc count) (s ∷ ss) (suc i) h lt lt' =
    find_session-none secure sharedcb (idx + 1) count ss i (ground arith) (omega arith)
      (omega arith)

-- The outcome of an allocation from a channel that has sessions.
pub record IsAllocated (chan chan' : Channel) (secure sharedcb : Bool) (idx : ℕ) : Type 0 where
  pub bounded : idx < chan.sesscount
  pub present : idx < length chan.session
  pub fitting : fits secure sharedcb (session_at chan idx) ≡ true
  pub taken : session_at chan' idx ≡ record (session_at chan idx) { used = true; faults = 0 }
  pub others : (i : ℕ) → i ≢ idx → session_at chan' i ≡ session_at chan i
  pub kept : length chan'.session ≡ length chan.session
  pub count : chan'.sesscount ≡ chan.sesscount

-- If a channel that has sessions allocates one, then its index is below the session count, the
-- session fitted the request (it is shared and a shared one was asked for, or it was not in use,
-- has the security that was asked for, and a private one was asked for), afterwards it is
-- in use with its faults cleared, and no other session has changed.
pub session_alloc_locked_lem :
    (dev : Bool) (chan chan' : Channel) (secure sharedcb : Bool) (idx : ℕ)
    → 0 < chan.sesscount
    → session_alloc_locked dev chan secure sharedcb ≡ ok (idx, chan')
    → IsAllocated chan chan' secure sharedcb idx
unfolding session_alloc_locked
session_alloc_locked_lem dev chan chan' secure sharedcb idx pos h =
    elim (Option-cases (find_session secure sharedcb 0 chan.sesscount chan.session)) [
      | inl e ↦ ground (arith, e)
      | inr (k, e) ↦
          let f = find_session_lem secure sharedcb 0 chan.sesscount chan.session k e in
          let same : k ≡ idx = ground (arith, e) in
          let s : Session = record (session_at chan k) { used = true; faults = 0 } in
          let state : chan' ≡ record chan { session = set chan.session k s } = ground (arith, e) in
          record {
            bounded = omega (arith, f.1);
            present = omega (arith, f.2);
            fitting = let z : k - 0 ≡ k = omega arith in rw (← same) (rw z at f.3);
            taken = ground (arith, state, get_or-set_self chan.session k s no_session, f.2);
            others = λ i ne. ground (arith, state, get_or-set_ne chan.session k i s no_session);
            kept = ground (arith, state, length-set chan.session k s);
            count = ground (arith, state);
          }
    ]

find_session-some :
    (secure sharedcb : Bool) (chan : Channel)
    → find_session secure sharedcb 0 chan.sesscount chan.session ≢ none
    → (i : ℕ) × (i < chan.sesscount) × (fits secure sharedcb (session_at chan i) ≡ true)
find_session-some secure sharedcb chan h =
    elim (Option-cases (find_session secure sharedcb 0 chan.sesscount chan.session)) [
      | inl e ↦ absurd (h e)
      | inr (k, e) ↦
          let f = find_session_lem secure sharedcb 0 chan.sesscount chan.session k e in
          let z : k - 0 ≡ k = omega arith in (k, omega (arith, f.1), rw z at f.3)
    ]

-- A channel with sessions, all of them in its table, refuses a request exactly if none of its
-- sessions fits it.
pub session_alloc_locked_fails :
    (dev : Bool) (chan : Channel) (secure sharedcb : Bool)
    → 0 < chan.sesscount
    → chan.sesscount ≤ length chan.session
    → (session_alloc_locked dev chan secure sharedcb ≡ err failed)
      ↔ ((i : ℕ) → i < chan.sesscount → fits secure sharedcb (session_at chan i) ≡ false)
unfolding session_alloc_locked
session_alloc_locked_fails dev chan secure sharedcb pos le = (
  λ h i lt.
      find_session-none secure sharedcb 0 chan.sesscount chan.session i (ground arith) lt
        (omega arith),
  λ h. elim (Option-cases (find_session secure sharedcb 0 chan.sesscount chan.session)) [
    | inl e ↦ ground (arith, e)
    | inr (k, e) ↦
        let (i, lt, t) = find_session-some secure sharedcb chan (λ q. cc) in let f = h i lt in cc
  ],
)
