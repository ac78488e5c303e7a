-- ===== src/Session/Owners.antt =====
-- Who uses which session. A holder is a session pointer of an open file: each file has two, `sctx`
-- and `secsctx`, and both are allocated private unless the file asked for a shared context bank.
use reasoned_soc.Prelude.{
  ◌==◌, if◌then◌else◌, length, length-set, get_or-set_ne, ℕ, ◌<◌, ◌≡◌, ◌≢◌, Bool, true, false,
  Option, none, some, arith,
}
use reasoned_soc.Errno.{ok}
use reasoned_soc.Session.{Session, Channel, no_session, session_alloc_locked, session_free}
use reasoned_soc.Session.Alloc.{session_at, IsAllocated, session_alloc_locked_lem}

pub record Users : Type 0 where
  pub chan : Channel
  pub holds : ℕ → Option ℕ

abbrev pub assign : (ℕ → Option ℕ) → ℕ → Option ℕ → ℕ → Option ℕ
assign holds h v g = if g == h then v else holds g

-- A holder takes a private session, or gives its session back.
pub data Step (dev : Bool) : Users → Users → Type 0 where
  takes :
      {u : Users} {chan : Channel} {idx : ℕ} (h : ℕ) (secure : Bool)
      → u.holds h ≡ none
      → session_alloc_locked dev u.chan secure false ≡ ok (idx, chan)
      → Step dev u (record { chan = chan; holds = assign u.holds h (some idx) })
  returns :
      {u : Users} {idx : ℕ} (h : ℕ)
      → u.holds h ≡ some idx
      → Step dev u (record { chan = session_free u.chan idx; holds = assign u.holds h none })

pub data Reach (dev : Bool) (u : Users) : Users → Type 0 where
  here : Reach dev u u
  next : {v w : Users} → Reach dev u v → Step dev v w → Reach dev u w

-- Holders have different sessions, each of them marked as used, of a channel that has sessions.
pub record IsExclusive (u : Users) : Type 0 where
  pub counted : 0 < u.chan.sesscount
  pub marked :
      (h i : ℕ)
      → u.holds h ≡ some i
      → (i < length u.chan.session) × ((session_at u.chan i).used ≡ true)
  pub distinct : (g h i : ℕ) → u.holds g ≡ some i → u.holds h ≡ some i → g ≡ h

takes-IsExclusive :
    (dev : Bool) (u : Users) (chan : Channel) (idx h : ℕ) (secure : Bool)
    → IsExclusive u
    → IsAllocated u.chan chan secure false idx
    → IsExclusive (record { chan = chan; holds = assign u.holds h (some idx) })
takes-IsExclusive dev u chan idx h secure x a = record {
  counted = omega (arith, x.counted, a.count);
  marked = λ g i q. ground (arith, x.marked g i, a.others i, a.taken, a.kept, a.present);
  distinct = λ f g i p q. ground (arith, x.distinct f g i, x.marked f i, x.marked g i, a.fitting);
}

returns-IsExclusive :
    (u : Users) (idx h : ℕ)
    → IsExclusive u
    → u.holds h ≡ some idx
    → IsExclusive (record { chan = session_free u.chan idx; holds = assign u.holds h none })
unfolding session_free
returns-IsExclusive u idx h x e =
    let s : Session = record (session_at u.chan idx) { used = false } in
    record {
      counted = x.counted;
      marked = λ g i q.
          let other : i ≢ idx = λ w. ground (arith, x.distinct g h idx) in
          ground (
            arith,
            other,
            x.marked g i,
            length-set u.chan.session idx s,
            get_or-set_ne u.chan.session idx i s no_session,
          );
      distinct = λ f g i p q. ground (arith, x.distinct f g i);
    }

Step-IsExclusive : {dev : Bool} {u v : Users} → IsExclusive u → Step dev u v → IsExclusive v
Step-IsExclusive {dev} x (takes {u} {chan} {idx} h secure free e) =
    takes-IsExclusive dev u chan idx h secure x
      (session_alloc_locked_lem dev u.chan chan secure false idx x.counted e)
Step-IsExclusive x (returns {u} {idx} h e) = returns-IsExclusive u idx h x e

-- From users with different sessions, marked as used, on a channel that has sessions, any sequence
-- of private allocations and releases leads to users with different sessions, marked as used.
pub Reach-IsExclusive : {dev : Bool} {u v : Users} → IsExclusive u → Reach dev u v → IsExclusive v
Reach-IsExclusive x here = x
Reach-IsExclusive x (next r s) = Step-IsExclusive (Reach-IsExclusive x r) s
