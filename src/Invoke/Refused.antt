-- ===== src/Invoke/Refused.antt =====
-- A call of android/adsprpc.c that fails before it waits.
use reasoned_soc.Prelude.{
  ◌==◌, Bool-cases, Option-cases, get_elem?, set, ℕ, zero, suc, ◌≡◌, refl, sym, ap, ◌∙◌, ◌≢◌, inl,
  inr, Bool, false, not, ◌||◌, Option, none, some, List, [], ◌∷◌, arith,
}
use reasoned_soc.Errno.{Errno, Result-cases, err, ok}
use reasoned_soc.Overlap.{Overlap}
use reasoned_soc.Context.{
  Contexts, unlink, ctxid_of, clear_entry, context_free, Request, new_ctx, enter_table,
  context_alloc,
}
use reasoned_soc.Context.Alloc.{
  IsFresh, IsUnchanged, IsEntered, Outcome, context_alloc-Outcome, refused, entered,
}
use reasoned_soc.Context.Invariant.{occurs, IsConsistent, unlink_absent}
use reasoned_soc.Channel.{ChannelCtx, FileCtx}
use reasoned_soc.Invoke.{
  Call, prepare, launch, begin_new, begin_user, is_turned_away, begin_call, invoke_begin,
}
use reasoned_soc.Context.Interrupted.{find_pid, context_restore_interrupted}
use mathlib.Core.Path.{subst}

clear_entry-set :
    (p i : ℕ) (xs : List (Option ℕ))
    → get_elem? xs i ≡ some none
    → ((j : ℕ) → get_elem? xs j ≢ some (some p))
    → clear_entry p (set xs i (some p)) ≡ xs
unfolding clear_entry
clear_entry-set p i [] free out = refl
clear_entry-set p zero (x ∷ xs) free out = ground (arith, free)
clear_entry-set p (suc i) (none ∷ xs) free out =
    ap (λ ys. none ∷ ys) (clear_entry-set p i xs free (λ j. out (suc j)))
clear_entry-set p (suc i) (some q ∷ xs) free out =
    let rest = clear_entry-set p i xs free (λ j. out (suc j)) in
    let ne : q ≢ p = λ w. out 0 (ap (λ x. some (some x)) w) in ground (arith, rest, ne)

absent-entry :
    (s : Contexts) (p j : ℕ)
    → IsConsistent s
    → s.cell p ≡ none
    → get_elem? s.table j ≢ some (some p)
absent-entry s p j v dead at = let (c, live, x, y) = v.entries j p at in ground (arith, live, dead)

-- A context that was just entered is freed without a trace.
free_entered :
    (r : Request) (overs : List Overlap) (p : ℕ) (s s1 : Contexts)
    → IsConsistent s
    → s.cell p ≡ none
    → IsEntered r overs p s s1
    → IsUnchanged s (context_free p s1)
unfolding context_free unlink
free_entered r overs p s s1 v dead e =
    let out : occurs p (s.clst r.fl).interrupted ≡ 0 = ground (arith, v.listed r.fl p, dead) in
    let cut = unlink_absent p (s.clst r.fl).interrupted out in
    let table : clear_entry p s1.table ≡ s.table =
      ap (clear_entry p) e.table
      ∙ clear_entry-set p e.index s.table e.was_free (λ j. absent-entry s p j v dead) in
    let pending : unlink p (s1.clst r.fl).pending ≡ (s.clst r.fl).pending =
      ap (unlink p) e.pending ∙ ground arith in
    let interrupted : unlink p (s1.clst r.fl).interrupted ≡ (s.clst r.fl).interrupted =
      ap (unlink p) e.interrupted ∙ cut in
    rw (context_free, e.context)
      (
        table,
        (λ q. ground (arith, dead, e.others q)),
        λ f. ground (arith, e.files f, pending, interrupted),
      )

launch-refused :
    (glink : Bool) (k : Call) (f : FileCtx) (chan : ChannelCtx) (overs : List Overlap) (p : ℕ)
    (e : Errno) (s s1 t : Contexts)
    → IsConsistent s
    → s.cell p ≡ none
    → IsEntered k.request overs p s s1
    → launch glink k f chan p s1 ≡ (err e, t)
    → IsUnchanged s t
unfolding launch
launch-refused glink k f chan overs p e s s1 t v dead entry h =
    let c = record (new_ctx k.request overs) { ctxid = ctxid_of p entry.index } in
    let live : s1.cell p ≡ some c = entry.context in
    elim (Result-cases (prepare glink k f chan c)) [
      | inl (d, r) ↦
          let t_eq : context_free p s1 ≡ t = ap (λ x. x.1) (rw (launch, live, r) at h) in
          subst (IsUnchanged s) t_eq (free_entered k.request overs p s s1 v dead entry)
      | inr (m, r) ↦ ground (arith, (rw (launch, live, r) at h))
    ]

alloc-fresh :
    (sort : List Overlap → List Overlap) (r : Request) (p : ℕ) (s t : Contexts)
    → context_alloc sort r s ≡ (ok p, t)
    → r.fresh ≡ some p
unfolding context_alloc enter_table
alloc-fresh sort r p s t h = ground (arith, h)

Outcome-err : {r : Request} {s t : Contexts} {e : Errno} → Outcome r s (err e, t) → IsUnchanged s t
Outcome-err (refused u) = u

Outcome-ok :
    {r : Request} {s t : Contexts} {p : ℕ}
    → Outcome r s (ok p, t)
    → (overs : List Overlap) × IsEntered r overs p s t
Outcome-ok (entered overs e) = (overs, e)

begin_new-refused :
    (sort : List Overlap → List Overlap) (glink : Bool) (k : Call) (f : FileCtx) (chan : ChannelCtx)
    (e : Errno) (s t : Contexts)
    → IsConsistent s
    → IsFresh k.request s
    → begin_new sort glink k f chan s ≡ (err e, t)
    → IsUnchanged s t
unfolding begin_new
begin_new-refused sort glink k f chan e s t v fresh h =
    let x = context_alloc sort k.request s in
    let all : Outcome k.request s (x.0, x.1) = context_alloc-Outcome sort k.request s v fresh in
    elim (Result-cases x.0) [
      | inl (d, r) ↦
          let t_eq : x.1 ≡ t = ap (λ y. y.1) (rw (begin_new, r) at h) in
          subst (IsUnchanged s) t_eq (Outcome-err (subst (λ y. Outcome k.request s (y, x.1)) r all))
      | inr (p, r) ↦
          let (overs, entry) = Outcome-ok (subst (λ y. Outcome k.request s (y, x.1)) r all) in
          let run : begin_new sort glink k f chan s ≡ launch glink k f chan p x.1 =
            simp (begin_new, r) in
          let dead = fresh p (alloc-fresh sort k.request p s x.1 (ap (λ y. (y, x.1)) r)) in
          launch-refused glink k f chan overs p e s x.1 t v dead entry (sym run ∙ h)
    ]

-- A search for an interrupted call that finds none, or fails, changes nothing.
restore-same :
    (fl pid sc : ℕ) (s : Contexts)
    → let x = context_restore_interrupted fl pid sc s in
      ((e : Errno) → x.0 ≡ err e → x.1 ≡ s) × (x.0 ≡ ok none → x.1 ≡ s)
unfolding context_restore_interrupted
restore-same fl pid sc s = elim (Option-cases (find_pid pid s.cell (s.clst fl).interrupted)) [
  | inl e ↦ rw (context_restore_interrupted, e) ((λ d h. refl), λ h. refl)
  | inr ((p, c), e) ↦ elim (Bool-cases (not (sc == c.sc) || not (c.fl == fl))) [
    | inl other ↦ rw (context_restore_interrupted, e, other) ((λ d h. refl), λ h. refl)
    | inr same ↦
        rw (context_restore_interrupted, e, same)
          ((λ d h. ground (arith, h)), λ h. ground (arith, h))
  ]
]

begin_user-refused :
    (sort : List Overlap → List Overlap) (glink : Bool) (k : Call) (f : FileCtx) (chan : ChannelCtx)
    (e : Errno) (s t : Contexts)
    → IsConsistent s
    → IsFresh k.request s
    → k.faults ≡ false
    → begin_user sort glink k f chan s ≡ (err e, t)
    → IsUnchanged s t
unfolding begin_user
begin_user-refused sort glink k f chan e s t v fresh fine h =
    let x = context_restore_interrupted k.request.fl k.request.pid k.request.sc s in
    let (on_err, on_none) = restore-same k.request.fl k.request.pid k.request.sc s in
    elim (Result-cases x.0) [
      | inl (d, r) ↦
          let t_eq : x.1 ≡ t = ap (λ y. y.1) (rw (begin_user, r) at h) in
          subst (IsUnchanged s) (sym (on_err d r) ∙ t_eq) (refl, (λ p. refl), λ f. refl)
      | inr (o, r) ↦ elim (Option-cases o) [
        | inl w ↦
            let run : begin_user sort glink k f chan s ≡ begin_new sort glink k f chan x.1 =
              simp (begin_user, r, w, fine) in
            let back : x.1 ≡ s = on_none (r ∙ ap ok w) in
            begin_new-refused sort glink k f chan e s t v fresh
              (ap (begin_new sort glink k f chan) (sym back) ∙ sym run ∙ h)
        | inr (p, w) ↦
            let run : begin_user sort glink k f chan s ≡ (ok (p, none), x.1) =
              simp (begin_user, r, w, fine) in
            ground (arith, sym run ∙ h)
      ]
    ]

begin_call-refused :
    (sort : List Overlap → List Overlap) (glink : Bool) (k : Call) (f : FileCtx) (chan : ChannelCtx)
    (e : Errno) (s t : Contexts)
    → IsConsistent s
    → IsFresh k.request s
    → k.faults ≡ false
    → begin_call sort glink k f chan s ≡ (err e, t)
    → IsUnchanged s t
unfolding begin_call
begin_call-refused sort glink k f chan e s t v fresh fine h =
    elim (Bool-cases (is_turned_away k f)) [
      | inl away ↦
          let t_eq : s ≡ t = ap (λ y. y.1) (rw (begin_call, away) at h) in
          subst (IsUnchanged s) t_eq (refl, (λ p. refl), λ f. refl)
      | inr let_in ↦ elim (Bool-cases k.kernel) [
        | inl own ↦
            let run : begin_call sort glink k f chan s ≡ begin_new sort glink k f chan s =
              simp (begin_call, let_in, own) in
            begin_new-refused sort glink k f chan e s t v fresh (sym run ∙ h)
        | inr user ↦
            let run : begin_call sort glink k f chan s ≡ begin_user sort glink k f chan s =
              simp (begin_call, let_in, user) in
            begin_user-refused sort glink k f chan e s t v fresh fine (sym run ∙ h)
      ]
    ]

-- In a consistent state, with an address from `kzalloc` that no live context has and without faults
-- of the session: whenever a call fails before it waits, of the kernel or of a process, be it turned
-- away, for want of a context, at its arguments or when it is sent, the table of contexts, the
-- contexts and the lists of every file are as they were.
pub invoke_begin-refused :
    (sort : List Overlap → List Overlap) (glink : Bool) (k : Call) (f : FileCtx) (chan : ChannelCtx)
    (e : Errno) (s t : Contexts)
    → IsConsistent s
    → IsFresh k.request s
    → k.faults ≡ false
    → invoke_begin sort glink k f chan s ≡ (err e, t)
    → IsUnchanged s t
unfolding invoke_begin
invoke_begin-refused sort glink k f chan e s t v fresh fine h =
    let x = begin_call sort glink k f chan s in
    elim (Result-cases x.0) [
      | inl (d, r) ↦
          let t_eq : x.1 ≡ t = ap (λ y. y.1) h in
          begin_call-refused sort glink k f chan d s t v fresh fine
            (ap (λ y. (y, x.1)) r ∙ ap (λ y. (err d, y)) t_eq)
      | inr (begun, r) ↦ ground (arith, (rw (invoke_begin, r) at h))
    ]
