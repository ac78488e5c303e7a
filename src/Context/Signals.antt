-- ===== src/Context/Signals.antt =====
-- A call of android/adsprpc.c that a signal interrupts, and the closing of a file.
use reasoned_soc.Prelude.{
  ltb, ◌==◌, if◌then◌else◌, Bool-cases, ℕ, ◌≤◌, ◌≡◌, refl, ◌≢◌, inl, inr, true, false, not, ◌||◌,
  Option, none, some, List, [], ◌∷◌, arith,
}
use reasoned_soc.Errno.{failed, err, ok}
use reasoned_soc.Context.{Ctx, Contexts, unlink, context_free, context_save_interrupted}
use reasoned_soc.Context.Invariant.{
  occurs, owned, IsConsistent, occurs-unlink, unlink_absent, free-IsConsistent,
}
use reasoned_soc.Context.Interrupted.{
  find_pid, context_restore_interrupted, free_each, context_list_dtor,
}

-- A context that was taken up again by its file.
pub record IsResumed (p : ℕ) (c : Ctx) (s t : Contexts) : Type 0 where
  pub cell : t.cell ≡ s.cell
  pub table : t.table ≡ s.table
  pub is_pending : (t.clst c.fl).pending ≡ p ∷ unlink p (s.clst c.fl).pending
  pub not_interrupted : (t.clst c.fl).interrupted ≡ unlink p (s.clst c.fl).interrupted
  pub files : (f : ℕ) → f ≢ c.fl → t.clst f ≡ s.clst f

find_saved :
    (s : Contexts) (p : ℕ) (c : Ctx)
    → s.cell p ≡ some c
    → find_pid c.pid s.cell ((context_save_interrupted p c s).clst c.fl).interrupted ≡ some (p, c)
unfolding context_save_interrupted find_pid
find_saved s p c live = ground arith

-- In a consistent state, the call that a process repeats on its file after a signal finds the context that was saved last for it: with
-- the same scalars the context is taken up again with its contents, at its place in the table, in
-- front of the pending list of its file; with other scalars the call fails and nothing changes.
pub restore_saved :
    (s : Contexts) (p : ℕ) (c : Ctx) (sc : ℕ)
    → IsConsistent s
    → s.cell p ≡ some c
    → let saved = context_save_interrupted p c s in
      let r = context_restore_interrupted c.fl c.pid sc saved in
      (sc ≡ c.sc → (r.0 ≡ ok (some p)) × IsResumed p c s r.1)
      × (sc ≢ c.sc → (r.0 ≡ err failed) × (r.1 ≡ saved))
unfolding context_save_interrupted context_restore_interrupted unlink
restore_saved s p c sc v live =
    let saved = context_save_interrupted p c s in
    let found = find_saved s p c live in
    let same_fl : (c.fl == c.fl) ≡ true = ground arith in
    let one : owned c.fl (s.cell p) ≡ 1 = rw (live, same_fl) refl in
    let out : occurs p (unlink p (s.clst c.fl).pending) ≡ 0 =
      ground (arith, occurs-unlink p p (s.clst c.fl).pending, v.listed c.fl p, one) in
    let absent = unlink_absent p (unlink p (s.clst c.fl).pending) out in
    let cut : unlink p (p ∷ unlink p (s.clst c.fl).interrupted)
        ≡ unlink p (s.clst c.fl).interrupted =
      ground arith in
    (
      (λ e.
          let pass : (not (sc == c.sc) || not (c.fl == c.fl)) ≡ false = ground (arith, e) in
          rw (context_restore_interrupted, found, pass)
            (
              refl,
              record {
                cell = refl;
                table = refl;
                is_pending = rw (same_fl, absent) refl;
                not_interrupted = rw (same_fl, cut) refl;
                files = λ f ne. ground arith;
              },
            )),
      λ ne.
          let fail : (not (sc == c.sc) || not (c.fl == c.fl)) ≡ true = ground (arith, ne) in
          rw (context_restore_interrupted, found, fail) (refl, refl),
    )

context_free-cell :
    (p : ℕ) (s : Contexts) (q : ℕ) → (context_free p s).cell q ≡ (if q == p then none else s.cell q)
unfolding context_free
context_free-cell p s q = ground arith

free_each-cell :
    (ps : List ℕ) (s : Contexts) (q : ℕ)
    → (free_each ps s).cell q ≡ (if ltb 0 (occurs q ps) then none else s.cell q)
unfolding free_each
free_each-cell [] s q = refl
free_each-cell (p ∷ ps) s q =
    ground (arith, free_each-cell ps (context_free p s) q, context_free-cell p s q)

context_free-interrupted :
    (p : ℕ) (s : Contexts) (f q : ℕ)
    → occurs q ((context_free p s).clst f).interrupted ≤ occurs q (s.clst f).interrupted
unfolding context_free
context_free-interrupted p s f q = ground (arith, occurs-unlink p q (s.clst f).interrupted)

free_each-interrupted :
    (ps : List ℕ) (s : Contexts) (f q : ℕ)
    → occurs q ((free_each ps s).clst f).interrupted ≤ occurs q (s.clst f).interrupted
unfolding free_each
free_each-interrupted [] s f q = omega arith
free_each-interrupted (p ∷ ps) s f q =
    omega (arith, free_each-interrupted ps (context_free p s) f q, context_free-interrupted p s f q)

free_each-IsConsistent :
    (ps : List ℕ) (s : Contexts) → IsConsistent s → IsConsistent (free_each ps s)
unfolding free_each
free_each-IsConsistent [] s v = v
free_each-IsConsistent (p ∷ ps) s v =
    free_each-IsConsistent ps (context_free p s) (free-IsConsistent s p v)

pub dtor-IsConsistent :
    (fl : ℕ) (s : Contexts) → IsConsistent s → IsConsistent (context_list_dtor fl s)
unfolding context_list_dtor
dtor-IsConsistent fl s v =
    let t = free_each (s.clst fl).interrupted s in
    free_each-IsConsistent (t.clst fl).pending t
      (free_each-IsConsistent (s.clst fl).interrupted s v)

owned_le_one : (f : ℕ) (o : Option Ctx) → owned f o ≤ 1
owned_le_one f none = omega arith
owned_le_one f (some c) = ground arith

dtor-cell :
    (fl : ℕ) (s : Contexts) (q : ℕ)
    → IsConsistent s
    → (context_list_dtor fl s).cell q ≡ (if owned fl (s.cell q) == 1 then none else s.cell q)
unfolding context_list_dtor
dtor-cell fl s q v =
    let ps = (s.clst fl).interrupted in
    let t = free_each ps s in
    let first = free_each-cell ps s q in
    let last = free_each-cell (t.clst fl).pending t q in
    let fewer = free_each-interrupted ps s fl q in
    let left = (free_each-IsConsistent ps s v).listed fl q in
    let all = v.listed fl q in
    elim (Bool-cases (ltb 0 (occurs q ps))) [
      | inl e ↦
          let gone : t.cell q ≡ none = rw e at first in
          let was : (owned fl (s.cell q) == 1) ≡ true =
            ground (arith, e, all, owned_le_one fl (s.cell q)) in
          rw (was, context_list_dtor, last, gone) (ground arith)
      | inr e ↦
          let kept : t.cell q ≡ s.cell q = rw e at first in
          let left' = rw kept at left in
          let same : ltb 0 (occurs q (t.clst fl).pending) ≡ (owned fl (s.cell q) == 1) =
            ground (arith, e, fewer, left', owned_le_one fl (s.cell q)) in
          rw (context_list_dtor, last, kept, same) refl
    ]

no_occurs-nil : (xs : List ℕ) → ((p : ℕ) → occurs p xs ≡ 0) → xs ≡ []
no_occurs-nil [] h = refl
no_occurs-nil (x ∷ xs) h = ground (arith, h x)

-- When a file is closed in a consistent state, all its contexts are freed, pending or interrupted, and its two lists are
-- empty; the contexts of the other files are as they were.
pub context_list_dtor_empties :
    (fl : ℕ) (s : Contexts)
    → IsConsistent s
    → let t = context_list_dtor fl s in
      ((t.clst fl).pending ≡ [])
      × ((t.clst fl).interrupted ≡ [])
      × ((p : ℕ) (c : Ctx) → s.cell p ≡ some c → t.cell p ≡ (if c.fl == fl then none else some c))
context_list_dtor_empties fl s v =
    let t = context_list_dtor fl s in
    let zero_at : (p : ℕ) → owned fl (t.cell p) ≡ 0 =
      λ p. ground (arith, dtor-cell fl s p v, owned_le_one fl (s.cell p)) in
    let w = dtor-IsConsistent fl s v in
    (
      no_occurs-nil (t.clst fl).pending (λ p. omega (arith, w.listed fl p, zero_at p)),
      no_occurs-nil (t.clst fl).interrupted (λ p. omega (arith, w.listed fl p, zero_at p)),
      λ p c live. ground (arith, dtor-cell fl s p v, live),
    )
