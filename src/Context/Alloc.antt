-- ===== src/Context/Alloc.antt =====
-- The outcomes of `context_alloc` of android/adsprpc.c.
use reasoned_soc.Prelude.{
  ◌==◌, if◌then◌else◌, Bool-cases, Option-cases, get_elem?, set, ℕ, ◌≡◌, refl, ◌≢◌, inl, inr, true,
  none, some, List, [], ◌∷◌, arith,
}
use reasoned_soc.Errno.{Errno, Result, Result-cases, failed, err, ok}
use reasoned_soc.Overlap.{Overlap, context_build_overlap}
use reasoned_soc.Context.{
  Ctx, CtxList, Contexts, unlink, free_entry, ctxid_of, context_free, Request, new_ctx, enter_table,
  enter_pending, context_alloc,
}
use reasoned_soc.Context.Invariant.{occurs, owned, IsConsistent, unlink_absent}
use reasoned_soc.Context.Full.{clear_entry-dead}
use reasoned_soc.Context.Ids.{free_entry_zero, free_entry-none}

-- The pieces of the request's buffers: none are built for a call without arguments.
abbrev pub overs_for : (List Overlap → List Overlap) → Request → Result (List Overlap)
overs_for sort r = if r.length == 0 then ok [] else context_build_overlap sort r.nbufs r.lpra

-- `kzalloc` gives the address of no live context.
abbrev pub IsFresh : Request → Contexts → Type 0
IsFresh r s = (p : ℕ) → r.fresh ≡ some p → s.cell p ≡ none

-- What a failed allocation leaves: the same table, contexts and lists.
abbrev pub IsUnchanged : Contexts → Contexts → Type 0
IsUnchanged s t =
    (t.table ≡ s.table) × ((p : ℕ) → t.cell p ≡ s.cell p) × ((f : ℕ) → t.clst f ≡ s.clst f)

IsUnchanged-refl : (s : Contexts) → IsUnchanged s s
IsUnchanged-refl s = (refl, (λ p. refl), λ f. refl)

-- What a successful one does: the context takes the first free entry, and is alone in having changed
-- the table; it is the head of its file's pending list.
pub record IsEntered (r : Request) (overs : List Overlap) (p : ℕ) (s t : Contexts) : Type 0 where
  pub index : ℕ
  pub was_free : get_elem? s.table index ≡ some none
  pub table : t.table ≡ set s.table index (some p)
  pub context : t.cell p ≡ some (record (new_ctx r overs) { ctxid = ctxid_of p index })
  pub others : (q : ℕ) → q ≢ p → t.cell q ≡ s.cell q
  pub pending : (t.clst r.fl).pending ≡ p ∷ (s.clst r.fl).pending
  pub interrupted : (t.clst r.fl).interrupted ≡ (s.clst r.fl).interrupted
  pub files : (f : ℕ) → f ≢ r.fl → t.clst f ≡ s.clst f

-- Either nothing has changed, or the context is entered.
pub data Outcome (r : Request) (s : Contexts) : Result ℕ × Contexts → Type 0 where
  refused : {e : Errno} {t : Contexts} → IsUnchanged s t → Outcome r s (err e, t)
  entered :
      {p : ℕ} {t : Contexts} (overs : List Overlap)
      → IsEntered r overs p s t
      → Outcome r s (ok p, t)

same_lists :
    (l : CtxList) (a b : List ℕ)
    → a ≡ l.pending
    → b ≡ l.interrupted
    → record { pending = a; interrupted = b } ≡ l
same_lists l a b e f = rw (e, f) refl

-- A context that was entered in the pending list and freed again.
full_IsUnchanged :
    (s : Contexts) (p : ℕ) (c : Ctx)
    → IsConsistent s
    → s.cell p ≡ none
    → IsUnchanged s (context_free p (enter_pending p c s))
unfolding context_free unlink
full_IsUnchanged s p c v dead =
    let same = clear_entry-dead s p v dead in
    let live : (enter_pending p c s).cell p ≡ some c = ground arith in
    let none_owned : owned c.fl (s.cell p) ≡ 0 = rw dead refl in
    let out : occurs p (s.clst c.fl).interrupted ≡ 0 = omega (arith, v.listed c.fl p, none_owned) in
    let kept = unlink_absent p (s.clst c.fl).interrupted out in
    let head : unlink p (p ∷ (s.clst c.fl).pending) ≡ (s.clst c.fl).pending = ground arith in
    let self = same_lists (s.clst c.fl) _ _ head kept in
    rw (context_free, live, same)
      (
        refl,
        (λ q. ground (arith, dead)),
        λ f. elim (Bool-cases (f == c.fl)) [
          | inl e ↦
              let f_eq : f ≡ c.fl = ground (arith, e) in
              let i_eq : (c.fl == c.fl) ≡ true = ground arith in rw (f_eq, i_eq) self
          | inr e ↦ rw e refl
        ],
      )

enter-Outcome :
    (r : Request) (s : Contexts) (p : ℕ) (overs : List Overlap)
    → IsConsistent s
    → s.cell p ≡ none
    → Outcome r s (enter_table p (new_ctx r overs) (enter_pending p (new_ctx r overs) s))
unfolding enter_table
enter-Outcome r s p overs v dead = elim (Option-cases (free_entry 0 s.table)) [
  | inl e ↦ rw (e, enter_table) (refused (full_IsUnchanged s p (new_ctx r overs) v dead))
  | inr (ii, e) ↦
      let (lt, free) = free_entry_zero s.table ii e in
      rw (e, enter_table)
        (entered overs (record {
          index = ii;
          was_free = free;
          table = refl;
          context = ground arith;
          others = λ q ne. ground arith;
          pending = ground arith;
          interrupted = ground arith;
          files = λ f ne. ground arith;
        }))
]

-- The table is reached once the memory is there, the copies succeed and the pieces are built.
pub context_alloc-enters :
    (sort : List Overlap → List Overlap) (r : Request) (s : Contexts) (p : ℕ) (overs : List Overlap)
    → r.fresh ≡ some p
    → r.copied ≡ true
    → overs_for sort r ≡ ok overs
    → context_alloc sort r s ≡ enter_table p (new_ctx r overs) (enter_pending p (new_ctx r overs) s)
unfolding context_alloc
context_alloc-enters sort r s p overs e f g = simp (context_alloc, e, f, g)

-- In a consistent state, with an address from `kzalloc` that no live context has, and however the
-- sort behaves: a failed `context_alloc` leaves the
-- table, the contexts and the lists of every file as they were, also when it had already put the
-- context in the pending list; a successful one puts the new context, with the identifier of its
-- entry, in a free entry of the table and in front of its file's pending list, and changes nothing else.
pub context_alloc-Outcome :
    (sort : List Overlap → List Overlap) (r : Request) (s : Contexts)
    → IsConsistent s
    → IsFresh r s
    → Outcome r s (context_alloc sort r s)
unfolding context_alloc
context_alloc-Outcome sort r s v fresh = elim (Option-cases r.fresh) [
  | inl e ↦ rw (e, context_alloc) (refused (IsUnchanged-refl s))
  | inr (p, e) ↦ elim (Bool-cases r.copied) [
    | inr f ↦ rw (e, context_alloc, f) (refused (IsUnchanged-refl s))
    | inl f ↦ elim (Result-cases (overs_for sort r)) [
      | inl (w, g) ↦ rw (e, context_alloc, f, g) (refused (IsUnchanged-refl s))
      | inr (overs, g) ↦
          rw (context_alloc-enters sort r s p overs e f g) (enter-Outcome r s p overs v (fresh p e))
    ]
  ]
]

-- With memory, readable arguments and pieces that do not wrap, `context_alloc` returns the new
-- context as long as one entry of the table is free, wherever it is, and fails when none is.
pub context_alloc_room :
    (sort : List Overlap → List Overlap) (r : Request) (s : Contexts) (p : ℕ) (overs : List Overlap)
    → r.fresh ≡ some p
    → r.copied ≡ true
    → overs_for sort r ≡ ok overs
    → ((i : ℕ) → get_elem? s.table i ≡ some none → (context_alloc sort r s).0 ≡ ok p)
      × (((i : ℕ) → get_elem? s.table i ≢ some none) → (context_alloc sort r s).0 ≡ err failed)
unfolding enter_table
context_alloc_room sort r s p overs e f g =
    let eq = context_alloc-enters sort r s p overs e f g in
    elim (Option-cases (free_entry 0 s.table)) [
      | inl n ↦ (
        (λ i free. absurd (free_entry-none 0 s.table i n free)),
        λ full. rw (eq, n, enter_table) refl,
      )
      | inr (k, n) ↦ (
        (λ i free. rw (eq, n, enter_table) refl),
        λ full. absurd (full k (free_entry_zero s.table k n).1),
      )
    ]
