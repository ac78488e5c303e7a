-- ===== src/Context/Steps.antt =====
-- Each operation on contexts keeps the table and the lists consistent.
use reasoned_soc.Prelude.{
  ◌==◌, Bool-cases, Option-cases, ℕ, ◌<◌, ◌≡◌, refl, sym, ◌∙◌, inl, inr, Bool, not, ◌||◌, Option,
  none, some, List, [], ◌∷◌, arith,
}
use reasoned_soc.Context.{
  ctx_magic, Ctx, Contexts, free_entry, enter_table, enter_pending, context_save_interrupted,
}
use reasoned_soc.Context.Invariant.{occurs, owned, IsConsistent, occurs-unlink, enter-IsConsistent}
use reasoned_soc.Context.Response.{context_notify_user, complete_one, complete_all, complete_file}
use reasoned_soc.Context.Interrupted.{find_pid, context_restore_interrupted}
use reasoned_soc.Context.Ids.{free_entry_zero}
use reasoned_soc.Context.Full.{full-IsConsistent}

-- Two contexts that differ at most in what a response changes.
abbrev pub SameCtx : Option Ctx → Option Ctx → Type 0
SameCtx none none = Unit {0}
SameCtx none (some d) = ⊥
SameCtx (some c) none = ⊥
SameCtx (some c) (some d) =
    (d.fl ≡ c.fl) × (d.ctxid ≡ c.ctxid) × (d.magic ≡ c.magic) × (d.pid ≡ c.pid)

SameCtx-refl : (a : Option Ctx) → SameCtx a a
SameCtx-refl none = tt
SameCtx-refl (some c) = (refl, refl, refl, refl)

SameCtx-trans : (a b c : Option Ctx) → SameCtx a b → SameCtx b c → SameCtx a c
SameCtx-trans none none none h k = tt
SameCtx-trans none none (some c) h k = k
SameCtx-trans none (some b) c h k = absurd h
SameCtx-trans (some a) none c h k = absurd h
SameCtx-trans (some a) (some b) none h k = k
SameCtx-trans (some a) (some b) (some c) h k = ground arith

SameCtx-some :
    (a : Option Ctx) (c : Ctx)
    → SameCtx a (some c)
    → (d : Ctx) × (a ≡ some d) × (c.fl ≡ d.fl) × (c.ctxid ≡ d.ctxid) × (c.magic ≡ d.magic)
SameCtx-some none c h = absurd h
SameCtx-some (some d) c h = (d, refl, h.0, h.1, h.2)

SameCtx-back :
    (a : Option Ctx) (c : Ctx)
    → SameCtx (some c) a
    → (d : Ctx) × (a ≡ some d) × (d.fl ≡ c.fl) × (d.ctxid ≡ c.ctxid) × (d.magic ≡ c.magic)
SameCtx-back none c h = absurd h
SameCtx-back (some d) c h = (d, refl, h.0, h.1, h.2)

SameCtx-owned : (f : ℕ) (a b : Option Ctx) → SameCtx a b → owned f b ≡ owned f a
SameCtx-owned f none none h = refl
SameCtx-owned f none (some b) h = absurd h
SameCtx-owned f (some a) none h = absurd h
SameCtx-owned f (some a) (some b) h = ground arith

abbrev pub SameCells : (ℕ → Option Ctx) → (ℕ → Option Ctx) → Type 0
SameCells a b = (p : ℕ) → SameCtx (a p) (b p)

pub cells-IsConsistent :
    (s : Contexts) (cell : ℕ → Option Ctx)
    → IsConsistent s
    → SameCells s.cell cell
    → IsConsistent (record s { cell = cell })
cells-IsConsistent s cell v same = record {
  size = v.size;
  entries = λ i p h.
      let (c, live, id, m) = v.entries i p h in
      let (d, live', fl, id', m') = SameCtx-back (cell p) c (rw live at (same p)) in
      (d, live', id' ∙ id, m' ∙ m);
  entered = λ p c h.
      let (d, live, _, _, _) = SameCtx-some (s.cell p) c (rw h at (same p)) in v.entered p d live;
  listed = λ f p. v.listed f p ∙ sym (SameCtx-owned f (s.cell p) (cell p) (same p));
}

pub notify_user-SameCells :
    (p retval : ℕ) (s : Contexts) → SameCells s.cell (context_notify_user p retval s).cell
unfolding context_notify_user
notify_user-SameCells p retval s q = ground (arith, SameCtx-refl (s.cell q))

complete_one-SameCells :
    (test : Ctx → Bool) (p : ℕ) (cell : ℕ → Option Ctx) → SameCells cell (complete_one test p cell)
unfolding complete_one
complete_one-SameCells test p cell q = ground (arith, SameCtx-refl (cell q))

complete_all-SameCells :
    (test : Ctx → Bool) (ps : List ℕ) (cell : ℕ → Option Ctx)
    → SameCells cell (complete_all test ps cell)
unfolding complete_all
complete_all-SameCells test [] cell q = SameCtx-refl (cell q)
complete_all-SameCells test (p ∷ ps) cell q =
    SameCtx-trans (cell q) (complete_one test p cell q)
      (complete_all test ps (complete_one test p cell) q) (complete_one-SameCells test p cell q)
      (complete_all-SameCells test ps (complete_one test p cell) q)

pub complete_file-IsConsistent :
    (test : Ctx → Bool) (f : ℕ) (s : Contexts)
    → IsConsistent s
    → IsConsistent (complete_file test f s)
complete_file-IsConsistent test f s v =
    let l = s.clst f in
    cells-IsConsistent s _ v λ p.
      SameCtx-trans (s.cell p) (complete_all test l.pending s.cell p) _
        (complete_all-SameCells test l.pending s.cell p)
        (complete_all-SameCells test l.interrupted (complete_all test l.pending s.cell) p)

pub save-IsConsistent :
    (s : Contexts) (p : ℕ) (c : Ctx)
    → IsConsistent s
    → s.cell p ≡ some c
    → IsConsistent (context_save_interrupted p c s)
unfolding context_save_interrupted
save-IsConsistent s p c v live = record {
  size = v.size;
  entries = v.entries;
  entered = v.entered;
  listed = λ f q. ground (
    arith,
    v.listed f q,
    occurs-unlink p q (s.clst f).pending,
    occurs-unlink p q (s.clst f).interrupted,
    live,
  );
}

pub find_pid_lem :
    (pid : ℕ) (cell : ℕ → Option Ctx) (ps : List ℕ) (p : ℕ) (c : Ctx)
    → find_pid pid cell ps ≡ some (p, c)
    → (cell p ≡ some c) × (c.pid ≡ pid) × (0 < occurs p ps)
unfolding find_pid
find_pid_lem pid cell [] p c h = ground arith
find_pid_lem pid cell (q ∷ ps) p c h = ground (arith, find_pid_lem pid cell ps p c)

pub restore-IsConsistent :
    (s : Contexts) (fl pid sc : ℕ)
    → IsConsistent s
    → IsConsistent (context_restore_interrupted fl pid sc s).1
unfolding context_restore_interrupted
restore-IsConsistent s fl pid sc v =
    elim (Option-cases (find_pid pid s.cell (s.clst fl).interrupted)) [
      | inl e ↦ rw (e, context_restore_interrupted) v
      | inr ((p, c), e) ↦
          let (live, here, member) = find_pid_lem pid s.cell (s.clst fl).interrupted p c e in
          elim (Bool-cases (not (sc == c.sc) || not (c.fl == fl))) [
            | inl bad ↦ rw (e, context_restore_interrupted, bad) v
            | inr good ↦
                rw (e, context_restore_interrupted, good)
                  (record {
                    size = v.size;
                    entries = v.entries;
                    entered = v.entered;
                    listed = λ f q. ground (
                      arith,
                      v.listed f q,
                      occurs-unlink p q (s.clst fl).pending,
                      occurs-unlink p q (s.clst fl).interrupted,
                      live,
                      good,
                    );
                  })
          ]
    ]

pub enter_table-IsConsistent :
    (s : Contexts) (p : ℕ) (c : Ctx)
    → IsConsistent s
    → s.cell p ≡ none
    → c.magic ≡ ctx_magic
    → IsConsistent (enter_table p c (enter_pending p c s)).1
unfolding enter_table
enter_table-IsConsistent s p c v dead magic = elim (Option-cases (free_entry 0 s.table)) [
  | inl e ↦ rw (e, enter_table) (full-IsConsistent s p c v dead)
  | inr (ii, e) ↦
      let (lt, free) = free_entry_zero s.table ii e in
      rw (e, enter_table) (enter-IsConsistent s p ii c v dead magic lt free)
]
