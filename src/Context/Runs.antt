-- ===== src/Context/Runs.antt =====
-- The driver's operations on contexts as steps of a system that starts with an empty table.
use reasoned_soc.Prelude.{
  leb, ◌==◌, Bool-cases, Option-cases, get_elem?, ℕ, zero, suc, ◌≡◌, refl, ◌≢◌, inl, inr, true, not,
  Option, none, some, List, [], ◌∷◌, arith,
}
use reasoned_soc.Overlap.{Overlap}
use reasoned_soc.Context.{
  ctx_max, Ctx, CtxList, Contexts, context_free, Request, new_ctx, context_alloc,
  context_save_interrupted,
}
use reasoned_soc.Context.Invariant.{IsConsistent, free-IsConsistent}
use reasoned_soc.Context.Alloc.{overs_for, IsFresh, context_alloc-enters}
use reasoned_soc.Context.Response.{
  Rsp, context_notify_user, glink_notify_rx, smd_read_handler, notify_users,
  notify_users_staticpd_pdr, Driver, is_at, notify_drivers, notify_pdr_drivers,
}
use reasoned_soc.Context.Deliver.{deliver_cases}
use reasoned_soc.Context.Signals.{dtor-IsConsistent}
use reasoned_soc.Context.Interrupted.{context_restore_interrupted, context_list_dtor}
use reasoned_soc.Errno.{Result-cases}
use reasoned_soc.Context.Steps.{
  cells-IsConsistent, notify_user-SameCells, complete_file-IsConsistent, save-IsConsistent,
  restore-IsConsistent, enter_table-IsConsistent,
}

abbrev pub empty_table : ℕ → List (Option ℕ)
empty_table zero = []
empty_table (suc n) = none ∷ empty_table n

abbrev pub no_lists : CtxList
no_lists = record { pending = []; interrupted = [] }

-- No context, an empty table, and empty lists.
abbrev pub initially : Contexts
initially = record { cell = λ p. none; table = empty_table ctx_max; clst = λ f. no_lists }

-- One operation, by any file, channel or process, in any order.
pub data Step (sort : List Overlap → List Overlap) (s : Contexts) : Contexts → Type 0 where
  allocates : (r : Request) → IsFresh r s → Step sort s (context_alloc sort r s).1
  frees : (p : ℕ) → Step sort s (context_free p s)
  saves : (p : ℕ) (c : Ctx) → s.cell p ≡ some c → Step sort s (context_save_interrupted p c s)
  restores : (fl pid sc : ℕ) → Step sort s (context_restore_interrupted fl pid sc s).1
  receives : (rsps : List Rsp) → Step sort s (smd_read_handler rsps s).0
  notified :
      (rsp_size : ℕ) (p : Option Rsp) (size : ℕ) → Step sort s (glink_notify_rx rsp_size p size s)
  goes_down : (drivers : List Driver) (cid : ℕ) → Step sort s (notify_drivers drivers cid s)
  restarts : (drivers : List Driver) (name : ℕ) → Step sort s (notify_pdr_drivers drivers name s)
  closes : (fl : ℕ) → Step sort s (context_list_dtor fl s)

pub data Reach (sort : List Overlap → List Overlap) : Contexts → Type 0 where
  started : Reach sort initially
  next : {s t : Contexts} → Reach sort s → Step sort s t → Reach sort t

initially-IsConsistent : IsConsistent initially
initially-IsConsistent = record {
  size = refl;
  entries = λ i p h. absurd (empty 256 i p h);
  entered = λ p c h. ground arith;
  listed = λ f p. refl;
}
  where
    empty : (n i p : ℕ) → get_elem? (empty_table n) i ≢ some (some p)
    empty zero i p h = ground arith
    empty (suc n) zero p h = ground arith
    empty (suc n) (suc i) p h = empty n i p h

notify_user-IsConsistent :
    (p retval : ℕ) (s : Contexts) → IsConsistent s → IsConsistent (context_notify_user p retval s)
unfolding context_notify_user
notify_user-IsConsistent p retval s v = elim (Option-cases (s.cell p)) [
  | inl e ↦ rw (e, context_notify_user) v
  | inr (c, e) ↦
      let same = notify_user-SameCells p retval s in
      rw (e, context_notify_user) (cells-IsConsistent s _ v (rw (context_notify_user, e) at same))
]

alloc-IsConsistent :
    (sort : List Overlap → List Overlap) (r : Request) (s : Contexts)
    → IsConsistent s
    → IsFresh r s
    → IsConsistent (context_alloc sort r s).1
unfolding context_alloc
alloc-IsConsistent sort r s v fresh = elim (Option-cases r.fresh) [
  | inl e ↦ rw (e, context_alloc) v
  | inr (p, e) ↦ elim (Bool-cases r.copied) [
    | inr f ↦ rw (e, context_alloc, f) v
    | inl f ↦ elim (Result-cases (overs_for sort r)) [
      | inl (w, g) ↦ rw (e, context_alloc, f, g) v
      | inr (overs, g) ↦
          rw (context_alloc-enters sort r s p overs e f g)
            (enter_table-IsConsistent s p (new_ctx r overs) v (fresh p e) refl)
    ]
  ]
]

receive-IsConsistent :
    (rsps : List Rsp) (s : Contexts) → IsConsistent s → IsConsistent (smd_read_handler rsps s).0
unfolding smd_read_handler
receive-IsConsistent [] s v = v
receive-IsConsistent (rsp ∷ rest) s v = elim (deliver_cases rsp s) [
  | inl h ↦ rw (smd_read_handler, h) v
  | inr (p, c, m, h) ↦
      rw (smd_read_handler, h)
        (receive-IsConsistent rest (context_notify_user p rsp.retval s)
          (notify_user-IsConsistent p rsp.retval s v))
]

glink-IsConsistent :
    (n : ℕ) (ptr : Option Rsp) (size : ℕ) (s : Contexts)
    → IsConsistent s
    → IsConsistent (glink_notify_rx n ptr size s)
unfolding glink_notify_rx
glink-IsConsistent n none size s v = v
glink-IsConsistent n (some rsp) size s v = elim (Bool-cases (leb n size)) [
  | inr small ↦ rw (glink_notify_rx, small) v
  | inl whole ↦ elim (deliver_cases rsp s) [
    | inl h ↦ rw (glink_notify_rx, whole, h) v
    | inr (p, c, m, h) ↦ rw (glink_notify_rx, whole, h) (notify_user-IsConsistent p rsp.retval s v)
  ]
]

drivers-IsConsistent :
    (ds : List Driver) (cid : ℕ) (s : Contexts)
    → IsConsistent s
    → IsConsistent (notify_drivers ds cid s)
unfolding notify_drivers notify_users
drivers-IsConsistent [] cid s v = v
drivers-IsConsistent (d ∷ ds) cid s v = elim (Bool-cases (is_at cid d.cid)) [
  | inr other ↦ rw (notify_drivers, other) (drivers-IsConsistent ds cid s v)
  | inl at ↦
      rw (notify_drivers, at)
        (drivers-IsConsistent ds cid (notify_users d.fl s)
          (complete_file-IsConsistent (λ c. true) d.fl s v))
]

pdr_drivers-IsConsistent :
    (ds : List Driver) (name : ℕ) (s : Contexts)
    → IsConsistent s
    → IsConsistent (notify_pdr_drivers ds name s)
unfolding notify_pdr_drivers notify_users_staticpd_pdr
pdr_drivers-IsConsistent [] name s v = v
pdr_drivers-IsConsistent (d ∷ ds) name s v = elim (Bool-cases (is_at name d.spdname)) [
  | inr other ↦ rw (notify_pdr_drivers, other) (pdr_drivers-IsConsistent ds name s v)
  | inl at ↦
      rw (notify_pdr_drivers, at)
        (pdr_drivers-IsConsistent ds name (notify_users_staticpd_pdr d.fl s)
          (complete_file-IsConsistent (λ c. not (c.msg_pid == 0)) d.fl s v))
]

pub Step-IsConsistent :
    {sort : List Overlap → List Overlap} {s t : Contexts}
    → IsConsistent s
    → Step sort s t
    → IsConsistent t
Step-IsConsistent {sort} {s} v (allocates r fresh) = alloc-IsConsistent sort r s v fresh
Step-IsConsistent {s = s} v (frees p) = free-IsConsistent s p v
Step-IsConsistent {s = s} v (saves p c live) = save-IsConsistent s p c v live
Step-IsConsistent {s = s} v (restores fl pid sc) = restore-IsConsistent s fl pid sc v
Step-IsConsistent {s = s} v (receives rsps) = receive-IsConsistent rsps s v
Step-IsConsistent {s = s} v (notified n ptr size) = glink-IsConsistent n ptr size s v
Step-IsConsistent {s = s} v (goes_down ds cid) = drivers-IsConsistent ds cid s v
Step-IsConsistent {s = s} v (restarts ds name) = pdr_drivers-IsConsistent ds name s v
Step-IsConsistent {s = s} v (closes fl) = dtor-IsConsistent fl s v

-- After any sequence of operations from the empty table, by any files, channels and processes, in
-- which a new context gets an address that no live one has and only a live one is saved: the
-- table has its 256 entries; an entry holds only a live context, whose identifier is that of the
-- entry and whose magic number is set; each live context is in the table, and in exactly one of the
-- two lists of its own file and in no list of another.
pub Reach-IsConsistent :
    {sort : List Overlap → List Overlap} {s : Contexts} → Reach sort s → IsConsistent s
Reach-IsConsistent started = initially-IsConsistent
Reach-IsConsistent (next run step) = Step-IsConsistent (Reach-IsConsistent run) step
