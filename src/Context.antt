-- ===== src/Context.antt =====
-- Invocation contexts of android/adsprpc.c: the table `ctxtable` and the identifiers that it gives,
-- the pending and interrupted lists of an open file, and the delivery of a response.
pub mod Alloc
pub mod Deliver
mod Examples
pub mod Full
pub mod Ids
pub mod Interrupted
pub mod Invariant
pub mod Response
pub mod Runs
pub mod Signals
pub mod Steps
pub mod Wake
use reasoned_soc.Prelude.{
  ◌==◌, if◌then◌else◌, set, ℕ, ◌+◌, ◌-◌, ◌*◌, ◌/◌, ◌^◌, Bool, false, not, Option, none, some, List,
  [], ◌∷◌,
}
use reasoned_soc.Errno.{Result, failed, err, ok}
use reasoned_soc.Overlap.{RemoteArg, Overlap, context_build_overlap}

abbrev pub ctx_max : ℕ
ctx_max = 256

abbrev pub ctx_magic : ℕ
ctx_magic = 0xbeed_deed

-- The fields of `struct smq_invoke_ctx` that the table and the lists work with. A context goes by
-- its address; `completed` is the state of its completion `work`, `msg_pid` is `msg.pid`.
pub record Ctx : Type 0 where
  pub fl : ℕ
  pub pid : ℕ
  pub tgid : ℕ
  pub sc : ℕ
  pub retval : ℕ
  pub completed : Bool
  pub magic : ℕ
  pub ctxid : ℕ
  pub msg_pid : ℕ
  pub overs : List Overlap

-- The lists of an open file, by address.
pub record CtxList : Type 0 where
  pub pending : List ℕ
  pub interrupted : List ℕ

-- Live contexts, the table, and the lists of each open file.
pub record Contexts : Type 0 where
  pub cell : ℕ → Option Ctx
  pub table : List (Option ℕ)
  pub clst : ℕ → CtxList

abbrev pub put : {A : Type 0} → (ℕ → A) → ℕ → A → ℕ → A
put f p v q = if q == p then v else f q

-- `hlist_del_init` of an entry that is in the list at most once
unfoldable pub unlink : ℕ → List ℕ → List ℕ
unlink p [] = []
unlink p (q ∷ qs) = if q == p then qs else q ∷ unlink p qs

abbrev pub unlink_both : ℕ → CtxList → CtxList
unlink_both p l = record { pending = unlink p l.pending; interrupted = unlink p l.interrupted }

-- The loop of `context_alloc` over the table: the first free entry, from index `ii` on.
unfoldable pub free_entry : ℕ → List (Option ℕ) → Option ℕ
free_entry ii [] = none
free_entry ii (none ∷ entries) = some ii
free_entry ii (some p ∷ entries) = free_entry (ii + 1) entries

-- `(ptr_to_uint64(ctx) & ~0xFFF) | (ii << 4)`: the operands share no bit, as `ii` is below 256.
unfoldable pub ctxid_of : ℕ → ℕ → ℕ
ctxid_of p ii = p / 0x1000 * 0x1000 + ii * 16

-- The end of `context_free`: the first entry that holds the context is cleared.
unfoldable pub clear_entry : ℕ → List (Option ℕ) → List (Option ℕ)
clear_entry p [] = []
clear_entry p (none ∷ entries) = none ∷ clear_entry p entries
clear_entry p (some q ∷ entries) = if q == p then none ∷ entries else some q ∷ clear_entry p entries

-- `context_free` without the buffers and mappings of the context.
unfoldable pub context_free : ℕ → Contexts → Contexts
context_free p s = elim (s.cell p) [
  | none ↦ s
  | some ctx ↦ record {
    cell = put s.cell p none;
    table = clear_entry p s.table;
    clst = put s.clst ctx.fl (unlink_both p (s.clst ctx.fl));
  }
]

-- What `context_alloc` is given: the file, its `tgid`, the caller's `pid`, the scalars, the number
-- of buffers, the copied arguments, and whether `kzalloc` and the copies from user memory succeed.
pub record Request : Type 0 where
  pub fl : ℕ
  pub tgid : ℕ
  pub pid : ℕ
  pub sc : ℕ
  pub length : ℕ
  pub nbufs : ℕ
  pub lpra : List RemoteArg
  pub fresh : Option ℕ
  pub copied : Bool

abbrev pub new_ctx : Request → List Overlap → Ctx
new_ctx r overs = record {
  fl = r.fl;
  pid = r.pid;
  tgid = r.tgid;
  sc = r.sc;
  retval = 2 ^ 32 - 1;
  completed = false;
  magic = ctx_magic;
  ctxid = 0;
  msg_pid = 0;
  overs = overs;
}

-- The table's part of `context_alloc`, on a context `p` that is in the pending list.
unfoldable pub enter_table : ℕ → Ctx → Contexts → Result ℕ × Contexts
enter_table p ctx s = elim (free_entry 0 s.table) [
  | none ↦ (err failed, context_free p s)
  | some ii ↦ (
    ok p,
    record s {
      cell = put s.cell p (some (record ctx { ctxid = ctxid_of p ii }));
      table = set s.table ii (some p);
    },
  )
]

abbrev pub enter_pending : ℕ → Ctx → Contexts → Contexts
enter_pending p ctx s =
    let l = s.clst ctx.fl in
    record s {
      cell = put s.cell p (some ctx);
      clst = put s.clst ctx.fl (record l { pending = p ∷ l.pending });
    }

-- A failure before the context is in a list frees it again, which leaves the state as it was.
unfoldable pub context_alloc :
    (List Overlap → List Overlap) → Request → Contexts → Result ℕ × Contexts
unfolding enter_table context_build_overlap
context_alloc sort r s = elim r.fresh [
  | none ↦ (err failed, s)
  | some p ↦
      if not r.copied
      then (err failed, s)
      else elim (if r.length == 0 then ok [] else context_build_overlap sort r.nbufs r.lpra) [
        | err e ↦ (err failed, s)
        | ok overs ↦ let ctx = new_ctx r overs in enter_table p ctx (enter_pending p ctx s)
      ]
]

-- `context_save_interrupted`, without the buffers of the file's cache
unfoldable pub context_save_interrupted : ℕ → Ctx → Contexts → Contexts
context_save_interrupted p ctx s =
    let l = unlink_both p (s.clst ctx.fl) in
    record s { clst = put s.clst ctx.fl (record l { interrupted = p ∷ l.interrupted }) }
