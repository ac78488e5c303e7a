-- ===== src/Context/Response.antt =====
-- Completion of contexts in android/adsprpc.c: the response handlers of the two transports, and the
-- functions that wake everyone up when a channel or a protection domain goes down.
use reasoned_soc.Prelude.{
  ltb, leb, ◌==◌, if◌then◌else◌, get_or, ℕ, Bool, true, false, not, ◌&&◌, Option, none, some, List,
  [], ◌∷◌,
}
use reasoned_soc.Errno.{Result, ◌>>◌, verify, failed, err, ok}
use reasoned_soc.Context.{ctx_max, ctx_magic, Ctx, Contexts, put}
use reasoned_soc.Context.Ids.{index_of, id_of}

-- `struct smq_invoke_rsp`
pub record Rsp : Type 0 where
  pub ctx : ℕ
  pub retval : ℕ

unfoldable pub context_notify_user : ℕ → ℕ → Contexts → Contexts
context_notify_user p retval s = elim (s.cell p) [
  | none ↦ s
  | some c ↦ record s {
    cell = put s.cell p (some (record c { retval = retval; completed = true }));
  }
]

abbrev pub entry_at : List (Option ℕ) → ℕ → Option ℕ
entry_at entries i = get_or entries i none

-- The checks that both handlers make before they notify the context.
unfoldable pub deliver : Rsp → Contexts → Result Contexts
deliver rsp s = do
  verify (ltb (index_of rsp.ctx) ctx_max)
  elim (entry_at s.table (index_of rsp.ctx)) [
    | none ↦ err failed
    | some p ↦ elim (s.cell p) [
      | none ↦ err failed
      | some c ↦ do
        verify ((c.ctxid == id_of rsp.ctx) && (c.magic == ctx_magic))
        ok (context_notify_user p rsp.retval s)
    ]
  ]

abbrev pub or_else : Contexts → Result Contexts → Contexts
or_else s (ok t) = t
or_else s (err e) = s

-- `ptr` is null for `none`; `rsp_size` is `sizeof(struct smq_invoke_rsp)`.
unfoldable pub glink_notify_rx : ℕ → Option Rsp → ℕ → Contexts → Contexts
glink_notify_rx rsp_size none size s = s
glink_notify_rx rsp_size (some rsp) size s =
    if leb rsp_size size then or_else s (deliver rsp s) else s

-- The responses that wait in the channel, in order; the loop stops behind the first one that is
-- refused, and leaves the rest in the channel.
unfoldable pub smd_read_handler : List Rsp → Contexts → Contexts × List Rsp
smd_read_handler [] s = (s, [])
smd_read_handler (rsp ∷ rest) s = elim (deliver rsp s) [
  | err e ↦ (s, rest)
  | ok t ↦ smd_read_handler rest t
]

abbrev pub complete : Option Ctx → Option Ctx
complete none = none
complete (some c) = some (record c { completed = true })

-- `complete(&ictx->work)` for an entry that passes the test
unfoldable pub complete_one : (Ctx → Bool) → ℕ → (ℕ → Option Ctx) → ℕ → Option Ctx
complete_one test p cell = elim (cell p) [
  | none ↦ cell
  | some c ↦ if test c then put cell p (complete (some c)) else cell
]

-- and for each entry of a list
unfoldable pub complete_all : (Ctx → Bool) → List ℕ → (ℕ → Option Ctx) → ℕ → Option Ctx
unfolding complete_one
complete_all test [] cell = cell
complete_all test (p ∷ ps) cell = complete_all test ps (complete_one test p cell)

abbrev pub complete_file : (Ctx → Bool) → ℕ → Contexts → Contexts
complete_file test f s =
    let l = s.clst f in
    record s { cell = complete_all test l.interrupted (complete_all test l.pending s.cell) }

unfoldable pub notify_users : ℕ → Contexts → Contexts
unfolding complete_all
notify_users f s = complete_file (λ c. true) f s

unfoldable pub notify_users_staticpd_pdr : ℕ → Contexts → Contexts
unfolding complete_all
notify_users_staticpd_pdr f s = complete_file (λ c. not (c.msg_pid == 0)) f s

-- An entry of `me->drivers`: an open file, its channel, and its static protection domain, a name
-- that is represented by a number.
pub record Driver : Type 0 where
  pub fl : ℕ
  pub cid : Option ℕ
  pub spdname : Option ℕ

abbrev pub is_at : ℕ → Option ℕ → Bool
is_at n none = false
is_at n (some m) = m == n

unfoldable pub notify_drivers : List Driver → ℕ → Contexts → Contexts
notify_drivers [] cid s = s
notify_drivers (d ∷ ds) cid s =
    notify_drivers ds cid (if is_at cid d.cid then notify_users d.fl s else s)

unfoldable pub notify_pdr_drivers : List Driver → ℕ → Contexts → Contexts
notify_pdr_drivers [] name s = s
notify_pdr_drivers (d ∷ ds) name s =
    notify_pdr_drivers ds name
      (if is_at name d.spdname then notify_users_staticpd_pdr d.fl s else s)
