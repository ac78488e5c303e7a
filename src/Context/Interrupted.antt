-- ===== src/Context/Interrupted.antt =====
-- A context across a signal in android/adsprpc.c: `context_restore_interrupted` takes it up again,
-- and `fastrpc_context_list_dtor` frees what is left when the file is closed.
use reasoned_soc.Prelude.{◌==◌, if◌then◌else◌, ℕ, not, ◌||◌, Option, none, some, List, [], ◌∷◌}
use reasoned_soc.Errno.{Result, failed, err, ok}
use reasoned_soc.Context.{Ctx, Contexts, put, unlink, context_free}

-- The first interrupted context of the process `pid`.
unfoldable pub find_pid : ℕ → (ℕ → Option Ctx) → List ℕ → Option (ℕ × Ctx)
find_pid pid cell [] = none
find_pid pid cell (p ∷ ps) =
    let rest = find_pid pid cell ps in
    elim (cell p) [ none ↦ rest | some c ↦ if c.pid == pid then some (p, c) else rest ]

-- `fl`, the caller's `pid` and the scalars of the new call; `none` if there is no such context.
unfoldable pub context_restore_interrupted : ℕ → ℕ → ℕ → Contexts → Result (Option ℕ) × Contexts
context_restore_interrupted fl pid sc s =
    let l = s.clst fl in
    elim (find_pid pid s.cell l.interrupted) [
      | none ↦ (ok none, s)
      | some (p, c) ↦ if not (sc == c.sc) || not (c.fl == fl) then (err failed, s) else (
        ok (some p),
        record s {
          clst =
              put s.clst fl
                (record { pending = p ∷ unlink p l.pending; interrupted = unlink p l.interrupted });
        },
      )
    ]

-- One of the two loops of `fastrpc_context_list_dtor`, over the entries of a list.
unfoldable pub free_each : List ℕ → Contexts → Contexts
free_each [] s = s
free_each (p ∷ ps) s = free_each ps (context_free p s)

unfoldable pub context_list_dtor : ℕ → Contexts → Contexts
unfolding free_each
context_list_dtor fl s =
    let t = free_each (s.clst fl).interrupted s in free_each (t.clst fl).pending t
