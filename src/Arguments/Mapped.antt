-- ===== src/Arguments/Mapped.antt =====
-- What the layout of `get_args` does to a buffer that overlaps a mapped one.
use reasoned_soc.Prelude.{◌-◌, ◌≤◌, ◌<◌, ◌≡◌, true, false}
use reasoned_soc.Overlap.{Overlap}
use reasoned_soc.Arguments.{is_mapped, CopyEnv}
use reasoned_soc.Arguments.Span.{IsArg}

-- A mapped buffer `o`, and an input buffer `q` that is not mapped, starts in `o` and ends behind it.
pub record IsStraddle (env : CopyEnv) (o q : Overlap) : Type 0 where
  pub mapped : is_mapped env.maps o.raix ≡ true
  pub unmapped : is_mapped env.maps q.raix ≡ false
  pub input : q.raix < env.inbufs
  pub arg : IsArg env.lpra q
  pub first : o.start ≤ q.start
  pub inside : q.start < o.end
  pub behind : o.end < q.end

-- The two buffers as `context_build_overlap` leaves them.
abbrev head : Overlap → Overlap
head o = record o { mstart = o.start; mend = o.end; offset = 0 }

abbrev tail : Overlap → Overlap → Overlap
tail o q = record q { mstart = o.end; mend = q.end; offset = o.end - q.start }
