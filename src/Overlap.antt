-- ===== src/Overlap.antt =====
-- Overlapping argument buffers of an invocation: `overlap_ptr_cmp` and `context_build_overlap` of
-- android/adsprpc.c. `sort` is the kernel's, a parameter.
pub mod Build
mod Examples
pub mod InsertionSort
pub mod Pieces
use Prim.Native.Nat.{Ordering, compare}
use reasoned_soc.Prelude.{ℕ, ◌+◌, ◌-◌, ◌||◌, List, [], ◌∷◌, ltb, ◌==◌, if◌then◌else◌, take}
use reasoned_soc.Errno.{Result, ok, ◌>>=◌, ◌>>◌, verify}
use reasoned_soc.Pages.{u64}

-- `remote_arg_t`, as far as its buffer goes
pub record RemoteArg : Type 0 where
  pub pv : ℕ
  pub len : ℕ

pub record Overlap : Type 0 where
  pub start : ℕ
  pub end : ℕ
  pub raix : ℕ
  pub mstart : ℕ
  pub mend : ℕ
  pub offset : ℕ

-- The macro CMP: 0, -1 and 1 are `eq`, `lt` and `gt`.
abbrev pub cmp : ℕ → ℕ → Ordering
cmp aa bb = compare aa bb

unfoldable pub overlap_ptr_cmp : Overlap → Overlap → Ordering
overlap_ptr_cmp pa pb =
    let ed = cmp pb.end pa.end in
    elim (cmp pa.start pb.start) [
      | Ordering.eq ↦ ed
      | Ordering.lt ↦ Ordering.lt
      | Ordering.gt ↦ Ordering.gt
    ]

-- One round of the first loop. The context was allocated zeroed.
unfoldable pub init_over : ℕ → RemoteArg → Result Overlap
init_over i arg = do
  let end = u64 (arg.pv + arg.len)
  verify ((arg.len == 0) || ltb arg.pv end)
  ok (record { start = arg.pv; end = end; raix = i; mstart = 0; mend = 0; offset = 0 })

unfoldable pub init_overs : ℕ → List RemoteArg → Result (List Overlap)
init_overs i [] = ok []
init_overs i (arg ∷ args) = do o ← init_over i arg; os ← init_overs (i + 1) args; ok (o ∷ os)

-- One round of the second loop, with the new `max.end`; nothing reads the other fields of `max`.
unfoldable pub place_over : ℕ → Overlap → Overlap × ℕ
place_over max_end o =
    if ltb o.start max_end
    then (if ltb max_end o.end
        then (record o { mstart = max_end; mend = o.end; offset = max_end - o.start }, o.end)
        else (record o { mstart = 0; mend = 0; offset = max_end - o.start }, max_end))
    else (record o { mstart = o.start; mend = o.end; offset = 0 }, o.end)

unfoldable pub place_overs : ℕ → List Overlap → List Overlap
place_overs max_end [] = []
place_overs max_end (o ∷ os) =
    let (o', max_end') = place_over max_end o in o' ∷ place_overs max_end' os

-- The result is `overps`, in its order after the sort; `overs` holds the same records by `raix`.
unfoldable pub context_build_overlap :
    (List Overlap → List Overlap) → ℕ → List RemoteArg → Result (List Overlap)
context_build_overlap sort nbufs lpra = do
  overs ← init_overs 0 (take nbufs lpra)
  ok (place_overs 0 (sort overs))
