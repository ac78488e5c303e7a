-- ===== src/Process/Balance.antt =====
-- The mapping of the program's file in `fastrpc_init_process` of android/adsprpc.c.
use reasoned_soc.Prelude.{◌==◌, Bool-cases, ◌<◌, ◌≡◌, refl, sym, inl, inr, Bool, false, not, arith}
use reasoned_soc.Mapping.{mmap_free}
use reasoned_soc.Mapping.Create.{mmap_create}
use reasoned_soc.Errno.{Result-cases}
use reasoned_soc.Process.{
  InitIoctl, InitGiven, Process, set_maps, file_wanted, start_created, create_process,
}
use reasoned_soc.Mapping.Counts.{IsCounted}
use reasoned_soc.Process.Dropped.{IsBalanced, unchanged, dropped, IsFreshFor, created-IsBalanced}
use mathlib.Core.Path.{subst}

start_created-opening :
    (g : InitGiven) (init : InitIoctl) (s : Process)
    → (start_created g init s).1.opening ≡ s.opening
unfolding start_created
start_created-opening g init s = ground arith

-- Let the lists of mappings be sound, let the DMA address and length be positive, and let `kzalloc`
-- give no mapping that is live or in the list of the file. Then FASTRPC_INIT_CREATE leaves the
-- mappings, their reference counts, the lists and what is held as they were, on every path: whether
-- the file of the program was mapped before or is mapped anew, whether that, the allocation of the
-- memory or the call of the remote processor fails or all of them succeed.
pub create_process-IsBalanced :
    (g : InitGiven) (dev : Bool) (init : InitIoctl) (s : Process)
    → IsCounted s.opening.maps
    → 0 < g.map.dma_address
    → 0 < g.map.dma_len
    → IsFreshFor g.map s.fl s.opening.maps
    → IsBalanced s.opening.maps (create_process g dev init s).1.opening.maps
unfolding create_process
create_process-IsBalanced g dev init s v pos pos_len fresh = elim (Bool-cases (not g.access_ok)) [
  | inl off ↦ rw (create_process, off) (unchanged s.opening.maps)
  | inr on ↦ elim (Bool-cases (init.filelen == 0)) [
    | inl empty ↦
        rw (create_process, on, empty)
          (subst (λ o. IsBalanced s.opening.maps o.maps)
            (sym (start_created-opening g init (record s { pd = 1 }))) (unchanged s.opening.maps))
    | inr full ↦
        let w = file_wanted g s.fl init in
        let result = mmap_create dev g.map w s.opening.maps in
        let all =
          created-IsBalanced dev g.map w s.opening.maps (refl, refl) refl v pos pos_len fresh in
        elim (Result-cases result.0) [
          | inl (e, bad) ↦
              simp (create_process, on, full, bad)
                (subst (λ r. IsBalanced s.opening.maps (dropped dev (r, result.1))) bad all)
          | inr (p, good) ↦
              let left : IsBalanced s.opening.maps (mmap_free dev p false result.1) =
                subst (λ r. IsBalanced s.opening.maps (dropped dev (r, result.1))) good all in
              let s' = set_maps result.1 (record s { pd = 1 }) in
              simp (create_process, on, full, good)
                (subst (λ o. IsBalanced s.opening.maps (mmap_free dev p false o.maps))
                  (sym (start_created-opening g init s')) left)
        ]
  ]
]
