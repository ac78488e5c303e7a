-- ===== src/Overlap/Pieces.antt =====
-- The pieces that the second loop of `context_build_overlap` cuts out of sorted buffers.
use Prim.Native.Nat.{Ordering}
use reasoned_soc.Prelude.{
  ℕ, ◌+◌, ◌≤◌, ◌<◌, ◌≡◌, refl, ◌≢◌, Bool, false, ◌&&◌, ◌||◌, List, [], ◌∷◌, arith, leb, ltb,
  if◌then◌else◌, All,
}
use reasoned_soc.Overlap.{Overlap, overlap_ptr_cmp, place_over, place_overs}

abbrev pub in_range : ℕ → ℕ → ℕ → Bool
in_range lo hi a = leb lo a && ltb a hi

-- Some buffer holds the byte at `a`.
abbrev pub covered : ℕ → List Overlap → Bool
covered a [] = false
covered a (o ∷ os) = in_range o.start o.end a || covered a os

-- How many pieces hold the byte at `a`.
abbrev pub pieces : ℕ → List Overlap → ℕ
pieces a [] = 0
pieces a (o ∷ os) = (if in_range o.mstart o.mend a then 1 else 0) + pieces a os

abbrev pub IsSorted : List Overlap → Type 0
IsSorted [] = Unit {0}
IsSorted (o ∷ os) = All (λ p. overlap_ptr_cmp o p ≢ Ordering.gt) os × IsSorted os

abbrev pub IsOrdered : Overlap → Type 0
IsOrdered o = o.start ≤ o.end

pub start-le : (o p : Overlap) → overlap_ptr_cmp o p ≢ Ordering.gt → o.start ≤ p.start
unfolding overlap_ptr_cmp
start-le o p h = ground arith

covered_below :
    (o : Overlap) (a : ℕ) (os : List Overlap)
    → All (λ p. overlap_ptr_cmp o p ≢ Ordering.gt) os
    → a < o.start
    → covered a os ≡ false
covered_below o a [] h lt = refl
covered_below o a (p ∷ os) h lt = ground (arith, start-le o p h.0, covered_below o a os h.1 lt)

pub pieces-place_overs :
    (a max_end : ℕ) (os : List Overlap)
    → IsSorted os
    → All IsOrdered os
    → pieces a (place_overs max_end os) ≡ (if leb max_end a && covered a os then 1 else 0)
unfolding place_overs place_over
pieces-place_overs a max_end [] s h = ground arith
pieces-place_overs a max_end (o ∷ os) s h = ground (
  arith,
  covered_below o a os s.0,
  pieces-place_overs a max_end os s.1 h.1,
  pieces-place_overs a o.end os s.1 h.1,
)
