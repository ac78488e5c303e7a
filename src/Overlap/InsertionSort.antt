-- ===== src/Overlap/InsertionSort.antt =====
-- A `sort` that meets what is assumed of the kernel's: insertion by `overlap_ptr_cmp`.
use Prim.Native.Nat.{Ordering}
use mathlib.Core.List.{Perm}
use reasoned_soc.Prelude.{
  if◌then◌else◌, Bool-cases, All, ◌≡◌, ◌≢◌, inl, inr, Bool, true, false, List, [], ◌∷◌, arith,
}
use mathlib.Core.List.Perm
use reasoned_soc.Overlap.{Overlap, overlap_ptr_cmp}
use reasoned_soc.Overlap.Pieces.{IsSorted}
use reasoned_soc.Overlap.Build.{Sorts}

abbrev is_gt : Ordering → Bool
is_gt Ordering.gt = true
is_gt _ = false

insert : Overlap → List Overlap → List Overlap
insert o [] = o ∷ []
insert o (p ∷ os) = if is_gt (overlap_ptr_cmp o p) then p ∷ insert o os else o ∷ p ∷ os

unfoldable pub insertion_sort : List Overlap → List Overlap
unfolding insert overlap_ptr_cmp
insertion_sort [] = []
insertion_sort (o ∷ os) = insert o (insertion_sort os)

insert-perm : (o : Overlap) (os : List Overlap) → Perm (insert o os) (o ∷ os)
unfolding insert
insert-perm o [] = Perm.refl (o ∷ [])
insert-perm o (p ∷ os) = elim (Bool-cases (is_gt (overlap_ptr_cmp o p))) [
  | inl e ↦ rw e (Perm.trans (Perm.cons p (insert-perm o os)) (Perm.swap o p os))
  | inr e ↦ rw e (Perm.refl (o ∷ p ∷ os))
]

sort-perm : (os : List Overlap) → Perm (insertion_sort os) os
unfolding insertion_sort
sort-perm [] = Perm.refl []
sort-perm (o ∷ os) = Perm.trans (insert-perm o (insertion_sort os)) (Perm.cons o (sort-perm os))

abbrev NotAfter : Overlap → Overlap → Type 0
NotAfter o p = overlap_ptr_cmp o p ≢ Ordering.gt

NotAfter-trans : (o p q : Overlap) → NotAfter o p → NotAfter p q → NotAfter o q
unfolding overlap_ptr_cmp
NotAfter-trans o p q h k = ground arith

NotAfter-total : (o p : Overlap) → overlap_ptr_cmp o p ≡ Ordering.gt → NotAfter p o
unfolding overlap_ptr_cmp
NotAfter-total o p h = ground arith

NotAfter-All :
    (o p : Overlap) (os : List Overlap) → NotAfter o p → All (NotAfter p) os → All (NotAfter o) os
NotAfter-All o p [] h a = tt
NotAfter-All o p (q ∷ os) h a = (NotAfter-trans o p q h a.0, NotAfter-All o p os h a.1)

NotAfter-insert :
    (p o : Overlap) (os : List Overlap)
    → NotAfter p o
    → All (NotAfter p) os
    → All (NotAfter p) (insert o os)
unfolding insert
NotAfter-insert p o [] h a = (h, tt)
NotAfter-insert p o (q ∷ os) h a = elim (Bool-cases (is_gt (overlap_ptr_cmp o q))) [
  | inl e ↦ rw e (a.0, NotAfter-insert p o os h a.1)
  | inr e ↦ rw e (h, (a.0, a.1))
]

insert-IsSorted : (o : Overlap) (os : List Overlap) → IsSorted os → IsSorted (insert o os)
unfolding insert
insert-IsSorted o [] s = (tt, tt)
insert-IsSorted o (p ∷ os) s = elim (Bool-cases (is_gt (overlap_ptr_cmp o p))) [
  | inl e ↦ rw e (
    NotAfter-insert p o os (NotAfter-total o p (ground (arith, e))) s.0,
    insert-IsSorted o os s.1,
  )
  | inr e ↦ let h : NotAfter o p = ground (arith, e) in rw e ((h, NotAfter-All o p os h s.0), s)
]

sort-IsSorted : (os : List Overlap) → IsSorted (insertion_sort os)
unfolding insertion_sort
sort-IsSorted [] = tt
sort-IsSorted (o ∷ os) = insert-IsSorted o (insertion_sort os) (sort-IsSorted os)

pub insertion_sort-Sorts : Sorts insertion_sort
insertion_sort-Sorts = record { perm = sort-perm; sorted = sort-IsSorted }
