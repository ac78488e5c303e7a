-- ===== src/Overlap/Examples.antt =====
-- Runs of `context_build_overlap`, and its theorems at three overlapping buffers.
use reasoned_soc.Prelude.{if◌then◌else◌, take, ◌≡◌, refl, ◌↔◌, true, List, [], ◌∷◌, map, arith}
use reasoned_soc.Errno.{failed, err, ok}
use reasoned_soc.Overlap.{
  RemoteArg, Overlap, init_over, init_overs, place_over, place_overs, context_build_overlap,
}
use reasoned_soc.Overlap.Pieces.{pieces}
use reasoned_soc.Overlap.Build.{
  any_wraps, overs_of, origin, build-wraps, build-pieces, build-origins,
}
use reasoned_soc.Overlap.InsertionSort.{insertion_sort, insertion_sort-Sorts}
use mathlib.Core.List.{Perm}

-- The second buffer lies in the first, the third runs over its end.
abbrev three : List RemoteArg
three =
    record { pv = 1000; len = 100 }
    ∷ record { pv = 1010; len = 20 }
    ∷ record { pv = 1050; len = 100 }
    ∷ []

abbrev three_overs : List Overlap
three_overs =
    record { start = 1000; end = 1100; raix = 0; mstart = 1000; mend = 1100; offset = 0 }
    ∷ record { start = 1010; end = 1030; raix = 1; mstart = 0; mend = 0; offset = 90 }
    ∷ record { start = 1050; end = 1150; raix = 2; mstart = 1100; mend = 1150; offset = 50 }
    ∷ []

three_built : context_build_overlap insertion_sort 3 three ≡ ok three_overs
unfolding context_build_overlap init_overs init_over place_overs place_over insertion_sort
three_built = refl

build-wraps_example :
    ((context_build_overlap insertion_sort 3 three ≡ err failed)
      ↔ (any_wraps (take 3 three) ≡ true))
    × (context_build_overlap insertion_sort 3 three ≡ (
        if any_wraps (take 3 three)
        then err failed
        else ok (place_overs 0 (insertion_sort (overs_of 0 (take 3 three))))))
build-wraps_example = build-wraps insertion_sort-Sorts 3 three (omega arith)

build-pieces_example : pieces 1060 three_overs ≡ 1
build-pieces_example =
    build-pieces insertion_sort-Sorts 3 three three_overs (omega arith) three_built 1060

build-origins_example :
    Perm (map origin three_overs) ((0, 1000, 1100) ∷ (1, 1010, 1030) ∷ (2, 1050, 1150) ∷ [])
build-origins_example =
    build-origins insertion_sort-Sorts 3 three three_overs (omega arith) three_built
