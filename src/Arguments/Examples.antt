-- ===== src/Arguments/Examples.antt =====
-- The layout theorems of `get_args` at three overlapping buffers and at a mapped one.
use reasoned_soc.Prelude.{
  get_or, ◌+◌, ◌≤◌, ◌≡◌, refl, true, false, none, some, List, [], ◌∷◌, arith,
}
use reasoned_soc.Overlap.{
  RemoteArg, Overlap, init_over, init_overs, place_over, place_overs, context_build_overlap,
}
use reasoned_soc.Overlap.InsertionSort.{insertion_sort, insertion_sort-Sorts}
use reasoned_soc.Arguments.{null_arg, add_len, copy_len, CopyEnv, copy_args}
use reasoned_soc.Arguments.Span.{span}
use reasoned_soc.Arguments.Fits.{Copied}
use reasoned_soc.Arguments.Ready.{copy_start, IsReady}
use reasoned_soc.Arguments.Layout.{copy_args_exact, copy_args_within, copy_args_shared}

abbrev three : List RemoteArg
three =
    record { pv = 1000; len = 100 }
    ∷ record { pv = 1010; len = 20 }
    ∷ record { pv = 1050; len = 100 }
    ∷ []

abbrev three_overs : List Overlap
three_overs =
    record { start = 1000; end = 1100; raix = 0; mstart = 1000; mend = 1100; offset = 0 }
    ∷ record { start = 1010; end = 1030; raix = 1; mstart = 0; mend = 0; offset = 90 }
    ∷ record { start = 1050; end = 1150; raix = 2; mstart = 1100; mend = 1150; offset = 50 }
    ∷ []

abbrev env : CopyEnv
env = record {
  kernel = false;
  inbufs = 2;
  lpra = three;
  maps = [];
  list =
      record { num = 1; pgidx = 0 }
      ∷ record { num = 1; pgidx = 1 }
      ∷ record { num = 1; pgidx = 2 }
      ∷ [];
  phys = 0x8000_0000;
  copylen = 278;
  readable = λ a n. true;
}

abbrev zeroes : List RemoteArg
zeroes = null_arg ∷ null_arg ∷ null_arg ∷ []

env-IsReady : IsReady insertion_sort env 3 8192 100 three_overs
unfolding context_build_overlap init_overs init_over place_overs place_over insertion_sort copy_len
    add_len span
env-IsReady = record {
  words = omega arith;
  shorts = omega arith;
  built = refl;
  measured = refl;
  free = λ i. refl;
  readable = λ i h. refl;
  aligned = refl;
  fits = omega arith;
}

copy_args_exact_example :
    Copied
      (λ t. (t.args ≡ 8192 + 278) × (t.rlen ≡ 0))
      (copy_args env three_overs (copy_start 8192 100 278 zeroes []))
copy_args_exact_example =
    copy_args_exact insertion_sort-Sorts env 3 8192 100 three_overs env-IsReady zeroes []

copy_args_within_example :
    Copied
      (λ t. (8292 ≤ (get_or t.rpra 1 null_arg).pv) × ((get_or t.rpra 1 null_arg).pv + 20 ≤ 8470))
      (copy_args env three_overs (copy_start 8192 100 278 zeroes []))
copy_args_within_example =
    copy_args_within insertion_sort-Sorts env 3 8192 100 three_overs env-IsReady zeroes [] 1
      (omega arith) (omega arith) (omega arith)

copy_args_shared_example :
    Copied
      (λ t. (get_or t.rpra 0 null_arg).pv + 60 ≡ (get_or t.rpra 2 null_arg).pv + 10)
      (copy_args env three_overs (copy_start 8192 100 278 zeroes []))
copy_args_shared_example =
    copy_args_shared insertion_sort-Sorts env 3 8192 100 three_overs env-IsReady zeroes [] 0
      (omega arith) (omega arith) (omega arith) 2 1060 (record { pv = 1000; len = 100 })
      (record { pv = 1050; len = 100 }) refl refl (omega arith) (omega arith) refl refl

-- A mapped buffer, and an input buffer of 200 bytes that begins 100 bytes before its end.
abbrev mapped_env : CopyEnv
mapped_env = record {
  kernel = false;
  inbufs = 2;
  lpra = record { pv = 1000; len = 300 } ∷ record { pv = 1200; len = 200 } ∷ [];
  maps = some 1 ∷ none ∷ [];
  list = record { num = 1; pgidx = 0 } ∷ record { num = 1; pgidx = 1 } ∷ [];
  phys = 0x8000_0000;
  copylen = 200;
  readable = λ a n. true;
}

abbrev outer : Overlap
outer = record { start = 1000; end = 1300; raix = 0; mstart = 0; mend = 0; offset = 0 }

abbrev straddling : Overlap
straddling = record { start = 1200; end = 1400; raix = 1; mstart = 0; mend = 0; offset = 0 }
