-- ===== src/Mapping/Examples.antt =====
-- A file without mappings, and one with a mapping of the descriptor 3.
use reasoned_soc.Prelude.{
  if◌then◌else◌, ◌==◌, ◌≡◌, ◌<◌, ◌≤◌, ◌+◌, ◌%◌, ◌^◌, ◌↔◌, ℕ, refl, true, false, none, some, [], ◌∷◌,
  arith,
}
use reasoned_soc.Errno.{failed, err, ok, enotty, eoverflow}
use reasoned_soc.Session.{no_session}
use reasoned_soc.Context.{put}
use reasoned_soc.Context.Invariant.{occurs}
use reasoned_soc.Mapping.{Map, Maps, Held, find_map, mmap_find}
use reasoned_soc.Mapping.Fill.{◌>>=◌, attempt, update}
use reasoned_soc.Mapping.Create.{
  Given, Wanted, new_map, import, fill, fill_plain, finish, mmap_create,
}
use reasoned_soc.Mapping.Failure.{IsLeaked, mmap_create_fails}
use reasoned_soc.Mapping.Counts.{IsCounted}
use reasoned_soc.Mapping.Runs.{Reach-IsCounted, next, started, creates}
use reasoned_soc.Mapping.Search.{Covers, list_for, IsFound, mmap_find_lem, mmap_find_refuses}

abbrev nothing_held : Held
nothing_held = record { regions = 0; handles = 0; bufs = 0; attaches = 0; tables = 0; mapped = 0 }

abbrev empty : Maps
empty = record {
  cell = λ p. none;
  global = [];
  maps = λ f. [];
  sessions = λ f. record { sctx = some no_session; secsctx = none };
  held = nothing_held;
}

-- `kzalloc` and the handle are fine; its flags cannot be read.
abbrev no_flags : Given
no_flags = record {
  fresh = some 0x9000;
  region = none;
  handle = true;
  ion_range = err failed;
  ion_flags = none;
  session = err failed;
  buf = true;
  attach = true;
  nents = some 1;
  mapped_nents = 1;
  dma_address = 0x8000_0000;
  dma_len = 0x1000;
  assigned = true;
}

abbrev wanted : Wanted
wanted = record {
  fl = 1;
  fd = 3;
  keep_map = true;
  nova = false;
  va = 0x10_0000;
  len = 0x1000;
  mflags = 0;
  vmid = 0;
  range = (0, 2 ^ 40);
}

create_fails : (mmap_create true no_flags wanted empty).0 ≡ err failed
unfolding mmap_create mmap_find find_map finish fill fill_plain import ◌>>=◌ attempt update
create_fails = refl

create_missing : (mmap_find 1 3 0x10_0000 0x1000 0 true empty).0 ≡ err enotty
unfolding mmap_find find_map
create_missing = refl

mmap_create_fails_example : IsLeaked 0x9000 empty (mmap_create true no_flags wanted empty).1
mmap_create_fails_example =
    mmap_create_fails true no_flags wanted empty 0x9000 enotty failed (refl, refl) (omega arith)
      (omega arith) create_missing refl refl refl create_fails

abbrev mapped : Map
mapped = record (new_map wanted) { va = 0x10_0000; len = 0x1000 }

abbrev one_map : Maps
one_map = record empty {
  cell = λ p. if p == 0x9000 then some mapped else none;
  maps = λ f. 0x9000 ∷ [];
}

one_found : mmap_find 1 3 0x10_0800 0x100 0 true one_map ≡ (
  ok 0x9000,
  record one_map { cell = put one_map.cell 0x9000 (some (record mapped { refs = 2 })) },
)
unfolding mmap_find find_map
one_found = refl

mmap_find_lem_example :
    IsFound 1 3 0x10_0800 0x100 0 true 0x9000 one_map
      (record one_map { cell = put one_map.cell 0x9000 (some (record mapped { refs = 2 })) })
mmap_find_lem_example = mmap_find_lem 1 3 0x10_0800 0x100 0 true one_map _ 0x9000 one_found

mmap_find_refuses_example :
    let r = mmap_find 1 3 0x20_0000 0x100 0 true one_map in
    ((r ≡ (err eoverflow, one_map)) ↔ ((0x20_0000 + 0x100) % 2 ^ 64 < 0x20_0000))
    × ((r ≡ (err enotty, one_map)) ↔ (
        (0x20_0000 ≤ (0x20_0000 + 0x100) % 2 ^ 64)
        × ((p : ℕ) (m : Map)
            → one_map.cell p ≡ some m
            → 0 < occurs p (list_for 1 0 one_map)
            → ¬ (Covers 3 0x20_0000 0x100 m))))
mmap_find_refuses_example = mmap_find_refuses 1 3 0x20_0000 0x100 0 true one_map

empty-IsCounted : IsCounted empty
empty-IsCounted = record {
  global = λ p h. ground arith;
  file = λ f p h. ground arith;
  global_once = λ p. omega arith;
  file_once = λ f p. omega arith;
}

-- a creation that fails
Reach-IsCounted_example : IsCounted (mmap_create true no_flags wanted empty).1
Reach-IsCounted_example = Reach-IsCounted empty-IsCounted (
    next started
      (creates true no_flags wanted (omega arith) (omega arith) λ p h. (refl, λ f. refl)))
