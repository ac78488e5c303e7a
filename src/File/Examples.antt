-- ===== src/File/Examples.antt =====
-- A file with a mapping, a cached and a remote buffer, which is closed.
use mathlib.Core.Path.{subst}
use reasoned_soc.Prelude.{
  ◌==◌, Bool-cases, ℕ, ◌<◌, ◌≡◌, refl, sym, inl, inr, true, false, none, some, [], ◌∷◌, ◌++◌, arith,
}
use reasoned_soc.Session.{Session, no_session}
use reasoned_soc.Context.{
  Contexts, put, free_entry, Request, enter_table, enter_pending, context_alloc,
}
use reasoned_soc.Context.Runs.{initially, Reach-IsConsistent, allocates, started, next}
use reasoned_soc.Mapping.{Map, Maps}
use reasoned_soc.Mapping.Counts.{IsCounted}
use reasoned_soc.Buffer.{Bufs, new_buf}
use reasoned_soc.Buffer.Emptied.{IsListed}
use reasoned_soc.Channel.{connected}
use reasoned_soc.File.{World, freed_contexts, Closing, file_free}
use reasoned_soc.File.Closed.{IsGone, file_free-IsGone}
use reasoned_soc.File.Released.{maps_of, bufs_of}
use reasoned_soc.Context.Interrupted.{free_each}
use reasoned_soc.Context.Invariant.{occurs, IsConsistent}

abbrev used_session : Session
used_session = record no_session { used = true }

abbrev one_map : Map
one_map = record {
  fl = some 1;
  fd = 3;
  flags = 0;
  handle = true;
  buf = true;
  attach = true;
  table = true;
  phys = 0x8000_0000;
  size = 0x1000;
  va = 0x10_0000;
  len = 0x1000;
  refs = 2;
  raddr = 0;
  uncached = false;
  secure = false;
}

abbrev maps_of_file : Maps
maps_of_file = record {
  cell = put (λ p. none) 0x9000 (some one_map);
  global = [];
  maps = put (λ f. []) 1 (0x9000 ∷ []);
  sessions = λ f. record { sctx = some used_session; secsctx = none };
  held = record { regions = 0; handles = 1; bufs = 1; attaches = 1; tables = 1; mapped = 0 };
}

abbrev request : Request
request = record {
  fl = 1;
  tgid = 7;
  pid = 70;
  sc = 5;
  length = 0;
  nbufs = 0;
  lpra = [];
  fresh = some 0x12345;
  copied = true;
}

-- One call is pending.
abbrev one_call : Contexts
one_call = (context_alloc (λ os. os) request initially).1

one_call-IsConsistent : IsConsistent one_call
one_call-IsConsistent =
    Reach-IsConsistent {sort = λ os. os} (next started (allocates request λ p h. refl))

one_call-freed : freed_contexts 1 one_call ≡ 0x12345 ∷ []
unfolding context_alloc enter_table free_entry enter_pending free_each
one_call-freed = refl

abbrev bufs_of_file : Bufs
bufs_of_file = record {
  cell =
      put
        (put (put (λ p. none) 1 (some (new_buf 0x1000 0 (some 0xf000) 0x8000_0000))) 2
          (some (record (new_buf 0x1000 0 (some 0xe000) 0x9000_0000) { remote = true })))
        3 (some (new_buf 0x1000 0 (some 0xd000) 0xa000_0000));
  cached_bufs = 1 ∷ [];
  remote_bufs = 2 ∷ [];
  freed = [];
  cb = 5;
}

abbrev world : World
world = record {
  drivers = 1 ∷ [];
  contexts = one_call;
  owned = λ p. record { maps = 0x9000 ∷ []; buf = some 3; lbuf = none };
  maps = maps_of_file;
  bufs = bufs_of_file;
  ctx = record {
    chan = some 0xc000;
    work = 0;
    workport = 0;
    kref = 1;
    ssrcount = 0;
    prevssrcount = 0;
    issubsystemup = true;
    link = record { link_up = true; port_state = connected; registered = true };
  };
  chan = record { session = used_session ∷ []; sesscount = 1; ssrcount = 0; secure = false };
}

abbrev closing : Closing
closing = record {
  fl = 1;
  file = record { cid = some 3; sctx = true; ssrcount = 0; refcount = true };
  init_mem = none;
  sctx = some 0;
  secsctx = none;
}

maps-IsCounted : IsCounted maps_of_file
maps-IsCounted = record {
  global = λ p h. ground (arith, h);
  file = λ f p h. ground (arith, h);
  global_once = λ p. omega arith;
  file_once = λ f p. ground arith;
}

-- The buffer of the context, and the cached one.
cached-IsListed : IsListed false (3 ∷ 1 ∷ []) bufs_of_file
cached-IsListed = (
  (λ q h. elim (Bool-cases (3 == q)) [
    | inl e ↦
        let q_eq : 3 ≡ q = ground (arith, e) in
        (new_buf 0x1000 0 (some 0xd000) 0xa000_0000, ground (arith, q_eq), refl)
    | inr e ↦
        let q_eq : 1 ≡ q = ground (arith, e, h) in
        (new_buf 0x1000 0 (some 0xf000) 0x8000_0000, ground (arith, q_eq), refl)
  ]),
  λ q. ground arith,
)

remote-IsListed : IsListed true bufs_of_file.remote_bufs bufs_of_file
remote-IsListed = (
  (λ q h.
      let q_eq : 2 ≡ q = ground (arith, h) in
      (
        record (new_buf 0x1000 0 (some 0xe000) 0x9000_0000) { remote = true },
        ground (arith, q_eq),
        refl,
      )),
  λ q. ground arith,
)

file_free-IsGone_example : IsGone closing 0 world (file_free true true closing world)
file_free-IsGone_example =
    file_free-IsGone true true closing 0 world refl one_call-IsConsistent maps-IsCounted
      (subst
        (λ ps.
          (q : ℕ)
          → 0 < occurs q (maps_of world.owned ps)
          → 0 < occurs q (world.maps.maps closing.fl))
        (sym one_call-freed) (λ q h. ground (arith, h)))
      (subst (λ ps. IsListed false (bufs_of world.owned ps ++ world.bufs.cached_bufs) world.bufs)
        (sym one_call-freed) cached-IsListed)
      remote-IsListed tt (λ p h. ground (arith, h))
