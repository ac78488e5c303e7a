-- ===== src/Buffer/Examples.antt =====
-- A file with two cached buffers.
use reasoned_soc.Prelude.{
  ◌==◌, if◌then◌else◌, ℕ, ◌≡◌, refl, true, false, none, some, [], ◌∷◌, arith,
}
use reasoned_soc.Errno.{ok}
use reasoned_soc.Buffer.{Buf, Bufs, BufGiven, new_buf, buf_alloc}
use reasoned_soc.Context.{unlink}
use reasoned_soc.Buffer.Cache.{IsBest, buf_alloc_cached}

abbrev small_buf : Buf
small_buf = new_buf 0x1000 0 (some 0x70_0000) 0x1_0000

abbrev large_buf : Buf
large_buf = new_buf 0x4000 0 (some 0x80_0000) 0x2_0000

abbrev two_bufs : Bufs
two_bufs = record {
  cell = λ p. if p == 1 then some large_buf else if p == 2 then some small_buf else none;
  cached_bufs = 1 ∷ 2 ∷ [];
  remote_bufs = [];
  freed = [];
  cb = 5;
}

abbrev memory : BufGiven
memory = record {
  fresh = some 3;
  first = some (0x90_0000, 0x3_0000);
  second = none;
  assigned = true;
  vmid = 6;
}

buf_alloc_cached_example :
    (p : ℕ) × (b : Buf) × IsBest two_bufs.cell 0x800 (1 ∷ 2 ∷ []) p b
    × (buf_alloc memory 0x800 0 false two_bufs
        ≡ (ok p, record two_bufs { cached_bufs = unlink p (1 ∷ 2 ∷ []) }))
buf_alloc_cached_example =
    buf_alloc_cached memory 0x800 0 two_bufs 1 large_buf (omega arith) refl (omega arith)
      (omega arith)
