-- ===== src/Remote/Pages.antt =====
-- Pages that android/adsprpc.c adds to the memory of the remote processor for a file.
use reasoned_soc.Context.Invariant.{occurs}
use reasoned_soc.Prelude.{
  ◌==◌, if◌then◌else◌, ℕ, ◌+◌, ◌*◌, ◌^◌, ◌<◌, ◌≡◌, ◌≢◌, Bool, true, Option, none, some, ◌∷◌,
}
use reasoned_soc.Errno.{Result, err, ok}
use reasoned_soc.Pages.{u64}
use reasoned_soc.Context.{put, unlink}
use reasoned_soc.Buffer.{Buf, Region, Bufs, give_back, new_buf}
use reasoned_soc.Remote.{Host, Memory, find_rbuf, internal_munmap}
use reasoned_soc.Buffer.Fresh.{IsReturned}

-- The buffer of the added pages, before it has an address on the remote processor.
abbrev added_buf : ℕ → ℕ → ℕ → ℕ → Bufs → Buf
added_buf size rflags virt phys s =
    record (new_buf size rflags (some virt)
      (if s.cb == 0 then phys else u64 (phys + s.cb * 2 ^ 32))) { remote = true }

abbrev with_added : ℕ → Buf → Bufs → Bufs
with_added p b s = record s { cell = put s.cell p (some b); remote_bufs = p ∷ s.remote_bufs }

-- The state behind the release of the buffer `b`.
abbrev released : ℕ → Buf → Bufs → Bufs
released p b s = record s {
  cell = put s.cell p none;
  remote_bufs = if b.remote then unlink p s.remote_bufs else s.remote_bufs;
  freed = give_back s.cb b s.freed;
}

-- A buffer that no request to unmap finds.
abbrev pub IsStuck : ℕ → Bufs → Type 0
IsStuck p s =
    (0 < occurs p s.remote_bufs)
    × ((vaddrout size : ℕ) (b : Buf) → find_rbuf vaddrout size s.cell s.remote_bufs ≢ some (p, b))

-- What comes of a request for pages that were allocated: `r` is its outcome.
abbrev pub Added : Host → Bool → ℕ → ℕ → ℕ → Region → Memory → Result (Option ℕ) × Memory → Type 0
Added host' dev fl p size region s (err e, t) = IsStuck p t.bufs × (t.maps ≡ s.maps)
Added host' dev fl p size region s (ok none, t) = ⊥
Added host' dev fl p size region s (ok (some raddr), t) =
    0 < raddr
    → (u : Memory) × (internal_munmap host' dev fl raddr size t ≡ (ok tt, u))
      × (u.maps ≡ s.maps)
      × IsReturned region s.bufs u.bufs
