-- ===== src/Buffer/Fresh.antt =====
-- A new buffer of android/adsprpc.c, from its allocation to its release.
use reasoned_soc.Prelude.{ℕ, ◌≡◌, ◌∷◌}
use reasoned_soc.Buffer.{Region, Bufs}

-- The region has been given back as it was got, and the buffers and lists are as before.
abbrev pub IsReturned : Region → Bufs → Bufs → Type 0
IsReturned region s t =
    (t.freed ≡ region ∷ s.freed)
    × ((q : ℕ) → t.cell q ≡ s.cell q)
    × (t.cached_bufs ≡ s.cached_bufs)
    × (t.remote_bufs ≡ s.remote_bufs)
