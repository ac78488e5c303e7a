-- ===== src/Buffer/Emptied.antt =====
-- The two lists of buffers of a file in android/adsprpc.c, when the file is closed.
use reasoned_soc.Prelude.{
  if◌then◌else◌, length, ℕ, zero, suc, ◌≤◌, ◌<◌, ◌≡◌, refl, ap, ◌∙◌, ◌≢◌, Bool, true, false, none,
  some, List, [], ◌∷◌, arith,
}
use reasoned_soc.Context.{put, unlink}
use reasoned_soc.Context.Invariant.{occurs}
use reasoned_soc.Buffer.{Buf, Bufs, buf_free, free_cached, remote_buf_list_free}

-- Each buffer of a list is allocated, is in it once, and is marked as remote or not.
abbrev pub IsListed : Bool → List ℕ → Bufs → Type 0
IsListed far ps s =
    ((q : ℕ) → 0 < occurs q ps → (b : Buf) × (s.cell q ≡ some b) × (b.remote ≡ far))
    × ((q : ℕ) → occurs q ps ≤ 1)

-- The buffers of a list are freed, and the others are as they were.
abbrev pub IsFreed : List ℕ → Bufs → Bufs → Type 0
IsFreed ps s t =
    ((q : ℕ) → 0 < occurs q ps → t.cell q ≡ none)
    × ((q : ℕ) → occurs q ps ≡ 0 → t.cell q ≡ s.cell q)

free_listed :
    (far : Bool) (p : ℕ) (ps : List ℕ) (s : Bufs)
    → IsListed far (p ∷ ps) s
    → let t = buf_free p false s in
      ((q : ℕ) → t.cell q ≡ put s.cell p none q)
      × (t.remote_bufs ≡ (if far then unlink p s.remote_bufs else s.remote_bufs))
      × (t.cached_bufs ≡ s.cached_bufs)
unfolding buf_free
free_listed far p ps s (live, once) =
    let (b, at, mark) = live p (ground arith) in rw (buf_free, at, mark) ((λ q. refl), refl, refl)

IsListed-rest :
    (far : Bool) (p : ℕ) (ps : List ℕ) (s t : Bufs)
    → IsListed far (p ∷ ps) s
    → ((q : ℕ) → t.cell q ≡ put s.cell p none q)
    → IsListed far ps t
IsListed-rest far p ps s t (live, once) cells = (
  (λ q h.
      let (b, at, mark) = live q (ground (arith, h)) in
      let ne : q ≢ p = λ w. ground (arith, h, w, once p) in
      (b, ground (arith, cells q, at, ne), mark)),
  λ q. ground (arith, once q),
)

IsFreed-more :
    (p : ℕ) (ps : List ℕ) (s t u : Bufs)
    → occurs p ps ≡ 0
    → ((q : ℕ) → t.cell q ≡ put s.cell p none q)
    → IsFreed ps t u
    → IsFreed (p ∷ ps) s u
IsFreed-more p ps s t u out cells (gone, same) = (
  (λ q h. ground (arith, h, gone q, same q, cells q, out)),
  λ q h. ground (arith, h, same q, cells q),
)

pub free_remote :
    (fuel : ℕ) (ps : List ℕ) (s : Bufs)
    → s.remote_bufs ≡ ps
    → IsListed true ps s
    → length ps < fuel
    → (t : Bufs) × (remote_buf_list_free fuel s ≡ some t)
      × (t.remote_bufs ≡ [])
      × (t.cached_bufs ≡ s.cached_bufs)
      × IsFreed ps s t
unfolding remote_buf_list_free unlink
free_remote zero ps s here fine lt = ground arith
free_remote (suc fuel) [] s here fine lt =
    (s, simp (remote_buf_list_free, here), here, refl, ((λ q h. ground (arith, h)), λ q h. refl))
free_remote (suc fuel) (p ∷ ps) s here fine lt =
    let t = buf_free p false s in
    let (cells, remote_eq, cached) = free_listed true p ps s fine in
    let next : t.remote_bufs ≡ ps = remote_eq ∙ ap (unlink p) here ∙ ground arith in
    let (u, run, empty, same, freed) =
      free_remote fuel ps t next (IsListed-rest true p ps s t fine cells) (omega (arith, lt)) in
    (
      u,
      simp (remote_buf_list_free, here) run,
      empty,
      same ∙ cached,
      IsFreed-more p ps s t u (ground (arith, fine.1 p)) cells freed,
    )

pub free_cached_lem :
    (ps : List ℕ) (s : Bufs)
    → s.cached_bufs ≡ ps
    → IsListed false ps s
    → let t = free_cached ps s in
      (t.cached_bufs ≡ []) × (t.remote_bufs ≡ s.remote_bufs) × IsFreed ps s t
unfolding free_cached unlink
free_cached_lem [] s here fine = (here, refl, ((λ q h. ground (arith, h)), λ q h. refl))
free_cached_lem (p ∷ ps) s here fine =
    let s' : Bufs = record s { cached_bufs = unlink p s.cached_bufs } in
    let t = buf_free p false s' in
    let (cells, far, cached) = free_listed false p ps s' fine in
    let next : t.cached_bufs ≡ ps = cached ∙ ap (unlink p) here ∙ ground arith in
    let (empty, same, freed) =
      free_cached_lem ps t next (IsListed-rest false p ps s t fine cells) in
    (
      empty,
      same ∙ far,
      IsFreed-more p ps s t (free_cached ps t) (ground (arith, fine.1 p)) cells freed,
    )
