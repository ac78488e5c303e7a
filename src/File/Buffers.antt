-- ===== src/File/Buffers.antt =====
-- The buffers of an open file of android/adsprpc.c that is closed.
use reasoned_soc.Prelude.{
  ◌==◌, Bool-cases, length, ℕ, ◌+◌, ◌<◌, ◌≡◌, refl, sym, ap, ◌∙◌, ◌≢◌, inl, inr, Bool, true, false,
  Option, none, some, List, [], arith,
}
use reasoned_soc.Context.Invariant.{occurs}
use reasoned_soc.Buffer.{Buf, Bufs, buf_free, free_cached, cached_buf_list_free}
use reasoned_soc.Buffer.Emptied.{IsListed, IsFreed, free_remote, free_cached_lem}
use reasoned_soc.File.{free_remote_bufs}
use reasoned_soc.Context.{put}
use mathlib.Core.Path.{subst}

-- Freed buffers that are not remote leave the remote ones listed.
IsListed-apart :
    (ps rs : List ℕ) (s t : Bufs)
    → IsListed false ps s
    → IsListed true rs s
    → IsFreed ps s t
    → IsListed true rs t
IsListed-apart ps rs s t (near, once) (far, once_far) (gone, same) = (
  (λ q h.
      let (b, at, mark) = far q h in
      let apart : occurs q ps ≡ 0 = elim (Bool-cases (occurs q ps == 0)) [
        | inl e ↦ ground (arith, e)
        | inr e ↦
            let (c, at', mark') = near q (ground (arith, e)) in ground (arith, at, at', mark, mark')
      ] in
      (b, same q apart ∙ at, mark)),
  once_far,
)

free_remote_bufs_lem :
    (t : Bufs)
    → IsListed true t.remote_bufs t
    → let u = free_remote_bufs t in
      (u.remote_bufs ≡ []) × (u.cached_bufs ≡ t.cached_bufs) × IsFreed t.remote_bufs t u
free_remote_bufs_lem t far =
    let (u, run, none_left, cached, gone) =
      free_remote (length t.remote_bufs + 1) t.remote_bufs t refl far (omega arith) in
    let u_eq : u ≡ free_remote_bufs t = ap (λ o. elim o [ none ↦ t | some v ↦ v ]) (sym run) in
    subst
      (λ (v : Bufs).
        (v.remote_bufs ≡ []) × (v.cached_bufs ≡ t.cached_bufs) × IsFreed t.remote_bufs t v)
      u_eq (none_left, cached, gone)

-- Both lists of a file are empty, and what was in them is freed.
abbrev pub AreFreed : Bufs → Bufs → Type 0
AreFreed s t =
    (t.cached_bufs ≡ [])
    × (t.remote_bufs ≡ [])
    × ((q : ℕ) → 0 < occurs q s.cached_bufs + occurs q s.remote_bufs → t.cell q ≡ none)
    × ((q : ℕ) → s.cell q ≡ none → t.cell q ≡ none)

both_freed :
    (s t u : Bufs)
    → t.remote_bufs ≡ s.remote_bufs
    → IsFreed s.cached_bufs s t
    → IsFreed t.remote_bufs t u
    → ((q : ℕ) → 0 < occurs q s.cached_bufs + occurs q s.remote_bufs → u.cell q ≡ none)
      × ((q : ℕ) → s.cell q ≡ none → u.cell q ≡ none)
both_freed s t u same freed gone =
    let freed' : IsFreed s.remote_bufs t u = subst (λ rs. IsFreed rs t u) same gone in
    (
      (λ q h. ground (arith, h, freed.0 q, freed'.0 q, freed'.1 q)),
      λ q dead. ground (arith, dead, freed.0 q, freed.1 q, freed'.0 q, freed'.1 q),
    )

pub lists-AreFreed :
    (s : Bufs)
    → IsListed false s.cached_bufs s
    → IsListed true s.remote_bufs s
    → AreFreed s (free_remote_bufs (cached_buf_list_free s))
unfolding cached_buf_list_free
lists-AreFreed s near far =
    let t = free_cached s.cached_bufs s in
    let (empty, same, freed) = free_cached_lem s.cached_bufs s refl near in
    let far_t : IsListed true t.remote_bufs t =
      subst (λ rs. IsListed true rs t) (sym same)
        (IsListed-apart s.cached_bufs s.remote_bufs s t near far freed) in
    let (none_left, cached, gone) = free_remote_bufs_lem t far_t in
    let (both, dead) = both_freed s t (free_remote_bufs t) same freed gone in
    (cached ∙ empty, none_left, both, dead)

-- A buffer that is the file's own: it is in neither list.
abbrev pub IsOwn : Option ℕ → Bufs → Type 0
IsOwn none s = Unit {0}
IsOwn (some p) s =
    (b : Buf) × (s.cell p ≡ some b)
    × (b.remote ≡ false)
    × (occurs p s.cached_bufs + occurs p s.remote_bufs ≡ 0)

pub own_freed :
    (p : ℕ) (s : Bufs)
    → IsOwn (some p) s
    → let t = buf_free p false s in
      (t.cached_bufs ≡ s.cached_bufs)
      × (t.remote_bufs ≡ s.remote_bufs)
      × ((q : ℕ) → t.cell q ≡ put s.cell p none q)
unfolding buf_free
own_freed p s (b, live, near, out) = rw (buf_free, live, near) (refl, refl, λ q. refl)

pub kept-IsListed :
    (far : Bool) (p : ℕ) (ps : List ℕ) (s t : Bufs)
    → occurs p ps ≡ 0
    → ((q : ℕ) → t.cell q ≡ put s.cell p none q)
    → IsListed far ps s
    → IsListed far ps t
kept-IsListed far p ps s t out cells (live, once) = (
  (λ q h.
      let (b, at, mark) = live q h in
      let ne : q ≢ p = λ w. ground (arith, h, out, w) in
      (b, ground (arith, cells q, at, ne), mark)),
  once,
)
