-- ===== src/File/Cached.antt =====
-- The buffers of the contexts of a closed file in android/adsprpc.c, which go to its cache first.
use mathlib.Core.Path.{subst}
use reasoned_soc.Prelude.{
  Option-cases, ℕ, ◌+◌, ◌≤◌, ◌<◌, ◌≡◌, refl, sym, ap, ◌∙◌, ◌≢◌, inl, inr, Bool, true, false, Option,
  none, some, List, [], ◌∷◌, ◌++◌, arith,
}
use reasoned_soc.Context.Invariant.{occurs, owned}
use reasoned_soc.Mapping.{Maps}
use reasoned_soc.File.{
  Owned, release_buf, release_context, release_each, free_init_mem, free_remote_bufs,
}
use reasoned_soc.File.Released.{listed, bufs_of, occurs-++}
use reasoned_soc.File.Buffers.{lists-AreFreed, IsOwn, own_freed, kept-IsListed}
use reasoned_soc.Buffer.{Bufs, buf_free, cached_buf_list_free}
use reasoned_soc.Buffer.Emptied.{IsListed}

-- The buffers of the list have been added to the cache.
pub record AreCached (ps : List ℕ) (s t : Bufs) : Type 0 where
  pub cells : (q : ℕ) → t.cell q ≡ s.cell q
  pub remote_bufs : t.remote_bufs ≡ s.remote_bufs
  pub cached : (q : ℕ) → occurs q t.cached_bufs ≡ occurs q ps + occurs q s.cached_bufs

AreLive : List ℕ → Bufs → Type 0
AreLive ps s = (q : ℕ) → 0 < occurs q ps → s.cell q ≢ none

release_buf_lem :
    (o : Option ℕ) (ps : List ℕ) (s : Bufs)
    → AreLive (listed o ps) s
    → AreCached (listed o []) s (release_buf o s) × AreLive ps (release_buf o s)
unfolding buf_free AreLive
release_buf_lem none ps s live =
    (record { cells = λ q. refl; remote_bufs = refl; cached = λ q. omega arith }, live)
release_buf_lem (some p) ps s live = elim (Option-cases (s.cell p)) [
  | inl e ↦ absurd (live p (ground arith) e)
  | inr (b, e) ↦
      rw (buf_free, e)
        (
          record { cells = λ q. refl; remote_bufs = refl; cached = λ q. omega arith },
          λ q h. live q (omega (arith, h)),
        )
]

AreCached-join :
    (ps qs : List ℕ) (s t u : Bufs)
    → AreCached ps s t
    → AreCached qs t u
    → (rs : List ℕ) → ((q : ℕ) → occurs q rs ≡ occurs q ps + occurs q qs)
    → AreCached rs s u
AreCached-join ps qs s t u a b rs sum = record {
  cells = λ q. b.cells q ∙ a.cells q;
  remote_bufs = b.remote_bufs ∙ a.remote_bufs;
  cached = λ q. omega (arith, a.cached q, b.cached q, sum q);
}

occurs-listed :
    (q : ℕ) (o : Option ℕ) (ps : List ℕ)
    → occurs q (listed o ps) ≡ occurs q (listed o []) + occurs q ps
occurs-listed q none ps = omega arith
occurs-listed q (some p) ps = omega arith

released-AreCached :
    (dev : Bool) (owned : ℕ → Owned) (ps : List ℕ) (x : Maps × Bufs)
    → AreLive (bufs_of owned ps) x.1
    → AreCached (bufs_of owned ps) x.1 (release_each dev owned ps x).1
unfolding release_each
released-AreCached dev owned [] x live = record {
  cells = λ q. refl;
  remote_bufs = refl;
  cached = λ q. omega arith;
}
released-AreCached dev owned (p ∷ ps) (maps, s) live =
    let o = owned p in
    let all = bufs_of owned ps in
    let (first, live1) = release_buf_lem o.buf (listed o.lbuf all) s live in
    let s1 = release_buf o.buf s in
    let (second, live2) = release_buf_lem o.lbuf all s1 live1 in
    let s2 = release_buf o.lbuf s1 in
    let third = released-AreCached dev owned ps (release_context dev o (maps, s)) live2 in
    let u = (release_each dev owned ps (release_context dev o (maps, s))).1 in
    let both =
      AreCached-join (listed o.lbuf []) all s1 s2 u second third (listed o.lbuf all)
        (λ q. occurs-listed q o.lbuf all) in
    AreCached-join (listed o.buf []) (listed o.lbuf all) s s1 u first both (bufs_of owned (p ∷ ps))
      (λ q. occurs-listed q o.buf (listed o.lbuf all))

IsListed-cached :
    (ps : List ℕ) (s t : Bufs)
    → AreCached ps s t
    → IsListed false (ps ++ s.cached_bufs) s
    → IsListed false t.cached_bufs t
IsListed-cached ps s t a (live, once) = (
  (λ q h.
      let (b, at, mark) = live q (omega (arith, h, a.cached q, occurs-++ q ps s.cached_bufs)) in
      (b, a.cells q ∙ at, mark)),
  λ q. omega (arith, once q, a.cached q, occurs-++ q ps s.cached_bufs),
)

-- The lists of a file, once the buffers of its contexts are in them.
lists_gone :
    (dev : Bool) (owned : ℕ → Owned) (ps : List ℕ) (maps : Maps) (s : Bufs)
    → IsListed false (bufs_of owned ps ++ s.cached_bufs) s
    → IsListed true s.remote_bufs s
    → let u = free_remote_bufs (cached_buf_list_free (release_each dev owned ps (maps, s)).1) in
      (u.cached_bufs ≡ [])
      × (u.remote_bufs ≡ [])
      × ((q : ℕ)
          → 0 < occurs q (bufs_of owned ps) + occurs q s.cached_bufs + occurs q s.remote_bufs
          → u.cell q ≡ none)
      × ((q : ℕ) → s.cell q ≡ none → u.cell q ≡ none)
unfolding AreLive
lists_gone dev owned ps maps s near far =
    let all = bufs_of owned ps in
    let t = (release_each dev owned ps (maps, s)).1 in
    let live : (q : ℕ) → 0 < occurs q all → s.cell q ≢ none = λ q h w.
      let (b, at, mark) = near.0 q (omega (arith, h, occurs-++ q all s.cached_bufs)) in
      ground (arith, at, w) in
    let a = released-AreCached dev owned ps (maps, s) live in
    let far_t : IsListed true t.remote_bufs t = (
      (λ q h.
          let (b, at, mark) = far.0 q (subst (λ rs. 0 < occurs q rs) a.remote_bufs h) in
          (b, a.cells q ∙ at, mark)),
      λ q. subst (λ rs. occurs q rs ≤ 1) (sym a.remote_bufs) (far.1 q),
    ) in
    let (cached, none_left, gone, dead) = lists-AreFreed t (IsListed-cached all s t a near) far_t in
    (
      cached,
      none_left,
      (λ q h. gone q (omega (arith, h, a.cached q, ap (λ rs. occurs q rs) a.remote_bufs))),
      λ q h. dead q (a.cells q ∙ h),
    )

-- The buffers of the contexts, the lists of the file and its own buffer.
pub all_bufs_gone :
    (dev : Bool) (o : Option ℕ) (owned : ℕ → Owned) (ps : List ℕ) (maps : Maps) (s : Bufs)
    → let all = bufs_of owned ps in
      IsListed false (all ++ s.cached_bufs) s
      → IsListed true s.remote_bufs s
      → IsOwn o s
      → ((p : ℕ) → o ≡ some p → occurs p all ≡ 0)
      → let t = (release_each dev owned ps (maps, free_init_mem o s)).1 in
        let u = free_remote_bufs (cached_buf_list_free t) in
        (u.cached_bufs ≡ [])
        × (u.remote_bufs ≡ [])
        × ((q : ℕ)
            → 0 < occurs q all + occurs q s.cached_bufs + occurs q s.remote_bufs
            → u.cell q ≡ none)
        × ((p : ℕ) → o ≡ some p → u.cell p ≡ none)
all_bufs_gone dev none owned ps maps s near far own apart =
    let (a, b, c, d) = lists_gone dev owned ps maps s near far in
    (a, b, c, λ p h. ground (arith, h))
all_bufs_gone dev (some p) owned ps maps s near far own apart =
    let (b, live, mark, out) = own in
    let all = bufs_of owned ps in
    let t = buf_free p false s in
    let (cached, remote_eq, cells) = own_freed p s own in
    let out_all : occurs p (all ++ s.cached_bufs) ≡ 0 =
      omega (arith, out, apart p refl, occurs-++ p all s.cached_bufs) in
    let near_t : IsListed false (all ++ t.cached_bufs) t =
      subst (λ cs. IsListed false (all ++ cs) t) (sym cached)
        (kept-IsListed false p (all ++ s.cached_bufs) s t out_all cells near) in
    let far_t : IsListed true t.remote_bufs t =
      subst (λ rs. IsListed true rs t) (sym remote_eq)
        (kept-IsListed true p s.remote_bufs s t (omega (arith, out)) cells far) in
    let (x, y, gone, dead) = lists_gone dev owned ps maps t near_t far_t in
    (
      x,
      y,
      (λ q h. gone q (rw (cached, remote_eq) h)),
      λ q h. let q_eq : p ≡ q = ground (arith, h) in dead q (cells q ∙ ground (arith, q_eq)),
    )
