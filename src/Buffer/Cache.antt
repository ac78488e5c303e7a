-- ===== src/Buffer/Cache.antt =====
-- The cache of buffers of a file in android/adsprpc.c.
use reasoned_soc.Prelude.{
  ◌==◌, Bool-cases, Option-cases, ℕ, ◌≤◌, ◌<◌, ◌≡◌, refl, ◌⊎◌, inl, inr, false, Option, none, some,
  List, [], ◌∷◌, arith,
}
use reasoned_soc.Context.Invariant.{occurs}
use reasoned_soc.Context.{unlink}
use reasoned_soc.Buffer.{Buf, Bufs, better, best_fit, BufGiven, buf_alloc}
use reasoned_soc.Errno.{ok}

-- A buffer in a list that is large enough, and not larger than another that is.
pub record IsBest (cell : ℕ → Option Buf) (size : ℕ) (ps : List ℕ) (p : ℕ) (b : Buf) : Type 0 where
  pub live : cell p ≡ some b
  pub listed : 0 < occurs p ps
  pub enough : size ≤ b.size
  pub least :
      (q : ℕ) (c : Buf) → cell q ≡ some c → 0 < occurs q ps → size ≤ c.size → b.size ≤ c.size

-- The loop from a candidate on: the result is the candidate or a buffer of the rest of the list, and
-- not larger than the candidate or any buffer of the rest that is large enough.
abbrev ResultOf : (ℕ → Option Buf) → ℕ → Option (ℕ × Buf) → List ℕ → ℕ → Buf → Type 0
ResultOf cell size fr ps p b =
    ((fr ≡ some (p, b)) ⊎ ((cell p ≡ some b) × (0 < occurs p ps) × (size ≤ b.size)))
    × ((q : ℕ) (c : Buf) → fr ≡ some (q, c) → b.size ≤ c.size)
    × ((q : ℕ) (c : Buf) → cell q ≡ some c → 0 < occurs q ps → size ≤ c.size → b.size ≤ c.size)

kept_before :
    (size : ℕ) (fr : Option (ℕ × Buf)) (d : Buf)
    → better size fr d ≡ false
    → size ≤ d.size
    → (y : ℕ) × (f : Buf) × (fr ≡ some (y, f)) × (f.size ≤ d.size)
kept_before size none d h le = ground (arith, h, le)
kept_before size (some (y, f)) d h le = (y, f, refl, ground (arith, h, le))

best_fit_lem :
    (cell : ℕ → Option Buf) (size : ℕ) (fr : Option (ℕ × Buf)) (ps : List ℕ) (p : ℕ) (b : Buf)
    → best_fit cell size fr ps ≡ some (p, b)
    → ResultOf cell size fr ps p b
unfolding best_fit
best_fit_lem cell size fr [] p b h =
    (inl h, (λ q c e. ground (arith, h, e)), λ q c e k. ground arith)
best_fit_lem cell size fr (x ∷ xs) p b h = elim (Option-cases (cell x)) [
  | inl e ↦
      let (from, low, least) = best_fit_lem cell size fr xs p b (rw (best_fit, e) at h) in
      (ground (arith, from), low, λ q c live here enough. ground (arith, e, live, here, least q c))
  | inr (d, e) ↦ elim (Bool-cases (better size fr d)) [
    | inl t ↦
        let (from, low, least) =
          best_fit_lem cell size (some (x, d)) xs p b (rw (best_fit, e, t) at h) in
        (
          ground (arith, from, e, t),
          (λ q c w. ground (arith, low x d refl, w, t)),
          λ q c live here enough. ground (arith, e, live, here, least q c, low x d refl),
        )
    | inr t ↦
        let (from, low, least) = best_fit_lem cell size fr xs p b (rw (best_fit, e, t) at h) in
        (
          ground (arith, from),
          low,
          λ q c live here enough. elim (Bool-cases (q == x)) [
            | inr o ↦ least q c live (ground (arith, o, here)) enough
            | inl o ↦
                let same : d.size ≡ c.size = ground (arith, o, e, live) in
                let (y, f, w, k) = kept_before size fr d t (omega (arith, enough, same)) in
                omega (arith, low y f w, k, same)
          ],
        )
  ]
]

-- Nothing is found only if no buffer of the list is large enough.
best_fit_misses :
    (cell : ℕ → Option Buf) (size : ℕ) (fr : Option (ℕ × Buf)) (ps : List ℕ) (q : ℕ) (c : Buf)
    → best_fit cell size fr ps ≡ none
    → (fr ≡ none) × (cell q ≡ some c → 0 < occurs q ps → c.size < size)
unfolding best_fit
best_fit_misses cell size fr [] q c h = (h, λ live here. ground arith)
best_fit_misses cell size fr (x ∷ xs) q c h = elim (Option-cases (cell x)) [
  | inl e ↦
      let (z, rest) = best_fit_misses cell size fr xs q c (rw (best_fit, e) at h) in
      (z, λ live here. rest live (ground (arith, e, live, here)))
  | inr (d, e) ↦ elim (Bool-cases (better size fr d)) [
    | inl t ↦
        let (z, rest) = best_fit_misses cell size (some (x, d)) xs q c (rw (best_fit, e, t) at h) in
        ground (arith, z)
    | inr t ↦
        let (z, rest) = best_fit_misses cell size fr xs q c (rw (best_fit, e, t) at h) in
        (
          z,
          λ live here. elim (Bool-cases (q == x)) [
            | inr o ↦ rest live (ground (arith, o, here))
            | inl o ↦ ground (arith, o, e, live, z, t)
          ],
        )
  ]
]

-- A call that is not for remote memory takes a buffer of the cache whenever one is large enough: it
-- is large enough itself, no other such buffer of the cache is smaller, and it is taken out of the
-- cache; nothing else changes, whatever the allocator would have given.
pub buf_alloc_cached :
    (g : BufGiven) (size rflags : ℕ) (s : Bufs) (q : ℕ) (c : Buf)
    → 0 < size
    → s.cell q ≡ some c
    → 0 < occurs q s.cached_bufs
    → size ≤ c.size
    → (p : ℕ) × (b : Buf) × IsBest s.cell size s.cached_bufs p b
      × (buf_alloc g size rflags false s
          ≡ (ok p, record s { cached_bufs = unlink p s.cached_bufs }))
unfolding buf_alloc
buf_alloc_cached g size rflags s q c pos live here enough =
    let some_size : (size == 0) ≡ false = ground arith in
    elim (Option-cases (best_fit s.cell size none s.cached_bufs)) [
      | inl e ↦
          let (z, miss) = best_fit_misses s.cell size none s.cached_bufs q c e in
          absurd (omega (arith, miss live here, enough))
      | inr ((p, b), e) ↦
          let (from, low, least) = best_fit_lem s.cell size none s.cached_bufs p b e in
          let (l, h, n) : (s.cell p ≡ some b) × (0 < occurs p s.cached_bufs) × (size ≤ b.size) =
            ground (arith, from) in
          (
            p,
            b,
            record { live = l; listed = h; enough = n; least = least },
            rw (buf_alloc, some_size, e) refl,
          )
    ]
