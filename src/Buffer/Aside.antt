-- ===== src/Buffer/Aside.antt =====
-- A buffer of android/adsprpc.c that is in neither list of its file, while others are allocated and freed.
use reasoned_soc.Prelude.{
  ◌==◌, if◌then◌else◌, Bool-cases, Option-cases, ℕ, zero, suc, ◌+◌, ◌*◌, ◌^◌, ◌≡◌, refl, ◌≢◌, inl,
  inr, false, not, ◌&&◌, Option, none, some, List, [], ◌∷◌, arith,
}
use reasoned_soc.Buffer.{
  Buf, Bufs, buf_free, free_cached, cached_buf_list_free, better, best_fit, BufGiven, new_buf,
  enter_buf, make_buf, buf_alloc, remote_buf_list_free,
}
use reasoned_soc.Context.{put, unlink}
use reasoned_soc.Context.Invariant.{occurs, occurs-unlink}
use reasoned_soc.Pages.{u64}
use reasoned_soc.Errno.{Result, ok}
use mathlib.Core.Path.{subst}

-- The buffer `q` of the file is `b`, and is in neither of its lists.
abbrev pub IsAside : Buf → ℕ → Bufs → Type 0
IsAside b q s = (s.cell q ≡ some b) × (occurs q s.cached_bufs ≡ 0) × (occurs q s.remote_bufs ≡ 0)

pub buf_free-IsAside :
    (b : Buf) (p q : ℕ) (s : Bufs) → p ≢ q → IsAside b q s → IsAside b q (buf_free p false s)
unfolding buf_free
buf_free-IsAside b p q s ne (live, near, far) =
    let cut : occurs q (unlink p s.remote_bufs) ≡ 0 =
      ground (arith, far, occurs-unlink p q s.remote_bufs) in
    ground (arith, ne, live, near, far, cut)

pub free_cached-IsAside :
    (b : Buf) (q : ℕ) (ps : List ℕ) (s : Bufs)
    → occurs q ps ≡ 0
    → IsAside b q s
    → IsAside b q (free_cached ps s)
unfolding free_cached
free_cached-IsAside b q [] s out aside = aside
free_cached-IsAside b q (p ∷ ps) s out (live, near, far) =
    let ne : p ≢ q = λ e. ground (arith, out, e) in
    let s' = record s { cached_bufs = unlink p s.cached_bufs } in
    let near' : occurs q (unlink p s.cached_bufs) ≡ 0 =
      ground (arith, near, occurs-unlink p q s.cached_bufs) in
    free_cached-IsAside b q ps (buf_free p false s') (ground (arith, out))
      (buf_free-IsAside b p q s' ne (live, near', far))

best_fit-listed :
    (cell : ℕ → Option Buf) (size : ℕ) (fr : Option (ℕ × Buf)) (q : ℕ) (ps : List ℕ)
    → occurs q ps ≡ 0
    → ((c : Buf) → fr ≢ some (q, c))
    → (c : Buf) → best_fit cell size fr ps ≢ some (q, c)
unfolding best_fit
best_fit-listed cell size fr q [] out apart c h = apart c h
best_fit-listed cell size fr q (p ∷ ps) out apart c h = elim (Option-cases (cell p)) [
  | inl e ↦ best_fit-listed cell size fr q ps (ground (arith, out)) apart c (rw (best_fit, e) at h)
  | inr (b, e) ↦
      best_fit-listed cell size (if better size fr b then some (p, b) else fr) q ps
        (ground (arith, out)) (λ d w. ground (arith, out, w, apart d)) c (rw (best_fit, e) at h)
]

put-IsAside :
    (b c : Buf) (p q : ℕ) (s : Bufs)
    → p ≢ q
    → IsAside b q s
    → IsAside b q (record s { cell = put s.cell p (some c) })
put-IsAside b c p q s ne (live, near, far) = (ground (arith, ne, live), near, far)

-- A buffer that is made at another address, which is the result.
abbrev pub IsMadeBeside : Buf → ℕ → Result ℕ × Bufs → Type 0
IsMadeBeside b q (r, s) = IsAside b q s × (r ≢ ok q)

enter_buf-IsMadeBeside :
    (b : Buf) (q : ℕ) (g : BufGiven) (size rflags p : ℕ) (region : ℕ × ℕ) (s : Bufs)
    → p ≢ q
    → IsAside b q s
    → IsMadeBeside b q (enter_buf g size rflags false p region s)
unfolding enter_buf
enter_buf-IsMadeBeside b q g size rflags p (virt, phys) s ne aside =
    let c =
      new_buf size rflags (some virt) (if s.cb == 0 then phys else u64 (phys + s.cb * 2 ^ 32)) in
    let there = put-IsAside b c p q s ne aside in
    elim (Bool-cases (not (g.vmid == 0) && not g.assigned)) [
      | inl e ↦
          rw (enter_buf, e)
            (
              buf_free-IsAside b p q (record s { cell = put s.cell p (some c) }) ne there,
              λ w. ground (arith, w),
            )
      | inr e ↦ rw (enter_buf, e) (there, λ w. ground (arith, w, ne))
    ]

make_buf-IsMadeBeside :
    (b : Buf) (q : ℕ) (g : BufGiven) (size rflags : ℕ) (s : Bufs)
    → g.fresh ≢ some q
    → IsAside b q s
    → IsMadeBeside b q (make_buf g size rflags false s)
unfolding make_buf cached_buf_list_free
make_buf-IsMadeBeside b q g size rflags s away aside = elim (Option-cases g.fresh) [
  | inl e ↦ simp (make_buf, e) (aside, λ w. ground (arith, w))
  | inr (p, e) ↦
      let ne : p ≢ q = λ w. ground (arith, w, e, away) in
      let s' = free_cached s.cached_bufs s in
      let aside' = free_cached-IsAside b q s.cached_bufs s aside.1 aside in
      elim (Option-cases g.first) [
        | inr (region, f) ↦
            simp (make_buf, e, f) (enter_buf-IsMadeBeside b q g size rflags p region s ne aside)
        | inl f ↦ elim (Option-cases g.second) [
          | inr (region, h) ↦
              simp (make_buf, e, f, h)
                (enter_buf-IsMadeBeside b q g size rflags p region s' ne aside')
          | inl h ↦
              let c = new_buf size rflags none 0 in
              simp (make_buf, e, f, h)
                (
                  buf_free-IsAside b p q (record s' { cell = put s'.cell p (some c) }) ne
                      (put-IsAside b c p q s' ne aside'),
                  λ w. ground (arith, w),
                )
        ]
      ]
]

pub buf_alloc-IsMadeBeside :
    (b : Buf) (q : ℕ) (g : BufGiven) (size rflags : ℕ) (s : Bufs)
    → g.fresh ≢ some q
    → IsAside b q s
    → IsMadeBeside b q (buf_alloc g size rflags false s)
unfolding buf_alloc
buf_alloc-IsMadeBeside b q g size rflags s away aside = elim (Bool-cases (size == 0)) [
  | inl z ↦ simp (buf_alloc, z) (aside, λ w. ground (arith, w))
  | inr z ↦ elim (Option-cases (best_fit s.cell size none s.cached_bufs)) [
    | inl e ↦ simp (buf_alloc, z, e) (make_buf-IsMadeBeside b q g size rflags s away aside)
    | inr ((p, c), e) ↦
        let ne : p ≢ q = λ w.
          best_fit-listed s.cell size none q s.cached_bufs aside.1 (λ d h. ground (arith, h)) c
            (subst (λ r. best_fit s.cell size none s.cached_bufs ≡ some (r, c)) w e) in
        let near : occurs q (unlink p s.cached_bufs) ≡ 0 =
          ground (arith, aside.1, occurs-unlink p q s.cached_bufs) in
        simp (buf_alloc, z, e) ((aside.0, near, aside.2), λ w. ground (arith, w, ne))
  ]
]

pub remote_buf_list_free-IsAside :
    (b : Buf) (q fuel : ℕ) (ps : List ℕ) (s t : Bufs)
    → s.remote_bufs ≡ ps
    → IsAside b q s
    → remote_buf_list_free fuel s ≡ some t
    → IsAside b q t
unfolding remote_buf_list_free
remote_buf_list_free-IsAside b q zero ps s t e aside h = ground (arith, h)
remote_buf_list_free-IsAside b q (suc fuel) [] s t e aside h =
    let eq : s ≡ t = ground (arith, (rw (remote_buf_list_free, e) at h)) in
    subst (IsAside b q) eq aside
remote_buf_list_free-IsAside b q (suc fuel) (p ∷ ps) s t e aside h =
    let far : occurs q (p ∷ ps) ≡ 0 = subst (λ l. occurs q l ≡ 0) e aside.2 in
    let ne : p ≢ q = λ w. ground (arith, far, w) in
    let s' = buf_free p false s in
    remote_buf_list_free-IsAside b q fuel s'.remote_bufs s' t refl
      (buf_free-IsAside b p q s ne aside) (rw (remote_buf_list_free, e) at h)
