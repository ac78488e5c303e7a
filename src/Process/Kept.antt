-- ===== src/Process/Kept.antt =====
-- The memory of a process that `fastrpc_init_process` of android/adsprpc.c has started before.
use reasoned_soc.Prelude.{
  ◌==◌, Bool-cases, Option-cases, length, ℕ, ◌+◌, ◌≡◌, refl, sym, ap, ◌∙◌, ◌≢◌, inl, inr, Bool,
  true, false, not, Option, none, some, List, [], ◌∷◌, arith,
}
use reasoned_soc.Buffer.{Buf, Bufs, buf_free, cached_buf_list_free, buf_alloc, remote_buf_list_free}
use reasoned_soc.Errno.{Result-cases, ok}
use reasoned_soc.Process.{
  InitIoctl, InitGiven, Process, set_maps, memlen_of, file_wanted, start_created, create_process,
}
use reasoned_soc.File.{
  Owned, World, release_buf, release_context, release_each, freed_contexts, Closing, free_init_mem,
  free_remote_bufs, file_free,
}
use reasoned_soc.Mapping.Create.{mmap_create}
use reasoned_soc.Buffer.Aside.{
  IsAside, buf_free-IsAside, free_cached-IsAside, buf_alloc-IsMadeBeside,
  remote_buf_list_free-IsAside,
}
use reasoned_soc.File.Released.{listed, bufs_of}
use reasoned_soc.Mapping.{Maps}
use reasoned_soc.Context.Invariant.{occurs, owned}
use mathlib.Core.Path.{subst}

start_created-kept :
    (b : Buf) (q : ℕ) (g : InitGiven) (init : InitIoctl) (s : Process)
    → g.buf.fresh ≢ some q
    → IsAside b q s.bufs
    → (start_created g init s).0 ≡ ok tt
    → let t = (start_created g init s).1 in IsAside b q t.bufs × (t.init_mem ≢ some q)
unfolding start_created
start_created-kept b q g init s away aside h = elim (Bool-cases (not (init.mem == 0))) [
  | inl e ↦ ground (arith, (rw (start_created, e) at h))
  | inr e ↦
      let made = buf_alloc g.buf (memlen_of init.filelen) 0 false s.bufs in
      let (there, ne) =
        buf_alloc-IsMadeBeside b q g.buf (memlen_of init.filelen) 0 s.bufs away aside in
      elim (Result-cases made.0) [
        | inl (error, f) ↦ ground (arith, (rw (start_created, e, f) at h))
        | inr (p, f) ↦
            let apart : p ≢ q = λ w. ne (f ∙ ap (λ r. ok r) w) in
            elim (Option-cases (made.1.cell p)) [
              | inl k ↦ ground (arith, (rw (start_created, e, f, k) at h))
              | inr (c, k) ↦ simp (start_created, e, f, k) (there, λ w. ground (arith, w, apart))
            ]
      ]
]

create_process-kept :
    (b : Buf) (q : ℕ) (g : InitGiven) (dev : Bool) (init : InitIoctl) (s : Process)
    → g.buf.fresh ≢ some q
    → IsAside b q s.bufs
    → (create_process g dev init s).0 ≡ ok tt
    → let t = (create_process g dev init s).1 in IsAside b q t.bufs × (t.init_mem ≢ some q)
unfolding create_process
create_process-kept b q g dev init s away aside h = elim (Bool-cases (not g.access_ok)) [
  | inl off ↦ ground (arith, (rw (create_process, off) at h))
  | inr on ↦ elim (Bool-cases (init.filelen == 0)) [
    | inl empty ↦
        simp (create_process, on, empty)
          (start_created-kept b q g init (record s { pd = 1 }) away aside
            (rw (create_process, on, empty) at h))
    | inr full ↦
        let made = mmap_create dev g.map (file_wanted g s.fl init) s.opening.maps in
        elim (Result-cases made.0) [
          | inl (e, bad) ↦ ground (arith, (rw (create_process, on, full, bad) at h))
          | inr (p, good) ↦
              simp (create_process, on, full, good)
                (start_created-kept b q g init (set_maps made.1 (record s { pd = 1 })) away aside
                  (rw (create_process, on, full, good) at h))
        ]
  ]
]

free_remote_bufs-IsAside :
    (b : Buf) (q : ℕ) (s : Bufs) → IsAside b q s → IsAside b q (free_remote_bufs s)
free_remote_bufs-IsAside b q s aside =
    elim (Option-cases (remote_buf_list_free (length s.remote_bufs + 1) s)) [
      | inl k ↦ rw (free_remote_bufs, k) aside
      | inr (u, k) ↦
          rw (free_remote_bufs, k)
            (remote_buf_list_free-IsAside b q (length s.remote_bufs + 1) s.remote_bufs s u refl
              aside k)
    ]

cached-IsAside :
    (b : Buf) (p q : ℕ) (s : Bufs) → p ≢ q → IsAside b q s → IsAside b q (buf_free p true s)
unfolding buf_free
cached-IsAside b p q s ne (live, near, far) = ground (arith, ne, live, near, far)

release_buf-IsAside :
    (b : Buf) (q : ℕ) (o : Option ℕ) (ps : List ℕ) (s : Bufs)
    → occurs q (listed o ps) ≡ 0
    → IsAside b q s
    → IsAside b q (release_buf o s) × (occurs q ps ≡ 0)
release_buf-IsAside b q none ps s out aside = (aside, out)
release_buf-IsAside b q (some p) ps s out aside =
    let ne : p ≢ q = λ w. ground (arith, out, w) in
    (cached-IsAside b p q s ne aside, omega (arith, out))

release_each-IsAside :
    (b : Buf) (q : ℕ) (dev : Bool) (owned : ℕ → Owned) (ps : List ℕ) (x : Maps × Bufs)
    → occurs q (bufs_of owned ps) ≡ 0
    → IsAside b q x.1
    → IsAside b q (release_each dev owned ps x).1
unfolding release_each
release_each-IsAside b q dev owned [] x out aside = aside
release_each-IsAside b q dev owned (p ∷ ps) (maps, s) out aside =
    let o = owned p in
    let (first, out1) =
      release_buf-IsAside b q o.buf (listed o.lbuf (bufs_of owned ps)) s out aside in
    let (second, out2) =
      release_buf-IsAside b q o.lbuf (bufs_of owned ps) (release_buf o.buf s) out1 first in
    release_each-IsAside b q dev owned ps (release_context dev o (maps, s)) out2 second

file_free-keeps :
    (b : Buf) (q : ℕ) (glink dev : Bool) (f : Closing) (w : World)
    → f.init_mem ≢ some q
    → occurs q (bufs_of w.owned (freed_contexts f.fl w.contexts)) ≡ 0
    → IsAside b q w.bufs
    → (file_free glink dev f w).bufs.cell q ≡ some b
unfolding file_free cached_buf_list_free
file_free-keeps b q glink dev f w ne out aside = elim (Option-cases f.sctx) [
  | inl e ↦ simp (file_free, e) aside.0
  | inr (idx, e) ↦
      let s = free_init_mem f.init_mem w.bufs in
      let first : IsAside b q s = elim (Option-cases f.init_mem) [
        | inl k ↦ rw k aside
        | inr (p, k) ↦ rw k (buf_free-IsAside b p q w.bufs (λ r. ne (k ∙ ap (λ x. some x) r)) aside)
      ] in
      let ps = freed_contexts f.fl w.contexts in
      let r = (release_each dev w.owned ps (w.maps, s)).1 in
      let mid : IsAside b q r = release_each-IsAside b q dev w.owned ps (w.maps, s) out first in
      let t = cached_buf_list_free r in
      let second : IsAside b q t = free_cached-IsAside b q r.cached_bufs r mid.1 mid in
      simp (file_free, e) (free_remote_bufs-IsAside b q t second).0
]

-- Let FASTRPC_INIT_CREATE succeed for a file that has the memory `q` of an earlier process, which is
-- allocated and in neither list of buffers, let `kzalloc` not give that address, and let no context
-- of the file own it. Then `q` stays allocated when the file is closed: the new memory has taken its
-- place in `init_mem`, and nothing else refers to it.
pub create_twice_leaks :
    (b : Buf) (q : ℕ) (g : InitGiven) (glink dev dev' : Bool) (init : InitIoctl) (s t : Process)
    (f : Closing) (w : World)
    → s.init_mem ≡ some q
    → IsAside b q s.bufs
    → g.buf.fresh ≢ some q
    → create_process g dev init s ≡ (ok tt, t)
    → f.init_mem ≡ t.init_mem
    → w.bufs ≡ t.bufs
    → occurs q (bufs_of w.owned (freed_contexts f.fl w.contexts)) ≡ 0
    → (file_free glink dev' f w).bufs.cell q ≡ some b
create_twice_leaks b q g glink dev dev' init s t f w was aside away h mem bufs out =
    let (there, ne) = create_process-kept b q g dev init s away aside (ap (λ r. r.0) h) in
    let state = ap (λ r. r.1) h in
    file_free-keeps b q glink dev' f w (λ k. ne (ap (λ r. r.init_mem) state ∙ sym mem ∙ k)) out
      (subst (IsAside b q) (ap (λ r. r.bufs) state ∙ sym bufs) there)
