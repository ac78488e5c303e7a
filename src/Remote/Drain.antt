-- ===== src/Remote/Drain.antt =====
-- The loop of `fastrpc_mmap_remove_ssr` of android/adsprpc.c ends.
use mathlib.Core.Path.{subst}
use reasoned_soc.Prelude.{
  ltb, ◌==◌, if◌then◌else◌, Bool-cases, Option-cases, length, ℕ, zero, suc, ◌+◌, ◌-◌, ◌≤◌, ◌<◌, ◌≡◌,
  refl, sym, ◌∙◌, ◌≢◌, inl, inr, Bool, true, false, ◌&&◌, Option, none, some, List, [], ◌∷◌, ◌++◌,
  arith,
}
use reasoned_soc.Errno.{Errno, Result, Result-cases, failed, err, ok}
use reasoned_soc.Context.{put, unlink}
use reasoned_soc.Context.Invariant.{occurs, unlink_absent}
use reasoned_soc.Mapping.{adsp_mmap_remote_heap_addr, Map, Maps, is_heap, mmap_add, more, mmap_free}
use reasoned_soc.Remote.{Host, munmap_on_dsp_rh}
use reasoned_soc.Remote.Heap.{remove_first, mmap_remove_ssr}
use reasoned_soc.Mapping.Counts.{IsCounted}

-- A mapping of heap memory behind `fastrpc_mmap_free`: gone with its last reference if there is a
-- device, otherwise still allocated, with one reference less.
abbrev pub after_free : Bool → Map → Option Map
after_free dev m = if (m.refs - 1 == 0) && dev then none else some (record m { refs = m.refs - 1 })

free_heap :
    (dev : Bool) (p : ℕ) (m : Map) (s : Maps)
    → s.cell p ≡ some m
    → is_heap m.flags ≡ true
    → occurs p s.global ≡ 0
    → let t = mmap_free dev p false s in
      (t.global ≡ s.global)
      × ((f : ℕ) → t.maps f ≡ s.maps f)
      × ((q : ℕ) → t.cell q ≡ put s.cell p (after_free dev m) q)
unfolding mmap_free
free_heap dev p m s live heap out =
    let cut : unlink p s.global ≡ s.global = unlink_absent p s.global out in
    elim (Bool-cases (m.refs - 1 == 0)) [
      | inl last ↦
          let none_left : ltb 0 (m.refs - 1) ≡ false = ground (arith, last) in
          elim (Bool-cases dev) [
            | inl d ↦
                rw (mmap_free, live, last, none_left, heap, d) (cut, (λ f. refl), λ q. ground arith)
            | inr d ↦
                rw (mmap_free, live, last, none_left, heap, d) (cut, (λ f. refl), λ q. ground arith)
          ]
      | inr more ↦
          let some_left : ltb 0 (m.refs - 1) ≡ true = ground (arith, more) in
          rw (mmap_free, live, more, some_left, heap) (refl, (λ f. refl), λ q. ground arith)
    ]

-- The first mappings of the driver's list, `before`, have been handled and `after` is what is left.
pub record IsDrained (dev : Bool) (before after : List ℕ) (s t : Maps) : Type 0 where
  pub split : s.global ≡ before ++ after
  pub left : t.global ≡ after
  pub freed :
      (q : ℕ) (m : Map) → 0 < occurs q before → s.cell q ≡ some m → t.cell q ≡ after_free dev m
  pub others : (q : ℕ) → occurs q before ≡ 0 → t.cell q ≡ s.cell q
  pub maps : (f : ℕ) → t.maps f ≡ s.maps f

-- The end of the loop: all mappings are handled, or those before one that the hypervisor refuses.
abbrev pub Ending : Host → Bool → Maps → Result (Unit {0}) × Maps → Type 0
Ending host dev s (ok done, t) = IsDrained dev s.global [] s t
Ending host dev s (err e, t) =
    (e ≡ failed)
    × (p : ℕ) × (m : Map) × (before : List ℕ) × (after : List ℕ) × (s.cell p ≡ some m)
    × (m.flags ≡ adsp_mmap_remote_heap_addr)
    × (host.assign m.phys m.size false ≡ false)
    × IsDrained dev before (p ∷ after) s t

occurs-++ : (q : ℕ) (xs ys : List ℕ) → occurs q (xs ++ ys) ≡ occurs q xs + occurs q ys
occurs-++ q [] ys = omega arith
occurs-++ q (x ∷ xs) ys = rw (occurs-++ q xs ys) (omega arith)

IsDrained-more :
    (dev : Bool) (p : ℕ) (m : Map) (ps before after : List ℕ) (s s' t : Maps)
    → s.global ≡ p ∷ ps
    → s.cell p ≡ some m
    → occurs p ps ≡ 0
    → s'.global ≡ ps
    → ((f : ℕ) → s'.maps f ≡ s.maps f)
    → ((q : ℕ) → s'.cell q ≡ put s.cell p (after_free dev m) q)
    → IsDrained dev before after s' t
    → IsDrained dev (p ∷ before) after s t
IsDrained-more dev p m ps before after s s' t first live out g fs cs d =
    let ps_eq : ps ≡ before ++ after = sym g ∙ d.split in
    let out_both : occurs p before + occurs p after ≡ 0 =
      sym (occurs-++ p before after) ∙ (rw (sym ps_eq) out) in
    record {
      split = rw (first, ps_eq) refl;
      left = d.left;
      freed =
          λ q n here live_q. ground (arith, live, live_q, d.freed q n, d.others q, cs q, out_both);
      others = λ q none_there. ground (arith, d.others q, cs q, none_there);
      maps = λ f. d.maps f ∙ fs f;
    }

-- Only the hypervisor refuses.
munmap_on_dsp_rh-err :
    (host : Host) (m : Map) (e : Errno)
    → munmap_on_dsp_rh host m.phys m.size m.flags ≡ err e
    → (m.flags ≡ adsp_mmap_remote_heap_addr) × (host.assign m.phys m.size false ≡ false)
unfolding munmap_on_dsp_rh
munmap_on_dsp_rh-err host m e h = ground (arith, h)

Ending-more :
    (host : Host) (dev : Bool) (p : ℕ) (m : Map) (ps : List ℕ) (s s' : Maps)
    → s.global ≡ p ∷ ps
    → s.cell p ≡ some m
    → occurs p ps ≡ 0
    → s'.global ≡ ps
    → ((f : ℕ) → s'.maps f ≡ s.maps f)
    → ((q : ℕ) → s'.cell q ≡ put s.cell p (after_free dev m) q)
    → (x : Result (Unit {0}) × Maps) → Ending host dev s' x
    → Ending host dev s x
Ending-more host dev p m ps s s' first live out g fs cs (ok done, t) d =
    let all : p ∷ s'.global ≡ s.global = rw g (sym first) in
    subst (λ l. IsDrained dev l [] s t) all
      (IsDrained-more dev p m ps s'.global [] s s' t first live out g fs cs d)
Ending-more host dev p m ps s s' first live out g fs cs (err e, t)
      (e_eq, q, n, before, after, live_q, kind, denied, d) =
    let split : ps ≡ before ++ q ∷ after = sym g ∙ d.split in
    let ne : q ≢ p = λ w. ground (arith, occurs-++ p before (q ∷ after), (rw split at out), w) in
    (
      e_eq,
      q,
      n,
      p ∷ before,
      after,
      ground (arith, live_q, cs q, ne),
      kind,
      denied,
      IsDrained-more dev p m ps before (q ∷ after) s s' t first live out g fs cs d,
    )

-- What the loop does from `s` on.
abbrev Ends : Host → Bool → ℕ → Maps → Type 0
Ends host dev fuel s =
    (x : Result (Unit {0}) × Maps) × (mmap_remove_ssr fuel host dev s ≡ some x)
    × Ending host dev s x

-- Each mapping of a list is allocated, is heap memory and is in the list once.
abbrev IsHeapList : List ℕ → Maps → Type 0
IsHeapList ps s =
    ((q : ℕ) → 0 < occurs q ps → (m : Map) × (s.cell q ≡ some m) × (is_heap m.flags ≡ true))
    × ((q : ℕ) → occurs q ps ≤ 1)

pass-Ends :
    (host : Host) (dev : Bool) (fuel p : ℕ) (ps : List ℕ) (s : Maps) (m : Map)
    → s.global ≡ p ∷ ps
    → IsHeapList (p ∷ ps) s
    → s.cell p ≡ some m
    → is_heap m.flags ≡ true
    → ((s' : Maps) → s'.global ≡ ps → IsHeapList ps s' → Ends host dev fuel s')
    → Ends host dev (suc fuel) s
unfolding mmap_remove_ssr remove_first mmap_add
pass-Ends host dev fuel p ps s m g (live, once) at heap rest =
    let s1 : Maps = record s { global = ps } in
    let out : occurs p ps ≡ 0 = ground (arith, once p) in
    elim (Result-cases (munmap_on_dsp_rh host m.phys m.size m.flags)) [
      | inl (e, refused) ↦
          let (kind, denied) = munmap_on_dsp_rh-err host m e refused in
          (
            (err failed, mmap_add p m s1),
            simp (mmap_remove_ssr, g, remove_first, at, refused),
            (
              refl,
              p,
              m,
              [],
              ps,
              at,
              kind,
              denied,
              rw (mmap_add, heap)
                  (record {
                    split = g;
                    left = refl;
                    freed = λ q n h live_q. ground (arith, h);
                    others = λ q h. ground (arith, at);
                    maps = λ f. refl;
                  }),
            ),
          )
      | inr (done, passed) ↦
          let s2 = mmap_free dev p false s1 in
          let (g2, fs, cs) = free_heap dev p m s1 at heap out in
          let (x, run, end) = rest s2 g2 (
            (λ q h.
                let (n, live_q, heap_q) = live q (ground (arith, h)) in
                let ne : q ≢ p = λ w. ground (arith, h, w) in
                (n, ground (arith, live_q, cs q, ne), heap_q)),
            λ q. ground (arith, once q),
          ) in
          (
            x,
            simp (mmap_remove_ssr, g, remove_first, at, passed, run),
            Ending-more host dev p m ps s s2 g at out g2 fs cs x end,
          )
    ]

drain :
    (host : Host) (dev : Bool) (fuel : ℕ) (ps : List ℕ) (s : Maps)
    → s.global ≡ ps
    → IsHeapList ps s
    → length ps < fuel
    → Ends host dev fuel s
unfolding mmap_remove_ssr
drain host dev zero ps s g fine lt = ground arith
drain host dev (suc fuel) [] s g fine lt = (
  (ok tt, s),
  simp (mmap_remove_ssr, g),
  record {
    split = rw g refl;
    left = g;
    freed = λ q m h. ground (arith, (rw g at h));
    others = λ q h. refl;
    maps = λ f. refl;
  },
)
drain host dev (suc fuel) (p ∷ ps) s g fine lt =
    let (m, at, heap) = fine.0 p (ground arith) in
    pass-Ends host dev fuel p ps s m g fine at heap
      λ s' g' fine'. drain host dev fuel ps s' g' fine' (omega (arith, lt))

IsCounted-IsHeapList : (s : Maps) → IsCounted s → IsHeapList s.global s
IsCounted-IsHeapList s v = (
  (λ q h. elim (Option-cases (s.cell q)) [
    | inl e ↦ absurd (rw e at (v.global q h))
    | inr (m, e) ↦ (m, e, (rw e at (v.global q h)).0)
  ]),
  v.global_once,
)

-- From a state with sound lists, `fastrpc_mmap_remove_ssr` ends, within one pass more than the list
-- of the driver has mappings. Either it succeeds and the list is empty, or it fails at a mapping that
-- the hypervisor does not assign back, which is first in the list again and followed by the mappings
-- behind it. Each mapping that was handled is freed if it had one reference and there is a device,
-- and otherwise stays allocated in no list; the other mappings and the lists of the files are as
-- before.
pub mmap_remove_ssr_ends :
    (host : Host) (dev : Bool) (fuel : ℕ) (s : Maps)
    → IsCounted s
    → length s.global < fuel
    → (x : Result (Unit {0}) × Maps) × (mmap_remove_ssr fuel host dev s ≡ some x)
      × Ending host dev s x
mmap_remove_ssr_ends host dev fuel s v lt =
    drain host dev fuel s.global s refl (IsCounted-IsHeapList s v) lt
