-- ===== src/Remote/Unmap.antt =====
-- What `fastrpc_internal_munmap` of android/adsprpc.c leaves behind when it fails.
use mathlib.Core.Path.{subst}
use reasoned_soc.Prelude.{
  Option-cases, ℕ, ◌<◌, ◌≡◌, refl, sym, ap, ◌∙◌, ◌⊎◌, inl, inr, Bool, true, some, arith,
}
use reasoned_soc.Errno.{Errno, Result, Result-cases, failed, enotty, err, ok}
use reasoned_soc.Context.{put, unlink}
use reasoned_soc.Context.Invariant.{occurs, occurs-unlink}
use reasoned_soc.Mapping.{Map, Maps, is_heap, mmap_add, find_map, is_remote_range, mmap_remove}
use reasoned_soc.Mapping.Search.{find_map_lem}
use reasoned_soc.Mapping.Counts.{IsCounted}
use reasoned_soc.Remote.{
  Host, munmap_on_dsp, Memory, with_maps, find_rbuf, unmap_rbuf, unmap_taken, unmap_map,
  internal_munmap,
}

-- The mapping `p` is taken out of the driver's list, or out of that of the file.
abbrev pub IsTaken : ℕ → ℕ → Maps → Result ℕ × Maps → Type 0
IsTaken fl p s r =
    ((0 < occurs p s.global) × (r ≡ (ok p, record s { global = unlink p s.global })))
    ⊎ ((0 < occurs p (s.maps fl))
        × (r ≡ (ok p, record s { maps = put s.maps fl (unlink p (s.maps fl)) })))

pub mmap_remove_cases :
    (fl va len : ℕ) (s : Maps)
    → (mmap_remove fl va len s ≡ (err enotty, s))
      ⊎ ((p : ℕ) × (m : Map) × (s.cell p ≡ some m)
          × (is_remote_range va len m ≡ true)
          × IsTaken fl p s (mmap_remove fl va len s))
unfolding mmap_remove
mmap_remove_cases fl va len s =
    elim (Option-cases (find_map (is_remote_range va len) s.cell s.global)) [
      | inr ((p, m), e) ↦
          let (live, pass, here) = find_map_lem (is_remote_range va len) s.cell s.global p m e in
          inr (p, m, live, pass, inl (here, simp (mmap_remove, e)))
      | inl e ↦ elim (Option-cases (find_map (is_remote_range va len) s.cell (s.maps fl))) [
        | inl k ↦ inl (simp (mmap_remove, e, k))
        | inr ((p, m), k) ↦
            let (live, pass, here) =
              find_map_lem (is_remote_range va len) s.cell (s.maps fl) p m k in
            inr (p, m, live, pass, inr (here, simp (mmap_remove, e, k)))
      ]
    ]

-- The same mappings are in the same lists, in an order that may differ, and are as they were.
pub record IsReordered (s t : Maps) : Type 0 where
  pub cells : (q : ℕ) → t.cell q ≡ s.cell q
  pub global : (q : ℕ) → occurs q t.global ≡ occurs q s.global
  pub maps : (f q : ℕ) → occurs q (t.maps f) ≡ occurs q (s.maps f)
  pub sessions : t.sessions ≡ s.sessions
  pub held : t.held ≡ s.held

IsReordered-same : (s : Maps) → IsReordered s s
IsReordered-same s = record {
  cells = λ q. refl;
  global = λ q. refl;
  maps = λ f q. refl;
  sessions = refl;
  held = refl;
}

global-back :
    (p : ℕ) (m : Map) (s : Maps)
    → IsCounted s
    → s.cell p ≡ some m
    → 0 < occurs p s.global
    → IsReordered s (mmap_add p m (record s { global = unlink p s.global }))
unfolding mmap_add
global-back p m s v live here =
    let heap : is_heap m.flags ≡ true = (rw live at (v.global p here)).0 in
    rw (mmap_add, heap)
      (record {
        cells = λ q. ground (arith, live);
        global = λ q. ground (arith, occurs-unlink p q s.global, here);
        maps = λ f q. refl;
        sessions = refl;
        held = refl;
      })

file_back :
    (fl p : ℕ) (m : Map) (s : Maps)
    → IsCounted s
    → s.cell p ≡ some m
    → 0 < occurs p (s.maps fl)
    → IsReordered s (mmap_add p m (record s { maps = put s.maps fl (unlink p (s.maps fl)) }))
unfolding mmap_add
file_back fl p m s v live here =
    let (heap, own, pos, low) = rw live at (v.file fl p here) in
    rw (mmap_add, heap, own)
      (record {
        cells = λ q. ground (arith, live);
        global = λ q. refl;
        maps = λ f q. ground (arith, occurs-unlink p q (s.maps fl), here);
        sessions = refl;
        held = refl;
      })

unmap_taken-err :
    (host : Host) (dev : Bool) (p : ℕ) (m : Map) (s t : Maps) (e : Errno)
    → s.cell p ≡ some m
    → unmap_taken host dev p s ≡ (err e, t)
    → (e ≡ failed) × (mmap_add p m s ≡ t)
unfolding unmap_taken
unmap_taken-err host dev p m s t e live h =
    elim (Result-cases (munmap_on_dsp host m.raddr m.phys m.size m.flags)) [
      | inl (d, k) ↦
          let h' = rw (unmap_taken, live, k) at h in (ground (arith, h'), ground (arith, h'))
      | inr (done, k) ↦ ground (arith, (rw (unmap_taken, live, k) at h))
    ]

pub unmap_map-taken :
    (host : Host) (dev : Bool) (fl va len p : ℕ) (s s' : Maps)
    → mmap_remove fl va len s ≡ (ok p, s')
    → unmap_map host dev fl va len s ≡ unmap_taken host dev p s'
unfolding unmap_map
unmap_map-taken host dev fl va len p s s' h = simp (unmap_map, h)

unmap_map-err :
    (host : Host) (dev : Bool) (fl va len : ℕ) (s t : Maps) (e : Errno)
    → IsCounted s
    → unmap_map host dev fl va len s ≡ (err e, t)
    → (e ≡ failed) × IsReordered s t
unfolding unmap_map
unmap_map-err host dev fl va len s t e v h = elim (mmap_remove_cases fl va len s) [
  | inl absent ↦
      let h' = rw (unmap_map, absent) at h in
      let s_eq : s ≡ t = ground (arith, h') in
      (ground (arith, h'), subst (IsReordered s) s_eq (IsReordered-same s))
  | inr (p, m, live, pass, inl (here, taken)) ↦
      let (failure, s_eq) =
        unmap_taken-err host dev p m (record s { global = unlink p s.global }) t e live
          (sym (unmap_map-taken host dev fl va len p s _ taken) ∙ h) in
      (failure, subst (IsReordered s) s_eq (global-back p m s v live here))
  | inr (p, m, live, pass, inr (here, taken)) ↦
      let (failure, s_eq) =
        unmap_taken-err host dev p m (record s { maps = put s.maps fl (unlink p (s.maps fl)) }) t e
          live (sym (unmap_map-taken host dev fl va len p s _ taken) ∙ h) in
      (failure, subst (IsReordered s) s_eq (file_back fl p m s v live here))
]

-- Whenever `fastrpc_internal_munmap` fails, from a state with sound lists of mappings, its error is
-- -1, nothing has been freed, no mapping and no buffer has changed, the lists of buffers are as
-- before, and each list of mappings has the mappings that it had, also where one had been taken out.
pub internal_munmap_fails :
    (host : Host) (dev : Bool) (fl vaddrout size : ℕ) (s t : Memory) (e : Errno)
    → IsCounted s.maps
    → internal_munmap host dev fl vaddrout size s ≡ (err e, t)
    → (e ≡ failed) × (t.bufs ≡ s.bufs) × IsReordered s.maps t.maps
unfolding internal_munmap unmap_rbuf
internal_munmap_fails host dev fl vaddrout size s t e v h =
    elim (Option-cases (find_rbuf vaddrout size s.bufs.cell s.bufs.remote_bufs)) [
      | inr ((p, b), k) ↦ elim (Result-cases (munmap_on_dsp host b.raddr b.phys b.size b.flags)) [
        | inl (d, refused) ↦
            let h' = rw (internal_munmap, k, unmap_rbuf, refused) at h in
            let s_eq : s ≡ t = ground (arith, h') in
            (
              ground (arith, h'),
              subst (λ (u : Memory). u.bufs ≡ s.bufs) s_eq refl,
              subst (λ (u : Memory). IsReordered s.maps u.maps) s_eq (IsReordered-same s.maps),
            )
        | inr (done, passed) ↦ ground (arith, (rw (internal_munmap, k, unmap_rbuf, passed) at h))
      ]
      | inl k ↦
          let h' : with_maps s (unmap_map host dev fl vaddrout size s.maps) ≡ (err e, t) =
            rw (internal_munmap, k) at h in
          let (failure, same) =
            unmap_map-err host dev fl vaddrout size s.maps t.maps e v
              (ap (λ x. (x.0, x.1.maps)) h') in
          (failure, sym (ap (λ x. x.1.bufs) h'), same)
    ]
