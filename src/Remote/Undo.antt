-- ===== src/Remote/Undo.antt =====
-- The removal of a mapping of android/adsprpc.c that has just been made.
use mathlib.Core.Path.{subst}
use reasoned_soc.Prelude.{
  if◌then◌else◌, ℕ, ◌≡◌, refl, sym, ap, ◌∙◌, ◌≢◌, Bool, true, false, Option, none, some, List, [],
  ◌∷◌, arith,
}
use reasoned_soc.Errno.{ok}
use reasoned_soc.Context.{put, unlink}
use reasoned_soc.Context.Invariant.{occurs, unlink_absent}
use reasoned_soc.Mapping.{
  Map, Maps, is_heap, find_map, is_remote_range, mmap_remove, release, mmap_free,
}
use reasoned_soc.Mapping.Fill.{Draft, to_map}
use reasoned_soc.Mapping.Create.{Wanted, draft, with_draft}
use reasoned_soc.Mapping.Owned.{Owns}
use reasoned_soc.Mapping.Failure.{IsPlain, release-Owns, IsUndone}
use reasoned_soc.Remote.{RemoteCall, Host, munmap_on_dsp, unmap_taken, unmap_map, unmap_pages}
use reasoned_soc.Remote.Unmap.{unmap_map-taken}

find_map-put :
    (test : Map → Bool) (cell : ℕ → Option Map) (p : ℕ) (v : Option Map) (ps : List ℕ)
    → occurs p ps ≡ 0
    → find_map test (put cell p v) ps ≡ find_map test cell ps
unfolding find_map
find_map-put test cell p v [] out = refl
find_map-put test cell p v (q ∷ ps) out =
    ground (arith, out, find_map-put test cell p v ps (ground (arith, out)))

find_map-hit :
    (test : Map → Bool) (cell : ℕ → Option Map) (p : ℕ) (m : Map) (ps : List ℕ)
    → cell p ≡ some m
    → test m ≡ true
    → find_map test cell (p ∷ ps) ≡ some (p, m)
unfolding find_map
find_map-hit test cell p m ps live fits = ground (arith, live, fits)

-- The mapping of a finished draft, with its length and its address on the remote processor.
abbrev pub made : Wanted → ℕ → Draft → Draft
made w raddr d = to_map (λ m. record m { len = w.len; raddr = raddr }) d

pub made-Owns : (h d : Draft) (w : Wanted) (raddr : ℕ) → Owns h d → Owns h (made w raddr d)
made-Owns h d w raddr o = record {
  regions = o.regions;
  handles = o.handles;
  bufs = o.bufs;
  attaches = o.attaches;
  tables = o.tables;
  mapped = o.mapped;
  flags = o.flags;
  refs = o.refs;
  fl = o.fl;
}

-- The state with that mapping at the head of the list of its file.
abbrev pub entered : ℕ → Wanted → ℕ → Draft → Maps → Maps
entered p w raddr d s = record (with_draft p w (made w raddr d) s) {
  maps = put s.maps w.fl (p ∷ s.maps w.fl);
}

-- The last reference of a plain mapping that is in no other list than that of its file.
pub free_last :
    (dev : Bool) (fl p : ℕ) (m : Map) (s t : Maps)
    → IsPlain m.flags
    → m.refs ≡ 1
    → m.fl ≡ some fl
    → t.cell p ≡ some m
    → release m (t.sessions fl) t.held ≡ s.held
    → t.global ≡ s.global
    → ((f : ℕ) → put t.maps fl (unlink p (t.maps fl)) f ≡ s.maps f)
    → ((q : ℕ) → q ≢ p → t.cell q ≡ s.cell q)
    → IsUndone p s (mmap_free dev p false t)
unfolding mmap_free
free_last dev fl p m s t (heap, nomap) last own live back global maps cells =
    rw (mmap_free, live, last, heap, own)
      (
        ground arith,
        (rw (last, own) at back),
        record { global = global; maps = maps; cells = λ q ne. ground (arith, cells q ne) },
      )

-- The remote processor accepts every call.
abbrev pub Accepts : Host → Type 0
Accepts host = (call : RemoteCall) → (v : ℕ) × (host.invoke call ≡ ok v)

pub munmap_on_dsp-plain :
    (host : Host) (raddr phys size flags : ℕ)
    → is_heap flags ≡ false
    → Accepts host
    → munmap_on_dsp host raddr phys size flags ≡ ok tt
unfolding munmap_on_dsp
munmap_on_dsp-plain host raddr phys size flags plain accepts =
    let (v, e) = accepts (
      if host.compat
      then unmap_pages 5 1 0 host.tgid raddr size
      else unmap_pages 3 1 0 host.tgid raddr size) in
    simp (munmap_on_dsp, e, plain)

entered-taken :
    (p : ℕ) (w : Wanted) (raddr : ℕ) (d : Draft) (s : Maps)
    → Owns (draft w s) d
    → occurs p s.global ≡ 0
    → find_map (is_remote_range raddr w.len) s.cell s.global ≡ none
    → let e = entered p w raddr d s in
      mmap_remove w.fl raddr w.len e
      ≡ (ok p, record e { maps = put e.maps w.fl (unlink p (e.maps w.fl)) })
unfolding mmap_remove find_map
entered-taken p w raddr d s o out other =
    let e = entered p w raddr d s in
    let m = (made w raddr d).map in
    let test = is_remote_range raddr w.len in
    let miss : find_map test e.cell s.global ≡ none =
      find_map-put test s.cell p (some m) s.global out ∙ other in
    let fits : test m ≡ true = ground (arith, o.refs) in
    let live : e.cell p ≡ some m = ground arith in
    let first : e.maps w.fl ≡ p ∷ s.maps w.fl = ground arith in
    let hit : find_map test e.cell (e.maps w.fl) ≡ some (p, m) =
      ap (find_map test e.cell) first ∙ find_map-hit test e.cell p m (s.maps w.fl) live fits in
    simp (mmap_remove, miss, hit)

pub entered-IsUndone :
    (host : Host) (dev : Bool) (p : ℕ) (w : Wanted) (raddr : ℕ) (d : Draft) (s : Maps)
    → IsPlain w.mflags
    → Owns (draft w s) d
    → occurs p s.global ≡ 0
    → occurs p (s.maps w.fl) ≡ 0
    → find_map (is_remote_range raddr w.len) s.cell s.global ≡ none
    → Accepts host
    → (t : Maps) × (unmap_map host dev w.fl raddr w.len (entered p w raddr d s) ≡ (ok tt, t))
      × IsUndone p s t
unfolding unmap_taken unlink
entered-IsUndone host dev p w raddr d s plain o out outs other accepts =
    let e = entered p w raddr d s in
    let d' = made w raddr d in
    let m = d'.map in
    let e2 : Maps = record e { maps = put e.maps w.fl (unlink p (e.maps w.fl)) } in
    let flags_eq : m.flags ≡ w.mflags = o.flags in
    let plain' : IsPlain m.flags = subst IsPlain (sym flags_eq) plain in
    let live : e2.cell p ≡ some m = ground arith in
    let gone = munmap_on_dsp-plain host raddr d.map.phys d.map.size m.flags plain'.0 accepts in
    let own : e2.sessions w.fl ≡ d.sessions = ground arith in
    let back : release m (e2.sessions w.fl) e2.held ≡ s.held =
      ap (λ x. release m x d.held) own
      ∙ release-Owns (draft w s) d' plain (made-Owns (draft w s) d w raddr o) in
    let maps : (f : ℕ) → put e2.maps w.fl (unlink p (e2.maps w.fl)) f ≡ s.maps f =
      λ f. ground (arith, unlink_absent p (s.maps w.fl) outs) in
    (
      mmap_free dev p false e2,
      unmap_map-taken host dev w.fl raddr w.len p e e2 (entered-taken p w raddr d s o out other)
          ∙ simp (unmap_taken, live, gone),
      free_last dev w.fl p m s e2 plain' o.refs o.fl live back refl maps λ q ne. ground arith,
    )
