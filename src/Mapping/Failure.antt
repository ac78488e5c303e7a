-- ===== src/Mapping/Failure.antt =====
-- What a failed call of `fastrpc_mmap_create` in android/adsprpc.c leaves behind.
use reasoned_soc.Prelude.{
  ◌==◌, if◌then◌else◌, Bool-cases, ℕ, ◌<◌, ◌≡◌, ◌≢◌, ◌∙◌, ap, refl, inl, inr, Bool, true, false,
  none, some, arith,
}
use reasoned_soc.Errno.{Errno, Result, err, ok}
use reasoned_soc.Context.Invariant.{occurs, unlink_absent}
use reasoned_soc.Mapping.{
  Map, Maps, Held, dmahandle_nomap, is_heap, less, more, release, mmap_find, mmap_free,
}
use reasoned_soc.Mapping.Fill.{Draft, to_map}
use reasoned_soc.Mapping.Create.{
  finish, Given, Wanted, draft, fill, fill_plain, with_draft, mmap_create,
}
use reasoned_soc.Mapping.Owned.{is_mapped, Owns, IsBare, kept, fill_plain-Owns}

same_held :
    (a b : Held)
    → a.regions ≡ b.regions
    → a.handles ≡ b.handles
    → a.bufs ≡ b.bufs
    → a.attaches ≡ b.attaches
    → a.tables ≡ b.tables
    → a.mapped ≡ b.mapped
    → a ≡ b
same_held a b r h u t l m = rw (r, h, u, t, l, m) refl

less-more : (b : Bool) (n : ℕ) → less b (more b n) ≡ n
less-more b n = ground arith

-- Neither heap memory nor a handle without a mapping.
abbrev pub IsPlain : ℕ → Type 0
IsPlain flags = (is_heap flags ≡ false) × ((flags == dmahandle_nomap) ≡ false)

-- What a draft owns is what is given back.
pub release-Owns :
    (h d : Draft) → IsPlain h.map.flags → Owns h d → release d.map d.sessions d.held ≡ h.held
unfolding release
release-Owns h d (heap, nomap) o =
    let heap' : is_heap d.map.flags ≡ false = rw o.flags heap in
    let nomap' : (d.map.flags == dmahandle_nomap) ≡ false = rw o.flags nomap in
    rw (release, heap', nomap')
      (same_held _ h.held o.regions (rw o.handles (less-more d.map.handle h.held.handles))
        (rw o.bufs (less-more d.map.buf h.held.bufs))
        (rw o.attaches (less-more d.map.attach h.held.attaches))
        (rw o.tables (less-more d.map.table h.held.tables))
        (rw o.mapped (less-more (is_mapped d) h.held.mapped)))

-- The lists and the other mappings are as before.
pub record IsElsewhereSame (p : ℕ) (s t : Maps) : Type 0 where
  pub global : t.global ≡ s.global
  pub maps : (f : ℕ) → t.maps f ≡ s.maps f
  pub cells : (q : ℕ) → q ≢ p → t.cell q ≡ s.cell q

-- The mapping `p` is gone, and nothing else has changed.
abbrev pub IsUndone : ℕ → Maps → Maps → Type 0
IsUndone p s t = (t.cell p ≡ none) × (t.held ≡ s.held) × IsElsewhereSame p s t

-- The mapping `p` is still there, in no list, with one reference and with what was taken for it.
pub record IsLeaked (p : ℕ) (s t : Maps) : Type 0 where
  pub map : Map
  pub live : t.cell p ≡ some map
  pub refs : map.refs ≡ 1
  pub handles : t.held.handles ≡ more map.handle s.held.handles
  pub bufs : t.held.bufs ≡ more map.buf s.held.bufs
  pub attaches : t.held.attaches ≡ more map.attach s.held.attaches
  pub tables : t.held.tables ≡ more map.table s.held.tables
  pub same : IsElsewhereSame p s t

pub free-IsUndone :
    (dev : Bool) (p : ℕ) (w : Wanted) (d : Draft) (s : Maps)
    → IsPlain w.mflags
    → Owns (draft w s) d
    → s.cell p ≡ none
    → occurs p (s.maps w.fl) ≡ 0
    → IsUndone p s (mmap_free dev p false (with_draft p w d s))
unfolding mmap_free
free-IsUndone dev p w d s (heap, nomap) o dead out =
    let live : (with_draft p w d s).cell p ≡ some d.map = ground arith in
    let heap' : is_heap d.map.flags ≡ false = rw o.flags heap in
    let last : d.map.refs ≡ 1 = o.refs in
    let same_fl : (w.fl == w.fl) ≡ true = ground arith in
    let rel : release d.map d.sessions d.held ≡ s.held =
      release-Owns (draft w s) d (heap, nomap) o in
    rw (mmap_free, live, last, heap', o.fl)
      (
        ground arith,
        rw same_fl (rw (last, o.fl) at rel),
        record {
          global = refl;
          maps = λ f. ground (arith, unlink_absent p (s.maps w.fl) out);
          cells = λ q ne. ground arith;
        },
      )

free-IsLeaked :
    (dev : Bool) (p : ℕ) (w : Wanted) (d : Draft) (s : Maps)
    → IsPlain w.mflags
    → Owns (to_map (λ m. record m { refs = 2 }) (draft w s)) d
    → IsLeaked p s (mmap_free dev p false (with_draft p w d s))
unfolding mmap_free
free-IsLeaked dev p w d s (heap, nomap) o =
    let live : (with_draft p w d s).cell p ≡ some d.map = ground arith in
    let heap' : is_heap d.map.flags ≡ false = rw o.flags heap in
    rw (mmap_free, live, o.refs, heap')
      (record {
        map = record d.map { refs = 1 };
        live = ground arith;
        refs = refl;
        handles = o.handles;
        bufs = o.bufs;
        attaches = o.attaches;
        tables = o.tables;
        same = record { global = refl; maps = λ f. refl; cells = λ q ne. ground arith };
      })

pub not_found :
    (dev : Bool) (g : Given) (w : Wanted) (s : Maps) (p : ℕ) (e : Errno)
    → (mmap_find w.fl w.fd w.va w.len w.mflags true s).0 ≡ err e
    → g.fresh ≡ some p
    → mmap_create dev g w s ≡ finish dev p w s (fill g w (draft w s))
unfolding mmap_create
not_found dev g w s p e missing fresh = simp (mmap_create, missing, fresh)

finish_fails :
    (dev : Bool) (p : ℕ) (w : Wanted) (s : Maps) (error : Errno) (x : Result (Unit {0}) × Draft)
    → IsPlain w.mflags
    → Owns (kept w (draft w s)) x.1
    → s.cell p ≡ none
    → occurs p (s.maps w.fl) ≡ 0
    → (finish dev p w s x).0 ≡ err error
    → if w.keep_map
      then IsLeaked p s (finish dev p w s x).1
      else IsUndone p s (finish dev p w s x).1
unfolding finish
finish_fails dev p w s error (ok done, d) plain o dead out h = ground (arith, h)
finish_fails dev p w s error (err e, d) plain o dead out h = elim (Bool-cases w.keep_map) [
  | inl k ↦ rw k (free-IsLeaked dev p w d s plain (rw k at o))
  | inr k ↦ rw k (free-IsUndone dev p w d s plain (rw k at o) dead out)
]

-- Let a plain mapping not be found, let `kzalloc` give an address that is neither live nor in the
-- list of the file, let the DMA address and length be positive where they are read, and let the
-- creation fail, at whichever step. Without the attribute that keeps a mapping, everything that was
-- taken for it is given back, the mapping is freed, and the lists and the other mappings are as
-- before. With that attribute the mapping stays allocated with one reference, its handle, its buffer,
-- its attachment and its table stay taken, and it is in no list that it was not in before.
pub mmap_create_fails :
    (dev : Bool) (g : Given) (w : Wanted) (s : Maps) (p : ℕ) (missing error : Errno)
    → IsPlain w.mflags
    → 0 < g.dma_address
    → 0 < g.dma_len
    → (mmap_find w.fl w.fd w.va w.len w.mflags true s).0 ≡ err missing
    → g.fresh ≡ some p
    → s.cell p ≡ none
    → occurs p (s.maps w.fl) ≡ 0
    → (mmap_create dev g w s).0 ≡ err error
    → if w.keep_map
      then IsLeaked p s (mmap_create dev g w s).1
      else IsUndone p s (mmap_create dev g w s).1
unfolding fill
mmap_create_fails dev g w s p missing error plain pos len absent fresh dead out fails =
    let start : IsBare (draft w s) = (refl, refl, refl, refl, refl, refl) in
    let owned = fill_plain-Owns g w (draft w s) pos len start in
    let is_plain : fill g w (draft w s) ≡ fill_plain g w (draft w s) = rw (plain.0, plain.1) refl in
    let eq = not_found dev g w s p missing absent fresh ∙ ap (finish dev p w s) is_plain in
    rw eq (
      finish_fails dev p w s error (fill_plain g w (draft w s)) plain owned dead out
        (rw eq at fails))
