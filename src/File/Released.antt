-- ===== src/File/Released.antt =====
-- What the contexts of a closed file own in android/adsprpc.c: their mappings and their buffers.
use reasoned_soc.Prelude.{
  ltb, ◌==◌, Bool-cases, Option-cases, ℕ, ◌+◌, ◌-◌, ◌<◌, ◌≡◌, refl, ◌∙◌, ◌≢◌, ◌⊎◌, inl, inr, Bool,
  true, false, Option, none, some, List, [], ◌∷◌, ◌++◌, arith,
}
use reasoned_soc.Context.Invariant.{occurs, owned, occurs-unlink}
use reasoned_soc.Mapping.{Maps, more, mmap_free}
use reasoned_soc.Mapping.Counts.{IsCounted}
use reasoned_soc.Mapping.Runs.{free-IsCounted}
use reasoned_soc.Mapping.Closed.{close_maps, IsClosed, close_maps-IsClosed}
use reasoned_soc.File.{Owned, release_maps, release_context, release_each}
use reasoned_soc.Buffer.{Bufs}
use mathlib.Core.Path.{subst}

-- The mappings and the buffers of contexts.
abbrev pub maps_of : (ℕ → Owned) → List ℕ → List ℕ
maps_of owned [] = []
maps_of owned (p ∷ ps) = (owned p).maps ++ maps_of owned ps

abbrev pub listed : Option ℕ → List ℕ → List ℕ
listed none ps = ps
listed (some p) ps = p ∷ ps

abbrev pub bufs_of : (ℕ → Owned) → List ℕ → List ℕ
bufs_of owned [] = []
bufs_of owned (p ∷ ps) = listed (owned p).buf (listed (owned p).lbuf (bufs_of owned ps))

-- A reference to a mapping of the file `f` is dropped.
drop_lem :
    (dev : Bool) (f p : ℕ) (s : Maps)
    → IsCounted s
    → 0 < occurs p (s.maps f)
    → let t = mmap_free dev p false s in
      (t.global ≡ s.global)
      × ((g : ℕ) → g ≢ f → t.maps g ≡ s.maps g)
      × ((q : ℕ) → q ≢ p → (t.cell q ≡ s.cell q) × (occurs q (t.maps f) ≡ occurs q (s.maps f)))
      × ((0 < occurs p (t.maps f)) ⊎ (t.cell p ≡ none))
unfolding mmap_free
drop_lem dev f p s v here = elim (Option-cases (s.cell p)) [
  | inl e ↦ absurd (rw e at (v.file f p here))
  | inr (m, e) ↦
      let (heap, own, pos, low) = rw e at (v.file f p here) in
      elim (Bool-cases (m.refs - 1 == 0)) [
        | inl last ↦
            let none_left : ltb 0 (m.refs - 1) ≡ false = ground (arith, last) in
            rw (mmap_free, e, last, none_left, heap, own)
              (
                refl,
                (λ g ne. ground (arith, ne)),
                (λ q ne. ground (arith, ne, occurs-unlink p q (s.maps f))),
                inr (ground arith),
              )
        | inr more ↦
            let some_left : ltb 0 (m.refs - 1) ≡ true = ground (arith, more) in
            rw (mmap_free, e, more, some_left, heap, own)
              (refl, (λ g ne. refl), (λ q ne. ground (arith, ne)), inl here)
      ]
]

-- Along the way, a mapping of the file is still in its list or gone, and the others are as before.
record IsOnTheWay (f : ℕ) (s t : Maps) : Type 0 where
  counted : IsCounted t
  global : t.global ≡ s.global
  maps : (g : ℕ) → g ≢ f → t.maps g ≡ s.maps g
  inside : (q : ℕ) → 0 < occurs q (s.maps f) → (0 < occurs q (t.maps f)) ⊎ (t.cell q ≡ none)
  outside : (q : ℕ) → occurs q (s.maps f) ≡ 0 → (t.cell q ≡ s.cell q) × (occurs q (t.maps f) ≡ 0)

drop-IsOnTheWay :
    (dev : Bool) (f p : ℕ) (s t : Maps)
    → 0 < occurs p (s.maps f)
    → IsOnTheWay f s t
    → IsOnTheWay f s (mmap_free dev p false t)
unfolding mmap_free
drop-IsOnTheWay dev f p s t mine v = elim (v.inside p mine) [
  | inr gone ↦ rw (mmap_free, gone) v
  | inl here ↦
      let (global, maps, cells, either) = drop_lem dev f p t v.counted here in
      let u = mmap_free dev p false t in
      record {
        counted = free-IsCounted dev false p t v.counted λ on. ground (arith, on);
        global = global ∙ v.global;
        maps = λ g ne. maps g ne ∙ v.maps g ne;
        inside = λ q h. elim (Bool-cases (q == p)) [
          | inl e ↦
              let q_eq : p ≡ q = ground (arith, e) in
              subst (λ r. (0 < occurs r (u.maps f)) ⊎ (u.cell r ≡ none)) q_eq either
          | inr e ↦
              let (cell, count) = cells q (λ w. ground (arith, e, w)) in
              ground (arith, v.inside q h, cell, count)
        ];
        outside = λ q h.
            let ne : q ≢ p = λ w. ground (arith, w, h, mine) in
            let (cell, count) = cells q ne in
            let (cell', count') = v.outside q h in (cell ∙ cell', count ∙ count');
      }
]

release_maps-IsOnTheWay :
    (dev : Bool) (f : ℕ) (ps : List ℕ) (s t : Maps)
    → ((q : ℕ) → 0 < occurs q ps → 0 < occurs q (s.maps f))
    → IsOnTheWay f s t
    → IsOnTheWay f s (release_maps dev ps t)
unfolding release_maps
release_maps-IsOnTheWay dev f [] s t mine v = v
release_maps-IsOnTheWay dev f (p ∷ ps) s t mine v =
    release_maps-IsOnTheWay dev f ps s (mmap_free dev p false t) (λ q h. mine q (ground (arith, h)))
      (drop-IsOnTheWay dev f p s t (mine p (ground arith)) v)

pub occurs-++ : (q : ℕ) (xs ys : List ℕ) → occurs q (xs ++ ys) ≡ occurs q xs + occurs q ys
occurs-++ q [] ys = omega arith
occurs-++ q (x ∷ xs) ys = rw (occurs-++ q xs ys) (omega arith)

release_each-IsOnTheWay :
    (dev : Bool) (f : ℕ) (owned : ℕ → Owned) (ps : List ℕ) (s : Maps) (x : Maps × Bufs)
    → ((q : ℕ) → 0 < occurs q (maps_of owned ps) → 0 < occurs q (s.maps f))
    → IsOnTheWay f s x.0
    → IsOnTheWay f s (release_each dev owned ps x).0
unfolding release_each
release_each-IsOnTheWay dev f owned [] s x mine v = v
release_each-IsOnTheWay dev f owned (p ∷ ps) s (maps, bufs) mine v =
    release_each-IsOnTheWay dev f owned ps s (release_context dev (owned p) (maps, bufs))
      (λ q h. mine q (omega (arith, h, occurs-++ q (owned p).maps (maps_of owned ps))))
      (release_maps-IsOnTheWay dev f (owned p).maps s maps
        (λ q h. mine q (omega (arith, h, occurs-++ q (owned p).maps (maps_of owned ps)))) v)

-- The contexts drop their mappings, and the file drops what is left.
pub released-IsClosed :
    (dev : Bool) (f : ℕ) (owned : ℕ → Owned) (ps : List ℕ) (s : Maps) (bufs : Bufs)
    → IsCounted s
    → ((q : ℕ) → 0 < occurs q (maps_of owned ps) → 0 < occurs q (s.maps f))
    → let t = (release_each dev owned ps (s, bufs)).0 in
      IsClosed f (s.maps f) s (close_maps dev f (t.maps f) t)
released-IsClosed dev f owned ps s bufs v mine =
    let t = (release_each dev owned ps (s, bufs)).0 in
    let start : IsOnTheWay f s s = record {
      counted = v;
      global = refl;
      maps = λ g ne. refl;
      inside = λ q h. inl h;
      outside = λ q h. (refl, h);
    } in
    let way = release_each-IsOnTheWay dev f owned ps s (s, bufs) mine start in
    let closed = close_maps-IsClosed dev f (t.maps f) t way.counted refl in
    let u = close_maps dev f (t.maps f) t in
    record {
      empty = closed.empty;
      gone = λ q h. elim (Bool-cases (occurs q (t.maps f) == 0)) [
        | inr e ↦ closed.gone q (ground (arith, e))
        | inl e ↦ closed.cells q (ground (arith, e)) ∙ ground (arith, e, way.inside q h)
      ];
      cells = λ q h. let (cell, count) = way.outside q h in closed.cells q count ∙ cell;
      global = closed.global ∙ way.global;
      maps = λ g ne. closed.maps g ne ∙ way.maps g ne;
    }
