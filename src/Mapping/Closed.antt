-- ===== src/Mapping/Closed.antt =====
-- The mappings of a file in android/adsprpc.c, when the file is closed.
use reasoned_soc.Prelude.{
  ltb, ◌==◌, if◌then◌else◌, Bool-cases, Option-cases, ℕ, ◌-◌, ◌<◌, ◌≡◌, refl, ap, ◌∙◌, ◌≢◌, inl,
  inr, Bool, true, false, none, List, [], ◌∷◌, arith,
}
use reasoned_soc.Context.{put, unlink}
use reasoned_soc.Context.Invariant.{occurs, unlink_absent}
use reasoned_soc.Mapping.{Maps, more, mmap_free}
use reasoned_soc.Mapping.Counts.{IsCounted}
use reasoned_soc.Mapping.Runs.{close_map, close-IsCounted}

-- The loop of `fastrpc_file_free` over the mappings of the file.
unfoldable pub close_maps : Bool → ℕ → List ℕ → Maps → Maps
close_maps dev f [] s = s
close_maps dev f (p ∷ ps) s = close_maps dev f ps (close_map dev f p s)

-- A mapping of the file goes, however many references it has.
close_map_lem :
    (dev : Bool) (f p : ℕ) (ps : List ℕ) (s : Maps)
    → IsCounted s
    → s.maps f ≡ p ∷ ps
    → let t = close_map dev f p s in
      ((q : ℕ) → t.cell q ≡ put s.cell p none q)
      × (t.global ≡ s.global)
      × ((g : ℕ) → t.maps g ≡ (if g == f then ps else s.maps g))
unfolding mmap_free unlink
close_map_lem dev f p ps s v here =
    let listed : 0 < occurs p (s.maps f) = rw here (ground arith) in
    elim (Option-cases (s.cell p)) [
      | inl e ↦ absurd (rw e at (v.file f p listed))
      | inr (m, e) ↦
          let (heap, own, pos, low) = rw e at (v.file f p listed) in
          let out : occurs p ps ≡ 0 = ground (arith, (rw here at (v.file_once f p))) in
          let cut : unlink p ps ≡ ps = unlink_absent p ps out in
          let first : unlink p (s.maps f) ≡ ps = ap (unlink p) here ∙ ground arith in
          let twice : unlink p (unlink p (s.maps f)) ≡ ps = ap (unlink p) first ∙ cut in
          elim (Bool-cases (m.refs - 1 == 0)) [
            | inl last ↦
                let none_left : ltb 0 (m.refs - 1) ≡ false = ground (arith, last) in
                rw (mmap_free, e, last, none_left, heap, own)
                  ((λ q. ground arith), refl, λ g. ground (arith, first, twice))
            | inr more ↦
                let some_left : ltb 0 (m.refs - 1) ≡ true = ground (arith, more) in
                rw (mmap_free, e, more, some_left, heap, own)
                  ((λ q. ground arith), refl, λ g. ground (arith, first))
          ]
    ]

-- The mappings of the list are freed; the others, and the other lists, are as they were.
pub record IsClosed (f : ℕ) (ps : List ℕ) (s t : Maps) : Type 0 where
  pub empty : t.maps f ≡ []
  pub gone : (q : ℕ) → 0 < occurs q ps → t.cell q ≡ none
  pub cells : (q : ℕ) → occurs q ps ≡ 0 → t.cell q ≡ s.cell q
  pub global : t.global ≡ s.global
  pub maps : (g : ℕ) → g ≢ f → t.maps g ≡ s.maps g

pub close_maps-IsClosed :
    (dev : Bool) (f : ℕ) (ps : List ℕ) (s : Maps)
    → IsCounted s
    → s.maps f ≡ ps
    → IsClosed f ps s (close_maps dev f ps s)
unfolding close_maps
close_maps-IsClosed dev f [] s v here = record {
  empty = here;
  gone = λ q h. ground (arith, h);
  cells = λ q h. refl;
  global = refl;
  maps = λ g ne. refl;
}
close_maps-IsClosed dev f (p ∷ ps) s v here =
    let (cells, global, lists) = close_map_lem dev f p ps s v here in
    let t = close_map dev f p s in
    let out : occurs p ps ≡ 0 = ground (arith, (rw here at (v.file_once f p))) in
    let w = close-IsCounted dev f p s v (rw here (ground arith)) in
    let rest = close_maps-IsClosed dev f ps t w (lists f ∙ ground arith) in
    record {
      empty = rest.empty;
      gone = λ q h. ground (arith, h, rest.gone q, rest.cells q, cells q, out);
      cells = λ q h. ground (arith, h, rest.cells q, cells q);
      global = rest.global ∙ global;
      maps = λ g ne. rest.maps g ne ∙ lists g ∙ ground (arith, ne);
    }
