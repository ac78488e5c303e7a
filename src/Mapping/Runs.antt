-- ===== src/Mapping/Runs.antt =====
-- The operations of android/adsprpc.c on mappings as steps of a system.
use reasoned_soc.Prelude.{
  ltb, ◌==◌, Bool-cases, Option-cases, ℕ, ◌-◌, ◌<◌, ◌≡◌, ◌≢◌, refl, inl, inr, Bool, true, false,
  some, arith,
}
use reasoned_soc.Errno.{Result, err, ok}
use reasoned_soc.Context.{put, unlink}
use reasoned_soc.Context.Invariant.{occurs, occurs-unlink}
use reasoned_soc.Mapping.{
  dmahandle_nomap, Map, Maps, int_max, is_heap, mmap_find, mmap_remove, mmap_add, mmap_free,
}
use reasoned_soc.Mapping.Fill.{◌>>=◌, attempt, update, Draft}
use reasoned_soc.Mapping.Create.{
  Given, Wanted, draft, with_draft, fill, fill_heap, fill_nomap, import, finish, mmap_create,
}
use reasoned_soc.Mapping.Owned.{fill_plain-Owns}
use reasoned_soc.Errno.{Result-cases}
use reasoned_soc.Mapping.Failure.{not_found}
use reasoned_soc.Mapping.Counts.{
  IsCounted, IsAway, HasLeft, left-IsCounted, fewer-IsCounted, away-IsCounted, find-IsCounted,
  remove-IsCounted, add-IsCounted,
}

last_leaves :
    (dev flags : Bool) (p : ℕ) (m : Map) (s : Maps)
    → s.cell p ≡ some m
    → (m.refs - 1 == 0) ≡ true
    → HasLeft p m s (mmap_free dev p flags s)
unfolding mmap_free
last_leaves dev flags p m s live last =
    let none_left : ltb 0 (m.refs - 1) ≡ false = ground (arith, last) in
    elim (Bool-cases (is_heap m.flags)) [
      | inl e ↦ elim (Bool-cases dev) [
        | inl d ↦
            rw (mmap_free, live, last, none_left, e, d) (refl, (λ f. refl), λ q ne. ground arith)
        | inr d ↦
            rw (mmap_free, live, last, none_left, e, d) (refl, (λ f. refl), λ q ne. ground arith)
      ]
      | inr e ↦
          rw (mmap_free, live, last, none_left, e) (refl, (λ f. ground arith), λ q ne. ground arith)
    ]

forced_stays :
    (dev : Bool) (p : ℕ) (m : Map) (s : Maps)
    → s.cell p ≡ some m
    → (m.refs - 1 == 0) ≡ false
    → let t = mmap_free dev p true s in
      (t.global ≡ s.global)
      × ((f : ℕ) → t.maps f ≡ s.maps f)
      × ((q : ℕ) → q ≢ p → t.cell q ≡ s.cell q)
unfolding mmap_free
forced_stays dev p m s live more =
    let some_left : ltb 0 (m.refs - 1) ≡ true = ground (arith, more) in
    elim (Bool-cases (is_heap m.flags)) [
      | inl e ↦ rw (mmap_free, live, more, some_left, e) (refl, (λ f. refl), λ q ne. ground arith)
      | inr e ↦ rw (mmap_free, live, more, some_left, e) (refl, (λ f. refl), λ q ne. ground arith)
    ]

pub free-IsCounted :
    (dev flags : Bool) (p : ℕ) (s : Maps)
    → IsCounted s
    → (flags ≡ true → IsAway p s)
    → IsCounted (mmap_free dev p flags s)
unfolding mmap_free
free-IsCounted dev flags p s v away = elim (Option-cases (s.cell p)) [
  | inl e ↦ rw (mmap_free, e) v
  | inr (m, e) ↦ elim (Bool-cases (m.refs - 1 == 0)) [
    | inl last ↦
        left-IsCounted s (mmap_free dev p flags s) p m v e (last_leaves dev flags p m s e last)
    | inr more ↦ elim (Bool-cases flags) [
      | inl f ↦
          let (g, fs, cs) = forced_stays dev p m s e more in
          rw f (away-IsCounted s (mmap_free dev p true s) p v (away f) g fs cs)
      | inr f ↦
          let some_left : ltb 0 (m.refs - 1) ≡ true = ground (arith, more) in
          let rest = fewer-IsCounted s p m v e (ground (arith, more)) in
          elim (Bool-cases (is_heap m.flags)) [
            | inl h ↦ rw (mmap_free, e, more, some_left, h) rest
            | inr h ↦ rw (mmap_free, e, more, some_left, h, f) rest
          ]
    ]
  ]
]

-- A round of the loop of `fastrpc_file_free` over the mappings of the file.
abbrev pub close_map : Bool → ℕ → ℕ → Maps → Maps
close_map dev f p s = mmap_free dev p true (record s { maps = put s.maps f (unlink p (s.maps f)) })

pub close-IsCounted :
    (dev : Bool) (f p : ℕ) (s : Maps)
    → IsCounted s
    → 0 < occurs p (s.maps f)
    → IsCounted (close_map dev f p s)
close-IsCounted dev f p s v here =
    let t = record s { maps = put s.maps f (unlink p (s.maps f)) } in
    let w : IsCounted t = record {
      global = v.global;
      file = λ g q h. ground (arith, v.file g q, h, occurs-unlink p q (s.maps f));
      global_once = v.global_once;
      file_once = λ g q. ground (arith, v.file_once g q, occurs-unlink p q (s.maps f));
    } in
    free-IsCounted dev true p t w λ on. (
      ground (arith, v.file f p, here, v.global p),
      λ g.
          ground
            (arith, v.file f p, here, v.file g p, v.file_once f p, occurs-unlink p p (s.maps f)),
    )

-- What the mapping of a draft has, whatever the outcome of its making.
abbrev HasHead : Wanted → Map → Type 0
HasHead w m =
    (m.flags ≡ w.mflags)
    × (0 < m.refs)
    × (m.refs < int_max)
    × (is_heap w.mflags ≡ false → m.fl ≡ some w.fl)

fill-HasHead :
    (g : Given) (w : Wanted) (s : Maps)
    → 0 < g.dma_address
    → 0 < g.dma_len
    → HasHead w (fill g w (draft w s)).1.map
unfolding fill fill_heap fill_nomap import ◌>>=◌ attempt update
fill-HasHead g w s pos len = elim (Bool-cases (is_heap w.mflags)) [
  | inl h ↦ rw (fill, h) (ground (arith, h))
  | inr h ↦ elim (Bool-cases (w.mflags == dmahandle_nomap)) [
    | inl n ↦ rw (fill, h, n) (ground (arith, h, n))
    | inr n ↦
        let o = fill_plain-Owns g w (draft w s) pos len (refl, refl, refl, refl, refl, refl) in
        rw (fill, h, n) (ground (arith, h, n, o.flags, o.refs, o.fl))
  ]
]

finish-IsCounted :
    (dev : Bool) (p : ℕ) (w : Wanted) (s : Maps) (x : Result (Unit {0}) × Draft)
    → IsCounted s
    → IsAway p s
    → HasHead w x.1.map
    → IsCounted (finish dev p w s x).1
unfolding finish
finish-IsCounted dev p w s (err e, d) v away head =
    free-IsCounted dev false p (with_draft p w d s)
      (away-IsCounted s (with_draft p w d s) p v away refl (λ f. refl) (λ q ne. ground arith))
      λ on. ground (arith, on)
finish-IsCounted dev p w s (ok done, d) v away (flags, pos, low, at) =
    let t = with_draft p w d s in
    let v' = away-IsCounted s t p v away refl (λ f. refl) (λ q ne. ground arith) in
    add-IsCounted t p (record d.map { len = w.len }) v' away.0 away.1 pos low w.fl
      λ e. at (rw (← flags) e)

create-IsCounted :
    (dev : Bool) (g : Given) (w : Wanted) (s : Maps)
    → IsCounted s
    → 0 < g.dma_address
    → 0 < g.dma_len
    → ((p : ℕ) → g.fresh ≡ some p → IsAway p s)
    → IsCounted (mmap_create dev g w s).1
unfolding mmap_create
create-IsCounted dev g w s v pos len away =
    elim (Result-cases (mmap_find w.fl w.fd w.va w.len w.mflags true s).0) [
      | inr (p, found) ↦
          rw (mmap_create, found) (find-IsCounted w.fl w.fd w.va w.len w.mflags true s v)
      | inl (e, missing) ↦ elim (Option-cases g.fresh) [
        | inl out ↦ rw (mmap_create, missing, out) v
        | inr (p, fresh) ↦ rw (not_found dev g w s p e missing fresh) (
            finish-IsCounted dev p w s (fill g w (draft w s)) v (away p fresh)
              (fill-HasHead g w s pos len))
      ]
    ]

-- One operation on mappings, by any file.
pub data Step (s : Maps) : Maps → Type 0 where
  searches :
      (fl fd va len mflags : ℕ) (refs : Bool) → Step s (mmap_find fl fd va len mflags refs s).1
  creates :
      (dev : Bool) (g : Given) (w : Wanted)
      → 0 < g.dma_address
      → 0 < g.dma_len
      → ((p : ℕ) → g.fresh ≡ some p → IsAway p s)
      → Step s (mmap_create dev g w s).1
  releases : (dev : Bool) (p : ℕ) → Step s (mmap_free dev p false s)
  removes : (fl va len : ℕ) → Step s (mmap_remove fl va len s).1
  puts_back :
      (p f : ℕ) (m : Map)
      → s.cell p ≡ some m
      → IsAway p s
      → (0 < m.refs) × (m.refs < int_max)
      → (is_heap m.flags ≡ false → m.fl ≡ some f)
      → Step s (mmap_add p m s)
  closes : (dev : Bool) (f p : ℕ) → 0 < occurs p (s.maps f) → Step s (close_map dev f p s)

pub data Reach (s : Maps) : Maps → Type 0 where
  started : Reach s s
  next : {t u : Maps} → Reach s t → Step t u → Reach s u

Step-IsCounted : {s t : Maps} → IsCounted s → Step s t → IsCounted t
Step-IsCounted {s} v (searches fl fd va len mflags refs) =
    find-IsCounted fl fd va len mflags refs s v
Step-IsCounted {s} v (creates dev g w pos len away) = create-IsCounted dev g w s v pos len away
Step-IsCounted {s} v (releases dev p) = free-IsCounted dev false p s v λ on. ground (arith, on)
Step-IsCounted {s} v (removes fl va len) = remove-IsCounted fl va len s v
Step-IsCounted {s} v (puts_back p f m live away (pos, low) at) =
    add-IsCounted s p m v away.0 away.1 pos low f at
Step-IsCounted {s} v (closes dev f p here) = close-IsCounted dev f p s v here

-- Along every sequence of searches, creations, releases, removals, returns of a removed mapping and
-- closings, from a state with sound lists, in which a new or returned mapping is in no list and DMA
-- addresses and lengths are positive: a mapping of heap memory is only in the driver's list and
-- another only in the list of its own file, at most once; what is in a list is allocated, and has
-- a count of at least 1 and below the limit of the counter.
pub Reach-IsCounted : {s t : Maps} → IsCounted s → Reach s t → IsCounted t
Reach-IsCounted v started = v
Reach-IsCounted v (next run step) = Step-IsCounted (Reach-IsCounted v run) step
