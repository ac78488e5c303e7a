-- ===== src/Mapping/Counts.antt =====
-- The lists of mappings of android/adsprpc.c and the reference counts of what is in them.
use reasoned_soc.Prelude.{
  ltb, ◌==◌, if◌then◌else◌, Bool-cases, Option-cases, ℕ, ◌+◌, ◌-◌, ◌%◌, ◌^◌, ◌≤◌, ◌<◌, ◌≡◌, ◌≢◌,
  inl, inr, Bool, true, false, not, ◌&&◌, Option, none, some, arith,
}
use reasoned_soc.Context.{put, unlink}
use reasoned_soc.Context.Invariant.{occurs, occurs-unlink}
use reasoned_soc.Mapping.{
  Map, Maps, int_max, is_heap, file_of, find_map, holds_range, mmap_find, is_remote_range,
  mmap_remove, mmap_add,
}
use reasoned_soc.Mapping.Search.{find_map_lem, list_for}

-- A mapping that may be in `me->maps`, or in the list of the file `f`: it is there, of the right
-- kind, and its count is at least 1 and below the limit.
abbrev pub FitsGlobal : Option Map → Type 0
FitsGlobal none = ⊥
FitsGlobal (some m) = (is_heap m.flags ≡ true) × (0 < m.refs) × (m.refs < int_max)

abbrev pub FitsFile : ℕ → Option Map → Type 0
FitsFile f none = ⊥
FitsFile f (some m) =
    (is_heap m.flags ≡ false) × (m.fl ≡ some f) × (0 < m.refs) × (m.refs < int_max)

-- Each entry of a list fits the list and is in it once.
pub record IsCounted (s : Maps) : Type 0 where
  pub global : (p : ℕ) → 0 < occurs p s.global → FitsGlobal (s.cell p)
  pub file : (f p : ℕ) → 0 < occurs p (s.maps f) → FitsFile f (s.cell p)
  pub global_once : (p : ℕ) → occurs p s.global ≤ 1
  pub file_once : (f p : ℕ) → occurs p (s.maps f) ≤ 1

found-IsCounted :
    (s : Maps) (p : ℕ) (m : Map)
    → IsCounted s
    → s.cell p ≡ some m
    → m.refs + 1 < int_max
    → IsCounted (record s { cell = put s.cell p (some (record m { refs = m.refs + 1 })) })
found-IsCounted s p m v live low = record {
  global = λ q h. ground (arith, v.global q h, live);
  file = λ f q h. ground (arith, v.file f q h, live);
  global_once = v.global_once;
  file_once = v.file_once;
}

pub add-IsCounted :
    (s : Maps) (p : ℕ) (m : Map)
    → IsCounted s
    → occurs p s.global ≡ 0
    → ((f : ℕ) → occurs p (s.maps f) ≡ 0)
    → 0 < m.refs
    → m.refs < int_max
    → (f : ℕ) → (is_heap m.flags ≡ false → m.fl ≡ some f)
    → IsCounted (mmap_add p m s)
unfolding mmap_add
add-IsCounted s p m v out outs pos low f at = elim (Bool-cases (is_heap m.flags)) [
  | inl e ↦
      rw (mmap_add, e)
        (record {
          global = λ q h. ground (arith, v.global q, h, e);
          file = λ g q h. ground (arith, v.file g q, h, outs g);
          global_once = λ q. ground (arith, v.global_once q, out);
          file_once = v.file_once;
        })
  | inr e ↦
      rw (mmap_add, e, at e)
        (record {
          global = λ q h. ground (arith, v.global q, h, out);
          file = λ g q h. ground (arith, v.file g q, h, e, outs g, outs f);
          global_once = v.global_once;
          file_once = λ g q. ground (arith, v.file_once g q, outs g);
        })
]

pub remove-IsCounted :
    (fl va len : ℕ) (s : Maps) → IsCounted s → IsCounted (mmap_remove fl va len s).1
unfolding mmap_remove
remove-IsCounted fl va len s v =
    elim (Option-cases (find_map (is_remote_range va len) s.cell s.global)) [
      | inr ((p, m), e) ↦
          rw (mmap_remove, e)
            (record {
              global = λ q h. ground (arith, v.global q, h, occurs-unlink p q s.global);
              file = v.file;
              global_once = λ q. ground (arith, v.global_once q, occurs-unlink p q s.global);
              file_once = v.file_once;
            })
      | inl e ↦ elim (Option-cases (find_map (is_remote_range va len) s.cell (s.maps fl))) [
        | inl k ↦ rw (mmap_remove, e, k) v
        | inr ((p, m), k) ↦
            rw (mmap_remove, e, k)
              (record {
                global = v.global;
                file = λ f q h. ground (arith, v.file f q, h, occurs-unlink p q (s.maps fl));
                global_once = v.global_once;
                file_once = λ f q. ground (arith, v.file_once f q, occurs-unlink p q (s.maps fl));
              })
      ]
    ]

pub find-IsCounted :
    (fl fd va len mflags : ℕ) (refs : Bool) (s : Maps)
    → IsCounted s
    → IsCounted (mmap_find fl fd va len mflags refs s).1
unfolding mmap_find
find-IsCounted fl fd va len mflags refs s v = elim (Bool-cases (ltb ((va + len) % 2 ^ 64) va)) [
  | inl over ↦ rw (mmap_find, over) v
  | inr fits ↦
      elim (Option-cases (find_map (holds_range fd va len) s.cell (list_for fl mflags s))) [
        | inl e ↦ rw (mmap_find, fits, e) v
        | inr ((p, m), e) ↦
            let (live, pass, here) =
              find_map_lem (holds_range fd va len) s.cell (list_for fl mflags s) p m e in
            let small : m.refs < int_max = ground (arith, live, here, v.global p, v.file fl p) in
            elim (Bool-cases refs) [
              | inr off ↦ rw (mmap_find, fits, e, off) v
              | inl on ↦ elim (Bool-cases (m.refs + 1 == int_max)) [
                | inl top ↦ rw (mmap_find, fits, e, on, top) v
                | inr low ↦
                    rw (mmap_find, fits, e, on, low)
                      (found-IsCounted s p m v live (ground (arith, small, low)))
              ]
            ]
      ]
]

-- The state in which a mapping without references has left its list, with any contents of its cell.
abbrev pub HasLeft : ℕ → Map → Maps → Maps → Type 0
HasLeft p m s t =
    (t.global ≡ (if is_heap m.flags then unlink p s.global else s.global))
    × ((f : ℕ)
        → t.maps f
          ≡ (if not (is_heap m.flags) && (f == file_of m) then unlink p (s.maps f) else s.maps f))
    × ((q : ℕ) → q ≢ p → t.cell q ≡ s.cell q)

pub left-IsCounted :
    (s t : Maps) (p : ℕ) (m : Map) → IsCounted s → s.cell p ≡ some m → HasLeft p m s t → IsCounted t
left-IsCounted s t p m v live (g, fs, cs) = elim (Bool-cases (is_heap m.flags)) [
  | inl e ↦
      let g' : t.global ≡ unlink p s.global = rw e at g in
      let fs' : (f : ℕ) → t.maps f ≡ s.maps f = λ f. (rw e at (fs f)) in
      record {
        global = λ q h.
            ground
              (arith, v.global q, (rw g' at h), v.global_once p, occurs-unlink p q s.global, cs q);
        file = λ f q h. ground (arith, v.file f q, (rw (fs' f) at h), e, live, cs q);
        global_once = λ q. rw g' (ground (arith, v.global_once q, occurs-unlink p q s.global));
        file_once = λ f q. rw (fs' f) (v.file_once f q);
      }
  | inr e ↦
      let g' : t.global ≡ s.global = rw e at g in
      let fs' : (f : ℕ) → t.maps f ≡ (if f == file_of m then unlink p (s.maps f) else s.maps f) =
        λ f. (rw e at (fs f)) in
      record {
        global = λ q h. ground (arith, v.global q, (rw g' at h), e, live, cs q);
        file = λ f q h. ground (
          arith,
          v.file f q,
          (rw (fs' f) at h),
          e,
          live,
          v.file_once f p,
          occurs-unlink p q (s.maps f),
          cs q,
        );
        global_once = λ q. rw g' (v.global_once q);
        file_once =
            λ f q. rw (fs' f) (ground (arith, v.file_once f q, occurs-unlink p q (s.maps f)));
      }
]

-- One reference less, of several.
pub fewer-IsCounted :
    (s : Maps) (p : ℕ) (m : Map)
    → IsCounted s
    → s.cell p ≡ some m
    → 0 < m.refs - 1
    → IsCounted (record s { cell = put s.cell p (some (record m { refs = m.refs - 1 })) })
fewer-IsCounted s p m v live pos = record {
  global = λ q h. ground (arith, v.global q, h, live);
  file = λ f q h. ground (arith, v.file f q, h, live);
  global_once = v.global_once;
  file_once = v.file_once;
}

-- A mapping that is in no list may change.
abbrev pub IsAway : ℕ → Maps → Type 0
IsAway p s = (occurs p s.global ≡ 0) × ((f : ℕ) → occurs p (s.maps f) ≡ 0)

pub away-IsCounted :
    (s t : Maps) (p : ℕ)
    → IsCounted s
    → IsAway p s
    → t.global ≡ s.global
    → ((f : ℕ) → t.maps f ≡ s.maps f)
    → ((q : ℕ) → q ≢ p → t.cell q ≡ s.cell q)
    → IsCounted t
away-IsCounted s t p v (out, outs) g fs cs = record {
  global = λ q h. ground (arith, v.global q, (rw g at h), cs q, out);
  file = λ f q h. ground (arith, v.file f q, (rw (fs f) at h), cs q, outs f);
  global_once = λ q. rw g (v.global_once q);
  file_once = λ f q. rw (fs f) (v.file_once f q);
}
