-- ===== src/Mapping/Search.antt =====
-- Which mapping `fastrpc_mmap_find` and `fastrpc_mmap_remove` of android/adsprpc.c give.
use reasoned_soc.Prelude.{
  ltb, ◌==◌, if◌then◌else◌, Bool-cases, Option-cases, ℕ, ◌+◌, ◌%◌, ◌^◌, ◌≤◌, ◌<◌, ◌≡◌, refl, ap,
  ◌≢◌, ◌↔◌, inl, inr, Bool, true, false, Option, none, some, List, [], ◌∷◌, arith,
}
use reasoned_soc.Errno.{Errno, eoverflow, enotty, err, ok}
use reasoned_soc.Context.{put}
use reasoned_soc.Context.Invariant.{occurs}
use reasoned_soc.Mapping.{int_max, Map, Maps, is_heap, find_map, holds_range, mmap_find}

pub find_map_lem :
    (test : Map → Bool) (cell : ℕ → Option Map) (ps : List ℕ) (p : ℕ) (m : Map)
    → find_map test cell ps ≡ some (p, m)
    → (cell p ≡ some m) × (test m ≡ true) × (0 < occurs p ps)
unfolding find_map
find_map_lem test cell [] p m h = ground arith
find_map_lem test cell (q ∷ ps) p m h = ground (arith, find_map_lem test cell ps p m)

find_map-none :
    (test : Map → Bool) (cell : ℕ → Option Map) (ps : List ℕ) (p : ℕ) (m : Map)
    → find_map test cell ps ≡ none
    → cell p ≡ some m
    → 0 < occurs p ps
    → test m ≡ false
unfolding find_map
find_map-none test cell [] p m h live here = ground arith
find_map-none test cell (q ∷ ps) p m h live here = ground (arith, find_map-none test cell ps p m)

-- The list that is searched for a kind of mapping.
abbrev pub list_for : ℕ → ℕ → Maps → List ℕ
list_for fl mflags s = if is_heap mflags then s.global else s.maps fl

-- A mapping of the list covers the range that is asked for, under the same descriptor.
abbrev pub Covers : ℕ → ℕ → ℕ → Map → Type 0
Covers fd va len m = (m.va ≤ va) × (va + len ≤ (m.va + m.len) % 2 ^ 64) × (m.fd ≡ fd)

-- What a successful search has done: the mapping is in the list and covers the range; one reference
-- is counted if the caller asks for it, below the limit of the counter; nothing else has changed.
pub record IsFound (fl fd va len mflags : ℕ) (refs : Bool) (p : ℕ) (s t : Maps) : Type 0 where
  pub map : Map
  pub live : s.cell p ≡ some map
  pub listed : 0 < occurs p (list_for fl mflags s)
  pub covers : Covers fd va len map
  pub counted : t.cell p ≡ some (if refs then record map { refs = map.refs + 1 } else map)
  pub below : refs ≡ true → map.refs + 1 ≢ int_max
  pub cells : (q : ℕ) → q ≢ p → t.cell q ≡ s.cell q
  pub same : (t.global ≡ s.global) × (t.maps ≡ s.maps) × (t.held ≡ s.held)

-- Let `fastrpc_mmap_find` return the mapping `p`. Then `p` is live and in the list that is searched, and
-- it covers the range that is asked for under the same descriptor. If the caller asks for a
-- reference, its count is one more than before, and did not reach the limit by that; otherwise it is
-- as it was. The other mappings, the lists and what is held are as they were.
pub mmap_find_lem :
    (fl fd va len mflags : ℕ) (refs : Bool) (s t : Maps) (p : ℕ)
    → mmap_find fl fd va len mflags refs s ≡ (ok p, t)
    → IsFound fl fd va len mflags refs p s t
unfolding mmap_find
mmap_find_lem fl fd va len mflags refs s t p h = elim (Bool-cases (ltb ((va + len) % 2 ^ 64) va)) [
  | inl over ↦ ground (arith, (rw (mmap_find, over) at h))
  | inr fits ↦
      elim (Option-cases (find_map (holds_range fd va len) s.cell (list_for fl mflags s))) [
        | inl e ↦ ground (arith, (rw (mmap_find, fits, e) at h))
        | inr ((q, m), e) ↦
            let (live, pass, here) =
              find_map_lem (holds_range fd va len) s.cell (list_for fl mflags s) q m e in
            let covers : Covers fd va len m = ground (arith, pass) in
            elim (Bool-cases refs) [
              | inr off ↦
                  let k = rw (mmap_find, fits, e, off) at h in
                  let q_eq : q ≡ p = ground (arith, k) in
                  let t_eq : s ≡ t = ground (arith, k) in
                  rw (← q_eq, ← t_eq, off)
                    (record {
                      map = m;
                      live = live;
                      listed = here;
                      covers = covers;
                      counted = live;
                      below = λ w. ground (arith, w);
                      cells = λ r ne. refl;
                      same = (refl, refl, refl);
                    })
              | inl on ↦ elim (Bool-cases (m.refs + 1 == int_max)) [
                | inl top ↦ ground (arith, (rw (mmap_find, fits, e, on, top) at h))
                | inr low ↦
                    let k = rw (mmap_find, fits, e, on, low) at h in
                    let q_eq : q ≡ p = ground (arith, k) in
                    let t_eq : record s {
                      cell = put s.cell q (some (record m { refs = m.refs + 1 }));
                    }
                        ≡ t =
                      ground (arith, k) in
                    rw (← q_eq, ← t_eq, on)
                      (record {
                        map = m;
                        live = live;
                        listed = here;
                        covers = covers;
                        counted = ground arith;
                        below = λ w. ground (arith, low);
                        cells = λ r ne. ground arith;
                        same = (refl, refl, refl);
                      })
              ]
            ]
      ]
]

-- The result of `fastrpc_mmap_find` says, on every branch, what is in the list: it is EOVERFLOW
-- exactly for a range that wraps around, it is ENOTTY exactly for one that does not wrap around and
-- that no mapping of the list covers under the descriptor, and in both cases nothing has changed.
pub mmap_find_refuses :
    (fl fd va len mflags : ℕ) (refs : Bool) (s : Maps)
    → let r = mmap_find fl fd va len mflags refs s in
      ((r ≡ (err eoverflow, s)) ↔ ((va + len) % 2 ^ 64 < va))
      × ((r ≡ (err enotty, s)) ↔ (
          (va ≤ (va + len) % 2 ^ 64)
          × ((p : ℕ) (m : Map)
              → s.cell p ≡ some m
              → 0 < occurs p (list_for fl mflags s)
              → ¬ (Covers fd va len m))))
unfolding mmap_find
mmap_find_refuses fl fd va len mflags refs s = elim (Bool-cases (ltb ((va + len) % 2 ^ 64) va)) [
  | inl over ↦
      rw (mmap_find, over)
        (
          ((λ h. ground (arith, over)), λ h. refl),
          ((λ h. ground (arith, h)), λ (le, out). ground (arith, over, le)),
        )
  | inr fits ↦
      elim (Option-cases (find_map (holds_range fd va len) s.cell (list_for fl mflags s))) [
        | inl e ↦
            rw (mmap_find, fits, e)
              (
                ((λ h. ground (arith, h)), λ lt. ground (arith, fits, lt)),
                (
                  (λ h. (
                    ground (arith, fits),
                    λ p m live here covers.
                        let no =
                          find_map-none (holds_range fd va len) s.cell (list_for fl mflags s) p m e
                            live here in
                        ground (arith, no, covers),
                  )),
                  λ x. refl,
                ),
              )
        | inr ((q, m), e) ↦
            let (live, pass, here) =
              find_map_lem (holds_range fd va len) s.cell (list_for fl mflags s) q m e in
            let covers : Covers fd va len m = ground (arith, pass) in
            rw (mmap_find, fits, e)
              (
                ((λ h. ground (arith, h)), λ lt. ground (arith, fits, lt)),
                ((λ h. ground (arith, h)), λ (le, out). absurd (out q m live here covers)),
              )
      ]
]

-- A search that fails changes nothing.
pub mmap_find-err :
    (fl fd va len mflags : ℕ) (refs : Bool) (s : Maps) (e : Errno)
    → (mmap_find fl fd va len mflags refs s).0 ≡ err e
    → mmap_find fl fd va len mflags refs s ≡ (err e, s)
unfolding mmap_find
mmap_find-err fl fd va len mflags refs s e h = elim (Bool-cases (ltb ((va + len) % 2 ^ 64) va)) [
  | inl over ↦ rw (mmap_find, over) (ap (λ r. (r, s)) (rw (mmap_find, over) at h))
  | inr fits ↦
      elim (Option-cases (find_map (holds_range fd va len) s.cell (list_for fl mflags s))) [
        | inl k ↦ rw (mmap_find, fits, k) (ap (λ r. (r, s)) (rw (mmap_find, fits, k) at h))
        | inr ((p, m), k) ↦ elim (Bool-cases refs) [
          | inr off ↦ ground (arith, (rw (mmap_find, fits, k, off) at h))
          | inl on ↦ elim (Bool-cases (m.refs + 1 == int_max)) [
            | inl top ↦
                rw (mmap_find, fits, k, on, top)
                  (ap (λ r. (r, s)) (rw (mmap_find, fits, k, on, top) at h))
            | inr low ↦ ground (arith, (rw (mmap_find, fits, k, on, low) at h))
          ]
        ]
      ]
]
