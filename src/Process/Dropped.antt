-- ===== src/Process/Dropped.antt =====
-- A mapping of android/adsprpc.c that is created and dropped again.
use reasoned_soc.Prelude.{
  ltb, ◌==◌, if◌then◌else◌, Bool-cases, Option-cases, ℕ, ◌+◌, ◌-◌, ◌<◌, ◌≡◌, refl, sym, ap, ◌∙◌,
  ◌≢◌, inl, inr, Bool, true, false, none, some, ◌∷◌, arith,
}
use reasoned_soc.Mapping.{Map, Maps, is_heap, mmap_find, release, mmap_free}
use reasoned_soc.Mapping.Search.{IsFound, mmap_find_lem}
use reasoned_soc.Mapping.Failure.{IsPlain, release-Owns, IsUndone, free-IsUndone, not_found}
use reasoned_soc.Mapping.Owned.{Owns, IsBare, fill_plain-Owns}
use reasoned_soc.Mapping.Fill.{Draft, to_map}
use reasoned_soc.Mapping.Create.{
  Given, Wanted, fill_plain, fill, draft, with_draft, finish, mmap_create,
}
use reasoned_soc.Remote.Undo.{made, made-Owns, free_last}
use reasoned_soc.Remote.Cycle.{mmap_add-plain}
use reasoned_soc.Context.{put, unlink}
use reasoned_soc.Context.Invariant.{occurs, unlink_absent}
use reasoned_soc.Errno.{Result, Result-cases, failed, err, ok}
use reasoned_soc.Mapping.Counts.{FitsFile, IsCounted}
use mathlib.Core.Path.{subst}

-- The mappings, the lists and what is held are as before.
pub record IsBalanced (s t : Maps) : Type 0 where
  pub cells : (p : ℕ) → t.cell p ≡ s.cell p
  pub global : t.global ≡ s.global
  pub maps : (f : ℕ) → t.maps f ≡ s.maps f
  pub held : t.held ≡ s.held

pub unchanged : (s : Maps) → IsBalanced s s
unchanged s = record { cells = λ p. refl; global = refl; maps = λ f. refl; held = refl }

undone-IsBalanced : (p : ℕ) (s t : Maps) → s.cell p ≡ none → IsUndone p s t → IsBalanced s t
undone-IsBalanced p s t dead (gone, held, same) = record {
  cells = λ q. elim (Bool-cases (q == p)) [
    | inl e ↦
        let q_eq : p ≡ q = ground (arith, e) in
        subst (λ r. t.cell r ≡ s.cell r) q_eq (gone ∙ sym dead)
    | inr e ↦ same.cells q (λ w. ground (arith, e, w))
  ];
  global = same.global;
  maps = same.maps;
  held = held;
}

-- A reference that is not the last.
free_counted :
    (dev : Bool) (p : ℕ) (m : Map) (t : Maps)
    → t.cell p ≡ some m
    → (m.refs - 1 == 0) ≡ false
    → ltb 0 (m.refs - 1) ≡ true
    → mmap_free dev p false t
      ≡ record t { cell = put t.cell p (some (record m { refs = m.refs - 1 })) }
unfolding mmap_free
free_counted dev p m t live some_left left = elim (Bool-cases (is_heap m.flags)) [
  | inl e ↦ simp (mmap_free, live, some_left, left, e) refl
  | inr e ↦ simp (mmap_free, live, some_left, left, e) refl
]

-- A reference that was counted is dropped again.
counted-IsBalanced :
    (dev : Bool) (fl fd va len mflags p : ℕ) (s t : Maps)
    → IsFound fl fd va len mflags true p s t
    → ((m : Map) → s.cell p ≡ some m → 0 < m.refs)
    → IsBalanced s (mmap_free dev p false t)
counted-IsBalanced dev fl fd va len mflags p s t f pos =
    let m = record f.map { refs = f.map.refs + 1 } in
    let some_left : (m.refs - 1 == 0) ≡ false = ground (arith, pos f.map f.live) in
    let left : ltb 0 (m.refs - 1) ≡ true = ground (arith, pos f.map f.live) in
    let same : f.map.refs + 1 - 1 ≡ f.map.refs = omega arith in
    let back : some (record f.map { refs = f.map.refs + 1 - 1 }) ≡ s.cell p =
      ap (λ n. some (record f.map { refs = n })) same ∙ sym f.live in
    let cells : (q : ℕ) → put t.cell p (some (record m { refs = m.refs - 1 })) q ≡ s.cell q = λ q.
      elim (Bool-cases (q == p)) [
        | inl e ↦
            let q_eq : p ≡ q = ground (arith, e) in
            rw e
              (subst (λ r. some (record f.map { refs = f.map.refs + 1 - 1 }) ≡ s.cell r) q_eq back)
        | inr e ↦ rw e (f.cells q (λ w. ground (arith, e, w)))
      ] in
    subst (IsBalanced s) (sym (free_counted dev p m t f.counted some_left left)) (record {
      cells = cells;
      global = f.same.0;
      maps = λ g. ap (λ k. k g) f.same.1;
      held = f.same.2;
    })

-- What `fastrpc_mmap_create` returned is dropped, if it is a mapping.
abbrev pub dropped : Bool → Result ℕ × Maps → Maps
dropped dev (err e, s) = s
dropped dev (ok p, s) = mmap_free dev p false s

finished-IsUndone :
    (dev : Bool) (p : ℕ) (w : Wanted) (s : Maps) (x : Result (Unit {0}) × Draft)
    → IsPlain w.mflags
    → Owns (draft w s) x.1
    → s.cell p ≡ none
    → occurs p (s.maps w.fl) ≡ 0
    → IsUndone p s (dropped dev (finish dev p w s x))
unfolding finish unlink
finished-IsUndone dev p w s (err e, d) plain o dead out = free-IsUndone dev p w d s plain o dead out
finished-IsUndone dev p w s (ok done, d) plain o dead out =
    let m : Map = record d.map { len = w.len } in
    let flags_eq : m.flags ≡ w.mflags = o.flags in
    let plain' : IsPlain m.flags = subst IsPlain (sym flags_eq) plain in
    let e : Maps = record (with_draft p w d s) {
      cell = put (put s.cell p (some d.map)) p (some m);
      maps = put s.maps w.fl (p ∷ s.maps w.fl);
    } in
    let own : e.sessions w.fl ≡ d.sessions = ground arith in
    let back : release m (e.sessions w.fl) e.held ≡ s.held =
      ap (λ x. release m x d.held) own
      ∙ release-Owns (draft w s) (made w d.map.raddr d) plain
          (made-Owns (draft w s) d w d.map.raddr o) in
    let live : e.cell p ≡ some m = ground arith in
    let maps : (f : ℕ) → put e.maps w.fl (unlink p (e.maps w.fl)) f ≡ s.maps f =
      λ f. ground (arith, unlink_absent p (s.maps w.fl) out) in
    let cells : (q : ℕ) → q ≢ p → e.cell q ≡ s.cell q = λ q ne. ground (arith, ne) in
    subst (λ u. IsUndone p s (mmap_free dev p false u))
      (sym (mmap_add-plain p w.fl m (with_draft p w d s) plain'.0 o.fl))
      (free_last dev w.fl p m s e plain' o.refs o.fl live back refl maps cells)

-- The address of `kzalloc`, if there is one, is neither live nor in the list of the file.
abbrev pub IsFreshFor : Given → ℕ → Maps → Type 0
IsFreshFor g fl s = (p : ℕ) → g.fresh ≡ some p → (s.cell p ≡ none) × (occurs p (s.maps fl) ≡ 0)

pub created-IsBalanced :
    (dev : Bool) (g : Given) (w : Wanted) (s : Maps)
    → IsPlain w.mflags
    → w.keep_map ≡ false
    → IsCounted s
    → 0 < g.dma_address
    → 0 < g.dma_len
    → IsFreshFor g w.fl s
    → IsBalanced s (dropped dev (mmap_create dev g w s))
unfolding mmap_create fill
created-IsBalanced dev g w s plain once v pos pos_len fresh =
    let find = mmap_find w.fl w.fd w.va w.len w.mflags true s in
    elim (Result-cases find.0) [
      | inr (q, found) ↦
          let run : find ≡ (ok q, find.1) = ap (λ r. (r, find.1)) found in
          let f = mmap_find_lem w.fl w.fd w.va w.len w.mflags true s find.1 q run in
          let here : 0 < occurs q (s.maps w.fl) =
            subst (λ b. 0 < occurs q (if b then s.global else s.maps w.fl)) plain.0 f.listed in
          let counted : FitsFile w.fl (s.cell q) = v.file w.fl q here in
          let eq : mmap_create dev g w s ≡ (ok q, find.1) = simp (mmap_create, found) in
          subst (λ x. IsBalanced s (dropped dev x)) (sym eq)
            (counted-IsBalanced dev w.fl w.fd w.va w.len w.mflags q s find.1 f
              (λ m live. (subst (FitsFile w.fl) live counted).2))
      | inl (e, absent) ↦ elim (Option-cases g.fresh) [
        | inl out ↦
            let eq : mmap_create dev g w s ≡ (err failed, s) = simp (mmap_create, absent, out) in
            subst (λ x. IsBalanced s (dropped dev x)) (sym eq) (unchanged s)
        | inr (p, at) ↦
            let (dead, out) = fresh p at in
            let start : IsBare (draft w s) = (refl, refl, refl, refl, refl, refl) in
            let owned : Owns (draft w s) (fill_plain g w (draft w s)).1 =
              subst
                (λ b.
                  Owns (if b then to_map (λ m. record m { refs = 2 }) (draft w s) else draft w s)
                    (fill_plain g w (draft w s)).1)
                once (fill_plain-Owns g w (draft w s) pos pos_len start) in
            let is_plain : fill g w (draft w s) ≡ fill_plain g w (draft w s) =
              rw (plain.0, plain.1) refl in
            let eq = not_found dev g w s p e absent at ∙ ap (finish dev p w s) is_plain in
            subst (λ x. IsBalanced s (dropped dev x)) (sym eq)
              (undone-IsBalanced p s (dropped dev (finish dev p w s (fill_plain g w (draft w s))))
                dead
                (finished-IsUndone dev p w s (fill_plain g w (draft w s)) plain owned dead out))
      ]
    ]
