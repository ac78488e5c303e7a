-- ===== src/Context/Invariant.antt =====
-- Every live context is in the table once, under its own identifier, and in one list of its file.
use reasoned_soc.Prelude.{
  ◌==◌, if◌then◌else◌, Bool-cases, Option-cases, length, get_elem?, set, length-set,
  get_elem?-set_self, get_elem?-set_ne, ℕ, zero, suc, ◌+◌, ◌-◌, ◌<◌, ◌≡◌, refl, ◌∙◌, ◌≢◌, inl, inr,
  Option, none, some, List, [], ◌∷◌, arith,
}
use reasoned_soc.Context.{
  ctx_max, ctx_magic, Ctx, Contexts, put, unlink, unlink_both, ctxid_of, clear_entry, context_free,
  enter_pending,
}
use reasoned_soc.Context.Ids.{
  get_elem?-clear_entry, clear_entry-others, clear_entry_self, length-clear_entry,
}

abbrev pub occurs : ℕ → List ℕ → ℕ
occurs p [] = 0
occurs p (q ∷ qs) = (if q == p then 1 else 0) + occurs p qs

-- 1 for a live context of the file `f`
abbrev pub owned : ℕ → Option Ctx → ℕ
owned f none = 0
owned f (some c) = if c.fl == f then 1 else 0

pub record IsConsistent (s : Contexts) : Type 0 where
  pub size : length s.table ≡ ctx_max
  pub entries :
      (i p : ℕ)
      → get_elem? s.table i ≡ some (some p)
      → (c : Ctx) × (s.cell p ≡ some c) × (c.ctxid ≡ ctxid_of p i) × (c.magic ≡ ctx_magic)
  pub entered :
      (p : ℕ) (c : Ctx) → s.cell p ≡ some c → (i : ℕ) × (get_elem? s.table i ≡ some (some p))
  pub listed :
      (f p : ℕ) → occurs p (s.clst f).pending + occurs p (s.clst f).interrupted ≡ owned f (s.cell p)

pub occurs-unlink :
    (p q : ℕ) (xs : List ℕ)
    → occurs q (unlink p xs) ≡ (if q == p then occurs q xs - 1 else occurs q xs)
unfolding unlink
occurs-unlink p q [] = ground arith
occurs-unlink p q (x ∷ xs) = ground (arith, occurs-unlink p q xs)

pub unlink_absent : (p : ℕ) (xs : List ℕ) → occurs p xs ≡ 0 → unlink p xs ≡ xs
unfolding unlink
unlink_absent p [] h = refl
unlink_absent p (x ∷ xs) h = ground (arith, unlink_absent p xs)

pub get_elem?-lt :
    {A : Type 0} (xs : List A) (i : ℕ) (a : A) → get_elem? xs i ≡ some a → i < length xs
get_elem?-lt [] i a h = ground arith
get_elem?-lt (x ∷ xs) zero a h = omega arith
get_elem?-lt (x ∷ xs) (suc i) a h = omega (arith, get_elem?-lt xs i a h)

-- A context that is entered at two indices would have two identifiers.
pub entry_once :
    (s : Contexts) (p j k : ℕ)
    → IsConsistent s
    → get_elem? s.table j ≡ some (some p)
    → get_elem? s.table k ≡ some (some p)
    → j ≡ k
unfolding ctxid_of
entry_once s p j k v a b =
    let (c, live, id, _) = v.entries j p a in
    let (c', live', id', _) = v.entries k p b in
    let same : c.ctxid ≡ c'.ctxid = ground (arith, live, live') in omega (arith, id, id', same)

pub enter-IsConsistent :
    (s : Contexts) (p ii : ℕ) (c : Ctx)
    → IsConsistent s
    → s.cell p ≡ none
    → c.magic ≡ ctx_magic
    → ii < length s.table
    → get_elem? s.table ii ≡ some none
    → IsConsistent (record (enter_pending p c s) {
      cell = put (enter_pending p c s).cell p (some (record c { ctxid = ctxid_of p ii }));
      table = set s.table ii (some p);
    })
enter-IsConsistent s p ii c v dead magic lt free = record {
  size = omega (arith, length-set s.table ii (some p), v.size);
  entries = λ i q h. elim (Bool-cases (i == ii)) [
    | inl e ↦
        let i_eq : i ≡ ii = ground (arith, e) in
        let q_eq : p ≡ q =
          ground (arith, i_eq, get_elem?-set_self s.table ii (some p) lt, (rw i_eq at h)) in
        (record c { ctxid = ctxid_of p ii }, ground (arith, q_eq), rw (i_eq, ← q_eq) refl, magic)
    | inr e ↦
        let h' : get_elem? s.table i ≡ some (some q) =
          ground (arith, get_elem?-set_ne s.table ii i (some p), e) in
        let (c', live, id, m) = v.entries i q h' in (c', ground (arith, live), id, m)
  ];
  entered = λ q c' h. elim (Bool-cases (q == p)) [
    | inl e ↦
        let q_eq : q ≡ p = ground (arith, e) in
        (ii, rw q_eq (get_elem?-set_self s.table ii (some p) lt))
    | inr e ↦
        let (i, at) = v.entered q c' (ground (arith, e)) in
        let ne : ii ≢ i = λ w. ground (arith, (rw (← w) at at)) in
        (i, get_elem?-set_ne s.table ii i (some p) ne ∙ at)
  ];
  listed = λ f q. ground (arith, v.listed f q, v.listed f p);
}

free-IsConsistent_live :
    (s : Contexts) (p : ℕ) (c : Ctx)
    → IsConsistent s
    → s.cell p ≡ some c
    → IsConsistent (record {
      cell = put s.cell p none;
      table = clear_entry p s.table;
      clst = put s.clst c.fl (unlink_both p (s.clst c.fl));
    })
free-IsConsistent_live s p c v live = record {
  size = length-clear_entry p s.table ∙ v.size;
  entries = λ i q h.
      let h' = get_elem?-clear_entry p s.table i q h in
      let ne : q ≢ p =
        λ e. clear_entry_self p s.table i (λ j k a b. entry_once s p j k v a b) (rw e at h) in
      let (c', live', id, m) = v.entries i q h' in (c', ground (arith, live', ne), id, m);
  entered = λ q c' h.
      let ne : q ≢ p = λ e. ground (arith, e) in
      let (i, at) = v.entered q c' (ground (arith, ne)) in
      (i, clear_entry-others p s.table i q ne at);
  listed = λ f q. ground (
    arith,
    v.listed f q,
    occurs-unlink p q (s.clst f).pending,
    occurs-unlink p q (s.clst f).interrupted,
    live,
  );
}

-- `context_free` of a live context, or of none.
pub free-IsConsistent : (s : Contexts) (p : ℕ) → IsConsistent s → IsConsistent (context_free p s)
unfolding context_free
free-IsConsistent s p v = elim (Option-cases (s.cell p)) [
  | inl e ↦ rw (e, context_free) v
  | inr (c, e) ↦ rw (e, context_free) (free-IsConsistent_live s p c v e)
]
