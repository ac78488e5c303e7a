-- ===== src/Context/Ids.antt =====
-- Table entries and the identifiers made from them.
use reasoned_soc.Prelude.{
  ◌==◌, Bool-cases, length, get_elem?, ℕ, zero, suc, ◌+◌, ◌-◌, ◌*◌, ◌/◌, ◌%◌, ◌≤◌, ◌<◌, ◌≡◌, refl,
  ap, ◌≢◌, inl, inr, Option, none, some, List, [], ◌∷◌, arith,
}
use reasoned_soc.Context.{ctx_max, free_entry, ctxid_of, clear_entry}

-- `rsp.ctx & FASTRPC_CTXID_MASK) >> 4`, and `rsp.ctx & ~3`
abbrev pub index_of : ℕ → ℕ
index_of w = w / 16 % 256

abbrev pub id_of : ℕ → ℕ
id_of w = w / 4 * 4

-- The entry and the identifier are read back from the header word, whatever the low two bits, which
-- carry the protection domain.
pub header_lem :
    (p i pd : ℕ)
    → i < ctx_max
    → pd < 4
    → (index_of (ctxid_of p i + pd) ≡ i) × (id_of (ctxid_of p i + pd) ≡ ctxid_of p i)
unfolding ctxid_of
header_lem p i pd h k = omega arith

pub ctxid_of-index : (p i : ℕ) → i < ctx_max → index_of (ctxid_of p i) ≡ i
unfolding ctxid_of
ctxid_of-index p i h = omega arith

free_entry_lem :
    (ii : ℕ) (entries : List (Option ℕ)) (k : ℕ)
    → free_entry ii entries ≡ some k
    → (ii ≤ k) × (k < ii + length entries) × (get_elem? entries (k - ii) ≡ some none)
unfolding free_entry
free_entry_lem ii [] k h = ground arith
free_entry_lem ii (none ∷ entries) k h =
    let e : ii ≡ k = ground arith in
    let z : k - ii ≡ 0 = omega arith in (omega arith, omega arith, rw z refl)
free_entry_lem ii (some p ∷ entries) k h =
    let (a, b, c) = free_entry_lem (ii + 1) entries k h in
    let z : k - ii ≡ suc (k - (ii + 1)) = omega arith in (omega arith, omega arith, rw z c)

pub free_entry_zero :
    (entries : List (Option ℕ)) (k : ℕ)
    → free_entry 0 entries ≡ some k
    → (k < length entries) × (get_elem? entries k ≡ some none)
free_entry_zero entries k h =
    let (a, b, c) = free_entry_lem 0 entries k h in
    let z : k - 0 ≡ k = omega arith in (omega arith, rw z at c)

pub free_entry-none :
    (ii : ℕ) (entries : List (Option ℕ)) (i : ℕ)
    → free_entry ii entries ≡ none
    → get_elem? entries i ≢ some none
unfolding free_entry
free_entry-none ii [] i h e = ground arith
free_entry-none ii (none ∷ entries) i h e = ground arith
free_entry-none ii (some p ∷ entries) zero h e = ground arith
free_entry-none ii (some p ∷ entries) (suc i) h e = free_entry-none (ii + 1) entries i h e

-- An entry after `clear_entry`: the same, or one that held the context.
pub get_elem?-clear_entry :
    (p : ℕ) (entries : List (Option ℕ)) (i q : ℕ)
    → get_elem? (clear_entry p entries) i ≡ some (some q)
    → get_elem? entries i ≡ some (some q)
unfolding clear_entry
get_elem?-clear_entry p [] i q h = ground arith
get_elem?-clear_entry p (none ∷ entries) zero q h = h
get_elem?-clear_entry p (none ∷ entries) (suc i) q h = get_elem?-clear_entry p entries i q h
get_elem?-clear_entry p (some r ∷ entries) zero q h = ground arith
get_elem?-clear_entry p (some r ∷ entries) (suc i) q h =
    ground (arith, get_elem?-clear_entry p entries i q)

-- Entries of other contexts stay.
pub clear_entry-others :
    (p : ℕ) (entries : List (Option ℕ)) (i q : ℕ)
    → q ≢ p
    → get_elem? entries i ≡ some (some q)
    → get_elem? (clear_entry p entries) i ≡ some (some q)
unfolding clear_entry
clear_entry-others p [] i q ne h = ground arith
clear_entry-others p (none ∷ entries) zero q ne h = h
clear_entry-others p (none ∷ entries) (suc i) q ne h = clear_entry-others p entries i q ne h
clear_entry-others p (some r ∷ entries) zero q ne h = ground arith
clear_entry-others p (some r ∷ entries) (suc i) q ne h =
    ground (arith, clear_entry-others p entries i q ne)

-- A context that is entered once is not entered any more.
pub clear_entry_self :
    (p : ℕ) (entries : List (Option ℕ)) (i : ℕ)
    → ((j k : ℕ)
        → get_elem? entries j ≡ some (some p)
        → get_elem? entries k ≡ some (some p)
        → j ≡ k)
    → get_elem? (clear_entry p entries) i ≢ some (some p)
unfolding clear_entry
clear_entry_self p [] i once h = ground arith
clear_entry_self p (none ∷ entries) zero once h = ground arith
clear_entry_self p (none ∷ entries) (suc i) once h =
    clear_entry_self p entries i (λ j k a b. omega (arith, once (suc j) (suc k) a b)) h
clear_entry_self p (some r ∷ entries) zero once h = ground arith
clear_entry_self p (some r ∷ entries) (suc i) once h = elim (Bool-cases (r == p)) [
  | inl e ↦ ground (arith, once 0 (suc i), e)
  | inr e ↦
      clear_entry_self p entries i (λ j k a b. omega (arith, once (suc j) (suc k) a b))
        (ground (arith, e))
]

-- The one entry of a context is free afterwards.
pub clear_entry_frees :
    (p : ℕ) (entries : List (Option ℕ)) (i : ℕ)
    → ((j k : ℕ)
        → get_elem? entries j ≡ some (some p)
        → get_elem? entries k ≡ some (some p)
        → j ≡ k)
    → get_elem? entries i ≡ some (some p)
    → get_elem? (clear_entry p entries) i ≡ some none
unfolding clear_entry
clear_entry_frees p [] i once h = ground arith
clear_entry_frees p (none ∷ entries) zero once h = ground arith
clear_entry_frees p (none ∷ entries) (suc i) once h =
    clear_entry_frees p entries i (λ j k a b. omega (arith, once (suc j) (suc k) a b)) h
clear_entry_frees p (some r ∷ entries) zero once h = ground arith
clear_entry_frees p (some r ∷ entries) (suc i) once h = elim (Bool-cases (r == p)) [
  | inl e ↦ ground (arith, once 0 (suc i), e)
  | inr e ↦
      rw e (clear_entry_frees p entries i (λ j k a b. omega (arith, once (suc j) (suc k) a b)) h)
]

pub length-clear_entry :
    (p : ℕ) (entries : List (Option ℕ)) → length (clear_entry p entries) ≡ length entries
unfolding clear_entry
length-clear_entry p [] = refl
length-clear_entry p (none ∷ entries) = ap suc (length-clear_entry p entries)
length-clear_entry p (some q ∷ entries) = ground (arith, length-clear_entry p entries)
