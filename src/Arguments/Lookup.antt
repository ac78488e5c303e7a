-- ===== src/Arguments/Lookup.antt =====
-- Looking up the spot of an argument by its index.
use mathlib.Core.Path.{subst}
use mathlib.Core.List.{Permᴰ}
use reasoned_soc.Prelude.{
  ◌==◌, if◌then◌else◌, Bool-cases, Option-cases, length, set, get_or, All, length-set,
  get_or-set_self, get_or-set_ne, ℕ, ◌+◌, ◌-◌, ◌≤◌, ◌<◌, ◌≡◌, refl, ◌∙◌, ◌≢◌, inl, inr, Bool, true,
  false, ◌||◌, Option, none, some, List, [], ◌∷◌, arith,
}
use reasoned_soc.Overlap.{RemoteArg, Overlap, place_over, place_overs}
use reasoned_soc.Overlap.Build.{overs_of}
use reasoned_soc.Arguments.{null_arg}
use reasoned_soc.Arguments.Span.{piece_start}
use reasoned_soc.Arguments.Spots.{Spot, args_len, spots, SameShift, write_spots, Pairs}

-- The overlap of some entry has_index index `i`.
abbrev pub has_index : ℕ → List Overlap → Bool
has_index i [] = false
has_index i (o ∷ os) = (o.raix == i) || has_index i os

pub has_index-Permᴰ : {xs ys : List Overlap} (i : ℕ) → Permᴰ xs ys → has_index i xs ≡ has_index i ys
has_index-Permᴰ i Permᴰ.nil = refl
has_index-Permᴰ i (Permᴰ.cons e p) = ground (arith, has_index-Permᴰ i p)
has_index-Permᴰ i (Permᴰ.swap e f) = ground arith
has_index-Permᴰ i (Permᴰ.trans p q) = has_index-Permᴰ i p ∙ has_index-Permᴰ i q

pub has_index-overs_of :
    (i k : ℕ) (args : List RemoteArg)
    → k ≤ i
    → i < k + length args
    → has_index i (overs_of k args) ≡ true
has_index-overs_of i k [] h lt = absurd (omega arith)
has_index-overs_of i k (arg ∷ args) h lt = ground (arith, has_index-overs_of i (k + 1) args)

pub has_index-place_overs :
    (i m : ℕ) (os : List Overlap) → has_index i (place_overs m os) ≡ has_index i os
unfolding place_overs place_over
has_index-place_overs i m [] = refl
has_index-place_overs i m (o ∷ os) =
    ground (arith, has_index-place_overs i m os, has_index-place_overs i o.end os)

-- The last spot for the argument `i`.
pub find_spot : ℕ → List Spot → Option Spot
find_spot i [] = none
find_spot i (x ∷ xs) =
    let here = if x.0.raix == i then some x else none in
    elim (find_spot i xs) [ some y ↦ some y | none ↦ here ]

pub find_spot-spots :
    (lpra : List RemoteArg) (i : ℕ) (os : List Overlap) (args : ℕ)
    → has_index i os ≡ true
    → 0 < (get_or lpra i null_arg).len
    → find_spot i (spots lpra os args) ≢ none
unfolding find_spot spots
find_spot-spots lpra i [] args h pos = ground arith
find_spot-spots lpra i (o ∷ os) args h pos = ground (
  arith,
  find_spot-spots lpra i os args,
  find_spot-spots lpra i os (piece_start o args + (o.mend - o.mstart)),
)

pub find_spot-All :
    (P : Spot → Type 0) (i : ℕ) (xs : List Spot) (x : Spot)
    → All P xs
    → find_spot i xs ≡ some x
    → P x × (x.0.raix ≡ i)
unfolding find_spot
find_spot-All P i [] x h e = ground arith
find_spot-All P i (y ∷ xs) x h e = elim (Option-cases (find_spot i xs)) [
  | inl q ↦ (subst P (ground (arith, q)) h.0, ground (arith, q))
  | inr (z, q) ↦ find_spot-All P i xs x h.1 (ground (arith, q))
]

pub find_spot-Pairs :
    (i j : ℕ) (xs : List Spot) (x y : Spot)
    → Pairs SameShift xs
    → find_spot i xs ≡ some x
    → find_spot j xs ≡ some y
    → SameShift x y
unfolding find_spot
find_spot-Pairs i j [] x y p e f = ground arith
find_spot-Pairs i j (z ∷ xs) x y p e f = elim (Option-cases (find_spot i xs)) [
  | inl q ↦ elim (Option-cases (find_spot j xs)) [
    | inl r ↦ ground (arith, q, r)
    | inr (w, r) ↦
        let g : find_spot j xs ≡ some y = ground (arith, r) in
        let k = (find_spot-All (SameShift z) j xs y p.0 g).0 in ground (arith, q, k)
  ]
  | inr (w, q) ↦
      let g : find_spot i xs ≡ some x = ground (arith, q) in
      elim (Option-cases (find_spot j xs)) [
        | inl r ↦ let k = (find_spot-All (SameShift z) i xs x p.0 g).0 in ground (arith, r, k)
        | inr (v, r) ↦ find_spot-Pairs i j xs x y p.1 g (ground (arith, r))
      ]
]

get_or-write_none :
    (i : ℕ) (rpra : List RemoteArg) (xs : List Spot)
    → find_spot i xs ≡ none
    → get_or (write_spots rpra xs) i null_arg ≡ get_or rpra i null_arg
unfolding write_spots find_spot
get_or-write_none i rpra [] e = refl
get_or-write_none i rpra ((o, pv) ∷ xs) e =
    let v : RemoteArg = record { pv = pv; len = (get_or rpra o.raix null_arg).len } in
    elim (Option-cases (find_spot i xs)) [
      | inl q ↦
          get_or-write_none i (set rpra o.raix v) xs q
          ∙ get_or-set_ne rpra o.raix i v null_arg (ground (arith, q))
      | inr (z, q) ↦ ground (arith, q)
    ]

pub get_or-write_spots :
    (i : ℕ) (rpra : List RemoteArg) (xs : List Spot) (x : Spot)
    → i < length rpra
    → find_spot i xs ≡ some x
    → (get_or (write_spots rpra xs) i null_arg).pv ≡ x.1
unfolding write_spots find_spot
get_or-write_spots i rpra [] x h e = ground arith
get_or-write_spots i rpra ((o, pv) ∷ xs) x h e =
    let v : RemoteArg = record { pv = pv; len = (get_or rpra o.raix null_arg).len } in
    elim (Option-cases (find_spot i xs)) [
      | inl q ↦
          let hit : o.raix ≡ i = ground (arith, q) in
          rw (get_or-write_none i (set rpra o.raix v) xs q)
            (ground (arith, q, hit, get_or-set_self rpra o.raix v null_arg))
      | inr (z, q) ↦
          get_or-write_spots i (set rpra o.raix v) xs x (omega (arith, length-set rpra o.raix v))
            (ground (arith, q))
    ]

pub All-spots :
    (P : Overlap → Type 0) (lpra : List RemoteArg) (os : List Overlap) (args : ℕ)
    → All P os
    → All (λ (x : Spot). P x.0) (spots lpra os args)
unfolding spots
All-spots P lpra [] args h = tt
All-spots P lpra (o ∷ os) args h = elim (Bool-cases (args_len lpra o == 0)) [
  | inl e ↦ rw e (All-spots P lpra os args h.1)
  | inr e ↦ rw e (h.0, All-spots P lpra os _ h.1)
]
