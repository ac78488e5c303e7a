-- ===== src/Overlap/Build.antt =====
-- The whole of `context_build_overlap`: when it fails, and what its pieces are to the arguments.
use mathlib.Core.Logic.{∥∥₁_elim}
use mathlib.Core.Bool.{Bool-set}
use mathlib.Core.List.{Perm, Permᴰ}
use mathlib.Core.List.Perm
use native.Mathlib.Bridge.{le_prop}
use reasoned_soc.Prelude.{
  ltb, leb, if◌then◌else◌, take, All, ℕ, ◌+◌, ◌^◌, ◌<◌, ◌≡◌, refl, ◌∙◌, ◌↔◌, Bool, true, false,
  ◌&&◌, ◌||◌, List, [], ◌∷◌, map, arith,
}
use reasoned_soc.Prelude.Perms.{All-perm}
use reasoned_soc.Errno.{failed, err, ok}
use reasoned_soc.Overlap.{
  RemoteArg, Overlap, init_over, init_overs, place_over, place_overs, context_build_overlap,
}
use reasoned_soc.Overlap.Pieces.{in_range, covered, pieces, IsSorted, IsOrdered, pieces-place_overs}

-- What is documented of the kernel's `sort`.
pub record Sorts (sort : List Overlap → List Overlap) : Type 0 where
  pub perm : (os : List Overlap) → Perm (sort os) os
  pub sorted : (os : List Overlap) → IsSorted (sort os)

-- An argument whose fields are 64-bit words.
abbrev pub IsWord : RemoteArg → Type 0
IsWord arg = (arg.pv < 2 ^ 64) × (arg.len < 2 ^ 64)

-- The buffer is not empty, and its end is 2 ^ 64 or more, which is no 64-bit word.
abbrev pub wraps : RemoteArg → Bool
wraps arg = ltb 0 arg.len && leb (2 ^ 64) (arg.pv + arg.len)

abbrev pub any_wraps : List RemoteArg → Bool
any_wraps [] = false
any_wraps (arg ∷ args) = wraps arg || any_wraps args

-- Some argument's buffer holds the byte at `a`.
abbrev pub in_args : ℕ → List RemoteArg → Bool
in_args a [] = false
in_args a (arg ∷ args) = in_range arg.pv (arg.pv + arg.len) a || in_args a args

-- An overlap that stands for an argument.
abbrev pub over_of : ℕ → RemoteArg → Overlap
over_of i arg = record {
  start = arg.pv;
  end = arg.pv + arg.len;
  raix = i;
  mstart = 0;
  mend = 0;
  offset = 0;
}

abbrev pub overs_of : ℕ → List RemoteArg → List Overlap
overs_of i [] = []
overs_of i (arg ∷ args) = over_of i arg ∷ overs_of (i + 1) args

init_over_lem :
    (i : ℕ) (arg : RemoteArg)
    → IsWord arg
    → init_over i arg ≡ (if wraps arg then err failed else ok (over_of i arg))
unfolding init_over
init_over_lem i arg w = ground arith

init_overs_lem :
    (i : ℕ) (args : List RemoteArg)
    → All IsWord args
    → init_overs i args ≡ (if any_wraps args then err failed else ok (overs_of i args))
unfolding init_overs
init_overs_lem i [] w = refl
init_overs_lem i (arg ∷ args) w =
    rw (init_over_lem i arg w.0, init_overs_lem (i + 1) args w.1) (ground arith)

covered-overs_of : (a i : ℕ) (args : List RemoteArg) → covered a (overs_of i args) ≡ in_args a args
covered-overs_of a i [] = refl
covered-overs_of a i (arg ∷ args) = rw (covered-overs_of a (i + 1) args)

IsOrdered-overs_of : (i : ℕ) (args : List RemoteArg) → All IsOrdered (overs_of i args)
IsOrdered-overs_of i [] = tt
IsOrdered-overs_of i (arg ∷ args) = (omega arith, IsOrdered-overs_of (i + 1) args)

covered-Permᴰ : {xs ys : List Overlap} (a : ℕ) → Permᴰ xs ys → covered a xs ≡ covered a ys
covered-Permᴰ a Permᴰ.nil = refl
covered-Permᴰ a (Permᴰ.cons e p) = ground (arith, covered-Permᴰ a p)
covered-Permᴰ a (Permᴰ.swap e f) = ground arith
covered-Permᴰ a (Permᴰ.trans p q) = covered-Permᴰ a p ∙ covered-Permᴰ a q

-- What the second loop leaves as it was.
abbrev pub origin : Overlap → ℕ × ℕ × ℕ
origin o = (o.raix, o.start, o.end)

origin-place_overs : (m : ℕ) (os : List Overlap) → map origin (place_overs m os) ≡ map origin os
unfolding place_overs place_over
origin-place_overs m [] = refl
origin-place_overs m (o ∷ os) = ground (arith, origin-place_overs m os, origin-place_overs o.end os)

-- The index, the address and the end of each argument's buffer, from index `i` on.
abbrev pub origins : ℕ → List RemoteArg → List (ℕ × ℕ × ℕ)
origins i [] = []
origins i (arg ∷ args) = (i, arg.pv, arg.pv + arg.len) ∷ origins (i + 1) args

origin-overs_of : (i : ℕ) (args : List RemoteArg) → map origin (overs_of i args) ≡ origins i args
origin-overs_of i [] = refl
origin-overs_of i (arg ∷ args) = rw (origin-overs_of (i + 1) args)

module _ {sort : List Overlap → List Overlap} (sorts : Sorts sort) where
  -- With arguments of 64-bit words, `context_build_overlap` fails exactly if one of the first `nbufs`
  -- arguments has a buffer that is not empty and whose end, the address plus the length, is 2 ^ 64
  -- or more; otherwise it returns the pieces that the second loop makes, from address 0 on, of what
  -- `sort` gives for the arguments with their index, address and end.
  pub build-wraps :
      (nbufs : ℕ) (lpra : List RemoteArg)
      → All IsWord (take nbufs lpra)
      → let args = take nbufs lpra in
        ((context_build_overlap sort nbufs lpra ≡ err failed) ↔ (any_wraps args ≡ true))
        × (context_build_overlap sort nbufs lpra
            ≡ (if any_wraps args then err failed else ok (place_overs 0 (sort (overs_of 0 args)))))
  unfolding context_build_overlap
  build-wraps nbufs lpra w = rw (init_overs_lem 0 (take nbufs lpra) w) (ground arith, ground arith)

  pub build-eq :
      (nbufs : ℕ) (lpra : List RemoteArg) (overs : List Overlap)
      → All IsWord (take nbufs lpra)
      → context_build_overlap sort nbufs lpra ≡ ok overs
      → overs ≡ place_overs 0 (sort (overs_of 0 (take nbufs lpra)))
  unfolding context_build_overlap
  build-eq nbufs lpra overs w h = ground (arith, init_overs_lem 0 (take nbufs lpra) w)

  covered-sort : (a : ℕ) (os : List Overlap) → covered a (sort os) ≡ covered a os
  covered-sort a os = ∥∥₁_elim (sorts.perm os) (Bool-set _ _) (covered-Permᴰ a)

  IsOrdered-sort : (os : List Overlap) → All IsOrdered os → All IsOrdered (sort os)
  IsOrdered-sort os h = All-perm IsOrdered (λ o. le_prop) _ _ (sorts.perm os) h

  -- With arguments of 64-bit words and a `sort` that sorts, if `context_build_overlap` succeeds
  -- then a byte that lies in the buffer of one of the first `nbufs` arguments lies in exactly one
  -- piece, however the buffers overlap, and any other byte lies in none.
  pub build-pieces :
      (nbufs : ℕ) (lpra : List RemoteArg) (overs : List Overlap)
      → All IsWord (take nbufs lpra)
      → context_build_overlap sort nbufs lpra ≡ ok overs
      → (a : ℕ) → pieces a overs ≡ (if in_args a (take nbufs lpra) then 1 else 0)
  build-pieces nbufs lpra overs w h a =
      rw
        (
          build-eq nbufs lpra overs w h,
          pieces-place_overs a 0 (sort (overs_of 0 (take nbufs lpra))) (sorts.sorted _)
              (IsOrdered-sort _ (IsOrdered-overs_of 0 _)),
          covered-sort a (overs_of 0 (take nbufs lpra)),
          covered-overs_of a 0 (take nbufs lpra),
        )
        (ground arith)

  -- With arguments of 64-bit words, if `context_build_overlap` succeeds then its result holds each
  -- of the first `nbufs` arguments once, with the argument's index, address and end.
  pub build-origins :
      (nbufs : ℕ) (lpra : List RemoteArg) (overs : List Overlap)
      → All IsWord (take nbufs lpra)
      → context_build_overlap sort nbufs lpra ≡ ok overs
      → Perm (map origin overs) (origins 0 (take nbufs lpra))
  build-origins nbufs lpra overs w h =
      rw
        (
          build-eq nbufs lpra overs w h,
          origin-place_overs 0 (sort (overs_of 0 (take nbufs lpra))),
          ← origin-overs_of 0 (take nbufs lpra),
        )
        (Perm.map origin (sorts.perm _))
