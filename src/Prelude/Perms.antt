-- ===== src/Prelude/Perms.antt =====
-- A predicate that holds of every entry of a list holds of every entry of its permutations.
use mathlib.Core.Path.{subst, sym}
use mathlib.Core.Logic.{∥∥₁_elim}
use mathlib.Core.List.{List, [], ◌∷◌, Perm, Permᴰ}
use reasoned_soc.Prelude.Lists.{All}

module _ {ℓ κ} {A : Type ℓ} (P : A → Type κ) where
  All-Permᴰ : {xs ys : List A} → Permᴰ xs ys → All P ys → All P xs
  All-Permᴰ Permᴰ.nil h = tt
  All-Permᴰ (Permᴰ.cons e p) h = (subst P (sym e) h.0, All-Permᴰ p h.1)
  All-Permᴰ (Permᴰ.swap e f) h = (subst P (sym e) h.1.0, (subst P (sym f) h.0, h.1.1))
  All-Permᴰ (Permᴰ.trans p q) h = All-Permᴰ p (All-Permᴰ q h)

  All-prop : ((a : A) → IsProp (P a)) → (xs : List A) → IsProp (All P xs)
  All-prop h [] = hlevel
  All-prop h (x ∷ xs) = hlevel (h x, All-prop h xs)

  pub All-perm : ((a : A) → IsProp (P a)) → (xs ys : List A) → Perm xs ys → All P ys → All P xs
  All-perm h xs ys p a = ∥∥₁_elim p (All-prop h xs) (λ d. All-Permᴰ d a)
