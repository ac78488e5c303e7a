-- ===== src/Mapping/Fill.antt =====
-- The steps that fill in a mapping of android/adsprpc.c, as functions on a draft of it with an error
-- as a value.
use reasoned_soc.Prelude.{Bool, Option, none, some}
use reasoned_soc.Errno.{Result, verify, failed, err, ok}
use reasoned_soc.Mapping.{Map, Held, MapSessions}

-- The mapping in the making, the sessions of the file, and what is held.
pub record Draft : Type 0 where
  pub map : Map
  pub sessions : MapSessions
  pub held : Held

-- A step to a value or to an error, with the draft as it is then.
abbrev pub Fill : Type 0 → Type 0
Fill A = Draft → Result A × Draft

infixl 5 ◌>>=◌
unfoldable pub ◌>>=◌ : {A B : Type 0} → Fill A → (A → Fill B) → Fill B
f >>= g = λ d. let (r, d') = f d in elim r [ err e ↦ (err e, d') | ok a ↦ g a d' ]

infixl 5 ◌>>◌
abbrev pub ◌>>◌ : {B : Type 0} → Fill (Unit {0}) → Fill B → Fill B
f >> g = f >>= λ done. g

unfoldable pub attempt : {A : Type 0} → Result A → Fill A
attempt r d = (r, d)

unfoldable pub update : (Draft → Draft) → Fill (Unit {0})
update f d = (ok tt, f d)

abbrev pub check : Bool → Fill (Unit {0})
check b = attempt (verify b)

abbrev pub to_map : (Map → Map) → Draft → Draft
to_map f d = record d { map = f d.map }

abbrev pub given {ℓ} : {A : Type ℓ} → Option A → Result A
given none = err failed
given (some a) = ok a
