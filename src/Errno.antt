-- ===== src/Errno.antt =====
-- The error values of android/adsprpc.c. A function that returns 0 or a negative errno returns a
-- `Result` here. VERIFY sets an error that is still 0 to -1, which is `failed`.
use reasoned_soc.Prelude.{if◌then◌else◌, ℕ, ◌≡◌, refl, ◌⊎◌, inl, inr, Bool}

pub data Errno : Type 0 where
  failed eoverflow etoomanyrefs enotty enodev enomem einval eperm enotconn econnreset : Errno
  enosuch erestartsys : Errno
  remote : ℕ → Errno  -- a status that another party returned

-- `goto bail` with an error, or the values computed so far
pub data Result {ℓ} (V : Type ℓ) : Type ℓ where
  err : Errno → Result V
  ok : V → Result V

module _ {ℓ κ} {V : Type ℓ} {W : Type κ} where
  infixl 5 ◌>>=◌
  abbrev pub ◌>>=◌ : Result V → (V → Result W) → Result W
  r >>= next = elim r [ err e ↦ err e | ok v ↦ next v ]

infixl 5 ◌>>◌
abbrev pub ◌>>◌ {κ} : {W : Type κ} → Result (Unit {0}) → Result W → Result W
r >> next = r >>= λ passed. next

-- `VERIFY(err, b); if (err) goto bail;` where no error is pending
abbrev pub verify : Bool → Result (Unit {0})
verify b = if b then ok tt else err failed

-- `VERIFY(err, !f(...))` and `VERIFY(err, 0 == f(...))`, where no error is pending
abbrev pub as_failed {ℓ} : {A : Type ℓ} → Result A → Result A
as_failed (err e) = err failed
as_failed (ok a) = ok a

pub Result-cases {ℓ} :
    {A : Type ℓ} (r : Result A) → ((e : Errno) × (r ≡ err e)) ⊎ ((a : A) × (r ≡ ok a))
Result-cases (err e) = inl (e, refl)
Result-cases (ok a) = inr (a, refl)
