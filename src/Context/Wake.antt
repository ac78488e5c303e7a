-- ===== src/Context/Wake.antt =====
-- Who is woken when a channel or a protection domain of android/adsprpc.c goes down.
use reasoned_soc.Prelude.{
  ltb, ◌==◌, Bool-cases, ℕ, ◌≡◌, refl, inl, inr, Bool, true, false, not, ◌&&◌, ◌||◌, Option, some,
  List, [], ◌∷◌, arith,
}
use reasoned_soc.Context.{Ctx, Contexts}
use reasoned_soc.Context.Invariant.{occurs, owned, IsConsistent}
use reasoned_soc.Context.Response.{
  complete_one, complete_all, complete_file, notify_users, notify_users_staticpd_pdr, Driver, is_at,
  notify_drivers, notify_pdr_drivers,
}
use reasoned_soc.Context.Steps.{complete_file-IsConsistent}

-- A context that is completed when `b` holds, and is otherwise as it was.
abbrev pub wake_if : Bool → Ctx → Ctx
wake_if b c = record c { completed = c.completed || b }

-- A test that does not look at the completion.
abbrev pub IsSteady : (Ctx → Bool) → Type 0
IsSteady test = (b : Bool) (c : Ctx) → test (wake_if b c) ≡ test c

or_false : (a : Bool) → (a || false) ≡ a
or_false true = refl
or_false false = refl

or_assoc : (a b c : Bool) → ((a || b) || c) ≡ (a || (b || c))
or_assoc true b c = refl
or_assoc false b c = refl

wake_if-false : (c : Ctx) → wake_if false c ≡ c
wake_if-false c = rw (or_false c.completed) refl

wake_if-wake_if : (a b : Bool) (c : Ctx) → wake_if b (wake_if a c) ≡ wake_if (a || b) c
wake_if-wake_if a b c = rw (or_assoc c.completed a b) refl

wake_if-true : (c : Ctx) → wake_if true c ≡ record c { completed = true }
wake_if-true c = elim (Bool-cases c.completed) [ inl e ↦ rw e refl | inr e ↦ rw e refl ]

complete_one-live :
    (test : Ctx → Bool) (q : ℕ) (cell : ℕ → Option Ctx) (p : ℕ) (c : Ctx)
    → cell p ≡ some c
    → complete_one test q cell p ≡ some (wake_if ((q == p) && test c) c)
unfolding complete_one
complete_one-live test q cell p c live = elim (Bool-cases (q == p)) [
  | inr e ↦
      let kept : complete_one test q cell p ≡ some c = ground (arith, e) in
      rw (e, wake_if-false c) kept
  | inl e ↦
      let q_eq : q ≡ p = ground (arith, e) in
      let i_eq : (p == p) ≡ true = ground arith in
      elim (Bool-cases (test c)) [
        | inl t ↦ rw (q_eq, i_eq, t, wake_if-true c) (rw (complete_one, live, t) (ground arith))
        | inr f ↦ rw (q_eq, i_eq, f, wake_if-false c) (rw (complete_one, live, f) live)
      ]
]

complete_all-live :
    (test : Ctx → Bool) (ps : List ℕ) (cell : ℕ → Option Ctx) (p : ℕ) (c : Ctx)
    → IsSteady test
    → cell p ≡ some c
    → complete_all test ps cell p ≡ some (wake_if (ltb 0 (occurs p ps) && test c) c)
unfolding complete_all
complete_all-live test [] cell p c steady live = rw (live, wake_if-false c) refl
complete_all-live test (q ∷ ps) cell p c steady live =
    let w = (q == p) && test c in
    let rest =
      complete_all-live test ps (complete_one test q cell) p (wake_if w c) steady
        (complete_one-live test q cell p c live) in
    let bits : (w || (ltb 0 (occurs p ps) && test c)) ≡ (ltb 0 (occurs p (q ∷ ps)) && test c) =
      ground arith in
    rw (complete_all, rest, steady w c, wake_if-wake_if w (ltb 0 (occurs p ps) && test c) c, bits)
      refl

-- A live context after everyone of a file has been woken.
pub complete_file-live :
    (test : Ctx → Bool) (f : ℕ) (s : Contexts) (p : ℕ) (c : Ctx)
    → IsConsistent s
    → IsSteady test
    → s.cell p ≡ some c
    → (complete_file test f s).cell p ≡ some (wake_if ((c.fl == f) && test c) c)
complete_file-live test f s p c v steady live =
    let l = s.clst f in
    let w = ltb 0 (occurs p l.pending) && test c in
    let first = complete_all-live test l.pending s.cell p c steady live in
    let last =
      complete_all-live test l.interrupted (complete_all test l.pending s.cell) p (wake_if w c)
        steady first in
    let own : owned f (s.cell p) ≡ owned f (some c) = rw live refl in
    let bits : (w || (ltb 0 (occurs p l.interrupted) && test c)) ≡ ((c.fl == f) && test c) =
      ground (arith, v.listed f p, own) in
    rw (last, steady w c, wake_if-wake_if w (ltb 0 (occurs p l.interrupted) && test c) c, bits) refl

-- Whether the file `fl` is open on the channel `cid`, or on the protection domain `name`.
abbrev pub is_on_channel : List Driver → ℕ → ℕ → Bool
is_on_channel [] cid fl = false
is_on_channel (d ∷ ds) cid fl = (is_at cid d.cid && (fl == d.fl)) || is_on_channel ds cid fl

abbrev pub is_on_domain : List Driver → ℕ → ℕ → Bool
is_on_domain [] name fl = false
is_on_domain (d ∷ ds) name fl = (is_at name d.spdname && (fl == d.fl)) || is_on_domain ds name fl

-- When a channel goes down in a consistent state, every live context of every file that is open on it is woken, be it
-- pending or interrupted, and each other context is left as it is.
pub notify_drivers_wakes :
    (ds : List Driver) (cid : ℕ) (s : Contexts) (p : ℕ) (c : Ctx)
    → IsConsistent s
    → s.cell p ≡ some c
    → (notify_drivers ds cid s).cell p ≡ some (wake_if (is_on_channel ds cid c.fl) c)
unfolding notify_drivers notify_users
notify_drivers_wakes [] cid s p c v live = rw (wake_if-false c) live
notify_drivers_wakes (d ∷ ds) cid s p c v live = elim (Bool-cases (is_at cid d.cid)) [
  | inr e ↦ rw (notify_drivers, e) (notify_drivers_wakes ds cid s p c v live)
  | inl e ↦
      let here = complete_file-live (λ x. true) d.fl s p c v (λ b x. refl) live in
      let w = (c.fl == d.fl) && true in
      let rest =
        notify_drivers_wakes ds cid (notify_users d.fl s) p (wake_if w c)
          (complete_file-IsConsistent (λ x. true) d.fl s v) here in
      let bits : (w || is_on_channel ds cid c.fl) ≡ ((c.fl == d.fl) || is_on_channel ds cid c.fl) =
        ground arith in
      rw (notify_drivers, e, rest, wake_if-wake_if w (is_on_channel ds cid c.fl) c, bits) refl
]

-- When a static protection domain restarts in a consistent state, the live contexts of the files that are open on it are
-- woken if their message was not sent in the name of the kernel (`msg.pid` is not 0); each other
-- context is left as it is.
pub notify_pdr_drivers_wakes :
    (ds : List Driver) (name : ℕ) (s : Contexts) (p : ℕ) (c : Ctx)
    → IsConsistent s
    → s.cell p ≡ some c
    → (notify_pdr_drivers ds name s).cell p
      ≡ some (wake_if (is_on_domain ds name c.fl && not (c.msg_pid == 0)) c)
unfolding notify_pdr_drivers notify_users_staticpd_pdr
notify_pdr_drivers_wakes [] name s p c v live = rw (wake_if-false c) live
notify_pdr_drivers_wakes (d ∷ ds) name s p c v live = elim (Bool-cases (is_at name d.spdname)) [
  | inr e ↦ rw (notify_pdr_drivers, e) (notify_pdr_drivers_wakes ds name s p c v live)
  | inl e ↦
      let test : Ctx → Bool = λ x. not (x.msg_pid == 0) in
      let here = complete_file-live test d.fl s p c v (λ b x. refl) live in
      let w = (c.fl == d.fl) && not (c.msg_pid == 0) in
      let rest =
        notify_pdr_drivers_wakes ds name (notify_users_staticpd_pdr d.fl s) p (wake_if w c)
          (complete_file-IsConsistent test d.fl s v) here in
      let tail = is_on_domain ds name c.fl && not (c.msg_pid == 0) in
      let bits : (w || tail)
          ≡ (((c.fl == d.fl) || is_on_domain ds name c.fl) && not (c.msg_pid == 0)) =
        ground arith in
      rw (notify_pdr_drivers, e, rest, wake_if-wake_if w tail c, bits) refl
]
