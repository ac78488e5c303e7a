-- ===== src/Arguments/Fits.antt =====
-- The copy loop of `get_args` stays within the buffer that was allocated for it.
use reasoned_soc.Prelude.{
  ◌==◌, Bool-cases, set, get_or, All, ℕ, ◌+◌, ◌-◌, ◌%◌, ◌^◌, ◌≤◌, ◌<◌, ◌≡◌, refl, inl, inr, true,
  ◌||◌, List, [], ◌∷◌, arith,
}
use reasoned_soc.Errno.{Result, ◌>>=◌, ok, err}
use reasoned_soc.Overlap.{Overlap}
use reasoned_soc.Arguments.{
  balign, sub64, null_arg, CopyEnv, CopyState, realign, copy_arg, copy_args,
}
use reasoned_soc.Arguments.Spots.{spots, write_spots}
use reasoned_soc.Arguments.Span.{IsPlaced, NoMap, piece_start, span, le-span}

-- `copy_from_user` can read every input buffer.
abbrev pub AllReadable : CopyEnv → Type 0
AllReadable env =
    (i : ℕ)
    → i < env.inbufs
    → (let arg = get_or env.lpra i null_arg in env.kernel || env.readable arg.pv arg.len) ≡ true

-- The copy has come to `c` bytes of the `copylen` from `virt` on.
pub record IsAt (virt copylen c : ℕ) (s : CopyState) : Type 0 where
  pub args : s.args ≡ virt + c
  pub rlen : s.rlen + c ≡ copylen

abbrev pub Copied : (CopyState → Type 0) → Result CopyState → Type 0
Copied P (ok s) = P s
Copied P (err e) = ⊥

pub Copied-bind :
    (P Q : CopyState → Type 0) (r : Result CopyState) (k : CopyState → Result CopyState)
    → Copied P r
    → ((s : CopyState) → P s → Copied Q (k s))
    → Copied Q (r >>= k)
Copied-bind P Q (ok s) k h next = next s h
Copied-bind P Q (err e) k h next = absurd h

pub Copied-mono :
    (P Q : CopyState → Type 0) (r : Result CopyState)
    → Copied P r
    → ((s : CopyState) → P s → Q s)
    → Copied Q r
Copied-mono P Q (ok s) h weaken = weaken s h
Copied-mono P Q (err e) h weaken = absurd h

pub Copied-and :
    (P Q : CopyState → Type 0) (r : Result CopyState)
    → Copied P r
    → Copied Q r
    → Copied (λ s. P s × Q s) r
Copied-and P Q (ok s) h k = (h, k)
Copied-and P Q (err e) h k = absurd h

module _ (env : CopyEnv) (virt : ℕ) (aligned : virt % balign ≡ 0) where
  -- The state after the buffers `os`, from `s` on.
  pub record IsDone (os : List Overlap) (c : ℕ) (s t : CopyState) : Type 0 where
    pub at : IsAt virt env.copylen c t
    pub rpra : t.rpra ≡ write_spots s.rpra (spots env.lpra os s.args)

  realign-IsAt :
      (o : Overlap) (c : ℕ) (s : CopyState)
      → IsAt virt env.copylen c s
      → piece_start o c ≤ env.copylen
      → virt + env.copylen < 2 ^ 64
      → IsAt virt env.copylen (piece_start o c) (realign o s)
        × ((realign o s).args ≡ piece_start o s.args)
        × ((realign o s).rpra ≡ s.rpra)
  unfolding realign
  realign-IsAt o c s at le fits = ground (arith, at.args, at.rlen)

  -- What one buffer does to the state.
  record IsPut (o : Overlap) (c : ℕ) (s t : CopyState) : Type 0 where
    at : IsAt virt env.copylen c t
    args : t.args ≡ s.args + (o.mend - o.mstart)
    rpra :
        t.rpra
        ≡ set s.rpra o.raix
            (record { pv = sub64 s.args o.offset; len = (get_or s.rpra o.raix null_arg).len })

  copy_arg-IsPut :
      (o : Overlap) (c : ℕ) (s : CopyState)
      → AllReadable env
      → IsAt virt env.copylen c s
      → o.mstart ≤ o.mend
      → o.mend < 2 ^ 64
      → c + (o.mend - o.mstart) ≤ env.copylen
      → virt + env.copylen < 2 ^ 64
      → Copied (IsPut o (c + (o.mend - o.mstart)) s) (copy_arg env o s)
  unfolding copy_arg
  copy_arg-IsPut o c s all at le word le' fits = ground (arith, at.args, at.rlen, all o.raix)

  pub copy_args-IsDone :
      (os : List Overlap) (c : ℕ) (s : CopyState)
      → NoMap env.maps
      → AllReadable env
      → All (IsPlaced env.lpra) os
      → IsAt virt env.copylen c s
      → span env.lpra os c ≡ env.copylen
      → virt + env.copylen < 2 ^ 64
      → Copied (IsDone os env.copylen s) (copy_args env os s)
  unfolding copy_args span spots write_spots
  copy_args-IsDone [] c s free all p at e fits = ground (arith, at.args, at.rlen)
  copy_args-IsDone (o ∷ os) c s free all p at e fits =
      elim (Bool-cases ((get_or env.lpra o.raix null_arg).len == 0)) [
        | inl empty ↦ rw empty (
            Copied-mono _ _ (copy_args env os s)
              (copy_args-IsDone os c s free all p.1 at (ground arith) fits)
              (λ t done. record { at = done.at; rpra = ground (arith, done.rpra, empty) }))
        | inr full ↦
            let start = piece_start o c in
            let d = start + (o.mend - o.mstart) in
            let e' : span env.lpra os d ≡ env.copylen = ground arith in
            let room : d ≤ env.copylen = omega (arith, le-span env.lpra os d) in
            let (at', args, rpra) = realign-IsAt o c s at (omega arith) fits in
            rw (full, free o.raix)
              (Copied-bind _ _ (copy_arg env o (realign o s)) (copy_args env os)
                (copy_arg-IsPut o start (realign o s) all at' p.0.inside p.0.below room fits)
                (λ s' put.
                  Copied-mono _ _ (copy_args env os s')
                    (copy_args-IsDone os d s' free all p.1 put.at e' fits)
                    (λ t done. record {
                      at = done.at;
                      rpra = rw (full, done.rpra, put.rpra, put.args, args, rpra) refl;
                    })))
      ]
