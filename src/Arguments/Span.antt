-- ===== src/Arguments/Span.antt =====
-- The length that `get_args` computes for the copied part, without wrap-around.
use reasoned_soc.Prelude.{
  ◌==◌, if◌then◌else◌, Bool-cases, get_or, All, ℕ, ◌+◌, ◌-◌, ◌*◌, ◌/◌, ◌%◌, ◌^◌, ◌≤◌, ◌<◌, ◌≡◌,
  refl, inl, inr, false, Option, List, [], ◌∷◌, arith,
}
use reasoned_soc.Errno.{ok}
use reasoned_soc.Overlap.{RemoteArg, Overlap, place_over, place_overs}
use reasoned_soc.Arguments.{balign, long_max, null_arg, is_mapped, add_len, copy_len}

-- The buffer of `o` is that of the argument at its index, of at most LONG_MAX bytes, and ends at
-- its start or behind it.
pub record IsArg (lpra : List RemoteArg) (o : Overlap) : Type 0 where
  pub addr : (get_or lpra o.raix null_arg).pv ≡ o.start
  pub length : (get_or lpra o.raix null_arg).len + o.start ≡ o.end
  pub short : (get_or lpra o.raix null_arg).len ≤ long_max
  pub word : o.end < 2 ^ 64

-- What the second loop of `context_build_overlap` makes of a buffer.
pub record IsPlaced (lpra : List RemoteArg) (o : Overlap) : Type 0 where
  pub arg : IsArg lpra o
  pub inside : o.mstart ≤ o.mend
  pub within : o.mend - o.mstart ≤ o.end - o.start
  pub below : o.mend < 2 ^ 64

abbrev pub NoMap : List (Option ℕ) → Type 0
NoMap maps = (i : ℕ) → is_mapped maps i ≡ false

abbrev pub align_up : ℕ → ℕ
align_up c = (c + (balign - 1)) / balign * balign

-- Where the piece of `o` starts behind `c` bytes.
abbrev pub piece_start : Overlap → ℕ → ℕ
piece_start o c = if o.offset == 0 then align_up c else c

-- The end of the copied part if it starts behind `c` bytes and no buffer is mapped.
unfoldable pub span : List RemoteArg → List Overlap → ℕ → ℕ
span lpra [] c = c
span lpra (o ∷ os) c =
    span lpra os
      (if (get_or lpra o.raix null_arg).len == 0 then c else piece_start o c + (o.mend - o.mstart))

pub le-span : (lpra : List RemoteArg) (os : List Overlap) (c : ℕ) → c ≤ span lpra os c
unfolding span
le-span lpra [] c = omega arith
le-span lpra (o ∷ os) c =
    ground (arith, le-span lpra os c, le-span lpra os (piece_start o c + (o.mend - o.mstart)))

piece_start-add :
    (virt : ℕ) (o : Overlap) (c : ℕ)
    → virt % balign ≡ 0
    → piece_start o (virt + c) ≡ virt + piece_start o c
piece_start-add virt o c h = ground arith

-- An aligned address in front of everything shifts the end.
pub span-add :
    (lpra : List RemoteArg) (virt : ℕ) (os : List Overlap) (c : ℕ)
    → virt % balign ≡ 0
    → span lpra os (virt + c) ≡ virt + span lpra os c
unfolding span
span-add lpra virt [] c h = refl
span-add lpra virt (o ∷ os) c h =
    let d = o.mend - o.mstart in
    ground (
      arith,
      span-add lpra virt os c h,
      span-add lpra virt os (piece_start o c + d) h,
      piece_start-add virt o c h,
    )

place_over-IsPlaced :
    (lpra : List RemoteArg) (m : ℕ) (o : Overlap)
    → IsArg lpra o
    → m < 2 ^ 64
    → IsPlaced lpra (place_over m o).0 × ((place_over m o).1 < 2 ^ 64)
unfolding place_over
place_over-IsPlaced lpra m o a h = ground (arith, a.addr, a.length, a.short, a.word)

pub place_overs-IsPlaced :
    (lpra : List RemoteArg) (m : ℕ) (os : List Overlap)
    → All (IsArg lpra) os
    → m < 2 ^ 64
    → All (IsPlaced lpra) (place_overs m os)
unfolding place_overs
place_overs-IsPlaced lpra m [] a h = tt
place_overs-IsPlaced lpra m (o ∷ os) a h =
    let p = place_over-IsPlaced lpra m o a.0 h in
    (p.0, place_overs-IsPlaced lpra (place_over m o).1 os a.1 p.1)

add_len_lem :
    (lpra : List RemoteArg) (o : Overlap) (c : ℕ)
    → IsPlaced lpra o
    → piece_start o c + (o.mend - o.mstart) < 2 ^ 64
    → add_len o c ≡ ok (piece_start o c + (o.mend - o.mstart))
unfolding add_len
add_len_lem lpra o c p fits = ground (arith, p.arg.length)

-- Where no buffer is mapped and the whole fits in 64 bits, the loop computes `span`.
pub copy_len-span :
    (lpra : List RemoteArg) (maps : List (Option ℕ)) (os : List Overlap) (c : ℕ)
    → NoMap maps
    → All (IsPlaced lpra) os
    → span lpra os c < 2 ^ 64
    → copy_len lpra maps os c ≡ ok (span lpra os c)
unfolding copy_len span
copy_len-span lpra maps [] c free p fits = refl
copy_len-span lpra maps (o ∷ os) c free p fits =
    elim (Bool-cases ((get_or lpra o.raix null_arg).len == 0)) [
      | inl empty ↦ rw empty (copy_len-span lpra maps os c free p.1 (ground arith))
      | inr full ↦
          let d = piece_start o c + (o.mend - o.mstart) in
          let fits' : span lpra os d < 2 ^ 64 = ground arith in
          rw (full, free o.raix, add_len_lem lpra o c p.0 (omega (arith, le-span lpra os d)))
            (copy_len-span lpra maps os d free p.1 fits')
    ]
