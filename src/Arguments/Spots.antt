-- ===== src/Arguments/Spots.antt =====
-- Where the copy loop of `get_args` puts each buffer, and that overlapping buffers keep overlapping
-- there in the same way.
use Prim.Native.Nat.{Ordering}
use reasoned_soc.Prelude.{
  ◌==◌, if◌then◌else◌, Bool-cases, set, get_or, All, ℕ, ◌+◌, ◌-◌, ◌^◌, ◌≤◌, ◌<◌, ◌≡◌, ◌≢◌, ◌⊎◌, inl,
  inr, true, List, [], ◌∷◌, arith,
}
use reasoned_soc.Overlap.{RemoteArg, Overlap, overlap_ptr_cmp, place_over, place_overs}
use reasoned_soc.Overlap.Pieces.{IsSorted, start-le}
use reasoned_soc.Arguments.{sub64, null_arg}
use reasoned_soc.Arguments.Span.{IsArg, piece_start, span, le-span}

-- A buffer that is copied, and the address of its first byte in the message buffer.
abbrev pub Spot : Type 0
Spot = Overlap × ℕ

abbrev pub args_len : List RemoteArg → Overlap → ℕ
args_len lpra o = (get_or lpra o.raix null_arg).len

-- The spots of buffers none of which is mapped, the first one from `args` on.
unfoldable pub spots : List RemoteArg → List Overlap → ℕ → List Spot
spots lpra [] args = []
spots lpra (o ∷ os) args =
    let rest = spots lpra os (piece_start o args + (o.mend - o.mstart)) in
    let same = spots lpra os args in
    if args_len lpra o == 0 then same else (o, sub64 (piece_start o args) o.offset) ∷ rest

pub place_over-start : (m : ℕ) (o : Overlap) → (place_over m o).0.start ≡ o.start
unfolding place_over
place_over-start m o = ground arith

pub place_over-end : (m : ℕ) (o : Overlap) → (place_over m o).0.end ≡ o.end
unfolding place_over
place_over-end m o = ground arith

-- Where two buffers share bytes, their spots lie as far apart as the buffers.
abbrev pub SameShift : Spot → Spot → Type 0
SameShift (p, pv) (q, qv) = p.start < q.end → q.start < p.end → pv + q.start ≡ qv + p.start

-- The writes to `rpra` at the spots.
unfoldable pub write_spots : List RemoteArg → List Spot → List RemoteArg
write_spots rpra [] = rpra
write_spots rpra ((o, pv) ∷ xs) =
    write_spots (set rpra o.raix (record { pv = pv; len = (get_or rpra o.raix null_arg).len })) xs

abbrev pub Pairs : (Spot → Spot → Type 0) → List Spot → Type 0
Pairs R [] = Unit {0}
Pairs R (x ∷ xs) = All (R x) xs × Pairs R xs

-- A spot in a list that starts at `args`, behind buffers that end at `m`: all of it lies between
-- `base` and `top`, and a buffer that starts before `m` continues those buffers.
pub record IsChained (base top args m : ℕ) (x : Spot) : Type 0 where
  pub above : base ≤ x.1
  pub below : x.1 + (x.0.end - x.0.start) ≤ top
  pub chain : x.0.start < m → x.1 + m ≡ args + x.0.start

module _ (lpra : List RemoteArg) (base : ℕ) where
  abbrev Room : ℕ → ℕ → Overlap → Type 0
  Room args m o = base + m ≤ args + o.start

  pub Room-start : (os : List Overlap) → All (Room base 0) os
  Room-start [] = tt
  Room-start (o ∷ os) = (omega arith, Room-start os)

  Room-above :
      (o : Overlap) (args m : ℕ) (os : List Overlap)
      → All (λ p. overlap_ptr_cmp o p ≢ Ordering.gt) os
      → base + m ≤ args + o.start
      → All (Room args m) os
  Room-above o args m [] s h = tt
  Room-above o args m (p ∷ os) s h = (omega (arith, start-le o p s.0), Room-above o args m os s.1 h)

  weaken :
      (o : Overlap) (top args args' m m' : ℕ) (xs : List Spot)
      → All (λ x. o.start ≤ x.0.start) xs
      → All (IsChained base top args' m') xs
      → (m ≤ o.start) ⊎ ((m' + args ≡ args' + m) × (m ≤ m'))
      → All (IsChained base top args m) xs
  weaken o top args args' m m' [] s c h = tt
  weaken o top args args' m m' (x ∷ xs) s c h = (
    record { above = c.0.above; below = c.0.below; chain = λ lt. ground (arith, c.0.chain) },
    weaken o top args args' m m' xs s.1 c.1 h,
  )

  spots-start :
      (o : Overlap) (m args : ℕ) (os : List Overlap)
      → All (λ p. overlap_ptr_cmp o p ≢ Ordering.gt) os
      → All (λ (x : Spot). o.start ≤ x.0.start) (spots lpra (place_overs m os) args)
  unfolding spots place_overs place_over
  spots-start o m args [] s = tt
  spots-start o m args (p ∷ os) s =
      let (p', m') = place_over m p in
      let after = piece_start p' args + (p'.mend - p'.mstart) in
      elim (Bool-cases (args_len lpra p' == 0)) [
        | inl empty ↦ rw empty (spots-start o m' args os s.1)
        | inr full ↦ rw full (ground (arith, start-le o p s.0), spots-start o m' after os s.1)
      ]

  -- One buffer: where it lies, and how the next buffers go on from it.
  record IsNext (args m : ℕ) (o : Overlap) (pv args' m' : ℕ) : Type 0 where
    room : base + m' ≤ args' + o.start
    grows : base ≤ args'
    above : base ≤ pv
    below : pv + (o.end - o.start) ≤ args'
    chain : o.start < m → pv + m ≡ args + o.start
    cover : o.end ≤ m'
    shift : pv + m' ≡ args' + o.start
    link : (m ≤ o.start) ⊎ ((m' + args ≡ args' + m) × (m ≤ m'))

  next_lem :
      (args m : ℕ) (o : Overlap)
      → IsArg lpra o
      → base ≤ args
      → base + m ≤ args + o.start
      → (let (o', m') = place_over m o in
          let args' = piece_start o' args + (o'.mend - o'.mstart) in
          args' < 2 ^ 64 → IsNext args m o (sub64 (piece_start o' args) o'.offset) args' m')
  unfolding place_over
  next_lem args m o a b r fits = ground (arith, a.length)

  -- All of the rest against the buffer in front of it.
  shifts :
      (o : Overlap) (pv top args m : ℕ) (xs : List Spot)
      → All (IsChained base top args m) xs
      → o.end ≤ m
      → pv + m ≡ args + o.start
      → All (SameShift (o, pv)) xs
  shifts o pv top args m [] c cover e = tt
  shifts o pv top args m (x ∷ xs) c cover e =
      (λ h k. omega (arith, c.0.chain (omega arith)), shifts o pv top args m xs c.1 cover e)

  empty_next :
      (args m : ℕ) (o : Overlap)
      → IsArg lpra o
      → (args_len lpra (place_over m o).0 == 0) ≡ true
      → base ≤ args
      → base + m ≤ args + o.start
      → (base + (place_over m o).1 ≤ args + o.start)
        × ((m ≤ o.start) ⊎ (((place_over m o).1 + args ≡ args + m) × (m ≤ (place_over m o).1)))
  unfolding place_over
  empty_next args m o a e b r = ground (arith, a.length)

  -- The spots of sorted buffers: each lies between `base` and the end of the copied part, and those
  -- that share bytes have the same shift.
  pub spots-IsChained :
      (top : ℕ) (os : List Overlap) (args m : ℕ)
      → top < 2 ^ 64
      → IsSorted os
      → All (IsArg lpra) os
      → base ≤ args
      → All (Room args m) os
      → span lpra (place_overs m os) args ≤ top
      → All (IsChained base top args m) (spots lpra (place_overs m os) args)
        × Pairs SameShift (spots lpra (place_overs m os) args)
  unfolding spots span place_overs
  spots-IsChained top [] args m w s a b r fits = (tt, tt)
  spots-IsChained top (o ∷ os) args m w s a b r fits =
      let (o', m') = place_over m o in
      let args' = piece_start o' args + (o'.mend - o'.mstart) in
      let start = spots-start o m' in
      elim (Bool-cases (args_len lpra o' == 0)) [
        | inl empty ↦
            let (room, link) = empty_next args m o a.0 empty b r.0 in
            let (c, p) =
              spots-IsChained top os args m' w s.1 a.1 b (Room-above o args m' os s.0 room)
                (ground (arith, empty)) in
            rw empty (weaken o top args args m m' _ (start args os s.0) c link, p)
        | inr full ↦
            let fits' : span lpra (place_overs m' os) args' ≤ top = ground (arith, full) in
            let n =
              next_lem args m o a.0 b r.0 (omega (arith, le-span lpra (place_overs m' os) args')) in
            let (c, p) =
              spots-IsChained top os args' m' w s.1 a.1 n.grows
                (Room-above o args' m' os s.0 n.room) fits' in
            let start_eq = place_over-start m o in
            let end_eq = place_over-end m o in
            let here : IsChained base top args m (o', sub64 (piece_start o' args) o'.offset) =
              record {
                above = n.above;
                below =
                    omega
                      (arith, n.below, start_eq, end_eq, le-span lpra (place_overs m' os) args');
                chain = λ lt. omega (arith, n.chain (omega arith), start_eq);
              } in
            rw full (
              (here, weaken o top args args' m m' _ (start args' os s.0) c n.link),
              (
                shifts o' _ top args' m' _ c (omega (arith, n.cover, end_eq))
                    (omega (arith, n.shift, start_eq)),
                p,
              ),
            )
      ]
