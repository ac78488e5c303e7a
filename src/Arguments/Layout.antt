-- ===== src/Arguments/Layout.antt =====
-- From the arguments of an invocation to `rpra`: `context_build_overlap`, the length and the copy
-- together, as `get_args` composes them.
use mathlib.Core.Logic.{∥∥₁_elim}
use mathlib.Core.Bool.{Bool-set}
use reasoned_soc.Prelude.{
  Option-cases, length, take, get_or, All, ℕ, ◌+◌, ◌-◌, ◌≤◌, ◌<◌, ◌≡◌, refl, sym, ◌∙◌, inl, inr,
  true, some, List, arith,
}
use reasoned_soc.Overlap.{RemoteArg, Overlap, place_overs}
use reasoned_soc.Overlap.Build.{Sorts, overs_of, build-wraps, build-eq}
use reasoned_soc.Arguments.{null_arg, PhyPage, CopyEnv, CopyState, copy_args}
use reasoned_soc.Arguments.Span.{
  IsArg, IsPlaced, span, le-span, span-add, place_overs-IsPlaced, copy_len-span,
}
use reasoned_soc.Arguments.Spots.{
  Spot, spots, SameShift, Pairs, IsChained, Room-start, spots-IsChained,
}
use reasoned_soc.Arguments.Fits.{Copied, Copied-mono, Copied-and, IsDone, copy_args-IsDone}
use reasoned_soc.Prelude.Perms.{All-perm}
use reasoned_soc.Errno.{Result}
use reasoned_soc.Arguments.Lookup.{
  has_index, has_index-Permᴰ, has_index-overs_of, has_index-place_overs, find_spot, find_spot-spots,
  find_spot-All, find_spot-Pairs, get_or-write_spots, All-spots,
}
use reasoned_soc.Overlap.Pieces.{in_range}
use reasoned_soc.Arguments.Ready.{IsArg-prop, IsReady, copy_start, get_or-take, overs_of-IsArg}

module _ {sort : List Overlap → List Overlap} (sorts : Sorts sort) (env : CopyEnv)
    (nbufs virt metalen : ℕ) (overs : List Overlap)
    (ready : IsReady sort env nbufs virt metalen overs) (rpra : List RemoteArg)
    (pages : List PhyPage) where
  open ready use {words, shorts, built, measured, free, readable, aligned, fits}

  abbrev raw : List Overlap
  raw = sort (overs_of 0 (take nbufs env.lpra))

  overs_eq : overs ≡ place_overs 0 raw
  overs_eq = build-eq sorts nbufs env.lpra overs words built

  raw-IsArg : All (IsArg env.lpra) raw
  raw-IsArg =
      All-perm (IsArg env.lpra) (IsArg-prop env.lpra) raw (overs_of 0 (take nbufs env.lpra))
        (sorts.perm _)
        (overs_of-IsArg env.lpra 0 (take nbufs env.lpra)
          (λ j a q.
            let e : 0 + j ≡ j = omega arith in rw e (get_or-take nbufs env.lpra j null_arg a q))
          shorts (ground (arith, build-wraps sorts nbufs env.lpra words, built)) words)

  placed : All (IsPlaced env.lpra) overs
  placed = rw overs_eq (place_overs-IsPlaced env.lpra 0 raw raw-IsArg (omega arith))

  copylen_eq : env.copylen ≡ span env.lpra overs metalen
  copylen_eq =
      ground (arith, copy_len-span env.lpra env.maps overs metalen free placed (omega arith))

  done :
      Copied
        (IsDone env virt aligned overs env.copylen (copy_start virt metalen env.copylen rpra pages))
        (copy_args env overs (copy_start virt metalen env.copylen rpra pages))
  done =
      copy_args-IsDone env virt aligned overs metalen
        (copy_start virt metalen env.copylen rpra pages) free readable placed
        (record { args = refl; rlen = omega (arith, copylen_eq, le-span env.lpra overs metalen) })
        (sym copylen_eq) (omega (arith, copylen_eq))

  abbrev copied : Result CopyState
  copied = copy_args env overs (copy_start virt metalen env.copylen rpra pages)

  -- From a ready state the copy succeeds, however the buffers overlap: its length check never
  -- fails, and it uses up exactly the `copylen` bytes that were allocated.
  pub copy_args_exact : Copied (λ t. (t.args ≡ virt + env.copylen) × (t.rlen ≡ 0)) copied
  copy_args_exact = Copied-mono _ _ copied done (λ t d. ground (arith, d.at.args, d.at.rlen))

  abbrev spotted : List Spot
  spotted = spots env.lpra overs (virt + metalen)

  spots_lem :
      All (IsChained (virt + metalen) (virt + env.copylen) (virt + metalen) 0) spotted
      × Pairs SameShift spotted
  spots_lem = rw overs_eq (
      spots-IsChained env.lpra (virt + metalen) (virt + env.copylen) raw (virt + metalen) 0
        (omega (arith, copylen_eq)) (sorts.sorted _) raw-IsArg (omega arith)
        (Room-start env.lpra (virt + metalen) raw)
        (omega (
          arith,
          span-add env.lpra virt (place_overs 0 raw) metalen aligned,
          (rw overs_eq at copylen_eq),
        )))

  spotted-has_index : (i : ℕ) → i < length (take nbufs env.lpra) → has_index i overs ≡ true
  spotted-has_index i h =
      rw (overs_eq, has_index-place_overs i 0 raw)
        (∥∥₁_elim (sorts.perm (overs_of 0 (take nbufs env.lpra))) (Bool-set _ _) (has_index-Permᴰ i)
          ∙ has_index-overs_of i 0 (take nbufs env.lpra) (omega arith) (omega arith))

  -- The spot of the argument `i`.
  spot_of :
      (i : ℕ)
      → i < length (take nbufs env.lpra)
      → 0 < (get_or env.lpra i null_arg).len
      → (x : Spot) × (find_spot i spotted ≡ some x)
  spot_of i h pos = elim (Option-cases (find_spot i spotted)) [
    | inl e ↦
        absurd (find_spot-spots env.lpra i overs (virt + metalen) (spotted-has_index i h) pos e)
    | inr f ↦ f
  ]

  -- After the copy `rpra` has the spot's address at the index of an argument that is not empty.
  copied_at :
      (i : ℕ) (x : Spot)
      → i < length rpra
      → find_spot i spotted ≡ some x
      → Copied (λ t. (get_or t.rpra i null_arg).pv ≡ x.1) copied
  copied_at i x h e =
      Copied-mono _ _ copied done (λ t d. rw d.rpra (get_or-write_spots i rpra spotted x h e))

  -- What is known of the spot of an argument.
  record IsSpot (i : ℕ) (x : Spot) : Type 0 where
    found : find_spot i spotted ≡ some x
    start : x.0.start ≡ (get_or env.lpra i null_arg).pv
    end : x.0.end ≡ (get_or env.lpra i null_arg).pv + (get_or env.lpra i null_arg).len
    above : virt + metalen ≤ x.1
    below : x.1 + (get_or env.lpra i null_arg).len ≤ virt + env.copylen

  spot_facts :
      (i : ℕ)
      → i < length (take nbufs env.lpra)
      → 0 < (get_or env.lpra i null_arg).len
      → (x : Spot) × IsSpot i x
  spot_facts i h pos =
      let (x, e) = spot_of i h pos in
      let (p, here) =
        find_spot-All (λ (y : Spot). IsPlaced env.lpra y.0) i spotted x
          (All-spots (IsPlaced env.lpra) env.lpra overs (virt + metalen) placed) e in
      let c = (find_spot-All _ i spotted x spots_lem.0 e).0 in
      let addr : (get_or env.lpra i null_arg).pv ≡ x.0.start = ground (arith, p.arg.addr, here) in
      let size : (get_or env.lpra i null_arg).len + x.0.start ≡ x.0.end =
        ground (arith, p.arg.length, here) in
      (
        x,
        record {
          found = e;
          start = sym addr;
          end = omega arith;
          above = c.above;
          below = omega (arith, c.below);
        },
      )

  module _ (i : ℕ) (bounded : i < length (take nbufs env.lpra)) (room : i < length rpra)
      (full : 0 < (get_or env.lpra i null_arg).len) where
    -- From a ready state, the copy of an argument that is not empty lies between the metadata and
    -- the end of the message buffer, all `len` bytes of it.
    pub copy_args_within :
        Copied
          (λ t.
            (virt + metalen ≤ (get_or t.rpra i null_arg).pv)
            × ((get_or t.rpra i null_arg).pv + (get_or env.lpra i null_arg).len
                ≤ virt + env.copylen))
          copied
    copy_args_within =
        let (x, f) = spot_facts i bounded full in
        Copied-mono _ _ copied (copied_at i x room f.found)
          (λ t e. (omega (arith, f.above), omega (arith, f.below)))

    -- From a ready state, a byte at `a` that two arguments share, wherever their buffers overlap,
    -- is one byte of the message buffer, whichever of the two arguments leads to it.
    pub copy_args_shared :
        (j a : ℕ) (p q : RemoteArg)
        → get_or env.lpra i null_arg ≡ p
        → get_or env.lpra j null_arg ≡ q
        → j < length (take nbufs env.lpra)
        → j < length rpra
        → in_range p.pv (p.pv + p.len) a ≡ true
        → in_range q.pv (q.pv + q.len) a ≡ true
        → Copied
            (λ t.
              (get_or t.rpra i null_arg).pv + (a - p.pv)
              ≡ (get_or t.rpra j null_arg).pv + (a - q.pv))
            copied
    copy_args_shared j a p q at_i at_j bounded' room' in_i in_j =
        let (x, f) = spot_facts i bounded full in
        let (y, g) = spot_facts j bounded' (ground (arith, at_j)) in
        Copied-mono _ _ copied
          (Copied-and _ _ copied (copied_at i x room f.found) (copied_at j y room' g.found))
          (λ t e.
            let k = find_spot-Pairs i j spotted x y spots_lem.1 f.found g.found in
            ground (arith, k, f.start, f.end, g.start, g.end, at_i, at_j))
