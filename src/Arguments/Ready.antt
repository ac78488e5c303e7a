-- ===== src/Arguments/Ready.antt =====
-- The state of `get_args` before the copy of the argument buffers.
use native.Mathlib.Nat.{ℕ_set}
use native.Mathlib.Bridge.{le_prop}
use reasoned_soc.Prelude.{
  get_elem?, take, get_or, All, ℕ, zero, suc, ◌+◌, ◌%◌, ◌^◌, ◌≤◌, ◌<◌, ◌≡◌, refl, ap, false, some,
  List, [], ◌∷◌, arith,
}
use reasoned_soc.Overlap.{RemoteArg, Overlap, context_build_overlap}
use reasoned_soc.Overlap.Build.{IsWord, any_wraps, overs_of}
use reasoned_soc.Arguments.{
  balign, long_max, sub64, null_arg, copy_len, PhyPage, CopyEnv, CopyState,
}
use reasoned_soc.Arguments.Span.{IsArg, NoMap, span}
use reasoned_soc.Arguments.Fits.{AllReadable}
use reasoned_soc.Errno.{ok}

pub get_or-take :
    {A : Type 0} (n : ℕ) (xs : List A) (j : ℕ) (d a : A)
    → get_elem? (take n xs) j ≡ some a
    → get_or xs j d ≡ a
get_or-take zero xs j d a h = ground arith
get_or-take (suc n) [] j d a h = ground arith
get_or-take (suc n) (x ∷ xs) zero d a h = ground arith
get_or-take (suc n) (x ∷ xs) (suc j) d a h = get_or-take n xs j d a h

abbrev pub IsShort : RemoteArg → Type 0
IsShort arg = arg.len ≤ long_max

pub overs_of-IsArg :
    (lpra : List RemoteArg) (i : ℕ) (args : List RemoteArg)
    → ((j : ℕ) (a : RemoteArg) → get_elem? args j ≡ some a → get_or lpra (i + j) null_arg ≡ a)
    → All IsShort args
    → any_wraps args ≡ false
    → All IsWord args
    → All (IsArg lpra) (overs_of i args)
overs_of-IsArg lpra i [] at s w h = tt
overs_of-IsArg lpra i (arg ∷ args) at s w h =
    let here : get_or lpra i null_arg ≡ arg =
      let e : i + 0 ≡ i = omega arith in rw e at (at 0 arg refl) in
    let rest : (j : ℕ) (a : RemoteArg)
        → get_elem? args j ≡ some a
        → get_or lpra (i + 1 + j) null_arg ≡ a =
      λ j a q. let e : i + 1 + j ≡ i + suc j = omega arith in rw e (at (suc j) a q) in
    (
      record {
        addr = ap (λ (a : RemoteArg). a.pv) here;
        length = ground (arith, here);
        short = ground (arith, here);
        word = ground arith;
      },
      overs_of-IsArg lpra (i + 1) args rest s.1 (ground arith) h.1,
    )

pub IsArg-prop : (lpra : List RemoteArg) (o : Overlap) → IsProp (IsArg lpra o)
IsArg-prop lpra o = hlevel (le_prop, ℕ_set)

-- The state in which the copy loop starts.
abbrev pub copy_start : ℕ → ℕ → ℕ → List RemoteArg → List PhyPage → CopyState
copy_start virt metalen copylen rpra pages = record {
  args = virt + metalen;
  rlen = sub64 copylen metalen;
  rpra = rpra;
  pages = pages;
  writes = [];
}

-- The situation of `get_args` before the copy: the first `nbufs` arguments are 64-bit words of at
-- most LONG_MAX bytes, none of the buffers is mapped, user memory can be read, and the message
-- buffer at `virt`, which is aligned, does not reach the end of the address space.
pub record IsReady (sort : List Overlap → List Overlap) (env : CopyEnv) (nbufs virt metalen : ℕ)
    (overs : List Overlap) : Type 0 where
  pub words : All IsWord (take nbufs env.lpra)
  pub shorts : All IsShort (take nbufs env.lpra)
  pub built : context_build_overlap sort nbufs env.lpra ≡ ok overs
  pub measured : copy_len env.lpra env.maps overs metalen ≡ ok env.copylen
  pub free : NoMap env.maps
  pub readable : AllReadable env
  pub aligned : virt % balign ≡ 0
  pub fits : virt + span env.lpra overs metalen < 2 ^ 64
