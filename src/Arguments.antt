-- ===== src/Arguments.antt =====
-- How `get_args` of android/adsprpc.c lays the argument buffers out in the message buffer: the
-- length of the copied part, and the copy itself.
mod Examples
pub mod Fits
pub mod Span
pub mod Spots
pub mod Lookup
pub mod Layout
pub mod Mapped
pub mod Ready
use reasoned_soc.Prelude.{
  ltb, leb, ◌==◌, if◌then◌else◌, set, get_or, ℕ, zero, suc, ◌+◌, ◌-◌, ◌*◌, ◌/◌, ◌^◌, Bool, true,
  false, ◌||◌, Option, none, some, List, [], ◌∷◌,
}
use reasoned_soc.Errno.{Result, ◌>>=◌, ◌>>◌, verify, ok}
use reasoned_soc.Pages.{page_size, u64, buf_page_start, buf_num_pages}
use reasoned_soc.Overlap.{RemoteArg, Overlap}

abbrev pub balign : ℕ
balign = 128

abbrev pub long_max : ℕ
long_max = 2 ^ 63 - 1

-- ALIGN(x, BALIGN)
abbrev pub align : ℕ → ℕ
align x = u64 (x + (balign - 1)) / balign * balign

-- a - b of size_t and uint64_t values
abbrev pub sub64 : ℕ → ℕ → ℕ
sub64 a b = u64 (a + 2 ^ 64 - b)

abbrev pub null_arg : RemoteArg
null_arg = record { pv = 0; len = 0 }

-- `ctx->maps[i] != NULL`; a mapping goes by its address.
abbrev pub is_mapped : List (Option ℕ) → ℕ → Bool
is_mapped [] i = false
is_mapped (none ∷ maps) zero = false
is_mapped (some m ∷ maps) zero = true
is_mapped (m ∷ maps) (suc i) = is_mapped maps i

-- The `continue`s of both loops: an empty buffer, or one that is mapped.
abbrev pub is_skipped : List RemoteArg → List (Option ℕ) → ℕ → Bool
is_skipped lpra maps i = ((get_or lpra i null_arg).len == 0) || is_mapped maps i

-- One round of "calculate len required for copying".
unfoldable pub add_len : Overlap → ℕ → Result ℕ
add_len o copylen = do
  let start = if o.offset == 0 then align copylen else copylen
  verify (leb (sub64 o.mend o.mstart) long_max)
  let copylen = u64 (start + sub64 o.mend o.mstart)
  verify (leb 0 copylen)
  ok copylen

unfoldable pub copy_len : List RemoteArg → List (Option ℕ) → List Overlap → ℕ → Result ℕ
copy_len lpra maps [] copylen = ok copylen
copy_len lpra maps (o ∷ os) copylen = do
  copylen ← if is_skipped lpra maps o.raix then ok copylen else add_len o copylen
  copy_len lpra maps os copylen

-- `struct smq_phy_page` and `struct smq_invoke_buf`
pub record PhyPage : Type 0 where
  pub addr : ℕ
  pub size : ℕ

pub record InvokeBuf : Type 0 where
  pub num : ℕ
  pub pgidx : ℕ

abbrev pub no_buf : InvokeBuf
no_buf = record { num = 0; pgidx = 0 }

-- What the copy loop reads and does not change. `readable` says whether `copy_from_user` can read
-- that many bytes at that address.
pub record CopyEnv : Type 0 where
  pub kernel : Bool
  pub inbufs : ℕ
  pub lpra : List RemoteArg
  pub maps : List (Option ℕ)
  pub list : List InvokeBuf
  pub phys : ℕ
  pub copylen : ℕ
  pub readable : ℕ → ℕ → Bool

-- A copy of `len` bytes from `src` to `dst`.
pub record Write : Type 0 where
  pub dst : ℕ
  pub src : ℕ
  pub len : ℕ

-- `lrpra[i].buf` is written together with `rpra[i].buf` and has the same value.
pub record CopyState : Type 0 where
  pub args : ℕ
  pub rlen : ℕ
  pub rpra : List RemoteArg
  pub pages : List PhyPage
  pub writes : List Write

-- `if (offset == 0) { rlen -= ALIGN(args, BALIGN) - args; args = ALIGN(args, BALIGN); }`
unfoldable pub realign : Overlap → CopyState → CopyState
realign o s =
    if o.offset == 0
    then record s { rlen = sub64 s.rlen (sub64 (align s.args) s.args); args = align s.args }
    else s

-- K_COPY_FROM_USER for an input buffer
unfoldable pub copy_input : CopyEnv → ℕ → Write → CopyState → Result CopyState
copy_input env i w s =
    if ltb i env.inbufs
    then (do
      verify (env.kernel || env.readable w.src w.len)
      ok (record s { writes = w ∷ s.writes }))
    else ok s

-- One round of "copy non ion buffers", behind its `continue`s.
unfoldable pub copy_arg : CopyEnv → Overlap → CopyState → Result CopyState
unfolding copy_input
copy_arg env o s = do
  let arg = get_or env.lpra o.raix null_arg
  let mlen = sub64 o.mend o.mstart
  let buf = sub64 s.args o.offset
  let page : PhyPage = record {
    addr = buf_page_start (u64 (sub64 env.phys o.offset + sub64 env.copylen s.rlen));
    size = u64 (buf_num_pages buf arg.len * page_size);
  }
  verify (leb mlen s.rlen)
  s ←
      copy_input env o.raix (record { dst = buf; src = arg.pv; len = arg.len })
        (record s {
          rpra = set s.rpra o.raix (record { pv = buf; len = (get_or s.rpra o.raix null_arg).len });
          pages = set s.pages (get_or env.list o.raix no_buf).pgidx page;
        })
  ok (record s { args = u64 (s.args + mlen); rlen = sub64 s.rlen mlen })

unfoldable pub copy_args : CopyEnv → List Overlap → CopyState → Result CopyState
copy_args env [] s = ok s
copy_args env (o ∷ os) s = do
  s ← if is_skipped env.lpra env.maps o.raix then ok s else copy_arg env o (realign o s)
  copy_args env os s
