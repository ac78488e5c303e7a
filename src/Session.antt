-- ===== src/Session.antt =====
-- Sessions of a channel (the SMMU context banks that open files use), in android/adsprpc.c:
-- `fastrpc_session_alloc_locked`, `fastrpc_session_alloc`, `fastrpc_session_free`, and
-- `fastrpc_get_info`, which binds an open file to a channel and a session.
pub mod Alloc
mod Examples
pub mod Info
pub mod Owners
pub mod Shared
use reasoned_soc.Prelude.{
  ltb, ◌==◌, if◌then◌else◌, same_flag, set, get_or, ℕ, zero, suc, ◌+◌, Bool, true, false, not, ◌&&◌,
  ◌||◌, Option, none, some, List, [], ◌∷◌,
}
use reasoned_soc.Errno.{Result, ◌>>=◌, ◌>>◌, verify, failed, eperm, err, ok}

-- `struct fastrpc_session_ctx` with its `struct fastrpc_smmu`; the devices are left out.
pub record Session : Type 0 where
  pub used : Bool
  pub secure : Bool
  pub sharedcb : Bool
  pub enabled : Bool
  pub coherent : Bool
  pub cb : ℕ
  pub faults : ℕ

-- The fields of `struct fastrpc_channel_ctx` that concern sessions. `secure` says that the channel
-- is restricted to the secure device node.
pub record Channel : Type 0 where
  pub session : List Session
  pub sesscount : ℕ
  pub ssrcount : ℕ
  pub secure : Bool

abbrev pub no_session : Session
no_session = record {
  used = false;
  secure = false;
  sharedcb = false;
  enabled = false;
  coherent = false;
  cb = 0;
  faults = 0;
}

-- Whether the loop of `fastrpc_session_alloc_locked` takes the session.
abbrev pub fits : Bool → Bool → Session → Bool
fits secure sharedcb s =
    (sharedcb && s.sharedcb) || (not s.used && same_flag s.secure secure && not sharedcb)

-- The index of the first session that fits, among those from index `idx` on.
unfoldable pub find_session : Bool → Bool → ℕ → ℕ → List Session → Option ℕ
find_session secure sharedcb idx count [] = none
find_session secure sharedcb idx zero (s ∷ ss) = none
find_session secure sharedcb idx (suc count) (s ∷ ss) =
    let rest = find_session secure sharedcb (idx + 1) count ss in
    if fits secure sharedcb s then some idx else rest

-- `dev` says whether `me->dev` is set.
unfoldable pub session_alloc_locked : Bool → Channel → Bool → Bool → Result (ℕ × Channel)
session_alloc_locked dev chan secure sharedcb =
    if chan.sesscount == 0
    then (do verify dev; ok (0, chan))
    else elim (find_session secure sharedcb 0 chan.sesscount chan.session) [
      | none ↦ err failed
      | some idx ↦
          let s = get_or chan.session idx no_session in
          ok (
            idx,
            record chan { session = set chan.session idx (record s { used = true; faults = 0 }) },
          )
    ]

-- `*session` is the index of the session, if there is one.
unfoldable pub session_alloc : Bool → Channel → Bool → Option ℕ → Result (Option ℕ × Channel)
session_alloc dev chan secure none = do
  (idx, chan) ← session_alloc_locked dev chan secure false
  ok (some idx, chan)
session_alloc dev chan secure (some idx) = ok (some idx, chan)

unfoldable pub session_free : Channel → ℕ → Channel
session_free chan idx = record chan {
  session = set chan.session idx (record (get_or chan.session idx no_session) { used = false });
}

-- The fields of `struct fastrpc_file` that `fastrpc_get_info` reads and writes. `cid` is `none` for
-- -1, and `secure_node` says that the file was opened on the secure device node.
pub record FileBinding : Type 0 where
  pub cid : Option ℕ
  pub sctx : Option ℕ
  pub sharedcb : Bool
  pub ssrcount : ℕ
  pub secure_node : Bool

abbrev pub num_channels : ℕ
num_channels = 4

abbrev pub no_channel : Channel
no_channel = record { session = []; sesscount = 0; ssrcount = 0; secure = false }

-- The file, the channels and the result, which is `*info` on success.
abbrev pub Info : Type 0
Info = Result Bool × FileBinding × List Channel

-- `VERIFY(err, fl->sctx != NULL)` and `*info = fl->sctx->smmu.enabled ? 1 : 0`
unfoldable pub report_info : FileBinding → List Channel → ℕ → Info
report_info fl chans cid = elim fl.sctx [
  | none ↦ (err failed, fl, chans)
  | some idx ↦ (ok (get_or (get_or chans cid no_channel).session idx no_session).enabled, fl, chans)
]

-- `fl->cid = cid` and what follows it.
unfoldable pub bind_channel : Bool → FileBinding → List Channel → ℕ → Info
unfolding session_alloc_locked report_info
bind_channel dev fl chans cid =
    let chan = get_or chans cid no_channel in
    let fl = record fl { cid = some cid; ssrcount = chan.ssrcount } in
    elim (session_alloc_locked dev chan false fl.sharedcb) [
      | err e ↦ (err failed, fl, chans)
      | ok (idx, chan') ↦ report_info (record fl { sctx = some idx }) (set chans cid chan') cid
    ]

-- `info` is `*info` on the way in, the channel that is asked for.
unfoldable pub get_info : Bool → FileBinding → List Channel → ℕ → Info
unfolding bind_channel
get_info dev fl chans info = elim fl.cid [
  | some cid ↦ report_info fl chans cid
  | none ↦
      if not (ltb info num_channels)
      then (err failed, fl, chans)
      else if not fl.secure_node && (get_or chans info no_channel).secure
      then (err eperm, fl, chans)
      else bind_channel dev fl chans info
]
