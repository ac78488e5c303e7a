-- ===== src/Remote/Heap.antt =====
-- The remote heap of android/adsprpc.c when the remote processor or its protection domain restarts:
-- `fastrpc_mmap_remove_ssr`, `fastrpc_get_adsp_session` and `fastrpc_mmap_remove_pdr`.
use reasoned_soc.Prelude.{
  ◌==◌, if◌then◌else◌, set, get_or, ℕ, zero, suc, ◌+◌, Bool, false, not, ◌&&◌, Option, none, some,
  List, [], ◌∷◌,
}
use reasoned_soc.Errno.{Result, failed, enotconn, err, ok}
use reasoned_soc.Mapping.{Maps, mmap_add, mmap_free}
use reasoned_soc.Context.{put}
use reasoned_soc.Remote.{Host, munmap_on_dsp_rh}

-- One pass of the loop: the first mapping `p` is out of the list and goes back if it fails.
unfoldable pub remove_first : Host → Bool → ℕ → Maps → Result (Unit {0}) × Maps
remove_first host dev p s = elim (s.cell p) [
  | none ↦ (err failed, s)
  | some m ↦ elim (munmap_on_dsp_rh host m.phys m.size m.flags) [
    | err e ↦ (err failed, mmap_add p m s)
    | ok done ↦ (ok tt, mmap_free dev p false s)
  ]
]

-- The loop, on fuel; the dump of the memory, whose outcome is only printed, is left out.
unfoldable pub mmap_remove_ssr : ℕ → Host → Bool → Maps → Option (Result (Unit {0}) × Maps)
mmap_remove_ssr zero host dev s = none
mmap_remove_ssr (suc fuel) host dev s = elim s.global [
  | [] ↦ some (ok tt, s)
  | p ∷ ps ↦
      let (r, s') = remove_first host dev p (record s { global = ps }) in
      let rest = mmap_remove_ssr fuel host dev s' in
      elim r [ err e ↦ some (err e, s') | ok done ↦ rest ]
]

-- `struct fastrpc_static_pd`; a name is a number here, and 0 is no name.
pub record StaticPd : Type 0 where
  pub spdname : ℕ
  pub pdrcount : ℕ
  pub prevpdrcount : ℕ
  pub ispdup : Bool

-- The loop of `fastrpc_get_adsp_session` over the protection domains from index `i` on.
unfoldable pub find_spd : ℕ → ℕ → List StaticPd → Option ℕ
find_spd name i [] = none
find_spd name i (d ∷ ds) =
    if not (d.spdname == 0) && (d.spdname == name) then some i else find_spd name (i + 1) ds

unfoldable pub get_adsp_session : ℕ → List StaticPd → Result ℕ
get_adsp_session name spds = elim (find_spd name 0 spds) [ none ↦ err failed | some i ↦ ok i ]

-- AUDIO_PDR_SERVICE_LOCATION_CLIENT_NAME
abbrev pub audio_pdr : ℕ
audio_pdr = 1

abbrev pub no_spd : StaticPd
no_spd = record { spdname = 0; pdrcount = 0; prevpdrcount = 0; ispdup = false }

-- The restart of the domain is taken note of, whether or not the heap could be unmapped.
unfoldable pub note_restart : ℕ → ℕ → (ℕ → List StaticPd) → (ℕ → List StaticPd)
note_restart cid session spd =
    let d = get_or (spd cid) session no_spd in
    put spd cid (set (spd cid) session (record d { prevpdrcount = d.pdrcount }))

-- The result, with the protection domains of each channel and the mappings; `none` is a loop that
-- goes on. The heap is looked up by the domains of channel 0, and used by those of the file's.
unfoldable pub mmap_remove_pdr :
    ℕ
    → Host
    → Bool
    → ℕ
    → (ℕ → List StaticPd)
    → Maps
    → Option (Result (Unit {0}) × (ℕ → List StaticPd) × Maps)
mmap_remove_pdr fuel host dev cid spd s = elim (get_adsp_session audio_pdr (spd 0)) [
  | err e ↦ some (err failed, spd, s)
  | ok session ↦
      let d = get_or (spd cid) session no_spd in
      let up = if d.ispdup then ok tt else err enotconn in
      if d.pdrcount == d.prevpdrcount
      then some (up, spd, s)
      else elim (mmap_remove_ssr fuel host dev s) [
        | none ↦ none
        | some (r, s') ↦ some (up, note_restart cid session spd, s')
      ]
]
