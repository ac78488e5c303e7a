-- ===== src/Mapping/Owned.antt =====
-- What a mapping of android/adsprpc.c holds, at every step of its making.
use reasoned_soc.Prelude.{
  ◌==◌, if◌then◌else◌, Bool-cases, Option-cases, ℕ, ◌<◌, ◌≡◌, refl, inl, inr, Bool, false, not,
  ◌&&◌, ◌||◌, some, arith,
}
use reasoned_soc.Errno.{Result, err, ok}
use reasoned_soc.Session.{Session}
use reasoned_soc.Mapping.{more, session_of, is_enabled}
use reasoned_soc.Mapping.Fill.{◌>>=◌, ◌>>◌, Draft, Fill, attempt, update, to_map, given}
use reasoned_soc.Mapping.Create.{
  Given, Wanted, fill_plain, fill_attached, fill_secured, import, open_secure, pick_session,
  attach_buf, map_table, place,
}

abbrev pub is_mapped : Draft → Bool
is_mapped d =
    is_enabled (session_of d.map.secure d.sessions)
    && (not (d.map.size == 0) || not (d.map.phys == 0))

-- Beyond what is held in the draft `h`, exactly what the mapping of `d` has is held, and the mapping
-- has the flags, the references and the file of that of `h`.
pub record Owns (h d : Draft) : Type 0 where
  pub regions : d.held.regions ≡ h.held.regions
  pub handles : d.held.handles ≡ more d.map.handle h.held.handles
  pub bufs : d.held.bufs ≡ more d.map.buf h.held.bufs
  pub attaches : d.held.attaches ≡ more d.map.attach h.held.attaches
  pub tables : d.held.tables ≡ more d.map.table h.held.tables
  pub mapped : d.held.mapped ≡ more (is_mapped d) h.held.mapped
  pub flags : d.map.flags ≡ h.map.flags
  pub refs : d.map.refs ≡ h.map.refs
  pub fl : d.map.fl ≡ h.map.fl

-- A draft whose mapping has nothing yet.
abbrev pub IsBare : Draft → Type 0
IsBare d =
    (d.map.handle ≡ false)
    × (d.map.buf ≡ false)
    × (d.map.attach ≡ false)
    × (d.map.table ≡ false)
    × (d.map.phys ≡ 0)
    × (d.map.size ≡ 0)

-- A mapping that is not attached and not mapped yet.
abbrev pub IsLoose : Draft → Type 0
IsLoose d =
    (d.map.buf ≡ false)
    × (d.map.attach ≡ false)
    × (d.map.table ≡ false)
    × (d.map.phys ≡ 0)
    × (d.map.size ≡ 0)

abbrev pub IsUnmapped : Session → Draft → Type 0
IsUnmapped sess d =
    (d.map.phys ≡ 0) × (d.map.size ≡ 0) × (session_of d.map.secure d.sessions ≡ some sess)

-- The outcome of a step: `Q` with its value, or `E` with its error.
abbrev pub After :
    {A : Type 0} → (A → Draft → Type 0) → (Draft → Type 0) → Result A × Draft → Type 0
After Q E (err e, d) = E d
After Q E (ok a, d) = Q a d

-- A step and what follows it.
Owns-bind :
    {A B : Type 0} (h : Draft) (f : Fill A) (g : A → Fill B) (d : Draft) (Q : A → Draft → Type 0)
    → After Q (Owns h) (f d)
    → ((a : A) (d' : Draft) → Q a d' → Owns h (g a d').1)
    → Owns h ((f >>= g) d).1
unfolding ◌>>=◌
Owns-bind {A} {B} h f g d Q first rest = go (f d) first
  where
    go :
        (x : Result A × Draft)
        → After Q (Owns h) x
        → Owns h (elim x.0 as (λ r. Result B × Draft) [ err e ↦ (err e, x.1) | ok a ↦ g a x.1 ]).1
    go (err e, d') k = k
    go (ok a, d') k = rest a d' k

import-After :
    (g : Given) (h : Draft) (d : Draft)
    → Owns h d
    → IsBare d
    → After (λ u d'. Owns h d' × IsLoose d') (Owns h) (import g d)
unfolding import ◌>>=◌ attempt update
import-After g h d o (a, b, c, t, p, z) = elim (Bool-cases g.handle) [
  | inl e ↦ rw e (
      ground (
        arith, e, o.regions, o.handles, o.bufs, o.attaches, o.tables, o.mapped, o.flags, o.refs,
        o.fl,
      ))
  | inr e ↦ rw e (
      ground (
        arith, e, o.regions, o.handles, o.bufs, o.attaches, o.tables, o.mapped, o.flags, o.refs,
        o.fl,
      ))
]

open_secure-After :
    (g : Given) (secure : Bool) (h : Draft) (d : Draft)
    → Owns h d
    → IsLoose d
    → d.map.secure ≡ secure
    → After
        (λ u d'. Owns h d' × IsLoose d' × (d'.map.secure ≡ secure))
        (Owns h)
        (open_secure g secure d)
unfolding open_secure
open_secure-After g secure h d o (b, c, t, p, z) same =
    ground
      (arith, o.regions, o.handles, o.bufs, o.attaches, o.tables, o.mapped, o.flags, o.refs, o.fl)

pick_session-After :
    (secure : Bool) (h : Draft) (d : Draft)
    → d.map.secure ≡ secure
    → Owns h d
    → IsLoose d
    → After
        (λ sess d'. Owns h d' × IsLoose d' × IsUnmapped sess d')
        (Owns h)
        (pick_session secure d)
unfolding pick_session
pick_session-After secure h d same o loose = elim (Option-cases (session_of secure d.sessions)) [
  | inl e ↦ rw e o
  | inr (sess, e) ↦ rw e (o, loose, (loose.3, loose.4, rw same e))
]

attach_buf-After :
    (g : Given) (sess : Session) (h : Draft) (d : Draft)
    → Owns h d
    → IsLoose d
    → IsUnmapped sess d
    → After (λ n d'. Owns h d' × IsUnmapped sess d') (Owns h) (attach_buf g d)
unfolding attach_buf ◌>>=◌ attempt update
attach_buf-After g sess h d o (b, c, t, p, z) u =
    ground (
      arith, u, o.regions, o.handles, o.bufs, o.attaches, o.tables, o.mapped, o.flags, o.refs, o.fl,
    )

map_table-After :
    (g : Given) (sess : Session) (n : ℕ) (h : Draft) (d : Draft)
    → 0 < g.dma_address
    → Owns h d
    → IsUnmapped sess d
    → After (λ u d'. Owns h d' × (d'.map.phys ≡ g.dma_address)) (Owns h) (map_table g sess n d)
unfolding map_table ◌>>=◌ attempt update
map_table-After g sess n h d pos o (p, z, e) =
    ground (
      arith, e, o.regions, o.handles, o.bufs, o.attaches, o.tables, o.mapped, o.flags, o.refs, o.fl,
    )

place-After :
    (g : Given) (w : Wanted) (sess : Session) (h : Draft) (d : Draft)
    → 0 < g.dma_address
    → 0 < g.dma_len
    → Owns h d
    → d.map.phys ≡ g.dma_address
    → After (λ u d'. Owns h d') (Owns h) (place g w sess d)
unfolding place ◌>>=◌ attempt update
place-After g w sess h d pos len o p =
    ground (
      arith, p, o.regions, o.handles, o.bufs, o.attaches, o.tables, o.mapped, o.flags, o.refs, o.fl,
    )

-- The steps behind the choice of the session.
After-Owns :
    (h : Draft) (x : Result (Unit {0}) × Draft) → After (λ u d'. Owns h d') (Owns h) x → Owns h x.1
After-Owns h (err e, d) k = k
After-Owns h (ok u, d) k = k

fill_attached-Owns :
    (g : Given) (w : Wanted) (cached : Bool) (sess : Session) (h : Draft) (d : Draft)
    → 0 < g.dma_address
    → 0 < g.dma_len
    → Owns h d
    → IsLoose d
    → IsUnmapped sess d
    → Owns h (fill_attached g w cached sess d).1
unfolding fill_attached ◌>>=◌ update
fill_attached-Owns g w cached sess h d pos len o loose un =
    let d1 = to_map (λ m. record m { uncached = not cached || (w.nova && not sess.coherent) }) d in
    let o1 : Owns h d1 = ground (
      arith, o.regions, o.handles, o.bufs, o.attaches, o.tables, o.mapped, o.flags, o.refs, o.fl,
    ) in
    Owns-bind h (attach_buf g) (λ n. map_table g sess n >> place g w sess) d1
      (λ n d'. Owns h d' × IsUnmapped sess d') (attach_buf-After g sess h d1 o1 loose un)
      λ n d2 (o2, un2).
        Owns-bind h (map_table g sess n) (λ u. place g w sess) d2
          (λ u d'. Owns h d' × (d'.map.phys ≡ g.dma_address))
          (map_table-After g sess n h d2 pos o2 un2)
          λ u d3 (o3, p3).
            After-Owns h (place g w sess d3) (place-After g w sess h d3 pos len o3 p3)

-- The session is chosen, and the mapping is attached.
fill_secured-Owns :
    (g : Given) (w : Wanted) (secure cached : Bool) (h : Draft) (d : Draft)
    → 0 < g.dma_address
    → 0 < g.dma_len
    → Owns h d
    → IsLoose d
    → Owns h (fill_secured g w (secure, cached) d).1
unfolding fill_secured ◌>>=◌ update
fill_secured-Owns g w secure cached h d pos len o (b, c, t, p, z) =
    let d3 = to_map (λ m. record m { secure = secure }) d in
    let o3 : Owns h d3 = ground (
      arith, o.regions, o.handles, o.bufs, o.attaches, o.tables, o.mapped, o.flags, o.refs, o.fl,
    ) in
    Owns-bind h (open_secure g secure) (λ u. pick_session secure >>= fill_attached g w cached) d3
      (λ u d'. Owns h d' × IsLoose d' × (d'.map.secure ≡ secure))
      (open_secure-After g secure h d3 o3 (b, c, t, p, z) refl)
      λ u d4 (o4, l4, s4).
        Owns-bind h (pick_session secure) (fill_attached g w cached) d4
          (λ sess d'. Owns h d' × IsLoose d' × IsUnmapped sess d')
          (pick_session-After secure h d4 s4 o4 l4)
          λ sess d5 (o5, l5, u5). fill_attached-Owns g w cached sess h d5 pos len o5 l5 u5

flags_After :
    (g : Given) (h : Draft) (d : Draft)
    → Owns h d
    → IsLoose d
    → After (λ flags d'. Owns h d' × IsLoose d') (Owns h) (attempt (given g.ion_flags) d)
unfolding attempt
flags_After g h d o l = elim (Option-cases g.ion_flags) [
  | inl e ↦ rw e o
  | inr (flags, e) ↦ rw e (o, l)
]

-- The draft behind the first step of a plain mapping.
abbrev pub kept : Wanted → Draft → Draft
kept w d = if w.keep_map then to_map (λ m. record m { refs = 2 }) d else d

bare-Owns : (d : Draft) → IsBare d → Owns d d
bare-Owns d (a, b, c, t, p, z) = ground arith

pub fill_plain-Owns :
    (g : Given) (w : Wanted) (d : Draft)
    → 0 < g.dma_address
    → 0 < g.dma_len
    → IsBare d
    → Owns (kept w d) (fill_plain g w d).1
unfolding fill_plain ◌>>=◌ update attempt
fill_plain-Owns g w d pos len bare =
    let h = kept w d in
    let b1 : IsBare h = ground (arith, bare) in
    Owns-bind h (import g) (λ u. attempt (given g.ion_flags) >>= fill_secured g w) h
      (λ u d'. Owns h d' × IsLoose d') (import-After g h h (bare-Owns h b1) b1)
      λ u d2 (o2, l2).
        Owns-bind h (attempt (given g.ion_flags)) (fill_secured g w) d2
          (λ flags d'. Owns h d' × IsLoose d') (flags_After g h d2 o2 l2)
          λ (secure, cached) d3 (o3, l3). fill_secured-Owns g w secure cached h d3 pos len o3 l3
