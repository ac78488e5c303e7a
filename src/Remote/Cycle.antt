-- ===== src/Remote/Cycle.antt =====
-- A request of android/adsprpc.c to map a buffer, followed by the one to unmap it.
use mathlib.Core.Path.{subst}
use reasoned_soc.Prelude.{
  ◌==◌, if◌then◌else◌, ℕ, ◌<◌, ◌≡◌, refl, sym, ap, ◌∙◌, inl, inr, Bool, true, false, none, some,
  ◌∷◌, arith,
}
use reasoned_soc.Errno.{Result, Result-cases, err, ok}
use reasoned_soc.Context.{put}
use reasoned_soc.Context.Invariant.{occurs}
use reasoned_soc.Mapping.{
  Map, Maps, is_heap, file_of, mmap_add, find_map, mmap_find, is_remote_range,
}
use reasoned_soc.Mapping.Fill.{Draft, to_map}
use reasoned_soc.Mapping.Create.{Given, Wanted, fill_plain, fill, draft, with_draft, finish}
use reasoned_soc.Mapping.Search.{mmap_find-err}
use reasoned_soc.Mapping.Owned.{Owns, IsBare, fill_plain-Owns}
use reasoned_soc.Mapping.Failure.{IsPlain, IsUndone, not_found}
use reasoned_soc.Remote.{
  adsp_mmap_add_pages, Host, mmap_on_dsp, Memory, with_maps, find_rbuf, unmap_map, internal_munmap,
}
use reasoned_soc.Buffer.{BufGiven}
use reasoned_soc.Remote.Mmap.{
  MmapIoctl, wanted_of, set_map_raddr, map_created, map_made, map_buffer, internal_mmap,
}
use reasoned_soc.Remote.Undo.{entered, Accepts, entered-IsUndone}
use mathlib.Core.Path.{fun_ext}

put-put : {A : Type 0} (f : ℕ → A) (p : ℕ) (a b : A) → put (put f p a) p b ≡ put f p b
put-put f p a b = fun_ext λ q. ground arith

pub mmap_add-plain :
    (p fl : ℕ) (m : Map) (s : Maps)
    → is_heap m.flags ≡ false
    → m.fl ≡ some fl
    → mmap_add p m s
      ≡ record s { cell = put s.cell p (some m); maps = put s.maps fl (p ∷ s.maps fl) }
unfolding mmap_add
mmap_add-plain p fl m s plain own =
    let at : file_of m ≡ fl = rw own refl in
    simp (mmap_add, plain)
      (ap (λ f. record s { cell = put s.cell p (some m); maps = put s.maps f (p ∷ s.maps f) }) at)

map_created-ok :
    (host : Host) (dev : Bool) (ud : MmapIoctl) (p raddr : ℕ) (m : Map) (s t : Maps)
    → s.cell p ≡ some m
    → map_created host dev ud p s ≡ (ok (some raddr), t)
    → set_map_raddr p raddr m s ≡ t
unfolding map_created
map_created-ok host dev ud p raddr m s t live h =
    elim (Result-cases
      (mmap_on_dsp host ud.flags (if is_heap ud.flags then 0 else m.va) m.phys m.size)) [
        | inl (e, k) ↦ ground (arith, (rw (map_created, live, k) at h))
        | inr (r, k) ↦
            let h' = rw (map_created, live, k) at h in
            let r_eq : r ≡ raddr = ground (arith, h') in
            let t_eq : set_map_raddr p r m s ≡ t = ground (arith, h') in
            subst (λ v. set_map_raddr p v m s ≡ t) r_eq t_eq
      ]

finish_mapped :
    (host : Host) (dev : Bool) (w : Wanted) (ud : MmapIoctl) (p raddr : ℕ) (s t : Maps)
    (x : Result (Unit {0}) × Draft)
    → IsPlain w.mflags
    → Owns (draft w s) x.1
    → map_made host dev ud (finish dev p w s x) ≡ (ok (some raddr), t)
    → (d : Draft) × Owns (draft w s) d × (entered p w raddr d s ≡ t)
unfolding finish map_made
finish_mapped host dev w ud p raddr s t (err e, d) plain o h = ground (arith, h)
finish_mapped host dev w ud p raddr s t (ok done, d) plain o h =
    let m : Map = record d.map { len = w.len } in
    let heap : is_heap d.map.flags ≡ false = rw o.flags plain.0 in
    let added = mmap_add-plain p w.fl m (with_draft p w d s) heap o.fl in
    let live : (mmap_add p m (with_draft p w d s)).cell p ≡ some m =
      ap (λ u. u.cell p) added ∙ ground arith in
    let end = map_created-ok host dev ud p raddr m (mmap_add p m (with_draft p w d s)) t live h in
    let m' = record m { raddr = raddr } in
    let cells : put (put (put s.cell p (some d.map)) p (some m)) p (some m')
        ≡ put s.cell p (some m') =
      put-put (put s.cell p (some d.map)) p (some m) (some m')
      ∙ put-put s.cell p (some d.map) (some m') in
    (
      d,
      o,
      sym (
            ap (λ u. set_map_raddr p raddr m u) added
            ∙ ap (λ c. record (entered p w raddr d s) { cell = c }) cells)
          ∙ end,
    )

map_buffer-mapped :
    (host : Host) (dev : Bool) (g : Given) (w : Wanted) (ud : MmapIoctl) (p raddr : ℕ) (s t : Maps)
    → IsPlain w.mflags
    → w.keep_map ≡ false
    → (w.fd ≡ ud.fd) × (w.va ≡ ud.vaddrin) × (w.len ≡ ud.size) × (w.mflags ≡ ud.flags)
    → 0 < g.dma_address
    → 0 < g.dma_len
    → g.fresh ≡ some p
    → map_buffer host dev g w ud s ≡ (ok (some raddr), t)
    → (d : Draft) × Owns (draft w s) d × (entered p w raddr d s ≡ t)
unfolding map_buffer fill map_made
map_buffer-mapped host dev g w ud p raddr s t plain once (fd, va, len, flags) pos pos_len fresh h =
    elim (Result-cases (mmap_find w.fl ud.fd ud.vaddrin ud.size ud.flags true s).0) [
      | inr (q, found) ↦ ground (arith, (rw (map_buffer, found) at h))
      | inl (e, absent) ↦
          let missing = mmap_find-err w.fl ud.fd ud.vaddrin ud.size ud.flags true s e absent in
          let missing' : (mmap_find w.fl w.fd w.va w.len w.mflags true s).0 ≡ err e =
            rw (fd, va, len, flags) absent in
          let start : IsBare (draft w s) = (refl, refl, refl, refl, refl, refl) in
          let owned : Owns (draft w s) (fill_plain g w (draft w s)).1 =
            subst
              (λ b.
                Owns (if b then to_map (λ m. record m { refs = 2 }) (draft w s) else draft w s)
                  (fill_plain g w (draft w s)).1)
              once (fill_plain-Owns g w (draft w s) pos pos_len start) in
          let is_plain : fill g w (draft w s) ≡ fill_plain g w (draft w s) =
            rw (plain.0, plain.1) refl in
          let made_eq : map_buffer host dev g w ud s
              ≡ map_made host dev ud (finish dev p w s (fill_plain g w (draft w s))) =
            simp (map_buffer, missing)
              (ap (map_made host dev ud)
                (not_found dev g w s p e missing' fresh ∙ ap (finish dev p w s) is_plain)) in
          finish_mapped host dev w ud p raddr s t (fill_plain g w (draft w s)) plain owned
            (sym made_eq ∙ h)
    ]

-- Let `fastrpc_internal_mmap` map a plain buffer anew, at the address `raddr` of the remote processor,
-- with an address from `kzalloc` that is in no list that is searched, with positive DMA addresses and
-- lengths, and let no other mapping of the driver's list and no added pages of the file answer to
-- that address and size. Then `fastrpc_internal_munmap` with that address and size succeeds if the
-- remote processor accepts it, and undoes it all: the mapping is freed, everything that was taken for
-- it is given back, and the lists, the other mappings and the buffers are as they were.
pub internal_mmap-munmap :
    (host host' : Host) (dev dev' : Bool) (bg : BufGiven) (g : Given) (fl vmid : ℕ) (range : ℕ × ℕ)
    (ud : MmapIoctl) (p raddr : ℕ) (s t : Memory)
    → IsPlain ud.flags
    → (ud.flags == adsp_mmap_add_pages) ≡ false
    → 0 < g.dma_address
    → 0 < g.dma_len
    → g.fresh ≡ some p
    → occurs p s.maps.global ≡ 0
    → occurs p (s.maps.maps fl) ≡ 0
    → internal_mmap host dev bg g fl vmid range ud s ≡ (ok (some raddr), t)
    → find_map (is_remote_range raddr ud.size) s.maps.cell s.maps.global ≡ none
    → find_rbuf raddr ud.size s.bufs.cell s.bufs.remote_bufs ≡ none
    → Accepts host'
    → (u : Memory) × (internal_munmap host' dev' fl raddr ud.size t ≡ (ok tt, u))
      × (u.bufs ≡ s.bufs)
      × IsUndone p s.maps u.maps
unfolding internal_mmap internal_munmap
internal_mmap-munmap host host' dev dev' bg g fl vmid range ud p raddr s t plain buffer pos pos_len
      fresh out outs h other no_rbuf accepts =
    let w = wanted_of fl vmid range ud in
    let h' : with_maps s (map_buffer host dev g w ud s.maps) ≡ (ok (some raddr), t) =
      rw (internal_mmap, buffer) at h in
    let bufs : s.bufs ≡ t.bufs = ap (λ x. x.1.bufs) h' in
    let (d, o, t_eq) =
      map_buffer-mapped host dev g w ud p raddr s.maps t.maps plain refl (refl, refl, refl, refl)
        pos pos_len fresh (ap (λ x. (x.0, x.1.maps)) h') in
    let (v, run, undone) =
      entered-IsUndone host' dev' p w raddr d s.maps plain o out outs other accepts in
    let gone : unmap_map host' dev' fl raddr ud.size t.maps ≡ (ok tt, v) =
      subst (λ x. unmap_map host' dev' fl raddr ud.size x ≡ (ok tt, v)) t_eq run in
    let none_there : find_rbuf raddr ud.size t.bufs.cell t.bufs.remote_bufs ≡ none =
      subst (λ b. find_rbuf raddr ud.size b.cell b.remote_bufs ≡ none) bufs no_rbuf in
    (record t { maps = v }, simp (internal_munmap, none_there, gone), sym bufs, undone)
