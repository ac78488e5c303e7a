-- ===== src/Context/Deliver.antt =====
-- Which context a response reaches, in the handlers of android/adsprpc.c.
use reasoned_soc.Prelude.{
  ltb, ◌==◌, if◌then◌else◌, Bool-cases, Option-cases, get_elem?, ℕ, zero, suc, ◌+◌, ◌/◌, ◌<◌, ◌≡◌,
  refl, ◌≢◌, ◌⊎◌, inl, inr, true, false, ◌&&◌, Option, none, some, List, [], ◌∷◌, arith,
}
use reasoned_soc.Errno.{failed, err, ok}
use reasoned_soc.Context.{ctx_max, ctx_magic, Ctx, Contexts, ctxid_of, context_free}
use reasoned_soc.Context.Ids.{index_of, id_of, header_lem, clear_entry_frees}
use reasoned_soc.Context.Response.{Rsp, context_notify_user, entry_at, deliver}
use reasoned_soc.Context.Invariant.{IsConsistent, get_elem?-lt, entry_once}

-- The word that goes out with the message of the context `p` in the entry `i`, for the domain `pd`.
abbrev pub header : ℕ → ℕ → ℕ → ℕ
header p i pd = ctxid_of p i + pd

entry_at-some :
    (entries : List (Option ℕ)) (i p : ℕ)
    → entry_at entries i ≡ some p
    → get_elem? entries i ≡ some (some p)
entry_at-some [] i p h = ground arith
entry_at-some (x ∷ xs) zero p h = ground (arith, h)
entry_at-some (x ∷ xs) (suc i) p h = entry_at-some xs i p h

entry_at_entry :
    (entries : List (Option ℕ)) (i : ℕ) (e : Option ℕ)
    → get_elem? entries i ≡ some e
    → entry_at entries i ≡ e
entry_at_entry [] i e h = ground arith
entry_at_entry (x ∷ xs) zero e h = ground (arith, h)
entry_at_entry (x ∷ xs) (suc i) e h = entry_at_entry xs i e h

-- The handler's checks passed for `p`.
pub record IsMatch (rsp : Rsp) (s : Contexts) (p : ℕ) (c : Ctx) : Type 0 where
  pub entry : get_elem? s.table (index_of rsp.ctx) ≡ some (some p)
  pub live : s.cell p ≡ some c
  pub id : c.ctxid ≡ id_of rsp.ctx
  pub magic : c.magic ≡ ctx_magic

-- A response is refused, or it wakes the context that the checks found.
pub deliver_cases :
    (rsp : Rsp) (s : Contexts)
    → (deliver rsp s ≡ err failed)
      ⊎ ((p : ℕ) × (c : Ctx) × IsMatch rsp s p c
          × (deliver rsp s ≡ ok (context_notify_user p rsp.retval s)))
unfolding deliver
deliver_cases rsp s =
    let below : ltb (index_of rsp.ctx) ctx_max ≡ true = ground arith in
    elim (Option-cases (entry_at s.table (index_of rsp.ctx))) [
      | inl e ↦ inl (rw (deliver, below, e) refl)
      | inr (p, e) ↦ elim (Option-cases (s.cell p)) [
        | inl f ↦ inl (rw (deliver, below, e, f) refl)
        | inr (c, f) ↦ elim (Bool-cases ((c.ctxid == id_of rsp.ctx) && (c.magic == ctx_magic))) [
          | inr g ↦ inl (rw (deliver, below, e, f, g) refl)
          | inl g ↦ inr (
            p,
            c,
            record {
              entry = entry_at-some s.table (index_of rsp.ctx) p e;
              live = f;
              id = ground (arith, g);
              magic = ground (arith, g);
            },
            rw (deliver, below, e, f, g) refl,
          )
        ]
      ]
    ]

matched :
    (rsp : Rsp) (s : Contexts) (p : ℕ) (c : Ctx)
    → IsMatch rsp s p c
    → deliver rsp s ≡ ok (context_notify_user p rsp.retval s)
unfolding deliver
matched rsp s p c m =
    let below : ltb (index_of rsp.ctx) ctx_max ≡ true = ground arith in
    let at = entry_at_entry s.table (index_of rsp.ctx) (some p) m.entry in
    let pass : ((c.ctxid == id_of rsp.ctx) && (c.magic == ctx_magic)) ≡ true =
      ground (arith, m.id, m.magic) in
    rw (deliver, below, at, m.live, pass) refl

mismatched :
    (rsp : Rsp) (s : Contexts) (p : ℕ) (c : Ctx)
    → get_elem? s.table (index_of rsp.ctx) ≡ some (some p)
    → s.cell p ≡ some c
    → c.ctxid ≢ id_of rsp.ctx
    → deliver rsp s ≡ err failed
unfolding deliver
mismatched rsp s p c entry live ne =
    let below : ltb (index_of rsp.ctx) ctx_max ≡ true = ground arith in
    let at = entry_at_entry s.table (index_of rsp.ctx) (some p) entry in
    let fail : ((c.ctxid == id_of rsp.ctx) && (c.magic == ctx_magic)) ≡ false =
      ground (arith, ne) in
    rw (deliver, below, at, live, fail) refl

-- Whatever word a channel delivers, also one that no message had: a response that is accepted
-- completes a live context whose identifier it carries, with its value, and no other context
-- changes, nor the table, nor any list.
pub deliver_sound :
    (rsp : Rsp) (s t : Contexts)
    → deliver rsp s ≡ ok t
    → (p : ℕ) × (c : Ctx) × (s.cell p ≡ some c)
      × (c.ctxid ≡ id_of rsp.ctx)
      × (t.cell p ≡ some (record c { retval = rsp.retval; completed = true }))
      × ((q : ℕ) → q ≢ p → t.cell q ≡ s.cell q)
      × (t.table ≡ s.table)
      × (t.clst ≡ s.clst)
unfolding context_notify_user
deliver_sound rsp s t h = elim (deliver_cases rsp s) [
  | inl f ↦ ground (arith, h, f)
  | inr (p, c, m, f) ↦
      let t_eq : context_notify_user p rsp.retval s ≡ t = ground (arith, h, f) in
      rw (← t_eq, context_notify_user, m.live)
        (p, c, m.live, m.id, ground arith, (λ q ne. ground arith), refl, refl)
]

-- In a consistent state, the response to the message of a context in the entry `i`, with any of the
-- four protection domains in its low bits, when the live context `q` is in that entry by now: if
-- `q` is in the same 4 KiB page of memory as the context `p` that the message was sent for, the two
-- have the same identifier and `q` is completed with the response's value, be it `p` or another; if
-- it is in another page, the response is refused.
pub deliver-header :
    (s : Contexts) (p q i pd retval : ℕ)
    → IsConsistent s
    → get_elem? s.table i ≡ some (some q)
    → pd < 4
    → deliver (record { ctx = header p i pd; retval = retval }) s
      ≡ (if p / 0x1000 == q / 0x1000 then ok (context_notify_user q retval s) else err failed)
unfolding ctxid_of
deliver-header s p q i pd retval v at low =
    let (c, live, id, magic) = v.entries i q at in
    let lt : i < ctx_max = omega (arith, get_elem?-lt s.table i (some q) at, v.size) in
    let (i_eq, p_eq) = header_lem p i pd lt low in
    let rsp : Rsp = record { ctx = header p i pd; retval = retval } in
    let entry : get_elem? s.table (index_of (header p i pd)) ≡ some (some q) = rw i_eq at in
    elim (Bool-cases (p / 0x1000 == q / 0x1000)) [
      | inl e ↦
          let same : p / 0x1000 ≡ q / 0x1000 = ground (arith, e) in
          rw e (
            matched rsp s q c (record {
              entry = entry;
              live = live;
              id = omega (arith, id, p_eq, same);
              magic = magic;
            }))
      | inr e ↦
          let other : p / 0x1000 ≢ q / 0x1000 = λ w. ground (arith, w, e) in
          rw e (mismatched rsp s q c entry live (λ w. other (omega (arith, id, p_eq, w, lt))))
    ]

unentered :
    (rsp : Rsp) (s : Contexts)
    → get_elem? s.table (index_of rsp.ctx) ≡ some none
    → deliver rsp s ≡ err failed
unfolding deliver
unentered rsp s entry =
    let below : ltb (index_of rsp.ctx) ctx_max ≡ true = ground arith in
    let at = entry_at_entry s.table (index_of rsp.ctx) none entry in rw (deliver, below, at) refl

-- In a consistent state, once a context of the table is freed, its entry of the table is free, and a response to its message is refused.
pub deliver_freed :
    (s : Contexts) (p i pd retval : ℕ)
    → IsConsistent s
    → get_elem? s.table i ≡ some (some p)
    → pd < 4
    → (get_elem? (context_free p s).table i ≡ some none)
      × (deliver (record { ctx = header p i pd; retval = retval }) (context_free p s) ≡ err failed)
unfolding context_free
deliver_freed s p i pd retval v at low =
    let (c, live, _, _) = v.entries i p at in
    let lt : i < ctx_max = omega (arith, get_elem?-lt s.table i (some p) at, v.size) in
    let (i_eq, p_eq) = header_lem p i pd lt low in
    let cleared = clear_entry_frees p s.table i (λ j k a b. entry_once s p j k v a b) at in
    let free : get_elem? (context_free p s).table i ≡ some none = rw (context_free, live) cleared in
    let rsp : Rsp = record { ctx = header p i pd; retval = retval } in
    (free, unentered rsp (context_free p s) (rw i_eq free))
