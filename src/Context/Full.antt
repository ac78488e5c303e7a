-- ===== src/Context/Full.antt =====
-- `context_alloc` of android/adsprpc.c when every entry of the table is in use.
use reasoned_soc.Prelude.{
  get_elem?, ℕ, suc, ◌≡◌, refl, ap, ◌≢◌, Option, none, some, List, [], ◌∷◌, arith,
}
use reasoned_soc.Context.{Ctx, Contexts, clear_entry, context_free, enter_pending}
use reasoned_soc.Context.Invariant.{IsConsistent, occurs-unlink}

-- A context that is in no entry is cleared from none.
clear_entry_absent :
    (p : ℕ) (entries : List (Option ℕ))
    → ((i : ℕ) → get_elem? entries i ≢ some (some p))
    → clear_entry p entries ≡ entries
unfolding clear_entry
clear_entry_absent p [] out = refl
clear_entry_absent p (none ∷ entries) out =
    ap (λ x. none ∷ x) (clear_entry_absent p entries (λ i. out (suc i)))
clear_entry_absent p (some q ∷ entries) out =
    let rest = clear_entry_absent p entries (λ i. out (suc i)) in ground (arith, out 0, rest)

-- A dead context is in no entry.
pub dead-absent :
    (s : Contexts) (p : ℕ)
    → IsConsistent s
    → s.cell p ≡ none
    → (i : ℕ) → get_elem? s.table i ≢ some (some p)
dead-absent s p v dead i h = let (c, live, _, _) = v.entries i p h in ground (arith, dead, live)

pub clear_entry-dead :
    (s : Contexts) (p : ℕ) → IsConsistent s → s.cell p ≡ none → clear_entry p s.table ≡ s.table
clear_entry-dead s p v dead = clear_entry_absent p s.table (dead-absent s p v dead)

pub full-IsConsistent :
    (s : Contexts) (p : ℕ) (c : Ctx)
    → IsConsistent s
    → s.cell p ≡ none
    → IsConsistent (context_free p (enter_pending p c s))
unfolding context_free
full-IsConsistent s p c v dead =
    let same = clear_entry-dead s p v dead in
    let live : (enter_pending p c s).cell p ≡ some c = ground arith in
    rw (context_free, live, same)
      (record {
        size = v.size;
        entries = λ i q h.
            let (d, live', id, m) = v.entries i q h in (d, ground (arith, live', dead), id, m);
        entered = λ q d h. v.entered q d (ground (arith, h));
        listed = λ f q. ground (
          arith,
          v.listed f q,
          v.listed f p,
          occurs-unlink p q (s.clst f).pending,
          occurs-unlink p q (s.clst f).interrupted,
          occurs-unlink p q (p ∷ (s.clst f).pending),
          dead,
        );
      })
