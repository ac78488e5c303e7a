-- ===== src/Channel/Joined.antt =====
-- The users of a channel of android/adsprpc.c behind an opening.
use reasoned_soc.Prelude.{
  Bool-cases, Option-cases, All, ℕ, ◌+◌, ◌-◌, ◌^◌, ◌≤◌, ◌<◌, ◌≡◌, refl, sym, ap, ◌∙◌, inl, inr,
  true, none, List, [], ◌∷◌, ◌++◌, arith,
}
use reasoned_soc.Channel.{ChannelCtx, FileCtx, handle}
use reasoned_soc.Channel.Open.{Opening}
use reasoned_soc.Channel.Kept.{SameUse}
use reasoned_soc.Channel.Users.{
  is_user, count_user, users, System, IsOpen, IsSettled, Use, Agrees, IsUsedBy, users-++,
  users_same, All-split, All-join,
}
use reasoned_soc.Channel.Contract.{IsReferenced, IsTried}
use mathlib.Core.Path.{subst}

abbrev pub Past : ChannelCtx → FileCtx → Type 0
Past c f = (f.refcount ≡ true) → f.ssrcount ≤ c.ssrcount

-- Where the count of restarts is the same, the files of the past are.
pub Past-same :
    (c d : ChannelCtx) (fs : List FileCtx)
    → d.ssrcount ≡ c.ssrcount
    → All (Past c) fs
    → All (Past d) fs
Past-same c d fs same h =
    subst (λ n. All (λ f. (f.refcount ≡ true) → f.ssrcount ≤ n) fs) (sym same) h

pub Past-later :
    (c d : ChannelCtx) (fs : List FileCtx)
    → c.ssrcount ≤ d.ssrcount
    → All (Past c) fs
    → All (Past d) fs
Past-later c d [] later h = tt
Past-later c d (f ∷ fs) later h =
    ((λ marked. omega (arith, h.0 marked, later)), Past-later c d fs later h.1)

-- A channel whose handle, references and restarts are the same keeps its users.
pub same-IsUsedBy :
    (s : System) (d : ChannelCtx) (u : ℕ × ℕ)
    → SameUse s.ctx d
    → IsUsedBy s u
    → IsUsedBy (record s { ctx = d }) u
same-IsUsedBy s d u (a, b, r) v = record {
  count = users_same s.ctx d s.files r ∙ v.count;
  agrees =
      subst (λ k. Agrees d.chan k (u.0 + u.1)) (sym b)
        (subst (λ h. Agrees h s.ctx.kref (u.0 + u.1)) (sym a) v.agrees);
  small = subst (λ k. k < 2 ^ 32) (sym b) v.small;
  past = Past-same s.ctx d s.files r v.past;
}

-- The count of references is 0 only for a closed channel.
pub kref_zero : (s : System) (u : ℕ × ℕ) → IsUsedBy s u → s.ctx.kref ≡ 0 → s.ctx.chan ≡ none
kref_zero s u v z = elim (Option-cases s.ctx.chan) [
  | inl e ↦ e
  | inr (handle, e) ↦ ground (arith, (rw e at v.agrees), z)
]

reference_more :
    (s : System) (u : ℕ × ℕ) (d : ChannelCtx)
    → IsUsedBy s u
    → s.ctx.kref + 1 < 2 ^ 32
    → IsReferenced s.ctx d
    → (d.kref ≡ u.0 + u.1 + 1) × (u.0 + u.1 + 1 < 2 ^ 32)
reference_more s u d v small refs = elim (Option-cases s.ctx.chan) [
  | inl e ↦ ground (arith, (rw e at v.agrees), (rw e at refs), small)
  | inr (handle, e) ↦ ground (arith, (rw e at v.agrees), (rw e at refs), small)
]

refused-Use :
    (s : System) (u : ℕ × ℕ) (pre post : List FileCtx) (f : FileCtx) (o : Opening)
    → IsUsedBy s u
    → s.files ≡ pre ++ f ∷ post
    → (o.fl ≡ f) × (o.ctx ≡ s.ctx)
    → (t : ℕ × ℕ) × Use u t × IsUsedBy (record { ctx = o.ctx; files = pre ++ o.fl ∷ post }) t
refused-Use s u pre post f o v split (fl_eq, ctx_eq) = (
  u,
  Use.stays u.0 u.1,
  subst (λ g. IsUsedBy (record { ctx = o.ctx; files = pre ++ g ∷ post }) u) (sym fl_eq)
      (subst (λ c. IsUsedBy (record { ctx = c; files = pre ++ f ∷ post }) u) (sym ctx_eq)
        (subst (λ fs. IsUsedBy (record { ctx = s.ctx; files = fs }) u) split v)),
)

-- A file that has taken a reference to a channel that is open, as one of its users.
opened-IsUsedBy :
    (s : System) (u t : ℕ × ℕ) (pre post : List FileCtx) (f : FileCtx) (o : Opening)
    → IsUsedBy s u
    → s.files ≡ pre ++ f ∷ post
    → s.ctx.kref + 1 < 2 ^ 32
    → (o.fl.refcount ≡ true) × (o.fl.ssrcount ≡ s.ctx.ssrcount) × (o.ctx.ssrcount ≡ s.ctx.ssrcount)
    → IsReferenced s.ctx o.ctx
    → IsOpen o.ctx
    → t.0 + count_user s.ctx f ≡ u.0 + 1
    → t.0 + t.1 ≡ u.0 + u.1 + 1
    → IsUsedBy (record { ctx = o.ctx; files = pre ++ o.fl ∷ post }) t
opened-IsUsedBy s u t pre post f o v split small (marked, now, restarts) refs there users_eq total =
    let c = s.ctx in
    let (past_pre, past_f, past_post) =
      All-split (Past c) pre post f (subst (All (Past c)) split v.past) in
    let whole : users c (pre ++ f ∷ post) ≡ u.0 = sym (ap (users c) split) ∙ v.count in
    let counted : users c pre + (count_user c f + users c post) ≡ u.0 =
      sym (users-++ c pre (f ∷ post)) ∙ whole in
    let next = reference_more s u o.ctx v small refs in
    let one : count_user o.ctx o.fl ≡ 1 = ground (arith, marked, now, restarts) in
    record {
      count = omega (
        arith,
        counted,
        users-++ o.ctx pre (o.fl ∷ post),
        users_same c o.ctx pre restarts,
        users_same c o.ctx post restarts,
        one,
        users_eq,
      );
      agrees =
          subst (λ h. Agrees h o.ctx.kref (t.0 + t.1)) (sym there.1)
            (omega (arith, next.0, total), omega (arith, total));
      small = omega (arith, next.0, next.1);
      past =
          All-join (Past o.ctx) pre (o.fl ∷ post) (Past-same c o.ctx pre restarts past_pre)
            ((λ m. omega (arith, now, restarts)), Past-same c o.ctx post restarts past_post);
    }

-- A file that is counted is one of the users.
user_counted :
    (s : System) (u : ℕ × ℕ) (pre post : List FileCtx) (f : FileCtx)
    → IsUsedBy s u
    → s.files ≡ pre ++ f ∷ post
    → count_user s.ctx f ≤ u.0
user_counted s u pre post f v split =
    let whole : users s.ctx (pre ++ f ∷ post) ≡ u.0 = sym (ap (users s.ctx) split) ∙ v.count in
    omega (arith, whole, users-++ s.ctx pre (f ∷ post))

pub opens-Use :
    (s : System) (u : ℕ × ℕ) (pre post : List FileCtx) (f : FileCtx) (o : Opening)
    → IsUsedBy s u
    → s.files ≡ pre ++ f ∷ post
    → s.ctx.kref + 1 < 2 ^ 32
    → IsTried f s.ctx o
    → IsSettled f s.ctx o
    → (t : ℕ × ℕ) × Use u t × IsUsedBy (record { ctx = o.ctx; files = pre ++ o.fl ∷ post }) t
opens-Use s u pre post f o v split small (inl same) settled =
    refused-Use s u pre post f o v split same
opens-Use s u pre post f o v split small (inr (marked, now, restarts, refs)) (inl same) =
    refused-Use s u pre post f o v split same
opens-Use s u pre post f o v split small (inr (marked, now, restarts, refs)) (inr there) =
    let n = u.0 in
    let k = u.1 in
    elim (Bool-cases (is_user s.ctx f)) [
      | inl e ↦
          let one : count_user s.ctx f ≡ 1 = rw e refl in
          let pos : 1 ≤ n = omega (arith, one, user_counted s u pre post f v split) in
          let n_eq : n - 1 + 1 ≡ n = omega (arith, pos) in
          (
            (n, k + 1),
            subst (λ m. Use (m, k) (m, k + 1)) n_eq (Use.repeats (n - 1) k),
            opened-IsUsedBy s u (n, k + 1) pre post f o v split small (marked, now, restarts)
                (refs there) there (omega (arith, one)) (omega arith),
          )
      | inr e ↦
          let none_yet : count_user s.ctx f ≡ 0 = rw e refl in
          (
            (n + 1, k),
            Use.joins n k,
            opened-IsUsedBy s u (n + 1, k) pre post f o v split small (marked, now, restarts)
                (refs there) there (omega (arith, none_yet)) (omega arith),
          )
    ]
