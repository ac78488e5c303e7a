-- ===== src/File/Closed.antt =====
-- What is left of an open file of android/adsprpc.c that is closed.
use reasoned_soc.Prelude.{
  ◌==◌, if◌then◌else◌, Bool-cases, length, get_or, length-set, get_or-set_self, get_or-set_ne, ℕ,
  ◌+◌, ◌-◌, ◌<◌, ◌≡◌, sym, ap, ◌∙◌, ◌≢◌, ◌⊎◌, inl, inr, Bool, true, false, Option, none, some, [],
  ◌++◌, arith,
}
use reasoned_soc.Context.Invariant.{occurs, IsConsistent, occurs-unlink}
use reasoned_soc.Buffer.Emptied.{IsListed}
use reasoned_soc.File.{World, freed_contexts, Closing, free_init_mem, free_session, file_free}
use reasoned_soc.Session.{Channel, no_session, session_free}
use reasoned_soc.Context.{Ctx}
use reasoned_soc.Mapping.Closed.{IsClosed}
use reasoned_soc.Mapping.Counts.{IsCounted}
use reasoned_soc.Context.Signals.{context_list_dtor_empties}
use reasoned_soc.File.Buffers.{IsOwn}
use reasoned_soc.File.Released.{maps_of, bufs_of, released-IsClosed}
use reasoned_soc.File.Cached.{all_bufs_gone}
use mathlib.Core.Path.{subst}

abbrev pub IsFree : Channel → ℕ → Type 0
IsFree chan i = (get_or chan.session i no_session).used ≡ false

session_free-IsFree :
    (chan : Channel) (i : ℕ) → i < length chan.session → IsFree (session_free chan i) i
unfolding session_free
session_free-IsFree chan i lt =
    ap (λ s. s.used)
      (get_or-set_self chan.session i (record (get_or chan.session i no_session) { used = false })
        no_session lt)

IsFree-keeps :
    (chan : Channel) (j i : ℕ)
    → i < length chan.session
    → IsFree chan i
    → IsFree (session_free chan j) i
unfolding session_free
IsFree-keeps chan j i lt free = elim (Bool-cases (j == i)) [
  | inl e ↦
      let j_eq : i ≡ j = ground (arith, e) in
      subst (λ k. IsFree (session_free chan k) i) j_eq (session_free-IsFree chan i lt)
  | inr e ↦
      let ne : j ≢ i = λ w. ground (arith, e, w) in
      ap (λ s. s.used)
        (get_or-set_ne chan.session j i (record (get_or chan.session j no_session) { used = false })
          no_session ne)
      ∙ free
]

length-free : (chan : Channel) (j : ℕ) → length (session_free chan j).session ≡ length chan.session
unfolding session_free
length-free chan j =
    length-set chan.session j (record (get_or chan.session j no_session) { used = false })

-- A session of the file is free again.
sessions-IsFree :
    (o : Option ℕ) (idx i : ℕ) (chan : Channel)
    → i < length chan.session
    → (idx ≡ i) ⊎ (o ≡ some i)
    → IsFree (free_session o (session_free chan idx)) i
sessions-IsFree none idx i chan lt (inl e) =
    subst (λ k. IsFree (session_free chan k) i) (sym e) (session_free-IsFree chan i lt)
sessions-IsFree none idx i chan lt (inr e) = ground (arith, e)
sessions-IsFree (some j) idx i chan lt (inl e) =
    IsFree-keeps (session_free chan idx) j i (omega (arith, lt, length-free chan idx))
      (subst (λ k. IsFree (session_free chan k) i) (sym e) (session_free-IsFree chan i lt))
sessions-IsFree (some j) idx i chan lt (inr e) =
    let j_eq : i ≡ j = ground (arith, e) in
    subst (λ k. IsFree (session_free (session_free chan idx) k) i) j_eq
      (session_free-IsFree (session_free chan idx) i (omega (arith, lt, length-free chan idx)))

-- Nothing is left of the file `f` and its session `idx`.
pub record IsGone (f : Closing) (idx : ℕ) (s t : World) : Type 0 where
  pub driver : occurs f.fl t.drivers ≡ occurs f.fl s.drivers - 1
  pub pending : (t.contexts.clst f.fl).pending ≡ []
  pub interrupted : (t.contexts.clst f.fl).interrupted ≡ []
  pub contexts :
      (p : ℕ) (c : Ctx)
      → s.contexts.cell p ≡ some c
      → t.contexts.cell p ≡ (if c.fl == f.fl then none else some c)
  pub maps : IsClosed f.fl (s.maps.maps f.fl) s.maps t.maps
  pub cached_bufs : t.bufs.cached_bufs ≡ []
  pub remote_bufs : t.bufs.remote_bufs ≡ []
  pub bufs :
      (q : ℕ)
      → 0
        < occurs q (bufs_of s.owned (freed_contexts f.fl s.contexts))
          + occurs q s.bufs.cached_bufs
          + occurs q s.bufs.remote_bufs
      → t.bufs.cell q ≡ none
  pub init_mem : (p : ℕ) → f.init_mem ≡ some p → t.bufs.cell p ≡ none
  pub sessions :
      (i : ℕ) → i < length s.chan.session → (idx ≡ i) ⊎ (f.secsctx ≡ some i) → IsFree t.chan i

-- Let a file be closed that is bound to a session, in a state whose contexts are consistent and whose
-- lists of mappings are sound. Let the mappings of its contexts be in the file's list; let the
-- buffers of its contexts and its cached buffers be allocated, not marked as remote, and be listed
-- once in all, let its remote ones be marked so and be in their list once, and let its own buffer, if
-- it has one, be allocated, not be marked as remote and be in none of these lists. Then nothing is left of the file: its entry in the list of files, its contexts,
-- its mappings however many references they have, the buffers of its contexts, those in both lists
-- and its own are gone, its sessions are free, and the contexts and the lists of mappings of other
-- files are as they were.
pub file_free-IsGone :
    (glink dev : Bool) (f : Closing) (idx : ℕ) (s : World)
    → f.sctx ≡ some idx
    → IsConsistent s.contexts
    → IsCounted s.maps
    → ((q : ℕ)
        → 0 < occurs q (maps_of s.owned (freed_contexts f.fl s.contexts))
        → 0 < occurs q (s.maps.maps f.fl))
    → IsListed false (bufs_of s.owned (freed_contexts f.fl s.contexts) ++ s.bufs.cached_bufs) s.bufs
    → IsListed true s.bufs.remote_bufs s.bufs
    → IsOwn f.init_mem s.bufs
    → ((p : ℕ)
        → f.init_mem ≡ some p
        → occurs p (bufs_of s.owned (freed_contexts f.fl s.contexts)) ≡ 0)
    → IsGone f idx s (file_free glink dev f s)
unfolding file_free
file_free-IsGone glink dev f idx s bound consistent counted mine near far own apart =
    let ps = freed_contexts f.fl s.contexts in
    let (p, i, c) = context_list_dtor_empties f.fl s.contexts consistent in
    let (a, b, gone, init) =
      all_bufs_gone dev f.init_mem s.owned ps s.maps s.bufs near far own apart in
    let maps =
      released-IsClosed dev f.fl s.owned ps s.maps (free_init_mem f.init_mem s.bufs) counted mine in
    rw (file_free, bound)
      (record {
        driver = occurs-unlink f.fl f.fl s.drivers ∙ ground arith;
        pending = p;
        interrupted = i;
        contexts = c;
        maps = maps;
        cached_bufs = a;
        remote_bufs = b;
        bufs = gone;
        init_mem = init;
        sessions = λ j lt which. sessions-IsFree f.secsctx idx j s.chan lt which;
      })
