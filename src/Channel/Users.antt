-- ===== src/Channel/Users.antt =====
-- The users of a channel of android/adsprpc.c: the files that have a reference to it since its last
-- restart, and the steps that change them.
use reasoned_soc.Prelude.{
  ◌==◌, if◌then◌else◌, All, ℕ, ◌+◌, ◌^◌, ◌≤◌, ◌<◌, ◌≡◌, refl, ◌⊎◌, Bool, true, false, ◌&&◌, Option,
  none, some, List, [], ◌∷◌, ◌++◌, arith,
}
use reasoned_soc.Mapping.{Maps, more}
use reasoned_soc.Remote.{Host}
use reasoned_soc.Channel.{ChannelCtx, FileCtx, Event, handle}
use reasoned_soc.Channel.Open.{ChannelGiven, put_channel, Opening, channel_open}
use reasoned_soc.Channel.Restart.{shut_down}

-- A file that puts its reference when it is closed: `fl->refcount` is set, and `fl->ssrcount` is that
-- of the channel.
abbrev pub is_user : ChannelCtx → FileCtx → Bool
is_user c f = f.refcount && (f.ssrcount == c.ssrcount)

abbrev pub count_user : ChannelCtx → FileCtx → ℕ
count_user c f = if is_user c f then 1 else 0

abbrev pub users : ChannelCtx → List FileCtx → ℕ
users c [] = 0
users c (f ∷ fs) = count_user c f + users c fs

-- The part of `fastrpc_file_free` that concerns the channel.
unfoldable pub release_channel : Bool → ℕ → FileCtx → ChannelCtx → ChannelCtx
release_channel glink cid f c = if is_user c f then put_channel glink cid c else c

-- A channel with the open files that are bound to it.
pub record System : Type 0 where
  pub ctx : ChannelCtx
  pub files : List FileCtx

abbrev pub IsOpen : ChannelCtx → Type 0
IsOpen c = (handle : ℕ) × (c.chan ≡ some handle)

-- What a file's opening leaves.
abbrev pub tried : Bool → ChannelGiven → Host → Bool → Maps → FileCtx → ChannelCtx → Opening
tried glink g host dev maps f c =
    (channel_open glink g host dev (record { fl = f; ctx = c; maps = maps })).1

-- The opening was refused before it took anything, or it ends with a channel that is open.
abbrev pub IsSettled : FileCtx → ChannelCtx → Opening → Type 0
IsSettled f c o = ((o.fl ≡ f) × (o.ctx ≡ c)) ⊎ IsOpen o.ctx

-- A new file; the opening of a channel by a file, the first or a later one, that is refused at once or
-- ends with a channel that is open; the closing of a file, a restart, and a callback.
pub data Step (glink : Bool) (cid : ℕ) (s : System) : System → Type 0 where
  arrives : (f : FileCtx) → f.refcount ≡ false → Step glink cid s (record s { files = f ∷ s.files })
  opens :
      (pre post : List FileCtx) (f : FileCtx) (g : ChannelGiven) (host : Host) (dev : Bool)
      (maps : Maps)
      → s.files ≡ pre ++ f ∷ post
      → f.cid ≡ some cid
      → s.ctx.kref + 1 < 2 ^ 32
      → IsSettled f s.ctx (tried glink g host dev maps f s.ctx)
      → Step glink cid s (record {
        ctx = (tried glink g host dev maps f s.ctx).ctx;
        files = pre ++ (tried glink g host dev maps f s.ctx).fl ∷ post;
      })
  closes :
      (pre post : List FileCtx) (f : FileCtx)
      → s.files ≡ pre ++ f ∷ post
      → Step glink cid s (record { ctx = release_channel glink cid f s.ctx; files = pre ++ post })
  shuts_down : Step glink cid s (record s { ctx = shut_down glink cid s.ctx })
  powers_up : Step glink cid s (record s { ctx = record s.ctx { issubsystemup = true } })
  happens : (e : Event) → Step glink cid s (record s { ctx = handle e s.ctx })

-- The contract of a channel: how many files use it, and how many references were taken by files that
-- used it already, which nobody puts.
pub data Use : ℕ × ℕ → ℕ × ℕ → Type 0 where
  joins : (n k : ℕ) → Use (n, k) (n + 1, k)
  leaves : (n k : ℕ) → Use (n + 1, k) (n, k)
  repeats : (n k : ℕ) → Use (n + 1, k) (n + 1, k + 1)
  resets : (n k : ℕ) → Use (n, k) (0, 0)
  stays : (n k : ℕ) → Use (n, k) (n, k)

-- A closed channel has no reference; an open one has some, and counts them.
abbrev pub Agrees : Option ℕ → ℕ → ℕ → Type 0
Agrees none kref n = n ≡ 0
Agrees (some handle) kref n = (kref ≡ n) × (0 < n)

-- The users are `u.0`, and the references that nobody puts are `u.1`.
pub record IsUsedBy (s : System) (u : ℕ × ℕ) : Type 0 where
  pub count : users s.ctx s.files ≡ u.0
  pub agrees : Agrees s.ctx.chan s.ctx.kref (u.0 + u.1)
  pub small : s.ctx.kref < 2 ^ 32
  pub past : All (λ f. (f.refcount ≡ true) → f.ssrcount ≤ s.ctx.ssrcount) s.files

pub users-++ :
    (c : ChannelCtx) (fs gs : List FileCtx) → users c (fs ++ gs) ≡ users c fs + users c gs
users-++ c [] gs = omega arith
users-++ c (f ∷ fs) gs = rw (users-++ c fs gs) (omega arith)

-- Only the count of restarts of the channel matters.
pub users_same :
    (c d : ChannelCtx) (fs : List FileCtx) → d.ssrcount ≡ c.ssrcount → users d fs ≡ users c fs
users_same c d [] same = refl
users_same c d (f ∷ fs) same = rw (same, users_same c d fs same) refl

-- A restart leaves no user.
pub users_restarted :
    (c d : ChannelCtx) (fs : List FileCtx)
    → All (λ f. (f.refcount ≡ true) → f.ssrcount ≤ c.ssrcount) fs
    → d.ssrcount ≡ c.ssrcount + 1
    → users d fs ≡ 0
users_restarted c d [] past more = refl
users_restarted c d (f ∷ fs) past more =
    ground (arith, past.0, more, users_restarted c d fs past.1 more)

pub All-split :
    {A : Type 0} (P : A → Type 0) (xs ys : List A) (x : A)
    → All P (xs ++ x ∷ ys)
    → All P xs × P x × All P ys
All-split P [] ys x h = (tt, h.0, h.1)
All-split P (z ∷ zs) ys x h = let (a, b, c) = All-split P zs ys x h.1 in ((h.0, a), b, c)

pub All-join :
    {A : Type 0} (P : A → Type 0) (xs ys : List A) → All P xs → All P ys → All P (xs ++ ys)
All-join P [] ys a b = b
All-join P (x ∷ xs) ys a b = (a.0, All-join P xs ys a.1 b)
