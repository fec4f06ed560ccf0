-- ===== src/Discovery/Channels/Tables.antt =====
-- The four tables of a channel manager against the list of the writers and the list of the readers that
-- are in the network.
use cyber_rt_standalone_r.Prelude.{
  ℕ, ◌≡◌, refl, sym, ap, ◌∙◌, subst, List, [], ◌∷◌, ◌++◌, Bool, true, false, Option, some, none,
  ◌==◌, if◌then◌else◌, arith,
}
use cyber_rt_standalone_r.Discovery.Role.{RoleAttributes, number, Role, writer, match}
use cyber_rt_standalone_r.Discovery.Role.Match.{match-Fits, Fits, Agrees}
use cyber_rt_standalone_r.Discovery.Warehouse.{RoleMap}
use cyber_rt_standalone_r.Discovery.Warehouse.Multi.{search_key, try_add, erase_role}
use cyber_rt_standalone_r.Discovery.Warehouse.Multi.Held.{
  without, search_key-append, search_key-erase_role,
}
use cyber_rt_standalone_r.Discovery.Manager.{ChangeMsg, OperateType, opt_join, opt_leave}
use cyber_rt_standalone_r.Discovery.Channels.{
  ChannelManager, role_of, put, is_writer, is_set, dispose_join, dispose_leave, dispose_as, dispose,
}

-- The roles with a key, which is a field of theirs.
abbrev pub keyed : (RoleAttributes → Option ℕ) → ℕ → List Role → List Role
keyed f k [] = []
keyed f k (r ∷ rs) = if number (f r.attributes) == k then r ∷ keyed f k rs else keyed f k rs

abbrev pub AllWriters : List Role → Type 0
AllWriters [] = Unit
AllWriters (r ∷ rs) = (r.kind ≡ writer) × AllWriters rs

-- What matches the attributes has their key.
abbrev pub Tells : (RoleAttributes → Option ℕ) → RoleAttributes → Type 0
Tells f t = (r : Role) → r.kind ≡ writer → match r t ≡ true → number (f r.attributes) ≡ number (f t)

keyed-append :
    (f : RoleAttributes → Option ℕ) (k : ℕ) (rs : List Role) (r : Role)
    → keyed f k (rs ++ r ∷ [])
      ≡ (if number (f r.attributes) == k then keyed f k rs ++ r ∷ [] else keyed f k rs)
keyed-append f k [] r = refl
keyed-append f k (x ∷ rs) r = ground (arith, keyed-append f k rs r)

keyed-without :
    (f : RoleAttributes → Option ℕ) (k : ℕ) (t : RoleAttributes) (rs : List Role)
    → Tells f t
    → AllWriters rs
    → keyed f k (without t rs)
      ≡ (if number (f t) == k then without t (keyed f k rs) else keyed f k rs)
keyed-without f k t [] h w = ground arith
keyed-without f k t (r ∷ rs) h w = ground (arith, h r w.0, keyed-without f k t rs h w.1)

-- The table holds the roles of the list, each under its key.
abbrev pub Shows : (RoleAttributes → Option ℕ) → List Role → RoleMap → Type 0
Shows f rs table = (k : ℕ) → search_key k table ≡ keyed f k rs

Shows-put :
    (f : RoleAttributes → Option ℕ) (r : Role) (rs : List Role) (table : RoleMap)
    → Shows f rs table
    → Shows f (rs ++ r ∷ []) (put (number (f r.attributes)) r table)
unfolding try_add
Shows-put f r rs table h k =
    ground
      (arith, h k, search_key-append (number (f r.attributes)) k r table, keyed-append f k rs r)

Shows-erase_role :
    (f : RoleAttributes → Option ℕ) (t : RoleAttributes) (rs : List Role) (table : RoleMap)
    → Tells f t
    → AllWriters rs
    → Shows f rs table
    → Shows f (without t rs) (erase_role (number (f t)) t table)
Shows-erase_role f t rs table g w h k =
    search_key-erase_role (number (f t)) k t table
    ∙ ap (λ xs. if number (f t) == k then without t xs else xs) (h k)
    ∙ sym (keyed-without f k t rs g w)

AllWriters-append :
    (rs : List Role) (r : Role) → AllWriters rs → r.kind ≡ writer → AllWriters (rs ++ r ∷ [])
AllWriters-append [] r w e = (e, tt)
AllWriters-append (x ∷ rs) r w e = (w.0, AllWriters-append rs r w.1 e)

AllWriters-without :
    (t : RoleAttributes) (rs : List Role) → AllWriters rs → AllWriters (without t rs)
AllWriters-without t [] w = tt
AllWriters-without t (r ∷ rs) w = ground (arith, w.0, AllWriters-without t rs w.1)

-- Who is in the network, by the messages alone.
pub record Live : Type 0 where
  pub writers : List Role
  pub readers : List Role

abbrev pub nobody : Live
nobody = record { writers = []; readers = [] }

abbrev pub change : OperateType → RoleAttributes → ℕ → List Role → List Role
change opt_join attr timestamp rs = rs ++ role_of attr timestamp ∷ []
change opt_leave attr timestamp rs = without attr rs

abbrev pub live : ChangeMsg → Live → Live
live msg l =
    if is_writer msg.role_type
    then record l { writers = change msg.operate_type msg.role_attr msg.timestamp l.writers }
    else record l { readers = change msg.operate_type msg.role_attr msg.timestamp l.readers }

abbrev pub live_all : List ChangeMsg → Live → Live
live_all [] l = l
live_all (msg ∷ msgs) l = live_all msgs (live msg l)

abbrev pub dispose_all : List ChangeMsg → ChannelManager → ChannelManager
dispose_all [] m = m
dispose_all (msg ∷ msgs) m = dispose_all msgs (dispose msg m)

-- One pair of tables.
abbrev pub Pair : List Role → RoleMap → RoleMap → Type 0
Pair rs nodes channels =
    AllWriters rs × Shows (λ a. a.node_id) rs nodes × Shows (λ a. a.channel_id) rs channels

abbrev pub Accords : ChannelManager → Live → Type 0
Accords m l =
    Pair l.writers m.node_writers m.channel_writers
    × Pair l.readers m.node_readers m.channel_readers

-- The message carries the ids of its node and channel.
abbrev pub Tagged : ChangeMsg → Type 0
Tagged msg = (is_set msg.role_attr.node_id ≡ true) × (is_set msg.role_attr.channel_id ≡ true)

abbrev pub AllTagged : List ChangeMsg → Type 0
AllTagged [] = Unit
AllTagged (msg ∷ msgs) = Tagged msg × AllTagged msgs

Agrees-number : (t o : Option ℕ) → is_set t ≡ true → Agrees t o → number o ≡ number t
Agrees-number none o e a = absurd cc
Agrees-number (some n) o e a = a

Fits-writer :
    (r : Role) (t : RoleAttributes)
    → r.kind ≡ writer
    → match r t ≡ true
    → Fits writer r.attributes t
Fits-writer r t w h = subst (λ k. Fits k r.attributes t) w ((match-Fits r t).0 h)

Tells-node : (t : RoleAttributes) → is_set t.node_id ≡ true → Tells (λ a. a.node_id) t
Tells-node t e r w h = Agrees-number t.node_id _ e (Fits-writer r t w h).1.1.0

Tells-channel : (t : RoleAttributes) → is_set t.channel_id ≡ true → Tells (λ a. a.channel_id) t
Tells-channel t e r w h = Agrees-number t.channel_id _ e (Fits-writer r t w h).0

Pair-put :
    (attr : RoleAttributes) (timestamp : ℕ) (rs : List Role) (nodes channels : RoleMap)
    → Pair rs nodes channels
    → Pair
        (rs ++ role_of attr timestamp ∷ [])
        (put (number attr.node_id) (role_of attr timestamp) nodes)
        (put (number attr.channel_id) (role_of attr timestamp) channels)
Pair-put attr timestamp rs nodes channels (w, n, c) = (
  AllWriters-append rs (role_of attr timestamp) w refl,
  Shows-put (λ a. a.node_id) (role_of attr timestamp) rs nodes n,
  Shows-put (λ a. a.channel_id) (role_of attr timestamp) rs channels c,
)

Pair-erase_role :
    (attr : RoleAttributes) (rs : List Role) (nodes channels : RoleMap)
    → is_set attr.node_id ≡ true
    → is_set attr.channel_id ≡ true
    → Pair rs nodes channels
    → Pair
        (without attr rs)
        (erase_role (number attr.node_id) attr nodes)
        (erase_role (number attr.channel_id) attr channels)
Pair-erase_role attr rs nodes channels p q (w, n, c) = (
  AllWriters-without attr rs w,
  Shows-erase_role (λ a. a.node_id) attr rs nodes (Tells-node attr p) w n,
  Shows-erase_role (λ a. a.channel_id) attr rs channels (Tells-channel attr q) w c,
)

-- By the operation and by whether a writer changes.
Accords-change :
    (op : OperateType) (w : Bool) (msg : ChangeMsg) (m : ChannelManager) (l : Live)
    → Tagged msg
    → op ≡ msg.operate_type
    → w ≡ is_writer msg.role_type
    → Accords m l
    → Accords (dispose_as op msg m) (live msg l)
unfolding dispose_join dispose_leave
Accords-change opt_join true msg m l t o e (p, q) =
    rw (← o, ← e) (Pair-put msg.role_attr msg.timestamp l.writers _ _ p, q)
Accords-change opt_join false msg m l t o e (p, q) =
    rw (← o, ← e) (p, Pair-put msg.role_attr msg.timestamp l.readers _ _ q)
Accords-change opt_leave true msg m l t o e (p, q) =
    rw (← o, ← e) (Pair-erase_role msg.role_attr l.writers _ _ t.0 t.1 p, q)
Accords-change opt_leave false msg m l t o e (p, q) =
    rw (← o, ← e) (p, Pair-erase_role msg.role_attr l.readers _ _ t.0 t.1 q)

Accords-dispose :
    (msg : ChangeMsg) (m : ChannelManager) (l : Live)
    → Tagged msg
    → Accords m l
    → Accords (dispose msg m) (live msg l)
unfolding dispose
Accords-dispose msg m l t a =
    Accords-change msg.operate_type (is_writer msg.role_type) msg m l t refl refl a

-- After any messages that carry the ids of their nodes and channels, the tables by node and by channel
-- show the same writers and the same readers: those that joined and that no later leave matched.
pub dispose_all-Accords :
    (msgs : List ChangeMsg) (m : ChannelManager) (l : Live)
    → AllTagged msgs
    → Accords m l
    → Accords (dispose_all msgs m) (live_all msgs l)
dispose_all-Accords [] m l t a = a
dispose_all-Accords (msg ∷ msgs) m l t a =
    dispose_all-Accords msgs (dispose msg m) (live msg l) t.1 (Accords-dispose msg m l t.0 a)
