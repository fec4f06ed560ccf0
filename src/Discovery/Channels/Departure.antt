-- ===== src/Discovery/Channels/Departure.antt =====
-- What is left when a process leaves.
use cyber_rt_standalone_r.Prelude.{
  ℕ, ◌≡◌, refl, sym, ap, ◌∙◌, subst, inl, inr, List, [], ◌∷◌, Bool, true, false, ◌&&◌, not, Option,
  some, none, ◌==◌, if◌then◌else◌, arith, Bool-cases,
}
use cyber_rt_standalone_r.Discovery.Keys.{Key}
use cyber_rt_standalone_r.Discovery.Role.{RoleAttributes, number, Role, match}
use cyber_rt_standalone_r.Discovery.Role.Match.{match_self}
use cyber_rt_standalone_r.Discovery.Warehouse.{RoleMap, search_matching}
use cyber_rt_standalone_r.Discovery.Warehouse.Multi.{try_add, erase_role}
use cyber_rt_standalone_r.Discovery.Manager.{
  ChangeMsg, OperateType, opt_join, opt_leave, RoleType, role_writer, role_reader, Manager, convert,
  or_else,
}
use cyber_rt_standalone_r.Discovery.Channels.{
  ChannelManager, fresh, role_of, put, is_writer, is_set, dispose_join, dispose_leave, dispose_as,
  dispose, leave_each, of_process, on_topo_module_leave,
}
use cyber_rt_standalone_r.Discovery.Channels.Tables.{dispose_all}

-- The attributes that `Convert` would fill in are there.
abbrev pub IsComplete : RoleAttributes → Type 0
IsComplete a = (is_set a.host_name ≡ true) × (is_set a.process_id ≡ true)

-- Every role stands under the id of its channel.
abbrev pub WellKeyed : RoleMap → Type 0
WellKeyed [] = Unit
WellKeyed ((k, r) ∷ roles) =
    ((number r.attributes.channel_id ≡ k) × IsComplete r.attributes) × WellKeyed roles

abbrev pub AllComplete : List ChangeMsg → Type 0
AllComplete [] = Unit
AllComplete (msg ∷ msgs) = IsComplete msg.role_attr × AllComplete msgs

abbrev AllRoles : List Role → Type 0
AllRoles [] = Unit
AllRoles (r ∷ rs) = IsComplete r.attributes × AllRoles rs

abbrev erase_each : List Role → RoleMap → RoleMap
erase_each [] roles = roles
erase_each (r ∷ rs) roles =
    erase_each rs (erase_role (number r.attributes.channel_id) r.attributes roles)

-- Whether an entry outlives the erasures.
abbrev survives : List Role → ℕ → Role → Bool
survives [] k r = true
survives (x ∷ xs) k r =
    not (number x.attributes.channel_id == k && match r x.attributes) && survives xs k r

erase_role_cons :
    (key k : ℕ) (t : RoleAttributes) (r : Role) (roles : RoleMap)
    → erase_role key t ((k, r) ∷ roles) ≡ (
        if not (key == k && match r t)
        then (k, r) ∷ erase_role key t roles
        else erase_role key t roles)
unfolding erase_role
erase_role_cons key k t r roles = ground arith

cons_if :
    (b : Bool) (xs : List Role) (k : ℕ) (r : Role) (roles : RoleMap)
    → erase_each xs ((k, r) ∷ roles)
      ≡ (if survives xs k r then (k, r) ∷ erase_each xs roles else erase_each xs roles)
    → erase_each xs (if b then (k, r) ∷ roles else roles)
      ≡ (if b && survives xs k r then (k, r) ∷ erase_each xs roles else erase_each xs roles)
cons_if true xs k r roles h = h
cons_if false xs k r roles h = refl

erase_each_cons :
    (xs : List Role) (k : ℕ) (r : Role) (roles : RoleMap)
    → erase_each xs ((k, r) ∷ roles)
      ≡ (if survives xs k r then (k, r) ∷ erase_each xs roles else erase_each xs roles)
erase_each_cons [] k r roles = refl
erase_each_cons (x ∷ xs) k r roles =
    let key = number x.attributes.channel_id in
    ap (erase_each xs) (erase_role_cons key k x.attributes r roles)
    ∙ cons_if (not (key == k && match r x.attributes)) xs k r (erase_role key x.attributes roles)
        (erase_each_cons xs k r (erase_role key x.attributes roles))

or_else_id : {A : Type 0} (o : Option A) (d : A) → is_set o ≡ true → or_else o d ≡ o
or_else_id none d h = absurd cc
or_else_id (some a) d h = refl

convert_id :
    (o : Manager) (now : ℕ) (role : RoleType) (a : RoleAttributes)
    → IsComplete a
    → (convert o now a role opt_leave).role_attr ≡ a
unfolding convert
convert_id o now role a h i = record a {
  host_name = or_else_id a.host_name o.host_name h.0 i;
  process_id = or_else_id a.process_id o.process_id h.1 i;
}

-- What the loops over the writers do to the table of writers, and those over the readers to that of
-- the readers; each leaves the other table alone.
leave_each_writers :
    (o : Manager) (now : ℕ) (rs : List Role) (m : ChannelManager)
    → AllRoles rs
    → ((leave_each o now role_writer rs m).channel_writers ≡ erase_each rs m.channel_writers)
      × ((leave_each o now role_writer rs m).channel_readers ≡ m.channel_readers)
unfolding leave_each dispose_leave convert
leave_each_writers o now [] m h = (refl, refl)
leave_each_writers o now (r ∷ rs) m h =
    let m' = dispose_leave (convert o now r.attributes role_writer opt_leave) m in
    let (p, q) = leave_each_writers o now rs m' h.1 in
    (
      p
          ∙ ap (λ a. erase_each rs (erase_role (number a.channel_id) a m.channel_writers))
              (convert_id o now role_writer r.attributes h.0),
      q,
    )

leave_each_readers :
    (o : Manager) (now : ℕ) (rs : List Role) (m : ChannelManager)
    → AllRoles rs
    → ((leave_each o now role_reader rs m).channel_readers ≡ erase_each rs m.channel_readers)
      × ((leave_each o now role_reader rs m).channel_writers ≡ m.channel_writers)
unfolding leave_each dispose_leave convert
leave_each_readers o now [] m h = (refl, refl)
leave_each_readers o now (r ∷ rs) m h =
    let m' = dispose_leave (convert o now r.attributes role_reader opt_leave) m in
    let (p, q) = leave_each_readers o now rs m' h.1 in
    (
      p
          ∙ ap (λ a. erase_each rs (erase_role (number a.channel_id) a m.channel_readers))
              (convert_id o now role_reader r.attributes h.0),
      q,
    )

-- No entry that matches outlives the erasures.
abbrev Covers : RoleAttributes → List Role → RoleMap → Type 0
Covers t xs [] = Unit
Covers t xs ((k, r) ∷ roles) = ((match r t && survives xs k r) ≡ false) × Covers t xs roles

Covers-more :
    (t : RoleAttributes) (x : Role) (xs : List Role) (roles : RoleMap)
    → Covers t xs roles
    → Covers t (x ∷ xs) roles
Covers-more t x xs [] h = tt
Covers-more t x xs ((k, r) ∷ roles) h = (ground (arith, h.0), Covers-more t x xs roles h.1)

search_yes :
    (t : RoleAttributes) (k : ℕ) (r : Role) (roles : RoleMap)
    → match r t ≡ true
    → search_matching t ((k, r) ∷ roles) ≡ r ∷ search_matching t roles
unfolding search_matching
search_yes t k r roles e = rw e refl

search_no :
    (t : RoleAttributes) (k : ℕ) (r : Role) (roles : RoleMap)
    → match r t ≡ false
    → search_matching t ((k, r) ∷ roles) ≡ search_matching t roles
unfolding search_matching
search_no t k r roles e = rw e refl

Covers-search_matching :
    (t : RoleAttributes) (roles : RoleMap)
    → WellKeyed roles
    → Covers t (search_matching t roles) roles
Covers-search_matching t [] w = tt
Covers-search_matching t ((k, r) ∷ roles) w =
    let rest = Covers-search_matching t roles w.1 in
    let whole : List Role → Type 0 = λ ms. Covers t ms ((k, r) ∷ roles) in
    elim (Bool-cases (match r t)) [
      | inl e ↦ subst whole (sym (search_yes t k r roles e)) (
        ground (arith, w.0.0, match_self r),
        Covers-more t r (search_matching t roles) roles rest,
      )
      | inr e ↦ subst whole (sym (search_no t k r roles e)) (ground (arith, e), rest)
    ]

erase_each_nil : (xs : List Role) → erase_each xs [] ≡ []
unfolding erase_role
erase_each_nil [] = refl
erase_each_nil (x ∷ xs) = erase_each_nil xs

search_nil : (t : RoleAttributes) → search_matching t [] ≡ []
unfolding search_matching
search_nil t = refl

erased :
    (t : RoleAttributes) (xs : List Role) (roles : RoleMap)
    → Covers t xs roles
    → search_matching t (erase_each xs roles) ≡ []
unfolding search_matching
erased t xs [] h = ap (search_matching t) (erase_each_nil xs) ∙ search_nil t
erased t xs ((k, r) ∷ roles) h =
    rw (erase_each_cons xs k r roles) (ground (arith, h.0, erased t xs roles h.1))

AllRoles-search_matching :
    (t : RoleAttributes) (roles : RoleMap) → WellKeyed roles → AllRoles (search_matching t roles)
unfolding search_matching
AllRoles-search_matching t [] w = tt
AllRoles-search_matching t ((k, r) ∷ roles) w =
    ground (arith, w.0.1, AllRoles-search_matching t roles w.1)

WellKeyed-put :
    (r : Role) (roles : RoleMap)
    → IsComplete r.attributes
    → WellKeyed roles
    → WellKeyed (put (number r.attributes.channel_id) r roles)
unfolding try_add
WellKeyed-put r [] c w = ((refl, c), tt)
WellKeyed-put r (x ∷ roles) c w = (w.0, WellKeyed-put r roles c w.1)

WellKeyed-erase_role :
    (key : ℕ) (t : RoleAttributes) (roles : RoleMap)
    → WellKeyed roles
    → WellKeyed (erase_role key t roles)
unfolding erase_role
WellKeyed-erase_role key t [] w = tt
WellKeyed-erase_role key t ((k, r) ∷ roles) w =
    ground (arith, w, WellKeyed-erase_role key t roles w.1)

abbrev pub Keyed : ChannelManager → Type 0
Keyed m = WellKeyed m.channel_writers × WellKeyed m.channel_readers

Keyed-change :
    (op : OperateType) (w : Bool) (msg : ChangeMsg) (m : ChannelManager)
    → IsComplete msg.role_attr
    → w ≡ is_writer msg.role_type
    → Keyed m
    → Keyed (dispose_as op msg m)
unfolding dispose_join dispose_leave
Keyed-change opt_join true msg m c e (p, q) =
    rw (← e) (WellKeyed-put (role_of msg.role_attr msg.timestamp) m.channel_writers c p, q)
Keyed-change opt_join false msg m c e (p, q) =
    rw (← e) (p, WellKeyed-put (role_of msg.role_attr msg.timestamp) m.channel_readers c q)
Keyed-change opt_leave true msg m c e (p, q) =
    rw (← e) (WellKeyed-erase_role _ msg.role_attr m.channel_writers p, q)
Keyed-change opt_leave false msg m c e (p, q) =
    rw (← e) (p, WellKeyed-erase_role _ msg.role_attr m.channel_readers q)

Keyed-dispose_all :
    (msgs : List ChangeMsg) (m : ChannelManager)
    → AllComplete msgs
    → Keyed m
    → Keyed (dispose_all msgs m)
unfolding dispose
Keyed-dispose_all [] m c k = k
Keyed-dispose_all (msg ∷ msgs) m c k =
    Keyed-dispose_all msgs (dispose msg m) c.1
      (Keyed-change msg.operate_type (is_writer msg.role_type) msg m c.0 refl k)

leaves_none :
    (o : Manager) (now : ℕ) (host : Key) (process : ℕ) (m : ChannelManager)
    → Keyed m
    → (search_matching
          (of_process host process)
          (leave_each o now role_reader
            (search_matching (of_process host process) m.channel_readers)
            (leave_each o now role_writer
              (search_matching (of_process host process) m.channel_writers)
              m)).channel_writers
        ≡ [])
      × (search_matching
            (of_process host process)
            (leave_each o now role_reader
              (search_matching (of_process host process) m.channel_readers)
              (leave_each o now role_writer
                (search_matching (of_process host process) m.channel_writers)
                m)).channel_readers
          ≡ [])
leaves_none o now host process m (p, q) =
    let t = of_process host process in
    let ws = search_matching t m.channel_writers in
    let rs = search_matching t m.channel_readers in
    let (a, b) = leave_each_writers o now ws m (AllRoles-search_matching t m.channel_writers p) in
    let (c, d) =
      leave_each_readers o now rs (leave_each o now role_writer ws m)
        (AllRoles-search_matching t m.channel_readers q) in
    (
      ap (search_matching t) (d ∙ a)
          ∙ erased t ws m.channel_writers (Covers-search_matching t m.channel_writers p),
      ap (search_matching t) (c ∙ ap (erase_each rs) b)
          ∙ erased t rs m.channel_readers (Covers-search_matching t m.channel_readers q),
    )

-- After any messages that name their host and process, once discovery has started, the leave of a
-- process leaves no writer and no reader of that process in the tables by channel.
pub on_topo_module_leave-dispose_all :
    (o : Manager) (now : ℕ) (host : Key) (process : ℕ) (msgs : List ChangeMsg)
    → o.is_discovery_started ≡ true
    → AllComplete msgs
    → (search_matching
          (of_process host process)
          (on_topo_module_leave o now host process (dispose_all msgs fresh)).channel_writers
        ≡ [])
      × (search_matching
            (of_process host process)
            (on_topo_module_leave o now host process (dispose_all msgs fresh)).channel_readers
          ≡ [])
unfolding on_topo_module_leave
on_topo_module_leave-dispose_all o now host process msgs s c = rw s (
    leaves_none o now host process (dispose_all msgs fresh)
      (Keyed-dispose_all msgs fresh c (tt, tt)))
