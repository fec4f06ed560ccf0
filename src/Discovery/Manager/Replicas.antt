-- ===== src/Discovery/Manager/Replicas.antt =====
-- Two processes that hear of the same changes.
use cyber_rt_standalone_r.Prelude.{
  ℕ, ◌≡◌, ◌≢◌, ◌⊎◌, none, ◌==◌, ==_iff, refl, sym, subst, ◌∙◌, inl, inr, List, [], ◌∷◌, Bool, true,
  false, ◌||◌, not, Option, some, arith, Bool-cases,
}
use cyber_rt_standalone_r.Discovery.Keys.{Key, key_eq, key_eq_refl, key_eq_iff}
use cyber_rt_standalone_r.Discovery.Role.{RoleAttributes}
use cyber_rt_standalone_r.Discovery.Manager.{
  ChangeMsg, RoleType, opt_join, Manager, convert, is_from_same_process, publish, join,
  on_remote_change,
}

module _ {S : Type 0} (serialize : ChangeMsg → Option Key) (write : Key → Bool)
    (parse : Key → Option ChangeMsg) (allowed : RoleType → Bool) (check : RoleAttributes → Bool)
    (dispose : ChangeMsg → S → S) where
  -- A process hears what was written, in order.
  abbrev pub hear : Manager → List Key → S → S
  hear m [] s = s
  hear m (str ∷ strs) s =
      hear m strs (on_remote_change serialize write allowed check dispose parse m str s)

  -- A process hears one message that it can parse and accepts.
  heard :
      (b : Manager) (str : Key) (msg : ChangeMsg) (s : S)
      → b.is_shutdown ≡ false
      → parse str ≡ some msg
      → is_from_same_process b msg ≡ false
      → check msg.role_attr ≡ true
      → on_remote_change serialize write allowed check dispose parse b str s ≡ dispose msg s
  unfolding on_remote_change
  heard b str msg s n p d c = rw (n, p, d, c) refl

  ignored :
      (b : Manager) (str : Key) (msg : ChangeMsg) (s : S)
      → parse str ≡ some msg
      → is_from_same_process b msg ≡ true
      → on_remote_change serialize write allowed check dispose parse b str s ≡ s
  unfolding on_remote_change
  ignored b str msg s p d = elim (Bool-cases b.is_shutdown) [
    | inl e ↦ rw e refl
    | inr e ↦ rw (e, p, d) refl
  ]

  announced :
      (a : Manager) (now : ℕ) (attr : RoleAttributes) (role : RoleType) (str : Key) (s : S)
      → a.is_discovery_started ≡ true
      → a.has_publisher ≡ true
      → serialize (convert a now attr role opt_join) ≡ some str
      → (a.is_shutdown || not (allowed role) || not (check attr)) ≡ false
      → join serialize write allowed check dispose a now true attr role s
        ≡ (str ∷ [], (write str, dispose (convert a now attr role opt_join) s))
  unfolding join publish
  announced a now attr role str s ga gp ps e = simp (e, ga, gp, ps)

  own_process :
      (a : Manager) (now : ℕ) (attr : RoleAttributes) (role : RoleType)
      → attr.host_name ≡ none
      → attr.process_id ≡ none
      → is_from_same_process a (convert a now attr role opt_join) ≡ true
  unfolding convert is_from_same_process
  own_process a now attr role h p =
      let e : (a.process_id == a.process_id) ≡ true = (==_iff a.process_id a.process_id).1 refl in
      rw (h, p, e, key_eq_refl a.host_name) refl

  other_process :
      (a b : Manager) (now : ℕ) (attr : RoleAttributes) (role : RoleType)
      → attr.host_name ≡ none
      → attr.process_id ≡ none
      → (a.process_id ≢ b.process_id) ⊎ (a.host_name ≢ b.host_name)
      → is_from_same_process b (convert a now attr role opt_join) ≡ false
  unfolding convert is_from_same_process
  other_process a b now attr role h p (inl d) = rw (h, p) (ground (arith, d))
  other_process a b now attr role h p (inr d) =
      let k : key_eq a.host_name b.host_name ≡ false =
        elim (Bool-cases (key_eq a.host_name b.host_name)) [
          | inl e ↦ absurd (d ((key_eq_iff a.host_name b.host_name).0 e))
          | inr e ↦ e
        ] in
      rw (h, p, k) (ground arith)

  -- What a join that a started manager with a publisher announces does to the state of another process
  -- that hears it, and to that of its own process, which hears it too, for attributes that name no host and
  -- no process and a change that does not look at the process that makes it, as those of channels and
  -- services: if the message is printed and parsed back and the check does not mind what `Convert` fills
  -- in, a process that is not shut down, with another process id or on another host, is changed in the
  -- same way, and the own one not again.
  pub hear-join :
      (a b : Manager) (now : ℕ) (attr : RoleAttributes) (role : RoleType) (str : Key) (s : S)
      → a.is_discovery_started ≡ true
      → a.has_publisher ≡ true
      → b.is_shutdown ≡ false
      → serialize (convert a now attr role opt_join) ≡ some str
      → parse str ≡ some (convert a now attr role opt_join)
      → check (convert a now attr role opt_join).role_attr ≡ check attr
      → attr.host_name ≡ none
      → attr.process_id ≡ none
      → (a.process_id ≢ b.process_id) ⊎ (a.host_name ≢ b.host_name)
      → let out = join serialize write allowed check dispose a now true attr role s in
        (hear b out.0 s ≡ out.1.1) × (hear a out.0 out.1.1 ≡ out.1.1)
  unfolding join publish
  hear-join a b now attr role str s ga gp nb ps pp pc nh np d =
      let db = other_process a b now attr role nh np d in
      let da = own_process a now attr role nh np in
      elim (Bool-cases (a.is_shutdown || not (allowed role) || not (check attr))) [
        | inl e ↦ rw e (refl, refl)
        | inr e ↦
            subst
              (λ (o : List Key × (Bool × S)). (hear b o.0 s ≡ o.1.1) × (hear a o.0 o.1.1 ≡ o.1.1))
              (sym (announced a now attr role str s ga gp ps e))
              (
                heard b str (convert a now attr role opt_join) s nb pp db (pc ∙ ground (arith, e)),
                ignored a str (convert a now attr role opt_join) _ pp da,
              )
      ]
