-- ===== src/Data/Dispatch/Wakes.antt =====
-- A dispatch calls back the visitors of its channel.
use cyber_rt_standalone_r.Prelude.{
  ℕ, ◌≡◌, inl, inr, refl, sym, ap, ◌∙◌, List, [], ◌∷◌, true, false, Option, some, none,
  if◌then◌else◌, ◌==◌, ==_iff, arith, Bool-cases, length,
}
use cyber_rt_standalone_r.Data.Visitor.{Visitor}
use cyber_rt_standalone_r.Data.Dispatch.{
  Dispatcher, enlist, listed, locked, contains, callbacks_of, notified, dispatch, dispatch_to,
  attach, fetched, Happening, attached, registers, destroyed, dispatched, polled, happen,
}
use cyber_rt_standalone_r.Data.Dispatch.Attached.{
  times, times_in, Knows, attached-Knows, happen-Knows,
}
use cyber_rt_standalone_r.Data.Dispatch.Seen.{
  nothing_yet, happen_all, process, next_number, happen_all-IsFresh,
}

times-callbacks_of :
    (n : ℕ) (registered ns : List ℕ)
    → contains n registered ≡ true
    → times n (callbacks_of registered ns) ≡ times n ns
times-callbacks_of n registered [] h = refl
times-callbacks_of n registered (k ∷ ns) h = elim (Bool-cases (contains k registered)) [
  | inl e ↦ rw e (omega (arith, times-callbacks_of n registered ns h))
  | inr e ↦ elim (Bool-cases (k == n)) [
    | inl f ↦
        let z : contains k registered ≡ contains n registered =
          ap (λ i. contains i registered) ((==_iff k n).0 f) in
        absurd (ground (arith, e, h, z))
    | inr f ↦ rw (e, f) (omega (arith, times-callbacks_of n registered ns h))
  ]
]

module _ {T : Type 0} (default : T) where
  maps-dispatch_to :
      (id : ℕ) (m : T) (o : Option (List ℕ)) (d : Dispatcher T)
      → d.notifies_map ≡ d.buffers_map
      → (dispatch_to id m o d).2.notifies_map ≡ (dispatch_to id m o d).2.buffers_map
  maps-dispatch_to id m none d h = h
  maps-dispatch_to id m (some ns) d h = h

  maps-fetched :
      (k : ℕ) (o : Option (Visitor T)) (d : Dispatcher T)
      → d.notifies_map ≡ d.buffers_map
      → (fetched default k o d).1.notifies_map ≡ (fetched default k o d).1.buffers_map
  maps-fetched k none d h = h
  maps-fetched k (some v) d h = h

  -- Buffers and notifiers are listed alike.
  maps-happen :
      (x : Happening T) (d : Dispatcher T)
      → d.notifies_map ≡ d.buffers_map
      → (happen default x d).notifies_map ≡ (happen default x d).buffers_map
  unfolding dispatch
  maps-happen (attached id size) d h = ap (enlist id (length d.visitors)) h
  maps-happen (registers i) d h = h
  maps-happen (destroyed i) d h = h
  maps-happen (dispatched true id m) d h = h
  maps-happen (dispatched false id m) d h = maps-dispatch_to id m (listed id d.buffers_map) d h
  maps-happen (polled i) d h = maps-fetched i (locked i d.visitors) d h

  maps-happen_all :
      (xs : List (Happening T)) (d : Dispatcher T)
      → d.notifies_map ≡ d.buffers_map
      → (happen_all default xs d).notifies_map ≡ (happen_all default xs d).buffers_map
  maps-happen_all [] d h = h
  maps-happen_all (x ∷ xs) d h = maps-happen_all xs (happen default x d) (maps-happen x d h)

  happen_all-Knows :
      (n c : ℕ) (xs : List (Happening T)) (d : Dispatcher T)
      → Knows n c d
      → Knows n c (happen_all default xs d)
  happen_all-Knows n c [] d k = k
  happen_all-Knows n c (x ∷ xs) d k =
      happen_all-Knows n c xs (happen default x d) (happen-Knows default n c x d k)

  times-notified :
      (n : ℕ) (registered : List ℕ) (o : Option (List ℕ))
      → contains n registered ≡ true
      → times n (notified registered o).1 ≡ times_in n o
  times-notified n registered none h = refl
  times-notified n registered (some ns) h = times-callbacks_of n registered ns h

  called-dispatch_to :
      (n id : ℕ) (m : T) (o : Option (List ℕ)) (d : Dispatcher T)
      → o ≡ listed id d.notifies_map
      → contains n d.registered ≡ true
      → times n (dispatch_to id m o d).1 ≡ times_in n o
  called-dispatch_to n id m none d e h = refl
  called-dispatch_to n id m (some ns) d e h =
      times-notified n d.registered (listed id d.notifies_map) h ∙ ap (times_in n) (sym e)

-- Whatever has happened before and since a visitor was attached to a channel: if it has registered a
-- callback, a dispatch of a process that is not shut down calls it once on this channel, and not at all on
-- another.
pub times-dispatch :
    {T : Type 0} (default : T) (past xs : List (Happening T)) (c size id : ℕ) (m : T)
    → contains
        (next_number default past)
        (happen_all default xs (attach default c size (process default past))).registered
      ≡ true
    → times
        (next_number default past)
        (dispatch false id m
          (happen_all default xs (attach default c size (process default past)))).1
      ≡ (if c == id then 1 else 0)
unfolding dispatch listed
times-dispatch default past xs c size id m h =
    let n = next_number default past in
    let d0 = attach default c size (process default past) in
    let d = happen_all default xs d0 in
    let f = happen_all-IsFresh default past nothing_yet (λ i j l. refl) in
    let k =
      happen_all-Knows default n c xs d0 (attached-Knows default c size (process default past) f) in
    let e =
      maps-happen_all default xs d0
        (ap (enlist c n) (maps-happen_all default past nothing_yet refl)) in
    called-dispatch_to default n id m (listed id d.buffers_map) d (ap (listed id) (sym e)) h
    ∙ k.on id
