-- ===== src/Data/Dispatch/Seen.antt =====
-- What the polls of one visitor deliver, among everything else that happens.
use cyber_rt_standalone_r.Prelude.{
  ℕ, ◌+◌, ◌^◌, ◌≤◌, ◌<◌, ◌≡◌, inl, inr, refl, sym, ap, subst, ◌∙◌, List, [], ◌∷◌, ◌++◌, Bool, true,
  false, not, ◌&&◌, Option, some, none, if◌then◌else◌, ◌==◌, ==_iff, arith, Bool-cases, length,
}
use cyber_rt_standalone_r.Data.Visitor.{
  Visitor, create, Event, arrive, poll, try_fetch, arrival, run, delivered,
}
use cyber_rt_standalone_r.Data.Visitor.Delivery.{arrivals, InOrder, create-Reading, run-InOrder}
use cyber_rt_standalone_r.Data.Dispatch.{
  Dispatcher, listed, locked, changed, dispatch, dispatch_to, attach, fetched, poll_of, Happening,
  attached, registers, destroyed, dispatched, polled, happen,
}
use cyber_rt_standalone_r.Data.Dispatch.Attached.{
  times_in, locked_other, locked_same, locked-append, locked_last, fill_none, fill_once, Knows,
  IsFresh, attached-Knows, happen-IsFresh, happen-Knows,
}

abbrev pub nothing_yet : {T : Type 0} → Dispatcher T
nothing_yet = record { visitors = []; buffers_map = []; notifies_map = []; registered = [] }

abbrev pub happen_all : {T : Type 0} → T → List (Happening T) → Dispatcher T → Dispatcher T
happen_all default [] d = d
happen_all default (x ∷ xs) d = happen_all default xs (happen default x d)

module _ {T : Type 0} (default : T) (n : ℕ) where
  -- What the polls of the visitor `n` deliver.
  abbrev outcome : Happening T → Dispatcher T → Option (ℕ × T)
  outcome (polled k) d = if k == n then (poll_of default k d).0 else none
  outcome x d = none

  abbrev pub seen : Dispatcher T → List (Happening T) → List (ℕ × T)
  seen d [] = []
  seen d (x ∷ xs) = delivered default (outcome x d) (seen (happen default x d) xs)

  abbrev spares : Happening T → Bool
  spares (destroyed k) = not (k == n)
  spares x = true

  -- The visitor is not destroyed.
  abbrev pub spare : List (Happening T) → Bool
  spare [] = true
  spare (x ∷ xs) = spares x && spare xs

  module _ (c : ℕ) where
    -- What it comes to for a visitor of the channel `c`.
    abbrev event_of : Happening T → List (Event T)
    event_of (dispatched down id m) = if not down && c == id then arrive m ∷ [] else []
    event_of (polled k) = if k == n then poll ∷ [] else []
    event_of x = []

    abbrev pub events : List (Happening T) → List (Event T)
    events [] = []
    events (x ∷ xs) = event_of x ++ events xs

    -- One more happening, for the visitor that `n` stands for.
    abbrev Follows : Visitor T → Happening T → Dispatcher T → Type 0
    Follows v x d =
        (v' : Visitor T) × ((locked n (happen default x d).visitors ≡ some v')
          × ((es : List (Event T))
              → delivered default (outcome x d) (run default v' es)
                ≡ run default v (event_of x ++ es)))

    dispatch_to-locked :
        (id : ℕ) (m : T) (o : Option (List ℕ)) (v : Visitor T) (d : Dispatcher T)
        → times_in n o ≡ 1
        → locked n d.visitors ≡ some v
        → locked n (dispatch_to id m o d).2.visitors ≡ some (arrival v m)
    dispatch_to-locked id m none v d h l = absurd (omega (arith, h))
    dispatch_to-locked id m (some ns) v d h l = fill_once m n ns d.visitors v h l

    dispatch_elsewhere :
        (id : ℕ) (m : T) (o : Option (List ℕ)) (d : Dispatcher T)
        → times_in n o ≡ 0
        → locked n (dispatch_to id m o d).2.visitors ≡ locked n d.visitors
    dispatch_elsewhere id m none d h = refl
    dispatch_elsewhere id m (some ns) d h = fill_none m n ns d.visitors h

    fetched_other :
        (k : ℕ) (o : Option (Visitor T)) (d : Dispatcher T)
        → (k == n) ≡ false
        → locked n (fetched default k o d).1.visitors ≡ locked n d.visitors
    fetched_other k none d e = refl
    fetched_other k (some u) d e = locked_other (λ o. some (try_fetch default u).1) k n d.visitors e

    dispatched-Follows :
        (down : Bool) (id : ℕ) (m : T) (v : Visitor T) (d : Dispatcher T)
        → Knows n c d
        → locked n d.visitors ≡ some v
        → Follows v (dispatched down id m) d
    unfolding dispatch run
    dispatched-Follows true id m v d k l = (v, (l, λ es. refl))
    dispatched-Follows false id m v d k l =
        let o = listed id d.buffers_map in
        elim (Bool-cases (c == id)) [
          | inl e ↦
              let h : times_in n o ≡ 1 = k.on id ∙ rw e refl in
              (arrival v m, (dispatch_to-locked id m o v d h l, λ es. rw e refl))
          | inr e ↦
              let h : times_in n o ≡ 0 = k.on id ∙ rw e refl in
              (v, (dispatch_elsewhere id m o d h ∙ l, λ es. rw e refl))
        ]

    polled-Follows :
        (k : ℕ) (v : Visitor T) (d : Dispatcher T)
        → locked n d.visitors ≡ some v
        → Follows v (polled k) d
    unfolding run
    polled-Follows k v d l = elim (Bool-cases (k == n)) [
      | inl e ↦
          let z : k ≡ n = (==_iff k n).0 e in
          let q : locked k d.visitors ≡ some v = ap (λ i. locked i d.visitors) z ∙ l in
          let u = (try_fetch default v).1 in
          (
            u,
            (
              ap (λ o. locked n (fetched default k o d).1.visitors) q
                  ∙ (ap (λ i. locked n (changed (λ o. some u) i d.visitors)) z
                      ∙ locked_same (λ o. some u) n d.visitors v l),
              λ es. rw (e, q) refl,
            ),
          )
      | inr e ↦ (v, (fetched_other k (locked k d.visitors) d e ∙ l, λ es. rw e refl))
    ]

    happen-Follows :
        (x : Happening T) (v : Visitor T) (d : Dispatcher T)
        → Knows n c d
        → locked n d.visitors ≡ some v
        → spares x ≡ true
        → Follows v x d
    happen-Follows (attached id size) v d k l s =
        (v, (locked-append n d.visitors (some (create default size) ∷ []) v l, λ es. refl))
    happen-Follows (registers i) v d k l s = (v, (l, λ es. refl))
    happen-Follows (destroyed i) v d k l s =
        (v, (locked_other (λ o. none) i n d.visitors (ground (arith, s)) ∙ l, λ es. refl))
    happen-Follows (dispatched down id m) v d k l s = dispatched-Follows down id m v d k l
    happen-Follows (polled i) v d k l s = polled-Follows i v d l

    seen-run :
        (xs : List (Happening T)) (v : Visitor T) (d : Dispatcher T)
        → Knows n c d
        → locked n d.visitors ≡ some v
        → spare xs ≡ true
        → seen d xs ≡ run default v (events xs)
    unfolding run
    seen-run [] v d k l s = refl
    seen-run (x ∷ xs) v d k l s =
        let (v', (l', f)) = happen-Follows x v d k l (ground (arith, s)) in
        ap (delivered default (outcome x d)) (
          seen-run xs v' (happen default x d) (happen-Knows default n c x d k) l'
            (ground (arith, s)))
        ∙ f (events xs)

    length-events : (xs : List (Happening T)) → length (events xs) ≤ length xs
    length-events [] = omega arith
    length-events (attached id size ∷ xs) = omega (arith, length-events xs)
    length-events (registers i ∷ xs) = omega (arith, length-events xs)
    length-events (destroyed i ∷ xs) = omega (arith, length-events xs)
    length-events (dispatched down id m ∷ xs) = elim (Bool-cases (not down && c == id)) [
      | inl e ↦ rw e (omega (arith, length-events xs))
      | inr e ↦ rw e (omega (arith, length-events xs))
    ]
    length-events (polled k ∷ xs) = elim (Bool-cases (k == n)) [
      | inl e ↦ rw e (omega (arith, length-events xs))
      | inr e ↦ rw e (omega (arith, length-events xs))
    ]

pub happen_all-IsFresh :
    {T : Type 0} (default : T) (xs : List (Happening T)) (d : Dispatcher T)
    → IsFresh d
    → IsFresh (happen_all default xs d)
happen_all-IsFresh default [] d f = f
happen_all-IsFresh default (x ∷ xs) d f =
    happen_all-IsFresh default xs (happen default x d) (happen-IsFresh default x d f)

-- A process in which something has happened, and the number of the visitor that comes next.
abbrev pub process : {T : Type 0} → T → List (Happening T) → Dispatcher T
process default past = happen_all default past nothing_yet

abbrev pub next_number : {T : Type 0} → T → List (Happening T) → ℕ
next_number default past = length (process default past).visitors

-- Whatever has happened in a process, and whatever happens to its other visitors: a visitor with a queue that
-- is not empty, attached to a channel and not destroyed, is delivered messages that were dispatched on
-- its channel since, in their order, each at its own position and none twice.
pub seen-InOrder :
    {T : Type 0} (default : T) (past xs : List (Happening T)) (c size : ℕ)
    → 0 < size
    → size + 1 < 2 ^ 64
    → length xs + 3 < 2 ^ 64
    → spare default (next_number default past) xs ≡ true
    → InOrder default size 0
        (arrivals (events default (next_number default past) c xs))
        (seen default (next_number default past) (attach default c size (process default past)) xs)
unfolding create listed
seen-InOrder default past xs c size pos small room s =
    let d = process default past in
    let n = next_number default past in
    let v = create default size in
    let f = happen_all-IsFresh default past nothing_yet (λ i id h. refl) in
    subst (InOrder default size 0 (arrivals (events default n c xs)))
      (sym (
        seen-run default n c xs v (attach default c size d) (attached-Knows default c size d f)
          (locked_last d.visitors v) s))
      (run-InOrder default size v [] (events default n c xs) (create-Reading default size small) pos
        (omega (arith, room, length-events default n c xs)))
