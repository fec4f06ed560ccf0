-- ===== src/Data/Dispatch/Attached.antt =====
-- Each visitor sees its channel.
use cyber_rt_standalone_r.Prelude.{
  ℕ, zero, suc, ◌+◌, ◌≤◌, ◌<◌, ◌≡◌, inl, inr, refl, ap, ◌∙◌, List, [], ◌∷◌, ◌++◌, true, false, ◌&&◌,
  Option, some, none, if◌then◌else◌, ◌==◌, ==_iff, arith, Bool-cases, length, length-append,
}
use cyber_rt_standalone_r.Data.Visitor.{Visitor, create, try_fetch, arrival}
use cyber_rt_standalone_r.Data.Dispatch.{
  Dispatcher, enlist, listed, locked, changed, filled, fill_all, dispatch, dispatch_to, attach,
  register, destroy, fetched, Happening, attached, registers, destroyed, dispatched, polled, happen,
}

-- How often a number stands in a list.
abbrev pub times : ℕ → List ℕ → ℕ
times n [] = 0
times n (k ∷ ns) = (if k == n then 1 else 0) + times n ns

abbrev pub times_in : ℕ → Option (List ℕ) → ℕ
times_in n none = 0
times_in n (some ns) = times n ns

times-snoc :
    (n k : ℕ) (ns : List ℕ) → times n (ns ++ k ∷ []) ≡ times n ns + (if k == n then 1 else 0)
times-snoc n k [] = omega arith
times-snoc n k (i ∷ ns) = omega (arith, times-snoc n k ns)

times-enlist :
    (n id k c : ℕ) (m : List (ℕ × List ℕ))
    → times_in n (listed c (enlist id k m))
      ≡ times_in n (listed c m) + (if id == c && k == n then 1 else 0)
unfolding enlist listed
times-enlist n id k c [] = elim (Bool-cases (id == c)) [
  | inl e ↦ rw e (omega arith)
  | inr e ↦ rw e (omega arith)
]
times-enlist n id k c ((i, ns) ∷ m) = elim (Bool-cases (i == id)) [
  | inl e ↦ elim (Bool-cases (i == c)) [
    | inl f ↦ rw (e, f) (ground (arith, e, f, times-snoc n k ns))
    | inr f ↦ rw (e, f) (ground (arith, e, f))
  ]
  | inr e ↦ elim (Bool-cases (i == c)) [
    | inl f ↦ rw (e, f) (ground (arith, e, f))
    | inr f ↦ rw (e, f) (times-enlist n id k c m)
  ]
]

module _ {T : Type 0} where
  pub locked_other :
      (f : Option (Visitor T) → Option (Visitor T)) (k n : ℕ) (os : List (Option (Visitor T)))
      → (k == n) ≡ false
      → locked n (changed f k os) ≡ locked n os
  unfolding locked changed
  locked_other f k n [] e = refl
  locked_other f zero zero (o ∷ os) e = absurd (ground (arith, e))
  locked_other f zero (suc n) (o ∷ os) e = refl
  locked_other f (suc k) zero (o ∷ os) e = refl
  locked_other f (suc k) (suc n) (o ∷ os) e = locked_other f k n os (ground (arith, e))

  pub locked_same :
      (f : Option (Visitor T) → Option (Visitor T)) (n : ℕ) (os : List (Option (Visitor T)))
      (v : Visitor T)
      → locked n os ≡ some v
      → locked n (changed f n os) ≡ f (some v)
  unfolding locked changed
  locked_same f n [] v h = absurd cc
  locked_same f zero (o ∷ os) v h = ap f h
  locked_same f (suc n) (o ∷ os) v h = locked_same f n os v h

  length-changed :
      (f : Option (Visitor T) → Option (Visitor T)) (k : ℕ) (os : List (Option (Visitor T)))
      → length (changed f k os) ≡ length os
  unfolding changed
  length-changed f k [] = refl
  length-changed f zero (o ∷ os) = refl
  length-changed f (suc k) (o ∷ os) = ap suc (length-changed f k os)

  pub locked-append :
      (n : ℕ) (os ys : List (Option (Visitor T))) (v : Visitor T)
      → locked n os ≡ some v
      → locked n (os ++ ys) ≡ some v
  unfolding locked
  locked-append n [] ys v h = absurd cc
  locked-append zero (o ∷ os) ys v h = h
  locked-append (suc n) (o ∷ os) ys v h = locked-append n os ys v h

  pub locked_last :
      (os : List (Option (Visitor T))) (v : Visitor T)
      → locked (length os) (os ++ some v ∷ []) ≡ some v
  unfolding locked
  locked_last [] v = refl
  locked_last (o ∷ os) v = locked_last os v

  -- A visitor that is not among those that are filled, and one that is among them once.
  pub fill_none :
      (m : T) (n : ℕ) (ns : List ℕ) (os : List (Option (Visitor T)))
      → times n ns ≡ 0
      → locked n (fill_all m ns os) ≡ locked n os
  fill_none m n [] os h = refl
  fill_none m n (k ∷ ns) os h =
      fill_none m n ns (changed (filled m) k os) (ground (arith, h))
      ∙ locked_other (filled m) k n os (ground (arith, h))

  pub fill_once :
      (m : T) (n : ℕ) (ns : List ℕ) (os : List (Option (Visitor T))) (v : Visitor T)
      → times n ns ≡ 1
      → locked n os ≡ some v
      → locked n (fill_all m ns os) ≡ some (arrival v m)
  fill_once m n [] os v h l = absurd (omega (arith, h))
  fill_once m n (k ∷ ns) os v h l = elim (Bool-cases (k == n)) [
    | inl e ↦
        let z : k ≡ n = (==_iff k n).0 e in
        let t : times n ns ≡ 0 = ground (arith, h, e) in
        fill_none m n ns (changed (filled m) k os) t
        ∙ (ap (λ i. locked n (changed (filled m) i os)) z ∙ locked_same (filled m) n os v l)
    | inr e ↦
        fill_once m n ns (changed (filled m) k os) v (ground (arith, h, e))
          (locked_other (filled m) k n os e ∙ l)
  ]

  length-fill_all :
      (m : T) (ns : List ℕ) (os : List (Option (Visitor T))) → length (fill_all m ns os) ≡ length os
  length-fill_all m [] os = refl
  length-fill_all m (k ∷ ns) os =
      length-fill_all m ns (changed (filled m) k os) ∙ length-changed (filled m) k os

module _ {T : Type 0} where
  -- The number `n` stands for one visitor, of the channel `c`.
  pub record Knows (n c : ℕ) (d : Dispatcher T) : Type 0 where
    pub made : n < length d.visitors
    pub on : (id : ℕ) → times_in n (listed id d.buffers_map) ≡ (if c == id then 1 else 0)

  -- Numbers that have not been given out are on no channel.
  abbrev pub IsFresh : Dispatcher T → Type 0
  IsFresh d = (n id : ℕ) → length d.visitors ≤ n → times_in n (listed id d.buffers_map) ≡ 0

  same-Knows :
      (n c : ℕ) (d e : Dispatcher T)
      → length e.visitors ≡ length d.visitors
      → e.buffers_map ≡ d.buffers_map
      → Knows n c d
      → Knows n c e
  same-Knows n c d e l m k = record {
    made = omega (arith, k.made, l);
    on = λ id. ap (λ x. times_in n (listed id x)) m ∙ k.on id;
  }

  same-IsFresh :
      (d e : Dispatcher T)
      → length e.visitors ≡ length d.visitors
      → e.buffers_map ≡ d.buffers_map
      → IsFresh d
      → IsFresh e
  same-IsFresh d e l m f =
      λ n id h. ap (λ x. times_in n (listed id x)) m ∙ f n id (omega (arith, h, l))

  -- What does not attach a visitor leaves the maps and the numbers.
  length-dispatch_to :
      (id : ℕ) (m : T) (o : Option (List ℕ)) (d : Dispatcher T)
      → length (dispatch_to id m o d).2.visitors ≡ length d.visitors
  length-dispatch_to id m none d = refl
  length-dispatch_to id m (some ns) d = length-fill_all m ns d.visitors

  map-dispatch_to :
      (id : ℕ) (m : T) (o : Option (List ℕ)) (d : Dispatcher T)
      → (dispatch_to id m o d).2.buffers_map ≡ d.buffers_map
  map-dispatch_to id m none d = refl
  map-dispatch_to id m (some ns) d = refl

  length-fetched :
      (default : T) (k : ℕ) (o : Option (Visitor T)) (d : Dispatcher T)
      → length (fetched default k o d).1.visitors ≡ length d.visitors
  length-fetched default k none d = refl
  length-fetched default k (some v) d =
      length-changed (λ o. some (try_fetch default v).1) k d.visitors

  map-fetched :
      (default : T) (k : ℕ) (o : Option (Visitor T)) (d : Dispatcher T)
      → (fetched default k o d).1.buffers_map ≡ d.buffers_map
  map-fetched default k none d = refl
  map-fetched default k (some v) d = refl

  attach-IsFresh :
      (default : T) (id size : ℕ) (d : Dispatcher T)
      → IsFresh d
      → IsFresh (attach default id size d)
  attach-IsFresh default id size d f = λ n c h.
      let k = length d.visitors in
      let l = length-append d.visitors (some (create default size) ∷ []) in
      let z = f n c (omega (arith, h, l)) in
      let x = times-enlist n id k c d.buffers_map in ground (arith, x, z, h, l)

  attach-Knows :
      (default : T) (id size n c : ℕ) (d : Dispatcher T)
      → Knows n c d
      → Knows n c (attach default id size d)
  attach-Knows default id size n c d k = record {
    made = omega (arith, k.made, length-append d.visitors (some (create default size) ∷ []));
    on = λ i.
        let x = times-enlist n id (length d.visitors) i d.buffers_map in
        let y = k.on i in let z = k.made in ground (arith, x, y, z);
  }

  -- A visitor that has just been attached.
  pub attached-Knows :
      (default : T) (id size : ℕ) (d : Dispatcher T)
      → IsFresh d
      → Knows (length d.visitors) id (attach default id size d)
  attached-Knows default id size d f = record {
    made = omega (arith, length-append d.visitors (some (create default size) ∷ []));
    on = λ i.
        let n = length d.visitors in
        let x = times-enlist n id n i d.buffers_map in
        let y = f n i (omega arith) in ground (arith, x, y);
  }

  pub happen-IsFresh :
      (default : T) (x : Happening T) (d : Dispatcher T) → IsFresh d → IsFresh (happen default x d)
  unfolding dispatch
  happen-IsFresh default (attached id size) d f = attach-IsFresh default id size d f
  happen-IsFresh default (registers k) d f = f
  happen-IsFresh default (destroyed k) d f =
      same-IsFresh d (destroy k d) (length-changed (λ o. none) k d.visitors) refl f
  happen-IsFresh default (dispatched true id m) d f = f
  happen-IsFresh default (dispatched false id m) d f =
      let o = listed id d.buffers_map in
      same-IsFresh d (dispatch_to id m o d).2 (length-dispatch_to id m o d)
        (map-dispatch_to id m o d) f
  happen-IsFresh default (polled k) d f =
      let o = locked k d.visitors in
      same-IsFresh d (fetched default k o d).1 (length-fetched default k o d)
        (map-fetched default k o d) f

  pub happen-Knows :
      (default : T) (n c : ℕ) (x : Happening T) (d : Dispatcher T)
      → Knows n c d
      → Knows n c (happen default x d)
  unfolding dispatch
  happen-Knows default n c (attached id size) d k = attach-Knows default id size n c d k
  happen-Knows default n c (registers i) d k = same-Knows n c d (register i d) refl refl k
  happen-Knows default n c (destroyed i) d k =
      same-Knows n c d (destroy i d) (length-changed (λ o. none) i d.visitors) refl k
  happen-Knows default n c (dispatched true id m) d k = k
  happen-Knows default n c (dispatched false id m) d k =
      let o = listed id d.buffers_map in
      same-Knows n c d (dispatch_to id m o d).2 (length-dispatch_to id m o d)
        (map-dispatch_to id m o d) k
  happen-Knows default n c (polled i) d k =
      let o = locked i d.visitors in
      same-Knows n c d (fetched default i o d).1 (length-fetched default i o d)
        (map-fetched default i o d) k
