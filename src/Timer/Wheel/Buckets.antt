-- ===== src/Timer/Wheel/Buckets.antt =====
-- How often a task stands in the buckets of a wheel.
use cyber_rt_standalone_r.Prelude.{
  ℕ, ◌+◌, ◌<◌, ◌≤◌, ◌≡◌, ◌≢◌, refl, ap, ◌∙◌, List, [], ◌∷◌, ◌++◌, Option, some, none, arith, true,
  false, Bool, ltb, ◌&&◌, ◌==◌, set_out, if◌then◌else◌, get_or, set, length, length-set,
  get_or-set_self, get_or-set_ne,
}
use native.Mathlib.Decide.{ℕ_discrete, dec_lt}
use cyber_rt_standalone_r.Timer.Wheel.{
  TimerTask, TimerBucket, TimingWheel, push_back, put_down, move_down, alive, is_alive,
}

-- One at the place `k`, nothing elsewhere.
abbrev pub spot : ℕ → ℕ → ℕ
spot i k = if i == k then 1 else 0

abbrev pub count : ℕ → List ℕ → ℕ
count p [] = 0
count p (q ∷ qs) = spot q p + count p qs

abbrev pub bucket : List TimerBucket → ℕ → TimerBucket
bucket wheel i = get_or wheel i []

pub count-append : (p : ℕ) (xs ys : List ℕ) → count p (xs ++ ys) ≡ count p xs + count p ys
count-append p [] ys = omega arith
count-append p (x ∷ xs) ys = omega (arith, count-append p xs ys)

-- Emptying a bucket.
pub count-set_nil :
    (p : ℕ) (wheel : List TimerBucket) (i j : ℕ)
    → i < length wheel
    → count p (bucket (set wheel i []) j) ≡ (if j == i then 0 else count p (bucket wheel j))
count-set_nil p wheel i j h =
    ground (arith, get_or-set_self wheel i [] [], get_or-set_ne wheel i j [] [])

-- Adding a task to a bucket.
pub count-push_back :
    (p q : ℕ) (wheel : List TimerBucket) (i j : ℕ)
    → i < length wheel
    → count p (bucket (push_back wheel i q) j)
      ≡ count p (bucket wheel j) + (if j == i then spot q p else 0)
count-push_back p q wheel i j h = elim (ℕ_discrete i j) [
  | yes e ↦ ground (
    arith,
    get_or-set_self wheel i (bucket wheel i ++ q ∷ []) [] h,
    count-append p (bucket wheel i) (q ∷ []),
  )
  | no ne ↦ ground (arith, get_or-set_ne wheel i j (bucket wheel i ++ q ∷ []) [] ne)
]

-- Another task's addition is not seen, in the wheel or outside.
pub count-push_other :
    (p q : ℕ) (wheel : List TimerBucket) (i j : ℕ)
    → q ≢ p
    → count p (bucket (push_back wheel i q) j) ≡ count p (bucket wheel j)
count-push_other p q wheel i j ne = elim (dec_lt i (length wheel)) [
  | yes h ↦ ground (arith, count-push_back p q wheel i j h)
  | no h ↦ rw (set_out wheel i (bucket wheel i ++ q ∷ []) (omega arith))
]

pub count-put_down_other :
    (p q : ℕ) (o : Option TimerTask) (wheel : List TimerBucket) (j : ℕ)
    → q ≢ p
    → count p (bucket (put_down o q wheel) j) ≡ count p (bucket wheel j)
count-put_down_other p q none wheel j ne = refl
count-put_down_other p q (some t) wheel j ne =
    count-push_other p q wheel t.remainder_interval_ms j ne

length-put_down :
    (o : Option TimerTask) (p : ℕ) (wheel : List TimerBucket)
    → length (put_down o p wheel) ≡ length wheel
length-put_down none p wheel = refl
length-put_down (some t) p wheel = length-set wheel _ _

pub length-move_down :
    (tasks : ℕ → Option TimerTask) (ps : List ℕ) (wheel : List TimerBucket)
    → length (move_down tasks ps wheel) ≡ length wheel
unfolding move_down
length-move_down tasks [] wheel = refl
length-move_down tasks (p ∷ ps) wheel =
    length-move_down tasks ps (put_down (tasks p) p wheel) ∙ length-put_down (tasks p) p wheel

-- `Cascade` moves a living task to the bucket that its remainder names.
pub count-move_down :
    (p : ℕ) (t : TimerTask) (tasks : ℕ → Option TimerTask) (ps : List ℕ) (wheel : List TimerBucket)
    (j : ℕ)
    → tasks p ≡ some t
    → t.remainder_interval_ms < length wheel
    → count p (bucket (move_down tasks ps wheel) j)
      ≡ count p (bucket wheel j) + (if j == t.remainder_interval_ms then count p ps else 0)
unfolding move_down
count-move_down p t tasks [] wheel j e h = ground arith
count-move_down p t tasks (q ∷ ps) wheel j e h =
    let rest =
      count-move_down p t tasks ps (put_down (tasks q) q wheel) j e
        (omega (arith, length-put_down (tasks q) q wheel)) in
    elim (ℕ_discrete q p) [
      | yes same ↦
          ground
            (arith, rest, ap tasks same, e, count-push_back p q wheel t.remainder_interval_ms j h)
      | no ne ↦ ground (arith, rest, count-put_down_other p q (tasks q) wheel j ne)
    ]

pub count-alive :
    (w : TimingWheel) (p : ℕ) (xs : List ℕ)
    → is_alive w p ≡ true
    → count p (alive w xs) ≡ count p xs
unfolding alive
count-alive w p [] a = refl
count-alive w p (x ∷ xs) a = elim (ℕ_discrete x p) [
  | yes same ↦ ground (arith, ap (is_alive w) same, count-alive w p xs a)
  | no ne ↦ ground (arith, count-alive w p xs a)
]

-- What is not in the bucket is not moved.
pub count-move_down_absent :
    (p : ℕ) (tasks : ℕ → Option TimerTask) (ps : List ℕ) (wheel : List TimerBucket) (j : ℕ)
    → count p ps ≡ 0
    → count p (bucket (move_down tasks ps wheel) j) ≡ count p (bucket wheel j)
unfolding move_down
count-move_down_absent p tasks [] wheel j e = refl
count-move_down_absent p tasks (q ∷ ps) wheel j e =
    let ne : q ≢ p = ground arith in
    count-move_down_absent p tasks ps (put_down (tasks q) q wheel) j (omega arith)
    ∙ count-put_down_other p q (tasks q) wheel j ne

pub count-alive_le : (w : TimingWheel) (p : ℕ) (xs : List ℕ) → count p (alive w xs) ≤ count p xs
unfolding alive
count-alive_le w p [] = omega arith
count-alive_le w p (x ∷ xs) = ground (arith, count-alive_le w p xs)

-- Whether a task that is brought down lands in the bucket `j` of a work wheel with `n` buckets.
abbrev pub lands : ℕ → Option TimerTask → ℕ → Bool
lands n none j = false
lands n (some t) j = ltb t.remainder_interval_ms n && j == t.remainder_interval_ms

count-put_down :
    (p n : ℕ) (o : Option TimerTask) (wheel : List TimerBucket) (j : ℕ)
    → length wheel ≡ n
    → count p (bucket (put_down o p wheel) j)
      ≡ count p (bucket wheel j) + (if lands n o j then 1 else 0)
count-put_down p n none wheel j e = omega arith
count-put_down p n (some t) wheel j e = elim (dec_lt t.remainder_interval_ms n) [
  | yes h ↦ ground (arith, count-push_back p p wheel t.remainder_interval_ms j (omega (arith, e)))
  | no h ↦ ground (
    arith,
    ap (λ ws. count p (bucket ws j))
        (set_out wheel t.remainder_interval_ms (bucket wheel t.remainder_interval_ms ++ p ∷ [])
          (omega (arith, e))),
  )
]

-- What `Cascade` does to the counts of any task, alive or not.
pub count-move_down_any :
    (p n : ℕ) (o : Option TimerTask) (tasks : ℕ → Option TimerTask) (ps : List ℕ)
    (wheel : List TimerBucket) (j : ℕ)
    → tasks p ≡ o
    → length wheel ≡ n
    → count p (bucket (move_down tasks ps wheel) j)
      ≡ count p (bucket wheel j) + (if lands n o j then count p ps else 0)
unfolding move_down
count-move_down_any p n o tasks [] wheel j e h = ground arith
count-move_down_any p n o tasks (q ∷ ps) wheel j e h =
    let rest =
      count-move_down_any p n o tasks ps (put_down (tasks q) q wheel) j e
        (length-put_down (tasks q) q wheel ∙ h) in
    elim (ℕ_discrete q p) [
      | yes same ↦
          let here : count p (bucket (put_down (tasks q) q wheel) j)
              ≡ count p (bucket wheel j) + (if lands n o j then 1 else 0) =
            rw (same, e) (count-put_down p n o wheel j h) in
          ground (arith, rest, here, same)
      | no ne ↦ ground (arith, rest, count-put_down_other p q (tasks q) wheel j ne)
    ]
