-- ===== src/Base/RwLock/Exclusion.antt =====
-- Readers and writers exclude each other, and the writers that wait are counted.
use cyber_rt_standalone_r.Prelude.{
  ℕ, ◌+◌, ◌^◌, ◌≤◌, tally_below, ◌<◌, ◌≡◌, ◌⊎◌, inl, refl, sym, ap, List, [], ◌∷◌, Bool, Option,
  some, none, arith, get_elem?, set, tally, tally-others, tally-replicate, pos, negsuc, replicate,
  length, length-set, length-replicate,
}
use cyber_rt_standalone_r.Base.RwLock.{
  Phase, idle, loaded, retrying, tested, waiting, taken, reading, writing, Action, begin_read,
  begin_write, proceed, unlock, Words, act, System, step_at, step, run,
}

abbrev is_reader : Phase → ℕ
is_reader reading = 1
is_reader _ = 0

abbrev is_writer : Phase → ℕ
is_writer taken = 1
is_writer writing = 1
is_writer _ = 0

abbrev is_waiter : Phase → ℕ
is_waiter waiting = 1
is_waiter taken = 1
is_waiter _ = 0

-- A reader that has passed the test with a negative count; there is none.
abbrev is_astray : Phase → ℕ
is_astray (tested (negsuc n)) = 1
is_astray _ = 0

abbrev pub readers : System → ℕ
readers s = tally is_reader s.threads

abbrev pub writers : System → ℕ
writers s = tally is_writer s.threads

abbrev pub waiters : System → ℕ
waiters s = tally is_waiter s.threads

-- The lock counts its holders, and the second word the waiting.
abbrev Counted : Words → ℕ → ℕ → ℕ → Type 0
Counted k r w q =
    (((k.lock_num ≡ pos r) × (w ≡ 0)) ⊎ ((k.lock_num ≡ negsuc 0) × (r ≡ 0) × (w ≡ 1)))
    × (k.write_lock_wait_num ≡ q)

-- A step of one thread among `r` other readers, `w` other writers and `q` others that wait.
act-Counted :
    (b : Bool) (a : Action) (p : Phase) (k : Words) (r w q : ℕ)
    → q + 1 < 2 ^ 31
    → r + 1 < 2 ^ 31
    → is_astray p ≡ 0
    → Counted k (r + is_reader p) (w + is_writer p) (q + is_waiter p)
    → let (p', k') = act b a p k in
      Counted k' (r + is_reader p') (w + is_writer p') (q + is_waiter p') × (is_astray p' ≡ 0)
unfolding act
act-Counted b begin_read idle k r w q l g z c = (c, refl)
act-Counted b begin_write idle k r w q l g z c = ground (arith, l, g, c)
act-Counted b (proceed s) (loaded (pos n)) k r w q l g z c = ground (arith, l, g, c)
act-Counted b (proceed s) (loaded (negsuc n)) k r w q l g z c = ground (arith, l, g, c)
act-Counted b (proceed s) retrying k r w q l g z c = (c, refl)
act-Counted b (proceed s) (tested (pos n)) k r w q l g z c = ground (arith, l, g, c)
act-Counted b (proceed s) (tested (negsuc n)) k r w q l g z c = absurd (omega arith)
act-Counted b (proceed s) waiting k r w q l g z c = ground (arith, l, g, c)
act-Counted b (proceed s) taken k r w q l g z c = ground (arith, l, g, c)
act-Counted b unlock reading k r w q l g z c = ground (arith, l, g, c)
act-Counted b unlock writing k r w q l g z c = ground (arith, l, g, c)
act-Counted b _ p k r w q l g z c = (c, z)

waiter_once : (p : Phase) → is_waiter p ≤ 1
waiter_once waiting = omega arith
waiter_once taken = omega arith
waiter_once _ = omega arith

reader_once : (p : Phase) → is_reader p ≤ 1
reader_once reading = omega arith
reader_once _ = omega arith

record IsSound (s : System) : Type 0 where
  counted : Counted s.words (readers s) (writers s) (waiters s)
  nobody_astray : tally is_astray s.threads ≡ 0
  few : length s.threads + 1 < 2 ^ 31

step_at-IsSound :
    (b : Bool) (s : System) (i : ℕ) (a : Action) (o : Option Phase)
    → get_elem? s.threads i ≡ o
    → IsSound s
    → IsSound (step_at b s i a o)
step_at-IsSound b s i a none e v = v
step_at-IsSound b s i a (some p) e v =
    let p' = (act b a p s.words).0 in
    let others = set s.threads i idle in
    let (rs, rs') = tally-others is_reader idle s.threads i p p' e refl in
    let (ws, ws') = tally-others is_writer idle s.threads i p p' e refl in
    let (qs, qs') = tally-others is_waiter idle s.threads i p p' e refl in
    let (bs, bs') = tally-others is_astray idle s.threads i p p' e refl in
    let (c, z) =
      act-Counted b a p s.words (tally is_reader others) (tally is_writer others)
        (tally is_waiter others)
        (omega
          (arith, v.few, tally_below is_waiter waiter_once others, length-set s.threads i idle))
        (omega
          (arith, v.few, tally_below is_reader reader_once others, length-set s.threads i idle))
        (omega (arith, v.nobody_astray)) (rw (← rs, ← ws, ← qs) v.counted) in
    record {
      counted = rw (rs', ws', qs') c;
      nobody_astray = omega (arith, v.nobody_astray);
      few = omega (arith, v.few, length-set s.threads i p');
    }

step-IsSound : (b : Bool) (s : System) (x : ℕ × Action) → IsSound s → IsSound (step b s x)
unfolding step
step-IsSound b s (i, a) v = step_at-IsSound b s i a (get_elem? s.threads i) refl v

run-IsSound : (b : Bool) (s : System) (xs : List (ℕ × Action)) → IsSound s → IsSound (run b s xs)
unfolding run
run-IsSound b s [] v = v
run-IsSound b s (x ∷ xs) v = run-IsSound b (step b s x) xs (step-IsSound b s x v)

-- A free lock, before `n` threads.
abbrev pub fresh : ℕ → System
fresh n = record {
  words = record { lock_num = pos 0; write_lock_wait_num = 0 };
  threads = replicate n idle;
}

fresh-IsSound : (n : ℕ) → n + 1 < 2 ^ 31 → IsSound (fresh n)
fresh-IsSound n l = record {
  counted = (
    inl (
      ap pos (sym (tally-replicate is_reader idle n refl)),
      tally-replicate is_writer idle n refl,
    ),
    sym (tally-replicate is_waiter idle n refl),
  );
  nobody_astray = tally-replicate is_astray idle n refl;
  few = omega (arith, l, length-replicate n idle);
}

-- Whatever the interleaving of fewer than 2^31 - 1 threads, with writers first or not: there is at most one
-- writer, and no reader while there is one; the lock is -1 exactly then, and counts the readers
-- otherwise; the second word counts the writers that wait or have only just taken the lock.
pub run-fresh :
    (write_first : Bool) (n : ℕ) (xs : List (ℕ × Action))
    → n + 1 < 2 ^ 31
    → let s = run write_first (fresh n) xs in
      (writers s ≤ 1)
      × ((writers s ≡ 0) ⊎ (readers s ≡ 0))
      × (((s.words.lock_num ≡ negsuc 0) × (writers s ≡ 1))
          ⊎ ((s.words.lock_num ≡ pos (readers s)) × (writers s ≡ 0)))
      × (s.words.write_lock_wait_num ≡ waiters s)
run-fresh write_first n xs l =
    let c = (run-IsSound write_first (fresh n) xs (fresh-IsSound n l)).counted in ground (arith, c)
