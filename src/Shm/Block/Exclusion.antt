-- ===== src/Shm/Block/Exclusion.antt =====
-- Readers and writers exclude each other, in every interleaving.
use cyber_rt_standalone_r.Prelude.{
  ℕ, ◌+◌, ◌≤◌, ◌<◌, ◌^◌, length, length-set, length-replicate, tally_below, ◌≡◌, ◌⊎◌, inl, refl,
  sym, ap, List, [], ◌∷◌, Option, some, none, arith, get_elem?, set, tally, tally-others,
  tally-replicate, ℤ, pos, negsuc, replicate,
}
use cyber_rt_standalone_r.Shm.Block.{
  Phase, idle, seen, reading, writing, Action, try_lock_for_read, exchange, try_lock_for_write,
  release_read_lock, release_write_lock, act, System, step_at, step, run,
}

abbrev pub is_reader : Phase → ℕ
is_reader reading = 1
is_reader idle = 0
is_reader (seen l k) = 0
is_reader writing = 0

abbrev pub is_writer : Phase → ℕ
is_writer writing = 1
is_writer idle = 0
is_writer (seen l k) = 0
is_writer reading = 0

-- A thread that has read a negative count; there is none.
abbrev is_astray : Phase → ℕ
is_astray (seen (negsuc n) k) = 1
is_astray (seen (pos n) k) = 0
is_astray idle = 0
is_astray reading = 0
is_astray writing = 0

abbrev pub readers : System → ℕ
readers s = tally is_reader s.threads

abbrev pub writers : System → ℕ
writers s = tally is_writer s.threads

-- The lock counts its holders: `n` readers and no writer, or one writer and no reader.
abbrev pub Counted : ℤ → ℕ → ℕ → Type 0
Counted l r w = ((l ≡ pos r) × (w ≡ 0)) ⊎ ((l ≡ negsuc 0) × (r ≡ 0) × (w ≡ 1))

abbrev pub IsCounted : System → Type 0
IsCounted s = Counted s.lock_num (readers s) (writers s)

-- A step of one thread among `r` other readers and `w` other writers.
act-Counted :
    (a : Action) (p : Phase) (l : ℤ) (r w : ℕ)
    → r + 1 < 2 ^ 31
    → is_astray p ≡ 0
    → Counted l (r + is_reader p) (w + is_writer p)
    → let (p', l') = act a p l in
      Counted l' (r + is_reader p') (w + is_writer p') × (is_astray p' ≡ 0)
unfolding act
act-Counted try_lock_for_read idle l r w h b c = ground (arith, h, c)
act-Counted (exchange s) (seen (pos n) k) l r w h b c = ground (arith, h, c)
act-Counted (exchange s) (seen (negsuc n) k) l r w h b c = absurd (omega arith)
act-Counted (try_lock_for_write s) idle l r w h b c = ground (arith, h, c)
act-Counted release_read_lock reading l r w h b c = ground (arith, h, c)
act-Counted release_write_lock writing l r w h b c = ground (arith, h, c)
act-Counted _ p l r w h b c = (c, b)

reader_once : (p : Phase) → is_reader p ≤ 1
reader_once reading = omega arith
reader_once idle = omega arith
reader_once (seen l k) = omega arith
reader_once writing = omega arith

pub record IsSound (s : System) : Type 0 where
  pub counted : IsCounted s
  pub nobody_astray : tally is_astray s.threads ≡ 0
  pub few : length s.threads + 1 < 2 ^ 31

step_at-IsSound :
    (s : System) (i : ℕ) (a : Action) (o : Option Phase)
    → get_elem? s.threads i ≡ o
    → IsSound s
    → IsSound (step_at s i a o)
step_at-IsSound s i a none e v = v
step_at-IsSound s i a (some p) e v =
    let p' = (act a p s.lock_num).0 in
    let (rs, rs') = tally-others is_reader idle s.threads i p p' e refl in
    let (ws, ws') = tally-others is_writer idle s.threads i p p' e refl in
    let (bs, bs') = tally-others is_astray idle s.threads i p p' e refl in
    let (c, b) =
      act-Counted a p s.lock_num (tally is_reader (set s.threads i idle))
        (tally is_writer (set s.threads i idle))
        (omega (
          arith,
          v.few,
          tally_below is_reader reader_once (set s.threads i idle),
          length-set s.threads i idle,
        ))
        (omega (arith, v.nobody_astray)) (rw (← rs, ← ws) v.counted) in
    record {
      counted = rw (rs', ws') c;
      nobody_astray = omega (arith, v.nobody_astray);
      few = omega (arith, v.few, length-set s.threads i p');
    }

pub step-IsSound : (s : System) (x : ℕ × Action) → IsSound s → IsSound (step s x)
unfolding step
step-IsSound s (i, a) v = step_at-IsSound s i a (get_elem? s.threads i) refl v

run-IsSound : (s : System) (xs : List (ℕ × Action)) → IsSound s → IsSound (run s xs)
unfolding run
run-IsSound s [] v = v
run-IsSound s (x ∷ xs) v = run-IsSound (step s x) xs (step-IsSound s x v)

-- A block whose lock is free, before `n` threads.
abbrev pub fresh : ℕ → System
fresh n = record { lock_num = pos 0; threads = replicate n idle }

fresh-IsSound : (n : ℕ) → n + 1 < 2 ^ 31 → IsSound (fresh n)
fresh-IsSound n h = record {
  counted =
      inl (
        ap pos (sym (tally-replicate is_reader idle n refl)),
        tally-replicate is_writer idle n refl,
      );
  nobody_astray = tally-replicate is_astray idle n refl;
  few = omega (arith, h, length-replicate n idle);
}

-- Whatever the interleaving of fewer than 2^31 - 1 threads, there is at most one writer, and no reader
-- while there is one; the lock is -1 exactly then, and counts the readers otherwise.
pub run_exclusion :
    (n : ℕ) (xs : List (ℕ × Action))
    → n + 1 < 2 ^ 31
    → let s = run (fresh n) xs in
      (writers s ≤ 1)
      × ((writers s ≡ 0) ⊎ (readers s ≡ 0))
      × (((s.lock_num ≡ negsuc 0) × (writers s ≡ 1))
          ⊎ ((s.lock_num ≡ pos (readers s)) × (writers s ≡ 0)))
run_exclusion n xs h =
    let c = (run-IsSound (fresh n) xs (fresh-IsSound n h)).counted in ground (arith, c)
