-- ===== src/Scheduler/Routine/Wakeup.antt =====
-- No message is left behind: what arrives while the routine runs or waits is fetched.
use cyber_rt_standalone_r.Prelude.{
  ℕ, ◌≡◌, refl, List, [], ◌∷◌, Bool, true, false, ◌&&◌, ◌||◌, not, if◌then◌else◌, arith,
}
use cyber_rt_standalone_r.Scheduler.Routine.{
  waits, sleeps, is_ready, Routine, try_acquire, check_time, take_flag, wake, resume, try_fetch,
  Stage, out, acquired, flagging, waking, tested, resuming, running, fetching, handling, releasing,
  notifying, clearing, stopping, erasing, Event, acquire, send, remove, go, suspend, move, Team,
  step, run,
}
use cyber_rt_standalone_r.Scheduler.Routine.Covered.{Covers, IsCovered, advanced-IsCovered}

abbrev pub is_empty : {A : Type 0} → List A → Bool
is_empty [] = true
is_empty (x ∷ xs) = false

-- Whether the thread is about to make the routine READY, to clear its flag or to fetch.
abbrev pub serves : {T : Type 0} → Stage T → Bool
serves waking = true
serves fetching = true
serves notifying = true
serves clearing = true
serves _ = false

module _ {T : Type 0} where
  -- The routine has nothing to fetch, is in its callback, is being removed, or its next turn fetches.
  abbrev pub calm : Routine T → Bool
  calm r = is_empty r.inbox || (r.inside || (r.force_stop || (is_ready r.state || not r.updated)))

  -- The routine sleeps only in its callback, and ends only when it is stopped there or removed.
  abbrev pub settled : Routine T → Bool
  settled r = is_ready r.state || (waits r.state || (r.inside || r.force_stop))

  abbrev Minds : Routine T → Stage T → Stage T × Routine T → Type 0
  Minds r p (p', r') = (settled r' ≡ true) × Covers calm serves r p (p', r')

  try_acquire-Minds :
      (b l : Bool) (r : Routine T) (p p' : Stage T)
      → serves p ≡ false
      → settled r ≡ true
      → Minds r p (try_acquire b l p' p r)
  try_acquire-Minds true true r p p' e m = (m, λ c. c)
  try_acquire-Minds true false r p p' e m = (m, λ c. ground (arith, e, c))
  try_acquire-Minds false l r p p' e m = (m, λ c. c)

  check_time-Minds :
      (b : Bool) (r : Routine T) → settled r ≡ true → Minds r acquired (check_time b r)
  check_time-Minds true r m = (refl, λ c. ground arith)
  check_time-Minds false r m = (m, λ c. c)

  take_flag-Minds : (b : Bool) (r : Routine T) → settled r ≡ true → Minds r flagging (take_flag b r)
  take_flag-Minds true r m = (m, λ c. c)
  take_flag-Minds false r m = (m, λ c. ground arith)

  wake-Minds :
      (b : Bool) (r : Routine T) → waits r.state ≡ b → settled r ≡ true → Minds r waking (wake b r)
  wake-Minds true r e m = (refl, λ c. ground arith)
  wake-Minds false r e m = (m, λ c. ground (arith, e, m))

  test-Minds :
      (b : Bool) (r : Routine T)
      → settled r ≡ true
      → Minds r tested (if b then resuming else releasing, r)
  test-Minds true r m = (m, λ c. c)
  test-Minds false r m = (m, λ c. c)

  resume-Minds :
      (a b c : Bool) (r : Routine T)
      → r.force_stop ≡ a
      → settled r ≡ true
      → Minds r resuming (resume a b c r)
  resume-Minds true b c r e m = (ground (arith, e), λ h. ground (arith, e))
  resume-Minds false false c r e m = (m, λ h. h)
  resume-Minds false true true r e m = (m, λ h. h)
  resume-Minds false true false r e m = (m, λ h. h)

  try_fetch-Minds :
      (xs : List T) (r : Routine T)
      → is_empty r.inbox ≡ is_empty xs
      → settled r ≡ true
      → Minds r fetching (try_fetch xs r)
  try_fetch-Minds [] r e m = (m, λ c. ground (arith, e))
  try_fetch-Minds (x ∷ xs) r e m = (ground arith, λ c. ground arith)

  notify-Minds :
      (b : Bool) (r : Routine T)
      → waits r.state ≡ b
      → settled r ≡ true
      → Minds r notifying (if b then clearing else out, r)
  notify-Minds true r e m = (m, λ c. c)
  notify-Minds false r e m = (m, λ c. ground (arith, e, m))

  move-Minds :
      (a : Event T) (p : Stage T) (r : Routine T) → settled r ≡ true → Minds r p (move a p r)
  unfolding move
  move-Minds acquire out r m = try_acquire-Minds r.queued r.locked r out acquired refl m
  move-Minds (send x) out r m = (m, λ c. ground arith)
  move-Minds remove out r m = (ground arith, λ c. ground arith)
  move-Minds (go late) acquired r m = check_time-Minds (sleeps r.state && late) r m
  move-Minds (go late) flagging r m = take_flag-Minds r.updated r m
  move-Minds (go late) waking r m = wake-Minds (waits r.state) r refl m
  move-Minds (go late) tested r m = test-Minds (is_ready r.state) r m
  move-Minds (go late) resuming r m = resume-Minds r.force_stop (is_ready r.state) r.inside r refl m
  move-Minds (go late) running r m = (refl, λ c. ground arith)
  move-Minds (go late) fetching r m = try_fetch-Minds r.inbox r refl m
  move-Minds (go late) handling r m = (refl, λ c. ground arith)
  move-Minds (suspend s) handling r m = (ground arith, λ c. ground arith)
  move-Minds (go late) releasing r m = (m, λ c. c)
  move-Minds (go late) notifying r m = notify-Minds (waits r.state) r refl m
  move-Minds (go late) clearing r m = (m, λ c. ground arith)
  move-Minds (go late) stopping r m = try_acquire-Minds true r.locked r stopping erasing refl m
  move-Minds (go late) erasing r m = (m, λ c. c)
  move-Minds _ p r m = (m, λ c. c)

  -- Between the steps of any interleaving.
  abbrev pub IsMinded : Team T → Type 0
  IsMinded s = (settled s.routine ≡ true) × IsCovered calm serves s

  step-IsMinded : (s : Team T) (x : ℕ × Event T) → IsMinded s → IsMinded (step s x)
  unfolding step
  step-IsMinded s (i, a) (m, c) =
      let k = move-Minds a (s.stage_of i) s.routine m in
      (
        k.0,
        advanced-IsCovered calm serves s i (move a (s.stage_of i) s.routine).0
            (move a (s.stage_of i) s.routine).1 k.1 c,
      )

  pub run-IsMinded : (s : Team T) (xs : List (ℕ × Event T)) → IsMinded s → IsMinded (run s xs)
  unfolding run
  run-IsMinded s [] m = m
  run-IsMinded s (x ∷ xs) m = run-IsMinded (step s x) xs (step-IsMinded s x m)
