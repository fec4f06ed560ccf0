-- ===== src/Scheduler/Routine/Free.antt =====
-- A lock that is taken has a holder: no way through the code leaves it behind.
use cyber_rt_standalone_r.Prelude.{
  ℕ, ◌≡◌, refl, List, [], ◌∷◌, Bool, true, false, ◌&&◌, not, if◌then◌else◌,
}
use cyber_rt_standalone_r.Scheduler.Routine.{
  waits, sleeps, is_ready, Routine, try_acquire, check_time, take_flag, wake, resume, try_fetch,
  Stage, out, acquired, flagging, waking, tested, resuming, running, fetching, handling, releasing,
  notifying, clearing, stopping, erasing, Event, acquire, send, remove, go, suspend, move, Team,
  step, run,
}
use cyber_rt_standalone_r.Scheduler.Routine.Covered.{Covers, IsCovered, advanced-IsCovered}
use cyber_rt_standalone_r.Scheduler.Routine.Steps.{holds}

module _ {T : Type 0} where
  abbrev pub is_free : Routine T → Bool
  is_free r = not r.locked

  abbrev Frees : Routine T → Stage T → Stage T × Routine T → Type 0
  Frees r p x = Covers is_free holds r p x

  try_acquire-Frees :
      (b l : Bool) (r : Routine T) (p p' : Stage T)
      → holds p' ≡ true
      → Frees r p (try_acquire b l p' p r)
  try_acquire-Frees true true r p p' h c = c
  try_acquire-Frees true false r p p' h c = h
  try_acquire-Frees false l r p p' h c = c

  check_time-Frees : (b : Bool) (r : Routine T) → Frees r acquired (check_time b r)
  check_time-Frees true r c = c
  check_time-Frees false r c = c

  take_flag-Frees : (b : Bool) (r : Routine T) → Frees r flagging (take_flag b r)
  take_flag-Frees true r c = c
  take_flag-Frees false r c = c

  wake-Frees : (b : Bool) (r : Routine T) → Frees r waking (wake b r)
  wake-Frees true r c = c
  wake-Frees false r c = c

  test-Frees : (b : Bool) (r : Routine T) → Frees r tested (if b then resuming else releasing, r)
  test-Frees true r c = c
  test-Frees false r c = c

  resume-Frees : (a b e : Bool) (r : Routine T) → Frees r resuming (resume a b e r)
  resume-Frees true b e r c = c
  resume-Frees false false e r c = c
  resume-Frees false true true r c = c
  resume-Frees false true false r c = c

  try_fetch-Frees : (xs : List T) (r : Routine T) → Frees r fetching (try_fetch xs r)
  try_fetch-Frees [] r c = c
  try_fetch-Frees (x ∷ xs) r c = c

  notify-Frees : (b : Bool) (r : Routine T) → Frees r notifying (if b then clearing else out, r)
  notify-Frees true r c = c
  notify-Frees false r c = c

  move-Frees : (a : Event T) (p : Stage T) (r : Routine T) → Frees r p (move a p r)
  unfolding move
  move-Frees acquire out r = try_acquire-Frees r.queued r.locked r out acquired refl
  move-Frees (send x) out r = λ c. c
  move-Frees remove out r = λ c. c
  move-Frees (go late) acquired r = check_time-Frees (sleeps r.state && late) r
  move-Frees (go late) flagging r = take_flag-Frees r.updated r
  move-Frees (go late) waking r = wake-Frees (waits r.state) r
  move-Frees (go late) tested r = test-Frees (is_ready r.state) r
  move-Frees (go late) resuming r = resume-Frees r.force_stop (is_ready r.state) r.inside r
  move-Frees (go late) running r = λ c. c
  move-Frees (go late) fetching r = try_fetch-Frees r.inbox r
  move-Frees (go late) handling r = λ c. c
  move-Frees (suspend s) handling r = λ c. c
  move-Frees (go late) releasing r = λ c. refl
  move-Frees (go late) notifying r = notify-Frees (waits r.state) r
  move-Frees (go late) clearing r = λ c. c
  move-Frees (go late) stopping r = try_acquire-Frees true r.locked r stopping erasing refl
  move-Frees (go late) erasing r = λ c. c
  move-Frees _ p r = λ c. c

  step-IsCovered :
      (s : Team T) (x : ℕ × Event T)
      → IsCovered is_free holds s
      → IsCovered is_free holds (step s x)
  unfolding step
  step-IsCovered s (i, a) =
      advanced-IsCovered is_free holds s i (move a (s.stage_of i) s.routine).0
        (move a (s.stage_of i) s.routine).1 (move-Frees a (s.stage_of i) s.routine)

  pub run-IsCovered :
      (s : Team T) (xs : List (ℕ × Event T))
      → IsCovered is_free holds s
      → IsCovered is_free holds (run s xs)
  unfolding run
  run-IsCovered s [] m = m
  run-IsCovered s (x ∷ xs) m = run-IsCovered (step s x) xs (step-IsCovered s x m)
