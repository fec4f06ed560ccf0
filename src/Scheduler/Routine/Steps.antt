-- ===== src/Scheduler/Routine/Steps.antt =====
-- What a stage says of the routine, and that each step keeps it.
use cyber_rt_standalone_r.Prelude.{
  ◌≡◌, refl, ◌∙◌, List, [], ◌∷◌, Bool, true, false, ◌&&◌, if◌then◌else◌, arith,
}
use cyber_rt_standalone_r.Scheduler.Routine.{
  RoutineState, ready, finished, sleep, io_wait, data_wait, waits, sleeps, is_ready, Routine,
  try_acquire, check_time, take_flag, wake, resume, try_fetch, Stage, out, acquired, flagging,
  waking, tested, resuming, running, fetching, handling, releasing, notifying, clearing, stopping,
  erasing, Event, acquire, send, remove, go, suspend, move,
}

-- Whether a thread has acquired the routine.
abbrev pub holds : {T : Type 0} → Stage T → Bool
holds out = false
holds notifying = false
holds clearing = false
holds stopping = false
holds _ = true

module _ {T : Type 0} where
  abbrev pub IsHeld : Routine T → Type 0
  IsHeld r = (r.locked ≡ true) × (r.queued ≡ true)

  -- What a stage says of the routine.
  abbrev pub Fits : Routine T → Stage T → Type 0
  Fits r out = Unit
  Fits r notifying = Unit
  Fits r clearing = Unit
  Fits r stopping = Unit
  Fits r erasing = r.locked ≡ true
  Fits r releasing = r.locked ≡ true
  Fits r resuming = IsHeld r × (r.state ≡ ready)
  Fits r _ = IsHeld r

  pub holds-locked : (r : Routine T) (p : Stage T) → Fits r p → holds p ≡ true → r.locked ≡ true
  holds-locked r out f h = cc
  holds-locked r notifying f h = cc
  holds-locked r clearing f h = cc
  holds-locked r stopping f h = cc
  holds-locked r erasing f h = f
  holds-locked r releasing f h = f
  holds-locked r resuming f h = f.0.0
  holds-locked r _ f h = f.0

  pub idle-Fits : (r : Routine T) (p : Stage T) → holds p ≡ false → Fits r p
  idle-Fits r out h = tt
  idle-Fits r notifying h = tt
  idle-Fits r clearing h = tt
  idle-Fits r stopping h = tt
  idle-Fits r _ h = absurd cc

  pub same-Fits :
      (r r' : Routine T) (p : Stage T)
      → Fits r p
      → (r.locked ≡ true → r'.locked ≡ true)
      → r'.state ≡ r.state
      → r'.queued ≡ r.queued
      → Fits r' p
  same-Fits r r' out f l e q = tt
  same-Fits r r' notifying f l e q = tt
  same-Fits r r' clearing f l e q = tt
  same-Fits r r' stopping f l e q = tt
  same-Fits r r' erasing f l e q = l f
  same-Fits r r' releasing f l e q = l f
  same-Fits r r' resuming f l e q = ((l f.0.0, q ∙ f.0.1), e ∙ f.1)
  same-Fits r r' _ f l e q = (l f.0, q ∙ f.1)

  -- What a step of a thread from `p` to `p'` keeps: it does not disturb one that holds the routine.
  pub record Keeps (r : Routine T) (p p' : Stage T) (r' : Routine T) : Type 0 where
    pub fits : Fits r' p'
    pub quiet : holds p ≡ false → r.locked ≡ true → (holds p' ≡ false) × (r'.locked ≡ true)
    pub same : holds p ≡ false → (r'.state ≡ r.state) × (r'.queued ≡ r.queued)

  stay : (r : Routine T) (p : Stage T) → Fits r p → Keeps r p p r
  stay r p f = record { fits = f; quiet = λ h l. (h, l); same = λ h. (refl, refl) }

  -- A step of the thread that holds the routine.
  alone : (r r' : Routine T) (p p' : Stage T) → holds p ≡ true → Fits r' p' → Keeps r p p' r'
  alone r r' p p' h f = record {
    fits = f;
    quiet = λ n. absurd (ground (arith, h, n));
    same = λ n. absurd (ground (arith, h, n));
  }

  -- A step of a thread that does not hold it to a stage at which it does not either.
  aside :
      (r r' : Routine T) (p p' : Stage T)
      → holds p' ≡ false
      → r'.locked ≡ r.locked
      → r'.state ≡ r.state
      → r'.queued ≡ r.queued
      → Keeps r p p' r'
  aside r r' p p' h l e q = record {
    fits = idle-Fits r' p' h;
    quiet = λ n c. (h, l ∙ c);
    same = λ n. (e, q);
  }

  try_acquire-Keeps :
      (b l : Bool) (r : Routine T) (p p' : Stage T)
      → r.locked ≡ l
      → holds p ≡ false
      → (b ≡ true → Fits (record r { locked = true }) p')
      → Keeps r p (try_acquire b l p' p r).0 (try_acquire b l p' p r).1
  try_acquire-Keeps true true r p p' e h f = aside r r p p h refl refl refl
  try_acquire-Keeps true false r p p' e h f = record {
    fits = f refl;
    quiet = λ n c. absurd (ground (arith, e, c));
    same = λ n. (refl, refl);
  }
  try_acquire-Keeps false l r p p' e h f = aside r r p p h refl refl refl

  check_time-Keeps :
      (b : Bool) (r : Routine T) → IsHeld r → Keeps r acquired (check_time b r).0 (check_time b r).1
  check_time-Keeps true r f = alone r _ acquired tested refl f
  check_time-Keeps false r f = alone r r acquired flagging refl f

  take_flag-Keeps :
      (b : Bool) (r : Routine T) → IsHeld r → Keeps r flagging (take_flag b r).0 (take_flag b r).1
  take_flag-Keeps true r f = alone r r flagging tested refl f
  take_flag-Keeps false r f = alone r _ flagging waking refl f

  wake-Keeps : (b : Bool) (r : Routine T) → IsHeld r → Keeps r waking (wake b r).0 (wake b r).1
  wake-Keeps true r f = alone r _ waking tested refl f
  wake-Keeps false r f = alone r r waking tested refl f

  test-Keeps :
      (s : RoutineState) (r : Routine T)
      → r.state ≡ s
      → IsHeld r
      → Keeps r tested (if is_ready s then resuming else releasing) r
  test-Keeps ready r e f = alone r r tested resuming refl (f, e)
  test-Keeps finished r e f = alone r r tested releasing refl f.0
  test-Keeps sleep r e f = alone r r tested releasing refl f.0
  test-Keeps io_wait r e f = alone r r tested releasing refl f.0
  test-Keeps data_wait r e f = alone r r tested releasing refl f.0

  resume-Keeps :
      (a b c : Bool) (r : Routine T)
      → IsHeld r
      → Keeps r resuming (resume a b c r).0 (resume a b c r).1
  resume-Keeps true b c r f = alone r _ resuming releasing refl f.0
  resume-Keeps false false c r f = alone r r resuming releasing refl f.0
  resume-Keeps false true true r f = alone r r resuming handling refl f
  resume-Keeps false true false r f = alone r r resuming running refl f

  try_fetch-Keeps :
      (xs : List T) (r : Routine T)
      → IsHeld r
      → Keeps r fetching (try_fetch xs r).0 (try_fetch xs r).1
  try_fetch-Keeps [] r f = alone r r fetching releasing refl f.0
  try_fetch-Keeps (x ∷ xs) r f = alone r _ fetching handling refl f

  notify-Keeps : (b : Bool) (r : Routine T) → Keeps r notifying (if b then clearing else out) r
  notify-Keeps true r = aside r r notifying clearing refl refl refl refl
  notify-Keeps false r = aside r r notifying out refl refl refl refl

  pub move-Keeps :
      (a : Event T) (p : Stage T) (r : Routine T)
      → Fits r p
      → Keeps r p (move a p r).0 (move a p r).1
  unfolding move
  move-Keeps acquire out r f =
      try_acquire-Keeps r.queued r.locked r out acquired refl refl (λ q. (refl, q))
  move-Keeps (send x) out r f = aside r _ out notifying refl refl refl refl
  move-Keeps remove out r f = aside r _ out stopping refl refl refl refl
  move-Keeps (go late) acquired r f = check_time-Keeps (sleeps r.state && late) r f
  move-Keeps (go late) flagging r f = take_flag-Keeps r.updated r f
  move-Keeps (go late) waking r f = wake-Keeps (waits r.state) r f
  move-Keeps (go late) tested r f = test-Keeps r.state r refl f
  move-Keeps (go late) resuming r f = resume-Keeps r.force_stop (is_ready r.state) r.inside r f.0
  move-Keeps (go late) running r f = alone r _ running fetching refl f
  move-Keeps (go late) fetching r f = try_fetch-Keeps r.inbox r f
  move-Keeps (go late) handling r f = alone r _ handling releasing refl f.0
  move-Keeps (suspend s) handling r f = alone r _ handling releasing refl f.0
  move-Keeps (go late) releasing r f = alone r _ releasing out refl tt
  move-Keeps (go late) notifying r f = notify-Keeps (waits r.state) r
  move-Keeps (go late) clearing r f = aside r _ clearing out refl refl refl refl
  move-Keeps (go late) stopping r f =
      try_acquire-Keeps true r.locked r stopping erasing refl refl (λ q. refl)
  move-Keeps (go late) erasing r f = alone r _ erasing releasing refl f
  move-Keeps _ p r f = stay r p f
