-- ===== src/Timer/Wheel/Silence.antt =====
-- A task that has been dropped is not fired any more.
use cyber_rt_standalone_r.Prelude.{
  ℕ, length, ◌≡◌, ◌≢◌, inl, inr, refl, ap, List, [], ◌∷◌, false, none, arith, map, replicate,
  add_u64,
}
use native.Mathlib.Decide.{ℕ_discrete}
use cyber_rt_standalone_r.Timer.Wheel.{
  TimerTask, TimingWheel, is_alive, alive, Phase, ticking, sleeping, turning, cascading, tick_step,
  turn_work, turn_assistant, tick, cascade, add_far, add_started, add_task, place, release, start,
  ticks_of, Event, steps, adds, drops, run,
}
use cyber_rt_standalone_r.Timer.Wheel.Buckets.{count}
use cyber_rt_standalone_r.Timer.Wheel.Others.{add_task-cases}
use cyber_rt_standalone_r.Timer.Wheel.Firing.{Spares}

count-alive_dead :
    (w : TimingWheel) (p : ℕ) (xs : List ℕ) → is_alive w p ≡ false → count p (alive w xs) ≡ 0
unfolding alive
count-alive_dead w p [] e = refl
count-alive_dead w p (x ∷ xs) e = elim (ℕ_discrete x p) [
  | yes same ↦ ground (arith, ap (is_alive w) same, count-alive_dead w p xs e)
  | no ne ↦ ground (arith, count-alive_dead w p xs e)
]

tasks-add_far :
    (w : TimingWheel) (p q x : ℕ) (t : TimerTask)
    → q ≢ p
    → w.tasks p ≡ none
    → (add_far w q t x).tasks p ≡ none
unfolding add_far
tasks-add_far w p q x t ne e = ground arith

tasks-add_started :
    (w : TimingWheel) (p q : ℕ) (t : TimerTask)
    → q ≢ p
    → w.tasks p ≡ none
    → (add_started w q t).tasks p ≡ none
unfolding add_started
tasks-add_started w p q t ne e = ground (
  arith,
  tasks-add_far w p q (add_u64 w.current_work_wheel_index (ticks_of t.next_fire_duration_ms)) t ne
      e,
)

tasks-add_task :
    (w : TimingWheel) (p q : ℕ) (t : TimerTask)
    → q ≢ p
    → w.tasks p ≡ none
    → (add_task w q t).tasks p ≡ none
unfolding start
tasks-add_task w p q t ne e = elim (add_task-cases w q t) [
  | inl on ↦ rw on (tasks-add_started w p q t ne e)
  | inr off ↦ rw off (tasks-add_started (start w) p q t ne e)
]

unfired_dead : (w : TimingWheel) (p : ℕ) → w.tasks p ≡ none → count p (tick_step w).0 ≡ 0
unfolding tick_step tick
unfired_dead w p e = count-alive_dead w p _ (rw (e, is_alive))

run_dead :
    (c : Phase) (w : TimingWheel) (p : ℕ) (es : List Event)
    → w.tasks p ≡ none
    → Spares p es
    → map (count p) (run c w es) ≡ replicate (length (run c w es)) 0
unfolding run tick_step tick turn_work turn_assistant cascade
run_dead c w p [] e s = refl
run_dead ticking w p (steps ∷ es) e s =
    rw (unfired_dead w p e, run_dead sleeping (tick_step w).1 p es e s) refl
run_dead sleeping w p (steps ∷ es) e s = run_dead (turn_work w).0 (turn_work w).1 p es e s
run_dead turning w p (steps ∷ es) e s = run_dead cascading (turn_assistant w) p es e s
run_dead cascading w p (steps ∷ es) e s =
    run_dead ticking (cascade w w.current_assistant_wheel_index) p es e s
run_dead c w p (adds q t ∷ es) e s =
    run_dead c (add_task (place w q t) q t) p es
      (tasks-add_task (place w q t) p q t s.0 (ground arith)) s.1
run_dead c w p (drops q ∷ es) e s = run_dead c (release w q) p es (ground arith) s.1

-- After a task's last owner lets go of it no tick fires it, wherever it stood in the wheel.
pub release_silences :
    (c : Phase) (w : TimingWheel) (p : ℕ) (es : List Event)
    → Spares p es
    → map (count p) (run c (release w p) es) ≡ replicate (length (run c (release w p) es)) 0
release_silences c w p es s = run_dead c (release w p) p es (ground arith) s
