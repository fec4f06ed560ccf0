-- ===== src/Base/RwLock/Tests.antt =====
-- Threads that contend for a lock, and the theorem at them.
use cyber_rt_standalone_r.Prelude.{ℕ, ◌≤◌, ◌≡◌, ◌⊎◌, List, [], ◌∷◌, true, false, arith, pos, negsuc}
use cyber_rt_standalone_r.Base.RwLock.{Action, begin_read, begin_write, proceed, unlock, run}
use cyber_rt_standalone_r.Base.RwLock.Exclusion.{fresh, readers, writers, waiters, run-fresh}

-- A reader and a writer come at once; a second reader waits for the writer.
abbrev contest : List (ℕ × Action)
contest =
    (0, begin_read)
    ∷ (0, proceed false)
    ∷ (1, begin_write)
    ∷ (0, proceed false)
    ∷ (1, proceed false)
    ∷ (2, begin_read)
    ∷ (2, proceed false)
    ∷ (0, unlock)
    ∷ (1, proceed false)
    ∷ []

run-fresh_example :
    let s = run true (fresh 3) contest in
    (writers s ≤ 1)
    × ((writers s ≡ 0) ⊎ (readers s ≡ 0))
    × (((s.words.lock_num ≡ negsuc 0) × (writers s ≡ 1))
        ⊎ ((s.words.lock_num ≡ pos (readers s)) × (writers s ≡ 0)))
    × (s.words.write_lock_wait_num ≡ waiters s)
run-fresh_example = run-fresh true 3 contest (omega arith)
