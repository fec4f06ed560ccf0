-- ===== src/Blocker/Range.antt =====
-- Iterating over what a blocker has observed, by itself and by an `IntraReader`
-- (cyber/blocker/intra_reader.h), whose blocker the manager finds by the channel's name.
use cyber_rt_standalone_r.Prelude.{take_all, ℕ, ◌-◌, ◌≡◌, refl, List, [], length, take, drop, arith}
use cyber_rt_standalone_r.Blocker.{Blocker, observed_begin, observed_end}

-- `Begin` and `End` of a reader on a channel with a blocker; without one the check ends the process.
abbrev pub begin : {T C : Type 0} → Blocker T C → ℕ
begin b = observed_begin b

abbrev pub end : {T C : Type 0} → Blocker T C → ℕ
end b = observed_begin b

-- The elements that `for (auto it = first; it != last; ++it)` visits in a list.
abbrev pub visits : {A : Type 0} → ℕ → ℕ → List A → List A
visits first last xs = take (last - first) (drop first xs)

-- From `ObservedBegin` to `ObservedEnd` a loop visits all that the blocker observed, and from `Begin` to
-- `End` of a reader it visits nothing, whatever the blocker observed.
pub visits_lem :
    {T C : Type 0} (b : Blocker T C)
    → (visits (observed_begin b) (observed_end b) b.observed_msg_queue ≡ b.observed_msg_queue)
      × (visits (begin b) (end b) b.observed_msg_queue ≡ [])
visits_lem b = (take_all (length b.observed_msg_queue - 0) b.observed_msg_queue (omega arith), refl)
