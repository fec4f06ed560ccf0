-- ===== src/Base/Tests.antt =====
-- Runs of the queue on small inputs, and the theorems at them.
use cyber_rt_standalone_r.Prelude.{
  ℕ, ◌+◌, ◌≡◌, ◌≤◌, refl, List, [], ◌∷◌, false, length, take, arith,
}
use cyber_rt_standalone_r.Base.Bounded.{
  idle, Action, enqueue, dequeue, go, run, fresh, init, move, step, get_index,
}
use cyber_rt_standalone_r.Base.Bounded.Order.{run_order}
use cyber_rt_standalone_r.Base.Bounded.Fifo.{serve_all, calls, view, calls_Fifo}

-- Two producers and a consumer: both load the same tail, and the second has to claim again.
abbrev contended : List (ℕ × Action ℕ)
contended =
    (0, enqueue 5)
    ∷ (1, enqueue 6)
    ∷ (0, go false)
    ∷ (1, go false)
    ∷ (1, go false)
    ∷ (0, go false)
    ∷ (0, go false)
    ∷ (0, go false)
    ∷ (0, go false)
    ∷ (0, go false)
    ∷ (1, go false)
    ∷ (1, go false)
    ∷ (0, go false)
    ∷ (2, dequeue)
    ∷ (2, go false)
    ∷ (2, go false)
    ∷ (2, go false)
    ∷ []

contended_out : (run 0 (fresh 0 2) contended).shared.out ≡ 6 ∷ []
unfolding run step move fresh init get_index
contended_out = refl

run_order_example :
    let m = (run 0 (fresh 0 2) contended).shared in
    (m.out ≡ take m.head m.log) × (m.head ≤ length m.log) × (length m.log ≤ m.head + 2)
run_order_example = run_order 0 2 contended (omega arith) (omega arith)

abbrev alone : List (Action ℕ)
alone = dequeue ∷ enqueue 5 ∷ enqueue 6 ∷ enqueue 7 ∷ dequeue ∷ enqueue 8 ∷ []

alone_waiting : (view (calls 0 alone (idle, init 0 2)).1).waiting ≡ 6 ∷ 8 ∷ []
unfolding move init get_index
alone_waiting = refl

calls_Fifo_example :
    ((calls 0 alone (idle, init 0 2)).0 ≡ idle)
    × (view (calls 0 alone (idle, init 0 2)).1
        ≡ serve_all 2 alone (record { waiting = []; taken = [] }))
calls_Fifo_example = calls_Fifo 0 2 alone (omega arith) (omega arith)
