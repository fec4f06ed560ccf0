-- ===== src/Data/Dispatch/Tests.antt =====
-- Two visitors of two channels, and the theorems at them.
use cyber_rt_standalone_r.Prelude.{ℕ, ◌≡◌, refl, List, [], ◌∷◌, false, arith}
use cyber_rt_standalone_r.Data.Visitor.Delivery.{InOrder}
use cyber_rt_standalone_r.Data.Dispatch.{
  enlist, listed, locked, changed, dispatch, attach, Happening, attached, registers, destroyed,
  dispatched, polled,
}
use cyber_rt_standalone_r.Data.Dispatch.Attached.{times}
use cyber_rt_standalone_r.Data.Dispatch.Seen.{happen_all, process, seen, seen-InOrder}
use cyber_rt_standalone_r.Data.Dispatch.Wakes.{times-dispatch}

-- Visitor 0 reads channel 3 and is destroyed later; visitor 1 reads channel 5.
abbrev past : List (Happening ℕ)
past = attached 3 2 ∷ registers 0 ∷ dispatched false 3 70 ∷ []

abbrev later : List (Happening ℕ)
later =
    registers 1
    ∷ dispatched false 5 10
    ∷ dispatched false 3 71
    ∷ polled 1
    ∷ destroyed 0
    ∷ dispatched false 5 20
    ∷ dispatched false 3 72
    ∷ polled 1
    ∷ []

seen-InOrder_example : InOrder 0 2 0 (10 ∷ 20 ∷ []) (seen 0 1 (attach 0 5 2 (process 0 past)) later)
unfolding enlist listed locked changed dispatch
seen-InOrder_example = seen-InOrder 0 past later 5 2 (omega arith) (omega arith) (omega arith) refl

times-dispatch_example :
    times 1 (dispatch false 5 30 (happen_all 0 later (attach 0 5 2 (process 0 past)))).1 ≡ 1
unfolding enlist listed locked changed dispatch
times-dispatch_example = times-dispatch 0 past later 5 2 5 30 refl
