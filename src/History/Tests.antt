-- ===== src/History/Tests.antt =====
-- Runs of cyber/transport/message/history.h on small inputs, and the theorem at them.
use cyber_rt_standalone_r.Prelude.{ℕ, ◌≡◌, refl, [], ◌∷◌, ◌++◌, some, arith}
use cyber_rt_standalone_r.History.{
  History, keep_last, create, enable, add, disable, clear, get_cached_message,
}
use cyber_rt_standalone_r.History.Kept.{IsNewest, add_all, add_all-IsNewest}

abbrev two : History ℕ
two = enable (create (some 500) (record { history_policy = keep_last; depth = 2 }))

keeps_two : (add_all (1 ∷ 2 ∷ 3 ∷ []) two).msgs ≡ 2 ∷ 3 ∷ []
unfolding add enable create
keeps_two = refl

disabled : (add_all (1 ∷ []) (clear (disable two))).msgs ≡ []
unfolding add enable disable clear create
disabled = refl

cached : get_cached_message (9 ∷ []) (add_all (1 ∷ 2 ∷ []) two) ≡ 1 ∷ 2 ∷ 9 ∷ []
unfolding get_cached_message add enable create
cached = refl

add_all-IsNewest_example :
    IsNewest two.depth (two.msgs ++ (1 ∷ 2 ∷ 3 ∷ [])) (add_all (1 ∷ 2 ∷ 3 ∷ []) two).msgs
unfolding enable create
add_all-IsNewest_example = add_all-IsNewest (1 ∷ 2 ∷ 3 ∷ []) two refl (omega arith)
