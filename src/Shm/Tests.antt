-- ===== src/Shm/Tests.antt =====
-- Runs of cyber/transport/shm on small inputs, and the theorems at them.
use cyber_rt_standalone_r.Prelude.{
  ℕ, ◌+◌, ◌*◌, ◌≤◌, ◌<◌, ◌≡◌, ◌⊎◌, List, [], ◌∷◌, false, arith, pos, negsuc,
}
use cyber_rt_standalone_r.Shm.Conf.{update, buf_offset}
use cyber_rt_standalone_r.Shm.Conf.Layout.{update_fits, update_too_small, buffers_inside}
use cyber_rt_standalone_r.Shm.Block.{
  Action, try_lock_for_read, exchange, try_lock_for_write, release_write_lock, run,
}
use cyber_rt_standalone_r.Shm.Block.Exclusion.{fresh, readers, writers, run_exclusion}

update_fits_example :
    (20000 ≤ (update 20000).ceiling_msg_size)
    × (20000 + 1024 ≤ (update 20000).block_buf_size)
    × (0 < (update 20000).block_num)
update_fits_example = update_fits 20000 (omega arith)

update_too_small_example : (update 33555457).block_buf_size < 33555457
update_too_small_example = update_too_small 33555457 (omega arith)

buffers_inside_example :
    let c = update 5000000 in
    (buf_offset 24 32 c 9 + c.block_buf_size ≤ c.managed_shm_size)
    × (buf_offset 24 32 c 8 + c.block_buf_size ≤ buf_offset 24 32 c 9)
    × (24 + c.block_num * 32 ≤ buf_offset 24 32 c 8)
unfolding update
buffers_inside_example =
    buffers_inside 24 32 5000000 8 9 (omega arith) (omega arith) (omega arith) (omega arith)

-- Thread 0 reads the free lock, thread 1 takes it for writing, and thread 0 gives up.
abbrev contest : List (ℕ × Action)
contest =
    (0, try_lock_for_read)
    ∷ (1, try_lock_for_write false)
    ∷ (0, exchange false)
    ∷ (2, try_lock_for_write false)
    ∷ (1, release_write_lock)
    ∷ (2, try_lock_for_read)
    ∷ (2, exchange false)
    ∷ []

run_exclusion_example :
    let s = run (fresh 3) contest in
    (writers s ≤ 1)
    × ((writers s ≡ 0) ⊎ (readers s ≡ 0))
    × (((s.lock_num ≡ negsuc 0) × (writers s ≡ 1))
        ⊎ ((s.lock_num ≡ pos (readers s)) × (writers s ≡ 0)))
run_exclusion_example = run_exclusion 3 contest (omega arith)
