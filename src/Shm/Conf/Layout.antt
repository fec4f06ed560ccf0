-- ===== src/Shm/Conf/Layout.antt =====
-- The layout holds what it is made for.
use cyber_rt_standalone_r.Prelude.{ℕ, suc, ◌+◌, ◌*◌, ◌≤◌, ◌<◌, ◌≡◌, arith}
use cyber_rt_standalone_r.Shm.Conf.{
  update, buf_offset, message_size_more, message_info_size, state_size, block_size,
}

-- A message of up to 32 MB fits its ceiling, and its block's buffer has room for the message
-- information behind it.
pub update_fits :
    (size : ℕ)
    → size ≤ message_size_more
    → (size ≤ (update size).ceiling_msg_size)
      × (size + message_info_size ≤ (update size).block_buf_size)
      × (0 < (update size).block_num)
unfolding update
update_fits size h = ground arith

-- A message of more than 32 MB and 1 KB does not: the buffers of the segment that is made for it are too
-- small for it.
pub update_too_small :
    (size : ℕ) → message_size_more + message_info_size < size → (update size).block_buf_size < size
unfolding update
update_too_small size h = ground arith

-- A process that opens the segment of another computes the same layout from the ceiling that it
-- finds in the segment's state.
pub update-ceiling : (size : ℕ) → update (update size).ceiling_msg_size ≡ update size
unfolding update
update-ceiling size = ground arith

managed_lem :
    (size : ℕ)
    → (update size).managed_shm_size
      ≡ 5120 + (1024 + (update size).block_buf_size) * (update size).block_num
unfolding update
managed_lem size = ground arith

last_fits :
    (a b n w j : ℕ)
    → a ≤ 1024
    → b ≤ 1024
    → suc j ≤ n
    → a + n * b + j * w + w ≤ 5120 + (1024 + w) * n
last_fits a b n w j h k l = grind arith

before : (x w i j : ℕ) → suc i ≤ j → x + i * w + w ≤ x + j * w
before x w i j o = grind arith

-- Every buffer lies inside the mapping, and behind the state, the blocks and the buffers before it.
pub buffers_inside :
    (sizeof_state sizeof_block size i j : ℕ)
    → sizeof_state ≤ state_size
    → sizeof_block ≤ block_size
    → j < (update size).block_num
    → i < j
    → let c = update size in
      (buf_offset sizeof_state sizeof_block c j + c.block_buf_size ≤ c.managed_shm_size)
      × (buf_offset sizeof_state sizeof_block c i + c.block_buf_size
          ≤ buf_offset sizeof_state sizeof_block c j)
      × (sizeof_state + c.block_num * sizeof_block ≤ buf_offset sizeof_state sizeof_block c i)
unfolding buf_offset
buffers_inside a b size i j h k l o = (
  rw (managed_lem size)
      (last_fits a b (update size).block_num (update size).block_buf_size j h k l),
  before (a + (update size).block_num * b) (update size).block_buf_size i j o,
  omega arith,
)
