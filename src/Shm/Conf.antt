-- ===== src/Shm/Conf.antt =====
-- cyber/transport/shm/shm_conf.cc: how a segment is laid out for a message size. The sizes of
-- `State` and `Block` are the compiler's: the constants here reserve room for them.
pub mod Layout
use cyber_rt_standalone_r.Prelude.{ℕ, ◌+◌, ◌*◌, ◌%◌, ◌^◌, ◌==◌, leb, if◌then◌else◌}

abbrev pub extra_size : ℕ
extra_size = 1024 * 4

abbrev pub state_size : ℕ
state_size = 1024

abbrev pub block_size : ℕ
block_size = 1024

abbrev pub message_info_size : ℕ
message_info_size = 1024

abbrev pub message_size_16k : ℕ
message_size_16k = 1024 * 16

abbrev pub message_size_128k : ℕ
message_size_128k = 1024 * 128

abbrev pub message_size_1m : ℕ
message_size_1m = 1024 * 1024

abbrev pub message_size_8m : ℕ
message_size_8m = 1024 * 1024 * 8

abbrev pub message_size_16m : ℕ
message_size_16m = 1024 * 1024 * 16

abbrev pub message_size_more : ℕ
message_size_more = 1024 * 1024 * 32

pub record ShmConf : Type 0 where
  pub ceiling_msg_size : ℕ
  pub block_buf_size : ℕ
  pub block_num : ℕ
  pub managed_shm_size : ℕ

unfoldable pub get_ceiling_message_size : ℕ → ℕ
get_ceiling_message_size real_msg_size =
    if leb real_msg_size message_size_16k
    then message_size_16k
    else if leb real_msg_size message_size_128k
    then message_size_128k
    else if leb real_msg_size message_size_1m
    then message_size_1m
    else if leb real_msg_size message_size_8m
    then message_size_8m
    else if leb real_msg_size message_size_16m
    then message_size_16m
    else message_size_more

pub get_block_buf_size : ℕ → ℕ
get_block_buf_size ceiling_msg_size = (ceiling_msg_size + message_info_size) % 2 ^ 64

-- An unknown ceiling is logged and gives no blocks.
pub get_block_num : ℕ → ℕ
get_block_num ceiling_msg_size =
    if ceiling_msg_size == message_size_16k
    then 512
    else if ceiling_msg_size == message_size_128k
    then 128
    else if ceiling_msg_size == message_size_1m
    then 64
    else if ceiling_msg_size == message_size_8m
    then 32
    else if ceiling_msg_size == message_size_16m
    then 16
    else if ceiling_msg_size == message_size_more
    then 8
    else 0

-- `Update`, which is also what the constructors do.
unfoldable pub update : ℕ → ShmConf
unfolding get_ceiling_message_size get_block_buf_size get_block_num
update real_msg_size =
    let ceiling = get_ceiling_message_size real_msg_size in
    let buf_size = get_block_buf_size ceiling in
    let num = get_block_num ceiling in
    record {
      ceiling_msg_size = ceiling;
      block_buf_size = buf_size;
      block_num = num;
      managed_shm_size = (extra_size + state_size + (block_size + buf_size) * num) % 2 ^ 64;
    }

-- The offset of the `i`-th buffer in the mapping, as `OpenOrCreate` and `OpenOnly` of both segment
-- classes compute it.
pub buf_offset : ℕ → ℕ → ShmConf → ℕ → ℕ
buf_offset sizeof_state sizeof_block c i =
    sizeof_state + c.block_num * sizeof_block + i * c.block_buf_size
