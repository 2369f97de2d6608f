-- ===== src/Config.antt =====
-- The constants of include/dhmp_fs.h and include/dhmp_fs_hashmap.h, in bytes and in counts.
use fuse_node.Prelude.{ℕ, ◌+◌, ◌*◌, ◌/◌}

abbrev pub total_size : ℕ
total_size = 1024 * 1024 * 1024 * 8

abbrev pub bank_size : ℕ
bank_size = 1024 * 1024 * 4

abbrev pub bank_num : ℕ
bank_num = total_size / bank_size

abbrev pub chunk_size : ℕ
chunk_size = 1024 * 4

abbrev pub chunk_num : ℕ
chunk_num = total_size / chunk_size

abbrev pub cache_size_byte : ℕ
cache_size_byte = 1024 * 1024 * 512

abbrev pub cache_size : ℕ
cache_size = cache_size_byte / bank_size

abbrev pub indirect_index_nums : ℕ
indirect_index_nums = 256

abbrev pub direct_index_nums : ℕ
direct_index_nums = 100

-- `FILE_NAME_LEN`
abbrev pub file_name_len : ℕ
file_name_len = 512

abbrev pub slab_nums : ℕ
slab_nums = 1000

abbrev pub size_direct_unit : ℕ
size_direct_unit = chunk_size

abbrev pub size_first_direct_unit : ℕ
size_first_direct_unit = chunk_size

abbrev pub size_second_direct_unit : ℕ
size_second_direct_unit = chunk_size * indirect_index_nums

abbrev pub size_third_direct_unit : ℕ
size_third_direct_unit = chunk_size * indirect_index_nums * indirect_index_nums

abbrev pub size_direct_end : ℕ
size_direct_end = direct_index_nums * chunk_size

abbrev pub size_first_direct_end : ℕ
size_first_direct_end = size_direct_end + indirect_index_nums * chunk_size

abbrev pub size_second_direct_end : ℕ
size_second_direct_end =
    size_first_direct_end + indirect_index_nums * indirect_index_nums * chunk_size

abbrev pub size_third_direct_end : ℕ
size_third_direct_end =
    size_second_direct_end
    + indirect_index_nums * indirect_index_nums * indirect_index_nums * chunk_size

abbrev pub default_map_size : ℕ
default_map_size = 50
