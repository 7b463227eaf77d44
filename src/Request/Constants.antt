-- ===== src/Request/Constants.antt =====
-- The flags of a request, by the number of their bit, and the masks made of them.
-- Code: src/mem/request.hh.
use patch_tectreee.Base.{ltb}
use patch_tectreee.Request.Masks.{Mask, bit, either_of}

abbrev pub arch_bits : Mask
arch_bits i = ltb i 8

abbrev pub inst_fetch : Mask
inst_fetch = bit 8

abbrev pub physical : Mask
physical = bit 9

abbrev pub uncacheable : Mask
uncacheable = bit 10

abbrev pub strict_order : Mask
strict_order = bit 11

abbrev pub privileged : Mask
privileged = bit 15

abbrev pub cache_block_zero : Mask
cache_block_zero = bit 16

abbrev pub no_access : Mask
no_access = bit 19

abbrev pub locked_rmw : Mask
locked_rmw = bit 20

abbrev pub llsc : Mask
llsc = bit 21

abbrev pub mem_swap : Mask
mem_swap = bit 22

abbrev pub mem_swap_cond : Mask
mem_swap_cond = bit 23

abbrev pub read_modify_write : Mask
read_modify_write = bit 17

abbrev pub prefetch : Mask
prefetch = bit 24

abbrev pub pf_exclusive : Mask
pf_exclusive = bit 25

abbrev pub evict_next : Mask
evict_next = bit 26

abbrev pub acquire : Mask
acquire = bit 17

abbrev pub release : Mask
release = bit 18

abbrev pub atomic_return_op : Mask
atomic_return_op = bit 30

abbrev pub atomic_no_return_op : Mask
atomic_no_return_op = bit 31

abbrev pub kernel : Mask
kernel = bit 12

abbrev pub secure : Mask
secure = bit 28

abbrev pub pt_walk : Mask
pt_walk = bit 29

abbrev pub invalidate : Mask
invalidate = bit 32

abbrev pub clean : Mask
clean = bit 33

abbrev pub dst_pou : Mask
dst_pou = bit 36

abbrev pub dst_poc : Mask
dst_poc = bit 37

abbrev pub htm_start : Mask
htm_start = bit 40

abbrev pub htm_commit : Mask
htm_commit = bit 41

abbrev pub htm_cancel : Mask
htm_cancel = bit 42

abbrev pub htm_abort : Mask
htm_abort = bit 43

abbrev pub tlbi : Mask
tlbi = bit 44

abbrev pub tlbi_sync : Mask
tlbi_sync = bit 45

abbrev pub tlbi_ext_sync : Mask
tlbi_ext_sync = bit 46

abbrev pub tlbi_ext_sync_comp : Mask
tlbi_ext_sync_comp = bit 47

abbrev pub dst_bits : Mask
dst_bits = either_of dst_pou dst_poc

-- The flags that a request keeps when it is used again.
abbrev pub sticky_flags : Mask
sticky_flags = inst_fetch

abbrev pub store_no_data : Mask
store_no_data = either_of cache_block_zero (either_of clean invalidate)

abbrev pub htm_cmd : Mask
htm_cmd = either_of htm_start (either_of htm_commit (either_of htm_cancel htm_abort))

abbrev pub tlbi_cmd : Mask
tlbi_cmd = either_of tlbi (either_of tlbi_sync (either_of tlbi_ext_sync tlbi_ext_sync_comp))

-- The coherence policy, a word of its own.
abbrev pub i_cache_inv : Mask
i_cache_inv = bit 0

abbrev pub v_cache_inv : Mask
v_cache_inv = bit 1

abbrev pub k_cache_inv : Mask
k_cache_inv = bit 2

abbrev pub gl1_cache_inv : Mask
gl1_cache_inv = bit 3

abbrev pub k_cache_wb : Mask
k_cache_wb = bit 4

abbrev pub flush_l2 : Mask
flush_l2 = bit 5

abbrev pub gl2_cache_inv : Mask
gl2_cache_inv = bit 6

abbrev pub slc_bit : Mask
slc_bit = bit 7

abbrev pub dlc_bit : Mask
dlc_bit = bit 8

abbrev pub glc_bit : Mask
glc_bit = bit 9

abbrev pub cached : Mask
cached = bit 10

abbrev pub read_write : Mask
read_write = bit 11

abbrev pub shared : Mask
shared = bit 12

abbrev pub inv_l1 : Mask
inv_l1 = i_cache_inv

-- Which fields are valid: the private word.
abbrev pub valid_size : Mask
valid_size = bit 0

abbrev pub valid_paddr : Mask
valid_paddr = bit 1

abbrev pub valid_vaddr : Mask
valid_vaddr = bit 2

abbrev pub valid_inst_seq_num : Mask
valid_inst_seq_num = bit 3

abbrev pub valid_pc : Mask
valid_pc = bit 4

abbrev pub valid_context_id : Mask
valid_context_id = bit 5

abbrev pub valid_extra_data : Mask
valid_extra_data = bit 7

abbrev pub valid_stream_id : Mask
valid_stream_id = bit 8

abbrev pub valid_substream_id : Mask
valid_substream_id = bit 9

abbrev pub valid_htm_abort_cause : Mask
valid_htm_abort_cause = bit 10

abbrev pub valid_inst_count : Mask
valid_inst_count = bit 11

abbrev pub sticky_private_flags : Mask
sticky_private_flags = valid_context_id
