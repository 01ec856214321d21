-- ===== src/Common/Sizes.antt =====
-- The constants and size functions of src/umsg/common.hpp.
use umsg.Base.{ℕ, ◌+◌, ◌/◌}

abbrev pub max_member_fn_ptr_size : ℕ
max_member_fn_ptr_size = 16

abbrev pub frame_header_size : ℕ
frame_header_size = 8

unfoldable pub cobs_max_overhead : ℕ → ℕ
cobs_max_overhead n = (n + 253) / 254

unfoldable pub max_frame_size : ℕ → ℕ
max_frame_size max_payload_size = frame_header_size + max_payload_size

unfoldable pub max_packet_size : ℕ → ℕ
unfolding max_frame_size cobs_max_overhead
max_packet_size max_payload_size =
    max_frame_size max_payload_size
    + 4
    + cobs_max_overhead (max_frame_size max_payload_size + 4)
    + 1
