-- ===== src/Crc32/Tests.antt =====
-- The checksum of the standard's check string "123456789", and of small inputs.
use umsg.Base.{ℕ, ◌≡◌, ◌≢◌, refl, ap, arith, List, [], ◌∷◌, ◌++◌, get_or}
use umsg.Crc32.{
  crc32_iso_hdlc, crc32_by_byte_table, crc32_by_nibble_table, byte_loop, bit_loop, bit_step,
}
use umsg.Crc32.Equivalence.{crc32_tables_agree}
use umsg.Crc32.Detection.{crc32_detects_burst}

abbrev check_string : List ℕ
check_string = 0x31 ∷ 0x32 ∷ 0x33 ∷ 0x34 ∷ 0x35 ∷ 0x36 ∷ 0x37 ∷ 0x38 ∷ 0x39 ∷ []

check_value : crc32_iso_hdlc check_string ≡ 0xCBF43926
unfolding crc32_iso_hdlc byte_loop bit_loop bit_step
check_value = refl

crc32_tables_agree_example :
    (crc32_by_byte_table check_string ≡ crc32_iso_hdlc check_string)
    × (crc32_by_nibble_table check_string ≡ crc32_iso_hdlc check_string)
crc32_tables_agree_example = crc32_tables_agree check_string (omega arith)

abbrev sent : List ℕ
sent = 0x32 ∷ 0x33 ∷ []

abbrev got : List ℕ
got = 0x33 ∷ 0x32 ∷ []

sent_differs : sent ≢ got
sent_differs e = absurd (omega (arith, ap (λ xs. get_or xs 0 0) e))

crc32_detects_burst_example :
    crc32_iso_hdlc ((0x31 ∷ []) ++ (sent ++ (0x34 ∷ [])))
    ≢ crc32_iso_hdlc ((0x31 ∷ []) ++ (got ++ (0x34 ∷ [])))
crc32_detects_burst_example =
    crc32_detects_burst (0x31 ∷ []) sent got (0x34 ∷ []) (omega arith) (omega arith) (omega arith)
      (omega arith) refl (omega arith) sent_differs
