-- ===== src/Routing/Crc32.antt =====
-- `crc32.ChecksumIEEE` of Go, bit by bit.
use Prim.Native.Nat.{bit_xor}
use iss_com_multipaxos.Prelude.{ℕ, zero, suc, ◌/◌, ◌%◌, List, [], ◌∷◌, ◌==◌, if◌then◌else◌}

unfoldable pub shift_bits : ℕ → ℕ → ℕ
shift_bits zero c = c
shift_bits (suc k) c =
    let d = if c % 2 == 1 then bit_xor (c / 2) 0xEDB88320 else c / 2 in shift_bits k d

unfoldable pub update_crc : ℕ → List ℕ → ℕ
unfolding shift_bits
update_crc c [] = c
update_crc c (x ∷ xs) = update_crc (shift_bits 8 (bit_xor c (x % 256))) xs

unfoldable pub checksum_ieee : List ℕ → ℕ
unfolding update_crc
checksum_ieee bytes = bit_xor (update_crc 0xFFFFFFFF bytes) 0xFFFFFFFF
