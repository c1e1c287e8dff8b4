-- ===== src/Auth/Window.antt =====
-- The window against replays of src/auth/packet_crypto.cpp: the highest sequence number that was
-- accepted, and a bit for each of the 64 numbers up to it. Bit `d` of `bitmap` is
-- `bitmap & (std::uint64_t{1} << d)`.
pub mod Bits
pub mod Spec
use lan_link.Prelude.{
  ℕ, zero, suc, ◌+◌, ◌-◌, ◌*◌, ◌/◌, ◌%◌, ◌^◌, Bool, true, not, ◌&&◌, ltb, leb, ◌==◌, if◌then◌else◌,
}

unfoldable pub test_bit : ℕ → ℕ → Bool
test_bit bitmap zero = bitmap % 2 == 1
test_bit bitmap (suc d) = test_bit (bitmap / 2) d

-- `bitmap | (std::uint64_t{1} << d)`
unfoldable pub set_bit : ℕ → ℕ → ℕ
set_bit bitmap zero = bitmap / 2 * 2 + 1
set_bit bitmap (suc d) = bitmap % 2 + 2 * set_bit (bitmap / 2) d

unfoldable pub accept_sequence : ℕ → ℕ → ℕ → Bool
accept_sequence sequence highest bitmap =
    if ltb highest sequence
    then true
    else ltb (highest - sequence) 64 && not (test_bit bitmap (highest - sequence))

-- The highest number and the bitmap after a number was accepted.
unfoldable pub mark : ℕ → ℕ → ℕ → ℕ × ℕ
mark sequence highest bitmap =
    if ltb highest sequence
    then (
      sequence,
      if leb 64 (sequence - highest)
          then 1
          else set_bit (bitmap * 2 ^ (sequence - highest) % 2 ^ 64) 0,
    )
    else (highest, set_bit bitmap (highest - sequence))
