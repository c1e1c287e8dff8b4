-- ===== src/Protocol/Ipv4/Words.antt =====
-- The arithmetic of the checksum: a sum of words, and a sum closed by its checksum.
use lan_link.Prelude.{
  ℕ, zero, suc, ◌+◌, ◌-◌, ◌*◌, ◌/◌, ◌%◌, ◌^◌, ◌≤◌, ◌<◌, ◌≡◌, ◌∙◌, List, [], ◌∷◌, ◌++◌, arith,
  length,
}
use lan_link.Bytes.{IsBytes}
use lan_link.Protocol.Ipv4.{sum_loop, fold_loop}

-- The sum of the 16-bit words of a byte sequence, the last of which may lack its low byte.
unfoldable pub word_sum : List ℕ → ℕ
word_sum [] = 0
word_sum (high ∷ []) = high * 256
word_sum (high ∷ low ∷ bytes) = high * 256 + low + word_sum bytes

sum_loop_lem :
    (sum : ℕ) (bytes : List ℕ)
    → sum + word_sum bytes < 2 ^ 32
    → sum_loop sum bytes ≡ sum + word_sum bytes
unfolding sum_loop word_sum
sum_loop_lem sum [] h = omega arith
sum_loop_lem sum (high ∷ []) h = omega (arith, h)
sum_loop_lem sum (high ∷ low ∷ bytes) h =
    let next : ((sum + high * 256) % 2 ^ 32 + low) % 2 ^ 32 ≡ sum + high * 256 + low =
      omega (arith, h) in
    rw next (sum_loop_lem (sum + high * 256 + low) bytes (omega (arith, h)) ∙ omega arith)

pub word_sum-bound : (bytes : List ℕ) → IsBytes bytes → word_sum bytes ≤ 65_280 * length bytes
unfolding word_sum
word_sum-bound [] h = omega arith
word_sum-bound (high ∷ []) h = omega (arith, h.0)
word_sum-bound (high ∷ low ∷ bytes) h = omega (arith, h.0, h.1.0, word_sum-bound bytes h.1.1)

pub sum_loop_zero : (bytes : List ℕ) → word_sum bytes < 2 ^ 32 → sum_loop 0 bytes ≡ word_sum bytes
sum_loop_zero bytes h = sum_loop_lem 0 bytes (omega (arith, h)) ∙ omega arith

-- A word that stands after an even number of bytes.
pub word_sum_at :
    (words : ℕ) (front : List ℕ) (high low : ℕ) (rest : List ℕ)
    → length front ≡ words * 2
    → word_sum (front ++ high ∷ low ∷ rest) ≡ word_sum front + (high * 256 + low) + word_sum rest
unfolding word_sum
word_sum_at zero [] high low rest e = omega arith
word_sum_at zero (x ∷ front) high low rest e = absurd (omega (arith, e))
word_sum_at (suc words) [] high low rest e = absurd (omega (arith, e))
word_sum_at (suc words) (x ∷ []) high low rest e = absurd (omega (arith, e))
word_sum_at (suc words) (x ∷ y ∷ front) high low rest e =
    omega (arith, word_sum_at words front high low rest (omega (arith, e)))

-- Folding leaves the sum as it is modulo 65535, in 16 bits.
fold_loop_lem :
    (s : ℕ)
    → s < 2 ^ 32
    → (fold_loop 2 s ≤ 65_535)
      × (s ≡ fold_loop 2 s + 65_535 * (s / 65_536 + (s % 65_536 + s / 65_536) / 65_536))
unfolding fold_loop
fold_loop_lem s h = (ground (arith, h), ground (arith, h))

-- A multiple of 65535 that is positive is folded to 65535.
fold_multiple : (m : ℕ) → 1 ≤ m → m ≤ 65_536 → fold_loop 2 (65_535 * m) ≡ 65_535
unfolding fold_loop
fold_multiple m h k = ground (arith, h, k)

pub checksum_closes : (s : ℕ) → s < 2 ^ 31 → fold_loop 2 (s + (65_535 - fold_loop 2 s)) ≡ 65_535
checksum_closes s h =
    let (low, e) = fold_loop_lem s (omega (arith, h)) in
    let k = s / 65_536 + (s % 65_536 + s / 65_536) / 65_536 in
    let m : s + (65_535 - fold_loop 2 s) ≡ 65_535 * (k + 1) = omega (arith, low, e) in
    rw m (fold_multiple (k + 1) (omega arith) (omega (arith, h)))
