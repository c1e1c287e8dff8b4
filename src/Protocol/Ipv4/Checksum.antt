-- ===== src/Protocol/Ipv4/Checksum.antt =====
-- A header whose checksum was updated has the checksum that `inspect_ipv4` wants.
use lan_link.Protocol.Ipv4.{
  octet_at, internet_checksum, header_length, update_ipv4_checksum, put_bytes, sum_loop, fold_loop,
}
use lan_link.Bytes.{IsByte, take_here, drop_next, append_integer, IsBytes}
use lan_link.Prelude.{
  ℕ, suc, ◌+◌, ◌-◌, ◌*◌, ◌/◌, ◌%◌, ◌^◌, ◌≤◌, ◌<◌, ◌≡◌, refl, ap, ◌∙◌, not, ◌||◌, List, [], ◌∷◌,
  ◌++◌, arith, ltb, leb, ok, require-inv, ok_injective, length, take, drop, length-append,
  length-take, length-drop, All-append, All-take, All-drop,
}
use lan_link.Protocol.Ipv4.Words.{
  word_sum, sum_loop_zero, word_sum-bound, word_sum_at, checksum_closes,
}

-- The header with a word at 10.
abbrev with_word : List ℕ → ℕ → ℕ → List ℕ
with_word packet high low = take 10 packet ++ high ∷ low ∷ drop 12 packet

with_word_size : (packet : List ℕ) → 20 ≤ length packet → length (take 10 packet) ≡ 10
with_word_size packet h = omega (arith, length-take 10 packet, h)

take_past :
    (front : List ℕ) (n : ℕ) (high low : ℕ) (rest : List ℕ)
    → take (length front + (n + 2)) (front ++ high ∷ low ∷ rest) ≡ front ++ high ∷ low ∷ take n rest
take_past [] n high low rest = let e : 0 + (n + 2) ≡ suc (suc n) = omega arith in rw e refl
take_past (x ∷ front) n high low rest =
    let e : length (x ∷ front) + (n + 2) ≡ suc (length front + (n + 2)) = omega arith in
    rw e (ap (◌∷◌ x) (take_past front n high low rest))

module _ (packet : List ℕ) (long : 20 ≤ length packet) where
  word_lead : (high low : ℕ) → take 10 (with_word packet high low) ≡ take 10 packet
  word_lead high low =
      take_here 0 10 (with_word packet high low) (take 10 packet) (high ∷ low ∷ drop 12 packet) refl
        (with_word_size packet long)

  word_behind : (high low : ℕ) → drop 12 (with_word packet high low) ≡ drop 12 packet
  word_behind high low =
      let whole = with_word packet high low in
      let past : drop 10 whole ≡ high ∷ low ∷ drop 12 packet =
        drop_next 0 10 whole (take 10 packet) (high ∷ low ∷ drop 12 packet) refl
          (with_word_size packet long) in
      drop_next 10 2 whole (high ∷ low ∷ []) (drop 12 packet) past refl

  put_word :
      (high low value : ℕ)
      → put_bytes (with_word packet high low) 10 value 2
        ≡ with_word packet (value / 256 % 256) (value % 256)
  unfolding append_integer
  put_word high low value =
      let same : value / 1 ≡ value = omega arith in
      rw (word_lead high low, word_behind high low, same) refl

  word_length : (high low : ℕ) → length (with_word packet high low) ≡ length packet
  word_length high low = omega (
    arith,
    length-append (take 10 packet) (high ∷ low ∷ drop 12 packet),
    length-take 10 packet,
    length-drop 12 packet,
    long,
  )

  clear_word : put_bytes packet 10 0 2 ≡ with_word packet 0 0
  unfolding append_integer
  clear_word = refl

  taken :
      (high low header : ℕ)
      → 20 ≤ header
      → take header (with_word packet high low)
        ≡ take 10 packet ++ high ∷ low ∷ take (header - 12) (drop 12 packet)
  taken high low header h =
      let e : length (take 10 packet) + (header - 12 + 2) ≡ header =
        omega (arith, with_word_size packet long, h) in
      rw e at (take_past (take 10 packet) (header - 12) high low (drop 12 packet))

  header_sum :
      (high low header : ℕ)
      → 20 ≤ header
      → word_sum (take header (with_word packet high low))
        ≡ word_sum (take header (with_word packet 0 0)) + (high * 256 + low)
  header_sum high low header h =
      let size = with_word_size packet long in
      let rest = take (header - 12) (drop 12 packet) in
      let front = take 10 packet in
      rw (taken high low header h, taken 0 0 header h)
        (omega (
          arith,
          word_sum_at 5 front high low rest (omega (arith, size)),
          word_sum_at 5 front 0 0 rest (omega (arith, size)),
        ))

-- The sums that the checksum adds up are of a header's at most 60 bytes.
header_sum_small :
    (packet : List ℕ) (header : ℕ)
    → IsBytes packet
    → header ≤ 60
    → word_sum (take header packet) < 2 ^ 31
header_sum_small packet header h k = omega (
  arith,
  word_sum-bound (take header packet) (All-take IsByte header packet h),
  length-take header packet,
  k,
)

header_length-bound : (packet : List ℕ) → header_length packet ≤ 60
header_length-bound packet = omega arith

head_kept :
    (packet rest : List ℕ)
    → 20 ≤ length packet
    → octet_at (take 10 packet ++ rest) 0 ≡ octet_at packet 0
head_kept [] rest h = absurd (omega (arith, h))
head_kept (x ∷ packet) rest h = refl

-- The checksum of a header, put into the word that was clear.
module _ (packet : List ℕ) (long : 20 ≤ length packet) (bytes : IsBytes packet) (header : ℕ)
    (some_words : 20 ≤ header) (few : header ≤ 60) where
  abbrev clear_sum : ℕ
  clear_sum = word_sum (take header (with_word packet 0 0))

  clear_sum_small : clear_sum < 2 ^ 31
  clear_sum_small =
      header_sum_small (with_word packet 0 0) header
        (All-append _ (take 10 packet) (0 ∷ 0 ∷ drop 12 packet) (All-take _ 10 packet bytes)
          (omega arith, (omega arith, All-drop _ 12 packet bytes)))
        few

  closed :
      (checksum : ℕ)
      → checksum ≡ internet_checksum (take header (with_word packet 0 0))
      → internet_checksum (take header (with_word packet (checksum / 256 % 256) (checksum % 256)))
        ≡ 0
  unfolding internet_checksum
  closed checksum e =
      let clear : sum_loop 0 (take header (with_word packet 0 0)) ≡ clear_sum =
        sum_loop_zero (take header (with_word packet 0 0)) (omega (arith, clear_sum_small)) in
      let value : checksum ≡ 65_535 - fold_loop 2 clear_sum = rw clear at e in
      let full = take header (with_word packet (checksum / 256 % 256) (checksum % 256)) in
      let total : word_sum full ≡ clear_sum + (65_535 - fold_loop 2 clear_sum) = omega (
        arith,
        value,
        header_sum packet long (checksum / 256 % 256) (checksum % 256) header some_words,
      ) in
      let sum : sum_loop 0 full ≡ clear_sum + (65_535 - fold_loop 2 clear_sum) =
        sum_loop_zero full (omega (arith, total, clear_sum_small)) ∙ total in
      rw (sum, checksum_closes clear_sum clear_sum_small) refl

-- The header of a packet of bytes whose checksum was updated is as long as before and adds up to a
-- checksum of zero; all bytes but the two of the checksum are as they were.
pub update_ipv4_checksum_closes :
    (packet fixed : List ℕ)
    → IsBytes packet
    → update_ipv4_checksum packet ≡ ok fixed
    → (header_length fixed ≡ header_length packet)
      × (length fixed ≡ length packet)
      × (take 10 fixed ≡ take 10 packet)
      × (drop 12 fixed ≡ drop 12 packet)
      × (internet_checksum (take (header_length fixed) fixed) ≡ 0)
unfolding update_ipv4_checksum internet_checksum append_integer
update_ipv4_checksum_closes packet fixed h e =
    let (long, e1) = require-inv (leb 20 (length packet)) _ _ fixed e in
    let (fits, e2) =
      require-inv
        (not (ltb (header_length packet) 20 || ltb (length packet) (header_length packet))) _ _
        fixed e1 in
    let long' : 20 ≤ length packet = ground (arith, long) in
    let header = header_length packet in
    let checksum = internet_checksum (take header (with_word packet 0 0)) in
    let made : fixed ≡ with_word packet (checksum / 256 % 256) (checksum % 256) =
      ok_injective _ _ fixed refl e2 ∙ put_word packet long' 0 0 checksum in
    let kept : header_length fixed ≡ header =
      ap header_length made
      ∙ ap (λ (t : ℕ). t % 16 * 4)
          (head_kept packet (checksum / 256 % 256 ∷ checksum % 256 ∷ drop 12 packet) long') in
    (
      kept,
      ap length made ∙ word_length packet long' (checksum / 256 % 256) (checksum % 256),
      ap (take 10) made ∙ word_lead packet long' (checksum / 256 % 256) (checksum % 256),
      ap (drop 12) made ∙ word_behind packet long' (checksum / 256 % 256) (checksum % 256),
      ap (λ (n : ℕ). internet_checksum (take n fixed)) kept
          ∙ ap (λ (t : List ℕ). internet_checksum (take header t)) made
          ∙ closed packet long' h header (ground (arith, fits)) (header_length-bound packet)
              checksum refl,
    )
