-- ===== src/Protocol/Ipv4/Fields.antt =====
-- Fields that are put into the first 12 bytes of a packet leave what stands behind them.
use lan_link.Prelude.{
  ℕ, zero, suc, ◌+◌, ◌-◌, ◌/◌, ◌%◌, ◌^◌, ◌≤◌, ◌<◌, ◌≡◌, refl, sym, ap, ◌∙◌, List, [], ◌∷◌, ◌++◌,
  arith, length, take, drop, length-append, length-take, length-drop, drop-drop, All-append,
  All-take, All-drop,
}
use lan_link.Bytes.{
  read_loop, take_here, append_integer, append_integer-IsBytes, length-append_integer, IsBytes,
  drop_next,
}
use lan_link.Protocol.Ipv4.{get_bytes, octet_at, put_bytes}

module _ (bytes : List ℕ) (offset value count : ℕ) (fits : offset + count ≤ length bytes) where
  put_front_size : length (take offset bytes) ≡ offset
  put_front_size = omega (arith, length-take offset bytes, fits)

  pub length-put_bytes : length (put_bytes bytes offset value count) ≡ length bytes
  length-put_bytes = omega (
    arith,
    length-append (take offset bytes) (append_integer count value ++ drop (offset + count) bytes),
    length-append (append_integer count value) (drop (offset + count) bytes),
    length-append_integer count value,
    length-take offset bytes,
    length-drop (offset + count) bytes,
    fits,
  )

  put_behind :
      drop (offset + count) (put_bytes bytes offset value count) ≡ drop (offset + count) bytes
  put_behind =
      let tail = append_integer count value ++ drop (offset + count) bytes in
      let whole = put_bytes bytes offset value count in
      let past : drop (0 + offset) whole ≡ tail =
        drop_next 0 offset whole (take offset bytes) tail refl put_front_size in
      let start : 0 + offset ≡ offset = omega arith in
      drop_next offset count whole (append_integer count value) (drop (offset + count) bytes)
        (rw start at past) (length-append_integer count value)

  pub put_bytes_behind :
      (n : ℕ) → offset + count ≤ n → drop n (put_bytes bytes offset value count) ≡ drop n bytes
  put_bytes_behind n h =
      let e : offset + count + (n - (offset + count)) ≡ n = omega (arith, h) in
      let rest = n - (offset + count) in
      rw (← e) (
        sym (drop-drop rest (offset + count) (put_bytes bytes offset value count))
        ∙ ap (drop rest) put_behind
        ∙ drop-drop rest (offset + count) bytes)

pub put_bytes-IsBytes :
    (bytes : List ℕ) (offset value count : ℕ)
    → IsBytes bytes
    → IsBytes (put_bytes bytes offset value count)
put_bytes-IsBytes bytes offset value count h =
    All-append _ (take offset bytes) (append_integer count value ++ drop (offset + count) bytes)
      (All-take _ offset bytes h)
      (All-append _ (append_integer count value) (drop (offset + count) bytes)
        (append_integer-IsBytes count value) (All-drop _ (offset + count) bytes h))

-- The first byte is put, or kept.
pub put_first : (bytes : List ℕ) (value : ℕ) → octet_at (put_bytes bytes 0 value 1) 0 ≡ value % 256
unfolding append_integer
put_first bytes value = let e : value / 1 ≡ value = omega arith in rw e refl

pub put_later :
    (bytes : List ℕ) (offset value count : ℕ)
    → 1 ≤ length bytes
    → octet_at (put_bytes bytes (suc offset) value count) 0 ≡ octet_at bytes 0
put_later [] offset value count h = absurd (omega (arith, h))
put_later (x ∷ bytes) offset value count h = refl

take-take : (k m : ℕ) (bytes : List ℕ) → m ≤ k → take m (take k bytes) ≡ take m bytes
take-take k zero bytes h = refl
take-take zero (suc m) bytes h = absurd (omega (arith, h))
take-take (suc k) (suc m) [] h = refl
take-take (suc k) (suc m) (x ∷ bytes) h = ap (◌∷◌ x) (take-take k m bytes (omega (arith, h)))

-- What stands within the first `k` bytes.
pub take_window :
    (k n m : ℕ) (bytes : List ℕ)
    → n + m ≤ k
    → take m (drop n (take k bytes)) ≡ take m (drop n bytes)
take_window k zero m bytes h = take-take k m bytes (omega (arith, h))
take_window zero (suc n) m bytes h = absurd (omega (arith, h))
take_window (suc k) (suc n) m [] h = refl
take_window (suc k) (suc n) m (x ∷ bytes) h = take_window k n m bytes (omega (arith, h))

two_bytes : (value : ℕ) → value < 2 ^ 16 → read_loop (2 ^ 32) 0 (append_integer 2 value) ≡ value
unfolding read_loop append_integer
two_bytes value h = omega (arith, h)

-- A field of two bytes is read as it was put.
pub put_read :
    (bytes : List ℕ) (offset value : ℕ)
    → offset + 2 ≤ length bytes
    → value < 2 ^ 16
    → get_bytes (put_bytes bytes offset value 2) offset 2 ≡ value
put_read bytes offset value h small =
    let tail = append_integer 2 value ++ drop (offset + 2) bytes in
    let whole = put_bytes bytes offset value 2 in
    let past : drop (0 + offset) whole ≡ tail =
      drop_next 0 offset whole (take offset bytes) tail refl
        (put_front_size bytes offset value 2 h) in
    let start : 0 + offset ≡ offset = omega arith in
    ap (read_loop (2 ^ 32) 0) (
      take_here offset 2 whole (append_integer 2 value) (drop (offset + 2) bytes) (rw start at past)
        (length-append_integer 2 value))
    ∙ two_bytes value small
