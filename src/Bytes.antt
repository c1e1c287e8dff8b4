-- ===== src/Bytes.antt =====
-- Big-endian integers in byte sequences. A byte is a number below 256, `value >> (8 * i)` is a
-- division by `256 ^ i`, and `result << 8 | byte` is `result * 256 + byte`, cut to the width: the low
-- byte of the shifted value is zero.
use lan_link.Prelude.{
  ℕ, zero, suc, ◌+◌, ◌*◌, ◌/◌, ◌%◌, ◌^◌, ◌≤◌, ◌<◌, ◌≡◌, refl, sym, ap, ◌∙◌, subst, List, [], ◌∷◌,
  ◌++◌, arith, length, take, drop, All, take-append-drop, length-take, length-drop,
  take-append_left, drop-append_left, drop-drop, All-take, All-drop,
}
use native.Mathlib.Nat.{
  pow-suc, one-le-pow, div-add-mod, mod-lt, mod-eq_of_lt, add-mul-mod_self_right, mul-add-div_right,
  div-eq_of_lt,
}

abbrev pub IsByte : ℕ → Type 0
IsByte b = b < 256

abbrev pub IsBytes : List ℕ → Type 0
IsBytes = All IsByte

-- The bytes of an integer of `width` bytes, the highest first.
unfoldable pub append_integer : ℕ → ℕ → List ℕ
append_integer zero value = []
append_integer (suc index) value = (value / 256 ^ index % 256) ∷ append_integer index value

-- `result = static_cast<Integer>((result << 8) | byte)`, with `modulus` 2 to the width of `Integer`.
unfoldable pub read_loop : ℕ → ℕ → List ℕ → ℕ
read_loop modulus result [] = result
read_loop modulus result (byte ∷ bytes) = read_loop modulus ((result * 256 + byte) % modulus) bytes

-- The callers have checked that the bytes are there.
unfoldable pub read_integer : ℕ → List ℕ → ℕ → ℕ
read_integer width bytes offset = read_loop (256 ^ width) 0 (take width (drop offset bytes))

-- The number that a byte sequence stands for.
pub be_value : List ℕ → ℕ
be_value [] = 0
be_value (b ∷ bs) = b * 256 ^ length bs + be_value bs

pow_step : (n : ℕ) → 256 ^ suc n ≡ 256 * 256 ^ n
pow_step n = omega (arith, pow-suc 256 n)

pow_pos : (n : ℕ) → 1 ≤ 256 ^ n
pow_pos n = one-le-pow n 256 (omega arith)

pub length-append_integer : (width v : ℕ) → length (append_integer width v) ≡ width
unfolding append_integer
length-append_integer zero v = refl
length-append_integer (suc i) v = ap suc (length-append_integer i v)

pub append_integer-IsBytes : (width v : ℕ) → IsBytes (append_integer width v)
unfolding append_integer
append_integer-IsBytes zero v = tt
append_integer-IsBytes (suc i) v = (mod-lt _ (omega arith), append_integer-IsBytes i v)

pub be_value-lt : (bs : List ℕ) → IsBytes bs → be_value bs < 256 ^ length bs
unfolding be_value
be_value-lt [] h = omega arith
be_value-lt (b ∷ bs) h = grind (arith, be_value-lt bs h.1, pow_step (length bs), h.0)

le_mul_pow : (x n : ℕ) → x ≤ x * 256 ^ n
le_mul_pow x n = grind (arith, pow_pos n)

read_loop_lem :
    (m acc : ℕ) (bs : List ℕ)
    → acc * 256 ^ length bs + be_value bs < m
    → read_loop m acc bs ≡ acc * 256 ^ length bs + be_value bs
unfolding read_loop be_value
read_loop_lem m acc [] h = omega arith
read_loop_lem m acc (b ∷ bs) h =
    let p : 256 ^ length (b ∷ bs) ≡ 256 * 256 ^ length bs = pow_step (length bs) in
    let e : acc * 256 ^ length (b ∷ bs) ≡ acc * 256 * 256 ^ length bs =
      omega (arith, ap (λ (t : ℕ). acc * t) p) in
    let small : acc * 256 + b < m = omega (arith, le_mul_pow (acc * 256 + b) (length bs), e) in
    rw (mod-eq_of_lt small)
      (omega (arith, e, read_loop_lem m (acc * 256 + b) bs (omega (arith, e))))

-- Cutting `v` at its lowest `suc n` bytes takes one more byte than cutting it at `n`.
mod_step : (v n : ℕ) → v / 256 ^ n % 256 * 256 ^ n + v % 256 ^ n ≡ v % 256 ^ suc n
mod_step v n =
    let p = 256 ^ n in
    let q = v / p in
    let low : q % 256 * p + v % p < 256 * p =
      grind (arith, mod-lt v (pow_pos n), mod-lt q {m = 256} (omega arith)) in
    let whole : v ≡ q % 256 * p + v % p + q / 256 * (256 * p) =
      omega (arith, div-add-mod v p, ap (λ (t : ℕ). t * p) (div-add-mod q 256)) in
    rw (pow_step n) (
      sym (
        ap (λ (t : ℕ). t % (256 * p)) whole
        ∙ add-mul-mod_self_right (q % 256 * p + v % p) (q / 256) (256 * p)
        ∙ mod-eq_of_lt low))

pub be_value-append_integer : (n v : ℕ) → be_value (append_integer n v) ≡ v % 256 ^ n
unfolding append_integer be_value
be_value-append_integer zero v = omega arith
be_value-append_integer (suc n) v =
    rw (length-append_integer n v) (omega (arith, mod_step v n, be_value-append_integer n v))

-- Reading takes exactly `width` bytes.
pub read_loop-be_value :
    (width : ℕ) (bs : List ℕ)
    → IsBytes bs
    → length bs ≡ width
    → read_loop (256 ^ width) 0 bs ≡ be_value bs
read_loop-be_value width bs h e =
    rw (← e) (omega (arith, read_loop_lem (256 ^ length bs) 0 bs (omega (arith, be_value-lt bs h))))

top_part :
    (n k b : ℕ) (bs : List ℕ)
    → suc (length bs) ≡ suc n
    → k * 256 ^ suc n + (b * 256 ^ length bs + be_value bs) ≡ (k * 256 + b) * 256 ^ n + be_value bs
top_part n k b bs e = let same : length bs ≡ n = omega arith in rw (same, pow_step n) (omega arith)

top_byte :
    (n k b : ℕ) (bs : List ℕ)
    → IsBytes (b ∷ bs)
    → suc (length bs) ≡ suc n
    → ((k * 256 + b) * 256 ^ n + be_value bs) / 256 ^ n % 256 ≡ b
top_byte n k b bs h e =
    let same : length bs ≡ n = omega arith in
    let small : be_value bs < 256 ^ n =
      subst (λ m. be_value bs < 256 ^ m) same (be_value-lt bs h.1) in
    omega
      (arith, mul-add-div_right (pow_pos n) (k * 256 + b) (be_value bs), div-eq_of_lt small, h.0)

append_integer_high :
    (n k : ℕ) (bs : List ℕ)
    → IsBytes bs
    → length bs ≡ n
    → append_integer n (k * 256 ^ n + be_value bs) ≡ bs
unfolding append_integer be_value
append_integer_high zero k [] h e = refl
append_integer_high zero k (b ∷ bs) h e = absurd (omega arith)
append_integer_high (suc n) k [] h e = absurd (omega arith)
append_integer_high (suc n) k (b ∷ bs) h e =
    rw (top_part n k b bs e)
      (ground (arith, top_byte n k b bs h e, append_integer_high n (k * 256 + b) bs h.1))

-- Reading what was written, wherever it stands.
pub read_integer-append_integer :
    (width offset value : ℕ) (bytes rest : List ℕ)
    → value < 256 ^ width
    → drop offset bytes ≡ append_integer width value ++ rest
    → read_integer width bytes offset ≡ value
unfolding read_integer
read_integer-append_integer width offset value bytes rest h e =
    let written = append_integer width value in
    let window : take width (drop offset bytes) ≡ written = rw e (
      subst (λ n. take n (written ++ rest) ≡ written) (length-append_integer width value)
        (take-append_left written rest)) in
    rw window (
      read_loop-be_value width written (append_integer-IsBytes width value)
        (length-append_integer width value)
      ∙ be_value-append_integer width value
      ∙ mod-eq_of_lt h)

window_length :
    (width offset : ℕ) (bytes : List ℕ)
    → offset + width ≤ length bytes
    → length (take width (drop offset bytes)) ≡ width
window_length width offset bytes fits =
    omega (arith, length-take width (drop offset bytes), length-drop offset bytes)

module _ (width offset : ℕ) (bytes : List ℕ) (h : IsBytes bytes)
    (fits : offset + width ≤ length bytes) where
  window_IsBytes : IsBytes (take width (drop offset bytes))
  window_IsBytes = All-take IsByte width _ (All-drop IsByte offset bytes h)

  read_integer-be_value :
      read_integer width bytes offset ≡ be_value (take width (drop offset bytes))
  unfolding read_integer
  read_integer-be_value =
      read_loop-be_value width _ window_IsBytes (window_length width offset bytes fits)

  -- Writing what was read.
  pub append_integer-read_integer :
      append_integer width (read_integer width bytes offset) ≡ take width (drop offset bytes)
  append_integer-read_integer =
      let window = take width (drop offset bytes) in
      let bare : 0 * 256 ^ width + be_value window ≡ be_value window = omega arith in
      rw read_integer-be_value (
        rw bare at (
          append_integer_high width 0 window window_IsBytes
            (window_length width offset bytes fits)))

  pub read_integer-lt : read_integer width bytes offset < 256 ^ width
  read_integer-lt = omega (
    arith,
    read_integer-be_value,
    be_value-lt _ window_IsBytes,
    ap (λ (n : ℕ). 256 ^ n) (window_length width offset bytes fits),
  )

-- The next `width` elements, and those after them.
pub split_at :
    (width n : ℕ) (bytes : List ℕ)
    → drop n bytes ≡ take width (drop n bytes) ++ drop (n + width) bytes
split_at width n bytes =
    sym (take-append-drop width (drop n bytes))
    ∙ ap (λ t. take width (drop n bytes) ++ t) (drop-drop width n bytes)

-- A field that was read is spelled by the bytes that stand there.
pub field_at :
    (width n value : ℕ) (bytes : List ℕ)
    → IsBytes bytes
    → n + width ≤ length bytes
    → read_integer width bytes n ≡ value
    → drop n bytes ≡ append_integer width value ++ drop (n + width) bytes
field_at width n value bytes h fits e =
    split_at width n bytes
    ∙ ap (λ t. t ++ drop (n + width) bytes)
        (sym (append_integer-read_integer width n bytes h fits) ∙ ap (append_integer width) e)

-- A part that stands at `n`, and where the next one stands.
pub take_here :
    (n m : ℕ) (bytes xs ys : List ℕ)
    → drop n bytes ≡ xs ++ ys
    → length xs ≡ m
    → take m (drop n bytes) ≡ xs
take_here n m bytes xs ys e k = rw (e, ← k) (take-append_left xs ys)

pub drop_next :
    (n m : ℕ) (bytes xs ys : List ℕ)
    → drop n bytes ≡ xs ++ ys
    → length xs ≡ m
    → drop (n + m) bytes ≡ ys
drop_next n m bytes xs ys e k = rw (← drop-drop m n bytes, e, ← k) (drop-append_left xs ys)
