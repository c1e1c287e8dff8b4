-- ===== src/Auth/Window/Bits.antt =====
-- The bits of a number that is shifted, cut or has a bit set.
use lan_link.Prelude.{
  ℕ, zero, suc, ◌+◌, ◌-◌, ◌*◌, ◌/◌, ◌%◌, ◌^◌, ◌≤◌, ◌<◌, ◌≡◌, ◌⊎◌, inl, inr, refl, sym, ap, ◌∙◌,
  ◌&&◌, ◌||◌, arith, ltb, leb, ◌==◌, Bool-cases,
}
use lan_link.Auth.Window.{test_bit, set_bit, mark}
use native.Mathlib.Nat.{
  pow-suc, one-le-pow, div-add-mod, mod-lt, mod-eq_of_lt, add-mul-mod_self_right,
}

pub test_bit-set_bit :
    (bitmap d e : ℕ) → test_bit (set_bit bitmap d) e ≡ (d == e || test_bit bitmap e)
unfolding test_bit set_bit
test_bit-set_bit b zero zero = ground arith
test_bit-set_bit b zero (suc e) =
    let half : (b / 2 * 2 + 1) / 2 ≡ b / 2 = omega arith in rw half (ground arith)
test_bit-set_bit b (suc d) zero = ground arith
test_bit-set_bit b (suc d) (suc e) =
    let rest = set_bit (b / 2) d in
    let half : (b % 2 + 2 * rest) / 2 ≡ rest = omega arith in
    rw half (test_bit-set_bit (b / 2) d e ∙ ground arith)

-- A number, cut to one bit more than `m` has.
cut_halves : (x m : ℕ) → 1 ≤ m → (x % (m * 2) % 2 ≡ x % 2) × (x % (m * 2) / 2 ≡ x / 2 % m)
cut_halves x m h =
    let q = x / (m * 2) in
    let r = x % (m * 2) in
    let whole : x ≡ q * m * 2 + r = omega (arith, div-add-mod x (m * 2)) in
    let small : r / 2 < m = omega (arith, mod-lt x {m = m * 2} (omega arith)) in
    let half : x / 2 ≡ r / 2 + q * m = omega arith in
    (
      omega arith,
      sym (ap (λ (t : ℕ). t % m) half ∙ add-mul-mod_self_right (r / 2) q m ∙ mod-eq_of_lt small),
    )

pub test_bit-cut : (x w e : ℕ) → e < w → test_bit (x % 2 ^ w) e ≡ test_bit x e
unfolding test_bit
test_bit-cut x zero e h = absurd (omega arith)
test_bit-cut x (suc w) zero h =
    let (low, high) = cut_halves x (2 ^ w) (one-le-pow w 2 (omega arith)) in
    rw (pow-suc 2 w, low) refl
test_bit-cut x (suc w) (suc e) h =
    let (low, high) = cut_halves x (2 ^ w) (one-le-pow w 2 (omega arith)) in
    rw (pow-suc 2 w, high) (test_bit-cut (x / 2) w e (omega arith))

shift_step : (x k : ℕ) → x * 2 ^ suc k ≡ x * 2 ^ k * 2
shift_step x k = omega (arith, ap (λ (t : ℕ). x * t) (pow-suc 2 k))

pub test_bit-shift : (x k e : ℕ) → test_bit (x * 2 ^ k) e ≡ (leb k e && test_bit x (e - k))
unfolding test_bit
test_bit-shift x zero e =
    let same : x * 1 ≡ x = omega arith in
    let start : e - 0 ≡ e = omega arith in rw (same, start) (ground arith)
test_bit-shift x (suc k) zero = ground (arith, shift_step x k)
test_bit-shift x (suc k) (suc e) =
    let half : x * 2 ^ suc k / 2 ≡ x * 2 ^ k = omega (arith, shift_step x k) in
    let less : suc e - suc k ≡ e - k = omega arith in
    rw (half, less) (test_bit-shift x k e ∙ ground arith)

pub one_bit : (d : ℕ) → test_bit 1 d ≡ (0 == d)
unfolding test_bit
one_bit zero = ground arith
one_bit (suc zero) = ground arith
one_bit (suc (suc d)) = one_bit (suc d) ∙ ground arith

moved_bit :
    (bitmap k d : ℕ)
    → d < 64
    → test_bit (set_bit (bitmap * 2 ^ k % 2 ^ 64) 0) d
      ≡ (0 == d || (leb k d && test_bit bitmap (d - k)))
moved_bit b k d h =
    test_bit-set_bit (b * 2 ^ k % 2 ^ 64) 0 d
    ∙ ap (λ t. 0 == d || t) (test_bit-cut (b * 2 ^ k) 64 d h ∙ test_bit-shift b k d)

-- The window after a number above the highest, and after one that is not above it.
abbrev pub Moved : ℕ → ℕ → ℕ → ℕ × ℕ → Type 0
Moved s highest bitmap window =
    (highest < s)
    × (window.0 ≡ s)
    × ((d : ℕ)
        → d < 64
        → test_bit window.1 d
          ≡ (0 == d || (leb (s - highest) d && test_bit bitmap (d - (s - highest)))))

abbrev pub Filled : ℕ → ℕ → ℕ → ℕ × ℕ → Type 0
Filled s highest bitmap window =
    (s ≤ highest)
    × (window.0 ≡ highest)
    × ((d : ℕ) → test_bit window.1 d ≡ (highest - s == d || test_bit bitmap d))

pub mark-cases :
    (s highest bitmap : ℕ)
    → Moved s highest bitmap (mark s highest bitmap)
      ⊎ Filled s highest bitmap (mark s highest bitmap)
unfolding mark
mark-cases s h b = elim (Bool-cases (ltb h s)) [
  | inl above ↦ elim (Bool-cases (leb 64 (s - h))) [
    | inl far ↦ rw (above, far) (inl (ground arith, refl, λ d k. one_bit d ∙ ground arith))
    | inr near ↦ rw (above, near) (inl (ground arith, refl, moved_bit b (s - h)))
  ]
  | inr below ↦ rw below (inr (ground arith, refl, test_bit-set_bit b (h - s)))
]
