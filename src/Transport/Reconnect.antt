-- ===== src/Transport/Reconnect.antt =====
-- src/transport/reconnect.cpp, `ReconnectBackoff`: the delay doubles from one attempt to the next, up
-- to a maximum. Delays are in milliseconds.
use lan_link.Prelude.{
  ℕ, zero, suc, ◌+◌, ◌-◌, ◌*◌, ◌^◌, ◌≤◌, min, ◌≡◌, refl, ap, ◌∙◌, arith, ltb, leb, Result, ok,
  throw, ◌>>◌, Exception, invalid_argument, require, require-inv, ok_injective,
}
use native.Mathlib.Nat.{pow-suc}
use lan_link.NetworkMessages.{ℤ, pos, negsuc}

pub record ReconnectBackoff : Type 0 where
  pub initial_delay : ℕ
  pub maximum_delay : ℕ
  pub current_delay : ℕ

unfoldable pub make_backoff : ℤ → ℤ → Result Exception ReconnectBackoff
make_backoff (negsuc n) maximum_delay = throw invalid_argument
make_backoff (pos initial_delay) (negsuc n) = throw invalid_argument
make_backoff (pos initial_delay) (pos maximum_delay) = do
  require (ltb 0 initial_delay) invalid_argument
  require (leb initial_delay maximum_delay) invalid_argument
  ok (record {
    initial_delay = initial_delay;
    maximum_delay = maximum_delay;
    current_delay = initial_delay;
  })

-- The delay that is returned, with the backoff after it.
unfoldable pub next_delay : ReconnectBackoff → ReconnectBackoff × ℕ
next_delay b = (
  record b {
    current_delay = b.current_delay + min b.current_delay (b.maximum_delay - b.current_delay);
  },
  b.current_delay,
)

unfoldable pub reset_backoff : ReconnectBackoff → ReconnectBackoff
reset_backoff b = record b { current_delay = b.initial_delay }

-- The backoff after a number of attempts.
unfoldable pub after_attempts : ℕ → ReconnectBackoff → ReconnectBackoff
after_attempts zero b = b
after_attempts (suc count) b = after_attempts count (next_delay b).0

after_attempts_delay :
    (count : ℕ) (b : ReconnectBackoff) (delay : ℕ)
    → b.current_delay ≡ min b.maximum_delay delay
    → (after_attempts count b).current_delay ≡ min b.maximum_delay (delay * 2 ^ count)
unfolding after_attempts next_delay
after_attempts_delay zero b delay h = let same : delay * 1 ≡ delay = omega arith in rw same h
after_attempts_delay (suc count) b delay h =
    let twice : delay * 2 ^ suc count ≡ 2 * delay * 2 ^ count =
      omega (arith, ap (λ (t : ℕ). delay * t) (pow-suc 2 count)) in
    rw twice (after_attempts_delay count (next_delay b).0 (2 * delay) (omega (arith, h)))

after_attempts_bounds :
    (count : ℕ) (b : ReconnectBackoff)
    → ((after_attempts count b).initial_delay ≡ b.initial_delay)
      × ((after_attempts count b).maximum_delay ≡ b.maximum_delay)
unfolding after_attempts next_delay
after_attempts_bounds zero b = (refl, refl)
after_attempts_bounds (suc count) b = after_attempts_bounds count (next_delay b).0

make_backoff-inv :
    (i m : ℕ) (b : ReconnectBackoff)
    → make_backoff (pos i) (pos m) ≡ ok b
    → (1 ≤ i) × (i ≤ m) × (b ≡ record { initial_delay = i; maximum_delay = m; current_delay = i })
unfolding make_backoff
make_backoff-inv i m b h =
    let (positive, e1) = require-inv (ltb 0 i) _ _ b h in
    let (below, e2) = require-inv (leb i m) _ _ b e1 in
    (ground (arith, positive), ground (arith, below), ok_injective _ _ b refl e2)

-- The constructor accepts an initial delay only if it is positive and not above the maximum. Then
-- attempt `count`, from 0, waits for the initial delay times 2 ^ count, or for the maximum if that is
-- less, and so it does counted from any reset.
pub next_delay_doubles :
    (initial_delay maximum_delay : ℤ) (b : ReconnectBackoff) (earlier count : ℕ)
    → make_backoff initial_delay maximum_delay ≡ ok b
    → (initial_delay ≡ pos b.initial_delay)
      × (maximum_delay ≡ pos b.maximum_delay)
      × (1 ≤ b.initial_delay)
      × (b.initial_delay ≤ b.maximum_delay)
      × ((next_delay (after_attempts count b)).1
          ≡ min b.maximum_delay (b.initial_delay * 2 ^ count))
      × ((next_delay (after_attempts count (reset_backoff (after_attempts earlier b)))).1
          ≡ min b.maximum_delay (b.initial_delay * 2 ^ count))
unfolding next_delay reset_backoff make_backoff
next_delay_doubles (negsuc n) maximum_delay b earlier count h = cc
next_delay_doubles (pos i) (negsuc n) b earlier count h = cc
next_delay_doubles (pos i) (pos m) b earlier count h =
    let (positive, below, made) = make_backoff-inv i m b h in
    let whole : i ≡ min m i = omega (arith, below) in
    let start : ReconnectBackoff = record {
      initial_delay = i;
      maximum_delay = m;
      current_delay = i;
    } in
    let (first, top) = after_attempts_bounds earlier start in
    let again : ReconnectBackoff = reset_backoff (after_attempts earlier start) in
    let later : (after_attempts count again).current_delay ≡ min m (i * 2 ^ count) =
      (after_attempts_delay count again i (rw (first, top) whole)
        ∙ ap (λ (t : ℕ). min t (i * 2 ^ count)) top) in
    rw made (refl, refl, positive, below, after_attempts_delay count start i whole, later)
