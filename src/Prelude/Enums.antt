-- ===== src/Prelude/Enums.antt =====
-- Casting a number to an enumeration type: the enumerator with that code, or a value with no name.
use Prim.Native.Nat.{ℕ}
use mathlib.Core.Path.{◌≡◌}
use mathlib.Core.List.{List, [], ◌∷◌}
use native.Mathlib.Omega.{arith}
use lan_link.Prelude.Tests.{◌==◌, if◌then◌else◌}

module _ {A : Type 0} (code : A → ℕ) (unnamed : ℕ → A) where
  unfoldable pub cast : List A → ℕ → A
  cast [] n = unnamed n
  cast (a ∷ as') n = if code a == n then a else cast as' n

  -- Casting back gives the number.
  pub code-cast : (as' : List A) (n : ℕ) → code (unnamed n) ≡ n → code (cast as' n) ≡ n
  unfolding cast
  code-cast [] n h = h
  code-cast (a ∷ as') n h = ground (arith, code-cast as' n h)
