-- ===== src/Transport/SendBudget/Grants.antt =====
-- When a send budget gives a ticket.
use lan_link.Prelude.{
  ℕ, ◌+◌, ◌-◌, ◌%◌, ◌^◌, ◌≤◌, ◌<◌, ◌≡◌, ◌⊎◌, inl, inr, refl, Bool, ◌||◌, Option, none, some, arith,
  ltb, leb, ◌==◌, if◌then◌else◌, Bool-cases,
}
use native.Mathlib.Nat.{mod-eq_of_lt}
use lan_link.Transport.SendBudget.{SendBudget, byte_limit, frame_limit, reserve}
use lan_link.Transport.SendBudget.System.{AreLimits}

-- A ticket is given exactly where the frame fits, and is counted.
abbrev pub Fits : SendBudget → ℕ → Bool → Type 0
Fits b size control =
    (1 ≤ size)
    × (b.bytes + size ≤ byte_limit b.limits control)
    × (b.frames + 1 ≤ frame_limit b.limits control)

-- The same for given limits.
abbrev granted : SendBudget → ℕ → ℕ → ℕ → SendBudget × Option ℕ
granted b size bytes frames =
    if size == 0 || ltb bytes size || ltb (bytes - size) b.bytes || leb frames b.frames
    then (record b { rejected = (b.rejected + 1) % 2 ^ 64 }, none)
    else (
      record b { bytes = (b.bytes + size) % 2 ^ 64; frames = (b.frames + 1) % 2 ^ 64 },
      some size,
    )

granted-cases :
    (b : SendBudget) (size bytes frames : ℕ)
    → bytes < 2 ^ 64
    → frames < 2 ^ 64
    → (((1 ≤ size) × (b.bytes + size ≤ bytes) × (b.frames + 1 ≤ frames))
        × (granted b size bytes frames
            ≡ (record b { bytes = b.bytes + size; frames = b.frames + 1 }, some size)))
      ⊎ ((¬ ((1 ≤ size) × (b.bytes + size ≤ bytes) × (b.frames + 1 ≤ frames)))
          × (granted b size bytes frames
              ≡ (record b { rejected = (b.rejected + 1) % 2 ^ 64 }, none)))
granted-cases b size bytes frames small few =
    elim (Bool-cases
      (size == 0 || ltb bytes size || ltb (bytes - size) b.bytes || leb frames b.frames)) [
        | inl refused ↦
            inr (λ fits. absurd (ground (arith, refused, fits.0, fits.1, fits.2)), rw refused refl)
        | inr test ↦
            let fits : (1 ≤ size) × (b.bytes + size ≤ bytes) × (b.frames + 1 ≤ frames) =
              (ground (arith, test), ground (arith, test), ground (arith, test)) in
            let sum : (b.bytes + size) % 2 ^ 64 ≡ b.bytes + size =
              mod-eq_of_lt (omega (arith, fits.1)) in
            let count : (b.frames + 1) % 2 ^ 64 ≡ b.frames + 1 =
              mod-eq_of_lt (omega (arith, fits.2)) in
            inl (fits, rw test (rw (sum, count) refl))
      ]

pub reserve-cases :
    (b : SendBudget) (size : ℕ) (control : Bool)
    → AreLimits b.limits
    → (Fits b size control
        × (reserve b size control
            ≡ (record b { bytes = b.bytes + size; frames = b.frames + 1 }, some size)))
      ⊎ ((¬ Fits b size control)
          × (reserve b size control ≡ (record b { rejected = (b.rejected + 1) % 2 ^ 64 }, none)))
unfolding reserve
reserve-cases b size control (spare, spare_frames, small, few) =
    granted-cases b size (byte_limit b.limits control) (frame_limit b.limits control)
      (ground (arith, small)) (ground (arith, few))
