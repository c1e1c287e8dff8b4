-- ===== src/Transport/SendBudget/System.antt =====
-- A send budget and the tickets that are held, under any order of calls.
use lan_link.Prelude.{
  ℕ, ◌+◌, ◌^◌, ◌<◌, ◌≡◌, Bool, true, Option, none, some, List, [], ◌∷◌, ◌++◌, arith, length,
  length-append,
}
use lan_link.Transport.SendBudget.{SendQueueLimits, SendBudget, reserve, release}

-- The budget and the tickets that are held, in the order they were given.
pub record System : Type 0 where
  pub budget : SendBudget
  pub held : List ℕ

abbrev pub with_ticket : List ℕ → Option ℕ → List ℕ
with_ticket held none = held
with_ticket held (some size) = held ++ size ∷ []

-- Any thread may ask for a ticket, for a frame of control or not, and any ticket may be given back.
pub data Step (allowed : Bool → Bool) (before after : System) : Type 0 where
  reserved :
      (size : ℕ) (control : Bool)
      → size < 2 ^ 64
      → allowed control ≡ true
      → after.budget ≡ (reserve before.budget size control).0
      → after.held ≡ with_ticket before.held (reserve before.budget size control).1
      → Step allowed before after
  released :
      (size : ℕ) (earlier later : List ℕ)
      → before.held ≡ earlier ++ size ∷ later
      → after.budget ≡ release before.budget size
      → after.held ≡ earlier ++ later
      → Step allowed before after

pub data Reach (allowed : Bool → Bool) (start : System) : System → Type 0 where
  here : Reach allowed start start
  next :
      {before after : System}
      → Reach allowed start before
      → Step allowed before after
      → Reach allowed start after

unfoldable pub total : List ℕ → ℕ
total [] = 0
total (size ∷ held) = size + total held

pub total-append : (xs ys : List ℕ) → total (xs ++ ys) ≡ total xs + total ys
unfolding total
total-append [] ys = omega arith
total-append (x ∷ xs) ys = omega (arith, total-append xs ys)

-- The limits of the constructor, in 64 bits.
abbrev pub AreLimits : SendQueueLimits → Type 0
AreLimits limits =
    (limits.reserved_control_bytes < limits.bytes)
    × (limits.reserved_control_frames < limits.frames)
    × (limits.bytes < 2 ^ 64)
    × (limits.frames < 2 ^ 64)

pub total_one : (held : List ℕ) (size : ℕ) → total (held ++ size ∷ []) ≡ total held + size
unfolding total
total_one held size = omega (arith, total-append held (size ∷ []))

pub length_one : (held : List ℕ) (size : ℕ) → length (held ++ size ∷ []) ≡ length held + 1
length_one held size = length-append held (size ∷ [])

pub total_middle :
    (earlier later : List ℕ) (size : ℕ)
    → total (earlier ++ size ∷ later) ≡ total (earlier ++ later) + size
unfolding total
total_middle earlier later size =
    omega (arith, total-append earlier (size ∷ later), total-append earlier later)

pub length_middle :
    (earlier later : List ℕ) (size : ℕ)
    → length (earlier ++ size ∷ later) ≡ length (earlier ++ later) + 1
length_middle earlier later size =
    omega (arith, length-append earlier (size ∷ later), length-append earlier later)
