-- ===== src/Transport/Tests.antt =====
-- Runs of the send budget and of the backoff.
use lan_link.Prelude.{
  ℕ, ◌+◌, ◌*◌, ◌^◌, ◌≤◌, min, ◌≡◌, ◌↔◌, refl, true, false, not, some, List, [], ◌∷◌, arith, ok,
  length,
}
use lan_link.NetworkMessages.{pos}
use lan_link.Transport.Reconnect.{
  ReconnectBackoff, make_backoff, next_delay, after_attempts, reset_backoff, next_delay_doubles,
}
use lan_link.Transport.SendBudget.{
  SendQueueLimits, SendBudget, make_send_budget, byte_limit, frame_limit, reserve, release,
}
use lan_link.Transport.SendBudget.System.{
  Step, System, Reach, here, next, reserved, released, total,
}
use lan_link.Transport.SendBudget.Invariant.{reserve_iff, reserve_control, anything}

abbrev small_limits : SendQueueLimits
small_limits = record {
  bytes = 100;
  frames = 3;
  reserved_control_bytes = 40;
  reserved_control_frames = 1;
}

abbrev budget_with : ℕ → ℕ → ℕ → SendBudget
budget_with bytes frames rejected = record {
  limits = small_limits;
  bytes = bytes;
  frames = frames;
  rejected = rejected;
}

accepted : make_send_budget small_limits ≡ ok (budget_with 0 0 0)
unfolding make_send_budget
accepted = refl

abbrev at : SendBudget → List ℕ → System
at budget held = record { budget = budget; held = held }

-- Two frames of data fit, the first ticket is given back.
after_three : Reach not (at (budget_with 0 0 0) []) (at (budget_with 20 1 1) (20 ∷ []))
unfolding reserve release
after_three =
    let first : Step not (at (budget_with 0 0 0) []) (at (budget_with 40 1 0) (40 ∷ [])) =
      reserved 40 false (omega arith) refl refl refl in
    let second : Step not (at (budget_with 40 1 0) (40 ∷ []))
        (at (budget_with 60 2 0) (40 ∷ 20 ∷ [])) =
      reserved 20 false (omega arith) refl refl refl in
    let third : Step not (at (budget_with 60 2 0) (40 ∷ 20 ∷ []))
        (at (budget_with 60 2 1) (40 ∷ 20 ∷ [])) =
      reserved 1 false (omega arith) refl refl refl in
    let fourth : Step not (at (budget_with 60 2 1) (40 ∷ 20 ∷ []))
        (at (budget_with 20 1 1) (20 ∷ [])) =
      released 40 [] (20 ∷ []) refl refl refl in
    next (next (next (next here first) second) third) fourth

reserve_control_example : (reserve (budget_with 20 1 1) 40 true).1 ≡ some 40
reserve_control_example =
    reserve_control small_limits (budget_with 0 0 0) (at (budget_with 20 1 1) (20 ∷ [])) 40 accepted
      (omega arith) (omega arith) after_three (omega arith) (omega arith) (omega arith)

abbrev two_held : List ℕ
two_held = 30 ∷ 60 ∷ []

after_two : Reach anything (at (budget_with 0 0 0) []) (at (budget_with 90 2 0) two_held)
unfolding reserve
after_two =
    let first : Step anything (at (budget_with 0 0 0) []) (at (budget_with 30 1 0) (30 ∷ [])) =
      reserved 30 false (omega arith) refl refl refl in
    let second : Step anything (at (budget_with 30 1 0) (30 ∷ []))
        (at (budget_with 90 2 0) two_held) =
      reserved 60 true (omega arith) refl refl refl in
    next (next here first) second

reserve_iff_example :
    (90 ≡ total two_held)
    × (2 ≡ length two_held)
    × (90 ≤ 100)
    × (2 ≤ 3)
    × (((reserve (budget_with 90 2 0) 10 true).1 ≡ some 10) ↔ (
        (1 ≤ 10)
        × (total two_held + 10 ≤ byte_limit small_limits true)
        × (length two_held + 1 ≤ frame_limit small_limits true)))
reserve_iff_example =
    reserve_iff small_limits (budget_with 0 0 0) (at (budget_with 90 2 0) two_held) 10 true accepted
      (omega arith) (omega arith) after_two

abbrev backoff : ReconnectBackoff
backoff = record { initial_delay = 100; maximum_delay = 500; current_delay = 100 }

backoff_made : make_backoff (pos 100) (pos 500) ≡ ok backoff
unfolding make_backoff
backoff_made = refl

next_delay_doubles_example :
    (pos 100 ≡ pos 100)
    × (pos 500 ≡ pos 500)
    × (1 ≤ 100)
    × (100 ≤ 500)
    × ((next_delay (after_attempts 3 backoff)).1 ≡ min 500 (100 * 2 ^ 3))
    × ((next_delay (after_attempts 3 (reset_backoff (after_attempts 2 backoff)))).1
        ≡ min 500 (100 * 2 ^ 3))
next_delay_doubles_example = next_delay_doubles (pos 100) (pos 500) backoff 2 3 backoff_made
