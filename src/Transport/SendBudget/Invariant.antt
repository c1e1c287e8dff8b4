-- ===== src/Transport/SendBudget/Invariant.antt =====
-- The budget counts the tickets that are held, and keeps a reserve for control.
use lan_link.Prelude.{
  ℕ, ◌+◌, ◌-◌, ◌%◌, ◌^◌, ◌≤◌, ◌<◌, ◌≡◌, ◌↔◌, inl, inr, refl, sym, ap, ◌∙◌, Bool, true, false, not,
  ◌||◌, Option, some, List, [], ◌∷◌, ◌++◌, arith, leb, ◌==◌, ok, require-inv, ok_injective, length,
}
use lan_link.Transport.SendBudget.{
  SendQueueLimits, SendBudget, make_send_budget, byte_limit, frame_limit, reserve, release,
}
use lan_link.Transport.SendBudget.System.{
  System, Step, reserved, released, Reach, here, next, AreLimits, total, with_ticket, total_one,
  length_one, total_middle, length_middle,
}
use lan_link.Transport.SendBudget.Grants.{reserve-cases}

-- The counts are those of the tickets, and within given limits of bytes and of frames.
abbrev Counted : SendQueueLimits → ℕ → ℕ → System → Type 0
Counted limits bytes frames s =
    (s.budget.limits ≡ limits)
    × (s.budget.bytes ≡ total s.held)
    × (s.budget.frames ≡ length s.held)
    × (s.budget.bytes ≤ bytes)
    × (s.budget.frames ≤ frames)

sub_wrap : (rest part : ℕ) → rest + part < 2 ^ 64 → (rest + part + (2 ^ 64 - part)) % 2 ^ 64 ≡ rest
sub_wrap rest part h = omega arith

module _ (limits : SendQueueLimits) (limited : AreLimits limits) (bytes frames : ℕ)
    (small : bytes < 2 ^ 64) (few : frames < 2 ^ 64) where
  reserve-Counted :
      (before after : System) (size : ℕ) (control : Bool)
      → byte_limit limits control ≤ bytes
      → frame_limit limits control ≤ frames
      → Counted limits bytes frames before
      → after.budget ≡ (reserve before.budget size control).0
      → after.held ≡ with_ticket before.held (reserve before.budget size control).1
      → Counted limits bytes frames after
  reserve-Counted before after size control fit_bytes fit_frames (l, b, f, bs, fs) e h =
      elim (reserve-cases before.budget size control (rw l limited)) [
        | inl ((size_fits, bytes_fit, frames_fit), given) ↦
            let bytes_in : before.budget.bytes + size ≤ byte_limit limits control =
              rw l at bytes_fit in
            let frames_in : before.budget.frames + 1 ≤ frame_limit limits control =
              rw l at frames_fit in
            rw (e, h, given)
              (
                l,
                omega (arith, b, total_one before.held size),
                omega (arith, f, length_one before.held size),
                omega (arith, bytes_in, fit_bytes),
                omega (arith, frames_in, fit_frames),
              )
        | inr (no_room, kept) ↦ rw (e, h, kept) (l, b, f, bs, fs)
      ]

  release-Counted :
      (before after : System) (size : ℕ) (earlier later : List ℕ)
      → Counted limits bytes frames before
      → before.held ≡ earlier ++ size ∷ later
      → after.budget ≡ release before.budget size
      → after.held ≡ earlier ++ later
      → Counted limits bytes frames after
  unfolding release
  release-Counted before after size earlier later (l, b, f, bs, fs) was e h =
      let rest = earlier ++ later in
      let all : before.budget.bytes ≡ total rest + size =
        b ∙ ap total was ∙ total_middle earlier later size in
      let number : before.budget.frames ≡ length rest + 1 =
        f ∙ ap length was ∙ length_middle earlier later size in
      let bytes_left : (before.budget.bytes + (2 ^ 64 - size)) % 2 ^ 64 ≡ total rest =
        rw all (sub_wrap (total rest) size (omega (arith, all, bs, small))) in
      let frames_left : (before.budget.frames + (2 ^ 64 - 1)) % 2 ^ 64 ≡ length rest =
        rw number (sub_wrap (length rest) 1 (omega (arith, number, fs, few))) in
      rw (e, h)
        (
          l,
          bytes_left,
          frames_left,
          omega (arith, bytes_left, all, bs),
          omega (arith, frames_left, number, fs),
        )

  module _ (allowed : Bool → Bool)
      (bytes_bound : (control : Bool) → allowed control ≡ true → byte_limit limits control ≤ bytes)
      (frames_bound : (control : Bool)
        → allowed control ≡ true
        → frame_limit limits control ≤ frames) where
    Step-Counted :
        (before after : System)
        → Step allowed before after
        → Counted limits bytes frames before
        → Counted limits bytes frames after
    Step-Counted before after (reserved size control fits may e h) counted =
        reserve-Counted before after size control (bytes_bound control may)
          (frames_bound control may) counted e h
    Step-Counted before after (released size earlier later was e h) counted =
        release-Counted before after size earlier later counted was e h

    Reach-Counted :
        (start s : System)
        → Reach allowed start s
        → Counted limits bytes frames start
        → Counted limits bytes frames s
    Reach-Counted start s here counted = counted
    Reach-Counted start s (next {before} reach step) counted =
        Step-Counted before s step (Reach-Counted start before reach counted)

-- What the constructor has checked, and the budget at the start.
make_send_budget-inv :
    (limits : SendQueueLimits) (budget : SendBudget)
    → make_send_budget limits ≡ ok budget
    → limits.bytes < 2 ^ 64
    → limits.frames < 2 ^ 64
    → AreLimits limits × (budget ≡ record { limits = limits; bytes = 0; frames = 0; rejected = 0 })
unfolding make_send_budget
make_send_budget-inv limits budget h small few =
    let (tests, made) =
      require-inv
        (not (
          limits.bytes == 0
          || limits.frames == 0
          || leb limits.bytes limits.reserved_control_bytes
          || leb limits.frames limits.reserved_control_frames))
        _ _ budget h in
    ((ground (arith, tests), ground (arith, tests), small, few), ok_injective _ _ budget refl made)

abbrev pub anything : Bool → Bool
anything control = true

-- However tickets are taken and given back: the budget has the bytes and the frames of the tickets that
-- are held, no more than its limits, and it gives a ticket for a frame exactly if the frame has bytes
-- and it fits the limits for its kind, in bytes and in frames, together with those that are held. The
-- limits are 64-bit numbers, and the constructor accepts them.
pub reserve_iff :
    (limits : SendQueueLimits) (start : SendBudget) (s : System) (size : ℕ) (control : Bool)
    → make_send_budget limits ≡ ok start
    → limits.bytes < 2 ^ 64
    → limits.frames < 2 ^ 64
    → Reach anything (record { budget = start; held = [] }) s
    → (s.budget.bytes ≡ total s.held)
      × (s.budget.frames ≡ length s.held)
      × (s.budget.bytes ≤ limits.bytes)
      × (s.budget.frames ≤ limits.frames)
      × (((reserve s.budget size control).1 ≡ some size) ↔ (
          (1 ≤ size)
          × (total s.held + size ≤ byte_limit limits control)
          × (length s.held + 1 ≤ frame_limit limits control)))
unfolding total
reserve_iff limits start s size control made small few reach =
    let (limited, begins) = make_send_budget-inv limits start made small few in
    let (l, b, f, bs, fs) =
      Reach-Counted limits limited limits.bytes limits.frames small few anything
        (λ control may. ground arith) (λ control may. ground arith)
        (record { budget = start; held = [] }) s reach
        (rw begins (refl, refl, refl, omega arith, omega arith)) in
    (
      b,
      f,
      bs,
      fs,
      elim (reserve-cases s.budget size control (rw l limited)) [
        | inl (fits, given) ↦ (λ e. rw (l, b, f) at fits, λ fits. rw given refl)
        | inr (no_room, kept) ↦ (
          λ e. absurd (cc (sym (ap (λ (t : SendBudget × Option ℕ). t.1) kept) ∙ e)),
          λ fits. absurd (no_room (rw (l, b, f) fits)),
        )
      ],
    )

-- Frames of data alone leave the reserve: however their tickets are taken and given back, a frame of
-- control with no more bytes than are kept for control gets a ticket. The limits are 64-bit numbers,
-- the constructor accepts them, and they keep at least one frame.
pub reserve_control :
    (limits : SendQueueLimits) (start : SendBudget) (s : System) (size : ℕ)
    → make_send_budget limits ≡ ok start
    → limits.bytes < 2 ^ 64
    → limits.frames < 2 ^ 64
    → Reach not (record { budget = start; held = [] }) s
    → 1 ≤ size
    → size ≤ limits.reserved_control_bytes
    → 1 ≤ limits.reserved_control_frames
    → (reserve s.budget size true).1 ≡ some size
unfolding total
reserve_control limits start s size made small few reach some_bytes in_bytes in_frames =
    let (limited, begins) = make_send_budget-inv limits start made small few in
    let (l, b, f, bs, fs) =
      Reach-Counted limits limited (byte_limit limits false) (frame_limit limits false)
        (ground arith) (ground arith) not (λ control may. ground (arith, may))
        (λ control may. ground (arith, may)) (record { budget = start; held = [] }) s reach
        (rw begins (refl, refl, refl, omega arith, omega arith)) in
    elim (reserve-cases s.budget size true (rw l limited)) [
      | inl (fits, given) ↦ rw given refl
      | inr (no_room, kept) ↦
          absurd
            (no_room (rw l (some_bytes, omega (arith, limited, bs), omega (arith, limited, fs))))
    ]
