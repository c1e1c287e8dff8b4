-- ===== src/Transport/SendBudget.antt =====
-- src/transport/resource_limits.cpp, `SendBudget`: what a connection may have queued, in bytes and in
-- frames, of which a part is kept for control frames. Numbers are of 64 bits. A ticket is the size it
-- was given for; its destructor, like a move over it, calls `release`.
pub mod System
pub mod Grants
pub mod Invariant
use lan_link.Prelude.{
  ℕ, ◌+◌, ◌-◌, ◌*◌, ◌/◌, ◌%◌, ◌^◌, ◌≤◌, ◌<◌, ◌≡◌, ◌≢◌, ◌↔◌, ◌⊎◌, ◌∙◌, Bool, not, ◌&&◌, ◌||◌, Option,
  none, some, [], ◌∷◌, ◌++◌, ltb, leb, ◌==◌, ==_iff, if◌then◌else◌, Result, ok, ◌>>=◌, ◌>>◌,
  Exception, invalid_argument, require, >>=-inv, bytes_eq→eq,
}

pub record SendQueueLimits : Type 0 where
  pub bytes : ℕ
  pub frames : ℕ
  pub reserved_control_bytes : ℕ
  pub reserved_control_frames : ℕ

pub record SendBudget : Type 0 where
  pub limits : SendQueueLimits
  pub bytes : ℕ
  pub frames : ℕ
  pub rejected : ℕ

unfoldable pub make_send_budget : SendQueueLimits → Result Exception SendBudget
make_send_budget limits = do
  require
      (not (
        limits.bytes == 0
        || limits.frames == 0
        || leb limits.bytes limits.reserved_control_bytes
        || leb limits.frames limits.reserved_control_frames))
      invalid_argument
  ok (record { limits = limits; bytes = 0; frames = 0; rejected = 0 })

abbrev pub byte_limit : SendQueueLimits → Bool → ℕ
byte_limit limits control = limits.bytes - (if control then 0 else limits.reserved_control_bytes)

abbrev pub frame_limit : SendQueueLimits → Bool → ℕ
frame_limit limits control = limits.frames - (if control then 0 else limits.reserved_control_frames)

unfoldable pub reserve : SendBudget → ℕ → Bool → SendBudget × Option ℕ
reserve b size control =
    if size == 0
      || ltb (byte_limit b.limits control) size
      || ltb (byte_limit b.limits control - size) b.bytes
      || leb (frame_limit b.limits control) b.frames
    then (record b { rejected = (b.rejected + 1) % 2 ^ 64 }, none)
    else (
      record b { bytes = (b.bytes + size) % 2 ^ 64; frames = (b.frames + 1) % 2 ^ 64 },
      some size,
    )

unfoldable pub release : SendBudget → ℕ → SendBudget
release b size = record b {
  bytes = (b.bytes + (2 ^ 64 - size)) % 2 ^ 64;
  frames = (b.frames + (2 ^ 64 - 1)) % 2 ^ 64;
}
