-- ===== src/P2P/Connectivity/Runs.antt =====
-- The calls that connectivity checks go through, at times that do not run backwards.
use lan_link.Prelude.{ℕ, ◌≤◌, ◌≡◌, Bool, Option}
use lan_link.P2P.Candidates.{Endpoint}
use lan_link.P2P.Connectivity.{
  ConnectivityChecks, IceRole, next_check, note_probe, result, nominate, resolve_role_conflict,
}

pub data Step (now : ℕ) (before after : ConnectivityChecks) : Type 0 where
  asked : after ≡ (next_check before now).0 → Step now before after
  noted : (local remote : Endpoint) → after ≡ note_probe before local remote → Step now before after
  answered :
      (local remote : Endpoint) (success : Bool) (rtt : Option ℕ)
      → after ≡ result before local remote success rtt
      → Step now before after
  decided : after ≡ (nominate before now).0 → Step now before after
  resolved :
      (peer_role : IceRole) → after ≡ resolve_role_conflict before peer_role → Step now before after

pub data Run (start : ConnectivityChecks) (from : ℕ) : ConnectivityChecks → ℕ → Type 0 where
  here : Run start from start from
  next :
      {before after : ConnectivityChecks} {earlier now : ℕ}
      → Run start from before earlier
      → earlier ≤ now
      → Step now before after
      → Run start from after now
