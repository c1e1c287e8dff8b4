-- ===== src/P2P/Tests.antt =====
-- Runs of the connectivity checks.
use mathlib.Core.List.{Memᴰ}
use lan_link.Prelude.{
  ℕ, ◌+◌, ◌*◌, ◌^◌, ◌≡◌, ◌↔◌, refl, sym, true, false, none, some, [], ◌∷◌, arith, ltb,
  if◌then◌else◌, ok, All,
}
use lan_link.P2P.Candidates.{host, Candidate, usable_endpoint}
use lan_link.P2P.Connectivity.{
  controlling, controlled, CheckState, waiting, in_progress, succeeded, failed, ConnectivityState,
  checking, connected, gave_up, CandidatePair, ConnectivityChecks, bytes_lt, role_of, probe_first,
  priority_of, pair_priority, pairs_with, all_pairs, insert_pair, sort_pairs, make_checks,
  nominate_loop, nominate, next_check, note_probe, result, resolve_role_conflict, has_succeeded,
}
use lan_link.P2P.Connectivity.Mirror.{HasPair, make_checks_agree}
use lan_link.P2P.Connectivity.Runs.{Step, asked, noted, answered, resolved, Run, here, next}
use lan_link.P2P.Connectivity.Ranking.{nominate_best, IsRanked}
use lan_link.P2P.Connectivity.Settled.{nominate_stays, next_check_deadline, some_succeeded}

abbrev candidate : ℕ → ℕ → Candidate
candidate address priority = record {
  endpoint = record { ipv4 = address; port = 4000 };
  kind = host;
  priority = priority;
}

abbrev near : Candidate
near = candidate 0x0a40_0002 200

abbrev far : Candidate
far = candidate 0x5000_0002 100

abbrev other_side : Candidate
other_side = candidate 0x0a40_0003 150

abbrev pair_of : Candidate → ℕ → CheckState → ℕ → CandidatePair
pair_of a priority state attempts = record {
  local = a;
  remote = other_side;
  priority = priority;
  state = state;
  attempts = attempts;
  rtt_us = none;
}

abbrev near_pair : CheckState → ℕ → CandidatePair
near_pair = pair_of near (150 * 2 ^ 32 + 401)

abbrev far_pair : CheckState → ℕ → CandidatePair
far_pair = pair_of far (100 * 2 ^ 32 + 300)

abbrev checks_with : ℕ → CandidatePair → CandidatePair → ConnectivityState → ConnectivityChecks
checks_with next_at a b state = record {
  local = 1 ∷ [];
  peer = 2 ∷ [];
  role = controlling;
  pairs = a ∷ b ∷ [];
  deadline = 5_000_000;
  next_at = next_at;
  state = state;
}

abbrev begun : ConnectivityChecks
begun = checks_with 0 (near_pair waiting 0) (far_pair waiting 0) checking

made_here : make_checks (1 ∷ []) (2 ∷ []) (far ∷ near ∷ []) (other_side ∷ []) 0 ≡ ok begun
unfolding make_checks all_pairs pairs_with usable_endpoint pair_priority priority_of role_of
    bytes_lt sort_pairs insert_pair
made_here = refl

abbrev their_pair : Candidate → ℕ → CandidatePair
their_pair a priority = record {
  local = other_side;
  remote = a;
  priority = priority;
  state = waiting;
  attempts = 0;
  rtt_us = none;
}

abbrev their_checks : ConnectivityChecks
their_checks = record {
  local = 2 ∷ [];
  peer = 1 ∷ [];
  role = controlled;
  pairs = their_pair near (150 * 2 ^ 32 + 401) ∷ their_pair far (100 * 2 ^ 32 + 300) ∷ [];
  deadline = 5_000_009;
  next_at = 9;
  state = checking;
}

made_there : make_checks (2 ∷ []) (1 ∷ []) (other_side ∷ []) (far ∷ near ∷ []) 9 ≡ ok their_checks
unfolding make_checks all_pairs pairs_with usable_endpoint pair_priority priority_of role_of
    bytes_lt sort_pairs insert_pair
made_there = refl

make_checks_agree_example :
    (controlling ≡ (if bytes_lt (1 ∷ []) (2 ∷ []) then controlling else controlled))
    × (controlled ≡ (if bytes_lt (1 ∷ []) (2 ∷ []) then controlled else controlling))
    × ((a b : Candidate) (n : ℕ)
        → (HasPair begun.pairs a b n ↔ HasPair their_checks.pairs b a n)
          × (HasPair begun.pairs a b n ↔ (
              Memᴰ a (far ∷ near ∷ [])
              × Memᴰ b (other_side ∷ [])
              × (pair_priority controlling a b ≡ n))))
make_checks_agree_example =
    make_checks_agree (1 ∷ []) (2 ∷ []) (far ∷ near ∷ []) (other_side ∷ []) 0 9 begun their_checks
      made_here made_there

-- Both pairs are probed; the far one answers, and then the near one fails three times.
abbrev probed_once : ConnectivityChecks
probed_once = checks_with 100_000 (near_pair in_progress 1) (far_pair waiting 0) checking

abbrev answered_once : ConnectivityChecks
answered_once = checks_with 100_000 (near_pair in_progress 1) (far_pair succeeded 1) checking

first_probe : (next_check begun 0).0 ≡ probed_once
unfolding next_check probe_first
first_probe = refl

abbrev noted_once : ConnectivityChecks
noted_once = checks_with 100_000 (near_pair in_progress 1) (far_pair in_progress 1) checking

second_probe : note_probe probed_once far.endpoint other_side.endpoint ≡ noted_once
unfolding note_probe
second_probe = refl

answer : result noted_once far.endpoint other_side.endpoint true none ≡ answered_once
unfolding result
answer = refl

abbrev given_up_near : ConnectivityChecks
given_up_near = checks_with 100_000 (near_pair failed 3) (far_pair succeeded 1) checking

abbrev probes_missed : ConnectivityChecks
probes_missed = checks_with 100_000 (near_pair in_progress 3) (far_pair succeeded 1) checking

more_probes :
    note_probe
      (note_probe answered_once near.endpoint other_side.endpoint)
      near.endpoint
      other_side.endpoint
    ≡ probes_missed
unfolding note_probe
more_probes = refl

no_answer : result probes_missed near.endpoint other_side.endpoint false none ≡ given_up_near
unfolding result
no_answer = refl

abbrev connected_far : ConnectivityChecks
connected_far = checks_with 100_000 (near_pair failed 3) (far_pair succeeded 1) connected

nominated_far : nominate given_up_near 400_000 ≡ (connected_far, some (far_pair succeeded 1))
unfolding nominate nominate_loop
nominated_far = refl

all_calls : Run begun 0 given_up_near 400_000
all_calls =
    let s1 : Step 0 begun probed_once = asked (sym first_probe) in
    let s2 : Step 100_000 probed_once noted_once =
      noted far.endpoint other_side.endpoint (sym second_probe) in
    let s3 : Step 150_000 noted_once answered_once =
      answered far.endpoint other_side.endpoint true none (sym answer) in
    let between = note_probe answered_once near.endpoint other_side.endpoint in
    let s4 : Step 200_000 answered_once between = noted near.endpoint other_side.endpoint refl in
    let s5 : Step 300_000 between probes_missed =
      noted near.endpoint other_side.endpoint (sym more_probes) in
    let s6 : Step 400_000 probes_missed given_up_near =
      answered near.endpoint other_side.endpoint false none (sym no_answer) in
    next
      (next
        (next (next (next (next here (omega arith) s1) (omega arith) s2) (omega arith) s3)
          (omega arith) s4)
        (omega arith) s5)
      (omega arith) s6

nominate_best_example :
    (has_succeeded succeeded ≡ true)
    × All
        (IsRanked (ltb 400_000 5_000_000) (far_pair succeeded 1))
        (near_pair failed 3 ∷ far_pair succeeded 1 ∷ [])
nominate_best_example =
    nominate_best (1 ∷ []) (2 ∷ []) (far ∷ near ∷ []) (other_side ∷ []) 0 0 400_000 begun
      given_up_near connected_far (far_pair succeeded 1) made_here all_calls nominated_far

role_kept : connected_far ≡ resolve_role_conflict connected_far controlled
unfolding resolve_role_conflict
role_kept = refl

-- The other side's role is heard of, and the deadline passes.
resolved_late : Run connected_far 400_000 connected_far 6_000_000
resolved_late =
    let step : Step 6_000_000 connected_far connected_far = resolved controlled role_kept in
    next here (omega arith) step

nominate_stays_example :
    (connected ≡ connected) × ((nominate connected_far 6_000_000).1 ≡ some (far_pair succeeded 1))
nominate_stays_example =
    nominate_stays given_up_near connected_far connected_far 400_000 6_000_000
      (far_pair succeeded 1) nominated_far resolved_late

next_check_deadline_example : ((next_check answered_once 5_000_000).0).state ≡ (
    if some_succeeded (near_pair in_progress 1 ∷ far_pair succeeded 1 ∷ [])
    then connected
    else gave_up)
next_check_deadline_example =
    next_check_deadline answered_once 5_000_000 refl (omega arith) (omega arith)
