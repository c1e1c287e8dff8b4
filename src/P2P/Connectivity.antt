-- ===== src/P2P/Connectivity.antt =====
-- src/p2p/connectivity.cpp: each of two peers probes the pairs of its own candidates and the other's,
-- and nominates one that answers. Time points are in microseconds.
pub mod Roles
pub mod Mirror
pub mod Runs
pub mod Settled
pub mod Priorities
pub mod Ranking
use lan_link.Prelude.{
  ℕ, ◌+◌, ◌*◌, ◌%◌, ◌^◌, min, max, Bool, true, false, not, ◌&&◌, ◌||◌, Option, none, some, List, [],
  ◌∷◌, ◌++◌, map, ltb, leb, ◌==◌, if◌then◌else◌, Result, ok, ◌>>=◌, ◌>>◌, Exception,
  invalid_argument, require, length, bytes_eq,
}
use lan_link.Policy.{is_empty}
use lan_link.P2P.Candidates.{Endpoint, Candidate, max_candidates, usable_endpoint, same_endpoint}

pub data IceRole : Type 0 where
  controlling controlled : IceRole

pub data CheckState : Type 0 where
  waiting in_progress succeeded failed : CheckState

-- `gave_up` is `ConnectivityState::failed`.
pub data ConnectivityState : Type 0 where
  checking connected gave_up : ConnectivityState

pub record CandidatePair : Type 0 where
  pub local : Candidate
  pub remote : Candidate
  pub priority : ℕ
  pub state : CheckState
  pub attempts : ℕ
  pub rtt_us : Option ℕ

pub record ConnectivityChecks : Type 0 where
  pub local : List ℕ
  pub peer : List ℕ
  pub role : IceRole
  pub pairs : List CandidatePair
  pub deadline : ℕ
  pub next_at : ℕ
  pub state : ConnectivityState

-- The order of `std::array`, by the first byte that differs.
unfoldable pub bytes_lt : List ℕ → List ℕ → Bool
bytes_lt [] ys = not (is_empty ys)
bytes_lt (x ∷ xs) [] = false
bytes_lt (x ∷ xs) (y ∷ ys) =
    let rest = bytes_lt xs ys in if ltb x y then true else if ltb y x then false else rest

unfoldable pub role_of : List ℕ → List ℕ → IceRole
role_of local peer = if bytes_lt local peer then controlling else controlled

-- The priority of a pair in 64 bits, from that of the controlling side and that of the other.
unfoldable pub priority_of : ℕ → ℕ → ℕ
priority_of g d = (min g d * 2 ^ 32 % 2 ^ 64 + 2 * max g d + (if ltb d g then 1 else 0)) % 2 ^ 64

unfoldable pub pair_priority : IceRole → Candidate → Candidate → ℕ
pair_priority controlling a b = priority_of a.priority b.priority
pair_priority controlled a b = priority_of b.priority a.priority

abbrev pub new_pair : IceRole → Candidate → Candidate → CandidatePair
new_pair role a b = record {
  local = a;
  remote = b;
  priority = pair_priority role a b;
  state = waiting;
  attempts = 0;
  rtt_us = none;
}

abbrev pub valid_pair : Candidate → Candidate → Bool
valid_pair a b =
    usable_endpoint a.endpoint true
    && usable_endpoint b.endpoint true
    && not (a.priority == 0)
    && not (b.priority == 0)

-- The inner loop of the constructor, and the outer one.
unfoldable pub pairs_with :
    IceRole → Candidate → List Candidate → Result Exception (List CandidatePair)
pairs_with role a [] = ok []
pairs_with role a (b ∷ remotes) = do
  require (valid_pair a b) invalid_argument
  pairs ← pairs_with role a remotes
  ok (new_pair role a b ∷ pairs)

unfoldable pub all_pairs :
    IceRole → List Candidate → List Candidate → Result Exception (List CandidatePair)
all_pairs role [] remotes = ok []
all_pairs role (a ∷ locals) remotes = do
  first ← pairs_with role a remotes
  rest ← all_pairs role locals remotes
  ok (first ++ rest)

-- `std::stable_sort` by descending priority: a pair goes before those of less priority.
unfoldable pub insert_pair : CandidatePair → List CandidatePair → List CandidatePair
insert_pair p [] = p ∷ []
insert_pair p (q ∷ pairs) =
    if leb q.priority p.priority then p ∷ q ∷ pairs else q ∷ insert_pair p pairs

unfoldable pub sort_pairs : List CandidatePair → List CandidatePair
sort_pairs [] = []
sort_pairs (p ∷ pairs) = insert_pair p (sort_pairs pairs)

unfoldable pub make_checks :
    List ℕ → List ℕ → List Candidate → List Candidate → ℕ → Result Exception ConnectivityChecks
make_checks local peer locals remotes now = do
  require
      (not (
        bytes_eq local peer
        || is_empty locals
        || is_empty remotes
        || ltb max_candidates (length locals)
        || ltb max_candidates (length remotes)))
      invalid_argument
  pairs ← all_pairs (role_of local peer) locals remotes
  ok (record {
    local = local;
    peer = peer;
    role = role_of local peer;
    pairs = sort_pairs pairs;
    deadline = now + 5_000_000;
    next_at = now;
    state = checking;
  })

abbrev pub same_role : IceRole → IceRole → Bool
same_role controlling controlling = true
same_role controlling controlled = false
same_role controlled controlling = false
same_role controlled controlled = true

unfoldable pub resolve_role_conflict : ConnectivityChecks → IceRole → ConnectivityChecks
resolve_role_conflict c peer_role =
    if same_role c.role peer_role then record c { role = role_of c.local c.peer } else c

abbrev pub is_checking : ConnectivityState → Bool
is_checking checking = true
is_checking connected = false
is_checking gave_up = false

abbrev pub has_given_up : ConnectivityState → Bool
has_given_up checking = false
has_given_up connected = false
has_given_up gave_up = true

abbrev pub has_succeeded : CheckState → Bool
has_succeeded waiting = false
has_succeeded in_progress = false
has_succeeded succeeded = true
has_succeeded failed = false

abbrev pub has_failed : CheckState → Bool
has_failed waiting = false
has_failed in_progress = false
has_failed succeeded = false
has_failed failed = true

-- How the loop of `nominate` ends.
pub data Verdict : Type 0 where
  nominated : CandidatePair → Verdict
  undecided exhausted : Verdict

unfoldable pub nominate_loop : Bool → List CandidatePair → Verdict
nominate_loop early [] = exhausted
nominate_loop early (p ∷ pairs) =
    let rest = nominate_loop early pairs in
    if has_succeeded p.state
    then nominated p
    else if early && not (has_failed p.state)
    then undecided
    else rest

abbrev pub after_verdict : ConnectivityChecks → Verdict → ConnectivityChecks × Option CandidatePair
after_verdict c (nominated p) = (record c { state = connected }, some p)
after_verdict c undecided = (c, none)
after_verdict c exhausted = (record c { state = gave_up }, none)

unfoldable pub nominate : ConnectivityChecks → ℕ → ConnectivityChecks × Option CandidatePair
nominate c now =
    if has_given_up c.state
    then (c, none)
    else after_verdict c (nominate_loop (ltb now c.deadline) c.pairs)

abbrev pub fail_pair : CandidatePair → CandidatePair
fail_pair p = if has_succeeded p.state then p else record p { state = failed }

abbrev pub is_ready : CheckState → ℕ → Bool
is_ready waiting attempts = true
is_ready in_progress attempts = ltb attempts 3
is_ready succeeded attempts = false
is_ready failed attempts = false

abbrev pub may_probe : CandidatePair → Bool
may_probe p = is_ready p.state p.attempts

abbrev pub probe_pair : CandidatePair → CandidatePair
probe_pair p = record p { state = in_progress; attempts = (p.attempts + 1) % 2 ^ 32 }

abbrev pub or_later :
    CandidatePair
    → Option (CandidatePair × List CandidatePair)
    → Option (CandidatePair × List CandidatePair)
or_later p none = none
or_later p (some found) = some (found.0, p ∷ found.1)

-- `std::find_if`, and the pair that was found after the probe, with the list it stands in.
unfoldable pub probe_first : List CandidatePair → Option (CandidatePair × List CandidatePair)
probe_first [] = none
probe_first (p ∷ pairs) =
    let later = or_later p (probe_first pairs) in
    if may_probe p then some (probe_pair p, probe_pair p ∷ pairs) else later

abbrev pub after_probe :
    ConnectivityChecks
    → ℕ
    → Option (CandidatePair × List CandidatePair)
    → ConnectivityChecks × Option CandidatePair
after_probe c now none = ((nominate c now).0, none)
after_probe c now (some found) =
    (record c { pairs = found.1; next_at = now + 100_000 }, some found.0)

unfoldable pub next_check : ConnectivityChecks → ℕ → ConnectivityChecks × Option CandidatePair
next_check c now =
    if not (is_checking c.state) || ltb now c.next_at
    then (c, none)
    else if leb c.deadline now
    then ((nominate (record c { pairs = map fail_pair c.pairs }) now).0, none)
    else after_probe c now (probe_first c.pairs)

abbrev pub is_between : CandidatePair → Endpoint → Endpoint → Bool
is_between p local remote =
    same_endpoint p.local.endpoint local && same_endpoint p.remote.endpoint remote

abbrev pub note_pair : Endpoint → Endpoint → CandidatePair → CandidatePair
note_pair local remote p =
    if is_between p local remote && not (has_succeeded p.state) && not (has_failed p.state)
    then probe_pair p
    else p

unfoldable pub note_probe : ConnectivityChecks → Endpoint → Endpoint → ConnectivityChecks
note_probe c local remote =
    if not (is_checking c.state)
    then c
    else record c { pairs = map (note_pair local remote) c.pairs }

abbrev pub is_in_progress : CheckState → Bool
is_in_progress waiting = false
is_in_progress in_progress = true
is_in_progress succeeded = false
is_in_progress failed = false

abbrev pub answer_pair : Endpoint → Endpoint → Bool → Option ℕ → CandidatePair → CandidatePair
answer_pair local remote success rtt p =
    if is_between p local remote && is_in_progress p.state
    then record p {
      state = if success then succeeded else if leb 3 p.attempts then failed else waiting;
      rtt_us = if success then rtt else none;
    }
    else p

unfoldable pub result :
    ConnectivityChecks → Endpoint → Endpoint → Bool → Option ℕ → ConnectivityChecks
result c local remote success rtt =
    if not (is_checking c.state)
    then c
    else record c { pairs = map (answer_pair local remote success rtt) c.pairs }
