-- ===== src/P2P/Connectivity/Priorities.antt =====
-- No call changes the priority of a pair.
use lan_link.Prelude.{
  ℕ, ◌≡◌, inl, inr, refl, ap, ◌∙◌, Bool, not, ◌&&◌, ◌||◌, Option, none, some, List, [], ◌∷◌, map,
  ltb, leb, Bool-cases,
}
use lan_link.P2P.Candidates.{Endpoint}
use lan_link.P2P.Connectivity.{
  undecided, exhausted, probe_pair, next_check, note_probe, result, resolve_role_conflict,
  same_role, is_checking, after_probe, nominate, nominated, ConnectivityChecks, CandidatePair,
  Verdict, has_succeeded, has_failed, has_given_up, fail_pair, may_probe, note_pair, answer_pair,
  is_between, is_in_progress, nominate_loop, after_verdict, probe_first, or_later,
}
use lan_link.P2P.Connectivity.Runs.{
  Step, asked, noted, answered, decided, resolved, Run, here, next,
}

abbrev pub priorities : List CandidatePair → List ℕ
priorities pairs = map (λ (p : CandidatePair). p.priority) pairs

-- No call changes a priority.
priorities-map :
    (f : CandidatePair → CandidatePair) (pairs : List CandidatePair)
    → ((p : CandidatePair) → (f p).priority ≡ p.priority)
    → priorities (map f pairs) ≡ priorities pairs
priorities-map f [] h = refl
priorities-map f (p ∷ pairs) h = rw (h p, priorities-map f pairs h) refl

fail_pair_priority : (p : CandidatePair) → (fail_pair p).priority ≡ p.priority
fail_pair_priority p = elim (Bool-cases (has_succeeded p.state)) [
  | inl t ↦ rw t refl
  | inr t ↦ rw t refl
]

note_pair_priority :
    (local remote : Endpoint) (p : CandidatePair) → (note_pair local remote p).priority ≡ p.priority
note_pair_priority local remote p =
    elim (Bool-cases
      (is_between p local remote && not (has_succeeded p.state) && not (has_failed p.state))) [
        | inl t ↦ rw t refl
        | inr t ↦ rw t refl
      ]

answer_pair_priority :
    (local remote : Endpoint) (success : Bool) (rtt : Option ℕ) (p : CandidatePair)
    → (answer_pair local remote success rtt p).priority ≡ p.priority
answer_pair_priority local remote success rtt p =
    elim (Bool-cases (is_between p local remote && is_in_progress p.state)) [
      | inl t ↦ rw t refl
      | inr t ↦ rw t refl
    ]

after_verdict_pairs :
    (c : ConnectivityChecks) (verdict : Verdict) → ((after_verdict c verdict).0).pairs ≡ c.pairs
after_verdict_pairs c (nominated p) = refl
after_verdict_pairs c undecided = refl
after_verdict_pairs c exhausted = refl

nominate_pairs : (c : ConnectivityChecks) (now : ℕ) → ((nominate c now).0).pairs ≡ c.pairs
unfolding nominate
nominate_pairs c now = elim (Bool-cases (has_given_up c.state)) [
  | inl over ↦ rw over refl
  | inr not_over ↦ rw not_over (after_verdict_pairs c (nominate_loop (ltb now c.deadline) c.pairs))
]

or_later_keeps :
    (p : CandidatePair) (pairs : List CandidatePair)
    (rest : Option (CandidatePair × List CandidatePair))
    (found : CandidatePair × List CandidatePair)
    → ((found : CandidatePair × List CandidatePair)
        → rest ≡ some found
        → priorities found.1 ≡ priorities pairs)
    → or_later p rest ≡ some found
    → priorities found.1 ≡ priorities (p ∷ pairs)
or_later_keeps p pairs none found h e = cc
or_later_keeps p pairs (some later) found h e =
    let made : CandidatePair × List CandidatePair = (later.0, p ∷ later.1) in
    let same : found ≡ made = cc e in rw same (ap (◌∷◌ p.priority) (h later refl))

probe_first_keeps :
    (pairs : List CandidatePair) (found : CandidatePair × List CandidatePair)
    → probe_first pairs ≡ some found
    → priorities found.1 ≡ priorities pairs
unfolding probe_first
probe_first_keeps [] found e = cc
probe_first_keeps (p ∷ pairs) found e = elim (Bool-cases (may_probe p)) [
  | inl ready ↦
      let made : CandidatePair × List CandidatePair = (probe_pair p, probe_pair p ∷ pairs) in
      let same : found ≡ made = cc (rw ready at e) in rw same refl
  | inr not_ready ↦
      or_later_keeps p pairs (probe_first pairs) found (λ later. probe_first_keeps pairs later)
        (rw not_ready at e)
]

after_probe_keeps :
    (c : ConnectivityChecks) (now : ℕ) (found : Option (CandidatePair × List CandidatePair))
    → probe_first c.pairs ≡ found
    → priorities ((after_probe c now found).0).pairs ≡ priorities c.pairs
after_probe_keeps c now none e = ap priorities (nominate_pairs c now)
after_probe_keeps c now (some found) e = probe_first_keeps c.pairs found e

next_check_keeps :
    (c : ConnectivityChecks) (now : ℕ)
    → priorities ((next_check c now).0).pairs ≡ priorities c.pairs
unfolding next_check
next_check_keeps c now = elim (Bool-cases (not (is_checking c.state) || ltb now c.next_at)) [
  | inl early ↦ rw early refl
  | inr due ↦ elim (Bool-cases (leb c.deadline now)) [
    | inl late ↦
        rw (due, late)
          (ap priorities (nominate_pairs (record c { pairs = map fail_pair c.pairs }) now)
            ∙ priorities-map fail_pair c.pairs fail_pair_priority)
    | inr in_time ↦ rw (due, in_time) (after_probe_keeps c now (probe_first c.pairs) refl)
  ]
]

Step-priorities :
    (now : ℕ) (before after : ConnectivityChecks)
    → Step now before after
    → priorities after.pairs ≡ priorities before.pairs
unfolding note_probe result resolve_role_conflict
Step-priorities now before after (asked e) = rw e (next_check_keeps before now)
Step-priorities now before after (noted local remote e) =
    elim (Bool-cases (not (is_checking before.state))) [
      | inl over ↦ rw (e, over) refl
      | inr checks ↦
          rw (e, checks)
            (priorities-map (note_pair local remote) before.pairs (note_pair_priority local remote))
    ]
Step-priorities now before after (answered local remote success rtt e) =
    elim (Bool-cases (not (is_checking before.state))) [
      | inl over ↦ rw (e, over) refl
      | inr checks ↦
          rw (e, checks)
            (priorities-map (answer_pair local remote success rtt) before.pairs
              (answer_pair_priority local remote success rtt))
    ]
Step-priorities now before after (decided e) = rw e (ap priorities (nominate_pairs before now))
Step-priorities now before after (resolved role e) =
    elim (Bool-cases (same_role before.role role)) [
      | inl same ↦ rw (e, same) refl
      | inr other ↦ rw (e, other) refl
    ]

pub Run-priorities :
    (start : ConnectivityChecks) (from : ℕ) (c : ConnectivityChecks) (now : ℕ)
    → Run start from c now
    → priorities c.pairs ≡ priorities start.pairs
Run-priorities start from c now here = refl
Run-priorities start from c now (next {before} {after} {earlier} run order step) =
    Step-priorities now before c step ∙ Run-priorities start from before earlier run
