-- ===== src/P2P/Connectivity/Settled.antt =====
-- A connection that was nominated stays, and the deadline ends the checks.
use lan_link.Prelude.{
  ℕ, ◌≤◌, ◌≡◌, inl, inr, refl, Bool, true, false, ◌||◌, some, List, [], ◌∷◌, map, arith, ltb, leb,
  if◌then◌else◌, Bool-cases,
}
use lan_link.P2P.Connectivity.{
  ConnectivityChecks, CandidatePair, checking, connected, gave_up, Verdict, nominated, undecided,
  exhausted, has_succeeded, has_failed, has_given_up, fail_pair, nominate_loop, after_verdict,
  next_check, note_probe, result, nominate, resolve_role_conflict, same_role,
}
use lan_link.P2P.Connectivity.Runs.{
  Step, asked, noted, answered, decided, resolved, Run, here, next,
}

-- A pair that was nominated before the deadline is the one that is nominated after it.
nominate_loop_late :
    (pairs : List CandidatePair) (p : CandidatePair)
    → nominate_loop true pairs ≡ nominated p
    → nominate_loop false pairs ≡ nominated p
unfolding nominate_loop
nominate_loop_late [] p h = cc
nominate_loop_late (q ∷ pairs) p h = elim (Bool-cases (has_succeeded q.state)) [
  | inl success ↦ rw success (rw success at h)
  | inr no_success ↦ elim (Bool-cases (has_failed q.state)) [
    | inl dead ↦ rw no_success (nominate_loop_late pairs p (rw (no_success, dead) at h))
    | inr alive ↦ cc (rw (no_success, alive) at h)
  ]
]

-- A connected check that nominates `p` at any time from `now` on.
abbrev IsSettled : CandidatePair → ℕ → ConnectivityChecks → Type 0
IsSettled p now c =
    (c.state ≡ connected) × (nominate_loop (ltb now c.deadline) c.pairs ≡ nominated p)

IsSettled-later :
    (p : CandidatePair) (now later : ℕ) (c : ConnectivityChecks)
    → now ≤ later
    → IsSettled p now c
    → IsSettled p later c
IsSettled-later p now later c h (s, e) = elim (Bool-cases (ltb now c.deadline)) [
  | inl early ↦ elim (Bool-cases (ltb later c.deadline)) [
    | inl still ↦ (s, rw still (rw early at e))
    | inr late ↦ (s, rw late (nominate_loop_late c.pairs p (rw early at e)))
  ]
  | inr late ↦
      let past : ltb later c.deadline ≡ false = ground (arith, late, h) in
      (s, rw past (rw late at e))
]

Step-IsSettled :
    (p : CandidatePair) (now : ℕ) (before after : ConnectivityChecks)
    → Step now before after
    → IsSettled p now before
    → IsSettled p now after
unfolding next_check note_probe result nominate resolve_role_conflict
Step-IsSettled p now before after (asked e) (s, n) = rw (e, s) (refl, n)
Step-IsSettled p now before after (noted l r e) (s, n) = rw (e, s) (refl, n)
Step-IsSettled p now before after (answered l r success rtt e) (s, n) = rw (e, s) (refl, n)
Step-IsSettled p now before after (decided e) (s, n) = rw (e, s, n) (refl, n)
Step-IsSettled p now before after (resolved role e) (s, n) =
    elim (Bool-cases (same_role before.role role)) [
      | inl same ↦ rw (e, same) (s, n)
      | inr other ↦ rw (e, other) (s, n)
    ]

Run-IsSettled :
    (p : CandidatePair) (start : ConnectivityChecks) (from : ℕ) (c : ConnectivityChecks) (now : ℕ)
    → Run start from c now
    → IsSettled p from start
    → IsSettled p now c
Run-IsSettled p start from c now here settled = settled
Run-IsSettled p start from c now (next {before} {after} {earlier} run order step) settled =
    Step-IsSettled p now before c step (
      IsSettled-later p earlier now before order
        (Run-IsSettled p start from before earlier run settled))

after_verdict-nominated :
    (c first : ConnectivityChecks) (verdict : Verdict) (p : CandidatePair)
    → after_verdict c verdict ≡ (first, some p)
    → (verdict ≡ nominated p) × (first ≡ record c { state = connected })
after_verdict-nominated c first (nominated q) p h = (cc h, cc h)
after_verdict-nominated c first undecided p h = cc
after_verdict-nominated c first exhausted p h = cc

pub nominate-inv :
    (c first : ConnectivityChecks) (now : ℕ) (p : CandidatePair)
    → nominate c now ≡ (first, some p)
    → (nominate_loop (ltb now c.deadline) c.pairs ≡ nominated p)
      × (first ≡ record c { state = connected })
unfolding nominate
nominate-inv c first now p h = elim (Bool-cases (has_given_up c.state)) [
  | inl over ↦ cc (rw over at h)
  | inr open_still ↦
      after_verdict-nominated c first (nominate_loop (ltb now c.deadline) c.pairs) p
        (rw open_still at h)
]

-- Once a pair was nominated, the check is connected whatever is called later, at times that do not run
-- backwards, and the same pair is nominated each time.
pub nominate_stays :
    (c first later : ConnectivityChecks) (now then_at : ℕ) (p : CandidatePair)
    → nominate c now ≡ (first, some p)
    → Run first now later then_at
    → (later.state ≡ connected) × ((nominate later then_at).1 ≡ some p)
unfolding nominate
nominate_stays c first later now then_at p h run =
    let (verdict, made) = nominate-inv c first now p h in
    let (s, e) = Run-IsSettled p first now later then_at run (rw made (refl, verdict)) in
    (s, rw (s, e) refl)

-- A pair of the list has succeeded.
unfoldable pub some_succeeded : List CandidatePair → Bool
some_succeeded [] = false
some_succeeded (p ∷ pairs) = has_succeeded p.state || some_succeeded pairs

late_verdict :
    (c : ConnectivityChecks) (pairs : List CandidatePair)
    → ((after_verdict c (nominate_loop false (map fail_pair pairs))).0).state
      ≡ (if some_succeeded pairs then connected else gave_up)
unfolding nominate_loop some_succeeded
late_verdict c [] = refl
late_verdict c (p ∷ pairs) = elim (Bool-cases (has_succeeded p.state)) [
  | inl success ↦ rw (success, success) refl
  | inr no_success ↦ rw no_success (late_verdict c pairs)
]

-- The deadline ends the checks: the first `next` from the deadline on that is not too early, which
-- `next_at` says, leaves the check connected if a pair has succeeded, and given up otherwise.
pub next_check_deadline :
    (c : ConnectivityChecks) (now : ℕ)
    → c.state ≡ checking
    → c.deadline ≤ now
    → c.next_at ≤ now
    → ((next_check c now).0).state ≡ (if some_succeeded c.pairs then connected else gave_up)
unfolding next_check nominate
next_check_deadline c now s late due =
    let wait : ltb now c.next_at ≡ false = ground (arith, due) in
    let over : leb c.deadline now ≡ true = ground (arith, late) in
    let past : ltb now c.deadline ≡ false = ground (arith, late) in
    rw (s, wait, over, past)
      (late_verdict (record c { pairs = map fail_pair c.pairs; state = checking }) c.pairs)
