-- ===== src/P2P/Connectivity/Ranking.antt =====
-- The pair that is nominated has the highest priority of those that have succeeded.
use lan_link.Prelude.{
  ℕ, ◌≤◌, ◌<◌, ◌≡◌, inl, inr, sym, ap, ◌∙◌, subst, Bool, true, not, ◌&&◌, some, List, [], ◌∷◌,
  arith, ltb, leb, Bool-cases, ok, All,
}
use lan_link.P2P.Candidates.{Candidate}
use lan_link.P2P.Connectivity.{
  make_checks, nominate, nominated, ConnectivityChecks, CandidatePair, has_succeeded, has_failed,
  nominate_loop, insert_pair, sort_pairs,
}
use lan_link.P2P.Connectivity.Roles.{make_checks-inv}
use lan_link.P2P.Connectivity.Runs.{Run}
use lan_link.P2P.Connectivity.Settled.{nominate-inv}
use lan_link.P2P.Connectivity.Priorities.{priorities, Run-priorities}

abbrev IsDescending : List ℕ → Type 0
IsDescending [] = Unit
IsDescending (n ∷ ns) = All (λ m. m ≤ n) ns × IsDescending ns

All-le : (n k : ℕ) (ns : List ℕ) → n ≤ k → All (λ m. m ≤ n) ns → All (λ m. m ≤ k) ns
All-le n k [] h a = tt
All-le n k (m ∷ ns) h a = (omega (arith, h, a.0), All-le n k ns h a.1)

insert_pair_bound :
    (p : CandidatePair) (pairs : List CandidatePair) (n : ℕ)
    → p.priority ≤ n
    → All (λ m. m ≤ n) (priorities pairs)
    → All (λ m. m ≤ n) (priorities (insert_pair p pairs))
unfolding insert_pair
insert_pair_bound p [] n h a = (h, tt)
insert_pair_bound p (q ∷ pairs) n h a = elim (Bool-cases (leb q.priority p.priority)) [
  | inl first ↦ rw first (h, a)
  | inr later ↦ rw later (a.0, insert_pair_bound p pairs n h a.1)
]

insert_pair-IsDescending :
    (p : CandidatePair) (pairs : List CandidatePair)
    → IsDescending (priorities pairs)
    → IsDescending (priorities (insert_pair p pairs))
unfolding insert_pair
insert_pair-IsDescending p [] d = (tt, tt)
insert_pair-IsDescending p (q ∷ pairs) d = elim (Bool-cases (leb q.priority p.priority)) [
  | inl first ↦
      let low : q.priority ≤ p.priority = ground (arith, first) in
      rw first ((low, All-le q.priority p.priority (priorities pairs) low d.0), d)
  | inr later ↦
      let low : p.priority ≤ q.priority = ground (arith, later) in
      rw later (insert_pair_bound p pairs q.priority low d.0, insert_pair-IsDescending p pairs d.1)
]

sort_pairs-IsDescending :
    (pairs : List CandidatePair) → IsDescending (priorities (sort_pairs pairs))
unfolding sort_pairs
sort_pairs-IsDescending [] = tt
sort_pairs-IsDescending (p ∷ pairs) =
    insert_pair-IsDescending p (sort_pairs pairs) (sort_pairs-IsDescending pairs)

-- What is said of each pair where `p` was nominated.
abbrev pub IsRanked : Bool → CandidatePair → CandidatePair → Type 0
IsRanked early p q =
    (has_succeeded q.state ≡ true → q.priority ≤ p.priority)
    × (early ≡ true → p.priority < q.priority → has_failed q.state ≡ true)

below-IsRanked :
    (early : Bool) (p : CandidatePair) (pairs : List CandidatePair)
    → All (λ m. m ≤ p.priority) (priorities pairs)
    → All (IsRanked early p) pairs
below-IsRanked early p [] a = tt
below-IsRanked early p (q ∷ pairs) a =
    ((λ s. a.0, λ e above. absurd (omega (arith, a.0, above))), below-IsRanked early p pairs a.1)

nominate_loop-IsRanked :
    (early : Bool) (pairs : List CandidatePair) (p : CandidatePair)
    → IsDescending (priorities pairs)
    → nominate_loop early pairs ≡ nominated p
    → (has_succeeded p.state ≡ true) × All (IsRanked early p) pairs
unfolding nominate_loop
nominate_loop-IsRanked early [] p d h = cc
nominate_loop-IsRanked early (q ∷ pairs) p d h = elim (Bool-cases (has_succeeded q.state)) [
  | inl success ↦
      let same : p ≡ q = cc (rw success at h) in
      subst
        (λ (r : CandidatePair). (has_succeeded r.state ≡ true) × All (IsRanked early r) (q ∷ pairs))
        (sym same)
        (
          success,
          (
            (λ s. omega arith, λ e above. absurd (omega (arith, above))),
            below-IsRanked early q pairs d.0,
          ),
        )
  | inr no_success ↦ elim (Bool-cases (early && not (has_failed q.state))) [
    | inl alive ↦ cc (rw (no_success, alive) at h)
    | inr dead ↦
        let (s, a) = nominate_loop-IsRanked early pairs p d.1 (rw (no_success, dead) at h) in
        (s, ((λ t. cc (t, no_success), λ e above. ground (arith, dead, e)), a))
  ]
]

-- A pair that is nominated, whatever was called since the check was made, has succeeded, no pair that
-- has succeeded has a higher priority, and before the deadline every pair of a higher priority has
-- failed.
pub nominate_best :
    (local peer : List ℕ) (locals remotes : List Candidate) (begun from now : ℕ)
    (start c after : ConnectivityChecks) (p : CandidatePair)
    → make_checks local peer locals remotes begun ≡ ok start
    → Run start from c now
    → nominate c now ≡ (after, some p)
    → (has_succeeded p.state ≡ true) × All (IsRanked (ltb now c.deadline) p) c.pairs
nominate_best local peer locals remotes begun from now start c after p h run e =
    let (apart, pairs, all, made) = make_checks-inv local peer locals remotes begun start h in
    let (verdict, done) = nominate-inv c after now p e in
    let same : priorities c.pairs ≡ priorities (sort_pairs pairs) =
      Run-priorities start from c now run
      ∙ ap (λ (t : ConnectivityChecks). priorities t.pairs) made in
    nominate_loop-IsRanked (ltb now c.deadline) c.pairs p (rw same (sort_pairs-IsDescending pairs))
      verdict
