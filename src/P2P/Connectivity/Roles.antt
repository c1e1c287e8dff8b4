-- ===== src/P2P/Connectivity/Roles.antt =====
-- The roles that two peers take by their device ids.
use lan_link.Prelude.{
  ℕ, ◌+◌, ◌≡◌, ◌≢◌, inl, inr, refl, false, not, ◌||◌, List, [], ◌∷◌, arith, ltb, ◌==◌, ==_iff,
  Bool-cases, ok, >>=-inv, require-inv, ok_injective, length, bytes_eq,
}
use lan_link.P2P.Candidates.{Candidate, max_candidates}
use lan_link.Policy.{is_empty}
use lan_link.P2P.Connectivity.{
  CandidatePair, ConnectivityChecks, checking, bytes_lt, role_of, pair_priority, all_pairs,
  sort_pairs, make_checks,
}

pub bytes_lt_flip : (xs ys : List ℕ) → xs ≢ ys → bytes_lt ys xs ≡ not (bytes_lt xs ys)
unfolding bytes_lt
bytes_lt_flip [] [] apart = absurd (apart refl)
bytes_lt_flip [] (y ∷ ys) apart = refl
bytes_lt_flip (x ∷ xs) [] apart = refl
bytes_lt_flip (x ∷ xs) (y ∷ ys) apart = elim (Bool-cases (x == y)) [
  | inl same ↦
      let e : x ≡ y = (==_iff x y).0 same in
      let rest = bytes_lt_flip xs ys (λ k. apart (cc (e, k))) in ground (arith, e, rest)
  | inr other ↦ ground (arith, other)
]

pub role_of_flip :
    (local peer : List ℕ)
    → local ≢ peer
    → (x y : Candidate)
    → pair_priority (role_of local peer) x y ≡ pair_priority (role_of peer local) y x
unfolding role_of pair_priority
role_of_flip local peer apart x y = elim (Bool-cases (bytes_lt local peer)) [
  | inl below ↦ rw (bytes_lt_flip local peer apart, below) refl
  | inr above ↦ rw (bytes_lt_flip local peer apart, above) refl
]

-- What the constructor has checked and made.
pub make_checks-inv :
    (local peer : List ℕ) (locals remotes : List Candidate) (now : ℕ) (c : ConnectivityChecks)
    → make_checks local peer locals remotes now ≡ ok c
    → (bytes_eq local peer ≡ false)
      × (pairs : List CandidatePair) × (all_pairs (role_of local peer) locals remotes ≡ ok pairs)
      × (c ≡ record {
        local = local;
        peer = peer;
        role = role_of local peer;
        pairs = sort_pairs pairs;
        deadline = now + 5_000_000;
        next_at = now;
        state = checking;
      })
unfolding make_checks
make_checks-inv local peer locals remotes now c h =
    let (tests, e1) =
      require-inv
        (not (
          bytes_eq local peer
          || is_empty locals
          || is_empty remotes
          || ltb max_candidates (length locals)
          || ltb max_candidates (length remotes)))
        _ _ c h in
    let (pairs, made, e2) = >>=-inv (all_pairs (role_of local peer) locals remotes) _ c e1 in
    (ground (arith, tests), pairs, made, ok_injective _ _ c refl e2)
