-- ===== src/P2P/Connectivity/Mirror.antt =====
-- The pairs that the two sides of a check make: `all_pairs`, `sort_pairs` and the constructor.
use lan_link.Prelude.{
  ℕ, ◌≡◌, ◌↔◌, ◌⊎◌, inl, inr, refl, sym, ap, ◌∙◌, Bool, true, false, not, List, [], ◌∷◌, ◌++◌,
  arith, leb, if◌then◌else◌, Bool-cases, ok, >>=-inv, require-inv, ok_injective, ne_of_bytes_eq,
}
use mathlib.Core.List.{Memᴰ}
use mathlib.Core.List.Memᴰ
use lan_link.P2P.Candidates.{Candidate}
use lan_link.P2P.Connectivity.{
  CandidatePair, IceRole, controlling, controlled, ConnectivityChecks, bytes_lt, role_of, new_pair,
  valid_pair, pair_priority, pairs_with, all_pairs, insert_pair, sort_pairs, make_checks,
}
use lan_link.P2P.Connectivity.Roles.{bytes_lt_flip, role_of_flip, make_checks-inv}

-- Some pair in the list is from `a` to `b`, with the priority.
abbrev pub HasPair : List CandidatePair → Candidate → Candidate → ℕ → Type 0
HasPair [] a b priority = ⊥
HasPair (p ∷ pairs) a b priority =
    ((p.local ≡ a) × (p.remote ≡ b) × (p.priority ≡ priority)) ⊎ HasPair pairs a b priority

HasPair-append :
    (ps qs : List CandidatePair) (a b : Candidate) (n : ℕ)
    → HasPair (ps ++ qs) a b n ↔ (HasPair ps a b n ⊎ HasPair qs a b n)
HasPair-append [] qs a b n = (inr, elim [ inl h ↦ elim h [ ] | inr h ↦ h ])
HasPair-append (p ∷ ps) qs a b n = let rest = HasPair-append ps qs a b n in ground (arith, rest)

HasPair-insert :
    (p : CandidatePair) (ps : List CandidatePair) (a b : Candidate) (n : ℕ)
    → HasPair (insert_pair p ps) a b n ↔ HasPair (p ∷ ps) a b n
unfolding insert_pair
HasPair-insert p [] a b n = (λ h. h, λ h. h)
HasPair-insert p (q ∷ ps) a b n =
    let rest = HasPair-insert p ps a b n in
    elim (Bool-cases (leb q.priority p.priority)) [
      | inl first ↦ rw first (λ h. h, λ h. h)
      | inr later ↦ rw later (ground (arith, rest))
    ]

HasPair-sort :
    (ps : List CandidatePair) (a b : Candidate) (n : ℕ)
    → HasPair (sort_pairs ps) a b n ↔ HasPair ps a b n
unfolding sort_pairs
HasPair-sort [] a b n = (λ h. h, λ h. h)
HasPair-sort (p ∷ ps) a b n =
    let rest = HasPair-sort ps a b n in
    let inserted = HasPair-insert p (sort_pairs ps) a b n in ground (arith, rest, inserted)

-- The pairs that the inner loop makes are those of its candidate with each remote one.
HasPair-pairs_with :
    (role : IceRole) (x : Candidate) (remotes : List Candidate) (ps : List CandidatePair)
    (a b : Candidate) (n : ℕ)
    → pairs_with role x remotes ≡ ok ps
    → HasPair ps a b n ↔ ((x ≡ a) × Memᴰ b remotes × (pair_priority role a b ≡ n))
unfolding pairs_with
HasPair-pairs_with role x [] ps a b n h =
    rw (ok_injective _ _ ps refl h)
      (λ none_there. elim none_there [ ], λ (_, m, _). absurd (Memᴰ.not-nil m))
HasPair-pairs_with role x (y ∷ remotes) ps a b n h =
    let (valid, e1) = require-inv (valid_pair x y) _ _ ps h in
    let (rest, made, e2) = >>=-inv (pairs_with role x remotes) _ ps e1 in
    let same : ps ≡ new_pair role x y ∷ rest = ok_injective _ _ ps refl e2 in
    let others = HasPair-pairs_with role x remotes rest a b n made in
    rw same (
      elim [
        | inl (e, f, k) ↦ (e, Memᴰ.head (sym f), cc (e, f, k))
        | inr later ↦ let (e, m, k) = others.0 later in (e, Memᴰ.tail m, k)
      ],
      λ (e, m, k). elim (Memᴰ.cases_cons m) [
        | inl f ↦ inl (e, sym f, cc (e, f, k))
        | inr later ↦ inr (others.1 (e, later, k))
      ],
    )

HasPair-all_pairs :
    (role : IceRole) (locals remotes : List Candidate) (ps : List CandidatePair) (a b : Candidate)
    (n : ℕ)
    → all_pairs role locals remotes ≡ ok ps
    → HasPair ps a b n ↔ (Memᴰ a locals × Memᴰ b remotes × (pair_priority role a b ≡ n))
unfolding all_pairs
HasPair-all_pairs role [] remotes ps a b n h =
    rw (ok_injective _ _ ps refl h)
      (λ none_there. elim none_there [ ], λ (m, _, _). absurd (Memᴰ.not-nil m))
HasPair-all_pairs role (x ∷ locals) remotes ps a b n h =
    let (first, one, e1) = >>=-inv (pairs_with role x remotes) _ ps h in
    let (rest, made, e2) = >>=-inv (all_pairs role locals remotes) _ ps e1 in
    let same : ps ≡ first ++ rest = ok_injective _ _ ps refl e2 in
    let here = HasPair-pairs_with role x remotes first a b n one in
    let others = HasPair-all_pairs role locals remotes rest a b n made in
    let both = HasPair-append first rest a b n in
    rw same (
      λ found. elim (both.0 found) [
        | inl one ↦ let (e, m, k) = here.0 one in (Memᴰ.head (sym e), m, k)
        | inr later ↦ let (l, m, k) = others.0 later in (Memᴰ.tail l, m, k)
      ],
      λ (l, m, k). both.1 (elim (Memᴰ.cases_cons l) [
        | inl e ↦ inl (here.1 (sym e, m, k))
        | inr later ↦ inr (others.1 (later, m, k))
      ]),
    )

-- The pairs of the checks that the constructor has made.
HasPair-make_checks :
    (local peer : List ℕ) (locals remotes : List Candidate) (now : ℕ) (c : ConnectivityChecks)
    → make_checks local peer locals remotes now ≡ ok c
    → (a b : Candidate) (n : ℕ)
    → HasPair c.pairs a b n
      ↔ (Memᴰ a locals × Memᴰ b remotes × (pair_priority (role_of local peer) a b ≡ n))
HasPair-make_checks local peer locals remotes now c h a b n =
    let (apart, pairs, made, e) = make_checks-inv local peer locals remotes now c h in
    let all = HasPair-all_pairs (role_of local peer) locals remotes pairs a b n made in
    let sorted = HasPair-sort pairs a b n in rw e (λ x. all.0 (sorted.0 x), λ x. sorted.1 (all.1 x))

if_not :
    (b : Bool)
    → (if not b then controlling else controlled) ≡ (if b then controlled else controlling)
if_not true = refl
if_not false = refl

-- Where both peers begin to check, each with the other's candidates as the remote ones, the one with the
-- lower device id is controlling and the other is controlled. The first side's checks have a pair from
-- one candidate to another with some priority exactly if the second side's checks have the pair the
-- other way with the same priority, and exactly if the one is the first side's own candidate, the other
-- is the second side's, and the priority is that of the pair in the first side's role.
pub make_checks_agree :
    (local peer : List ℕ) (locals remotes : List Candidate) (now later : ℕ)
    (ours theirs : ConnectivityChecks)
    → make_checks local peer locals remotes now ≡ ok ours
    → make_checks peer local remotes locals later ≡ ok theirs
    → (ours.role ≡ (if bytes_lt local peer then controlling else controlled))
      × (theirs.role ≡ (if bytes_lt local peer then controlled else controlling))
      × ((a b : Candidate) (n : ℕ)
          → (HasPair ours.pairs a b n ↔ HasPair theirs.pairs b a n)
            × (HasPair ours.pairs a b n
                ↔ (Memᴰ a locals × Memᴰ b remotes × (pair_priority ours.role a b ≡ n))))
unfolding role_of
make_checks_agree local peer locals remotes now later ours theirs h k =
    let (apart, pairs, p, ours_made) = make_checks-inv local peer locals remotes now ours h in
    let (apart', pairs', p', theirs_made) =
      make_checks-inv peer local remotes locals later theirs k in
    let our_role : ours.role ≡ role_of local peer =
      ap (λ (c : ConnectivityChecks). c.role) ours_made in
    let distinct = ne_of_bytes_eq local peer apart in
    let flip = bytes_lt_flip local peer distinct in
    (
      our_role,
      rw theirs_made (rw flip (if_not (bytes_lt local peer))),
      λ a b n.
          let here = HasPair-make_checks local peer locals remotes now ours h a b n in
          let there = HasPair-make_checks peer local remotes locals later theirs k b a n in
          let same = role_of_flip local peer distinct a b in
          (
            (
              λ x. let (l, m, e) = here.0 x in there.1 (m, l, sym same ∙ e),
              λ x. let (m, l, e) = there.0 x in here.1 (l, m, same ∙ e),
            ),
            rw our_role here,
          ),
    )
