-- ===== src/Policy/Access.antt =====
-- What `policy_allows` and the functions over it decide.
use lan_link.Prelude.{
  ℕ, ◌≡◌, ◌≢◌, ◌↔◌, ◌⊎◌, inl, inr, refl, Bool, true, false, List, [], ◌∷◌, arith, Bool-cases,
  bytes_eq, ne_of_bytes_eq, bytes_eq_of_ne,
}
use lan_link.Policy.{
  NetworkPolicy, AccessRule, no_device, contains, is_hub_spoke, rule_matches, rules_loop,
  policy_allows,
}

bytes_eq_comm : (xs ys : List ℕ) → bytes_eq xs ys ≡ bytes_eq ys xs
bytes_eq_comm [] [] = refl
bytes_eq_comm [] (y ∷ ys) = refl
bytes_eq_comm (x ∷ xs) [] = refl
bytes_eq_comm (x ∷ xs) (y ∷ ys) = ground (arith, bytes_eq_comm xs ys)

rule_matches_comm :
    (p : NetworkPolicy) (r : AccessRule) (a b : List ℕ)
    → rule_matches p r a b ≡ rule_matches p r b a
unfolding rule_matches
rule_matches_comm p r a b = ground arith

rules_loop_comm :
    (p : NetworkPolicy) (rs : List AccessRule) (a b : List ℕ) (allowed : Bool)
    → rules_loop p rs a b allowed ≡ rules_loop p rs b a allowed
unfolding rules_loop
rules_loop_comm p [] a b allowed = refl
rules_loop_comm p (r ∷ rs) a b allowed =
    rw (rule_matches_comm p r a b, rules_loop_comm p rs a b true, rules_loop_comm p rs a b allowed)

-- A policy allows a device to reach another exactly if it allows the other to reach it.
pub policy_allows_comm :
    (p : NetworkPolicy) (a b : List ℕ) → policy_allows p a b ≡ policy_allows p b a
unfolding policy_allows
policy_allows_comm p a b = ground (arith, bytes_eq_comm a b, rules_loop_comm p p.rules a b false)

-- Some rule for the pair allows, or denies.
abbrev pub SomeRule : NetworkPolicy → Bool → List AccessRule → List ℕ → List ℕ → Type 0
SomeRule p allow [] a b = ⊥
SomeRule p allow (r ∷ rs) a b =
    ((rule_matches p r a b ≡ true) × (r.allow ≡ allow)) ⊎ SomeRule p allow rs a b

rules_loop-allows :
    (p : NetworkPolicy) (rs : List AccessRule) (a b : List ℕ) (allowed : Bool)
    → rules_loop p rs a b allowed ≡ true
    → ¬ SomeRule p false rs a b × ((allowed ≡ true) ⊎ SomeRule p true rs a b)
unfolding rules_loop
rules_loop-allows p [] a b allowed h = (λ x. x, inl h)
rules_loop-allows p (r ∷ rs) a b allowed h = elim (Bool-cases (rule_matches p r a b)) [
  | inr miss ↦
      let (fair, some_allow) = rules_loop-allows p rs a b allowed (rw miss at h) in
      (
        elim [ inl (m, _) ↦ cc (m, miss) | inr later ↦ fair later ],
        elim some_allow [ inl x ↦ inl x | inr x ↦ inr (inr x) ],
      )
  | inl hit ↦ elim (Bool-cases r.allow) [
    | inr deny ↦ cc (rw (hit, deny) at h)
    | inl allow ↦ (
      elim [
        | inl (_, e) ↦ cc (e, allow)
        | inr later ↦ (rules_loop-allows p rs a b true (rw (hit, allow) at h)).0 later
      ],
      inr (inl (hit, allow)),
    )
  ]
]

later :
    (p : NetworkPolicy) (r : AccessRule) (rs : List AccessRule) (a b : List ℕ) (allowed : Bool)
    → rule_matches p r a b ≡ false
    → (allowed ≡ true) ⊎ SomeRule p true (r ∷ rs) a b
    → (allowed ≡ true) ⊎ SomeRule p true rs a b
later p r rs a b allowed miss (inl h) = inl h
later p r rs a b allowed miss (inr (inl (hit, _))) = cc (hit, miss)
later p r rs a b allowed miss (inr (inr h)) = inr h

rules_loop_complete :
    (p : NetworkPolicy) (rs : List AccessRule) (a b : List ℕ) (allowed : Bool)
    → ¬ SomeRule p false rs a b
    → (allowed ≡ true) ⊎ SomeRule p true rs a b
    → rules_loop p rs a b allowed ≡ true
unfolding rules_loop
rules_loop_complete p [] a b allowed fair (inl h) = h
rules_loop_complete p [] a b allowed fair (inr h) = elim h [ ]
rules_loop_complete p (r ∷ rs) a b allowed fair some_allow =
    elim (Bool-cases (rule_matches p r a b)) [
      | inr miss ↦ rw miss (
          rules_loop_complete p rs a b allowed (λ x. fair (inr x))
            (later p r rs a b allowed miss some_allow))
      | inl hit ↦ elim (Bool-cases r.allow) [
        | inr deny ↦ absurd (fair (inl (hit, deny)))
        | inl allow ↦
            rw (hit, allow) (rules_loop_complete p rs a b true (λ x. fair (inr x)) (inl refl))
      ]
    ]

-- The devices may be joined under the topology.
abbrev pub Linked : NetworkPolicy → List ℕ → List ℕ → Type 0
Linked p a b =
    (is_hub_spoke p.topology ≡ false) ⊎ ((contains p.hubs a ≡ true) ⊎ (contains p.hubs b ≡ true))

-- What a policy grants: deny wins, otherwise a matching allow is required.
abbrev pub Grants : NetworkPolicy → List ℕ → List ℕ → Type 0
Grants p a b =
    (a ≢ b)
    × (a ≢ no_device)
    × (b ≢ no_device)
    × ((p.managed ≡ false)
        ⊎ (Linked p a b × ¬ SomeRule p false p.rules a b × SomeRule p true p.rules a b))

-- The tests that a positive answer has passed.
allows-tests :
    (p : NetworkPolicy) (a b : List ℕ)
    → policy_allows p a b ≡ true
    → (bytes_eq a b ≡ false)
      × (bytes_eq a no_device ≡ false)
      × (bytes_eq b no_device ≡ false)
      × ((p.managed ≡ false) ⊎ (Linked p a b × (rules_loop p p.rules a b false ≡ true)))
unfolding policy_allows
allows-tests p a b h = (ground arith, ground arith, ground arith, ground arith)

allowed_rules :
    (p : NetworkPolicy) (a b : List ℕ)
    → (p.managed ≡ false) ⊎ (Linked p a b × (rules_loop p p.rules a b false ≡ true))
    → (p.managed ≡ false)
      ⊎ (Linked p a b × ¬ SomeRule p false p.rules a b × SomeRule p true p.rules a b)
allowed_rules p a b (inl h) = inl h
allowed_rules p a b (inr (linked, h)) =
    let (fair, granted) = rules_loop-allows p p.rules a b false h in
    elim granted [ inl e ↦ cc e | inr some_allow ↦ inr (linked, fair, some_allow) ]

passed_rules :
    (p : NetworkPolicy) (a b : List ℕ)
    → Grants p a b
    → (p.managed ≡ false) ⊎ (Linked p a b × (rules_loop p p.rules a b false ≡ true))
passed_rules p a b (_, _, _, inl h) = inl h
passed_rules p a b (_, _, _, inr (linked, fair, some_allow)) =
    inr (linked, rules_loop_complete p p.rules a b false fair (inr some_allow))

tests-allow :
    (p : NetworkPolicy) (a b : List ℕ)
    → bytes_eq a b ≡ false
    → bytes_eq a no_device ≡ false
    → bytes_eq b no_device ≡ false
    → (p.managed ≡ false) ⊎ (Linked p a b × (rules_loop p p.rules a b false ≡ true))
    → policy_allows p a b ≡ true
unfolding policy_allows
tests-allow p a b x y z (inl unmanaged) = rw (x, y, z, unmanaged)
tests-allow p a b x y z (inr (inl mesh, h)) = ground arith
tests-allow p a b x y z (inr (inr (inl hub), h)) = ground arith
tests-allow p a b x y z (inr (inr (inr hub), h)) = ground arith

-- `policy_allows` is true exactly where the policy grants access: for two distinct devices, each with
-- an id, and in a managed network under its topology, by a rule that allows them and with no rule
-- that denies them.
pub policy_allows-Grants :
    (p : NetworkPolicy) (a b : List ℕ) → (policy_allows p a b ≡ true) ↔ Grants p a b
policy_allows-Grants p a b = (sound, complete)
  where
    sound : policy_allows p a b ≡ true → Grants p a b
    sound h =
        let (x, y, z, rest) = allows-tests p a b h in
        (
          ne_of_bytes_eq a b x,
          ne_of_bytes_eq a no_device y,
          ne_of_bytes_eq b no_device z,
          allowed_rules p a b rest,
        )

    complete : Grants p a b → policy_allows p a b ≡ true
    complete g =
        tests-allow p a b (bytes_eq_of_ne a b g.0) (bytes_eq_of_ne a no_device g.1)
          (bytes_eq_of_ne b no_device g.2) (passed_rules p a b g)
