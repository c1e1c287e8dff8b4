-- ===== src/Policy.antt =====
-- include/lanlink/protocol/network_policy.hpp and the access decisions of
-- src/protocol/network_policy.cpp. A device id is its 32 bytes, a group its characters' codes.
pub mod Subnets
pub mod Access
pub mod Routes
pub mod Encode
pub mod Decode
pub mod RoundTrip
mod Tests
mod CodecTests
use lan_link.Prelude.{
  ℕ, ◌+◌, ◌-◌, ◌*◌, ◌/◌, ◌%◌, ◌^◌, ◌≤◌, ◌<◌, ◌≡◌, ◌≢◌, ◌↔◌, ◌⊎◌, ◌∙◌, Bool, true, false, not, ◌&&◌,
  ◌||◌, List, [], ◌∷◌, ◌++◌, ◌==◌, ==_iff, if◌then◌else◌, ◌>>=◌, ◌>>◌, >>=-inv, replicate, bytes_eq,
  bytes_eq→eq,
}

-- Any byte may be cast to the enumeration types: `unnamed` has those with no enumerator.
pub data NetworkTopology : Type 0 where
  mesh hub_spoke : NetworkTopology
  unnamed : ℕ → NetworkTopology

pub data AccessRole : Type 0 where
  member administrator restricted : AccessRole
  unnamed : ℕ → AccessRole

pub record PolicySubject : Type 0 where
  pub device : List ℕ
  pub group : List ℕ

pub record AccessRule : Type 0 where
  pub first : PolicySubject
  pub second : PolicySubject
  pub allow : Bool

pub record MemberPolicy : Type 0 where
  pub device : List ℕ
  pub role : AccessRole
  pub group : List ℕ

pub record GatewayNode : Type 0 where
  pub device : List ℕ
  pub approved : Bool

pub record RoutedSubnet : Type 0 where
  pub gateway : List ℕ
  pub address : ℕ
  pub prefix : ℕ
  pub group : List ℕ

pub record NetworkPolicy : Type 0 where
  pub revision : ℕ
  pub managed : Bool
  pub topology : NetworkTopology
  pub hubs : List (List ℕ)
  pub rules : List AccessRule
  pub groups : List (List ℕ)
  pub members : List MemberPolicy
  pub gateways : List GatewayNode
  pub routes : List RoutedSubnet

-- `auth::DeviceId{}`
abbrev pub no_device : List ℕ
no_device = replicate 32 0

-- "members"
abbrev pub members_group : List ℕ
members_group = 109 ∷ 101 ∷ 109 ∷ 98 ∷ 101 ∷ 114 ∷ 115 ∷ []

abbrev pub is_empty {ℓ} : {A : Type ℓ} → List A → Bool
is_empty [] = true
is_empty (x ∷ xs) = false

-- `std::find` among byte sequences.
abbrev pub contains : List (List ℕ) → List ℕ → Bool
contains [] d = false
contains (x ∷ xs) d = bytes_eq x d || contains xs d

abbrev pub is_hub_spoke : NetworkTopology → Bool
is_hub_spoke hub_spoke = true
is_hub_spoke _ = false

abbrev pub is_restricted : AccessRole → Bool
is_restricted restricted = true
is_restricted _ = false

pub find_role : List MemberPolicy → List ℕ → AccessRole
find_role [] d = AccessRole.member
find_role (m ∷ ms) d = if bytes_eq m.device d then m.role else find_role ms d

unfoldable pub policy_role : NetworkPolicy → List ℕ → AccessRole
unfolding find_role
policy_role p d = find_role p.members d

find_group : List MemberPolicy → List ℕ → List ℕ
find_group [] d = members_group
find_group (m ∷ ms) d = if bytes_eq m.device d then m.group else find_group ms d

unfoldable pub policy_group : NetworkPolicy → List ℕ → List ℕ
unfolding find_group
policy_group p d = find_group p.members d

unfoldable pub matches : NetworkPolicy → PolicySubject → List ℕ → Bool
matches p s d =
    if not (bytes_eq s.device no_device)
    then bytes_eq s.device d
    else is_empty s.group || bytes_eq s.group (policy_group p d)

-- The test of a rule for a pair of devices, in either order.
unfoldable pub rule_matches : NetworkPolicy → AccessRule → List ℕ → List ℕ → Bool
rule_matches p rule a b =
    (matches p rule.first a && matches p rule.second b)
    || (matches p rule.first b && matches p rule.second a)

-- `for (const auto& rule : p.rules)` with the variable `allowed`.
unfoldable pub rules_loop : NetworkPolicy → List AccessRule → List ℕ → List ℕ → Bool → Bool
rules_loop p [] a b allowed = allowed
rules_loop p (rule ∷ rules) a b allowed =
    let allowing = rules_loop p rules a b true in
    let passing = rules_loop p rules a b allowed in
    if rule_matches p rule a b then (if not rule.allow then false else allowing) else passing

unfoldable pub policy_allows : NetworkPolicy → List ℕ → List ℕ → Bool
policy_allows p a b =
    if bytes_eq a b || bytes_eq a no_device || bytes_eq b no_device
    then false
    else if not p.managed
    then true
    else if is_hub_spoke p.topology && not (contains p.hubs a) && not (contains p.hubs b)
    then false
    else rules_loop p p.rules a b false

unfoldable pub policy_fanout_allows : NetworkPolicy → List ℕ → List ℕ → Bool
policy_fanout_allows p a b =
    policy_allows p a b
    && (not p.managed
        || (not (is_restricted (policy_role p a)) && not (is_restricted (policy_role p b))))

abbrev pub approved_gateway : List GatewayNode → List ℕ → Bool
approved_gateway [] d = false
approved_gateway (g ∷ gs) d = (bytes_eq g.device d && g.approved) || approved_gateway gs d

unfoldable pub route_allows : NetworkPolicy → RoutedSubnet → List ℕ → Bool
route_allows p r device =
    p.managed
    && not (is_restricted (policy_role p device))
    && (is_empty r.group || bytes_eq (policy_group p device) r.group)
    && policy_allows p device r.gateway
    && approved_gateway p.gateways r.gateway
