-- ===== src/Policy/Tests.antt =====
-- Runs of the access decisions, and the theorems at concrete policies.
use lan_link.Prelude.{ℕ, ◌≤◌, ◌<◌, ◌≡◌, ◌↔◌, ◌⊎◌, refl, true, false, List, [], ◌∷◌, replicate}
use lan_link.Policy.{
  NetworkPolicy, PolicySubject, RoutedSubnet, mesh, policy_role, policy_group, policy_allows,
  route_allows, rules_loop, rule_matches, matches,
}
use lan_link.Policy.Access.{Grants, policy_allows_comm, policy_allows-Grants}
use lan_link.Policy.Routes.{route_allows-Grants, SomeRestricted, SomeApproved, ForDevice}
use lan_link.Policy.Subnets.{
  subnet_contains, subnets_overlap, private_routed_subnet, subnets_overlap_iff,
  private_routed_subnet-private,
}

abbrev device : ℕ → List ℕ
device n = replicate 32 n

abbrev everyone : PolicySubject
everyone = record { device = replicate 32 0; group = [] }

abbrev only : ℕ → PolicySubject
only n = record { device = device n; group = [] }

-- Everyone may talk, but for devices 1 and 3; device 2 is the approved gateway.
abbrev office : NetworkPolicy
office = record {
  revision = 4;
  managed = true;
  topology = mesh;
  hubs = [];
  rules =
      record { first = everyone; second = everyone; allow = true }
      ∷ record { first = only 1; second = only 3; allow = false }
      ∷ [];
  groups = [];
  members = [];
  gateways = record { device = device 2; approved = true } ∷ [];
  routes = [];
}

abbrev lab : RoutedSubnet
lab = record { gateway = device 2; address = 0x0a01_0000; prefix = 16; group = [] }

office_allows : policy_allows office (device 1) (device 2) ≡ true
unfolding policy_allows rules_loop rule_matches matches policy_group
office_allows = refl

office_denies : policy_allows office (device 3) (device 1) ≡ false
unfolding policy_allows rules_loop rule_matches matches policy_group
office_denies = refl

policy_allows-Grants_example :
    (policy_allows office (device 1) (device 2) ≡ true) ↔ Grants office (device 1) (device 2)
policy_allows-Grants_example = policy_allows-Grants office (device 1) (device 2)

lab_allows : route_allows office lab (device 1) ≡ true
unfolding route_allows policy_allows rules_loop rule_matches matches policy_group policy_role
lab_allows = refl

route_allows-Grants_example : (route_allows office lab (device 1) ≡ true) ↔ (
    (office.managed ≡ true)
    × Grants office (device 1) lab.gateway
    × ¬ SomeRestricted office.members (device 1)
    × ForDevice office lab (device 1)
    × SomeApproved office.gateways lab.gateway)
route_allows-Grants_example = route_allows-Grants office lab (device 1)

-- Without a managed network no route is open.
lab_closed : route_allows (record office { managed = false }) lab (device 1) ≡ false
unfolding route_allows
lab_closed = refl

lab_canonical : subnet_contains 0x0a01_0000 16 0x0a01_0000 ≡ true
unfolding subnet_contains
lab_canonical = refl

desk_canonical : subnet_contains 0x0a01_0200 24 0x0a01_0200 ≡ true
unfolding subnet_contains
desk_canonical = refl

subnets_overlap_iff_example : (subnets_overlap 0x0a01_0000 16 0x0a01_0200 24 ≡ true) ↔ (
    (x : ℕ) × (subnet_contains 0x0a01_0000 16 x ≡ true) × (subnet_contains 0x0a01_0200 24 x ≡ true))
subnets_overlap_iff_example =
    subnets_overlap_iff 0x0a01_0000 16 0x0a01_0200 24 lab_canonical desk_canonical

lab_private : private_routed_subnet 0x0a01_0000 16 ≡ true
unfolding private_routed_subnet
lab_private = refl

private_routed_subnet-private_example :
    ((0x0a00_0000 ≤ 0x0a01_0000) × (0x0a01_0000 < 0x0b00_0000))
    ⊎ (((0xac10_0000 ≤ 0x0a01_0000) × (0x0a01_0000 < 0xac20_0000))
        ⊎ ((0xc0a8_0000 ≤ 0x0a01_0000) × (0x0a01_0000 < 0xc0a9_0000)))
private_routed_subnet-private_example =
    private_routed_subnet-private 0x0a01_0000 16 0x0a01_0000 lab_private lab_canonical

policy_allows_comm_example :
    policy_allows office (device 1) (device 2) ≡ policy_allows office (device 2) (device 1)
policy_allows_comm_example = policy_allows_comm office (device 1) (device 2)
