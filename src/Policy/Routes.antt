-- ===== src/Policy/Routes.antt =====
-- Which routes `route_allows` opens to a device.
use lan_link.Prelude.{
  ℕ, ◌≡◌, ◌≢◌, ◌↔◌, ◌⊎◌, inl, inr, refl, true, false, ◌||◌, List, [], ◌∷◌, arith, Bool-cases,
  bytes_eq, bytes_eq→eq, bytes_eq_iff, ne_of_bytes_eq,
}
use lan_link.Policy.{
  NetworkPolicy, MemberPolicy, GatewayNode, RoutedSubnet, AccessRole, member, administrator,
  restricted, unnamed, is_restricted, is_empty, find_role, policy_role, policy_group,
  approved_gateway, route_allows,
}
use lan_link.Policy.Access.{Grants, policy_allows-Grants}

-- The first entry of the device among the members makes it restricted.
abbrev pub SomeRestricted : List MemberPolicy → List ℕ → Type 0
SomeRestricted [] d = ⊥
SomeRestricted (m ∷ ms) d =
    ((m.device ≡ d) × (m.role ≡ restricted)) ⊎ ((m.device ≢ d) × SomeRestricted ms d)

-- Some entry of the device among the gateways is approved.
abbrev pub SomeApproved : List GatewayNode → List ℕ → Type 0
SomeApproved [] d = ⊥
SomeApproved (g ∷ gs) d = ((g.device ≡ d) × (g.approved ≡ true)) ⊎ SomeApproved gs d

-- The route is for every device, or for those of one group, and the device is in it.
abbrev pub ForDevice : NetworkPolicy → RoutedSubnet → List ℕ → Type 0
ForDevice p r d = (r.group ≡ []) ⊎ (policy_group p d ≡ r.group)

restricted-named : (role : AccessRole) → (is_restricted role ≡ true) ↔ (role ≡ restricted)
restricted-named member = (λ h. cc h, λ h. cc h)
restricted-named administrator = (λ h. cc h, λ h. cc h)
restricted-named restricted = (λ h. refl, λ h. refl)
restricted-named (unnamed code) = (λ h. cc h, λ h. cc h)

find_role-SomeRestricted :
    (ms : List MemberPolicy) (d : List ℕ)
    → (is_restricted (find_role ms d) ≡ true) ↔ SomeRestricted ms d
unfolding find_role
find_role-SomeRestricted [] d = (λ h. cc h, λ h. elim h [ ])
find_role-SomeRestricted (m ∷ ms) d = elim (Bool-cases (bytes_eq m.device d)) [
  | inl same ↦ rw same (
    λ h. inl (bytes_eq→eq _ _ same, (restricted-named m.role).0 h),
    elim [
      | inl (_, h) ↦ (restricted-named m.role).1 h
      | inr (apart, _) ↦ absurd (apart (bytes_eq→eq _ _ same))
    ],
  )
  | inr other ↦ rw other (
    λ h. inr (ne_of_bytes_eq _ _ other, (find_role-SomeRestricted ms d).0 h),
    elim [
      | inl (same, _) ↦ absurd (ne_of_bytes_eq _ _ other same)
      | inr (_, h) ↦ (find_role-SomeRestricted ms d).1 h
    ],
  )
]

approved_gateway-SomeApproved :
    (gs : List GatewayNode) (d : List ℕ) → (approved_gateway gs d ≡ true) ↔ SomeApproved gs d
approved_gateway-SomeApproved [] d = (λ h. cc h, λ h. elim h [ ])
approved_gateway-SomeApproved (g ∷ gs) d = (
  λ h. ground (arith, bytes_eq_iff g.device d, approved_gateway-SomeApproved gs d),
  elim [
    | inl (same, approved) ↦ rw ((bytes_eq_iff g.device d).1 same, approved) refl
    | inr later ↦ rw ((approved_gateway-SomeApproved gs d).1 later) (ground arith)
  ],
)

is_empty-nil : (xs : List ℕ) → (is_empty xs ≡ true) ↔ (xs ≡ [])
is_empty-nil [] = (λ h. refl, λ h. refl)
is_empty-nil (x ∷ xs) = (λ h. cc h, λ h. cc h)

ForDevice-iff :
    (p : NetworkPolicy) (r : RoutedSubnet) (d : List ℕ)
    → ((is_empty r.group || bytes_eq (policy_group p d) r.group) ≡ true) ↔ ForDevice p r d
ForDevice-iff p r d = (
  λ h. ground (arith, is_empty-nil r.group, bytes_eq_iff (policy_group p d) r.group),
  elim [
    | inl every ↦ rw ((is_empty-nil r.group).1 every) refl
    | inr same ↦ rw ((bytes_eq_iff (policy_group p d) r.group).1 same) (ground arith)
  ],
)

not_restricted :
    (p : NetworkPolicy) (d : List ℕ)
    → (is_restricted (policy_role p d) ≡ false) ↔ ¬ SomeRestricted p.members d
unfolding policy_role
not_restricted p d = (
  λ h s. cc (h, (find_role-SomeRestricted p.members d).1 s),
  λ h. elim (Bool-cases (is_restricted (find_role p.members d))) [
    | inl held ↦ absurd (h ((find_role-SomeRestricted p.members d).0 held))
    | inr free ↦ free
  ],
)

-- A route is open to a device exactly if the network is managed, the policy grants the device to reach
-- the gateway, the device's entry among the members does not make it restricted, the route is for every
-- device or for the device's group, and the gateway is approved.
pub route_allows-Grants :
    (p : NetworkPolicy) (r : RoutedSubnet) (device : List ℕ)
    → (route_allows p r device ≡ true) ↔ (
        (p.managed ≡ true)
        × Grants p device r.gateway
        × ¬ SomeRestricted p.members device
        × ForDevice p r device
        × SomeApproved p.gateways r.gateway)
unfolding route_allows
route_allows-Grants p r device = (
  λ h. (
    ground arith,
    (policy_allows-Grants p device r.gateway).0 (ground arith),
    (not_restricted p device).0 (ground arith),
    (ForDevice-iff p r device).0 (ground arith),
    (approved_gateway-SomeApproved p.gateways r.gateway).0 (ground arith),
  ),
  λ (managed, granted, free, group, approved).
      rw
        (
          (policy_allows-Grants p device r.gateway).1 granted,
          (not_restricted p device).1 free,
          (ForDevice-iff p r device).1 group,
          (approved_gateway-SomeApproved p.gateways r.gateway).1 approved,
          managed,
        )
        refl,
)
