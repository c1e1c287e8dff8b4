-- ===== src/Policy/Encode.antt =====
-- `encode_network_policy` of src/protocol/network_policy.cpp. Each loop writes the items that it
-- checks, and has the sets that the source fills on the way as arguments.
use lan_link.Prelude.{
  ℕ, Bool, true, false, not, ◌&&◌, ◌||◌, List, [], ◌∷◌, ◌++◌, leb, ◌==◌, if◌then◌else◌, Result, ok,
  ◌>>=◌, ◌>>◌, Exception, invalid_argument, require, length, bytes_eq,
}
use lan_link.Bytes.{append_integer}
use lan_link.Policy.{
  NetworkTopology, mesh, hub_spoke, AccessRole, administrator, restricted, PolicySubject,
  AccessRule, MemberPolicy, GatewayNode, RoutedSubnet, NetworkPolicy, no_device, members_group,
  is_empty, contains, approved_gateway,
}
use lan_link.Policy.Subnets.{private_routed_subnet, subnets_overlap}

unfoldable pub is_name : List ℕ → Bool
is_name [] = true
is_name (c ∷ cs) =
    ((leb 97 c && leb c 122)
      || (leb 65 c && leb c 90)
      || (leb 48 c && leb c 57)
      || c == 95
      || c == 45)
    && is_name cs

unfoldable pub encode_text : List ℕ → Result Exception (List ℕ)
encode_text value = do
  require (leb (length value) 32 && is_name value) invalid_argument
  ok (append_integer 1 (length value) ++ value)

unfoldable pub encode_subject : PolicySubject → Result Exception (List ℕ)
encode_subject s = do
  require (bytes_eq s.device no_device || is_empty s.group) invalid_argument
  group ← encode_text s.group
  ok (s.device ++ group)

abbrev pub flag : Bool → ℕ
flag b = if b then 1 else 0

unfoldable pub topology_code : NetworkTopology → ℕ
topology_code mesh = 0
topology_code hub_spoke = 1
topology_code (NetworkTopology.unnamed n) = n

unfoldable pub access_role_code : AccessRole → ℕ
access_role_code AccessRole.member = 0
access_role_code administrator = 1
access_role_code restricted = 2
access_role_code (AccessRole.unnamed n) = n

unfoldable pub is_mesh : NetworkTopology → Bool
is_mesh mesh = true
is_mesh _ = false

unfoldable pub is_known_topology : NetworkTopology → Bool
is_known_topology (NetworkTopology.unnamed n) = false
is_known_topology mesh = true
is_known_topology _ = true

unfoldable pub encode_hubs : List (List ℕ) → List (List ℕ) → Result Exception (List ℕ)
encode_hubs ids [] = ok []
encode_hubs ids (d ∷ hubs) = do
  require (not (bytes_eq d no_device) && not (contains ids d)) invalid_argument
  others ← encode_hubs (d ∷ ids) hubs
  ok (d ++ others)

unfoldable pub encode_rules : List AccessRule → Result Exception (List ℕ)
encode_rules [] = ok []
encode_rules (r ∷ rules) = do
  first ← encode_subject r.first
  second ← encode_subject r.second
  others ← encode_rules rules
  ok ((first ++ (second ++ append_integer 1 (flag r.allow))) ++ others)

unfoldable pub encode_groups : List (List ℕ) → List (List ℕ) → Result Exception (List ℕ)
encode_groups groups [] = ok []
encode_groups groups (g ∷ gs) = do
  require (not (is_empty g) && not (bytes_eq g members_group) && not (contains groups g))
      invalid_argument
  name ← encode_text g
  others ← encode_groups (g ∷ groups) gs
  ok (name ++ others)

unfoldable pub encode_members :
    List (List ℕ) → List (List ℕ) → List MemberPolicy → Result Exception (List ℕ)
encode_members groups ids [] = ok []
encode_members groups ids (m ∷ members) = do
  require
      (not (bytes_eq m.device no_device)
        && not (contains ids m.device)
        && leb (access_role_code m.role) 2
        && contains groups m.group)
      invalid_argument
  group ← encode_text m.group
  others ← encode_members groups (m.device ∷ ids) members
  ok ((m.device ++ (append_integer 1 (access_role_code m.role) ++ group)) ++ others)

abbrev pub known_group : List (List ℕ) → List ℕ → Bool
known_group groups g = is_empty g || contains groups g

unfoldable pub rules_known : List (List ℕ) → List AccessRule → Bool
rules_known groups [] = true
rules_known groups (r ∷ rules) =
    known_group groups r.first.group
    && known_group groups r.second.group
    && rules_known groups rules

unfoldable pub encode_gateways : List (List ℕ) → List GatewayNode → Result Exception (List ℕ)
encode_gateways ids [] = ok []
encode_gateways ids (g ∷ gateways) = do
  require (not (bytes_eq g.device no_device) && not (contains ids g.device)) invalid_argument
  others ← encode_gateways (g.device ∷ ids) gateways
  ok ((g.device ++ append_integer 1 (flag g.approved)) ++ others)

unfoldable pub overlaps_none : RoutedSubnet → List RoutedSubnet → Bool
overlaps_none r [] = true
overlaps_none r (s ∷ earlier) =
    not (subnets_overlap r.address r.prefix s.address s.prefix) && overlaps_none r earlier

unfoldable pub encode_routes :
    List (List ℕ)
    → List GatewayNode
    → List RoutedSubnet
    → List RoutedSubnet
    → Result Exception (List ℕ)
encode_routes groups gateways earlier [] = ok []
encode_routes groups gateways earlier (r ∷ routes) = do
  require (private_routed_subnet r.address r.prefix && known_group groups r.group) invalid_argument
  require (approved_gateway gateways r.gateway) invalid_argument
  require (overlaps_none r earlier) invalid_argument
  group ← encode_text r.group
  others ← encode_routes groups gateways (r ∷ earlier) routes
  ok ((r.gateway ++ (append_integer 4 r.address ++ (append_integer 1 r.prefix ++ group))) ++ others)

-- The tests before the loops.
unfoldable pub sizes_fit : NetworkPolicy → Bool
sizes_fit p =
    leb (length p.hubs) 32
    && leb (length p.rules) 64
    && leb (length p.groups) 16
    && leb (length p.members) 254
    && leb (length p.gateways) 16
    && leb (length p.routes) 32

unfoldable pub managed_or_empty : NetworkPolicy → Bool
managed_or_empty p =
    p.managed
    || (is_mesh p.topology
        && is_empty p.hubs
        && is_empty p.rules
        && is_empty p.groups
        && is_empty p.members
        && is_empty p.gateways
        && is_empty p.routes)

-- The lists, each after the number of its items.
abbrev pub policy_bytes :
    NetworkPolicy → List ℕ → List ℕ → List ℕ → List ℕ → List ℕ → List ℕ → List ℕ
policy_bytes p hubs rules groups members gateways routes =
    append_integer 1 1
    ++ (append_integer 8 p.revision
        ++ (append_integer 1 (flag p.managed)
            ++ (append_integer 1 (topology_code p.topology)
                ++ (append_integer 1 (length p.hubs)
                    ++ (hubs
                        ++ (append_integer 1 (length p.rules)
                            ++ (rules
                                ++ (append_integer 1 (length p.groups)
                                    ++ (groups
                                        ++ (append_integer 2 (length p.members)
                                            ++ (members
                                                ++ (append_integer 1 (length p.gateways)
                                                    ++ (gateways
                                                        ++ (append_integer 1 (length p.routes)
                                                            ++ routes))))))))))))))

unfoldable pub encode_network_policy : NetworkPolicy → Result Exception (List ℕ)
encode_network_policy p = do
  require (is_known_topology p.topology) invalid_argument
  require (sizes_fit p) invalid_argument
  require (managed_or_empty p) invalid_argument
  hubs ← encode_hubs [] p.hubs
  rules ← encode_rules p.rules
  groups ← encode_groups (members_group ∷ []) p.groups
  members ← encode_members (members_group ∷ p.groups) [] p.members
  require (rules_known (members_group ∷ p.groups) p.rules) invalid_argument
  gateways ← encode_gateways [] p.gateways
  routes ← encode_routes (members_group ∷ p.groups) p.gateways [] p.routes
  ok (policy_bytes p hubs rules groups members gateways routes)
