-- ===== src/Policy/RoundTrip/Members.antt =====
-- The members and the routes of a network policy, to bytes and back.
use lan_link.Prelude.{
  ℕ, ◌^◌, ◌≤◌, ◌<◌, ◌≡◌, refl, ap, ◌∙◌, true, not, ◌&&◌, List, [], ◌∷◌, ◌++◌, append_assoc, arith,
  leb, ok, invalid_argument, >>=-inv, require-inv, length, All, length-append, bytes_eq,
}
use lan_link.Bytes.{append_integer, length-append_integer}
use lan_link.Policy.{
  NetworkTopology, mesh, AccessRole, administrator, MemberPolicy, RoutedSubnet, GatewayNode,
  no_device, contains, approved_gateway,
}
use lan_link.Policy.Subnets.{private_routed_subnet}
use lan_link.Policy.Encode.{
  encode_text, topology_code, access_role_code, is_known_topology, encode_members, encode_routes,
  known_group, overlaps_none,
}
use lan_link.Policy.Decode.{
  to_topology, to_access_role, read_device, read_text, read_member, read_route,
}
use lan_link.Wire.{pure}
use lan_link.Wire.Laws.{get_integer_next, next_ok}
use lan_link.Wire.Lists.{Spells, no_items, item}
use lan_link.Policy.RoundTrip.{Reads, device_Reads, text_Reads}

pub to_topology-code :
    (t : NetworkTopology) → is_known_topology t ≡ true → to_topology (topology_code t) ≡ t
unfolding to_topology topology_code is_known_topology
to_topology-code (NetworkTopology.unnamed n) h = cc
to_topology-code mesh h = refl
to_topology-code t h = refl

pub topology_code-lt : (t : NetworkTopology) → is_known_topology t ≡ true → topology_code t < 256
unfolding topology_code is_known_topology
topology_code-lt (NetworkTopology.unnamed n) h = cc
topology_code-lt mesh h = omega arith
topology_code-lt t h = omega arith

-- `unnamed` holds none of the codes that an enumerator has.
abbrev pub IsNamed : AccessRole → Type 0
IsNamed (AccessRole.unnamed n) = 2 < n
IsNamed administrator = Unit {0}
IsNamed _ = Unit {0}

to_access_role-code :
    (r : AccessRole)
    → IsNamed r
    → leb (access_role_code r) 2 ≡ true
    → to_access_role (access_role_code r) ≡ r
unfolding to_access_role access_role_code
to_access_role-code (AccessRole.unnamed n) h small = absurd (ground (arith, h, small))
to_access_role-code administrator h small = refl
to_access_role-code r h small = refl

-- The arrays are of their sizes.
abbrev pub IsTypedMember : MemberPolicy → Type 0
IsTypedMember m = (length m.device ≡ 32) × IsNamed m.role

abbrev pub IsTypedRoute : RoutedSubnet → Type 0
IsTypedRoute r = (length r.gateway ≡ 32) × (r.address < 2 ^ 32) × (r.prefix < 256)

member_Reads :
    (m : MemberPolicy) (group : List ℕ)
    → IsTypedMember m
    → leb (access_role_code m.role) 2 ≡ true
    → encode_text m.group ≡ ok group
    → Reads read_member m (m.device ++ (append_integer 1 (access_role_code m.role) ++ group))
      × (length (m.device ++ (append_integer 1 (access_role_code m.role) ++ group)) ≤ 66)
unfolding read_member pure
member_Reads m group t small e =
    let role = append_integer 1 (access_role_code m.role) in
    let (reads, size) = text_Reads m.group group e in
    let same = to_access_role-code m.role t.1 small in
    let fits : access_role_code m.role < 256 = ground (arith, small) in
    (
      (λ ys.
          let form : (m.device ++ (role ++ group)) ++ ys ≡ m.device ++ (role ++ (group ++ ys)) =
            simp append_assoc in
          ap read_member form
          ∙ next_ok read_device _ _ _ m.device (device_Reads m.device t.0 (role ++ (group ++ ys)))
          ∙ get_integer_next invalid_argument 1 _ _ _ fits
          ∙ next_ok read_text _ _ _ m.group (reads ys)
          ∙ rw same refl),
      rw (length-append m.device (role ++ group), length-append role group)
          (omega (arith, t.0, size, length-append_integer 1 (access_role_code m.role))),
    )

pub members_Spells :
    (groups ids : List (List ℕ)) (members : List MemberPolicy) (bytes : List ℕ)
    → All IsTypedMember members
    → encode_members groups ids members ≡ ok bytes
    → Spells 66 read_member members bytes
unfolding encode_members
members_Spells groups ids [] bytes t e = no_items (cc e)
members_Spells groups ids (m ∷ members) bytes t e =
    let (checked, e1) =
      require-inv
        (not (bytes_eq m.device no_device)
          && not (contains ids m.device)
          && leb (access_role_code m.role) 2
          && contains groups m.group)
        _ _ bytes e in
    let (group, encoded, e2) = >>=-inv (encode_text m.group) _ bytes e1 in
    let (others, more, e3) = >>=-inv (encode_members groups (m.device ∷ ids) members) _ bytes e2 in
    let small : leb (access_role_code m.role) 2 ≡ true = ground (arith, checked) in
    let (reads, size) = member_Reads m group t.0 small encoded in
    item _ others reads size (cc e3)
      (members_Spells groups (m.device ∷ ids) members others t.1 more)

route_Reads :
    (r : RoutedSubnet) (group : List ℕ)
    → IsTypedRoute r
    → encode_text r.group ≡ ok group
    → Reads read_route r
        (r.gateway ++ (append_integer 4 r.address ++ (append_integer 1 r.prefix ++ group)))
      × (length (r.gateway ++ (append_integer 4 r.address ++ (append_integer 1 r.prefix ++ group)))
          ≤ 70)
unfolding read_route pure
route_Reads r group t e =
    let address = append_integer 4 r.address in
    let prefix = append_integer 1 r.prefix in
    let (reads, size) = text_Reads r.group group e in
    (
      (λ ys.
          let form : (r.gateway ++ (address ++ (prefix ++ group))) ++ ys
              ≡ r.gateway ++ (address ++ (prefix ++ (group ++ ys))) =
            simp append_assoc in
          ap read_route form
          ∙ next_ok read_device _ _ _ r.gateway
              (device_Reads r.gateway t.0 (address ++ (prefix ++ (group ++ ys))))
          ∙ get_integer_next invalid_argument 4 _ _ _ (omega (arith, t.1))
          ∙ get_integer_next invalid_argument 1 _ _ _ (omega (arith, t.2))
          ∙ next_ok read_text _ _ _ r.group (reads ys)),
      rw
          (
            length-append r.gateway (address ++ (prefix ++ group)),
            length-append address (prefix ++ group),
            length-append prefix group,
          )
          (omega (
            arith,
            t.0,
            size,
            length-append_integer 4 r.address,
            length-append_integer 1 r.prefix,
          )),
    )

pub routes_Spells :
    (groups : List (List ℕ)) (gateways : List GatewayNode) (earlier routes : List RoutedSubnet)
    (bytes : List ℕ)
    → All IsTypedRoute routes
    → encode_routes groups gateways earlier routes ≡ ok bytes
    → Spells 70 read_route routes bytes
unfolding encode_routes
routes_Spells groups gateways earlier [] bytes t e = no_items (cc e)
routes_Spells groups gateways earlier (r ∷ routes) bytes t e =
    let (_, e1) =
      require-inv (private_routed_subnet r.address r.prefix && known_group groups r.group) _ _ bytes
        e in
    let (_, e2) = require-inv (approved_gateway gateways r.gateway) _ _ bytes e1 in
    let (_, e3) = require-inv (overlaps_none r earlier) _ _ bytes e2 in
    let (group, encoded, e4) = >>=-inv (encode_text r.group) _ bytes e3 in
    let (others, more, e5) =
      >>=-inv (encode_routes groups gateways (r ∷ earlier) routes) _ bytes e4 in
    let (reads, size) = route_Reads r group t.0 encoded in
    item _ others reads size (cc e5)
      (routes_Spells groups gateways (r ∷ earlier) routes others t.1 more)
