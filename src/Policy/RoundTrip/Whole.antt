-- ===== src/Policy/RoundTrip/Whole.antt =====
-- A network policy to bytes and back, and the size of its encoding.
use lan_link.Prelude.{
  ℕ, ◌^◌, ◌≤◌, ◌<◌, ◌≡◌, refl, ap, ◌∙◌, subst, true, List, [], ◌∷◌, ◌++◌, append-nil, arith, ok,
  invalid_argument, >>=-inv, require-inv, ok_injective, length, All, length-append,
}
use lan_link.Bytes.{append_integer, length-append_integer}
use lan_link.Policy.{NetworkPolicy, GatewayNode, members_group}
use lan_link.Policy.Encode.{
  encode_network_policy, encode_hubs, encode_rules, encode_groups, encode_members, encode_gateways,
  encode_routes, is_known_topology, sizes_fit, managed_or_empty, rules_known, policy_bytes,
}
use lan_link.Policy.Decode.{
  read_policy, read_list, decode_network_policy, read_device, read_rule, read_text, read_member,
  read_gateway, read_route,
}
use lan_link.Wire.{pure, Reader, returns}
use lan_link.Wire.Laws.{get_integer_next, check_next, finished_next, next_ok}
use lan_link.Wire.Lists.{Spells, read_many_next, Spells-size}
use lan_link.Policy.RoundTrip.{
  flag-Reads, hubs_Spells, groups_Spells, rules_Spells, gateways_Spells, IsTypedRule,
}
use lan_link.Policy.RoundTrip.Members.{
  to_topology-code, topology_code-lt, members_Spells, routes_Spells, IsTypedMember, IsTypedRoute,
}

-- The sizes of the arrays and the ranges of the integers.
pub record IsTypedPolicy (p : NetworkPolicy) : Type 0 where
  pub revision_fits : p.revision < 2 ^ 64
  pub hubs_typed : All (λ d. length d ≡ 32) p.hubs
  pub rules_typed : All IsTypedRule p.rules
  pub members_typed : All IsTypedMember p.members
  pub gateways_typed : All (λ (g : GatewayNode). length g.device ≡ 32) p.gateways
  pub routes_typed : All IsTypedRoute p.routes

-- A list after its number of items.
list_next {ℓ} :
    {A : Type ℓ} (width limit piece : ℕ) (r : Reader A) (items : List A) (bytes ys : List ℕ)
    → Spells piece r items bytes
    → length items ≤ limit
    → limit < 256 ^ width
    → read_list width limit r (append_integer width (length items) ++ (bytes ++ ys))
      ≡ ok (items, ys)
unfolding read_list
list_next width limit piece r items bytes ys s few fits =
    get_integer_next invalid_argument width _ _ _ (omega (arith, few, fits))
    ∙ check_next invalid_argument _ _ _ (ground (arith, few))
    ∙ read_many_next piece r items bytes ys s

list_last {ℓ} :
    {A : Type ℓ} (width limit piece : ℕ) (r : Reader A) (items : List A) (bytes : List ℕ)
    → Spells piece r items bytes
    → length items ≤ limit
    → limit < 256 ^ width
    → read_list width limit r (append_integer width (length items) ++ bytes) ≡ ok (items, [])
list_last width limit piece r items bytes s few fits =
    subst (λ b. read_list width limit r (append_integer width (length items) ++ b) ≡ ok (items, []))
      (append-nil bytes) (list_next width limit piece r items bytes [] s few fits)

-- The parts of an encoding.
record Parts (p : NetworkPolicy) : Type 0 where
  hubs : List ℕ
  rules : List ℕ
  groups : List ℕ
  members : List ℕ
  gateways : List ℕ
  routes : List ℕ
  topology_known : is_known_topology p.topology ≡ true
  sizes : sizes_fit p ≡ true
  hubs_spelled : Spells 32 read_device p.hubs hubs
  rules_spelled : Spells 131 read_rule p.rules rules
  groups_spelled : Spells 33 read_text p.groups groups
  members_spelled : Spells 66 read_member p.members members
  gateways_spelled : Spells 33 read_gateway p.gateways gateways
  routes_spelled : Spells 70 read_route p.routes routes

abbrev parts_bytes : (p : NetworkPolicy) → Parts p → List ℕ
parts_bytes p w = policy_bytes p w.hubs w.rules w.groups w.members w.gateways w.routes

encode_network_policy-inv :
    (p : NetworkPolicy) (bytes : List ℕ)
    → IsTypedPolicy p
    → encode_network_policy p ≡ ok bytes
    → (w : Parts p) × (bytes ≡ parts_bytes p w)
unfolding encode_network_policy
encode_network_policy-inv p bytes t e =
    let known = members_group ∷ p.groups in
    let (topology_known, e1) = require-inv (is_known_topology p.topology) _ _ bytes e in
    let (sizes, e2) = require-inv (sizes_fit p) _ _ bytes e1 in
    let (_, e3) = require-inv (managed_or_empty p) _ _ bytes e2 in
    let (hubs, h, e4) = >>=-inv (encode_hubs [] p.hubs) _ bytes e3 in
    let (rules, r, e5) = >>=-inv (encode_rules p.rules) _ bytes e4 in
    let (groups, g, e6) = >>=-inv (encode_groups (members_group ∷ []) p.groups) _ bytes e5 in
    let (members, m, e7) = >>=-inv (encode_members known [] p.members) _ bytes e6 in
    let (_, e8) = require-inv (rules_known known p.rules) _ _ bytes e7 in
    let (gateways, g', e9) = >>=-inv (encode_gateways [] p.gateways) _ bytes e8 in
    let (routes, r', e10) = >>=-inv (encode_routes known p.gateways [] p.routes) _ bytes e9 in
    (
      record {
        hubs = hubs;
        rules = rules;
        groups = groups;
        members = members;
        gateways = gateways;
        routes = routes;
        topology_known = topology_known;
        sizes = sizes;
        hubs_spelled = hubs_Spells [] p.hubs hubs t.hubs_typed h;
        rules_spelled = rules_Spells p.rules rules t.rules_typed r;
        groups_spelled = groups_Spells _ p.groups groups g;
        members_spelled = members_Spells _ _ p.members members t.members_typed m;
        gateways_spelled = gateways_Spells _ p.gateways gateways t.gateways_typed g';
        routes_spelled = routes_Spells _ _ _ p.routes routes t.routes_typed r';
      },
      ok_injective _ _ bytes refl e10,
    )

sizes_fit-inv :
    (p : NetworkPolicy)
    → sizes_fit p ≡ true
    → (length p.hubs ≤ 32)
      × (length p.rules ≤ 64)
      × (length p.groups ≤ 16)
      × (length p.members ≤ 254)
      × (length p.gateways ≤ 16)
      × (length p.routes ≤ 32)
unfolding sizes_fit
sizes_fit-inv p h =
    (ground arith, ground arith, ground arith, ground arith, ground arith, ground arith)

whole_size : (p : NetworkPolicy) (w : Parts p) → length (parts_bytes p w) ≤ 32_768
whole_size p w =
    let (a, b, c, d, e, f) = sizes_fit-inv p w.sizes in
    simp (length-append, length-append_integer)
      (omega (
        arith,
        a,
        b,
        c,
        d,
        e,
        f,
        Spells-size _ _ _ _ w.hubs_spelled,
        Spells-size _ _ _ _ w.rules_spelled,
        Spells-size _ _ _ _ w.groups_spelled,
        Spells-size _ _ _ _ w.members_spelled,
        Spells-size _ _ _ _ w.gateways_spelled,
        Spells-size _ _ _ _ w.routes_spelled,
      ))

whole_read :
    (p : NetworkPolicy) (w : Parts p)
    → p.revision < 2 ^ 64
    → returns (encode_network_policy p) ≡ true
    → read_policy (parts_bytes p w) ≡ ok (p, [])
unfolding read_policy pure
whole_read p w revision encodes =
    let (a, b, c, d, e, f) = sizes_fit-inv p w.sizes in
    let topology = to_topology-code p.topology w.topology_known in
    get_integer_next invalid_argument 1 _ _ _ (omega arith)
    ∙ check_next invalid_argument _ _ _ refl
    ∙ get_integer_next invalid_argument 8 _ _ _ (omega (arith, revision))
    ∙ next_ok _ _ _ _ p.managed (flag-Reads p.managed _)
    ∙ get_integer_next invalid_argument 1 _ _ _ (topology_code-lt p.topology w.topology_known)
    ∙ next_ok _ _ _ _ p.hubs
        (list_next 1 32 32 read_device p.hubs w.hubs _ w.hubs_spelled a (omega arith))
    ∙ next_ok _ _ _ _ p.rules
        (list_next 1 64 131 read_rule p.rules w.rules _ w.rules_spelled b (omega arith))
    ∙ next_ok _ _ _ _ p.groups
        (list_next 1 16 33 read_text p.groups w.groups _ w.groups_spelled c (omega arith))
    ∙ next_ok _ _ _ _ p.members
        (list_next 2 254 66 read_member p.members w.members _ w.members_spelled d (omega arith))
    ∙ next_ok _ _ _ _ p.gateways
        (list_next 1 16 33 read_gateway p.gateways w.gateways _ w.gateways_spelled e (omega arith))
    ∙ next_ok _ _ _ _ p.routes
        (list_last 1 32 70 read_route p.routes w.routes w.routes_spelled f (omega arith))
    ∙ finished_next invalid_argument _
    ∙ check_next invalid_argument _ _ _
        (ap (λ t. returns (encode_network_policy (record p { topology = t }))) topology ∙ encodes)
    ∙ ap (λ t. ok (record p { topology = t }, [])) topology

-- A policy that was encoded, its arrays and integers of their sizes, is decoded; its encoding has no
-- more than the 32768 bytes that the decoder takes.
pub decode-encode_network_policy :
    (p : NetworkPolicy) (bytes : List ℕ)
    → IsTypedPolicy p
    → encode_network_policy p ≡ ok bytes
    → (decode_network_policy bytes ≡ ok p) × (length bytes ≤ 32_768)
unfolding decode_network_policy
decode-encode_network_policy p bytes t e =
    let (w, same) = encode_network_policy-inv p bytes t e in
    let size = whole_size p w in
    let read = whole_read p w t.revision_fits (ap returns e) in
    rw same (rw read (ground (arith, size)), size)
