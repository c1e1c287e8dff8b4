-- ===== src/Policy/CodecTests.antt =====
-- Runs of the encoder and the decoder of network policies.
use lan_link.Prelude.{ℕ, ◌≤◌, ◌≡◌, refl, true, List, [], ◌∷◌, ◌++◌, arith, ok, length, replicate}
use lan_link.Policy.{NetworkPolicy, PolicySubject, hub_spoke, restricted}
use lan_link.Policy.Subnets.{private_routed_subnet, subnet_contains}
use lan_link.Policy.Encode.{
  encode_network_policy, is_known_topology, sizes_fit, managed_or_empty, is_mesh, encode_hubs,
  encode_rules, encode_groups, encode_members, encode_gateways, encode_routes, rules_known,
  encode_subject, encode_text, is_name, policy_bytes, overlaps_none, access_role_code,
}
use lan_link.Bytes.{append_integer}
use lan_link.Policy.Decode.{decode_network_policy}
use lan_link.Policy.RoundTrip.Whole.{IsTypedPolicy, decode-encode_network_policy}

abbrev everybody : PolicySubject
everybody = record { device = replicate 32 0; group = [] }

-- One hub, which is the gateway of 10.1.0.0/16 for the group "a".
abbrev branch : NetworkPolicy
branch = record {
  revision = 7;
  managed = true;
  topology = hub_spoke;
  hubs = replicate 32 1 ∷ [];
  rules = record { first = everybody; second = everybody; allow = true } ∷ [];
  groups = (97 ∷ []) ∷ [];
  members = record { device = replicate 32 2; role = restricted; group = 97 ∷ [] } ∷ [];
  gateways = record { device = replicate 32 1; approved = true } ∷ [];
  routes =
      record { gateway = replicate 32 1; address = 0x0a01_0000; prefix = 16; group = 97 ∷ [] } ∷ [];
}

abbrev branch_bytes : List ℕ
branch_bytes =
    policy_bytes branch (replicate 32 1 ++ [])
      (((replicate 32 0 ++ 0 ∷ []) ++ ((replicate 32 0 ++ 0 ∷ []) ++ 1 ∷ [])) ++ [])
      ((1 ∷ 97 ∷ []) ++ []) ((replicate 32 2 ++ 2 ∷ 1 ∷ 97 ∷ []) ++ [])
      ((replicate 32 1 ++ 1 ∷ []) ++ [])
      ((replicate 32 1 ++ 10 ∷ 1 ∷ 0 ∷ 0 ∷ 16 ∷ 1 ∷ 97 ∷ []) ++ [])

branch_encoded : encode_network_policy branch ≡ ok branch_bytes
unfolding encode_network_policy is_known_topology sizes_fit managed_or_empty is_mesh encode_hubs
    encode_rules encode_groups encode_members encode_gateways encode_routes rules_known
    encode_subject encode_text is_name overlaps_none access_role_code private_routed_subnet
    subnet_contains append_integer
branch_encoded = refl

branch_IsTyped : IsTypedPolicy branch
branch_IsTyped = record {
  revision_fits = omega arith;
  hubs_typed = (refl, tt);
  rules_typed = ((refl, refl), tt);
  members_typed = ((refl, tt), tt);
  gateways_typed = (refl, tt);
  routes_typed = ((refl, omega arith, omega arith), tt);
}

decode-encode_network_policy_example :
    (decode_network_policy branch_bytes ≡ ok branch) × (length branch_bytes ≤ 32_768)
decode-encode_network_policy_example =
    decode-encode_network_policy branch branch_bytes branch_IsTyped branch_encoded
