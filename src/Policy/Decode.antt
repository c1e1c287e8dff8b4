-- ===== src/Policy/Decode.antt =====
-- `decode_network_policy` of src/protocol/network_policy.cpp: it reads the fields, and the encoder
-- checks them.
use lan_link.Prelude.{
  ℕ, Bool, not, List, [], ◌∷◌, ltb, leb, ◌==◌, if◌then◌else◌, Result, throw, Exception,
  invalid_argument, length, cast,
}
use lan_link.Policy.{
  NetworkTopology, mesh, hub_spoke, AccessRole, administrator, restricted, PolicySubject,
  AccessRule, MemberPolicy, GatewayNode, RoutedSubnet, NetworkPolicy,
}
use lan_link.Policy.Encode.{encode_network_policy, topology_code, access_role_code}
use lan_link.Wire.{
  Reader, ◌>>=◌, ◌>>◌, pure, check, read_bytes, get_integer, finished, value_of, read_many, returns,
}

abbrev pub get : ℕ → Reader ℕ
get = get_integer invalid_argument

abbrev pub demand_valid : Bool → Reader (Unit {0})
demand_valid = check invalid_argument

unfoldable pub to_topology : ℕ → NetworkTopology
unfolding cast topology_code
to_topology = cast topology_code NetworkTopology.unnamed (mesh ∷ hub_spoke ∷ [])

unfoldable pub to_access_role : ℕ → AccessRole
unfolding cast access_role_code
to_access_role =
    cast access_role_code AccessRole.unnamed (AccessRole.member ∷ administrator ∷ restricted ∷ [])

unfoldable pub read_device : Reader (List ℕ)
read_device = read_bytes invalid_argument 32

unfoldable pub read_text : Reader (List ℕ)
read_text = do size ← get 1; read_bytes invalid_argument size

unfoldable pub read_subject : Reader PolicySubject
read_subject = do
  device ← read_device
  group ← read_text
  pure (record { device = device; group = group })

-- A byte that is 0 or 1.
unfoldable pub read_flag : Reader Bool
read_flag = do f ← get 1; demand_valid (leb f 1); pure (not (f == 0))

unfoldable pub read_rule : Reader AccessRule
read_rule = do
  first ← read_subject
  second ← read_subject
  allow ← read_flag
  pure (record { first = first; second = second; allow = allow })

unfoldable pub read_member : Reader MemberPolicy
read_member = do
  device ← read_device
  role ← get 1
  group ← read_text
  pure (record { device = device; role = to_access_role role; group = group })

unfoldable pub read_gateway : Reader GatewayNode
read_gateway = do
  device ← read_device
  approved ← read_flag
  pure (record { device = device; approved = approved })

unfoldable pub read_route : Reader RoutedSubnet
read_route = do
  gateway ← read_device
  address ← get 4
  prefix ← get 1
  group ← read_text
  pure (record { gateway = gateway; address = address; prefix = prefix; group = group })

-- The number of items, which is limited, and the items.
unfoldable pub read_list {ℓ} : {A : Type ℓ} → ℕ → ℕ → Reader A → Reader (List A)
read_list width limit r = do count ← get width; demand_valid (leb count limit); read_many count r

unfoldable pub read_policy : Reader NetworkPolicy
read_policy = do
  version ← get 1
  demand_valid (version == 1)
  revision ← get 8
  managed ← read_flag
  topology ← get 1
  hubs ← read_list 1 32 read_device
  rules ← read_list 1 64 read_rule
  groups ← read_list 1 16 read_text
  members ← read_list 2 254 read_member
  gateways ← read_list 1 16 read_gateway
  routes ← read_list 1 32 read_route
  finished invalid_argument
  let p : NetworkPolicy = record {
    revision = revision;
    managed = managed;
    topology = to_topology topology;
    hubs = hubs;
    rules = rules;
    groups = groups;
    members = members;
    gateways = gateways;
    routes = routes;
  }
  demand_valid (returns (encode_network_policy p))
  pure p

unfoldable pub decode_network_policy : List ℕ → Result Exception NetworkPolicy
decode_network_policy payload =
    if ltb 32_768 (length payload) then throw invalid_argument else value_of (read_policy payload)
