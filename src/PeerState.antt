-- ===== src/PeerState.antt =====
-- The state of a network's peers, of include/lanlink/protocol/network_messages.hpp, with its encoder
-- and its decoder in src/protocol/network_messages.cpp, and the signed keys of
-- include/lanlink/auth/device_keys.hpp.
pub mod RoundTrip
pub mod Valid
mod Tests
use lan_link.Prelude.{
  ℕ, zero, suc, ◌+◌, ◌-◌, ◌%◌, ◌^◌, Bool, true, false, not, ◌||◌, Option, none, some, List, [], ◌∷◌,
  ◌++◌, ltb, leb, ◌==◌, if◌then◌else◌, Result, ok, throw, Exception, invalid_argument, length,
}
use lan_link.Bytes.{append_integer}
use lan_link.NetworkMessages.{max_network_peer_entries}
use lan_link.NetworkMessages.Encode.{is_zero}
use lan_link.NetworkMessages.Decode.{read_array, read_number, demand}
use lan_link.Policy.{NetworkPolicy, contains}
use lan_link.Policy.Encode.{encode_network_policy}
use lan_link.Policy.Decode.{decode_network_policy}
use lan_link.Wire.{Reader, ◌>>=◌, ◌>>◌, pure, read_many, value_of}

pub record SignedDeviceKey : Type 0 where
  pub identity_public_key : List ℕ
  pub encryption_public_key : List ℕ
  pub client_nonce : List ℕ
  pub server_nonce : List ℕ
  pub signature : List ℕ

pub record NetworkPeer : Type 0 where
  pub device_id : List ℕ
  pub ipv4_address : ℕ
  pub signed_key : Option SignedDeviceKey

pub record NetworkPeerState : Type 0 where
  pub network_id : List ℕ
  pub revision : ℕ
  pub subnet_address : ℕ
  pub prefix_length : ℕ
  pub own_address : ℕ
  pub peers : List NetworkPeer
  pub owner_device_id : List ℕ
  pub key_epoch : ℕ
  pub policy : Option NetworkPolicy

abbrev pub peer_pool_first : ℕ
peer_pool_first = 0x0a40_0000

abbrev pub peer_pool_end : ℕ
peer_pool_end = 0x0a80_0000

abbrev pub peer_subnet_size : ℕ
peer_subnet_size = 256

abbrev pub has_address : List ℕ → ℕ → Bool
has_address [] address = false
has_address (a ∷ addresses) address = a == address || has_address addresses address

-- `subnet_address + peer_subnet_size - 1`, in 32 bits.
abbrev pub broadcast : ℕ → ℕ
broadcast subnet = (subnet + peer_subnet_size + (2 ^ 32 - 1)) % 2 ^ 32

-- The loop over the peers, with the device ids and the addresses met so far.
unfoldable pub peers_valid : ℕ → List (List ℕ) → List ℕ → List NetworkPeer → Bool
peers_valid subnet ids addresses [] = true
peers_valid subnet ids addresses (peer ∷ peers) =
    let others = peers_valid subnet (peer.device_id ∷ ids) (peer.ipv4_address ∷ addresses) peers in
    if is_zero peer.device_id
      || leb peer.ipv4_address subnet
      || leb (broadcast subnet) peer.ipv4_address
      || contains ids peer.device_id
      || has_address addresses peer.ipv4_address
    then false
    else others

unfoldable pub differ : Bool → Bool → Bool
differ true b = not b
differ false b = b

unfoldable pub valid_peer_state : NetworkPeerState → Bool
valid_peer_state s =
    if is_zero s.network_id
      || not (s.prefix_length == 24)
      || differ (is_zero s.owner_device_id) (s.key_epoch == 0)
      || ltb s.subnet_address peer_pool_first
      || leb peer_pool_end s.subnet_address
      || not (s.subnet_address % peer_subnet_size == 0)
      || leb s.own_address s.subnet_address
      || leb (broadcast s.subnet_address) s.own_address
      || ltb max_network_peer_entries (length s.peers)
    then false
    else peers_valid s.subnet_address [] (s.own_address ∷ []) s.peers

abbrev pub key_bytes : Option SignedDeviceKey → List ℕ
key_bytes none = append_integer 1 0
key_bytes (some k) =
    append_integer 1 1
    ++ (k.identity_public_key
        ++ (k.encryption_public_key ++ (k.client_nonce ++ (k.server_nonce ++ k.signature))))

abbrev pub peer_bytes : NetworkPeer → List ℕ
peer_bytes peer =
    peer.device_id ++ (append_integer 4 peer.ipv4_address ++ key_bytes peer.signed_key)

abbrev pub peers_bytes : List NetworkPeer → List ℕ
peers_bytes [] = []
peers_bytes (peer ∷ peers) = peer_bytes peer ++ peers_bytes peers

-- The state's bytes, with those of the policy at the end.
abbrev pub state_bytes : NetworkPeerState → List ℕ → List ℕ
state_bytes s extension =
    s.network_id
    ++ (append_integer 8 s.revision
        ++ (append_integer 4 s.subnet_address
            ++ (append_integer 1 s.prefix_length
                ++ (append_integer 4 s.own_address
                    ++ (append_integer 2 (length s.peers)
                        ++ (peers_bytes s.peers
                            ++ (s.owner_device_id
                                ++ (append_integer 8 s.key_epoch ++ extension))))))))

unfoldable pub encode_extension : Option NetworkPolicy → Result Exception (List ℕ)
encode_extension none = ok []
encode_extension (some p) = encode_network_policy p

unfoldable pub append_extension :
    NetworkPeerState → Result Exception (List ℕ) → Result Exception (List ℕ)
append_extension s (throw e) = throw e
append_extension s (ok extension) = ok (state_bytes s extension)

unfoldable pub encode_network_peer_state : NetworkPeerState → Result Exception (List ℕ)
encode_network_peer_state s =
    if not (valid_peer_state s)
    then throw invalid_argument
    else append_extension s (encode_extension s.policy)

unfoldable pub read_key : ℕ → Reader (Option SignedDeviceKey)
read_key zero = pure none
read_key (suc n) = do
  identity ← read_array 32
  encryption ← read_array 32
  client ← read_array 32
  server ← read_array 32
  signature ← read_array 64
  pure (
      some (record {
        identity_public_key = identity;
        encryption_public_key = encryption;
        client_nonce = client;
        server_nonce = server;
        signature = signature;
      }))

unfoldable pub read_peer : Reader NetworkPeer
read_peer = do
  device_id ← read_array 32
  address ← read_number 4
  has_key ← read_number 1
  demand (leb has_key 1)
  key ← read_key has_key
  pure (record { device_id = device_id; ipv4_address = address; signed_key = key })

abbrev pub extension_of :
    Result Exception NetworkPolicy → Result Exception (Option NetworkPolicy × List ℕ)
extension_of (throw e) = throw e
extension_of (ok p) = ok (some p, [])

-- What follows the fixed part, if anything does, is a policy.
unfoldable pub read_extension : Reader (Option NetworkPolicy)
read_extension [] = ok (none, [])
read_extension (b ∷ bytes) = extension_of (decode_network_policy (b ∷ bytes))

unfoldable pub read_peer_state : Reader NetworkPeerState
read_peer_state = do
  network_id ← read_array 16
  revision ← read_number 8
  subnet ← read_number 4
  prefix ← read_number 1
  own ← read_number 4
  count ← read_number 2
  demand (leb count max_network_peer_entries)
  peers ← read_many count read_peer
  owner ← read_array 32
  epoch ← read_number 8
  policy ← read_extension
  let s : NetworkPeerState = record {
    network_id = network_id;
    revision = revision;
    subnet_address = subnet;
    prefix_length = prefix;
    own_address = own;
    peers = peers;
    owner_device_id = owner;
    key_epoch = epoch;
    policy = policy;
  }
  demand (valid_peer_state s)
  pure s

abbrev pub decode_network_peer_state : List ℕ → Result Exception NetworkPeerState
decode_network_peer_state payload = value_of (read_peer_state payload)
