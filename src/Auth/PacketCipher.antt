-- ===== src/Auth/PacketCipher.antt =====
-- src/auth/packet_crypto.cpp, `NetworkPacketCipher`: packets of the virtual network are sealed for the
-- network and opened by its other members, each once. A function that throws leaves the cipher as it
-- was, but for `encrypt`, which returns the cipher with what it threw. The lock makes each call one
-- step. `std::map` is an association list.
pub mod Methods
pub mod Runs
pub mod Inversion
pub mod Sending
pub mod Peers
pub mod Replay
pub mod Nonces
pub mod PeerKeys
pub mod Keys
pub mod RoundTrip
use lan_link.Prelude.{
  ℕ, ◌+◌, ◌*◌, ◌/◌, ◌%◌, Bool, false, not, ◌||◌, Option, none, some, List, [], ◌∷◌, ◌++◌, ltb, ◌==◌,
  if◌then◌else◌, Result, ok, Exception, invalid_argument, require, length, get_or, bytes_eq, ◌>>=◌,
  ◌>>◌,
}
use lan_link.Bytes.{append_integer, read_integer}
use lan_link.Protocol.Packet.{
  EncryptedNetworkPacket, min_virtual_ipv4_packet_size, max_virtual_ipv4_packet_size,
  encode_encrypted_network_packet_header,
}

-- "lanlink-virtual-packet-aad-v1"
abbrev aad_domain : List ℕ
aad_domain =
    108 ∷ 97 ∷ 110 ∷ 108 ∷ 105 ∷ 110 ∷ 107 ∷ 45 ∷ 118 ∷ 105 ∷ 114 ∷ 116 ∷ 117 ∷ 97 ∷ 108 ∷ 45 ∷ 112
    ∷ 97 ∷ 99 ∷ 107 ∷ 101 ∷ 116 ∷ 45 ∷ 97 ∷ 97 ∷ 100 ∷ 45 ∷ 118 ∷ 49 ∷ []

pub record PeerReceiver : Type 0 where
  pub session_public_key : List ℕ
  pub ipv4_address : ℕ
  pub encryption_key : List ℕ
  pub nonce_prefix : List ℕ
  pub highest_sequence : ℕ
  pub seen_sequences : ℕ
  pub initialized : Bool
  pub fanout_allowed : Bool

pub record NetworkPacketCipher : Type 0 where
  pub network_id : List ℕ
  pub key_epoch : ℕ
  pub network_key : List ℕ
  pub own_device_id : List ℕ
  pub own_session_public_key : List ℕ
  pub own_ipv4_address : ℕ
  pub subnet_address : ℕ
  pub prefix_length : ℕ
  pub managed : Bool
  pub outgoing_key : List ℕ
  pub outgoing_nonce_prefix : List ℕ
  pub next_sequence : ℕ
  pub peers : List (List ℕ × PeerReceiver)

abbrev pub byte_at : List ℕ → ℕ → ℕ
byte_at packet index = get_or packet index 0

-- The source and the destination of an IPv4 packet.
unfoldable pub ipv4_addresses : List ℕ → Result Exception (ℕ × ℕ)
ipv4_addresses packet = do
  require
      (not (
        ltb (length packet) min_virtual_ipv4_packet_size
        || ltb max_virtual_ipv4_packet_size (length packet)
        || not (byte_at packet 0 / 16 == 4)))
      invalid_argument
  require
      (not (
        ltb (byte_at packet 0 % 16 * 4) min_virtual_ipv4_packet_size
        || ltb (length packet) (byte_at packet 0 % 16 * 4)
        || not (byte_at packet 2 * 256 + byte_at packet 3 == length packet)))
      invalid_argument
  ok (read_integer 4 packet 12, read_integer 4 packet 16)

unfoldable pub authenticated_data :
    EncryptedNetworkPacket → List ℕ → List ℕ → ℕ → Result Exception (List ℕ)
authenticated_data packet sender_id session_public_key source_ipv4 = do
  header ← encode_encrypted_network_packet_header packet
  ok (aad_domain ++ (header ++ (sender_id ++ (session_public_key ++ append_integer 4 source_ipv4))))

abbrev pub find_peer : List (List ℕ × PeerReceiver) → List ℕ → Option PeerReceiver
find_peer [] id = none
find_peer (entry ∷ peers) id = if bytes_eq entry.0 id then some entry.1 else find_peer peers id

-- The entry of a peer that is there, changed in place.
abbrev pub set_peer :
    List (List ℕ × PeerReceiver) → List ℕ → PeerReceiver → List (List ℕ × PeerReceiver)
set_peer [] id receiver = []
set_peer (entry ∷ peers) id receiver =
    if bytes_eq entry.0 id then (entry.0, receiver) ∷ peers else entry ∷ set_peer peers id receiver

abbrev some_peer_has_address : List (List ℕ × PeerReceiver) → ℕ → Bool
some_peer_has_address [] address = false
some_peer_has_address (entry ∷ peers) address =
    entry.1.ipv4_address == address || some_peer_has_address peers address

abbrev some_peer_has_fanout : List (List ℕ × PeerReceiver) → Bool
some_peer_has_fanout [] = false
some_peer_has_fanout (entry ∷ peers) = entry.1.fanout_allowed || some_peer_has_fanout peers
