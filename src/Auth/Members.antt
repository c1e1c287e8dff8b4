-- ===== src/Auth/Members.antt =====
-- Two members of a network, for tests, with a cipher that only copies.
use lan_link.Prelude.{
  ℕ, ◌≡◌, refl, true, false, Option, none, some, List, [], ◌∷◌, ok, take, drop, replicate,
}
use lan_link.Auth.PacketCipher.Methods.{
  make_cipher, update_peers, update_loop, update_peer, emplace, set_fanout,
}
use lan_link.Auth.PacketCipher.Keys.{IsMade, made}
use lan_link.NetworkMessages.Encode.{is_zero}
use lan_link.PeerState.{
  SignedDeviceKey, NetworkPeerState, encode_network_peer_state, valid_peer_state, peers_valid,
  append_extension, encode_extension, differ,
}
use lan_link.Auth.PacketCipher.Runs.{next, updated, Step, here}
use lan_link.Auth.Crypto.{Crypto, derive_sender_key, verify_signed_device_key}
use lan_link.Auth.PacketCipher.{NetworkPacketCipher, PeerReceiver}
use lan_link.Protocol.Packet.{EncryptedNetworkPacket, all_zero}

abbrev plain_seal : List ℕ → Option (List ℕ × List ℕ)
plain_seal plaintext = some (plaintext, [])

pub plain_opens :
    (key nonce aad plaintext ciphertext tag : List ℕ)
    → plain_seal plaintext ≡ some (ciphertext, tag)
    → some ciphertext ≡ some plaintext
plain_opens key nonce aad plaintext ciphertext tag h = cc h

abbrev pub plain : Crypto
plain = record {
  sha256 = λ message. message;
  hkdf = λ salt key info. some (3 ∷ take 1 (drop 29 info));
  verify_signature = λ key message signature. ok true;
  seal = λ key nonce aad plaintext. plain_seal plaintext;
  open_sealed = λ key nonce aad ciphertext tag. some ciphertext;
  open_sealed-seal = plain_opens;
}

abbrev pub alice_id : List ℕ
alice_id = 1 ∷ []

abbrev bob_id : List ℕ
bob_id = 2 ∷ []

abbrev pub peer_at : List ℕ → ℕ → PeerReceiver
peer_at key address = record {
  session_public_key = 5 ∷ [];
  ipv4_address = address;
  encryption_key = key;
  nonce_prefix = replicate 8 0;
  highest_sequence = 0;
  seen_sequences = 0;
  initialized = false;
  fanout_allowed = true;
}

abbrev cipher_of : List ℕ → ℕ → List (List ℕ × PeerReceiver) → NetworkPacketCipher
cipher_of id address peers = record {
  network_id = 7 ∷ [];
  key_epoch = 1;
  network_key = 9 ∷ [];
  own_device_id = id;
  own_session_public_key = 5 ∷ [];
  own_ipv4_address = address;
  subnet_address = 0x0a40_0000;
  prefix_length = 24;
  managed = false;
  outgoing_key = 3 ∷ id;
  outgoing_nonce_prefix = replicate 8 6;
  next_sequence = 0;
  peers = peers;
}

abbrev pub alice : NetworkPacketCipher
alice = cipher_of alice_id 0x0a40_0002 ((bob_id, peer_at (3 ∷ bob_id) 0x0a40_0003) ∷ [])

abbrev pub bob : NetworkPacketCipher
bob = cipher_of bob_id 0x0a40_0003 ((alice_id, peer_at (3 ∷ alice_id) 0x0a40_0002) ∷ [])

abbrev pub alice_later : NetworkPacketCipher
alice_later = record alice { next_sequence = 1 }

-- An IPv4 packet from 10.64.0.2 to 10.64.0.3.
abbrev pub datagram : List ℕ
datagram =
    69 ∷ 0 ∷ 0 ∷ 20 ∷ 0 ∷ 0 ∷ 0 ∷ 0 ∷ 64 ∷ 17 ∷ 0 ∷ 0 ∷ 10 ∷ 64 ∷ 0 ∷ 2 ∷ 10 ∷ 64 ∷ 0 ∷ 3 ∷ []

abbrev pub sealed_as : ℕ → EncryptedNetworkPacket
sealed_as n = record {
  network_id = 7 ∷ [];
  destination_ipv4 = 0x0a40_0003;
  key_epoch = 1;
  sequence = n;
  nonce = 6 ∷ 6 ∷ 6 ∷ 6 ∷ 6 ∷ 6 ∷ 6 ∷ 6 ∷ 0 ∷ 0 ∷ 0 ∷ n ∷ [];
  ciphertext = datagram;
  tag = [];
}

abbrev signed_key : List ℕ → SignedDeviceKey
signed_key id = record {
  identity_public_key = id;
  encryption_public_key = 5 ∷ [];
  client_nonce = [];
  server_nonce = [];
  signature = [];
}

-- The state of the network 10.64.0.0/24 that a member with one peer gets.
abbrev state_with : ℕ → List ℕ → ℕ → NetworkPeerState
state_with own_address peer_id peer_address = record {
  network_id = 7 ∷ [];
  revision = 1;
  subnet_address = 0x0a40_0000;
  prefix_length = 24;
  own_address = own_address;
  peers =
      record {
        device_id = peer_id;
        ipv4_address = peer_address;
        signed_key = some (signed_key peer_id);
      }
      ∷ [];
  owner_device_id = peer_id;
  key_epoch = 1;
  policy = none;
}

abbrev made_as : List ℕ → ℕ → NetworkPacketCipher
made_as id address = record (cipher_of id address []) { subnet_address = 0; prefix_length = 0 }

alice_made :
    make_cipher plain
      (7 ∷ [])
      1
      (9 ∷ [])
      alice_id
      (signed_key alice_id)
      0x0a40_0002
      (some (replicate 8 6))
    ≡ ok (made_as alice_id 0x0a40_0002)
unfolding make_cipher derive_sender_key verify_signed_device_key all_zero
alice_made = refl

bob_made :
    make_cipher plain
      (7 ∷ [])
      1
      (9 ∷ [])
      bob_id
      (signed_key bob_id)
      0x0a40_0003
      (some (replicate 8 6))
    ≡ ok (made_as bob_id 0x0a40_0003)
unfolding make_cipher derive_sender_key verify_signed_device_key all_zero
bob_made = refl

alice_updates :
    update_peers plain (made_as alice_id 0x0a40_0002) (state_with 0x0a40_0002 bob_id 0x0a40_0003)
    ≡ ok alice
unfolding update_peers update_loop update_peer emplace set_fanout derive_sender_key
    verify_signed_device_key all_zero encode_network_peer_state valid_peer_state peers_valid
    append_extension encode_extension differ is_zero
alice_updates = refl

bob_updates :
    update_peers plain (made_as bob_id 0x0a40_0003) (state_with 0x0a40_0003 alice_id 0x0a40_0002)
    ≡ ok bob
unfolding update_peers update_loop update_peer emplace set_fanout derive_sender_key
    verify_signed_device_key all_zero encode_network_peer_state valid_peer_state peers_valid
    append_extension encode_extension differ is_zero
bob_updates = refl

pub alice-IsMade : IsMade plain alice
alice-IsMade =
    let step : Step plain (made_as alice_id 0x0a40_0002) alice =
      updated (state_with 0x0a40_0002 bob_id 0x0a40_0003) alice_updates in
    made (7 ∷ []) 1 (9 ∷ []) alice_id (signed_key alice_id) 0x0a40_0002 (some (replicate 8 6))
      alice_made (next here step tt)

pub bob-IsMade : IsMade plain bob
bob-IsMade =
    let step : Step plain (made_as bob_id 0x0a40_0003) bob =
      updated (state_with 0x0a40_0003 alice_id 0x0a40_0002) bob_updates in
    made (7 ∷ []) 1 (9 ∷ []) bob_id (signed_key bob_id) 0x0a40_0003 (some (replicate 8 6)) bob_made
      (next here step tt)
