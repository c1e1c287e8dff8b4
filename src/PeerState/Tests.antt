-- ===== src/PeerState/Tests.antt =====
-- Runs of the encoder and the decoder of peer states.
use lan_link.Prelude.{
  ◌+◌, ◌%◌, ◌≤◌, ◌<◌, ◌≡◌, refl, true, none, some, [], ◌∷◌, arith, ok, replicate, All,
}
use lan_link.NetworkMessages.Encode.{is_zero}
use lan_link.PeerState.{
  SignedDeviceKey, NetworkPeerState, encode_network_peer_state, decode_network_peer_state,
  valid_peer_state, peers_valid, append_extension, encode_extension, differ, state_bytes,
}
use lan_link.PeerState.Valid.{AllDistinct, valid_peer_state-distinct}
use lan_link.PeerState.RoundTrip.{IsTypedState, IsTypedKey, decode-encode_network_peer_state}

abbrev key : SignedDeviceKey
key = record {
  identity_public_key = replicate 32 1;
  encryption_public_key = replicate 32 2;
  client_nonce = replicate 32 3;
  server_nonce = replicate 32 4;
  signature = replicate 64 5;
}

-- Two peers of 10.64.0.0/24, of which the first has sent its key.
abbrev lan : NetworkPeerState
lan = record {
  network_id = replicate 16 9;
  revision = 3;
  subnet_address = 0x0a40_0000;
  prefix_length = 24;
  own_address = 0x0a40_0002;
  peers =
      record { device_id = replicate 32 7; ipv4_address = 0x0a40_0003; signed_key = some key }
      ∷ record { device_id = replicate 32 8; ipv4_address = 0x0a40_0004; signed_key = none }
      ∷ [];
  owner_device_id = replicate 32 7;
  key_epoch = 1;
  policy = none;
}

lan_encoded : encode_network_peer_state lan ≡ ok (state_bytes lan [])
unfolding encode_network_peer_state valid_peer_state peers_valid append_extension encode_extension
    differ is_zero
lan_encoded = refl

key_IsTyped : IsTypedKey key
key_IsTyped = record {
  identity_size = refl;
  encryption_size = refl;
  client_size = refl;
  server_size = refl;
  signature_size = refl;
}

lan_IsTyped : IsTypedState lan
lan_IsTyped = record {
  network_size = refl;
  revision_fits = omega arith;
  subnet_fits = omega arith;
  prefix_fits = omega arith;
  own_fits = omega arith;
  peers_typed = ((refl, omega arith, key_IsTyped), ((refl, omega arith, tt), tt));
  owner_size = refl;
  epoch_fits = omega arith;
  policy_typed = tt;
}

decode-encode_network_peer_state_example : decode_network_peer_state (state_bytes lan []) ≡ ok lan
decode-encode_network_peer_state_example =
    decode-encode_network_peer_state lan (state_bytes lan []) lan_IsTyped lan_encoded

lan_valid : valid_peer_state lan ≡ true
unfolding valid_peer_state peers_valid differ is_zero
lan_valid = refl

valid_peer_state-distinct_example :
    AllDistinct (0x0a40_0002 ∷ 0x0a40_0003 ∷ 0x0a40_0004 ∷ [])
    × All
        (λ a. (0x0a40_0000 < a) × (a < 0x0a40_0000 + 255))
        (0x0a40_0002 ∷ 0x0a40_0003 ∷ 0x0a40_0004 ∷ [])
    × (0x0a40_0000 ≤ 0x0a40_0000)
    × (0x0a40_0000 < 0x0a80_0000)
    × (0x0a40_0000 % 256 ≡ 0)
valid_peer_state-distinct_example = valid_peer_state-distinct lan lan_valid
