-- ===== src/Auth/Tests.antt =====
-- Runs of the packet cipher, over a cipher that does not hide what it seals.
use lan_link.Prelude.{ℕ, ◌<◌, ◌≡◌, ◌≢◌, inl, refl, true, false, [], ◌∷◌, arith, ok, replicate}
use lan_link.Bytes.{append_integer, read_integer, read_loop}
use lan_link.Auth.Members.{
  plain, alice_id, peer_at, alice, bob, alice_later, datagram, sealed_as, alice-IsMade, bob-IsMade,
}
use lan_link.Auth.Window.{accept_sequence, mark, test_bit, set_bit}
use lan_link.Auth.Window.Spec.{window_run, spec_run, window_run-spec_run}
use lan_link.Auth.PacketCipher.Methods.{decrypt, encrypt, sendable}
use lan_link.Auth.PacketCipher.Inversion.{received_cipher}
use lan_link.Auth.PacketCipher.Keys.{IsKeyed, IsMade-IsKeyed}
use lan_link.Auth.PacketCipher.RoundTrip.{decrypt-encrypt}
use lan_link.Auth.PacketCipher.Runs.{here}
use lan_link.Auth.PacketCipher.{
  NetworkPacketCipher, PeerReceiver, ipv4_addresses, authenticated_data,
}
use lan_link.Auth.PacketCipher.Nonces.{encrypt_fresh_nonce}
use lan_link.Protocol.Fanout.{
  is_ipv4_subnet, is_ipv4_host, is_ipv4_scoped_multicast, is_ipv4_fanout_destination,
}
use lan_link.Protocol.Packet.{all_zero, valid_packet, encode_encrypted_network_packet_header}

alice_encrypts : encrypt plain alice datagram ≡ (alice_later, ok (sealed_as 1))
unfolding encrypt sendable ipv4_addresses read_integer read_loop is_ipv4_fanout_destination
    is_ipv4_host is_ipv4_subnet is_ipv4_scoped_multicast authenticated_data
    encode_encrypted_network_packet_header valid_packet all_zero append_integer
alice_encrypts = refl

alice_encrypts_more :
    encrypt plain alice_later datagram ≡ (record alice { next_sequence = 2 }, ok (sealed_as 2))
unfolding encrypt sendable ipv4_addresses read_integer read_loop is_ipv4_fanout_destination
    is_ipv4_host is_ipv4_subnet is_ipv4_scoped_multicast authenticated_data
    encode_encrypted_network_packet_header valid_packet all_zero append_integer
alice_encrypts_more = refl

encrypt_fresh_nonce_example : (1 < 2) × ((sealed_as 1).nonce ≢ (sealed_as 2).nonce)
encrypt_fresh_nonce_example =
    encrypt_fresh_nonce plain alice alice_later alice_later (record alice { next_sequence = 2 })
      datagram datagram (sealed_as 1) (sealed_as 2) (omega arith) alice_encrypts here
      alice_encrypts_more

IsMade-IsKeyed_example : IsKeyed plain bob
IsMade-IsKeyed_example = IsMade-IsKeyed plain bob bob-IsMade

decrypt-encrypt_example :
    decrypt plain bob (sealed_as 1) alice_id
    ≡ ok (received_cipher bob alice_id (peer_at (3 ∷ alice_id) 0x0a40_0002) (sealed_as 1), datagram)
unfolding is_ipv4_fanout_destination is_ipv4_subnet is_ipv4_scoped_multicast
decrypt-encrypt_example =
    decrypt-encrypt plain alice alice_later bob datagram (sealed_as 1)
      (peer_at (3 ∷ alice_id) 0x0a40_0002) alice-IsMade bob-IsMade alice_encrypts
      (refl, refl, refl, refl, refl, refl, refl, refl) (refl, refl) (inl refl)

abbrev seen_by_bob : ℕ → ℕ → PeerReceiver
seen_by_bob highest seen = record (peer_at (3 ∷ alice_id) 0x0a40_0002) {
  nonce_prefix = replicate 8 6;
  highest_sequence = highest;
  seen_sequences = seen;
  initialized = true;
}

abbrev bob_after : ℕ → ℕ → NetworkPacketCipher
bob_after highest seen = record bob { peers = (alice_id, seen_by_bob highest seen) ∷ [] }

-- 10 first; 12 moves the window, 11 fills it, 11 and 10 are known, and 90 moves it past 13.
window_run-spec_run_example :
    window_run (10, 1) (12 ∷ 11 ∷ 11 ∷ 10 ∷ 90 ∷ 13 ∷ [])
    ≡ spec_run (10 ∷ []) (12 ∷ 11 ∷ 11 ∷ 10 ∷ 90 ∷ 13 ∷ [])
window_run-spec_run_example = window_run-spec_run 10 (12 ∷ 11 ∷ 11 ∷ 10 ∷ 90 ∷ 13 ∷ [])

window_decisions :
    window_run (10, 1) (12 ∷ 11 ∷ 11 ∷ 10 ∷ 90 ∷ 13 ∷ [])
    ≡ true ∷ true ∷ false ∷ false ∷ true ∷ false ∷ []
unfolding window_run accept_sequence mark test_bit set_bit
window_decisions = refl
