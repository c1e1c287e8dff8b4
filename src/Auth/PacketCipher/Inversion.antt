-- ===== src/Auth/PacketCipher/Inversion.antt =====
-- What has been checked where a method of the cipher returns, and what it returns.
use lan_link.Prelude.{
  ℕ, ◌≡◌, refl, sym, ap, ◌∙◌, subst, Bool, true, false, not, ◌&&◌, ◌||◌, Option, none, some, List,
  [], ◌==◌, ok, >>=-inv, require-inv, ok_injective, length, take, bytes_eq,
}
use lan_link.Auth.Crypto.{Crypto, or_throw}
use lan_link.Auth.Window.{accept_sequence}
use lan_link.Auth.PacketCipher.{
  NetworkPacketCipher, PeerReceiver, find_peer, set_peer, ipv4_addresses, authenticated_data,
}
use lan_link.Auth.PacketCipher.Methods.{
  set_fanout, update_loop, update_peers, is_managed, admitted, mark_received, decrypt, fanout_to,
  addresses_match,
}
use lan_link.PeerState.{NetworkPeerState, encode_network_peer_state}
use lan_link.Protocol.Packet.{EncryptedNetworkPacket, encode_encrypted_network_packet_header}

pub or_throw-inv {ℓ} :
    {A : Type ℓ} (value : Option A) (a : A) → or_throw value ≡ ok a → value ≡ some a
or_throw-inv none a h = cc
or_throw-inv (some b) a h = cc

false_of_not : (b : Bool) → not b ≡ true → b ≡ false
false_of_not false h = refl
false_of_not true h = cc

-- The cipher after an update whose loop has come to `updated`.
abbrev pub updated_cipher :
    NetworkPacketCipher → NetworkPeerState → List (List ℕ × PeerReceiver) → NetworkPacketCipher
updated_cipher cipher state updated = record cipher {
  peers = set_fanout state.policy cipher.own_device_id updated;
  managed = is_managed state.policy;
  subnet_address = state.subnet_address;
  prefix_length = state.prefix_length;
}

pub update_peers-inv :
    (c : Crypto) (cipher : NetworkPacketCipher) (state : NetworkPeerState)
    (after : NetworkPacketCipher)
    → update_peers c cipher state ≡ ok after
    → (updated : List (List ℕ × PeerReceiver)) × (update_loop c cipher state.policy state.peers []
        ≡ ok updated)
      × (after ≡ updated_cipher cipher state updated)
unfolding update_peers
update_peers-inv c cipher state after h =
    let (fits, e1) =
      require-inv
        (bytes_eq state.network_id cipher.network_id
          && state.key_epoch == cipher.key_epoch
          && state.own_address == cipher.own_ipv4_address)
        _ _ after h in
    let (encoded, v, e2) = >>=-inv (encode_network_peer_state state) _ after e1 in
    let (updated, u, e3) = >>=-inv (update_loop c cipher state.policy state.peers []) _ after e2 in
    (updated, u, ok_injective _ _ after refl e3)

-- The test of `decrypt` against replays.
abbrev pub is_replay : PeerReceiver → EncryptedNetworkPacket → Bool
is_replay receiver packet =
    receiver.initialized
    && (not (bytes_eq receiver.nonce_prefix (take 8 packet.nonce))
        || not (accept_sequence packet.sequence receiver.highest_sequence receiver.seen_sequences))

pub admitted-inv :
    (cipher : NetworkPacketCipher) (packet : EncryptedNetworkPacket) (sender : List ℕ)
    (receiver : PeerReceiver)
    → admitted cipher packet sender ≡ ok receiver
    → (find_peer cipher.peers sender ≡ some receiver) × (is_replay receiver packet ≡ false)
unfolding admitted
admitted-inv cipher packet sender receiver h =
    let (header, v, e1) = >>=-inv (encode_encrypted_network_packet_header packet) _ receiver h in
    let (this, e2) =
      require-inv
        (bytes_eq packet.network_id cipher.network_id && packet.key_epoch == cipher.key_epoch) _ _
        receiver e1 in
    let (mine, e3) =
      require-inv
        (packet.destination_ipv4 == cipher.own_ipv4_address
          || fanout_to cipher packet.destination_ipv4)
        _ _ receiver e2 in
    let (found, f, e4) = >>=-inv (or_throw (find_peer cipher.peers sender)) _ receiver e3 in
    let (fan, e5) =
      require-inv (not (fanout_to cipher packet.destination_ipv4 && not found.fanout_allowed)) _ _
        receiver e4 in
    let (new, e6) = require-inv (not (is_replay found packet)) _ _ receiver e5 in
    let same : receiver ≡ found = ok_injective _ _ receiver refl e6 in
    (
      or_throw-inv _ receiver (f ∙ ap ok (sym same)),
      subst (λ r. is_replay r packet ≡ false) (sym same) (false_of_not _ new),
    )

-- The cipher after a packet was received.
abbrev pub received_cipher :
    NetworkPacketCipher → List ℕ → PeerReceiver → EncryptedNetworkPacket → NetworkPacketCipher
received_cipher cipher sender receiver packet = record cipher {
  peers = set_peer cipher.peers sender (mark_received receiver packet);
}

pub decrypt-inv :
    (c : Crypto) (cipher : NetworkPacketCipher) (packet : EncryptedNetworkPacket) (sender : List ℕ)
    (result : NetworkPacketCipher × List ℕ)
    → decrypt c cipher packet sender ≡ ok result
    → (receiver : PeerReceiver) × (admitted cipher packet sender ≡ ok receiver)
      × (addresses_match cipher packet receiver result.1 (ipv4_addresses result.1) ≡ true)
      × (result.0 ≡ received_cipher cipher sender receiver packet)
unfolding decrypt
decrypt-inv c cipher packet sender result h =
    let (receiver, a, e1) = >>=-inv (admitted cipher packet sender) _ result h in
    let (aad, d, e2) =
      >>=-inv (authenticated_data packet sender receiver.session_public_key receiver.ipv4_address) _
        result e1 in
    let (plaintext, o, e3) =
      >>=-inv
        (or_throw
          (c.open_sealed receiver.encryption_key packet.nonce aad packet.ciphertext packet.tag))
        _ result e2 in
    let (long, e4) = require-inv (length plaintext == length packet.ciphertext) _ _ result e3 in
    let (match, e5) =
      require-inv (addresses_match cipher packet receiver plaintext (ipv4_addresses plaintext)) _ _
        result e4 in
    let same = ok_injective _ _ result refl e5 in
    (
      receiver,
      a,
      subst (λ p. addresses_match cipher packet receiver p (ipv4_addresses p) ≡ true)
          (sym (ap (λ (t : NetworkPacketCipher × List ℕ). t.1) same)) match,
      ap (λ (t : NetworkPacketCipher × List ℕ). t.0) same,
    )
