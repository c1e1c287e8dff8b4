-- ===== src/Auth/PacketCipher/RoundTrip.antt =====
-- A packet that one member encrypts, another one decrypts.
use lan_link.Prelude.{
  ℕ, zero, suc, ◌≡◌, ◌⊎◌, inl, inr, refl, sym, ap, ◌∙◌, true, false, not, ◌&&◌, ◌||◌, some, List,
  arith, ◌==◌, ==_iff, ok, >>=-inv, ok_injective, length, take, replicate, bytes_eq_iff,
}
use lan_link.Auth.Crypto.{Crypto}
use lan_link.Auth.PacketCipher.{
  NetworkPacketCipher, PeerReceiver, find_peer, ipv4_addresses, authenticated_data, byte_at,
}
use lan_link.Auth.PacketCipher.Methods.{
  admitted, encrypt, decrypt, unsealed_packet, fanout_to, addresses_match,
}
use lan_link.Auth.PacketCipher.Inversion.{is_replay, received_cipher}
use lan_link.Auth.PacketCipher.Keys.{IsMade, IsMade-IsKeyed}
use lan_link.Auth.Window.{accept_sequence}
use lan_link.Auth.PacketCipher.PeerKeys.{IsSenderKey}
use lan_link.Auth.PacketCipher.Sending.{sendable-inv, encrypt-inv, seal_packet-inv}
use lan_link.Protocol.Packet.{
  EncryptedNetworkPacket, encode_encrypted_network_packet_header, valid_packet,
}

length-replicate : (n : ℕ) → length (replicate {A = ℕ} n 0) ≡ n
length-replicate zero = refl
length-replicate (suc n) = ap suc (length-replicate n)

-- The header has the length of the ciphertext alone, so that sealing does not change it.
sealed_header :
    (packet : EncryptedNetworkPacket) (ciphertext tag : List ℕ)
    → length ciphertext ≡ length packet.ciphertext
    → encode_encrypted_network_packet_header (record packet { ciphertext = ciphertext; tag = tag })
      ≡ encode_encrypted_network_packet_header packet
unfolding encode_encrypted_network_packet_header valid_packet
sealed_header packet ciphertext tag e = rw e refl

sealed_data :
    (packet : EncryptedNetworkPacket) (ciphertext tag sender key : List ℕ) (address : ℕ)
    → length ciphertext ≡ length packet.ciphertext
    → authenticated_data (record packet { ciphertext = ciphertext; tag = tag }) sender key address
      ≡ authenticated_data packet sender key address
unfolding authenticated_data
sealed_data packet ciphertext tag sender key address e =
    rw (sealed_header packet ciphertext tag e) refl

-- The receiving cipher has the sender among its peers, with the sender's session key and address, and
-- both are of one network, network key, epoch and subnet.
abbrev pub Knows : NetworkPacketCipher → NetworkPacketCipher → PeerReceiver → Type 0
Knows receiving sending receiver =
    (find_peer receiving.peers sending.own_device_id ≡ some receiver)
    × (receiver.session_public_key ≡ sending.own_session_public_key)
    × (receiver.ipv4_address ≡ sending.own_ipv4_address)
    × (receiving.network_key ≡ sending.network_key)
    × (receiving.network_id ≡ sending.network_id)
    × (receiving.key_epoch ≡ sending.key_epoch)
    × (receiving.subnet_address ≡ sending.subnet_address)
    × (receiving.prefix_length ≡ sending.prefix_length)

-- The packet goes to the receiving cipher's address, or to all that may have it.
abbrev pub IsAddressed : NetworkPacketCipher → PeerReceiver → EncryptedNetworkPacket → Type 0
IsAddressed receiving receiver packet =
    ((packet.destination_ipv4 == receiving.own_ipv4_address
        || fanout_to receiving packet.destination_ipv4)
      ≡ true)
    × ((fanout_to receiving packet.destination_ipv4 && not receiver.fanout_allowed) ≡ false)

admitted_intro :
    (receiving : NetworkPacketCipher) (packet : EncryptedNetworkPacket) (sender header : List ℕ)
    (receiver : PeerReceiver)
    → encode_encrypted_network_packet_header packet ≡ ok header
    → packet.network_id ≡ receiving.network_id
    → packet.key_epoch ≡ receiving.key_epoch
    → find_peer receiving.peers sender ≡ some receiver
    → IsAddressed receiving receiver packet
    → is_replay receiver packet ≡ false
    → admitted receiving packet sender ≡ ok receiver
unfolding admitted
admitted_intro receiving packet sender header receiver h n e f a r =
    let network = (bytes_eq_iff packet.network_id receiving.network_id).1 n in
    let epoch = (==_iff packet.key_epoch receiving.key_epoch).1 e in
    rw (h, network, epoch, a.0, f, a.1, r) refl

==_refl : (n : ℕ) → (n == n) ≡ true
==_refl n = (==_iff n n).1 refl

data_header :
    (packet : EncryptedNetworkPacket) (sender key : List ℕ) (address : ℕ) (aad : List ℕ)
    → authenticated_data packet sender key address ≡ ok aad
    → (header : List ℕ) × (encode_encrypted_network_packet_header packet ≡ ok header)
unfolding authenticated_data
data_header packet sender key address aad h =
    let (header, wrote, rest) = >>=-inv (encode_encrypted_network_packet_header packet) _ aad h in
    (header, wrote)

matches_intro :
    (receiving : NetworkPacketCipher) (packet : EncryptedNetworkPacket) (receiver : PeerReceiver)
    (plaintext : List ℕ) (addresses : ℕ × ℕ)
    → addresses.0 ≡ receiver.ipv4_address
    → addresses.1 ≡ packet.destination_ipv4
    → (fanout_to receiving addresses.1 && byte_at plaintext 8 == 0) ≡ false
    → addresses_match receiving packet receiver plaintext (ok addresses) ≡ true
matches_intro receiving packet receiver plaintext addresses s d hops = ground (arith, s, d, hops)

-- The receiver has had no packet of the sender, or those it had were under the nonce prefix of this
-- packet and its window accepts this packet's number.
abbrev pub IsFresh : PeerReceiver → EncryptedNetworkPacket → Type 0
IsFresh receiver packet =
    (receiver.initialized ≡ false)
    ⊎ ((receiver.nonce_prefix ≡ take 8 packet.nonce)
        × (accept_sequence packet.sequence receiver.highest_sequence receiver.seen_sequences
            ≡ true))

not_replay :
    (receiver : PeerReceiver) (packet : EncryptedNetworkPacket)
    → IsFresh receiver packet
    → is_replay receiver packet ≡ false
not_replay receiver packet (inl new) = rw new refl
not_replay receiver packet (inr (prefix, accepted)) =
    ground (arith, (bytes_eq_iff receiver.nonce_prefix (take 8 packet.nonce)).1 prefix, accepted)

-- The key by which the receiving cipher opens the sender's packets is the one that seals them.
same_key :
    (c : Crypto) (sending receiving : NetworkPacketCipher) (receiver : PeerReceiver)
    → IsMade c sending
    → IsMade c receiving
    → Knows receiving sending receiver
    → receiver.encryption_key ≡ sending.outgoing_key
same_key c sending receiving receiver sender_made receiver_made (f, k, a, w, n, g, u, p) =
    let (own, _) = IsMade-IsKeyed c sending sender_made in
    let (_, keys) = IsMade-IsKeyed c receiving receiver_made in
    let sealing : IsSenderKey c receiving sending.own_device_id receiver.session_public_key
        sending.outgoing_key =
      rw (k, w, n, g) own in
    ok_injective _ sending.outgoing_key receiver.encryption_key sealing
      (keys sending.own_device_id receiver f)

-- A cipher decrypts what another one has encrypted, and gives the plaintext and the cipher with the
-- packet marked as received. Both ciphers are ones that the constructor made, after any calls; they
-- have the same network id, network key, key epoch and subnet; the receiving one has the sender among
-- its peers, under the sender's id and with the sender's session key and address; the packet goes to
-- the receiving one's address, or is fanned out in its subnet and the sender is allowed that; and the
-- receiving one has had no packet of the sender yet, or has the packet's nonce prefix for the sender
-- and a window that accepts the packet's number.
pub decrypt-encrypt :
    (c : Crypto) (sending after receiving : NetworkPacketCipher) (plaintext : List ℕ)
    (packet : EncryptedNetworkPacket) (receiver : PeerReceiver)
    → IsMade c sending
    → IsMade c receiving
    → encrypt c sending plaintext ≡ (after, ok packet)
    → Knows receiving sending receiver
    → IsAddressed receiving receiver packet
    → IsFresh receiver packet
    → decrypt c receiving packet sending.own_device_id
      ≡ ok (received_cipher receiving sending.own_device_id receiver packet, plaintext)
unfolding decrypt
decrypt-encrypt c sending after receiving plaintext packet receiver sender_made receiver_made e
      known addressed fresh =
    let (f, k, a, w, n, g, u, p) = known in
    let s = same_key c sending receiving receiver sender_made receiver_made known in
    let (destination, i, counted, sealing) = encrypt-inv c sending after plaintext packet e in
    let (addresses, read, source, d, hops, count) = sendable-inv sending plaintext destination i in
    let unsealed = unsealed_packet sending plaintext destination in
    let (aad, sealed, auth, opened, long, made) =
      seal_packet-inv c sending plaintext unsealed packet sealing in
    let sender = sending.own_device_id in
    let (header, wrote) =
      data_header unsealed sender sending.own_session_public_key sending.own_ipv4_address aad
        auth in
    let whole : encode_encrypted_network_packet_header packet ≡ ok header =
      rw made (sealed_header unsealed sealed.0 sealed.1 long ∙ wrote) in
    let admits : admitted receiving packet sender ≡ ok receiver =
      admitted_intro receiving packet sender header receiver whole (rw made (sym n))
        (rw made (sym g)) f addressed (not_replay receiver packet fresh) in
    let aads : authenticated_data packet sender receiver.session_public_key receiver.ipv4_address
        ≡ ok aad =
      rw (made, k, a)
        (sealed_data unsealed sealed.0 sealed.1 sender sending.own_session_public_key
            sending.own_ipv4_address long
          ∙ auth) in
    let opens : c.open_sealed receiver.encryption_key packet.nonce aad packet.ciphertext packet.tag
        ≡ some plaintext =
      rw (made, s) (c.open_sealed-seal _ _ _ _ _ _ opened) in
    let size : (length plaintext == length packet.ciphertext) ≡ true =
      rw made (rw (long, length-replicate (length plaintext)) (==_refl (length plaintext))) in
    let fits : addresses_match receiving packet receiver plaintext (ipv4_addresses plaintext)
        ≡ true =
      rw read (
        matches_intro receiving packet receiver plaintext addresses (source ∙ sym a)
          (rw made (sym d)) (rw (u, p) hops)) in
    rw (admits, aads, opens, size, fits) refl
