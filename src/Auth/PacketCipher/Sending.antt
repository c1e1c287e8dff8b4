-- ===== src/Auth/PacketCipher/Sending.antt =====
-- What `encrypt` has checked where it returns a packet, and what it returns.
use lan_link.Prelude.{
  ℕ, ◌-◌, ◌^◌, ◌≡◌, ◌≢◌, ◌⊎◌, inl, inr, refl, ap, Bool, true, false, not, ◌&&◌, ◌||◌, some, List,
  arith, ◌==◌, ==_iff, Result, ok, throw, Exception, >>=-inv, require-inv, Result-cases,
  ok_injective, length,
}
use lan_link.Auth.Crypto.{Crypto, or_throw}
use lan_link.Auth.PacketCipher.{
  NetworkPacketCipher, ipv4_addresses, authenticated_data, byte_at, some_peer_has_address,
  some_peer_has_fanout,
}
use lan_link.Auth.PacketCipher.Methods.{
  encrypt, seal_next, with_next_sequence, sendable, seal_packet, unsealed_packet, fanout_to,
}
use lan_link.Auth.PacketCipher.Inversion.{or_throw-inv}
use lan_link.Protocol.Fanout.{is_ipv4_host}
use lan_link.Protocol.Packet.{EncryptedNetworkPacket}

right_false : (a b : Bool) → not (a || b) ≡ true → b ≡ false
right_false a true h = absurd (ground arith)
right_false a false h = refl

-- What `sendable` has checked: the source is the own address, the last test on the destination, and
-- that a number is left.
pub sendable-inv :
    (cipher : NetworkPacketCipher) (packet : List ℕ) (destination : ℕ)
    → sendable cipher packet ≡ ok destination
    → (addresses : ℕ × ℕ) × (ipv4_addresses packet ≡ ok addresses)
      × (addresses.0 ≡ cipher.own_ipv4_address)
      × (destination ≡ addresses.1)
      × ((fanout_to cipher addresses.1 && byte_at packet 8 == 0) ≡ false)
      × (cipher.next_sequence ≢ 2 ^ 32 - 1)
unfolding sendable
sendable-inv cipher packet destination h =
    let (addresses, a, e1) = >>=-inv (ipv4_addresses packet) _ destination h in
    let (source, e2) =
      require-inv
        (not (
          not (addresses.0 == cipher.own_ipv4_address)
          || addresses.1 == 0
          || addresses.1 == cipher.own_ipv4_address))
        _ _ destination e1 in
    let (policy, e3) =
      require-inv
        (not (
          cipher.managed
          && ((not (fanout_to cipher addresses.1)
                && not (some_peer_has_address cipher.peers addresses.1))
              || (fanout_to cipher addresses.1 && not (some_peer_has_fanout cipher.peers)))))
        _ _ destination e2 in
    let (subnet, e4) =
      require-inv
        (not (
          (not (fanout_to cipher addresses.1)
            && not (is_ipv4_host addresses.1 cipher.subnet_address cipher.prefix_length))
          || (fanout_to cipher addresses.1 && byte_at packet 8 == 0)))
        _ _ destination e3 in
    let (count, e5) = require-inv (not (cipher.next_sequence == 2 ^ 32 - 1)) _ _ destination e4 in
    (
      addresses,
      a,
      ground (arith, source),
      ok_injective _ _ destination refl e5,
      right_false _ _ subnet,
      λ last. absurd (ground (arith, count, last)),
    )

-- `encrypt` counts the packet or leaves the cipher as it was.
pub encrypt_state :
    (c : Crypto) (cipher : NetworkPacketCipher) (plaintext : List ℕ)
    → ((encrypt c cipher plaintext).0 ≡ cipher)
      ⊎ (((encrypt c cipher plaintext).0 ≡ with_next_sequence cipher)
          × (cipher.next_sequence ≢ 2 ^ 32 - 1))
unfolding encrypt
encrypt_state c cipher plaintext = elim (Result-cases (sendable cipher plaintext)) [
  | inl (thrown, e) ↦ rw e (inl refl)
  | inr (destination, e) ↦
      let (addresses, a, source, d, hops, count) = sendable-inv cipher plaintext destination e in
      rw e (inr (refl, count))
]

pub encrypt_peers :
    (c : Crypto) (cipher : NetworkPacketCipher) (plaintext : List ℕ)
    → ((encrypt c cipher plaintext).0).peers ≡ cipher.peers
encrypt_peers c cipher plaintext = elim (encrypt_state c cipher plaintext) [
  | inl e ↦ ap (λ (t : NetworkPacketCipher). t.peers) e
  | inr (e, count) ↦ ap (λ (t : NetworkPacketCipher). t.peers) e
]

seal_next-inv :
    (c : Crypto) (cipher after : NetworkPacketCipher) (plaintext : List ℕ)
    (packet : EncryptedNetworkPacket) (sending : Result Exception ℕ)
    → seal_next c cipher plaintext sending ≡ (after, ok packet)
    → (destination : ℕ) × (sending ≡ ok destination)
      × (after ≡ with_next_sequence cipher)
      × (seal_packet c cipher plaintext (unsealed_packet cipher plaintext destination) ≡ ok packet)
seal_next-inv c cipher after plaintext packet (throw thrown) h = cc
seal_next-inv c cipher after plaintext packet (ok destination) h = (destination, refl, cc h, cc h)

pub encrypt-inv :
    (c : Crypto) (cipher after : NetworkPacketCipher) (plaintext : List ℕ)
    (packet : EncryptedNetworkPacket)
    → encrypt c cipher plaintext ≡ (after, ok packet)
    → (destination : ℕ) × (sendable cipher plaintext ≡ ok destination)
      × (after ≡ with_next_sequence cipher)
      × (seal_packet c cipher plaintext (unsealed_packet cipher plaintext destination) ≡ ok packet)
unfolding encrypt
encrypt-inv c cipher after plaintext packet h =
    seal_next-inv c cipher after plaintext packet (sendable cipher plaintext) h

pub seal_packet-inv :
    (c : Crypto) (cipher : NetworkPacketCipher) (plaintext : List ℕ)
    (unsealed packet : EncryptedNetworkPacket)
    → seal_packet c cipher plaintext unsealed ≡ ok packet
    → (aad : List ℕ) × (sealed : List ℕ × List ℕ) × (authenticated_data unsealed
          cipher.own_device_id cipher.own_session_public_key cipher.own_ipv4_address
        ≡ ok aad)
      × (c.seal cipher.outgoing_key unsealed.nonce aad plaintext ≡ some sealed)
      × (length (sealed.0) ≡ length unsealed.ciphertext)
      × (packet ≡ record unsealed { ciphertext = sealed.0; tag = sealed.1 })
seal_packet-inv c cipher plaintext unsealed packet h =
    let (aad, a, e1) =
      >>=-inv
        (authenticated_data unsealed cipher.own_device_id cipher.own_session_public_key
          cipher.own_ipv4_address)
        _ packet h in
    let (sealed, s, e2) =
      >>=-inv (or_throw (c.seal cipher.outgoing_key unsealed.nonce aad plaintext)) _ packet e1 in
    let (long, e3) = require-inv (length (sealed.0) == length unsealed.ciphertext) _ _ packet e2 in
    (aad, sealed, a, or_throw-inv _ sealed s, (==_iff _ _).0 long, ok_injective _ _ packet refl e3)
