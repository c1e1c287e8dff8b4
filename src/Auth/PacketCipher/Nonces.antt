-- ===== src/Auth/PacketCipher/Nonces.antt =====
-- No nonce is used for two packets.
use lan_link.Prelude.{
  ℕ, suc, ◌-◌, ◌^◌, ◌≤◌, ◌<◌, ◌≡◌, ◌≢◌, inl, inr, refl, sym, ap, ◌∙◌, List, ◌++◌, arith, ok, length,
  drop, drop-append_left,
}
use lan_link.Bytes.{append_integer, be_value, be_value-append_integer}
use lan_link.Auth.Crypto.{Crypto}
use lan_link.Auth.PacketCipher.{NetworkPacketCipher}
use lan_link.Auth.PacketCipher.Methods.{encrypt, unsealed_packet}
use lan_link.Auth.PacketCipher.Inversion.{decrypt-inv, update_peers-inv}
use lan_link.Auth.PacketCipher.Sending.{encrypt_state, sendable-inv, encrypt-inv, seal_packet-inv}
use lan_link.Auth.PacketCipher.Runs.{Step, encrypted, decrypted, updated, Run, here, next, AnyStep}
use lan_link.Protocol.Packet.{EncryptedNetworkPacket}
use native.Mathlib.Nat.{mod-eq_of_lt}

-- The count of packets does not fall, and the prefix of the nonces stays.
abbrev Counts : NetworkPacketCipher → NetworkPacketCipher → Type 0
Counts before after =
    (before.next_sequence ≤ after.next_sequence)
    × (before.next_sequence < 2 ^ 32 → after.next_sequence < 2 ^ 32)
    × (after.outgoing_nonce_prefix ≡ before.outgoing_nonce_prefix)

below_next : (n : ℕ) → n < 2 ^ 32 → n ≢ 2 ^ 32 - 1 → suc n < 2 ^ 32
below_next n h k = omega (arith, h, k)

Step-Counts :
    (c : Crypto) (before after : NetworkPacketCipher) → Step c before after → Counts before after
Step-Counts c before after (encrypted plaintext e) = elim (encrypt_state c before plaintext) [
  | inl same ↦ rw (e, same) (omega arith, λ h. h, refl)
  | inr (more, count) ↦
      rw (e, more) (omega arith, λ h. below_next before.next_sequence h count, refl)
]
Step-Counts c before after (decrypted packet sender plaintext e) =
    let (receiver, a, m, made) = decrypt-inv c before packet sender (after, plaintext) e in
    rw made (omega arith, λ h. h, refl)
Step-Counts c before after (updated state e) =
    let (peers, u, made) = update_peers-inv c before state after e in
    rw made (omega arith, λ h. h, refl)

Run-Counts :
    (c : Crypto) (start later : NetworkPacketCipher)
    → Run c AnyStep start later
    → Counts start later
Run-Counts c start later here = (omega arith, λ h. h, refl)
Run-Counts c start later (next {before} run step any) =
    let (low, f, p) = Run-Counts c start before run in
    let (high, g, q) = Step-Counts c before later step in (omega arith, λ h. g (f h), q ∙ p)

-- A packet has the next number, and its nonce is the prefix with this number.
pub encrypt_nonce :
    (c : Crypto) (cipher after : NetworkPacketCipher) (plaintext : List ℕ)
    (packet : EncryptedNetworkPacket)
    → encrypt c cipher plaintext ≡ (after, ok packet)
    → (packet.sequence ≡ suc cipher.next_sequence)
      × (packet.nonce ≡ cipher.outgoing_nonce_prefix ++ append_integer 4 packet.sequence)
      × (after.next_sequence ≡ packet.sequence)
      × (after.outgoing_nonce_prefix ≡ cipher.outgoing_nonce_prefix)
      × (cipher.next_sequence ≢ 2 ^ 32 - 1)
encrypt_nonce c cipher after plaintext packet h =
    let (destination, s, counted, sealed) = encrypt-inv c cipher after plaintext packet h in
    let (aad, parts, a, p, l, made) =
      seal_packet-inv c cipher plaintext (unsealed_packet cipher plaintext destination) packet
        sealed in
    let (addresses, i, source, d, hops, count) = sendable-inv cipher plaintext destination s in
    rw (made, counted) (refl, refl, refl, refl, count)

same_sequence :
    (prefix : List ℕ) (a b : ℕ)
    → a < 2 ^ 32
    → b < 2 ^ 32
    → prefix ++ append_integer 4 a ≡ prefix ++ append_integer 4 b
    → a ≡ b
same_sequence prefix a b h k e =
    let suffix : append_integer 4 a ≡ append_integer 4 b =
      sym (drop-append_left prefix (append_integer 4 a))
      ∙ ap (drop (length prefix)) e
      ∙ drop-append_left prefix (append_integer 4 b) in
    sym (mod-eq_of_lt h)
    ∙ sym (be_value-append_integer 4 a)
    ∙ ap be_value suffix
    ∙ be_value-append_integer 4 b
    ∙ mod-eq_of_lt k

-- Two packets that one cipher has encrypted, whatever was called in between, have different nonces,
-- and the later one has the greater sequence number. The count of packets is a 32-bit number.
pub encrypt_fresh_nonce :
    (c : Crypto) (cipher after later last : NetworkPacketCipher) (plaintext other : List ℕ)
    (first second : EncryptedNetworkPacket)
    → cipher.next_sequence < 2 ^ 32
    → encrypt c cipher plaintext ≡ (after, ok first)
    → Run c AnyStep after later
    → encrypt c later other ≡ (last, ok second)
    → (first.sequence < second.sequence) × (first.nonce ≢ second.nonce)
encrypt_fresh_nonce c cipher after later last plaintext other first second h e run d =
    let (s, n, t, p, m) = encrypt_nonce c cipher after plaintext first e in
    let (s', n', t', p', m') = encrypt_nonce c later last other second d in
    let (grown, bounded, q) = Run-Counts c after later run in
    let less : first.sequence < second.sequence = omega arith in
    let small : first.sequence < 2 ^ 32 = rw s (below_next cipher.next_sequence h m) in
    let small' : second.sequence < 2 ^ 32 =
      rw s' (below_next later.next_sequence (bounded (rw t small)) m') in
    (
      less,
      λ same. absurd (
          omega (
            arith,
            less,
            same_sequence cipher.outgoing_nonce_prefix first.sequence second.sequence small small'
                (sym n ∙ same ∙ n' ∙ ap (λ t. t ++ append_integer 4 second.sequence) (q ∙ p)),
          )),
    )
