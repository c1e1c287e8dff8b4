-- ===== src/Auth/PacketCipher/Keys.antt =====
-- Which keys a cipher seals and opens with: those that are derived from the network's key.
use lan_link.Prelude.{
  ℕ, ◌≡◌, inl, inr, refl, not, ◌&&◌, ◌||◌, Option, List, [], leb, ◌==◌, ok, >>=-inv, require-inv,
  ok_injective,
}
use lan_link.Auth.Crypto.{Crypto, or_throw, derive_sender_key, verify_signed_device_key}
use lan_link.Auth.PacketCipher.{NetworkPacketCipher}
use lan_link.Auth.PacketCipher.Methods.{make_cipher}
use lan_link.Auth.PacketCipher.Inversion.{update_peers-inv, decrypt-inv, admitted-inv}
use lan_link.Auth.PacketCipher.Sending.{encrypt_state}
use lan_link.Auth.PacketCipher.PeerKeys.{
  IsSenderKey, ArePeerKeys, update_loop-ArePeerKeys, set_fanout-ArePeerKeys, set_peer-ArePeerKeys,
  mark_received-key,
}
use lan_link.Auth.PacketCipher.Runs.{Step, encrypted, decrypted, updated, Run, here, next, AnyStep}
use lan_link.PeerState.{SignedDeviceKey}
use lan_link.Protocol.Packet.{all_zero}

-- What a cipher can be: what the constructor has returned, after any calls.
pub data IsMade (c : Crypto) (cipher : NetworkPacketCipher) : Type 0 where
  made :
      {start : NetworkPacketCipher} (network_id : List ℕ) (key_epoch : ℕ)
      (network_key own_device_id : List ℕ) (own_signed_key : SignedDeviceKey) (own_address : ℕ)
      (random : Option (List ℕ))
      → make_cipher c network_id key_epoch network_key own_device_id own_signed_key own_address
          random
        ≡ ok start
      → Run c AnyStep start cipher
      → IsMade c cipher

abbrev pub IsKeyed : Crypto → NetworkPacketCipher → Type 0
IsKeyed c cipher =
    IsSenderKey c cipher cipher.own_device_id cipher.own_session_public_key cipher.outgoing_key
    × ArePeerKeys c cipher cipher.peers

make_cipher-IsKeyed :
    (c : Crypto) (network_id : List ℕ) (key_epoch : ℕ) (network_key own_device_id : List ℕ)
    (own_signed_key : SignedDeviceKey) (own_address : ℕ) (random : Option (List ℕ))
    (cipher : NetworkPacketCipher)
    → make_cipher c network_id key_epoch network_key own_device_id own_signed_key own_address random
      ≡ ok cipher
    → IsKeyed c cipher
unfolding make_cipher
make_cipher-IsKeyed c network_id key_epoch network_key own_device_id own_signed_key own_address
      random cipher h =
    let (key, derived, e1) =
      >>=-inv
        (derive_sender_key c network_key network_id key_epoch own_device_id
          own_signed_key.encryption_public_key)
        _ cipher h in
    let (named, e2) = require-inv (not (all_zero network_id || key_epoch == 0)) _ _ cipher e1 in
    let (verified, v, e3) =
      >>=-inv (verify_signed_device_key c own_signed_key own_device_id) _ cipher e2 in
    let (addressed, e4) =
      require-inv (verified && not (own_address == 0 || leb 0xe000_0000 own_address)) _ _ cipher
        e3 in
    let (prefix, p, e5) = >>=-inv (or_throw random) _ cipher e4 in
    rw (ok_injective _ _ cipher refl e5) (derived, λ id receiver found. cc found)

Step-IsKeyed :
    (c : Crypto) (before after : NetworkPacketCipher)
    → Step c before after
    → IsKeyed c before
    → IsKeyed c after
Step-IsKeyed c before after (encrypted plaintext e) (own, keys) =
    elim (encrypt_state c before plaintext) [
      | inl same ↦ rw (e, same) (own, keys)
      | inr (more, count) ↦ rw (e, more) (own, keys)
    ]
Step-IsKeyed c before after (decrypted packet sender plaintext e) (own, keys) =
    let (receiver, a, m, changed) = decrypt-inv c before packet sender (after, plaintext) e in
    let (found, fresh) = admitted-inv before packet sender receiver a in
    let (session, key) = mark_received-key receiver packet in
    rw changed (own, set_peer-ArePeerKeys c before keys sender receiver _ found session key)
Step-IsKeyed c before after (updated state e) (own, keys) =
    let (peers, u, changed) = update_peers-inv c before state after e in
    let loop =
      update_loop-ArePeerKeys c before keys state.policy state.peers [] peers u
        (λ id receiver found. cc found) in
    rw changed (own, set_fanout-ArePeerKeys c before keys state.policy peers loop)

Run-IsKeyed :
    (c : Crypto) (start later : NetworkPacketCipher)
    → Run c AnyStep start later
    → IsKeyed c start
    → IsKeyed c later
Run-IsKeyed c start later here keyed = keyed
Run-IsKeyed c start later (next {before} run step any) keyed =
    Step-IsKeyed c before later step (Run-IsKeyed c start before run keyed)

-- A cipher that the constructor made, after any calls, seals with the key that is derived from its
-- network's key, id and epoch for its own id and session key, and it keeps for each of its peers the
-- key that is derived so for that peer's id and session key.
pub IsMade-IsKeyed :
    (c : Crypto) (cipher : NetworkPacketCipher) → IsMade c cipher → IsKeyed c cipher
IsMade-IsKeyed c cipher (made {start} id epoch key own_id signed address random m run) =
    Run-IsKeyed c start cipher run
      (make_cipher-IsKeyed c id epoch key own_id signed address random start m)
