-- ===== src/Auth/PacketCipher/Runs.antt =====
-- What a cipher can come to: the calls of its methods, one after the other. A call that throws leaves
-- the cipher as it was, but for `encrypt`.
use lan_link.Prelude.{ℕ, ◌≡◌, some, List, ok}
use lan_link.Auth.Crypto.{Crypto}
use lan_link.Auth.PacketCipher.{NetworkPacketCipher, PeerReceiver, find_peer}
use lan_link.Auth.PacketCipher.Methods.{encrypt, decrypt, update_peers}
use lan_link.PeerState.{NetworkPeerState}
use lan_link.Protocol.Packet.{EncryptedNetworkPacket}

pub data Step (c : Crypto) (before after : NetworkPacketCipher) : Type 0 where
  encrypted : (plaintext : List ℕ) → after ≡ (encrypt c before plaintext).0 → Step c before after
  decrypted :
      (packet : EncryptedNetworkPacket) (sender plaintext : List ℕ)
      → decrypt c before packet sender ≡ ok (after, plaintext)
      → Step c before after
  updated :
      (state : NetworkPeerState) → update_peers c before state ≡ ok after → Step c before after

-- Steps of which each has the property `P`.
pub data Run (c : Crypto) (P : NetworkPacketCipher → NetworkPacketCipher → Type 0)
    (start : NetworkPacketCipher) : NetworkPacketCipher → Type 0 where
  here : Run c P start start
  next :
      {before after : NetworkPacketCipher}
      → Run c P start before
      → Step c before after
      → P before after
      → Run c P start after

abbrev pub AnyStep : NetworkPacketCipher → NetworkPacketCipher → Type 0
AnyStep before after = Unit

-- The peer is in both, with the same session key and the same address.
abbrev pub Keeps : List ℕ → NetworkPacketCipher → NetworkPacketCipher → Type 0
Keeps peer before after =
    (old : PeerReceiver)
    → find_peer before.peers peer ≡ some old
    → (new : PeerReceiver) × (find_peer after.peers peer ≡ some new)
      × (new.session_public_key ≡ old.session_public_key)
      × (new.ipv4_address ≡ old.ipv4_address)
