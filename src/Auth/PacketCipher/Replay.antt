-- ===== src/Auth/PacketCipher/Replay.antt =====
-- A packet that was accepted is not accepted again.
use lan_link.Prelude.{ℕ, ◌≡◌, true, false, some, List}
use lan_link.Auth.Crypto.{Crypto}
use lan_link.Auth.Window.{accept_sequence}
use lan_link.Auth.PacketCipher.{NetworkPacketCipher, PeerReceiver, find_peer}

-- The window of a receiver refuses a sequence number.
abbrev Refuses : ℕ → PeerReceiver → Type 0
Refuses s receiver =
    (receiver.initialized ≡ true)
    × (accept_sequence s receiver.highest_sequence receiver.seen_sequences ≡ false)

abbrev IsUsed : List ℕ → ℕ → NetworkPacketCipher → Type 0
IsUsed peer s cipher =
    (receiver : PeerReceiver) × (find_peer cipher.peers peer ≡ some receiver) × Refuses s receiver
