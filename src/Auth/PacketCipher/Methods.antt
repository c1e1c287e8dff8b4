-- ===== src/Auth/PacketCipher/Methods.antt =====
-- The methods of `NetworkPacketCipher`. The random prefix of the nonces is an argument of the
-- constructor, `none` where no random bytes could be had.
use lan_link.Prelude.{
  overflow_error, ℕ, suc, ◌-◌, ◌^◌, Bool, true, false, not, ◌&&◌, ◌||◌, Option, none, some, List,
  [], ◌∷◌, ◌++◌, leb, ◌==◌, if◌then◌else◌, Result, ok, throw, ◌>>=◌, ◌>>◌, Exception,
  invalid_argument, runtime_error, require, length, take, replicate, bytes_eq,
}
use lan_link.Bytes.{append_integer}
use lan_link.Auth.Crypto.{Crypto, or_throw, verify_signed_device_key, derive_sender_key}
use lan_link.Auth.Window.{accept_sequence, mark}
use lan_link.Auth.PacketCipher.{
  NetworkPacketCipher, PeerReceiver, byte_at, ipv4_addresses, authenticated_data, find_peer,
  set_peer, some_peer_has_address, some_peer_has_fanout,
}
use lan_link.PeerState.{SignedDeviceKey, NetworkPeer, NetworkPeerState, encode_network_peer_state}
use lan_link.Policy.{NetworkPolicy, policy_allows, policy_fanout_allows}
use lan_link.Protocol.Fanout.{is_ipv4_host, is_ipv4_fanout_destination}
use lan_link.Protocol.Packet.{
  EncryptedNetworkPacket, all_zero, encode_encrypted_network_packet_header,
}

abbrev pub fanout_to : NetworkPacketCipher → ℕ → Bool
fanout_to cipher destination =
    is_ipv4_fanout_destination destination cipher.subnet_address cipher.prefix_length

-- `peers.emplace(id, receiver)`, which leaves an entry that is there.
unfoldable pub emplace :
    List (List ℕ × PeerReceiver) → List ℕ → PeerReceiver → List (List ℕ × PeerReceiver)
emplace [] id receiver = (id, receiver) ∷ []
emplace (entry ∷ peers) id receiver =
    if bytes_eq entry.0 id then entry ∷ peers else entry ∷ emplace peers id receiver

abbrev pub denied : Option NetworkPolicy → List ℕ → List ℕ → Bool
denied none own_id id = false
denied (some policy) own_id id = not (policy_allows policy own_id id)

abbrev pub fanout_allowed_for : Option NetworkPolicy → List ℕ → List ℕ → Bool
fanout_allowed_for none own_id id = true
fanout_allowed_for (some policy) own_id id = policy_fanout_allows policy own_id id

abbrev pub is_managed : Option NetworkPolicy → Bool
is_managed none = false
is_managed (some policy) = policy.managed

unfoldable pub set_fanout :
    Option NetworkPolicy → List ℕ → List (List ℕ × PeerReceiver) → List (List ℕ × PeerReceiver)
set_fanout policy own_id [] = []
set_fanout policy own_id (entry ∷ peers) =
    (entry.0, record entry.1 { fanout_allowed = fanout_allowed_for policy own_id entry.0 })
    ∷ set_fanout policy own_id peers

abbrev pub new_receiver : List ℕ → ℕ → List ℕ → PeerReceiver
new_receiver session_public_key address key = record {
  session_public_key = session_public_key;
  ipv4_address = address;
  encryption_key = key;
  nonce_prefix = replicate 8 0;
  highest_sequence = 0;
  seen_sequences = 0;
  initialized = false;
  fanout_allowed = true;
}

abbrev pub same_session : PeerReceiver → List ℕ → ℕ → Bool
same_session previous session_public_key address =
    bytes_eq previous.session_public_key session_public_key && previous.ipv4_address == address

-- The checks of `encrypt` on the packet and its destination, which they give.
unfoldable pub sendable : NetworkPacketCipher → List ℕ → Result Exception ℕ
sendable cipher packet = do
  addresses ← ipv4_addresses packet
  require
      (not (
        not (addresses.0 == cipher.own_ipv4_address)
        || addresses.1 == 0
        || addresses.1 == cipher.own_ipv4_address))
      invalid_argument
  require
      (not (
        cipher.managed
        && ((not (fanout_to cipher addresses.1)
              && not (some_peer_has_address cipher.peers addresses.1))
            || (fanout_to cipher addresses.1 && not (some_peer_has_fanout cipher.peers)))))
      invalid_argument
  require
      (not (
        (not (fanout_to cipher addresses.1)
          && not (is_ipv4_host addresses.1 cipher.subnet_address cipher.prefix_length))
        || (fanout_to cipher addresses.1 && byte_at packet 8 == 0)))
      invalid_argument
  require (not (cipher.next_sequence == 2 ^ 32 - 1)) overflow_error
  ok addresses.1

abbrev pub unsealed_packet : NetworkPacketCipher → List ℕ → ℕ → EncryptedNetworkPacket
unsealed_packet cipher plaintext destination = record {
  network_id = cipher.network_id;
  destination_ipv4 = destination;
  key_epoch = cipher.key_epoch;
  sequence = suc cipher.next_sequence;
  nonce = cipher.outgoing_nonce_prefix ++ append_integer 4 (suc cipher.next_sequence);
  ciphertext = replicate (length plaintext) 0;
  tag = replicate 16 0;
}

abbrev pub with_next_sequence : NetworkPacketCipher → NetworkPacketCipher
with_next_sequence cipher = record cipher { next_sequence = suc cipher.next_sequence }

-- What `decrypt` makes of the receiver of a packet that was authenticated.
unfoldable pub mark_received : PeerReceiver → EncryptedNetworkPacket → PeerReceiver
mark_received receiver packet =
    if not receiver.initialized
    then record receiver {
      nonce_prefix = take 8 packet.nonce;
      highest_sequence = packet.sequence;
      seen_sequences = 1;
      initialized = true;
    }
    else record receiver {
      highest_sequence = (mark packet.sequence receiver.highest_sequence receiver.seen_sequences).0;
      seen_sequences = (mark packet.sequence receiver.highest_sequence receiver.seen_sequences).1;
    }

-- The checks of `decrypt` before the packet is opened.
unfoldable pub admitted :
    NetworkPacketCipher → EncryptedNetworkPacket → List ℕ → Result Exception PeerReceiver
admitted cipher packet sender = do
  header ← encode_encrypted_network_packet_header packet
  require (bytes_eq packet.network_id cipher.network_id && packet.key_epoch == cipher.key_epoch)
      runtime_error
  require
      (packet.destination_ipv4 == cipher.own_ipv4_address
        || fanout_to cipher packet.destination_ipv4)
      runtime_error
  receiver ← or_throw (find_peer cipher.peers sender)
  require (not (fanout_to cipher packet.destination_ipv4 && not receiver.fanout_allowed))
      runtime_error
  require
      (not (
        receiver.initialized
        && (not (bytes_eq receiver.nonce_prefix (take 8 packet.nonce))
            || not (
                accept_sequence packet.sequence receiver.highest_sequence
                  receiver.seen_sequences))))
      runtime_error
  ok receiver

-- The addresses in the packet, compared with what was announced; the comparison catches what
-- `ipv4_addresses` throws.
abbrev pub addresses_match :
    NetworkPacketCipher
    → EncryptedNetworkPacket
    → PeerReceiver
    → List ℕ
    → Result Exception (ℕ × ℕ)
    → Bool
addresses_match cipher packet receiver plaintext (throw thrown) = false
addresses_match cipher packet receiver plaintext (ok addresses) =
    addresses.0 == receiver.ipv4_address
    && addresses.1 == packet.destination_ipv4
    && (not (fanout_to cipher addresses.1) || not (byte_at plaintext 8 == 0))

module _ (c : Crypto) where
  unfoldable pub make_cipher :
      List ℕ
      → ℕ
      → List ℕ
      → List ℕ
      → SignedDeviceKey
      → ℕ
      → Option (List ℕ)
      → Result Exception NetworkPacketCipher
  make_cipher network_id key_epoch network_key own_device_id own_signed_key own_address random = do
    key ←
        derive_sender_key c network_key network_id key_epoch own_device_id
          own_signed_key.encryption_public_key
    require (not (all_zero network_id || key_epoch == 0)) invalid_argument
    verified ← verify_signed_device_key c own_signed_key own_device_id
    require (verified && not (own_address == 0 || leb 0xe000_0000 own_address)) invalid_argument
    prefix ← or_throw random
    ok (record {
      network_id = network_id;
      key_epoch = key_epoch;
      network_key = network_key;
      own_device_id = own_device_id;
      own_session_public_key = own_signed_key.encryption_public_key;
      own_ipv4_address = own_address;
      subnet_address = 0;
      prefix_length = 0;
      managed = false;
      outgoing_key = key;
      outgoing_nonce_prefix = prefix;
      next_sequence = 0;
      peers = [];
    })

  abbrev pub derived_receiver :
      NetworkPacketCipher → List ℕ → List ℕ → ℕ → Result Exception PeerReceiver
  derived_receiver cipher id session_public_key address = do
    key ←
        derive_sender_key c cipher.network_key cipher.network_id cipher.key_epoch id
          session_public_key
    ok (new_receiver session_public_key address key)

  abbrev pub receiver_for :
      NetworkPacketCipher
      → List ℕ
      → List ℕ
      → ℕ
      → Option PeerReceiver
      → Result Exception PeerReceiver
  receiver_for cipher id session_public_key address none =
      derived_receiver cipher id session_public_key address
  receiver_for cipher id session_public_key address (some previous) =
      let derived = derived_receiver cipher id session_public_key address in
      if same_session previous session_public_key address then ok previous else derived

  -- One round of the loop over the peers of a state.
  unfoldable pub update_peer :
      NetworkPacketCipher
      → Option NetworkPolicy
      → NetworkPeer
      → Option SignedDeviceKey
      → List (List ℕ × PeerReceiver)
      → Result Exception (List (List ℕ × PeerReceiver))
  update_peer cipher policy peer none updated = ok updated
  update_peer cipher policy peer (some key) updated =
      if denied policy cipher.own_device_id peer.device_id then ok updated else do
        require (not (bytes_eq peer.device_id cipher.own_device_id)) invalid_argument
        verified ← verify_signed_device_key c key peer.device_id
        require verified invalid_argument
        receiver ←
            receiver_for cipher peer.device_id key.encryption_public_key peer.ipv4_address
              (find_peer cipher.peers peer.device_id)
        ok (emplace updated peer.device_id receiver)

  unfoldable pub update_loop :
      NetworkPacketCipher
      → Option NetworkPolicy
      → List NetworkPeer
      → List (List ℕ × PeerReceiver)
      → Result Exception (List (List ℕ × PeerReceiver))
  update_loop cipher policy [] updated = ok updated
  update_loop cipher policy (peer ∷ peers) updated = do
    next ← update_peer cipher policy peer peer.signed_key updated
    update_loop cipher policy peers next

  unfoldable pub update_peers :
      NetworkPacketCipher → NetworkPeerState → Result Exception NetworkPacketCipher
  update_peers cipher state = do
    require
        (bytes_eq state.network_id cipher.network_id
          && state.key_epoch == cipher.key_epoch
          && state.own_address == cipher.own_ipv4_address)
        invalid_argument
    encoded ← encode_network_peer_state state
    updated ← update_loop cipher state.policy state.peers []
    ok (record cipher {
      peers = set_fanout state.policy cipher.own_device_id updated;
      managed = is_managed state.policy;
      subnet_address = state.subnet_address;
      prefix_length = state.prefix_length;
    })

  -- The packet with its ciphertext and its tag.
  abbrev pub seal_packet :
      NetworkPacketCipher
      → List ℕ
      → EncryptedNetworkPacket
      → Result Exception EncryptedNetworkPacket
  seal_packet cipher plaintext packet = do
    aad ←
        authenticated_data packet cipher.own_device_id cipher.own_session_public_key
          cipher.own_ipv4_address
    sealed ← or_throw (c.seal cipher.outgoing_key packet.nonce aad plaintext)
    require (length (sealed.0) == length packet.ciphertext) runtime_error
    ok (record packet { ciphertext = sealed.0; tag = sealed.1 })

  abbrev pub seal_next :
      NetworkPacketCipher
      → List ℕ
      → Result Exception ℕ
      → NetworkPacketCipher × Result Exception EncryptedNetworkPacket
  seal_next cipher plaintext (throw thrown) = (cipher, throw thrown)
  seal_next cipher plaintext (ok destination) = (
    with_next_sequence cipher,
    seal_packet cipher plaintext (unsealed_packet cipher plaintext destination),
  )

  unfoldable pub encrypt :
      NetworkPacketCipher → List ℕ → NetworkPacketCipher × Result Exception EncryptedNetworkPacket
  encrypt cipher plaintext = seal_next cipher plaintext (sendable cipher plaintext)

  unfoldable pub decrypt :
      NetworkPacketCipher
      → EncryptedNetworkPacket
      → List ℕ
      → Result Exception (NetworkPacketCipher × List ℕ)
  decrypt cipher packet sender = do
    receiver ← admitted cipher packet sender
    aad ← authenticated_data packet sender receiver.session_public_key receiver.ipv4_address
    plaintext ←
        or_throw
          (c.open_sealed receiver.encryption_key packet.nonce aad packet.ciphertext packet.tag)
    require (length plaintext == length packet.ciphertext) runtime_error
    require (addresses_match cipher packet receiver plaintext (ipv4_addresses plaintext))
        runtime_error
    ok (
      record cipher { peers = set_peer cipher.peers sender (mark_received receiver packet) },
      plaintext,
    )
