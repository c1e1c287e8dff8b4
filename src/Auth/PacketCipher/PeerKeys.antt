-- ===== src/Auth/PacketCipher/PeerKeys.antt =====
-- The keys for the peers, under what changes the map of them.
use lan_link.Prelude.{
  ℕ, ◌≡◌, inl, inr, refl, sym, ◌∙◌, subst, not, Option, none, some, List, [], ◌∷◌, Bool-cases, ok,
  >>=-inv, require-inv, ok_injective, bytes_eq, bytes_eq→eq, ne_of_bytes_eq,
}
use lan_link.Auth.Crypto.{Crypto, derive_sender_key, verify_signed_device_key}
use lan_link.Auth.PacketCipher.{NetworkPacketCipher, PeerReceiver, find_peer, set_peer}
use lan_link.Auth.PacketCipher.Methods.{
  update_peer, update_loop, receiver_for, derived_receiver, emplace, set_fanout, same_session,
  denied, mark_received,
}
use lan_link.Auth.PacketCipher.Peers.{
  find_peer-set_peer, find_peer-set_other, find_peer-emplace, find_peer-set_fanout,
}
use lan_link.PeerState.{NetworkPeer, SignedDeviceKey}
use lan_link.Policy.{NetworkPolicy}
use lan_link.Protocol.Packet.{EncryptedNetworkPacket}

-- The key is the one of the sender with the id and the session key in the cipher's network.
abbrev pub IsSenderKey : Crypto → NetworkPacketCipher → List ℕ → List ℕ → List ℕ → Type 0
IsSenderKey c cipher id session_public_key key =
    derive_sender_key c cipher.network_key cipher.network_id cipher.key_epoch id session_public_key
    ≡ ok key

-- The key for each peer that is found is the key of that sender.
abbrev pub ArePeerKeys : Crypto → NetworkPacketCipher → List (List ℕ × PeerReceiver) → Type 0
ArePeerKeys c cipher peers =
    (id : List ℕ) (receiver : PeerReceiver)
    → find_peer peers id ≡ some receiver
    → IsSenderKey c cipher id receiver.session_public_key receiver.encryption_key

module _ (c : Crypto) (cipher : NetworkPacketCipher)
    (keys : ArePeerKeys c cipher cipher.peers) where
  derived_receiver-key :
      (id session : List ℕ) (address : ℕ) (receiver : PeerReceiver)
      → derived_receiver c cipher id session address ≡ ok receiver
      → IsSenderKey c cipher id receiver.session_public_key receiver.encryption_key
  derived_receiver-key id session address receiver h =
      let (key, derived, e) =
        >>=-inv
          (derive_sender_key c cipher.network_key cipher.network_id cipher.key_epoch id session) _
          receiver h in
      rw (ok_injective _ _ receiver refl e) derived

  receiver_for-key :
      (id session : List ℕ) (address : ℕ) (receiver : PeerReceiver) (known : Option PeerReceiver)
      → find_peer cipher.peers id ≡ known
      → receiver_for c cipher id session address known ≡ ok receiver
      → IsSenderKey c cipher id receiver.session_public_key receiver.encryption_key
  receiver_for-key id session address receiver none found h =
      derived_receiver-key id session address receiver h
  receiver_for-key id session address receiver (some old) found h =
      elim (Bool-cases (same_session old session address)) [
        | inl same ↦
            let kept : old ≡ receiver = cc (rw same at h) in rw (← kept) (keys id old found)
        | inr other ↦ derived_receiver-key id session address receiver (rw other at h)
      ]

  emplace-ArePeerKeys :
      (id : List ℕ) (receiver : PeerReceiver) (peers : List (List ℕ × PeerReceiver))
      → IsSenderKey c cipher id receiver.session_public_key receiver.encryption_key
      → ArePeerKeys c cipher peers
      → ArePeerKeys c cipher (emplace peers id receiver)
  emplace-ArePeerKeys id receiver peers derived before peer found h =
      elim (find_peer-emplace peers id peer receiver found h) [
        | inl e ↦ before peer found e
        | inr (this, e) ↦ rw (e, ← this) derived
      ]

  update_peer-ArePeerKeys :
      (policy : Option NetworkPolicy) (peer : NetworkPeer) (key : Option SignedDeviceKey)
      (before after : List (List ℕ × PeerReceiver))
      → update_peer c cipher policy peer key before ≡ ok after
      → ArePeerKeys c cipher before
      → ArePeerKeys c cipher after
  unfolding update_peer
  update_peer-ArePeerKeys policy peer none before after h good =
      subst (ArePeerKeys c cipher) (cc h) good
  update_peer-ArePeerKeys policy peer (some key) before after h good =
      elim (Bool-cases (denied policy cipher.own_device_id peer.device_id)) [
        | inl refused ↦ subst (ArePeerKeys c cipher) (cc (rw refused at h)) good
        | inr allowed ↦
            let id = peer.device_id in
            let session = key.encryption_public_key in
            let (foreign, e1) =
              require-inv (not (bytes_eq id cipher.own_device_id)) _ _ after (rw allowed at h) in
            let (verified, v, e2) = >>=-inv (verify_signed_device_key c key id) _ after e1 in
            let (valid, e3) = require-inv verified _ _ after e2 in
            let (receiver, r, e4) =
              >>=-inv
                (receiver_for c cipher id session peer.ipv4_address (find_peer cipher.peers id)) _
                after e3 in
            subst (ArePeerKeys c cipher) (sym (ok_injective _ _ after refl e4)) (
              emplace-ArePeerKeys id receiver before
                (receiver_for-key id session peer.ipv4_address receiver (find_peer cipher.peers id)
                  refl r)
                good)
      ]

  pub update_loop-ArePeerKeys :
      (policy : Option NetworkPolicy) (peers : List NetworkPeer)
      (before after : List (List ℕ × PeerReceiver))
      → update_loop c cipher policy peers before ≡ ok after
      → ArePeerKeys c cipher before
      → ArePeerKeys c cipher after
  unfolding update_loop
  update_loop-ArePeerKeys policy [] before after h good = subst (ArePeerKeys c cipher) (cc h) good
  update_loop-ArePeerKeys policy (peer ∷ peers) before after h good =
      let (middle, first, rest) =
        >>=-inv (update_peer c cipher policy peer peer.signed_key before) _ after h in
      update_loop-ArePeerKeys policy peers middle after rest
        (update_peer-ArePeerKeys policy peer peer.signed_key before middle first good)

  pub set_fanout-ArePeerKeys :
      (policy : Option NetworkPolicy) (peers : List (List ℕ × PeerReceiver))
      → ArePeerKeys c cipher peers
      → ArePeerKeys c cipher (set_fanout policy cipher.own_device_id peers)
  set_fanout-ArePeerKeys policy peers good id receiver found =
      let (old, there, e) =
        find_peer-set_fanout policy cipher.own_device_id id peers receiver found in
      rw e (good id old there)

  pub set_peer-ArePeerKeys :
      (id : List ℕ) (old new : PeerReceiver)
      → find_peer cipher.peers id ≡ some old
      → new.session_public_key ≡ old.session_public_key
      → new.encryption_key ≡ old.encryption_key
      → ArePeerKeys c cipher (set_peer cipher.peers id new)
  set_peer-ArePeerKeys id old new there session key peer found h =
      elim (Bool-cases (bytes_eq id peer)) [
        | inl same ↦
            let this : id ≡ peer = bytes_eq→eq id peer same in
            let is_new : found ≡ new =
              cc (h, this, find_peer-set_peer cipher.peers id old new there) in
            rw (is_new, session, key, ← this) (keys id old there)
        | inr other ↦
            keys peer found (
              sym (find_peer-set_other cipher.peers id peer new (ne_of_bytes_eq id peer other)) ∙ h)
      ]

-- A packet that is received changes neither the session key nor the key.
pub mark_received-key :
    (receiver : PeerReceiver) (packet : EncryptedNetworkPacket)
    → ((mark_received receiver packet).session_public_key ≡ receiver.session_public_key)
      × ((mark_received receiver packet).encryption_key ≡ receiver.encryption_key)
unfolding mark_received
mark_received-key receiver packet = elim (Bool-cases receiver.initialized) [
  | inl old ↦ rw old (refl, refl)
  | inr new ↦ rw new (refl, refl)
]
