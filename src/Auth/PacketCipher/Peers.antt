-- ===== src/Auth/PacketCipher/Peers.antt =====
-- The map of the peers under its operations, and what an update keeps of it.
use lan_link.Auth.PacketCipher.Inversion.{update_peers-inv}
use lan_link.Auth.Crypto.{derive_sender_key, verify_signed_device_key, Crypto}
use lan_link.Prelude.{
  ℕ, ◌≡◌, ◌≢◌, ◌⊎◌, inl, inr, refl, sym, ap, ◌∙◌, subst, false, not, Option, none, some, List, [],
  ◌∷◌, arith, Bool-cases, ok, >>=-inv, require-inv, ok_injective, bytes_eq, bytes_eq→eq,
  bytes_eq_refl, bytes_eq_of_ne,
}
use lan_link.Auth.PacketCipher.{NetworkPacketCipher, PeerReceiver, find_peer, set_peer}
use lan_link.Auth.PacketCipher.Methods.{
  emplace, set_fanout, update_peer, update_loop, update_peers, receiver_for, derived_receiver,
  same_session, denied, fanout_allowed_for,
}
use lan_link.PeerState.{NetworkPeerState, NetworkPeer, SignedDeviceKey}
use lan_link.Policy.{NetworkPolicy}

pub find_peer-set_peer :
    (peers : List (List ℕ × PeerReceiver)) (id : List ℕ) (old new : PeerReceiver)
    → find_peer peers id ≡ some old
    → find_peer (set_peer peers id new) id ≡ some new
find_peer-set_peer [] id old new h = cc
find_peer-set_peer (entry ∷ peers) id old new h = elim (Bool-cases (bytes_eq entry.0 id)) [
  | inl same ↦ rw (same, same) refl
  | inr other ↦ rw (other, other) (find_peer-set_peer peers id old new (rw other at h))
]

pub find_peer-set_other :
    (peers : List (List ℕ × PeerReceiver)) (id other : List ℕ) (new : PeerReceiver)
    → id ≢ other
    → find_peer (set_peer peers id new) other ≡ find_peer peers other
find_peer-set_other [] id other new apart = refl
find_peer-set_other (entry ∷ peers) id other new apart = elim (Bool-cases (bytes_eq entry.0 id)) [
  | inl same ↦
      let first : bytes_eq entry.0 other ≡ false =
        bytes_eq_of_ne _ _ (λ e. apart (sym (bytes_eq→eq _ _ same) ∙ e)) in
      rw (same, first) refl
  | inr first ↦ elim (Bool-cases (bytes_eq entry.0 other)) [
    | inl same ↦ rw (first, same) refl
    | inr second ↦ rw (first, second) (find_peer-set_other peers id other new apart)
  ]
]

pub find_peer-emplace :
    (peers : List (List ℕ × PeerReceiver)) (id peer : List ℕ) (receiver found : PeerReceiver)
    → find_peer (emplace peers id receiver) peer ≡ some found
    → (find_peer peers peer ≡ some found) ⊎ ((id ≡ peer) × (found ≡ receiver))
unfolding emplace
find_peer-emplace [] id peer receiver found h = elim (Bool-cases (bytes_eq id peer)) [
  | inl same ↦ inr (bytes_eq→eq id peer same, cc (rw same at h))
  | inr other ↦ cc (rw other at h)
]
find_peer-emplace (entry ∷ peers) id peer receiver found h =
    elim (Bool-cases (bytes_eq entry.0 id)) [
      | inl there ↦ inl (rw there at h)
      | inr not_there ↦ elim (Bool-cases (bytes_eq entry.0 peer)) [
        | inl same ↦ rw same (inl (rw (not_there, same) at h))
        | inr other ↦
            rw other (find_peer-emplace peers id peer receiver found (rw (not_there, other) at h))
      ]
    ]

-- What is found after the fanout was set was there, and differs in that at most.
pub find_peer-set_fanout :
    (policy : Option NetworkPolicy) (own_id peer : List ℕ) (peers : List (List ℕ × PeerReceiver))
    (found : PeerReceiver)
    → find_peer (set_fanout policy own_id peers) peer ≡ some found
    → (old : PeerReceiver) × (find_peer peers peer ≡ some old)
      × (found ≡ record old { fanout_allowed = fanout_allowed_for policy own_id peer })
unfolding set_fanout
find_peer-set_fanout policy own_id peer [] found h = cc
find_peer-set_fanout policy own_id peer (entry ∷ peers) found h =
    elim (Bool-cases (bytes_eq entry.0 peer)) [
      | inl same ↦ rw same (
        entry.1,
        refl,
        cc (rw same at h)
            ∙ ap (λ id. record entry.1 { fanout_allowed = fanout_allowed_for policy own_id id })
                (bytes_eq→eq entry.0 peer same),
      )
      | inr other ↦ rw other (find_peer-set_fanout policy own_id peer peers found (rw other at h))
    ]

-- What is found of a peer that has kept its endpoint is what there was.
abbrev IsKept : List ℕ → PeerReceiver → List (List ℕ × PeerReceiver) → Type 0
IsKept peer old peers =
    (found : PeerReceiver)
    → find_peer peers peer ≡ some found
    → found.session_public_key ≡ old.session_public_key
    → found.ipv4_address ≡ old.ipv4_address
    → found ≡ old

derived_receiver_endpoint :
    (c : Crypto) (cipher : NetworkPacketCipher) (id key : List ℕ) (address : ℕ)
    (receiver : PeerReceiver)
    → derived_receiver c cipher id key address ≡ ok receiver
    → (receiver.session_public_key ≡ key) × (receiver.ipv4_address ≡ address)
derived_receiver_endpoint c cipher id key address receiver h =
    let (secret, derived, made) =
      >>=-inv (derive_sender_key c cipher.network_key cipher.network_id cipher.key_epoch id key) _
        receiver h in
    (cc made, cc made)

module _ (c : Crypto) (cipher : NetworkPacketCipher) (peer : List ℕ) (old : PeerReceiver)
    (there : find_peer cipher.peers peer ≡ some old) where
  receiver_for-kept :
      (id key : List ℕ) (address : ℕ) (receiver : PeerReceiver)
      → receiver_for c cipher id key address (some old) ≡ ok receiver
      → receiver.session_public_key ≡ old.session_public_key
      → receiver.ipv4_address ≡ old.ipv4_address
      → receiver ≡ old
  receiver_for-kept id key address receiver h same_key same_address =
      elim (Bool-cases (same_session old key address)) [
        | inl same ↦ cc (rw same at h)
        | inr other ↦
            let (k, a) =
              derived_receiver_endpoint c cipher id key address receiver (rw other at h) in
            absurd (ground (arith, other, bytes_eq_refl key))
      ]

  emplace-IsKept :
      (id key : List ℕ) (address : ℕ) (receiver : PeerReceiver)
      (peers : List (List ℕ × PeerReceiver))
      → receiver_for c cipher id key address (find_peer cipher.peers id) ≡ ok receiver
      → IsKept peer old peers
      → IsKept peer old (emplace peers id receiver)
  emplace-IsKept id key address receiver peers r kept found h same_key same_address =
      elim (find_peer-emplace peers id peer receiver found h) [
        | inl e ↦ kept found e same_key same_address
        | inr (this, e) ↦
            let known : find_peer cipher.peers id ≡ some old = rw this there in
            e
            ∙ receiver_for-kept id key address receiver (rw known at r) (rw (← e) same_key)
                (rw (← e) same_address)
      ]

  update_peer-IsKept :
      (policy : Option NetworkPolicy) (next : NetworkPeer) (key : Option SignedDeviceKey)
      (before after : List (List ℕ × PeerReceiver))
      → update_peer c cipher policy next key before ≡ ok after
      → IsKept peer old before
      → IsKept peer old after
  unfolding update_peer
  update_peer-IsKept policy next none before after h kept = subst (IsKept peer old) (cc h) kept
  update_peer-IsKept policy next (some key) before after h kept =
      elim (Bool-cases (denied policy cipher.own_device_id next.device_id)) [
        | inl refused ↦ subst (IsKept peer old) (cc (rw refused at h)) kept
        | inr allowed ↦
            let id = next.device_id in
            let (foreign, e1) =
              require-inv (not (bytes_eq id cipher.own_device_id)) _ _ after (rw allowed at h) in
            let (verified, v, e2) = >>=-inv (verify_signed_device_key c key id) _ after e1 in
            let (valid, e3) = require-inv verified _ _ after e2 in
            let (receiver, r, e4) =
              >>=-inv
                (receiver_for c cipher id key.encryption_public_key next.ipv4_address
                  (find_peer cipher.peers id))
                _ after e3 in
            subst (IsKept peer old) (sym (ok_injective _ _ after refl e4))
              (emplace-IsKept id key.encryption_public_key next.ipv4_address receiver before r kept)
      ]

  update_loop-IsKept :
      (policy : Option NetworkPolicy) (peers : List NetworkPeer)
      (before after : List (List ℕ × PeerReceiver))
      → update_loop c cipher policy peers before ≡ ok after
      → IsKept peer old before
      → IsKept peer old after
  unfolding update_loop
  update_loop-IsKept policy [] before after h kept = subst (IsKept peer old) (cc h) kept
  update_loop-IsKept policy (next ∷ peers) before after h kept =
      let (middle, first, rest) =
        >>=-inv (update_peer c cipher policy next next.signed_key before) _ after h in
      update_loop-IsKept policy peers middle after rest
        (update_peer-IsKept policy next next.signed_key before middle first kept)

  -- After an update, a peer with the same endpoint has its window still.
  pub update_peers_window :
      (state : NetworkPeerState) (after : NetworkPacketCipher) (new : PeerReceiver)
      → update_peers c cipher state ≡ ok after
      → find_peer after.peers peer ≡ some new
      → new.session_public_key ≡ old.session_public_key
      → new.ipv4_address ≡ old.ipv4_address
      → (new.initialized ≡ old.initialized)
        × (new.highest_sequence ≡ old.highest_sequence)
        × (new.seen_sequences ≡ old.seen_sequences)
  update_peers_window state after new h found same_key same_address =
      let (updated, u, made) = update_peers-inv c cipher state after h in
      let (previous, p, q) =
        find_peer-set_fanout state.policy cipher.own_device_id peer updated new
          (rw (ap (λ (t : NetworkPacketCipher). t.peers) made) at found) in
      let same : previous ≡ old =
        update_loop-IsKept state.policy state.peers [] updated u (λ found e a b. cc e) previous p
          (rw (ap (λ (t : PeerReceiver). t.session_public_key) q) at same_key)
          (rw (ap (λ (t : PeerReceiver). t.ipv4_address) q) at same_address) in
      (
        ap (λ (t : PeerReceiver). t.initialized) q ∙ ap (λ (t : PeerReceiver). t.initialized) same,
        ap (λ (t : PeerReceiver). t.highest_sequence) q
            ∙ ap (λ (t : PeerReceiver). t.highest_sequence) same,
        ap (λ (t : PeerReceiver). t.seen_sequences) q
            ∙ ap (λ (t : PeerReceiver). t.seen_sequences) same,
      )
