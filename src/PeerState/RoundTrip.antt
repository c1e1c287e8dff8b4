-- ===== src/PeerState/RoundTrip.antt =====
-- The state of a network's peers, to bytes and back.
use lan_link.Prelude.{
  ℕ, ◌^◌, ◌≤◌, ◌<◌, ◌≡◌, refl, sym, ap, ◌∙◌, true, Option, none, some, List, [], ◌∷◌, ◌++◌,
  append-nil, append_assoc, arith, Result, ok, throw, Exception, invalid_argument, runtime_error,
  ok_injective, length, All, length-append,
}
use lan_link.Bytes.{append_integer, length-append_integer}
use lan_link.Policy.{NetworkPolicy}
use lan_link.Policy.Decode.{decode_network_policy, read_policy}
use lan_link.Policy.RoundTrip.Whole.{IsTypedPolicy, decode-encode_network_policy}
use lan_link.PeerState.{
  SignedDeviceKey, NetworkPeer, NetworkPeerState, valid_peer_state, key_bytes, peer_bytes,
  peers_bytes, state_bytes, encode_extension, append_extension, encode_network_peer_state, read_key,
  read_peer, read_extension, extension_of, read_peer_state, decode_network_peer_state,
}
use lan_link.Wire
use lan_link.Wire.{pure, value_of}
use lan_link.Wire.Laws.{read_bytes_next, get_integer_next, check_next, next_ok}
use lan_link.Wire.Lists.{Spells, no_items, item, read_many_next}

-- The sizes of the arrays and the ranges of the integers.
pub record IsTypedKey (k : SignedDeviceKey) : Type 0 where
  pub identity_size : length k.identity_public_key ≡ 32
  pub encryption_size : length k.encryption_public_key ≡ 32
  pub client_size : length k.client_nonce ≡ 32
  pub server_size : length k.server_nonce ≡ 32
  pub signature_size : length k.signature ≡ 64

abbrev pub Every : {A : Type 0} → (A → Type 0) → Option A → Type 0
Every P none = Unit {0}
Every P (some a) = P a

abbrev pub IsTypedPeer : NetworkPeer → Type 0
IsTypedPeer peer =
    (length peer.device_id ≡ 32) × (peer.ipv4_address < 2 ^ 32) × Every IsTypedKey peer.signed_key

pub record IsTypedState (s : NetworkPeerState) : Type 0 where
  pub network_size : length s.network_id ≡ 16
  pub revision_fits : s.revision < 2 ^ 64
  pub subnet_fits : s.subnet_address < 2 ^ 32
  pub prefix_fits : s.prefix_length < 2 ^ 8
  pub own_fits : s.own_address < 2 ^ 32
  pub peers_typed : All IsTypedPeer s.peers
  pub owner_size : length s.owner_device_id ≡ 32
  pub epoch_fits : s.key_epoch < 2 ^ 64
  pub policy_typed : Every IsTypedPolicy s.policy

abbrev announced : Option SignedDeviceKey → ℕ
announced none = 0
announced (some k) = 1

-- A peer's key, after the flag that announces it.
abbrev key_body : Option SignedDeviceKey → List ℕ
key_body none = []
key_body (some k) =
    k.identity_public_key
    ++ (k.encryption_public_key ++ (k.client_nonce ++ (k.server_nonce ++ k.signature)))

key_split :
    (key : Option SignedDeviceKey)
    → key_bytes key ≡ append_integer 1 (announced key) ++ key_body key
key_split none = sym (append-nil (append_integer 1 0))
key_split (some k) = refl

key_read :
    (key : Option SignedDeviceKey) (ys : List ℕ)
    → Every IsTypedKey key
    → read_key (announced key) (key_body key ++ ys) ≡ ok (key, ys)
unfolding read_key pure
key_read none ys t = refl
key_read (some k) ys t =
    let form : key_body (some k) ++ ys
        ≡ k.identity_public_key
          ++ (k.encryption_public_key
              ++ (k.client_nonce ++ (k.server_nonce ++ (k.signature ++ ys)))) =
      simp append_assoc in
    ap (read_key 1) form
    ∙ read_bytes_next runtime_error 32 _ k.identity_public_key _ t.identity_size
    ∙ read_bytes_next runtime_error 32 _ k.encryption_public_key _ t.encryption_size
    ∙ read_bytes_next runtime_error 32 _ k.client_nonce _ t.client_size
    ∙ read_bytes_next runtime_error 32 _ k.server_nonce _ t.server_size
    ∙ read_bytes_next runtime_error 64 _ k.signature _ t.signature_size

announced-lt : (key : Option SignedDeviceKey) → announced key ≤ 1
announced-lt none = omega arith
announced-lt (some k) = omega arith

peer_read :
    (peer : NetworkPeer) (ys : List ℕ)
    → IsTypedPeer peer
    → read_peer (peer_bytes peer ++ ys) ≡ ok (peer, ys)
unfolding read_peer pure
peer_read peer ys t =
    let small = announced-lt peer.signed_key in
    let address = append_integer 4 peer.ipv4_address in
    let mark = append_integer 1 (announced peer.signed_key) in
    let form : peer_bytes peer ++ ys
        ≡ peer.device_id ++ (address ++ (mark ++ (key_body peer.signed_key ++ ys))) =
      rw (key_split peer.signed_key) (simp append_assoc) in
    ap read_peer form
    ∙ read_bytes_next runtime_error 32 _ peer.device_id _ t.0
    ∙ get_integer_next runtime_error 4 _ _ _ (omega (arith, t.1))
    ∙ get_integer_next runtime_error 1 _ _ _ (omega (arith, small))
    ∙ check_next runtime_error _ _ _ (ground (arith, small))
    ∙ next_ok (read_key (announced peer.signed_key)) _ _ ys peer.signed_key
        (key_read peer.signed_key ys t.2)

key_size : (key : Option SignedDeviceKey) → Every IsTypedKey key → length (key_body key) ≤ 192
key_size none t = omega arith
key_size (some k) t = simp length-append (
    omega
      (arith, t.identity_size, t.encryption_size, t.client_size, t.server_size, t.signature_size))

peer_size : (peer : NetworkPeer) → IsTypedPeer peer → length (peer_bytes peer) ≤ 229
peer_size peer t =
    rw (key_split peer.signed_key) (
      simp (length-append, length-append_integer)
        (omega (arith, t.0, key_size peer.signed_key t.2)))

peers_Spells :
    (peers : List NetworkPeer)
    → All IsTypedPeer peers
    → Spells 229 read_peer peers (peers_bytes peers)
peers_Spells [] t = no_items refl
peers_Spells (peer ∷ peers) t =
    item (peer_bytes peer) (peers_bytes peers) (λ ys. peer_read peer ys t.0) (peer_size peer t.0)
      refl (peers_Spells peers t.1)

nothing_decoded : decode_network_policy [] ≡ throw invalid_argument
unfolding decode_network_policy read_policy Wire.◌>>=◌ Wire.get_integer
nothing_decoded = refl

policy_read :
    (p : NetworkPolicy) (bytes : List ℕ)
    → decode_network_policy bytes ≡ ok p
    → read_extension bytes ≡ ok (some p, [])
unfolding read_extension
policy_read p [] e = cc (e, nothing_decoded)
policy_read p (b ∷ bytes) e = ap extension_of e

extension_read :
    (policy : Option NetworkPolicy) (extension : List ℕ)
    → Every IsTypedPolicy policy
    → encode_extension policy ≡ ok extension
    → read_extension extension ≡ ok (policy, [])
unfolding encode_extension read_extension
extension_read none extension t e = let nothing : extension ≡ [] = cc e in rw nothing refl
extension_read (some p) extension t e =
    policy_read p extension (decode-encode_network_policy p extension t e).0

append_extension-inv :
    (s : NetworkPeerState) (encoded : Result Exception (List ℕ)) (bytes : List ℕ)
    → append_extension s encoded ≡ ok bytes
    → (extension : List ℕ) × (encoded ≡ ok extension) × (bytes ≡ state_bytes s extension)
unfolding append_extension
append_extension-inv s (throw e) bytes h = cc
append_extension-inv s (ok extension) bytes h = (extension, refl, ok_injective _ _ bytes refl h)

encode_network_peer_state-inv :
    (s : NetworkPeerState) (bytes : List ℕ)
    → encode_network_peer_state s ≡ ok bytes
    → (valid_peer_state s ≡ true) × (append_extension s (encode_extension s.policy) ≡ ok bytes)
unfolding encode_network_peer_state
encode_network_peer_state-inv s bytes e = (ground arith, ground arith)

valid_peer_state-few : (s : NetworkPeerState) → valid_peer_state s ≡ true → length s.peers ≤ 253
unfolding valid_peer_state
valid_peer_state-few s h = ground arith

state_read :
    (s : NetworkPeerState) (extension : List ℕ)
    → IsTypedState s
    → valid_peer_state s ≡ true
    → encode_extension s.policy ≡ ok extension
    → read_peer_state (state_bytes s extension) ≡ ok (s, [])
unfolding read_peer_state pure
state_read s extension t valid encoded =
    let few = valid_peer_state-few s valid in
    read_bytes_next runtime_error 16 _ s.network_id _ t.network_size
    ∙ get_integer_next runtime_error 8 _ _ _ (omega (arith, t.revision_fits))
    ∙ get_integer_next runtime_error 4 _ _ _ (omega (arith, t.subnet_fits))
    ∙ get_integer_next runtime_error 1 _ _ _ (omega (arith, t.prefix_fits))
    ∙ get_integer_next runtime_error 4 _ _ _ (omega (arith, t.own_fits))
    ∙ get_integer_next runtime_error 2 _ _ _ (omega (arith, few))
    ∙ check_next runtime_error _ _ _ (ground (arith, few))
    ∙ next_ok _ _ _ _ s.peers (
        read_many_next 229 read_peer s.peers (peers_bytes s.peers) _
          (peers_Spells s.peers t.peers_typed))
    ∙ read_bytes_next runtime_error 32 _ s.owner_device_id _ t.owner_size
    ∙ get_integer_next runtime_error 8 _ _ _ (omega (arith, t.epoch_fits))
    ∙ next_ok read_extension _ extension [] s.policy
        (extension_read s.policy extension t.policy_typed encoded)
    ∙ check_next runtime_error _ _ _ valid

-- The state of a network's peers that was encoded, its arrays and integers of their sizes, is
-- decoded, with its policy if it has one.
pub decode-encode_network_peer_state :
    (s : NetworkPeerState) (bytes : List ℕ)
    → IsTypedState s
    → encode_network_peer_state s ≡ ok bytes
    → decode_network_peer_state bytes ≡ ok s
decode-encode_network_peer_state s bytes t e =
    let (valid, e1) = encode_network_peer_state-inv s bytes e in
    let (extension, encoded, same) = append_extension-inv s (encode_extension s.policy) bytes e1 in
    ap (λ b. decode_network_peer_state b) same
    ∙ ap value_of (state_read s extension t valid encoded)
