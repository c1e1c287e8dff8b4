-- ===== src/PeerState/Valid.antt =====
-- What `valid_peer_state` promises of the addresses in a peer state.
use lan_link.Prelude.{
  ℕ, ◌+◌, ◌%◌, ◌≤◌, ◌<◌, ◌≡◌, ◌≢◌, refl, subst, true, false, List, [], ◌∷◌, arith, All,
}
use lan_link.PeerState.{
  NetworkPeer, NetworkPeerState, has_address, broadcast, peers_valid, valid_peer_state,
}

abbrev pub addresses : List NetworkPeer → List ℕ
addresses [] = []
addresses (peer ∷ peers) = peer.ipv4_address ∷ addresses peers

abbrev pub AllDistinct : List ℕ → Type 0
AllDistinct [] = Unit {0}
AllDistinct (a ∷ as') = (has_address as' a ≡ false) × AllDistinct as'

-- An address met before the loop is no peer's.
met_before :
    (subnet : ℕ) (ids : List (List ℕ)) (met : List ℕ) (peers : List NetworkPeer) (a : ℕ)
    → peers_valid subnet ids met peers ≡ true
    → has_address met a ≡ true
    → has_address (addresses peers) a ≡ false
unfolding peers_valid
met_before subnet ids met [] a h m = refl
met_before subnet ids met (peer ∷ peers) a h m =
    let others : peers_valid subnet (peer.device_id ∷ ids) (peer.ipv4_address ∷ met) peers ≡ true =
      ground arith in
    let new : has_address met peer.ipv4_address ≡ false = ground arith in
    let rest = met_before subnet _ (peer.ipv4_address ∷ met) peers a others (ground (arith, m)) in
    let other : peer.ipv4_address ≢ a =
      λ e. absurd (cc (subst (λ x. has_address met x ≡ false) e new, m)) in
    ground (arith, other, rest)

peers_valid-distinct :
    (subnet : ℕ) (ids : List (List ℕ)) (met : List ℕ) (peers : List NetworkPeer)
    → peers_valid subnet ids met peers ≡ true
    → AllDistinct (addresses peers)
      × All (λ a. (subnet < a) × (a < broadcast subnet)) (addresses peers)
unfolding peers_valid
peers_valid-distinct subnet ids met [] h = (tt, tt)
peers_valid-distinct subnet ids met (peer ∷ peers) h =
    let others : peers_valid subnet (peer.device_id ∷ ids) (peer.ipv4_address ∷ met) peers ≡ true =
      ground arith in
    let (distinct, inside) = peers_valid-distinct subnet _ _ peers others in
    (
      (
        met_before subnet _ (peer.ipv4_address ∷ met) peers peer.ipv4_address others (ground arith),
        distinct,
      ),
      ((ground arith, ground arith), inside),
    )

state_tests :
    (s : NetworkPeerState)
    → valid_peer_state s ≡ true
    → (peers_valid s.subnet_address [] (s.own_address ∷ []) s.peers ≡ true)
      × (s.subnet_address < 0x0a80_0000)
      × (0x0a40_0000 ≤ s.subnet_address)
      × (s.subnet_address % 256 ≡ 0)
      × (s.subnet_address < s.own_address)
      × (s.own_address < broadcast s.subnet_address)
unfolding valid_peer_state
state_tests s h =
    (ground arith, ground arith, ground arith, ground arith, ground arith, ground arith)

-- In a valid peer state the device's own address and its peers' are distinct, and are hosts of the
-- one /24 subnet of 10.64.0.0/10 that the state names, neither its first nor its last address.
pub valid_peer_state-distinct :
    (s : NetworkPeerState)
    → valid_peer_state s ≡ true
    → AllDistinct (s.own_address ∷ addresses s.peers)
      × All
          (λ a. (s.subnet_address < a) × (a < s.subnet_address + 255))
          (s.own_address ∷ addresses s.peers)
      × (0x0a40_0000 ≤ s.subnet_address)
      × (s.subnet_address < 0x0a80_0000)
      × (s.subnet_address % 256 ≡ 0)
valid_peer_state-distinct s h =
    let (peers, below, from, whole, above, under) = state_tests s h in
    let (distinct, inside) = peers_valid-distinct _ _ _ s.peers peers in
    let last : broadcast s.subnet_address ≡ s.subnet_address + 255 = omega (arith, below) in
    let own = met_before _ _ _ s.peers s.own_address peers (ground arith) in
    (
      (own, distinct),
      subst (λ b. All (λ a. (s.subnet_address < a) × (a < b)) (s.own_address ∷ addresses s.peers))
          last ((above, under), inside),
      from,
      below,
      whole,
    )
