-- ===== src/P2P/Candidates.antt =====
-- include/lanlink/p2p/candidates.hpp: the addresses at which a peer may be reached.
use lan_link.Prelude.{ℕ, ◌*◌, ◌/◌, ◌^◌, Bool, not, ◌&&◌, ◌||◌, ltb, ◌==◌}

pub data CandidateKind : Type 0 where
  host server_reflexive : CandidateKind

pub record Endpoint : Type 0 where
  pub ipv4 : ℕ
  pub port : ℕ

pub record Candidate : Type 0 where
  pub endpoint : Endpoint
  pub kind : CandidateKind
  pub priority : ℕ

abbrev pub max_candidates : ℕ
max_candidates = 8

-- An address is below 2 ^ 32; the mask 0xffff0000 keeps its upper half.
unfoldable pub usable_endpoint : Endpoint → Bool → Bool
usable_endpoint e loopback =
    not (e.port == 0)
    && not (e.ipv4 / 2 ^ 24 == 0)
    && ltb (e.ipv4 / 2 ^ 24) 224
    && (loopback || not (e.ipv4 / 2 ^ 24 == 127))
    && not (e.ipv4 / 2 ^ 16 * 2 ^ 16 == 0xa9fe_0000)
    && not (e.ipv4 == 0xffff_ffff)

abbrev pub same_endpoint : Endpoint → Endpoint → Bool
same_endpoint a b = a.ipv4 == b.ipv4 && a.port == b.port
