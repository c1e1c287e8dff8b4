-- ===== src/Capabilities.antt =====
-- src/protocol/capabilities.cpp: the versions and features that two sides offer, and what they agree
-- on. `read` and `append` of that file are `read_integer` and `append_integer`.
pub mod Agreement
pub mod Selection
mod Tests
use lan_link.Prelude.{
  ℕ, zero, suc, ◌+◌, ◌*◌, ◌/◌, ◌%◌, min, max, Bool, true, false, not, ◌&&◌, ◌||◌, List, [], ◌∷◌,
  ◌++◌, ltb, leb, ◌==◌, if◌then◌else◌, Result, ok, Exception, invalid_argument, require, length,
  get_or, take, bytes_eq, ◌>>=◌, ◌>>◌,
}
use lan_link.Bytes.{append_integer, read_integer}
use lan_link.Protocol.Codec.{protocol_version}

pub record CapabilityOffer : Type 0 where
  pub minimum_version : ℕ
  pub maximum_version : ℕ
  pub features : ℕ

pub record NegotiatedCapabilities : Type 0 where
  pub wire_version : ℕ
  pub features : ℕ
  pub legacy : Bool

-- "LCAP"
abbrev pub magic : List ℕ
magic = 76 ∷ 67 ∷ 65 ∷ 80 ∷ []

-- `a & b` for numbers of `bits` bits.
unfoldable pub bit_and : ℕ → ℕ → ℕ → ℕ
bit_and zero a b = 0
bit_and (suc bits) a b = a % 2 * (b % 2) + 2 * bit_and bits (a / 2) (b / 2)

unfoldable pub offer_valid : CapabilityOffer → Bool
offer_valid offer =
    not (offer.minimum_version == 0 || ltb offer.maximum_version offer.minimum_version)

unfoldable pub is_capability_payload : List ℕ → Bool
is_capability_payload payload = leb 4 (length payload) && bytes_eq magic (take 4 payload)

unfoldable pub encode_capability_offer : CapabilityOffer → Result Exception (List ℕ)
encode_capability_offer offer = do
  require (offer_valid offer) invalid_argument
  ok (
      (magic ++ 1 ∷ 0 ∷ [])
      ++ (append_integer 2 offer.minimum_version
          ++ (append_integer 2 offer.maximum_version ++ append_integer 8 offer.features)))

abbrev pub offer_at : List ℕ → CapabilityOffer
offer_at payload = record {
  minimum_version = read_integer 2 payload 6;
  maximum_version = read_integer 2 payload 8;
  features = read_integer 8 payload 10;
}

unfoldable pub decode_capability_offer : List ℕ → Result Exception CapabilityOffer
decode_capability_offer payload = do
  require
      (is_capability_payload payload
        && length payload == 18
        && get_or payload 4 0 == 1
        && get_or payload 5 0 == 0)
      invalid_argument
  require (offer_valid (offer_at payload)) invalid_argument
  ok (offer_at payload)

abbrev pub legacy_capabilities : NegotiatedCapabilities
legacy_capabilities = record { wire_version = protocol_version; features = 0; legacy = true }

unfoldable pub negotiate_capabilities :
    CapabilityOffer → CapabilityOffer → Result Exception NegotiatedCapabilities
negotiate_capabilities local remote = do
  require (offer_valid local) invalid_argument
  require (offer_valid remote) invalid_argument
  let low = max local.minimum_version remote.minimum_version
  let high = min local.maximum_version remote.maximum_version
  ok (
      if ltb high low then legacy_capabilities else record {
        wire_version = high;
        features = bit_and 64 local.features remote.features;
        legacy = false;
      })

unfoldable pub selection_valid : NegotiatedCapabilities → Bool
selection_valid s = not (s.wire_version == 0 || (s.legacy && not (s.features == 0)))

unfoldable pub encode_capability_selection : NegotiatedCapabilities → Result Exception (List ℕ)
encode_capability_selection s = do
  require (selection_valid s) invalid_argument
  ok (
      (magic ++ 1 ∷ (if s.legacy then 2 else 1) ∷ [])
      ++ (append_integer 2 s.wire_version ++ append_integer 8 s.features))

abbrev pub selection_at : List ℕ → NegotiatedCapabilities
selection_at payload = record {
  wire_version = read_integer 2 payload 6;
  features = read_integer 8 payload 8;
  legacy = get_or payload 5 0 == 2;
}

unfoldable pub decode_capability_selection : List ℕ → Result Exception NegotiatedCapabilities
unfolding encode_capability_selection
decode_capability_selection payload = do
  require
      (is_capability_payload payload
        && length payload == 16
        && get_or payload 4 0 == 1
        && (get_or payload 5 0 == 1 || get_or payload 5 0 == 2))
      invalid_argument
  wire ← encode_capability_selection (selection_at payload)
  ok (selection_at payload)
