-- ===== src/Capabilities/Agreement.antt =====
-- Offers to bytes and back, and what two offers agree on.
use lan_link.Prelude.{
  ℕ, zero, suc, ◌*◌, ◌/◌, ◌%◌, ◌^◌, ◌≤◌, ◌<◌, min, ◌≡◌, inl, inr, refl, sym, ap, ◌∙◌, true, false,
  List, [], ◌∷◌, ◌++◌, append-nil, arith, ltb, Bool-cases, ok, ok_injective, length, get_or, drop,
  length-append,
}
use lan_link.Bytes.{
  append_integer, read_integer, read_integer-append_integer, length-append_integer, drop_next,
}
use lan_link.Capabilities.{
  CapabilityOffer, NegotiatedCapabilities, bit_and, offer_valid, is_capability_payload,
  encode_capability_offer, decode_capability_offer, offer_at, legacy_capabilities,
  negotiate_capabilities, magic,
}

bit_and_comm : (bits a b : ℕ) → bit_and bits a b ≡ bit_and bits b a
unfolding bit_and
bit_and_comm zero a b = refl
bit_and_comm (suc bits) a b =
    let low : a % 2 * (b % 2) ≡ b % 2 * (a % 2) = omega arith in
    rw (low, bit_and_comm bits (a / 2) (b / 2)) refl

-- Both sides come to the same agreement, or the negotiation throws for both.
pub negotiate_capabilities_comm :
    (local remote : CapabilityOffer)
    → negotiate_capabilities local remote ≡ negotiate_capabilities remote local
unfolding negotiate_capabilities
negotiate_capabilities_comm local remote =
    ground (arith, bit_and_comm 64 local.features remote.features)

-- Where a version is in the ranges of two valid offers, they agree on a version that is no smaller
-- and in both ranges, on the features of both, and not on the legacy protocol.
pub negotiate_capabilities_greatest :
    (local remote : CapabilityOffer) (v : ℕ)
    → offer_valid local ≡ true
    → offer_valid remote ≡ true
    → (local.minimum_version ≤ v) × (v ≤ local.maximum_version)
    → (remote.minimum_version ≤ v) × (v ≤ remote.maximum_version)
    → (agreed : NegotiatedCapabilities) × (negotiate_capabilities local remote ≡ ok agreed)
      × (agreed.legacy ≡ false)
      × (agreed.features ≡ bit_and 64 local.features remote.features)
      × (v ≤ agreed.wire_version)
      × ((local.minimum_version ≤ agreed.wire_version)
          × (agreed.wire_version ≤ local.maximum_version))
      × ((remote.minimum_version ≤ agreed.wire_version)
          × (agreed.wire_version ≤ remote.maximum_version))
unfolding negotiate_capabilities
negotiate_capabilities_greatest local remote v l r a b = (
  record {
    wire_version = min local.maximum_version remote.maximum_version;
    features = bit_and 64 local.features remote.features;
    legacy = false;
  },
  ground (arith, l, r, a, b),
  refl,
  refl,
  omega (arith, a, b),
  (omega (arith, a, b), omega arith),
  (omega (arith, a, b), omega arith),
)

-- Two offers that agree on the legacy protocol have no version in common.
pub negotiate_capabilities_apart :
    (local remote : CapabilityOffer) (v : ℕ)
    → negotiate_capabilities local remote ≡ ok legacy_capabilities
    → (local.minimum_version ≤ v) × (v ≤ local.maximum_version)
    → (remote.minimum_version ≤ v)
    → remote.maximum_version < v
unfolding negotiate_capabilities
negotiate_capabilities_apart local remote v e a b =
    elim (Bool-cases (ltb remote.maximum_version v)) [
      | inl apart ↦ ground (arith, apart)
      | inr meet ↦
          let l : offer_valid local ≡ true = ground arith in
          let r : offer_valid remote ≡ true = ground arith in
          let (agreed, e', chosen, _, _, _, _) =
            negotiate_capabilities_greatest local remote v l r a (b, ground (arith, meet)) in
          let same : agreed ≡ legacy_capabilities =
            ok_injective _ legacy_capabilities agreed e e' in
          absurd (cc (ap (λ (x : NegotiatedCapabilities). x.legacy) same, chosen))
    ]

offer-inv :
    (offer : CapabilityOffer) (bytes : List ℕ)
    → encode_capability_offer offer ≡ ok bytes
    → (offer_valid offer ≡ true)
      × (bytes
          ≡ (magic ++ 1 ∷ 0 ∷ [])
            ++ (append_integer 2 offer.minimum_version
                ++ (append_integer 2 offer.maximum_version ++ append_integer 8 offer.features)))
unfolding encode_capability_offer
offer-inv offer bytes e = (ground arith, ground arith)

offer_decoded :
    (payload : List ℕ) (offer : CapabilityOffer)
    → offer_valid offer ≡ true
    → is_capability_payload payload ≡ true
    → length payload ≡ 18
    → get_or payload 4 0 ≡ 1
    → get_or payload 5 0 ≡ 0
    → offer_at payload ≡ offer
    → decode_capability_offer payload ≡ ok offer
unfolding decode_capability_offer
offer_decoded payload offer valid marked size version kind same =
    rw (same, marked, size, version, kind, valid) refl

-- An offer that was encoded, its integers of their sizes, is decoded.
pub decode-encode_capability_offer :
    (offer : CapabilityOffer) (bytes : List ℕ)
    → offer.minimum_version < 2 ^ 16
    → offer.maximum_version < 2 ^ 16
    → offer.features < 2 ^ 64
    → encode_capability_offer offer ≡ ok bytes
    → decode_capability_offer bytes ≡ ok offer
unfolding is_capability_payload
decode-encode_capability_offer offer bytes a b c e =
    let (valid, same) = offer-inv offer bytes e in
    let from_10 = append_integer 8 offer.features in
    let from_8 = append_integer 2 offer.maximum_version ++ from_10 in
    let from_6 = append_integer 2 offer.minimum_version ++ from_8 in
    let wire = (magic ++ 1 ∷ 0 ∷ []) ++ from_6 in
    let at_6 : drop 6 wire ≡ from_6 = refl in
    let at_8 : drop 8 wire ≡ from_8 =
      drop_next 6 2 wire _ from_8 at_6 (length-append_integer 2 _) in
    let at_10 : drop 10 wire ≡ from_10 =
      drop_next 8 2 wire _ from_10 at_8 (length-append_integer 2 _) in
    let size : length wire ≡ 18 = simp (length-append, length-append_integer) (omega arith) in
    let low : read_integer 2 wire 6 ≡ offer.minimum_version =
      read_integer-append_integer 2 6 _ wire from_8 (omega (arith, a)) at_6 in
    let high : read_integer 2 wire 8 ≡ offer.maximum_version =
      read_integer-append_integer 2 8 _ wire from_10 (omega (arith, b)) at_8 in
    let features : read_integer 8 wire 10 ≡ offer.features =
      read_integer-append_integer 8 10 _ wire [] (omega (arith, c))
        (at_10 ∙ sym (append-nil from_10)) in
    let fields : offer_at wire ≡ offer = cc (low, high, features) in
    rw same (offer_decoded wire offer valid (ground (arith, size)) size refl refl fields)
