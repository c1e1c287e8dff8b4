-- ===== src/Capabilities/Tests.antt =====
-- Runs of the negotiation.
use lan_link.Prelude.{◌≤◌, ◌≡◌, refl, true, false, [], ◌∷◌, arith, ok}
use lan_link.Capabilities.{
  CapabilityOffer, NegotiatedCapabilities, offer_valid, bit_and, encode_capability_offer,
  negotiate_capabilities, legacy_capabilities, selection_valid, encode_capability_selection,
}
use lan_link.Bytes.{append_integer}
use lan_link.Capabilities.Agreement.{negotiate_capabilities_comm, negotiate_capabilities_greatest}

abbrev old : CapabilityOffer
old = record { minimum_version = 3; maximum_version = 5; features = 5 }

abbrev recent : CapabilityOffer
recent = record { minimum_version = 4; maximum_version = 7; features = 0x1ff }

abbrev future : CapabilityOffer
future = record { minimum_version = 8; maximum_version = 9; features = 0 }

old_and_recent :
    negotiate_capabilities old recent
    ≡ ok (record { wire_version = 5; features = 5; legacy = false })
unfolding negotiate_capabilities offer_valid bit_and
old_and_recent = refl

negotiate_capabilities_comm_example :
    negotiate_capabilities old recent ≡ negotiate_capabilities recent old
negotiate_capabilities_comm_example = negotiate_capabilities_comm old recent

old_valid : offer_valid old ≡ true
unfolding offer_valid
old_valid = refl

recent_valid : offer_valid recent ≡ true
unfolding offer_valid
recent_valid = refl

negotiate_capabilities_greatest_example :
    (agreed : NegotiatedCapabilities) × (negotiate_capabilities old recent ≡ ok agreed)
    × (agreed.legacy ≡ false)
    × (agreed.features ≡ bit_and 64 5 0x1ff)
    × (4 ≤ agreed.wire_version)
    × ((3 ≤ agreed.wire_version) × (agreed.wire_version ≤ 5))
    × ((4 ≤ agreed.wire_version) × (agreed.wire_version ≤ 7))
negotiate_capabilities_greatest_example =
    negotiate_capabilities_greatest old recent 4 old_valid recent_valid (omega arith, omega arith)
      (omega arith, omega arith)

old_and_future : negotiate_capabilities future old ≡ ok legacy_capabilities
unfolding negotiate_capabilities offer_valid
old_and_future = refl

old_encoded :
    encode_capability_offer old
    ≡ ok (76 ∷ 67 ∷ 65 ∷ 80 ∷ 1 ∷ 0 ∷ 0 ∷ 3 ∷ 0 ∷ 5 ∷ 0 ∷ 0 ∷ 0 ∷ 0 ∷ 0 ∷ 0 ∷ 0 ∷ 5 ∷ [])
unfolding encode_capability_offer offer_valid append_integer
old_encoded = refl

abbrev selected : NegotiatedCapabilities
selected = record { wire_version = 5; features = 5; legacy = false }

selected_encoded :
    encode_capability_selection selected
    ≡ ok (76 ∷ 67 ∷ 65 ∷ 80 ∷ 1 ∷ 1 ∷ 0 ∷ 5 ∷ 0 ∷ 0 ∷ 0 ∷ 0 ∷ 0 ∷ 0 ∷ 0 ∷ 5 ∷ [])
unfolding encode_capability_selection selection_valid append_integer
selected_encoded = refl
