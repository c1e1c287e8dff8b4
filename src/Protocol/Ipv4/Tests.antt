-- ===== src/Protocol/Ipv4/Tests.antt =====
-- Runs of the checksum and of the fragmentation.
use lan_link.Prelude.{
  ℕ, ◌≤◌, ◌≡◌, ◌≢◌, refl, Bool, true, false, ◌&&◌, List, [], ◌∷◌, ◌++◌, arith, ltb, ok, throw,
  logic_error, length, take, drop, replicate, All,
}
use lan_link.Bytes.{IsBytes, append_integer, read_loop}
use lan_link.Protocol.Ipv4.{
  Ipv4Header, header_length, sum_loop, fold_loop, internet_checksum, update_ipv4_checksum,
  options_loop, copied_options, inspect_ipv4, fragments_loop, fragment_ipv4,
  ipv4_fragmentation_needed,
}
use lan_link.Protocol.Ipv4.Checksum.{update_ipv4_checksum_closes}
use lan_link.Protocol.Ipv4.Ends.{fragment_ipv4-ends}
use lan_link.Protocol.Ipv4.Placement.{IsPlaced, fragment_ipv4-IsPlaced}
use lan_link.Protocol.Ipv4.Fragments.{payload, payloads}
use lan_link.Protocol.Ipv4.Whole.{fragment_ipv4_keeps}

abbrev all_bytes : List ℕ → Bool
all_bytes [] = true
all_bytes (b ∷ bs) = ltb b 256 && all_bytes bs

all_bytes-IsBytes : (bs : List ℕ) → all_bytes bs ≡ true → IsBytes bs
all_bytes-IsBytes [] h = tt
all_bytes-IsBytes (b ∷ bs) h =
    let rest : all_bytes bs ≡ true = ground (arith, h) in
    (ground (arith, h), all_bytes-IsBytes bs rest)

abbrev body : ℕ → List ℕ
body n = replicate n 0

-- 80 bytes from 10.64.0.2 to 10.64.0.3.
abbrev unsummed : List ℕ
unsummed =
    69 ∷ 0 ∷ 0 ∷ 80 ∷ 0 ∷ 9 ∷ 0 ∷ 0 ∷ 64 ∷ 17 ∷ 0 ∷ 0 ∷ 10 ∷ 64 ∷ 0 ∷ 2 ∷ 10 ∷ 64 ∷ 0 ∷ 3 ∷ []

abbrev datagram : List ℕ
datagram =
    69 ∷ 0 ∷ 0 ∷ 80 ∷ 0 ∷ 9 ∷ 0 ∷ 0 ∷ 64 ∷ 17 ∷ 102 ∷ 16 ∷ 10 ∷ 64 ∷ 0 ∷ 2 ∷ 10 ∷ 64 ∷ 0 ∷ 3 ∷ []

datagram_summed : update_ipv4_checksum (unsummed ++ body 60) ≡ ok (datagram ++ body 60)
unfolding update_ipv4_checksum internet_checksum sum_loop fold_loop append_integer
datagram_summed = refl

update_ipv4_checksum_closes_example :
    (header_length (datagram ++ body 60) ≡ header_length (unsummed ++ body 60))
    × (length (datagram ++ body 60) ≡ length (unsummed ++ body 60))
    × (take 10 (datagram ++ body 60) ≡ take 10 (unsummed ++ body 60))
    × (drop 12 (datagram ++ body 60) ≡ drop 12 (unsummed ++ body 60))
    × (internet_checksum (take (header_length (datagram ++ body 60)) (datagram ++ body 60)) ≡ 0)
update_ipv4_checksum_closes_example =
    update_ipv4_checksum_closes (unsummed ++ body 60) (datagram ++ body 60)
      (all_bytes-IsBytes (unsummed ++ body 60) refl) datagram_summed

-- Its two fragments for an MTU of 68.
abbrev first_fragment : List ℕ
first_fragment =
    69 ∷ 0 ∷ 0 ∷ 68 ∷ 0 ∷ 9 ∷ 32 ∷ 0 ∷ 64 ∷ 17 ∷ 70 ∷ 28 ∷ 10 ∷ 64 ∷ 0 ∷ 2 ∷ 10 ∷ 64 ∷ 0 ∷ 3 ∷ []

abbrev second_fragment : List ℕ
second_fragment =
    69 ∷ 0 ∷ 0 ∷ 32 ∷ 0 ∷ 9 ∷ 0 ∷ 6 ∷ 64 ∷ 17 ∷ 102 ∷ 58 ∷ 10 ∷ 64 ∷ 0 ∷ 2 ∷ 10 ∷ 64 ∷ 0 ∷ 3 ∷ []

abbrev two_fragments : List (List ℕ)
two_fragments = (first_fragment ++ body 48) ∷ (second_fragment ++ body 12) ∷ []

datagram_cut : fragment_ipv4 (datagram ++ body 60) 68 ≡ ok two_fragments
unfolding fragment_ipv4 fragments_loop inspect_ipv4 copied_options options_loop update_ipv4_checksum
    internet_checksum sum_loop fold_loop append_integer read_loop
datagram_cut = refl

fragment_ipv4_keeps_example :
    (payloads two_fragments ≡ payload (datagram ++ body 60))
    × All (λ (fragment : List ℕ). length fragment ≤ 68) two_fragments
fragment_ipv4_keeps_example =
    fragment_ipv4_keeps (datagram ++ body 60) 68 two_fragments
      (all_bytes-IsBytes (datagram ++ body 60) refl) datagram_cut

fragment_ipv4-ends_example :
    (fragment_ipv4 (datagram ++ body 60) 68 ≢ throw logic_error)
    × (ipv4_fragmentation_needed (datagram ++ body 60) 0x0a40_0001 68 ≢ throw logic_error)
fragment_ipv4-ends_example = fragment_ipv4-ends (datagram ++ body 60) 68 0x0a40_0001

abbrev datagram_header : Ipv4Header
datagram_header = record {
  header_size = 20;
  source = 0x0a40_0002;
  destination = 0x0a40_0003;
  fragment_offset = 0;
  more_fragments = false;
  dont_fragment = false;
}

datagram_inspected : inspect_ipv4 (datagram ++ body 60) ≡ ok datagram_header
unfolding inspect_ipv4 copied_options options_loop internet_checksum sum_loop fold_loop read_loop
datagram_inspected = refl

fragment_ipv4-IsPlaced_example : IsPlaced datagram_header 0 two_fragments
fragment_ipv4-IsPlaced_example =
    fragment_ipv4-IsPlaced (datagram ++ body 60) 68 datagram_header two_fragments
      (all_bytes-IsBytes (datagram ++ body 60) refl) datagram_inspected datagram_cut
