-- ===== src/Protocol/Ipv4/Whole.antt =====
-- The fragments that `fragment_ipv4` returns.
use lan_link.Protocol.Ipv4.{
  has_flag, sound_size, sound_header, sound_bounds, Ipv4Header, get_bytes, header_length,
  copied_options, inspect_ipv4, fragment_ipv4,
}
use lan_link.Prelude.{
  ℕ, ◌+◌, ◌-◌, ◌*◌, ◌%◌, ◌≤◌, ◌<◌, ◌≡◌, inl, inr, refl, not, List, [], ◌∷◌, append-nil, arith, leb,
  Bool-cases, ok, >>=-inv, require-inv, ok_injective, length, All,
}
use lan_link.Bytes.{IsBytes}
use lan_link.Protocol.Ipv4.Fragments.{payload, payloads}
use lan_link.Protocol.Ipv4.Options.{copied_options_fit}
use lan_link.Protocol.Ipv4.Reassembly.{fragments_loop_keeps}

-- The header that `inspect_ipv4` accepts.
pub inspect_ipv4-inv :
    (packet : List ℕ) (info : Ipv4Header)
    → inspect_ipv4 packet ≡ ok info
    → (info.header_size ≡ header_length packet)
      × (20 ≤ info.header_size)
      × (info.header_size ≤ length packet)
      × (info.fragment_offset ≡ get_bytes packet 6 2 % 8192 * 8)
      × (info.more_fragments ≡ has_flag 8192 (get_bytes packet 6 2))
      × (info.fragment_offset + (length packet - info.header_size) < 65_536)
unfolding inspect_ipv4
inspect_ipv4-inv packet info e =
    let header = header_length packet in
    let flags = get_bytes packet 6 2 in
    let (sized, e1) = require-inv (sound_size packet) _ _ info e in
    let (headed, e2) = require-inv (sound_header packet) _ _ info e1 in
    let (options, copied, e3) = >>=-inv (copied_options packet header) _ info e2 in
    let (bounded, e4) =
      require-inv (sound_bounds flags (flags % 8192 * 8) (length packet - header) header) _ _ info
        e3 in
    let same = ok_injective _ _ info refl e4 in
    rw same
      (refl, ground (arith, headed), ground (arith, headed), refl, refl, ground (arith, bounded))

-- Where a packet of bytes is cut into fragments, the payloads of the fragments are, one after the other,
-- that of the packet, and each fragment has no more bytes than the MTU.
pub fragment_ipv4_keeps :
    (packet : List ℕ) (mtu : ℕ) (fragments : List (List ℕ))
    → IsBytes packet
    → fragment_ipv4 packet mtu ≡ ok fragments
    → (payloads fragments ≡ payload packet)
      × All (λ (fragment : List ℕ). length fragment ≤ mtu) fragments
unfolding fragment_ipv4
fragment_ipv4_keeps packet mtu fragments bytes e =
    let (room, e1) = require-inv (leb 68 mtu) _ _ fragments e in
    let (info, inspected, e2) = >>=-inv (inspect_ipv4 packet) _ fragments e1 in
    let (size, low, long, at_offset, flagged, bounded) = inspect_ipv4-inv packet info inspected in
    elim (Bool-cases (leb (length packet) mtu)) [
      | inl small ↦
          let only : fragments ≡ packet ∷ [] = ok_injective _ _ fragments refl (rw small at e2) in
          rw only (append-nil (payload packet), (ground (arith, small), tt))
      | inr large ↦
          let (may, e3) = require-inv (not info.dont_fragment) _ _ fragments (rw large at e2) in
          let (options, copied, e4) =
            >>=-inv (copied_options packet info.header_size) _ fragments e3 in
          let words : info.header_size % 4 ≡ 0 = omega (arith, size) in
          let (b, r, w) =
            copied_options_fit packet options info.header_size bytes low words copied in
          let (bodies, fit) =
            fragments_loop_keeps packet info options mtu bytes low (omega (arith, size)) words long
              b r w (ground (arith, room)) (length packet) 0 fragments (omega arith) e4 in
          let start : info.header_size + 0 ≡ header_length packet = omega (arith, size) in
          (rw start at bodies, fit)
    ]
