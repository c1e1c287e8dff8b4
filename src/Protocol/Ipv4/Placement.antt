-- ===== src/Protocol/Ipv4/Placement.antt =====
-- The offsets and the flags in the headers of the fragments.
use lan_link.Prelude.{
  ℕ, zero, suc, ◌+◌, ◌-◌, ◌*◌, ◌/◌, ◌%◌, ◌≤◌, ◌<◌, ◌≡◌, ◌⊎◌, inl, inr, refl, sym, ap, ◌∙◌, Bool,
  true, false, not, ◌||◌, List, [], ◌∷◌, arith, ltb, leb, ◌==◌, if◌then◌else◌, Bool-cases, ok,
  >>=-inv, require-inv, ok_injective, length, drop, length-take, length-drop,
}
use lan_link.Bytes.{IsBytes}
use lan_link.Policy.{is_empty}
use lan_link.Protocol.Ipv4.{
  Ipv4Header, get_bytes, has_flag, copied_options, inspect_ipv4, fragment_header_size,
  fragment_count, make_fragment, fragments_loop, fragment_ipv4,
}
use lan_link.Protocol.Ipv4.Fragments.{payload}
use lan_link.Protocol.Ipv4.Options.{copied_options_fit}
use lan_link.Protocol.Ipv4.Reassembly.{make_fragment_keeps}
use lan_link.Protocol.Ipv4.Whole.{inspect_ipv4-inv}

-- The header of each fragment has the offset of its payload, counted from that of the packet, and says
-- that more fragments follow where one does or where they did behind the packet.
abbrev pub IsPlaced : Ipv4Header → ℕ → List (List ℕ) → Type 0
IsPlaced info offset [] = Unit
IsPlaced info offset (fragment ∷ fragments) =
    (get_bytes fragment 6 2 % 8192 * 8 ≡ info.fragment_offset + offset)
    × (has_flag 8192 (get_bytes fragment 6 2) ≡ (not (is_empty fragments) || info.more_fragments))
    × IsPlaced info (offset + length (payload fragment)) fragments

read_offset :
    (base offset : ℕ) (more : Bool)
    → (base + offset) % 8 ≡ 0
    → base + offset < 65_536
    → (((base + offset) / 8 + (if more then 8192 else 0)) % 8192 * 8 ≡ base + offset)
      × (has_flag 8192 ((base + offset) / 8 + (if more then 8192 else 0)) ≡ more)
read_offset base offset true h k = (omega (arith, h, k), ground (arith, k))
read_offset base offset false h k = (omega (arith, h, k), ground (arith, k))

module _ (packet : List ℕ) (info : Ipv4Header) (options : List ℕ) (mtu : ℕ) (bytes : IsBytes packet)
    (low : 20 ≤ info.header_size) (high : info.header_size ≤ 60) (words : info.header_size % 4 ≡ 0)
    (long : info.header_size ≤ length packet) (option_bytes : IsBytes options)
    (option_room : length options + 20 ≤ info.header_size) (option_words : length options % 4 ≡ 0)
    (room : 68 ≤ mtu) (aligned : info.fragment_offset % 8 ≡ 0)
    (bounded : info.fragment_offset + (length packet - info.header_size) < 65_536) where
  abbrev whole : ℕ
  whole = length packet - info.header_size

  loop_is_empty :
      (fuel offset : ℕ) (fragments : List (List ℕ))
      → fragments_loop fuel packet info options mtu offset ≡ ok fragments
      → is_empty fragments ≡ leb whole offset
  unfolding fragments_loop
  loop_is_empty zero offset fragments e = elim (Bool-cases (leb whole offset)) [
    | inl done ↦ let none_left : fragments ≡ [] = cc (rw done at e) in rw (none_left, done) refl
    | inr more ↦ cc (rw more at e)
  ]
  loop_is_empty (suc fuel) offset fragments e = elim (Bool-cases (leb whole offset)) [
    | inl done ↦ let none_left : fragments ≡ [] = cc (rw done at e) in rw (none_left, done) refl
    | inr not_done ↦
        let count =
          fragment_count (mtu - fragment_header_size info options offset) (whole - offset) in
        let more = ltb count (whole - offset) || info.more_fragments in
        let (some_bytes, e1) = require-inv (not (count == 0)) _ _ fragments (rw not_done at e) in
        let (fragment, made, e2) =
          >>=-inv (make_fragment packet info options offset count more) _ fragments e1 in
        let (rest, looped, e3) =
          >>=-inv (fragments_loop fuel packet info options mtu (offset + count)) _ fragments e2 in
        rw (ok_injective _ _ fragments refl e3, not_done) refl
  ]

  fragments_loop-IsPlaced :
      (fuel offset : ℕ) (fragments : List (List ℕ))
      → (offset % 8 ≡ 0) ⊎ (whole ≤ offset)
      → fragments_loop fuel packet info options mtu offset ≡ ok fragments
      → IsPlaced info offset fragments
  unfolding fragments_loop
  fragments_loop-IsPlaced zero offset fragments h e = elim (Bool-cases (leb whole offset)) [
    | inl done ↦ let none_left : fragments ≡ [] = cc (rw done at e) in rw none_left tt
    | inr more ↦ cc (rw more at e)
  ]
  fragments_loop-IsPlaced (suc fuel) offset fragments h e = elim (Bool-cases (leb whole offset)) [
    | inl done ↦ let none_left : fragments ≡ [] = cc (rw done at e) in rw none_left tt
    | inr not_done ↦
        let size = fragment_header_size info options offset in
        let count = fragment_count (mtu - size) (whole - offset) in
        let more = ltb count (whole - offset) || info.more_fragments in
        let (some_bytes, e1) = require-inv (not (count == 0)) _ _ fragments (rw not_done at e) in
        let (fragment, made, e2) =
          >>=-inv (make_fragment packet info options offset count more) _ fragments e1 in
        let (rest, looped, e3) =
          >>=-inv (fragments_loop fuel packet info options mtu (offset + count)) _ fragments e2 in
        let (body, l, read) =
          make_fragment_keeps packet info options mtu bytes low high words long option_bytes
            option_room option_words room offset count more fragment made in
        let inside : offset < whole = ground (arith, not_done) in
        let start : offset % 8 ≡ 0 = elim h [
          | inl even ↦ even
          | inr past ↦ absurd (omega (arith, past, inside))
        ] in
        let fits : count ≤ whole - offset = ground arith in
        let next : ((offset + count) % 8 ≡ 0) ⊎ (whole ≤ offset + count) =
          elim (Bool-cases (leb (whole - offset) (mtu - size))) [
            | inl last ↦ inr (ground (arith, last, inside))
            | inr full ↦ inl (ground (arith, full, start))
          ] in
        let field = read (omega (arith, bounded, inside)) in
        let (at_offset, flagged) =
          read_offset info.fragment_offset offset more (omega (arith, aligned, start))
            (omega (arith, bounded, inside)) in
        let size_of_body : length (payload fragment) ≡ count =
          ap length body
          ∙ omega (
            arith,
            length-take count (drop (info.header_size + offset) packet),
            length-drop (info.header_size + offset) packet,
            fits,
            inside,
          ) in
        let follows : ltb count (whole - offset) ≡ not (is_empty rest) =
          rw (loop_is_empty fuel (offset + count) rest looped) (ground (arith, inside)) in
        let both : fragments ≡ fragment ∷ rest = ok_injective _ _ fragments refl e3 in
        rw both (
          rw field at_offset,
          rw (field, ← follows) flagged,
          rw size_of_body (fragments_loop-IsPlaced fuel (offset + count) rest next looped),
        )
  ]

-- Where a packet of bytes is cut into fragments, each of them has in its header the offset of its payload,
-- counted on from that of the packet, and the flag that more fragments follow is set in all but the
-- last, which has that of the packet.
pub fragment_ipv4-IsPlaced :
    (packet : List ℕ) (mtu : ℕ) (info : Ipv4Header) (fragments : List (List ℕ))
    → IsBytes packet
    → inspect_ipv4 packet ≡ ok info
    → fragment_ipv4 packet mtu ≡ ok fragments
    → IsPlaced info 0 fragments
unfolding fragment_ipv4
fragment_ipv4-IsPlaced packet mtu info fragments bytes inspected e =
    let (room, e1) = require-inv (leb 68 mtu) _ _ fragments e in
    let (info', inspected', e2) = >>=-inv (inspect_ipv4 packet) _ fragments e1 in
    let known : info' ≡ info = ok_injective _ info info' inspected inspected' in
    let e5 = rw known at e2 in
    let (size, low, long, at_offset, flagged, bounded) = inspect_ipv4-inv packet info inspected in
    elim (Bool-cases (leb (length packet) mtu)) [
      | inl small ↦
          let only : fragments ≡ packet ∷ [] = ok_injective _ _ fragments refl (rw small at e5) in
          rw only (omega (arith, at_offset), sym flagged, tt)
      | inr large ↦
          let (may, e3) = require-inv (not info.dont_fragment) _ _ fragments (rw large at e5) in
          let (options, copied, e4) =
            >>=-inv (copied_options packet info.header_size) _ fragments e3 in
          let words : info.header_size % 4 ≡ 0 = omega (arith, size) in
          let (b, r, w) =
            copied_options_fit packet options info.header_size bytes low words copied in
          fragments_loop-IsPlaced packet info options mtu bytes low (omega (arith, size)) words long
            b r w (ground (arith, room)) (omega (arith, at_offset)) bounded (length packet) 0
            fragments (inl (omega arith)) e4
    ]
