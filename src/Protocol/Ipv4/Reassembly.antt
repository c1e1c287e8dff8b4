-- ===== src/Protocol/Ipv4/Reassembly.antt =====
-- The fragments of a packet carry its payload, and fit the MTU.
use lan_link.Protocol.Ipv4.{
  get_bytes, Ipv4Header, fragment_options, fragment_header_size, fragment_count, fragment_bytes,
  make_fragment, fragments_loop,
}
use lan_link.Prelude.{
  ℕ, zero, suc, ◌+◌, ◌-◌, ◌/◌, ◌%◌, ◌≤◌, ◌<◌, ◌≡◌, inl, inr, refl, sym, ap, ◌∙◌, Bool, not, ◌||◌,
  List, [], ◌∷◌, ◌++◌, append_assoc, arith, ltb, leb, ◌==◌, if◌then◌else◌, Bool-cases, ok, >>=-inv,
  require-inv, ok_injective, length, take, drop, All, length-append, length-take, length-drop,
  drop-length, All-append, All-take, All-drop,
}
use lan_link.Bytes.{IsBytes, split_at}
use lan_link.Protocol.Ipv4.Fragments.{payload, payloads, IsHeader, set_fields, set_fields_keeps}

abbrev pub Fits : ℕ → List (List ℕ) → Type 0
Fits mtu fragments = All (λ (fragment : List ℕ). length fragment ≤ mtu) fragments

module _ (packet : List ℕ) (info : Ipv4Header) (options : List ℕ) (mtu : ℕ) (bytes : IsBytes packet)
    (low : 20 ≤ info.header_size) (high : info.header_size ≤ 60) (words : info.header_size % 4 ≡ 0)
    (long : info.header_size ≤ length packet) (option_bytes : IsBytes options)
    (option_room : length options + 20 ≤ info.header_size) (option_words : length options % 4 ≡ 0)
    (room : 68 ≤ mtu) where
  abbrev total : ℕ
  total = length packet - info.header_size

  abbrev header_at : ℕ → List ℕ
  header_at offset = take 20 packet ++ fragment_options packet info options offset

  header_at-IsHeader :
      (offset : ℕ) → IsHeader (header_at offset) (fragment_header_size info options offset)
  header_at-IsHeader offset = elim (Bool-cases (offset == 0)) [
    | inl first ↦ rw first (
      All-append _ (take 20 packet) (take (info.header_size - 20) (drop 20 packet))
          (All-take _ 20 packet bytes)
          (All-take _ (info.header_size - 20) (drop 20 packet) (All-drop _ 20 packet bytes)),
      omega (
        arith,
        length-append (take 20 packet) (take (info.header_size - 20) (drop 20 packet)),
        length-take 20 packet,
        length-take (info.header_size - 20) (drop 20 packet),
        length-drop 20 packet,
        low,
        long,
      ),
      low,
      high,
      words,
    )
    | inr later ↦ rw later (
      All-append _ (take 20 packet) options (All-take _ 20 packet bytes) option_bytes,
      omega (arith, length-append (take 20 packet) options, length-take 20 packet, low, long),
      omega arith,
      omega (arith, option_room, high),
      omega (arith, option_words),
    )
  ]

  pub make_fragment_keeps :
      (offset count : ℕ) (more : Bool) (fragment : List ℕ)
      → make_fragment packet info options offset count more ≡ ok fragment
      → (payload fragment ≡ take count (drop (info.header_size + offset) packet))
        × (length fragment ≤ fragment_header_size info options offset + count)
        × ((info.fragment_offset + offset) / 8 < 8192
            → get_bytes fragment 6 2
              ≡ (info.fragment_offset + offset) / 8 + (if more then 8192 else 0))
  make_fragment_keeps offset count more fragment e =
      let part = take count (drop (info.header_size + offset) packet) in
      let field = (info.fragment_offset + offset) / 8 + (if more then 8192 else 0) in
      let size = fragment_header_size info options offset in
      let joined : header_at offset ++ part ≡ fragment_bytes packet info options offset count =
        append_assoc (take 20 packet) (fragment_options packet info options offset) part in
      let (same, l, read) =
        set_fields_keeps (header_at offset) part fragment size field (header_at-IsHeader offset)
          (All-take _ count (drop (info.header_size + offset) packet)
            (All-drop _ (info.header_size + offset) packet bytes))
          (ap (λ (t : List ℕ). set_fields t size field) joined ∙ e) in
      (
        same,
        omega (arith, l, length-take count (drop (info.header_size + offset) packet)),
        λ small. read (ground (arith, small)),
      )

  at_end :
      (offset : ℕ) (fragments : List (List ℕ))
      → offset ≤ total
      → total ≤ offset
      → fragments ≡ []
      → (payloads fragments ≡ drop (info.header_size + offset) packet) × Fits mtu fragments
  at_end offset fragments h k e =
      let all : info.header_size + offset ≡ length packet = omega (arith, h, k, long) in
      rw (e, all) (sym (drop-length packet), tt)

  pub fragments_loop_keeps :
      (fuel offset : ℕ) (fragments : List (List ℕ))
      → offset ≤ total
      → fragments_loop fuel packet info options mtu offset ≡ ok fragments
      → (payloads fragments ≡ drop (info.header_size + offset) packet) × Fits mtu fragments
  unfolding fragments_loop
  fragments_loop_keeps zero offset fragments h e = elim (Bool-cases (leb total offset)) [
    | inl done ↦ at_end offset fragments h (ground (arith, done)) (cc (rw done at e))
    | inr more ↦ cc (rw more at e)
  ]
  fragments_loop_keeps (suc fuel) offset fragments h e = elim (Bool-cases (leb total offset)) [
    | inl done ↦ at_end offset fragments h (ground (arith, done)) (cc (rw done at e))
    | inr not_done ↦
        let size = fragment_header_size info options offset in
        let remaining = total - offset in
        let count = fragment_count (mtu - size) remaining in
        let more = ltb count remaining || info.more_fragments in
        let (some_bytes, e1) = require-inv (not (count == 0)) _ _ fragments (rw not_done at e) in
        let (fragment, made, e2) =
          >>=-inv (make_fragment packet info options offset count more) _ fragments e1 in
        let (rest, looped, e3) =
          >>=-inv (fragments_loop fuel packet info options mtu (offset + count)) _ fragments e2 in
        let (body, l, read) = make_fragment_keeps offset count more fragment made in
        let count_fits : count ≤ remaining = ground arith in
        let (bodies, fit) =
          fragments_loop_keeps fuel (offset + count) rest (omega (arith, h, count_fits)) looped in
        let small : size ≤ 60 = (header_at-IsHeader offset).3 in
        let within : count ≤ mtu - size = ground arith in
        let position : info.header_size + offset + count ≡ info.header_size + (offset + count) =
          omega arith in
        let both : fragments ≡ fragment ∷ rest = ok_injective _ _ fragments refl e3 in
        rw both (
          ap (λ (t : List ℕ). t ++ payloads rest) body
              ∙ ap (◌++◌ (take count (drop (info.header_size + offset) packet))) bodies
              ∙ sym (rw position at (split_at count (info.header_size + offset) packet)),
          (omega (arith, l, small, within, room), fit),
        )
  ]
