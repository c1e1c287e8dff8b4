-- ===== src/Protocol/Ipv4.antt =====
-- src/protocol/ipv4.cpp: the header of an IPv4 packet, its checksum and its fragments. A packet is
-- changed in place in the source, and here a new one is made. The loops run on
-- fuel, more than the bytes of the options and of the payload, of which every round takes one at least;
-- `logic_error`, which the source does not throw, stands for fuel that ran out.
pub mod Words
pub mod Checksum
pub mod Options
pub mod Fields
pub mod Fragments
pub mod Reassembly
pub mod Whole
pub mod Placement
pub mod Ends
mod Tests
use lan_link.Prelude.{
  ℕ, zero, suc, ◌+◌, ◌-◌, ◌*◌, ◌/◌, ◌%◌, ◌^◌, ◌≤◌, ◌<◌, min, ◌≡◌, ◌≢◌, ◌↔◌, ◌⊎◌, ◌∙◌, Bool, not,
  ◌&&◌, ◌||◌, Option, none, some, List, [], ◌∷◌, ◌++◌, ltb, leb, ◌==◌, ==_iff, if◌then◌else◌,
  Result, ok, throw, ◌>>=◌, ◌>>◌, Exception, invalid_argument, length_error, logic_error, require,
  >>=-inv, length, get_or, take, drop, replicate, bytes_eq→eq,
}
use lan_link.Bytes.{append_integer, read_loop}

pub record Ipv4Header : Type 0 where
  pub header_size : ℕ
  pub source : ℕ
  pub destination : ℕ
  pub fragment_offset : ℕ
  pub more_fragments : Bool
  pub dont_fragment : Bool

-- `get` adds the bytes up in 32 bits.
abbrev pub get_bytes : List ℕ → ℕ → ℕ → ℕ
get_bytes bytes offset count = read_loop (2 ^ 32) 0 (take count (drop offset bytes))

abbrev pub put_bytes : List ℕ → ℕ → ℕ → ℕ → List ℕ
put_bytes bytes offset value count =
    take offset bytes ++ (append_integer count value ++ drop (offset + count) bytes)

abbrev pub octet_at : List ℕ → ℕ → ℕ
octet_at packet index = get_or packet index 0

-- The loop of `internet_checksum` over the bytes, in 32 bits.
unfoldable pub sum_loop : ℕ → List ℕ → ℕ
sum_loop sum [] = sum
sum_loop sum (high ∷ []) = (sum + high * 256) % 2 ^ 32
sum_loop sum (high ∷ low ∷ bytes) = sum_loop (((sum + high * 256) % 2 ^ 32 + low) % 2 ^ 32) bytes

-- `while (sum >> 16) sum = (sum & 0xffff) + (sum >> 16)`
unfoldable pub fold_loop : ℕ → ℕ → ℕ
fold_loop zero sum = sum
fold_loop (suc fuel) sum =
    let rest = fold_loop fuel (sum % 65_536 + sum / 65_536) in
    if sum / 65_536 == 0 then sum else rest

-- Two rounds are enough for 32 bits.
unfoldable pub internet_checksum : List ℕ → ℕ
internet_checksum bytes = 65_535 - fold_loop 2 (sum_loop 0 bytes)

abbrev pub header_length : List ℕ → ℕ
header_length packet = octet_at packet 0 % 16 * 4

unfoldable pub update_ipv4_checksum : List ℕ → Result Exception (List ℕ)
update_ipv4_checksum packet = do
  require (leb 20 (length packet)) invalid_argument
  require (not (ltb (header_length packet) 20 || ltb (length packet) (header_length packet)))
      invalid_argument
  let cleared = put_bytes packet 10 0 2
  ok (put_bytes cleared 10 (internet_checksum (take (header_length packet) cleared)) 2)

-- The loop over the options, at an offset of the packet.
unfoldable pub options_loop : ℕ → List ℕ → ℕ → ℕ → List ℕ → Result Exception (List ℕ)
options_loop zero packet header offset result =
    if leb header offset then ok result else throw logic_error
options_loop (suc fuel) packet header offset result =
    let size = octet_at packet (offset + 1) in
    let option = take size (drop offset packet) in
    let after_one = options_loop fuel packet header (offset + 1) result in
    let after_copy = options_loop fuel packet header (offset + size) (result ++ option) in
    let after_other = options_loop fuel packet header (offset + size) result in
    if leb header offset || octet_at packet offset == 0
    then ok result
    else if octet_at packet offset == 1
    then after_one
    else if ltb header (offset + 2) || ltb size 2 || ltb (header - offset) size
    then throw invalid_argument
    else if leb 128 (octet_at packet offset)
    then after_copy
    else after_other

-- `while (result.size() % 4) result.push_back(0)`
abbrev pub pad : List ℕ → List ℕ
pad result = result ++ replicate ((4 - length result % 4) % 4) 0

unfoldable pub copied_options : List ℕ → ℕ → Result Exception (List ℕ)
copied_options packet header = do result ← options_loop header packet header 20 []; ok (pad result)

-- The bits of the word at 6.
abbrev pub has_flag : ℕ → ℕ → Bool
has_flag bit flags = flags / bit % 2 == 1

-- The three tests of `inspect_ipv4`.
abbrev pub sound_size : List ℕ → Bool
sound_size packet =
    not (ltb (length packet) 20 || ltb 65_535 (length packet) || not (octet_at packet 0 / 16 == 4))

abbrev pub sound_header : List ℕ → Bool
sound_header packet = not (
    ltb (header_length packet) 20
    || ltb (length packet) (header_length packet)
    || not (get_bytes packet 2 2 == length packet)
    || octet_at packet 8 == 0
    || not (internet_checksum (take (header_length packet) packet) == 0))

abbrev pub sound_bounds : ℕ → ℕ → ℕ → ℕ → Bool
sound_bounds flags offset payload header = not (
    has_flag 32_768 flags
    || (has_flag 16_384 flags && (has_flag 8192 flags || not (offset == 0)))
    || ((has_flag 8192 flags || not (offset == 0)) && payload == 0)
    || (has_flag 8192 flags && not (payload % 8 == 0))
    || ltb (65_535 - header) (offset + payload))

unfoldable pub inspect_ipv4 : List ℕ → Result Exception Ipv4Header
inspect_ipv4 packet = do
  require (sound_size packet) invalid_argument
  let header = header_length packet
  require (sound_header packet) invalid_argument
  options ← copied_options packet header
  let flags = get_bytes packet 6 2
  let offset = flags % 8192 * 8
  require (sound_bounds flags offset (length packet - header) header) invalid_argument
  ok (record {
    header_size = header;
    source = get_bytes packet 12 4;
    destination = get_bytes packet 16 4;
    fragment_offset = offset;
    more_fragments = has_flag 8192 flags;
    dont_fragment = has_flag 16_384 flags;
  })

-- The header of the fragment at an offset, as bytes and in length; an MTU of 68 bytes and more exceeds
-- it.
abbrev pub fragment_options : List ℕ → Ipv4Header → List ℕ → ℕ → List ℕ
fragment_options packet info options offset =
    if offset == 0 then take (info.header_size - 20) (drop 20 packet) else options

abbrev pub fragment_header_size : Ipv4Header → List ℕ → ℕ → ℕ
fragment_header_size info options offset =
    if offset == 0 then info.header_size else 20 + length options

abbrev pub fragment_count : ℕ → ℕ → ℕ
fragment_count room remaining = if leb remaining room then remaining else room / 8 * 8

-- A fragment before its fields are set.
abbrev pub fragment_bytes : List ℕ → Ipv4Header → List ℕ → ℕ → ℕ → List ℕ
fragment_bytes packet info options offset count =
    take 20 packet
    ++ (fragment_options packet info options offset
        ++ take count (drop (info.header_size + offset) packet))

-- `a | b` is `a + b` where no bit is in both: a header has at most 15 words, and an offset 13 bits.
abbrev pub make_fragment : List ℕ → Ipv4Header → List ℕ → ℕ → ℕ → Bool → Result Exception (List ℕ)
make_fragment packet info options offset count more = do
  let bytes = fragment_bytes packet info options offset count
  let versioned = put_bytes bytes 0 (64 + fragment_header_size info options offset / 4) 1
  let sized = put_bytes versioned 2 (length versioned) 2
  update_ipv4_checksum
      (put_bytes sized 6 ((info.fragment_offset + offset) / 8 + (if more then 8192 else 0)) 2)

unfoldable pub fragments_loop :
    ℕ → List ℕ → Ipv4Header → List ℕ → ℕ → ℕ → Result Exception (List (List ℕ))
fragments_loop zero packet info options mtu offset =
    if leb (length packet - info.header_size) offset then ok [] else throw logic_error
fragments_loop (suc fuel) packet info options mtu offset =
    let remaining = length packet - info.header_size - offset in
    let count = fragment_count (mtu - fragment_header_size info options offset) remaining in
    let rest = fragments_loop fuel packet info options mtu (offset + count) in
    if leb (length packet - info.header_size) offset then ok [] else do
      require (not (count == 0)) invalid_argument
      fragment ←
          make_fragment packet info options offset count
            (ltb count remaining || info.more_fragments)
      fragments ← rest
      ok (fragment ∷ fragments)

unfoldable pub fragment_ipv4 : List ℕ → ℕ → Result Exception (List (List ℕ))
fragment_ipv4 packet mtu = do
  require (leb 68 mtu) invalid_argument
  info ← inspect_ipv4 packet
  if leb (length packet) mtu then ok (packet ∷ []) else do
    require (not info.dont_fragment) length_error
    options ← copied_options packet info.header_size
    fragments_loop (length packet) packet info options mtu 0

-- A message is not answered that is a later fragment or may be fragmented, that has no single sender or
-- receiver, or that itself reports an error.
abbrev pub is_icmp_error : ℕ → Bool
is_icmp_error type = type == 3 || type == 4 || type == 5 || type == 11 || type == 12

abbrev pub unanswered : Ipv4Header → List ℕ → ℕ → Bool
unanswered info original router =
    not info.dont_fragment
    || not (info.fragment_offset == 0)
    || info.source == 0
    || leb 0xe000_0000 info.source
    || leb 0xe000_0000 info.destination
    || router == 0
    || leb 0xe000_0000 router
    || (octet_at original 9 == 1
        && ltb info.header_size (length original)
        && is_icmp_error (octet_at original info.header_size))

unfoldable pub ipv4_fragmentation_needed : List ℕ → ℕ → ℕ → Result Exception (Option (List ℕ))
ipv4_fragmentation_needed original router mtu = do
  info ← inspect_ipv4 original
  if unanswered info original router then ok none else do
    let blank = put_bytes (put_bytes (put_bytes (replicate 28 0) 0 0x45 1) 8 64 1) 9 1 1
    let addressed = put_bytes (put_bytes blank 12 router 4) 16 info.source 4
    let typed = put_bytes (put_bytes (put_bytes addressed 20 3 1) 21 4 1) 26 mtu 2
    let quoted = typed ++ take (min (length original) (info.header_size + 8)) original
    let sized = put_bytes quoted 2 (length quoted) 2
    packet ← update_ipv4_checksum (put_bytes sized 22 (internet_checksum (drop 20 sized)) 2)
    ok (some packet)
