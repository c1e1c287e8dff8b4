-- ===== src/Protocol/Ipv4/Fragments.antt =====
-- The fragments of a packet carry its payload, and fit the MTU.
use lan_link.Prelude.{
  ℕ, ◌+◌, ◌-◌, ◌*◌, ◌/◌, ◌%◌, ◌^◌, ◌≤◌, ◌<◌, ◌≡◌, sym, ap, ◌∙◌, List, [], ◌∷◌, ◌++◌, arith, Result,
  ok, Exception, length, take, drop, length-append, drop-append_left, drop-drop, All-append,
}
use lan_link.Bytes.{read_loop, IsBytes}
use lan_link.Protocol.Ipv4.{get_bytes, octet_at, header_length, put_bytes, update_ipv4_checksum}
use lan_link.Protocol.Ipv4.Checksum.{update_ipv4_checksum_closes}
use lan_link.Protocol.Ipv4.Fields.{
  take_window, put_read, length-put_bytes, put_bytes_behind, put_bytes-IsBytes, put_first,
  put_later,
}

abbrev pub payload : List ℕ → List ℕ
payload packet = drop (header_length packet) packet

abbrev pub payloads : List (List ℕ) → List ℕ
payloads [] = []
payloads (packet ∷ packets) = payload packet ++ payloads packets

-- The header of a fragment, before its fields are set: whole words, and 60 bytes at most.
abbrev pub IsHeader : List ℕ → ℕ → Type 0
IsHeader header size =
    IsBytes header × (length header ≡ size) × (20 ≤ size) × (size ≤ 60) × (size % 4 ≡ 0)

-- What `make_fragment` makes of a header and a part of the payload.
abbrev pub set_fields : List ℕ → ℕ → ℕ → Result Exception (List ℕ)
set_fields bytes size field = do
  let versioned = put_bytes bytes 0 (64 + size / 4) 1
  let sized = put_bytes versioned 2 (length versioned) 2
  update_ipv4_checksum (put_bytes sized 6 field 2)

pub set_fields_keeps :
    (header part fragment : List ℕ) (size field : ℕ)
    → IsHeader header size
    → IsBytes part
    → set_fields (header ++ part) size field ≡ ok fragment
    → (payload fragment ≡ part)
      × (length fragment ≡ size + length part)
      × (field < 2 ^ 16 → get_bytes fragment 6 2 ≡ field)
set_fields_keeps header part fragment size field (b, l, low, high, words) p e =
    let bytes = header ++ part in
    let long : length bytes ≡ size + length part =
      length-append header part ∙ ap (λ (n : ℕ). n + length part) l in
    let versioned = put_bytes bytes 0 (64 + size / 4) 1 in
    let l1 : length versioned ≡ length bytes =
      length-put_bytes bytes 0 (64 + size / 4) 1 (omega (arith, long, low)) in
    let sized = put_bytes versioned 2 (length versioned) 2 in
    let l2 : length sized ≡ length versioned =
      length-put_bytes versioned 2 (length versioned) 2 (omega (arith, l1, long, low)) in
    let whole = put_bytes sized 6 field 2 in
    let l3 : length whole ≡ length sized =
      length-put_bytes sized 6 field 2 (omega (arith, l2, l1, long, low)) in
    let all : IsBytes whole = put_bytes-IsBytes sized 6 field 2 (
      put_bytes-IsBytes versioned 2 (length versioned) 2
        (put_bytes-IsBytes bytes 0 (64 + size / 4) 1 (All-append _ header part b p))) in
    let first : octet_at whole 0 ≡ (64 + size / 4) % 256 =
      put_later sized 5 field 2 (omega (arith, l2, l1, long, low))
      ∙ put_later versioned 1 (length versioned) 2 (omega (arith, l1, long, low))
      ∙ put_first bytes (64 + size / 4) in
    let (kept, same_size, lead, behind, closes) =
      update_ipv4_checksum_closes whole fragment all e in
    let header_is : header_length fragment ≡ size =
      kept ∙ ap (λ (t : ℕ). t % 16 * 4) first ∙ omega (arith, high, words) in
    let past : drop 12 fragment ≡ drop 12 bytes =
      behind
      ∙ put_bytes_behind sized 6 field 2 (omega (arith, l2, l1, long, low)) 12 (omega arith)
      ∙ put_bytes_behind versioned 2 (length versioned) 2 (omega (arith, l1, long, low)) 12
          (omega arith)
      ∙ put_bytes_behind bytes 0 (64 + size / 4) 1 (omega (arith, long, low)) 12 (omega arith) in
    let split : 12 + (size - 12) ≡ size = omega (arith, low) in
    let body : drop size fragment ≡ part =
      rw split at (
        sym (drop-drop (size - 12) 12 fragment)
        ∙ ap (drop (size - 12)) past
        ∙ drop-drop (size - 12) 12 bytes)
      ∙ ap (λ (n : ℕ). drop n bytes) (sym l)
      ∙ drop-append_left header part in
    (
      ap (λ (n : ℕ). drop n fragment) header_is ∙ body,
      same_size ∙ l3 ∙ l2 ∙ l1 ∙ long,
      λ small.
          ap (read_loop (2 ^ 32) 0) (sym (take_window 10 6 2 fragment (omega arith)))
          ∙ ap (λ (t : List ℕ). read_loop (2 ^ 32) 0 (take 2 (drop 6 t))) lead
          ∙ ap (read_loop (2 ^ 32) 0) (take_window 10 6 2 whole (omega arith))
          ∙ put_read sized 6 field (omega (arith, l2, l1, long, low)) small,
    )
