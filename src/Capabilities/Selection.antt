-- ===== src/Capabilities/Selection.antt =====
-- Selections to bytes and back.
use lan_link.Prelude.{
  ℕ, ◌^◌, ◌<◌, ◌≡◌, refl, sym, ◌∙◌, Bool, true, false, ◌||◌, List, [], ◌∷◌, ◌++◌, append-nil, arith,
  ◌==◌, if◌then◌else◌, ok, length, get_or, drop, length-append,
}
use lan_link.Bytes.{
  append_integer, read_integer, read_integer-append_integer, length-append_integer, drop_next,
}
use lan_link.Capabilities.{
  NegotiatedCapabilities, is_capability_payload, selection_valid, selection_at,
  encode_capability_selection, decode_capability_selection, magic,
}

abbrev kind : Bool → ℕ
kind legacy = if legacy then 2 else 1

selection-inv :
    (s : NegotiatedCapabilities) (bytes : List ℕ)
    → encode_capability_selection s ≡ ok bytes
    → (selection_valid s ≡ true)
      × (bytes
          ≡ (magic ++ 1 ∷ kind s.legacy ∷ [])
            ++ (append_integer 2 s.wire_version ++ append_integer 8 s.features))
unfolding encode_capability_selection
selection-inv s bytes e = (ground arith, ground arith)

selection_decoded :
    (payload : List ℕ) (s : NegotiatedCapabilities)
    → selection_valid s ≡ true
    → is_capability_payload payload ≡ true
    → length payload ≡ 16
    → get_or payload 4 0 ≡ 1
    → (get_or payload 5 0 == 1 || get_or payload 5 0 == 2) ≡ true
    → selection_at payload ≡ s
    → decode_capability_selection payload ≡ ok s
unfolding decode_capability_selection
selection_decoded payload s valid marked size version kind same =
    rw (same, marked, size, version, kind, valid) refl

kind-legacy : (b : Bool) → ((kind b == 2) ≡ b) × ((kind b == 1 || kind b == 2) ≡ true)
kind-legacy true = (refl, refl)
kind-legacy false = (refl, refl)

-- A selection that was encoded, its integers of their sizes, is decoded.
pub decode-encode_capability_selection :
    (s : NegotiatedCapabilities) (bytes : List ℕ)
    → s.wire_version < 2 ^ 16
    → s.features < 2 ^ 64
    → encode_capability_selection s ≡ ok bytes
    → decode_capability_selection bytes ≡ ok s
unfolding is_capability_payload
decode-encode_capability_selection s bytes a b e =
    let (valid, same) = selection-inv s bytes e in
    let from_8 = append_integer 8 s.features in
    let from_6 = append_integer 2 s.wire_version ++ from_8 in
    let wire = (magic ++ 1 ∷ kind s.legacy ∷ []) ++ from_6 in
    let at_6 : drop 6 wire ≡ from_6 = refl in
    let at_8 : drop 8 wire ≡ from_8 =
      drop_next 6 2 wire _ from_8 at_6 (length-append_integer 2 _) in
    let size : length wire ≡ 16 = simp (length-append, length-append_integer) (omega arith) in
    let version : read_integer 2 wire 6 ≡ s.wire_version =
      read_integer-append_integer 2 6 _ wire from_8 (omega (arith, a)) at_6 in
    let features : read_integer 8 wire 8 ≡ s.features =
      read_integer-append_integer 8 8 _ wire [] (omega (arith, b))
        (at_8 ∙ sym (append-nil from_8)) in
    let (legacy, known) = kind-legacy s.legacy in
    let fields : selection_at wire ≡ s = cc (version, features, legacy) in
    rw same (selection_decoded wire s valid (ground (arith, size)) size refl known fields)
