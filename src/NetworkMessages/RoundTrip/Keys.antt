-- ===== src/NetworkMessages/RoundTrip/Keys.antt =====
-- Key envelopes and the request that publishes them, to bytes and back.
use lan_link.Prelude.{
  ℕ, ◌+◌, ◌*◌, ◌^◌, ◌≤◌, ◌<◌, ◌≡◌, ◌≢◌, refl, sym, ap, ◌∙◌, true, List, [], ◌∷◌, ◌++◌, arith, ok,
  ◌>>=◌, runtime_error, >>=-inv, length, take, drop, All, length-append,
}
use lan_link.Bytes.{
  append_integer, length-append_integer, read_integer, read_integer-append_integer, take_here,
  drop_next,
}
use lan_link.NetworkMessages.{NetworkKeyEnvelope}
use lan_link.NetworkMessages.Encode.{
  encode_network_key_envelope, envelope_checks, envelope_bytes, append_envelopes,
  encode_network_key_publish_request,
}
use lan_link.NetworkMessages.Decode.{read_key_envelope, decode_network_key_envelope}
use lan_link.NetworkMessages.Decode.Keys.{decode_envelopes, decode_network_key_publish_request}
use lan_link.NetworkMessages.RoundTrip.{read_sized_all}
use lan_link.Wire.{returns, pure}
use lan_link.Wire.Laws.{
  read_bytes_next, get_integer_next, check_next, finished_next, read_bytes_last,
}

-- The sizes of the arrays and the range of the epoch.
pub record IsTypedEnvelope (e : NetworkKeyEnvelope) : Type 0 where
  pub network_size : length e.network_id ≡ 16
  pub epoch_fits : e.epoch < 2 ^ 64
  pub owner_size : length e.owner_device_id ≡ 32
  pub recipient_size : length e.recipient_device_id ≡ 32
  pub owner_key_size : length e.owner_encryption_public_key ≡ 32
  pub recipient_key_size : length e.recipient_encryption_public_key ≡ 32
  pub nonce_size : length e.nonce ≡ 12
  pub ciphertext_size : length e.ciphertext ≡ 32
  pub tag_size : length e.tag ≡ 16
  pub signature_size : length e.signature ≡ 64

encode_valid :
    (e : NetworkKeyEnvelope)
    → envelope_checks e ≡ true
    → encode_network_key_envelope e ≡ ok (envelope_bytes e)
unfolding encode_network_key_envelope
encode_valid e valid = ground (arith, valid)

key_envelope-inv :
    (e : NetworkKeyEnvelope) (bytes : List ℕ)
    → encode_network_key_envelope e ≡ ok bytes
    → (envelope_checks e ≡ true) × (bytes ≡ envelope_bytes e)
unfolding encode_network_key_envelope
key_envelope-inv e bytes h = (ground arith, ground arith)

key_envelope_read :
    (e : NetworkKeyEnvelope)
    → IsTypedEnvelope e
    → envelope_checks e ≡ true
    → read_key_envelope (envelope_bytes e) ≡ ok (e, [])
unfolding read_key_envelope pure
key_envelope_read e t valid =
    read_bytes_next runtime_error 16 _ e.network_id _ t.network_size
    ∙ get_integer_next runtime_error 8 _ _ _ (omega (arith, t.epoch_fits))
    ∙ read_bytes_next runtime_error 32 _ e.owner_device_id _ t.owner_size
    ∙ read_bytes_next runtime_error 32 _ e.recipient_device_id _ t.recipient_size
    ∙ read_bytes_next runtime_error 32 _ e.owner_encryption_public_key _ t.owner_key_size
    ∙ read_bytes_next runtime_error 32 _ e.recipient_encryption_public_key _ t.recipient_key_size
    ∙ read_bytes_next runtime_error 12 _ e.nonce _ t.nonce_size
    ∙ read_bytes_next runtime_error 32 _ e.ciphertext _ t.ciphertext_size
    ∙ read_bytes_next runtime_error 16 _ e.tag _ t.tag_size
    ∙ read_bytes_last runtime_error 64 _ e.signature t.signature_size
    ∙ finished_next runtime_error _
    ∙ check_next runtime_error _ _ [] (ap returns (encode_valid e valid))

length-envelope_bytes :
    (e : NetworkKeyEnvelope) → IsTypedEnvelope e → length (envelope_bytes e) ≡ 276
length-envelope_bytes e t =
    simp (length-append, length-append_integer)
      (omega (
        arith, t.network_size, t.owner_size, t.recipient_size, t.owner_key_size,
        t.recipient_key_size, t.nonce_size, t.ciphertext_size, t.tag_size, t.signature_size,
      ))

-- A key envelope that was encoded, its arrays and its epoch of their sizes, is decoded.
pub decode-encode_key_envelope :
    (e : NetworkKeyEnvelope) (bytes : List ℕ)
    → IsTypedEnvelope e
    → encode_network_key_envelope e ≡ ok bytes
    → decode_network_key_envelope bytes ≡ ok e
decode-encode_key_envelope e bytes t h =
    let (valid, same) = key_envelope-inv e bytes h in
    rw same (
      read_sized_all 276 _ (envelope_bytes e) e (length-envelope_bytes e t)
        (key_envelope_read e t valid))

append_envelopes-inv :
    (e : NetworkKeyEnvelope) (envelopes : List NetworkKeyEnvelope) (bytes : List ℕ)
    → append_envelopes (e ∷ envelopes) ≡ ok bytes
    → (wire : List ℕ) × (others : List ℕ) × (encode_network_key_envelope e ≡ ok wire)
      × (append_envelopes envelopes ≡ ok others)
      × (bytes ≡ wire ++ others)
unfolding append_envelopes
append_envelopes-inv e envelopes bytes h =
    let (wire, first, h') = >>=-inv (encode_network_key_envelope e) _ bytes h in
    let (others, second, same) = >>=-inv (append_envelopes envelopes) _ bytes h' in
    (wire, others, first, second, cc same)

envelopes_decoded :
    (envelopes : List NetworkKeyEnvelope) (bytes : List ℕ)
    → All IsTypedEnvelope envelopes
    → append_envelopes envelopes ≡ ok bytes
    → (decode_envelopes (length envelopes) bytes ≡ ok envelopes)
      × (length bytes ≡ length envelopes * 276)
unfolding append_envelopes decode_envelopes
envelopes_decoded [] bytes t h = (refl, (let nothing : bytes ≡ [] = cc h in ap length nothing))
envelopes_decoded (e ∷ envelopes) bytes t h =
    let (wire, others, first, second, same) = append_envelopes-inv e envelopes bytes h in
    let (decoded, size) = envelopes_decoded envelopes others t.1 second in
    let (_, spelled) = key_envelope-inv e wire first in
    let n : length wire ≡ 276 = ap length spelled ∙ length-envelope_bytes e t.0 in
    let here : take 276 bytes ≡ wire = take_here 0 276 bytes wire others same n in
    let next : drop 276 bytes ≡ others = drop_next 0 276 bytes wire others same n in
    (
      rw (here, next, decode-encode_key_envelope e wire t.0 first, decoded) refl,
      ap length same ∙ length-append wire others ∙ omega (arith, n, size),
    )

publish_request-inv :
    (envelopes : List NetworkKeyEnvelope) (bytes : List ℕ)
    → encode_network_key_publish_request envelopes ≡ ok bytes
    → (length envelopes ≢ 0)
      × (length envelopes ≤ 253)
      × (entries : List ℕ) × (append_envelopes envelopes ≡ ok entries)
      × (bytes ≡ append_integer 2 (length envelopes) ++ entries)
unfolding encode_network_key_publish_request
publish_request-inv envelopes bytes h =
    let some_of_them : length envelopes ≢ 0 = ground arith in
    let few : length envelopes ≤ 253 = ground arith in
    let rest = append_envelopes envelopes >>= λ entries.
    ok (append_integer 2 (length envelopes) ++ entries) in
    let form : encode_network_key_publish_request envelopes ≡ rest =
      ground (arith, some_of_them, few) in
    let (entries, encoded, same) = >>=-inv (append_envelopes envelopes) _ bytes (sym form ∙ h) in
    (some_of_them, few, entries, encoded, cc same)

publish_request_decoded :
    (n : ℕ) (payload : List ℕ) (envelopes : List NetworkKeyEnvelope)
    → read_integer 2 payload 0 ≡ n
    → n ≢ 0
    → n ≤ 253
    → length payload ≡ 2 + n * 276
    → decode_envelopes n (drop 2 payload) ≡ ok envelopes
    → decode_network_key_publish_request payload ≡ ok envelopes
unfolding decode_network_key_publish_request
publish_request_decoded n payload envelopes count some_of_them few size decoded =
    rw (count, size) (ground (arith, some_of_them, few, decoded))

-- A request that publishes key envelopes, encoded with their arrays and epochs of their sizes, is
-- decoded.
pub decode-encode_key_publish_request :
    (envelopes : List NetworkKeyEnvelope) (bytes : List ℕ)
    → All IsTypedEnvelope envelopes
    → encode_network_key_publish_request envelopes ≡ ok bytes
    → decode_network_key_publish_request bytes ≡ ok envelopes
decode-encode_key_publish_request envelopes bytes t h =
    let (some_of_them, few, entries, encoded, same) = publish_request-inv envelopes bytes h in
    let (decoded, size) = envelopes_decoded envelopes entries t encoded in
    let head = append_integer 2 (length envelopes) in
    let count : read_integer 2 bytes 0 ≡ length envelopes =
      read_integer-append_integer 2 0 _ bytes entries (omega (arith, few)) same in
    let next : drop 2 bytes ≡ entries =
      drop_next 0 2 bytes head entries same (length-append_integer 2 _) in
    let whole : length bytes ≡ 2 + length envelopes * 276 =
      ap length same
      ∙ length-append head entries
      ∙ omega (arith, size, length-append_integer 2 (length envelopes)) in
    publish_request_decoded (length envelopes) bytes envelopes count some_of_them few whole
      (rw next decoded)
