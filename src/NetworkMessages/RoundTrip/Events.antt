-- ===== src/NetworkMessages/RoundTrip/Events.antt =====
-- Results, events and revocations that the relay sends, to bytes and back.
use lan_link.Prelude.{
  ℕ, ◌^◌, ◌<◌, ◌≡◌, refl, ap, ◌∙◌, true, false, not, List, [], ◌++◌, arith, ok, runtime_error,
  length, length-append,
}
use lan_link.Bytes.{append_integer, length-append_integer}
use lan_link.NetworkMessages.{
  NetworkOperationResult, NetworkEvent, NetworkPeerRevocation, event_kind_code, operation_code,
  result_code, is_known_network_operation, is_known_network_result_code,
  is_known_network_event_kind,
}
use lan_link.NetworkMessages.Encode.{
  encode_network_operation_result, encode_network_event, encode_network_peer_revocation, is_zero,
  result_checks,
}
use lan_link.NetworkMessages.Decode.{
  decode_network_operation_result, read_operation_result, operation_result, decode_network_event,
  read_event, decode_network_peer_revocation, read_peer_revocation,
}
use lan_link.Wire.{pure}
use lan_link.NetworkMessages.Codes.{
  to_operation-code, operation_code-lt, to_result_code-code, result_code-lt, to_event_kind-code,
  event_kind_code-lt,
}
use lan_link.Wire.Laws.{
  read_bytes_next, get_integer_next, check_next, finished_next, read_bytes_last, get_integer_last,
}
use lan_link.NetworkMessages.RoundTrip.{read_sized_all}

operation_result_read :
    (result : NetworkOperationResult)
    → length result.network_id ≡ 16
    → result_checks result ≡ true
    → is_known_network_operation result.operation ≡ true
    → is_known_network_result_code result.code ≡ true
    → read_operation_result (
        append_integer 1 (operation_code result.operation)
        ++ (append_integer 2 (result_code result.code) ++ result.network_id))
      ≡ ok (result, [])
unfolding read_operation_result pure
operation_result_read result n checked known_operation known_code =
    let same : operation_result (operation_code result.operation) (result_code result.code)
          result.network_id
        ≡ result =
      rw
        (
          to_operation-code result.operation known_operation,
          to_result_code-code result.code known_code,
        )
        refl in
    get_integer_next runtime_error 1 _ _ _ (operation_code-lt result.operation known_operation)
    ∙ get_integer_next runtime_error 2 _ _ _ (result_code-lt result.code known_code)
    ∙ read_bytes_last runtime_error 16 _ result.network_id n
    ∙ finished_next runtime_error _
    ∙ check_next runtime_error _ _ [] (ap result_checks same ∙ checked)
    ∙ ap (λ r. ok (r, [])) same

operation_result-inv :
    (result : NetworkOperationResult) (bytes : List ℕ)
    → encode_network_operation_result result ≡ ok bytes
    → (result_checks result ≡ true)
      × (bytes
          ≡ append_integer 1 (operation_code result.operation)
            ++ (append_integer 2 (result_code result.code) ++ result.network_id))
unfolding encode_network_operation_result
operation_result-inv result bytes e = (ground arith, ground arith)

result_checks-known :
    (result : NetworkOperationResult)
    → result_checks result ≡ true
    → (is_known_network_operation result.operation ≡ true)
      × (is_known_network_result_code result.code ≡ true)
unfolding result_checks
result_checks-known result h = (ground arith, ground arith)

-- The result of an operation that was encoded, its identifier of 16 bytes, is decoded.
pub decode-encode_operation_result :
    (result : NetworkOperationResult) (bytes : List ℕ)
    → length result.network_id ≡ 16
    → encode_network_operation_result result ≡ ok bytes
    → decode_network_operation_result bytes ≡ ok result
decode-encode_operation_result result bytes n e =
    let (checked, same) = operation_result-inv result bytes e in
    let (known_operation, known_code) = result_checks-known result checked in
    let wire =
      append_integer 1 (operation_code result.operation)
      ++ (append_integer 2 (result_code result.code) ++ result.network_id) in
    let size : length wire ≡ 19 = simp (length-append, length-append_integer) (omega (arith, n)) in
    rw same (
      read_sized_all 19 _ wire result size
        (operation_result_read result n checked known_operation known_code))

event_read :
    (event : NetworkEvent)
    → length event.network_id ≡ 16
    → length event.device_id ≡ 32
    → is_known_network_event_kind event.kind ≡ true
    → is_zero event.network_id ≡ false
    → is_zero event.device_id ≡ false
    → read_event
        (append_integer 1 (event_kind_code event.kind) ++ (event.network_id ++ event.device_id))
      ≡ ok (event, [])
unfolding read_event pure
event_read event n d known network device =
    let same = to_event_kind-code event.kind known in
    get_integer_next runtime_error 1 _ _ _ (event_kind_code-lt event.kind known)
    ∙ read_bytes_next runtime_error 16 _ event.network_id _ n
    ∙ read_bytes_last runtime_error 32 _ event.device_id d
    ∙ finished_next runtime_error _
    ∙ check_next runtime_error _ _ [] (ap is_known_network_event_kind same ∙ known)
    ∙ check_next runtime_error _ _ [] (ap not network)
    ∙ check_next runtime_error _ _ [] (ap not device)
    ∙ rw same refl

event-inv :
    (event : NetworkEvent) (bytes : List ℕ)
    → encode_network_event event ≡ ok bytes
    → (is_known_network_event_kind event.kind ≡ true)
      × (is_zero event.network_id ≡ false)
      × (is_zero event.device_id ≡ false)
      × (bytes
          ≡ append_integer 1 (event_kind_code event.kind) ++ (event.network_id ++ event.device_id))
unfolding encode_network_event
event-inv event bytes e = (ground arith, ground arith, ground arith, ground arith)

-- An event that was encoded, its identifiers of 16 and of 32 bytes, is decoded.
pub decode-encode_event :
    (event : NetworkEvent) (bytes : List ℕ)
    → length event.network_id ≡ 16
    → length event.device_id ≡ 32
    → encode_network_event event ≡ ok bytes
    → decode_network_event bytes ≡ ok event
decode-encode_event event bytes n d e =
    let (known, network, device, same) = event-inv event bytes e in
    let wire =
      append_integer 1 (event_kind_code event.kind) ++ (event.network_id ++ event.device_id) in
    let size : length wire ≡ 49 =
      simp (length-append, length-append_integer) (omega (arith, n, d)) in
    rw same (read_sized_all 49 _ wire event size (event_read event n d known network device))

peer_revocation_read :
    (revocation : NetworkPeerRevocation)
    → length revocation.network_id ≡ 16
    → revocation.revision < 2 ^ 64
    → is_zero revocation.network_id ≡ false
    → read_peer_revocation (revocation.network_id ++ append_integer 8 revocation.revision)
      ≡ ok (revocation, [])
unfolding read_peer_revocation pure
peer_revocation_read revocation n fits network =
    read_bytes_next runtime_error 16 _ revocation.network_id _ n
    ∙ get_integer_last runtime_error 8 _ _ (omega (arith, fits))
    ∙ finished_next runtime_error _
    ∙ check_next runtime_error _ _ [] (ap not network)

peer_revocation-inv :
    (revocation : NetworkPeerRevocation) (bytes : List ℕ)
    → encode_network_peer_revocation revocation ≡ ok bytes
    → (is_zero revocation.network_id ≡ false)
      × (bytes ≡ revocation.network_id ++ append_integer 8 revocation.revision)
unfolding encode_network_peer_revocation
peer_revocation-inv revocation bytes e = (ground arith, ground arith)

-- A revocation that was encoded, its identifier of 16 bytes and its revision a 64-bit number, is
-- decoded.
pub decode-encode_peer_revocation :
    (revocation : NetworkPeerRevocation) (bytes : List ℕ)
    → length revocation.network_id ≡ 16
    → revocation.revision < 2 ^ 64
    → encode_network_peer_revocation revocation ≡ ok bytes
    → decode_network_peer_revocation bytes ≡ ok revocation
decode-encode_peer_revocation revocation bytes n fits e =
    let (network, same) = peer_revocation-inv revocation bytes e in
    rw same (rw (peer_revocation_read revocation n fits network) refl)
