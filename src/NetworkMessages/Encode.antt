-- ===== src/NetworkMessages/Encode.antt =====
-- The encoders of src/protocol/network_messages.cpp.
use lan_link.Prelude.{
  ℕ, ◌-◌, ◌%◌, ◌^◌, Bool, true, false, not, ◌&&◌, ◌||◌, List, [], ◌∷◌, ◌++◌, ltb, ◌==◌,
  if◌then◌else◌, Result, ok, ◌>>=◌, ◌>>◌, Exception, invalid_argument, length_error, require,
  length, bytes_eq,
}
use lan_link.Bytes.{append_integer}
use lan_link.NetworkMessages.{
  NetworkOperation, NetworkResultCode, role_code, operation_code, result_code, event_kind_code,
  is_known_network_operation, is_known_network_result_code, is_known_network_event_kind,
  is_known_role, ℤ, pos, negsuc, NetworkCreateRequest, NetworkMemberRequest, NetworkOperationResult,
  NetworkSummary, NetworkEvent, NetworkPeerRevocation, NetworkKeyEnvelope, max_network_list_entries,
  max_network_peer_entries, create, list, join, success, pending_approval,
}
use lan_link.NetworkMessages.Name.{valid_network_name}

unfoldable pub is_zero : List ℕ → Bool
is_zero [] = true
is_zero (b ∷ bytes) = b == 0 && is_zero bytes

unfoldable pub is_success : NetworkResultCode → Bool
is_success success = true
is_success _ = false

unfoldable pub is_pending : NetworkResultCode → Bool
is_pending pending_approval = true
is_pending _ = false

unfoldable pub is_join : NetworkOperation → Bool
is_join join = true
is_join _ = false

unfoldable pub is_list : NetworkOperation → Bool
is_list list = true
is_list _ = false

unfoldable pub is_create : NetworkOperation → Bool
is_create create = true
is_create _ = false

unfoldable pub is_negative : ℤ → Bool
is_negative (negsuc n) = true
is_negative (pos n) = false

-- `static_cast<std::uint64_t>(value)`
unfoldable pub to_u64 : ℤ → ℕ
to_u64 (pos n) = n % 2 ^ 64
to_u64 (negsuc n) = (2 ^ 64 - 1) - n % 2 ^ 64

unfoldable pub encode_network_create_request : NetworkCreateRequest → Result Exception (List ℕ)
encode_network_create_request request = do
  require (valid_network_name request.name) invalid_argument
  ok (append_integer 2 (length request.name) ++ request.name)

unfoldable pub encode_network_selection_request : List ℕ → Result Exception (List ℕ)
encode_network_selection_request network_id = do
  require (not (is_zero network_id)) invalid_argument
  ok network_id

unfoldable pub encode_network_member_request : NetworkMemberRequest → Result Exception (List ℕ)
encode_network_member_request request = do
  require (not (is_zero request.network_id)) invalid_argument
  require (not (is_zero request.device_id)) invalid_argument
  ok (request.network_id ++ request.device_id)

-- The tests of `validate_result_for_encode` and of `validate_result_for_decode`, which differ in the
-- exception alone.
unfoldable pub result_checks : NetworkOperationResult → Bool
result_checks result =
    if not (is_known_network_operation result.operation)
      || not (is_known_network_result_code result.code)
    then false
    else if is_pending result.code && not (is_join result.operation)
    then false
    else if is_list result.operation
    then is_zero result.network_id
    else if is_create result.operation && not (is_success result.code)
    then is_zero result.network_id
    else not (is_zero result.network_id)

unfoldable pub encode_network_operation_result : NetworkOperationResult → Result Exception (List ℕ)
encode_network_operation_result result = do
  require (result_checks result) invalid_argument
  ok (
      append_integer 1 (operation_code result.operation)
      ++ (append_integer 2 (result_code result.code) ++ result.network_id))

-- The tests of `validate_summary_for_encode` and of `validate_summary_for_decode`.
unfoldable pub summary_checks : NetworkSummary → Bool
summary_checks s =
    not (is_zero s.network_id)
    && not (is_zero s.owner_device_id)
    && is_known_role s.role
    && not (is_negative s.created_at_ms)
    && not (s.member_count == 0)
    && valid_network_name s.name

abbrev pub summary_bytes : NetworkSummary → List ℕ
summary_bytes s =
    s.network_id
    ++ (s.owner_device_id
        ++ (append_integer 1 (role_code s.role)
            ++ (append_integer 8 (to_u64 s.created_at_ms)
                ++ (append_integer 4 s.member_count
                    ++ (append_integer 2 (length s.name) ++ s.name)))))

unfoldable pub append_summary : NetworkSummary → Result Exception (List ℕ)
append_summary s = do require (summary_checks s) invalid_argument; ok (summary_bytes s)

abbrev pub contains_network_id : List NetworkSummary → List ℕ → Bool
contains_network_id [] id = false
contains_network_id (s ∷ summaries) id =
    bytes_eq s.network_id id || contains_network_id summaries id

-- The loop over the summaries, with those validated so far.
unfoldable pub append_summaries :
    List NetworkSummary → List NetworkSummary → Result Exception (List ℕ)
append_summaries validated [] = ok []
append_summaries validated (s ∷ summaries) = do
  require (not (contains_network_id validated s.network_id)) invalid_argument
  first ← append_summary s
  others ← append_summaries (validated ++ s ∷ []) summaries
  ok (first ++ others)

unfoldable pub encode_network_list_result : List NetworkSummary → Result Exception (List ℕ)
encode_network_list_result networks = do
  require (not (ltb max_network_list_entries (length networks))) length_error
  entries ← append_summaries [] networks
  ok (append_integer 2 (length networks) ++ entries)

unfoldable pub encode_network_event : NetworkEvent → Result Exception (List ℕ)
encode_network_event event = do
  require (is_known_network_event_kind event.kind) invalid_argument
  require (not (is_zero event.network_id)) invalid_argument
  require (not (is_zero event.device_id)) invalid_argument
  ok (append_integer 1 (event_kind_code event.kind) ++ (event.network_id ++ event.device_id))

unfoldable pub encode_network_peer_revocation : NetworkPeerRevocation → Result Exception (List ℕ)
encode_network_peer_revocation revocation = do
  require (not (is_zero revocation.network_id)) invalid_argument
  ok (revocation.network_id ++ append_integer 8 revocation.revision)

unfoldable pub envelope_checks : NetworkKeyEnvelope → Bool
envelope_checks e = not (
    is_zero e.network_id
    || e.epoch == 0
    || is_zero e.owner_device_id
    || is_zero e.recipient_device_id
    || bytes_eq e.owner_device_id e.recipient_device_id
    || is_zero e.owner_encryption_public_key
    || is_zero e.recipient_encryption_public_key)

abbrev pub envelope_bytes : NetworkKeyEnvelope → List ℕ
envelope_bytes e =
    e.network_id
    ++ (append_integer 8 e.epoch
        ++ (e.owner_device_id
            ++ (e.recipient_device_id
                ++ (e.owner_encryption_public_key
                    ++ (e.recipient_encryption_public_key
                        ++ (e.nonce ++ (e.ciphertext ++ (e.tag ++ e.signature))))))))

unfoldable pub encode_network_key_envelope : NetworkKeyEnvelope → Result Exception (List ℕ)
encode_network_key_envelope e = do
  require (envelope_checks e) invalid_argument
  ok (envelope_bytes e)

unfoldable pub append_envelopes : List NetworkKeyEnvelope → Result Exception (List ℕ)
append_envelopes [] = ok []
append_envelopes (e ∷ envelopes) = do
  wire ← encode_network_key_envelope e
  others ← append_envelopes envelopes
  ok (wire ++ others)

unfoldable pub encode_network_key_publish_request :
    List NetworkKeyEnvelope → Result Exception (List ℕ)
encode_network_key_publish_request envelopes = do
  require (not (length envelopes == 0 || ltb max_network_peer_entries (length envelopes)))
      invalid_argument
  entries ← append_envelopes envelopes
  ok (append_integer 2 (length envelopes) ++ entries)
