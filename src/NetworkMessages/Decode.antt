-- ===== src/NetworkMessages/Decode.antt =====
-- The decoders of src/protocol/network_messages.cpp. Each reads its fields in the order of the wire
-- and throws `std::runtime_error` for whatever it refuses.
pub mod Keys
use lan_link.Prelude.{
  ℕ, zero, suc, ◌+◌, ◌-◌, ◌*◌, ◌/◌, ◌%◌, ◌^◌, ◌≤◌, ◌<◌, ◌≡◌, ◌≢◌, ◌↔◌, ◌⊎◌, ◌∙◌, Bool, not, ◌&&◌,
  ◌||◌, List, [], ◌∷◌, ◌++◌, ltb, leb, ◌==◌, ==_iff, if◌then◌else◌, Result, throw, Exception,
  runtime_error, >>=-inv, length, bytes_eq→eq,
}
use lan_link.NetworkMessages.{
  to_role, to_operation, to_result_code, to_event_kind, is_known_network_event_kind, pos,
  NetworkCreateRequest, NetworkMemberRequest, NetworkOperationResult, NetworkSummary, NetworkEvent,
  NetworkPeerRevocation, NetworkKeyEnvelope, max_network_list_entries,
}
use lan_link.NetworkMessages.Name.{valid_network_name}
use lan_link.NetworkMessages.Encode.{
  is_zero, result_checks, summary_checks, contains_network_id, encode_network_key_envelope,
}
use lan_link.Wire.{
  Reader, ◌>>=◌, ◌>>◌, pure, check, read_bytes, get_integer, finished, value_of, returns,
}

-- `if (payload.size() != size) throw ...`, then the reader.
unfoldable pub read_sized {ℓ} : {A : Type ℓ} → ℕ → Reader A → List ℕ → Result Exception A
read_sized size r payload =
    if length payload == size then value_of (r payload) else throw runtime_error

abbrev pub read_array : ℕ → Reader (List ℕ)
read_array = read_bytes runtime_error

abbrev pub read_number : ℕ → Reader ℕ
read_number = get_integer runtime_error

abbrev pub demand : Bool → Reader (Unit {0})
demand = check runtime_error

abbrev pub no_more : Reader (Unit {0})
no_more = finished runtime_error

unfoldable pub read_create_request : Reader NetworkCreateRequest
read_create_request = do
  size ← read_number 2
  name ← read_array size
  no_more
  demand (valid_network_name name)
  pure (record { name = name })

abbrev pub decode_network_create_request : List ℕ → Result Exception NetworkCreateRequest
decode_network_create_request payload = value_of (read_create_request payload)

abbrev pub decode_network_list_request : List ℕ → Result Exception (Unit {0})
decode_network_list_request payload = value_of (no_more payload)

unfoldable pub read_selection_request : Reader (List ℕ)
read_selection_request = do
  network_id ← read_array 16
  no_more
  demand (not (is_zero network_id))
  pure network_id

abbrev pub decode_network_selection_request : List ℕ → Result Exception (List ℕ)
decode_network_selection_request = read_sized 16 read_selection_request

unfoldable pub read_member_request : Reader NetworkMemberRequest
read_member_request = do
  network_id ← read_array 16
  device_id ← read_array 32
  no_more
  demand (not (is_zero network_id))
  demand (not (is_zero device_id))
  pure (record { network_id = network_id; device_id = device_id })

abbrev pub decode_network_member_request : List ℕ → Result Exception NetworkMemberRequest
decode_network_member_request = read_sized 48 read_member_request

abbrev pub operation_result : ℕ → ℕ → List ℕ → NetworkOperationResult
operation_result operation code network_id = record {
  operation = to_operation operation;
  code = to_result_code code;
  network_id = network_id;
}

unfoldable pub read_operation_result : Reader NetworkOperationResult
read_operation_result = do
  operation ← read_number 1
  code ← read_number 2
  network_id ← read_array 16
  no_more
  demand (result_checks (operation_result operation code network_id))
  pure (operation_result operation code network_id)

abbrev pub decode_network_operation_result : List ℕ → Result Exception NetworkOperationResult
decode_network_operation_result = read_sized 19 read_operation_result

abbrev pub summary_of : List ℕ → List ℕ → ℕ → ℕ → ℕ → List ℕ → NetworkSummary
summary_of network_id owner_device_id role timestamp member_count name = record {
  network_id = network_id;
  owner_device_id = owner_device_id;
  role = to_role role;
  created_at_ms = pos timestamp;
  member_count = member_count;
  name = name;
}

unfoldable pub read_summary : Reader NetworkSummary
read_summary = do
  network_id ← read_array 16
  owner_device_id ← read_array 32
  role ← read_number 1
  timestamp ← read_number 8
  demand (ltb timestamp (2 ^ 63))
  member_count ← read_number 4
  size ← read_number 2
  name ← read_array size
  let summary = summary_of network_id owner_device_id role timestamp member_count name
  demand (summary_checks summary)
  pure summary

-- The loop of `count` rounds, with the summaries read so far.
unfoldable pub read_summaries : ℕ → List NetworkSummary → Reader (List NetworkSummary)
read_summaries zero networks = pure networks
read_summaries (suc count) networks = do
  summary ← read_summary
  demand (not (contains_network_id networks summary.network_id))
  read_summaries count (networks ++ summary ∷ [])

unfoldable pub read_list_result : Reader (List NetworkSummary)
read_list_result = do
  count ← read_number 2
  demand (leb count max_network_list_entries)
  networks ← read_summaries count []
  no_more
  pure networks

abbrev pub decode_network_list_result : List ℕ → Result Exception (List NetworkSummary)
decode_network_list_result payload = value_of (read_list_result payload)

unfoldable pub read_event : Reader NetworkEvent
read_event = do
  kind ← read_number 1
  network_id ← read_array 16
  device_id ← read_array 32
  no_more
  demand (is_known_network_event_kind (to_event_kind kind))
  demand (not (is_zero network_id))
  demand (not (is_zero device_id))
  pure (record { kind = to_event_kind kind; network_id = network_id; device_id = device_id })

abbrev pub decode_network_event : List ℕ → Result Exception NetworkEvent
decode_network_event = read_sized 49 read_event

unfoldable pub read_peer_revocation : Reader NetworkPeerRevocation
read_peer_revocation = do
  network_id ← read_array 16
  revision ← read_number 8
  no_more
  demand (not (is_zero network_id))
  pure (record { network_id = network_id; revision = revision })

abbrev pub decode_network_peer_revocation : List ℕ → Result Exception NetworkPeerRevocation
decode_network_peer_revocation payload = value_of (read_peer_revocation payload)

abbrev pub envelope_of :
    List ℕ
    → ℕ
    → List ℕ
    → List ℕ
    → List ℕ
    → List ℕ
    → List ℕ
    → List ℕ
    → List ℕ
    → List ℕ
    → NetworkKeyEnvelope
envelope_of network_id epoch owner recipient owner_key recipient_key nonce ciphertext tag
      signature =
    record {
      network_id = network_id;
      epoch = epoch;
      owner_device_id = owner;
      recipient_device_id = recipient;
      owner_encryption_public_key = owner_key;
      recipient_encryption_public_key = recipient_key;
      nonce = nonce;
      ciphertext = ciphertext;
      tag = tag;
      signature = signature;
    }

unfoldable pub read_key_envelope : Reader NetworkKeyEnvelope
read_key_envelope = do
  network_id ← read_array 16
  epoch ← read_number 8
  owner ← read_array 32
  recipient ← read_array 32
  owner_key ← read_array 32
  recipient_key ← read_array 32
  nonce ← read_array 12
  ciphertext ← read_array 32
  tag ← read_array 16
  signature ← read_array 64
  no_more
  let e =
      envelope_of network_id epoch owner recipient owner_key recipient_key nonce ciphertext tag
        signature
  demand (returns (encode_network_key_envelope e))
  pure e

abbrev pub key_envelope_size : ℕ
key_envelope_size = 276

abbrev pub decode_network_key_envelope : List ℕ → Result Exception NetworkKeyEnvelope
decode_network_key_envelope = read_sized key_envelope_size read_key_envelope
