-- ===== src/NetworkMessages/Tests.antt =====
-- Runs of the encoders and decoders of network messages at concrete inputs.
use lan_link.Prelude.{ℕ, ◌≡◌, refl, true, false, List, [], ◌∷◌, ◌++◌, arith, ok, replicate}
use lan_link.NetworkMessages.{
  NetworkCreateRequest, NetworkMemberRequest, NetworkOperationResult, NetworkSummary, NetworkEvent,
  NetworkPeerRevocation, NetworkKeyEnvelope, pos, owner, join, pending_approval, member_joined,
  is_known_network_operation, is_known_network_result_code, is_known_network_event_kind,
  operation_code, result_code, event_kind_code,
}
use lan_link.NetworkMessages.Encode.{
  encode_network_create_request, encode_network_selection_request, encode_network_member_request,
  encode_network_operation_result, encode_network_event, encode_network_peer_revocation,
  encode_network_list_result, encode_network_key_envelope, encode_network_key_publish_request,
  envelope_bytes, summary_bytes, append_summaries, append_summary, append_envelopes, is_zero,
  result_checks, is_success, is_pending, is_join, is_list, is_create, is_negative, summary_checks,
  envelope_checks,
}
use lan_link.NetworkMessages.Decode.{decode_network_list_result}
use lan_link.NetworkMessages.Decode.Keys.{decode_network_key_publish_request}
use lan_link.NetworkMessages.RoundTrip.Lists.{decode-encode_list_result, IsTyped}
use lan_link.NetworkMessages.RoundTrip.Keys.{decode-encode_key_publish_request, IsTypedEnvelope}
use lan_link.Bytes.{append_integer}
use lan_link.NetworkMessages.Name.{valid_network_name, name_loop, lead, continuation, acceptable}

abbrev network : List ℕ
network = 1 ∷ replicate 15 0

abbrev device : List ℕ
device = 2 ∷ replicate 31 0

abbrev other_device : List ℕ
other_device = 3 ∷ replicate 31 0

-- "Spiel", and "Büro" in UTF-8.
abbrev game : NetworkCreateRequest
game = record { name = 0x53 ∷ 0x70 ∷ 0x69 ∷ 0x65 ∷ 0x6c ∷ [] }

abbrev office : List ℕ
office = 0x42 ∷ 0xc3 ∷ 0xbc ∷ 0x72 ∷ 0x6f ∷ []

-- A name with a control character, and one cut within a character.
names_run :
    (valid_network_name office ≡ true)
    × (valid_network_name (0x42 ∷ 0x0a ∷ []) ≡ false)
    × (valid_network_name (0x42 ∷ 0xc3 ∷ []) ≡ false)
unfolding valid_network_name name_loop lead continuation acceptable
names_run = (refl, refl, refl)

game_encoded : encode_network_create_request game ≡ ok (0 ∷ 5 ∷ game.name)
unfolding encode_network_create_request append_integer valid_network_name name_loop lead
    continuation acceptable
game_encoded = refl

network_encoded : encode_network_selection_request network ≡ ok network
unfolding encode_network_selection_request is_zero
network_encoded = refl

abbrev kick_request : NetworkMemberRequest
kick_request = record { network_id = network; device_id = device }

kick_request_encoded : encode_network_member_request kick_request ≡ ok (network ++ device)
unfolding encode_network_member_request is_zero
kick_request_encoded = refl

abbrev waiting : NetworkOperationResult
waiting = record { operation = join; code = pending_approval; network_id = network }

waiting_encoded : encode_network_operation_result waiting ≡ ok (3 ∷ 0 ∷ 1 ∷ network)
unfolding encode_network_operation_result result_checks is_known_network_operation
    is_known_network_result_code operation_code result_code append_integer is_zero is_success
    is_pending is_join is_list is_create
waiting_encoded = refl

abbrev arrival : NetworkEvent
arrival = record { kind = member_joined; network_id = network; device_id = device }

arrival_encoded : encode_network_event arrival ≡ ok (3 ∷ network ++ device)
unfolding encode_network_event is_known_network_event_kind event_kind_code append_integer is_zero
arrival_encoded = refl

abbrev revoked : NetworkPeerRevocation
revoked = record { network_id = network; revision = 258 }

abbrev revoked_bytes : List ℕ
revoked_bytes = network ++ (0 ∷ 0 ∷ 0 ∷ 0 ∷ 0 ∷ 0 ∷ 1 ∷ 2 ∷ [])

revoked_encoded : encode_network_peer_revocation revoked ≡ ok revoked_bytes
unfolding encode_network_peer_revocation append_integer is_zero
revoked_encoded = refl

abbrev summary : NetworkSummary
summary = record {
  network_id = network;
  owner_device_id = device;
  role = owner;
  created_at_ms = pos 1_700_000_000_000;
  member_count = 2;
  name = office;
}

abbrev list_bytes : List ℕ
list_bytes = append_integer 2 1 ++ (summary_bytes summary ++ [])

list_encoded : encode_network_list_result (summary ∷ []) ≡ ok list_bytes
unfolding encode_network_list_result append_summaries append_summary summary_checks is_zero
    is_negative valid_network_name name_loop lead continuation acceptable
list_encoded = refl

summary-IsTyped : IsTyped summary
summary-IsTyped = record {
  network_size = refl;
  owner_size = refl;
  created_fits = omega arith;
  count_fits = omega arith;
}

decode-encode_list_result_example : decode_network_list_result list_bytes ≡ ok (summary ∷ [])
decode-encode_list_result_example =
    decode-encode_list_result (summary ∷ []) list_bytes (summary-IsTyped, tt) list_encoded

abbrev envelope : NetworkKeyEnvelope
envelope = record {
  network_id = network;
  epoch = 1;
  owner_device_id = device;
  recipient_device_id = other_device;
  owner_encryption_public_key = replicate 32 4;
  recipient_encryption_public_key = replicate 32 5;
  nonce = replicate 12 6;
  ciphertext = replicate 32 7;
  tag = replicate 16 8;
  signature = replicate 64 9;
}

envelope_IsTyped : IsTypedEnvelope envelope
envelope_IsTyped = record {
  network_size = refl;
  epoch_fits = omega arith;
  owner_size = refl;
  recipient_size = refl;
  owner_key_size = refl;
  recipient_key_size = refl;
  nonce_size = refl;
  ciphertext_size = refl;
  tag_size = refl;
  signature_size = refl;
}

envelope_encoded : encode_network_key_envelope envelope ≡ ok (envelope_bytes envelope)
unfolding encode_network_key_envelope envelope_checks is_zero
envelope_encoded = refl

abbrev publish_bytes : List ℕ
publish_bytes = append_integer 2 1 ++ (envelope_bytes envelope ++ [])

publish_encoded : encode_network_key_publish_request (envelope ∷ []) ≡ ok publish_bytes
unfolding encode_network_key_publish_request append_envelopes encode_network_key_envelope
    envelope_checks is_zero
publish_encoded = refl

decode-encode_key_publish_request_example :
    decode_network_key_publish_request publish_bytes ≡ ok (envelope ∷ [])
decode-encode_key_publish_request_example =
    decode-encode_key_publish_request (envelope ∷ []) publish_bytes (envelope_IsTyped, tt)
      publish_encoded
