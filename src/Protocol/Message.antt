-- ===== src/Protocol/Message.antt =====
-- include/lanlink/protocol/message.hpp and the message types of src/protocol/codec.cpp.
pub mod Names
use Prim.Native.String.{String}
use lan_link.Prelude.{
  ℕ, ◌<◌, ◌≡◌, refl, Bool, true, false, List, [], ◌∷◌, arith, ◌==◌, if◌then◌else◌,
}

-- A value of the enumeration type may be any 16-bit number: `unnamed` has those with no enumerator.
pub data MessageType : Type 0 where
  client_hello server_hello heartbeat heartbeat_ack disconnect client_auth auth_result
        network_create_request network_list_request network_join_request network_leave_request
        network_invite_request network_approve_request network_kick_request
        network_peer_state_request network_key_publish_request peer_candidates_send
        user_access_request network_management_request relay_health_request relay_health_result
        network_management_result user_access_result peer_candidates_forward peer_candidates_ack
        network_packet_send network_operation_result network_list_result network_event
        network_peer_state_result network_peer_state_update network_peer_state_revoked
        network_key_envelope network_packet_forward error :
      MessageType
  unnamed : ℕ → MessageType

-- `static_cast<std::uint16_t>(type)`
unfoldable pub code : MessageType → ℕ
code client_hello = 0x0001
code server_hello = 0x0002
code heartbeat = 0x0003
code heartbeat_ack = 0x0004
code disconnect = 0x0005
code client_auth = 0x0006
code auth_result = 0x0007
code network_create_request = 0x0100
code network_list_request = 0x0101
code network_join_request = 0x0102
code network_leave_request = 0x0103
code network_invite_request = 0x0104
code network_approve_request = 0x0105
code network_kick_request = 0x0106
code network_peer_state_request = 0x0107
code network_key_publish_request = 0x0108
code peer_candidates_send = 0x010a
code user_access_request = 0x010b
code network_management_request = 0x010c
code relay_health_request = 0x010d
code relay_health_result = 0x018c
code network_management_result = 0x018b
code user_access_result = 0x018a
code peer_candidates_forward = 0x0188
code peer_candidates_ack = 0x0189
code network_packet_send = 0x0109
code network_operation_result = 0x0180
code network_list_result = 0x0181
code network_event = 0x0182
code network_peer_state_result = 0x0183
code network_peer_state_update = 0x0184
code network_peer_state_revoked = 0x0185
code network_key_envelope = 0x0186
code network_packet_forward = 0x0187
code error = 0x00ff
code (unnamed n) = n

abbrev pub enumerators : List MessageType
enumerators =
    client_hello ∷ server_hello ∷ heartbeat ∷ heartbeat_ack ∷ disconnect ∷ client_auth ∷ auth_result
    ∷ network_create_request ∷ network_list_request ∷ network_join_request ∷ network_leave_request
    ∷ network_invite_request ∷ network_approve_request ∷ network_kick_request
    ∷ network_peer_state_request ∷ network_key_publish_request ∷ peer_candidates_send
    ∷ user_access_request ∷ network_management_request ∷ relay_health_request ∷ relay_health_result
    ∷ network_management_result ∷ user_access_result ∷ peer_candidates_forward ∷ peer_candidates_ack
    ∷ network_packet_send ∷ network_operation_result ∷ network_list_result ∷ network_event
    ∷ network_peer_state_result ∷ network_peer_state_update ∷ network_peer_state_revoked
    ∷ network_key_envelope ∷ network_packet_forward ∷ error ∷ []

find_code : ℕ → List MessageType → MessageType
find_code n [] = unnamed n
find_code n (t ∷ ts) = if code t == n then t else find_code n ts

-- `static_cast<MessageType>(raw_type)`
unfoldable pub from_code : ℕ → MessageType
unfolding find_code code
from_code n = find_code n enumerators

unfoldable pub is_known_message_type : MessageType → Bool
is_known_message_type relay_health_request = true
is_known_message_type relay_health_result = true
is_known_message_type network_management_request = true
is_known_message_type network_management_result = true
is_known_message_type user_access_request = true
is_known_message_type user_access_result = true
is_known_message_type peer_candidates_send = true
is_known_message_type peer_candidates_forward = true
is_known_message_type peer_candidates_ack = true
is_known_message_type client_hello = true
is_known_message_type server_hello = true
is_known_message_type heartbeat = true
is_known_message_type heartbeat_ack = true
is_known_message_type disconnect = true
is_known_message_type client_auth = true
is_known_message_type auth_result = true
is_known_message_type network_create_request = true
is_known_message_type network_list_request = true
is_known_message_type network_join_request = true
is_known_message_type network_leave_request = true
is_known_message_type network_invite_request = true
is_known_message_type network_approve_request = true
is_known_message_type network_kick_request = true
is_known_message_type network_peer_state_request = true
is_known_message_type network_key_publish_request = true
is_known_message_type network_packet_send = true
is_known_message_type network_operation_result = true
is_known_message_type network_list_result = true
is_known_message_type network_event = true
is_known_message_type network_peer_state_result = true
is_known_message_type network_peer_state_update = true
is_known_message_type network_peer_state_revoked = true
is_known_message_type network_key_envelope = true
is_known_message_type network_packet_forward = true
is_known_message_type error = true
is_known_message_type (unnamed n) = false

unfoldable pub message_type_name : MessageType → String
message_type_name relay_health_request = "relay_health_request"
message_type_name relay_health_result = "relay_health_result"
message_type_name network_management_request = "network_management_request"
message_type_name network_management_result = "network_management_result"
message_type_name user_access_request = "user_access_request"
message_type_name user_access_result = "user_access_result"
message_type_name peer_candidates_send = "peer_candidates_send"
message_type_name peer_candidates_forward = "peer_candidates_forward"
message_type_name peer_candidates_ack = "peer_candidates_ack"
message_type_name client_hello = "client_hello"
message_type_name server_hello = "server_hello"
message_type_name heartbeat = "heartbeat"
message_type_name heartbeat_ack = "heartbeat_ack"
message_type_name disconnect = "disconnect"
message_type_name client_auth = "client_auth"
message_type_name auth_result = "auth_result"
message_type_name network_create_request = "network_create_request"
message_type_name network_list_request = "network_list_request"
message_type_name network_join_request = "network_join_request"
message_type_name network_leave_request = "network_leave_request"
message_type_name network_invite_request = "network_invite_request"
message_type_name network_approve_request = "network_approve_request"
message_type_name network_kick_request = "network_kick_request"
message_type_name network_peer_state_request = "network_peer_state_request"
message_type_name network_key_publish_request = "network_key_publish_request"
message_type_name network_packet_send = "network_packet_send"
message_type_name network_operation_result = "network_operation_result"
message_type_name network_list_result = "network_list_result"
message_type_name network_event = "network_event"
message_type_name network_peer_state_result = "network_peer_state_result"
message_type_name network_peer_state_update = "network_peer_state_update"
message_type_name network_peer_state_revoked = "network_peer_state_revoked"
message_type_name network_key_envelope = "network_key_envelope"
message_type_name network_packet_forward = "network_packet_forward"
message_type_name error = "error"
message_type_name (unnamed n) = "unknown"

find_code-code : (n : ℕ) (ts : List MessageType) → code (find_code n ts) ≡ n
unfolding find_code code
find_code-code n [] = refl
find_code-code n (t ∷ ts) = ground (arith, find_code-code n ts)

-- Casting to the enumeration and back loses nothing.
pub code-from_code : (n : ℕ) → code (from_code n) ≡ n
unfolding from_code
code-from_code n = find_code-code n enumerators

-- No two enumerators share a code.
pub from_code-code : (t : MessageType) → is_known_message_type t ≡ true → from_code (code t) ≡ t
unfolding from_code is_known_message_type
from_code-code (unnamed n) h = cc
from_code-code client_hello h = refl
from_code-code t h = refl

pub code-lt : (t : MessageType) → is_known_message_type t ≡ true → code t < 65536
unfolding code is_known_message_type
code-lt (unnamed n) h = cc
code-lt client_hello h = omega arith
code-lt t h = omega arith
