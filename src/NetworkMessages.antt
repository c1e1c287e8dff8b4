-- ===== src/NetworkMessages.antt =====
-- include/lanlink/protocol/network_messages.hpp: the messages between a client and the relay about
-- networks. Identifiers, keys and names are lists of bytes.
pub mod Name
pub mod Encode
pub mod Decode
pub mod Codes
pub mod RoundTrip
mod Tests
use lan_link.Prelude.{cast, ℕ, Bool, true, false, List, [], ◌∷◌}
use Prim.Native.String.{String}

abbrev pub max_network_name_size : ℕ
max_network_name_size = 128

abbrev pub max_network_list_entries : ℕ
max_network_list_entries = 1024

abbrev pub max_network_peer_entries : ℕ
max_network_peer_entries = 253

-- `unnamed` has the values of each enumeration type that have no enumerator.
pub data NetworkRole : Type 0 where
  member owner : NetworkRole
  unnamed : ℕ → NetworkRole

pub data NetworkOperation : Type 0 where
  create list join leave invite approve kick peer_state key_publish : NetworkOperation
  unnamed : ℕ → NetworkOperation

pub data NetworkResultCode : Type 0 where
  success pending_approval invalid_request not_found already_exists not_member : NetworkResultCode
  permission_denied invite_required target_not_found limit_reached conflict : NetworkResultCode
  internal_error : NetworkResultCode
  unnamed : ℕ → NetworkResultCode

pub data NetworkEventKind : Type 0 where
  invited join_requested member_joined member_left member_kicked : NetworkEventKind
  unnamed : ℕ → NetworkEventKind

unfoldable pub role_code : NetworkRole → ℕ
role_code member = 0
role_code owner = 1
role_code (NetworkRole.unnamed n) = n

unfoldable pub operation_code : NetworkOperation → ℕ
operation_code create = 1
operation_code list = 2
operation_code join = 3
operation_code leave = 4
operation_code invite = 5
operation_code approve = 6
operation_code kick = 7
operation_code peer_state = 8
operation_code key_publish = 9
operation_code (NetworkOperation.unnamed n) = n

unfoldable pub result_code : NetworkResultCode → ℕ
result_code success = 0
result_code pending_approval = 1
result_code invalid_request = 2
result_code not_found = 3
result_code already_exists = 4
result_code not_member = 5
result_code permission_denied = 6
result_code invite_required = 7
result_code target_not_found = 8
result_code limit_reached = 9
result_code conflict = 10
result_code internal_error = 11
result_code (NetworkResultCode.unnamed n) = n

unfoldable pub event_kind_code : NetworkEventKind → ℕ
event_kind_code invited = 1
event_kind_code join_requested = 2
event_kind_code member_joined = 3
event_kind_code member_left = 4
event_kind_code member_kicked = 5
event_kind_code (NetworkEventKind.unnamed n) = n

unfoldable pub to_role : ℕ → NetworkRole
unfolding cast role_code
to_role = cast role_code NetworkRole.unnamed (member ∷ owner ∷ [])

unfoldable pub to_operation : ℕ → NetworkOperation
unfolding cast operation_code
to_operation =
    cast operation_code NetworkOperation.unnamed
      (create ∷ list ∷ join ∷ leave ∷ invite ∷ approve ∷ kick ∷ peer_state ∷ key_publish ∷ [])

unfoldable pub to_result_code : ℕ → NetworkResultCode
unfolding cast result_code
to_result_code = cast result_code NetworkResultCode.unnamed (
    success ∷ pending_approval ∷ invalid_request ∷ not_found ∷ already_exists ∷ not_member
    ∷ permission_denied ∷ invite_required ∷ target_not_found ∷ limit_reached ∷ conflict
    ∷ internal_error ∷ [])

unfoldable pub to_event_kind : ℕ → NetworkEventKind
unfolding cast event_kind_code
to_event_kind =
    cast event_kind_code NetworkEventKind.unnamed
      (invited ∷ join_requested ∷ member_joined ∷ member_left ∷ member_kicked ∷ [])

unfoldable pub is_known_network_operation : NetworkOperation → Bool
is_known_network_operation (NetworkOperation.unnamed n) = false
is_known_network_operation create = true
is_known_network_operation _ = true

unfoldable pub is_known_network_result_code : NetworkResultCode → Bool
is_known_network_result_code (NetworkResultCode.unnamed n) = false
is_known_network_result_code success = true
is_known_network_result_code _ = true

unfoldable pub is_known_network_event_kind : NetworkEventKind → Bool
is_known_network_event_kind (NetworkEventKind.unnamed n) = false
is_known_network_event_kind invited = true
is_known_network_event_kind _ = true

abbrev pub is_known_role : NetworkRole → Bool
is_known_role (NetworkRole.unnamed n) = false
is_known_role member = true
is_known_role _ = true

unfoldable pub network_operation_name : NetworkOperation → String
network_operation_name create = "create"
network_operation_name list = "list"
network_operation_name join = "join"
network_operation_name leave = "leave"
network_operation_name invite = "invite"
network_operation_name approve = "approve"
network_operation_name kick = "kick"
network_operation_name peer_state = "peer_state"
network_operation_name key_publish = "key_publish"
network_operation_name (NetworkOperation.unnamed n) = "unknown"

unfoldable pub network_result_code_name : NetworkResultCode → String
network_result_code_name success = "success"
network_result_code_name pending_approval = "pending_approval"
network_result_code_name invalid_request = "invalid_request"
network_result_code_name not_found = "not_found"
network_result_code_name already_exists = "already_exists"
network_result_code_name not_member = "not_member"
network_result_code_name permission_denied = "permission_denied"
network_result_code_name invite_required = "invite_required"
network_result_code_name target_not_found = "target_not_found"
network_result_code_name limit_reached = "limit_reached"
network_result_code_name conflict = "conflict"
network_result_code_name internal_error = "internal_error"
network_result_code_name (NetworkResultCode.unnamed n) = "unknown"

unfoldable pub network_event_kind_name : NetworkEventKind → String
network_event_kind_name invited = "invited"
network_event_kind_name join_requested = "join_requested"
network_event_kind_name member_joined = "member_joined"
network_event_kind_name member_left = "member_left"
network_event_kind_name member_kicked = "member_kicked"
network_event_kind_name (NetworkEventKind.unnamed n) = "unknown"

-- `std::int64_t`: `negsuc n` is -(n + 1).
pub data ℤ : Type 0 where
  pos : ℕ → ℤ
  negsuc : ℕ → ℤ

pub record NetworkCreateRequest : Type 0 where
  pub name : List ℕ

pub record NetworkMemberRequest : Type 0 where
  pub network_id : List ℕ
  pub device_id : List ℕ

pub record NetworkOperationResult : Type 0 where
  pub operation : NetworkOperation
  pub code : NetworkResultCode
  pub network_id : List ℕ

pub record NetworkSummary : Type 0 where
  pub network_id : List ℕ
  pub owner_device_id : List ℕ
  pub role : NetworkRole
  pub created_at_ms : ℤ
  pub member_count : ℕ
  pub name : List ℕ

pub record NetworkEvent : Type 0 where
  pub kind : NetworkEventKind
  pub network_id : List ℕ
  pub device_id : List ℕ

pub record NetworkPeerRevocation : Type 0 where
  pub network_id : List ℕ
  pub revision : ℕ

pub record NetworkKeyEnvelope : Type 0 where
  pub network_id : List ℕ
  pub epoch : ℕ
  pub owner_device_id : List ℕ
  pub recipient_device_id : List ℕ
  pub owner_encryption_public_key : List ℕ
  pub recipient_encryption_public_key : List ℕ
  pub nonce : List ℕ
  pub ciphertext : List ℕ
  pub tag : List ℕ
  pub signature : List ℕ
