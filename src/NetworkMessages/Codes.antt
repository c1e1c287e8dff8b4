-- ===== src/NetworkMessages/Codes.antt =====
-- The codes of the known enumerators: each fits its field, and is cast back to its enumerator.
use lan_link.Prelude.{◌<◌, ◌≡◌, refl, true, arith}
use lan_link.NetworkMessages.{
  NetworkRole, NetworkOperation, NetworkResultCode, NetworkEventKind, role_code, to_role,
  is_known_role, event_kind_code, to_event_kind, operation_code, to_operation, result_code,
  to_result_code, is_known_network_operation, is_known_network_result_code,
  is_known_network_event_kind, create, success, invited, member,
}

pub to_operation-code :
    (o : NetworkOperation)
    → is_known_network_operation o ≡ true
    → to_operation (operation_code o) ≡ o
unfolding to_operation operation_code is_known_network_operation
to_operation-code (NetworkOperation.unnamed n) h = cc
to_operation-code create h = refl
to_operation-code o h = refl

pub operation_code-lt :
    (o : NetworkOperation) → is_known_network_operation o ≡ true → operation_code o < 256
unfolding operation_code is_known_network_operation
operation_code-lt (NetworkOperation.unnamed n) h = cc
operation_code-lt create h = omega arith
operation_code-lt o h = omega arith

pub to_result_code-code :
    (c : NetworkResultCode)
    → is_known_network_result_code c ≡ true
    → to_result_code (result_code c) ≡ c
unfolding to_result_code result_code is_known_network_result_code
to_result_code-code (NetworkResultCode.unnamed n) h = cc
to_result_code-code success h = refl
to_result_code-code c h = refl

pub result_code-lt :
    (c : NetworkResultCode) → is_known_network_result_code c ≡ true → result_code c < 65_536
unfolding result_code is_known_network_result_code
result_code-lt (NetworkResultCode.unnamed n) h = cc
result_code-lt success h = omega arith
result_code-lt c h = omega arith

pub to_event_kind-code :
    (k : NetworkEventKind)
    → is_known_network_event_kind k ≡ true
    → to_event_kind (event_kind_code k) ≡ k
unfolding to_event_kind event_kind_code is_known_network_event_kind
to_event_kind-code (NetworkEventKind.unnamed n) h = cc
to_event_kind-code invited h = refl
to_event_kind-code k h = refl

pub event_kind_code-lt :
    (k : NetworkEventKind) → is_known_network_event_kind k ≡ true → event_kind_code k < 256
unfolding event_kind_code is_known_network_event_kind
event_kind_code-lt (NetworkEventKind.unnamed n) h = cc
event_kind_code-lt invited h = omega arith
event_kind_code-lt k h = omega arith

pub to_role-code : (r : NetworkRole) → is_known_role r ≡ true → to_role (role_code r) ≡ r
unfolding to_role role_code
to_role-code (NetworkRole.unnamed n) h = cc
to_role-code member h = refl
to_role-code r h = refl

pub role_code-lt : (r : NetworkRole) → is_known_role r ≡ true → role_code r < 256
unfolding role_code
role_code-lt (NetworkRole.unnamed n) h = cc
role_code-lt member h = omega arith
role_code-lt r h = omega arith
