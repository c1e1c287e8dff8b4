-- ===== src/NetworkMessages/RoundTrip.antt =====
-- Requests of a client to the relay, to bytes and back.
pub mod Events
pub mod Lists
pub mod Keys
use lan_link.Wire.{Reader, pure}
use lan_link.Prelude.{
  ℕ, ◌^◌, ◌≤◌, ◌<◌, ◌≡◌, refl, ap, ◌∙◌, true, false, not, List, [], ◌∷◌, ◌++◌, arith, ok,
  runtime_error, length, length-append,
}
use lan_link.Bytes.{append_integer}
use lan_link.NetworkMessages.{NetworkCreateRequest, NetworkMemberRequest}
use lan_link.NetworkMessages.Name.{valid_network_name}
use lan_link.NetworkMessages.Encode.{
  encode_network_create_request, encode_network_selection_request, encode_network_member_request,
  is_zero,
}
use lan_link.NetworkMessages.Decode.{
  decode_network_create_request, read_create_request, decode_network_selection_request,
  read_selection_request, decode_network_member_request, read_member_request, read_sized,
}
use lan_link.NetworkMessages.Codes.{}
use lan_link.Wire.Laws.{
  read_bytes_next, get_integer_next, check_next, finished_next, read_bytes_last,
}

-- A payload of the right size that the reader takes whole.
pub read_sized_all {ℓ} :
    {A : Type ℓ} (size : ℕ) (r : Reader A) (payload : List ℕ) (a : A)
    → length payload ≡ size
    → r payload ≡ ok (a, [])
    → read_sized size r payload ≡ ok a
unfolding read_sized
read_sized_all size r payload a h e = rw (h, e) (ground arith)

pub valid_network_name-size : (name : List ℕ) → valid_network_name name ≡ true → length name ≤ 128
unfolding valid_network_name
valid_network_name-size [] h = omega arith
valid_network_name-size (b ∷ name) h = ground arith

create_request_read :
    (request : NetworkCreateRequest)
    → valid_network_name request.name ≡ true
    → read_create_request (append_integer 2 (length request.name) ++ request.name)
      ≡ ok (request, [])
unfolding read_create_request pure
create_request_read request valid =
    let small = valid_network_name-size request.name valid in
    get_integer_next runtime_error 2 _ _ _ (omega (arith, small))
    ∙ read_bytes_last runtime_error _ _ request.name refl
    ∙ finished_next runtime_error _
    ∙ check_next runtime_error _ _ [] valid

create_request-inv :
    (request : NetworkCreateRequest) (bytes : List ℕ)
    → encode_network_create_request request ≡ ok bytes
    → (valid_network_name request.name ≡ true)
      × (bytes ≡ append_integer 2 (length request.name) ++ request.name)
unfolding encode_network_create_request
create_request-inv request bytes e = (ground arith, ground arith)

-- A create request that was encoded is decoded.
pub decode-encode_create_request :
    (request : NetworkCreateRequest) (bytes : List ℕ)
    → encode_network_create_request request ≡ ok bytes
    → decode_network_create_request bytes ≡ ok request
decode-encode_create_request request bytes e =
    let (valid, same) = create_request-inv request bytes e in
    rw same (rw (create_request_read request valid) refl)

selection_request_read :
    (network_id : List ℕ)
    → length network_id ≡ 16
    → is_zero network_id ≡ false
    → read_selection_request network_id ≡ ok (network_id, [])
unfolding read_selection_request pure
selection_request_read network_id n h =
    read_bytes_last runtime_error 16 _ network_id n
    ∙ finished_next runtime_error _
    ∙ check_next runtime_error _ _ [] (ap not h)

selection_request-inv :
    (network_id bytes : List ℕ)
    → encode_network_selection_request network_id ≡ ok bytes
    → (is_zero network_id ≡ false) × (bytes ≡ network_id)
unfolding encode_network_selection_request
selection_request-inv network_id bytes e = (ground arith, ground arith)

-- A selection of a network that was encoded, its identifier of 16 bytes, is decoded.
pub decode-encode_selection_request :
    (network_id bytes : List ℕ)
    → length network_id ≡ 16
    → encode_network_selection_request network_id ≡ ok bytes
    → decode_network_selection_request bytes ≡ ok network_id
decode-encode_selection_request network_id bytes n e =
    let (some_id, same) = selection_request-inv network_id bytes e in
    rw same
      (read_sized_all 16 _ network_id network_id n (selection_request_read network_id n some_id))

member_request_read :
    (request : NetworkMemberRequest)
    → length request.network_id ≡ 16
    → length request.device_id ≡ 32
    → is_zero request.network_id ≡ false
    → is_zero request.device_id ≡ false
    → read_member_request (request.network_id ++ request.device_id) ≡ ok (request, [])
unfolding read_member_request pure
member_request_read request n d network device =
    read_bytes_next runtime_error 16 _ request.network_id _ n
    ∙ read_bytes_last runtime_error 32 _ request.device_id d
    ∙ finished_next runtime_error _
    ∙ check_next runtime_error _ _ [] (ap not network)
    ∙ check_next runtime_error _ _ [] (ap not device)

member_request-inv :
    (request : NetworkMemberRequest) (bytes : List ℕ)
    → encode_network_member_request request ≡ ok bytes
    → (is_zero request.network_id ≡ false)
      × (is_zero request.device_id ≡ false)
      × (bytes ≡ request.network_id ++ request.device_id)
unfolding encode_network_member_request
member_request-inv request bytes e = (ground arith, ground arith, ground arith)

-- A request about a member that was encoded, its identifiers of 16 and of 32 bytes, is decoded.
pub decode-encode_member_request :
    (request : NetworkMemberRequest) (bytes : List ℕ)
    → length request.network_id ≡ 16
    → length request.device_id ≡ 32
    → encode_network_member_request request ≡ ok bytes
    → decode_network_member_request bytes ≡ ok request
decode-encode_member_request request bytes n d e =
    let (network, device, same) = member_request-inv request bytes e in
    let size : length (request.network_id ++ request.device_id) ≡ 48 =
      omega (arith, n, d, length-append request.network_id request.device_id) in
    rw same (read_sized_all 48 _ _ request size (member_request_read request n d network device))
