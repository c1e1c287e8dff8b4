-- ===== src/Protocol/Codec/Exact.antt =====
-- `encode_frame` and `decode_frame` are inverse to one another.
use lan_link.Prelude.{
  ℕ, ◌+◌, ◌^◌, ◌≤◌, ◌<◌, ◌≡◌, refl, sym, ap, ◌∙◌, true, List, ◌++◌, arith, length, take, drop,
  bytes_eq, bytes_eq→eq, some, ok, append_assoc, length-append, take-append_left, length-drop,
  length-take,
}
use lan_link.Bytes.{
  split_at, field_at, IsBytes, append_integer, read_integer, read_integer-append_integer,
}
use lan_link.Protocol.Message.{
  code, code-lt, is_known_message_type, from_code, from_code-code, code-from_code,
}
use lan_link.Protocol.Codec.{
  Frame, DecodeResult, complete, frame_bytes, encode_frame, decode_frame, max_payload_size,
  protocol_version, frame_header_size, frame_magic,
}

-- What `encode_frame` accepts, for the ranges of the field types.
pub record IsEncodable (f : Frame) : Type 0 where
  pub known : is_known_message_type f.type ≡ true
  pub id_fits : f.request_id < 2 ^ 32
  pub payload_fits : length f.payload ≤ max_payload_size

abbrev pub decoded : Frame → DecodeResult
decoded f = record {
  status = complete;
  frame = some f;
  consumed = frame_header_size + length f.payload;
  required = frame_header_size + length f.payload;
}

module _ (f : Frame) (rest : List ℕ) (v : IsEncodable f) where
  version_read : read_integer 2 (frame_bytes f ++ rest) 4 ≡ protocol_version
  unfolding frame_bytes append_integer
  version_read =
      read_integer-append_integer 2 4 protocol_version (frame_bytes f ++ rest) _ (omega arith) refl

  type_read : read_integer 2 (frame_bytes f ++ rest) 6 ≡ code f.type
  unfolding frame_bytes append_integer
  type_read =
      read_integer-append_integer 2 6 (code f.type) (frame_bytes f ++ rest) _
        (omega (arith, code-lt f.type v.known)) refl

  id_read : read_integer 4 (frame_bytes f ++ rest) 8 ≡ f.request_id
  unfolding frame_bytes append_integer
  id_read =
      read_integer-append_integer 4 8 f.request_id (frame_bytes f ++ rest) _
        (omega (arith, v.id_fits)) refl

  size_read : read_integer 4 (frame_bytes f ++ rest) 12 ≡ length f.payload
  unfolding frame_bytes append_integer
  size_read =
      read_integer-append_integer 4 12 (length f.payload) (frame_bytes f ++ rest) _
        (omega (arith, v.payload_fits)) refl

  payload_read : take (length f.payload) (drop 16 (frame_bytes f ++ rest)) ≡ f.payload
  unfolding frame_bytes append_integer
  payload_read = take-append_left f.payload rest

  magic_read : bytes_eq (take 4 (frame_bytes f ++ rest)) frame_magic ≡ true
  unfolding frame_bytes append_integer
  magic_read = refl

  size_here : length (frame_bytes f ++ rest) ≡ 16 + (length f.payload + length rest)
  unfolding frame_bytes append_integer
  size_here = omega (arith, length-append f.payload rest)

  -- A decoder that is given an encoded frame, and whatever follows it, takes exactly that frame.
  pub decode_frame-frame_bytes : decode_frame (frame_bytes f ++ rest) ≡ decoded f
  unfolding decode_frame
  decode_frame-frame_bytes = ground (
    arith,
    version_read,
    type_read,
    id_read,
    size_read,
    payload_read,
    magic_read,
    size_here,
    from_code-code f.type v.known,
    v.known,
    v.payload_fits,
  )

pub length-frame_bytes : (f : Frame) → length (frame_bytes f) ≡ frame_header_size + length f.payload
unfolding frame_bytes append_integer
length-frame_bytes f = omega arith

-- `encode_frame` accepts exactly the known types with payloads within the limit.
pub encode_frame-ok : (f : Frame) → IsEncodable f → encode_frame f ≡ ok (frame_bytes f)
unfolding encode_frame
encode_frame-ok f v = ground (arith, v.known, v.payload_fits)

-- What a decoder that reports a frame has seen.
pub record Taken (bytes : List ℕ) (f : Frame) : Type 0 where
  pub result : decode_frame bytes ≡ decoded f
  pub enough : frame_header_size + length f.payload ≤ length bytes
  pub magic : take 4 bytes ≡ frame_magic
  pub version : read_integer 2 bytes 4 ≡ protocol_version
  pub type_code : read_integer 2 bytes 6 ≡ code f.type
  pub id : read_integer 4 bytes 8 ≡ f.request_id
  pub size : read_integer 4 bytes 12 ≡ length f.payload
  pub body : f.payload ≡ take (length f.payload) (drop frame_header_size bytes)
  pub known : is_known_message_type f.type ≡ true
  pub limit : length f.payload ≤ max_payload_size

-- The frame that the header and the payload spell.
abbrev pub spelled : List ℕ → Frame
spelled bytes = record {
  type = from_code (read_integer 2 bytes 6);
  request_id = read_integer 4 bytes 8;
  payload = take (read_integer 4 bytes 12) (drop frame_header_size bytes);
}

-- The tests that a complete result has passed.
complete_tests :
    (bytes : List ℕ)
    → (decode_frame bytes).status ≡ complete
    → (bytes_eq (take 4 bytes) frame_magic ≡ true)
      × (read_integer 2 bytes 4 ≡ protocol_version)
      × (is_known_message_type (from_code (read_integer 2 bytes 6)) ≡ true)
      × (read_integer 4 bytes 12 ≤ max_payload_size)
      × (frame_header_size + read_integer 4 bytes 12 ≤ length bytes)
      × (decode_frame bytes ≡ record {
        status = complete;
        frame = some (spelled bytes);
        consumed = frame_header_size + read_integer 4 bytes 12;
        required = frame_header_size + read_integer 4 bytes 12;
      })
unfolding decode_frame
complete_tests bytes h =
    (ground arith, ground arith, ground arith, ground arith, ground arith, ground arith)

pub decode_frame-Taken :
    (bytes : List ℕ) → (decode_frame bytes).status ≡ complete → Taken bytes (spelled bytes)
decode_frame-Taken bytes h =
    let (magic, version, known, limit, enough, result) = complete_tests bytes h in
    let n = read_integer 4 bytes 12 in
    let e : length (take n (drop frame_header_size bytes)) ≡ n =
      omega (
        arith,
        length-take n (drop frame_header_size bytes),
        length-drop frame_header_size bytes,
      ) in
    record {
      result = rw e result;
      enough = omega (arith, e);
      magic = bytes_eq→eq _ _ magic;
      version = version;
      type_code = sym (code-from_code (read_integer 2 bytes 6));
      id = refl;
      size = sym e;
      body = rw e refl;
      known = known;
      limit = omega (arith, e);
    }

-- A complete result means that the bytes begin with the encoding of the frame that it holds.
pub decode_frame_sound :
    (bytes : List ℕ) (f : Frame)
    → IsBytes bytes
    → Taken bytes f
    → bytes ≡ frame_bytes f ++ drop (frame_header_size + length f.payload) bytes
unfolding frame_bytes
decode_frame_sound bytes f h t =
    let n = length f.payload in
    let magic : bytes ≡ frame_magic ++ drop 4 bytes =
      split_at 4 0 bytes ∙ ap (λ m. m ++ drop 4 bytes) t.magic in
    let version = field_at 2 4 protocol_version bytes h (omega (arith, t.enough)) t.version in
    let type = field_at 2 6 (code f.type) bytes h (omega (arith, t.enough)) t.type_code in
    let id = field_at 4 8 f.request_id bytes h (omega (arith, t.enough)) t.id in
    let size = field_at 4 12 n bytes h (omega (arith, t.enough)) t.size in
    let body : drop 16 bytes ≡ f.payload ++ drop (16 + n) bytes =
      split_at n 16 bytes ∙ ap (λ m. m ++ drop (16 + n) bytes) (sym t.body) in
    simp append_assoc (cc (magic, version, type, id, size, body))
