-- ===== src/Protocol/Codec.antt =====
-- src/protocol/codec.cpp: one frame to bytes and back. A byte sequence is a list of numbers below 256.
pub mod Exact
pub mod RoundTrip
pub mod Prefix
use lan_link.Prelude.{
  ℕ, ◌+◌, ◌^◌, ◌≡◌, ◌-◌, not, ◌||◌, List, [], ◌∷◌, ◌++◌, ltb, ◌==◌, if◌then◌else◌, length, take,
  drop, bytes_eq, Option, none, some, Result, ok, Exception, invalid_argument, length_error,
  require, ◌>>=◌, ◌>>◌,
}
use lan_link.Bytes.{append_integer, read_integer}
use lan_link.Protocol.Message.{MessageType, code, from_code, is_known_message_type}

pub record Frame : Type 0 where
  pub type : MessageType
  pub request_id : ℕ
  pub payload : List ℕ

abbrev pub frame_magic : List ℕ
frame_magic = 0x4c ∷ 0x4e ∷ 0x4c ∷ 0x4b ∷ []

abbrev pub protocol_version : ℕ
protocol_version = 5

abbrev pub frame_header_size : ℕ
frame_header_size = 16

abbrev pub max_payload_size : ℕ
max_payload_size = 1_048_576

pub data DecodeStatus : Type 0 where
  complete need_more_data invalid_magic : DecodeStatus
  unsupported_version unknown_message_type payload_too_large : DecodeStatus

pub DecodeStatus-discrete : Discrete DecodeStatus
DecodeStatus-discrete = hlevel

pub record DecodeResult : Type 0 where
  pub status : DecodeStatus
  pub frame : Option Frame
  pub consumed : ℕ
  pub required : ℕ

-- The bytes of a frame, in the order in which they are appended.
unfoldable pub frame_bytes : Frame → List ℕ
frame_bytes f =
    frame_magic
    ++ (append_integer 2 protocol_version
        ++ (append_integer 2 (code f.type)
            ++ (append_integer 4 f.request_id
                ++ (append_integer 4 (length f.payload) ++ f.payload))))

unfoldable pub encode_frame : Frame → Result Exception (List ℕ)
encode_frame f = do
  require (is_known_message_type f.type) invalid_argument
  require (not (ltb max_payload_size (length f.payload) || ltb (2 ^ 32 - 1) (length f.payload)))
      length_error
  ok (frame_bytes f)

abbrev refused : DecodeStatus → DecodeResult
refused s = record { status = s; frame = none; consumed = 0; required = 0 }

abbrev starved : ℕ → DecodeResult
starved n = record { status = need_more_data; frame = none; consumed = 0; required = n }

-- From the payload's size on: `bytes` has a valid header for a frame of this type.
decode_payload : MessageType → List ℕ → DecodeResult
decode_payload type bytes =
    let request_id = read_integer 4 bytes 8 in
    let payload_size = read_integer 4 bytes 12 in
    let total_size = frame_header_size + payload_size in
    if ltb max_payload_size payload_size
    then refused payload_too_large
    else if ltb (length bytes) total_size
    then starved total_size
    else record {
      status = complete;
      frame = some (record {
        type = type;
        request_id = request_id;
        payload = take payload_size (drop frame_header_size bytes);
      });
      consumed = total_size;
      required = total_size;
    }

unfoldable pub decode_frame : List ℕ → DecodeResult
unfolding decode_payload
decode_frame bytes =
    if ltb (length bytes) frame_header_size
    then starved frame_header_size
    else if not (bytes_eq (take 4 bytes) frame_magic)
    then refused invalid_magic
    else if not (read_integer 2 bytes 4 == protocol_version)
    then refused unsupported_version
    else let type = from_code (read_integer 2 bytes 6) in
      if not (is_known_message_type type)
      then refused unknown_message_type
      else decode_payload type bytes
