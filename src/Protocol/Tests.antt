-- ===== src/Protocol/Tests.antt =====
-- Runs of the codecs, and the theorems at concrete inputs.
use lan_link.Prelude.{
  ℕ, ◌≤◌, ◌<◌, ◌≡◌, refl, ap, some, List, [], ◌∷◌, ◌++◌, arith, ok, throw, length, take, drop,
  replicate,
}
use lan_link.Bytes.{append_integer, read_integer, read_loop}
use lan_link.Protocol.Message.{heartbeat, code, from_code, is_known_message_type}
use lan_link.Protocol.Codec.{
  Frame, DecodeResult, complete, need_more_data, invalid_magic, decode_frame, encode_frame,
  frame_bytes,
}
use lan_link.Protocol.Codec.Exact.{IsEncodable, decoded}
use lan_link.Protocol.Codec.RoundTrip.{decode_frame-encode_frame, encode_frame-decode_frame}
use lan_link.Protocol.Codec.Prefix.{decode_frame-prefix}
use lan_link.Protocol.Stream.{
  FrameStreamDecoder, push, reset, push_loop, decode_buffered, dispatch, after_drain, compact,
  buffered_size, maximum_frame_size, invalid_stream,
}
use lan_link.Protocol.Stream.Spec.{Parses, fails, encoded}
use lan_link.Protocol.Stream.Push.{contents, Outcome, push-Outcome, reset-IsReady}
use lan_link.Protocol.Stream.Chunks.{
  push_all, joined, push_all-encoded, push_invalid, buffered_size-lt,
}
use lan_link.Protocol.Packet.{
  EncryptedNetworkPacket, ForwardedNetworkPacket, valid_packet, all_zero,
  encode_encrypted_network_packet, decode_encrypted_network_packet, encode_forwarded_network_packet,
  decode_forwarded_network_packet,
}
use lan_link.Protocol.Packet.Forwarded.{decode-encode_forwarded, encode-decode_forwarded}
use lan_link.Protocol.Packet.RoundTrip.{IsTyped, decode-encode_packet, encode-decode_packet}

abbrev beat : Frame
beat = record { type = heartbeat; request_id = 7; payload = 1 ∷ 2 ∷ [] }

abbrev beat_bytes : List ℕ
beat_bytes = 0x4c ∷ 0x4e ∷ 0x4c ∷ 0x4b ∷ 0 ∷ 5 ∷ 0 ∷ 3 ∷ 0 ∷ 0 ∷ 0 ∷ 7 ∷ 0 ∷ 0 ∷ 0 ∷ 2 ∷ 1 ∷ 2 ∷ []

beat_encoded : encode_frame beat ≡ ok beat_bytes
unfolding encode_frame is_known_message_type frame_bytes append_integer code
beat_encoded = refl

beat_read : decode_frame beat_bytes ≡ decoded beat
unfolding decode_frame is_known_message_type read_integer read_loop from_code
beat_read = refl

wrong_magic : (decode_frame (replicate 16 0)).status ≡ invalid_magic
unfolding decode_frame
wrong_magic = refl

two_beats :
    push reset (take 10 beat_bytes)
    ≡ (record { buffer = take 10 beat_bytes; read_offset = 0 }, ok [])
unfolding push push_loop decode_frame decode_buffered dispatch after_drain compact
two_beats = refl

beat-IsEncodable : IsEncodable beat
unfolding is_known_message_type
beat-IsEncodable = record { known = refl; id_fits = omega arith; payload_fits = omega arith }

beat_spelled : frame_bytes beat ≡ beat_bytes
unfolding frame_bytes append_integer code
beat_spelled = refl

decode_frame-encode_frame_example : decode_frame (beat_bytes ++ 9 ∷ []) ≡ decoded beat
decode_frame-encode_frame_example =
    decode_frame-encode_frame beat beat_bytes (9 ∷ []) (omega arith) beat_encoded

beat_complete : (decode_frame beat_bytes).status ≡ complete
beat_complete = ap (λ (r : DecodeResult). r.status) beat_read

encode_frame-decode_frame_example :
    (f : Frame) × (front : List ℕ) × ((decode_frame beat_bytes).frame ≡ some f)
    × (encode_frame f ≡ ok front)
    × (beat_bytes ≡ front ++ drop (decode_frame beat_bytes).consumed beat_bytes)
encode_frame-decode_frame_example = encode_frame-decode_frame beat_bytes (omega arith) beat_complete

decode_frame-prefix_example :
    ((decode_frame (take 16 beat_bytes)).status ≡ need_more_data)
    × ((decode_frame (take 16 beat_bytes)).required ≤ length (frame_bytes beat))
decode_frame-prefix_example =
    decode_frame-prefix beat (take 16 beat_bytes) (2 ∷ []) 1 beat-IsEncodable beat_spelled

half_waits : (decode_frame (take 16 beat_bytes)).status ≡ need_more_data
unfolding decode_frame is_known_message_type read_integer read_loop from_code
half_waits = refl

push-Outcome_example : Outcome beat_bytes [] (push reset beat_bytes).0 (push reset beat_bytes).1
push-Outcome_example = push-Outcome reset beat_bytes reset-IsReady

abbrev pieces : List (List ℕ)
pieces = take 3 beat_bytes ∷ drop 3 beat_bytes ∷ beat_bytes ∷ []

beats_encoded : joined pieces ≡ encoded (beat ∷ beat ∷ [])
unfolding frame_bytes append_integer code
beats_encoded = refl

push_all-encoded_example :
    ((push_all reset pieces).1 ≡ ok (beat ∷ beat ∷ [])) × (contents (push_all reset pieces).0 ≡ [])
push_all-encoded_example =
    push_all-encoded (beat ∷ beat ∷ []) pieces (beat-IsEncodable, (beat-IsEncodable, tt))
      beats_encoded

zeros_fail : Parses (replicate 16 0) [] (replicate 16 0) (some invalid_magic)
zeros_fail = fails wrong_magic (λ e. cc) (λ e. cc) refl

push_invalid_example : (push reset (replicate 16 0)).1 ≡ throw (invalid_stream invalid_magic)
push_invalid_example =
    push_invalid reset (replicate 16 0) [] _ invalid_magic reset-IsReady zeros_fail

buffered_size-lt_example : buffered_size (push reset (take 10 beat_bytes)).0 < maximum_frame_size
buffered_size-lt_example =
    buffered_size-lt reset (take 10 beat_bytes) [] reset-IsReady
      (ap (λ (r : FrameStreamDecoder × _). r.1) two_beats)

-- A packet of twenty zero bytes to 10.77.0.2.
abbrev small : EncryptedNetworkPacket
small = record {
  network_id = replicate 16 1;
  destination_ipv4 = 0x0a4d_0002;
  key_epoch = 1;
  sequence = 258;
  nonce = replicate 8 0 ++ 0 ∷ 0 ∷ 1 ∷ 2 ∷ [];
  ciphertext = replicate 20 0;
  tag = replicate 16 3;
}

abbrev small_bytes : List ℕ
small_bytes =
    replicate 16 1
    ++ 0x0a
      ∷ 0x4d
      ∷ 0
      ∷ 2
      ∷ 0
      ∷ 0
      ∷ 0
      ∷ 0
      ∷ 0
      ∷ 0
      ∷ 0
      ∷ 1
      ∷ 0
      ∷ 0
      ∷ 1
      ∷ 2
      ∷ (replicate 8 0 ++ 0 ∷ 0 ∷ 1 ∷ 2 ∷ 0 ∷ 20 ∷ (replicate 20 0 ++ replicate 16 3))

small-IsTyped : IsTyped small
small-IsTyped = record {
  network_size = refl;
  nonce_size = refl;
  tag_size = refl;
  destination_fits = omega arith;
  epoch_fits = omega arith;
  sequence_fits = omega arith;
}

small_encoded : encode_encrypted_network_packet small ≡ ok small_bytes
unfolding encode_encrypted_network_packet valid_packet all_zero append_integer
small_encoded = refl

decode-encode_packet_example : decode_encrypted_network_packet small_bytes ≡ ok small
decode-encode_packet_example = decode-encode_packet small small_bytes small-IsTyped small_encoded

encode-decode_packet_example : encode_encrypted_network_packet small ≡ ok small_bytes
encode-decode_packet_example =
    encode-decode_packet small_bytes small (omega arith) decode-encode_packet_example

abbrev sent : ForwardedNetworkPacket
sent = record { sender_device_id = replicate 32 9; packet = small }

sent_encoded : encode_forwarded_network_packet sent ≡ ok (replicate 32 9 ++ small_bytes)
unfolding encode_forwarded_network_packet encode_encrypted_network_packet valid_packet all_zero
    append_integer
sent_encoded = refl

decode-encode_forwarded_example :
    decode_forwarded_network_packet (replicate 32 9 ++ small_bytes) ≡ ok sent
decode-encode_forwarded_example = decode-encode_forwarded sent _ refl small-IsTyped sent_encoded

encode-decode_forwarded_example :
    encode_forwarded_network_packet sent ≡ ok (replicate 32 9 ++ small_bytes)
encode-decode_forwarded_example =
    encode-decode_forwarded (replicate 32 9 ++ small_bytes) sent (omega arith)
      decode-encode_forwarded_example
