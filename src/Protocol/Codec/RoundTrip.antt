-- ===== src/Protocol/Codec/RoundTrip.antt =====
-- `encode_frame` against `decode_frame`, and what each refuses.
use lan_link.Prelude.{ℕ, ◌^◌, ◌≡◌, ◌<◌, ap, List, ◌++◌, drop, some, ok, arith}
use lan_link.Bytes.{IsBytes, read_integer-lt}
use lan_link.Protocol.Codec.{Frame, DecodeResult, complete, decode_frame, encode_frame, frame_bytes}
use lan_link.Protocol.Codec.Exact.{
  IsEncodable, Taken, decoded, spelled, encode_frame-ok, decode_frame-frame_bytes,
  decode_frame-Taken, decode_frame_sound,
}

encode_frame-inv :
    (f : Frame) (bytes : List ℕ)
    → f.request_id < 2 ^ 32
    → encode_frame f ≡ ok bytes
    → IsEncodable f × (bytes ≡ frame_bytes f)
unfolding encode_frame
encode_frame-inv f bytes h e =
    (record { known = ground arith; id_fits = h; payload_fits = ground arith }, ground arith)

-- A frame that was encoded, its request id a 32-bit number, is decoded, with the number of its
-- bytes, whatever follows them.
pub decode_frame-encode_frame :
    (f : Frame) (bytes rest : List ℕ)
    → f.request_id < 2 ^ 32
    → encode_frame f ≡ ok bytes
    → decode_frame (bytes ++ rest) ≡ decoded f
decode_frame-encode_frame f bytes rest h e =
    let (v, same) = encode_frame-inv f bytes h e in rw same (decode_frame-frame_bytes f rest v)

-- Bytes that decode to a complete frame begin with the encoding of that frame, and `consumed`
-- bytes are dropped by dropping it.
pub encode_frame-decode_frame :
    (bytes : List ℕ)
    → IsBytes bytes
    → (decode_frame bytes).status ≡ complete
    → (f : Frame) × (front : List ℕ) × ((decode_frame bytes).frame ≡ some f)
      × (encode_frame f ≡ ok front)
      × (bytes ≡ front ++ drop (decode_frame bytes).consumed bytes)
encode_frame-decode_frame bytes h c =
    let f = spelled bytes in
    let t : Taken bytes f = decode_frame-Taken bytes c in
    let v : IsEncodable f = record {
      known = t.known;
      id_fits = omega (arith, read_integer-lt 4 8 bytes h (omega (arith, t.enough)));
      payload_fits = t.limit;
    } in
    (
      f,
      frame_bytes f,
      ap (λ (r : DecodeResult). r.frame) t.result,
      encode_frame-ok f v,
      rw t.result (decode_frame_sound bytes f h t),
    )
