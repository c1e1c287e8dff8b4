-- ===== src/Protocol/Stream.antt =====
-- src/protocol/stream_decoder.cpp: frames out of a byte stream that arrives in pieces.
pub mod Spec
pub mod Drain
pub mod Push
pub mod Chunks
use lan_link.Prelude.{
  ℕ, zero, suc, ◌+◌, ◌-◌, ◌/◌, ◌%◌, ◌^◌, List, [], ◌∷◌, ◌++◌, ltb, ◌==◌, if◌then◌else◌, length,
  take, drop, min, some, none, Option, Result, ok, throw,
}
use lan_link.Protocol.Codec.{
  Frame, DecodeStatus, DecodeResult, complete, need_more_data, decode_frame, frame_header_size,
  max_payload_size,
}

pub record FrameStreamDecoder : Type 0 where
  pub buffer : List ℕ
  pub read_offset : ℕ

-- `std::size_t` subtraction wraps.
abbrev pub size_sub : ℕ → ℕ → ℕ
size_sub a b = (a + 2 ^ 64 - b) % 2 ^ 64

-- The two exceptions of `push`; `unfinished` stands for a loop that ran out of fuel, and for the
-- use of an absent frame.
pub data StreamError : Type 0 where
  oversized unfinished : StreamError
  invalid_stream : DecodeStatus → StreamError

-- How the inner loop ends: at its end or its `break`, or in an exception.
pub data LoopEnd : Type 0 where
  drained ran_out : LoopEnd
  failed : DecodeStatus → LoopEnd

pub record Drained : Type 0 where
  pub read_offset : ℕ
  pub frames : List Frame
  pub end : LoopEnd

-- What a round of the inner loop does with the result of `decode_frame`: take the frame and go on,
-- leave the loop, or throw.
unfoldable pub dispatch : ℕ → List Frame → DecodeStatus → Option Frame → (Frame → Drained) → Drained
dispatch offset frames complete (some f) go_on = go_on f
dispatch offset frames complete none go_on = record {
  read_offset = offset;
  frames = frames;
  end = ran_out;
}
dispatch offset frames need_more_data frame go_on = record {
  read_offset = offset;
  frames = frames;
  end = drained;
}
dispatch offset frames other frame go_on = record {
  read_offset = offset;
  frames = frames;
  end = failed other;
}

-- `while (read_offset_ < buffer_.size())`
unfoldable pub decode_buffered : ℕ → List ℕ → ℕ → List Frame → Drained
decode_buffered zero buffer offset frames = record {
  read_offset = offset;
  frames = frames;
  end = ran_out;
}
decode_buffered (suc fuel) buffer offset frames =
    let result : DecodeResult = decode_frame (drop offset buffer) in
    let round : Drained =
      dispatch offset frames result.status result.frame
        (λ f. decode_buffered fuel buffer (offset + result.consumed) (frames ++ f ∷ [])) in
    if ltb offset (length buffer)
    then round
    else record { read_offset = offset; frames = frames; end = drained }

-- What is done with the bytes that were read.
unfoldable pub compact : FrameStreamDecoder → FrameStreamDecoder
compact d =
    if d.read_offset == length d.buffer
    then record { buffer = []; read_offset = 0 }
    else if ltb (length d.buffer / 2) d.read_offset
    then record { buffer = drop d.read_offset d.buffer; read_offset = 0 }
    else d

abbrev pub maximum_frame_size : ℕ
maximum_frame_size = frame_header_size + max_payload_size

-- What a round of the outer loop does when the inner loop has ended.
unfoldable pub after_drain :
    FrameStreamDecoder
    → LoopEnd
    → (FrameStreamDecoder → FrameStreamDecoder × Result StreamError (List Frame))
    → FrameStreamDecoder × Result StreamError (List Frame)
after_drain d drained go_on = go_on (compact d)
after_drain d ran_out go_on = (d, throw unfinished)
after_drain d (failed s) go_on = (d, throw (invalid_stream s))

-- A round of the outer loop has `bytes` left, and takes one of them at least; a frame takes 16, so
-- that `length` rounds are enough for the inner loop.
unfoldable pub push_loop :
    ℕ
    → FrameStreamDecoder
    → List ℕ
    → List Frame
    → FrameStreamDecoder × Result StreamError (List Frame)
push_loop fuel d [] frames = (d, ok frames)
push_loop zero d (b ∷ bs) frames = (d, throw unfinished)
push_loop (suc fuel) d (b ∷ bs) frames =
    let bytes : List ℕ = b ∷ bs in
    let buffered = size_sub (length d.buffer) d.read_offset in
    let available = size_sub maximum_frame_size buffered in
    let count = min available (length bytes) in
    let buffer : List ℕ = d.buffer ++ take count bytes in
    let r : Drained = decode_buffered (suc (length buffer)) buffer d.read_offset frames in
    let round : FrameStreamDecoder × Result StreamError (List Frame) =
      after_drain (record { buffer = buffer; read_offset = r.read_offset }) r.end
        (λ d'. push_loop fuel d' (drop count bytes) r.frames) in
    if available == 0 then (d, throw oversized) else round

unfoldable pub push :
    FrameStreamDecoder → List ℕ → FrameStreamDecoder × Result StreamError (List Frame)
unfolding push_loop
push d bytes = push_loop (length bytes) d bytes []

abbrev pub reset : FrameStreamDecoder
reset = record { buffer = []; read_offset = 0 }

unfoldable pub buffered_size : FrameStreamDecoder → ℕ
buffered_size d = size_sub (length d.buffer) d.read_offset
