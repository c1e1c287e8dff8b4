-- ===== src/Protocol/Stream/Push.antt =====
-- `push` against the division of the stream into frames.
use lan_link.Prelude.{
  ℕ, zero, suc, ◌≡◌, ◌≢◌, ◌≤◌, ◌<◌, refl, sym, ap, ◌∙◌, List, [], ◌∷◌, ◌++◌, length, take, drop,
  Option, none, some, arith, drop-length, append-nil, append_assoc, Bool-cases, inl, inr, ◌==◌,
  false, length-drop, length-append, drop-append, take-append-drop, min, Result, ok, throw,
}
use lan_link.Protocol.Codec.{Frame, DecodeStatus, need_more_data, decode_frame}
use lan_link.Protocol.Codec.Prefix.{required_bounds}
use lan_link.Protocol.Stream.{
  FrameStreamDecoder, StreamError, oversized, unfinished, invalid_stream, Drained, LoopEnd, drained,
  ran_out, failed, decode_buffered, compact, after_drain, push_loop, push, size_sub,
  maximum_frame_size, reset,
}
use lan_link.Protocol.Stream.Spec.{
  Parses, waits, fails, takes, empty_waits, Parses-append, Parses-fails_append,
}
use lan_link.Protocol.Stream.Drain.{Drains, decode_buffered-Drains, end_status}

-- The bytes that are still to be read.
abbrev pub contents : FrameStreamDecoder → List ℕ
contents d = drop d.read_offset d.buffer

-- Between calls the decoder waits for the rest of a frame.
pub record IsReady (d : FrameStreamDecoder) : Type 0 where
  pub within : d.read_offset ≤ length d.buffer
  pub waiting : (decode_frame (contents d)).status ≡ need_more_data

pub reset-IsReady : IsReady reset
reset-IsReady = record { within = omega arith; waiting = empty_waits }

-- The wrapping subtraction is exact here.
pub buffered_lem :
    (d : FrameStreamDecoder)
    → IsReady d
    → (size_sub (length d.buffer) d.read_offset ≡ length (contents d))
      × (length (contents d) < maximum_frame_size)
buffered_lem d v =
    let bounds = required_bounds (contents d) v.waiting in
    let size = length-drop d.read_offset d.buffer in
    (omega (arith, bounds, size, v.within), omega (arith, bounds))

contents-compact :
    (d : FrameStreamDecoder)
    → d.read_offset ≤ length d.buffer
    → (contents (compact d) ≡ contents d) × ((compact d).read_offset ≤ length (compact d).buffer)
unfolding compact
contents-compact d h = elim (Bool-cases (d.read_offset == length d.buffer)) [
  | inl done ↦
      let e : d.read_offset ≡ length d.buffer = ground arith in
      rw done (rw e (sym (drop-length d.buffer)), omega arith)
  | inr more ↦ (ground arith, ground arith)
]

pub Parses-rest :
    {xs : List ℕ} {fs : List Frame} {r : List ℕ} {e : Option DecodeStatus}
    → Parses xs fs r e
    → e ≡ none
    → (decode_frame r).status ≡ need_more_data
Parses-rest (waits w p) n = rw p w
Parses-rest (fails h a b p) n = cc
Parses-rest (takes c g t) n = Parses-rest t n

-- What `push` has to bring about, `input` being what was buffered and what was pushed, and `frames`
-- those found before.
abbrev pub Outcome :
    List ℕ → List Frame → FrameStreamDecoder → Result StreamError (List Frame) → Type 0
Outcome input frames d (ok all) =
    IsReady d
    × ((found : List Frame) × (all ≡ frames ++ found) × Parses input found (contents d) none)
Outcome input frames d (throw oversized) = ⊥
Outcome input frames d (throw unfinished) = ⊥
Outcome input frames d (throw (invalid_stream s)) =
    (found : List Frame) × (rest : List ℕ) × Parses input found rest (some s)

Outcome-append :
    (xs ys : List ℕ) (frames found : List Frame) (r : List ℕ) (d : FrameStreamDecoder)
    (out : Result StreamError (List Frame))
    → Parses xs found r none
    → Outcome (r ++ ys) (frames ++ found) d out
    → Outcome (xs ++ ys) frames d out
Outcome-append xs ys frames found r d (ok all) p (v, (more, e, q)) =
    (v, (found ++ more, e ∙ append_assoc frames found more, Parses-append ys p refl q))
Outcome-append xs ys frames found r d (throw oversized) p q = q
Outcome-append xs ys frames found r d (throw unfinished) p q = q
Outcome-append xs ys frames found r d (throw (invalid_stream s)) p (more, rest, q) =
    (found ++ more, rest, Parses-append ys p refl q)

-- After the inner loop: `ys` is what has not been buffered.
after_drain-Outcome :
    (xs ys : List ℕ) (frames found : List Frame) (d : FrameStreamDecoder) (e : LoopEnd)
    (go_on : FrameStreamDecoder → FrameStreamDecoder × Result StreamError (List Frame))
    → d.read_offset ≤ length d.buffer
    → e ≢ ran_out
    → Parses xs found (contents d) (end_status e)
    → ((d' : FrameStreamDecoder)
        → IsReady d'
        → Outcome (contents d' ++ ys) (frames ++ found) (go_on d').0 (go_on d').1)
    → Outcome (xs ++ ys) frames (after_drain d e go_on).0 (after_drain d e go_on).1
unfolding after_drain
after_drain-Outcome xs ys frames found d drained go_on h n p t =
    let (same, within) = contents-compact d h in
    let ready : IsReady (compact d) = record {
      within = within;
      waiting = rw same (Parses-rest p refl);
    } in
    Outcome-append xs ys frames found (contents (compact d)) _ _ (rw same p) (t (compact d) ready)
after_drain-Outcome xs ys frames found d ran_out go_on h n p t = absurd (n refl)
after_drain-Outcome xs ys frames found d (failed s) go_on h n p t =
    (found, _, Parses-fails_append ys p refl)

module _ (d : FrameStreamDecoder) (count : ℕ) (bytes : List ℕ) (frames : List Frame)
    (v : IsReady d) where
  abbrev grown : List ℕ
  grown = d.buffer ++ take count bytes

  abbrev round_end : Drained
  round_end = decode_buffered (suc (length grown)) grown d.read_offset frames

  contents-grown : drop d.read_offset grown ≡ contents d ++ take count bytes
  contents-grown = drop-append d.read_offset d.buffer (take count bytes) v.within

  input_here : contents d ++ bytes ≡ (contents d ++ take count bytes) ++ drop count bytes
  input_here =
      sym (append_assoc (contents d) _ _ ∙ ap (λ t. contents d ++ t) (take-append-drop count bytes))

  -- One round of the outer loop, `go_on` being the rounds after it.
  round-Outcome :
      (go_on : FrameStreamDecoder → FrameStreamDecoder × Result StreamError (List Frame))
      → ((d' : FrameStreamDecoder)
          → IsReady d'
          → Outcome (contents d' ++ drop count bytes) round_end.frames (go_on d').0 (go_on d').1)
      → (d' : FrameStreamDecoder)
      → d' ≡ record { buffer = grown; read_offset = round_end.read_offset }
      → Outcome
          (contents d ++ bytes)
          frames
          (after_drain d' round_end.end go_on).0
          (after_drain d' round_end.end go_on).1
  round-Outcome go_on t d' same =
      let fits : d.read_offset ≤ length grown =
        omega (arith, length-append d.buffer (take count bytes), v.within) in
      let r : Drains grown d.read_offset frames round_end =
        decode_buffered-Drains (suc (length grown)) grown d.read_offset frames fits
          (omega (arith, fits)) in
      rw (same, input_here)
        (after_drain-Outcome (contents d ++ take count bytes) (drop count bytes) frames r.found _
          round_end.end go_on r.within r.finished (rw contents-grown at r.parsed) (rw r.all at t))

push_loop-Outcome :
    (fuel : ℕ) (d : FrameStreamDecoder) (bytes : List ℕ) (frames : List Frame)
    → IsReady d
    → length bytes ≤ fuel
    → Outcome
        (contents d ++ bytes)
        frames
        (push_loop fuel d bytes frames).0
        (push_loop fuel d bytes frames).1
unfolding push_loop
push_loop-Outcome fuel d [] frames v h =
    (v, ([], sym (append-nil frames), rw append-nil (waits v.waiting refl)))
push_loop-Outcome zero d (b ∷ bs) frames v h = absurd (omega arith)
push_loop-Outcome (suc fuel) d (b ∷ bs) frames v h =
    let bytes : List ℕ = b ∷ bs in
    let available = size_sub maximum_frame_size (size_sub (length d.buffer) d.read_offset) in
    let (exact, room) = buffered_lem d v in
    let some_left : 1 ≤ available = omega (arith, exact, room) in
    let open_test : (available == 0) ≡ false = ground arith in
    let count = min available (length bytes) in
    rw open_test (
      round-Outcome d count bytes frames v _
        (λ d' v'.
          push_loop-Outcome fuel d' (drop count bytes) _ v'
            (omega (arith, length-drop count bytes)))
        _ refl)

-- On a decoder that waits for the rest of a frame, `push` either returns the frames that the
-- buffered and the pushed bytes divide into and keeps what follows them, where the decoder waits
-- again, or it throws for the invalid frame that follows the first ones. It never throws for a
-- frame that is too large, and its loops end.
pub push-Outcome :
    (d : FrameStreamDecoder) (bytes : List ℕ)
    → IsReady d
    → Outcome (contents d ++ bytes) [] (push d bytes).0 (push d bytes).1
unfolding push
push-Outcome d bytes v = push_loop-Outcome (length bytes) d bytes [] v (omega arith)
