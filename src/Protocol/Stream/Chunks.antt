-- ===== src/Protocol/Stream/Chunks.antt =====
-- How the stream is cut into pieces does not matter.
use lan_link.Prelude.{
  ℕ, ◌≡◌, ◌<◌, refl, ap, ◌∙◌, List, [], ◌∷◌, ◌++◌, length, Option, none, some, arith, append-nil,
  append_assoc, Result, ok, throw, suc,
}
use lan_link.Protocol.Codec.{Frame, DecodeStatus}
use lan_link.Protocol.Stream.{
  FrameStreamDecoder, StreamError, oversized, unfinished, invalid_stream, push, maximum_frame_size,
  reset, buffered_size,
}
use lan_link.Protocol.Stream.Spec.{
  Parses, waits, Parses-append, Parses-fails_append, Parses-unique, Parses-encoded, encoded,
  AllEncodable,
}
use lan_link.Protocol.Stream.Drain.{decode_buffered-Drains}
use lan_link.Protocol.Stream.Push.{
  contents, IsReady, Outcome, push-Outcome, buffered_lem, reset-IsReady,
}

-- Every byte sequence divides into frames, a rest and an end.
pub Parses-total :
    (bytes : List ℕ)
    → (fs : List Frame) × (rest : List ℕ) × (e : Option DecodeStatus) × Parses bytes fs rest e
Parses-total bytes =
    let d = decode_buffered-Drains (suc (length bytes)) bytes 0 [] (omega arith) (omega arith) in
    (d.found, _, _, d.parsed)

-- The two kinds of result, with what they say of the input.
found_from_Outcome :
    (input fs rest : _) (d : FrameStreamDecoder) (out : Result StreamError (List Frame))
    → Parses input fs rest none
    → Outcome input [] d out
    → (out ≡ ok fs) × IsReady d × (contents d ≡ rest)
found_from_Outcome input fs rest d (ok all) p (v, (found, e, q)) =
    let (same, left, _) = Parses-unique q p in (ap ok (e ∙ same), v, left)
found_from_Outcome input fs rest d (throw oversized) p q = absurd q
found_from_Outcome input fs rest d (throw unfinished) p q = absurd q
found_from_Outcome input fs rest d (throw (invalid_stream s)) p (found, left, q) =
    let (_, _, e) = Parses-unique q p in cc e

error_from_Outcome :
    (input : List ℕ) (fs : List Frame) (rest : List ℕ) (s : DecodeStatus) (d : FrameStreamDecoder)
    (out : Result StreamError (List Frame))
    → Parses input fs rest (some s)
    → Outcome input [] d out
    → out ≡ throw (invalid_stream s)
error_from_Outcome input fs rest s d (ok all) p (v, (found, e, q)) =
    let (_, _, e) = Parses-unique q p in cc e
error_from_Outcome input fs rest s d (throw oversized) p q = absurd q
error_from_Outcome input fs rest s d (throw unfinished) p q = absurd q
error_from_Outcome input fs rest s d (throw (invalid_stream t)) p (found, left, q) =
    let (_, _, e) = Parses-unique q p in cc e

-- `push` returns the frames of what was buffered and pushed, where that is valid.
pub push_found :
    (d : FrameStreamDecoder) (bytes : List ℕ) (fs : List Frame) (rest : List ℕ)
    → IsReady d
    → Parses (contents d ++ bytes) fs rest none
    → ((push d bytes).1 ≡ ok fs) × IsReady (push d bytes).0 × (contents (push d bytes).0 ≡ rest)
push_found d bytes fs rest v p = found_from_Outcome _ fs rest _ _ p (push-Outcome d bytes v)

-- Where the buffered and the pushed bytes begin with frames and then with an invalid one, `push`
-- on a decoder that waits throws for that invalid frame, with its status.
pub push_invalid :
    (d : FrameStreamDecoder) (bytes : List ℕ) (fs : List Frame) (rest : List ℕ) (s : DecodeStatus)
    → IsReady d
    → Parses (contents d ++ bytes) fs rest (some s)
    → (push d bytes).1 ≡ throw (invalid_stream s)
push_invalid d bytes fs rest s v p = error_from_Outcome _ fs rest s _ _ p (push-Outcome d bytes v)

-- The frames of two calls in a row.
abbrev pub joins :
    List Frame
    → FrameStreamDecoder × Result StreamError (List Frame)
    → FrameStreamDecoder × Result StreamError (List Frame)
joins fs (d, ok gs) = (d, ok (fs ++ gs))
joins fs (d, throw e) = (d, throw e)

-- An exception stops the caller.
abbrev pub and_then :
    FrameStreamDecoder × Result StreamError (List Frame)
    → (FrameStreamDecoder → FrameStreamDecoder × Result StreamError (List Frame))
    → FrameStreamDecoder × Result StreamError (List Frame)
and_then (d, throw e) k = (d, throw e)
and_then (d, ok fs) k = joins fs (k d)

-- A caller that pushes one piece after the other.
unfoldable pub push_all :
    FrameStreamDecoder → List (List ℕ) → FrameStreamDecoder × Result StreamError (List Frame)
push_all d [] = (d, ok [])
push_all d (piece ∷ pieces) = and_then (push d piece) (λ d'. push_all d' pieces)

abbrev pub joined : List (List ℕ) → List ℕ
joined [] = []
joined (piece ∷ pieces) = piece ++ joined pieces

-- What a successful run leaves.
abbrev pub Gives :
    FrameStreamDecoder × Result StreamError (List Frame) → List Frame → List ℕ → Type 0
Gives out fs rest = (out.1 ≡ ok fs) × IsReady out.0 × (contents out.0 ≡ rest)

joins-Gives :
    (out : FrameStreamDecoder × Result StreamError (List Frame)) (fs gs : List Frame)
    (rest : List ℕ)
    → Gives out gs rest
    → Gives (joins fs out) (fs ++ gs) rest
joins-Gives (d, ok hs) fs gs rest (a, b, c) = (cc a, b, c)
joins-Gives (d, throw x) fs gs rest (a, b, c) = cc a

and_then-Gives :
    (out : FrameStreamDecoder × Result StreamError (List Frame))
    (k : FrameStreamDecoder → FrameStreamDecoder × Result StreamError (List Frame))
    (fs gs : List Frame) (rest : List ℕ)
    → out.1 ≡ ok fs
    → Gives (k out.0) gs rest
    → Gives (and_then out k) (fs ++ gs) rest
and_then-Gives (d, ok hs) k fs gs rest e g =
    let same : hs ≡ fs = cc e in rw same (joins-Gives (k d) fs gs rest g)
and_then-Gives (d, throw x) k fs gs rest e g = cc e

-- One piece, `go_on` being the calls for the others.
piece_found :
    (d : FrameStreamDecoder) (piece more : List ℕ)
    (go_on : FrameStreamDecoder → FrameStreamDecoder × Result StreamError (List Frame))
    (fs gs : List Frame) (rest r : List ℕ) (e : Option DecodeStatus)
    → IsReady d
    → Parses ((contents d ++ piece) ++ more) fs rest none
    → ((d' : FrameStreamDecoder) (hs : List Frame)
        → IsReady d'
        → Parses (contents d' ++ more) hs rest none
        → Gives (go_on d') hs rest)
    → Parses (contents d ++ piece) gs r e
    → Gives (and_then (push d piece) go_on) fs rest
piece_found d piece more go_on fs gs rest r (some s) v whole later q =
    let (_, _, e) = Parses-unique (Parses-fails_append more q refl) whole in cc e
piece_found d piece more go_on fs gs rest r none v whole later q =
    let (hs, r', e', t) = Parses-total (r ++ more) in
    let (all, same, ends) = Parses-unique (Parses-append more q refl t) whole in
    let (returned, ready, left) = push_found d piece gs r v q in
    let t' : Parses (contents (push d piece).0 ++ more) hs rest none =
      rw (left, ← same, ← ends) t in
    rw (← all) (and_then-Gives (push d piece) go_on gs hs rest returned (later _ hs ready t'))

-- However the stream is cut, the calls together return its frames.
pub push_all_found :
    (pieces : List (List ℕ)) (d : FrameStreamDecoder) (fs : List Frame) (rest : List ℕ)
    → IsReady d
    → Parses (contents d ++ joined pieces) fs rest none
    → Gives (push_all d pieces) fs rest
unfolding push_all
push_all_found [] d fs rest v p =
    let (same, left, _) = Parses-unique (waits v.waiting refl) (rw append-nil at p) in
    (ap ok same, v, left)
push_all_found (piece ∷ pieces) d fs rest v p =
    let (gs, r, e, q) = Parses-total (contents d ++ piece) in
    let whole : Parses ((contents d ++ piece) ++ joined pieces) fs rest none = rw append_assoc p in
    piece_found d piece (joined pieces) (λ d'. push_all d' pieces) fs gs rest r e v whole
      (λ d' hs. push_all_found pieces d' hs rest) q

-- The decoder, from its initial state, returns the encodable frames that were encoded one after
-- the other, however their bytes are cut into pieces, and keeps nothing.
pub push_all-encoded :
    (fs : List Frame) (pieces : List (List ℕ))
    → AllEncodable fs
    → joined pieces ≡ encoded fs
    → ((push_all reset pieces).1 ≡ ok fs) × (contents (push_all reset pieces).0 ≡ [])
push_all-encoded fs pieces v e =
    let g : Gives (push_all reset pieces) fs [] =
      push_all_found pieces reset fs [] reset-IsReady (rw e (Parses-encoded fs v)) in
    (g.0, g.2)

-- A decoder that waits for the rest of a frame has, after a `push` that returns, less than one
-- largest frame buffered.
pub buffered_size-lt :
    (d : FrameStreamDecoder) (bytes : List ℕ) (fs : List Frame)
    → IsReady d
    → (push d bytes).1 ≡ ok fs
    → buffered_size (push d bytes).0 < maximum_frame_size
unfolding buffered_size
buffered_size-lt d bytes fs v e = bounded (push d bytes).1 e (push-Outcome d bytes v)
  where
    bounded :
        (out : Result StreamError (List Frame))
        → out ≡ ok fs
        → Outcome (contents d ++ bytes) [] (push d bytes).0 out
        → buffered_size (push d bytes).0 < maximum_frame_size
    bounded (ok all) e q = omega (arith, buffered_lem (push d bytes).0 q.0)
    bounded (throw x) e q = cc e
