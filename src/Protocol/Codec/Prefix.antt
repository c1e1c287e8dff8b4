-- ===== src/Protocol/Codec/Prefix.antt =====
-- What `decode_frame` says of a byte sequence, and of a longer one that begins with it.
use lan_link.Prelude.{
  ℕ, ◌+◌, ◌≤◌, ◌<◌, ◌≡◌, ◌≢◌, sym, ap, ◌∙◌, List, [], ◌∷◌, ◌++◌, arith, ltb, length, take, drop,
  length-append, take-append, drop-append, length-drop, inl, inr, Bool-cases, append-nil, sym, ap,
  ◌∙◌,
}
use lan_link.Bytes.{read_integer}
use lan_link.Protocol.Codec.{
  DecodeStatus-discrete, DecodeResult, Frame, DecodeResult, complete, need_more_data, frame_bytes,
  decode_frame, max_payload_size, frame_header_size,
}
use lan_link.Protocol.Codec.Exact.{
  IsEncodable, decoded, length-frame_bytes, decode_frame-frame_bytes,
}

read_integer-append :
    (width offset : ℕ) (xs ys : List ℕ)
    → offset + width ≤ length xs
    → read_integer width (xs ++ ys) offset ≡ read_integer width xs offset
unfolding read_integer
read_integer-append width offset xs ys h = rw (
  drop-append offset xs ys (omega arith),
  take-append width (drop offset xs) ys (omega (arith, length-drop offset xs)),
)

-- The header of a sequence that holds one is that of every extension.
module _ (xs ys : List ℕ) (long : 16 ≤ length xs) where
  magic_same : take 4 (xs ++ ys) ≡ take 4 xs
  magic_same = take-append 4 xs ys (omega arith)

  version_same : read_integer 2 (xs ++ ys) 4 ≡ read_integer 2 xs 4
  version_same = read_integer-append 2 4 xs ys (omega arith)

  type_same : read_integer 2 (xs ++ ys) 6 ≡ read_integer 2 xs 6
  type_same = read_integer-append 2 6 xs ys (omega arith)

  id_same : read_integer 4 (xs ++ ys) 8 ≡ read_integer 4 xs 8
  id_same = read_integer-append 4 8 xs ys (omega arith)

  size_same : read_integer 4 (xs ++ ys) 12 ≡ read_integer 4 xs 12
  size_same = read_integer-append 4 12 xs ys (omega arith)

  body_same : (n : ℕ) → 16 + n ≤ length xs → take n (drop 16 (xs ++ ys)) ≡ take n (drop 16 xs)
  body_same n h =
      rw (drop-append 16 xs ys long)
        (take-append n (drop 16 xs) ys (omega (arith, length-drop 16 xs)))

-- More bytes change a result only if more bytes were asked for.
pub decode_frame-append :
    (xs ys : List ℕ)
    → (decode_frame xs).status ≢ need_more_data
    → decode_frame (xs ++ ys) ≡ decode_frame xs
unfolding decode_frame
decode_frame-append xs ys h =
    let long : 16 ≤ length xs = ground arith in
    let n = read_integer 4 xs 12 in
    rw
      (
        magic_same xs ys long,
        version_same xs ys long,
        type_same xs ys long,
        id_same xs ys long,
        size_same xs ys long,
      )
      (ground (arith, length-append xs ys, body_same xs ys long n))

-- A complete result takes a header at least, and no more than is there.
pub consumed_bounds :
    (xs : List ℕ)
    → (decode_frame xs).status ≡ complete
    → (16 ≤ (decode_frame xs).consumed) × ((decode_frame xs).consumed ≤ length xs)
unfolding decode_frame
consumed_bounds xs h = (ground arith, ground arith)

-- The decoder asks for more than is there, and for one largest frame at most.
pub required_bounds :
    (xs : List ℕ)
    → (decode_frame xs).status ≡ need_more_data
    → (length xs < (decode_frame xs).required)
      × ((decode_frame xs).required ≤ frame_header_size + max_payload_size)
unfolding decode_frame
required_bounds xs h = (ground arith, ground arith)

-- Where the decoder asks for more bytes and more bytes complete a frame, that frame has at least
-- the `required` bytes.
pub required-le-consumed :
    (xs ys : List ℕ)
    → (decode_frame xs).status ≡ need_more_data
    → (decode_frame (xs ++ ys)).status ≡ complete
    → (decode_frame xs).required ≤ (decode_frame (xs ++ ys)).consumed
unfolding decode_frame
required-le-consumed xs ys h k = elim (Bool-cases (ltb (length xs) 16)) [
  | inl short ↦ rw short (consumed_bounds (xs ++ ys) k).0
  | inr long ↦ ground (
    arith,
    consumed_bounds (xs ++ ys) k,
    magic_same xs ys (ground arith),
    version_same xs ys (ground arith),
    type_same xs ys (ground arith),
    size_same xs ys (ground arith),
  )
]

-- On a proper prefix of an encodable frame's bytes the decoder asks for more, and for no more
-- bytes than the frame has.
pub decode_frame-prefix :
    (f : Frame) (front back : List ℕ) (x : ℕ)
    → IsEncodable f
    → frame_bytes f ≡ front ++ x ∷ back
    → ((decode_frame front).status ≡ need_more_data)
      × ((decode_frame front).required ≤ length (frame_bytes f))
decode_frame-prefix f front back x v e =
    let whole : decode_frame (front ++ x ∷ back) ≡ decoded f =
      rw (← e) (rw append-nil at (decode_frame-frame_bytes f [] v)) in
    let size : length front < frame_header_size + length f.payload =
      omega (arith, ap (length {A = ℕ}) e, length-frame_bytes f, length-append front (x ∷ back)) in
    elim (DecodeStatus-discrete (decode_frame front).status need_more_data) [
      | yes p ↦ (
        p,
        omega (
          arith,
          length-frame_bytes f,
          ap (λ (r : DecodeResult). r.consumed) whole,
          required-le-consumed front (x ∷ back) p (ap (λ (r : DecodeResult). r.status) whole),
        ),
      )
      | no q ↦
          let same : decode_frame front ≡ decoded f =
            sym (decode_frame-append front (x ∷ back) q) ∙ whole in
          let taken = consumed_bounds front (ap (λ (r : DecodeResult). r.status) same) in
          absurd (omega (arith, ap (λ (r : DecodeResult). r.consumed) same, taken))
    ]
