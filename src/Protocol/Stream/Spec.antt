-- ===== src/Protocol/Stream/Spec.antt =====
-- What a stream decoder is for: how a byte sequence divides into frames.
use lan_link.Prelude.{
  ℕ, ◌≡◌, ◌≢◌, refl, sym, ap, ◌∙◌, List, [], ◌∷◌, ◌++◌, drop, Option, none, some, drop-append,
  drop-append_left, subst,
}
use lan_link.Protocol.Codec.{
  Frame, DecodeStatus, complete, need_more_data, decode_frame, frame_bytes,
}
use lan_link.Protocol.Codec.Exact.{IsEncodable, decode_frame-frame_bytes, length-frame_bytes}
use lan_link.Protocol.Codec.Prefix.{decode_frame-append, consumed_bounds}

-- `bytes` begins with the frames, `rest` follows them, and then the decoder waits (`none`) or finds
-- an error.
pub data Parses : List ℕ → List Frame → List ℕ → Option DecodeStatus → Type 0 where
  waits :
      {bytes : List ℕ} {rest : List ℕ}
      → (decode_frame bytes).status ≡ need_more_data
      → rest ≡ bytes
      → Parses bytes [] rest none
  fails :
      {bytes : List ℕ} {rest : List ℕ} {s : DecodeStatus}
      → (decode_frame bytes).status ≡ s
      → s ≢ need_more_data
      → s ≢ complete
      → rest ≡ bytes
      → Parses bytes [] rest (some s)
  takes :
      {bytes : List ℕ} {f : Frame} {frames : List Frame} {rest : List ℕ} {e : Option DecodeStatus}
      → (decode_frame bytes).status ≡ complete
      → (decode_frame bytes).frame ≡ some f
      → Parses (drop (decode_frame bytes).consumed bytes) frames rest e
      → Parses bytes (f ∷ frames) rest e

-- A byte sequence divides in one way.
pub Parses-unique :
    {bytes : List ℕ} {fs gs : List Frame} {r q : List ℕ} {d e : Option DecodeStatus}
    → Parses bytes fs r d
    → Parses bytes gs q e
    → (fs ≡ gs) × (r ≡ q) × (d ≡ e)
Parses-unique (waits w p) (waits w' p') = (refl, p ∙ sym p', refl)
Parses-unique (waits w p) (fails h n c p') = absurd (n (sym h ∙ w))
Parses-unique (waits w p) (takes c g t) = cc
Parses-unique (fails h n c p) (waits w p') = absurd (n (sym h ∙ w))
Parses-unique (fails h n c p) (fails h' n' c' p') = (refl, p ∙ sym p', ap some (sym h ∙ h'))
Parses-unique (fails h n c p) (takes c' g t) = absurd (c (sym h ∙ c'))
Parses-unique (takes c g t) (waits w p) = cc
Parses-unique (takes c g t) (fails h n c' p) = absurd (c' (sym h ∙ c))
Parses-unique (takes {f = f} c g t) (takes {f = f'} c' g' t') =
    let (a, b, e) = Parses-unique t t' in let same : f ≡ f' = cc (g, g') in (cc (same, a), b, e)

-- A complete result stays, with what follows joined to the rest.
taken-append :
    (xs ys : List ℕ)
    → (decode_frame xs).status ≡ complete
    → (decode_frame (xs ++ ys) ≡ decode_frame xs)
      × (drop (decode_frame (xs ++ ys)).consumed (xs ++ ys)
          ≡ drop (decode_frame xs).consumed xs ++ ys)
taken-append xs ys c =
    let same : decode_frame (xs ++ ys) ≡ decode_frame xs = decode_frame-append xs ys (λ w. cc) in
    (same, rw same (drop-append _ xs ys (consumed_bounds xs c).1))

-- Parsing goes on where it waited.
pub Parses-append :
    (ys : List ℕ) {xs : List ℕ} {fs gs : List Frame} {r q : List ℕ} {d e : Option DecodeStatus}
    → Parses xs fs r d
    → d ≡ none
    → Parses (r ++ ys) gs q e
    → Parses (xs ++ ys) (fs ++ gs) q e
Parses-append ys {gs = gs} {q = q} {e = e} (waits w p) n t =
    subst (λ b. Parses (b ++ ys) gs q e) p t
Parses-append ys (fails h a b p) n t = cc
Parses-append ys {gs = gs} {q = q} {e = e} (takes {bytes = xs} {frames = fs} c g s) n t =
    let (same, rest) = taken-append xs ys c in
    takes (rw same c) (rw same g)
      (subst (λ b. Parses b (fs ++ gs) q e) (sym rest) (Parses-append ys s n t))

-- More bytes do not mend an error.
pub Parses-fails_append :
    {xs : List ℕ} (ys : List ℕ) {fs : List Frame} {r : List ℕ} {s : DecodeStatus}
    {d : Option DecodeStatus}
    → Parses xs fs r d
    → d ≡ some s
    → Parses (xs ++ ys) fs (r ++ ys) (some s)
Parses-fails_append ys (waits w p) n = cc
Parses-fails_append ys {s = t} (fails {bytes = xs} {s = s} h a b p) n =
    let same : decode_frame (xs ++ ys) ≡ decode_frame xs =
      decode_frame-append xs ys (λ w. a (sym h ∙ w)) in
    let e : s ≡ t = cc n in
    fails (rw same (h ∙ e)) (λ w. a (e ∙ w)) (λ w. b (e ∙ w)) (ap (λ r. r ++ ys) p)
Parses-fails_append ys {s = t} (takes {bytes = xs} {frames = fs} {rest = r} c g s) n =
    let (same, rest) = taken-append xs ys c in
    takes (rw same c) (rw same g)
      (subst (λ b. Parses b fs (r ++ ys) (some t)) (sym rest) (Parses-fails_append ys s n))

-- Frames, encoded one after the other.
abbrev pub encoded : List Frame → List ℕ
encoded [] = []
encoded (f ∷ fs) = frame_bytes f ++ encoded fs

abbrev pub AllEncodable : List Frame → Type 0
AllEncodable [] = Unit {0}
AllEncodable (f ∷ fs) = IsEncodable f × AllEncodable fs

pub empty_waits : (decode_frame []).status ≡ need_more_data
unfolding decode_frame
empty_waits = refl

-- They divide into the frames, with nothing left.
pub Parses-encoded : (fs : List Frame) → AllEncodable fs → Parses (encoded fs) fs [] none
Parses-encoded [] v = waits empty_waits refl
Parses-encoded (f ∷ fs) v =
    let whole = decode_frame-frame_bytes f (encoded fs) v.0 in
    let rest : drop (decode_frame (encoded (f ∷ fs))).consumed (encoded (f ∷ fs)) ≡ encoded fs =
      rw whole (rw (← length-frame_bytes f) (drop-append_left (frame_bytes f) (encoded fs))) in
    takes (rw whole refl) (rw whole refl)
      (subst (λ b. Parses b fs [] none) (sym rest) (Parses-encoded fs v.1))
