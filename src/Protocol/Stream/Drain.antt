-- ===== src/Protocol/Stream/Drain.antt =====
-- The inner loop of `push` divides what the buffer holds from the offset on.
use lan_link.Prelude.{
  ℕ, zero, suc, ◌+◌, ◌≡◌, ◌≢◌, ◌≤◌, ◌<◌, refl, sym, ap, ◌∙◌, List, [], ◌∷◌, ◌++◌, length, drop,
  Option, none, some, arith, drop-drop, drop-length, append-nil, append_assoc, subst, Bool-cases,
  inl, inr, ltb, false, length-drop,
}
use lan_link.Protocol.Codec.{
  Frame, DecodeStatus, DecodeResult, complete, need_more_data, decode_frame, invalid_magic,
  unsupported_version, unknown_message_type, payload_too_large,
}
use lan_link.Protocol.Codec.Exact.{decode_frame-Taken}
use lan_link.Protocol.Codec.Prefix.{consumed_bounds}
use lan_link.Protocol.Stream.{Drained, LoopEnd, drained, ran_out, failed, dispatch, decode_buffered}
use lan_link.Protocol.Stream.Spec.{Parses, waits, fails, takes, empty_waits}

abbrev pub end_status : LoopEnd → Option DecodeStatus
end_status drained = none
end_status ran_out = none
end_status (failed s) = some s

pub record Drains (buffer : List ℕ) (offset : ℕ) (frames : List Frame) (r : Drained) : Type 0 where
  pub found : List Frame
  pub all : r.frames ≡ frames ++ found
  pub parsed : Parses (drop offset buffer) found (drop r.read_offset buffer) (end_status r.end)
  pub within : r.read_offset ≤ length buffer
  pub finished : r.end ≢ ran_out

module _ (buffer : List ℕ) (offset : ℕ) (frames : List Frame) where
  abbrev stops : LoopEnd → Drained
  stops e = record { read_offset = offset; frames = frames; end = e }

  drained_here :
      offset ≤ length buffer
      → (decode_frame (drop offset buffer)).status ≡ need_more_data
      → Drains buffer offset frames (stops drained)
  drained_here h w = record {
    found = [];
    all = sym (append-nil frames);
    parsed = waits w refl;
    within = h;
    finished = λ e. cc;
  }

  failed_here :
      (s : DecodeStatus)
      → offset ≤ length buffer
      → (decode_frame (drop offset buffer)).status ≡ s
      → s ≢ need_more_data
      → s ≢ complete
      → Drains buffer offset frames (stops (failed s))
  failed_here s h e n c = record {
    found = [];
    all = sym (append-nil frames);
    parsed = fails e n c refl;
    within = h;
    finished = λ e. cc;
  }

  -- A frame at the front, and the rounds after it.
  taken_here :
      (f : Frame) (r : Drained)
      → (decode_frame (drop offset buffer)).status ≡ complete
      → (decode_frame (drop offset buffer)).frame ≡ some f
      → Drains buffer (offset + (decode_frame (drop offset buffer)).consumed) (frames ++ f ∷ []) r
      → Drains buffer offset frames r
  taken_here f r c g t = record {
    found = f ∷ t.found;
    all = t.all ∙ append_assoc frames (f ∷ []) t.found;
    parsed = takes c g (
        subst (λ b. Parses b t.found (drop r.read_offset buffer) (end_status r.end))
          (sym (drop-drop (decode_frame (drop offset buffer)).consumed offset buffer)) t.parsed);
    within = t.within;
    finished = t.finished;
  }

  end_waits :
      ltb offset (length buffer) ≡ false
      → offset ≤ length buffer
      → (decode_frame (drop offset buffer)).status ≡ need_more_data
  end_waits e h =
      let here : offset ≡ length buffer = ground arith in rw (here, drop-length buffer) empty_waits

dispatch-Drains :
    (buffer : List ℕ) (offset : ℕ) (frames : List Frame) (s : DecodeStatus) (fr : Option Frame)
    (go_on : Frame → Drained)
    → offset ≤ length buffer
    → (decode_frame (drop offset buffer)).status ≡ s
    → (decode_frame (drop offset buffer)).frame ≡ fr
    → (s ≡ complete → fr ≢ none)
    → ((f : Frame)
        → s ≡ complete
        → Drains buffer
            (offset + (decode_frame (drop offset buffer)).consumed)
            (frames ++ f ∷ [])
            (go_on f))
    → Drains buffer offset frames (dispatch offset frames s fr go_on)
unfolding dispatch
dispatch-Drains b o fs complete (some f) go_on h e g n t =
    taken_here b o fs f (go_on f) e g (t f refl)
dispatch-Drains b o fs complete none go_on h e g n t = absurd (n refl refl)
dispatch-Drains b o fs need_more_data fr go_on h e g n t = drained_here b o fs h e
dispatch-Drains b o fs invalid_magic fr go_on h e g n t =
    failed_here b o fs _ h e (λ p. cc) (λ p. cc)
dispatch-Drains b o fs unsupported_version fr go_on h e g n t =
    failed_here b o fs _ h e (λ p. cc) (λ p. cc)
dispatch-Drains b o fs unknown_message_type fr go_on h e g n t =
    failed_here b o fs _ h e (λ p. cc) (λ p. cc)
dispatch-Drains b o fs payload_too_large fr go_on h e g n t =
    failed_here b o fs _ h e (λ p. cc) (λ p. cc)

-- The loop ends by its test, its `break` or its exception: the fuel is enough.
pub decode_buffered-Drains :
    (fuel : ℕ) (buffer : List ℕ) (offset : ℕ) (frames : List Frame)
    → offset ≤ length buffer
    → length buffer < offset + fuel
    → Drains buffer offset frames (decode_buffered fuel buffer offset frames)
unfolding decode_buffered
decode_buffered-Drains zero buffer offset frames h k = absurd (omega arith)
decode_buffered-Drains (suc fuel) buffer offset frames h k =
    let here = drop offset buffer in
    let size = length-drop offset buffer in
    elim (Bool-cases (ltb offset (length buffer))) [
      | inr done ↦
          rw done (drained_here buffer offset frames h (end_waits buffer offset frames done h))
      | inl more ↦ rw more (
          dispatch-Drains buffer offset frames (decode_frame here).status (decode_frame here).frame
            _ h refl refl
            (λ c e. cc (e, ap (λ (r : DecodeResult). r.frame) (decode_frame-Taken here c).result))
            (λ f c.
              decode_buffered-Drains fuel buffer _ (frames ++ f ∷ [])
                (omega (arith, consumed_bounds here c, size))
                (omega (arith, consumed_bounds here c, size))))
    ]
