-- ===== src/Auth/Window/Spec.antt =====
-- What the window means: it remembers every number that was accepted, as far as 64 numbers back.
use lan_link.Auth.Window.Bits.{one_bit, mark-cases}
use lan_link.Prelude.{
  ℕ, ◌-◌, ◌≤◌, ◌<◌, max, ◌≡◌, inl, inr, refl, ap, ◌∙◌, Bool, true, false, not, ◌&&◌, ◌||◌, List, [],
  ◌∷◌, arith, ltb, leb, ◌==◌, if◌then◌else◌, Bool-cases,
}
use lan_link.Auth.Window.{test_bit, accept_sequence, mark}

-- A number that the window refuses is refused ever after.
pub accept_sequence-mark :
    (q s highest bitmap : ℕ)
    → accept_sequence q highest bitmap ≡ false
    → accept_sequence q (mark s highest bitmap).0 (mark s highest bitmap).1 ≡ false
unfolding accept_sequence
accept_sequence-mark q s h b refused = elim (mark-cases s h b) [
  | inl (above, top, bits) ↦ rw top (ground (arith, bits (s - q)))
  | inr (below, top, bits) ↦ rw (top, bits (h - q)) (ground arith)
]

-- A number is refused once it was accepted.
pub accept_sequence_once :
    (s highest bitmap : ℕ)
    → accept_sequence s (mark s highest bitmap).0 (mark s highest bitmap).1 ≡ false
unfolding accept_sequence
accept_sequence_once s h b = elim (mark-cases s h b) [
  | inl (above, top, bits) ↦ rw top (ground (arith, bits (s - s)))
  | inr (below, top, bits) ↦ rw (top, bits (h - s)) (ground arith)
]

-- The specification: the numbers that were accepted, the last one first.
unfoldable pub maximum : List ℕ → ℕ
maximum [] = 0
maximum (s ∷ seen) = max s (maximum seen)

unfoldable pub has_number : List ℕ → ℕ → Bool
has_number [] s = false
has_number (q ∷ seen) s = q == s || has_number seen s

-- A number is fresh that is above all, or that is new and less than 64 below the highest.
abbrev pub is_fresh : List ℕ → ℕ → Bool
is_fresh seen s = ltb (maximum seen) s || (ltb (maximum seen - s) 64 && not (has_number seen s))

-- The decisions of the two on a sequence of arrivals.
unfoldable pub spec_run : List ℕ → List ℕ → List Bool
spec_run seen [] = []
spec_run seen (s ∷ arrivals) =
    is_fresh seen s ∷ spec_run (if is_fresh seen s then s ∷ seen else seen) arrivals

unfoldable pub window_run : ℕ × ℕ → List ℕ → List Bool
window_run window [] = []
window_run window (s ∷ arrivals) =
    accept_sequence s window.0 window.1
    ∷ window_run (if accept_sequence s window.0 window.1 then mark s window.0 window.1 else window)
        arrivals

-- The window of the numbers that were accepted.
abbrev Reflects : List ℕ → ℕ × ℕ → Type 0
Reflects seen window =
    (window.0 ≡ maximum seen)
    × ((d : ℕ) → d < 64 → d ≤ window.0 → test_bit window.1 d ≡ has_number seen (window.0 - d))

above_maximum : (seen : List ℕ) (s : ℕ) → maximum seen < s → has_number seen s ≡ false
unfolding maximum has_number
above_maximum [] s h = refl
above_maximum (q ∷ seen) s h = ground (arith, above_maximum seen s (omega arith))

moved_number :
    (seen : List ℕ) (window : ℕ × ℕ) (s d : ℕ)
    → Reflects seen window
    → window.0 < s
    → d < 64
    → d ≤ s
    → (0 == d || (leb (s - window.0) d && test_bit window.1 (d - (s - window.0))))
      ≡ (s == s - d || has_number seen (s - d))
moved_number seen (h, b) s d r above k m = elim (Bool-cases (leb (s - h) d)) [
  | inl reach ↦
      let same : h - (d - (s - h)) ≡ s - d = ground (arith, reach) in
      let old : test_bit b (d - (s - h)) ≡ has_number seen (s - d) =
        rw (← same) (r.1 (d - (s - h)) (omega arith) (ground (arith, reach))) in
      ground (arith, reach, old)
  | inr short ↦ ground (arith, short, above_maximum seen (s - d) (ground (arith, r.0, short)))
]

mark-Reflects :
    (seen : List ℕ) (window : ℕ × ℕ) (s : ℕ)
    → Reflects seen window
    → Reflects (s ∷ seen) (mark s window.0 window.1)
unfolding maximum has_number
mark-Reflects seen (h, b) s r = elim (mark-cases s h b) [
  | inl (above, top, bits) ↦
      rw top (ground (arith, r.0), λ d k m. bits d k ∙ moved_number seen (h, b) s d r above k m)
  | inr (below, top, bits) ↦
      rw top (ground (arith, r.0), λ d k m. bits d ∙ ground (arith, r.1 d k m))
]

Reflects-fresh :
    (seen : List ℕ) (window : ℕ × ℕ) (s : ℕ)
    → Reflects seen window
    → accept_sequence s window.0 window.1 ≡ is_fresh seen s
unfolding accept_sequence
Reflects-fresh seen (h, b) s r = ground (arith, r.0, r.1 (h - s))

decisions_agree :
    (seen : List ℕ) (window : ℕ × ℕ) (arrivals : List ℕ)
    → Reflects seen window
    → window_run window arrivals ≡ spec_run seen arrivals
unfolding window_run spec_run
decisions_agree seen window [] r = refl
decisions_agree seen window (s ∷ arrivals) r =
    let same = Reflects-fresh seen window s r in
    rw same (elim (Bool-cases (is_fresh seen s)) [
      | inl new ↦ rw new (
          ap (◌∷◌ true) (
            decisions_agree (s ∷ seen) (mark s window.0 window.1) arrivals
              (mark-Reflects seen window s r)))
      | inr old ↦ rw old (ap (◌∷◌ false) (decisions_agree seen window arrivals r))
    ])

-- From the first number on, the highest number and the bitmap decide on every sequence of arrivals as
-- does the rule that remembers all the numbers that were accepted: a number is accepted if it is above
-- all of them, or if it is less than 64 below the highest and is none of them.
pub window_run-spec_run :
    (first : ℕ) (arrivals : List ℕ)
    → window_run (first, 1) arrivals ≡ spec_run (first ∷ []) arrivals
unfolding maximum has_number test_bit
window_run-spec_run first arrivals =
    decisions_agree (first ∷ []) (first, 1) arrivals
      (omega arith, λ d k m. one_bit d ∙ ground arith)
