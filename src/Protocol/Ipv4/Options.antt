-- ===== src/Protocol/Ipv4/Options.antt =====
-- The options that are copied into later fragments fit a header.
use lan_link.Prelude.{
  ℕ, zero, suc, ◌+◌, ◌-◌, ◌%◌, ◌≤◌, ◌≡◌, inl, inr, refl, ap, ◌∙◌, ◌||◌, List, [], ◌++◌, arith, ltb,
  leb, ◌==◌, Bool-cases, ok, >>=-inv, ok_injective, length, take, drop, replicate, length-append,
  length-take, All-append, All-take, All-drop,
}
use lan_link.Bytes.{IsBytes}
use lan_link.Protocol.Ipv4.{octet_at, options_loop, copied_options, pad}

-- A result of bytes that takes no more room than what was read.
abbrev pub HasRoom : List ℕ → ℕ → Type 0
HasRoom result offset = IsBytes result × (length result + 20 ≤ offset)

module _ (packet : List ℕ) (bytes : IsBytes packet) (header : ℕ) where
  copied-HasRoom :
      (offset size : ℕ) (result : List ℕ)
      → HasRoom result offset
      → HasRoom (result ++ take size (drop offset packet)) (offset + size)
  copied-HasRoom offset size result (b, room) = (
    All-append _ result (take size (drop offset packet)) b
        (All-take _ size (drop offset packet) (All-drop _ offset packet bytes)),
    omega (
      arith,
      room,
      length-append result (take size (drop offset packet)),
      length-take size (drop offset packet),
    ),
  )

  options_loop-HasRoom :
      (fuel offset : ℕ) (result options : List ℕ)
      → offset ≤ header
      → HasRoom result offset
      → options_loop fuel packet header offset result ≡ ok options
      → HasRoom options header
  unfolding options_loop
  options_loop-HasRoom zero offset result options h (b, room) e =
      elim (Bool-cases (leb header offset)) [
        | inl done ↦
            let same : options ≡ result = cc (rw done at e) in rw same (b, omega (arith, h, room))
        | inr more ↦ cc (rw more at e)
      ]
  options_loop-HasRoom (suc fuel) offset result options h (b, room) e =
      let size = octet_at packet (offset + 1) in
      elim (Bool-cases (leb header offset || octet_at packet offset == 0)) [
        | inl done ↦
            let same : options ≡ result = cc (rw done at e) in rw same (b, omega (arith, h, room))
        | inr more ↦ elim (Bool-cases (octet_at packet offset == 1)) [
          | inl one ↦
              options_loop-HasRoom fuel (offset + 1) result options (ground (arith, more))
                (b, omega (arith, room)) (rw (more, one) at e)
          | inr option ↦
              elim (Bool-cases
                (ltb header (offset + 2) || ltb size 2 || ltb (header - offset) size)) [
                  | inl bad ↦ cc (rw (more, option, bad) at e)
                  | inr good ↦
                      let fits : offset + size ≤ header = ground (arith, good) in
                      elim (Bool-cases (leb 128 (octet_at packet offset))) [
                        | inl copied ↦
                            options_loop-HasRoom fuel (offset + size)
                              (result ++ take size (drop offset packet)) options fits
                              (copied-HasRoom offset size result (b, room))
                              (rw (more, option, good, copied) at e)
                        | inr skipped ↦
                            options_loop-HasRoom fuel (offset + size) result options fits
                              (b, omega (arith, room)) (rw (more, option, good, skipped) at e)
                      ]
                ]
        ]
      ]

zeros-IsBytes : (n : ℕ) → IsBytes (replicate n 0)
zeros-IsBytes zero = tt
zeros-IsBytes (suc n) = (omega arith, zeros-IsBytes n)

length-zeros : (n : ℕ) → length (replicate {A = ℕ} n 0) ≡ n
length-zeros zero = refl
length-zeros (suc n) = ap suc (length-zeros n)

-- The options that are copied are bytes, and make a header of no more bytes than that of the packet,
-- in whole words of four bytes.
pub copied_options_fit :
    (packet options : List ℕ) (header : ℕ)
    → IsBytes packet
    → 20 ≤ header
    → header % 4 ≡ 0
    → copied_options packet header ≡ ok options
    → IsBytes options × (length options + 20 ≤ header) × (length options % 4 ≡ 0)
unfolding copied_options
copied_options_fit packet options header bytes h words e =
    let (result, done, padded) = >>=-inv (options_loop header packet header 20 []) _ options e in
    let (b, room) =
      options_loop-HasRoom packet bytes header header 20 [] result h (tt, omega arith) done in
    let zeros = replicate ((4 - length result % 4) % 4) 0 in
    let size : length (pad result) ≡ length result + (4 - length result % 4) % 4 =
      length-append result zeros
      ∙ ap (λ (n : ℕ). length result + n) (length-zeros ((4 - length result % 4) % 4)) in
    let same : options ≡ pad result = ok_injective _ _ options refl padded in
    rw same (
      All-append _ result zeros b (zeros-IsBytes ((4 - length result % 4) % 4)),
      omega (arith, size, room, words),
      omega (arith, size),
    )
