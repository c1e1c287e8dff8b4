-- ===== src/Protocol/Ipv4/Ends.antt =====
-- The loops over the options and over the payload end within their fuel: `logic_error` is not thrown.
use lan_link.Prelude.{
  ℕ, zero, suc, ◌+◌, ◌-◌, ◌*◌, ◌%◌, ◌≤◌, ◌≡◌, ◌≢◌, inl, inr, refl, ap, Bool, true, false, not, ◌||◌,
  none, some, List, [], ◌∷◌, ◌++◌, arith, ltb, leb, ◌==◌, if◌then◌else◌, Bool-cases, Result, ok,
  throw, ◌>>=◌, ◌>>◌, Exception, invalid_argument, length_error, logic_error, require, length, take,
  drop,
}
use lan_link.Protocol.Ipv4.{
  sound_size, sound_header, sound_bounds, unanswered, Ipv4Header, octet_at, get_bytes,
  header_length, update_ipv4_checksum, options_loop, copied_options, pad, inspect_ipv4,
  fragment_header_size, fragment_count, make_fragment, fragments_loop, fragment_ipv4,
  ipv4_fragmentation_needed,
}

-- What no part throws, the whole does not throw.
>>=-ends :
    {A B : Type 0} (first : Result Exception A) (rest : A → Result Exception B)
    → first ≢ throw logic_error
    → ((value : A) → rest value ≢ throw logic_error)
    → (first >>= rest) ≢ throw logic_error
>>=-ends (throw thrown) rest h k e = h (cc e)
>>=-ends (ok value) rest h k e = k value e

-- The other classes are not `logic_error`.
abbrev is_logic : Exception → Bool
is_logic logic_error = true
is_logic thrown = false

require-ends :
    {B : Type 0} (test : Bool) (thrown : Exception) (rest : Result Exception B)
    → is_logic thrown ≡ false
    → (test ≡ true → rest ≢ throw logic_error)
    → (require test thrown >> rest) ≢ throw logic_error
require-ends true thrown rest h k e = k refl e
require-ends false thrown rest h k e =
    let same : thrown ≡ logic_error = cc e in cc (h, ap is_logic same)

if-ends :
    {B : Type 0} (test : Bool) {first second : Result Exception B}
    → first ≢ throw logic_error
    → second ≢ throw logic_error
    → (if test then first else second) ≢ throw logic_error
if-ends true h k = h
if-ends false h k = k

ok-ends : {B : Type 0} (value : B) → ok value ≢ throw logic_error
ok-ends value e = cc e

update_ipv4_checksum-ends : (packet : List ℕ) → update_ipv4_checksum packet ≢ throw logic_error
unfolding update_ipv4_checksum
update_ipv4_checksum-ends packet =
    require-ends (leb 20 (length packet)) invalid_argument _ refl (λ t.
      require-ends
        (not (ltb (header_length packet) 20 || ltb (length packet) (header_length packet)))
        invalid_argument _ refl (λ u. ok-ends _))

options_loop-ends :
    (fuel : ℕ) (packet : List ℕ) (header offset : ℕ) (result : List ℕ)
    → header - offset ≤ fuel
    → options_loop fuel packet header offset result ≢ throw logic_error
unfolding options_loop
options_loop-ends zero packet header offset result h e =
    let done : leb header offset ≡ true = ground (arith, h) in ok-ends result (rw done at e)
options_loop-ends (suc fuel) packet header offset result h e =
    let size = octet_at packet (offset + 1) in
    let option = take size (drop offset packet) in
    elim (Bool-cases (leb header offset || octet_at packet offset == 0)) [
      | inl done ↦ ok-ends result (rw done at e)
      | inr more ↦ elim (Bool-cases (octet_at packet offset == 1)) [
        | inl one ↦
            options_loop-ends fuel packet header (offset + 1) result (omega (arith, h))
              (rw (more, one) at e)
        | inr option_type ↦
            elim (Bool-cases
              (ltb header (offset + 2) || ltb size 2 || ltb (header - offset) size)) [
                | inl bad ↦ cc (rw (more, option_type, bad) at e)
                | inr good ↦
                    let less : header - (offset + size) ≤ fuel = ground (arith, good, h) in
                    elim (Bool-cases (leb 128 (octet_at packet offset))) [
                      | inl copied ↦
                          options_loop-ends fuel packet header (offset + size) (result ++ option)
                            less (rw (more, option_type, good, copied) at e)
                      | inr skipped ↦
                          options_loop-ends fuel packet header (offset + size) result less
                            (rw (more, option_type, good, skipped) at e)
                    ]
              ]
      ]
    ]

copied_options-ends :
    (packet : List ℕ) (header : ℕ) → copied_options packet header ≢ throw logic_error
unfolding copied_options
copied_options-ends packet header =
    >>=-ends (options_loop header packet header 20 []) _
      (options_loop-ends header packet header 20 [] (omega arith)) (λ result. ok-ends (pad result))

inspect_ipv4-ends : (packet : List ℕ) → inspect_ipv4 packet ≢ throw logic_error
unfolding inspect_ipv4
inspect_ipv4-ends packet =
    let header = header_length packet in
    let flags = get_bytes packet 6 2 in
    require-ends (sound_size packet) invalid_argument _ refl (λ t.
      require-ends (sound_header packet) invalid_argument _ refl (λ u.
        >>=-ends (copied_options packet header) _ (copied_options-ends packet header) (λ options.
          require-ends (sound_bounds flags (flags % 8192 * 8) (length packet - header) header)
            invalid_argument _ refl (λ v. ok-ends _))))

fragments_loop-ends :
    (fuel : ℕ) (packet : List ℕ) (info : Ipv4Header) (options : List ℕ) (mtu offset : ℕ)
    → length packet - info.header_size - offset ≤ fuel
    → fragments_loop fuel packet info options mtu offset ≢ throw logic_error
unfolding fragments_loop
fragments_loop-ends zero packet info options mtu offset h e =
    let done : leb (length packet - info.header_size) offset ≡ true = ground (arith, h) in
    ok-ends [] (rw done at e)
fragments_loop-ends (suc fuel) packet info options mtu offset h e =
    let total = length packet - info.header_size in
    let count = fragment_count (mtu - fragment_header_size info options offset) (total - offset) in
    let more = ltb count (total - offset) || info.more_fragments in
    elim (Bool-cases (leb total offset)) [
      | inl done ↦ ok-ends [] (rw done at e)
      | inr not_done ↦
          require-ends (not (count == 0)) invalid_argument _ refl
            (λ positive.
              let less : total - (offset + count) ≤ fuel = ground (arith, positive, not_done, h) in
              >>=-ends (make_fragment packet info options offset count more) _
                (update_ipv4_checksum-ends _)
                (λ fragment.
                  >>=-ends (fragments_loop fuel packet info options mtu (offset + count)) _
                    (fragments_loop-ends fuel packet info options mtu (offset + count) less)
                    (λ fragments. ok-ends (fragment ∷ fragments))))
            (rw not_done at e)
    ]

-- The loops over the options and over the payload end for every packet and every MTU: each has more
-- fuel than rounds, so that what stands for fuel that ran out is never thrown. So do those of
-- `ipv4_fragmentation_needed`, for every router address.
pub fragment_ipv4-ends :
    (packet : List ℕ) (mtu router : ℕ)
    → (fragment_ipv4 packet mtu ≢ throw logic_error)
      × (ipv4_fragmentation_needed packet router mtu ≢ throw logic_error)
unfolding fragment_ipv4 ipv4_fragmentation_needed
fragment_ipv4-ends packet mtu router = (
  require-ends (leb 68 mtu) invalid_argument _ refl (λ t.
      >>=-ends (inspect_ipv4 packet) _ (inspect_ipv4-ends packet) (λ info.
        if-ends (leb (length packet) mtu) (ok-ends (packet ∷ [])) (
          require-ends (not info.dont_fragment) length_error _ refl (λ u.
            >>=-ends (copied_options packet info.header_size) _
              (copied_options-ends packet info.header_size)
              (λ options.
                fragments_loop-ends (length packet) packet info options mtu 0 (omega arith)))))),
  >>=-ends (inspect_ipv4 packet) _ (inspect_ipv4-ends packet) (λ info.
      if-ends (unanswered info packet router) (ok-ends none) (
        >>=-ends (update_ipv4_checksum _) _ (update_ipv4_checksum-ends _)
          (λ answer. ok-ends (some answer)))),
)
