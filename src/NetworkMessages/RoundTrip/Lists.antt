-- ===== src/NetworkMessages/RoundTrip/Lists.antt =====
-- The relay's list of networks, to bytes and back.
use lan_link.Prelude.{
  ℕ, ◌^◌, ◌≤◌, ◌<◌, ◌≡◌, refl, sym, ap, ◌∙◌, true, false, not, List, [], ◌∷◌, ◌++◌, append-nil,
  append_assoc, arith, ok, ◌>>=◌, runtime_error, >>=-inv, length, All,
}
use lan_link.Bytes.{append_integer}
use lan_link.NetworkMessages.{NetworkSummary, ℤ, pos, negsuc, is_known_role, role_code}
use lan_link.NetworkMessages.Name.{valid_network_name}
use lan_link.NetworkMessages.Encode.{
  is_negative, to_u64, summary_checks, summary_bytes, append_summary, append_summaries,
  contains_network_id, encode_network_list_result,
}
use lan_link.NetworkMessages.Decode.{
  read_summary, summary_of, read_summaries, read_list_result, decode_network_list_result,
}
use native.Mathlib.Nat.{mod-eq_of_lt}
use lan_link.NetworkMessages.Codes.{to_role-code, role_code-lt}
use lan_link.NetworkMessages.RoundTrip.{valid_network_name-size}
use lan_link.Wire.{value_of, pure}
use lan_link.Wire.Laws.{read_bytes_next, get_integer_next, check_next, finished_next, next_ok}

abbrev pub magnitude : ℤ → ℕ
magnitude (pos n) = n
magnitude (negsuc n) = n

-- The sizes of the arrays and the ranges of the integers.
pub record IsTyped (s : NetworkSummary) : Type 0 where
  pub network_size : length s.network_id ≡ 16
  pub owner_size : length s.owner_device_id ≡ 32
  pub created_fits : magnitude s.created_at_ms < 2 ^ 63
  pub count_fits : s.member_count < 2 ^ 32

-- The bytes of a summary, with what follows them.
abbrev wire : NetworkSummary → List ℕ → List ℕ
wire s ys =
    s.network_id
    ++ (s.owner_device_id
        ++ (append_integer 1 (role_code s.role)
            ++ (append_integer 8 (to_u64 s.created_at_ms)
                ++ (append_integer 4 s.member_count
                    ++ (append_integer 2 (length s.name) ++ (s.name ++ ys))))))

wire_append : (s : NetworkSummary) (ys : List ℕ) → summary_bytes s ++ ys ≡ wire s ys
wire_append s ys = simp append_assoc

to_u64_pos :
    (t : ℤ)
    → is_negative t ≡ false
    → magnitude t < 2 ^ 63
    → (to_u64 t < 2 ^ 63) × (pos (to_u64 t) ≡ t)
unfolding to_u64 is_negative
to_u64_pos (pos n) h fits = (omega (arith, fits), ap pos (mod-eq_of_lt (omega (arith, fits))))
to_u64_pos (negsuc n) h fits = cc

summary_checks-inv :
    (s : NetworkSummary)
    → summary_checks s ≡ true
    → (is_known_role s.role ≡ true)
      × (is_negative s.created_at_ms ≡ false)
      × (valid_network_name s.name ≡ true)
unfolding summary_checks
summary_checks-inv s h = (ground arith, ground arith, ground arith)

summary_read :
    (s : NetworkSummary) (ys : List ℕ)
    → IsTyped s
    → summary_checks s ≡ true
    → read_summary (summary_bytes s ++ ys) ≡ ok (s, ys)
unfolding read_summary pure
summary_read s ys t checked =
    let (role, created, name) = summary_checks-inv s checked in
    let (small, exact) = to_u64_pos s.created_at_ms created t.created_fits in
    let same : summary_of s.network_id s.owner_device_id (role_code s.role) (to_u64 s.created_at_ms)
          s.member_count s.name
        ≡ s =
      rw (to_role-code s.role role, exact) refl in
    ap read_summary (wire_append s ys)
    ∙ read_bytes_next runtime_error 16 _ s.network_id _ t.network_size
    ∙ read_bytes_next runtime_error 32 _ s.owner_device_id _ t.owner_size
    ∙ get_integer_next runtime_error 1 _ _ _ (role_code-lt s.role role)
    ∙ get_integer_next runtime_error 8 _ _ _ (omega (arith, small))
    ∙ check_next runtime_error _ _ _ (ground (arith, small))
    ∙ get_integer_next runtime_error 4 _ _ _ (omega (arith, t.count_fits))
    ∙ get_integer_next runtime_error 2 _ _ _ (omega (arith, valid_network_name-size s.name name))
    ∙ read_bytes_next runtime_error _ _ s.name _ refl
    ∙ check_next runtime_error _ _ _ (ap summary_checks same ∙ checked)
    ∙ ap (λ r. ok (r, ys)) same

append_summaries-inv :
    (validated : List NetworkSummary) (s : NetworkSummary) (summaries : List NetworkSummary)
    (bytes : List ℕ)
    → append_summaries validated (s ∷ summaries) ≡ ok bytes
    → (contains_network_id validated s.network_id ≡ false)
      × (summary_checks s ≡ true)
      × (others : List ℕ) × (append_summaries (validated ++ s ∷ []) summaries ≡ ok others)
      × (bytes ≡ summary_bytes s ++ others)
unfolding append_summaries append_summary
append_summaries-inv validated s summaries bytes e =
    let fresh : contains_network_id validated s.network_id ≡ false = ground arith in
    let checked : summary_checks s ≡ true = ground arith in
    let rest = append_summaries (validated ++ s ∷ []) summaries >>= λ others.
    ok (summary_bytes s ++ others) in
    let form : append_summaries validated (s ∷ summaries) ≡ rest = rw (fresh, checked) refl in
    let (others, encoded, same) =
      >>=-inv (append_summaries (validated ++ s ∷ []) summaries)
        (λ others. ok (summary_bytes s ++ others)) bytes (sym form ∙ e) in
    (fresh, checked, others, encoded, cc same)

-- What the loops leave: `validated` on both sides.
summaries_read :
    (validated summaries : List NetworkSummary) (bytes : List ℕ)
    → All IsTyped summaries
    → append_summaries validated summaries ≡ ok bytes
    → read_summaries (length summaries) validated bytes ≡ ok (validated ++ summaries, [])
unfolding read_summaries append_summaries pure
summaries_read validated [] bytes t e =
    let nothing : bytes ≡ [] = cc e in rw (nothing, append-nil validated) refl
summaries_read validated (s ∷ summaries) bytes t e =
    let (fresh, checked, others, encoded, same) =
      append_summaries-inv validated s summaries bytes e in
    let more = summaries_read (validated ++ s ∷ []) summaries others (t.1) encoded in
    ap (read_summaries (length (s ∷ summaries)) validated) same
    ∙ next_ok read_summary _ _ others s (summary_read s others (t.0) checked)
    ∙ check_next runtime_error _ _ _ (ap not fresh)
    ∙ more
    ∙ ap (λ all. ok (all, [])) (append_assoc validated (s ∷ []) summaries)

-- A list of networks that was encoded, its arrays and integers of their sizes, is decoded.
pub decode-encode_list_result :
    (networks : List NetworkSummary) (bytes : List ℕ)
    → All IsTyped networks
    → encode_network_list_result networks ≡ ok bytes
    → decode_network_list_result bytes ≡ ok networks
unfolding encode_network_list_result read_list_result pure
decode-encode_list_result networks bytes t e =
    let few : length networks ≤ 1024 = ground arith in
    let form : encode_network_list_result networks ≡ (
        append_summaries [] networks >>= λ entries.
        ok (append_integer 2 (length networks) ++ entries)) =
      ground (arith, few) in
    let (entries, encoded, same) =
      >>=-inv (append_summaries [] networks)
        (λ entries. ok (append_integer 2 (length networks) ++ entries)) bytes (sym form ∙ e) in
    let read : read_list_result (append_integer 2 (length networks) ++ entries)
        ≡ ok (networks, []) =
      get_integer_next runtime_error 2 _ _ _ (omega (arith, few))
      ∙ check_next runtime_error _ _ _ (ground (arith, few))
      ∙ next_ok (read_summaries (length networks) []) _ entries [] networks
          (summaries_read [] networks entries t encoded)
      ∙ finished_next runtime_error _ in
    ap (λ payload. decode_network_list_result payload) (sym (cc same)) ∙ ap value_of read
