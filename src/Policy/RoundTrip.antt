-- ===== src/Policy/RoundTrip.antt =====
-- The parts of a network policy, to bytes and back.
pub mod Members
pub mod Whole
use lan_link.Prelude.{
  ℕ, ◌≤◌, ◌≡◌, refl, ap, ◌∙◌, Bool, true, false, not, ◌&&◌, ◌||◌, List, [], ◌∷◌, ◌++◌, append_assoc,
  arith, ok, invalid_argument, >>=-inv, require-inv, length, All, length-append, bytes_eq,
}
use lan_link.Bytes.{append_integer, length-append_integer}
use lan_link.Policy.{
  no_device, is_empty, contains, members_group, PolicySubject, AccessRule, GatewayNode,
}
use lan_link.Policy.Encode.{
  encode_text, encode_subject, flag, encode_hubs, encode_rules, encode_groups, encode_gateways,
}
use lan_link.Policy.Decode.{
  read_device, read_text, read_subject, read_flag, read_rule, read_gateway,
}
use lan_link.Wire.{pure, Reader}
use lan_link.Wire.Laws.{get_integer_next, check_next, next_ok, read_bytes-append}
use lan_link.Wire.Lists.{Spells, no_items, item}

-- `piece` is read as `a`, whatever follows it.
abbrev pub Reads {ℓ} : {A : Type ℓ} → Reader A → A → List ℕ → Type ℓ
Reads r a piece = (ys : List ℕ) → r (piece ++ ys) ≡ ok (a, ys)

pub device_Reads : (d : List ℕ) → length d ≡ 32 → Reads read_device d d
unfolding read_device
device_Reads d n ys = read_bytes-append invalid_argument 32 d ys n

text-inv :
    (value bytes : List ℕ)
    → encode_text value ≡ ok bytes
    → (length value ≤ 32) × (bytes ≡ append_integer 1 (length value) ++ value)
unfolding encode_text
text-inv value bytes e = (ground arith, ground arith)

pub text_Reads :
    (value bytes : List ℕ)
    → encode_text value ≡ ok bytes
    → Reads read_text value bytes × (length bytes ≤ 33)
unfolding read_text
text_Reads value bytes e =
    let (small, same) = text-inv value bytes e in
    (
      (λ ys.
          ap (λ b. read_text (b ++ ys)) same
          ∙ ap read_text (append_assoc (append_integer 1 (length value)) value ys)
          ∙ get_integer_next invalid_argument 1 _ _ _ (omega (arith, small))
          ∙ read_bytes-append invalid_argument _ value ys refl),
      rw same (
          rw (length-append (append_integer 1 (length value)) value)
            (omega (arith, small, length-append_integer 1 (length value)))),
    )

subject-inv :
    (s : PolicySubject) (bytes : List ℕ)
    → encode_subject s ≡ ok bytes
    → (group : List ℕ) × (encode_text s.group ≡ ok group) × (bytes ≡ s.device ++ group)
unfolding encode_subject
subject-inv s bytes e =
    let (_, e1) = require-inv (bytes_eq s.device no_device || is_empty s.group) _ _ bytes e in
    let (group, encoded, e2) = >>=-inv (encode_text s.group) _ bytes e1 in (group, encoded, cc e2)

subject_Reads :
    (s : PolicySubject) (bytes : List ℕ)
    → length s.device ≡ 32
    → encode_subject s ≡ ok bytes
    → Reads read_subject s bytes × (length bytes ≤ 65)
unfolding read_subject pure
subject_Reads s bytes n e =
    let (group, encoded, same) = subject-inv s bytes e in
    let (reads, size) = text_Reads s.group group encoded in
    (
      (λ ys.
          ap (λ b. read_subject (b ++ ys)) same
          ∙ ap read_subject (append_assoc s.device group ys)
          ∙ next_ok read_device _ _ _ s.device (device_Reads s.device n (group ++ ys))
          ∙ next_ok read_text _ _ _ s.group (reads ys)),
      rw (same, length-append s.device group) (omega (arith, n, size)),
    )

pub flag-Reads : (b : Bool) → Reads read_flag b (append_integer 1 (flag b))
unfolding read_flag pure
flag-Reads true ys =
    get_integer_next invalid_argument 1 1 _ _ (omega arith) ∙ check_next invalid_argument _ _ _ refl
flag-Reads false ys =
    get_integer_next invalid_argument 1 0 _ _ (omega arith) ∙ check_next invalid_argument _ _ _ refl

pub hubs_Spells :
    (ids hubs : List (List ℕ)) (bytes : List ℕ)
    → All (λ d. length d ≡ 32) hubs
    → encode_hubs ids hubs ≡ ok bytes
    → Spells 32 read_device hubs bytes
unfolding encode_hubs
hubs_Spells ids [] bytes t e = no_items (cc e)
hubs_Spells ids (d ∷ hubs) bytes t e =
    let (_, e1) = require-inv (not (bytes_eq d no_device) && not (contains ids d)) _ _ bytes e in
    let (others, encoded, e2) = >>=-inv (encode_hubs (d ∷ ids) hubs) _ bytes e1 in
    item d others (device_Reads d t.0) (omega (arith, t.0)) (cc e2)
      (hubs_Spells (d ∷ ids) hubs others t.1 encoded)

pub groups_Spells :
    (groups gs : List (List ℕ)) (bytes : List ℕ)
    → encode_groups groups gs ≡ ok bytes
    → Spells 33 read_text gs bytes
unfolding encode_groups
groups_Spells groups [] bytes e = no_items (cc e)
groups_Spells groups (g ∷ gs) bytes e =
    let (_, e1) =
      require-inv (not (is_empty g) && not (bytes_eq g members_group) && not (contains groups g)) _
        _ bytes e in
    let (name, named, e2) = >>=-inv (encode_text g) _ bytes e1 in
    let (others, encoded, e3) = >>=-inv (encode_groups (g ∷ groups) gs) _ bytes e2 in
    let (reads, size) = text_Reads g name named in
    item name others reads size (cc e3) (groups_Spells (g ∷ groups) gs others encoded)

pub gateways_Spells :
    (ids : List (List ℕ)) (gateways : List GatewayNode) (bytes : List ℕ)
    → All (λ (g : GatewayNode). length g.device ≡ 32) gateways
    → encode_gateways ids gateways ≡ ok bytes
    → Spells 33 read_gateway gateways bytes
unfolding encode_gateways read_gateway pure
gateways_Spells ids [] bytes t e = no_items (cc e)
gateways_Spells ids (g ∷ gateways) bytes t e =
    let (_, e1) =
      require-inv (not (bytes_eq g.device no_device) && not (contains ids g.device)) _ _ bytes e in
    let (others, encoded, e2) = >>=-inv (encode_gateways (g.device ∷ ids) gateways) _ bytes e1 in
    let approved = append_integer 1 (flag g.approved) in
    let reads : Reads read_gateway g (g.device ++ approved) = λ ys.
      ap read_gateway (append_assoc g.device approved ys)
      ∙ next_ok read_device _ _ _ g.device (device_Reads g.device t.0 (approved ++ ys))
      ∙ next_ok read_flag _ _ _ g.approved (flag-Reads g.approved ys) in
    item (g.device ++ approved) others reads
      (rw (length-append g.device approved)
        (omega (arith, t.0, length-append_integer 1 (flag g.approved))))
      (cc e2) (gateways_Spells (g.device ∷ ids) gateways others t.1 encoded)

abbrev pub IsTypedRule : AccessRule → Type 0
IsTypedRule r = (length r.first.device ≡ 32) × (length r.second.device ≡ 32)

rule_Reads :
    (r : AccessRule) (first second : List ℕ)
    → IsTypedRule r
    → encode_subject r.first ≡ ok first
    → encode_subject r.second ≡ ok second
    → Reads read_rule r (first ++ (second ++ append_integer 1 (flag r.allow)))
      × (length (first ++ (second ++ append_integer 1 (flag r.allow))) ≤ 131)
unfolding read_rule pure
rule_Reads r first second t e d =
    let allow = append_integer 1 (flag r.allow) in
    let (reads, size) = subject_Reads r.first first t.0 e in
    let (reads', size') = subject_Reads r.second second t.1 d in
    (
      (λ ys.
          let form : (first ++ (second ++ allow)) ++ ys ≡ first ++ (second ++ (allow ++ ys)) =
            simp append_assoc in
          ap read_rule form
          ∙ next_ok read_subject _ _ _ r.first (reads (second ++ (allow ++ ys)))
          ∙ next_ok read_subject _ _ _ r.second (reads' (allow ++ ys))
          ∙ next_ok read_flag _ _ _ r.allow (flag-Reads r.allow ys)),
      rw (length-append first (second ++ allow), length-append second allow)
          (omega (arith, size, size', length-append_integer 1 (flag r.allow))),
    )

pub rules_Spells :
    (rules : List AccessRule) (bytes : List ℕ)
    → All IsTypedRule rules
    → encode_rules rules ≡ ok bytes
    → Spells 131 read_rule rules bytes
unfolding encode_rules
rules_Spells [] bytes t e = no_items (cc e)
rules_Spells (r ∷ rules) bytes t e =
    let (first, encoded, e1) = >>=-inv (encode_subject r.first) _ bytes e in
    let (second, encoded', e2) = >>=-inv (encode_subject r.second) _ bytes e1 in
    let (others, more, e3) = >>=-inv (encode_rules rules) _ bytes e2 in
    let (reads, size) = rule_Reads r first second t.0 encoded encoded' in
    item _ others reads size (cc e3) (rules_Spells rules others t.1 more)
