-- ===== src/NetworkMessages/Name.antt =====
-- `valid_network_name` of src/protocol/network_messages.cpp. On a byte `x & (2 ^ k - 1)` is
-- `x % 2 ^ k`, and `(x & 0xc0) == 0x80` says that `x / 64` is 2.
use lan_link.Prelude.{
  ℕ, zero, suc, ◌+◌, ◌*◌, ◌/◌, ◌%◌, Bool, true, false, not, ◌&&◌, ◌||◌, Option, none, some, List,
  [], ◌∷◌, ltb, leb, ◌==◌, if◌then◌else◌, length,
}
use lan_link.NetworkMessages.{max_network_name_size}

-- The code point's first bits and the number of continuation bytes that the first byte announces.
unfoldable pub lead : ℕ → Option (ℕ × ℕ)
lead first =
    if leb first 0x7f
    then some (first, 0)
    else if leb 0xc2 first && leb first 0xdf
    then some (first % 32, 1)
    else if leb 0xe0 first && leb first 0xef
    then some (first % 16, 2)
    else if leb 0xf0 first && leb first 0xf4
    then some (first % 8, 3)
    else none

unfoldable pub continuation : ℕ → ℕ → List ℕ → Option (ℕ × List ℕ)
continuation zero code_point bytes = some (code_point, bytes)
continuation (suc count) code_point [] = none
continuation (suc count) code_point (next ∷ bytes) =
    if next / 64 == 2 then continuation count (code_point * 64 + next % 64) bytes else none

unfoldable pub acceptable : ℕ → ℕ → Bool
acceptable count code_point =
    let overlong =
      (count == 1 && ltb code_point 0x80)
      || (count == 2 && ltb code_point 0x800)
      || (count == 3 && ltb code_point 0x1_0000) in
    let surrogate = leb 0xd800 code_point && leb code_point 0xdfff in
    let control = ltb code_point 0x20 || (leb 0x7f code_point && leb code_point 0x9f) in
    not (overlong || surrogate || ltb 0x10_ffff code_point || control)

-- One round takes a byte at least: `length` rounds are enough.
unfoldable pub name_loop : ℕ → List ℕ → Bool
name_loop fuel [] = true
name_loop zero (b ∷ bytes) = false
name_loop (suc fuel) (first ∷ bytes) = elim (lead first) [
  | none ↦ false
  | some (bits, count) ↦ elim (continuation count bits bytes) [
    | none ↦ false
    | some (code_point, rest) ↦
        let more = name_loop fuel rest in if acceptable count code_point then more else false
  ]
]

unfoldable pub valid_network_name : List ℕ → Bool
valid_network_name [] = false
valid_network_name (b ∷ bytes) =
    if ltb max_network_name_size (length (b ∷ bytes))
    then false
    else name_loop (length (b ∷ bytes)) (b ∷ bytes)
