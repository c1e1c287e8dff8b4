-- ===== src/Protocol/Fanout.antt =====
-- include/lanlink/protocol/ipv4_fanout.hpp: which addresses a subnet has, and which destinations go to
-- every peer. For 1 <= prefix_length <= 30 the complement of the mask `0xffffffffU << (32U -
-- prefix_length)` is `2 ^ (32 - prefix_length) - 1`.
use lan_link.Prelude.{
  ℕ, ◌+◌, ◌-◌, ◌%◌, ◌^◌, Bool, false, not, ◌&&◌, ◌||◌, ltb, leb, ◌==◌, if◌then◌else◌,
}
use lan_link.Policy.Subnets.{clear_low}

unfoldable pub is_ipv4_subnet : ℕ → ℕ → Bool
is_ipv4_subnet subnet prefix_length =
    ltb 0 prefix_length && leb prefix_length 30 && subnet % 2 ^ (32 - prefix_length) == 0

-- `subnet | ~mask`
abbrev pub last_address : ℕ → ℕ → ℕ
last_address subnet prefix_length =
    clear_low (32 - prefix_length) subnet + (2 ^ (32 - prefix_length) - 1)

unfoldable pub is_ipv4_host : ℕ → ℕ → ℕ → Bool
is_ipv4_host address subnet prefix_length =
    if not (is_ipv4_subnet subnet prefix_length)
    then false
    else not (address == subnet)
      && not (address == last_address subnet prefix_length)
      && ltb address 0xe000_0000
      && clear_low (32 - prefix_length) address == subnet

unfoldable pub is_ipv4_multicast : ℕ → Bool
is_ipv4_multicast address = clear_low 28 address == 0xe000_0000

unfoldable pub is_ipv4_scoped_multicast : ℕ → Bool
is_ipv4_scoped_multicast address =
    clear_low 24 address == 0xef00_0000 || address == 0xe000_00fb || address == 0xe000_00fc

unfoldable pub is_ipv4_fanout_destination : ℕ → ℕ → ℕ → Bool
is_ipv4_fanout_destination destination subnet prefix_length =
    if not (is_ipv4_subnet subnet prefix_length)
    then false
    else destination == 0xffff_ffff
      || is_ipv4_scoped_multicast destination
      || destination == last_address subnet prefix_length
