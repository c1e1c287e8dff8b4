-- ===== src/Policy/Subnets.antt =====
-- The subnet tests of src/protocol/network_policy.cpp. For an address below 2 ^ 32 and
-- 1 <= prefix <= 32, `address & (0xffffffffU << (32U - prefix))` clears the low `32 - prefix` bits.
use lan_link.Prelude.{
  ℕ, zero, suc, ◌+◌, ◌-◌, ◌*◌, ◌/◌, ◌^◌, ◌≤◌, ◌<◌, min, ◌≡◌, ◌↔◌, ◌⊎◌, inl, inr, sym, ap, ◌∙◌, Bool,
  true, false, not, ◌&&◌, ◌||◌, arith, ltb, leb, ◌==◌, ==_iff, if◌then◌else◌,
}
use native.Mathlib.Nat.{pow-suc, one-le-pow, div-div-eq-div-mul, mul-div_left}

abbrev pub clear_low : ℕ → ℕ → ℕ
clear_low bits address = address / 2 ^ bits * 2 ^ bits

unfoldable pub subnet_contains : ℕ → ℕ → ℕ → Bool
subnet_contains subnet prefix address =
    ltb 0 prefix && leb prefix 32 && clear_low (32 - prefix) address == subnet

unfoldable pub subnets_overlap : ℕ → ℕ → ℕ → ℕ → Bool
subnets_overlap a ap b bp =
    if ap == 0 || ltb 32 ap || bp == 0 || ltb 32 bp
    then true
    else clear_low (32 - min ap bp) a == clear_low (32 - min ap bp) b

unfoldable pub private_routed_subnet : ℕ → ℕ → Bool
unfolding subnet_contains
private_routed_subnet a p =
    if ltb p 8 || ltb 30 p || not (subnet_contains a p a)
    then false
    else (leb 8 p && subnet_contains 0x0a00_0000 8 a)
      || (leb 12 p && subnet_contains 0xac10_0000 12 a)
      || (leb 16 p && subnet_contains 0xc0a8_0000 16 a)

pow-add : (m n : ℕ) → 2 ^ (m + n) ≡ 2 ^ m * 2 ^ n
pow-add m zero = let e : m + 0 ≡ m = omega arith in rw e (omega arith)
pow-add m (suc n) =
    let e : m + suc n ≡ suc (m + n) = omega arith in
    rw e (
      omega (
        arith,
        pow-suc 2 (m + n),
        pow-suc 2 n,
        pow-add m n,
        ap (λ (t : ℕ). 2 ^ m * t) (pow-suc 2 n),
      ))

div_twice : (j k x : ℕ) → j ≤ k → clear_low j x / 2 ^ k ≡ x / 2 ^ k
div_twice j k x h =
    let m = k - j in
    let e : k ≡ j + m = omega arith in
    rw (e, pow-add j m, ← div-div-eq-div-mul (clear_low j x) (2 ^ j) (2 ^ m))
      (rw (mul-div_left (x / 2 ^ j) (one-le-pow j 2 (omega arith)))
        (div-div-eq-div-mul x (2 ^ j) (2 ^ m)))

-- Clearing fewer bits first changes nothing.
clear_low_twice : (j k x : ℕ) → j ≤ k → clear_low k (clear_low j x) ≡ clear_low k x
clear_low_twice j k x h = ap (λ (t : ℕ). t * 2 ^ k) (div_twice j k x h)

contains-inv :
    (a p x : ℕ) → subnet_contains a p x ≡ true → (1 ≤ p) × (p ≤ 32) × (clear_low (32 - p) x ≡ a)
unfolding subnet_contains
contains-inv a p x h = (ground arith, ground arith, ground arith)

contains_intro :
    (a p x : ℕ) → 1 ≤ p → p ≤ 32 → clear_low (32 - p) x ≡ a → subnet_contains a p x ≡ true
unfolding subnet_contains
contains_intro a p x h k e = ground arith

overlap_test :
    (a ap b bp : ℕ)
    → 1 ≤ ap
    → ap ≤ 32
    → 1 ≤ bp
    → bp ≤ 32
    → subnets_overlap a ap b bp ≡ (clear_low (32 - min ap bp) a == clear_low (32 - min ap bp) b)
unfolding subnets_overlap
overlap_test a ap b bp h k m n = ground arith

subnets_overlap_comm : (a ap b bp : ℕ) → subnets_overlap a ap b bp ≡ subnets_overlap b bp a ap
unfolding subnets_overlap
subnets_overlap_comm a ap b bp = let e : min ap bp ≡ min bp ap = omega arith in rw e (ground arith)

-- Where the first subnet is the wider, they overlap if it contains the second.
module _ (a ap b bp : ℕ) (wide : ap ≤ bp) (ca : subnet_contains a ap a ≡ true)
    (cb : subnet_contains b bp b ≡ true) where
  overlap_wide :
      (subnets_overlap a ap b bp ≡ true) ↔ (clear_low (32 - ap) a ≡ clear_low (32 - ap) b)
  overlap_wide =
      let (alo, ahi, _) = contains-inv a ap a ca in
      let (blo, bhi, _) = contains-inv b bp b cb in
      let e : min ap bp ≡ ap = omega arith in
      rw (overlap_test a ap b bp alo ahi blo bhi, e) (==_iff _ _)

  meet_wide :
      subnets_overlap a ap b bp ≡ true
      → (x : ℕ) × (subnet_contains a ap x ≡ true) × (subnet_contains b bp x ≡ true)
  meet_wide h =
      let (lo, hi, self) = contains-inv a ap a ca in
      (b, contains_intro a ap b lo hi (sym (overlap_wide.0 h) ∙ self), cb)

  share_wide :
      (x : ℕ)
      → subnet_contains a ap x ≡ true
      → subnet_contains b bp x ≡ true
      → subnets_overlap a ap b bp ≡ true
  share_wide x hx kx =
      let (_, _, ax) = contains-inv a ap x hx in
      let (_, _, bx) = contains-inv b bp x kx in
      overlap_wide.1 (
        ap_clear (sym ax)
        ∙ clear_low_twice (32 - ap) (32 - ap) x (omega arith)
        ∙ sym (clear_low_twice (32 - bp) (32 - ap) x (omega arith))
        ∙ ap_clear bx)
    where
      ap_clear : {y z : ℕ} → y ≡ z → clear_low (32 - ap) y ≡ clear_low (32 - ap) z
      ap_clear e = rw e

-- Two subnets, each with its own address among its addresses, overlap exactly if an address lies
-- in both.
pub subnets_overlap_iff :
    (a ap b bp : ℕ)
    → subnet_contains a ap a ≡ true
    → subnet_contains b bp b ≡ true
    → (subnets_overlap a ap b bp ≡ true)
      ↔ ((x : ℕ) × (subnet_contains a ap x ≡ true) × (subnet_contains b bp x ≡ true))
subnets_overlap_iff a ap b bp ca cb = (meet, share)
  where
    order : (ap ≤ bp) ⊎ (bp ≤ ap)
    order = omega arith

    meet :
        subnets_overlap a ap b bp ≡ true
        → (x : ℕ) × (subnet_contains a ap x ≡ true) × (subnet_contains b bp x ≡ true)
    meet h = elim order [
      | inl wide ↦ meet_wide a ap b bp wide ca cb h
      | inr wide ↦
          let (x, hb, ha) = meet_wide b bp a ap wide cb ca (rw subnets_overlap_comm at h) in
          (x, ha, hb)
    ]

    share :
        (x : ℕ) × (subnet_contains a ap x ≡ true) × (subnet_contains b bp x ≡ true)
        → subnets_overlap a ap b bp ≡ true
    share (x, hx, kx) = elim order [
      | inl wide ↦ share_wide a ap b bp wide ca cb x hx kx
      | inr wide ↦ subnets_overlap_comm a ap b bp ∙ share_wide b bp a ap wide cb ca x kx hx
    ]

private_tests :
    (a p : ℕ)
    → private_routed_subnet a p ≡ true
    → ((8 ≤ p) × (clear_low 24 a ≡ 0x0a00_0000))
      ⊎ (((12 ≤ p) × (clear_low 20 a ≡ 0xac10_0000)) ⊎ ((16 ≤ p) × (clear_low 16 a ≡ 0xc0a8_0000)))
unfolding private_routed_subnet
private_tests a p h = ground arith

-- The block of an address is that of its subnet.
same_block : (a p x k : ℕ) → 32 - p ≤ k → clear_low (32 - p) x ≡ a → clear_low k x ≡ clear_low k a
same_block a p x k h e = sym (clear_low_twice (32 - p) k x h) ∙ ap (clear_low k) e

-- Every address of a subnet that may be routed lies in 10/8, 172.16/12 or 192.168/16.
pub private_routed_subnet-private :
    (a p x : ℕ)
    → private_routed_subnet a p ≡ true
    → subnet_contains a p x ≡ true
    → ((0x0a00_0000 ≤ x) × (x < 0x0b00_0000))
      ⊎ (((0xac10_0000 ≤ x) × (x < 0xac20_0000)) ⊎ ((0xc0a8_0000 ≤ x) × (x < 0xc0a9_0000)))
private_routed_subnet-private a p x h k =
    let (_, _, e) = contains-inv a p x k in
    elim (private_tests a p h) [
      | inl (q, b) ↦ inl (omega (arith, same_block a p x 24 (omega arith) e, b))
      | inr (inl (q, b)) ↦ inr (inl (omega (arith, same_block a p x 20 (omega arith) e, b)))
      | inr (inr (q, b)) ↦ inr (inr (omega (arith, same_block a p x 16 (omega arith) e, b)))
    ]
