-- ===== src/Net/Address.antt =====
-- The address that an interface gives itself (kernel/src/net/mod.rs, `auto6`).
use snek_os.Prelude.{
  ℕ, ◌<◌, true, List, [], ◌∷◌, ◌==◌, ==_iff, bit_and, bit_or, bit_xor, shl, every, every_lem, ◌≡◌,
  refl, ap,
}
use snek_os.Net.{link_ip}

-- RFC 4291, appendix A: the modified EUI-64 of a MAC address, in four groups of 16 bits. The bit that tells
-- local from universal addresses is inverted.
abbrev pub modified_eui64 : ℕ → ℕ → ℕ → ℕ → ℕ → ℕ → List ℕ
modified_eui64 m0 m1 m2 m3 m4 m5 =
    bit_or (shl (bit_xor m0 2) 8) m1
    ∷ bit_or (shl m2 8) 0xff
    ∷ bit_or (shl 0xfe 8) m3
    ∷ bit_or (shl m4 8) m5
    ∷ []

first_table : every (λ m. bit_and m 0b11111101 == bit_xor (bit_or m 2) 2) 256 ≡ true
unfolding every
first_table = refl

first_byte : (m : ℕ) → m < 256 → bit_and m 0b11111101 ≡ bit_xor (bit_or m 2) 2
first_byte m lt =
    (==_iff (bit_and m 0b11111101) (bit_xor (bit_or m 2) 2)).0
      (every_lem (λ m. bit_and m 0b11111101 == bit_xor (bit_or m 2) 2) 256 m lt first_table)

-- The address of the link is the prefix fe80::/64 and the modified EUI-64 of the MAC address with its
-- local bit set, whether that bit is set in the MAC address or not.
pub link_ip-modified_eui64 :
    (m0 m1 m2 m3 m4 m5 : ℕ)
    → m0 < 256
    → link_ip m0 m1 m2 m3 m4 m5 ≡ 0xfe80 ∷ 0 ∷ 0 ∷ 0 ∷ modified_eui64 (bit_or m0 2) m1 m2 m3 m4 m5
link_ip-modified_eui64 m0 m1 m2 m3 m4 m5 lt =
    ap
      (λ b.
        0xfe80
        ∷ 0
        ∷ 0
        ∷ 0
        ∷ bit_or (shl b 8) m1
        ∷ bit_or (shl m2 8) 0xff
        ∷ bit_or 0xfe00 m3
        ∷ bit_or (shl m4 8) m5
        ∷ [])
      (first_byte m0 lt)
