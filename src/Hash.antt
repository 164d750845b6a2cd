-- ===== src/Hash.antt =====
-- Lab5/libs/hash.c
pub mod Range
use nku_os_ucore.Common.{ℕ, ◌-◌, ◌*◌, ◌/◌, ◌^◌, u32, u64}

-- `GOLDEN_RATIO_PRIME_32`, an `unsigned long`
abbrev pub golden_ratio_prime_32 : ℕ
golden_ratio_prime_32 = 2654404609

-- The product is a 64-bit one, and is cut to 32 bits.
unfoldable pub hash32 : ℕ → ℕ → ℕ
hash32 val bits = u32 (u64 (val * golden_ratio_prime_32)) / 2 ^ (32 - bits)
